-- ===== src/Wire/Parser/Sound.antt =====
-- What a packet that `parse_packet` returns says of the bytes.
use octnet_tftp.Base.{
  ℕ, zero, suc, ◌≡◌, refl, sym, subst, ap, ◌⊎◌, inl, inr, [], ◌∷◌, ◌++◌, Option, some, Bytes,
  IsByte, All, arith, length,
}
use octnet_tftp.Wire.Packet.{
  Options, Packet, file_req, data_packet, ack, error, op_rrq, op_wrq, op_data, op_ack, op_error,
}
use octnet_tftp.Wire.Options.{emplace}
use octnet_tftp.Wire.Options.Order.{emplace-All, emplace-IsSorted}
use octnet_tftp.Wire.Deserializer.{
  Parsed, returned, thrown, stuck, ◌>>=◌, has_more_bytes, ensure_all_read, read_remaining_bytes,
  read_uint16, read_string,
}
use octnet_tftp.Wire.Deserializer.Fields.{read_uint16_inv, read_string_inv}
use octnet_tftp.Wire.WellFormed.{IsText, AreTexts, IsSorted, IsWellFormed}
use octnet_tftp.Wire.Encoding.{u16_encoding, options_encoding, encoding}
use octnet_tftp.Wire.Parser.{
  parse_options, parse_file_req, parse_op, parse_try, parse_packet, parse_data, parse_ack,
  parse_error, caught,
}

-- The map that the pairs of a request make, in the order of the bytes.
abbrev pub emplace_all : Options → Options → Options
emplace_all m [] = m
emplace_all m ((name, value) ∷ pairs) = emplace_all (emplace name value m) pairs

-- The bytes behind a packet: those of its layout, where a request's options stand as they came.
abbrev pub ReadFrom : Packet → Bytes → Type 0
ReadFrom (file_req p) d =
    (pairs : Options) × (p.options ≡ emplace_all [] pairs)
    × (d ≡ u16_encoding p.op (p.filename ++ 0 ∷ (p.mode ++ 0 ∷ options_encoding pairs)))
ReadFrom p d = d ≡ encoding p

>>=-eq-returned {ℓ κ} :
    {X : Type ℓ} {Y : Type κ} (first : Parsed X) (next : X → Parsed Y) {y : Y}
    → (first >>= next) ≡ returned y
    → (x : X) × (first ≡ returned x) × (next x ≡ returned y)
>>=-eq-returned stuck next h = cc
>>=-eq-returned (thrown e) next h = cc
>>=-eq-returned (returned x) next h = (x, refl, h)

ensure_all_read_inv : (d : Bytes) {u : Unit {0}} → ensure_all_read d ≡ returned u → d ≡ []
unfolding ensure_all_read
ensure_all_read_inv [] e = refl
ensure_all_read_inv (b ∷ d) e = cc

-- Two strings in a row, as for a name with its value.
read_two_inv {ℓ} :
    {B : Type ℓ} (d : Bytes) (f : Bytes → Bytes → Bytes → Parsed B) {b : B}
    → All IsByte d
    → (read_string d >>= λ (s, d1). read_string d1 >>= λ (t, d2). f s t d2) ≡ returned b
    → (s t d2 : Bytes) × IsText s
      × IsText t
      × All IsByte d2
      × (d ≡ s ++ 0 ∷ (t ++ 0 ∷ d2))
      × (f s t d2 ≡ returned b)
read_two_inv d f a e =
    let ((s, d1), e1, k1) =
      >>=-eq-returned (read_string d) (λ (s, d1). read_string d1 >>= λ (t, d2). f s t d2) e in
    let ((t, d2), e2, k2) = >>=-eq-returned (read_string d1) (λ (t, d2). f s t d2) k1 in
    let (hs, a1, l1) = read_string_inv d s d1 a e1 in
    let (ht, a2, l2) = read_string_inv d1 t d2 a1 e2 in (s, t, d2, hs, ht, a2, cc, k2)

-- The loop over the options, from any map with its keys in order.
abbrev ReadOptions : Options → Options → Bytes → Bytes → Type 0
ReadOptions m options d rest =
    AreTexts options
    × IsSorted options
    × (rest ≡ [])
    × ((pairs : Options) × (options ≡ emplace_all m pairs) × (d ≡ options_encoding pairs))

parse_options_end : (fuel : ℕ) (m : Options) → parse_options fuel m [] ≡ returned (m, [])
unfolding parse_options has_more_bytes
parse_options_end zero m = refl
parse_options_end (suc fuel) m = refl

parse_options_more :
    (fuel : ℕ) (m : Options) (b : ℕ) (d : Bytes) (r : Options × Bytes)
    → parse_options (suc fuel) m (b ∷ d) ≡ returned r
    → (read_string (b ∷ d) >>= λ (name, d1).
        read_string d1 >>= λ (value, d2). parse_options fuel (emplace name value m) d2)
      ≡ returned r
unfolding parse_options has_more_bytes
parse_options_more fuel m b d r e = e

parse_options_inv :
    (fuel : ℕ) (m options : Options) (d rest : Bytes)
    → All IsByte d
    → AreTexts m
    → IsSorted m
    → parse_options fuel m d ≡ returned (options, rest)
    → ReadOptions m options d rest
parse_options_inv fuel m options [] rest a ht hs e =
    let eo : m ≡ options = cc (parse_options_end fuel m) in
    let er : [] ≡ rest = cc (parse_options_end fuel m) in
    (subst AreTexts eo ht, subst IsSorted eo hs, sym er, ([], sym eo, refl))
parse_options_inv zero m options (b ∷ d) rest a ht hs e = unfold parse_options has_more_bytes in cc
parse_options_inv (suc fuel) m options (b ∷ d) rest a ht hs e =
    let (name, value, d2, hn, hv, a2, l, k) =
      read_two_inv (b ∷ d) (λ name value d2. parse_options fuel (emplace name value m) d2) a
        (parse_options_more fuel m b d (options, rest) e) in
    let (t, s, r, (pairs, eo, l2)) =
      parse_options_inv fuel (emplace name value m) options d2 rest a2
        (emplace-All (λ o. IsText o.0 × IsText o.1) name value m (hn, hv) ht)
        (emplace-IsSorted name value m hs) k in
    (t, s, r, ((name, value) ∷ pairs, eo, cc))

abbrev file_req_of : ℕ → Bytes → Bytes → Options → Packet
file_req_of op filename mode options =
    file_req (record { op = op; filename = filename; mode = mode; options = options })

-- What `parse_file_req` does after the loop, and after the two names.
abbrev file_req_end : ℕ → Bytes → Bytes → Options × Bytes → Parsed Packet
file_req_end op filename mode (options, d) =
    ensure_all_read d >>= λ _. returned (file_req_of op filename mode options)

abbrev file_req_options : ℕ → Bytes → Bytes → Bytes → Parsed Packet
file_req_options op filename mode d =
    parse_options (length d) [] d >>= file_req_end op filename mode

parse_file_req_more :
    (op : ℕ) (d : Bytes) (p : Packet)
    → parse_file_req op d ≡ returned p
    → (read_string d >>= λ (s, d1). read_string d1 >>= λ (t, d2). file_req_options op s t d2)
      ≡ returned p
unfolding parse_file_req
parse_file_req_more op d p e = e

-- What a request read says of the bytes behind its op, and so for the other types.
abbrev IsRead : Packet → ℕ → Bytes → Type 0
IsRead p op d = IsWellFormed p × ReadFrom p (u16_encoding op d)

parse_file_req-IsRead :
    (op : ℕ) (d : Bytes) (p : Packet)
    → (op ≡ op_rrq) ⊎ (op ≡ op_wrq)
    → All IsByte d
    → parse_file_req op d ≡ returned p
    → IsRead p op d
parse_file_req-IsRead op d p ho a e =
    let (filename, mode, d2, hf, hm, a2, l, k) =
      read_two_inv d (file_req_options op) a (parse_file_req_more op d p e) in
    let ((options, d3), e3, k3) =
      >>=-eq-returned (parse_options (length d2) [] d2) (file_req_end op filename mode) k in
    let (t, s, r, (pairs, eo, l2)) = parse_options_inv (length d2) [] options d2 d3 a2 tt tt e3 in
    let (u, e4, k4) =
      >>=-eq-returned (ensure_all_read d3) (λ _. returned (file_req_of op filename mode options))
        k3 in
    let ep : file_req_of op filename mode options ≡ p = cc in
    subst (λ p. IsRead p op d) ep ((ho, hf, hm, t, s), (pairs, eo, cc))

parse_data-IsRead :
    (d : Bytes) (p : Packet) → All IsByte d → parse_data d ≡ returned p → IsRead p op_data d
unfolding parse_data read_remaining_bytes ensure_all_read
parse_data-IsRead d p a e =
    let packet : ℕ → Bytes → Packet =
      λ n bytes. data_packet (record { op = op_data; block_no = n; bytes = bytes }) in
    let ((n, d1), e1, k1) = >>=-eq-returned (read_uint16 d) (λ (n, d1). returned (packet n d1)) e in
    let (hn, a1, l) = read_uint16_inv d n d1 a e1 in
    let ep : packet n d1 ≡ p = cc in subst (λ p. IsRead p op_data d) ep ((refl, hn, a1), cc)

parse_ack-IsRead :
    (d : Bytes) (p : Packet) → All IsByte d → parse_ack d ≡ returned p → IsRead p op_ack d
unfolding parse_ack
parse_ack-IsRead d p a e =
    let packet : ℕ → Packet = λ n. ack (record { op = op_ack; block_no = n }) in
    let ((n, d1), e1, k1) =
      >>=-eq-returned (read_uint16 d) (λ (n, d1). ensure_all_read d1 >>= λ _. returned (packet n))
        e in
    let (hn, a1, l) = read_uint16_inv d n d1 a e1 in
    let (u, e2, k2) = >>=-eq-returned (ensure_all_read d1) (λ _. returned (packet n)) k1 in
    let ep : packet n ≡ p = cc in
    subst (λ p. IsRead p op_ack d) ep ((refl, hn), cc (ensure_all_read_inv d1 e2))

parse_error-IsRead :
    (d : Bytes) (p : Packet) → All IsByte d → parse_error d ≡ returned p → IsRead p op_error d
unfolding parse_error
parse_error-IsRead d p a e =
    let packet : ℕ → Bytes → Packet =
      λ n m. error (record { op = op_error; error_code = n; error_message = m }) in
    let ((n, d1), e1, k1) =
      >>=-eq-returned (read_uint16 d)
        (λ (n, d1). read_string d1 >>= λ (m, d2). ensure_all_read d2 >>= λ _. returned (packet n m))
        e in
    let (hn, a1, l) = read_uint16_inv d n d1 a e1 in
    let ((m, d2), e2, k2) =
      >>=-eq-returned (read_string d1)
        (λ (m, d2). ensure_all_read d2 >>= λ _. returned (packet n m)) k1 in
    let (hm, a2, l2) = read_string_inv d1 m d2 a1 e2 in
    let (u, e3, k3) = >>=-eq-returned (ensure_all_read d2) (λ _. returned (packet n m)) k2 in
    let ep : packet n m ≡ p = cc in
    subst (λ p. IsRead p op_error d) ep ((refl, hn, hm), cc (ensure_all_read_inv d2 e3))

parse_op_inv :
    (op : ℕ) (d : Bytes) (p : Packet)
    → parse_op op d ≡ returned (some p)
    → (((op ≡ op_rrq) ⊎ (op ≡ op_wrq)) × (parse_file_req op d ≡ returned p))
      ⊎ (((op ≡ op_data) × (parse_data d ≡ returned p))
          ⊎ (((op ≡ op_ack) × (parse_ack d ≡ returned p))
              ⊎ ((op ≡ op_error) × (parse_error d ≡ returned p))))
unfolding parse_op
parse_op_inv op d p e = ground arith

caught_inv : (r : Parsed (Option Packet)) (p : Packet) → caught r ≡ some p → r ≡ returned (some p)
caught_inv (returned q) p e = ap returned e
caught_inv (thrown x) p e = cc
caught_inv stuck p e = cc

-- A packet that `parse_packet` returns is well formed, and the bytes are its layout, with the
-- options of a request in the order in which they came.
pub parse_packet-ReadFrom :
    (d : Bytes) (p : Packet)
    → All IsByte d
    → parse_packet d ≡ some p
    → IsWellFormed p × ReadFrom p d
unfolding parse_packet parse_try
parse_packet-ReadFrom d p a e =
    let ((op, d1), e1, k1) =
      >>=-eq-returned (read_uint16 d) (λ (op, d1). parse_op op d1) (caught_inv _ p e) in
    let (ho, a1, l) = read_uint16_inv d op d1 a e1 in
    rw l (elim (parse_op_inv op d1 p k1) [
      | inl (x, k) ↦ parse_file_req-IsRead op d1 p x a1 k
      | inr (inl (x, k)) ↦ rw x (parse_data-IsRead d1 p a1 k)
      | inr (inr (inl (x, k))) ↦ rw x (parse_ack-IsRead d1 p a1 k)
      | inr (inr (inr (x, k))) ↦ rw x (parse_error-IsRead d1 p a1 k)
    ])
