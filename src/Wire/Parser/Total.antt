-- ===== src/Wire/Parser/Total.antt =====
-- The loop over the options ends: each round takes at least two bytes.
use octnet_tftp.Base.{
  ℕ, zero, suc, ◌<◌, ◌≤◌, ◌≡◌, ◌≢◌, refl, some, inl, inr, Bool-cases, ◌==◌, [], ◌∷◌, Bytes, arith,
  length,
}
use octnet_tftp.Wire.Packet.{Options}
use octnet_tftp.Wire.Options.{emplace}
use octnet_tftp.Wire.Deserializer.{
  Parsed, returned, thrown, stuck, ◌>>=◌, has_more_bytes, ensure_all_read, read_uint16, read_string,
  read_remaining_bytes,
}
use octnet_tftp.Wire.Parser.{
  parse_options, parse_file_req, parse_op, parse_try, parse_data, parse_ack, parse_error,
}

-- Reading a string takes a byte at least, and needs no fuel.
abbrev Shortens : Bytes → Parsed (Bytes × Bytes) → Type 0
Shortens d (returned (s, rest)) = length rest < length d
Shortens d (thrown e) = Unit
Shortens d stuck = ⊥

Shortens-bind :
    (b : ℕ) (d : Bytes) (r : Parsed (Bytes × Bytes))
    → Shortens d r
    → Shortens (b ∷ d) (r >>= λ (s, rest). returned (b ∷ s, rest))
Shortens-bind b d (returned (s, rest)) h = omega arith
Shortens-bind b d (thrown e) h = tt
Shortens-bind b d stuck h = h

read_string-Shortens : (d : Bytes) → Shortens d (read_string d)
unfolding read_string
read_string-Shortens [] = tt
read_string-Shortens (b ∷ d) = elim (Bool-cases (b == 0)) [
  | inl z ↦ rw z (omega arith)
  | inr nz ↦ rw nz (Shortens-bind b d (read_string d) (read_string-Shortens d))
]

read_string_shorter :
    (d s rest : Bytes) → read_string d ≡ returned (s, rest) → length rest < length d
read_string_shorter d s rest e = rw e at (read_string-Shortens d)

read_string-ne-stuck : (d : Bytes) → read_string d ≢ stuck
read_string-ne-stuck d e = rw e at (read_string-Shortens d)

>>=-ne-stuck {ℓ κ} :
    {X : Type ℓ} {Y : Type κ} (first : Parsed X) (next : X → Parsed Y)
    → first ≢ stuck
    → ((x : X) → first ≡ returned x → next x ≢ stuck)
    → (first >>= next) ≢ stuck
>>=-ne-stuck (returned a) f h k = k a refl
>>=-ne-stuck (thrown e) f h k = λ p. cc
>>=-ne-stuck stuck f h k = absurd (h refl)

-- As many rounds as there are bytes are enough.
pub parse_options-ne-stuck :
    (fuel : ℕ) (m : Options) (d : Bytes) → length d ≤ fuel → parse_options fuel m d ≢ stuck
unfolding parse_options has_more_bytes
parse_options-ne-stuck zero m [] h = λ p. cc
parse_options-ne-stuck zero m (b ∷ d) h = absurd (omega arith)
parse_options-ne-stuck (suc fuel) m [] h = λ p. cc
parse_options-ne-stuck (suc fuel) m (b ∷ d) h =
    >>=-ne-stuck (read_string (b ∷ d)) _ (read_string-ne-stuck (b ∷ d)) λ (name, d1) e1.
      >>=-ne-stuck (read_string d1) _ (read_string-ne-stuck d1) λ (value, d2) e2.
        parse_options-ne-stuck fuel (emplace name value m) d2 (
          omega (arith, read_string_shorter (b ∷ d) name d1 e1, read_string_shorter d1 value d2 e2))

ensure_all_read-ne-stuck : (d : Bytes) → ensure_all_read d ≢ stuck
unfolding ensure_all_read
ensure_all_read-ne-stuck [] = λ p. cc
ensure_all_read-ne-stuck (b ∷ d) = λ p. cc

read_uint16-ne-stuck : (d : Bytes) → read_uint16 d ≢ stuck
unfolding read_uint16
read_uint16-ne-stuck [] = λ p. cc
read_uint16-ne-stuck (x ∷ []) = λ p. cc
read_uint16-ne-stuck (x ∷ y ∷ d) = λ p. cc

parse_file_req-ne-stuck : (op : ℕ) (d : Bytes) → parse_file_req op d ≢ stuck
unfolding parse_file_req
parse_file_req-ne-stuck op d =
    >>=-ne-stuck (read_string d) _ (read_string-ne-stuck d) λ (filename, d1) _.
      >>=-ne-stuck (read_string d1) _ (read_string-ne-stuck d1) λ (mode, d2) _.
        >>=-ne-stuck (parse_options (length d2) [] d2) _
          (parse_options-ne-stuck (length d2) [] d2 (omega arith))
          λ (options, d3) _.
            >>=-ne-stuck (ensure_all_read d3) _ (ensure_all_read-ne-stuck d3) λ u _ p. cc

parse_error-ne-stuck : (d : Bytes) → parse_error d ≢ stuck
unfolding parse_error
parse_error-ne-stuck d = >>=-ne-stuck (read_uint16 d) _ (read_uint16-ne-stuck d) λ (n, d1) _.
    >>=-ne-stuck (read_string d1) _ (read_string-ne-stuck d1)
      λ (m, d2) _. >>=-ne-stuck (ensure_all_read d2) _ (ensure_all_read-ne-stuck d2) λ u _ p. cc

parse_ack-ne-stuck : (d : Bytes) → parse_ack d ≢ stuck
unfolding parse_ack
parse_ack-ne-stuck d =
    >>=-ne-stuck (read_uint16 d) _ (read_uint16-ne-stuck d)
      λ (n, d1) _. >>=-ne-stuck (ensure_all_read d1) _ (ensure_all_read-ne-stuck d1) λ u _ p. cc

parse_data-ne-stuck : (d : Bytes) → parse_data d ≢ stuck
unfolding parse_data read_remaining_bytes ensure_all_read
parse_data-ne-stuck d = >>=-ne-stuck (read_uint16 d) _ (read_uint16-ne-stuck d) λ (n, d1) _ p. cc

some-ne-stuck {ℓ} : {A : Type ℓ} (m : Parsed A) → m ≢ stuck → (m >>= λ a. returned (some a)) ≢ stuck
some-ne-stuck m h = >>=-ne-stuck m _ h λ a _ p. cc

-- The fuel that the loop over the options gets is enough on any bytes: the `try` block of
-- `parse_packet` returns a packet or a null pointer, or throws, and is never `stuck`.
pub parse_try-ne-stuck : (d : Bytes) → parse_try d ≢ stuck
unfolding parse_try parse_op
parse_try-ne-stuck d = >>=-ne-stuck (read_uint16 d) _ (read_uint16-ne-stuck d) λ (op, d1) _.
    ground (
      arith,
      some-ne-stuck (parse_file_req op d1) (parse_file_req-ne-stuck op d1),
      some-ne-stuck (parse_data d1) (parse_data-ne-stuck d1),
      some-ne-stuck (parse_ack d1) (parse_ack-ne-stuck d1),
      some-ne-stuck (parse_error d1) (parse_error-ne-stuck d1),
    )
