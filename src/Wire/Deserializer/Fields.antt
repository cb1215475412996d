-- ===== src/Wire/Deserializer/Fields.antt =====
-- The deserializer on fields that are laid out, and what a successful read says of the bytes.
use octnet_tftp.Base.{
  ℕ, ◌+◌, ◌*◌, ◌/◌, ◌%◌, ◌≡◌, refl, subst, ◌==◌, ==_iff, ◌<◌, inl, inr, Bool-cases, true, false, [],
  ◌∷◌, ◌++◌, Bytes, IsByte, All, IsU16, arith,
}
use octnet_tftp.Wire.Deserializer.{returned, Parsed-cases, read_uint16, read_string}
use octnet_tftp.Wire.WellFormed.{IsText}
use octnet_tftp.Wire.Encoding.{u16_encoding}

pub read_uint16-encoding :
    (v : ℕ) (rest : Bytes) → IsU16 v → read_uint16 (u16_encoding v rest) ≡ returned (v, rest)
unfolding read_uint16
read_uint16-encoding v rest h = let e : v / 256 % 256 * 256 + v % 256 ≡ v = omega arith in rw e

pub read_string-encoding :
    (str rest : Bytes) → IsText str → read_string (str ++ 0 ∷ rest) ≡ returned (str, rest)
unfolding read_string
read_string-encoding [] rest h = refl
read_string-encoding (c ∷ str) rest h = rw (read_string-encoding str rest h.1) (ground arith)

-- A number read is a 16-bit one, and the bytes are its layout.
pub read_uint16_inv :
    (d : Bytes) (v : ℕ) (rest : Bytes)
    → All IsByte d
    → read_uint16 d ≡ returned (v, rest)
    → IsU16 v × All IsByte rest × (d ≡ u16_encoding v rest)
unfolding read_uint16
read_uint16_inv [] v rest a e = ground arith
read_uint16_inv (x ∷ []) v rest a e = ground arith
read_uint16_inv (x ∷ y ∷ r) v rest (hx, (hy, a)) e =
    let ev : x * 256 + y ≡ v = cc in
    let er : r ≡ rest = cc in
    let ex : x ≡ v / 256 % 256 = omega arith in
    let ey : y ≡ v % 256 = omega arith in (omega arith, subst (All IsByte) er a, cc)

read_string_nul : (b : ℕ) (d : Bytes) → (b == 0) ≡ true → read_string (b ∷ d) ≡ returned ([], d)
unfolding read_string
read_string_nul b d z = rw z

read_string_char :
    (b : ℕ) (d s r : Bytes)
    → (b == 0) ≡ false
    → read_string d ≡ returned (s, r)
    → read_string (b ∷ d) ≡ returned (b ∷ s, r)
unfolding read_string
read_string_char b d s r nz f = rw (nz, f)

pos_of_test : (b : ℕ) → (b == 0) ≡ false → 0 < b
pos_of_test b h = ground arith

-- A string read has no NUL, and one stands behind it.
pub read_string_inv :
    (d s rest : Bytes)
    → All IsByte d
    → read_string d ≡ returned (s, rest)
    → IsText s × All IsByte rest × (d ≡ s ++ 0 ∷ rest)
read_string_inv [] s rest a e = unfold read_string in ground arith
read_string_inv (b ∷ d) s rest (hb, a) e = elim (Bool-cases (b == 0)) [
  | inl z ↦ nul z
  | inr nz ↦ elim (Parsed-cases (read_string d)) [
    | inl ((s', r'), f) ↦ char nz s' r' f (read_string_inv d s' r' a f)
    | inr (inl (x, f)) ↦ unfold read_string in ground arith
    | inr (inr f) ↦ unfold read_string in ground arith
  ]
]
  where
    nul : (b == 0) ≡ true → IsText s × All IsByte rest × (b ∷ d ≡ s ++ 0 ∷ rest)
    nul z =
        let eb : b ≡ 0 = (==_iff b 0).0 z in
        let es : [] ≡ s = cc (read_string_nul b d z) in
        let er : d ≡ rest = cc (read_string_nul b d z) in
        subst (λ t. IsText t × All IsByte rest × (b ∷ d ≡ t ++ 0 ∷ rest)) es
          (tt, subst (All IsByte) er a, cc)

    char :
        (b == 0) ≡ false
        → (s' r' : Bytes) → read_string d ≡ returned (s', r')
        → IsText s' × All IsByte r' × (d ≡ s' ++ 0 ∷ r')
        → IsText s × All IsByte rest × (b ∷ d ≡ s ++ 0 ∷ rest)
    char nz s' r' f (t, ar, ed) =
        let pb : 0 < b = pos_of_test b nz in
        let es : b ∷ s' ≡ s = cc (read_string_char b d s' r' nz f) in
        let er : r' ≡ rest = cc (read_string_char b d s' r' nz f) in
        subst (λ t. IsText t × All IsByte rest × (b ∷ d ≡ t ++ 0 ∷ rest)) es
          (((pb, hb), t), subst (All IsByte) er ar, cc)
