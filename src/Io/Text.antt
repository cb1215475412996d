-- ===== src/Io/Text.antt =====
-- src/common/string_utils.hpp. `std::tolower` of the C locale.
use octnet_tftp.Base.{
  ℕ, suc, ◌+◌, ◌≡◌, ◌↔◌, refl, ap, Bool, true, false, not, ◌&&◌, [], ◌∷◌, map, Bytes, leb, ◌==◌,
  if◌then◌else◌, length, arith,
}

unfoldable pub tolower : ℕ → ℕ
tolower c = if leb b'A' c && leb c b'Z' then c + 32 else c

-- The loop over the index, on the characters from the index on.
unfoldable pub equal_chars : Bytes → Bytes → Bool
equal_chars [] bs = true
equal_chars (a ∷ as') [] = true
equal_chars (a ∷ as') (b ∷ bs) = if not (tolower a == tolower b) then false else equal_chars as' bs

unfoldable pub equal_ignore_case : Bytes → Bytes → Bool
equal_ignore_case a b = if not (length b == length a) then false else equal_chars a b

equal_chars→eq :
    (a b : Bytes) → length b ≡ length a → equal_chars a b ≡ true → map tolower a ≡ map tolower b
unfolding equal_chars
equal_chars→eq [] [] h e = refl
equal_chars→eq [] (b ∷ bs) h e = absurd (omega arith)
equal_chars→eq (a ∷ as') [] h e = absurd (omega arith)
equal_chars→eq (a ∷ as') (b ∷ bs) h e = ground (arith, equal_chars→eq as' bs)

eq→equal_chars : (a b : Bytes) → map tolower a ≡ map tolower b → equal_chars a b ≡ true
unfolding equal_chars
eq→equal_chars [] bs e = refl
eq→equal_chars (a ∷ as') [] e = cc
eq→equal_chars (a ∷ as') (b ∷ bs) e = ground (arith, eq→equal_chars as' bs)

length-lower : (a : Bytes) → length (map tolower a) ≡ length a
length-lower [] = refl
length-lower (x ∷ xs) = ap suc (length-lower xs)

-- Two strings are equal up to case exactly when their lower-case forms are equal.
pub equal_ignore_case_iff :
    (a b : Bytes) → (equal_ignore_case a b ≡ true) ↔ (map tolower a ≡ map tolower b)
unfolding equal_ignore_case
equal_ignore_case_iff a b = (
  λ h. ground (arith, equal_chars→eq a b),
  λ e.
      let n : length b ≡ length a = omega (arith, ap length e, length-lower a, length-lower b) in
      ground (arith, eq→equal_chars a b e),
)
