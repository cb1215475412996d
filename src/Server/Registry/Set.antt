-- ===== src/Server/Registry/Set.antt =====
-- The list of addresses that stands for the set of connections of src/server/server.hpp.
use octnet_tftp.Base.{
  ℕ, ◌≡◌, ◌≢◌, refl, ap, ◌∙◌, subst, inl, inr, false, Bool-cases, List, [], ◌∷◌, All, ◌==◌, ==_iff,
  ==_ne,
}
use octnet_tftp.Server.Registry.{find, erase}

abbrev pub Distinct : List ℕ → Type 0
Distinct [] = Unit
Distinct (a ∷ rest) = All (λ b. b ≢ a) rest × Distinct rest

pub find-erase_other : (a b : ℕ) (xs : List ℕ) → (a == b) ≡ false → find b (erase a xs) ≡ find b xs
find-erase_other a b [] h = refl
find-erase_other a b (x ∷ xs) h = elim (Bool-cases (x == a)) [
  | inl e ↦ let other : (x == b) ≡ false = ap (λ y. y == b) ((==_iff _ _).0 e) ∙ h in rw (e, other)
  | inr e ↦ elim (Bool-cases (x == b)) [
    | inl f ↦ rw (e, f)
    | inr f ↦ rw (e, f) (find-erase_other a b xs h)
  ]
]

pub All-erase : (P : ℕ → Type 0) (a : ℕ) (xs : List ℕ) → All P xs → All P (erase a xs)
All-erase P a [] h = tt
All-erase P a (x ∷ xs) (p, h) = elim (Bool-cases (x == a)) [
  | inl e ↦ rw e h
  | inr e ↦ rw e (p, All-erase P a xs h)
]

pub Distinct-erase : (a : ℕ) (xs : List ℕ) → Distinct xs → Distinct (erase a xs)
Distinct-erase a [] h = tt
Distinct-erase a (x ∷ xs) (p, h) = elim (Bool-cases (x == a)) [
  | inl e ↦ rw e h
  | inr e ↦ rw e (All-erase (λ b. b ≢ x) a xs p, Distinct-erase a xs h)
]

pub find_none : (a : ℕ) (xs : List ℕ) → All (λ b. b ≢ a) xs → find a xs ≡ false
find_none a [] h = refl
find_none a (x ∷ xs) (p, h) = rw (==_ne _ _ p) (find_none a xs h)

pub find-erase : (a : ℕ) (xs : List ℕ) → Distinct xs → find a (erase a xs) ≡ false
find-erase a [] h = refl
find-erase a (x ∷ xs) (p, h) = elim (Bool-cases (x == a)) [
  | inl e ↦ rw e (find_none a xs (subst (λ y. All (λ b. b ≢ y) xs) ((==_iff _ _).0 e) p))
  | inr e ↦ rw (e, e) (find-erase a xs h)
]
