-- ===== src/Wire/Options/Order.antt =====
-- The order of the keys, and `emplace` on a map whose keys are in order.
use octnet_tftp.Base.{[], ◌∷◌, ◌++◌, Ordering, Bytes, All, ◌≡◌, refl, arith, ap, ◌⊎◌, inl, inr}
use octnet_tftp.Wire.Packet.{Options}
use octnet_tftp.Wire.Options.{compare_bytes, emplace}
use octnet_tftp.Wire.WellFormed.{IsSorted}

-- The keys before a later one.
pub compare_bytes_flip :
    (xs ys : Bytes) → compare_bytes xs ys ≡ Ordering.lt → compare_bytes ys xs ≡ Ordering.gt
unfolding compare_bytes
compare_bytes_flip [] [] h = ground arith
compare_bytes_flip [] (y ∷ ys) h = refl
compare_bytes_flip (x ∷ xs) [] h = ground arith
compare_bytes_flip (x ∷ xs) (y ∷ ys) h = ground (arith, compare_bytes_flip xs ys)

pub emplace_last :
    (k v : Bytes) (m : Options)
    → All (λ o. compare_bytes o.0 k ≡ Ordering.lt) m
    → emplace k v m ≡ m ++ (k, v) ∷ []
unfolding emplace
emplace_last k v [] h = refl
emplace_last k v ((j, w) ∷ m) h =
    rw (compare_bytes_flip j k h.0, emplace) (ap (◌∷◌ (j, w)) (emplace_last k v m h.1))

-- In a sorted map each key stands before those behind it.
pub IsSorted-before :
    (front : Options) (k v : Bytes) (back : Options)
    → IsSorted (front ++ (k, v) ∷ back)
    → All (λ o. compare_bytes o.0 k ≡ Ordering.lt) front
IsSorted-before [] k v back h = tt
IsSorted-before ((j, w) ∷ front) k v back h = (head front h.0, IsSorted-before front k v back h.1)
  where
    head :
        (m : Options)
        → All (λ o. compare_bytes j o.0 ≡ Ordering.lt) (m ++ (k, v) ∷ back)
        → compare_bytes j k ≡ Ordering.lt
    head [] a = a.0
    head (o ∷ m) a = head m a.1

compare_bytes_trans :
    (xs ys zs : Bytes)
    → compare_bytes xs ys ≡ Ordering.lt
    → compare_bytes ys zs ≡ Ordering.lt
    → compare_bytes xs zs ≡ Ordering.lt
unfolding compare_bytes
compare_bytes_trans [] [] zs h k = ground arith
compare_bytes_trans [] (y ∷ ys) [] h k = ground arith
compare_bytes_trans [] (y ∷ ys) (z ∷ zs) h k = refl
compare_bytes_trans (x ∷ xs) [] zs h k = ground arith
compare_bytes_trans (x ∷ xs) (y ∷ ys) [] h k = ground arith
compare_bytes_trans (x ∷ xs) (y ∷ ys) (z ∷ zs) h k = ground (arith, compare_bytes_trans xs ys zs)

compare_bytes_gt :
    (xs ys : Bytes) → compare_bytes xs ys ≡ Ordering.gt → compare_bytes ys xs ≡ Ordering.lt
unfolding compare_bytes
compare_bytes_gt [] [] h = ground arith
compare_bytes_gt [] (y ∷ ys) h = ground arith
compare_bytes_gt (x ∷ xs) [] h = refl
compare_bytes_gt (x ∷ xs) (y ∷ ys) h = ground (arith, compare_bytes_gt xs ys)

later :
    (k j : Bytes) (m : Options)
    → compare_bytes k j ≡ Ordering.lt
    → All (λ o. compare_bytes j o.0 ≡ Ordering.lt) m
    → All (λ o. compare_bytes k o.0 ≡ Ordering.lt) m
later k j [] h a = tt
later k j (o ∷ m) h a = (compare_bytes_trans k j o.0 h a.0, later k j m h a.1)

Ordering-cases : (o : Ordering) → (o ≡ Ordering.lt) ⊎ ((o ≡ Ordering.eq) ⊎ (o ≡ Ordering.gt))
Ordering-cases Ordering.lt = inl refl
Ordering-cases Ordering.eq = inr (inl refl)
Ordering-cases Ordering.gt = inr (inr refl)

-- What holds of the old entries and of the new one holds of all.
pub emplace-All {κ} :
    (P : Bytes × Bytes → Type κ) (k v : Bytes) (m : Options)
    → P (k, v)
    → All P m
    → All P (emplace k v m)
unfolding emplace
emplace-All P k v [] p a = (p, tt)
emplace-All P k v ((j, w) ∷ m) p a = elim (Ordering-cases (compare_bytes k j)) [
  | inl e ↦ rw (e, emplace) (p, a)
  | inr (inl e) ↦ rw (e, emplace) a
  | inr (inr e) ↦ rw (e, emplace) (a.0, emplace-All P k v m p a.1)
]

pub emplace-IsSorted : (k v : Bytes) (m : Options) → IsSorted m → IsSorted (emplace k v m)
unfolding emplace
emplace-IsSorted k v [] s = (tt, tt)
emplace-IsSorted k v ((j, w) ∷ m) s = elim (Ordering-cases (compare_bytes k j)) [
  | inl e ↦ rw (e, emplace) ((e, later k j m e s.0), s)
  | inr (inl e) ↦ rw (e, emplace) s
  | inr (inr e) ↦
      rw (e, emplace)
        (
          emplace-All (λ o. compare_bytes j o.0 ≡ Ordering.lt) k v m (compare_bytes_gt k j e) s.0,
          emplace-IsSorted k v m s.1,
        )
]
