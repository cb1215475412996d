-- ===== src/Wire/Options.antt =====
-- The options map of a request: `std::map` keeps its keys in the order of `std::string`'s `<`,
-- which compares bytes, and `emplace` leaves a key that is present as it was.
pub mod Order
use octnet_tftp.Base.{
  ℕ, Bool, true, false, List, [], ◌∷◌, ◌++◌, Option, none, some, compare, Ordering, Bytes, All, ◌≡◌,
  refl, arith, ap,
}
use octnet_tftp.Wire.Packet.{Options}

-- `std::string::compare`.
unfoldable pub compare_bytes : Bytes → Bytes → Ordering
compare_bytes [] [] = Ordering.eq
compare_bytes [] (y ∷ ys) = Ordering.lt
compare_bytes (x ∷ xs) [] = Ordering.gt
compare_bytes (x ∷ xs) (y ∷ ys) = elim (compare x y) [
  | Ordering.eq ↦ compare_bytes xs ys
  | other ↦ other
]

unfoldable pub emplace : Bytes → Bytes → Options → Options
unfolding compare_bytes
emplace k v [] = (k, v) ∷ []
emplace k v ((j, w) ∷ m) = elim (compare_bytes k j) [
  | Ordering.lt ↦ (k, v) ∷ (j, w) ∷ m
  | Ordering.eq ↦ (j, w) ∷ m
  | Ordering.gt ↦ (j, w) ∷ emplace k v m
]
