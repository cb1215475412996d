-- ===== src/Wire/Deserializer.antt =====
-- src/common/deserializer.hpp. The state of a `deserializer` is what lies between its two pointers;
-- a method returns its value with the new state, or the `deserialize_error` that it throws.
pub mod Fields
use octnet_tftp.Base.{
  ℕ, ◌+◌, ◌*◌, Bool, true, false, [], ◌∷◌, ◌++◌, Bytes, ◌==◌, if◌then◌else◌, ◌≡◌, refl, ◌⊎◌, inl,
  inr,
}

pub data DeserializeError : Type 0 where
  not_enough_data too_much_data : DeserializeError

-- `stuck` is no outcome of the code: a loop of the model ran out of fuel.
pub data Parsed {ℓ} (A : Type ℓ) : Type ℓ where
  returned : A → Parsed A
  thrown : DeserializeError → Parsed A
  stuck : Parsed A

infixl 5 ◌>>=◌
abbrev pub ◌>>=◌ {ℓ κ} : {X : Type ℓ} {Y : Type κ} → Parsed X → (X → Parsed Y) → Parsed Y
stuck >>= next = stuck
thrown e >>= next = thrown e
returned x >>= next = next x

pub Parsed-cases {ℓ} :
    {A : Type ℓ} (r : Parsed A)
    → ((a : A) × (r ≡ returned a)) ⊎ (((e : DeserializeError) × (r ≡ thrown e)) ⊎ (r ≡ stuck))
Parsed-cases (returned a) = inl (a, refl)
Parsed-cases (thrown e) = inr (inl (e, refl))
Parsed-cases stuck = inr (inr refl)

unfoldable pub has_more_bytes : Bytes → Bool
has_more_bytes [] = false
has_more_bytes (b ∷ rest) = true

unfoldable pub ensure_all_read : Bytes → Parsed (Unit {0})
unfolding has_more_bytes
ensure_all_read d = if has_more_bytes d then thrown too_much_data else returned tt

-- Appends what is left to the given buffer.
unfoldable pub read_remaining_bytes : Bytes → Bytes → Bytes × Bytes
read_remaining_bytes buffer d = (buffer ++ d, [])

unfoldable pub read_uint8 : Bytes → Parsed (ℕ × Bytes)
read_uint8 [] = thrown not_enough_data
read_uint8 (b ∷ rest) = returned (b, rest)

-- `(byte1 << 8) | (byte2 << 0)`: the two share no bit, so `|` adds them.
unfoldable pub read_uint16 : Bytes → Parsed (ℕ × Bytes)
unfolding read_uint8
read_uint16 d = do
  (byte1, d1) ← read_uint8 d
  (byte2, d2) ← read_uint8 d1
  returned (byte1 * 256 + byte2, d2)

-- Reads up to the first NUL, and leaves it out.
unfoldable pub read_string : Bytes → Parsed (Bytes × Bytes)
read_string [] = thrown not_enough_data
read_string (b ∷ rest) =
    if b == 0 then returned ([], rest) else (read_string rest >>= λ (s, d). returned (b ∷ s, d))
