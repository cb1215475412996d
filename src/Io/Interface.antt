-- ===== src/Io/Interface.antt =====
-- src/common/io.hpp: the abstract classes `reader` and `writer` as records of operations on an
-- implementation's state, and the laws by which their clients know them.
use octnet_tftp.Base.{
  ℕ, ◌+◌, ◌≤◌, ◌<◌, ◌≡◌, ◌⊎◌, Bool, true, false, Option, none, some, List, [], ◌∷◌, ◌++◌, Bytes,
  take, drop, length,
}

-- `read` is given the buffer's size; `none` is the result `false`, `some` the bytes read.
pub record ReaderOps (R : Type 0) : Type 0 where
  pub is_open : R → Bool
  pub read : R → ℕ → Option Bytes × R
  pub close : R → Bool × R

pub record WriterOps (W : Type 0) : Type 0 where
  pub is_open : W → Bool
  pub write : W → Bytes → Bool × W
  pub close : W → Bool × W

-- The bytes that an open reader has still to deliver, and whether an error waits behind them.
pub record ReaderLaws (R : Type 0) (ops : ReaderOps R) : Type 0 where
  pub contents : R → Bytes
  pub broken : R → Bool
  pub read_ok :
      (r : R) (n : ℕ)
      → ops.is_open r ≡ true
      → 0 < n
      → (n ≤ length (contents r)) ⊎ (broken r ≡ false)
      → (r' : R) × (ops.read r n ≡ (some (take n (contents r)), r'))
        × (ops.is_open r' ≡ true)
        × (contents r' ≡ drop n (contents r))
        × (broken r' ≡ broken r)
  pub read_broken :
      (r : R) (n : ℕ)
      → ops.is_open r ≡ true
      → length (contents r) < n
      → broken r ≡ true
      → (r' : R) × (ops.read r n ≡ (none, r'))
        × (ops.is_open r' ≡ true)
        × (contents r' ≡ [])
        × (broken r' ≡ true)

-- What has been written through an open writer, and how many more bytes there is room for.
pub record WriterLaws (W : Type 0) (ops : WriterOps W) : Type 0 where
  pub written : W → Bytes
  pub room : W → ℕ
  pub write_fits :
      (w : W) (bytes : Bytes)
      → ops.is_open w ≡ true
      → length bytes ≤ room w
      → (w' : W) × (ops.write w bytes ≡ (true, w'))
        × (ops.is_open w' ≡ true)
        × (written w' ≡ written w ++ bytes)
        × (room w' + length bytes ≡ room w)
  pub write_full :
      (w : W) (bytes : Bytes)
      → ops.is_open w ≡ true
      → room w < length bytes
      → (ops.write w bytes).0 ≡ false

-- The same for a writer that puts out something else than the bytes themselves: `absorb` says what
-- bytes do to what has been written. Here, too, a write for which there is room succeeds.
pub record SinkLaws (V W : Type 0) (ops : WriterOps W) : Type 0 where
  pub view : W → V
  pub absorb : V → Bytes → V
  pub room : W → ℕ
  pub absorb_nil : (v : V) → absorb v [] ≡ v
  pub absorb_append : (v : V) (xs ys : Bytes) → absorb v (xs ++ ys) ≡ absorb (absorb v xs) ys
  pub write_absorbs :
      (w : W) (bytes : Bytes)
      → ops.is_open w ≡ true
      → length bytes ≤ room w
      → (w' : W) × (ops.write w bytes ≡ (true, w'))
        × (ops.is_open w' ≡ true)
        × (view w' ≡ absorb (view w) bytes)
        × (room w ≤ room w' + length bytes)

-- A sequence of writes, up to the first that fails.
module _ {W : Type 0} ⦃ops : WriterOps W⦄ where
  abbrev pub continue_writing : (W → Bool × W) → Bool × W → Bool × W
  continue_writing rest (false, w) = (false, w)
  continue_writing rest (true, w) = rest w

  unfoldable pub write_blocks : W → List Bytes → Bool × W
  write_blocks w [] = (true, w)
  write_blocks w (block ∷ blocks) =
      continue_writing (λ w'. write_blocks w' blocks) (ops.write w block)

-- Calls through a `unique_ptr`. Through a null pointer, where C++ leaves the behaviour undefined, the
-- result is a failure.
module _ {R : Type 0} ⦃ops : ReaderOps R⦄ where
  abbrev pub read_pointer : Option R → ℕ → Option Bytes × Option R
  read_pointer none n = (none, none)
  read_pointer (some r) n = let (result, r') = ops.read r n in (result, some r')

module _ {W : Type 0} ⦃ops : WriterOps W⦄ where
  abbrev pub write_pointer : Option W → Bytes → Bool × Option W
  write_pointer none bytes = (false, none)
  write_pointer (some w) bytes = let (done, w') = ops.write w bytes in (done, some w')
