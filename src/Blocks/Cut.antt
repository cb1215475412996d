-- ===== src/Blocks/Cut.antt =====
-- A file cut into blocks of 512 bytes, as RFC 1350 sends it: the last block is shorter, and may be
-- empty.
use octnet_tftp.Io.Interface.{ReaderOps, ReaderLaws, read_pointer}
use octnet_tftp.Base.{
  refl, inr, true, false, Option, some, ℕ, zero, suc, ◌+◌, ◌*◌, ◌/◌, ◌<◌, ◌≡◌, sym, ap, ◌∙◌, [],
  ◌++◌, Bytes, take, drop, length, arith, take-append-drop, length-take, length-drop, drop-drop,
  drop_all, append_assoc, append-nil,
}

add_one : (n : ℕ) → suc n ≡ n + 1
add_one n = omega arith

-- Block `k`, from 0; it is sent under the number `k + 1`.
abbrev pub block : Bytes → ℕ → Bytes
block c k = take 512 (drop (512 * k) c)

-- The blocks before block `n`, one after the other.
abbrev pub blocks_before : Bytes → ℕ → Bytes
blocks_before c zero = []
blocks_before c (suc n) = blocks_before c n ++ block c n

pub drop-block : (c : Bytes) (k : ℕ) → drop 512 (drop (512 * k) c) ≡ drop (512 * (k + 1)) c
drop-block c k = drop-drop 512 (512 * k) c ∙ ap (λ n. drop n c) (omega arith)

drop_zero : (c : Bytes) → drop (512 * 0) c ≡ c
drop_zero c = ap (λ k. drop k c) zero_blocks
  where
    zero_blocks : 512 * 0 ≡ 0
    zero_blocks = omega arith

blocks_before-append-drop : (c : Bytes) (n : ℕ) → blocks_before c n ++ drop (512 * n) c ≡ c
blocks_before-append-drop c zero = drop_zero c
blocks_before-append-drop c (suc n) =
    append_assoc (blocks_before c n) (block c n) (drop (512 * suc n) c)
    ∙ ap (λ t. blocks_before c n ++ (block c n ++ t))
        (ap (λ k. drop (512 * k) c) (add_one n) ∙ sym (drop-block c n))
    ∙ ap (◌++◌ (blocks_before c n)) (take-append-drop 512 (drop (512 * n) c))
    ∙ blocks_before-append-drop c n

-- All blocks together are the file.
pub blocks_before_all : (c : Bytes) → blocks_before c (suc (length c / 512)) ≡ c
blocks_before_all c =
    sym (append-nil _)
    ∙ ap (◌++◌ (blocks_before c (suc (length c / 512))))
        (sym (drop_all (512 * suc (length c / 512)) c (omega arith)))
    ∙ blocks_before-append-drop c (suc (length c / 512))

-- The blocks before the last are full, and the last is not.
pub length-block_full : (c : Bytes) (k : ℕ) → k < length c / 512 → length (block c k) ≡ 512
length-block_full c k h =
    length-take 512 (drop (512 * k) c) ∙ omega (arith, length-drop (512 * k) c)

pub length-block_last : (c : Bytes) → length (block c (length c / 512)) < 512
length-block_last c =
    rw (length-take 512 (drop (512 * (length c / 512)) c), length-drop (512 * (length c / 512)) c)
      (omega arith)

module _ {R : Type 0} ⦃ops : ReaderOps R⦄ (laws : ReaderLaws R ops) where
  -- An open reader that has the file from byte `n` on to deliver, with no error behind it.
  abbrev pub Holds : Bytes → ℕ → Option R → Type 0
  Holds c n reader =
      (r : R) × (reader ≡ some r)
      × (ops.is_open r ≡ true)
      × (laws.broken r ≡ false)
      × (laws.contents r ≡ drop n c)

  -- A read of 512 bytes takes the next block.
  pub Holds-read :
      (c : Bytes) (k : ℕ) (reader : Option R)
      → Holds c (512 * k) reader
      → (r : R) × (read_pointer reader 512 ≡ (some (block c k), some r))
        × Holds c (512 * (k + 1)) (some r)
  Holds-read c k reader (r, e, o, b, h) =
      let (r', f, o', h', b') = laws.read_ok r 512 o (omega arith) (inr b) in
      (
        r',
        ap (λ p. read_pointer p 512) e
            ∙ ap (λ x. (x.0, some x.1)) f
            ∙ ap (λ t. (some (take 512 t), some r')) h,
        (r', refl, o', b' ∙ b, h' ∙ ap (drop 512) h ∙ drop-block c k),
      )

-- No bytes before block 0.
pub drop_none : (c : Bytes) → drop (512 * 0) c ≡ c
drop_none c = ap (λ n. drop n c) no_bytes
  where
    no_bytes : 512 * 0 ≡ 0
    no_bytes = omega arith
