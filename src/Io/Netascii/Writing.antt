-- ===== src/Io/Netascii/Writing.antt =====
-- The netascii writer puts out the text that the bytes written to it encode, however they are cut
-- into writes.
use octnet_tftp.Base.{
  ℕ, suc, ◌+◌, ◌≤◌, ◌<◌, ◌≡◌, ◌≢◌, flatten, refl, sym, ap, ◌∙◌, subst, Bool, true, false, List, [],
  ◌∷◌, ◌++◌, Bytes, length, arith, length-append, append_assoc,
}
use octnet_tftp.Io.Interface.{WriterOps, WriterLaws, write_blocks}
use octnet_tftp.Io.Netascii.{
  NetasciiWriter, writer_is_open, write_peer, write_char, write_chars, cr, netascii_writer_ops,
}
use octnet_tftp.Io.Netascii.Encoding.{encode, decode_char, decode, decode-append, decode-encode}

decode_bare_cr :
    (out : Bytes) (held : Bool) (b : ℕ)
    → held ≡ false
    → b ≢ 13
    → b ≢ 10
    → b ≢ 0
    → decode (out, held) (13 ∷ b ∷ 10 ∷ []) ≡ (out ++ b ∷ 10 ∷ [], false)
decode_bare_cr out held b e n13 n10 n0 = ground (arith, append_assoc out (b ∷ []) (10 ∷ []))

module _ {P : Type 0} ⦃ops : WriterOps P⦄ (laws : WriterLaws P ops) where
  -- What is put out, with the CR that is held back.
  abbrev pub netascii_state : NetasciiWriter P → Bytes × Bool
  netascii_state w = (laws.written w.peer, w.pending_cr)

  -- A write that succeeds and leads to `state`, taking room for `n` bytes at most.
  abbrev pub Writes : NetasciiWriter P → ℕ → Bytes × Bool → Bool × NetasciiWriter P → Type 0
  Writes w n state result =
      (result.0 ≡ true)
      × (writer_is_open result.1 ≡ true)
      × (netascii_state result.1 ≡ state)
      × (laws.room w.peer ≤ laws.room result.1.peer + n)

  write_peer-Writes :
      (w : NetasciiWriter P) (c : ℕ)
      → writer_is_open w ≡ true
      → 0 < laws.room w.peer
      → Writes w 1 (laws.written w.peer ++ c ∷ [], w.pending_cr) (write_peer c w)
  write_peer-Writes w c o h =
      let (peer, e, o', f, r) = laws.write_fits w.peer (c ∷ []) o (omega arith) in
      rw e (refl, o', ap (λ t. (t, w.pending_cr)) f, omega arith)

  write_char-Writes :
      (w : NetasciiWriter P) (c : ℕ)
      → writer_is_open w ≡ true
      → 0 < laws.room w.peer
      → Writes w 1 (decode_char (netascii_state w) c) (write_char w c)
  unfolding write_char
  write_char-Writes w c o h = ground (
    arith,
    write_peer-Writes w cr o h,
    write_peer-Writes w c o h,
    write_peer-Writes (record w { pending_cr = false }) c o h,
  )

  write_chars_more :
      (w : NetasciiWriter P) (c : ℕ) (bytes : Bytes)
      → (write_char w c).0 ≡ true
      → write_chars w (c ∷ bytes) ≡ write_chars (write_char w c).1 bytes
  unfolding write_chars
  write_chars_more w c bytes e = rw e

  -- Bytes for which there is room are written, and decoded from the state before.
  pub write_chars-Writes :
      (w : NetasciiWriter P) (bytes : Bytes)
      → writer_is_open w ≡ true
      → length bytes ≤ laws.room w.peer
      → Writes w (length bytes) (decode (netascii_state w) bytes) (write_chars w bytes)
  write_chars-Writes w [] o h = unfold write_chars in (refl, o, refl, omega arith)
  write_chars-Writes w (c ∷ bytes) o h =
      let (e, o', f, r) = write_char-Writes w c o (omega arith) in
      let w' : NetasciiWriter P = (write_char w c).1 in
      let (e', o2, f', r') = write_chars-Writes w' bytes o' (omega arith) in
      let step : write_chars w (c ∷ bytes) ≡ write_chars w' bytes = write_chars_more w c bytes e in
      subst (Writes w (suc (length bytes)) (decode (netascii_state w) (c ∷ bytes))) (sym step)
        (e', o2, f' ∙ ap (λ s. decode s bytes) f, omega arith)

  write_blocks_more :
      (w : NetasciiWriter P) (block : Bytes) (blocks : List Bytes)
      → (write_chars w block).0 ≡ true
      → write_blocks w (block ∷ blocks) ≡ write_blocks (write_chars w block).1 blocks
  unfolding write_blocks
  write_blocks_more w block blocks e = rw e

  write_blocks-Writes :
      (w : NetasciiWriter P) (blocks : List Bytes)
      → writer_is_open w ≡ true
      → length (flatten blocks) ≤ laws.room w.peer
      → Writes w
          (length (flatten blocks))
          (decode (netascii_state w) (flatten blocks))
          (write_blocks w blocks)
  write_blocks-Writes w [] o h = unfold write_blocks in (refl, o, refl, omega arith)
  write_blocks-Writes w (block ∷ blocks) o h =
      let n : length (flatten (block ∷ blocks)) ≡ length block + length (flatten blocks) =
        length-append block (flatten blocks) in
      let (e, o', f, r) = write_chars-Writes w block o (omega arith) in
      let w' : NetasciiWriter P = (write_chars w block).1 in
      let (e', o2, f', r') = write_blocks-Writes w' blocks o' (omega arith) in
      subst
        (Writes w (length (flatten (block ∷ blocks)))
          (decode (netascii_state w) (flatten (block ∷ blocks))))
        (sym (write_blocks_more w block blocks e))
        (
          e',
          o2,
          f'
              ∙ ap (λ s. decode s (flatten blocks)) f
              ∙ sym (decode-append block (flatten blocks) (netascii_state w)),
          omega arith,
        )

  -- A text sent in netascii arrives as it was, in whatever blocks its encoding is written: with room
  -- for the encoding, all writes succeed, the text stands behind what was written before, and no CR
  -- is held back.
  pub write_blocks-encode :
      (w : NetasciiWriter P) (text : Bytes) (blocks : List Bytes)
      → writer_is_open w ≡ true
      → w.pending_cr ≡ false
      → flatten blocks ≡ encode text
      → length (encode text) ≤ laws.room w.peer
      → ((write_blocks w blocks).0 ≡ true)
        × (writer_is_open (write_blocks w blocks).1 ≡ true)
        × (netascii_state (write_blocks w blocks).1 ≡ (laws.written w.peer ++ text, false))
  write_blocks-encode w text blocks o p e h =
      let (t, o', f, _) = write_blocks-Writes w blocks o (rw e h) in
      (
        t,
        o',
        f
            ∙ ap (decode (netascii_state w)) e
            ∙ ap (λ b. decode (laws.written w.peer, b) (encode text)) p
            ∙ decode-encode text (laws.written w.peer),
      )

  -- A CR before a character that is none of CR, LF and NUL is held back past it, and lost when a LF
  -- follows: of CR, b, LF the writer puts out b, LF.
  pub write_chars_bare_cr :
      (w : NetasciiWriter P) (b : ℕ)
      → writer_is_open w ≡ true
      → w.pending_cr ≡ false
      → 3 ≤ laws.room w.peer
      → b ≢ 13
      → b ≢ 10
      → b ≢ 0
      → ((write_chars w (13 ∷ b ∷ 10 ∷ [])).0 ≡ true)
        × (netascii_state (write_chars w (13 ∷ b ∷ 10 ∷ [])).1
            ≡ (laws.written w.peer ++ b ∷ 10 ∷ [], false))
  write_chars_bare_cr w b o p h n13 n10 n0 =
      let (t, o', f, _) = write_chars-Writes w (13 ∷ b ∷ 10 ∷ []) o h in
      (t, f ∙ decode_bare_cr (laws.written w.peer) w.pending_cr b p n13 n10 n0)
