-- ===== src/Io/Netascii/Reading.antt =====
-- The netascii reader delivers the encoding of what its peer delivers.
use octnet_tftp.Base.{
  ℕ, zero, suc, ◌≡◌, ◌⊎◌, inl, inr, refl, sym, ap, ◌∙◌, subst, true, false, Option, none, some, [],
  ◌∷◌, ◌++◌, Bytes, take, drop, arith, ◌==◌, if◌then◌else◌, Bool-cases,
}
use mathlib.Core.Bool.{false≢true}
use octnet_tftp.Base.Int.{ℤ, pos}
use octnet_tftp.Io.Interface.{ReaderOps, ReaderLaws}
use octnet_tftp.Io.Netascii.{
  NetasciiReader, reader_is_open, read_char, read_peer_char, read_chars, push, netascii_reader_ops,
}
use octnet_tftp.Io.Netascii.Encoding.{encode}

-- The second character of a pair of which the first is out.
abbrev pub pending_bytes : ℕ → Bytes
pending_bytes c = if c == 10 then 10 ∷ [] else if c == 13 then 0 ∷ [] else []

module _ {P : Type 0} ⦃ops : ReaderOps P⦄ (laws : ReaderLaws P ops) where
  abbrev pub netascii_contents : NetasciiReader P → Bytes
  netascii_contents r = pending_bytes r.pending_char ++ encode (laws.contents r.peer)

  -- `read_char` at the end of the contents, and before it.
  abbrev CharStep : NetasciiReader P → ℤ × ℕ × NetasciiReader P → Type 0
  CharStep r result =
      ((netascii_contents r ≡ [])
        × (result.0 ≡ pos 0)
        × (reader_is_open result.2 ≡ true)
        × (netascii_contents result.2 ≡ []))
      ⊎ ((result.0 ≡ pos 1)
          × (reader_is_open result.2 ≡ true)
          × (netascii_contents r ≡ result.1 ∷ netascii_contents result.2))

  abbrev Pending : NetasciiReader P → Type 0
  Pending r = ((r.pending_char == 10) ≡ false) × ((r.pending_char == 13) ≡ false)

  read_end-CharStep :
      (r : NetasciiReader P) (peer : P)
      → Pending r
      → laws.contents r.peer ≡ []
      → ops.is_open peer ≡ true
      → laws.contents peer ≡ []
      → CharStep r (pos 0, 0, record r { peer = peer })
  read_end-CharStep r peer p e o c = inl (rw (p.0, p.1, e), refl, o, rw (p.0, p.1, c))

  read_got-CharStep :
      (r : NetasciiReader P) (peer : P) (x : ℕ) (text : Bytes)
      → Pending r
      → laws.contents r.peer ≡ x ∷ text
      → ops.is_open peer ≡ true
      → laws.contents peer ≡ text
      → CharStep r (read_peer_char (some (x ∷ []), peer) r)
  unfolding read_peer_char
  read_got-CharStep r peer x text p e o c = ground arith

  read_peer-CharStep :
      (text : Bytes) (r : NetasciiReader P)
      → laws.contents r.peer ≡ text
      → reader_is_open r ≡ true
      → Pending r
      → CharStep r (read_peer_char (ops.read r.peer 1) r)
  read_peer-CharStep [] r e o p = elim (Bool-cases (laws.broken r.peer)) [
    | inl b ↦
        let (peer, f, o', c, _) = laws.read_broken r.peer 1 o (rw e (omega arith)) b in
        rw f (unfold read_peer_char in read_end-CharStep r peer p e o' c)
    | inr b ↦
        let (peer, f, o', c, _) = laws.read_ok r.peer 1 o (omega arith) (inr b) in
        rw (f ∙ ap (λ t. (some (take 1 t), peer)) e)
          (unfold read_peer_char in read_end-CharStep r peer p e o' (c ∙ ap (drop 1) e))
  ]
  read_peer-CharStep (x ∷ text) r e o p =
      let (peer, f, o', c, _) = laws.read_ok r.peer 1 o (omega arith) (inl (rw e (omega arith))) in
      rw (f ∙ ap (λ t. (some (take 1 t), peer)) e)
        (read_got-CharStep r peer x text p e o' (c ∙ ap (drop 1) e))

  read_char_pending :
      (r : NetasciiReader P) (c : ℕ)
      → pending_bytes r.pending_char ≡ c ∷ []
      → read_char r ≡ (pos 1, c, record r { pending_char = 0 })
  unfolding read_char
  read_char_pending r c h = ground arith

  read_char_peer :
      (r : NetasciiReader P) → Pending r → read_char r ≡ read_peer_char (ops.read r.peer 1) r
  unfolding read_char
  read_char_peer r p = rw (p.0, p.1)

  pending-CharStep :
      (r : NetasciiReader P) (c : ℕ)
      → pending_bytes r.pending_char ≡ c ∷ []
      → reader_is_open r ≡ true
      → CharStep r (read_char r)
  pending-CharStep r c h o =
      subst (CharStep r) (sym (read_char_pending r c h))
        (inr (refl, o, ap (λ b. b ++ encode (laws.contents r.peer)) h))

  read_char-CharStep : (r : NetasciiReader P) → reader_is_open r ≡ true → CharStep r (read_char r)
  read_char-CharStep r o = elim (Bool-cases (r.pending_char == 10)) [
    | inl p ↦ pending-CharStep r 10 (rw p) o
    | inr p ↦ elim (Bool-cases (r.pending_char == 13)) [
      | inl q ↦ pending-CharStep r 0 (rw (p, q)) o
      | inr q ↦
          subst (CharStep r) (sym (read_char_peer r (p, q)))
            (read_peer-CharStep (laws.contents r.peer) r refl o (p, q))
    ]
  ]

  abbrev pub Delivers : NetasciiReader P → ℕ → Option Bytes × NetasciiReader P → Type 0
  Delivers r n result =
      (result.0 ≡ some (take n (netascii_contents r)))
      × (reader_is_open result.1 ≡ true)
      × (netascii_contents result.1 ≡ drop n (netascii_contents r))

  read_chars_end :
      (r : NetasciiReader P) (n : ℕ)
      → (read_char r).0 ≡ pos 0
      → read_chars r (suc n) ≡ (some [], (read_char r).2)
  unfolding read_chars
  read_chars_end r n e = rw e

  read_chars_more :
      (r : NetasciiReader P) (n : ℕ)
      → (read_char r).0 ≡ pos 1
      → read_chars r (suc n) ≡ push (read_char r).1 (read_chars (read_char r).2 n)
  unfolding read_chars
  read_chars_more r n e = rw e

  push-Delivers :
      (r r' : NetasciiReader P) (c n : ℕ) (result : Option Bytes × NetasciiReader P)
      → netascii_contents r ≡ c ∷ netascii_contents r'
      → Delivers r' n result
      → Delivers r (suc n) (push c result)
  push-Delivers r r' c n (none, q) e d = cc
  push-Delivers r r' c n (some bytes, q) e d =
      let t : take (suc n) (netascii_contents r) ≡ c ∷ take n (netascii_contents r') =
        ap (take (suc n)) e in
      (cc, d.1, d.2 ∙ ap (drop (suc n)) (sym e))

  -- A read of an open netascii reader succeeds: it delivers as much as fits of the encoding of what
  -- its peer has left, keeps the rest for the next read, and stays open. The peer may be one that
  -- fails, and then its failure passes for its end.
  pub read_chars-Delivers :
      (r : NetasciiReader P) (n : ℕ) → reader_is_open r ≡ true → Delivers r n (read_chars r n)
  read_chars-Delivers r zero o = unfold read_chars in (refl, o, refl)
  read_chars-Delivers r (suc n) o = elim (read_char-CharStep r o) [
    | inl (e, z, o', e') ↦
        subst (Delivers r (suc n)) (sym (read_chars_end r n z))
          (ap (λ t. some (take (suc n) t)) (sym e), o', e' ∙ ap (drop (suc n)) (sym e))
    | inr (z, o', e) ↦ subst (Delivers r (suc n)) (sym (read_chars_more r n z)) (
        push-Delivers r (read_char r).2 (read_char r).1 n _ e
          (read_chars-Delivers (read_char r).2 n o'))
  ]

  -- So the netascii reader obeys the laws of a reader, with contents of its own, and never fails.
  abbrev pub netascii_reader_laws : ReaderLaws (NetasciiReader P) netascii_reader_ops
  netascii_reader_laws = record {
    contents = netascii_contents;
    broken = λ _. false;
    read_ok = λ r n o p h.
        let (e, o', c) = read_chars-Delivers r n o in
        ((read_chars r n).1, ap (λ x. (x, (read_chars r n).1)) e, o', c, refl);
    read_broken = λ r n o h k. absurd (false≢true k);
  }
