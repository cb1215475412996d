-- ===== src/Server/WriteConnection/Accept.antt =====
-- One DATA packet at a write connection: written and acknowledged if it is the expected one, and
-- passed over otherwise.
use octnet_tftp.Base.{
  ℕ, suc, ◌+◌, ◌%◌, ◌≤◌, ◌<◌, ◌≡◌, refl, sym, ap, ap₂, ◌∙◌, subst, inl, inr, Bool, true, false,
  Bool-cases, Option, some, List, [], ◌∷◌, Bytes, length, ltb, ◌==◌, ==_iff, if◌then◌else◌, arith,
}
use octnet_tftp.Net.{Effect, send_to, cancel_timer, emit, Outcome}
use octnet_tftp.Wire.Packet.{op_ack, PacketData, ack}
use octnet_tftp.Wire.Builder.{build_packet}
use octnet_tftp.Io.Interface.{WriterOps, SinkLaws, write_pointer}
use octnet_tftp.Server.WriteConnection.{
  WriteConnection, process_data_received, write_data, answer_data, send_ack, send_packet,
  send_prepared_packet,
}

-- The number expected after a packet, and the data accepted of a sequence of packets.
abbrev pub expected_after : ℕ → PacketData → ℕ
expected_after n p = if p.block_no == n then (n + 1) % 65536 else n

abbrev pub accepted : ℕ → List PacketData → List Bytes
accepted n [] = []
accepted n (p ∷ packets) =
    let rest = accepted (expected_after n p) packets in
    if p.block_no == n then p.bytes ∷ rest else rest

abbrev pub expected_after_all : ℕ → List PacketData → ℕ
expected_after_all n [] = n
expected_after_all n (p ∷ packets) = expected_after_all (expected_after n p) packets

module _ {E : Type 0} where
  -- What is answered: an ACK for each packet that is accepted, and nothing for the others.
  abbrev pub answers : E → ℕ → List PacketData → List (Effect E)
  answers peer n [] = []
  answers peer n (p ∷ packets) =
      let rest = answers peer (expected_after n p) packets in
      if p.block_no == n
      then cancel_timer
        ∷ send_to (build_packet (ack (record { op = op_ack; block_no = n }))) peer
        ∷ rest
      else rest

ltb-suc : (n : ℕ) → ltb 0 (suc n) ≡ true
ltb-suc n = ground arith

module _ {E W V : Type 0} ⦃ops : WriterOps W⦄ (laws : SinkLaws V W ops) where
  -- The connection with `peer` has an open writer with `view` and room for `n` bytes.
  pub record Taking (peer : E) (view : V) (n expected : ℕ) (s : WriteConnection E W) : Type 0 where
    pub client : s.client_endpoint ≡ peer
    pub expects : s.next_expected_packet_id ≡ expected
    pub writes :
        (w : W) × (s.writer ≡ some w)
        × (ops.is_open w ≡ true)
        × (laws.view w ≡ view)
        × (n ≤ laws.room w)

  -- The writer after an empty block, or another, for which there is room.
  write_block :
      (s : WriteConnection E W) (w : W) (bytes : Bytes)
      → s.writer ≡ some w
      → ops.is_open w ≡ true
      → length bytes ≤ laws.room w
      → (w' : W) × ((if ltb 0 (length bytes)
            then write_pointer s.writer bytes
            else (true, s.writer))
          ≡ (true, some w'))
        × (ops.is_open w' ≡ true)
        × (laws.view w' ≡ laws.absorb (laws.view w) bytes)
        × (laws.room w ≤ laws.room w' + length bytes)
  write_block s w [] e o h = (w, ap (λ x. (true, x)) e, o, sym (laws.absorb_nil _), omega arith)
  write_block s w (b ∷ bytes) e o h =
      let (w', f, o', v, r) = laws.write_absorbs w (b ∷ bytes) o h in
      (
        w',
        rw (ltb-suc (length bytes))
            (ap (λ x. write_pointer x (b ∷ bytes)) e ∙ ap (λ x. (x.0, some x.1)) f),
        o',
        v,
        r,
      )

  -- The state and the effect of a block that has been written, whether it is the last or not.
  abbrev pub Acknowledges : ℕ → WriteConnection E W → Outcome E (WriteConnection E W) → Type 0
  Acknowledges n s outcome =
      (outcome.0.client_endpoint ≡ s.client_endpoint)
      × (outcome.0.next_expected_packet_id ≡ (n + 1) % 65536)
      × (outcome.0.writer ≡ s.writer)
      × (outcome.1
          ≡ send_to (build_packet (ack (record { op = op_ack; block_no = n }))) s.client_endpoint
            ∷ [])
      × (outcome.0.out_packet_data ≡ build_packet (ack (record { op = op_ack; block_no = n })))

  pub send_ack-Acknowledges :
      (s : WriteConnection E W) (n : ℕ) (is_last : Bool)
      → n < 65536
      → Acknowledges n s (send_ack s n is_last)
  unfolding send_ack send_packet send_prepared_packet
  send_ack-Acknowledges s n is_last h =
      let small : n % 65536 ≡ n = omega arith in
      (
        refl,
        refl,
        refl,
        ap
            (λ k.
              send_to (build_packet (ack (record { op = op_ack; block_no = k }))) s.client_endpoint
              ∷ [])
            small,
        ap (λ k. build_packet (ack (record { op = op_ack; block_no = k }))) small,
      )

  answer_more :
      (s : WriteConnection E W) (p : PacketData)
      → (length p.bytes == 512) ≡ true
      → answer_data s p true ≡ send_ack s p.block_no false
  unfolding answer_data
  answer_more s p e = rw e

  answer_last :
      (s : WriteConnection E W) (p : PacketData)
      → (length p.bytes == 512) ≡ false
      → answer_data s p true ≡ send_ack s p.block_no true
  unfolding answer_data
  answer_last s p e = rw e

  answer_data-Acknowledges :
      (s : WriteConnection E W) (p : PacketData)
      → p.block_no < 65536
      → Acknowledges p.block_no s (answer_data s p true)
  answer_data-Acknowledges s p h = elim (Bool-cases (length p.bytes == 512)) [
    | inl e ↦
        subst (Acknowledges p.block_no s) (sym (answer_more s p e))
          (send_ack-Acknowledges s p.block_no false h)
    | inr e ↦
        subst (Acknowledges p.block_no s) (sym (answer_last s p e))
          (send_ack-Acknowledges s p.block_no true h)
  ]

  -- A packet of another number is passed over.
  pub process_data_other :
      (s : WriteConnection E W) (p : PacketData) (n : ℕ)
      → s.next_expected_packet_id ≡ n
      → (p.block_no == n) ≡ false
      → process_data_received s p ≡ (s, [])
  unfolding process_data_received
  process_data_other s p n e h = rw (e, h)

  process_data_expected :
      (s : WriteConnection E W) (p : PacketData) (n : ℕ) {writer : Option W}
      → s.next_expected_packet_id ≡ n
      → (p.block_no == n) ≡ true
      → (if ltb 0 (length p.bytes) then write_pointer s.writer p.bytes else (true, s.writer))
        ≡ (true, writer)
      → process_data_received s p
        ≡ emit cancel_timer (answer_data (record s { writer = writer }) p true)
  unfolding process_data_received write_data
  process_data_expected s p n e h f = rw (e, h, f)

  -- The packet that is expected is written, acknowledged, and followed by the next.
  pub process_data-Taking :
      (peer : E) (view : V) (m n : ℕ) (s : WriteConnection E W) (p : PacketData)
      → n < 65536
      → (p.block_no == n) ≡ true
      → Taking peer view (length p.bytes + m) n s
      → let outcome = process_data_received s p in
        Taking peer (laws.absorb view p.bytes) m ((n + 1) % 65536) outcome.0
        × (outcome.1
            ≡ cancel_timer
              ∷ send_to (build_packet (ack (record { op = op_ack; block_no = n }))) peer
              ∷ [])
        × (outcome.0.out_packet_data ≡ build_packet (ack (record { op = op_ack; block_no = n })))
  process_data-Taking peer view m n s p small e t =
      let (w, ew, o, v, r) = t.writes in
      let (w', f, o', v', r') = write_block s w p.bytes ew o (omega arith) in
      let same : p.block_no ≡ n = (==_iff _ _).0 e in
      let (c, x, ew', es, d) =
        answer_data-Acknowledges (record s { writer = some w' }) p (omega arith) in
      rw (process_data_expected s p n t.expects e f) (
        record {
          client = c ∙ t.client;
          expects = x ∙ ap (λ k. (k + 1) % 65536) same;
          writes = (w', ew', o', v' ∙ ap (λ y. laws.absorb y p.bytes) v, omega arith);
        },
        ap (◌∷◌ cancel_timer) (
            es
            ∙ ap₂
                (λ k q. send_to (build_packet (ack (record { op = op_ack; block_no = k }))) q ∷ [])
                same t.client),
        d ∙ ap (λ k. build_packet (ack (record { op = op_ack; block_no = k }))) same,
      )
