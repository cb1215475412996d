-- ===== src/Client/Get/Transfer.antt =====
-- The data that a download takes: of whatever DATA packets the server sends, each block is written
-- once, in order, and acknowledged, up to block 65535.
use octnet_tftp.Base.{
  ℕ, ◌+◌, ◌≤◌, ◌≡◌, ◌⊎◌, refl, sym, ap, ◌∙◌, subst, inl, inr, true, false, not, some, List, [], ◌∷◌,
  Bytes, length, ltb, ◌==◌, if◌then◌else◌, arith,
}
use octnet_tftp.Base.Int.{pos}
use octnet_tftp.Net.{Effect, send_to, Outcome}
use octnet_tftp.Wire.Packet.{op_ack, PacketData, ack}
use octnet_tftp.Wire.Builder.{build_packet}
use octnet_tftp.Io.File.{FileSystem}
use octnet_tftp.Io.Manager.{Writer, writer_ops}
use octnet_tftp.Io.Manager.Writers.{View, writer_view, writer_room, absorb, write_absorbs}
use octnet_tftp.Client.Get.{
  ClientGet, open_writer, process_data_received, first_data, write_data, answer_data, send_packet,
  send_prepared_packet,
}

-- The block acknowledged last after a packet, and the data accepted of a sequence of packets.
abbrev pub acked_after : ℕ → PacketData → ℕ
acked_after n p = if n + 1 == p.block_no then p.block_no else n

abbrev pub accepted : ℕ → List PacketData → List Bytes
accepted n [] = []
accepted n (p ∷ packets) =
    let rest = accepted (acked_after n p) packets in
    if n + 1 == p.block_no then p.bytes ∷ rest else rest

abbrev pub acked_after_all : ℕ → List PacketData → ℕ
acked_after_all n [] = n
acked_after_all n (p ∷ packets) = acked_after_all (acked_after n p) packets

module _ {E : Type 0} where
  abbrev pub send_ack : E → ℕ → Effect E
  send_ack peer n = send_to (build_packet (ack (record { op = op_ack; block_no = n }))) peer

  -- The last datagram is the acknowledgement of block `n`, to `peer`.
  abbrev pub Acknowledged : E → ℕ → ClientGet E → Type 0
  Acknowledged peer n s =
      (s.request_complete ≡ true)
      × (s.server_endpoint ≡ peer)
      × (s.out_packet_data ≡ build_packet (ack (record { op = op_ack; block_no = n })))

  -- What is answered: an ACK for each packet that is accepted, and nothing for the others.
  abbrev pub answers : E → ℕ → List PacketData → List (Effect E)
  answers peer n [] = []
  answers peer n (p ∷ packets) =
      let rest = answers peer (acked_after n p) packets in
      if n + 1 == p.block_no then send_ack peer p.block_no ∷ rest else rest

-- An open writer with a view, and room for `m` bytes.
abbrev pub IsSink : View → ℕ → Writer → Type 0
IsSink view m w = (writer_ops.is_open w ≡ true) × (writer_view w ≡ view) × (m ≤ writer_room w)

module _ {E : Type 0} (fs : FileSystem) where
  -- The transfer with `peer` goes on, or waits for its first block.
  abbrev pub Goes : E → Writer → ClientGet E → Type 0
  Goes peer w s = (s.request_complete ≡ true) × (s.server_endpoint ≡ peer) × (s.writer ≡ some w)

  abbrev pub Waits : Writer → ClientGet E → Type 0
  Waits w s = (s.request_complete ≡ false) × (open_writer fs s ≡ some w)

  -- `acked` blocks have been taken, and the file has a view, and room for `m` bytes.
  pub record Ready (peer : E) (view : View) (m acked : ℕ) (s : ClientGet E) : Type 0 where
    pub last : s.last_acked_packet_id ≡ acked
    pub file : (w : Writer) × IsSink view m w × (Goes peer w s ⊎ Waits w s)

  pub process_data_other :
      (s : ClientGet E) (p : PacketData) (n : ℕ)
      → s.last_acked_packet_id ≡ n
      → (n + 1 == p.block_no) ≡ false
      → process_data_received fs s p ≡ (s, [])
  unfolding process_data_received
  process_data_other s p n e h = rw (e, h)

  process_data_next :
      (s : ClientGet E) (p : PacketData) (n : ℕ)
      → s.last_acked_packet_id ≡ n
      → (n + 1 == p.block_no) ≡ true
      → s.request_complete ≡ true
      → process_data_received fs s p ≡ write_data s p
  unfolding process_data_received
  process_data_next s p n e h c = rw (e, h, c)

  -- The state in which the first block is written.
  abbrev opened : ClientGet E → ClientGet E
  opened s = record s {
    request_complete = true;
    server_endpoint = s.in_packet_endpoint;
    writer = open_writer fs s;
  }

  process_data_first :
      (s : ClientGet E) (p : PacketData) (n : ℕ)
      → s.last_acked_packet_id ≡ n
      → (n + 1 == p.block_no) ≡ true
      → s.request_complete ≡ false
      → process_data_received fs s p ≡ first_data (opened s) p
  unfolding process_data_received
  process_data_first s p n e h c = rw (e, h, c)

  first_data_opened :
      (s : ClientGet E) (p : PacketData) (w : Writer)
      → s.writer ≡ some w
      → writer_ops.is_open w ≡ true
      → first_data s p ≡ write_data s p
  unfolding first_data
  first_data_opened s p w e o = rw (e, o)

  write_data_lem :
      (s : ClientGet E) (p : PacketData) (w w' : Writer)
      → s.writer ≡ some w
      → writer_ops.write w p.bytes ≡ (true, w')
      → write_data s p ≡ (
        record s {
          writer = some w';
          last_acked_packet_id = p.block_no;
          out_packet_data = build_packet (ack (record { op = op_ack; block_no = p.block_no }));
          response_expected = not (ltb (length p.bytes) 512);
          retry_counter = pos 5;
        },
        send_ack s.server_endpoint p.block_no ∷ [],
      )
  unfolding write_data answer_data send_packet send_prepared_packet
  write_data_lem s p w w' e f = rw (e, f)

  -- What a handler does that takes block `p`.
  abbrev pub Took : E → View → ℕ → PacketData → Outcome E (ClientGet E) → Type 0
  Took peer view m p outcome =
      Ready peer (absorb view p.bytes) m p.block_no outcome.0
      × Acknowledged peer p.block_no outcome.0
      × (outcome.1 ≡ send_ack peer p.block_no ∷ [])

  write_data-Took :
      (peer : E) (view : View) (m : ℕ) (s : ClientGet E) (p : PacketData) (w : Writer)
      → IsSink view (length p.bytes + m) w
      → Goes peer w s
      → Took peer view m p (write_data s p)
  write_data-Took peer view m s p w (o, v, r) (c, x, ew) =
      let (w', f, o', v', r') = write_absorbs w p.bytes o (omega arith) in
      rw (write_data_lem s p w w' ew f) (
        record {
          last = refl;
          file = (w', (o', v' ∙ ap (λ y. absorb y p.bytes) v, omega arith), inl (c, x, refl));
        },
        (c, x, refl),
        ap (λ q. send_ack q p.block_no ∷ []) x,
      )

  pub process_data-Took :
      (peer : E) (view : View) (m n : ℕ) (s : ClientGet E) (p : PacketData)
      → (n + 1 == p.block_no) ≡ true
      → s.in_packet_endpoint ≡ peer
      → Ready peer view (length p.bytes + m) n s
      → Took peer view m p (process_data_received fs s p)
  process_data-Took peer view m n s p h x t =
      let (w, k, state) = t.file in
      elim state [
        | inl g ↦
            subst (Took peer view m p) (sym (process_data_next s p n t.last h g.0))
              (write_data-Took peer view m s p w k g)
        | inr (c, e) ↦
            subst (Took peer view m p)
              (sym (process_data_first s p n t.last h c ∙ first_data_opened (opened s) p w e k.0))
              (write_data-Took peer view m (opened s) p w k (refl, x, e))
      ]
