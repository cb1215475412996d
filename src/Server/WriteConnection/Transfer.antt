-- ===== src/Server/WriteConnection/Transfer.antt =====
-- The data that a write connection takes: of whatever DATA packets are handled, each block is
-- written once, in order, and acknowledged.
use octnet_tftp.Base.{
  ℕ, ◌+◌, ◌%◌, ◌≤◌, ◌<◌, ◌≡◌, refl, sym, ap, ap₂, ◌∙◌, subst, inl, inr, true, false, Bool-cases,
  some, List, [], ◌∷◌, ◌++◌, Bytes, length, flatten, length-append, ◌==◌, arith,
}
use octnet_tftp.Net.{EndpointOps, Effect, send_to, open_socket, Outcome}
use octnet_tftp.Wire.Packet.{op_ack, PacketData, PacketFileReq, ack}
use octnet_tftp.Wire.Builder.{build_packet}
use octnet_tftp.Io.Interface.{WriterOps, SinkLaws}
use octnet_tftp.Io.Manager.{IoManager}
use octnet_tftp.Server.Result.{returned, all_succeed}
use octnet_tftp.Server.WriteConnection.{
  WriteConnection, write_connection, start, send_first_packet, process_data_received, send_ack,
}
use octnet_tftp.Server.WriteConnection.Accept.{
  accepted, expected_after_all, answers, Taking, process_data_other, process_data-Taking,
  send_ack-Acknowledges,
}

room_split : (xs ys : Bytes) (m : ℕ) → length (xs ++ ys) + m ≡ length xs + (length ys + m)
room_split xs ys m = omega (arith, length-append {0} xs ys)

one_mod : (0 + 1) % 65536 ≡ 1
one_mod = omega arith

module _ {E W V : Type 0} ⦃ops : WriterOps W⦄ (laws : SinkLaws V W ops) where
  -- The handlers of a sequence of DATA packets, one after the other.
  pub process_all : WriteConnection E W → List PacketData → Outcome E (WriteConnection E W)
  process_all s [] = (s, [])
  process_all s (p ∷ packets) =
      let (s', effects) = process_data_received s p in
      let (s'', later) = process_all s' packets in (s'', effects ++ later)

  process_all_more :
      (s : WriteConnection E W) (p : PacketData) (packets : List PacketData)
      {s' : WriteConnection E W} {effects : List (Effect E)}
      → process_data_received s p ≡ (s', effects)
      → process_all s (p ∷ packets)
        ≡ ((process_all s' packets).0, effects ++ (process_all s' packets).1)
  unfolding process_all
  process_all_more s p packets e =
      ap (λ o. ((process_all o.0 packets).0, o.1 ++ (process_all o.0 packets).1)) e

  -- What the packets lead to.
  abbrev pub Takes : E → V → ℕ → ℕ → List PacketData → Outcome E (WriteConnection E W) → Type 0
  Takes peer view m n packets outcome =
      Taking laws peer (laws.absorb view (flatten (accepted n packets))) m
        (expected_after_all n packets) outcome.0
      × (outcome.1 ≡ answers peer n packets)

  -- Whatever DATA packets arrive, in whatever order and however often, those are written, in order
  -- and each once, that carry the number expected at their turn; each is acknowledged by its number
  -- once it is written; and the others leave no trace. The writer has room for what is written.
  pub process_all-Takes :
      (peer : E) (view : V) (m n : ℕ) (packets : List PacketData) (s : WriteConnection E W)
      → n < 65536
      → Taking laws peer view (length (flatten (accepted n packets)) + m) n s
      → Takes peer view m n packets (process_all s packets)
  process_all-Takes peer view m n [] s small t =
      unfold process_all in
      (
        record {
          client = t.client;
          expects = t.expects;
          writes =
              let (w, ew, o, v, r) = t.writes in
              (w, ew, o, v ∙ sym (laws.absorb_nil view), omega arith);
        },
        refl,
      )
  process_all-Takes peer view m n (p ∷ packets) s small t = elim (Bool-cases (p.block_no == n)) [
    | inl e ↦
        let n' : ℕ = (n + 1) % 65536 in
        let rest : Bytes = flatten (accepted n' packets) in
        let t1 : Taking laws peer view (length (p.bytes ++ rest) + m) n s = rw e at t in
        let t2 : Taking laws peer view (length p.bytes + (length rest + m)) n s =
          subst (λ k. Taking laws peer view k n s) (room_split p.bytes rest m) t1 in
        let (t3, es, d) = process_data-Taking laws peer view (length rest + m) n s p small e t2 in
        let (t4, es') =
          process_all-Takes peer (laws.absorb view p.bytes) m n' packets _ (omega arith) t3 in
        rw (e, process_all_more s p packets refl)
          (
            subst
                (λ v.
                  Taking laws peer v m (expected_after_all n' packets)
                    (process_all (process_data_received s p).0 packets).0)
                (sym (laws.absorb_append view p.bytes rest)) t4,
            ap₂ (λ xs ys. xs ++ ys) es es',
          )
    | inr e ↦
        let t1 : Taking laws peer view (length (flatten (accepted n packets)) + m) n s =
          rw e at t in
        rw (e, process_all_more s p packets (process_data_other laws s p n t.expects e))
          (process_all-Takes peer view m n packets s small t1)
  ]

  pub opened_lem :
      (s : WriteConnection E W) (w : W)
      → s.writer ≡ some w
      → ops.is_open w ≡ true
      → send_first_packet s ≡ send_ack s 0 false
  unfolding send_first_packet
  opened_lem s w e o = ground arith

  module _ {R : Type 0} ⦃endpoints : EndpointOps E⦄ where
    -- The run of a connection whose file has `view`, on the packets.
    abbrev pub TakesFile : IoManager R W → PacketFileReq → E → V → List PacketData → Type 0
    TakesFile m request peer view packets =
        (s : WriteConnection E W) × (start m all_succeed (write_connection request peer)
          ≡ returned (
            s,
            open_socket
                ∷ send_to (build_packet (ack (record { op = op_ack; block_no = 0 }))) peer
                ∷ [],
          ))
        × Takes peer view 0 1 packets (process_all s packets)

    -- A write request whose file opens is answered with the ACK of block 0; then, whatever DATA
    -- packets are handled, the data written is that of the packets which carry, at their turn, the
    -- number expected, counted from 1 and wrapping at 65536; and the effects are those of their
    -- answers. The file has room for the data written.
    pub start_takes :
        (m : IoManager R W) (request : PacketFileReq) (peer : E) (w : W) (packets : List PacketData)
        → m.create_writer request.filename request.mode ≡ some w
        → ops.is_open w ≡ true
        → length (flatten (accepted 1 packets)) ≤ laws.room w
        → TakesFile m request peer (laws.view w) packets
    unfolding start write_connection
    start_takes m request peer w packets e o h =
        let s : WriteConnection E W = record (write_connection request peer) {
          writer = m.create_writer request.filename request.mode;
          socket_is_open = true;
        } in
        let (c, x, ew, es, d) = send_ack-Acknowledges laws s 0 false (omega arith) in
        (
          (send_ack s 0 false).0,
          rw (opened_lem s w e o)
              (ap (λ es. returned ((send_ack s 0 false).0, open_socket ∷ es)) es),
          process_all-Takes peer (laws.view w) 0 1 packets _ (omega arith) (record {
            client = c;
            expects = x ∙ one_mod;
            writes = (w, ew ∙ e, o, refl, omega arith);
          }),
        )
