-- ===== src/Server/WriteConnection/Errors.antt =====
-- How a write connection refuses a request, and how it meets a failing write: with an ERROR, after which it ends.
use octnet_tftp.Base.{
  ℕ, ◌<◌, ltb, length, ◌==◌, ==_iff, ◌≡◌, refl, sym, ap, ◌∙◌, subst, inl, inr, true, false,
  Bool-cases, Option, Option-cases, none, some, [], ◌∷◌, Bytes, codes, if◌then◌else◌, arith,
}
use mathlib.Core.Option.{some-injective, none-ne-some}
use octnet_tftp.Net.{
  EndpointOps, success, send_to, open_socket, cancel_timer, emit, connection_terminated, Outcome,
}
use octnet_tftp.Wire.Packet.{PacketFileReq, PacketData}
use octnet_tftp.Wire.Errcode
use octnet_tftp.Blocks.Datagrams.{error_datagram}
use octnet_tftp.Io.Interface.{WriterOps, write_pointer}
use octnet_tftp.Io.Manager.{IoManager}
use octnet_tftp.Server.Result.{returned, all_succeed}
use octnet_tftp.Server.WriteConnection.{
  WriteConnection, write_connection, start, send_first_packet, process_data_received, write_data,
  answer_data, send_error, send_packet, send_prepared_packet, on_packet_sent, terminate,
}

module _ {W : Type 0} ⦃ops : WriterOps W⦄ where
  -- The code and the message with which a request is refused: the manager has no writer for its
  -- name and mode, or the file does not open.
  abbrev pub refusal : Option W → Option (ℕ × Bytes)
  refusal none = some (Errcode.access_violation, codes "invalid path")
  refusal (some w) =
      if ops.is_open w then none else some (Errcode.file_not_found, codes "invalid path")

  module _ {E : Type 0} where
    -- The ERROR is sent to the client, and when it is out the connection ends.
    abbrev pub Refuses : E → ℕ × Bytes → Outcome E (WriteConnection E W) → Type 0
    Refuses client (code, message) outcome =
        (outcome.1 ≡ send_to (error_datagram code message) client ∷ [])
        × (on_packet_sent outcome.0 success ≡ (outcome.0, connection_terminated ∷ []))

    send_error-Refuses :
        (s : WriteConnection E W) (code : ℕ) (message : Bytes)
        → Refuses s.client_endpoint (code, message) (send_error s code message)
    unfolding send_packet send_prepared_packet on_packet_sent terminate
    send_error-Refuses s code message = (refl, refl)

    first_none :
        (s : WriteConnection E W)
        → s.writer ≡ none
        → send_first_packet s ≡ send_error s 2 (codes "invalid path")
    unfolding send_first_packet
    first_none s e = ground arith

    first_closed :
        (s : WriteConnection E W) (r : W)
        → s.writer ≡ some r
        → ops.is_open r ≡ false
        → send_first_packet s ≡ send_error s 1 (codes "invalid path")
    unfolding send_first_packet
    first_closed s r e o = ground arith

    first-Refuses :
        (s : WriteConnection E W) (why : ℕ × Bytes)
        → refusal s.writer ≡ some why
        → Refuses s.client_endpoint why (send_first_packet s)
    first-Refuses s why e = elim (Option-cases s.writer) [
      | inl n ↦
          let h : some (2, codes "invalid path") ≡ some why = sym (ap refusal n) ∙ e in
          subst (λ w. Refuses s.client_endpoint w (send_first_packet s)) (some-injective _ _ h)
            (subst (Refuses s.client_endpoint (2, codes "invalid path")) (sym (first_none s n))
              (send_error-Refuses s 2 (codes "invalid path")))
      | inr (r, n) ↦ elim (Bool-cases (ops.is_open r)) [
        | inr o ↦
            let g : refusal s.writer ≡ some (1, codes "invalid path") = ap refusal n ∙ rw o in
            subst (λ w. Refuses s.client_endpoint w (send_first_packet s))
              (some-injective _ _ (sym g ∙ e))
              (subst (Refuses s.client_endpoint (1, codes "invalid path"))
                (sym (first_closed s r n o)) (send_error-Refuses s 1 (codes "invalid path")))
        | inl o ↦
            let g : refusal s.writer ≡ none = ap refusal n ∙ rw o in
            absurd (none-ne-some why (sym g ∙ e))
      ]
    ]

    -- A write request is refused, with the code and the message of `refusal`, if the manager has no
    -- writer for it, or one that is not open: the connection opens its socket, which binds, sends the
    -- ERROR to the client, and ends when it is sent.
    pub write_start-Refuses :
        {R : Type 0} ⦃endpoints : EndpointOps E⦄ (m : IoManager R W) (request : PacketFileReq)
        (client : E) (why : ℕ × Bytes)
        → refusal (m.create_writer request.filename request.mode) ≡ some why
        → (s : WriteConnection E W) × (start m all_succeed (write_connection request client)
            ≡ returned (s, open_socket ∷ send_to (error_datagram why.0 why.1) client ∷ []))
          × (on_packet_sent s success ≡ (s, connection_terminated ∷ []))
    unfolding start write_connection
    write_start-Refuses m request client why e =
        let s : WriteConnection E W = record (write_connection request client) {
          writer = m.create_writer request.filename request.mode;
          socket_is_open = true;
        } in
        let (sent, ended) = first-Refuses s why e in
        (
          (send_first_packet s).0,
          ap (λ es. returned ((send_first_packet s).0, open_socket ∷ es)) sent,
          ended,
        )

    write_failed_lem :
        (s : WriteConnection E W) (p : PacketData) (w : W)
        → p.block_no ≡ s.next_expected_packet_id
        → 0 < length p.bytes
        → s.writer ≡ some w
        → (ops.write w p.bytes).0 ≡ false
        → process_data_received s p
          ≡ emit cancel_timer (
              send_error
                (record s { writer = (write_pointer s.writer p.bytes).1 })
                3
                (codes "write failed"))
    unfolding process_data_received write_data answer_data
    write_failed_lem s p w h some_bytes e f =
        let expected : (p.block_no == s.next_expected_packet_id) ≡ true = (==_iff _ _).1 h in
        let filled : ltb 0 (length p.bytes) ≡ true = ground arith in
        let failed : (write_pointer s.writer p.bytes).0 ≡ false =
          ap (λ x. (write_pointer x p.bytes).0) e ∙ f in
        rw (expected, filled, failed)

    -- A block that is expected and not empty, but cannot be written, is answered with the ERROR for a
    -- full disk in place of its ACK, and the connection ends when it is sent.
    pub write_failed-Refuses :
        (s : WriteConnection E W) (p : PacketData) (w : W)
        → p.block_no ≡ s.next_expected_packet_id
        → 0 < length p.bytes
        → s.writer ≡ some w
        → (ops.write w p.bytes).0 ≡ false
        → (s' : WriteConnection E W) × (process_data_received s p ≡ (
          s',
          cancel_timer
              ∷ send_to (error_datagram Errcode.disk_full (codes "write failed")) s.client_endpoint
              ∷ [],
        ))
          × (on_packet_sent s' success ≡ (s', connection_terminated ∷ []))
    write_failed-Refuses s p w h some_bytes e f =
        let s1 : WriteConnection E W = record s { writer = (write_pointer s.writer p.bytes).1 } in
        let (sent, ended) = send_error-Refuses s1 3 (codes "write failed") in
        (
          (send_error s1 3 (codes "write failed")).0,
          write_failed_lem s p w h some_bytes e f
              ∙ ap (λ es. ((send_error s1 3 (codes "write failed")).0, cancel_timer ∷ es)) sent,
          ended,
        )
