-- ===== src/Server/ReadConnection/Errors.antt =====
-- How a read connection refuses a request: with an ERROR, after which it ends.
use octnet_tftp.Base.{
  ℕ, ◌+◌, ◌%◌, ◌≡◌, refl, sym, ap, ◌∙◌, subst, inl, inr, true, false, Bool-cases, Option,
  Option-cases, none, some, [], ◌∷◌, Bytes, codes, if◌then◌else◌, arith,
}
use mathlib.Core.Option.{some-injective, none-ne-some}
use octnet_tftp.Net.{EndpointOps, success, send_to, open_socket, connection_terminated, Outcome}
use octnet_tftp.Wire.Packet.{PacketFileReq}
use octnet_tftp.Wire.Errcode
use octnet_tftp.Blocks.Datagrams.{error_datagram}
use octnet_tftp.Io.Interface.{ReaderOps, read_pointer}
use octnet_tftp.Io.Manager.{IoManager}
use octnet_tftp.Server.Result.{returned, all_succeed}
use octnet_tftp.Server.ReadConnection.{
  ReadConnection, read_connection, start, send_first_packet, send_next_data_packet, send_data,
  send_error, send_packet, send_prepared_packet, on_packet_sent, terminate,
}

module _ {R : Type 0} ⦃ops : ReaderOps R⦄ where
  -- The code and the message with which a request is refused: the manager has no reader for its
  -- name and mode, the file does not open, or it fails at the first read.
  abbrev pub refusal : Option R → Option (ℕ × Bytes)
  refusal none = some (Errcode.access_violation, codes "invalid path or mode")
  refusal (some r) =
      if ops.is_open r
      then elim (ops.read r 512).0 [
        | none ↦ some (Errcode.file_not_found, codes "invalid path")
        | some bytes ↦ none
      ]
      else some (Errcode.file_not_found, codes "file not found")

  module _ {E : Type 0} where
    -- The ERROR is sent to the client, and when it is out the connection ends.
    abbrev pub Refuses : E → ℕ × Bytes → Outcome E (ReadConnection E R) → Type 0
    Refuses client (code, message) outcome =
        (outcome.1 ≡ send_to (error_datagram code message) client ∷ [])
        × (on_packet_sent outcome.0 success ≡ (outcome.0, connection_terminated ∷ []))

    send_error-Refuses :
        (s : ReadConnection E R) (code : ℕ) (message : Bytes)
        → Refuses s.client_endpoint (code, message) (send_error s code message)
    unfolding send_packet send_prepared_packet on_packet_sent terminate
    send_error-Refuses s code message = (refl, refl)

    first_none :
        (s : ReadConnection E R)
        → s.reader ≡ none
        → send_first_packet s ≡ send_error s 2 (codes "invalid path or mode")
    unfolding send_first_packet
    first_none s e = ground arith

    first_closed :
        (s : ReadConnection E R) (r : R)
        → s.reader ≡ some r
        → ops.is_open r ≡ false
        → send_first_packet s ≡ send_error s 1 (codes "file not found")
    unfolding send_first_packet
    first_closed s r e o = ground arith

    first_open :
        (s : ReadConnection E R) (r : R)
        → s.reader ≡ some r
        → ops.is_open r ≡ true
        → send_first_packet s ≡ send_next_data_packet s
    unfolding send_first_packet
    first_open s r e o = ground arith

    next_broken :
        (s : ReadConnection E R) (r : R)
        → s.reader ≡ some r
        → (ops.read r 512).0 ≡ none
        → send_next_data_packet s
          ≡ send_error
              (record s {
                last_sent_packet_id = (s.last_sent_packet_id + 1) % 65536;
                reader = (read_pointer s.reader 512).1;
              })
              1
              (codes "invalid path")
    unfolding send_next_data_packet send_data
    next_broken s r e n =
        let failed : (read_pointer s.reader 512).0 ≡ none =
          ap (λ x. (read_pointer x 512).0) e ∙ n in
        rw failed

    first-Refuses :
        (s : ReadConnection E R) (why : ℕ × Bytes)
        → refusal s.reader ≡ some why
        → Refuses s.client_endpoint why (send_first_packet s)
    first-Refuses s why e = elim (Option-cases s.reader) [
      | inl n ↦
          let h : some (2, codes "invalid path or mode") ≡ some why = sym (ap refusal n) ∙ e in
          subst (λ w. Refuses s.client_endpoint w (send_first_packet s)) (some-injective _ _ h)
            (subst (Refuses s.client_endpoint (2, codes "invalid path or mode"))
              (sym (first_none s n)) (send_error-Refuses s 2 (codes "invalid path or mode")))
      | inr (r, n) ↦ elim (Bool-cases (ops.is_open r)) [
        | inr o ↦
            let g : refusal s.reader ≡ some (1, codes "file not found") = ap refusal n ∙ rw o in
            subst (λ w. Refuses s.client_endpoint w (send_first_packet s))
              (some-injective _ _ (sym g ∙ e))
              (subst (Refuses s.client_endpoint (1, codes "file not found"))
                (sym (first_closed s r n o)) (send_error-Refuses s 1 (codes "file not found")))
        | inl o ↦ elim (Option-cases (ops.read r 512).0) [
          | inl b ↦
              let g : refusal s.reader ≡ some (1, codes "invalid path") =
                ap refusal n ∙ rw (o, b) in
              subst (λ w. Refuses s.client_endpoint w (send_first_packet s))
                (some-injective _ _ (sym g ∙ e))
                (subst (Refuses s.client_endpoint (1, codes "invalid path"))
                  (sym (first_open s r n o ∙ next_broken s r n b))
                  (send_error-Refuses _ 1 (codes "invalid path")))
          | inr (bytes, b) ↦
              let g : refusal s.reader ≡ none = ap refusal n ∙ rw (o, b) in
              absurd (none-ne-some why (sym g ∙ e))
        ]
      ]
    ]

    -- A read request is refused, with the code and the message of `refusal`, if the manager has no
    -- reader for it, or one that is not open, or one whose first read fails: the connection opens its
    -- socket, which binds, sends the ERROR to the client, and ends when it is sent.
    pub read_start-Refuses :
        {W : Type 0} ⦃endpoints : EndpointOps E⦄ (m : IoManager R W) (request : PacketFileReq)
        (client : E) (why : ℕ × Bytes)
        → refusal (m.create_reader request.filename request.mode) ≡ some why
        → (s : ReadConnection E R) × (start m all_succeed (read_connection request client)
            ≡ returned (s, open_socket ∷ send_to (error_datagram why.0 why.1) client ∷ []))
          × (on_packet_sent s success ≡ (s, connection_terminated ∷ []))
    unfolding start read_connection
    read_start-Refuses m request client why e =
        let s : ReadConnection E R = record (read_connection request client) {
          reader = m.create_reader request.filename request.mode;
          socket_is_open = true;
        } in
        let (sent, ended) = first-Refuses s why e in
        (
          (send_first_packet s).0,
          ap (λ es. returned ((send_first_packet s).0, open_socket ∷ es)) sent,
          ended,
        )
