-- ===== src/Server/WriteConnection/Pending.antt =====
-- What the handlers of a write connection ask of asio: to wait, to send, to end, or nothing.
use octnet_tftp.Base.{
  ℕ, ◌≡◌, ◌⊎◌, inl, inr, refl, Bool, true, false, Bool-cases, Option, Option-cases, none, some,
  List, [], ◌∷◌, Bytes, length, ltb, ◌==◌, if◌then◌else◌,
}
use octnet_tftp.Base.Int.{pred, is_pos}
use octnet_tftp.Net.{
  EndpointOps, Effect, open_socket, success, failed, send_to, cancel_timer, connection_terminated,
  start_timer, receive_from, Outcome, emit,
}
use octnet_tftp.Io.Manager.{IoManager}
use octnet_tftp.Net.Pending.{Goes, sends, sends_next, ends}
use octnet_tftp.Wire.Packet.{
  default_retry_timeout_sec, Packet, PacketData, file_req, data_packet, ack, error,
}
use octnet_tftp.Io.Interface.{WriterOps, write_pointer}
use octnet_tftp.Server.Result.{returned, all_succeed}
use octnet_tftp.Server.WriteConnection.{
  WriteConnection, terminate, send_packet, send_prepared_packet, request_next_receive,
  on_packet_sent, retry, on_send_timeout, process_error_received, write_data, answer_data, send_ack,
  process_data_received, process_packet, send_first_packet, start, on_packet_received, receive,
}

module _ {E W : Type 0} where
  -- A handler that asks for something, or for nothing.
  abbrev pub MayGo : Outcome E (WriteConnection E W) → Type 0
  MayGo outcome = (outcome.1 ≡ []) ⊎ Goes outcome.1

  pub sent_cases :
      (s : WriteConnection E W)
      → (on_packet_sent s success ≡ (s, start_timer default_retry_timeout_sec ∷ receive_from ∷ []))
        ⊎ (on_packet_sent s success ≡ (s, connection_terminated ∷ []))
  unfolding on_packet_sent terminate request_next_receive
  sent_cases s = elim (Bool-cases s.response_expected) [ inl e ↦ inl (rw e) | inr e ↦ inr (rw e) ]

  pub send_failed :
      (s : WriteConnection E W) → on_packet_sent s failed ≡ (s, connection_terminated ∷ [])
  unfolding on_packet_sent terminate
  send_failed s = refl

  abbrev pub counted : WriteConnection E W → WriteConnection E W
  counted s = record s { retry_counter = pred s.retry_counter }

  pub fired_again :
      (s : WriteConnection E W)
      → is_pos (pred s.retry_counter) ≡ true
      → on_send_timeout s success ≡ (counted s, send_to s.out_packet_data s.client_endpoint ∷ [])
  unfolding on_send_timeout retry send_prepared_packet
  fired_again s e = rw e

  pub fired_last :
      (s : WriteConnection E W)
      → is_pos (pred s.retry_counter) ≡ false
      → on_send_timeout s success ≡ (counted s, connection_terminated ∷ [])
  unfolding on_send_timeout retry terminate
  fired_last s e = rw e

module _ {E W : Type 0} ⦃ops : WriterOps W⦄ where
  answered-Goes :
      (s : WriteConnection E W) (p : PacketData) (done : Bool)
      → Goes (emit cancel_timer (answer_data s p done)).1
  unfolding answer_data send_ack send_packet send_prepared_packet
  answered-Goes s p false = sends_next _ _
  answered-Goes s p true = elim (Bool-cases (length p.bytes == 512)) [
    | inl e ↦ rw e (sends_next _ _)
    | inr e ↦ rw e (sends_next _ _)
  ]

  written-Goes :
      (s : WriteConnection E W) (p : PacketData) → Goes (emit cancel_timer (write_data s p)).1
  unfolding write_data
  written-Goes s p =
      let (done, writer) =
        if ltb 0 (length p.bytes) then write_pointer s.writer p.bytes else (true, s.writer) in
      answered-Goes (record s { writer = writer }) p done

  process_data_cases :
      (s : WriteConnection E W) (p : PacketData) → MayGo (process_data_received s p)
  unfolding process_data_received
  process_data_cases s p = elim (Bool-cases (p.block_no == s.next_expected_packet_id)) [
    | inr e ↦ inl (rw e)
    | inl e ↦ inr (rw e (written-Goes s p))
  ]

  packet_cases : (s : WriteConnection E W) (p : Packet) → MayGo (process_packet s p)
  unfolding process_packet process_error_received terminate
  packet_cases s (data_packet p) = process_data_cases s p
  packet_cases s (error p) = inr ends
  packet_cases s (ack p) = inl refl
  packet_cases s (file_req p) = inl refl

  first-Goes : (s : WriteConnection E W) → Goes (send_first_packet s).1
  unfolding send_first_packet send_ack send_packet send_prepared_packet
  first-Goes s = elim (Option-cases s.writer) [
    | inl e ↦ rw (send_first_packet, e) (sends _ _)
    | inr (w, e) ↦ elim (Bool-cases (ops.is_open w)) [
      | inr o ↦ rw (send_first_packet, e) (rw o (sends _ _))
      | inl o ↦ rw (send_first_packet, e) (rw o (sends _ _))
    ]
  ]

  -- A connection that starts sends its first packet.
  pub started-Goes :
      {R : Type 0} (m : IoManager R W) (s : WriteConnection E W)
      → (s' : WriteConnection E W) × (effects : List (Effect E)) × (start m all_succeed s
          ≡ returned (s', open_socket ∷ effects))
        × Goes effects
  unfolding start
  started-Goes m s = (_, _, refl, first-Goes _)

  module _ ⦃endpoints : EndpointOps E⦄ where
    parsed_cases :
        (s : WriteConnection E W) (packet : Option Packet)
        → MayGo (elim packet [ none ↦ (s, []) | some p ↦ process_packet s p ])
    parsed_cases s none = inl refl
    parsed_cases s (some p) = packet_cases s p

    received_cases : (s : WriteConnection E W) (n : ℕ) → MayGo (on_packet_received s success n)
    unfolding on_packet_received
    received_cases s n = elim (Bool-cases (endpoints.same s.client_endpoint s.in_packet_endpoint)) [
      | inl e ↦ rw e (parsed_cases s _)
      | inr e ↦ inl (rw e)
    ]

    pub receive-MayGo :
        (s : WriteConnection E W) (sender : E) (datagram : Bytes)
        → MayGo (receive s sender datagram)
    unfolding receive
    receive-MayGo s sender datagram = received_cases _ _

    pub received_failed :
        (s : WriteConnection E W) (n : ℕ)
        → on_packet_received s failed n ≡ (s, connection_terminated ∷ [])
    unfolding on_packet_received terminate
    received_failed s n = refl
