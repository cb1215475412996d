-- ===== src/Server/ReadConnection/Pending.antt =====
-- What the handlers of a read connection ask of asio: to wait, to send, to end, or nothing.
use octnet_tftp.Base.{
  ℕ, ◌≡◌, ◌⊎◌, inl, inr, refl, Bool, true, false, Bool-cases, Option, Option-cases, none, some,
  List, [], ◌∷◌, Bytes, ◌==◌, if◌then◌else◌,
}
use octnet_tftp.Base.Int.{pred, is_pos}
use octnet_tftp.Net.{
  EndpointOps, Effect, open_socket, success, failed, send_to, cancel_timer, connection_terminated,
  start_timer, receive_from, Outcome, emit,
}
use octnet_tftp.Io.Manager.{IoManager}
use octnet_tftp.Net.Pending.{Goes, sends, sends_next, ends, ends_acked}
use octnet_tftp.Wire.Packet.{
  default_retry_timeout_sec, Packet, PacketAck, file_req, data_packet, ack, error,
}
use octnet_tftp.Io.Interface.{ReaderOps, read_pointer}
use octnet_tftp.Server.Result.{returned, all_succeed}
use octnet_tftp.Server.ReadConnection.{
  ReadConnection, terminate, send_packet, send_prepared_packet, request_next_receive,
  on_packet_sent, retry, on_send_timeout, process_error_received, send_next_data_packet, send_data,
  process_ack_received, process_packet, send_first_packet, start, on_packet_received, receive,
}

module _ {E R : Type 0} where
  -- A handler that asks for something, or for nothing.
  abbrev pub MayGo : Outcome E (ReadConnection E R) → Type 0
  MayGo outcome = (outcome.1 ≡ []) ⊎ Goes outcome.1

  pub sent_cases :
      (s : ReadConnection E R)
      → (on_packet_sent s success ≡ (s, start_timer default_retry_timeout_sec ∷ receive_from ∷ []))
        ⊎ (on_packet_sent s success ≡ (s, connection_terminated ∷ []))
  unfolding on_packet_sent terminate request_next_receive
  sent_cases s = elim (Bool-cases s.response_expected) [ inl e ↦ inl (rw e) | inr e ↦ inr (rw e) ]

  pub send_failed :
      (s : ReadConnection E R) → on_packet_sent s failed ≡ (s, connection_terminated ∷ [])
  unfolding on_packet_sent terminate
  send_failed s = refl

  abbrev pub counted : ReadConnection E R → ReadConnection E R
  counted s = record s { retry_counter = pred s.retry_counter }

  pub fired_again :
      (s : ReadConnection E R)
      → is_pos (pred s.retry_counter) ≡ true
      → on_send_timeout s success ≡ (counted s, send_to s.out_packet_data s.client_endpoint ∷ [])
  unfolding on_send_timeout retry send_prepared_packet
  fired_again s e = rw e

  pub fired_last :
      (s : ReadConnection E R)
      → is_pos (pred s.retry_counter) ≡ false
      → on_send_timeout s success ≡ (counted s, connection_terminated ∷ [])
  unfolding on_send_timeout retry terminate
  fired_last s e = rw e

module _ {E R : Type 0} ⦃ops : ReaderOps R⦄ where
  next-Goes : (s : ReadConnection E R) → Goes (send_next_data_packet s).1
  unfolding send_next_data_packet send_data send_packet send_prepared_packet
  next-Goes s = elim (Option-cases (read_pointer s.reader 512).0) [
    | inl e ↦ rw e (sends _ _)
    | inr (bytes, e) ↦ rw e (sends _ _)
  ]

  send_next-Goes : (s : ReadConnection E R) → Goes (emit cancel_timer (send_next_data_packet s)).1
  unfolding send_next_data_packet send_data send_packet send_prepared_packet
  send_next-Goes s = elim (Option-cases (read_pointer s.reader 512).0) [
    | inl e ↦ rw e (sends_next _ _)
    | inr (bytes, e) ↦ rw e (sends_next _ _)
  ]

  acked-Goes :
      (s : ReadConnection E R) (last : Bool)
      → Goes (emit cancel_timer (if last then terminate s else send_next_data_packet s)).1
  unfolding terminate
  acked-Goes s true = ends_acked
  acked-Goes s false = send_next-Goes s

  process_ack_cases : (s : ReadConnection E R) (p : PacketAck) → MayGo (process_ack_received s p)
  unfolding process_ack_received
  process_ack_cases s p = elim (Bool-cases (p.block_no == s.last_sent_packet_id)) [
    | inr e ↦ inl (rw e)
    | inl e ↦ inr (rw e (acked-Goes s s.last_packet_sent))
  ]

  packet_cases : (s : ReadConnection E R) (p : Packet) → MayGo (process_packet s p)
  unfolding process_packet process_error_received terminate
  packet_cases s (ack p) = process_ack_cases s p
  packet_cases s (error p) = inr ends
  packet_cases s (data_packet p) = inl refl
  packet_cases s (file_req p) = inl refl

  first-Goes : (s : ReadConnection E R) → Goes (send_first_packet s).1
  unfolding send_first_packet send_packet send_prepared_packet
  first-Goes s = elim (Option-cases s.reader) [
    | inl e ↦ rw (send_first_packet, e) (sends _ _)
    | inr (r, e) ↦ elim (Bool-cases (ops.is_open r)) [
      | inr o ↦ rw (send_first_packet, e) (rw o (sends _ _))
      | inl o ↦ rw (send_first_packet, e) (rw o (next-Goes s))
    ]
  ]

  -- A connection that starts sends its first packet.
  pub started-Goes :
      {W : Type 0} (m : IoManager R W) (s : ReadConnection E R)
      → (s' : ReadConnection E R) × (effects : List (Effect E)) × (start m all_succeed s
          ≡ returned (s', open_socket ∷ effects))
        × Goes effects
  unfolding start
  started-Goes m s = (_, _, refl, first-Goes _)

  module _ ⦃endpoints : EndpointOps E⦄ where
    parsed_cases :
        (s : ReadConnection E R) (packet : Option Packet)
        → MayGo (elim packet [ none ↦ (s, []) | some p ↦ process_packet s p ])
    parsed_cases s none = inl refl
    parsed_cases s (some p) = packet_cases s p

    received_cases : (s : ReadConnection E R) (n : ℕ) → MayGo (on_packet_received s success n)
    unfolding on_packet_received
    received_cases s n = elim (Bool-cases (endpoints.same s.client_endpoint s.in_packet_endpoint)) [
      | inl e ↦ rw e (parsed_cases s _)
      | inr e ↦ inl (rw e)
    ]

    pub receive-MayGo :
        (s : ReadConnection E R) (sender : E) (datagram : Bytes) → MayGo (receive s sender datagram)
    unfolding receive
    receive-MayGo s sender datagram = received_cases _ _

    pub received_failed :
        (s : ReadConnection E R) (n : ℕ)
        → on_packet_received s failed n ≡ (s, connection_terminated ∷ [])
    unfolding on_packet_received terminate
    received_failed s n = refl
