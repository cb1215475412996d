-- ===== src/Server/ReadConnection/Events.antt =====
-- How a read connection meets datagrams that it does not wait for, and silence.
use octnet_tftp.Base.{
  ℕ, zero, suc, ◌≡◌, ◌⊎◌, inl, inr, refl, sym, ap, ◌∙◌, true, false, Bool-cases, Option,
  Option-cases, none, some, List, [], ◌∷◌, ◌++◌, Bytes, take, take_all, replicate, length, ◌==◌,
  ==_iff, arith,
}
use octnet_tftp.Base.Int.{pos}
use octnet_tftp.Net.{EndpointOps, success, Effect, send_to, connection_terminated, Outcome}
use octnet_tftp.Wire.Packet.{Packet, file_req, data_packet, ack, error, max_recv_packet_size}
use octnet_tftp.Wire.Parser.{parse_packet}
use octnet_tftp.Io.Interface.{ReaderOps}
use octnet_tftp.Server.ReadConnection.{
  ReadConnection, on_send_timeout, retry, send_prepared_packet, terminate, process_packet,
  process_ack_received, on_packet_received, receive,
}

module _ {E R : Type 0} where
  -- The effects of `n` timeouts in a row.
  pub timeouts : ℕ → ReadConnection E R → List (Effect E)
  timeouts zero s = []
  timeouts (suc n) s = let (s', effects) = on_send_timeout s success in effects ++ timeouts n s'

  timeouts_more :
      (n : ℕ) (s : ReadConnection E R) {s' : ReadConnection E R} {effects : List (Effect E)}
      → on_send_timeout s success ≡ (s', effects)
      → timeouts (suc n) s ≡ effects ++ timeouts n s'
  unfolding timeouts
  timeouts_more n s e = ap (λ o. o.1 ++ timeouts n o.0) e

  timeout_resends :
      (n : ℕ) (s : ReadConnection E R)
      → s.retry_counter ≡ pos (suc (suc n))
      → on_send_timeout s success ≡ (
        record s { retry_counter = pos (suc n) },
        send_to s.out_packet_data s.client_endpoint ∷ [],
      )
  unfolding on_send_timeout retry send_prepared_packet
  timeout_resends n s h = rw h

  timeout_ends :
      (s : ReadConnection E R)
      → s.retry_counter ≡ pos 1
      → (on_send_timeout s success).1 ≡ connection_terminated ∷ []
  unfolding on_send_timeout retry terminate
  timeout_ends s h = rw h

  -- With `n + 1` retries left, `n + 1` timeouts in a row send the last packet `n` times more and end
  -- the connection.
  pub timeouts_end :
      (n : ℕ) (s : ReadConnection E R)
      → s.retry_counter ≡ pos (suc n)
      → timeouts (suc n) s
        ≡ replicate n (send_to s.out_packet_data s.client_endpoint) ++ connection_terminated ∷ []
  timeouts_end zero s h = unfold timeouts in ap (λ es. es ++ []) (timeout_ends s h)
  timeouts_end (suc n) s h =
      timeouts_more (suc n) s (timeout_resends n s h)
      ∙ ap (◌∷◌ (send_to s.out_packet_data s.client_endpoint))
          (timeouts_end n (record s { retry_counter = pos (suc n) }) refl)

module _ {E R : Type 0} ⦃ops : ReaderOps R⦄ ⦃endpoints : EndpointOps E⦄ where
  -- The state with a datagram in its buffer.
  abbrev pub buffered : ReadConnection E R → E → Bytes → ReadConnection E R
  buffered s sender datagram = record s {
    in_packet_data = take max_recv_packet_size datagram;
    in_packet_endpoint = sender;
  }

  -- The packets that a connection answers to.
  abbrev pub IsAwaited : ReadConnection E R → Packet → Type 0
  IsAwaited s (ack p) = p.block_no ≡ s.last_sent_packet_id
  IsAwaited s (error p) = Unit
  IsAwaited s other = ⊥

  process_packet_cases :
      (s : ReadConnection E R) (p : Packet) → (process_packet s p ≡ (s, [])) ⊎ IsAwaited s p
  unfolding process_packet process_ack_received
  process_packet_cases s (file_req p) = inl refl
  process_packet_cases s (data_packet p) = inl refl
  process_packet_cases s (error p) = inr tt
  process_packet_cases s (ack p) = elim (Bool-cases (p.block_no == s.last_sent_packet_id)) [
    | inl e ↦ inr ((==_iff _ _).0 e)
    | inr e ↦ inl (rw e)
  ]

  received_foreign :
      (s : ReadConnection E R) (sender : E) (datagram : Bytes)
      → endpoints.same s.client_endpoint sender ≡ false
      → receive s sender datagram ≡ (buffered s sender datagram, [])
  unfolding receive on_packet_received
  received_foreign s sender datagram e = rw e

  -- What the handler does with the packet in the buffer.
  abbrev pub handled : ReadConnection E R → Option Packet → Outcome E (ReadConnection E R)
  handled s packet = elim packet [ none ↦ (s, []) | some p ↦ process_packet s p ]

  pub received_packet :
      (s : ReadConnection E R) (sender : E) (datagram : Bytes)
      → endpoints.same s.client_endpoint sender ≡ true
      → receive s sender datagram
        ≡ handled (buffered s sender datagram) (parse_packet (take max_recv_packet_size datagram))
  unfolding receive on_packet_received
  received_packet s sender datagram e =
      let bytes : Bytes = take max_recv_packet_size datagram in
      let all : take (length bytes) bytes ≡ bytes = take_all (length bytes) bytes (omega arith) in
      rw (e, all)

  -- A datagram changes nothing but the buffer, and causes no effect, unless it is from the client's
  -- endpoint and its first 1024 bytes are an ERROR, or an ACK of the block sent last.
  pub receive_cases :
      (s : ReadConnection E R) (sender : E) (datagram : Bytes)
      → (receive s sender datagram ≡ (buffered s sender datagram, []))
        ⊎ ((sender ≡ s.client_endpoint)
            × ((p : Packet) × (parse_packet (take max_recv_packet_size datagram) ≡ some p)
                × IsAwaited s p))
  receive_cases s sender datagram = elim (Bool-cases (endpoints.same s.client_endpoint sender)) [
    | inr e ↦ inl (received_foreign s sender datagram e)
    | inl e ↦ elim (Option-cases (parse_packet (take max_recv_packet_size datagram))) [
      | inl n ↦
          inl (received_packet s sender datagram e ∙ ap (handled (buffered s sender datagram)) n)
      | inr (p, n) ↦
          let r : receive s sender datagram ≡ process_packet (buffered s sender datagram) p =
            received_packet s sender datagram e ∙ ap (handled (buffered s sender datagram)) n in
          elim (process_packet_cases (buffered s sender datagram) p) [
            | inl x ↦ inl (r ∙ x)
            | inr x ↦ inr (sym ((endpoints.same_iff _ _).0 e), (p, n, x))
          ]
    ]
  ]
