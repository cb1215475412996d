-- ===== src/Client/Put/Events.antt =====
-- How an upload meets datagrams that it does not wait for, and silence.
use octnet_tftp.Base.{
  ℕ, zero, suc, ◌≡◌, ◌⊎◌, inl, inr, refl, sym, ap, ◌∙◌, true, false, Bool-cases, Option,
  Option-cases, none, some, List, [], ◌∷◌, ◌++◌, Bytes, take, take_all, replicate, length, ◌==◌,
  ==_iff, arith,
}
use octnet_tftp.Base.Int.{pos}
use octnet_tftp.Net.{
  EndpointOps, success, Effect, send_to, cancel_resolve, cancel_timer, close_socket, Outcome,
  is_foreign, known_source,
}
use octnet_tftp.Wire.Packet.{Packet, file_req, data_packet, ack, error, max_recv_packet_size}
use octnet_tftp.Wire.Parser.{parse_packet}
use octnet_tftp.Client.Put.{
  ClientPut, on_send_timeout, retry, stop, send_prepared_packet, terminate, process_packet,
  process_ack_received, on_packet_received, receive,
}
use octnet_tftp.Client.Put.Receive.{buffered}

module _ {E : Type 0} where
  -- The effects of `n` timeouts in a row.
  pub timeouts : ℕ → ClientPut E → List (Effect E)
  timeouts zero s = []
  timeouts (suc n) s = let (s', effects) = on_send_timeout s success in effects ++ timeouts n s'

  timeouts_more :
      (n : ℕ) (s : ClientPut E) {s' : ClientPut E} {effects : List (Effect E)}
      → on_send_timeout s success ≡ (s', effects)
      → timeouts (suc n) s ≡ effects ++ timeouts n s'
  unfolding timeouts
  timeouts_more n s e = ap (λ o. o.1 ++ timeouts n o.0) e

  timeout_resends :
      (n : ℕ) (s : ClientPut E)
      → s.retry_counter ≡ pos (suc (suc n))
      → on_send_timeout s success ≡ (
        record s { retry_counter = pos (suc n) },
        send_to s.out_packet_data s.server_endpoint ∷ [],
      )
  unfolding on_send_timeout retry send_prepared_packet
  timeout_resends n s h = rw h

  timeout_ends :
      (s : ClientPut E)
      → s.retry_counter ≡ pos 1
      → s.socket_is_open ≡ true
      → (on_send_timeout s success).1 ≡ cancel_resolve ∷ cancel_timer ∷ close_socket ∷ []
  unfolding on_send_timeout retry terminate stop
  timeout_ends s h o = rw (h, o)

  -- With `n + 1` retries left and the socket open, `n + 1` timeouts in a row send the last packet `n`
  -- times more, and then stop the client: it cancels what it waits for and closes the socket.
  pub put_timeouts_end :
      (n : ℕ) (s : ClientPut E)
      → s.retry_counter ≡ pos (suc n)
      → s.socket_is_open ≡ true
      → timeouts (suc n) s
        ≡ replicate n (send_to s.out_packet_data s.server_endpoint)
          ++ cancel_resolve ∷ cancel_timer ∷ close_socket ∷ []
  put_timeouts_end zero s h o = unfold timeouts in ap (λ es. es ++ []) (timeout_ends s h o)
  put_timeouts_end (suc n) s h o =
      timeouts_more (suc n) s (timeout_resends n s h)
      ∙ ap (◌∷◌ (send_to s.out_packet_data s.server_endpoint))
          (put_timeouts_end n (record s { retry_counter = pos (suc n) }) refl o)

module _ {E : Type 0} ⦃endpoints : EndpointOps E⦄ where
  -- The packets that an upload answers to.
  abbrev pub IsAwaited : ClientPut E → Packet → Type 0
  IsAwaited s (ack p) = p.block_no ≡ s.last_sent_packet_id
  IsAwaited s (error p) = Unit
  IsAwaited s other = ⊥

  process_packet_cases :
      (s : ClientPut E) (p : Packet) → (process_packet s p ≡ (s, [])) ⊎ IsAwaited s p
  unfolding process_packet process_ack_received
  process_packet_cases s (file_req p) = inl refl
  process_packet_cases s (data_packet p) = inl refl
  process_packet_cases s (error p) = inr tt
  process_packet_cases s (ack p) = elim (Bool-cases (s.last_sent_packet_id == p.block_no)) [
    | inl e ↦ inr (sym ((==_iff _ _).0 e))
    | inr e ↦ inl (rw e)
  ]

  pub received_foreign :
      (s : ClientPut E) (sender : E) (datagram : Bytes)
      → is_foreign s.request_complete s.server_endpoint sender ≡ true
      → receive s sender datagram ≡ (buffered s sender (take max_recv_packet_size datagram), [])
  unfolding receive on_packet_received
  received_foreign s sender datagram e = rw e

  -- What the handler does with the packet in the buffer.
  abbrev pub handled : ClientPut E → Option Packet → Outcome E (ClientPut E)
  handled s packet = elim packet [ none ↦ (s, []) | some p ↦ process_packet s p ]

  pub received_packet :
      (s : ClientPut E) (sender : E) (datagram : Bytes)
      → is_foreign s.request_complete s.server_endpoint sender ≡ false
      → let bytes : Bytes = take max_recv_packet_size datagram in
        receive s sender datagram ≡ handled (buffered s sender bytes) (parse_packet bytes)
  unfolding receive on_packet_received
  received_packet s sender datagram e =
      let bytes : Bytes = take max_recv_packet_size datagram in
      let all : take (length bytes) bytes ≡ bytes = take_all (length bytes) bytes (omega arith) in
      rw (e, all)

  -- A datagram changes nothing but the buffer, and causes no effect, unless it is an ERROR, or the
  -- ACK of the block sent last, in its first 1024 bytes, and is from the server's endpoint or, before
  -- the first acknowledgement, from any.
  pub put_receive_cases :
      (s : ClientPut E) (sender : E) (datagram : Bytes)
      → let bytes : Bytes = take max_recv_packet_size datagram in
        (receive s sender datagram ≡ (buffered s sender bytes, []))
        ⊎ (((s.request_complete ≡ false) ⊎ (sender ≡ s.server_endpoint))
            × ((p : Packet) × (parse_packet bytes ≡ some p) × IsAwaited s p))
  put_receive_cases s sender datagram =
      let bytes : Bytes = take max_recv_packet_size datagram in
      let after : ClientPut E = buffered s sender bytes in
      elim (Bool-cases (is_foreign s.request_complete s.server_endpoint sender)) [
        | inl e ↦ inl (received_foreign s sender datagram e)
        | inr e ↦ elim (Option-cases (parse_packet bytes)) [
          | inl n ↦ inl (received_packet s sender datagram e ∙ ap (handled after) n)
          | inr (p, n) ↦ elim (process_packet_cases after p) [
            | inl x ↦ inl (received_packet s sender datagram e ∙ ap (handled after) n ∙ x)
            | inr x ↦ inr (known_source s.request_complete s.server_endpoint sender e, (p, n, x))
          ]
        ]
      ]
