-- ===== src/Client/Put/Receive.antt =====
-- What an upload does with an acknowledgement, and at its end.
use octnet_tftp.Base.{
  ℕ, ◌<◌, ◌≡◌, ◌⊎◌, inl, inr, refl, ap, ◌∙◌, Bool, true, false, not, ◌&&◌, Bool-cases, some, [],
  ◌∷◌, Bytes, take, take_all, length, arith,
}
use octnet_tftp.Base.Int.{pred, is_pos}
use octnet_tftp.Net.{EndpointOps, success, send_to, sent_to}
use octnet_tftp.Wire.Packet.{max_recv_packet_size, PacketAck, ack}
use octnet_tftp.Wire.Parser.{parse_packet}
use octnet_tftp.Io.Manager.{reader_ops}
use octnet_tftp.Blocks.Datagrams.{ack_numbered, ack_datagram, take-ack_datagram, parse-ack_datagram}
use octnet_tftp.Client.Put.{
  ClientPut, settle, receive, on_packet_received, process_packet, process_ack_received,
  on_send_timeout, retry, send_prepared_packet, terminate, stop,
}

and_false : (b : Bool) → (b && false) ≡ false
and_false true = refl
and_false false = refl

module _ {E : Type 0} where
  -- The state with a datagram in its buffer.
  abbrev pub buffered : ClientPut E → E → Bytes → ClientPut E
  buffered s peer bytes = record s { in_packet_data = bytes; in_packet_endpoint = peer }

  pub settle_first :
      (s : ClientPut E)
      → s.request_complete ≡ false
      → settle s ≡ record s { request_complete = true; server_endpoint = s.in_packet_endpoint }
  unfolding settle
  settle_first s e = rw e

  pub settle_later : (s : ClientPut E) → s.request_complete ≡ true → settle s ≡ s
  unfolding settle
  settle_later s e = rw e

module _ {E : Type 0} ⦃endpoints : EndpointOps E⦄ where
  pub stop_state : (s : ClientPut E) → (stop s).0 ≡ record s { socket_is_open = false }
  unfolding stop
  stop_state s = elim (Bool-cases s.socket_is_open) [ inl e ↦ rw e | inr e ↦ rw e ]

  pub stop_sends : (s : ClientPut E) (peer : E) → sent_to peer (stop s).1 ≡ []
  unfolding stop
  stop_sends s peer = elim (Bool-cases s.socket_is_open) [ inl e ↦ rw e | inr e ↦ rw e ]

  abbrev pub counted : ClientPut E → ClientPut E
  counted s = record s { retry_counter = pred s.retry_counter }

  pub timeout_sends :
      (s : ClientPut E)
      → is_pos (pred s.retry_counter) ≡ true
      → on_send_timeout s success ≡ (counted s, send_to s.out_packet_data s.server_endpoint ∷ [])
  unfolding on_send_timeout retry send_prepared_packet
  timeout_sends s e = rw e

  pub timeout_stops :
      (s : ClientPut E)
      → is_pos (pred s.retry_counter) ≡ false
      → on_send_timeout s success ≡ stop (counted s)
  unfolding on_send_timeout retry terminate
  timeout_stops s e = rw e

  receive_parsed :
      (s : ClientPut E) (peer : E) (bytes : Bytes) (p : PacketAck)
      → parse_packet (take max_recv_packet_size bytes) ≡ some (ack p)
      → (s.request_complete && not (endpoints.same s.server_endpoint peer)) ≡ false
      → receive s peer bytes
        ≡ process_ack_received (buffered s peer (take max_recv_packet_size bytes)) p
  unfolding receive on_packet_received process_packet
  receive_parsed s peer bytes p e h =
      let taken : Bytes = take max_recv_packet_size bytes in
      let all : take (length taken) taken ≡ taken = take_all (length taken) taken (omega arith) in
      rw (h, all, e)

  pub receive_ack :
      (s : ClientPut E) (peer : E) (n : ℕ)
      → n < 65536
      → (s.request_complete ≡ false) ⊎ (s.server_endpoint ≡ peer)
      → receive s peer (ack_datagram n)
        ≡ process_ack_received (buffered s peer (ack_datagram n)) (ack_numbered n)
  receive_ack s peer n h x =
      receive_parsed s peer (ack_datagram n) (ack_numbered n) (parse-ack_datagram n h) (elim x [
        | inl c ↦ rw c
        | inr y ↦ rw ((endpoints.same_iff _ _).1 y) (and_false s.request_complete)
      ])
      ∙ ap (λ b. process_ack_received (buffered s peer b) (ack_numbered n)) (take-ack_datagram n h)
