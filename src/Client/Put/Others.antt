-- ===== src/Client/Put/Others.antt =====
-- What else happens to an upload, beside the datagrams of its connection and its timeouts.
use octnet_tftp.Base.{
  ℕ, ◌≡◌, ◌≢◌, ◌⊎◌, inl, inr, refl, sym, ap, subst, Bool, true, false, Bool-cases, List, [], Bytes,
  take, Option, none, some, ◌==◌,
}
use octnet_tftp.Net.{
  EndpointOps, ErrorCode, success, operation_aborted, failed, to_peer, is_foreign,
}
use octnet_tftp.Wire.Packet.{max_recv_packet_size, Packet, file_req, data_packet, ack, error}
use octnet_tftp.Wire.Parser.{parse_packet}
use octnet_tftp.Client.Put.{
  ClientPut, on_packet_sent, on_send_timeout, on_packet_received, receive, stop, terminate,
  request_next_receive, process_packet, process_ack_received, process_error_received,
}
use octnet_tftp.Client.Put.Events.{received_foreign, received_packet, handled}
use octnet_tftp.Client.Put.Receive.{buffered}

module _ {E : Type 0} where
  -- Whether a packet is the acknowledgement that the client waits for.
  abbrev pub is_next : ClientPut E → Option Packet → Bool
  is_next s (some (ack packet)) = s.last_sent_packet_id == packet.block_no
  is_next s other = false

module _ {E : Type 0} ⦃endpoints : EndpointOps E⦄ (peer : E) where
  -- A send completes, the timer or a receive fails, a datagram comes from elsewhere, or the program
  -- stops the client. Before it knows its connection, the client takes the acknowledgement that it waits for
  -- from any source, and that from elsewhere is not among these.
  pub data Other (s : ClientPut E) : ClientPut E × List Bytes → Type 0 where
    packet_sent : (ec : ErrorCode) → Other s (to_peer peer (on_packet_sent s ec))
    timer_fails : (ec : ErrorCode) → ec ≢ success → Other s (to_peer peer (on_send_timeout s ec))
    receive_fails :
        (ec : ErrorCode) (n : ℕ) → ec ≢ success → Other s (to_peer peer (on_packet_received s ec n))
    stranger_sends :
        (sender : E) (datagram : Bytes)
        → is_foreign s.request_complete s.server_endpoint sender ≡ true
        → Other s (to_peer peer (receive s sender datagram))
    early_datagram :
        (sender : E) (datagram : Bytes)
        → is_next s (parse_packet (take max_recv_packet_size datagram)) ≡ false
        → Other s (to_peer peer (receive s sender datagram))
    stops : Other s (to_peer peer (stop s))

  -- The buffer and the socket may have changed.
  abbrev pub kept : ClientPut E → Bytes → E → Bool → ClientPut E
  kept s bytes sender is_open = record s {
    in_packet_data = bytes;
    in_packet_endpoint = sender;
    socket_is_open = is_open;
  }

  abbrev pub IsKept : ClientPut E → ClientPut E × List Bytes → Type 0
  IsKept s left =
      (bytes : Bytes) × (sender : E) × (is_open : Bool) × (left ≡ (kept s bytes sender is_open, []))

  same-IsKept : (s : ClientPut E) → IsKept s (s, [])
  same-IsKept s = (s.in_packet_data, s.in_packet_endpoint, s.socket_is_open, refl)

  stop-IsKept : (s : ClientPut E) → IsKept s (to_peer peer (stop s))
  unfolding stop
  stop-IsKept s = elim (Bool-cases s.socket_is_open) [
    | inl e ↦ rw e (s.in_packet_data, s.in_packet_endpoint, false, refl)
    | inr e ↦ rw e (s.in_packet_data, s.in_packet_endpoint, false, refl)
  ]

  stranger-IsKept :
      (s : ClientPut E) (sender : E) (datagram : Bytes)
      → is_foreign s.request_complete s.server_endpoint sender ≡ true
      → IsKept s (to_peer peer (receive s sender datagram))
  stranger-IsKept s sender datagram e = (
    take max_recv_packet_size datagram,
    sender,
    s.socket_is_open,
    ap (to_peer peer) (received_foreign s sender datagram e),
  )

  handled-IsKept :
      (s : ClientPut E) (packet : Option Packet)
      → is_next s packet ≡ false
      → IsKept s (to_peer peer (handled s packet))
  unfolding process_packet process_ack_received process_error_received terminate
  handled-IsKept s none e = same-IsKept s
  handled-IsKept s (some (error packet)) e = stop-IsKept s
  handled-IsKept s (some (ack packet)) e = rw e (same-IsKept s)
  handled-IsKept s (some (file_req packet)) e = same-IsKept s
  handled-IsKept s (some (data_packet packet)) e = same-IsKept s

  early-IsKept :
      (s : ClientPut E) (sender : E) (datagram : Bytes)
      → is_next s (parse_packet (take max_recv_packet_size datagram)) ≡ false
      → IsKept s (to_peer peer (receive s sender datagram))
  early-IsKept s sender datagram e =
      elim (Bool-cases (is_foreign s.request_complete s.server_endpoint sender)) [
        | inl f ↦ stranger-IsKept s sender datagram f
        | inr f ↦
            subst (λ o. IsKept s (to_peer peer o)) (sym (received_packet s sender datagram f))
              (handled-IsKept (buffered s sender (take max_recv_packet_size datagram))
                (parse_packet (take max_recv_packet_size datagram)) e)
      ]

  sent_cases :
      (s : ClientPut E)
      → (to_peer peer (on_packet_sent s success) ≡ (s, [])) ⊎ (on_packet_sent s success ≡ stop s)
  unfolding on_packet_sent terminate request_next_receive
  sent_cases s = elim (Bool-cases s.response_expected) [ inl e ↦ inl (rw e) | inr e ↦ inr (rw e) ]

  sent-IsKept : (s : ClientPut E) (ec : ErrorCode) → IsKept s (to_peer peer (on_packet_sent s ec))
  unfolding on_packet_sent terminate
  sent-IsKept s operation_aborted = same-IsKept s
  sent-IsKept s failed = stop-IsKept s
  sent-IsKept s success = elim (sent_cases s) [
    | inl e ↦ subst (IsKept s) (sym e) (same-IsKept s)
    | inr e ↦ subst (λ o. IsKept s (to_peer peer o)) (sym e) (stop-IsKept s)
  ]

  pub Other-IsKept :
      (s : ClientPut E) {left : ClientPut E × List Bytes} → Other s left → IsKept s left
  unfolding on_send_timeout on_packet_received terminate
  Other-IsKept s (packet_sent ec) = sent-IsKept s ec
  Other-IsKept s (timer_fails success h) = absurd (h refl)
  Other-IsKept s (timer_fails operation_aborted h) = same-IsKept s
  Other-IsKept s (timer_fails failed h) = same-IsKept s
  Other-IsKept s (receive_fails success n h) = absurd (h refl)
  Other-IsKept s (receive_fails operation_aborted n h) = same-IsKept s
  Other-IsKept s (receive_fails failed n h) = stop-IsKept s
  Other-IsKept s (stranger_sends sender datagram e) = stranger-IsKept s sender datagram e
  Other-IsKept s (early_datagram sender datagram e) = early-IsKept s sender datagram e
  Other-IsKept s stops = stop-IsKept s
