-- ===== src/Server/ReadConnection/Others.antt =====
-- What else happens to a read connection, beside the datagrams of its client and its timeouts.
use octnet_tftp.Base.{ℕ, ◌≡◌, ◌≢◌, inl, inr, refl, Bool, false, Bool-cases, List, [], Bytes, take}
use octnet_tftp.Net.{EndpointOps, ErrorCode, success, operation_aborted, failed, to_peer}
use octnet_tftp.Wire.Packet.{max_recv_packet_size}
use octnet_tftp.Io.Interface.{ReaderOps}
use octnet_tftp.Server.ReadConnection.{
  ReadConnection, on_packet_sent, on_send_timeout, on_packet_received, receive, stop, terminate,
  request_next_receive,
}

module _ {E R : Type 0} ⦃ops : ReaderOps R⦄ ⦃endpoints : EndpointOps E⦄ (peer : E) where
  -- A send completes, the timer or a receive fails, a datagram comes from elsewhere, or the server
  -- stops the connection.
  pub data Other (s : ReadConnection E R) : ReadConnection E R × List Bytes → Type 0 where
    packet_sent : (ec : ErrorCode) → Other s (to_peer peer (on_packet_sent s ec))
    timer_fails : (ec : ErrorCode) → ec ≢ success → Other s (to_peer peer (on_send_timeout s ec))
    receive_fails :
        (ec : ErrorCode) (n : ℕ) → ec ≢ success → Other s (to_peer peer (on_packet_received s ec n))
    stranger_sends :
        (sender : E) (datagram : Bytes)
        → endpoints.same peer sender ≡ false
        → Other s (to_peer peer (receive s sender datagram))
    stops : Other s (to_peer peer (stop s))

  -- The buffer and the socket may have changed.
  abbrev pub kept : ReadConnection E R → Bytes → E → Bool → ReadConnection E R
  kept s bytes sender is_open = record s {
    in_packet_data = bytes;
    in_packet_endpoint = sender;
    socket_is_open = is_open;
  }

  abbrev pub IsKept : ReadConnection E R → ReadConnection E R × List Bytes → Type 0
  IsKept s left =
      (bytes : Bytes) × (sender : E) × (is_open : Bool) × (left ≡ (kept s bytes sender is_open, []))

  same-IsKept : (s : ReadConnection E R) → IsKept s (s, [])
  same-IsKept s = (s.in_packet_data, s.in_packet_endpoint, s.socket_is_open, refl)

  sent-IsKept :
      (s : ReadConnection E R) (ec : ErrorCode) → IsKept s (to_peer peer (on_packet_sent s ec))
  unfolding on_packet_sent terminate request_next_receive
  sent-IsKept s operation_aborted = same-IsKept s
  sent-IsKept s failed = same-IsKept s
  sent-IsKept s success = elim (Bool-cases s.response_expected) [
    | inl e ↦ rw e (s.in_packet_data, s.in_packet_endpoint, s.socket_is_open, refl)
    | inr e ↦ rw e (s.in_packet_data, s.in_packet_endpoint, s.socket_is_open, refl)
  ]

  pub stop-IsKept : (s : ReadConnection E R) → IsKept s (to_peer peer (stop s))
  unfolding stop
  stop-IsKept s = elim (Bool-cases s.socket_is_open) [
    | inl e ↦ rw e (s.in_packet_data, s.in_packet_endpoint, false, refl)
    | inr e ↦ rw e (s.in_packet_data, s.in_packet_endpoint, false, refl)
  ]

  stranger-IsKept :
      (s : ReadConnection E R) (sender : E) (datagram : Bytes)
      → endpoints.same s.client_endpoint sender ≡ false
      → IsKept s (to_peer peer (receive s sender datagram))
  unfolding receive on_packet_received
  stranger-IsKept s sender datagram e =
      rw e (take max_recv_packet_size datagram, sender, s.socket_is_open, refl)

  pub Other-IsKept :
      (s : ReadConnection E R) {left : ReadConnection E R × List Bytes}
      → s.client_endpoint ≡ peer
      → Other s left
      → IsKept s left
  unfolding on_send_timeout on_packet_received terminate
  Other-IsKept s x (packet_sent ec) = sent-IsKept s ec
  Other-IsKept s x (timer_fails success h) = absurd (h refl)
  Other-IsKept s x (timer_fails operation_aborted h) = same-IsKept s
  Other-IsKept s x (timer_fails failed h) = same-IsKept s
  Other-IsKept s x (receive_fails success n h) = absurd (h refl)
  Other-IsKept s x (receive_fails operation_aborted n h) = same-IsKept s
  Other-IsKept s x (receive_fails failed n h) = same-IsKept s
  Other-IsKept s x (stranger_sends sender datagram e) = stranger-IsKept s sender datagram (rw x e)
  Other-IsKept s x stops = stop-IsKept s
