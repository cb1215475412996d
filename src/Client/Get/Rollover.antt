-- ===== src/Client/Get/Rollover.antt =====
-- A download that has taken block 65535 takes no further block: the next number that it waits for
-- is 65536.
use octnet_tftp.Base.{◌≡◌, ◌⊎◌, inl, inr, some, [], Bytes, take, All, All-take, IsByte, arith}
use octnet_tftp.Net.{EndpointOps}
use octnet_tftp.Wire.Packet.{
  max_recv_packet_size, Packet, PacketError, file_req, data_packet, ack, error,
}
use octnet_tftp.Wire.WellFormed.{IsWellFormed}
use octnet_tftp.Wire.Parser.{parse_packet}
use octnet_tftp.Wire.Parser.Sound.{parse_packet-ReadFrom}
use octnet_tftp.Io.File.{FileSystem}
use octnet_tftp.Client.Get.{ClientGet, receive}
use octnet_tftp.Client.Get.Receive.{buffered}
use octnet_tftp.Client.Get.Events.{IsAwaited, get_receive_cases}

module _ {E : Type 0} (fs : FileSystem) ⦃endpoints : EndpointOps E⦄ where
  -- The number of a packet read has 16 bits, so only an ERROR can be awaited.
  awaited_error :
      (s : ClientGet E) (bytes : Bytes) (p : Packet)
      → s.last_acked_packet_id ≡ 65535
      → IsWellFormed p
      → IsAwaited fs s p
      → parse_packet bytes ≡ some p
      → (e : PacketError) × (parse_packet bytes ≡ some (error e))
  awaited_error s bytes (error e) h wf a k = (e, k)
  awaited_error s bytes (data_packet p) h (_, n, _) a k = absurd (omega arith)
  awaited_error s bytes (ack p) h wf a k = absurd a
  awaited_error s bytes (file_req p) h wf a k = absurd a

  -- After block 65535 a datagram of bytes, from any source, is passed over but for its place in the
  -- buffer, unless it is an ERROR: no block is taken any more.
  pub receive_rollover :
      (s : ClientGet E) (sender : E) (datagram : Bytes)
      → s.last_acked_packet_id ≡ 65535
      → All IsByte datagram
      → let bytes : Bytes = take max_recv_packet_size datagram in
        (receive fs s sender datagram ≡ (buffered s sender bytes, []))
        ⊎ ((e : PacketError) × (parse_packet bytes ≡ some (error e)))
  receive_rollover s sender datagram h b = elim (get_receive_cases fs s sender datagram) [
    | inl x ↦ inl x
    | inr (_, (p, k, a)) ↦
        let bytes : Bytes = take max_recv_packet_size datagram in
        let (wf, _) = parse_packet-ReadFrom bytes p (All-take IsByte 1024 datagram b) k in
        inr (awaited_error s bytes p h wf a k)
  ]
