-- ===== src/Server/ReadConnection/Sockets.antt =====
-- The socket of a read connection: opened by start, closed by stop, and left alone by the handlers.
use octnet_tftp.Base.{
  ℕ, ◌≡◌, refl, inl, inr, Bool, true, false, Bool-cases, Option, Option-cases, none, some, [], ◌∷◌,
  Bytes, if◌then◌else◌,
}
use octnet_tftp.Net.{
  open_socket, EndpointOps, ErrorCode, success, operation_aborted, failed, Outcome,
  connection_terminated,
}
use octnet_tftp.Wire.Packet.{Packet, PacketAck, file_req, data_packet, ack, error}
use octnet_tftp.Io.Interface.{ReaderOps, read_pointer}
use octnet_tftp.Io.Manager.{IoManager}
use octnet_tftp.Server.Result.{system_error, thrown, bind_fails}
use octnet_tftp.Server.ReadConnection.{
  start, ReadConnection, stop, terminate, send_packet, send_prepared_packet, request_next_receive,
  on_packet_sent, retry, on_send_timeout, process_error_received, send_data, send_next_data_packet,
  process_ack_received, process_packet, on_packet_received, receive,
}

module _ {E R : Type 0} where
  -- The outcome leaves the socket as it was.
  abbrev pub Keeps : ReadConnection E R → Outcome E (ReadConnection E R) → Type 0
  Keeps s outcome = outcome.0.socket_is_open ≡ s.socket_is_open

  if-Keeps :
      (s : ReadConnection E R) (b : Bool) (x y : Outcome E (ReadConnection E R))
      → Keeps s x
      → Keeps s y
      → Keeps s (if b then x else y)
  if-Keeps s true x y h k = h
  if-Keeps s false x y h k = k

  pub stop_closes : (s : ReadConnection E R) → (stop s).0.socket_is_open ≡ false
  unfolding stop
  stop_closes s = elim (Bool-cases s.socket_is_open) [ inl e ↦ rw e | inr e ↦ simp e ]

  pub on_packet_sent-Keeps :
      (s : ReadConnection E R) (ec : ErrorCode) → Keeps s (on_packet_sent s ec)
  unfolding on_packet_sent terminate request_next_receive
  on_packet_sent-Keeps s operation_aborted = refl
  on_packet_sent-Keeps s failed = refl
  on_packet_sent-Keeps s success = if-Keeps s s.response_expected _ _ refl refl

  -- A send that fails ends the connection.
  pub on_packet_sent_failed :
      (s : ReadConnection E R) → on_packet_sent s failed ≡ (s, connection_terminated ∷ [])
  unfolding on_packet_sent terminate
  on_packet_sent_failed s = refl

  pub on_send_timeout-Keeps :
      (s : ReadConnection E R) (ec : ErrorCode) → Keeps s (on_send_timeout s ec)
  unfolding on_send_timeout retry terminate send_prepared_packet
  on_send_timeout-Keeps s operation_aborted = refl
  on_send_timeout-Keeps s failed = refl
  on_send_timeout-Keeps s success = if-Keeps s _ _ _ refl refl

module _ {E R : Type 0} ⦃ops : ReaderOps R⦄ where
  send_next-Keeps : (s : ReadConnection E R) → Keeps s (send_next_data_packet s)
  unfolding send_next_data_packet send_data send_packet send_prepared_packet
  send_next-Keeps s = elim (Option-cases (read_pointer s.reader 512).0) [
    | inl e ↦ rw e refl
    | inr (bytes, e) ↦ rw e refl
  ]

  process_ack-Keeps :
      (s : ReadConnection E R) (packet : PacketAck) → Keeps s (process_ack_received s packet)
  unfolding process_ack_received terminate
  process_ack-Keeps s packet =
      if-Keeps s _ _ _ refl (if-Keeps s s.last_packet_sent _ _ refl (send_next-Keeps s))

  process_packet-Keeps :
      (s : ReadConnection E R) (packet : Packet) → Keeps s (process_packet s packet)
  unfolding process_packet process_error_received terminate
  process_packet-Keeps s (ack packet) = process_ack-Keeps s packet
  process_packet-Keeps s (error packet) = refl
  process_packet-Keeps s (data_packet packet) = refl
  process_packet-Keeps s (file_req packet) = refl

  module _ ⦃endpoints : EndpointOps E⦄ where
    parsed-Keeps :
        (s : ReadConnection E R) (packet : Option Packet)
        → Keeps s (elim packet [ none ↦ (s, []) | some p ↦ process_packet s p ])
    parsed-Keeps s none = refl
    parsed-Keeps s (some p) = process_packet-Keeps s p

    pub on_packet_received-Keeps :
        (s : ReadConnection E R) (ec : ErrorCode) (n : ℕ) → Keeps s (on_packet_received s ec n)
    unfolding on_packet_received terminate
    on_packet_received-Keeps s operation_aborted n = refl
    on_packet_received-Keeps s failed n = refl
    on_packet_received-Keeps s success n = if-Keeps s _ _ _ refl (parsed-Keeps s _)

    pub receive-Keeps :
        (s : ReadConnection E R) (sender : E) (datagram : Bytes)
        → Keeps s (receive s sender datagram)
    unfolding receive
    receive-Keeps s sender datagram = on_packet_received-Keeps _ success _

module _ {E R W : Type 0} ⦃ops : ReaderOps R⦄ where
  -- A socket that opens and does not bind stays open, and nothing is sent.
  pub bind_fails_lem :
      (m : IoManager R W) (s : ReadConnection E R)
      → start m bind_fails s
        ≡ thrown system_error (record s { socket_is_open = true }, open_socket ∷ [])
  unfolding start
  bind_fails_lem m s = refl
