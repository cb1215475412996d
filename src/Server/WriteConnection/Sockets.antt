-- ===== src/Server/WriteConnection/Sockets.antt =====
-- The socket of a write connection: opened by start, closed by stop, and left alone by the handlers.
use octnet_tftp.Base.{
  ℕ, ◌≡◌, refl, inl, inr, Bool, true, false, Bool-cases, Option, none, some, [], ◌∷◌, Bytes, length,
  ◌==◌, if◌then◌else◌,
}
use octnet_tftp.Net.{
  open_socket, EndpointOps, ErrorCode, success, operation_aborted, failed, Outcome,
}
use octnet_tftp.Wire.Packet.{Packet, PacketData, file_req, data_packet, ack, error}
use octnet_tftp.Io.Interface.{WriterOps}
use octnet_tftp.Io.Manager.{IoManager}
use octnet_tftp.Server.Result.{system_error, thrown, bind_fails}
use octnet_tftp.Server.WriteConnection.{
  start, WriteConnection, stop, terminate, send_packet, send_prepared_packet, request_next_receive,
  on_packet_sent, retry, on_send_timeout, process_error_received, answer_data, write_data, send_ack,
  process_data_received, process_packet, on_packet_received, receive,
}

module _ {E W : Type 0} where
  -- The outcome leaves the socket as it was.
  abbrev pub Keeps : WriteConnection E W → Outcome E (WriteConnection E W) → Type 0
  Keeps s outcome = outcome.0.socket_is_open ≡ s.socket_is_open

  if-Keeps :
      (s : WriteConnection E W) (b : Bool) (x y : Outcome E (WriteConnection E W))
      → Keeps s x
      → Keeps s y
      → Keeps s (if b then x else y)
  if-Keeps s true x y h k = h
  if-Keeps s false x y h k = k

  pub stop_closes : (s : WriteConnection E W) → (stop s).0.socket_is_open ≡ false
  unfolding stop
  stop_closes s = elim (Bool-cases s.socket_is_open) [ inl e ↦ rw e | inr e ↦ simp e ]

  pub on_packet_sent-Keeps :
      (s : WriteConnection E W) (ec : ErrorCode) → Keeps s (on_packet_sent s ec)
  unfolding on_packet_sent terminate request_next_receive
  on_packet_sent-Keeps s operation_aborted = refl
  on_packet_sent-Keeps s failed = refl
  on_packet_sent-Keeps s success = if-Keeps s s.response_expected _ _ refl refl

  pub on_send_timeout-Keeps :
      (s : WriteConnection E W) (ec : ErrorCode) → Keeps s (on_send_timeout s ec)
  unfolding on_send_timeout retry terminate send_prepared_packet
  on_send_timeout-Keeps s operation_aborted = refl
  on_send_timeout-Keeps s failed = refl
  on_send_timeout-Keeps s success = if-Keeps s _ _ _ refl refl

module _ {E W : Type 0} ⦃ops : WriterOps W⦄ where
  answer_data-Keeps :
      (s : WriteConnection E W) (packet : PacketData) (done : Bool)
      → Keeps s (answer_data s packet done)
  unfolding answer_data send_ack send_packet send_prepared_packet
  answer_data-Keeps s packet false = refl
  answer_data-Keeps s packet true = if-Keeps s (length packet.bytes == 512) _ _ refl refl

  process_data-Keeps :
      (s : WriteConnection E W) (packet : PacketData) → Keeps s (process_data_received s packet)
  unfolding process_data_received write_data
  process_data-Keeps s packet =
      if-Keeps s _ _ _ refl (answer_data-Keeps (record s { writer = _ }) packet _)

  process_packet-Keeps :
      (s : WriteConnection E W) (packet : Packet) → Keeps s (process_packet s packet)
  unfolding process_packet process_error_received terminate
  process_packet-Keeps s (ack packet) = refl
  process_packet-Keeps s (error packet) = refl
  process_packet-Keeps s (data_packet packet) = process_data-Keeps s packet
  process_packet-Keeps s (file_req packet) = refl

  module _ ⦃endpoints : EndpointOps E⦄ where
    parsed-Keeps :
        (s : WriteConnection E W) (packet : Option Packet)
        → Keeps s (elim packet [ none ↦ (s, []) | some p ↦ process_packet s p ])
    parsed-Keeps s none = refl
    parsed-Keeps s (some p) = process_packet-Keeps s p

    pub on_packet_received-Keeps :
        (s : WriteConnection E W) (ec : ErrorCode) (n : ℕ) → Keeps s (on_packet_received s ec n)
    unfolding on_packet_received terminate
    on_packet_received-Keeps s operation_aborted n = refl
    on_packet_received-Keeps s failed n = refl
    on_packet_received-Keeps s success n = if-Keeps s _ _ _ refl (parsed-Keeps s _)

    pub receive-Keeps :
        (s : WriteConnection E W) (sender : E) (datagram : Bytes)
        → Keeps s (receive s sender datagram)
    unfolding receive
    receive-Keeps s sender datagram = on_packet_received-Keeps _ success _

module _ {E R W : Type 0} ⦃ops : WriterOps W⦄ where
  -- A socket that opens and does not bind stays open, and nothing is sent.
  pub bind_fails_lem :
      (m : IoManager R W) (s : WriteConnection E W)
      → start m bind_fails s
        ≡ thrown system_error (record s { socket_is_open = true }, open_socket ∷ [])
  unfolding start
  bind_fails_lem m s = refl
