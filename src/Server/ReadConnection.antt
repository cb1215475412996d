-- ===== src/Server/ReadConnection.antt =====
-- src/server/read_connection.hpp: the server's side of a read request. The state holds what the
-- handlers read and write; a handler returns it with the effects that it asks of asio.
pub mod Transfer
pub mod Events
pub mod Others
pub mod Pending
pub mod Sender
pub mod Sockets
pub mod Errors
use octnet_tftp.Base.{
  ℕ, ◌+◌, ◌%◌, Bool, true, false, not, ◌||◌, Option, none, some, List, [], ◌∷◌, Bytes, take, length,
  ltb, ◌==◌, if◌then◌else◌, codes,
}
use octnet_tftp.Base.Int.{ℤ, pos, pred, is_pos}
use octnet_tftp.Net.{
  EndpointOps, ErrorCode, success, operation_aborted, failed, Effect, open_socket, close_socket,
  send_to, receive_from, start_timer, cancel_timer, connection_terminated, Outcome, emit,
}
use octnet_tftp.Wire.Packet.{
  op_data, op_error, default_data_size, default_retry_counter, default_retry_timeout_sec,
  max_recv_packet_size, PacketFileReq, PacketAck, PacketError, Packet, data_packet, ack, error,
}
use octnet_tftp.Wire.Errcode
use octnet_tftp.Wire.Builder.{build_packet}
use octnet_tftp.Wire.Parser.{parse_packet}
use octnet_tftp.Io.Interface.{ReaderOps, read_pointer}
use octnet_tftp.Io.Manager.{IoManager}
use octnet_tftp.Server.Result.{
  system_error, Result, returned, thrown, SocketSetup, open_fails, bind_fails, all_succeed,
}

pub record ReadConnection (E R : Type 0) : Type 0 where
  pub request_packet : PacketFileReq
  pub client_endpoint : E
  pub reader : Option R
  pub last_packet_sent : Bool
  pub last_sent_packet_id : ℕ
  pub response_expected : Bool
  pub retry_counter : ℤ
  pub out_packet_data : Bytes
  pub in_packet_data : Bytes
  pub in_packet_endpoint : E
  pub socket_is_open : Bool

module _ {E R : Type 0} where
  pub read_connection : ⦃ops : EndpointOps E⦄ → PacketFileReq → E → ReadConnection E R
  read_connection ⦃ops⦄ request_packet requesting_endpoint = record {
    request_packet = request_packet;
    client_endpoint = requesting_endpoint;
    reader = none;
    last_packet_sent = false;
    last_sent_packet_id = 0;
    response_expected = false;
    retry_counter = pos 0;
    out_packet_data = [];
    in_packet_data = [];
    in_packet_endpoint = ops.unspecified;
    socket_is_open = false;
  }

  pub send_prepared_packet : ReadConnection E R → Outcome E (ReadConnection E R)
  send_prepared_packet s = (s, send_to s.out_packet_data s.client_endpoint ∷ [])

  pub send_packet : ReadConnection E R → Packet → Bool → ℤ → Outcome E (ReadConnection E R)
  unfolding send_prepared_packet
  send_packet s packet response_expected retry_counter = send_prepared_packet (record s {
    out_packet_data = build_packet packet;
    response_expected = response_expected;
    retry_counter = retry_counter;
  })

  abbrev pub send_error : ReadConnection E R → ℕ → Bytes → Outcome E (ReadConnection E R)
  send_error s error_code message =
      send_packet s
        (error (record { op = op_error; error_code = error_code; error_message = message })) false
        (pos 0)

  pub terminate : ReadConnection E R → Outcome E (ReadConnection E R)
  terminate s = (s, connection_terminated ∷ [])

  pub stop : ReadConnection E R → Outcome E (ReadConnection E R)
  stop s =
      if s.socket_is_open
      then (record s { socket_is_open = false }, close_socket ∷ cancel_timer ∷ [])
      else (s, cancel_timer ∷ [])

  pub request_next_receive : ReadConnection E R → Outcome E (ReadConnection E R)
  request_next_receive s = (s, receive_from ∷ [])

  pub on_packet_sent : ReadConnection E R → ErrorCode → Outcome E (ReadConnection E R)
  unfolding terminate request_next_receive
  on_packet_sent s operation_aborted = (s, [])
  on_packet_sent s failed = terminate s
  on_packet_sent s success =
      if s.response_expected
      then emit (start_timer default_retry_timeout_sec) (request_next_receive s)
      else terminate s

  -- `--m_retry_counter`, then the test.
  retry : ReadConnection E R → Outcome E (ReadConnection E R)
  unfolding terminate send_prepared_packet
  retry s = if is_pos s.retry_counter then send_prepared_packet s else terminate s

  pub on_send_timeout : ReadConnection E R → ErrorCode → Outcome E (ReadConnection E R)
  on_send_timeout s operation_aborted = (s, [])
  on_send_timeout s failed = (s, [])
  on_send_timeout s success = retry (record s { retry_counter = pred s.retry_counter })

  pub process_error_received : ReadConnection E R → PacketError → Outcome E (ReadConnection E R)
  unfolding terminate
  process_error_received s packet = terminate s

module _ {E R : Type 0} ⦃ops : ReaderOps R⦄ where
  -- `none` is a read that failed.
  send_data : ReadConnection E R → Option Bytes → Outcome E (ReadConnection E R)
  unfolding send_packet
  send_data s none = send_error s Errcode.file_not_found (codes "invalid path")
  send_data s (some bytes) =
      send_packet
        (record s {
          last_packet_sent =
              if ltb (length bytes) default_data_size then true else s.last_packet_sent;
        })
        (data_packet (record { op = op_data; block_no = s.last_sent_packet_id; bytes = bytes }))
        true (pos default_retry_counter)

  pub send_next_data_packet : ReadConnection E R → Outcome E (ReadConnection E R)
  send_next_data_packet s =
      let (result, reader) = read_pointer s.reader default_data_size in
      send_data
        (record s { last_sent_packet_id = (s.last_sent_packet_id + 1) % 65536; reader = reader })
        result

  pub send_first_packet : ReadConnection E R → Outcome E (ReadConnection E R)
  send_first_packet s = elim s.reader [
    | none ↦ send_error s Errcode.access_violation (codes "invalid path or mode")
    | some r ↦
        if not (ops.is_open r)
        then send_error s Errcode.file_not_found (codes "file not found")
        else send_next_data_packet s
  ]

  pub start :
      {W : Type 0}
      → IoManager R W
      → SocketSetup
      → ReadConnection E R
      → Result (Outcome E (ReadConnection E R))
  start m open_fails s = thrown system_error (s, [])
  start m bind_fails s = thrown system_error (record s { socket_is_open = true }, open_socket ∷ [])
  start m all_succeed s = returned (
      emit open_socket (
        send_first_packet (record s {
          reader = m.create_reader s.request_packet.filename s.request_packet.mode;
          socket_is_open = true;
        })))

  pub process_ack_received : ReadConnection E R → PacketAck → Outcome E (ReadConnection E R)
  process_ack_received s packet =
      if not (packet.block_no == s.last_sent_packet_id)
      then (s, [])
      else emit cancel_timer (if s.last_packet_sent then terminate s else send_next_data_packet s)

  -- The `switch` on the op, which is that of the packet's class (Wire/Parser/Sound).
  pub process_packet : ReadConnection E R → Packet → Outcome E (ReadConnection E R)
  process_packet s (ack packet) = process_ack_received s packet
  process_packet s (error packet) = process_error_received s packet
  process_packet s other = (s, [])

  module _ ⦃endpoints : EndpointOps E⦄ where
    pub on_packet_received : ReadConnection E R → ErrorCode → ℕ → Outcome E (ReadConnection E R)
    on_packet_received s operation_aborted bytes_received = (s, [])
    on_packet_received s failed bytes_received = terminate s
    on_packet_received s success bytes_received =
        if not (endpoints.same s.client_endpoint s.in_packet_endpoint)
        then (s, [])
        else elim (parse_packet (take bytes_received s.in_packet_data)) [
          | none ↦ (s, [])
          | some packet ↦ process_packet s packet
        ]

    -- A datagram arrives: asio fills the buffer, and calls the handler.
    pub receive : ReadConnection E R → E → Bytes → Outcome E (ReadConnection E R)
    receive s sender datagram =
        let bytes : Bytes = take max_recv_packet_size datagram in
        on_packet_received (record s { in_packet_data = bytes; in_packet_endpoint = sender })
          success (length bytes)
