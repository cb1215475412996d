-- ===== src/Server/WriteConnection.antt =====
-- src/server/write_connection.hpp: the server's side of a write request. The state holds what the
-- handlers read and write; a handler returns it with the effects that it asks of asio.
pub mod Accept
pub mod Transfer
pub mod Events
pub mod Others
pub mod Pending
pub mod Receiver
pub mod Start
pub mod Sockets
pub mod Errors
use octnet_tftp.Base.{
  ℕ, ◌+◌, ◌%◌, Bool, true, false, not, ◌||◌, Option, none, some, List, [], ◌∷◌, Bytes, take, length,
  ltb, ◌==◌, if◌then◌else◌, codes,
}
use octnet_tftp.Base.Int.{ℤ, pos, pred, is_pos}
use octnet_tftp.Net.{
  EndpointOps, ErrorCode, success, operation_aborted, failed, Effect, open_socket, close_socket,
  send_to, receive_from, start_timer, cancel_timer, connection_terminated, Outcome, emit,
}
use octnet_tftp.Wire.Packet.{
  op_ack, op_error, default_data_size, default_retry_counter, default_retry_timeout_sec,
  max_recv_packet_size, PacketFileReq, PacketData, PacketError, Packet, data_packet, ack, error,
}
use octnet_tftp.Wire.Errcode
use octnet_tftp.Wire.Builder.{build_packet}
use octnet_tftp.Wire.Parser.{parse_packet}
use octnet_tftp.Io.Interface.{WriterOps, write_pointer}
use octnet_tftp.Io.Manager.{IoManager}
use octnet_tftp.Server.Result.{
  system_error, Result, returned, thrown, SocketSetup, open_fails, bind_fails, all_succeed,
}

pub record WriteConnection (E W : Type 0) : Type 0 where
  pub request_packet : PacketFileReq
  pub client_endpoint : E
  pub writer : Option W
  pub next_expected_packet_id : ℕ
  pub response_expected : Bool
  pub retry_counter : ℤ
  pub out_packet_data : Bytes
  pub in_packet_data : Bytes
  pub in_packet_endpoint : E
  pub socket_is_open : Bool

module _ {E W : Type 0} where
  pub write_connection : ⦃ops : EndpointOps E⦄ → PacketFileReq → E → WriteConnection E W
  write_connection ⦃ops⦄ request_packet requesting_endpoint = record {
    request_packet = request_packet;
    client_endpoint = requesting_endpoint;
    writer = none;
    next_expected_packet_id = 0;
    response_expected = false;
    retry_counter = pos 0;
    out_packet_data = [];
    in_packet_data = [];
    in_packet_endpoint = ops.unspecified;
    socket_is_open = false;
  }

  pub send_prepared_packet : WriteConnection E W → Outcome E (WriteConnection E W)
  send_prepared_packet s = (s, send_to s.out_packet_data s.client_endpoint ∷ [])

  pub send_packet : WriteConnection E W → Packet → Bool → ℤ → Outcome E (WriteConnection E W)
  unfolding send_prepared_packet
  send_packet s packet response_expected retry_counter = send_prepared_packet (record s {
    out_packet_data = build_packet packet;
    response_expected = response_expected;
    retry_counter = retry_counter;
  })

  abbrev pub send_error : WriteConnection E W → ℕ → Bytes → Outcome E (WriteConnection E W)
  send_error s error_code message =
      send_packet s
        (error (record { op = op_error; error_code = error_code; error_message = message })) false
        (pos 0)

  pub terminate : WriteConnection E W → Outcome E (WriteConnection E W)
  terminate s = (s, connection_terminated ∷ [])

  pub stop : WriteConnection E W → Outcome E (WriteConnection E W)
  stop s =
      if s.socket_is_open
      then (record s { socket_is_open = false }, close_socket ∷ cancel_timer ∷ [])
      else (s, cancel_timer ∷ [])

  pub request_next_receive : WriteConnection E W → Outcome E (WriteConnection E W)
  request_next_receive s = (s, receive_from ∷ [])

  pub on_packet_sent : WriteConnection E W → ErrorCode → Outcome E (WriteConnection E W)
  unfolding terminate request_next_receive
  on_packet_sent s operation_aborted = (s, [])
  on_packet_sent s failed = terminate s
  on_packet_sent s success =
      if s.response_expected
      then emit (start_timer default_retry_timeout_sec) (request_next_receive s)
      else terminate s

  -- `--m_retry_counter`, then the test.
  retry : WriteConnection E W → Outcome E (WriteConnection E W)
  unfolding terminate send_prepared_packet
  retry s = if is_pos s.retry_counter then send_prepared_packet s else terminate s

  pub on_send_timeout : WriteConnection E W → ErrorCode → Outcome E (WriteConnection E W)
  on_send_timeout s operation_aborted = (s, [])
  on_send_timeout s failed = (s, [])
  on_send_timeout s success = retry (record s { retry_counter = pred s.retry_counter })

  pub process_error_received : WriteConnection E W → PacketError → Outcome E (WriteConnection E W)
  unfolding terminate
  process_error_received s packet = terminate s

  -- The `uint32_t` is cut to 16 bits where it is stored.
  pub send_ack : WriteConnection E W → ℕ → Bool → Outcome E (WriteConnection E W)
  unfolding send_packet
  send_ack s block_no is_last =
      send_packet (record s { next_expected_packet_id = (block_no + 1) % 65536 })
        (ack (record { op = op_ack; block_no = block_no % 65536 })) (not is_last)
        (pos default_retry_counter)

module _ {E W : Type 0} ⦃ops : WriterOps W⦄ where
  pub send_first_packet : WriteConnection E W → Outcome E (WriteConnection E W)
  send_first_packet s = elim s.writer [
    | none ↦ send_error s Errcode.access_violation (codes "invalid path")
    | some w ↦
        if not (ops.is_open w)
        then send_error s Errcode.file_not_found (codes "invalid path")
        else send_ack s 0 false
  ]

  pub start :
      {R : Type 0}
      → IoManager R W
      → SocketSetup
      → WriteConnection E W
      → Result (Outcome E (WriteConnection E W))
  start m open_fails s = thrown system_error (s, [])
  start m bind_fails s = thrown system_error (record s { socket_is_open = true }, open_socket ∷ [])
  start m all_succeed s = returned (
      emit open_socket (
        send_first_packet (record s {
          writer = m.create_writer s.request_packet.filename s.request_packet.mode;
          socket_is_open = true;
        })))

  -- The block has been written, or not.
  pub answer_data : WriteConnection E W → PacketData → Bool → Outcome E (WriteConnection E W)
  answer_data s packet false = send_error s Errcode.disk_full (codes "write failed")
  answer_data s packet true =
      if length packet.bytes == default_data_size
      then send_ack s packet.block_no false
      else send_ack s packet.block_no true

  -- An empty block is not written.
  pub write_data : WriteConnection E W → PacketData → Outcome E (WriteConnection E W)
  write_data s packet =
      let (done, writer) =
        if ltb 0 (length packet.bytes)
        then write_pointer s.writer packet.bytes
        else (true, s.writer) in
      answer_data (record s { writer = writer }) packet done

  pub process_data_received : WriteConnection E W → PacketData → Outcome E (WriteConnection E W)
  process_data_received s packet =
      if not (packet.block_no == s.next_expected_packet_id)
      then (s, [])
      else emit cancel_timer (write_data s packet)

  -- The `switch` on the op, which is that of the packet's class (Wire/Parser/Sound).
  pub process_packet : WriteConnection E W → Packet → Outcome E (WriteConnection E W)
  process_packet s (data_packet packet) = process_data_received s packet
  process_packet s (error packet) = process_error_received s packet
  process_packet s other = (s, [])

  module _ ⦃endpoints : EndpointOps E⦄ where
    pub on_packet_received : WriteConnection E W → ErrorCode → ℕ → Outcome E (WriteConnection E W)
    on_packet_received s operation_aborted bytes_received = (s, [])
    on_packet_received s failed bytes_received = terminate s
    on_packet_received s success bytes_received =
        if not (endpoints.same s.client_endpoint s.in_packet_endpoint)
        then (s, [])
        else elim (parse_packet (take bytes_received s.in_packet_data)) [
          | none ↦ (s, [])
          | some packet ↦ process_packet s packet
        ]

    -- A datagram arrives: asio fills the buffer, and calls the handler.
    pub receive : WriteConnection E W → E → Bytes → Outcome E (WriteConnection E W)
    receive s sender datagram =
        let bytes : Bytes = take max_recv_packet_size datagram in
        on_packet_received (record s { in_packet_data = bytes; in_packet_endpoint = sender })
          success (length bytes)
