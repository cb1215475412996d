-- ===== src/Client/Get.antt =====
-- src/client_app/client_get.hpp: a download. The state holds what the handlers read and write; a
-- handler returns it with the effects that it asks of asio.
pub mod Transfer
pub mod Receive
pub mod Rollover
pub mod Events
pub mod Others
pub mod Retries
pub mod Download
pub mod Receiver
use octnet_tftp.Base.{
  ℕ, ◌+◌, Bool, true, false, not, Option, none, some, List, [], ◌∷◌, Bytes, take, length, ltb, ◌==◌,
  ◌&&◌, if◌then◌else◌, codes,
}
use octnet_tftp.Base.Int.{ℤ, pos, pred, is_pos}
use octnet_tftp.Net.{
  EndpointOps, ErrorCode, success, operation_aborted, failed, Effect, open_socket, close_socket,
  send_to, receive_from, start_timer, cancel_timer, resolve, cancel_resolve, Outcome, emit,
}
use octnet_tftp.Wire.Packet.{
  op_rrq, op_ack, op_error, default_data_size, default_retry_counter, default_retry_timeout_sec,
  max_recv_packet_size, PacketData, PacketError, Packet, file_req, data_packet, ack, error,
}
use octnet_tftp.Wire.Errcode
use octnet_tftp.Wire.Builder.{build_packet}
use octnet_tftp.Wire.Parser.{parse_packet}
use octnet_tftp.Io.Interface.{write_pointer}
use octnet_tftp.Io.Text.{equal_ignore_case}
use octnet_tftp.Io.File.{FileSystem, open_file_writer}
use octnet_tftp.Io.Manager.{Writer, writer_ops}
use octnet_tftp.Client.{Request}

pub record ClientGet (E : Type 0) : Type 0 where
  pub request : Request
  pub server_endpoint : E
  pub request_complete : Bool
  pub last_acked_packet_id : ℕ
  pub response_expected : Bool
  pub retry_counter : ℤ
  pub writer : Option Writer
  pub out_packet_data : Bytes
  pub in_packet_data : Bytes
  pub in_packet_endpoint : E
  pub socket_is_open : Bool

module _ {E : Type 0} where
  unfoldable pub client_get : ⦃ops : EndpointOps E⦄ → Request → ClientGet E
  client_get ⦃ops⦄ request = record {
    request = request;
    server_endpoint = ops.unspecified;
    request_complete = false;
    last_acked_packet_id = 0;
    response_expected = false;
    retry_counter = pos 0;
    writer = none;
    out_packet_data = [];
    in_packet_data = [];
    in_packet_endpoint = ops.unspecified;
    socket_is_open = false;
  }

  -- `none` is an exception of the socket, which `bound` decides: whether it opens and binds.
  pub start : Bool → ClientGet E → Option (Outcome E (ClientGet E))
  start bound s =
      if bound
      then some (
        record s { socket_is_open = true },
        open_socket ∷ resolve s.request.host s.request.port ∷ [],
      )
      else none

  pub stop : ClientGet E → Outcome E (ClientGet E)
  stop s =
      if s.socket_is_open
      then (record s { socket_is_open = false }, cancel_resolve ∷ cancel_timer ∷ close_socket ∷ [])
      else (s, cancel_resolve ∷ cancel_timer ∷ [])

  pub terminate : ClientGet E → Bool → Outcome E (ClientGet E)
  unfolding stop
  terminate s succeeded = stop s

  pub send_prepared_packet : ClientGet E → Outcome E (ClientGet E)
  send_prepared_packet s = (s, send_to s.out_packet_data s.server_endpoint ∷ [])

  pub send_packet : ClientGet E → Packet → Bool → ℤ → Outcome E (ClientGet E)
  unfolding send_prepared_packet
  send_packet s packet response_expected retry_counter = send_prepared_packet (record s {
    out_packet_data = build_packet packet;
    response_expected = response_expected;
    retry_counter = retry_counter;
  })

  pub send_request : ClientGet E → Outcome E (ClientGet E)
  unfolding send_packet
  send_request s =
      send_packet s
        (file_req (record {
          op = op_rrq;
          filename = s.request.remote_filename;
          mode = s.request.mode;
          options = [];
        }))
        true (pos default_retry_counter)

  -- Only an abort is looked at; any other error comes with no results.
  pub on_resolve_query : ClientGet E → ErrorCode → List E → Outcome E (ClientGet E)
  unfolding send_request
  on_resolve_query s operation_aborted results = (s, [])
  on_resolve_query s failed [] = (s, [])
  on_resolve_query s failed (x ∷ results) = send_request (record s { server_endpoint = x })
  on_resolve_query s success [] = (s, [])
  on_resolve_query s success (x ∷ results) = send_request (record s { server_endpoint = x })

  pub request_next_receive : ClientGet E → Outcome E (ClientGet E)
  request_next_receive s = (s, receive_from ∷ [])

  pub on_packet_sent : ClientGet E → ErrorCode → Outcome E (ClientGet E)
  unfolding terminate request_next_receive
  on_packet_sent s operation_aborted = (s, [])
  on_packet_sent s failed = terminate s false
  on_packet_sent s success =
      if s.response_expected
      then emit (start_timer default_retry_timeout_sec) (request_next_receive s)
      else terminate s false

  -- `--m_retry_counter`, then the test.
  retry : ClientGet E → Outcome E (ClientGet E)
  unfolding terminate send_prepared_packet
  retry s = if is_pos s.retry_counter then send_prepared_packet s else terminate s false

  pub on_send_timeout : ClientGet E → ErrorCode → Outcome E (ClientGet E)
  on_send_timeout s operation_aborted = (s, [])
  on_send_timeout s failed = (s, [])
  on_send_timeout s success = retry (record s { retry_counter = pred s.retry_counter })

  pub process_error_received : ClientGet E → PacketError → Outcome E (ClientGet E)
  unfolding terminate
  process_error_received s packet = terminate s false

  abbrev pub send_error : ClientGet E → ℕ → Outcome E (ClientGet E)
  send_error s error_code =
      send_packet s
        (error (record {
          op = op_error;
          error_code = error_code;
          error_message = codes "cannot open file for writing";
        }))
        false (pos 0)

  unfoldable pub open_writer : FileSystem → ClientGet E → Option Writer
  open_writer fs s =
      if equal_ignore_case s.request.mode (codes "octet")
      then some (Writer.file (open_file_writer fs s.request.local_path))
      else if equal_ignore_case s.request.mode (codes "netascii")
      then some (
          Writer.netascii
            (record { peer = open_file_writer fs s.request.local_path; pending_cr = false }))
      else none

  -- The block has been written, or not.
  pub answer_data : ClientGet E → PacketData → Bool → Outcome E (ClientGet E)
  unfolding send_packet
  answer_data s packet false = send_error s Errcode.disk_full
  answer_data s packet true =
      send_packet (record s { last_acked_packet_id = packet.block_no })
        (ack (record { op = op_ack; block_no = packet.block_no }))
        (not (ltb (length packet.bytes) default_data_size)) (pos default_retry_counter)

  pub write_data : ClientGet E → PacketData → Outcome E (ClientGet E)
  write_data s packet =
      let (done, writer) = write_pointer s.writer packet.bytes in
      answer_data (record s { writer = writer }) packet done

  -- The first block: its writer has just been opened, or not.
  pub first_data : ClientGet E → PacketData → Outcome E (ClientGet E)
  first_data s packet = elim s.writer [
    | none ↦ send_error s Errcode.undefined
    | some w ↦
        if not (writer_ops.is_open w)
        then send_error s Errcode.access_violation
        else write_data s packet
  ]

  -- The sum is an `int`: it does not wrap.
  pub process_data_received : FileSystem → ClientGet E → PacketData → Outcome E (ClientGet E)
  process_data_received fs s packet =
      if not (s.last_acked_packet_id + 1 == packet.block_no)
      then (s, [])
      else if not s.request_complete
      then first_data
          (record s {
            request_complete = true;
            server_endpoint = s.in_packet_endpoint;
            writer = open_writer fs s;
          })
          packet
      else write_data s packet

  -- The `switch` on the op, which is that of the packet's class (Wire/Parser/Sound).
  pub process_packet : FileSystem → ClientGet E → Packet → Outcome E (ClientGet E)
  process_packet fs s (data_packet packet) = process_data_received fs s packet
  process_packet fs s (error packet) = process_error_received s packet
  process_packet fs s other = (s, [])

  module _ ⦃endpoints : EndpointOps E⦄ where
    -- Until the first block has come, any source will do.
    pub on_packet_received : FileSystem → ClientGet E → ErrorCode → ℕ → Outcome E (ClientGet E)
    on_packet_received fs s operation_aborted bytes_received = (s, [])
    on_packet_received fs s failed bytes_received = terminate s false
    on_packet_received fs s success bytes_received =
        if s.request_complete && not (endpoints.same s.server_endpoint s.in_packet_endpoint)
        then (s, [])
        else elim (parse_packet (take bytes_received s.in_packet_data)) [
          | none ↦ (s, [])
          | some packet ↦ process_packet fs s packet
        ]

    -- A datagram arrives: asio fills the buffer, and calls the handler.
    pub receive : FileSystem → ClientGet E → E → Bytes → Outcome E (ClientGet E)
    receive fs s sender datagram =
        let bytes : Bytes = take max_recv_packet_size datagram in
        on_packet_received fs (record s { in_packet_data = bytes; in_packet_endpoint = sender })
          success (length bytes)
