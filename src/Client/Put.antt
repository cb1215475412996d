-- ===== src/Client/Put.antt =====
-- src/client_app/client_put.hpp: an upload. The state holds what the handlers read and write; a
-- handler returns it with the effects that it asks of asio.
pub mod Transfer
pub mod Receive
pub mod Sender
pub mod Start
pub mod Events
pub mod Others
use octnet_tftp.Base.{
  ℕ, ◌+◌, ◌%◌, Bool, true, false, not, Option, none, some, List, [], ◌∷◌, Bytes, take, length, ltb,
  ◌==◌, ◌&&◌, if◌then◌else◌, codes,
}
use octnet_tftp.Base.Int.{ℤ, pos, pred, is_pos}
use octnet_tftp.Net.{
  EndpointOps, ErrorCode, success, operation_aborted, failed, Effect, open_socket, close_socket,
  send_to, receive_from, start_timer, cancel_timer, resolve, cancel_resolve, Outcome, emit,
}
use octnet_tftp.Wire.Packet.{
  op_wrq, op_data, op_error, default_data_size, default_retry_counter, default_retry_timeout_sec,
  max_recv_packet_size, PacketAck, PacketError, Packet, file_req, data_packet, ack, error,
}
use octnet_tftp.Wire.Errcode
use octnet_tftp.Wire.Builder.{build_packet}
use octnet_tftp.Wire.Parser.{parse_packet}
use octnet_tftp.Io.Interface.{read_pointer}
use octnet_tftp.Io.Text.{equal_ignore_case}
use octnet_tftp.Io.File.{FileSystem, open_file_reader}
use octnet_tftp.Io.Manager.{Reader, reader_ops}
use octnet_tftp.Client.{Request}

pub record ClientPut (E : Type 0) : Type 0 where
  pub request : Request
  pub server_endpoint : E
  pub request_complete : Bool
  pub last_sent_packet_id : ℕ
  pub response_expected : Bool
  pub retry_counter : ℤ
  pub last_packet_sent : Bool
  pub reader : Option Reader
  pub out_packet_data : Bytes
  pub in_packet_data : Bytes
  pub in_packet_endpoint : E
  pub socket_is_open : Bool

module _ {E : Type 0} where
  unfoldable pub client_put : ⦃ops : EndpointOps E⦄ → Request → ClientPut E
  client_put ⦃ops⦄ request = record {
    request = request;
    server_endpoint = ops.unspecified;
    request_complete = false;
    last_sent_packet_id = 0;
    response_expected = false;
    retry_counter = pos 0;
    last_packet_sent = false;
    reader = none;
    out_packet_data = [];
    in_packet_data = [];
    in_packet_endpoint = ops.unspecified;
    socket_is_open = false;
  }

  pub stop : ClientPut E → Outcome E (ClientPut E)
  stop s =
      if s.socket_is_open
      then (record s { socket_is_open = false }, cancel_resolve ∷ cancel_timer ∷ close_socket ∷ [])
      else (s, cancel_resolve ∷ cancel_timer ∷ [])

  pub terminate : ClientPut E → Bool → Outcome E (ClientPut E)
  unfolding stop
  terminate s succeeded = stop s

  pub send_prepared_packet : ClientPut E → Outcome E (ClientPut E)
  send_prepared_packet s = (s, send_to s.out_packet_data s.server_endpoint ∷ [])

  pub send_packet : ClientPut E → Packet → Bool → ℤ → Outcome E (ClientPut E)
  unfolding send_prepared_packet
  send_packet s packet response_expected retry_counter = send_prepared_packet (record s {
    out_packet_data = build_packet packet;
    response_expected = response_expected;
    retry_counter = retry_counter;
  })

  pub send_request : ClientPut E → Outcome E (ClientPut E)
  unfolding send_packet
  send_request s =
      send_packet s
        (file_req (record {
          op = op_wrq;
          filename = s.request.remote_filename;
          mode = s.request.mode;
          options = [];
        }))
        true (pos default_retry_counter)

  -- Only an abort is looked at; any other error comes with no results.
  pub on_resolve_query : ClientPut E → ErrorCode → List E → Outcome E (ClientPut E)
  unfolding send_request
  on_resolve_query s operation_aborted results = (s, [])
  on_resolve_query s failed [] = (s, [])
  on_resolve_query s failed (x ∷ results) = send_request (record s { server_endpoint = x })
  on_resolve_query s success [] = (s, [])
  on_resolve_query s success (x ∷ results) = send_request (record s { server_endpoint = x })

  pub request_next_receive : ClientPut E → Outcome E (ClientPut E)
  request_next_receive s = (s, receive_from ∷ [])

  pub on_packet_sent : ClientPut E → ErrorCode → Outcome E (ClientPut E)
  unfolding terminate request_next_receive
  on_packet_sent s operation_aborted = (s, [])
  on_packet_sent s failed = terminate s false
  on_packet_sent s success =
      if s.response_expected
      then emit (start_timer default_retry_timeout_sec) (request_next_receive s)
      else terminate s false

  -- `--m_retry_counter`, then the test.
  retry : ClientPut E → Outcome E (ClientPut E)
  unfolding terminate send_prepared_packet
  retry s = if is_pos s.retry_counter then send_prepared_packet s else terminate s false

  pub on_send_timeout : ClientPut E → ErrorCode → Outcome E (ClientPut E)
  on_send_timeout s operation_aborted = (s, [])
  on_send_timeout s failed = (s, [])
  on_send_timeout s success = retry (record s { retry_counter = pred s.retry_counter })

  pub process_error_received : ClientPut E → PacketError → Outcome E (ClientPut E)
  unfolding terminate
  process_error_received s packet = terminate s false

  abbrev pub send_error : ClientPut E → ℕ → Outcome E (ClientPut E)
  send_error s error_code =
      send_packet s
        (error (record {
          op = op_error;
          error_code = error_code;
          error_message = codes "cannot read data";
        }))
        false (pos 0)

  unfoldable pub open_reader : FileSystem → ClientPut E → Option Reader
  open_reader fs s =
      if equal_ignore_case s.request.mode (codes "octet")
      then some (Reader.file (open_file_reader fs s.request.local_path))
      else if equal_ignore_case s.request.mode (codes "netascii")
      then some (
          Reader.netascii
            (record { peer = open_file_reader fs s.request.local_path; pending_char = 0 }))
      else none

  -- Past the tests of the reader. `none` is an exception of the socket, which `bound` decides:
  -- whether it opens and binds.
  pub start_socket : Bool → ClientPut E → Option (Outcome E (ClientPut E))
  start_socket bound s =
      if bound
      then some (
        record s { socket_is_open = true },
        open_socket ∷ resolve s.request.host s.request.port ∷ [],
      )
      else none

  -- The reader has just been opened, or not.
  pub start_opened : Bool → ClientPut E → Option (Outcome E (ClientPut E))
  unfolding terminate start_socket
  start_opened bound s = elim s.reader [
    | none ↦ some (terminate s false)
    | some r ↦ if not (reader_ops.is_open r) then some (terminate s false) else start_socket bound s
  ]

  pub start : FileSystem → Bool → ClientPut E → Option (Outcome E (ClientPut E))
  unfolding start_opened
  start fs bound s = start_opened bound (record s { reader = open_reader fs s })

  -- The assignment behind the send.
  abbrev pub mark_last : Bytes → Outcome E (ClientPut E) → Outcome E (ClientPut E)
  mark_last bytes (s, effects) = (
    record s {
      last_packet_sent = if ltb (length bytes) default_data_size then true else s.last_packet_sent;
    },
    effects,
  )

  -- `none` is a read that failed.
  pub send_data : ClientPut E → Option Bytes → Outcome E (ClientPut E)
  unfolding send_packet
  send_data s none = send_error s Errcode.undefined
  send_data s (some bytes) = mark_last bytes (
      send_packet s
        (data_packet (record { op = op_data; block_no = s.last_sent_packet_id; bytes = bytes }))
        true (pos default_retry_counter))

  -- The end of `process_ack_received`, which reads and sends the next block.
  pub send_next_data_packet : ClientPut E → Outcome E (ClientPut E)
  send_next_data_packet s =
      let (result, reader) = read_pointer s.reader default_data_size in
      send_data
        (record s { last_sent_packet_id = (s.last_sent_packet_id + 1) % 65536; reader = reader })
        result

  -- The first acknowledgement settles the endpoint.
  pub settle : ClientPut E → ClientPut E
  settle s =
      if not s.request_complete
      then record s { request_complete = true; server_endpoint = s.in_packet_endpoint }
      else s

  pub finish_or_send : ClientPut E → Outcome E (ClientPut E)
  unfolding terminate
  finish_or_send s = if s.last_packet_sent then terminate s true else send_next_data_packet s

  pub process_ack_received : ClientPut E → PacketAck → Outcome E (ClientPut E)
  process_ack_received s packet =
      if not (s.last_sent_packet_id == packet.block_no) then (s, []) else finish_or_send (settle s)

  -- The `switch` on the op, which is that of the packet's class (Wire/Parser/Sound).
  pub process_packet : ClientPut E → Packet → Outcome E (ClientPut E)
  process_packet s (ack packet) = process_ack_received s packet
  process_packet s (error packet) = process_error_received s packet
  process_packet s other = (s, [])

  module _ ⦃endpoints : EndpointOps E⦄ where
    -- Until the first acknowledgement has come, any source will do.
    pub on_packet_received : ClientPut E → ErrorCode → ℕ → Outcome E (ClientPut E)
    on_packet_received s operation_aborted bytes_received = (s, [])
    on_packet_received s failed bytes_received = terminate s false
    on_packet_received s success bytes_received =
        if s.request_complete && not (endpoints.same s.server_endpoint s.in_packet_endpoint)
        then (s, [])
        else elim (parse_packet (take bytes_received s.in_packet_data)) [
          | none ↦ (s, [])
          | some packet ↦ process_packet s packet
        ]

    -- A datagram arrives: asio fills the buffer, and calls the handler.
    pub receive : ClientPut E → E → Bytes → Outcome E (ClientPut E)
    receive s sender datagram =
        let bytes : Bytes = take max_recv_packet_size datagram in
        on_packet_received (record s { in_packet_data = bytes; in_packet_endpoint = sender })
          success (length bytes)
