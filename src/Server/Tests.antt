-- ===== src/Server/Tests.antt =====
-- Connections at concrete requests. An endpoint is a number.
use octnet_tftp.Base.{
  ℕ, ◌≡◌, ◌⊎◌, refl, true, false, [], ◌∷◌, ◌++◌, some, none, codes, take, replicate, ◌==◌, ==_iff,
  arith,
}
use octnet_tftp.Base.Int.{pos}
use octnet_tftp.Net.{
  EndpointOps, success, send_to, open_socket, cancel_timer, connection_terminated,
}
use octnet_tftp.Wire.Errcode
use octnet_tftp.Blocks.Datagrams.{error_datagram}
use octnet_tftp.Server.Result.{returned, all_succeed}
use octnet_tftp.Server.ReadConnection.Errors
use octnet_tftp.Server.WriteConnection.Errors as WriteErrors
use octnet_tftp.Wire.Packet.{
  PacketFileReq, PacketData, op_rrq, op_wrq, op_data, max_recv_packet_size, Packet,
}
use octnet_tftp.Wire.Parser.{parse_packet}
use octnet_tftp.Io.File.{FileWriter}
use octnet_tftp.Io.File.Laws.{write_file_full}
use octnet_tftp.Io.Manager.{Reader, Writer, IoManager, reader_ops, writer_ops}
use octnet_tftp.Io.Manager.Readers.{reader_laws}
use octnet_tftp.Io.Manager.Writers.{writer_laws}
use octnet_tftp.Server.ReadConnection.{ReadConnection}
use octnet_tftp.Server.ReadConnection
use octnet_tftp.Server.ReadConnection.Transfer.{start-Serves, Serves}
use octnet_tftp.Server.ReadConnection.Events.{
  timeouts, timeouts_end, receive_cases, buffered, IsAwaited,
}
use octnet_tftp.Server.WriteConnection.{WriteConnection}
use octnet_tftp.Server.WriteConnection
use octnet_tftp.Server.WriteConnection.Transfer.{start_takes, TakesFile}
use octnet_tftp.Server.WriteConnection.Events

instance abbrev endpoints : EndpointOps ℕ
endpoints = record { same = ◌==◌; same_iff = ==_iff; unspecified = 0 }

abbrev reader : Reader
reader = Reader.file (record {
  handle = some (record { content = codes "hello"; faulty = false; error = false; closes = true });
})

abbrev writer : Writer
writer = Writer.file (record { handle = some (record { written = []; room = 100; closes = true }) })

abbrev manager : IoManager Reader Writer
manager = record { create_reader = λ _ _. some reader; create_writer = λ _ _. some writer }

abbrev request : ℕ → PacketFileReq
request op = record { op = op; filename = codes "f"; mode = codes "octet"; options = [] }

start-Serves_example : Serves {E = ℕ} reader_laws manager (request op_rrq) 7 (codes "hello")
start-Serves_example = start-Serves reader_laws manager (request op_rrq) 7 reader refl refl refl

-- The block comes twice, and one out of turn before it.
abbrev packet : ℕ → PacketData
packet n = record { op = op_data; block_no = n; bytes = codes "hi" }

start_takes_example :
    TakesFile {E = ℕ} writer_laws manager
      (request op_wrq)
      7
      (false, ([], false))
      (packet 2 ∷ packet 1 ∷ packet 1 ∷ [])
start_takes_example =
    start_takes writer_laws manager (request op_wrq) 7 writer (packet 2 ∷ packet 1 ∷ packet 1 ∷ [])
      refl refl (omega arith)

abbrev reading : ReadConnection ℕ Reader
reading = record {
  request_packet = request op_rrq;
  client_endpoint = 7;
  reader = some reader;
  last_packet_sent = false;
  last_sent_packet_id = 1;
  response_expected = true;
  retry_counter = pos 5;
  out_packet_data = 0 ∷ 3 ∷ 0 ∷ 1 ∷ [];
  in_packet_data = [];
  in_packet_endpoint = 0;
  socket_is_open = true;
}

timeouts_end_example :
    timeouts 5 reading ≡ replicate 4 (send_to (0 ∷ 3 ∷ 0 ∷ 1 ∷ []) 7) ++ connection_terminated ∷ []
timeouts_end_example = timeouts_end 4 reading refl

receive_cases_example :
    (ReadConnection.receive reading 8 (0 ∷ 4 ∷ 0 ∷ 1 ∷ [])
      ≡ (buffered reading 8 (0 ∷ 4 ∷ 0 ∷ 1 ∷ []), []))
    ⊎ ((8 ≡ reading.client_endpoint)
        × ((p : Packet) × (parse_packet (take max_recv_packet_size (0 ∷ 4 ∷ 0 ∷ 1 ∷ [])) ≡ some p)
            × IsAwaited reading p))
receive_cases_example = receive_cases reading 8 (0 ∷ 4 ∷ 0 ∷ 1 ∷ [])

abbrev writing : WriteConnection ℕ Writer
writing = record {
  request_packet = request op_wrq;
  client_endpoint = 7;
  writer = some writer;
  next_expected_packet_id = 1;
  response_expected = true;
  retry_counter = pos 5;
  out_packet_data = 0 ∷ 4 ∷ 0 ∷ 0 ∷ [];
  in_packet_data = [];
  in_packet_endpoint = 0;
  socket_is_open = true;
}

write_timeouts_end_example :
    Events.timeouts 5 writing
    ≡ replicate 4 (send_to (0 ∷ 4 ∷ 0 ∷ 0 ∷ []) 7) ++ connection_terminated ∷ []
write_timeouts_end_example = Events.write_timeouts_end 4 writing refl

write_receive_cases_example :
    (WriteConnection.receive writing 8 (0 ∷ 3 ∷ 0 ∷ 1 ∷ [])
      ≡ (Events.buffered writing 8 (0 ∷ 3 ∷ 0 ∷ 1 ∷ []), []))
    ⊎ ((8 ≡ writing.client_endpoint)
        × ((p : Packet) × (parse_packet (take max_recv_packet_size (0 ∷ 3 ∷ 0 ∷ 1 ∷ [])) ≡ some p)
            × Events.IsAwaited writing p))
write_receive_cases_example = Events.write_receive_cases writing 8 (0 ∷ 3 ∷ 0 ∷ 1 ∷ [])

abbrev empty_manager : IoManager Reader Writer
empty_manager = record { create_reader = λ _ _. none; create_writer = λ _ _. none }

read_start-Refuses_example :
    (s : ReadConnection ℕ Reader) × (ReadConnection.start empty_manager all_succeed
        (ReadConnection.read_connection (request op_rrq) 7)
      ≡ returned (
        s,
        open_socket
            ∷ send_to (error_datagram Errcode.access_violation (codes "invalid path or mode")) 7
            ∷ [],
      ))
    × (ReadConnection.on_packet_sent s success ≡ (s, connection_terminated ∷ []))
read_start-Refuses_example =
    Errors.read_start-Refuses empty_manager (request op_rrq) 7
      (Errcode.access_violation, codes "invalid path or mode") refl

write_start-Refuses_example :
    (s : WriteConnection ℕ Writer) × (WriteConnection.start empty_manager all_succeed
        (WriteConnection.write_connection (request op_wrq) 7)
      ≡ returned (
        s,
        open_socket
            ∷ send_to (error_datagram Errcode.access_violation (codes "invalid path")) 7
            ∷ [],
      ))
    × (WriteConnection.on_packet_sent s success ≡ (s, connection_terminated ∷ []))
write_start-Refuses_example =
    WriteErrors.write_start-Refuses empty_manager (request op_wrq) 7
      (Errcode.access_violation, codes "invalid path") refl

-- No room is left.
abbrev full_file : FileWriter
full_file = record { handle = some (record { written = []; room = 0; closes = true }) }

abbrev full : Writer
full = Writer.file full_file

abbrev failing : WriteConnection ℕ Writer
failing = record writing { writer = some full }

write_fails : (writer_ops.write full (packet 1).bytes).0 ≡ false
write_fails = write_file_full full_file.handle (packet 1).bytes refl (omega arith)

write_failed-Refuses_example :
    (s : WriteConnection ℕ Writer) × (WriteConnection.process_data_received failing (packet 1) ≡ (
      s,
      cancel_timer ∷ send_to (error_datagram Errcode.disk_full (codes "write failed")) 7 ∷ [],
    ))
    × (WriteConnection.on_packet_sent s success ≡ (s, connection_terminated ∷ []))
write_failed-Refuses_example =
    WriteErrors.write_failed-Refuses failing (packet 1) full refl (omega arith) refl write_fails
