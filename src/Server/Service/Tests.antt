-- ===== src/Server/Service/Tests.antt =====
-- The server at concrete requests. An endpoint is a number.
use octnet_tftp.Base.{
  ℕ, suc, ◌≡◌, ◌≢◌, ◌⊎◌, refl, sym, ap, ◌∙◌, subst, ◌≤◌, inl, Bool, true, false, none, some, [],
  ◌∷◌, Bytes, length, codes, ◌==◌, ==_iff, arith,
}
use octnet_tftp.Net.{EndpointOps, success, operation_aborted, failed, open_socket, Outcome}
use octnet_tftp.Net.Pending.{nothing_pending}
use octnet_tftp.Wire.Packet.{op_rrq, PacketFileReq, Packet, file_req}
use octnet_tftp.Wire.Builder.{build_packet}
use octnet_tftp.Wire.Builder.Layout.{build_packet-encoding}
use octnet_tftp.Wire.WellFormed.{IsFileReq}
use octnet_tftp.Io.Manager.{Reader, Writer, IoManager, reader_ops, writer_ops}
use octnet_tftp.Io.Manager.Readers.{reader_laws}
use octnet_tftp.Server.Result.{returned, SocketSetup, bind_fails, all_succeed}
use octnet_tftp.Server.ReadConnection.Sockets.{on_packet_sent_failed}
use octnet_tftp.Server.ReadConnection
use octnet_tftp.Server.ReadConnection.{ReadConnection, read_connection}
use octnet_tftp.Server.ReadConnection.Transfer.{send_block, start-Sent}
use octnet_tftp.Server.Connection.{
  Connection, packet_sent, reads, complete, complete_reads, as_reads, start_reads,
}
use octnet_tftp.Server.Connection.Pending
use octnet_tftp.Server.Connection.Pending.{Running, after, Quiet, send_completes}
use octnet_tftp.Server.Connection.Silence.{still, passes, budget, silence_ends}
use octnet_tftp.Server.Result.{Exception, bad_weak_ptr, thrown, left_by}
use octnet_tftp.Server.Acceptor.{server_acceptor}
use octnet_tftp.Server.Acceptor.Receives.{next_receive}
use octnet_tftp.Server.Registry.{
  Registry, Actions, no_connections, handle_server_packet, complete_at,
}
use octnet_tftp.Server.Registry.Requests.{Answers, read_request_lem, created-Answers}
use octnet_tftp.Server.Registry.Failures.{IsLeftOpen, request-IsLeftOpen}
use octnet_tftp.Server.Registry.Sockets.{IsSound, IsClosed}
use octnet_tftp.Server.Registry.Sockets.Ends.{IsGone, ends, complete_at-IsGone}
use octnet_tftp.Server.Registry.Sockets.Runs.{Reach, here, later, request_arrives, Reach-IsSound}
use octnet_tftp.Server.Service.{Server, server_settings, server, start, stop, receive}
use octnet_tftp.Server.Service.Requests.{start_throws, server_stop_closes, read_request-Answers}

instance abbrev endpoints : EndpointOps ℕ
endpoints = record { same = ◌==◌; same_iff = ==_iff; unspecified = 0 }

abbrev reader : Reader
reader = Reader.file (record {
  handle = some (record { content = codes "hello"; faulty = false; error = false; closes = true });
})

abbrev manager : IoManager Reader Writer
manager = record { create_reader = λ _ _. some reader; create_writer = λ _ _. none }

abbrev request : PacketFileReq
request = record { op = op_rrq; filename = 102 ∷ []; mode = 111 ∷ []; options = [] }

request-IsFileReq : IsFileReq request
request-IsFileReq =
    (inl refl, ((omega arith, omega arith), tt), ((omega arith, omega arith), tt), tt, tt)

abbrev setups : ℕ → SocketSetup
setups address = all_succeed

abbrev refused : ℕ → SocketSetup
refused address = bind_fails

request-IsLeftOpen_example :
    IsLeftOpen no_connections
      (handle_server_packet {E = ℕ} manager refused (file_req request) 7 no_connections)
request-IsLeftOpen_example = request-IsLeftOpen manager refused request 7 no_connections refl refl

abbrev binds : ℕ → Bool
binds address = true

-- A server that has had the request of the client at 7.
abbrev requested : Registry ℕ Reader Writer
requested = (handle_server_packet manager setups (file_req request) 7 no_connections).0

reached : Reach {E = ℕ} manager setups requested
reached = later here (request_arrives (file_req request) 7)

Reach-IsSound_example : IsSound requested
Reach-IsSound_example = Reach-IsSound manager setups reached

answered :
    Answers {E = ℕ} manager setups reader_laws 7
      (codes "hello")
      no_connections
      []
      (handle_server_packet manager setups (file_req request) 7 no_connections)
answered =
    subst (Answers {E = ℕ} manager setups reader_laws 7 (codes "hello") no_connections [])
      (sym (read_request_lem manager setups request 7 no_connections refl))
      (created-Answers manager setups reader_laws request 7 reader no_connections refl refl refl
        refl)

abbrev address : ℕ
address = (no_connections {E = ℕ} {R = Reader} {W = Writer}).next_address

connection_ends : ends (complete {W = Writer} (packet_sent failed) (reads answered.0)).1 ≡ true
connection_ends =
    ap (λ o. ends o.1) (complete_reads {W = Writer} answered.0 failed)
    ∙ ap (λ o. ends o.1) (on_packet_sent_failed answered.0)

complete_at-IsGone_example : IsGone address (complete_at address (packet_sent failed) requested).0
complete_at-IsGone_example =
    complete_at-IsGone address (packet_sent failed) (reads answered.0) requested
      (Reach-IsSound manager setups reached) answered.2 connection_ends

abbrev serving : Server ℕ Reader Writer
serving = record {
  settings = server_settings;
  io_manager = manager;
  acceptor = server_acceptor true;
  registry = requested;
}

server_stop_closes_example :
    ((stop serving).0.acceptor.socket_is_open ≡ false)
    × ((a : ℕ) → IsClosed a (stop serving).0.registry)
server_stop_closes_example = server_stop_closes serving (Reach-IsSound manager setups reached)

start_throws_example :
    (e : Exception) × (o : Actions ℕ (Server ℕ Reader Writer)) × (start true binds
        (server server_settings manager)
      ≡ thrown e o)
    × (true ≡ true → binds server_settings.server_port ≡ true → e ≡ bad_weak_ptr)
start_throws_example = start_throws server_settings manager true binds

abbrev ack_bytes : Bytes
ack_bytes = 0 ∷ 4 ∷ 0 ∷ 1 ∷ []

short : length (build_packet (file_req request)) ≤ 4096
short = rw (build_packet-encoding (file_req request) request-IsFileReq) (omega arith)

read_request-Answers_example :
    Answers manager setups reader_laws 9 (codes "hello") requested (next_receive serving.acceptor) (
      (left_by (receive setups serving 9 (build_packet (file_req request)))).0.registry,
      (left_by (receive setups serving 9 (build_packet (file_req request)))).1,
    )
read_request-Answers_example =
    read_request-Answers setups reader_laws serving 9 request reader request-IsFileReq refl short
      refl refl refl refl

-- A read connection that has started: its first block is under way.
begun :
    (s : ReadConnection ℕ Reader) × (ReadConnection.start manager all_succeed
        (read_connection request 7)
      ≡ returned (s, open_socket ∷ send_block reader_laws 7 (codes "hello") 0 ∷ []))
begun = let (s, e, f) = start-Sent reader_laws manager request 7 reader refl refl refl in (s, e)

abbrev outcome : Outcome ℕ (Connection ℕ Reader Writer)
outcome = as_reads (begun.0, open_socket ∷ send_block reader_laws 7 (codes "hello") 0 ∷ [])

abbrev sent : Running ℕ Reader Writer
sent =
    after (complete (packet_sent success) (reads begun.0))
      (record (after outcome nothing_pending).pending { sends = 0 })

not_aborted : success ≢ operation_aborted
not_aborted e = cc

silence_ends_example :
    (1 ≤ suc (budget (after outcome nothing_pending)))
    × ((sent.pending.ended ≡ true) ⊎ ((r : Running ℕ Reader Writer) × Quiet sent r))
silence_ends_example =
    silence_ends manager (reads (read_connection request 7)) outcome 1
      (after outcome nothing_pending) sent
      (start_reads manager all_succeed (read_connection request 7) begun.1) Pending.here
      (passes still refl (send_completes 0 success refl not_aborted))
