-- ===== src/Server/Connection.antt =====
-- src/server/connection.hpp: a connection of either class, what the server calls, and the completions
-- of its operations.
pub mod Machine
pub mod Completions
pub mod Pending
pub mod Silence
use octnet_tftp.Base.{ℕ, ◌<◌, ◌≡◌, refl, ap, Bool, true, false, [], ◌∷◌, Option, none, some, Bytes}
use octnet_tftp.Net.{open_socket, EndpointOps, ErrorCode, Outcome}
use octnet_tftp.Io.Interface.{ReaderOps, WriterOps}
use octnet_tftp.Io.Manager.{IoManager}
use octnet_tftp.Server.Result.{
  Result, returned, thrown, system_error, map_result, SocketSetup, bind_fails,
}
use octnet_tftp.Server.ReadConnection
use octnet_tftp.Server.ReadConnection.{ReadConnection}
use octnet_tftp.Server.ReadConnection.Sockets
use octnet_tftp.Server.WriteConnection
use octnet_tftp.Server.WriteConnection.{WriteConnection}
use octnet_tftp.Server.WriteConnection.Sockets as WriteSockets

pub data Connection (E R W : Type 0) : Type 0 where
  reads : ReadConnection E R → Connection E R W
  writes : WriteConnection E W → Connection E R W

-- How an asynchronous operation of a connection ends. A datagram is a receive that succeeds.
pub data Completion (E : Type 0) : Type 0 where
  packet_sent send_timeout : ErrorCode → Completion E
  packet_received : ErrorCode → ℕ → Completion E
  datagram : E → Bytes → Completion E

module _ {E R W : Type 0} where
  abbrev pub as_reads : Outcome E (ReadConnection E R) → Outcome E (Connection E R W)
  as_reads (s, effects) = (reads s, effects)

  abbrev pub as_writes : Outcome E (WriteConnection E W) → Outcome E (Connection E R W)
  as_writes (s, effects) = (writes s, effects)

  abbrev pub socket_is_open : Connection E R W → Bool
  socket_is_open (reads s) = s.socket_is_open
  socket_is_open (writes s) = s.socket_is_open

  pub stop : Connection E R W → Outcome E (Connection E R W)
  stop (reads s) = as_reads (ReadConnection.stop s)
  stop (writes s) = as_writes (WriteConnection.stop s)

  pub stop_closes : (c : Connection E R W) → socket_is_open (stop c).0 ≡ false
  unfolding stop
  stop_closes (reads s) = Sockets.stop_closes s
  stop_closes (writes s) = WriteSockets.stop_closes s

module _ {E R W : Type 0} ⦃readers : ReaderOps R⦄ ⦃writers : WriterOps W⦄ where
  pub start : IoManager R W → SocketSetup → Connection E R W → Result (Outcome E (Connection E R W))
  start m setup (reads s) = map_result as_reads (ReadConnection.start m setup s)
  start m setup (writes s) = map_result as_writes (WriteConnection.start m setup s)

  pub start_reads :
      (m : IoManager R W) (setup : SocketSetup) (s : ReadConnection E R)
      {outcome : Outcome E (ReadConnection E R)}
      → ReadConnection.start m setup s ≡ returned outcome
      → start m setup (reads s) ≡ returned (as_reads outcome)
  unfolding start
  start_reads m setup s e = ap (map_result as_reads) e

  pub start_writes :
      (m : IoManager R W) (setup : SocketSetup) (s : WriteConnection E W)
      {outcome : Outcome E (WriteConnection E W)}
      → WriteConnection.start m setup s ≡ returned outcome
      → start m setup (writes s) ≡ returned (as_writes outcome)
  unfolding start
  start_writes m setup s e = ap (map_result as_writes) e

  pub start_bind_fails :
      (m : IoManager R W) (c : Connection E R W)
      → (c' : Connection E R W) × (start m bind_fails c
          ≡ thrown system_error (c', open_socket ∷ []))
        × (socket_is_open c' ≡ true)
  unfolding start
  start_bind_fails m (reads s) = (_, ap (map_result as_reads) (Sockets.bind_fails_lem m s), refl)
  start_bind_fails m (writes s) =
      (_, ap (map_result as_writes) (WriteSockets.bind_fails_lem m s), refl)

  module _ ⦃endpoints : EndpointOps E⦄ where
    -- The handler of a completion.
    pub complete : Completion E → Connection E R W → Outcome E (Connection E R W)
    complete (packet_sent ec) (reads s) = as_reads (ReadConnection.on_packet_sent s ec)
    complete (packet_sent ec) (writes s) = as_writes (WriteConnection.on_packet_sent s ec)
    complete (send_timeout ec) (reads s) = as_reads (ReadConnection.on_send_timeout s ec)
    complete (send_timeout ec) (writes s) = as_writes (WriteConnection.on_send_timeout s ec)
    complete (packet_received ec n) (reads s) = as_reads (ReadConnection.on_packet_received s ec n)
    complete (packet_received ec n) (writes s) =
        as_writes (WriteConnection.on_packet_received s ec n)
    complete (datagram sender bytes) (reads s) = as_reads (ReadConnection.receive s sender bytes)
    complete (datagram sender bytes) (writes s) = as_writes (WriteConnection.receive s sender bytes)

    pub complete_reads :
        (s : ReadConnection E R) (ec : ErrorCode)
        → complete (packet_sent ec) (reads s) ≡ as_reads (ReadConnection.on_packet_sent s ec)
    unfolding complete
    complete_reads s ec = refl

    -- No handler opens or closes the socket.
    pub complete-socket_is_open :
        (k : Completion E) (c : Connection E R W)
        → socket_is_open (complete k c).0 ≡ socket_is_open c
    unfolding complete
    complete-socket_is_open (packet_sent ec) (reads s) = Sockets.on_packet_sent-Keeps s ec
    complete-socket_is_open (packet_sent ec) (writes s) = WriteSockets.on_packet_sent-Keeps s ec
    complete-socket_is_open (send_timeout ec) (reads s) = Sockets.on_send_timeout-Keeps s ec
    complete-socket_is_open (send_timeout ec) (writes s) = WriteSockets.on_send_timeout-Keeps s ec
    complete-socket_is_open (packet_received ec n) (reads s) =
        Sockets.on_packet_received-Keeps s ec n
    complete-socket_is_open (packet_received ec n) (writes s) =
        WriteSockets.on_packet_received-Keeps s ec n
    complete-socket_is_open (datagram sender bytes) (reads s) = Sockets.receive-Keeps s sender bytes
    complete-socket_is_open (datagram sender bytes) (writes s) =
        WriteSockets.receive-Keeps s sender bytes
