-- ===== src/Server/Registry.antt =====
-- src/server/server.hpp: the connections of a server, by what the request handler does with them.
-- An address stands for a pointer, and `objects` for the heap. The order in which `std::set` has its
-- pointers is not the program's, so the set is a list in any order. The calls that a handler makes
-- of the server, in its last step, are made here on the state that it leaves.

pub mod Set
pub mod Sockets
pub mod Requests
pub mod Failures
pub mod Sent
pub mod Apart
pub mod Machine
use octnet_tftp.Base.{
  ℕ, ◌+◌, Bool, true, false, Option, none, some, List, [], ◌∷◌, ◌++◌, map, ◌==◌, if◌then◌else◌,
}
use octnet_tftp.Net.{EndpointOps, Effect, connection_terminated, Outcome}
use octnet_tftp.Wire.Packet.{op_rrq, op_wrq, PacketFileReq, Packet, file_req}
use octnet_tftp.Io.Interface.{ReaderOps, WriterOps}
use octnet_tftp.Io.Manager.{IoManager}
use octnet_tftp.Server.ReadConnection.{read_connection}
use octnet_tftp.Server.WriteConnection.{write_connection}
use octnet_tftp.Server.Result.{left_by, SocketSetup}
use octnet_tftp.Server.Connection.{Connection, Completion}
use octnet_tftp.Server.Connection

pub record Registry (E R W : Type 0) : Type 0 where
  pub next_address : ℕ
  pub objects : ℕ → Option (Connection E R W)
  pub connections : List ℕ

-- What is asked of asio, and for whom.
pub data Action (E : Type 0) : Type 0 where
  of_connection : ℕ → Effect E → Action E
  of_acceptor : Effect E → Action E

abbrev pub Actions : Type 0 → Type 0 → Type 0
Actions E S = S × List (Action E)

-- `find` and `erase` of the set.
abbrev pub find : ℕ → List ℕ → Bool
find a [] = false
find a (b ∷ bs) = if b == a then true else find a bs

abbrev pub erase : ℕ → List ℕ → List ℕ
erase a [] = []
erase a (b ∷ bs) = let rest = erase a bs in if b == a then bs else b ∷ rest

module _ {E R W : Type 0} where
  -- The server's members, as they are first.
  pub no_connections : Registry E R W
  no_connections = record { next_address = 0; objects = λ a. none; connections = [] }

  abbrev pub store : ℕ → Connection E R W → Registry E R W → Registry E R W
  store address c s = record s { objects = λ a. if address == a then some c else s.objects a }

  -- `stop` of the connection at an address.
  pub stop_at : ℕ → Registry E R W → Actions E (Registry E R W)
  stop_at address s = elim (s.objects address) [
    | none ↦ (s, [])
    | some c ↦
        let (c', effects) = Connection.stop c in
        (store address c' s, map (of_connection address) effects)
  ]

  pub unregister : ℕ → Registry E R W → Registry E R W
  unregister address s =
      if find address s.connections
      then record s { connections = erase address s.connections }
      else s

  pub connection_terminated_at : ℕ → Registry E R W → Actions E (Registry E R W)
  connection_terminated_at address s =
      let (s', actions) = stop_at address s in (unregister address s', actions)

  -- The effects of the connection at an address, a call of the server among them.
  pub perform : ℕ → List (Effect E) → Registry E R W → Actions E (Registry E R W)
  perform address [] s = (s, [])
  perform address (connection_terminated ∷ effects) s =
      let (s', actions) = connection_terminated_at address s in
      let (s'', later) = perform address effects s' in (s'', actions ++ later)
  perform address (effect ∷ effects) s =
      let (s', later) = perform address effects s in (s', of_connection address effect ∷ later)

  -- What a method of the connection at an address leaves.
  pub settle : ℕ → Outcome E (Connection E R W) → Registry E R W → Actions E (Registry E R W)
  settle address (c, effects) s = perform address effects (store address c s)

  -- The loop of `server::stop`.
  pub stop_all : List ℕ → Registry E R W → Actions E (Registry E R W)
  stop_all [] s = (s, [])
  stop_all (address ∷ addresses) s =
      let (s', actions) = stop_at address s in
      let (s'', later) = stop_all addresses s' in (s'', actions ++ later)

module _ {E R W : Type 0} ⦃readers : ReaderOps R⦄ ⦃writers : WriterOps W⦄
    ⦃endpoints : EndpointOps E⦄ where
  pub complete_at : ℕ → Completion E → Registry E R W → Actions E (Registry E R W)
  complete_at address k s = elim (s.objects address) [
    | none ↦ (s, [])
    | some c ↦ settle address (Connection.complete k c) s
  ]

  -- `setups` tells how the socket of the connection at an address is set up. What the start throws is
  -- caught by `handle_server_packet`: the connection stays in the set, as the start left it.
  module _ (m : IoManager R W) (setups : ℕ → SocketSetup) where
    pub connection_created : Connection E R W → Registry E R W → Actions E (Registry E R W)
    connection_created c s =
        let address : ℕ = s.next_address in
        let inserted : Registry E R W = record (store address c s) {
          next_address = address + 1;
          connections = address ∷ s.connections;
        } in
        settle address (left_by (Connection.start m (setups address) c)) inserted

    pub handle_rrq_packet : PacketFileReq → E → Registry E R W → Actions E (Registry E R W)
    handle_rrq_packet packet client_endpoint =
        connection_created (Connection.reads (read_connection packet client_endpoint))

    pub handle_wrq_packet : PacketFileReq → E → Registry E R W → Actions E (Registry E R W)
    handle_wrq_packet packet client_endpoint =
        connection_created (Connection.writes (write_connection packet client_endpoint))

    pub handle_server_packet : Packet → E → Registry E R W → Actions E (Registry E R W)
    handle_server_packet (file_req packet) client_endpoint s =
        if packet.op == op_rrq
        then handle_rrq_packet packet client_endpoint s
        else if packet.op == op_wrq
        then handle_wrq_packet packet client_endpoint s
        else (s, [])
    handle_server_packet other client_endpoint s = (s, [])
