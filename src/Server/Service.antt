-- ===== src/Server/Service.antt =====
-- src/server/server.hpp and src/server/server_settings.hpp: the server, its acceptor and its
-- connections.
pub mod Requests
mod Tests
use octnet_tftp.Base.{
  ℕ, ◌≡◌, refl, Bool, true, false, Bool-cases, inl, inr, List, [], ◌∷◌, ◌++◌, Bytes, map,
  if◌then◌else◌,
}
use octnet_tftp.Net.{EndpointOps, Effect, Outcome}
use octnet_tftp.Wire.Packet.{default_tftp_port}
use octnet_tftp.Io.Interface.{ReaderOps, WriterOps}
use octnet_tftp.Io.Manager.{IoManager}
use octnet_tftp.Server.Result.{
  Exception, system_error, bad_weak_ptr, Result, map_result, SocketSetup,
}
use octnet_tftp.Server.Acceptor.{ServerAcceptor, server_acceptor}
use octnet_tftp.Server.Acceptor
use octnet_tftp.Server.Registry.{
  Registry, no_connections, Action, of_acceptor, Actions, stop_all, handle_server_packet,
}

pub record ServerSettings : Type 0 where
  pub server_port : ℕ
  pub root_path : Bytes

pub server_settings : ServerSettings
server_settings = record { server_port = default_tftp_port; root_path = [] }

pub record Server (E R W : Type 0) : Type 0 where
  pub settings : ServerSettings
  pub io_manager : IoManager R W
  pub acceptor : ServerAcceptor E
  pub registry : Registry E R W

module _ {E R W : Type 0} where
  -- The acceptor is made by `make_unique`, so no `shared_ptr` owns it.
  pub server : ⦃ops : EndpointOps E⦄ → ServerSettings → IoManager R W → Server E R W
  server settings io_manager = record {
    settings = settings;
    io_manager = io_manager;
    acceptor = server_acceptor false;
    registry = no_connections;
  }

  -- The acceptor's outcome, in the server.
  abbrev with_acceptor : Server E R W → Outcome E (ServerAcceptor E) → Actions E (Server E R W)
  with_acceptor s (acceptor, effects) = (record s { acceptor = acceptor }, map of_acceptor effects)

  abbrev pub with_both :
      Server E R W → Actions E (ServerAcceptor E × Registry E R W) → Actions E (Server E R W)
  with_both s ((acceptor, registry), actions) =
      (record s { acceptor = acceptor; registry = registry }, actions)

  pub start : Bool → (ℕ → Bool) → Server E R W → Result (Actions E (Server E R W))
  start opens binds s =
      map_result (with_acceptor s) (Acceptor.start opens binds s.settings.server_port s.acceptor)

  pub stop : Server E R W → Actions E (Server E R W)
  stop s =
      let (registry, actions) = stop_all s.registry.connections s.registry in
      let (s', later) =
        with_acceptor (record s { registry = registry }) (Acceptor.stop s.acceptor) in
      (s', actions ++ later)

module _ {E R W : Type 0} ⦃readers : ReaderOps R⦄ ⦃writers : WriterOps W⦄
    ⦃endpoints : EndpointOps E⦄ where
  -- A datagram arrives at the socket for requests; `setups` as for `handle_server_packet`.
  pub receive : (ℕ → SocketSetup) → Server E R W → E → Bytes → Result (Actions E (Server E R W))
  receive setups s sender datagram = map_result (with_both s) (
      Acceptor.receive (handle_server_packet s.io_manager setups) s.acceptor sender datagram
        s.registry)
