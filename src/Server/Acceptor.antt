-- ===== src/Server/Acceptor.antt =====
-- src/server/server_acceptor.hpp and src/server/request_handler.hpp: the socket for requests. The
-- request handler is any state with a function for a packet.
pub mod Receives
use octnet_tftp.Base.{
  ℕ, ◌≡◌, refl, Bool, true, false, Option, none, some, List, [], ◌∷◌, ◌++◌, map, Bytes, take,
  length, ltb, if◌then◌else◌,
}
use octnet_tftp.Net.{
  EndpointOps, ErrorCode, success, operation_aborted, failed, Effect, open_socket, close_socket,
  receive_from, Outcome, emit,
}
use octnet_tftp.Wire.Packet.{max_packet_size, Packet}
use octnet_tftp.Wire.Parser.{parse_packet}
use octnet_tftp.Server.Result.{system_error, bad_weak_ptr, Result, returned, thrown, map_result}
use octnet_tftp.Server.Registry.{Action, of_acceptor, Actions}

-- `is_shared` tells whether a `shared_ptr` owns the object.
pub record ServerAcceptor (E : Type 0) : Type 0 where
  pub is_shared : Bool
  pub socket_is_open : Bool
  pub packet_buffer : Bytes
  pub packet_sender_endpoint : E

module _ {E : Type 0} where
  pub server_acceptor : ⦃ops : EndpointOps E⦄ → Bool → ServerAcceptor E
  server_acceptor ⦃ops⦄ is_shared = record {
    is_shared = is_shared;
    socket_is_open = false;
    packet_buffer = [];
    packet_sender_endpoint = ops.unspecified;
  }

  -- `shared_from_this` of an object that no `shared_ptr` owns throws.
  pub request_receive : ServerAcceptor E → Result (Outcome E (ServerAcceptor E))
  request_receive s =
      if s.is_shared then returned (s, receive_from ∷ []) else thrown bad_weak_ptr (s, [])

  -- `opens` and `binds` tell whether the socket opens, and whether it binds to a port.
  pub start : Bool → (ℕ → Bool) → ℕ → ServerAcceptor E → Result (Outcome E (ServerAcceptor E))
  unfolding request_receive
  start opens binds server_port s =
      let opened : ServerAcceptor E = record s { socket_is_open = true } in
      if opens
      then if binds server_port
        then map_result (emit open_socket) (request_receive opened)
        else thrown system_error (opened, open_socket ∷ [])
      else thrown system_error (s, [])

  pub stop : ServerAcceptor E → Outcome E (ServerAcceptor E)
  stop s =
      if s.socket_is_open then (record s { socket_is_open = false }, close_socket ∷ []) else (s, [])

  module _ {H : Type 0} (handle_server_packet : Packet → E → H → Actions E H) where
    pub process_initial_packet : Bytes → E → H → Actions E H
    process_initial_packet buffer sender_endpoint h = elim (parse_packet buffer) [
      | none ↦ (h, [])
      | some packet ↦ handle_server_packet packet sender_endpoint h
    ]

    -- A packet is handled only if it came without an error and is not empty.
    pub handle_received : ServerAcceptor E → ErrorCode → ℕ → H → Actions E H
    handle_received s success bytes_received h =
        if ltb 0 bytes_received
        then process_initial_packet (take bytes_received s.packet_buffer) s.packet_sender_endpoint h
        else (h, [])
    handle_received s ec bytes_received h = (h, [])

    -- Whatever came, the next receive is requested.
    pub on_packet_received :
        ServerAcceptor E → ErrorCode → ℕ → H → Result (Actions E (ServerAcceptor E × H))
    on_packet_received s ec bytes_received h =
        let (h', actions) = handle_received s ec bytes_received h in
        map_result (λ o. ((o.0, h'), actions ++ map of_acceptor o.1)) (request_receive s)

    -- A datagram arrives: asio fills the buffer, and calls the handler.
    pub receive : ServerAcceptor E → E → Bytes → H → Result (Actions E (ServerAcceptor E × H))
    receive s sender datagram h =
        let bytes : Bytes = take max_packet_size datagram in
        on_packet_received (record s { packet_buffer = bytes; packet_sender_endpoint = sender })
          success (length bytes) h
