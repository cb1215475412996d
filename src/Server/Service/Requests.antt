-- ===== src/Server/Service/Requests.antt =====
-- What the server does with a datagram at its socket for requests, and at its start and its stop.
use octnet_tftp.Base.{
  Option, ℕ, ◌≤◌, ◌≡◌, ◌⊎◌, sym, ap, ◌∙◌, inl, inr, Bool, true, false, none, some, [], ◌++◌, Bytes,
  take, take_all, length,
}
use mathlib.Core.Option.{none-ne-some, some-injective}
use octnet_tftp.Net.{EndpointOps}
use octnet_tftp.Wire.Packet.{op_rrq, max_packet_size, PacketFileReq, Packet, file_req}
use octnet_tftp.Wire.Builder.{build_packet}
use octnet_tftp.Wire.Parser.{parse_packet}
use octnet_tftp.Wire.Parser.RoundTrip.{parse_packet-build_packet}
use octnet_tftp.Wire.WellFormed.{IsFileReq}
use octnet_tftp.Io.Interface.{ReaderOps, ReaderLaws, WriterOps}
use octnet_tftp.Io.Manager.{IoManager}
use octnet_tftp.Server.Result.{
  Exception, bad_weak_ptr, thrown, left_by, map_result, left_by-map_result, SocketSetup,
  all_succeed,
}
use octnet_tftp.Server.Acceptor.{ServerAcceptor}
use octnet_tftp.Server.Acceptor
use octnet_tftp.Server.Acceptor.Receives.{receive_lem, next_receive, start-Fails}
use octnet_tftp.Server.Acceptor.Receives
use octnet_tftp.Server.Registry.{Registry, Actions, handle_server_packet}
use octnet_tftp.Server.Registry.Requests.{read_request_lem, Answers, created-Answers}
use octnet_tftp.Server.Registry.Sockets.{IsSound, IsClosed}
use octnet_tftp.Server.Registry.Sockets.Ends.{stop_all_closes}
use octnet_tftp.Server.Service.{Server, ServerSettings, server, start, stop, receive, with_both}

module _ {E R W : Type 0} where
  -- A server as it is made does not start, whether its socket opens and binds or not: its start
  -- throws, and where the socket opens and binds, `bad_weak_ptr`.
  pub start_throws :
      ⦃endpoints : EndpointOps E⦄ (settings : ServerSettings) (m : IoManager R W) (opens : Bool)
      (binds : ℕ → Bool)
      → (e : Exception) × (o : Actions E (Server E R W)) × (start opens binds (server settings m)
          ≡ thrown e o)
        × (opens ≡ true → binds settings.server_port ≡ true → e ≡ bad_weak_ptr)
  unfolding start server
  start_throws settings m opens binds =
      let (e, o, f, h) = start-Fails {E = E} opens binds settings.server_port in
      (e, _, ap (map_result _) f, h)

  -- After the stop of a server whose set of connections is sound, its socket is closed, and no
  -- connection that it ever made has an open one.
  pub server_stop_closes :
      (s : Server E R W)
      → IsSound s.registry
      → ((stop s).0.acceptor.socket_is_open ≡ false) × ((a : ℕ) → IsClosed a (stop s).0.registry)
  unfolding stop
  server_stop_closes s i = (Receives.stop_closes s.acceptor, stop_all_closes s.registry i)

module _ {E R W : Type 0} ⦃readers : ReaderOps R⦄ ⦃writers : WriterOps W⦄
    ⦃endpoints : EndpointOps E⦄ (setups : ℕ → SocketSetup) where
  left_lem :
      (s : Server E R W) (sender : E) (datagram : Bytes)
      → left_by (receive setups s sender datagram)
        ≡ with_both s (
            left_by (
              Acceptor.receive
                (handle_server_packet s.io_manager setups)
                s.acceptor
                sender
                datagram
                s.registry))
  unfolding receive
  left_lem s sender datagram = left_by-map_result (with_both s) (
      Acceptor.receive (handle_server_packet s.io_manager setups) s.acceptor sender datagram
        s.registry)

  -- The outcome of the handling of a packet, and the next receive.
  abbrev pub Follows : Server E R W → Actions E (Registry E R W) → Actions E (Server E R W) → Type 0
  Follows s handled outcome =
      (outcome.0.registry ≡ handled.0) × (outcome.1 ≡ handled.1 ++ next_receive s.acceptor)

  follows :
      (s : Server E R W) (sender : E) (datagram : Bytes)
      → let outcome : Actions E (Server E R W) = left_by (receive setups s sender datagram) in
        (parse_packet (take max_packet_size datagram) ≡ none) × Follows s (s.registry, []) outcome
        ⊎ ((packet : Packet) × (parse_packet (take max_packet_size datagram) ≡ some packet)
            × Follows s (handle_server_packet s.io_manager setups packet sender s.registry) outcome)
  follows s sender datagram =
      let left = left_lem s sender datagram in
      elim (receive_lem (handle_server_packet s.io_manager setups) s.acceptor sender datagram
        s.registry) [
          | inl (e, x) ↦
              let same = left ∙ ap (with_both s) x in
              inl (e, (ap (λ o. o.0.registry) same, ap (λ o. o.1) same))
          | inr (packet, e, x) ↦
              let same = left ∙ ap (with_both s) x in
              inr (packet, e, (ap (λ o. o.0.registry) same, ap (λ o. o.1) same))
        ]

  -- A well-formed read request for a file that opens and reads without error, in a datagram of at
  -- most 4096 bytes, is answered: a new connection is made and entered in the set, opens its socket
  -- and sends the first block of the file to the sender of the request, where its socket opens and
  -- binds. The next receive follows if a `shared_ptr` owns the acceptor.
  pub read_request-Answers :
      (laws : ReaderLaws R readers) (s : Server E R W) (client : E) (q : PacketFileReq) (r : R)
      → IsFileReq q
      → q.op ≡ op_rrq
      → length (build_packet (file_req q)) ≤ 4096
      → s.io_manager.create_reader q.filename q.mode ≡ some r
      → readers.is_open r ≡ true
      → laws.broken r ≡ false
      → setups s.registry.next_address ≡ all_succeed
      → let outcome : Actions E (Server E R W) =
          left_by (receive setups s client (build_packet (file_req q))) in
        Answers s.io_manager setups laws client
          (laws.contents r)
          s.registry
          (next_receive s.acceptor)
          (outcome.0.registry, outcome.1)
  read_request-Answers laws s client q r wf op small e o b h =
      let all : take 4096 (build_packet (file_req q)) ≡ build_packet (file_req q) =
        take_all 4096 (build_packet (file_req q)) small in
      let parsed : parse_packet (take 4096 (build_packet (file_req q))) ≡ some (file_req q) =
        ap parse_packet all ∙ parse_packet-build_packet (file_req q) wf in
      let (c, f, x, y, z) =
        created-Answers s.io_manager setups laws q client r s.registry e o b h in
      elim (follows s client (build_packet (file_req q))) [
        | inl (n, _) ↦ absurd (none-ne-some (file_req q) (sym n ∙ parsed))
        | inr (packet, p, g) ↦
            let same : packet ≡ file_req q = some-injective packet (file_req q) (sym p ∙ parsed) in
            let made =
              ap (λ k. handle_server_packet s.io_manager setups k client s.registry) same
              ∙ read_request_lem s.io_manager setups q client s.registry op in
            let whole = g.0 ∙ ap (λ o. o.0) made in
            (
              c,
              f,
              ap (λ k. k.objects s.registry.next_address) whole ∙ x,
              ap (λ k. k.connections) whole ∙ y,
              g.1
                  ∙ ap (λ o. o.1 ++ next_receive s.acceptor) made
                  ∙ ap (λ k. k ++ next_receive s.acceptor) z,
            )
      ]
