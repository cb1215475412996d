-- ===== src/Server/Registry/Machine.antt =====
-- src/server/server.hpp: a whole server as a machine of the network, by one of its connections, while
-- requests come, other connections are at work, and the server is stopped.
pub mod Promises
use octnet_tftp.Base.{
  ℕ, suc, ◌+◌, ◌≤◌, ◌<◌, ◌≡◌, ◌≢◌, ◌⊎◌, refl, sym, ap, ◌∙◌, subst, inl, inr, Bool, true, false,
  Option-cases, some, List, [], ◌∷◌, Bytes, ◌==◌, ==_ne, arith,
}
use mathlib.Core.Option.{some-injective}
use octnet_tftp.Net.{EndpointOps, success, Outcome, sent_to, to_peer}
use octnet_tftp.Wire.Packet.{Packet}
use octnet_tftp.Io.Interface.{ReaderOps, WriterOps}
use octnet_tftp.Io.Manager.{IoManager}
use octnet_tftp.Network.{Machine, SenderLaws, ReceiverLaws}
use octnet_tftp.Server.Result.{returned, left_by, SocketSetup}
use octnet_tftp.Server.Connection.{Connection, Completion, send_timeout, datagram, complete}
use octnet_tftp.Server.Connection
use octnet_tftp.Server.Connection.Machine.{IsOther, connection_machine, completes, stops}
use octnet_tftp.Server.Connection.Machine as Alone
use octnet_tftp.Server.Registry.{
  Registry, Action, Actions, store, perform, settle, stop_all, complete_at, connection_created,
  handle_server_packet,
}
use octnet_tftp.Server.Registry.Requests.{packet_cases, created_lem}
use octnet_tftp.Server.Registry.Sockets.Ends.{settled_lem}
use octnet_tftp.Server.Registry.Apart.{
  Holds, elsewhere-Holds, settled-Holds, settled_elsewhere-Holds, stop_all-Holds,
}
use octnet_tftp.Server.Registry.Sent.{
  sent_from, stop_all_sends, performed_sends, performed_elsewhere_sends,
}

module _ {E R W : Type 0} ⦃readers : ReaderOps R⦄ ⦃writers : WriterOps W⦄
    ⦃endpoints : EndpointOps E⦄ (m : IoManager R W) (setups : ℕ → SocketSetup) (a : ℕ)
    (peer : E) where
  -- What an action of the server leaves: its connections, and what the one at `a` sends to its client.
  abbrev pub from_address : Actions E (Registry E R W) → Registry E R W × List Bytes
  from_address (s, actions) = (s, sent_from a peer actions)

  -- A packet comes to the socket for requests, an operation of another connection completes, or one
  -- of the connection itself that is neither a datagram of the client nor a timeout, or the server
  -- stops its connections.
  pub data Other (s : Registry E R W) : Registry E R W × List Bytes → Type 0 where
    request_arrives :
        (packet : Packet) (client : E)
        → Other s (from_address (handle_server_packet m setups packet client s))
    completes_elsewhere :
        (b : ℕ) (k : Completion E) → (b == a) ≡ false → Other s (from_address (complete_at b k s))
    completes_here :
        (k : Completion E) → IsOther peer k → Other s (from_address (complete_at a k s))
    server_stops : Other s (from_address (stop_all s.connections s))

  -- The server as the client of the connection at `a` knows it.
  abbrev pub server_machine : Machine (Registry E R W)
  server_machine = record {
    on_datagram = λ s bytes. from_address (complete_at a (datagram peer bytes) s);
    on_timeout = λ s. from_address (complete_at a (send_timeout success) s);
    others = Other;
  }

  -- What is left of an action: the property of the connection, and the datagrams that it sends.
  abbrev pub Leaves : (Connection E R W → Type 0) → List Bytes → Actions E (Registry E R W) → Type 0
  Leaves P out left = Holds a P left.0 × (sent_from a peer left.1 ≡ out)

  module _ (P : Connection E R W → Type 0)
      (stays : (c : Connection E R W) → P c → P (Connection.stop c).0) where
    settled-Leaves :
        (outcome : Outcome E (Connection E R W)) (s : Registry E R W)
        → a < s.next_address
        → P outcome.0
        → Leaves P (sent_to peer outcome.1) (settle a outcome s)
    unfolding settle
    settled-Leaves (c, effects) s l p =
        (settled-Holds a P stays (c, effects) s l p, performed_sends a peer effects (store a c s))

    elsewhere-Leaves :
        (b : ℕ) (outcome : Outcome E (Connection E R W)) (s : Registry E R W)
        → (b == a) ≡ false
        → Holds a P s
        → Leaves P [] (settle b outcome s)
    unfolding settle
    elsewhere-Leaves b (c, effects) s x h = (
      settled_elsewhere-Holds a P stays b (c, effects) s x h,
      performed_elsewhere_sends a peer b effects (store b c s) x,
    )

    pub completed-Leaves :
        (c : Connection E R W) (k : Completion E) (s : Registry E R W)
        → a < s.next_address
        → s.objects a ≡ some c
        → P (complete k c).0
        → Leaves P (sent_to peer (complete k c).1) (complete_at a k s)
    completed-Leaves c k s l e p =
        subst (Leaves P (sent_to peer (complete k c).1)) (sym (settled_lem a k c s e))
          (settled-Leaves (complete k c) s l p)

    pub completed_elsewhere-Leaves :
        (b : ℕ) (k : Completion E) (s : Registry E R W)
        → (b == a) ≡ false
        → Holds a P s
        → Leaves P [] (complete_at b k s)
    unfolding complete_at
    completed_elsewhere-Leaves b k s x h = elim (Option-cases (s.objects b)) [
      | inl e ↦ rw (complete_at, e) (h, refl)
      | inr (c, e) ↦
          subst (Leaves P []) (sym (settled_lem b k c s e))
            (elsewhere-Leaves b (complete k c) s x h)
    ]

    created-Leaves :
        (c : Connection E R W) (s : Registry E R W)
        → Holds a P s
        → Leaves P [] (connection_created m setups c s)
    unfolding connection_created
    created-Leaves c s (l, h) =
        let x : (s.next_address == a) ≡ false = ==_ne _ _ (λ e. omega arith) in
        let inserted : Registry E R W = record (store s.next_address c s) {
          next_address = s.next_address + 1;
          connections = s.next_address ∷ s.connections;
        } in
        let (l', h') = elsewhere-Holds a P s.next_address c s x (l, h) in
        elsewhere-Leaves s.next_address (left_by (Connection.start m (setups s.next_address) c))
          inserted x (omega arith, h')

    -- The connection at `a` is the one that has just been made.
    pub made-Leaves :
        (c : Connection E R W) (s : Registry E R W) {outcome : Outcome E (Connection E R W)}
        → s.next_address ≡ a
        → Connection.start m (setups s.next_address) c ≡ returned outcome
        → P outcome.0
        → Leaves P (sent_to peer outcome.1) (connection_created m setups c s)
    made-Leaves c s {outcome} x e p =
        let inserted : Registry E R W = record (store s.next_address c s) {
          next_address = s.next_address + 1;
          connections = s.next_address ∷ s.connections;
        } in
        subst (Leaves P (sent_to peer outcome.1))
          (sym (created_lem m setups c s e ∙ ap (λ b. settle b outcome inserted) x))
          (settled-Leaves outcome inserted (omega arith) p)

    pub request-Leaves :
        (packet : Packet) (client : E) (s : Registry E R W)
        → Holds a P s
        → Leaves P [] (handle_server_packet m setups packet client s)
    request-Leaves packet client s h = elim (packet_cases m setups packet client s) [
      | inl (_, e) ↦ subst (Leaves P []) (sym e) (h, refl)
      | inr (q, e, r) ↦ elim r [
        | inl (o, f) ↦ subst (Leaves P []) (sym f) (created-Leaves _ s h)
        | inr (o, f) ↦ subst (Leaves P []) (sym f) (created-Leaves _ s h)
      ]
    ]
