-- ===== src/Server/Registry/Sockets/Runs.antt =====
-- The runs of a server's connections: requests, completions and the stop of the server, in any order.
use octnet_tftp.Base.{
  ℕ, ◌+◌, ◌≡◌, refl, sym, subst, inl, inr, true, Bool-cases, some, List, [], ◌∷◌, All-map, ◌==◌,
  ==_self, arith,
}
use mathlib.Core.Option.{none-ne-some}
use octnet_tftp.Net.{EndpointOps}
use octnet_tftp.Wire.Packet.{Packet, file_req, data_packet, ack, error}
use octnet_tftp.Io.Interface.{ReaderOps, WriterOps}
use octnet_tftp.Io.Manager.{IoManager}
use octnet_tftp.Server.Result.{left_by, SocketSetup}
use octnet_tftp.Server.Connection.{Connection, Completion, socket_is_open, complete}
use octnet_tftp.Server.Connection
use octnet_tftp.Server.Registry.{
  Registry, no_connections, find, store, stop_all, complete_at, connection_created,
  handle_rrq_packet, handle_wrq_packet, handle_server_packet,
}
use octnet_tftp.Server.Registry.Sockets.{
  IsSound, address_known, stop_at-IsSound, settle-IsSound, store-IsSound,
}
use octnet_tftp.Server.Registry.Sockets.Ends.{settled_lem, kept_listed}

module _ {E R W : Type 0} where
  pub stop_all-IsSound :
      (addresses : List ℕ) (s : Registry E R W) → IsSound s → IsSound (stop_all addresses s).0
  unfolding stop_all
  stop_all-IsSound [] s i = i
  stop_all-IsSound (a ∷ addresses) s i = stop_all-IsSound addresses _ (stop_at-IsSound a s i)

  -- The set with room for a new connection, before it is in the heap.
  abbrev grown : Registry E R W → Registry E R W
  grown s = record s {
    next_address = s.next_address + 1;
    connections = s.next_address ∷ s.connections;
  }

  grown-IsSound : (s : Registry E R W) → IsSound s → IsSound (grown s)
  grown-IsSound s i = record {
    distinct = (All-map _ _ (λ a h e. omega arith) s.connections i.known, i.distinct);
    known = (omega arith, All-map _ _ (λ a h. omega arith) s.connections i.known);
    fresh = λ a h. i.fresh a (omega arith);
    listed = λ a c e o. elim (Bool-cases (s.next_address == a)) [
      | inl x ↦ rw x
      | inr x ↦ rw x (i.listed a c e o)
    ];
  }

  pub no_connections-IsSound : IsSound {E = E} {R = R} {W = W} no_connections
  unfolding no_connections
  no_connections-IsSound = record {
    distinct = tt;
    known = tt;
    fresh = λ a h. refl;
    listed = λ a c e o. absurd (none-ne-some c e);
  }

module _ {E R W : Type 0} ⦃readers : ReaderOps R⦄ ⦃writers : WriterOps W⦄
    ⦃endpoints : EndpointOps E⦄ where
  complete_at-IsSound :
      (a : ℕ) (k : Completion E) (c : Connection E R W) (s : Registry E R W)
      → s.objects a ≡ some c
      → IsSound s
      → IsSound (complete_at a k s).0
  complete_at-IsSound a k c s e i =
      subst (λ o. IsSound o.0) (sym (settled_lem a k c s e))
        (settle-IsSound a (complete k c) s (address_known a c s i e) (kept_listed a k c s i e) i)

  module _ (m : IoManager R W) (setups : ℕ → SocketSetup) where
    created-IsSound :
        (c : Connection E R W) (s : Registry E R W)
        → IsSound s
        → IsSound (connection_created m setups c s).0
    unfolding connection_created
    created-IsSound c s i =
        let inserted : Registry E R W = store s.next_address c (grown s) in
        let here : find s.next_address (s.next_address ∷ s.connections) ≡ true =
          rw (==_self s.next_address) in
        let j : IsSound inserted =
          store-IsSound s.next_address c (grown s) (omega arith) (λ o. here) (grown-IsSound s i) in
        settle-IsSound s.next_address (left_by (Connection.start m (setups s.next_address) c))
          inserted (omega arith) (λ o. here) j

    packet-IsSound :
        (packet : Packet) (client : E) (s : Registry E R W)
        → IsSound s
        → IsSound (handle_server_packet m setups packet client s).0
    unfolding handle_server_packet handle_rrq_packet handle_wrq_packet
    packet-IsSound (file_req packet) client s i = elim (Bool-cases (packet.op == 1)) [
      | inl e ↦ rw e (created-IsSound _ s i)
      | inr e ↦ elim (Bool-cases (packet.op == 2)) [
        | inl f ↦ rw (e, f) (created-IsSound _ s i)
        | inr f ↦ rw (e, f) i
      ]
    ]
    packet-IsSound (data_packet packet) client s i = i
    packet-IsSound (ack packet) client s i = i
    packet-IsSound (error packet) client s i = i

    pub data Step (s : Registry E R W) : Registry E R W → Type 0 where
      request_arrives :
          (packet : Packet) (client : E) → Step s (handle_server_packet m setups packet client s).0
      operation_completes :
          (a : ℕ) (k : Completion E) (c : Connection E R W)
          → s.objects a ≡ some c
          → Step s (complete_at a k s).0
      server_stops : Step s (stop_all s.connections s).0

    pub data Reach : Registry E R W → Type 0 where
      here : Reach no_connections
      later : {s s' : Registry E R W} → Reach s → Step s s' → Reach s'

    Step-IsSound : {s s' : Registry E R W} → Step s s' → IsSound s → IsSound s'
    Step-IsSound (request_arrives packet client) i = packet-IsSound packet client _ i
    Step-IsSound (operation_completes a k c e) i = complete_at-IsSound a k c _ e i
    Step-IsSound server_stops i = stop_all-IsSound _ _ i

    -- In every state that requests, completions of operations of connections that were made, and
    -- stops can lead a server to, its set has no connection twice and no address that was not given
    -- yet, where no connection stands; and it has every connection whose socket is open.
    pub Reach-IsSound : {s : Registry E R W} → Reach s → IsSound s
    Reach-IsSound here = no_connections-IsSound
    Reach-IsSound (later r step) = Step-IsSound step (Reach-IsSound r)
