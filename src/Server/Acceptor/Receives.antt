-- ===== src/Server/Acceptor/Receives.antt =====
-- What the acceptor hands on to the request handler.
use octnet_tftp.Base.{
  ℕ, ◌≡◌, ◌⊎◌, refl, sym, ap, ◌∙◌, inl, inr, Bool, true, false, Bool-cases, Option-cases, none,
  some, List, [], ◌∷◌, ◌++◌, Bytes, take, take_all, length, ltb, if◌then◌else◌, arith,
}
use mathlib.Core.Bool.{false≢true}
use mathlib.Core.Option.{none-ne-some}
use octnet_tftp.Net.{EndpointOps, ErrorCode, success, receive_from, Outcome}
use octnet_tftp.Wire.Packet.{max_packet_size, Packet}
use octnet_tftp.Wire.Parser.{parse_packet}
use octnet_tftp.Wire.Parser.RoundTrip.{parse_packet_nil}
use octnet_tftp.Server.Registry.{Action, of_acceptor, Actions}
use octnet_tftp.Server.Result.{Exception, system_error, bad_weak_ptr, Result, thrown, left_by}
use octnet_tftp.Server.Acceptor.{
  ServerAcceptor, server_acceptor, start, stop, request_receive, process_initial_packet,
  handle_received, on_packet_received, receive,
}

module _ {E : Type 0} where
  abbrev pub buffered : ServerAcceptor E → E → Bytes → ServerAcceptor E
  buffered s sender datagram = record s {
    packet_buffer = take max_packet_size datagram;
    packet_sender_endpoint = sender;
  }

  -- The next receive, of an acceptor that a `shared_ptr` owns.
  abbrev pub next_receive : ServerAcceptor E → List (Action E)
  next_receive s = if s.is_shared then of_acceptor receive_from ∷ [] else []

  pub stop_closes : (s : ServerAcceptor E) → (stop s).0.socket_is_open ≡ false
  unfolding stop
  stop_closes s = elim (Bool-cases s.socket_is_open) [ inl e ↦ rw e | inr e ↦ simp e ]

  -- An acceptor that no `shared_ptr` owns does not start.
  abbrev pub Fails : Bool → Bool → Result (Outcome E (ServerAcceptor E)) → Type 0
  Fails opens binds result =
      (e : Exception) × (o : Outcome E (ServerAcceptor E)) × (result ≡ thrown e o)
      × (opens ≡ true → binds ≡ true → e ≡ bad_weak_ptr)

  pub start-Fails :
      ⦃endpoints : EndpointOps E⦄ (opens : Bool) (binds : ℕ → Bool) (port : ℕ)
      → Fails opens (binds port) (start opens binds port (server_acceptor false))
  unfolding start request_receive server_acceptor
  start-Fails false binds port = (system_error, _, refl, λ h. absurd (false≢true h))
  start-Fails true binds port = elim (Bool-cases (binds port)) [
    | inl e ↦ rw e (bad_weak_ptr, _, refl, λ h k. refl)
    | inr e ↦ rw e (system_error, _, refl, λ h k. absurd (false≢true k))
  ]

module _ {E H : Type 0} (handle_server_packet : Packet → E → H → Actions E H) where
  abbrev pub Leaves : ServerAcceptor E → Actions E H → Actions E (ServerAcceptor E × H) → Type 0
  Leaves s (h, actions) outcome = outcome ≡ ((s, h), actions ++ next_receive s)

  left_received :
      (s : ServerAcceptor E) (ec : ErrorCode) (n : ℕ) (h : H)
      → Leaves s
          (handle_received handle_server_packet s ec n h)
          (left_by (on_packet_received handle_server_packet s ec n h))
  unfolding on_packet_received request_receive
  left_received s ec n h = elim (Bool-cases s.is_shared) [ inl e ↦ rw e | inr e ↦ rw e ]

  length-positive :
      (bytes : Bytes) (packet : Packet)
      → parse_packet bytes ≡ some packet
      → ltb 0 (length bytes) ≡ true
  length-positive [] packet e = absurd (none-ne-some packet (sym parse_packet_nil ∙ e))
  length-positive (b ∷ bytes) packet e = ground arith

  process_found :
      (bytes : Bytes) (packet : Packet) (sender : E) (h : H)
      → parse_packet bytes ≡ some packet
      → process_initial_packet handle_server_packet bytes sender h
        ≡ handle_server_packet packet sender h
  unfolding process_initial_packet
  process_found bytes packet sender h e = rw (process_initial_packet, e)

  process_missing :
      (bytes : Bytes) (sender : E) (h : H)
      → parse_packet bytes ≡ none
      → process_initial_packet handle_server_packet bytes sender h ≡ (h, [])
  unfolding process_initial_packet
  process_missing bytes sender h e = rw (process_initial_packet, e)

  handle_cases :
      (s : ServerAcceptor E) (sender : E) (datagram : Bytes) (h : H)
      → let handled : Actions E H =
          handle_received handle_server_packet
            (buffered s sender datagram)
            success
            (length (take max_packet_size datagram))
            h in
        (parse_packet (take max_packet_size datagram) ≡ none) × (handled ≡ (h, []))
        ⊎ ((packet : Packet) × (parse_packet (take max_packet_size datagram) ≡ some packet)
            × (handled ≡ handle_server_packet packet sender h))
  unfolding handle_received
  handle_cases s sender datagram h =
      let bytes : Bytes = take max_packet_size datagram in
      let all : take (length bytes) bytes ≡ bytes = take_all (length bytes) bytes (omega arith) in
      elim (Option-cases (parse_packet bytes)) [
        | inr (packet, e) ↦ inr (
          packet,
          e,
          rw (length-positive bytes packet e, all) (process_found bytes packet sender h e),
        )
        | inl e ↦ inl (
          e,
          elim (Bool-cases (ltb 0 (length bytes))) [
            | inl x ↦ rw (x, all) (process_missing bytes sender h e)
            | inr x ↦ rw x
          ],
        )
      ]

  -- A datagram goes to the request handler if its first 4096 bytes are a packet, and only then.
  pub receive_lem :
      (s : ServerAcceptor E) (sender : E) (datagram : Bytes) (h : H)
      → let s' : ServerAcceptor E = buffered s sender datagram in
        let outcome : Actions E (ServerAcceptor E × H) =
          left_by (receive handle_server_packet s sender datagram h) in
        (parse_packet (take max_packet_size datagram) ≡ none) × Leaves s' (h, []) outcome
        ⊎ ((packet : Packet) × (parse_packet (take max_packet_size datagram) ≡ some packet)
            × Leaves s' (handle_server_packet packet sender h) outcome)
  unfolding receive
  receive_lem s sender datagram h =
      let s' : ServerAcceptor E = buffered s sender datagram in
      let n : ℕ = length (take max_packet_size datagram) in
      let left = left_received s' success n h in
      elim (handle_cases s sender datagram h) [
        | inl (e, x) ↦ inl (e, left ∙ ap (λ o. ((s', o.0), o.1 ++ next_receive s')) x)
        | inr (packet, e, x) ↦
            inr (packet, e, left ∙ ap (λ o. ((s', o.0), o.1 ++ next_receive s')) x)
      ]
