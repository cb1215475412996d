-- ===== src/Server/Registry/Sent.antt =====
-- What is asked of asio for one connection of a server, and what that connection sends.
use octnet_tftp.Base.{
  ℕ, ◌≡◌, refl, ap, ap₂, ◌∙◌, inl, inr, false, Bool-cases, Option-cases, List, [], ◌∷◌, ◌++◌, map,
  Bytes, ◌==◌, ==_iff, ==_self, if◌then◌else◌,
}
use octnet_tftp.Net.{
  EndpointOps, Effect, open_socket, close_socket, send_to, receive_from, start_timer, cancel_timer,
  resolve, cancel_resolve, connection_terminated, sent_to, sent_to-append,
}
use octnet_tftp.Io.Interface.{ReaderOps, WriterOps}
use octnet_tftp.Server.Connection.{Connection}
use octnet_tftp.Server.Connection
use octnet_tftp.Server.Connection.Machine.{stop_quiet}
use octnet_tftp.Server.Registry.{
  Registry, Action, of_connection, of_acceptor, stop_at, connection_terminated_at, perform,
  stop_all,
}

module _ {E : Type 0} where
  -- The effects among the actions that are those of the connection at `a`.
  abbrev pub effects_of : ℕ → List (Action E) → List (Effect E)
  effects_of a [] = []
  effects_of a (of_acceptor effect ∷ actions) = effects_of a actions
  effects_of a (of_connection b effect ∷ actions) =
      let rest = effects_of a actions in if b == a then effect ∷ rest else rest

  effects_of-append :
      (a : ℕ) (xs ys : List (Action E))
      → effects_of a (xs ++ ys) ≡ effects_of a xs ++ effects_of a ys
  effects_of-append a [] ys = refl
  effects_of-append a (of_acceptor effect ∷ xs) ys = effects_of-append a xs ys
  effects_of-append a (of_connection b effect ∷ xs) ys = elim (Bool-cases (b == a)) [
    | inl e ↦ rw (e, effects_of-append a xs ys)
    | inr e ↦ rw (e, effects_of-append a xs ys)
  ]

  own_effects :
      (a : ℕ) (effects : List (Effect E)) → effects_of a (map (of_connection a) effects) ≡ effects
  own_effects a [] = refl
  own_effects a (effect ∷ effects) = rw (==_self a, own_effects a effects)

  other_effects :
      (a b : ℕ) (effects : List (Effect E))
      → (b == a) ≡ false
      → effects_of a (map (of_connection b) effects) ≡ []
  other_effects a b [] h = refl
  other_effects a b (effect ∷ effects) h = rw (h, other_effects a b effects h)

module _ {E : Type 0} ⦃endpoints : EndpointOps E⦄ (a : ℕ) (peer : E) where
  -- The datagrams among the actions that the connection at `a` sends to `peer`.
  abbrev pub sent_from : List (Action E) → List Bytes
  sent_from actions = sent_to peer (effects_of a actions)

  sent_from-append : (xs ys : List (Action E)) → sent_from (xs ++ ys) ≡ sent_from xs ++ sent_from ys
  sent_from-append xs ys =
      ap (sent_to peer) (effects_of-append a xs ys)
      ∙ sent_to-append peer (effects_of a xs) (effects_of a ys)

module _ {E R W : Type 0} ⦃readers : ReaderOps R⦄ ⦃writers : WriterOps W⦄
    ⦃endpoints : EndpointOps E⦄ (a : ℕ) (peer : E) where
  -- A stop sends nothing.
  stop_at_sends : (b : ℕ) (s : Registry E R W) → sent_from a peer (stop_at b s).1 ≡ []
  unfolding stop_at
  stop_at_sends b s = elim (Option-cases (s.objects b)) [
    | inl e ↦ rw (stop_at, e)
    | inr (c, e) ↦ rw (stop_at, e) (stopped b (Connection.stop c).1 (stop_quiet peer c))
  ]
    where
      stopped :
          (b : ℕ) (effects : List (Effect E))
          → sent_to peer effects ≡ []
          → sent_from a peer (map (of_connection b) effects) ≡ []
      stopped b effects h = elim (Bool-cases (b == a)) [
        | inl e ↦
            ap (λ n. sent_from a peer (map (of_connection n) effects)) ((==_iff b a).0 e)
            ∙ ap (sent_to peer) (own_effects a effects)
            ∙ h
        | inr e ↦ ap (sent_to peer) (other_effects a b effects e)
      ]

  pub stop_all_sends :
      (addresses : List ℕ) (s : Registry E R W) → sent_from a peer (stop_all addresses s).1 ≡ []
  unfolding stop_all
  stop_all_sends [] s = refl
  stop_all_sends (b ∷ addresses) s =
      sent_from-append a peer (stop_at b s).1 (stop_all addresses (stop_at b s).0).1
      ∙ ap₂ ◌++◌ (stop_at_sends b s) (stop_all_sends addresses (stop_at b s).0)

  terminated_sends :
      (b : ℕ) (s : Registry E R W) → sent_from a peer (connection_terminated_at b s).1 ≡ []
  unfolding connection_terminated_at
  terminated_sends b s = stop_at_sends b s

  -- The connection at `a` sends what its handler asks for.
  pub performed_sends :
      (effects : List (Effect E)) (s : Registry E R W)
      → sent_from a peer (perform a effects s).1 ≡ sent_to peer effects
  unfolding perform
  performed_sends [] s = refl
  performed_sends (connection_terminated ∷ effects) s =
      let (s', actions) = connection_terminated_at a s in
      sent_from-append a peer actions (perform a effects s').1
      ∙ ap₂ ◌++◌ (terminated_sends a s) (performed_sends effects s')
  performed_sends (open_socket ∷ effects) s = rw (==_self a) (performed_sends effects s)
  performed_sends (close_socket ∷ effects) s = rw (==_self a) (performed_sends effects s)
  performed_sends (send_to bytes receiver ∷ effects) s = rw (==_self a, performed_sends effects s)
  performed_sends (receive_from ∷ effects) s = rw (==_self a) (performed_sends effects s)
  performed_sends (start_timer n ∷ effects) s = rw (==_self a) (performed_sends effects s)
  performed_sends (cancel_timer ∷ effects) s = rw (==_self a) (performed_sends effects s)
  performed_sends (resolve host port ∷ effects) s = rw (==_self a) (performed_sends effects s)
  performed_sends (cancel_resolve ∷ effects) s = rw (==_self a) (performed_sends effects s)

  -- Another connection sends nothing for it.
  pub performed_elsewhere_sends :
      (b : ℕ) (effects : List (Effect E)) (s : Registry E R W)
      → (b == a) ≡ false
      → sent_from a peer (perform b effects s).1 ≡ []
  unfolding perform
  performed_elsewhere_sends b [] s h = refl
  performed_elsewhere_sends b (connection_terminated ∷ effects) s h =
      let (s', actions) = connection_terminated_at b s in
      sent_from-append a peer actions (perform b effects s').1
      ∙ ap₂ ◌++◌ (terminated_sends b s) (performed_elsewhere_sends b effects s' h)
  performed_elsewhere_sends b (open_socket ∷ effects) s h =
      rw h (performed_elsewhere_sends b effects s h)
  performed_elsewhere_sends b (close_socket ∷ effects) s h =
      rw h (performed_elsewhere_sends b effects s h)
  performed_elsewhere_sends b (send_to bytes receiver ∷ effects) s h =
      rw h (performed_elsewhere_sends b effects s h)
  performed_elsewhere_sends b (receive_from ∷ effects) s h =
      rw h (performed_elsewhere_sends b effects s h)
  performed_elsewhere_sends b (start_timer n ∷ effects) s h =
      rw h (performed_elsewhere_sends b effects s h)
  performed_elsewhere_sends b (cancel_timer ∷ effects) s h =
      rw h (performed_elsewhere_sends b effects s h)
  performed_elsewhere_sends b (resolve host port ∷ effects) s h =
      rw h (performed_elsewhere_sends b effects s h)
  performed_elsewhere_sends b (cancel_resolve ∷ effects) s h =
      rw h (performed_elsewhere_sends b effects s h)
