-- ===== src/Server/Registry/Apart.antt =====
-- src/server/server.hpp: a property of the connection at one address, while others are at work and
-- connections are stopped.
use octnet_tftp.Base.{
  ℕ, ◌<◌, ◌≡◌, sym, ap, ◌∙◌, subst, inl, inr, false, Bool-cases, Option-cases, some, List, [], ◌∷◌,
  ◌==◌, ==_iff, ==_self,
}
use mathlib.Core.Option.{some-injective}
use octnet_tftp.Net.{
  Effect, open_socket, close_socket, send_to, receive_from, start_timer, cancel_timer, resolve,
  cancel_resolve, connection_terminated, Outcome,
}
use octnet_tftp.Server.Connection.{Connection}
use octnet_tftp.Server.Connection
use octnet_tftp.Server.Registry.{
  Registry, find, store, stop_at, unregister, connection_terminated_at, perform, settle, stop_all,
}
use octnet_tftp.Server.Registry.Sockets.{stop_at_found, stop_at_missing}

module _ {E R W : Type 0} (a : ℕ) where
  -- There is a connection at `a`, and it has the property.
  abbrev pub Holds : (Connection E R W → Type 0) → Registry E R W → Type 0
  Holds P s = (a < s.next_address) × ((c : Connection E R W) × (s.objects a ≡ some c) × P c)

  pub stored-Holds :
      (P : Connection E R W → Type 0) (c : Connection E R W) (s : Registry E R W)
      → a < s.next_address
      → P c
      → Holds P (store a c s)
  stored-Holds P c s h p = (h, (c, rw (==_self a), p))

  pub elsewhere-Holds :
      (P : Connection E R W → Type 0) (b : ℕ) (c : Connection E R W) (s : Registry E R W)
      → (b == a) ≡ false
      → Holds P s
      → Holds P (store b c s)
  elsewhere-Holds P b c s h (l, (d, e, p)) = (l, (d, rw h e, p))

  module _ (P : Connection E R W → Type 0)
      (stays : (c : Connection E R W) → P c → P (Connection.stop c).0) where
    pub stop_at-Holds : (b : ℕ) (s : Registry E R W) → Holds P s → Holds P (stop_at b s).0
    stop_at-Holds b s (l, (c, e, p)) = elim (Option-cases (s.objects b)) [
      | inl f ↦ subst (Holds P) (sym (stop_at_missing b s f)) (l, (c, e, p))
      | inr (d, f) ↦ subst (Holds P) (sym (stop_at_found b d s f)) (elim (Bool-cases (b == a)) [
        | inr x ↦ elsewhere-Holds P b (Connection.stop d).0 s x (l, (c, e, p))
        | inl x ↦
            let y : b ≡ a = (==_iff b a).0 x in
            let same : c ≡ d = some-injective c d (sym e ∙ ap s.objects (sym y) ∙ f) in
            subst (λ n. Holds P (store n (Connection.stop d).0 s)) (sym y)
              (stored-Holds P (Connection.stop d).0 s l (stays d (subst P same p)))
      ])
    ]

    unregister-Holds : (b : ℕ) (s : Registry E R W) → Holds P s → Holds P (unregister b s)
    unfolding unregister
    unregister-Holds b s h = elim (Bool-cases (find b s.connections)) [
      | inl e ↦ rw e h
      | inr e ↦ rw e h
    ]

    pub perform-Holds :
        (b : ℕ) (effects : List (Effect E)) (s : Registry E R W)
        → Holds P s
        → Holds P (perform b effects s).0
    unfolding perform connection_terminated_at
    perform-Holds b [] s h = h
    perform-Holds b (connection_terminated ∷ effects) s h =
        perform-Holds b effects _ (unregister-Holds b _ (stop_at-Holds b s h))
    perform-Holds b (open_socket ∷ effects) s h = perform-Holds b effects s h
    perform-Holds b (close_socket ∷ effects) s h = perform-Holds b effects s h
    perform-Holds b (send_to bytes peer ∷ effects) s h = perform-Holds b effects s h
    perform-Holds b (receive_from ∷ effects) s h = perform-Holds b effects s h
    perform-Holds b (start_timer n ∷ effects) s h = perform-Holds b effects s h
    perform-Holds b (cancel_timer ∷ effects) s h = perform-Holds b effects s h
    perform-Holds b (resolve host port ∷ effects) s h = perform-Holds b effects s h
    perform-Holds b (cancel_resolve ∷ effects) s h = perform-Holds b effects s h

    pub stop_all-Holds :
        (addresses : List ℕ) (s : Registry E R W) → Holds P s → Holds P (stop_all addresses s).0
    unfolding stop_all
    stop_all-Holds [] s h = h
    stop_all-Holds (b ∷ addresses) s h = stop_all-Holds addresses _ (stop_at-Holds b s h)

    pub settled_elsewhere-Holds :
        (b : ℕ) (outcome : Outcome E (Connection E R W)) (s : Registry E R W)
        → (b == a) ≡ false
        → Holds P s
        → Holds P (settle b outcome s).0
    unfolding settle
    settled_elsewhere-Holds b (c, effects) s x h =
        perform-Holds b effects _ (elsewhere-Holds P b c s x h)

    pub settled-Holds :
        (outcome : Outcome E (Connection E R W)) (s : Registry E R W)
        → a < s.next_address
        → P outcome.0
        → Holds P (settle a outcome s).0
    unfolding settle
    settled-Holds (c, effects) s l p = perform-Holds a effects _ (stored-Holds P c s l p)
