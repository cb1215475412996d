-- ===== src/Server/Registry/Sockets/Ends.antt =====
-- What stays of a connection that has ended, and of all of them after the stop of the server.
use octnet_tftp.Base.{
  ℕ, ◌≡◌, sym, ap, ◌∙◌, subst, inl, inr, Bool, true, false, Bool-cases, Option-cases, some, List,
  [], ◌∷◌, ◌==◌, ==_iff,
}
use mathlib.Core.Bool.{false≢true}
use octnet_tftp.Net.{
  EndpointOps, Effect, open_socket, close_socket, send_to, receive_from, start_timer, cancel_timer,
  resolve, cancel_resolve, connection_terminated,
}
use octnet_tftp.Io.Interface.{ReaderOps, WriterOps}
use octnet_tftp.Server.Connection.{
  Connection, Completion, socket_is_open, complete, complete-socket_is_open,
}
use octnet_tftp.Server.Registry.{
  Registry, find, stop_at, unregister, connection_terminated_at, perform, settle, stop_all,
  complete_at,
}
use octnet_tftp.Server.Registry.Set.{find-erase}
use octnet_tftp.Server.Registry.Sockets.{
  IsSound, IsClosed, address_known, store-IsSound, stop_at-IsSound, stop_at-IsClosed,
  stop_at-keeps-IsClosed,
}

module _ {E : Type 0} where
  -- Whether the request handler is told that the connection has ended.
  abbrev pub ends : List (Effect E) → Bool
  ends [] = false
  ends (connection_terminated ∷ effects) = true
  ends (effect ∷ effects) = ends effects

module _ {E R W : Type 0} where
  -- No open socket, and not in the set.
  abbrev pub IsGone : ℕ → Registry E R W → Type 0
  IsGone a s = IsClosed a s × (find a s.connections ≡ false)

  stop_at-connections : (a : ℕ) (s : Registry E R W) → (stop_at a s).0.connections ≡ s.connections
  unfolding stop_at
  stop_at-connections a s = elim (Option-cases (s.objects a)) [
    | inl e ↦ rw (stop_at, e)
    | inr (c, e) ↦ rw (stop_at, e)
  ]

  unregister-IsGone :
      (a : ℕ) (s : Registry E R W) → IsSound s → IsClosed a s → IsGone a (unregister a s)
  unfolding unregister
  unregister-IsGone a s i h = elim (Bool-cases (find a s.connections)) [
    | inl e ↦ rw e (h, find-erase a s.connections i.distinct)
    | inr e ↦ rw e (h, e)
  ]

  terminated-IsGone :
      (a : ℕ) (s : Registry E R W) → IsSound s → IsGone a (connection_terminated_at a s).0
  unfolding connection_terminated_at
  terminated-IsGone a s i = unregister-IsGone a _ (stop_at-IsSound a s i) (stop_at-IsClosed a s)

  terminated-keeps-IsGone :
      (a : ℕ) (s : Registry E R W) → IsGone a s → IsGone a (connection_terminated_at a s).0
  unfolding connection_terminated_at unregister
  terminated-keeps-IsGone a s (h, f) =
      let out : find a (stop_at a s).0.connections ≡ false =
        ap (find a) (stop_at-connections a s) ∙ f in
      rw out (stop_at-keeps-IsClosed a a s h, out)

  perform-keeps-IsGone :
      (a : ℕ) (effects : List (Effect E)) (s : Registry E R W)
      → IsGone a s
      → IsGone a (perform a effects s).0
  unfolding perform
  perform-keeps-IsGone a [] s g = g
  perform-keeps-IsGone a (connection_terminated ∷ effects) s g =
      perform-keeps-IsGone a effects _ (terminated-keeps-IsGone a s g)
  perform-keeps-IsGone a (open_socket ∷ effects) s g = perform-keeps-IsGone a effects s g
  perform-keeps-IsGone a (close_socket ∷ effects) s g = perform-keeps-IsGone a effects s g
  perform-keeps-IsGone a (send_to bytes peer ∷ effects) s g = perform-keeps-IsGone a effects s g
  perform-keeps-IsGone a (receive_from ∷ effects) s g = perform-keeps-IsGone a effects s g
  perform-keeps-IsGone a (start_timer n ∷ effects) s g = perform-keeps-IsGone a effects s g
  perform-keeps-IsGone a (cancel_timer ∷ effects) s g = perform-keeps-IsGone a effects s g
  perform-keeps-IsGone a (resolve host port ∷ effects) s g = perform-keeps-IsGone a effects s g
  perform-keeps-IsGone a (cancel_resolve ∷ effects) s g = perform-keeps-IsGone a effects s g

  perform-IsGone :
      (a : ℕ) (effects : List (Effect E)) (s : Registry E R W)
      → IsSound s
      → ends effects ≡ true
      → IsGone a (perform a effects s).0
  unfolding perform
  perform-IsGone a [] s i e = absurd (false≢true e)
  perform-IsGone a (connection_terminated ∷ effects) s i e =
      perform-keeps-IsGone a effects _ (terminated-IsGone a s i)
  perform-IsGone a (open_socket ∷ effects) s i e = perform-IsGone a effects s i e
  perform-IsGone a (close_socket ∷ effects) s i e = perform-IsGone a effects s i e
  perform-IsGone a (send_to bytes peer ∷ effects) s i e = perform-IsGone a effects s i e
  perform-IsGone a (receive_from ∷ effects) s i e = perform-IsGone a effects s i e
  perform-IsGone a (start_timer n ∷ effects) s i e = perform-IsGone a effects s i e
  perform-IsGone a (cancel_timer ∷ effects) s i e = perform-IsGone a effects s i e
  perform-IsGone a (resolve host port ∷ effects) s i e = perform-IsGone a effects s i e
  perform-IsGone a (cancel_resolve ∷ effects) s i e = perform-IsGone a effects s i e

  stop_all-keeps-IsClosed :
      (addresses : List ℕ) (a : ℕ) (s : Registry E R W)
      → IsClosed a s
      → IsClosed a (stop_all addresses s).0
  unfolding stop_all
  stop_all-keeps-IsClosed [] a s h = h
  stop_all-keeps-IsClosed (b ∷ addresses) a s h =
      stop_all-keeps-IsClosed addresses a _ (stop_at-keeps-IsClosed b a s h)

  stop_all-IsClosed :
      (addresses : List ℕ) (a : ℕ) (s : Registry E R W)
      → find a addresses ≡ true
      → IsClosed a (stop_all addresses s).0
  unfolding stop_all
  stop_all-IsClosed [] a s e = absurd (false≢true e)
  stop_all-IsClosed (b ∷ addresses) a s e = elim (Bool-cases (b == a)) [
    | inl x ↦
        stop_all-keeps-IsClosed addresses a _
          (subst (λ y. IsClosed y (stop_at b s).0) ((==_iff b a).0 x) (stop_at-IsClosed b s))
    | inr x ↦ let rest : find a addresses ≡ true = rw x at e in stop_all-IsClosed addresses a _ rest
  ]

  -- After the server stops its connections, none that it ever made has an open socket. The set is
  -- sound before.
  pub stop_all_closes :
      (s : Registry E R W) → IsSound s → (a : ℕ) → IsClosed a (stop_all s.connections s).0
  stop_all_closes s i a = elim (Bool-cases (find a s.connections)) [
    | inl e ↦ stop_all-IsClosed s.connections a s e
    | inr e ↦ stop_all-keeps-IsClosed s.connections a s (λ c f.
        elim (Bool-cases (socket_is_open c)) [
          | inl o ↦ absurd (false≢true (sym e ∙ i.listed a c f o))
          | inr o ↦ o
        ])
  ]

module _ {E R W : Type 0} ⦃readers : ReaderOps R⦄ ⦃writers : WriterOps W⦄
    ⦃endpoints : EndpointOps E⦄ where
  pub settled_lem :
      (a : ℕ) (k : Completion E) (c : Connection E R W) (s : Registry E R W)
      → s.objects a ≡ some c
      → complete_at a k s ≡ settle a (complete k c) s
  unfolding complete_at
  settled_lem a k c s e = rw (complete_at, e)

  pub kept_listed :
      (a : ℕ) (k : Completion E) (c : Connection E R W) (s : Registry E R W)
      → IsSound s
      → s.objects a ≡ some c
      → socket_is_open (complete k c).0 ≡ true
      → find a s.connections ≡ true
  kept_listed a k c s i e o = i.listed a c e (sym (complete-socket_is_open k c) ∙ o)

  -- When the handler of a completion ends its connection, then the connection is out of the set and
  -- its socket is closed, whatever else the handler asks for. The set is sound before.
  pub complete_at-IsGone :
      (a : ℕ) (k : Completion E) (c : Connection E R W) (s : Registry E R W)
      → IsSound s
      → s.objects a ≡ some c
      → ends (complete k c).1 ≡ true
      → IsGone a (complete_at a k s).0
  unfolding settle
  complete_at-IsGone a k c s i e h =
      subst (λ o. IsGone a o.0) (sym (settled_lem a k c s e))
        (perform-IsGone a (complete k c).1 _
          (store-IsSound a (complete k c).0 s (address_known a c s i e) (kept_listed a k c s i e) i)
          h)
