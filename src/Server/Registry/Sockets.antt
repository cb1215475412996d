-- ===== src/Server/Registry/Sockets.antt =====
-- The invariant of the connections of a server: which are in the set, and whose sockets are open.
pub mod Ends
pub mod Runs
use octnet_tftp.Base.{
  ℕ, ◌+◌, ◌≤◌, ◌<◌, ◌≡◌, ◌≢◌, ◌⊎◌, refl, sym, ap, subst, ◌∙◌, inl, inr, Bool, true, false,
  Bool-cases, Option, Option-cases, none, some, List, [], ◌∷◌, ◌++◌, All, ◌==◌, ==_iff, ==_ne,
  ==_self, if◌then◌else◌, ℕ-cases, lt_or_le, arith,
}
use mathlib.Core.Bool.{false≢true}
use mathlib.Core.Option.{some-injective, none-ne-some}
use octnet_tftp.Net.{
  Effect, open_socket, close_socket, send_to, receive_from, start_timer, cancel_timer, resolve,
  cancel_resolve, connection_terminated, Outcome,
}
use octnet_tftp.Server.Connection.{Connection, socket_is_open}
use octnet_tftp.Server.Connection
use octnet_tftp.Server.Registry.{
  Registry, find, erase, store, stop_at, unregister, connection_terminated_at, perform, settle,
  stop_all,
}
use octnet_tftp.Server.Registry.Set.{
  Distinct, find-erase_other, All-erase, Distinct-erase, find-erase,
}

module _ {E R W : Type 0} where
  -- The set has no address twice and none of the future; and a connection whose socket is open is in
  -- the set.
  pub record IsSound (s : Registry E R W) : Type 0 where
    pub distinct : Distinct s.connections
    pub known : All (λ a. a < s.next_address) s.connections
    pub fresh : (a : ℕ) → s.next_address ≤ a → s.objects a ≡ none
    pub listed :
        (a : ℕ) (c : Connection E R W)
        → s.objects a ≡ some c
        → socket_is_open c ≡ true
        → find a s.connections ≡ true

  -- The connection at an address, if there is one, has no open socket.
  abbrev pub IsClosed : ℕ → Registry E R W → Type 0
  IsClosed a s = (c : Connection E R W) → s.objects a ≡ some c → socket_is_open c ≡ false

  pub address_known :
      (a : ℕ) (c : Connection E R W) (s : Registry E R W)
      → IsSound s
      → s.objects a ≡ some c
      → a < s.next_address
  address_known a c s i e = elim (lt_or_le a s.next_address) [
    | inl h ↦ h
    | inr h ↦ absurd (none-ne-some c (sym (i.fresh a h) ∙ e))
  ]

  pub store-IsSound :
      (a : ℕ) (c : Connection E R W) (s : Registry E R W)
      → a < s.next_address
      → (socket_is_open c ≡ true → find a s.connections ≡ true)
      → IsSound s
      → IsSound (store a c s)
  store-IsSound a c s h f i = record {
    distinct = i.distinct;
    known = i.known;
    fresh = λ b k. rw (==_ne a b (λ e. omega arith)) (i.fresh b k);
    listed = λ b d e o. elim (Bool-cases (a == b)) [
      | inl x ↦
          let same : some c ≡ some d = rw x at e in
          let here : find a s.connections ≡ true =
            f (ap socket_is_open (some-injective c d same) ∙ o) in
          ap (λ y. find y s.connections) (sym ((==_iff a b).0 x)) ∙ here
      | inr x ↦ let before : s.objects b ≡ some d = rw x at e in i.listed b d before o
    ];
  }

  pub stop_at_found :
      (a : ℕ) (c : Connection E R W) (s : Registry E R W)
      → s.objects a ≡ some c
      → (stop_at a s).0 ≡ store a (Connection.stop c).0 s
  unfolding stop_at
  stop_at_found a c s e = rw (stop_at, e)

  pub stop_at_missing : (a : ℕ) (s : Registry E R W) → s.objects a ≡ none → (stop_at a s).0 ≡ s
  unfolding stop_at
  stop_at_missing a s e = rw (stop_at, e)

  pub stop_at-IsSound : (a : ℕ) (s : Registry E R W) → IsSound s → IsSound (stop_at a s).0
  stop_at-IsSound a s i = elim (Option-cases (s.objects a)) [
    | inl e ↦ subst IsSound (sym (stop_at_missing a s e)) i
    | inr (c, e) ↦ subst IsSound (sym (stop_at_found a c s e)) (
        store-IsSound a (Connection.stop c).0 s (address_known a c s i e)
          (λ o. absurd (false≢true (sym (Connection.stop_closes c) ∙ o))) i)
  ]

  store-IsClosed :
      (a b : ℕ) (c : Connection E R W) (s : Registry E R W)
      → socket_is_open c ≡ false
      → ((a == b) ≡ false → IsClosed b s)
      → IsClosed b (store a c s)
  store-IsClosed a b c s o h d e = elim (Bool-cases (a == b)) [
    | inl x ↦
        let same : some c ≡ some d = rw x at e in
        sym (ap socket_is_open (some-injective c d same)) ∙ o
    | inr x ↦ let before : s.objects b ≡ some d = rw x at e in h x d before
  ]

  -- A stop closes the socket, and opens none.
  pub stop_at-IsClosed : (a : ℕ) (s : Registry E R W) → IsClosed a (stop_at a s).0
  stop_at-IsClosed a s = elim (Option-cases (s.objects a)) [
    | inl e ↦
        subst (IsClosed a) (sym (stop_at_missing a s e))
          (λ c f. absurd (none-ne-some c (sym e ∙ f)))
    | inr (c, e) ↦ subst (IsClosed a) (sym (stop_at_found a c s e)) (
        store-IsClosed a a (Connection.stop c).0 s (Connection.stop_closes c)
          (λ x. absurd (false≢true (sym x ∙ ==_self a))))
  ]

  pub stop_at-keeps-IsClosed :
      (a b : ℕ) (s : Registry E R W) → IsClosed b s → IsClosed b (stop_at a s).0
  stop_at-keeps-IsClosed a b s h = elim (Option-cases (s.objects a)) [
    | inl e ↦ subst (IsClosed b) (sym (stop_at_missing a s e)) h
    | inr (c, e) ↦
        subst (IsClosed b) (sym (stop_at_found a c s e))
          (store-IsClosed a b (Connection.stop c).0 s (Connection.stop_closes c) (λ x. h))
  ]

  erased-IsSound :
      (a : ℕ) (s : Registry E R W)
      → IsClosed a s
      → IsSound s
      → IsSound (record s { connections = erase a s.connections })
  erased-IsSound a s h i = record {
    distinct = Distinct-erase a s.connections i.distinct;
    known = All-erase _ a s.connections i.known;
    fresh = i.fresh;
    listed = λ b c e o. elim (Bool-cases (a == b)) [
      | inl x ↦
          let e' : s.objects a ≡ some c = ap s.objects ((==_iff a b).0 x) ∙ e in
          absurd (false≢true (sym (h c e') ∙ o))
      | inr x ↦ find-erase_other a b s.connections x ∙ i.listed b c e o
    ];
  }

  unregister-IsSound :
      (a : ℕ) (s : Registry E R W) → IsClosed a s → IsSound s → IsSound (unregister a s)
  unfolding unregister
  unregister-IsSound a s h i = elim (Bool-cases (find a s.connections)) [
    | inl e ↦ rw e (erased-IsSound a s h i)
    | inr e ↦ rw e i
  ]

  pub terminated-IsSound :
      (a : ℕ) (s : Registry E R W) → IsSound s → IsSound (connection_terminated_at a s).0
  unfolding connection_terminated_at
  terminated-IsSound a s i = unregister-IsSound a _ (stop_at-IsClosed a s) (stop_at-IsSound a s i)

  pub perform-IsSound :
      (a : ℕ) (effects : List (Effect E)) (s : Registry E R W)
      → IsSound s
      → IsSound (perform a effects s).0
  unfolding perform
  perform-IsSound a [] s i = i
  perform-IsSound a (connection_terminated ∷ effects) s i =
      perform-IsSound a effects _ (terminated-IsSound a s i)
  perform-IsSound a (open_socket ∷ effects) s i = perform-IsSound a effects s i
  perform-IsSound a (close_socket ∷ effects) s i = perform-IsSound a effects s i
  perform-IsSound a (send_to bytes peer ∷ effects) s i = perform-IsSound a effects s i
  perform-IsSound a (receive_from ∷ effects) s i = perform-IsSound a effects s i
  perform-IsSound a (start_timer n ∷ effects) s i = perform-IsSound a effects s i
  perform-IsSound a (cancel_timer ∷ effects) s i = perform-IsSound a effects s i
  perform-IsSound a (resolve host port ∷ effects) s i = perform-IsSound a effects s i
  perform-IsSound a (cancel_resolve ∷ effects) s i = perform-IsSound a effects s i

  pub settle-IsSound :
      (a : ℕ) (outcome : Outcome E (Connection E R W)) (s : Registry E R W)
      → a < s.next_address
      → (socket_is_open outcome.0 ≡ true → find a s.connections ≡ true)
      → IsSound s
      → IsSound (settle a outcome s).0
  unfolding settle
  settle-IsSound a (c, effects) s h f i = perform-IsSound a effects _ (store-IsSound a c s h f i)
