-- ===== src/Net.antt =====
-- The asio library as the connections and clients use it. Its endpoints are a type that they only
-- compare; its asynchronous operations are effects that a handler asks for, and come back as calls
-- of the handlers with an error code.
pub mod Pending
use octnet_tftp.Base.{
  sym, not, ◌&&◌, ◌⊎◌, inl, inr, Bool-cases, arith, refl, [], if◌then◌else◌, ℕ, ◌≡◌, ◌↔◌, Bool,
  true, false, List, ◌∷◌, ◌++◌, Bytes,
}

-- `asio::ip::udp::endpoint`: its `==`, and the value of its default constructor.
pub record EndpointOps (E : Type 0) : Type 0 where
  pub same : E → E → Bool
  pub same_iff : (a b : E) → (same a b ≡ true) ↔ (a ≡ b)
  pub unspecified : E

-- An `asio::error_code`: none, `operation_aborted`, or any other.
pub data ErrorCode : Type 0 where
  success operation_aborted failed : ErrorCode

-- `start_timer` is `expires_after`, which cancels the waits before it, with `async_wait`;
-- `connection_terminated` is the call of the request handler.
pub data Effect (E : Type 0) : Type 0 where
  open_socket close_socket : Effect E
  send_to : Bytes → E → Effect E
  receive_from : Effect E
  start_timer : ℕ → Effect E
  cancel_timer : Effect E
  resolve : Bytes → ℕ → Effect E
  cancel_resolve : Effect E
  connection_terminated : Effect E

-- What a handler returns: the new state, and the effects in the order of the calls.
abbrev pub Outcome : Type 0 → Type 0 → Type 0
Outcome E S = S × List (Effect E)

module _ {E S : Type 0} where
  -- An effect before those of the calls that follow it.
  abbrev pub emit : Effect E → Outcome E S → Outcome E S
  emit e (s, es) = (s, e ∷ es)

module _ {E : Type 0} ⦃endpoints : EndpointOps E⦄ where
  -- The datagrams that go to an endpoint.
  abbrev pub sent_to : E → List (Effect E) → List Bytes
  sent_to peer [] = []
  sent_to peer (send_to bytes receiver ∷ effects) =
      let rest = sent_to peer effects in if endpoints.same receiver peer then bytes ∷ rest else rest
  sent_to peer (effect ∷ effects) = sent_to peer effects

  pub sent_to-append :
      (peer : E) (xs ys : List (Effect E))
      → sent_to peer (xs ++ ys) ≡ sent_to peer xs ++ sent_to peer ys
  sent_to-append peer [] ys = refl
  sent_to-append peer (open_socket ∷ xs) ys = sent_to-append peer xs ys
  sent_to-append peer (close_socket ∷ xs) ys = sent_to-append peer xs ys
  sent_to-append peer (send_to bytes receiver ∷ xs) ys =
      elim (Bool-cases (endpoints.same receiver peer)) [
        | inl e ↦ rw (e, sent_to-append peer xs ys)
        | inr e ↦ rw (e, sent_to-append peer xs ys)
      ]
  sent_to-append peer (receive_from ∷ xs) ys = sent_to-append peer xs ys
  sent_to-append peer (start_timer n ∷ xs) ys = sent_to-append peer xs ys
  sent_to-append peer (cancel_timer ∷ xs) ys = sent_to-append peer xs ys
  sent_to-append peer (resolve host port ∷ xs) ys = sent_to-append peer xs ys
  sent_to-append peer (cancel_resolve ∷ xs) ys = sent_to-append peer xs ys
  sent_to-append peer (connection_terminated ∷ xs) ys = sent_to-append peer xs ys

  abbrev pub to_peer : {S : Type 0} → E → Outcome E S → S × List Bytes
  to_peer peer (s, effects) = (s, sent_to peer effects)

  pub sent_to_peer :
      (peer : E) (bytes : Bytes) → sent_to peer (send_to bytes peer ∷ []) ≡ bytes ∷ []
  sent_to_peer peer bytes = rw ((endpoints.same_iff peer peer).1 refl)

  pub sent_elsewhere :
      (peer other : E) (bytes : Bytes)
      → endpoints.same other peer ≡ false
      → sent_to peer (send_to bytes other ∷ []) ≡ []
  sent_elsewhere peer other bytes e = rw e

  -- Whether the source of a datagram is another than the one that is known.
  abbrev pub is_foreign : Bool → E → E → Bool
  is_foreign known endpoint sender = known && not (endpoints.same endpoint sender)

  pub known_source :
      (known : Bool) (endpoint sender : E)
      → is_foreign known endpoint sender ≡ false
      → (known ≡ false) ⊎ (sender ≡ endpoint)
  known_source known endpoint sender e = elim (Bool-cases known) [
    | inr c ↦ inl c
    | inl c ↦ elim (Bool-cases (endpoints.same endpoint sender)) [
      | inl x ↦ inr (sym ((endpoints.same_iff _ _).0 x))
      | inr x ↦ absurd (foreign c x)
    ]
  ]
    where
      foreign : known ≡ true → endpoints.same endpoint sender ≡ false → ⊥
      foreign c x = ground arith
