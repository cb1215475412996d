-- ===== src/Server/Connection/Pending.antt =====
-- src/server/connection.hpp: a connection of either class with the operations that it has pending.
use octnet_tftp.Base.{ℕ, suc, ◌≡◌, ◌≢◌, inl, inr, refl, sym, subst, true, false, Bytes, arith}
use octnet_tftp.Net.{EndpointOps, ErrorCode, success, operation_aborted, failed, Outcome}
use octnet_tftp.Net.Pending.{Pending, all_asked, IsAwake, Goes, Goes-IsAwake}
use octnet_tftp.Io.Interface.{ReaderOps, WriterOps}
use octnet_tftp.Server.Connection.{
  Connection, packet_sent, send_timeout, packet_received, datagram, complete, stop,
}
use octnet_tftp.Server.Connection.Completions.{
  sent_cases, send_failed, receive_failed, fired_cases, datagram_cases,
}

pub record Running (E R W : Type 0) : Type 0 where
  pub connection : Connection E R W
  pub pending : Pending

module _ {E R W : Type 0} where
  -- A handler has run, and its operations are started.
  abbrev pub after : Outcome E (Connection E R W) → Pending → Running E R W
  after (c, effects) p = record { connection = c; pending = all_asked effects p }

module _ {E R W : Type 0} ⦃readers : ReaderOps R⦄ ⦃writers : WriterOps W⦄
    ⦃endpoints : EndpointOps E⦄ where
  -- What comes back although nobody sends anything. An operation that is aborted is one whose socket
  -- has been closed, or whose timer has been cancelled or set anew, and its handler does nothing. A
  -- wait of the timer has no other error; a handler that got one would leave the timer unset.
  pub data Quiet (r : Running E R W) : Running E R W → Type 0 where
    send_completes :
        (n : ℕ) (ec : ErrorCode)
        → r.pending.sends ≡ suc n
        → ec ≢ operation_aborted
        → Quiet r (after (complete (packet_sent ec) r.connection) (record r.pending { sends = n }))
    timer_fires :
        r.pending.timer ≡ true
        → Quiet r (
            after
              (complete (send_timeout success) r.connection)
              (record r.pending { timer = false }))

  pub data Step (r : Running E R W) : Running E R W → Type 0 where
    quiet : {r' : Running E R W} → Quiet r r' → Step r r'
    -- The handler of a wait that was over when its timer was cancelled or set anew, and which was
    -- queued then.
    late_timeout : Step r (after (complete (send_timeout success) r.connection) r.pending)
    datagram_arrives :
        (n : ℕ) (sender : E) (bytes : Bytes)
        → r.pending.receives ≡ suc n
        → Step r (
            after
              (complete (datagram sender bytes) r.connection)
              (record r.pending { receives = n }))
    receive_fails :
        (n bytes_received : ℕ)
        → r.pending.receives ≡ suc n
        → Step r (
            after
              (complete (packet_received failed bytes_received) r.connection)
              (record r.pending { receives = n }))
    server_stops : Step r (record {
      connection = (stop r.connection).0;
      pending = record r.pending { timer = false; ended = true };
    })

  pub data Reach (begin : Running E R W) : Running E R W → Type 0 where
    here : Reach begin begin
    later : {r r' : Running E R W} → Reach begin r → Step r r' → Reach begin r'

  goes_on :
      (outcome : Outcome E (Connection E R W)) (p : Pending)
      → Goes outcome.1
      → IsAwake (after outcome p).pending
  goes_on (c, effects) p g = Goes-IsAwake g p

  sent-IsAwake :
      (c : Connection E R W) (ec : ErrorCode) (p : Pending)
      → ec ≢ operation_aborted
      → IsAwake (after (complete (packet_sent ec) c) p).pending
  sent-IsAwake c operation_aborted p h = absurd (h refl)
  sent-IsAwake c failed p h =
      subst (λ o. IsAwake (after o p).pending) (sym (send_failed c)) (inl refl)
  sent-IsAwake c success p h = elim (sent_cases c) [
    | inl e ↦ subst (λ o. IsAwake (after o p).pending) (sym e) (inr (inl refl))
    | inr e ↦ subst (λ o. IsAwake (after o p).pending) (sym e) (inl refl)
  ]

  fired-IsAwake :
      (c : Connection E R W) (p : Pending)
      → IsAwake (after (complete (send_timeout success) c) p).pending
  fired-IsAwake c p = elim (fired_cases c) [
    | inl (bytes, peer, e, h) ↦
        subst (λ es. IsAwake (all_asked es p)) (sym e) (inr (inr (omega arith)))
    | inr e ↦ subst (λ es. IsAwake (all_asked es p)) (sym e) (inl refl)
  ]

  Step-IsAwake : {r r' : Running E R W} → Step r r' → IsAwake r.pending → IsAwake r'.pending
  Step-IsAwake {r} (quiet (send_completes n ec e h)) a = sent-IsAwake r.connection ec _ h
  Step-IsAwake {r} (quiet (timer_fires e)) a = fired-IsAwake r.connection _
  Step-IsAwake {r} late_timeout a = fired-IsAwake r.connection _
  Step-IsAwake {r} (datagram_arrives n sender bytes e) a =
      elim (datagram_cases r.connection sender bytes) [
        | inl x ↦ subst (λ es. IsAwake (all_asked es (record r.pending { receives = n }))) (sym x) a
        | inr g ↦ goes_on (complete (datagram sender bytes) r.connection) _ g
      ]
  Step-IsAwake {r} (receive_fails n bytes_received e) a =
      subst (λ o. IsAwake (after o (record r.pending { receives = n })).pending)
        (sym (receive_failed r.connection bytes_received)) (inl refl)
  Step-IsAwake server_stops a = inl refl

  pub Reach-IsAwake :
      {begin r : Running E R W} → IsAwake begin.pending → Reach begin r → IsAwake r.pending
  Reach-IsAwake a here = a
  Reach-IsAwake a (later reach step) = Step-IsAwake step (Reach-IsAwake a reach)
