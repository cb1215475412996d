-- ===== src/Server/Connection/Silence.antt =====
-- The silences of a connection with the operations that it has pending: how long they are, and what
-- is still to come in them.
use octnet_tftp.Base.{
  ℕ, zero, suc, ◌+◌, ◌*◌, ◌≤◌, ◌<◌, ◌≡◌, ◌≢◌, ◌⊎◌, inl, inr, refl, sym, ap, Bool, ◌∙◌, subst, true,
  false, ◌∷◌, arith,
}
use mathlib.Core.Bool.{false≢true}
use octnet_tftp.Net.{
  EndpointOps, ErrorCode, success, operation_aborted, failed, open_socket, Outcome,
}
use octnet_tftp.Net.Pending.{Pending, nothing_pending, all_asked, IsAwake, Goes-IsAwake}
use octnet_tftp.Io.Interface.{ReaderOps, WriterOps}
use octnet_tftp.Io.Manager.{IoManager}
use octnet_tftp.Server.Result.{returned, left_by, all_succeed}
use octnet_tftp.Server.Connection.{Connection, packet_sent, send_timeout, complete, start}
use octnet_tftp.Server.Connection.Completions.{
  retries, started-Goes, sent_cases, send_failed, fired_cases,
}
use octnet_tftp.Server.Connection.Pending.{
  Running, after, Quiet, late_timeout, send_completes, timer_fires, quiet, Reach, later,
  Reach-IsAwake,
}

one_more : (k : ℕ) → 0 < k → (n : ℕ) × (k ≡ suc n)
one_more zero h = absurd (omega arith)
one_more (suc n) h = (n, refl)

not_aborted : success ≢ operation_aborted
not_aborted e = cc

module _ {E R W : Type 0} where
  -- Enough for the steps of a connection that hears nothing: each timeout costs a retry and starts a
  -- send.
  abbrev pub budget : Running E R W → ℕ
  budget r = 2 * retries r.connection + r.pending.sends

module _ {E R W : Type 0} ⦃readers : ReaderOps R⦄ ⦃writers : WriterOps W⦄
    ⦃endpoints : EndpointOps E⦄ where
  -- `n` steps of silence, each of a connection that has not ended.
  pub data Silent (begin : Running E R W) : ℕ → Running E R W → Type 0 where
    still : Silent begin 0 begin
    passes :
        {n : ℕ} {r r' : Running E R W}
        → Silent begin n r
        → r.pending.ended ≡ false
        → Quiet r r'
        → Silent begin (suc n) r'
    comes_late :
        {n : ℕ} {r : Running E R W}
        → Silent begin n r
        → r.pending.ended ≡ false
        → Silent begin (suc n) (after (complete (send_timeout success) r.connection) r.pending)

  Silent-Reach :
      {begin r r' : Running E R W} {n : ℕ} → Reach begin r → Silent r n r' → Reach begin r'
  Silent-Reach reach still = reach
  Silent-Reach reach (passes before e q) = later (Silent-Reach reach before) (quiet q)
  Silent-Reach reach (comes_late before e) = later (Silent-Reach reach before) late_timeout

  -- A step of silence ends the connection, or leaves less to do.
  abbrev Shrinks : Running E R W → Running E R W → Type 0
  Shrinks r r' = (r'.pending.ended ≡ true) ⊎ (budget r' < budget r)

  sent-Shrinks :
      (r : Running E R W) (n : ℕ) (ec : ErrorCode)
      → r.pending.sends ≡ suc n
      → ec ≢ operation_aborted
      → Shrinks r (after (complete (packet_sent ec) r.connection) (record r.pending { sends = n }))
  sent-Shrinks r n operation_aborted e h = absurd (h refl)
  sent-Shrinks r n failed e h =
      subst (λ o. Shrinks r (after o (record r.pending { sends = n })))
        (sym (send_failed r.connection)) (inl refl)
  sent-Shrinks r n success e h = elim (sent_cases r.connection) [
    | inl x ↦
        subst (λ o. Shrinks r (after o (record r.pending { sends = n }))) (sym x)
          (inr (omega (arith, e)))
    | inr x ↦ subst (λ o. Shrinks r (after o (record r.pending { sends = n }))) (sym x) (inl refl)
  ]

  -- Whether its timer is still set or not.
  fired-Shrinks :
      (r : Running E R W) (t : Bool)
      → Shrinks r
          (after (complete (send_timeout success) r.connection) (record r.pending { timer = t }))
  fired-Shrinks r t =
      let (c', effects) = complete (send_timeout success) r.connection in
      let p : Pending = record r.pending { timer = t } in
      elim (fired_cases r.connection) [
        | inl (bytes, peer, x, h) ↦
            subst (λ es. Shrinks r (record { connection = c'; pending = all_asked es p })) (sym x)
              (inr (omega arith))
        | inr x ↦
            subst (λ es. Shrinks r (record { connection = c'; pending = all_asked es p })) (sym x)
              (inl refl)
      ]

  Quiet-Shrinks : {r r' : Running E R W} → Quiet r r' → Shrinks r r'
  Quiet-Shrinks {r} (send_completes n ec e h) = sent-Shrinks r n ec e h
  Quiet-Shrinks {r} (timer_fires e) = fired-Shrinks r false

  -- `n` steps have been taken out of the budget, or the last one ended the connection.
  abbrev Spends : ℕ → Running E R W → Running E R W → Type 0
  Spends n r r' = ((r'.pending.ended ≡ true) × (n ≤ suc (budget r))) ⊎ (n + budget r' ≤ budget r)

  spent :
      (n : ℕ) (r r' r'' : Running E R W)
      → Spends n r r'
      → r'.pending.ended ≡ false
      → Shrinks r' r''
      → Spends (suc n) r r''
  spent n r r' r'' (inl (x, h)) e s = absurd (false≢true (sym e ∙ x))
  spent n r r' r'' (inr h) e (inl x) = inl (x, omega arith)
  spent n r r' r'' (inr h) e (inr l) = inr (omega arith)

  Silent-Spends : {r r' : Running E R W} {n : ℕ} → Silent r n r' → Spends n r r'
  Silent-Spends still = inr (omega arith)
  Silent-Spends {r} (passes {n} {r = s} {r' = s'} before e q) =
      spent n r s s' (Silent-Spends before) e (Quiet-Shrinks q)
  Silent-Spends {r} (comes_late {n} {r = s} before e) =
      spent n r s (after (complete (send_timeout success) s.connection) s.pending)
        (Silent-Spends before) e (fired-Shrinks s s.pending.timer)

  still_to_come :
      (r : Running E R W)
      → IsAwake r.pending
      → (r.pending.ended ≡ true) ⊎ ((r' : Running E R W) × Quiet r r')
  still_to_come r (inl e) = inl e
  still_to_come r (inr (inl t)) = inr (_, timer_fires t)
  still_to_come r (inr (inr h)) =
      let (n, e) = one_more r.pending.sends h in inr (_, send_completes n success e not_aborted)

  -- Once a connection has started, whose socket opens and binds, whatever sends, timeouts, datagrams
  -- and errors of sends and receives come in whatever order, as far as they are pending, and whatever
  -- timeouts that were queued when their timer was cancelled; a wait of the timer has no error but
  -- that it is aborted: a silence after that, in which only sends complete, the timer fires and such
  -- timeouts come, is over after at most `budget` + 1 steps, twice its retries and its sends under
  -- way and one more, and unless it is over, the connection has ended, or a send that is under way or
  -- a timer that is set is still to complete.
  pub silence_ends :
      (m : IoManager R W) (c : Connection E R W) (outcome : Outcome E (Connection E R W)) (n : ℕ)
      (r r' : Running E R W)
      → start m all_succeed c ≡ returned outcome
      → Reach (after outcome nothing_pending) r
      → Silent r n r'
      → (n ≤ suc (budget r)) × ((r'.pending.ended ≡ true) ⊎ ((r'' : Running E R W) × Quiet r' r''))
  silence_ends m c outcome n r r' e reach silent =
      let (c', effects, started, g) = started-Goes m c in
      let same : outcome ≡ (c', open_socket ∷ effects) = ap left_by (sym e ∙ started) in
      let awake : IsAwake (after outcome nothing_pending).pending =
        subst (λ o. IsAwake (after o nothing_pending).pending) (sym same)
          (Goes-IsAwake g nothing_pending) in
      (
        elim (Silent-Spends silent) [ inl (x, h) ↦ h | inr h ↦ omega arith ],
        still_to_come r' (Reach-IsAwake awake (Silent-Reach reach silent)),
      )
