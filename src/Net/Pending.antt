-- ===== src/Net/Pending.antt =====
-- The operations of asio that are pending for a socket and its timer, by what the handlers ask for.
use octnet_tftp.Base.{
  ℕ, suc, ◌<◌, ◌≡◌, ◌⊎◌, inl, inr, refl, Bool, true, false, List, [], ◌∷◌, Bytes, arith,
}
use octnet_tftp.Net.{
  Effect, open_socket, close_socket, send_to, receive_from, start_timer, cancel_timer, resolve,
  cancel_resolve, connection_terminated,
}

-- How many sends and receives have been started and have not completed; whether a wait for the timer
-- has been started and neither cancelled nor completed; and whether the request handler has been told
-- of the end, or the socket closed.
pub record Pending : Type 0 where
  pub sends : ℕ
  pub receives : ℕ
  pub timer : Bool
  pub ended : Bool

abbrev pub nothing_pending : Pending
nothing_pending = record { sends = 0; receives = 0; timer = false; ended = false }

-- It has ended, or the timer or a send will come back.
abbrev pub IsAwake : Pending → Type 0
IsAwake p = (p.ended ≡ true) ⊎ ((p.timer ≡ true) ⊎ (0 < p.sends))

module _ {E : Type 0} where
  abbrev pub asked : Effect E → Pending → Pending
  asked (send_to bytes peer) p = record p { sends = suc p.sends }
  asked receive_from p = record p { receives = suc p.receives }
  asked (start_timer seconds) p = record p { timer = true }
  asked cancel_timer p = record p { timer = false }
  asked connection_terminated p = record p { ended = true }
  asked close_socket p = record p { ended = true }
  asked open_socket p = p
  asked (resolve host port) p = p
  asked cancel_resolve p = p

  abbrev pub all_asked : List (Effect E) → Pending → Pending
  all_asked [] p = p
  all_asked (effect ∷ effects) p = all_asked effects (asked effect p)

  -- What the handlers ask for, other than nothing: to wait for an answer, to send and wait, or to end.
  pub data Goes : List (Effect E) → Type 0 where
    waits : (seconds : ℕ) → Goes (start_timer seconds ∷ receive_from ∷ [])
    sends : (bytes : Bytes) (peer : E) → Goes (send_to bytes peer ∷ [])
    sends_next : (bytes : Bytes) (peer : E) → Goes (cancel_timer ∷ send_to bytes peer ∷ [])
    ends : Goes (connection_terminated ∷ [])
    ends_acked : Goes (cancel_timer ∷ connection_terminated ∷ [])

  pub Goes-IsAwake :
      {effects : List (Effect E)} → Goes effects → (p : Pending) → IsAwake (all_asked effects p)
  Goes-IsAwake (waits seconds) p = inr (inl refl)
  Goes-IsAwake (sends bytes peer) p = inr (inr (omega arith))
  Goes-IsAwake (sends_next bytes peer) p = inr (inr (omega arith))
  Goes-IsAwake ends p = inl refl
  Goes-IsAwake ends_acked p = inl refl
