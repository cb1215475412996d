-- ===== src/Network.antt =====
-- Two machines that exchange datagrams over a network that loses, repeats and reorders them: one
-- sends numbered blocks, the other acknowledges them, and both repeat their last datagram on a
-- timeout; whatever else happens to them sends the other nothing. The connections and the clients are such machines, in pairs.
pub mod Order
pub mod Progress
pub mod Fetch
pub mod Download
pub mod Push
pub mod Upload
mod Tests
use octnet_tftp.Base.{ℕ, suc, ◌≤◌, ◌<◌, ◌≡◌, ◌≢◌, ◌⊎◌, List, [], ◌∷◌, ◌++◌, Bytes}

-- What a machine does with a datagram from the other, and on a timeout: its new state, and the
-- datagrams that it sends to the other. `others` relates a state to what anything else that happens
-- to the machine makes of it.
pub record Machine (S : Type 0) : Type 1 where
  pub on_datagram : S → Bytes → S × List Bytes
  pub on_timeout : S → S × List Bytes
  pub others : S → S × List Bytes → Type 0

-- The promise of a sender of `last` blocks, numbered from 1: on the acknowledgement of the block sent
-- last, `At k`, it sends the next, and no other acknowledgement has an effect. Number 0 stands for
-- the request.
pub record SenderLaws {S : Type 0} (machine : Machine S) (last : ℕ) (blocks acks : ℕ → Bytes)
    (At : ℕ → S → Type 0) : Type 0 where
  pub ack_next :
      (k : ℕ) (s : S)
      → k < last
      → At k s
      → At (suc k) (machine.on_datagram s (acks k)).0
        × ((machine.on_datagram s (acks k)).1 ≡ blocks (suc k) ∷ [])
  pub ack_last :
      (s : S)
      → At last s
      → At last (machine.on_datagram s (acks last)).0 × ((machine.on_datagram s (acks last)).1 ≡ [])
  pub ack_other :
      (k j : ℕ) (s : S)
      → k ≤ last
      → j ≤ last
      → j ≢ k
      → At k s
      → At k (machine.on_datagram s (acks j)).0 × ((machine.on_datagram s (acks j)).1 ≡ [])
  pub sender_timeout :
      (k : ℕ) (s : S)
      → At k s
      → At k (machine.on_timeout s).0
        × (((machine.on_timeout s).1 ≡ []) ⊎ ((0 < k) × ((machine.on_timeout s).1 ≡ blocks k ∷ [])))
  pub sender_other :
      (k : ℕ) (s : S) (left : S × List Bytes)
      → machine.others s left
      → At k s
      → At k left.0 × (left.1 ≡ [])

-- The promise of a receiver: with `n` blocks taken, `At n`, it takes the next one and acknowledges it,
-- and no other block has an effect.
pub record ReceiverLaws {R : Type 0} (machine : Machine R) (last : ℕ) (blocks acks : ℕ → Bytes)
    (At : ℕ → R → Type 0) : Type 0 where
  pub block_next :
      (n : ℕ) (r : R)
      → n < last
      → At n r
      → At (suc n) (machine.on_datagram r (blocks (suc n))).0
        × ((machine.on_datagram r (blocks (suc n))).1 ≡ acks (suc n) ∷ [])
  pub block_other :
      (n j : ℕ) (r : R)
      → n ≤ last
      → 0 < j
      → j ≤ last
      → j ≢ suc n
      → At n r
      → At n (machine.on_datagram r (blocks j)).0 × ((machine.on_datagram r (blocks j)).1 ≡ [])
  pub receiver_timeout :
      (n : ℕ) (r : R)
      → At n r
      → At n (machine.on_timeout r).0
        × (((machine.on_timeout r).1 ≡ []) ⊎ ((machine.on_timeout r).1 ≡ acks n ∷ []))
  pub receiver_other :
      (n : ℕ) (r : R) (left : R × List Bytes)
      → machine.others r left
      → At n r
      → At n left.0 × (left.1 ≡ [])

-- The datagrams under way may arrive in any order, any number of times, or never.
pub record Net (S R : Type 0) : Type 0 where
  pub sender : S
  pub receiver : R
  pub to_receiver : List Bytes
  pub to_sender : List Bytes

module _ {S R : Type 0} (sends : Machine S) (receives : Machine R) where
  pub data Step (net : Net S R) : Net S R → Type 0 where
    block_arrives :
        (xs ys : List Bytes) (d : Bytes)
        → net.to_receiver ≡ xs ++ d ∷ ys
        → Step net (record net {
          receiver = (receives.on_datagram net.receiver d).0;
          to_sender = (receives.on_datagram net.receiver d).1 ++ net.to_sender;
        })
    ack_arrives :
        (xs ys : List Bytes) (d : Bytes)
        → net.to_sender ≡ xs ++ d ∷ ys
        → Step net (record net {
          sender = (sends.on_datagram net.sender d).0;
          to_receiver = (sends.on_datagram net.sender d).1 ++ net.to_receiver;
        })
    block_lost :
        (xs ys : List Bytes) (d : Bytes)
        → net.to_receiver ≡ xs ++ d ∷ ys
        → Step net (record net { to_receiver = xs ++ ys })
    ack_lost :
        (xs ys : List Bytes) (d : Bytes)
        → net.to_sender ≡ xs ++ d ∷ ys
        → Step net (record net { to_sender = xs ++ ys })
    sender_repeats : Step net (record net {
      sender = (sends.on_timeout net.sender).0;
      to_receiver = (sends.on_timeout net.sender).1 ++ net.to_receiver;
    })
    receiver_repeats : Step net (record net {
      receiver = (receives.on_timeout net.receiver).0;
      to_sender = (receives.on_timeout net.receiver).1 ++ net.to_sender;
    })
    sender_acts :
        (left : S × List Bytes)
        → sends.others net.sender left
        → Step net (record net { sender = left.0; to_receiver = left.1 ++ net.to_receiver })
    receiver_acts :
        (left : R × List Bytes)
        → receives.others net.receiver left
        → Step net (record net { receiver = left.0; to_sender = left.1 ++ net.to_sender })

  pub data Reach (start : Net S R) : Net S R → Type 0 where
    here : Reach start start
    later : {net net' : Net S R} → Reach start net → Step net net' → Reach start net'

  pub Reach-trans :
      {first second third : Net S R} → Reach first second → Reach second third → Reach first third
  Reach-trans r here = r
  Reach-trans r (later before step) = later (Reach-trans r before) step
