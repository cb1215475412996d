-- ===== src/Network/Order.antt =====
-- Whatever the network does, the receiver takes the blocks in order and each once, and the sender is
-- never more than one block ahead.
pub mod Steps
use octnet_tftp.Base.{
  ℕ, suc, ◌≤◌, ◌<◌, ◌≡◌, ◌⊎◌, inl, inr, refl, sym, subst, List, [], ◌∷◌, ◌++◌, Bytes, All,
  All-middle, All-map, ℕ-cases, arith,
}
use octnet_tftp.Network.{
  Machine, SenderLaws, ReceiverLaws, Net, Step, Reach, block_arrives, ack_arrives, block_lost,
  ack_lost, sender_repeats, receiver_repeats, here, later,
}

-- A step may send nothing, or one datagram.
All-sent {ℓ κ} :
    {A : Type ℓ} (P : A → Type κ) {sent : List A} (xs : List A)
    → (sent ≡ []) ⊎ ((a : A) × P a × (sent ≡ a ∷ []))
    → All P xs
    → All P (sent ++ xs)
All-sent P xs (inl e) h = rw e h
All-sent P xs (inr (a, p, e)) h = rw e (p, h)

module _ {S R : Type 0} {sends : Machine S} {receives : Machine R} {last : ℕ}
    {blocks acks : ℕ → Bytes} {Sent : ℕ → S → Type 0} {Taken : ℕ → R → Type 0}
    (sender : SenderLaws sends last blocks acks Sent)
    (receiver : ReceiverLaws receives last blocks acks Taken) where
  abbrev pub IsBlock : ℕ → Bytes → Type 0
  IsBlock k d = (j : ℕ) × (0 < j) × (j ≤ k) × (d ≡ blocks j)

  abbrev pub IsAck : ℕ → Bytes → Type 0
  IsAck n d = (j : ℕ) × (j ≤ n) × (d ≡ acks j)

  -- `sent` blocks have been sent and `taken` of them taken; under way are some of these blocks, and
  -- acknowledgements of those taken.
  pub record InOrder (sent taken : ℕ) (net : Net S R) : Type 0 where
    pub sending : Sent sent net.sender
    pub taking : Taken taken net.receiver
    pub bound : sent ≤ last
    pub behind : taken ≤ sent
    pub close : sent ≤ suc taken
    pub blocks_under_way : All (IsBlock sent) net.to_receiver
    pub acks_under_way : All (IsAck taken) net.to_sender

  abbrev pub IsInOrder : Net S R → Type 0
  IsInOrder net = (sent : ℕ) × (taken : ℕ) × InOrder sent taken net

  more_blocks : (k : ℕ) (ds : List Bytes) → All (IsBlock k) ds → All (IsBlock (suc k)) ds
  more_blocks k = All-map (IsBlock k) (IsBlock (suc k)) (λ d (j, p, h, e). (j, p, omega arith, e))

  more_acks : (n : ℕ) (ds : List Bytes) → All (IsAck n) ds → All (IsAck (suc n)) ds
  more_acks n = All-map (IsAck n) (IsAck (suc n)) (λ d (j, h, e). (j, omega arith, e))

  -- The sender goes on where it was, and sends again at most.
  pub sender_stays :
      {sent taken : ℕ} (net : Net S R) {s : S} {out : List Bytes}
      → Sent sent s
      → (out ≡ []) ⊎ ((d : Bytes) × IsBlock sent d × (out ≡ d ∷ []))
      → InOrder sent taken net
      → IsInOrder (record net { sender = s; to_receiver = out ++ net.to_receiver })
  sender_stays {sent} {taken} net t out i = (
    sent,
    taken,
    record {
      sending = t;
      taking = i.taking;
      bound = i.bound;
      behind = i.behind;
      close = i.close;
      blocks_under_way = All-sent (IsBlock sent) net.to_receiver out i.blocks_under_way;
      acks_under_way = i.acks_under_way;
    },
  )

  pub receiver_stays :
      {sent taken : ℕ} (net : Net S R) {r : R} {out : List Bytes}
      → Taken taken r
      → (out ≡ []) ⊎ ((d : Bytes) × IsAck taken d × (out ≡ d ∷ []))
      → InOrder sent taken net
      → IsInOrder (record net { receiver = r; to_sender = out ++ net.to_sender })
  receiver_stays {sent} {taken} net t out i = (
    sent,
    taken,
    record {
      sending = i.sending;
      taking = t;
      bound = i.bound;
      behind = i.behind;
      close = i.close;
      blocks_under_way = i.blocks_under_way;
      acks_under_way = All-sent (IsAck taken) net.to_sender out i.acks_under_way;
    },
  )

  -- The receiver gets block `j`.
  abbrev pub receiver_gets : Net S R → Bytes → Net S R
  receiver_gets net d = record net {
    receiver = (receives.on_datagram net.receiver d).0;
    to_sender = (receives.on_datagram net.receiver d).1 ++ net.to_sender;
  }

  next_block-IsInOrder :
      {sent taken : ℕ} (net : Net S R)
      → suc taken ≤ sent
      → InOrder sent taken net
      → IsInOrder (receiver_gets net (blocks (suc taken)))
  next_block-IsInOrder {sent} {taken} net h i =
      let (t, out) = receiver.block_next taken net.receiver (omega (arith, i.bound)) i.taking in
      (
        sent,
        suc taken,
        record {
          sending = i.sending;
          taking = t;
          bound = i.bound;
          behind = h;
          close = omega (arith, i.close);
          blocks_under_way = i.blocks_under_way;
          acks_under_way =
              All-sent (IsAck (suc taken)) net.to_sender
                (inr (acks (suc taken), (suc taken, omega arith, refl), out))
                (more_acks taken net.to_sender i.acks_under_way);
        },
      )

  pub block_arrives-IsInOrder :
      {sent taken : ℕ} (net : Net S R) (j : ℕ)
      → 0 < j
      → j ≤ sent
      → InOrder sent taken net
      → IsInOrder (receiver_gets net (blocks j))
  block_arrives-IsInOrder {sent} {taken} net j p h i = elim (ℕ-cases j (suc taken)) [
    | inl e ↦
        subst (λ n. IsInOrder (receiver_gets net (blocks n))) (sym e)
          (next_block-IsInOrder net (rw (← e) h) i)
    | inr e ↦
        let (t, out) =
          receiver.block_other taken j net.receiver (omega (arith, i.bound, i.behind)) p
            (omega (arith, i.bound)) e i.taking in
        receiver_stays net t (inl out) i
  ]

  -- The sender gets the acknowledgement of block `j`.
  abbrev pub sender_gets : Net S R → Bytes → Net S R
  sender_gets net d = record net {
    sender = (sends.on_datagram net.sender d).0;
    to_receiver = (sends.on_datagram net.sender d).1 ++ net.to_receiver;
  }

  next_ack-IsInOrder :
      {sent taken : ℕ} (net : Net S R)
      → sent ≤ taken
      → sent < last
      → InOrder sent taken net
      → IsInOrder (sender_gets net (acks sent))
  next_ack-IsInOrder {sent} {taken} net h m i =
      let (t, out) = sender.ack_next sent net.sender m i.sending in
      (
        suc sent,
        taken,
        record {
          sending = t;
          taking = i.taking;
          bound = omega arith;
          behind = omega (arith, i.behind);
          close = omega arith;
          blocks_under_way =
              All-sent (IsBlock (suc sent)) net.to_receiver
                (inr (blocks (suc sent), (suc sent, omega arith, omega arith, refl), out))
                (more_blocks sent net.to_receiver i.blocks_under_way);
          acks_under_way = i.acks_under_way;
        },
      )

  last_ack-IsInOrder :
      {sent taken : ℕ} (net : Net S R)
      → sent ≡ last
      → InOrder sent taken net
      → IsInOrder (sender_gets net (acks sent))
  last_ack-IsInOrder {sent} net e i =
      let (t, out) = sender.ack_last net.sender (subst (λ k. Sent k net.sender) e i.sending) in
      subst (λ k. IsInOrder (sender_gets net (acks k))) (sym e)
        (sender_stays net
          (subst (λ k. Sent k (sends.on_datagram net.sender (acks last)).0) (sym e) t) (inl out) i)

  pub ack_arrives-IsInOrder :
      {sent taken : ℕ} (net : Net S R) (j : ℕ)
      → j ≤ taken
      → InOrder sent taken net
      → IsInOrder (sender_gets net (acks j))
  ack_arrives-IsInOrder {sent} {taken} net j h i = elim (ℕ-cases j sent) [
    | inr e ↦
        let (t, out) =
          sender.ack_other sent j net.sender i.bound (omega (arith, i.bound, i.behind)) e
            i.sending in
        sender_stays net t (inl out) i
    | inl e ↦
        subst (λ n. IsInOrder (sender_gets net (acks n))) (sym e)
          (elim (ℕ-cases sent last) [
            | inl f ↦ last_ack-IsInOrder net f i
            | inr f ↦ next_ack-IsInOrder net (rw (← e) h) (omega (arith, i.bound, f)) i
          ])
  ]
