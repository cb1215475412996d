-- ===== src/Network/Order/Steps.antt =====
-- The order of the blocks over a step of the network, and over a run.
use octnet_tftp.Base.{ℕ, inl, inr, refl, sym, subst, Bytes, All, All-middle, arith}
use octnet_tftp.Network.{
  Machine, SenderLaws, ReceiverLaws, Net, Step, Reach, block_arrives, ack_arrives, block_lost,
  ack_lost, sender_repeats, receiver_repeats, sender_acts, receiver_acts, here, later,
}
use octnet_tftp.Network.Order.{
  IsBlock, IsAck, IsInOrder, sender_gets, receiver_gets, sender_stays, receiver_stays,
  block_arrives-IsInOrder, ack_arrives-IsInOrder,
}

module _ {S R : Type 0} {sends : Machine S} {receives : Machine R} {last : ℕ}
    {blocks acks : ℕ → Bytes} {Sent : ℕ → S → Type 0} {Taken : ℕ → R → Type 0}
    (sender : SenderLaws sends last blocks acks Sent)
    (receiver : ReceiverLaws receives last blocks acks Taken) where
  Step-IsInOrder :
      {net net' : Net S R}
      → Step sends receives net net'
      → IsInOrder sender receiver net
      → IsInOrder sender receiver net'
  Step-IsInOrder {net} (block_arrives xs ys d e) (sent, taken, i) =
      let ((j, p, h, f), rest) =
        All-middle (IsBlock sender receiver sent) xs ys d
          (subst (All (IsBlock sender receiver sent)) e i.blocks_under_way) in
      subst (λ b. IsInOrder sender receiver (receiver_gets sender receiver net b)) (sym f)
        (block_arrives-IsInOrder sender receiver net j p h i)
  Step-IsInOrder {net} (ack_arrives xs ys d e) (sent, taken, i) =
      let ((j, h, f), rest) =
        All-middle (IsAck sender receiver taken) xs ys d
          (subst (All (IsAck sender receiver taken)) e i.acks_under_way) in
      subst (λ b. IsInOrder sender receiver (sender_gets sender receiver net b)) (sym f)
        (ack_arrives-IsInOrder sender receiver net j h i)
  Step-IsInOrder (block_lost xs ys d e) (sent, taken, i) = (
    sent,
    taken,
    record {
      sending = i.sending;
      taking = i.taking;
      bound = i.bound;
      behind = i.behind;
      close = i.close;
      blocks_under_way =
          (All-middle (IsBlock sender receiver sent) xs ys d
            (subst (All (IsBlock sender receiver sent)) e i.blocks_under_way)).1;
      acks_under_way = i.acks_under_way;
    },
  )
  Step-IsInOrder (ack_lost xs ys d e) (sent, taken, i) = (
    sent,
    taken,
    record {
      sending = i.sending;
      taking = i.taking;
      bound = i.bound;
      behind = i.behind;
      close = i.close;
      blocks_under_way = i.blocks_under_way;
      acks_under_way =
          (All-middle (IsAck sender receiver taken) xs ys d
            (subst (All (IsAck sender receiver taken)) e i.acks_under_way)).1;
    },
  )
  Step-IsInOrder {net} sender_repeats (sent, taken, i) =
      let (t, out) = sender.sender_timeout sent net.sender i.sending in
      sender_stays sender receiver net t
        (elim out [
          | inl e ↦ inl e
          | inr (p, e) ↦ inr (blocks sent, (sent, p, omega arith, refl), e)
        ])
        i
  Step-IsInOrder {net} receiver_repeats (sent, taken, i) =
      let (t, out) = receiver.receiver_timeout taken net.receiver i.taking in
      receiver_stays sender receiver net t
        (elim out [ inl e ↦ inl e | inr e ↦ inr (acks taken, (taken, omega arith, refl), e) ]) i
  Step-IsInOrder {net} (sender_acts left o) (sent, taken, i) =
      let (t, out) = sender.sender_other sent net.sender left o i.sending in
      sender_stays sender receiver net t (inl out) i
  Step-IsInOrder {net} (receiver_acts left o) (sent, taken, i) =
      let (t, out) = receiver.receiver_other taken net.receiver left o i.taking in
      receiver_stays sender receiver net t (inl out) i

  -- The order holds in every state that the network can lead to.
  pub Reach-IsInOrder :
      {start net : Net S R}
      → IsInOrder sender receiver start
      → Reach sends receives start net
      → IsInOrder sender receiver net
  Reach-IsInOrder i here = i
  Reach-IsInOrder i (later r step) = Step-IsInOrder step (Reach-IsInOrder i r)
