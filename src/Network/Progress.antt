-- ===== src/Network/Progress.antt =====
-- Runs in which the network lets the datagrams through, each to its receiver.
use octnet_tftp.Base.{ℕ, zero, suc, ◌+◌, ◌<◌, ◌≡◌, ap, subst, List, [], ◌∷◌, ◌++◌, Bytes, arith}
use octnet_tftp.Network.{
  Machine, SenderLaws, ReceiverLaws, Net, Reach, block_arrives, ack_arrives, later,
}

module _ {S R : Type 0} {sends : Machine S} {receives : Machine R} {last : ℕ}
    {blocks acks : ℕ → Bytes} {Sent : ℕ → S → Type 0} {Taken : ℕ → R → Type 0}
    (sender : SenderLaws sends last blocks acks Sent)
    (receiver : ReceiverLaws receives last blocks acks Taken) where
  -- `k` blocks have been sent and taken, and the acknowledgement of the last of them is under way.
  pub record Waiting (k : ℕ) (net : Net S R) : Type 0 where
    pub sent : Sent k net.sender
    pub taken : Taken k net.receiver
    pub under_way : (rest : List Bytes) × (net.to_sender ≡ acks k ∷ rest)

  abbrev pub Leads : Net S R → ℕ → Type 0
  Leads start k = (net : Net S R) × Reach sends receives start net × Waiting k net

  -- The next block is under way, and is taken.
  pub block_taken :
      (start net : Net S R) (k : ℕ) (rest : List Bytes)
      → Reach sends receives start net
      → k < last
      → Sent (suc k) net.sender
      → Taken k net.receiver
      → net.to_receiver ≡ blocks (suc k) ∷ rest
      → Leads start (suc k)
  block_taken start net k rest r h s t e =
      let (t', out) = receiver.block_next k net.receiver h t in
      (
        _,
        later r (block_arrives [] rest (blocks (suc k)) e),
        record {
          sent = s;
          taken = t';
          under_way = (net.to_sender, ap (λ ds. ds ++ net.to_sender) out);
        },
      )

  one_round :
      (start net : Net S R) (k : ℕ)
      → Reach sends receives start net
      → k < last
      → Waiting k net
      → Leads start (suc k)
  one_round start net k r h w =
      let (rest, e) = w.under_way in
      let (s', out) = sender.ack_next k net.sender h w.sent in
      block_taken start
        (record net {
          sender = (sends.on_datagram net.sender (acks k)).0;
          to_receiver = (sends.on_datagram net.sender (acks k)).1 ++ net.to_receiver;
        })
        k net.to_receiver (later r (ack_arrives [] rest (acks k) e)) h s' w.taken
        (ap (λ ds. ds ++ net.to_receiver) out)

  -- From block `k` on to the last.
  pub rounds :
      (n : ℕ) (start net : Net S R) (k : ℕ)
      → k + n ≡ last
      → Reach sends receives start net
      → Waiting k net
      → Leads start last
  rounds zero start net k e r w =
      let f : k ≡ last = omega arith in (net, r, subst (λ j. Waiting j net) f w)
  rounds (suc n) start net k e r w =
      let (net', r', w') = one_round start net k r (omega arith) w in
      rounds n start net' (suc k) (omega arith) r' w'
