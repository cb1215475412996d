-- ===== src/Server/Registry/Machine/Promises.antt =====
-- The promises of a connection and those of the server that it belongs to.
use octnet_tftp.Base.{ℕ, suc, ◌<◌, ◌≡◌, ◌∙◌, inl, inr, some, List, [], Bytes}
use octnet_tftp.Net.{EndpointOps, success, sent_to}
use octnet_tftp.Io.Interface.{ReaderOps, WriterOps}
use octnet_tftp.Io.Manager.{IoManager}
use octnet_tftp.Network.{SenderLaws, ReceiverLaws}
use octnet_tftp.Server.Result.{SocketSetup}
use octnet_tftp.Server.Connection.{Connection, send_timeout, datagram, complete}
use octnet_tftp.Server.Connection
use octnet_tftp.Server.Connection.Machine.{connection_machine, completes, stops}
use octnet_tftp.Server.Connection.Machine as Alone
use octnet_tftp.Server.Registry.{Registry, complete_at}
use octnet_tftp.Server.Registry.Apart.{Holds, stop_all-Holds}
use octnet_tftp.Server.Registry.Sent.{stop_all_sends}
use octnet_tftp.Server.Registry.Machine.{
  Other, request_arrives, completes_elsewhere, completes_here, server_stops, server_machine, Leaves,
  completed-Leaves, completed_elsewhere-Leaves, request-Leaves,
}

module _ {E R W : Type 0} ⦃readers : ReaderOps R⦄ ⦃writers : WriterOps W⦄
    ⦃endpoints : EndpointOps E⦄ (m : IoManager R W) (setups : ℕ → SocketSetup) (a : ℕ)
    (peer : E) where
  -- A property that the connection keeps through all else that happens to it, it keeps in the server.
  Other-Leaves :
      (P : Connection E R W → Type 0) (s : Registry E R W) (left : Registry E R W × List Bytes)
      → ((c : Connection E R W) (alone : Connection E R W × List Bytes)
          → Alone.Other peer c alone
          → P c
          → P alone.0 × (alone.1 ≡ []))
      → Other m setups a peer s left
      → Holds a P s
      → Holds a P left.0 × (left.1 ≡ [])
  Other-Leaves P s _ keeps (request_arrives packet client) h =
      request-Leaves m setups a peer P (λ c p. (keeps c _ stops p).0) packet client s h
  Other-Leaves P s _ keeps (completes_elsewhere b k x) h =
      completed_elsewhere-Leaves m setups a peer P (λ c p. (keeps c _ stops p).0) b k s x h
  Other-Leaves P s _ keeps (completes_here k x) (l, (c, e, p)) =
      let (p', out) = keeps c _ (completes k x) p in
      let (h, sent) =
        completed-Leaves m setups a peer P (λ c p. (keeps c _ stops p).0) c k s l e p' in
      (h, sent ∙ out)
  Other-Leaves P s _ keeps server_stops h = (
    stop_all-Holds a P (λ c p. (keeps c _ stops p).0) s.connections s h,
    stop_all_sends a peer s.connections s,
  )

  -- A server keeps the promise of a sender of blocks that a connection of it keeps alone, whatever
  -- else the server does.
  pub server_sender :
      {last : ℕ} {blocks acks : ℕ → Bytes} {At : ℕ → Connection E R W → Type 0}
      → SenderLaws (connection_machine peer) last blocks acks At
      → SenderLaws (server_machine m setups a peer) last blocks acks (λ k. Holds a (At k))
  server_sender {last} {blocks} {acks} {At} sender = record {
    ack_next = λ k s h (l, (c, e, t)).
        let (t', out) = sender.ack_next k c h t in
        let (i, sent) = arrives (suc k) k c s l e t' in (i, sent ∙ out);
    ack_last = λ s (l, (c, e, t)).
        let (t', out) = sender.ack_last c t in
        let (i, sent) = arrives last last c s l e t' in (i, sent ∙ out);
    ack_other = λ k j s h g d (l, (c, e, t)).
        let (t', out) = sender.ack_other k j c h g d t in
        let (i, sent) = arrives k j c s l e t' in (i, sent ∙ out);
    sender_timeout = λ k s (l, (c, e, t)).
        let (t', out) = sender.sender_timeout k c t in
        let (i, sent) =
          completed-Leaves m setups a peer (At k) (stays k) c (send_timeout success) s l e t' in
        (i, elim out [ inl x ↦ inl (sent ∙ x) | inr (p, x) ↦ inr (p, sent ∙ x) ]);
    sender_other = λ k s left o h. Other-Leaves (At k) s left (sender.sender_other k) o h;
  }
    where
      stays : (k : ℕ) (c : Connection E R W) → At k c → At k (Connection.stop c).0
      stays k c t = (sender.sender_other k c _ stops t).0

      arrives :
          (k j : ℕ) (c : Connection E R W) (s : Registry E R W)
          → a < s.next_address
          → s.objects a ≡ some c
          → At k (complete (datagram peer (acks j)) c).0
          → Leaves m setups a peer
              (At k)
              (sent_to peer (complete (datagram peer (acks j)) c).1)
              (complete_at a (datagram peer (acks j)) s)
      arrives k j c s l e t =
          completed-Leaves m setups a peer (At k) (stays k) c (datagram peer (acks j)) s l e t

  -- The same for a receiver of blocks.
  pub server_receiver :
      {last : ℕ} {blocks acks : ℕ → Bytes} {At : ℕ → Connection E R W → Type 0}
      → ReceiverLaws (connection_machine peer) last blocks acks At
      → ReceiverLaws (server_machine m setups a peer) last blocks acks (λ n. Holds a (At n))
  server_receiver {last} {blocks} {acks} {At} receiver = record {
    block_next = λ n s h (l, (c, e, t)).
        let (t', out) = receiver.block_next n c h t in
        let (i, sent) = arrives (suc n) (suc n) c s l e t' in (i, sent ∙ out);
    block_other = λ n j s h p g d (l, (c, e, t)).
        let (t', out) = receiver.block_other n j c h p g d t in
        let (i, sent) = arrives n j c s l e t' in (i, sent ∙ out);
    receiver_timeout = λ n s (l, (c, e, t)).
        let (t', out) = receiver.receiver_timeout n c t in
        let (i, sent) =
          completed-Leaves m setups a peer (At n) (stays n) c (send_timeout success) s l e t' in
        (i, elim out [ inl x ↦ inl (sent ∙ x) | inr x ↦ inr (sent ∙ x) ]);
    receiver_other = λ n s left o h. Other-Leaves (At n) s left (receiver.receiver_other n) o h;
  }
    where
      stays : (n : ℕ) (c : Connection E R W) → At n c → At n (Connection.stop c).0
      stays n c t = (receiver.receiver_other n c _ stops t).0

      arrives :
          (n j : ℕ) (c : Connection E R W) (s : Registry E R W)
          → a < s.next_address
          → s.objects a ≡ some c
          → At n (complete (datagram peer (blocks j)) c).0
          → Leaves m setups a peer
              (At n)
              (sent_to peer (complete (datagram peer (blocks j)) c).1)
              (complete_at a (datagram peer (blocks j)) s)
      arrives n j c s l e t =
          completed-Leaves m setups a peer (At n) (stays n) c (datagram peer (blocks j)) s l e t
