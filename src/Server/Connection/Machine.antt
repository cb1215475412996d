-- ===== src/Server/Connection/Machine.antt =====
-- A connection of either class as a machine of the network: a read connection sends blocks, and a
-- write connection takes them.
use octnet_tftp.Base.{ℕ, suc, ◌≤◌, ◌<◌, ◌≡◌, ◌≢◌, ◌⊎◌, ap, false, List, [], ◌∷◌, Bytes}
use octnet_tftp.Net.{EndpointOps, success, sent_to, to_peer}
use octnet_tftp.Io.Interface.{ReaderOps, ReaderLaws, WriterOps, SinkLaws}
use octnet_tftp.Network.{Machine, SenderLaws, ReceiverLaws}
use octnet_tftp.Server.ReadConnection.{ReadConnection}
use octnet_tftp.Server.ReadConnection.Sender.{read_machine}
use octnet_tftp.Server.ReadConnection.Others as ReadOthers
use octnet_tftp.Server.WriteConnection.{WriteConnection}
use octnet_tftp.Server.WriteConnection.Receiver.{write_machine}
use octnet_tftp.Server.WriteConnection.Others as WriteOthers
use octnet_tftp.Server.Connection.{
  Connection, reads, writes, Completion, packet_sent, send_timeout, packet_received, datagram,
  complete, stop,
}

module _ {E : Type 0} ⦃endpoints : EndpointOps E⦄ (peer : E) where
  -- Any completion but the timeout and a datagram of the client.
  abbrev pub IsOther : Completion E → Type 0
  IsOther (packet_sent ec) = Unit
  IsOther (send_timeout ec) = ec ≢ success
  IsOther (packet_received ec n) = ec ≢ success
  IsOther (datagram sender bytes) = endpoints.same peer sender ≡ false

module _ {E R W : Type 0} ⦃readers : ReaderOps R⦄ ⦃writers : WriterOps W⦄
    ⦃endpoints : EndpointOps E⦄ (peer : E) where
  pub data Other (c : Connection E R W) : Connection E R W × List Bytes → Type 0 where
    completes : (k : Completion E) → IsOther peer k → Other c (to_peer peer (complete k c))
    stops : Other c (to_peer peer (stop c))

  -- The connection as its client at `peer` knows it.
  abbrev pub connection_machine : Machine (Connection E R W)
  connection_machine = record {
    on_datagram = λ c bytes. to_peer peer (complete (datagram peer bytes) c);
    on_timeout = λ c. to_peer peer (complete (send_timeout success) c);
    others = Other;
  }

  -- A stop sends nothing.
  pub stop_quiet : (c : Connection E R W) → sent_to peer (stop c).1 ≡ []
  unfolding stop
  stop_quiet (reads s) = ap (λ o. o.1) (ReadOthers.stop-IsKept peer s).3
  stop_quiet (writes s) = ap (λ o. o.1) (WriteOthers.stop-IsKept peer s).3

  abbrev pub Reading : (ℕ → ReadConnection E R → Type 0) → ℕ → Connection E R W → Type 0
  Reading At k (reads s) = At k s
  Reading At k (writes s) = ⊥

  abbrev pub Writing : (ℕ → WriteConnection E W → Type 0) → ℕ → Connection E R W → Type 0
  Writing At k (reads s) = ⊥
  Writing At k (writes s) = At k s

  reads-Other :
      (laws : ReaderLaws R readers) {last : ℕ} {blocks acks : ℕ → Bytes}
      {At : ℕ → ReadConnection E R → Type 0} (k : ℕ) (c : Connection E R W)
      (left : Connection E R W × List Bytes)
      → SenderLaws (read_machine laws peer) last blocks acks At
      → Other c left
      → Reading At k c
      → Reading At k left.0 × (left.1 ≡ [])
  unfolding complete stop
  reads-Other laws k (writes s) left sender o h = absurd h
  reads-Other laws k (reads s) _ sender stops h = sender.sender_other k s _ ReadOthers.stops h
  reads-Other laws k (reads s) _ sender (completes (packet_sent ec) x) h =
      sender.sender_other k s _ (ReadOthers.packet_sent ec) h
  reads-Other laws k (reads s) _ sender (completes (send_timeout ec) x) h =
      sender.sender_other k s _ (ReadOthers.timer_fails ec x) h
  reads-Other laws k (reads s) _ sender (completes (packet_received ec n) x) h =
      sender.sender_other k s _ (ReadOthers.receive_fails ec n x) h
  reads-Other laws k (reads s) _ sender (completes (datagram from bytes) x) h =
      sender.sender_other k s _ (ReadOthers.stranger_sends from bytes x) h

  writes-Other :
      {V : Type 0} (laws : SinkLaws V W writers) {last : ℕ} {blocks acks : ℕ → Bytes}
      {At : ℕ → WriteConnection E W → Type 0} (k : ℕ) (c : Connection E R W)
      (left : Connection E R W × List Bytes)
      → ReceiverLaws (write_machine laws peer) last blocks acks At
      → Other c left
      → Writing At k c
      → Writing At k left.0 × (left.1 ≡ [])
  unfolding complete stop
  writes-Other laws k (reads s) left receiver o h = absurd h
  writes-Other laws k (writes s) _ receiver stops h =
      receiver.receiver_other k s _ WriteOthers.stops h
  writes-Other laws k (writes s) _ receiver (completes (packet_sent ec) x) h =
      receiver.receiver_other k s _ (WriteOthers.packet_sent ec) h
  writes-Other laws k (writes s) _ receiver (completes (send_timeout ec) x) h =
      receiver.receiver_other k s _ (WriteOthers.timer_fails ec x) h
  writes-Other laws k (writes s) _ receiver (completes (packet_received ec n) x) h =
      receiver.receiver_other k s _ (WriteOthers.receive_fails ec n x) h
  writes-Other laws k (writes s) _ receiver (completes (datagram from bytes) x) h =
      receiver.receiver_other k s _ (WriteOthers.stranger_sends from bytes x) h

  -- What a read connection promises its client, it promises as a connection of the server.
  pub reads_sender :
      (laws : ReaderLaws R readers) {last : ℕ} {blocks acks : ℕ → Bytes}
      {At : ℕ → ReadConnection E R → Type 0}
      → SenderLaws (read_machine laws peer) last blocks acks At
      → SenderLaws connection_machine last blocks acks (Reading At)
  unfolding complete
  reads_sender laws {last} {blocks} {acks} {At} sender = record {
    ack_next = next;
    ack_last = at_last;
    ack_other = not_next;
    sender_timeout = again;
    sender_other = λ k c left o h. reads-Other laws k c left sender o h;
  }
    where
      -- The connection after a datagram, and what it sends.
      Leaves : ℕ → List Bytes → Connection E R W × List Bytes → Type 0
      Leaves k out left = Reading At k left.0 × (left.1 ≡ out)

      next :
          (k : ℕ) (c : Connection E R W)
          → k < last
          → Reading At k c
          → Leaves (suc k) (blocks (suc k) ∷ []) (connection_machine.on_datagram c (acks k))
      next k (reads s) h t = sender.ack_next k s h t
      next k (writes s) h t = absurd t

      at_last :
          (c : Connection E R W)
          → Reading At last c
          → Leaves last [] (connection_machine.on_datagram c (acks last))
      at_last (reads s) t = sender.ack_last s t
      at_last (writes s) t = absurd t

      not_next :
          (k j : ℕ) (c : Connection E R W)
          → k ≤ last
          → j ≤ last
          → j ≢ k
          → Reading At k c
          → Leaves k [] (connection_machine.on_datagram c (acks j))
      not_next k j (reads s) h g d t = sender.ack_other k j s h g d t
      not_next k j (writes s) h g d t = absurd t

      again :
          (k : ℕ) (c : Connection E R W)
          → Reading At k c
          → Reading At k (connection_machine.on_timeout c).0
            × (((connection_machine.on_timeout c).1 ≡ [])
                ⊎ ((0 < k) × ((connection_machine.on_timeout c).1 ≡ blocks k ∷ [])))
      again k (reads s) t = sender.sender_timeout k s t
      again k (writes s) t = absurd t

  -- What a write connection promises its client, it promises as a connection of the server.
  pub writes_receiver :
      {V : Type 0} (laws : SinkLaws V W writers) {last : ℕ} {blocks acks : ℕ → Bytes}
      {At : ℕ → WriteConnection E W → Type 0}
      → ReceiverLaws (write_machine laws peer) last blocks acks At
      → ReceiverLaws connection_machine last blocks acks (Writing At)
  unfolding complete
  writes_receiver laws {last} {blocks} {acks} {At} receiver = record {
    block_next = next;
    block_other = not_next;
    receiver_timeout = again;
    receiver_other = λ k c left o h. writes-Other laws k c left receiver o h;
  }
    where
      Leaves : ℕ → List Bytes → Connection E R W × List Bytes → Type 0
      Leaves k out left = Writing At k left.0 × (left.1 ≡ out)

      next :
          (n : ℕ) (c : Connection E R W)
          → n < last
          → Writing At n c
          → Leaves (suc n) (acks (suc n) ∷ []) (connection_machine.on_datagram c (blocks (suc n)))
      next n (reads s) h t = absurd t
      next n (writes s) h t = receiver.block_next n s h t

      not_next :
          (n j : ℕ) (c : Connection E R W)
          → n ≤ last
          → 0 < j
          → j ≤ last
          → j ≢ suc n
          → Writing At n c
          → Leaves n [] (connection_machine.on_datagram c (blocks j))
      not_next n j (reads s) h p g d t = absurd t
      not_next n j (writes s) h p g d t = receiver.block_other n j s h p g d t

      again :
          (n : ℕ) (c : Connection E R W)
          → Writing At n c
          → Writing At n (connection_machine.on_timeout c).0
            × (((connection_machine.on_timeout c).1 ≡ [])
                ⊎ ((connection_machine.on_timeout c).1 ≡ acks n ∷ []))
      again n (reads s) t = absurd t
      again n (writes s) t = receiver.receiver_timeout n s t
