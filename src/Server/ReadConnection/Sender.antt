-- ===== src/Server/ReadConnection/Sender.antt =====
-- A read connection is a sender of blocks: what it does with the datagrams of its client, and on its
-- timeouts, keeps the promise of one.
use octnet_tftp.Base.{
  ℕ, zero, suc, ◌+◌, ◌/◌, ◌≤◌, ◌<◌, ◌≡◌, ◌≢◌, ◌⊎◌, inl, inr, refl, sym, ap, ap₂, ◌∙◌, subst,
  Bool-cases, List, [], ◌∷◌, Bytes, length, ==_ne, arith,
}
use octnet_tftp.Base.Int.{pred, is_pos}
use octnet_tftp.Net.{
  EndpointOps, success, cancel_timer, send_to, Outcome, sent_to, to_peer, sent_to_peer,
}
use octnet_tftp.Wire.Packet.{PacketAck}
use octnet_tftp.Io.Interface.{ReaderOps, ReaderLaws}
use octnet_tftp.Blocks.Datagrams.{
  ack_numbered, ack_of, block_datagram, ack_datagram, parse-ack_datagram, number, numbered,
}
use octnet_tftp.Network.{Machine, SenderLaws}
use octnet_tftp.Server.ReadConnection.{
  ReadConnection, receive, on_send_timeout, retry, send_prepared_packet, terminate, process_packet,
  process_ack_received,
}
use octnet_tftp.Server.ReadConnection.Events.{buffered, handled, received_packet}
use octnet_tftp.Server.ReadConnection.Others.{Other, Other-IsKept}
use octnet_tftp.Server.ReadConnection.Transfer.{InFlight, Sent, process_ack-Sent, process_ack_last}

module _ {E R : Type 0} ⦃ops : ReaderOps R⦄ ⦃endpoints : EndpointOps E⦄
    (laws : ReaderLaws R ops) where
  -- The connection as its client at `peer` knows it.
  abbrev pub read_machine : E → Machine (ReadConnection E R)
  read_machine peer = record {
    on_datagram = λ s bytes. to_peer peer (receive s peer bytes);
    on_timeout = λ s. to_peer peer (on_send_timeout s success);
    others = Other peer;
  }

  -- Block `k`, from 1 on, has been sent last.
  abbrev pub HasSent : E → Bytes → ℕ → ReadConnection E R → Type 0
  HasSent peer c zero s = ⊥
  HasSent peer c (suc k) s = InFlight laws peer c k s

  buffered-InFlight :
      {peer : E} {c : Bytes} {k : ℕ} (s : ReadConnection E R) (sender : E) (bytes : Bytes)
      → InFlight laws peer c k s
      → InFlight laws peer c k (buffered s sender bytes)
  buffered-InFlight s sender bytes f = record {
    client = f.client;
    id = f.id;
    last = f.last;
    packet = f.packet;
    rest = f.rest;
  }

  receive_ack :
      (s : ReadConnection E R) (peer : E) (n : ℕ)
      → s.client_endpoint ≡ peer
      → n < 65536
      → receive s peer (ack_datagram n)
        ≡ process_ack_received (buffered s peer (ack_datagram n)) (ack_numbered n)
  unfolding process_packet
  receive_ack s peer n x h =
      received_packet s peer (ack_datagram n) ((endpoints.same_iff _ _).1 x)
      ∙ ap (handled (buffered s peer (ack_datagram n))) (parse-ack_datagram n h)

  ack_ignored :
      (s : ReadConnection E R) (packet : PacketAck)
      → packet.block_no ≢ s.last_sent_packet_id
      → process_ack_received s packet ≡ (s, [])
  unfolding process_ack_received
  ack_ignored s packet h = rw (==_ne _ _ h)

  timeout_cases :
      (s : ReadConnection E R)
      → ((on_send_timeout s success).1 ≡ send_to s.out_packet_data s.client_endpoint ∷ [])
        ⊎ ((peer : E) → sent_to peer (on_send_timeout s success).1 ≡ [])
  unfolding on_send_timeout retry send_prepared_packet terminate
  timeout_cases s = elim (Bool-cases (is_pos (pred s.retry_counter))) [
    | inl e ↦ inl (rw e)
    | inr e ↦ inr λ peer. rw e
  ]

  timeout_state :
      (s : ReadConnection E R)
      → (on_send_timeout s success).0 ≡ record s { retry_counter = pred s.retry_counter }
  unfolding on_send_timeout retry send_prepared_packet terminate
  timeout_state s = elim (Bool-cases (is_pos (pred s.retry_counter))) [
    | inl e ↦ rw e
    | inr e ↦ rw e
  ]

  -- What is left of an outcome: the block sent last, and the datagrams to the client.
  abbrev Leaves : E → Bytes → ℕ → List Bytes → Outcome E (ReadConnection E R) → Type 0
  Leaves peer c k out outcome = HasSent peer c k outcome.0 × (sent_to peer outcome.1 ≡ out)

  ack_next :
      (peer : E) (c : Bytes) (i : ℕ) (s : ReadConnection E R)
      → length c / 512 < 65535
      → i < length c / 512
      → InFlight laws peer c i s
      → Leaves peer c
          (suc (suc i))
          (block_datagram c (suc (suc i)) ∷ [])
          (receive s peer (ack_datagram (suc i)))
  ack_next peer c i s m h f =
      let s' : ReadConnection E R = buffered s peer (ack_datagram (suc i)) in
      let one : i + 1 ≡ suc i = omega arith in
      let sent : Sent laws peer c (suc i) (cancel_timer ∷ []) (process_ack_received s' (ack_of i)) =
        subst (λ k. Sent laws peer c k (cancel_timer ∷ []) (process_ack_received s' (ack_of i))) one
          (process_ack-Sent laws peer c i s' (buffered-InFlight s peer (ack_datagram (suc i)) f)
            h) in
      subst (Leaves peer c (suc (suc i)) (block_datagram c (suc (suc i)) ∷ []))
        (sym (
          receive_ack s peer (suc i) f.client (omega arith)
          ∙ ap (process_ack_received s') (sym (numbered i (omega arith)))))
        (sent.0, ap (sent_to peer) sent.1 ∙ sent_to_peer peer (block_datagram c (suc (suc i))))

  ack_last :
      (peer : E) (c : Bytes) (s : ReadConnection E R)
      → length c / 512 < 65535
      → InFlight laws peer c (length c / 512) s
      → Leaves peer c
          (suc (length c / 512))
          []
          (receive s peer (ack_datagram (suc (length c / 512))))
  ack_last peer c s m f =
      let q : ℕ = length c / 512 in
      let s' : ReadConnection E R = buffered s peer (ack_datagram (suc q)) in
      let f' : InFlight laws peer c q s' = buffered-InFlight s peer (ack_datagram (suc q)) f in
      subst (Leaves peer c (suc q) [])
        (sym (
          receive_ack s peer (suc q) f.client (omega arith)
          ∙ ap (process_ack_received s') (sym (numbered q m))
          ∙ process_ack_last laws peer c s' f'))
        (f', refl)

  ack_other :
      (peer : E) (c : Bytes) (i j : ℕ) (s : ReadConnection E R)
      → i < 65535
      → j < 65536
      → j ≢ suc i
      → InFlight laws peer c i s
      → Leaves peer c (suc i) [] (receive s peer (ack_datagram j))
  ack_other peer c i j s m h d f =
      let s' : ReadConnection E R = buffered s peer (ack_datagram j) in
      let other : j ≢ s.last_sent_packet_id = λ e. d (e ∙ f.id ∙ number i m) in
      subst (Leaves peer c (suc i) [])
        (sym (receive_ack s peer j f.client h ∙ ack_ignored s' (ack_numbered j) other))
        (buffered-InFlight s peer (ack_datagram j) f, refl)

  timeout :
      (peer : E) (c : Bytes) (i : ℕ) (s : ReadConnection E R)
      → InFlight laws peer c i s
      → InFlight laws peer c i (on_send_timeout s success).0
        × ((sent_to peer (on_send_timeout s success).1 ≡ [])
            ⊎ (sent_to peer (on_send_timeout s success).1 ≡ block_datagram c (suc i) ∷ []))
  timeout peer c i s f = (
    subst (InFlight laws peer c i) (sym (timeout_state s))
        (record { client = f.client; id = f.id; last = f.last; packet = f.packet; rest = f.rest }),
    elim (timeout_cases s) [
      | inr none ↦ inl (none peer)
      | inl e ↦ inr (
          ap (sent_to peer) (e ∙ ap₂ (λ p x. send_to p x ∷ []) f.packet f.client)
          ∙ sent_to_peer peer (block_datagram c (suc i)))
    ],
  )

  kept-HasSent :
      (peer : E) (c : Bytes) (k : ℕ) (s : ReadConnection E R)
      {left : ReadConnection E R × List Bytes}
      → HasSent peer c k s
      → Other peer s left
      → HasSent peer c k left.0 × (left.1 ≡ [])
  kept-HasSent peer c zero s f o = absurd f
  kept-HasSent peer c (suc i) s f o =
      let (bytes, sender, is_open, e) = Other-IsKept peer s f.client o in
      subst (λ l. InFlight laws peer c i l.0 × (l.1 ≡ [])) (sym e)
        (
          record { client = f.client; id = f.id; last = f.last; packet = f.packet; rest = f.rest },
          refl,
        )

  -- A read connection for a file with fewer than 65535 full blocks keeps the promise of a sender of
  -- its blocks.
  pub read_sender :
      (peer : E) (c : Bytes)
      → length c / 512 < 65535
      → SenderLaws
          (read_machine peer)
          (suc (length c / 512))
          (block_datagram c)
          ack_datagram
          (HasSent peer c)
  read_sender peer c m = record {
    ack_next = next;
    ack_last = λ s. ack_last peer c s m;
    ack_other = other;
    sender_timeout = again;
    sender_other = λ k s left o f. kept-HasSent peer c k s f o;
  }
    where
      next :
          (k : ℕ) (s : ReadConnection E R)
          → k < suc (length c / 512)
          → HasSent peer c k s
          → Leaves peer c (suc k) (block_datagram c (suc k) ∷ []) (receive s peer (ack_datagram k))
      next zero s h f = absurd f
      next (suc i) s h f = ack_next peer c i s m (omega arith) f

      other :
          (k j : ℕ) (s : ReadConnection E R)
          → k ≤ suc (length c / 512)
          → j ≤ suc (length c / 512)
          → j ≢ k
          → HasSent peer c k s
          → Leaves peer c k [] (receive s peer (ack_datagram j))
      other zero j s h g d f = absurd f
      other (suc i) j s h g d f = ack_other peer c i j s (omega arith) (omega arith) d f

      again :
          (k : ℕ) (s : ReadConnection E R)
          → HasSent peer c k s
          → HasSent peer c k (on_send_timeout s success).0
            × ((sent_to peer (on_send_timeout s success).1 ≡ [])
                ⊎ ((0 < k)
                    × (sent_to peer (on_send_timeout s success).1 ≡ block_datagram c k ∷ [])))
      again zero s f = absurd f
      again (suc i) s f =
          let (f', out) = timeout peer c i s f in
          (f', elim out [ inl e ↦ inl e | inr e ↦ inr (omega arith, e) ])
