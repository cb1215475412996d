-- ===== src/Server/WriteConnection/Receiver.antt =====
-- A write connection is a receiver of blocks: what it does with the datagrams of its client, and on
-- its timeouts, keeps the promise of one.
use octnet_tftp.Base.{
  ℕ, zero, suc, ◌+◌, ◌/◌, ◌%◌, ◌≤◌, ◌<◌, ◌≡◌, ◌≢◌, ◌⊎◌, inl, inr, refl, sym, ap, ap₂, ◌∙◌, subst,
  false, Bool-cases, List, [], ◌∷◌, Bytes, IsByte, All, length, ◌==◌, ==_ne, ==_iff, arith,
}
use octnet_tftp.Base.Int.{pred, is_pos}
use octnet_tftp.Net.{EndpointOps, success, send_to, Outcome, sent_to, to_peer, sent_to_peer}
use octnet_tftp.Wire.Packet.{PacketData}
use octnet_tftp.Io.Interface.{WriterOps, SinkLaws}
use octnet_tftp.Blocks.Cut.{block, blocks_before}
use octnet_tftp.Blocks.Datagrams.{
  data_of, data_of-IsSent, datagram, parse-datagram, block_datagram, ack_datagram, number,
  bytes_left, bytes_left-suc,
}
use octnet_tftp.Network.{Machine, ReceiverLaws}
use octnet_tftp.Server.WriteConnection.{
  WriteConnection, receive, on_send_timeout, retry, send_prepared_packet, terminate, process_packet,
  process_data_received,
}
use octnet_tftp.Server.WriteConnection.Accept.{Taking, process_data_other, process_data-Taking}
use octnet_tftp.Server.WriteConnection.Others.{Other, Other-IsKept}
use octnet_tftp.Server.WriteConnection.Events.{buffered, handled, received_packet}

module _ {E W V : Type 0} ⦃ops : WriterOps W⦄ ⦃endpoints : EndpointOps E⦄ (laws : SinkLaws V W ops)
    (peer : E) where
  -- The connection as its client at `peer` knows it.
  abbrev pub write_machine : Machine (WriteConnection E W)
  write_machine = record {
    on_datagram = λ s bytes. to_peer peer (receive s peer bytes);
    on_timeout = λ s. to_peer peer (on_send_timeout s success);
    others = Other peer;
  }

  module _ (view : V) (c : Bytes) where
    -- The first `n` blocks have been written behind what the file had, and the last datagram is the
    -- acknowledgement of block `n`; there is room for the rest.
    pub record HasTaken (n : ℕ) (s : WriteConnection E W) : Type 0 where
      pub taking :
          Taking laws peer
            (laws.absorb view (blocks_before c n))
            (bytes_left c n)
            ((n + 1) % 65536)
            s
      pub acknowledged : s.out_packet_data ≡ ack_datagram n

    buffered-Taking :
        {v : V} {m n : ℕ} (s : WriteConnection E W) (bytes : Bytes)
        → Taking laws peer v m n s
        → Taking laws peer v m n (buffered s peer bytes)
    buffered-Taking s bytes t = record { client = t.client; expects = t.expects; writes = t.writes }

    abbrev Leaves : ℕ → List Bytes → Outcome E (WriteConnection E W) → Type 0
    Leaves n out outcome = HasTaken n outcome.0 × (sent_to peer outcome.1 ≡ out)

    receive_block :
        (s : WriteConnection E W) (k : ℕ)
        → s.client_endpoint ≡ peer
        → All IsByte c
        → receive s peer (datagram (data_of c k))
          ≡ process_data_received (buffered s peer (datagram (data_of c k))) (data_of c k)
    unfolding process_packet
    receive_block s k x b =
        received_packet s peer (datagram (data_of c k)) ((endpoints.same_iff _ _).1 x)
        ∙ ap (handled (buffered s peer (datagram (data_of c k))))
            (parse-datagram (data_of c k) (data_of-IsSent c k b))

    took_next :
        (n : ℕ) (s : WriteConnection E W)
        → n < 65535
        → All IsByte c
        → HasTaken n s
        → Leaves (suc n) (ack_datagram (suc n) ∷ []) (receive s peer (datagram (data_of c n)))
    took_next n s h b t =
        let p : PacketData = data_of c n in
        let s1 : WriteConnection E W = buffered s peer (datagram p) in
        let id : (n + 1) % 65536 ≡ suc n = number n h in
        let before : V = laws.absorb view (blocks_before c n) in
        let t1 : Taking laws peer before (length p.bytes + bytes_left c (suc n)) ((n + 1) % 65536)
            s1 =
          buffered-Taking s (datagram p) (
            subst (λ m. Taking laws peer before m ((n + 1) % 65536) s) (bytes_left-suc c n)
              t.taking) in
        let (r, es, d) =
          process_data-Taking laws peer before (bytes_left c (suc n)) ((n + 1) % 65536) s1 p
            (omega arith) ((==_iff _ _).1 refl) t1 in
        let done : WriteConnection E W = (process_data_received s1 p).0 in
        subst (Leaves (suc n) (ack_datagram (suc n) ∷ []))
          (sym (receive_block s n t.taking.client b))
          (
            record {
              taking =
                  subst (λ v. Taking laws peer v (bytes_left c (suc n)) ((suc n + 1) % 65536) done)
                    (sym (laws.absorb_append view (blocks_before c n) (block c n)))
                    (subst
                      (λ k.
                        Taking laws peer (laws.absorb before (block c n)) (bytes_left c (suc n))
                          ((k + 1) % 65536) done)
                      id r);
              acknowledged = d ∙ ap ack_datagram id;
            },
            ap (sent_to peer) es
                ∙ sent_to_peer peer (ack_datagram ((n + 1) % 65536))
                ∙ ap (λ k. ack_datagram k ∷ []) id,
          )

    passed_over :
        (n k : ℕ) (s : WriteConnection E W)
        → n ≤ 65535
        → k < 65535
        → All IsByte c
        → k ≢ n
        → HasTaken n s
        → Leaves n [] (receive s peer (datagram (data_of c k)))
    passed_over n k s l h b d t =
        let s1 : WriteConnection E W = buffered s peer (datagram (data_of c k)) in
        let other : ((data_of c k).block_no == (n + 1) % 65536) ≡ false =
          ==_ne _ _ (λ e. d (omega arith)) in
        subst (Leaves n [])
          (sym (
            receive_block s k t.taking.client b
            ∙ process_data_other laws s1 (data_of c k) ((n + 1) % 65536) t.taking.expects other))
          (
            record {
              taking = buffered-Taking s (datagram (data_of c k)) t.taking;
              acknowledged = t.acknowledged;
            },
            refl,
          )

    timeout_cases :
        (s : WriteConnection E W)
        → ((on_send_timeout s success).1 ≡ send_to s.out_packet_data s.client_endpoint ∷ [])
          ⊎ (sent_to peer (on_send_timeout s success).1 ≡ [])
    unfolding on_send_timeout retry send_prepared_packet terminate
    timeout_cases s = elim (Bool-cases (is_pos (pred s.retry_counter))) [
      | inl e ↦ inl (rw e)
      | inr e ↦ inr (rw e)
    ]

    timeout_state :
        (s : WriteConnection E W)
        → (on_send_timeout s success).0 ≡ record s { retry_counter = pred s.retry_counter }
    unfolding on_send_timeout retry send_prepared_packet terminate
    timeout_state s = elim (Bool-cases (is_pos (pred s.retry_counter))) [
      | inl e ↦ rw e
      | inr e ↦ rw e
    ]

    timeout :
        (n : ℕ) (s : WriteConnection E W)
        → HasTaken n s
        → HasTaken n (on_send_timeout s success).0
          × ((sent_to peer (on_send_timeout s success).1 ≡ [])
              ⊎ (sent_to peer (on_send_timeout s success).1 ≡ ack_datagram n ∷ []))
    timeout n s t = (
      subst (HasTaken n) (sym (timeout_state s)) (record {
        taking = record {
          client = t.taking.client;
          expects = t.taking.expects;
          writes = t.taking.writes;
        };
        acknowledged = t.acknowledged;
      }),
      elim (timeout_cases s) [
        | inr e ↦ inl e
        | inl e ↦ inr (
            ap (sent_to peer) (e ∙ ap₂ (λ p x. send_to p x ∷ []) t.acknowledged t.taking.client)
            ∙ sent_to_peer peer (ack_datagram n))
      ],
    )

    kept-HasTaken :
        (n : ℕ) (s : WriteConnection E W) (left : WriteConnection E W × List Bytes)
        → Other peer s left
        → HasTaken n s
        → HasTaken n left.0 × (left.1 ≡ [])
    kept-HasTaken n s left o t =
        let (bytes, sender, is_open, e) = Other-IsKept peer s t.taking.client o in
        subst (λ l. HasTaken n l.0 × (l.1 ≡ [])) (sym e)
          (
            record {
              taking = record {
                client = t.taking.client;
                expects = t.taking.expects;
                writes = t.taking.writes;
              };
              acknowledged = t.acknowledged;
            },
            refl,
          )

    -- A write connection keeps the promise of a receiver of the blocks of a file of bytes with fewer
    -- than 65535 full blocks.
    pub write_receiver :
        length c / 512 < 65535
        → All IsByte c
        → ReceiverLaws write_machine (suc (length c / 512)) (block_datagram c) ack_datagram HasTaken
    write_receiver m b = record {
      block_next = λ n s h t. took_next n s (omega arith) b t;
      block_other = other;
      receiver_timeout = timeout;
      receiver_other = kept-HasTaken;
    }
      where
        other :
            (n j : ℕ) (s : WriteConnection E W)
            → n ≤ suc (length c / 512)
            → 0 < j
            → j ≤ suc (length c / 512)
            → j ≢ suc n
            → HasTaken n s
            → Leaves n [] (receive s peer (block_datagram c j))
        other n zero s h p g d t = absurd (omega arith)
        other n (suc k) s h p g d t =
            passed_over n k s (omega arith) (omega arith) b (λ e. d (ap suc e)) t
