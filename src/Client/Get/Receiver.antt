-- ===== src/Client/Get/Receiver.antt =====
-- A download is a receiver of blocks: what it does with the datagrams of its connection, and on its
-- timeouts, keeps the promise of one.
use octnet_tftp.Base.{
  ℕ, zero, suc, ◌+◌, ◌/◌, ◌≤◌, ◌<◌, ◌≡◌, ◌≢◌, ◌⊎◌, inl, inr, refl, sym, ap, ap₂, ◌∙◌, subst, Bool,
  false, Bool-cases, List, [], ◌∷◌, Bytes, IsByte, All, length, ◌==◌, ==_ne, ==_iff, arith,
}
use octnet_tftp.Base.Int.{ℤ, pred, is_pos}
use octnet_tftp.Net.{
  EndpointOps, success, send_to, Outcome, sent_to, to_peer, sent_to_peer, sent_elsewhere,
}
use octnet_tftp.Wire.Packet.{PacketData}
use octnet_tftp.Io.File.{FileSystem}
use octnet_tftp.Io.Manager.Writers.{View, absorb, absorb_append}
use octnet_tftp.Blocks.Cut.{block, blocks_before}
use octnet_tftp.Blocks.Datagrams.{
  data_of, data_of-IsSent, datagram, block_datagram, ack_datagram, number, bytes_left,
  bytes_left-suc,
}
use octnet_tftp.Network.{Machine, ReceiverLaws}
use octnet_tftp.Client.Get.{ClientGet, receive, on_send_timeout, open_writer}
use octnet_tftp.Client.Get.Retries.{stop_state, stop_sends, counted, timeout_sends, timeout_stops}
use octnet_tftp.Client.Get.Others.{Other, Other-IsKept}
use octnet_tftp.Client.Get.Transfer.{Ready, Acknowledged}
use octnet_tftp.Client.Get.Receive.{buffered, take_next, pass_over, buffered-Ready}

module _ {E : Type 0} ⦃endpoints : EndpointOps E⦄ (fs : FileSystem) (peer : E) where
  -- The download as its connection at `peer` knows it.
  abbrev pub get_machine : Machine (ClientGet E)
  get_machine = record {
    on_datagram = λ s bytes. to_peer peer (receive fs s peer bytes);
    on_timeout = λ s. to_peer peer (on_send_timeout s success);
    others = Other fs peer;
  }

module _ {E : Type 0} ⦃endpoints : EndpointOps E⦄ (fs : FileSystem) (server peer : E)
    (foreign : endpoints.same server peer ≡ false) (view : View) (c : Bytes) where
  -- The datagram that a timeout sends: the request, which goes to the server, or an acknowledgement.
  abbrev Repeats : ℕ → ClientGet E → Type 0
  Repeats zero s = s.server_endpoint ≡ server
  Repeats (suc n) s = Acknowledged peer (suc n) s

  -- The first `n` blocks have been taken: they stand in the file behind what it had, and there is
  -- room for the rest.
  pub record HasTaken (n : ℕ) (s : ClientGet E) : Type 0 where
    pub ready : Ready fs peer (absorb view (blocks_before c n)) (bytes_left c n) n s
    pub repeats : Repeats n s

  buffered-HasTaken :
      (n : ℕ) (s : ClientGet E) (bytes : Bytes) → HasTaken n s → HasTaken n (buffered s peer bytes)
  buffered-HasTaken zero s bytes t = record {
    ready = buffered-Ready fs s bytes t.ready;
    repeats = t.repeats;
  }
  buffered-HasTaken (suc n) s bytes t = record {
    ready = buffered-Ready fs s bytes t.ready;
    repeats = t.repeats;
  }

  abbrev Leaves : ℕ → List Bytes → Outcome E (ClientGet E) → Type 0
  Leaves n out outcome = HasTaken n outcome.0 × (sent_to peer outcome.1 ≡ out)

  took_next :
      (n : ℕ) (s : ClientGet E)
      → n < 65535
      → All IsByte c
      → HasTaken n s
      → Leaves (suc n) (ack_datagram (suc n) ∷ []) (receive fs s peer (datagram (data_of c n)))
  took_next n s h b t =
      let p : PacketData = data_of c n in
      let id : p.block_no ≡ suc n = number n h in
      let before : View = absorb view (blocks_before c n) in
      let t1 : Ready fs peer before (length p.bytes + bytes_left c (suc n)) n s =
        subst (λ m. Ready fs peer before m n s) (bytes_left-suc c n) t.ready in
      let (r, a, es) =
        take_next fs peer before (bytes_left c (suc n)) n s p (data_of-IsSent c n b)
          ((==_iff _ _).1 (omega arith)) t1 in
      let done : ClientGet E = (receive fs s peer (datagram p)).0 in
      (
        record {
          ready =
              subst (λ v. Ready fs peer v (bytes_left c (suc n)) (suc n) done)
                (sym (absorb_append view (blocks_before c n) (block c n)))
                (subst
                  (λ k. Ready fs peer (absorb before (block c n)) (bytes_left c (suc n)) k done) id
                  r);
          repeats = subst (λ k. Acknowledged peer k done) id a;
        },
        ap (sent_to peer) es
            ∙ sent_to_peer peer (ack_datagram p.block_no)
            ∙ ap (λ k. ack_datagram k ∷ []) id,
      )

  passed_over :
      (n k : ℕ) (s : ClientGet E)
      → k < 65535
      → All IsByte c
      → k ≢ n
      → HasTaken n s
      → Leaves n [] (receive fs s peer (datagram (data_of c k)))
  passed_over n k s h b d t =
      let p : PacketData = data_of c k in
      let other : (n + 1 == p.block_no) ≡ false =
        ==_ne _ _ (λ e. d (omega (arith, e, number k h))) in
      subst (Leaves n []) (sym (pass_over fs peer _ _ n s p (data_of-IsSent c k b) other t.ready))
        (buffered-HasTaken n s (datagram p) t, refl)

  -- The buffer, the count of retries and the socket do not matter.
  rebuilt : ClientGet E → Bytes → E → ℤ → Bool → ClientGet E
  rebuilt s bytes sender retries is_open = record s {
    in_packet_data = bytes;
    in_packet_endpoint = sender;
    retry_counter = retries;
    socket_is_open = is_open;
  }

  rebuilt-Ready :
      {before : View} {m n : ℕ} (s : ClientGet E) (bytes : Bytes) (sender : E) (retries : ℤ)
      (is_open : Bool)
      → Ready fs peer before m n s
      → Ready fs peer before m n (rebuilt s bytes sender retries is_open)
  unfolding open_writer rebuilt
  rebuilt-Ready s bytes sender retries is_open t = record { last = t.last; file = t.file }

  rebuilt-HasTaken :
      (n : ℕ) (s : ClientGet E) (bytes : Bytes) (sender : E) (retries : ℤ) (is_open : Bool)
      → HasTaken n s
      → HasTaken n (rebuilt s bytes sender retries is_open)
  unfolding rebuilt
  rebuilt-HasTaken zero s bytes sender retries is_open t = record {
    ready = rebuilt-Ready s bytes sender retries is_open t.ready;
    repeats = t.repeats;
  }
  rebuilt-HasTaken (suc n) s bytes sender retries is_open t = record {
    ready = rebuilt-Ready s bytes sender retries is_open t.ready;
    repeats = t.repeats;
  }

  counted-HasTaken :
      (n : ℕ) (s : ClientGet E) (is_open : Bool)
      → HasTaken n s
      → HasTaken n (record (counted s) { socket_is_open = is_open })
  unfolding rebuilt
  counted-HasTaken n s is_open t =
      rebuilt-HasTaken n s s.in_packet_data s.in_packet_endpoint (pred s.retry_counter) is_open t

  Other-HasTaken :
      (n : ℕ) (s : ClientGet E) (left : ClientGet E × List Bytes)
      → Other fs peer s left
      → HasTaken n s
      → HasTaken n left.0 × (left.1 ≡ [])
  unfolding rebuilt
  Other-HasTaken n s left o t =
      let (bytes, sender, is_open, e) = Other-IsKept fs peer s o in
      subst (λ l. HasTaken n l.0 × (l.1 ≡ [])) (sym e)
        (rebuilt-HasTaken n s bytes sender s.retry_counter is_open t, refl)

  abbrev Repeated : ℕ → Outcome E (ClientGet E) → Type 0
  Repeated n outcome =
      HasTaken n outcome.0
      × ((sent_to peer outcome.1 ≡ []) ⊎ (sent_to peer outcome.1 ≡ ack_datagram n ∷ []))

  repeat_sends :
      (n : ℕ) (s : ClientGet E)
      → HasTaken n s
      → (sent_to peer (send_to s.out_packet_data s.server_endpoint ∷ []) ≡ [])
        ⊎ (sent_to peer (send_to s.out_packet_data s.server_endpoint ∷ []) ≡ ack_datagram n ∷ [])
  repeat_sends zero s t = inl (
      ap (λ x. sent_to peer (send_to s.out_packet_data x ∷ [])) t.repeats
      ∙ sent_elsewhere peer server s.out_packet_data foreign)
  repeat_sends (suc n) s t =
      let (c', x, e) = t.repeats in
      inr (
        ap₂ (λ bytes y. sent_to peer (send_to bytes y ∷ [])) e x
        ∙ sent_to_peer peer (ack_datagram (suc n)))

  timeout : (n : ℕ) (s : ClientGet E) → HasTaken n s → Repeated n (on_send_timeout s success)
  timeout n s t = elim (Bool-cases (is_pos (pred s.retry_counter))) [
    | inl e ↦
        subst (Repeated n) (sym (timeout_sends s e))
          (counted-HasTaken n s s.socket_is_open t, repeat_sends n s t)
    | inr e ↦ subst (Repeated n) (sym (timeout_stops s e)) (
      subst (HasTaken n) (sym (stop_state (counted s))) (counted-HasTaken n s false t),
      inl (stop_sends (counted s) peer),
    )
  ]

  -- A download of a file of bytes with fewer than 65535 full blocks keeps the promise of a receiver
  -- of its blocks.
  pub get_receiver :
      length c / 512 < 65535
      → All IsByte c
      → ReceiverLaws
          (get_machine fs peer)
          (suc (length c / 512))
          (block_datagram c)
          ack_datagram
          HasTaken
  get_receiver m b = record {
    block_next = λ n s h t. took_next n s (omega arith) b t;
    block_other = other;
    receiver_timeout = timeout;
    receiver_other = Other-HasTaken;
  }
    where
      other :
          (n j : ℕ) (s : ClientGet E)
          → n ≤ suc (length c / 512)
          → 0 < j
          → j ≤ suc (length c / 512)
          → j ≢ suc n
          → HasTaken n s
          → Leaves n [] (receive fs s peer (block_datagram c j))
      other n zero s h p g d t = absurd (omega arith)
      other n (suc k) s h p g d t = passed_over n k s (omega arith) b (λ e. d (ap suc e)) t
