-- ===== src/Client/Put/Sender.antt =====
-- An upload is a sender of blocks: what it does with the datagrams of its connection, and on its
-- timeouts, keeps the promise of one.
use octnet_tftp.Base.{
  ℕ, zero, suc, ◌/◌, ◌<◌, ◌≡◌, ◌≢◌, ◌⊎◌, inl, inr, refl, sym, ap, ap₂, ◌∙◌, subst, Bool, true,
  false, Bool-cases, List, [], ◌∷◌, Bytes, length, ==_iff, arith,
}
use octnet_tftp.Base.Int.{ℤ, pred, is_pos}
use octnet_tftp.Net.{
  EndpointOps, success, send_to, Outcome, sent_to, to_peer, sent_to_peer, sent_elsewhere,
}
use octnet_tftp.Io.Manager.{reader_ops}
use octnet_tftp.Blocks.Cut.{length-block_full, length-block_last}
use octnet_tftp.Blocks.Datagrams.{block_datagram, ack_datagram, ltb_full, ltb_short}
use octnet_tftp.Network.{Machine, SenderLaws}
use octnet_tftp.Client.Put.{ClientPut, settle, receive, finish_or_send, on_send_timeout, stop}
use octnet_tftp.Client.Put.Receive.{
  buffered, settle_first, settle_later, stop_state, stop_sends, counted, timeout_sends,
  timeout_stops, receive_ack,
}
use octnet_tftp.Client.Put.Others.{Other, Other-IsKept}
use octnet_tftp.Client.Put.Transfer.{
  ends_short, HasRead, Sending, send_next-Sends, ack_expected, finish_more, finish_done,
  ack_ignored,
}

module _ {E : Type 0} ⦃endpoints : EndpointOps E⦄ where
  -- The upload as its connection at `peer` knows it.
  abbrev pub put_machine : E → Machine (ClientPut E)
  put_machine peer = record {
    on_datagram = λ s bytes. to_peer peer (receive s peer bytes);
    on_timeout = λ s. to_peer peer (on_send_timeout s success);
    others = Other peer;
  }

module _ {E : Type 0} ⦃endpoints : EndpointOps E⦄ (server peer : E)
    (foreign : endpoints.same server peer ≡ false) (c : Bytes) where
  -- Before the first acknowledgement the last datagram, the request, goes to the server.
  abbrev Place : ℕ → ClientPut E → Type 0
  Place zero s = (s.request_complete ≡ false) × (s.server_endpoint ≡ server)
  Place (suc n) s = Sending peer c (suc n) s

  -- Block `n` has been sent last, or for 0 the request.
  pub record HasSent (n : ℕ) (s : ClientPut E) : Type 0 where
    pub read : HasRead c n s
    pub place : Place n s

  source :
      (n : ℕ) (s : ClientPut E)
      → Place n s
      → (s.request_complete ≡ false) ⊎ (s.server_endpoint ≡ peer)
  source zero s p = inl p.0
  source (suc n) s p = inr p.1

  -- What does not matter: the buffer, the count of retries and the socket.
  kept : ClientPut E → Bytes → E → ℤ → Bool → ClientPut E
  kept s bytes sender retries is_open = record s {
    in_packet_data = bytes;
    in_packet_endpoint = sender;
    retry_counter = retries;
    socket_is_open = is_open;
  }

  kept-HasSent :
      (n : ℕ) (s : ClientPut E) (bytes : Bytes) (sender : E) (retries : ℤ) (is_open : Bool)
      → HasSent n s
      → HasSent n (kept s bytes sender retries is_open)
  unfolding kept
  kept-HasSent zero s bytes sender retries is_open t = record {
    read = record { id = t.read.id; last = t.read.last; rest = t.read.rest };
    place = t.place;
  }
  kept-HasSent (suc n) s bytes sender retries is_open t = record {
    read = record { id = t.read.id; last = t.read.last; rest = t.read.rest };
    place = t.place;
  }

  buffered-HasSent :
      (n : ℕ) (s : ClientPut E) (bytes : Bytes) → HasSent n s → HasSent n (buffered s peer bytes)
  unfolding kept
  buffered-HasSent n s bytes t = kept-HasSent n s bytes peer s.retry_counter s.socket_is_open t

  closed-HasSent :
      (n : ℕ) (s : ClientPut E) → HasSent n s → HasSent n (record s { socket_is_open = false })
  unfolding kept
  closed-HasSent n s t =
      kept-HasSent n s s.in_packet_data s.in_packet_endpoint s.retry_counter false t

  counted-HasSent : (n : ℕ) (s : ClientPut E) → HasSent n s → HasSent n (counted s)
  unfolding kept
  counted-HasSent n s t =
      kept-HasSent n s s.in_packet_data s.in_packet_endpoint (pred s.retry_counter) s.socket_is_open
        t

  Other-HasSent :
      (n : ℕ) (s : ClientPut E) (left : ClientPut E × List Bytes)
      → Other peer s left
      → HasSent n s
      → HasSent n left.0 × (left.1 ≡ [])
  unfolding kept
  Other-HasSent n s left o t =
      let (bytes, sender, is_open, e) = Other-IsKept peer s o in
      subst (λ l. HasSent n l.0 × (l.1 ≡ [])) (sym e)
        (kept-HasSent n s bytes sender s.retry_counter is_open t, refl)

  -- After an acknowledgement from `peer` the endpoint is settled.
  abbrev IsSettled : ℕ → ClientPut E → Type 0
  IsSettled n s = (s.request_complete ≡ true) × (s.server_endpoint ≡ peer) × HasRead c n s

  settle-IsSettled :
      (n : ℕ) (s : ClientPut E) → s.in_packet_endpoint ≡ peer → HasSent n s → IsSettled n (settle s)
  settle-IsSettled zero s x t =
      subst (IsSettled zero) (sym (settle_first s t.place.0))
        (refl, x, record { id = t.read.id; last = t.read.last; rest = t.read.rest })
  settle-IsSettled (suc n) s x t =
      subst (IsSettled (suc n)) (sym (settle_later s t.place.0)) (t.place.0, t.place.1, t.read)

  abbrev Leaves : ℕ → List Bytes → Outcome E (ClientPut E) → Type 0
  Leaves n out outcome = HasSent n outcome.0 × (sent_to peer outcome.1 ≡ out)

  more_left : (n : ℕ) → n < suc (length c / 512) → ends_short c n ≡ false
  more_left zero h = refl
  more_left (suc k) h = ltb_full (length-block_full c k (omega arith))

  acknowledged :
      (n : ℕ) (s : ClientPut E)
      → n < 65536
      → HasSent n s
      → receive s peer (ack_datagram n) ≡ finish_or_send (settle (buffered s peer (ack_datagram n)))
  acknowledged n s h t =
      receive_ack s peer n h (source n s t.place)
      ∙ ack_expected (buffered s peer (ack_datagram n)) n ((==_iff _ _).1 t.read.id)

  ack_next :
      (n : ℕ) (s : ClientPut E)
      → length c / 512 < 65535
      → n < suc (length c / 512)
      → HasSent n s
      → Leaves (suc n) (block_datagram c (suc n) ∷ []) (receive s peer (ack_datagram n))
  ack_next n s m h t =
      let s1 : ClientPut E = buffered s peer (ack_datagram n) in
      let (done, x, r) = settle-IsSettled n s1 refl (buffered-HasSent n s (ack_datagram n) t) in
      let l : (settle s1).last_packet_sent ≡ false = r.last ∙ more_left n h in
      let (r', p, es) = send_next-Sends peer c n (settle s1) (omega arith) done x l r in
      subst (Leaves (suc n) (block_datagram c (suc n) ∷ []))
        (sym (acknowledged n s (omega arith) t ∙ finish_more (settle s1) l))
        (
          record { read = r'; place = p },
          ap (sent_to peer) es ∙ sent_to_peer peer (block_datagram c (suc n)),
        )

  ack_last :
      (s : ClientPut E)
      → length c / 512 < 65535
      → HasSent (suc (length c / 512)) s
      → Leaves (suc (length c / 512)) [] (receive s peer (ack_datagram (suc (length c / 512))))
  ack_last s m t =
      let n : ℕ = suc (length c / 512) in
      let s1 : ClientPut E = buffered s peer (ack_datagram n) in
      let t1 : HasSent n s1 = buffered-HasSent n s (ack_datagram n) t in
      let l : s1.last_packet_sent ≡ true = t.read.last ∙ ltb_short (length-block_last c) in
      let whole : receive s peer (ack_datagram n) ≡ stop s1 =
        acknowledged n s (omega arith) t
        ∙ ap finish_or_send (settle_later s1 t1.place.0)
        ∙ finish_done s1 l in
      subst (Leaves n []) (sym whole)
        (subst (HasSent n) (sym (stop_state s1)) (closed-HasSent n s1 t1), stop_sends s1 peer)

  ack_other :
      (n j : ℕ) (s : ClientPut E)
      → j < 65536
      → j ≢ n
      → HasSent n s
      → Leaves n [] (receive s peer (ack_datagram j))
  ack_other n j s h d t =
      subst (Leaves n [])
        (sym (
          receive_ack s peer j h (source n s t.place)
          ∙ ack_ignored (buffered s peer (ack_datagram j)) n j t.read.id d))
        (buffered-HasSent n s (ack_datagram j) t, refl)

  abbrev Repeated : ℕ → Outcome E (ClientPut E) → Type 0
  Repeated n outcome =
      HasSent n outcome.0
      × ((sent_to peer outcome.1 ≡ [])
          ⊎ ((0 < n) × (sent_to peer outcome.1 ≡ block_datagram c n ∷ [])))

  repeat_sends :
      (n : ℕ) (s : ClientPut E)
      → HasSent n s
      → (sent_to peer (send_to s.out_packet_data s.server_endpoint ∷ []) ≡ [])
        ⊎ ((0 < n)
            × (sent_to peer (send_to s.out_packet_data s.server_endpoint ∷ [])
                ≡ block_datagram c n ∷ []))
  repeat_sends zero s t = inl (
      ap (λ x. sent_to peer (send_to s.out_packet_data x ∷ [])) t.place.1
      ∙ sent_elsewhere peer server s.out_packet_data foreign)
  repeat_sends (suc n) s t =
      let (done, x, e) = t.place in
      inr (
        omega arith,
        ap₂ (λ bytes y. sent_to peer (send_to bytes y ∷ [])) e x
            ∙ sent_to_peer peer (block_datagram c (suc n)),
      )

  timeout : (n : ℕ) (s : ClientPut E) → HasSent n s → Repeated n (on_send_timeout s success)
  timeout n s t = elim (Bool-cases (is_pos (pred s.retry_counter))) [
    | inl e ↦
        subst (Repeated n) (sym (timeout_sends s e)) (counted-HasSent n s t, repeat_sends n s t)
    | inr e ↦ subst (Repeated n) (sym (timeout_stops s e)) (
      subst (HasSent n) (sym (stop_state (counted s)))
          (closed-HasSent n (counted s) (counted-HasSent n s t)),
      inl (stop_sends (counted s) peer),
    )
  ]

  -- An upload of a file with fewer than 65535 full blocks keeps the promise of a sender of its blocks.
  pub put_sender :
      length c / 512 < 65535
      → SenderLaws (put_machine peer) (suc (length c / 512)) (block_datagram c) ack_datagram HasSent
  put_sender m = record {
    ack_next = λ n s h t. ack_next n s m h t;
    ack_last = λ s t. ack_last s m t;
    ack_other = λ n j s h g d t. ack_other n j s (omega arith) d t;
    sender_timeout = timeout;
    sender_other = Other-HasSent;
  }
