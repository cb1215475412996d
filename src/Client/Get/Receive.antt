-- ===== src/Client/Get/Receive.antt =====
-- A download from the datagrams on: each that holds a DATA packet of the server is parsed and
-- handled.
use octnet_tftp.Base.{
  ℕ, All, ◌+◌, ◌≡◌, ◌⊎◌, refl, sym, ap, ap₂, ◌∙◌, subst, inl, inr, Bool, true, false, not,
  Bool-cases, some, List, [], ◌∷◌, ◌++◌, Bytes, take, take_all, length, flatten, length-append,
  ◌==◌, ◌&&◌, arith,
}
use octnet_tftp.Net.{EndpointOps, Effect, Outcome}
use octnet_tftp.Wire.Packet.{max_recv_packet_size, PacketData, data_packet}
use octnet_tftp.Wire.Parser.{parse_packet}
use octnet_tftp.Wire.Parser.RoundTrip.{parse_packet-build_packet}
use octnet_tftp.Io.File.{FileSystem}
use octnet_tftp.Io.Manager.{writer_ops}
use octnet_tftp.Io.Manager.Writers.{View, absorb, absorb_nil, absorb_append}
use octnet_tftp.Client.Get.{
  ClientGet, open_writer, process_data_received, process_packet, on_packet_received, receive,
}
use octnet_tftp.Blocks.Datagrams.{IsSent, datagram, take-datagram}
use octnet_tftp.Client.Get.Transfer.{
  accepted, acked_after_all, answers, Ready, Took, process_data_other, process_data-Took,
}

and_false : (b : Bool) → (b && false) ≡ false
and_false true = refl
and_false false = refl

room_split : (xs ys : Bytes) (m : ℕ) → length (xs ++ ys) + m ≡ length xs + (length ys + m)
room_split xs ys m = omega (arith, length-append {0} xs ys)

module _ {E : Type 0} where
  -- The state with a datagram in its buffer.
  abbrev pub buffered : ClientGet E → E → Bytes → ClientGet E
  buffered s peer bytes = record s { in_packet_data = bytes; in_packet_endpoint = peer }

module _ {E : Type 0} (fs : FileSystem) where
  module _ ⦃endpoints : EndpointOps E⦄ where
    receive_parsed :
        (s : ClientGet E) (peer : E) (bytes : Bytes) (p : PacketData)
        → parse_packet (take max_recv_packet_size bytes) ≡ some (data_packet p)
        → (s.request_complete && not (endpoints.same s.server_endpoint peer)) ≡ false
        → receive fs s peer bytes
          ≡ process_data_received fs (buffered s peer (take max_recv_packet_size bytes)) p
    unfolding receive on_packet_received process_packet
    receive_parsed s peer bytes p e h =
        let taken : Bytes = take max_recv_packet_size bytes in
        let all : take (length taken) taken ≡ taken = take_all (length taken) taken (omega arith) in
        rw (h, all, e)

    from_peer :
        (s : ClientGet E) (peer : E)
        → (s.request_complete ≡ false) ⊎ (s.server_endpoint ≡ peer)
        → (s.request_complete && not (endpoints.same s.server_endpoint peer)) ≡ false
    from_peer s peer (inl c) = rw c
    from_peer s peer (inr x) = rw ((endpoints.same_iff _ _).1 x) (and_false s.request_complete)

    receive_data :
        (s : ClientGet E) (peer : E) (p : PacketData)
        → IsSent p
        → (s.request_complete ≡ false) ⊎ (s.server_endpoint ≡ peer)
        → receive fs s peer (datagram p) ≡ process_data_received fs (buffered s peer (datagram p)) p
    receive_data s peer p h x =
        let all : take max_recv_packet_size (datagram p) ≡ datagram p = take-datagram p h in
        receive_parsed s peer (datagram p) p
          (ap parse_packet all ∙ parse_packet-build_packet (data_packet p) h.0) (from_peer s peer x)
        ∙ ap (λ b. process_data_received fs (buffered s peer b) p) all

    pub buffered-Ready :
        {peer : E} {view : View} {m n : ℕ} (s : ClientGet E) (bytes : Bytes)
        → Ready fs peer view m n s
        → Ready fs peer view m n (buffered s peer bytes)
    unfolding open_writer
    buffered-Ready s bytes t = record { last = t.last; file = t.file }

    Ready-source :
        {peer : E} {view : View} {m n : ℕ} (s : ClientGet E)
        → Ready fs peer view m n s
        → (s.request_complete ≡ false) ⊎ (s.server_endpoint ≡ peer)
    Ready-source s t = elim t.file.2 [ inl g ↦ inr g.1 | inr w ↦ inl w.0 ]

    -- The handlers of a sequence of datagrams with DATA packets from `peer`, one after the other.
    pub receive_all : ClientGet E → E → List PacketData → Outcome E (ClientGet E)
    receive_all s peer [] = (s, [])
    receive_all s peer (p ∷ packets) =
        let (s', effects) = receive fs s peer (datagram p) in
        let (s'', later) = receive_all s' peer packets in (s'', effects ++ later)

    receive_all_more :
        (s : ClientGet E) (peer : E) (p : PacketData) (packets : List PacketData) {s' : ClientGet E}
        {effects : List (Effect E)}
        → receive fs s peer (datagram p) ≡ (s', effects)
        → receive_all s peer (p ∷ packets)
          ≡ ((receive_all s' peer packets).0, effects ++ (receive_all s' peer packets).1)
    unfolding receive_all
    receive_all_more s peer p packets e =
        ap (λ o. ((receive_all o.0 peer packets).0, o.1 ++ (receive_all o.0 peer packets).1)) e

    -- What the packets lead to.
    abbrev pub Takes : E → View → ℕ → ℕ → List PacketData → Outcome E (ClientGet E) → Type 0
    Takes peer view m n packets outcome =
        Ready fs peer (absorb view (flatten (accepted n packets))) m (acked_after_all n packets)
          outcome.0
        × (outcome.1 ≡ answers peer n packets)

    -- The packet that is expected, and then the others.
    pub take_next :
        (peer : E) (view : View) (m n : ℕ) (s : ClientGet E) (p : PacketData)
        → IsSent p
        → (n + 1 == p.block_no) ≡ true
        → Ready fs peer view (length p.bytes + m) n s
        → Took fs peer view m p (receive fs s peer (datagram p))
    take_next peer view m n s p h e t =
        subst (Took fs peer view m p) (sym (receive_data s peer p h (Ready-source s t))) (
          process_data-Took fs peer view m n (buffered s peer (datagram p)) p e refl
            (buffered-Ready s (datagram p) t))

    pub pass_over :
        (peer : E) (view : View) (m n : ℕ) (s : ClientGet E) (p : PacketData)
        → IsSent p
        → (n + 1 == p.block_no) ≡ false
        → Ready fs peer view m n s
        → receive fs s peer (datagram p) ≡ (buffered s peer (datagram p), [])
    pass_over peer view m n s p h e t =
        receive_data s peer p h (Ready-source s t)
        ∙ process_data_other fs (buffered s peer (datagram p)) p n t.last e

    -- Whatever DATA packets come from the server, in whatever order and however often, those are
    -- written, in order and each once, that carry the number after that of the one taken before;
    -- each is acknowledged by its number once it is written; and the others leave no trace but in
    -- the buffer. Each packet is well formed, fits the buffer, and comes from the one endpoint; the
    -- writer opens, if it has not yet, and has room for what is written.
    pub receive_all-Takes :
        (peer : E) (view : View) (m n : ℕ) (packets : List PacketData) (s : ClientGet E)
        → All IsSent packets
        → Ready fs peer view (length (flatten (accepted n packets)) + m) n s
        → Takes peer view m n packets (receive_all s peer packets)
    receive_all-Takes peer view m n [] s h t =
        unfold receive_all in
        (
          record {
            last = t.last;
            file =
                let (w, (o, v, r), g) = t.file in
                (w, (o, v ∙ sym (absorb_nil view), omega arith), g);
          },
          refl,
        )
    receive_all-Takes peer view m n (p ∷ packets) s (h, hs) t =
        elim (Bool-cases (n + 1 == p.block_no)) [
          | inl e ↦
              let n' : ℕ = p.block_no in
              let rest : Bytes = flatten (accepted n' packets) in
              let t1 : Ready fs peer view (length (p.bytes ++ rest) + m) n s = rw e at t in
              let t2 : Ready fs peer view (length p.bytes + (length rest + m)) n s =
                subst (λ k. Ready fs peer view k n s) (room_split p.bytes rest m) t1 in
              let (t3, _, es) = take_next peer view (length rest + m) n s p h e t2 in
              let (t4, es') = receive_all-Takes peer (absorb view p.bytes) m n' packets _ hs t3 in
              rw (e, receive_all_more s peer p packets refl)
                (
                  subst
                      (λ v.
                        Ready fs peer v m (acked_after_all n' packets)
                          (receive_all (receive fs s peer (datagram p)).0 peer packets).0)
                      (sym (absorb_append view p.bytes rest)) t4,
                  ap₂ (λ xs ys. xs ++ ys) es es',
                )
          | inr e ↦
              let t1 : Ready fs peer view (length (flatten (accepted n packets)) + m) n s =
                rw e at t in
              rw (e, receive_all_more s peer p packets (pass_over peer view _ n s p h e t1))
                (receive_all-Takes peer view m n packets _ hs (buffered-Ready s (datagram p) t1))
        ]
