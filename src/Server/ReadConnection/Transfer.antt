-- ===== src/Server/ReadConnection/Transfer.antt =====
-- A read request that is served: the blocks go out in order, each when the one before has been
-- acknowledged, and the connection ends with the acknowledgement of the last.
use octnet_tftp.Base.{
  ℕ, zero, suc, ◌+◌, ◌*◌, ◌/◌, ◌%◌, ◌≤◌, ◌<◌, ◌≡◌, refl, sym, ap, ap₂, ◌++◌, ◌∙◌, subst, true,
  false, Option, some, List, [], ◌∷◌, Bytes, length, ltb, ==_self, if◌then◌else◌, arith,
}
use octnet_tftp.Base.Int.{pos}
use octnet_tftp.Net.{
  EndpointOps, Effect, open_socket, send_to, cancel_timer, connection_terminated, emit, Outcome,
}
use octnet_tftp.Wire.Packet.{op_data, PacketAck, data_packet, PacketFileReq}
use octnet_tftp.Wire.Builder.{build_packet}
use octnet_tftp.Io.Interface.{ReaderOps, ReaderLaws, read_pointer}
use octnet_tftp.Io.Manager.{IoManager}
use octnet_tftp.Blocks.Cut.{
  drop_none, Holds, Holds-read, block, blocks_before, length-block_full, length-block_last,
  blocks_before_all,
}
use octnet_tftp.Blocks.Datagrams.{data_of, ack_of, if_true, ltb_full, ltb_short}
use octnet_tftp.Server.Result.{returned, all_succeed}
use octnet_tftp.Server.ReadConnection.{
  ReadConnection, read_connection, start, send_next_data_packet, send_data, send_first_packet,
  process_ack_received, terminate,
}

module _ {E R : Type 0} ⦃ops : ReaderOps R⦄ (laws : ReaderLaws R ops) where
  -- Block `k` of the file has been sent last, to `peer`.
  pub record InFlight (peer : E) (c : Bytes) (k : ℕ) (s : ReadConnection E R) : Type 0 where
    pub client : s.client_endpoint ≡ peer
    pub id : s.last_sent_packet_id ≡ (k + 1) % 65536
    pub last : s.last_packet_sent ≡ ltb (length (block c k)) 512
    pub packet : s.out_packet_data ≡ build_packet (data_packet (data_of c k))
    pub rest : Holds laws c (512 * (k + 1)) s.reader

  -- The send of block `k`.
  abbrev pub send_block : E → Bytes → ℕ → Effect E
  send_block peer c k = send_to (build_packet (data_packet (data_of c k))) peer

  pub send_next_lem :
      (s : ReadConnection E R) (bytes : Bytes) (reader : Option R)
      → read_pointer s.reader 512 ≡ (some bytes, reader)
      → let id : ℕ = (s.last_sent_packet_id + 1) % 65536 in
        let packet : Bytes =
          build_packet (data_packet (record { op = op_data; block_no = id; bytes = bytes })) in
        send_next_data_packet s ≡ (
          record s {
            last_sent_packet_id = id;
            reader = reader;
            last_packet_sent = if ltb (length bytes) 512 then true else s.last_packet_sent;
            out_packet_data = packet;
            response_expected = true;
            retry_counter = pos 5;
          },
          send_to packet s.client_endpoint ∷ [],
        )
  unfolding send_next_data_packet
  send_next_lem s bytes reader e = rw e (unfold send_data in refl)

  -- What a handler does that sends block `k`.
  abbrev pub Sent : E → Bytes → ℕ → List (Effect E) → Outcome E (ReadConnection E R) → Type 0
  Sent peer c k before outcome =
      InFlight peer c k outcome.0 × (outcome.1 ≡ before ++ send_block peer c k ∷ [])

  send_next-Sent :
      (peer : E) (c : Bytes) (k : ℕ) (s : ReadConnection E R)
      → s.client_endpoint ≡ peer
      → s.last_sent_packet_id ≡ k % 65536
      → s.last_packet_sent ≡ false
      → Holds laws c (512 * k) s.reader
      → Sent peer c k [] (send_next_data_packet s)
  send_next-Sent peer c k s p i l h =
      let (r, e, h') = Holds-read laws c k s.reader h in
      let id : (s.last_sent_packet_id + 1) % 65536 ≡ (k + 1) % 65536 = omega arith in
      let packet : Bytes → ℕ → Bytes = λ bytes n.
        build_packet (data_packet (record { op = op_data; block_no = n; bytes = bytes })) in
      rw (send_next_lem s (block c k) (some r) e) (
        record {
          client = p;
          id = id;
          last = if_true (ltb (length (block c k)) 512) s.last_packet_sent l;
          packet = ap (packet (block c k)) id;
          rest = h';
        },
        ap₂ (λ n q. send_to (packet (block c k) n) q ∷ []) id p,
      )

  ack_more :
      (s : ReadConnection E R) (packet : PacketAck)
      → s.last_sent_packet_id ≡ packet.block_no
      → s.last_packet_sent ≡ false
      → process_ack_received s packet ≡ emit cancel_timer (send_next_data_packet s)
  unfolding process_ack_received
  ack_more s packet e l = rw (e, ==_self packet.block_no, l)

  ack_done :
      (s : ReadConnection E R) (packet : PacketAck)
      → s.last_sent_packet_id ≡ packet.block_no
      → s.last_packet_sent ≡ true
      → process_ack_received s packet ≡ (s, cancel_timer ∷ connection_terminated ∷ [])
  unfolding process_ack_received terminate
  ack_done s packet e l = ground arith

  -- The acknowledgement of a full block sends the next one.
  pub process_ack-Sent :
      (peer : E) (c : Bytes) (k : ℕ) (s : ReadConnection E R)
      → InFlight peer c k s
      → k < length c / 512
      → Sent peer c (k + 1) (cancel_timer ∷ []) (process_ack_received s (ack_of k))
  process_ack-Sent peer c k s f h =
      let l : s.last_packet_sent ≡ false = f.last ∙ ltb_full (length-block_full c k h) in
      let (f', e) = send_next-Sent peer c (k + 1) s f.client f.id l f.rest in
      rw (ack_more s (ack_of k) f.id l) (f', ap (◌∷◌ cancel_timer) e)

  -- That of the last ends the connection.
  pub process_ack_last :
      (peer : E) (c : Bytes) (s : ReadConnection E R)
      → InFlight peer c (length c / 512) s
      → process_ack_received s (ack_of (length c / 512))
        ≡ (s, cancel_timer ∷ connection_terminated ∷ [])
  process_ack_last peer c s f =
      ack_done s (ack_of (length c / 512)) f.id (f.last ∙ ltb_short (length-block_last c))

  -- The state and all effects after the acknowledgements of the first `n` blocks.
  pub after_acks : ℕ → Outcome E (ReadConnection E R) → Outcome E (ReadConnection E R)
  after_acks zero outcome = outcome
  after_acks (suc n) outcome =
      let (s, before) = after_acks n outcome in
      let (s', effects) = process_ack_received s (ack_of n) in (s', before ++ effects)

  -- The effects that send the blocks from the first to block `n`.
  abbrev pub sends : E → Bytes → ℕ → List (Effect E)
  sends peer c zero = send_block peer c 0 ∷ []
  sends peer c (suc n) = sends peer c n ++ cancel_timer ∷ send_block peer c (suc n) ∷ []

  after_acks-Sent :
      (peer : E) (c : Bytes) (n : ℕ) (s : ReadConnection E R)
      → InFlight peer c 0 s
      → n ≤ length c / 512
      → let outcome = after_acks n (s, send_block peer c 0 ∷ []) in
        InFlight peer c n outcome.0 × (outcome.1 ≡ sends peer c n)
  unfolding after_acks
  after_acks-Sent peer c zero s f h = (f, refl)
  after_acks-Sent peer c (suc n) s f h =
      let (f', e) = after_acks-Sent peer c n s f (omega arith) in
      let (f2, e') = process_ack-Sent peer c n _ f' (omega arith) in
      let one : n + 1 ≡ suc n = omega arith in
      (
        subst (λ m. InFlight peer c m (after_acks (suc n) (s, send_block peer c 0 ∷ [])).0) one f2,
        ap₂ (λ xs ys. xs ++ ys) e (e' ∙ ap (λ m. cancel_timer ∷ send_block peer c m ∷ []) one),
      )

  after_last :
      (n : ℕ) (outcome : Outcome E (ReadConnection E R)) {before effects : List (Effect E)}
      → process_ack_received (after_acks n outcome).0 (ack_of n)
        ≡ ((after_acks n outcome).0, effects)
      → (after_acks n outcome).1 ≡ before
      → (after_acks (suc n) outcome).1 ≡ before ++ effects
  unfolding after_acks
  after_last n outcome e f = ap₂ (λ xs ys. xs ++ ys) f (ap (λ o. o.1) e)

  pub first_lem :
      (s : ReadConnection E R) (r : R)
      → s.reader ≡ some r
      → ops.is_open r ≡ true
      → send_first_packet s ≡ send_next_data_packet s
  unfolding send_first_packet
  first_lem s r e o = ground arith

  module _ {W : Type 0} ⦃endpoints : EndpointOps E⦄ where
    pub start-Sent :
        (m : IoManager R W) (request : PacketFileReq) (peer : E) (r : R)
        → m.create_reader request.filename request.mode ≡ some r
        → ops.is_open r ≡ true
        → laws.broken r ≡ false
        → (s : ReadConnection E R) × (start m all_succeed (read_connection request peer)
            ≡ returned (s, open_socket ∷ send_block peer (laws.contents r) 0 ∷ []))
          × InFlight peer (laws.contents r) 0 s
    unfolding start read_connection
    start-Sent m request peer r e o b =
        let s : ReadConnection E R = record (read_connection request peer) {
          reader = m.create_reader request.filename request.mode;
          socket_is_open = true;
        } in
        let (f, sent) =
          send_next-Sent peer (laws.contents r) 0 s refl (omega arith) refl
            (r, e, o, b, sym (drop_none (laws.contents r))) in
        (
          (send_next_data_packet s).0,
          rw (first_lem s r e o)
              (ap (λ es. returned ((send_next_data_packet s).0, open_socket ∷ es)) sent),
          f,
        )

    -- The run of a connection that is asked for a file with contents `c`, up to the acknowledgement
    -- of its last block.
    abbrev pub Serves : IoManager R W → PacketFileReq → E → Bytes → Type 0
    Serves m request peer c =
        let q : ℕ = length c / 512 in
        (s : ReadConnection E R) × (start m all_succeed (read_connection request peer)
          ≡ returned (s, open_socket ∷ send_block peer c 0 ∷ []))
        × ((after_acks (suc q) (s, send_block peer c 0 ∷ [])).1
            ≡ sends peer c q ++ cancel_timer ∷ connection_terminated ∷ [])
        × (blocks_before c (suc q) ≡ c)

    -- A read request for a file that opens and reads without error is served whole: the connection
    -- sends the first block when it starts and each further block on the acknowledgement of the one
    -- before, under numbers that count from 1 and wrap at 65536; on the acknowledgement of the last
    -- it cancels its timer and ends; and the blocks together are the contents of the reader.
    pub start-Serves :
        (m : IoManager R W) (request : PacketFileReq) (peer : E) (r : R)
        → m.create_reader request.filename request.mode ≡ some r
        → ops.is_open r ≡ true
        → laws.broken r ≡ false
        → Serves m request peer (laws.contents r)
    start-Serves m request peer r e o b =
        let c : Bytes = laws.contents r in
        let q : ℕ = length c / 512 in
        let (s, started, f) = start-Sent m request peer r e o b in
        let (f', es) = after_acks-Sent peer c q s f (omega arith) in
        (
          s,
          started,
          after_last q (s, send_block peer c 0 ∷ []) (process_ack_last peer c _ f') es,
          blocks_before_all c,
        )
