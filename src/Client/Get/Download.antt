-- ===== src/Client/Get/Download.antt =====
-- A download from a server that sends a file block by block, as the read connection does.
use octnet_tftp.Base.{
  ℕ, zero, suc, ◌+◌, ◌/◌, ◌%◌, ◌≤◌, ◌<◌, ◌≡◌, refl, sym, ap, ◌∙◌, subst, inr, some, true, List, [],
  ◌∷◌, ◌++◌, append_assoc, append-nil, Bytes, IsByte, All, length, flatten, ◌==◌, ==_iff, arith,
}
use octnet_tftp.Base.Int.{pos}
use octnet_tftp.Net.{EndpointOps, Effect, success, open_socket, resolve, send_to}
use octnet_tftp.Wire.Packet.{op_rrq, PacketData, Packet, file_req}
use octnet_tftp.Wire.Builder.{build_packet}
use octnet_tftp.Io.File.{FileSystem}
use octnet_tftp.Io.Manager.Writers.{View, absorb, writer_view, writer_room}
use octnet_tftp.Io.Manager.{Writer, writer_ops}
use octnet_tftp.Client.{Request}
use octnet_tftp.Blocks.Cut.{block, blocks_before, blocks_before_all}
use octnet_tftp.Blocks.Datagrams.{IsSent, data_of, data_of-IsSent, number}
use octnet_tftp.Client.Get.{
  ClientGet, client_get, start, on_resolve_query, send_request, send_packet, send_prepared_packet,
  open_writer,
}
use octnet_tftp.Client.Get.Receive.{receive_all, receive_all-Takes}
use octnet_tftp.Client.Get.Transfer.{
  Ready, accepted, acked_after, acked_after_all, answers, send_ack,
}

-- The DATA packets of `n` blocks from block `k` on.
abbrev pub datas : Bytes → ℕ → ℕ → List PacketData
datas c k zero = []
datas c k (suc n) = data_of c k ∷ datas c (suc k) n

-- Their ACKs.
abbrev pub acks : {E : Type 0} → E → ℕ → ℕ → List (Effect E)
acks peer k zero = []
acks peer k (suc n) = send_ack peer (suc k) ∷ acks peer (suc k) n

-- The read request.
abbrev pub request_of : Request → Packet
request_of request =
    file_req (record {
      op = op_rrq;
      filename = request.remote_filename;
      mode = request.mode;
      options = [];
    })

number_next : (k : ℕ) → k < 65535 → (k + 1 == (k + 1) % 65536) ≡ true
number_next k h = (==_iff _ _).1 (omega arith)

datas-IsSent : (c : Bytes) (k n : ℕ) → All IsByte c → All IsSent (datas c k n)
datas-IsSent c k zero h = tt
datas-IsSent c k (suc n) h = (data_of-IsSent c k h, datas-IsSent c (suc k) n h)

acked_after-data_of : (c : Bytes) (k : ℕ) → k < 65535 → acked_after k (data_of c k) ≡ suc k
acked_after-data_of c k h = rw (number_next k h) (number k h)

no_more : (k : ℕ) → k ≡ k + 0
no_more k = omega arith

one_more : (k n : ℕ) → suc k + n ≡ k + suc n
one_more k n = omega arith

from_zero : (n : ℕ) → 0 + n ≡ n
from_zero n = omega arith

accepted_more :
    (c : Bytes) (k : ℕ) (packets : List PacketData)
    → k < 65535
    → accepted k (data_of c k ∷ packets) ≡ block c k ∷ accepted (suc k) packets
accepted_more c k packets h =
    rw (number_next k h) (ap (λ n. block c k ∷ accepted n packets) (number k h))

accepted-datas :
    (c : Bytes) (k n : ℕ)
    → k + n ≤ 65535
    → blocks_before c k ++ flatten (accepted k (datas c k n)) ≡ blocks_before c (k + n)
accepted-datas c k zero h = append-nil _ ∙ ap (blocks_before c) (no_more k)
accepted-datas c k (suc n) h =
    ap (λ blocks. blocks_before c k ++ flatten blocks)
      (accepted_more c k (datas c (suc k) n) (omega arith))
    ∙ sym (append_assoc (blocks_before c k) (block c k) _)
    ∙ accepted-datas c (suc k) n (omega arith)
    ∙ ap (blocks_before c) (one_more k n)

acked_after_all-datas :
    (c : Bytes) (k n : ℕ) → k + n ≤ 65535 → acked_after_all k (datas c k n) ≡ k + n
acked_after_all-datas c k zero h = omega arith
acked_after_all-datas c k (suc n) h =
    ap (λ j. acked_after_all j (datas c (suc k) n)) (acked_after-data_of c k (omega arith))
    ∙ acked_after_all-datas c (suc k) n (omega arith)
    ∙ one_more k n

answers-datas :
    {E : Type 0} (peer : E) (c : Bytes) (k n : ℕ)
    → k + n ≤ 65535
    → answers peer k (datas c k n) ≡ acks peer k n
answers-datas peer c k zero h = refl
answers-datas peer c k (suc n) h = rw (number_next k (omega arith)) (
    ap (λ j. send_ack peer j ∷ answers peer j (datas c (suc k) n)) (number k (omega arith))
    ∙ ap (◌∷◌ (send_ack peer (suc k))) (answers-datas peer c (suc k) n (omega arith)))

module _ {E : Type 0} (fs : FileSystem) ⦃endpoints : EndpointOps E⦄ where
  -- A client that waits for the first block, or has opened its file and taken none, and gets the
  -- blocks of a file of bytes from the server, in order, writes the file whole and acknowledges each
  -- block. The file has fewer than 65535 full blocks, and the writer has room for it.
  pub receive_all-datas :
      (peer : E) (view : View) (m : ℕ) (c : Bytes) (s : ClientGet E)
      → All IsByte c
      → length c / 512 < 65535
      → Ready fs peer view (length c + m) 0 s
      → let q : ℕ = suc (length c / 512) in
        Ready fs peer (absorb view c) m q (receive_all fs s peer (datas c 0 q)).0
        × ((receive_all fs s peer (datas c 0 q)).1 ≡ acks peer 0 q)
  receive_all-datas peer view m c s h k t =
      let q : ℕ = suc (length c / 512) in
      let whole : flatten (accepted 0 (datas c 0 q)) ≡ c =
        accepted-datas c 0 q (omega arith)
        ∙ ap (blocks_before c) (from_zero q)
        ∙ blocks_before_all c in
      let all : acked_after_all 0 (datas c 0 q) ≡ q =
        acked_after_all-datas c 0 q (omega arith) ∙ from_zero q in
      let t' : Ready fs peer view (length (flatten (accepted 0 (datas c 0 q))) + m) 0 s =
        subst (λ xs. Ready fs peer view (length xs + m) 0 s) (sym whole) t in
      let (r, e) = receive_all-Takes fs peer view m 0 (datas c 0 q) s (datas-IsSent c 0 q h) t' in
      let done : ClientGet E = (receive_all fs s peer (datas c 0 q)).0 in
      (
        subst (λ xs. Ready fs peer (absorb view xs) m q done) whole
            (subst (λ n. Ready fs peer (absorb view (flatten (accepted 0 (datas c 0 q)))) m n done)
              all r),
        e ∙ answers-datas peer c 0 q (omega arith),
      )

  -- The state after the request has been sent to the first endpoint that the host resolves to.
  abbrev pub requested : Request → E → ClientGet E
  requested request server = record (client_get request) {
    socket_is_open = true;
    server_endpoint = server;
    out_packet_data = build_packet (request_of request);
    response_expected = true;
    retry_counter = pos 5;
  }

  pub started_lem :
      (request : Request)
      → start {E = E} true (client_get request)
        ≡ some (
          record (client_get request) { socket_is_open = true },
          open_socket ∷ resolve request.host request.port ∷ [],
        )
  unfolding start client_get
  started_lem request = refl

  pub requested_lem :
      (request : Request) (server : E) (others : List E) (s : ClientGet E) (asked : List (Effect E))
      → start true (client_get request) ≡ some (s, asked)
      → (on_resolve_query s success (server ∷ others)).0 ≡ requested request server
  unfolding client_get start on_resolve_query send_request send_packet send_prepared_packet
  requested_lem request server others s asked e =
      let f : record (client_get request) { socket_is_open = true } ≡ s = cc in
      ap (λ t. (on_resolve_query t success (server ∷ others)).0) (sym f)

  pub requested-Ready :
      (request : Request) (server peer : E) (w : Writer) (m : ℕ)
      → open_writer {E = E} fs (client_get request) ≡ some w
      → writer_ops.is_open w ≡ true
      → m ≤ writer_room w
      → Ready fs peer (writer_view w) m 0 (requested request server)
  unfolding client_get open_writer
  requested-Ready request server peer w m e o h = record {
    last = refl;
    file = (w, (o, refl, h), inr (refl, e));
  }

  -- The run of a client that is asked for a file: it opens its socket and resolves the host, sends
  -- the request to the server found, and gets the blocks of `c` from the endpoint `peer`.
  abbrev pub Downloads : Request → E → List E → E → View → Bytes → Type 0
  Downloads request server others peer view c =
      let q : ℕ = suc (length c / 512) in
      (s0 : ClientGet E) × (s : ClientGet E) × (start true (client_get request)
        ≡ some (s0, open_socket ∷ resolve request.host request.port ∷ []))
      × (on_resolve_query s0 success (server ∷ others)
          ≡ (s, send_to (build_packet (request_of request)) server ∷ []))
      × Ready fs peer (absorb view c) 0 q (receive_all fs s peer (datas c 0 q)).0
      × ((receive_all fs s peer (datas c 0 q)).1 ≡ acks peer 0 q)

  -- A client that is asked for a file sends the read request to the first endpoint that the host
  -- resolves to; when the blocks of a file come back in order, from whatever endpoint, it writes the
  -- file whole and acknowledges each block there. The local file opens and has room, and the file
  -- consists of bytes and has fewer than 65535 full blocks.
  pub start-Downloads :
      (request : Request) (server : E) (others : List E) (peer : E) (w : Writer) (c : Bytes)
      → open_writer {E = E} fs (client_get request) ≡ some w
      → writer_ops.is_open w ≡ true
      → length c ≤ writer_room w
      → All IsByte c
      → length c / 512 < 65535
      → Downloads request server others peer (writer_view w) c
  unfolding client_get start on_resolve_query send_request send_packet send_prepared_packet
  start-Downloads request server others peer w c e o h b k =
      let (r, es) =
        receive_all-datas peer (writer_view w) 0 c (requested request server) b k
          (requested-Ready request server peer w (length c + 0) e o (omega arith)) in
      (
        record (client_get request) { socket_is_open = true },
        requested request server,
        refl,
        refl,
        r,
        es,
      )
