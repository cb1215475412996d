-- ===== src/Client/Put/Transfer.antt =====
-- The blocks that an upload sends: each on the acknowledgement of the one before, the first on that
-- of the request.
use octnet_tftp.Base.{
  ℕ, zero, suc, ◌+◌, ◌*◌, ◌%◌, ◌<◌, ◌≡◌, ◌≢◌, refl, sym, ap, ap₂, ◌∙◌, subst, Bool, true, false,
  Option, some, [], ◌∷◌, Bytes, length, ltb, ◌==◌, ==_ne, if◌then◌else◌, arith,
}
use octnet_tftp.Base.Int.{pos}
use octnet_tftp.Net.{send_to, Outcome}
use octnet_tftp.Wire.Packet.{op_data, data_packet}
use octnet_tftp.Wire.Builder.{build_packet}
use octnet_tftp.Io.Interface.{read_pointer}
use octnet_tftp.Io.Manager.{Reader, reader_ops}
use octnet_tftp.Io.Manager.Readers.{reader_laws}
use octnet_tftp.Blocks.Cut.{block, Holds, Holds-read}
use octnet_tftp.Blocks.Datagrams.{ack_numbered, block_datagram, number, if_true}
use octnet_tftp.Client.Put.{
  ClientPut, settle, send_next_data_packet, send_data, send_packet, finish_or_send,
  process_ack_received, terminate, stop,
}

-- Whether the last of the first `n` blocks is short.
abbrev pub ends_short : Bytes → ℕ → Bool
ends_short c zero = false
ends_short c (suc k) = ltb (length (block c k)) 512

module _ {E : Type 0} where
  -- `n` blocks of the file have been read.
  pub record HasRead (c : Bytes) (n : ℕ) (s : ClientPut E) : Type 0 where
    pub id : s.last_sent_packet_id ≡ n
    pub last : s.last_packet_sent ≡ ends_short c n
    pub rest : Holds reader_laws c (512 * n) s.reader

  -- The endpoint is settled, and block `n` is the last datagram.
  abbrev pub Sending : E → Bytes → ℕ → ClientPut E → Type 0
  Sending peer c n s =
      (s.request_complete ≡ true)
      × (s.server_endpoint ≡ peer)
      × (s.out_packet_data ≡ block_datagram c n)

  send_next_lem :
      (s : ClientPut E) (bytes : Bytes) (reader : Option Reader)
      → read_pointer s.reader 512 ≡ (some bytes, reader)
      → let id : ℕ = (s.last_sent_packet_id + 1) % 65536 in
        let packet : Bytes =
          build_packet (data_packet (record { op = op_data; block_no = id; bytes = bytes })) in
        send_next_data_packet s ≡ (
          record s {
            last_sent_packet_id = id;
            reader = reader;
            last_packet_sent = if ltb (length bytes) 512 then true else s.last_packet_sent;
            out_packet_data = packet;
            response_expected = true;
            retry_counter = pos 5;
          },
          send_to packet s.server_endpoint ∷ [],
        )
  unfolding send_next_data_packet send_data
  send_next_lem s bytes reader e = rw e (unfold send_packet in refl)

  -- What a handler does that sends block `suc n`.
  abbrev pub Sends : E → Bytes → ℕ → Outcome E (ClientPut E) → Type 0
  Sends peer c n outcome =
      HasRead c (suc n) outcome.0
      × Sending peer c (suc n) outcome.0
      × (outcome.1 ≡ send_to (block_datagram c (suc n)) peer ∷ [])

  pub send_next-Sends :
      (peer : E) (c : Bytes) (n : ℕ) (s : ClientPut E)
      → n < 65535
      → s.request_complete ≡ true
      → s.server_endpoint ≡ peer
      → s.last_packet_sent ≡ false
      → HasRead c n s
      → Sends peer c n (send_next_data_packet s)
  send_next-Sends peer c n s h done x l t =
      let (r, e, h') = Holds-read reader_laws c n s.reader t.rest in
      let id : (s.last_sent_packet_id + 1) % 65536 ≡ (n + 1) % 65536 =
        ap (λ k. (k + 1) % 65536) t.id in
      let packet : ℕ → Bytes = λ k.
        build_packet (data_packet (record { op = op_data; block_no = k; bytes = block c n })) in
      let one : n + 1 ≡ suc n = omega arith in
      rw (send_next_lem s (block c n) (some r) e) (
        record {
          id = id ∙ number n h;
          last = if_true (ltb (length (block c n)) 512) s.last_packet_sent l;
          rest = subst (λ k. Holds reader_laws c (512 * k) (some r)) one h';
        },
        (done, x, ap packet id),
        ap₂ (λ k q. send_to (packet k) q ∷ []) id x,
      )

  pub ack_expected :
      (s : ClientPut E) (n : ℕ)
      → (s.last_sent_packet_id == n) ≡ true
      → process_ack_received s (ack_numbered n) ≡ finish_or_send (settle s)
  unfolding process_ack_received
  ack_expected s n e = rw e

  pub finish_more :
      (s : ClientPut E) → s.last_packet_sent ≡ false → finish_or_send s ≡ send_next_data_packet s
  unfolding finish_or_send
  finish_more s l = rw l

  pub finish_done : (s : ClientPut E) → s.last_packet_sent ≡ true → finish_or_send s ≡ stop s
  unfolding finish_or_send terminate
  finish_done s l = rw l

  pub ack_ignored :
      (s : ClientPut E) (n k : ℕ)
      → s.last_sent_packet_id ≡ n
      → k ≢ n
      → process_ack_received s (ack_numbered k) ≡ (s, [])
  unfolding process_ack_received
  ack_ignored s n k e d = rw (==_ne s.last_sent_packet_id k (λ f. d (sym f ∙ e)))
