-- ===== src/Network/Fetch.antt =====
-- A client that gets a file from any sender of its blocks.
use octnet_tftp.Base.{
  ℕ, zero, suc, ◌/◌, ◌≤◌, ◌<◌, ◌≡◌, ◌⊎◌, inl, inr, refl, sym, ap, ◌∙◌, subst, true, false, some,
  List, [], ◌∷◌, Bytes, IsByte, All, length, arith,
}
use mathlib.Core.Bool.{false≢true}
use octnet_tftp.Net.{EndpointOps, success, Effect}
use octnet_tftp.Wire.Packet.{op_rrq, PacketFileReq}
use octnet_tftp.Io.File.{FileSystem}
use octnet_tftp.Io.Manager.{Writer, writer_ops}
use octnet_tftp.Io.Manager.Writers.{View, absorb, absorb_nil, writer_view, writer_room}
use octnet_tftp.Blocks.Cut.{blocks_before, blocks_before_all}
use octnet_tftp.Blocks.Datagrams.{block_datagram, ack_datagram, bytes_left, bytes_left-zero}
use octnet_tftp.Network.{Machine, SenderLaws, Net, Reach}
use octnet_tftp.Network.Order.{IsInOrder}
use octnet_tftp.Network.Order.Steps.{Reach-IsInOrder}
use octnet_tftp.Client.{Request}
use octnet_tftp.Client.Get
use octnet_tftp.Client.Get.{ClientGet, client_get, open_writer, on_resolve_query}
use octnet_tftp.Client.Get.Download.{requested, requested_lem, requested-Ready}
use octnet_tftp.Client.Get.Transfer.{Ready}
use octnet_tftp.Client.Get.Receiver.{get_machine, get_receiver, HasTaken}

-- The request packet that the client sends.
abbrev pub request_packet : Request → PacketFileReq
request_packet request = record {
  op = op_rrq;
  filename = request.remote_filename;
  mode = request.mode;
  options = [];
}

module _ {E : Type 0} where
  -- The client has written the first `n` blocks to its file, behind what stood there, and nothing
  -- else; before the first it may not have opened it.
  abbrev pub HasWritten : View → Bytes → ℕ → ClientGet E → Type 0
  HasWritten view c n s =
      (s.last_acked_packet_id ≡ n)
      × ((n ≡ 0)
          ⊎ ((w : Writer) × (s.writer ≡ some w)
              × (writer_view w ≡ absorb view (blocks_before c n))))

  -- The file of the client is whole, behind what it had.
  abbrev pub IsWhole : View → Bytes → ClientGet E → Type 0
  IsWhole view c s = (w : Writer) × (s.writer ≡ some w) × (writer_view w ≡ absorb view c)

module _ {E : Type 0} ⦃endpoints : EndpointOps E⦄ (fs : FileSystem) (request : Request)
    (server peer : E) (others : List E) where
  -- A client that has started and has sent its request to the server.
  abbrev pub Asks : ClientGet E → Type 0
  Asks client =
      (s : ClientGet E) × (asked : List (Effect E)) × (Get.start true (client_get request)
        ≡ some (s, asked))
      × (client ≡ (on_resolve_query s success (server ∷ others)).0)

  module _ (foreign : endpoints.same server peer ≡ false) where
    pub Asks-HasTaken :
        (c : Bytes) (w : Writer) (client : ClientGet E)
        → open_writer {E = E} fs (client_get request) ≡ some w
        → writer_ops.is_open w ≡ true
        → length c ≤ writer_room w
        → Asks client
        → HasTaken fs server peer foreign (writer_view w) c 0 client
    Asks-HasTaken c w client e o h (s, asked, started, receiver) =
        subst (HasTaken fs server peer foreign (writer_view w) c 0)
          (sym (receiver ∙ requested_lem fs request server others s asked started))
          (record {
            ready =
                subst (λ v. Ready fs peer v (bytes_left c 0) 0 (requested fs request server))
                  (sym (absorb_nil (writer_view w)))
                  (requested-Ready fs request server peer w (bytes_left c 0) e o
                    (omega (arith, bytes_left-zero c)));
            repeats = refl;
          })

    HasTaken-HasWritten :
        (view : View) (c : Bytes) (n : ℕ) (s : ClientGet E)
        → HasTaken fs server peer foreign view c n s
        → HasWritten view c n s
    HasTaken-HasWritten view c zero s t = (t.ready.last, inl refl)
    HasTaken-HasWritten view c (suc n) s t =
        let (w, (o, v, room), state) = t.ready.file in
        (
          t.ready.last,
          elim state [
            | inl (x, y, e) ↦ inr (w, e, v)
            | inr (x, e) ↦ absurd (false≢true (sym x ∙ t.repeats.0))
          ],
        )

    module _ {S : Type 0} {sends : Machine S} (c : Bytes) {Sent : ℕ → S → Type 0} (w : Writer)
        (sender : SenderLaws sends (suc (length c / 512)) (block_datagram c) ack_datagram Sent)
        (opens : open_writer {E = E} fs (client_get request) ≡ some w)
        (writable : writer_ops.is_open w ≡ true) (room : length c ≤ writer_room w)
        (bytes : All IsByte c) (few : length c / 512 < 65535) (start : Net S (ClientGet E)) where
      -- The sender has sent the first block, the client its request, and nothing else is under way.
      abbrev pub Offers : Type 0
      Offers =
          Sent 1 start.sender
          × (start.to_receiver ≡ block_datagram c 1 ∷ [])
          × Asks start.receiver
          × (start.to_sender ≡ [])

      Offers-IsInOrder :
          Offers
          → IsInOrder sender (get_receiver fs server peer foreign (writer_view w) c few bytes) start
      Offers-IsInOrder (sent, out, asks, none) = (
        1,
        0,
        record {
          sending = sent;
          taking = Asks-HasTaken c w start.receiver opens writable room asks;
          bound = omega arith;
          behind = omega arith;
          close = omega arith;
          blocks_under_way = subst (All _) (sym out) ((1, omega arith, omega arith, refl), tt);
          acks_under_way = subst (All _) (sym none) tt;
        },
      )

      pub fetched_in_order :
          (net : Net S (ClientGet E))
          → Offers
          → Reach sends (get_machine fs peer) start net
          → (n : ℕ) × (n ≤ suc (length c / 512)) × HasWritten (writer_view w) c n net.receiver
      fetched_in_order net b reach =
          let (sent, n, i) = Reach-IsInOrder _ _ (Offers-IsInOrder b) reach in
          (
            n,
            omega (arith, i.bound, i.behind),
            HasTaken-HasWritten (writer_view w) c n net.receiver i.taking,
          )

      pub fetched-IsWhole :
          (net : Net S (ClientGet E))
          → Offers
          → Reach sends (get_machine fs peer) start net
          → net.receiver.last_acked_packet_id ≡ suc (length c / 512)
          → IsWhole (writer_view w) c net.receiver
      fetched-IsWhole net b reach e =
          let (n, h, (f, state)) = fetched_in_order net b reach in
          let all : n ≡ suc (length c / 512) = sym f ∙ e in
          elim state [
            | inl z ↦ absurd (omega arith)
            | inr (w', x, v) ↦ (
              w',
              x,
              v
                  ∙ ap (λ k. absorb (writer_view w) (blocks_before c k)) all
                  ∙ ap (absorb (writer_view w)) (blocks_before_all c),
            )
          ]
