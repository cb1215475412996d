-- ===== src/Network/Push.antt =====
-- A client that puts a file to any receiver of its blocks.
use octnet_tftp.Base.{
  ℕ, suc, ◌/◌, ◌≤◌, ◌<◌, ◌≡◌, refl, sym, ◌∙◌, subst, true, false, some, List, [], ◌∷◌, All, length,
  arith,
}
use octnet_tftp.Net.{EndpointOps, success, Effect}
use octnet_tftp.Io.File.{FileSystem}
use octnet_tftp.Io.Manager.{Reader, reader_ops}
use octnet_tftp.Io.Manager.Readers.{reader_laws}
use octnet_tftp.Blocks.Datagrams.{block_datagram, ack_datagram}
use octnet_tftp.Network.{Machine, ReceiverLaws, Net, Reach, here}
use octnet_tftp.Network.Order.{IsInOrder}
use octnet_tftp.Network.Order.Steps.{Reach-IsInOrder}
use octnet_tftp.Network.Progress.{Leads, rounds}
use octnet_tftp.Client.{Request}
use octnet_tftp.Client.Put
use octnet_tftp.Client.Put.{ClientPut, client_put, open_reader, on_resolve_query}
use octnet_tftp.Client.Put.Start.{requested_lem, requested-HasSent}
use octnet_tftp.Client.Put.Sender.{put_machine, put_sender, HasSent}

module _ {E : Type 0} ⦃endpoints : EndpointOps E⦄ (fs : FileSystem) (request : Request)
    (server peer : E) (others : List E) where
  -- A client that has started and has sent its request to the server.
  abbrev pub Asks : ClientPut E → Type 0
  Asks client =
      (s : ClientPut E) × (asked : List (Effect E)) × (Put.start fs true (client_put request)
        ≡ some (s, asked))
      × (client ≡ (on_resolve_query s success (server ∷ others)).0)

  module _ (foreign : endpoints.same server peer ≡ false) where
    pub Asks-HasSent :
        (r : Reader) (client : ClientPut E)
        → open_reader fs (client_put {E = E} request) ≡ some r
        → reader_ops.is_open r ≡ true
        → reader_laws.broken r ≡ false
        → Asks client
        → HasSent server peer foreign (reader_laws.contents r) 0 client
    Asks-HasSent r client e o b (s, asked, started, sender) =
        subst (HasSent server peer foreign (reader_laws.contents r) 0)
          (sym (sender ∙ requested_lem fs request r server others s asked e o started))
          (requested-HasSent fs request r server peer foreign e o b)

    module _ {S : Type 0} {receives : Machine S} {Taken : ℕ → S → Type 0} (r : Reader)
        (few : length (reader_laws.contents r) / 512 < 65535)
        (receiver : ReceiverLaws receives
          (suc (length (reader_laws.contents r) / 512))
          (block_datagram (reader_laws.contents r))
          ack_datagram
          Taken)
        (opens : open_reader fs (client_put {E = E} request) ≡ some r)
        (readable : reader_ops.is_open r ≡ true) (sound : reader_laws.broken r ≡ false)
        (start : Net (ClientPut E) S) where
      -- The client has sent its request, the receiver its acknowledgement, and nothing else is under
      -- way.
      abbrev pub Offers : Type 0
      Offers =
          Asks start.sender
          × Taken 0 start.receiver
          × (start.to_receiver ≡ [])
          × (start.to_sender ≡ ack_datagram 0 ∷ [])

      Offers-IsInOrder :
          Offers
          → IsInOrder (put_sender server peer foreign (reader_laws.contents r) few) receiver start
      Offers-IsInOrder (asks, taken, none, out) = (
        0,
        0,
        record {
          sending = Asks-HasSent r start.sender opens readable sound asks;
          taking = taken;
          bound = omega arith;
          behind = omega arith;
          close = omega arith;
          blocks_under_way = subst (All _) (sym none) tt;
          acks_under_way = subst (All _) (sym out) ((0, omega arith, refl), tt);
        },
      )

      pub pushed_in_order :
          (net : Net (ClientPut E) S)
          → Offers
          → Reach (put_machine peer) receives start net
          → (n : ℕ) × (n ≤ suc (length (reader_laws.contents r) / 512)) × Taken n net.receiver
      pushed_in_order net b reach =
          let (sent, n, i) = Reach-IsInOrder _ _ (Offers-IsInOrder b) reach in
          (n, omega (arith, i.bound, i.behind), i.taking)

      -- The run that lets every datagram through.
      pub push_can_finish :
          Offers
          → Leads
              (put_sender server peer foreign (reader_laws.contents r) few)
              receiver
              start
              (suc (length (reader_laws.contents r) / 512))
      push_can_finish (asks, taken, none, out) =
          rounds (put_sender server peer foreign (reader_laws.contents r) few) receiver
            (suc (length (reader_laws.contents r) / 512)) start start 0 (omega arith) here
            (record {
              sent = Asks-HasSent r start.sender opens readable sound asks;
              taken = taken;
              under_way = ([], out);
            })
