-- ===== src/Server/WriteConnection/Start.antt =====
-- The start of a write connection, as a receiver of blocks.
use octnet_tftp.Base.{◌≤◌, ◌≡◌, sym, ap, ◌∙◌, true, false, some, [], ◌∷◌, Bytes, length, arith}
use octnet_tftp.Net.{EndpointOps, send_to, open_socket}
use octnet_tftp.Wire.Packet.{PacketFileReq}
use octnet_tftp.Io.Interface.{WriterOps, SinkLaws}
use octnet_tftp.Io.Manager.{IoManager}
use octnet_tftp.Blocks.Datagrams.{ack_datagram, bytes_left, bytes_left-zero}
use octnet_tftp.Server.Result.{returned, all_succeed}
use octnet_tftp.Server.WriteConnection.{WriteConnection, write_connection, start, send_ack}
use octnet_tftp.Server.WriteConnection.Accept.{send_ack-Acknowledges}
use octnet_tftp.Server.WriteConnection.Transfer.{opened_lem}
use octnet_tftp.Server.WriteConnection.Receiver.{HasTaken}

module _ {E R W V : Type 0} ⦃ops : WriterOps W⦄ ⦃endpoints : EndpointOps E⦄
    (laws : SinkLaws V W ops) where
  pub start-HasTaken :
      (m : IoManager R W) (request : PacketFileReq) (peer : E) (w : W) (c : Bytes)
      → m.create_writer request.filename request.mode ≡ some w
      → ops.is_open w ≡ true
      → length c ≤ laws.room w
      → (s : WriteConnection E W) × (start m all_succeed (write_connection request peer)
          ≡ returned (s, open_socket ∷ send_to (ack_datagram 0) peer ∷ []))
        × HasTaken laws peer (laws.view w) c 0 s
  unfolding start write_connection
  start-HasTaken m request peer w c e o h =
      let s : WriteConnection E W = record (write_connection request peer) {
        writer = m.create_writer request.filename request.mode;
        socket_is_open = true;
      } in
      let (x, n, ew, es, d) = send_ack-Acknowledges laws s 0 false (omega arith) in
      let left : bytes_left c 0 ≤ laws.room w = omega (arith, bytes_left-zero c) in
      (
        (send_ack s 0 false).0,
        rw (opened_lem laws s w e o)
            (ap (λ es. returned ((send_ack s 0 false).0, open_socket ∷ es)) es),
        record {
          taking = record {
            client = x;
            expects = n;
            writes = (w, ew ∙ e, o, sym (laws.absorb_nil (laws.view w)), left);
          };
          acknowledged = d;
        },
      )
