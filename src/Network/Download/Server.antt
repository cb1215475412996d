-- ===== src/Network/Download/Server.antt =====
-- A download from a whole server: the client's request reaches the server, which goes on to take
-- other requests and to serve other clients.
use octnet_tftp.Base.{
  ℕ, zero, suc, ◌/◌, ◌≤◌, ◌<◌, ◌≡◌, refl, sym, ◌∙◌, subst, true, false, some, List, [], ◌∷◌, Bytes,
  IsByte, All, length, arith,
}
use octnet_tftp.Net.{EndpointOps, open_socket, send_to, sent_to_peer}
use octnet_tftp.Wire.Packet.{file_req}
use octnet_tftp.Io.Interface.{ReaderOps, ReaderLaws, WriterOps}
use octnet_tftp.Io.File.{FileSystem}
use octnet_tftp.Io.Manager.{Writer, writer_ops, IoManager}
use octnet_tftp.Io.Manager.Writers.{writer_room}
use octnet_tftp.Blocks.Datagrams.{block_datagram, ack_datagram}
use octnet_tftp.Network.{SenderLaws, Net}
use octnet_tftp.Network.Fetch.{request_packet, Asks, Offers}
use octnet_tftp.Server.ReadConnection
use octnet_tftp.Server.ReadConnection.{ReadConnection, read_connection}
use octnet_tftp.Server.ReadConnection.Transfer.{start-Sent}
use octnet_tftp.Server.ReadConnection.Sender.{read_sender, HasSent}
use octnet_tftp.Server.Result.{returned, SocketSetup, all_succeed}
use octnet_tftp.Server.Connection.{Connection, reads, writes, start_reads}
use octnet_tftp.Server.Connection.Machine.{connection_machine, Reading, reads_sender, stops}
use octnet_tftp.Server.Registry.{Registry, handle_server_packet}
use octnet_tftp.Server.Registry.Apart.{Holds}
use octnet_tftp.Server.Registry.Requests.{read_request_lem}
use octnet_tftp.Server.Registry.Sent.{sent_from}
use octnet_tftp.Server.Registry.Machine.{server_machine, Leaves, made-Leaves}
use octnet_tftp.Server.Registry.Machine.Promises.{server_sender}
use octnet_tftp.Client.{Request}
use octnet_tftp.Client.Get.{ClientGet, client_get, open_writer}

module _ {E R W : Type 0} ⦃readers : ReaderOps R⦄ ⦃writers : WriterOps W⦄
    ⦃endpoints : EndpointOps E⦄ (laws : ReaderLaws R readers) (m : IoManager R W)
    (setups : ℕ → SocketSetup) (fs : FileSystem) (request : Request) (server peer client : E)
    (others : List E) (before : Registry E R W) where
  -- The server has just taken the request, with the connections `before` it, and the client has sent
  -- it; under way is what the new connection sent.
  abbrev pub Accepted : Net (Registry E R W) (ClientGet E) → Type 0
  Accepted net =
      (net.sender
        ≡ (handle_server_packet m setups (file_req (request_packet request)) client before).0)
      × (net.to_receiver
          ≡ sent_from before.next_address client
              (handle_server_packet m setups (file_req (request_packet request)) client before).1)
      × Asks fs request server peer others net.receiver
      × (net.to_sender ≡ [])

  -- The connection made for the request has sent block `k` last.
  abbrev pub Serves : Bytes → ℕ → Registry E R W → Type 0
  Serves c k = Holds before.next_address (Reading client (HasSent laws client c) k)

  alone :
      (c : Bytes)
      → length c / 512 < 65535
      → SenderLaws
          (connection_machine client)
          (suc (length c / 512))
          (block_datagram c)
          ack_datagram
          (Reading {W = W} client (HasSent laws client c))
  alone c few = reads_sender client laws (read_sender laws client c few)

  pub serving :
      (c : Bytes)
      → length c / 512 < 65535
      → SenderLaws
          (server_machine m setups before.next_address client)
          (suc (length c / 512))
          (block_datagram c)
          ack_datagram
          (Serves c)
  serving c few = server_sender m setups before.next_address client (alone c few)

  accepted-Serves :
      (r : R)
      → m.create_reader request.remote_filename request.mode ≡ some r
      → readers.is_open r ≡ true
      → laws.broken r ≡ false
      → length (laws.contents r) / 512 < 65535
      → setups before.next_address ≡ all_succeed
      → Leaves m setups before.next_address client
          (Reading client (HasSent laws client (laws.contents r)) 1)
          (block_datagram (laws.contents r) 1 ∷ [])
          (handle_server_packet m setups (file_req (request_packet request)) client before)
  accepted-Serves r e o b few h =
      let c : Bytes = laws.contents r in
      let a : ℕ = before.next_address in
      let P : Connection E R W → Type 0 = Reading client (HasSent laws client c) 1 in
      let (connection, started, f) = start-Sent laws m (request_packet request) client r e o b in
      let begun : ReadConnection.start m (setups a)
            (read_connection (request_packet request) client)
          ≡ returned (connection, open_socket ∷ send_to (block_datagram c 1) client ∷ []) =
        rw h started in
      let (i, sent) =
        made-Leaves m setups a client P (λ c' p. ((alone c few).sender_other 1 c' _ stops p).0)
          (reads (read_connection (request_packet request) client)) before refl
          (start_reads m (setups a) (read_connection (request_packet request) client) begun) f in
      subst (Leaves m setups a client P (block_datagram c 1 ∷ []))
        (sym (read_request_lem m setups (request_packet request) client before refl))
        (i, sent ∙ sent_to_peer client (block_datagram c 1))

  Serves_begun : (c : Bytes) (k : ℕ) (s : Registry E R W) → Serves c k s → 0 < k
  Serves_begun c zero s (l, (reads connection, e, t)) = absurd t
  Serves_begun c zero s (l, (writes connection, e, t)) = absurd t
  Serves_begun c (suc k) s h = omega arith

  module _ (foreign : endpoints.same server peer ≡ false) (r : R) (w : Writer)
      (found : m.create_reader request.remote_filename request.mode ≡ some r)
      (readable : readers.is_open r ≡ true) (sound : laws.broken r ≡ false)
      (free : setups before.next_address ≡ all_succeed)
      (opens : open_writer {E = E} fs (client_get request) ≡ some w)
      (writable : writer_ops.is_open w ≡ true) (room : length (laws.contents r) ≤ writer_room w)
      (bytes : All IsByte (laws.contents r)) (few : length (laws.contents r) / 512 < 65535)
      (start : Net (Registry E R W) (ClientGet E)) where
    pub Accepted-Offers :
        Accepted start
        → Offers fs request server peer others foreign
            (laws.contents r)
            w
            (serving (laws.contents r) few)
            opens
            writable
            room
            bytes
            few
            start
    Accepted-Offers (taken, out, asks, none) =
        let (i, sent) = accepted-Serves r found readable sound few free in
        (subst (Serves (laws.contents r) 1) (sym taken) i, out ∙ sent, asks, none)
