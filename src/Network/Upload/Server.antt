-- ===== src/Network/Upload/Server.antt =====
-- An upload to a whole server: the client's request reaches the server, which goes on to take other
-- requests and to serve other clients.
use octnet_tftp.Base.{
  ℕ, suc, ◌/◌, ◌≤◌, ◌<◌, ◌≡◌, refl, sym, ◌∙◌, subst, true, false, some, List, [], ◌∷◌, Bytes,
  IsByte, All, length,
}
use octnet_tftp.Net.{EndpointOps, open_socket, send_to, sent_to_peer}
use octnet_tftp.Wire.Packet.{file_req}
use octnet_tftp.Io.Interface.{ReaderOps, WriterOps, SinkLaws}
use octnet_tftp.Io.File.{FileSystem}
use octnet_tftp.Io.Manager.{Reader, reader_ops, IoManager}
use octnet_tftp.Io.Manager.Readers.{reader_laws}
use octnet_tftp.Blocks.Datagrams.{block_datagram, ack_datagram}
use octnet_tftp.Network.{ReceiverLaws, Net}
use octnet_tftp.Network.Push.{Asks, Offers}
use octnet_tftp.Network.Upload.{HasWritten, HasTaken-HasWritten}
use octnet_tftp.Server.WriteConnection
use octnet_tftp.Server.WriteConnection.{WriteConnection, write_connection}
use octnet_tftp.Server.WriteConnection.Start.{start-HasTaken}
use octnet_tftp.Server.WriteConnection.Receiver.{write_receiver, HasTaken}
use octnet_tftp.Server.Result.{returned, SocketSetup, all_succeed}
use octnet_tftp.Server.Connection.{Connection, reads, writes, start_writes}
use octnet_tftp.Server.Connection.Machine.{connection_machine, Writing, writes_receiver, stops}
use octnet_tftp.Server.Registry.{Registry, handle_server_packet}
use octnet_tftp.Server.Registry.Apart.{Holds}
use octnet_tftp.Server.Registry.Requests.{write_request_lem}
use octnet_tftp.Server.Registry.Sent.{sent_from}
use octnet_tftp.Server.Registry.Machine.{server_machine, Leaves, made-Leaves}
use octnet_tftp.Server.Registry.Machine.Promises.{server_receiver}
use octnet_tftp.Client.{Request}
use octnet_tftp.Client.Put.{ClientPut, client_put, open_reader}
use octnet_tftp.Client.Put.Start.{request_of}

module _ {E R W V : Type 0} ⦃readers : ReaderOps R⦄ ⦃writers : WriterOps W⦄
    ⦃endpoints : EndpointOps E⦄ (laws : SinkLaws V W writers) (m : IoManager R W)
    (setups : ℕ → SocketSetup) (fs : FileSystem) (request : Request) (server peer client : E)
    (others : List E) (before : Registry E R W) where
  -- The server has just taken the request, with the connections `before` it, and the client has sent
  -- it; under way is what the new connection sent.
  abbrev pub Accepted : Net (ClientPut E) (Registry E R W) → Type 0
  Accepted net =
      Asks fs request server peer others net.sender
      × (net.to_receiver ≡ [])
      × (net.receiver
          ≡ (handle_server_packet m setups (file_req (request_of request)) client before).0)
      × (net.to_sender
          ≡ sent_from before.next_address client
              (handle_server_packet m setups (file_req (request_of request)) client before).1)

  -- The connection made for the request has written the first `n` blocks of `c`, behind what its file
  -- had, and nothing else.
  abbrev pub WrittenBy : V → Bytes → ℕ → Registry E R W → Type 0
  WrittenBy view c n s =
      (connection : WriteConnection E W) × (s.objects before.next_address
        ≡ some (writes connection))
      × HasWritten laws view c n connection

  abbrev pub Takes : V → Bytes → ℕ → Registry E R W → Type 0
  Takes view c n = Holds before.next_address (Writing client (HasTaken laws client view c) n)

  pub Takes-WrittenBy :
      (view : V) (c : Bytes) (n : ℕ) (s : Registry E R W) → Takes view c n s → WrittenBy view c n s
  Takes-WrittenBy view c n s (l, (reads connection, e, t)) = absurd t
  Takes-WrittenBy view c n s (l, (writes connection, e, t)) =
      (connection, e, HasTaken-HasWritten laws client view c n connection t)

  alone :
      (view : V) (c : Bytes)
      → length c / 512 < 65535
      → All IsByte c
      → ReceiverLaws
          (connection_machine client)
          (suc (length c / 512))
          (block_datagram c)
          ack_datagram
          (Writing {R = R} client (HasTaken laws client view c))
  alone view c few bytes = writes_receiver client laws (write_receiver laws client view c few bytes)

  pub taking :
      (view : V) (c : Bytes)
      → length c / 512 < 65535
      → All IsByte c
      → ReceiverLaws
          (server_machine m setups before.next_address client)
          (suc (length c / 512))
          (block_datagram c)
          ack_datagram
          (Takes view c)
  taking view c few bytes =
      server_receiver m setups before.next_address client (alone view c few bytes)

  accepted-Takes :
      (w : W) (c : Bytes)
      → m.create_writer request.remote_filename request.mode ≡ some w
      → writers.is_open w ≡ true
      → length c ≤ laws.room w
      → length c / 512 < 65535
      → All IsByte c
      → setups before.next_address ≡ all_succeed
      → Leaves m setups before.next_address client
          (Writing client (HasTaken laws client (laws.view w) c) 0)
          (ack_datagram 0 ∷ [])
          (handle_server_packet m setups (file_req (request_of request)) client before)
  accepted-Takes w c e o room few bytes h =
      let a : ℕ = before.next_address in
      let P : Connection E R W → Type 0 = Writing client (HasTaken laws client (laws.view w) c) 0 in
      let (connection, started, t) =
        start-HasTaken laws m (request_of request) client w c e o room in
      let begun : WriteConnection.start m (setups a) (write_connection (request_of request) client)
          ≡ returned (connection, open_socket ∷ send_to (ack_datagram 0) client ∷ []) =
        rw h started in
      let (i, sent) =
        made-Leaves m setups a client P
          (λ c' p. ((alone (laws.view w) c few bytes).receiver_other 0 c' _ stops p).0)
          (writes (write_connection (request_of request) client)) before refl
          (start_writes m (setups a) (write_connection (request_of request) client) begun) t in
      subst (Leaves m setups a client P (ack_datagram 0 ∷ []))
        (sym (write_request_lem m setups (request_of request) client before refl))
        (i, sent ∙ sent_to_peer client (ack_datagram 0))

  module _ (foreign : endpoints.same server peer ≡ false) (r : Reader) (w : W)
      (opens : open_reader fs (client_put {E = E} request) ≡ some r)
      (readable : reader_ops.is_open r ≡ true) (sound : reader_laws.broken r ≡ false)
      (found : m.create_writer request.remote_filename request.mode ≡ some w)
      (writable : writers.is_open w ≡ true) (room : length (reader_laws.contents r) ≤ laws.room w)
      (free : setups before.next_address ≡ all_succeed)
      (bytes : All IsByte (reader_laws.contents r))
      (few : length (reader_laws.contents r) / 512 < 65535)
      (start : Net (ClientPut E) (Registry E R W)) where
    pub Accepted-Offers :
        Accepted start
        → Offers fs request server peer others foreign r few
            (taking (laws.view w) (reader_laws.contents r) few bytes)
            opens
            readable
            sound
            start
    Accepted-Offers (asks, none, taken, out) =
        let c : Bytes = reader_laws.contents r in
        let (i, sent) = accepted-Takes w c found writable room few bytes free in
        (asks, subst (Takes (laws.view w) c 0) (sym taken) i, none, out ∙ sent)
