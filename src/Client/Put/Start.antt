-- ===== src/Client/Put/Start.antt =====
-- The start of an upload, up to the write request that it sends, as a sender of blocks.
use octnet_tftp.Base.{◌≡◌, refl, sym, ap, true, false, some, List, [], ◌∷◌, arith}
use octnet_tftp.Base.Int.{pos}
use octnet_tftp.Net.{EndpointOps, success, Effect, open_socket, resolve}
use octnet_tftp.Wire.Packet.{op_wrq, PacketFileReq, file_req}
use octnet_tftp.Wire.Builder.{build_packet}
use octnet_tftp.Io.File.{FileSystem}
use octnet_tftp.Io.Manager.{Reader, reader_ops}
use octnet_tftp.Io.Manager.Readers.{reader_laws}
use octnet_tftp.Blocks.Cut.{drop_none}
use octnet_tftp.Client.{Request}
use octnet_tftp.Client.Put.{
  ClientPut, client_put, open_reader, start, start_opened, start_socket, on_resolve_query,
  send_request, send_packet, send_prepared_packet,
}
use octnet_tftp.Client.Put.Sender.{HasSent}

-- The request packet that the client sends.
abbrev pub request_of : Request → PacketFileReq
request_of request = record {
  op = op_wrq;
  filename = request.remote_filename;
  mode = request.mode;
  options = [];
}

module _ {E : Type 0} ⦃endpoints : EndpointOps E⦄ (fs : FileSystem) (request : Request) where
  -- The state with its socket open, and then with the request sent to a server.
  abbrev pub opened : ClientPut E
  opened = record (client_put request) {
    reader = open_reader fs (client_put {E = E} request);
    socket_is_open = true;
  }

  abbrev pub requested : E → ClientPut E
  requested server = record opened {
    server_endpoint = server;
    out_packet_data = build_packet (file_req (request_of request));
    response_expected = true;
    retry_counter = pos 5;
  }

  start_opened_lem :
      (s : ClientPut E) (r : Reader)
      → s.reader ≡ some r
      → reader_ops.is_open r ≡ true
      → start_opened true s
        ≡ some (
          record s { socket_is_open = true },
          open_socket ∷ resolve s.request.host s.request.port ∷ [],
        )
  unfolding start_opened start_socket
  start_opened_lem s r e o = ground arith

  pub started_lem :
      (r : Reader)
      → open_reader fs (client_put {E = E} request) ≡ some r
      → reader_ops.is_open r ≡ true
      → start fs true (client_put request)
        ≡ some (opened, open_socket ∷ resolve request.host request.port ∷ [])
  unfolding start client_put
  started_lem r e o =
      start_opened_lem
        (record (client_put request) { reader = open_reader fs (client_put {E = E} request) }) r e o

  pub requested_lem :
      (r : Reader) (server : E) (others : List E) (s : ClientPut E) (asked : List (Effect E))
      → open_reader fs (client_put {E = E} request) ≡ some r
      → reader_ops.is_open r ≡ true
      → start fs true (client_put request) ≡ some (s, asked)
      → (on_resolve_query s success (server ∷ others)).0 ≡ requested server
  unfolding on_resolve_query send_request send_packet send_prepared_packet client_put
  requested_lem r server others s asked e o f =
      let g : opened ≡ s = let h = started_lem r e o in cc in
      ap (λ t. (on_resolve_query t success (server ∷ others)).0) (sym g)

  pub requested-HasSent :
      (r : Reader) (server peer : E) (foreign : endpoints.same server peer ≡ false)
      → open_reader fs (client_put {E = E} request) ≡ some r
      → reader_ops.is_open r ≡ true
      → reader_laws.broken r ≡ false
      → HasSent server peer foreign (reader_laws.contents r) 0 (requested server)
  unfolding client_put
  requested-HasSent r server peer foreign e o b = record {
    read = record {
      id = refl;
      last = refl;
      rest = (r, e, o, b, sym (drop_none (reader_laws.contents r)));
    };
    place = (refl, refl);
  }
