-- ===== src/Client/Tests.antt =====
-- Downloads and uploads at concrete requests. An endpoint is a number.
use octnet_tftp.Base.{
  ℕ, ◌⊎◌, ◌++◌, replicate, take, Bytes, ◌<◌, ◌≡◌, refl, inl, true, false, [], ◌∷◌, some, none,
  codes, ◌==◌, ==_iff, arith,
}
use octnet_tftp.Base.Int.{pos}
use octnet_tftp.Net.{EndpointOps, send_to, cancel_resolve, cancel_timer, close_socket}
use octnet_tftp.Wire.Packet.{PacketError, error, Packet, max_recv_packet_size, PacketData, op_data}
use octnet_tftp.Io.File.{FileSystem, open_file_writer}
use octnet_tftp.Io.Text.{equal_ignore_case, equal_chars, tolower}
use octnet_tftp.Io.Manager.{Writer}
use octnet_tftp.Client.{Request, RequestType}
use octnet_tftp.Client.Get.{receive, ClientGet, client_get, open_writer}
use octnet_tftp.Client.Get.Receive.{buffered, Takes, receive_all, receive_all-Takes}
use octnet_tftp.Wire.Parser.{parse_packet}
use octnet_tftp.Client.Get.Events
use octnet_tftp.Client.Put
use octnet_tftp.Client.Put.{ClientPut}
use octnet_tftp.Client.Put.Receive as PutReceive
use octnet_tftp.Client.Put.Events as PutEvents
use octnet_tftp.Blocks.Datagrams.{IsSent}
use octnet_tftp.Client.Get.Rollover.{receive_rollover}
use octnet_tftp.Client.Get.Download.{Downloads, start-Downloads}

instance abbrev endpoints : EndpointOps ℕ
endpoints = record { same = ◌==◌; same_iff = ==_iff; unspecified = 0 }

abbrev disk : FileSystem
disk = record {
  open_input = λ path mode. none;
  open_output = λ path mode. some (record { written = []; room = 100; closes = true });
}

abbrev request : Request
request = record {
  type = RequestType.get;
  host = codes "h";
  port = 69;
  remote_filename = codes "f";
  local_path = codes "l";
  mode = codes "octet";
}

abbrev writer : Writer
writer = Writer.file (open_file_writer disk (codes "l"))

opens : open_writer {E = ℕ} disk (client_get request) ≡ some writer
unfolding open_writer client_get equal_ignore_case equal_chars tolower
opens = refl

start-Downloads_example : Downloads {E = ℕ} disk request 7 [] 8 (false, ([], false)) (codes "hi")
start-Downloads_example =
    start-Downloads disk request 7 [] 8 writer (codes "hi") opens refl (omega arith) (omega arith)
      (omega arith)

abbrev getting : ℕ → ClientGet ℕ
getting n = record {
  request = request;
  server_endpoint = 8;
  request_complete = true;
  last_acked_packet_id = n;
  response_expected = true;
  retry_counter = pos 5;
  writer = some writer;
  out_packet_data = [];
  in_packet_data = [];
  in_packet_endpoint = 8;
  socket_is_open = true;
}

-- The block comes twice, and one out of turn before it.
abbrev packet : ℕ → PacketData
packet n = record { op = op_data; block_no = n; bytes = 104 ∷ 105 ∷ [] }

packet-IsSent : (n : ℕ) → n < 65536 → IsSent (packet n)
packet-IsSent n h = ((refl, h, (omega arith, (omega arith, tt))), omega arith)

receive_all-Takes_example :
    Takes disk 8
      (false, ([], false))
      0
      0
      (packet 2 ∷ packet 1 ∷ packet 1 ∷ [])
      (receive_all disk (getting 0) 8 (packet 2 ∷ packet 1 ∷ packet 1 ∷ []))
receive_all-Takes_example =
    receive_all-Takes disk 8 (false, ([], false)) 0 0 (packet 2 ∷ packet 1 ∷ packet 1 ∷ [])
      (getting 0)
      (
        packet-IsSent 2 (omega arith),
        (packet-IsSent 1 (omega arith), (packet-IsSent 1 (omega arith), tt)),
      )
      (record { last = refl; file = (writer, (refl, refl, omega arith), inl (refl, refl, refl)) })

get_timeouts_end_example :
    Events.timeouts 5 (getting 0)
    ≡ replicate 4 (send_to [] 8) ++ cancel_resolve ∷ cancel_timer ∷ close_socket ∷ []
get_timeouts_end_example = Events.get_timeouts_end 4 (getting 0) refl refl

abbrev stray : Bytes
stray = 0 ∷ 3 ∷ 0 ∷ 1 ∷ []

get_receive_cases_example :
    (receive disk (getting 0) 9 stray
      ≡ (buffered (getting 0) 9 (take max_recv_packet_size stray), []))
    ⊎ (((true ≡ false) ⊎ (9 ≡ (getting 0).server_endpoint))
        × ((p : Packet) × (parse_packet (take max_recv_packet_size stray) ≡ some p)
            × Events.IsAwaited disk (getting 0) p))
get_receive_cases_example = Events.get_receive_cases disk (getting 0) 9 stray

receive_rollover_example :
    (receive disk (getting 65535) 8 stray
      ≡ (buffered (getting 65535) 8 (take max_recv_packet_size stray), []))
    ⊎ ((e : PacketError) × (parse_packet (take max_recv_packet_size stray) ≡ some (error e)))
receive_rollover_example =
    receive_rollover disk (getting 65535) 8 stray refl
      (omega arith, (omega arith, (omega arith, (omega arith, tt))))

abbrev putting : ClientPut ℕ
putting = record {
  request = request;
  server_endpoint = 8;
  request_complete = true;
  last_sent_packet_id = 1;
  response_expected = true;
  retry_counter = pos 5;
  last_packet_sent = false;
  reader = none;
  out_packet_data = [];
  in_packet_data = [];
  in_packet_endpoint = 8;
  socket_is_open = true;
}

put_timeouts_end_example :
    PutEvents.timeouts 5 putting
    ≡ replicate 4 (send_to [] 8) ++ cancel_resolve ∷ cancel_timer ∷ close_socket ∷ []
put_timeouts_end_example = PutEvents.put_timeouts_end 4 putting refl refl

put_receive_cases_example :
    (Put.receive putting 9 stray
      ≡ (PutReceive.buffered putting 9 (take max_recv_packet_size stray), []))
    ⊎ (((true ≡ false) ⊎ (9 ≡ putting.server_endpoint))
        × ((p : Packet) × (parse_packet (take max_recv_packet_size stray) ≡ some p)
            × PutEvents.IsAwaited putting p))
put_receive_cases_example = PutEvents.put_receive_cases putting 9 stray
