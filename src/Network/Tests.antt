-- ===== src/Network/Tests.antt =====
-- A download over the network at a concrete request. An endpoint is a number: the server's is 1, the
-- client's 7, the connection's 8, and that of another client, which the server serves already, 9.
use octnet_tftp.Base.{
  ℕ, ◌<◌, ◌≡◌, refl, sym, true, false, some, List, [], Bytes, IsByte, All, length, codes, ◌/◌, ◌==◌,
  ==_iff, arith,
}
use octnet_tftp.Net.{EndpointOps}
use octnet_tftp.Io.File.{FileSystem, open_file_writer}
use octnet_tftp.Io.Text.{equal_ignore_case, equal_chars, tolower}
use octnet_tftp.Io.Manager.{Reader, Writer, IoManager, reader_ops, writer_ops}
use octnet_tftp.Io.Manager.Readers.{reader_laws}
use octnet_tftp.Io.Manager.Writers.{View}
use octnet_tftp.Wire.Packet.{file_req}
use octnet_tftp.Network.{Net, here}
use octnet_tftp.Network.Progress.{block_taken, Leads}
use octnet_tftp.Network.Download.Server.{Accepted, Accepted-Offers, serving}
use octnet_tftp.Network.Fetch.{request_packet, Asks-HasTaken}
use octnet_tftp.Server.Result.{SocketSetup, all_succeed}
use octnet_tftp.Server.Registry.{Registry, no_connections, handle_server_packet}
use octnet_tftp.Server.Registry.Sent.{sent_from}
use octnet_tftp.Server.Registry.Machine.{from_address}
use octnet_tftp.Client.{Request, RequestType}
use octnet_tftp.Client.Get.{ClientGet, client_get, open_writer}
use octnet_tftp.Client.Get.Download.{requested, requested_lem, started_lem}
use octnet_tftp.Client.Get.Receiver.{get_receiver}

instance abbrev endpoints : EndpointOps ℕ
endpoints = record { same = ◌==◌; same_iff = ==_iff; unspecified = 0 }

abbrev hello : Bytes
hello = codes "hello"

abbrev reader : Reader
reader = Reader.file (record {
  handle = some (record { content = hello; faulty = false; error = false; closes = true });
})

abbrev disk : FileSystem
disk = record {
  open_input =
      λ path mode. some (record { content = hello; faulty = false; error = false; closes = true });
  open_output = λ path mode. some (record { written = []; room = 100; closes = true });
}

abbrev writer : Writer
writer = Writer.file (open_file_writer disk (codes "l"))

abbrev manager : IoManager Reader Writer
manager = record { create_reader = λ _ _. some reader; create_writer = λ _ _. some writer }

abbrev request : RequestType → Request
request type = record {
  type = type;
  host = codes "h";
  port = 69;
  remote_filename = codes "f";
  local_path = codes "l";
  mode = codes "octet";
}

abbrev empty : View
empty = (false, ([], false))

abbrev asked : Request
asked = request RequestType.get

opens : open_writer {E = ℕ} disk (client_get asked) ≡ some writer
unfolding open_writer client_get equal_ignore_case equal_chars tolower
opens = refl

abbrev free : ℕ → SocketSetup
free address = all_succeed

-- The server that has taken the request of the other client.
abbrev busy : Registry ℕ Reader Writer
busy = (handle_server_packet manager free (file_req (request_packet asked)) 9 no_connections).0

abbrev start : Net (Registry ℕ Reader Writer) (ClientGet ℕ)
start = record {
  sender = (handle_server_packet manager free (file_req (request_packet asked)) 7 busy).0;
  receiver = requested disk asked 1;
  to_receiver =
      sent_from busy.next_address 7
        (handle_server_packet manager free (file_req (request_packet asked)) 7 busy).1;
  to_sender = [];
}

accepted : Accepted reader_laws manager free disk asked 1 8 7 [] busy start
accepted = (
  refl,
  refl,
  (_, _, started_lem disk asked, sym (requested_lem disk asked 1 [] _ _ (started_lem disk asked))),
  refl,
)

foreign : endpoints.same 1 8 ≡ false
foreign = refl

few : length hello / 512 < 65535
few = omega arith

hello-IsByte : All IsByte hello
hello-IsByte = (omega arith, (omega arith, (omega arith, (omega arith, (omega arith, tt)))))

-- The run that lets the block through.
taken :
    Leads
      (serving reader_laws manager free disk asked 1 8 7 [] busy hello few)
      (get_receiver disk 1 8 foreign empty hello few hello-IsByte)
      start
      1
taken =
    let (sent, out, asks, _) =
      Accepted-Offers reader_laws manager free disk asked 1 8 7 [] busy foreign reader writer refl
        refl refl refl opens refl (omega arith) hello-IsByte few start accepted in
    block_taken (serving reader_laws manager free disk asked 1 8 7 [] busy hello few)
      (get_receiver disk 1 8 foreign empty hello few hello-IsByte) start start 0 [] here
      (omega arith) sent
      (Asks-HasTaken disk asked 1 8 [] foreign hello writer start.receiver opens refl (omega arith)
        asks)
      out

-- After it the other client asks again.
abbrev asked_again : Registry ℕ Reader Writer × List Bytes
asked_again =
    from_address {W = Writer} manager free busy.next_address 7
      (handle_server_packet manager free (file_req (request_packet asked)) 9 taken.0.sender)
