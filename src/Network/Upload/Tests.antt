-- ===== src/Network/Upload/Tests.antt =====
-- An upload over the network at a concrete request. An endpoint is a number: the server's is 1, the
-- client's 7, the connection's 8, and that of another client, which the server serves already, 9.
use octnet_tftp.Base.{
  ℕ, ◌<◌, ◌≡◌, refl, sym, true, false, some, List, [], Bytes, IsByte, All, length, codes, ◌/◌, ◌==◌,
  ==_iff, arith,
}
use octnet_tftp.Net.{EndpointOps}
use octnet_tftp.Io.File.{FileSystem, open_file_reader, open_file_writer}
use octnet_tftp.Io.Text.{equal_ignore_case, equal_chars, tolower}
use octnet_tftp.Io.Manager.{Reader, Writer, IoManager, reader_ops, writer_ops}
use octnet_tftp.Io.Manager.Writers.{View, writer_laws}
use octnet_tftp.Wire.Packet.{file_req}
use octnet_tftp.Network.{Net}
use octnet_tftp.Network.Progress.{Leads}
use octnet_tftp.Network.Push.{push_can_finish}
use octnet_tftp.Network.Upload.Server.{
  Accepted, Accepted-Offers, WrittenBy, Takes-WrittenBy, taking,
}
use octnet_tftp.Server.Result.{SocketSetup, all_succeed}
use octnet_tftp.Server.Registry.{Registry, no_connections, handle_server_packet}
use octnet_tftp.Server.Registry.Sent.{sent_from}
use octnet_tftp.Server.Registry.Machine.{from_address}
use octnet_tftp.Client.{Request, RequestType}
use octnet_tftp.Client.Put.{ClientPut, client_put, open_reader}
use octnet_tftp.Client.Put.Start.{request_of, requested, requested_lem, started_lem}
use octnet_tftp.Client.Put.Sender.{put_sender}

instance abbrev endpoints : EndpointOps ℕ
endpoints = record { same = ◌==◌; same_iff = ==_iff; unspecified = 0 }

abbrev hello : Bytes
hello = codes "hello"

abbrev disk : FileSystem
disk = record {
  open_input =
      λ path mode. some (record { content = hello; faulty = false; error = false; closes = true });
  open_output = λ path mode. some (record { written = []; room = 100; closes = true });
}

abbrev reader : Reader
reader = Reader.file (open_file_reader disk (codes "l"))

abbrev writer : Writer
writer = Writer.file (open_file_writer disk (codes "f"))

abbrev manager : IoManager Reader Writer
manager = record { create_reader = λ _ _. some reader; create_writer = λ _ _. some writer }

abbrev asked : Request
asked = record {
  type = RequestType.put;
  host = codes "h";
  port = 69;
  remote_filename = codes "f";
  local_path = codes "l";
  mode = codes "octet";
}

abbrev empty : View
empty = (false, ([], false))

opens : open_reader disk (client_put {E = ℕ} asked) ≡ some reader
unfolding open_reader client_put equal_ignore_case equal_chars tolower
opens = refl

abbrev free : ℕ → SocketSetup
free address = all_succeed

-- The server that has taken the request of the other client.
abbrev busy : Registry ℕ Reader Writer
busy = (handle_server_packet manager free (file_req (request_of asked)) 9 no_connections).0

abbrev start : Net (ClientPut ℕ) (Registry ℕ Reader Writer)
start = record {
  sender = requested disk asked 1;
  receiver = (handle_server_packet manager free (file_req (request_of asked)) 7 busy).0;
  to_receiver = [];
  to_sender =
      sent_from busy.next_address 7
        (handle_server_packet manager free (file_req (request_of asked)) 7 busy).1;
}

accepted : Accepted writer_laws manager free disk asked 1 8 7 [] busy start
accepted =
    let e = started_lem disk asked reader opens refl in
    ((_, _, e, sym (requested_lem disk asked reader 1 [] _ _ opens refl e)), refl, refl, refl)

foreign : endpoints.same 1 8 ≡ false
foreign = refl

few : length hello / 512 < 65535
few = omega arith

hello-IsByte : All IsByte hello
hello-IsByte = (omega arith, (omega arith, (omega arith, (omega arith, (omega arith, tt)))))

-- The run that lets each datagram through.
taken :
    Leads
      (put_sender 1 8 foreign hello few)
      (taking writer_laws manager free disk asked 1 8 7 [] busy empty hello few hello-IsByte)
      start
      1
taken =
    push_can_finish disk asked 1 8 [] foreign reader few
      (taking writer_laws manager free disk asked 1 8 7 [] busy empty hello few hello-IsByte) opens
      refl refl start
      (Accepted-Offers writer_laws manager free disk asked 1 8 7 [] busy foreign reader writer opens
        refl refl refl refl (omega arith) refl hello-IsByte few start accepted)

-- After it the other client asks again.
abbrev asked_again : Registry ℕ Reader Writer × List Bytes
asked_again =
    from_address {W = Writer} manager free busy.next_address 7
      (handle_server_packet manager free (file_req (request_of asked)) 9 taken.0.receiver)

-- The connection made for the request.
abbrev made :
    WrittenBy writer_laws manager free disk asked 1 8 7 [] busy empty hello 1 taken.0.receiver
made =
    Takes-WrittenBy writer_laws manager free disk asked 1 8 7 [] busy empty hello 1 taken.0.receiver
      taken.2.taken
