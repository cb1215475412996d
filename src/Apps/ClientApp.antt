-- ===== src/Apps/ClientApp.antt =====
-- src/client_app/client_app.hpp: a client with a request that is written into the program.
use octnet_tftp.Base.{ℕ, Bool, false, ◌==◌, Option, none, some, codes, if◌then◌else◌}
use octnet_tftp.Net.{EndpointOps, ErrorCode, success, Outcome}
use octnet_tftp.Io.File.{FileSystem}
use octnet_tftp.Client.{Request, RequestType}
use octnet_tftp.Client.Get
use octnet_tftp.Client.Get.{ClientGet, client_get}
use octnet_tftp.Client.Put
use octnet_tftp.Client.Put.{ClientPut, client_put}
use octnet_tftp.Apps.{ExitCode, exit_success, exit_failure}

pub this_request : Request
this_request = record {
  type = RequestType.get;
  host = codes "localhost";
  port = 9999;
  remote_filename = codes "file1.txt";
  local_path = codes "testdata/client2.txt";
  mode = codes "octet";
}

-- Whether `on_signal` stops the `io_context`.
pub on_signal : ℕ → ErrorCode → ℕ → Bool
on_signal sigterm success signal_number = signal_number == sigterm
on_signal sigterm ec signal_number = false

pub data ClientState (E : Type 0) : Type 0 where
  gets : ClientGet E → ClientState E
  puts : ClientPut E → ClientState E

module _ {E : Type 0} ⦃endpoints : EndpointOps E⦄ where
  -- The client of the request's type, started; `none` is an exception of its socket, which `bound`
  -- decides.
  pub start_client : FileSystem → Bool → Request → Option (Outcome E (ClientState E))
  start_client fs bound request = elim request.type [
    | RequestType.get ↦ elim (Get.start bound (client_get {E = E} request)) [
      | none ↦ none
      | some (s, effects) ↦ some (gets s, effects)
    ]
    | RequestType.put ↦ elim (Put.start fs bound (client_put {E = E} request)) [
      | none ↦ none
      | some (s, effects) ↦ some (puts s, effects)
    ]
  ]

  -- `runs` tells whether the event loop ends without an exception.
  pub run : FileSystem → Bool → (ClientState E → Bool) → ExitCode
  run fs bound runs = elim (start_client fs bound this_request) [
    | none ↦ exit_failure
    | some (s, effects) ↦ if runs s then exit_success else exit_failure
  ]
