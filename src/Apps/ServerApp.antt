-- ===== src/Apps/ServerApp.antt =====
-- src/server_app/server_app.hpp: the server on port 6969 with its files below testdata.
use octnet_tftp.Base.{ℕ, ◌≡◌, Bool, codes, if◌then◌else◌}
use octnet_tftp.Net.{EndpointOps}
use octnet_tftp.Io.File.{FileSystem}
use octnet_tftp.Io.Manager.{Reader, Writer, IoManager, default_io_manager}
use octnet_tftp.Server.Result.{returned, thrown}
use octnet_tftp.Server.Registry.{Actions}
use octnet_tftp.Server.Service.{Server, ServerSettings, server_settings, server, start}
use octnet_tftp.Server.Service.Requests.{start_throws}
use octnet_tftp.Apps.{ExitCode, exit_success, exit_failure}

pub create_settings : ServerSettings
create_settings = record server_settings { server_port = 6969; root_path = codes "testdata" }

pub create_io_manager : FileSystem → ServerSettings → IoManager Reader Writer
create_io_manager fs settings = default_io_manager fs settings.root_path

module _ {E : Type 0} ⦃endpoints : EndpointOps E⦄ (fs : FileSystem) where
  pub server_app : Server E Reader Writer
  server_app = server create_settings (create_io_manager fs create_settings)

  -- `opens` and `binds` are those of the start; `runs` tells whether the event loop ends without an
  -- exception.
  pub run : Bool → (ℕ → Bool) → (Server E Reader Writer → Bool) → Server E Reader Writer → ExitCode
  run opens binds runs s = elim (start opens binds s) [
    | returned (s', actions) ↦ if runs s' then exit_success else exit_failure
    | thrown e outcome ↦ exit_failure
  ]

  failed_start :
      (opens : Bool) (binds : ℕ → Bool) (runs : Server E Reader Writer → Bool)
      (s : Server E Reader Writer)
      → (e : _) (o : Actions E (Server E Reader Writer)) → start opens binds s ≡ thrown e o
      → run opens binds runs s ≡ exit_failure
  unfolding run
  failed_start opens binds runs s e o h = rw (run, h)

  -- The program fails at its start, whether the socket opens and binds or not and whatever the event
  -- loop would do.
  pub run_fails :
      (opens : Bool) (binds : ℕ → Bool) (runs : Server E Reader Writer → Bool)
      → run opens binds runs server_app ≡ exit_failure
  unfolding server_app
  run_fails opens binds runs =
      let (e, o, h, _) =
        start_throws create_settings (create_io_manager fs create_settings) opens binds in
      failed_start opens binds runs server_app e o h
