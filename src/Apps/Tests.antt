-- ===== src/Apps/Tests.antt =====
-- The server program with no files.
use octnet_tftp.Base.{ℕ, ◌≡◌, true, none, ◌==◌, ==_iff}
use octnet_tftp.Net.{EndpointOps}
use octnet_tftp.Io.File.{FileSystem}
use octnet_tftp.Apps.{exit_failure}
use octnet_tftp.Apps.ServerApp.{run, server_app, run_fails}

instance abbrev endpoints : EndpointOps ℕ
endpoints = record { same = ◌==◌; same_iff = ==_iff; unspecified = 0 }

abbrev disk : FileSystem
disk = record { open_input = λ path mode. none; open_output = λ path mode. none }

run_fails_example :
    run {E = ℕ} disk true (λ port. true) (λ s. true) (server_app disk) ≡ exit_failure
run_fails_example = run_fails {E = ℕ} disk true (λ port. true) (λ s. true)
