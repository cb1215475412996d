-- ===== src/Apps.antt =====
-- src/server_app and src/client_app: the programs.
pub mod ServerApp
pub mod ClientApp
mod Tests
use octnet_tftp.Base.{ℕ, Bool, true, false, ◌==◌}
use octnet_tftp.Net.{ErrorCode, success, operation_aborted, failed}

-- What `run` gives to `main`.
pub data ExitCode : Type 0 where
  exit_success exit_failure : ExitCode

-- `on_signal` of the server's program: whether it stops the `io_context`. The number of the signal that
-- does is the system's.
pub on_signal : ℕ → ErrorCode → ℕ → Bool
on_signal sigterm success signal_number = signal_number == sigterm
on_signal sigterm ec signal_number = false
