-- ===== src/Client.antt =====
-- src/client_app: what a client is asked for, as in request.hpp, and the two clients.
pub mod Get
pub mod Put
pub mod Tests
use octnet_tftp.Base.{ℕ, Bytes}

pub data RequestType : Type 0 where
  get put : RequestType

pub record Request : Type 0 where
  pub type : RequestType
  pub host : Bytes
  pub port : ℕ
  pub remote_filename : Bytes
  pub local_path : Bytes
  pub mode : Bytes
