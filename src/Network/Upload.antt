-- ===== src/Network/Upload.antt =====
-- An upload over the network: the file of a write connection.
mod Tests
pub mod Server
use octnet_tftp.Base.{ℕ, ◌+◌, ◌%◌, ◌≡◌, some, Bytes}
use octnet_tftp.Net.{EndpointOps}
use octnet_tftp.Io.Interface.{WriterOps, SinkLaws}
use octnet_tftp.Blocks.Cut.{blocks_before}
use octnet_tftp.Server.WriteConnection.{WriteConnection}
use octnet_tftp.Server.WriteConnection.Receiver

module _ {E W V : Type 0} ⦃ops : WriterOps W⦄ ⦃endpoints : EndpointOps E⦄
    (laws : SinkLaws V W ops) where
  -- The connection has written the first `n` blocks to its file, behind what stood there, and nothing
  -- else, and expects the next.
  abbrev pub HasWritten : V → Bytes → ℕ → WriteConnection E W → Type 0
  HasWritten view c n s =
      (s.next_expected_packet_id ≡ (n + 1) % 65536)
      × ((w : W) × (s.writer ≡ some w) × (laws.view w ≡ laws.absorb view (blocks_before c n)))

  pub HasTaken-HasWritten :
      (client : E) (view : V) (c : Bytes) (n : ℕ) (s : WriteConnection E W)
      → Receiver.HasTaken laws client view c n s
      → HasWritten view c n s
  HasTaken-HasWritten client view c n s t =
      let (w, e, o, v, r) = t.taking.writes in (t.taking.expects, (w, e, v))
