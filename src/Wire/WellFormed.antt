-- ===== src/Wire/WellFormed.antt =====
-- What a packet has to satisfy for its bytes to stand for it.
use octnet_tftp.Base.{◌<◌, ◌≡◌, ◌⊎◌, [], ◌∷◌, Bytes, IsByte, IsU16, All, Ordering}
use octnet_tftp.Wire.Packet.{
  op_rrq, op_wrq, op_data, op_ack, op_error, Options, PacketFileReq, PacketData, PacketAck,
  PacketError, Packet, file_req, data_packet, ack, error,
}
use octnet_tftp.Wire.Options.{compare_bytes}

-- Bytes none of which is NUL.
abbrev pub IsText : Bytes → Type 0
IsText = All (λ b. (0 < b) × IsByte b)

-- Each key comes before all later ones, as in the iteration of a map.
abbrev pub IsSorted : Options → Type 0
IsSorted [] = Unit {0}
IsSorted ((k, v) ∷ m) = All (λ o. compare_bytes k o.0 ≡ Ordering.lt) m × IsSorted m

abbrev pub AreTexts : Options → Type 0
AreTexts = All (λ o. IsText o.0 × IsText o.1)

abbrev pub IsFileReq : PacketFileReq → Type 0
IsFileReq p =
    ((p.op ≡ op_rrq) ⊎ (p.op ≡ op_wrq))
    × IsText p.filename
    × IsText p.mode
    × AreTexts p.options
    × IsSorted p.options

abbrev pub IsData : PacketData → Type 0
IsData p = (p.op ≡ op_data) × IsU16 p.block_no × All IsByte p.bytes

abbrev pub IsAck : PacketAck → Type 0
IsAck p = (p.op ≡ op_ack) × IsU16 p.block_no

abbrev pub IsError : PacketError → Type 0
IsError p = (p.op ≡ op_error) × IsU16 p.error_code × IsText p.error_message

-- Each type with its own op; numbers of 16 bits; texts without NUL; options in their order.
abbrev pub IsWellFormed : Packet → Type 0
IsWellFormed (file_req p) = IsFileReq p
IsWellFormed (data_packet p) = IsData p
IsWellFormed (ack p) = IsAck p
IsWellFormed (error p) = IsError p
