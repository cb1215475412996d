-- ===== src/Wire/Encoding.antt =====
-- The layout of RFC 1350 and RFC 2347, described apart from the code that writes and reads it.
use octnet_tftp.Base.{◌/◌, ◌%◌, ℕ, [], ◌∷◌, ◌++◌, Bytes}
use octnet_tftp.Wire.Packet.{Options, Packet, file_req, data_packet, ack, error}

abbrev pub u16_encoding : ℕ → Bytes → Bytes
u16_encoding value rest = value / 256 % 256 ∷ value % 256 ∷ rest

abbrev pub options_encoding : Options → Bytes
options_encoding [] = []
options_encoding ((name, value) ∷ options) = name ++ 0 ∷ (value ++ 0 ∷ options_encoding options)

abbrev pub encoding : Packet → Bytes
encoding (file_req p) =
    u16_encoding p.op (p.filename ++ 0 ∷ (p.mode ++ 0 ∷ options_encoding p.options))
encoding (data_packet p) = u16_encoding p.op (u16_encoding p.block_no p.bytes)
encoding (ack p) = u16_encoding p.op (u16_encoding p.block_no [])
encoding (error p) = u16_encoding p.op (u16_encoding p.error_code (p.error_message ++ 0 ∷ []))
