-- ===== src/Wire/Builder.antt =====
-- src/common/packet_builder.hpp: `serializer` appends to a buffer, and `build_packet` writes a
-- packet field by field. A cast to `uint8_t` is `% 256`.
pub mod Layout
use octnet_tftp.Base.{ℕ, ◌/◌, ◌%◌, [], ◌∷◌, ◌++◌, Bytes}
use octnet_tftp.Wire.Packet.{
  Options, PacketFileReq, PacketData, PacketAck, PacketError, Packet, file_req, data_packet, ack,
  error,
}

pub write_uint8 : Bytes → ℕ → Bytes
write_uint8 buffer value = buffer ++ value % 256 ∷ []

-- `(value >> 8) & 0xFF`, then `(value >> 0) & 0xFF`.
pub write_uint16 : Bytes → ℕ → Bytes
unfolding write_uint8
write_uint16 buffer value = write_uint8 (write_uint8 buffer (value / 256 % 256)) (value % 256)

write_chars : Bytes → Bytes → Bytes
write_chars buffer [] = buffer
write_chars buffer (c ∷ str) = write_chars (buffer ++ c % 256 ∷ []) str

pub write_string : Bytes → Bytes → Bytes
unfolding write_chars write_uint8
write_string buffer str = write_uint8 (write_chars buffer str) 0

pub write_bytes : Bytes → Bytes → Bytes
write_bytes buffer bytes = buffer ++ bytes

pub write_options : Bytes → Options → Bytes
write_options buffer [] = buffer
write_options buffer ((name, value) ∷ options) =
    write_options (write_string (write_string buffer name) value) options

pub build_file_req : PacketFileReq → Bytes
build_file_req p =
    let buffer : Bytes = write_uint16 [] p.op in
    let buffer : Bytes = write_string buffer p.filename in
    let buffer : Bytes = write_string buffer p.mode in write_options buffer p.options

pub build_data : PacketData → Bytes
build_data p =
    let buffer : Bytes = write_uint16 [] p.op in
    let buffer : Bytes = write_uint16 buffer p.block_no in write_bytes buffer p.bytes

pub build_error : PacketError → Bytes
build_error p =
    let buffer : Bytes = write_uint16 [] p.op in
    let buffer : Bytes = write_uint16 buffer p.error_code in write_string buffer p.error_message

pub build_ack : PacketAck → Bytes
build_ack p = let buffer : Bytes = write_uint16 [] p.op in write_uint16 buffer p.block_no

-- The overloads of `build_packet`, as one function on the packet types.
unfoldable pub build_packet : Packet → Bytes
unfolding build_file_req build_data build_error build_ack
build_packet (file_req p) = build_file_req p
build_packet (data_packet p) = build_data p
build_packet (ack p) = build_ack p
build_packet (error p) = build_error p
