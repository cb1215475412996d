-- ===== src/Wire/Parser.antt =====
-- src/common/packet_parser.hpp. The loop over the options takes fuel; the bytes at hand are enough
-- (Wire/Parser/Total).
pub mod RoundTrip
pub mod Sound
pub mod Total
mod Tests
use octnet_tftp.Base.{
  ℕ, zero, suc, Bool, true, false, List, [], ◌∷◌, Option, none, some, Bytes, ◌==◌, ◌||◌,
  if◌then◌else◌, length,
}
use octnet_tftp.Wire.Packet.{
  op_rrq, op_wrq, op_data, op_ack, op_error, Options, PacketFileReq, PacketData, PacketAck,
  PacketError, Packet, file_req, data_packet, ack, error,
}
use octnet_tftp.Wire.Options.{emplace}
use octnet_tftp.Wire.Deserializer.{
  DeserializeError, Parsed, returned, thrown, stuck, ◌>>=◌, has_more_bytes, ensure_all_read,
  read_remaining_bytes, read_uint16, read_string, too_much_data,
}

pub parse_options : ℕ → Options → Bytes → Parsed (Options × Bytes)
parse_options zero options d = if has_more_bytes d then stuck else returned (options, d)
parse_options (suc fuel) options d =
    let more : Parsed (Options × Bytes) = (do
      (name, d1) ← read_string d
      (value, d2) ← read_string d1
      parse_options fuel (emplace name value options) d2) in
    if has_more_bytes d then more else returned (options, d)

pub parse_file_req : ℕ → Bytes → Parsed Packet
parse_file_req op d = do
  (filename, d1) ← read_string d
  (mode, d2) ← read_string d1
  (options, d3) ← parse_options (length d2) [] d2
  _ ← ensure_all_read d3
  returned (file_req (record { op = op; filename = filename; mode = mode; options = options }))

-- Not called: `parse_packet` sends both request types to `parse_file_req`.
pub parse_wrq : Bytes → Parsed Packet
parse_wrq d = do
  (filename, d1) ← read_string d
  (mode, d2) ← read_string d1
  (options, d3) ← parse_options (length d2) [] d2
  _ ← ensure_all_read d3
  returned (file_req (record { op = op_wrq; filename = filename; mode = mode; options = options }))

pub parse_data : Bytes → Parsed Packet
parse_data d = do
  (block_no, d1) ← read_uint16 d
  let (bytes, d2) = read_remaining_bytes [] d1
  _ ← ensure_all_read d2
  returned (data_packet (record { op = op_data; block_no = block_no; bytes = bytes }))

pub parse_ack : Bytes → Parsed Packet
parse_ack d = do
  (block_no, d1) ← read_uint16 d
  _ ← ensure_all_read d1
  returned (ack (record { op = op_ack; block_no = block_no }))

pub parse_error : Bytes → Parsed Packet
parse_error d = do
  (error_code, d1) ← read_uint16 d
  (error_message, d2) ← read_string d1
  _ ← ensure_all_read d2
  returned
      (error (record { op = op_error; error_code = error_code; error_message = error_message }))

-- The `switch` of `parse_packet`; an unknown op gives a null pointer and no exception.
pub parse_op : ℕ → Bytes → Parsed (Option Packet)
parse_op op d =
    if op == op_rrq || op == op_wrq
    then (parse_file_req op d >>= λ p. returned (some p))
    else if op == op_data
    then (parse_data d >>= λ p. returned (some p))
    else if op == op_ack
    then (parse_ack d >>= λ p. returned (some p))
    else if op == op_error
    then (parse_error d >>= λ p. returned (some p))
    else returned none

-- The body of the `try` block.
pub parse_try : Bytes → Parsed (Option Packet)
parse_try d = do (op, d1) ← read_uint16 d; parse_op op d1

-- `catch (const deserialize_error&)` gives a null pointer too.
abbrev caught : Parsed (Option Packet) → Option Packet
caught (returned p) = p
caught (thrown e) = none
caught stuck = none

unfoldable pub parse_packet : Bytes → Option Packet
unfolding parse_try
parse_packet d = caught (parse_try d)
