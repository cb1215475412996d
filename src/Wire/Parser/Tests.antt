-- ===== src/Wire/Parser/Tests.antt =====
-- Packets written and read at concrete bytes.
use octnet_tftp.Base.{◌≡◌, ◌≢◌, refl, inl, [], ◌∷◌, some, none, Bytes, codes, arith}
use octnet_tftp.Wire.Packet.{Packet, PacketFileReq, file_req, ack, op_rrq, op_ack}
use octnet_tftp.Wire.Options.{compare_bytes, emplace}
use octnet_tftp.Wire.Builder.{build_packet}
use octnet_tftp.Wire.Deserializer.{stuck, read_uint16, ensure_all_read}
use octnet_tftp.Wire.WellFormed.{IsWellFormed, IsSorted}
use octnet_tftp.Wire.Parser.{parse_packet, parse_try, parse_op, parse_ack}
use octnet_tftp.Wire.Parser.RoundTrip.{parse_packet-build_packet}
use octnet_tftp.Wire.Parser.Sound.{parse_packet-ReadFrom, ReadFrom}
use octnet_tftp.Wire.Parser.Total.{parse_try-ne-stuck}

-- RRQ "a" "octet" with two options in the order of a map.
abbrev request : PacketFileReq
request = record {
  op = op_rrq;
  filename = codes "a";
  mode = codes "octet";
  options = (codes "blksize", codes "1024") ∷ (codes "tsize", codes "0") ∷ [];
}

request_options-IsSorted : IsSorted request.options
unfolding compare_bytes
request_options-IsSorted = ((refl, tt), (tt, tt))

request-IsWellFormed : IsWellFormed (file_req request)
request-IsWellFormed = (inl refl, omega arith, omega arith, omega arith, request_options-IsSorted)

abbrev ack_bytes : Bytes
ack_bytes = 0 ∷ 4 ∷ 1 ∷ 2 ∷ []

abbrev ack_258 : Packet
ack_258 = ack (record { op = op_ack; block_no = 258 })

parse_ack_258 : parse_packet ack_bytes ≡ some ack_258
unfolding parse_packet parse_op parse_ack read_uint16 ensure_all_read
parse_ack_258 = refl

-- Bytes behind an ACK are refused.
parse_ack_long : parse_packet (0 ∷ 4 ∷ 1 ∷ 2 ∷ 3 ∷ []) ≡ none
unfolding parse_packet parse_op parse_ack read_uint16 ensure_all_read
parse_ack_long = refl

-- Of an option given twice the first value stays.
emplace_twice :
    emplace
      (codes "b")
      (codes "2")
      (emplace (codes "a") (codes "1") (emplace (codes "b") (codes "0") []))
    ≡ (codes "a", codes "1") ∷ (codes "b", codes "0") ∷ []
unfolding emplace
emplace_twice = refl

parse_packet-build_packet_example :
    parse_packet (build_packet (file_req request)) ≡ some (file_req request)
parse_packet-build_packet_example =
    parse_packet-build_packet (file_req request) request-IsWellFormed

parse_packet-ReadFrom_example : IsWellFormed ack_258 × ReadFrom ack_258 ack_bytes
parse_packet-ReadFrom_example = parse_packet-ReadFrom ack_bytes ack_258 (omega arith) parse_ack_258

parse_try-ne-stuck_example : parse_try (0 ∷ 1 ∷ 97 ∷ 0 ∷ 98 ∷ []) ≢ stuck
parse_try-ne-stuck_example = parse_try-ne-stuck (0 ∷ 1 ∷ 97 ∷ 0 ∷ 98 ∷ [])
