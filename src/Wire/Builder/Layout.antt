-- ===== src/Wire/Builder/Layout.antt =====
-- What `build_packet` writes.
use octnet_tftp.Base.{ℕ, ◌/◌, ◌%◌, ◌≡◌, sym, [], ◌∷◌, ◌++◌, append_assoc, append-nil, Bytes, arith}
use octnet_tftp.Wire.Packet.{Options, Packet, file_req, data_packet, ack, error}
use octnet_tftp.Wire.Builder.{
  write_uint16, write_chars, write_string, write_bytes, write_options, build_packet,
}
use octnet_tftp.Wire.WellFormed.{IsText, AreTexts, IsWellFormed}
use octnet_tftp.Wire.Encoding.{u16_encoding, options_encoding, encoding}

write_uint16-encoding :
    (buffer : Bytes) (v : ℕ) → write_uint16 buffer v ≡ buffer ++ u16_encoding v []
unfolding write_uint16
write_uint16-encoding buffer v =
    let hi : v / 256 % 256 % 256 ≡ v / 256 % 256 = omega arith in
    let lo : v % 256 % 256 ≡ v % 256 = omega arith in rw (append_assoc, hi, lo)

write_chars-append : (str buffer : Bytes) → IsText str → write_chars buffer str ≡ buffer ++ str
unfolding write_chars
write_chars-append [] buffer h = sym (append-nil buffer)
write_chars-append (c ∷ str) buffer h =
    let e : c % 256 ≡ c = omega arith in
    rw (e, write_chars-append str (buffer ++ c ∷ []) h.1, append_assoc)

write_string-encoding :
    (buffer str : Bytes) → IsText str → write_string buffer str ≡ buffer ++ (str ++ 0 ∷ [])
unfolding write_string
write_string-encoding buffer str h = rw (write_chars-append str buffer h, append_assoc)

write_options-encoding :
    (options : Options) (buffer : Bytes)
    → AreTexts options
    → write_options buffer options ≡ buffer ++ options_encoding options
unfolding write_options
write_options-encoding [] buffer h = sym (append-nil buffer)
write_options-encoding ((name, value) ∷ options) buffer ((hn, hv), hs) =
    rw
      (
        write_options-encoding options (write_string (write_string buffer name) value) hs,
        write_string-encoding (write_string buffer name) value hv,
        write_string-encoding buffer name hn,
      )
      (simp append_assoc)

-- `build_packet` writes a well-formed packet in the layout of the protocol.
pub build_packet-encoding : (p : Packet) → IsWellFormed p → build_packet p ≡ encoding p
unfolding build_packet write_bytes
build_packet-encoding (file_req p) (_, hf, hm, ho, _) = simp (
  write_options-encoding p.options _ ho,
  write_string-encoding _ p.mode hm,
  write_string-encoding _ p.filename hf,
  write_uint16-encoding,
  append_assoc,
)
build_packet-encoding (data_packet p) h = simp (write_uint16-encoding, append_assoc)
build_packet-encoding (ack p) h = simp (write_uint16-encoding, append_assoc)
build_packet-encoding (error p) h =
    simp (write_uint16-encoding, write_string-encoding _ p.error_message h.2, append_assoc)
