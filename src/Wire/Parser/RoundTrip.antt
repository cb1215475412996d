-- ===== src/Wire/Parser/RoundTrip.antt =====
-- `parse_packet` undoes `build_packet`.
use octnet_tftp.Base.{
  ℕ, zero, suc, ◌≤◌, ◌<◌, ◌≡◌, refl, ◌∙◌, true, [], ◌∷◌, ◌++◌, append_assoc, append-nil, none, some,
  Bytes, arith, length, length-append, IsU16, subst, sym,
}
use octnet_tftp.Wire.Packet.{
  Options, Packet, PacketFileReq, file_req, data_packet, ack, error, op_data, op_ack, op_error,
  packet_op,
}
use octnet_tftp.Wire.Options.{emplace}
use octnet_tftp.Wire.Options.Order.{emplace_last, IsSorted-before}
use octnet_tftp.Wire.Builder.{build_packet}
use octnet_tftp.Wire.Builder.Layout.{build_packet-encoding}
use octnet_tftp.Wire.Deserializer.{
  read_uint8, read_uint16, returned, has_more_bytes, ensure_all_read, read_remaining_bytes,
}
use octnet_tftp.Wire.Deserializer.Fields.{read_uint16-encoding, read_string-encoding}
use octnet_tftp.Wire.WellFormed.{IsText, AreTexts, IsSorted, IsFileReq, IsWellFormed}
use octnet_tftp.Wire.Encoding.{u16_encoding, options_encoding, encoding}
use octnet_tftp.Wire.Parser.{
  parse_options, parse_file_req, parse_op, parse_try, parse_packet, parse_data, parse_ack,
  parse_error, caught,
}

has_more_bytes-encoding : (str rest : Bytes) → has_more_bytes (str ++ 0 ∷ rest) ≡ true
unfolding has_more_bytes
has_more_bytes-encoding [] rest = refl
has_more_bytes-encoding (c ∷ str) rest = refl

-- One round of the loop over the options.
parse_options_round :
    (fuel : ℕ) (acc : Options) (name value rest : Bytes)
    → IsText name
    → IsText value
    → parse_options (suc fuel) acc (name ++ 0 ∷ (value ++ 0 ∷ rest))
      ≡ parse_options fuel (emplace name value acc) rest
unfolding parse_options
parse_options_round fuel acc name value rest hn hv = rw (
  has_more_bytes-encoding name (value ++ 0 ∷ rest),
  read_string-encoding name (value ++ 0 ∷ rest) hn,
  read_string-encoding value rest hv,
)

options_shorter : (name value rest : Bytes) → length rest < length (name ++ 0 ∷ (value ++ 0 ∷ rest))
options_shorter name value rest =
    rw (length-append name (0 ∷ (value ++ 0 ∷ rest)), length-append value (0 ∷ rest)) (omega arith)

parse_options-encoding :
    (options : Options) (fuel : ℕ) (acc : Options)
    → length (options_encoding options) ≤ fuel
    → AreTexts options
    → IsSorted (acc ++ options)
    → parse_options fuel acc (options_encoding options) ≡ returned (acc ++ options, [])
parse_options-encoding [] zero acc hf ht hs = unfold parse_options has_more_bytes in rw append-nil
parse_options-encoding [] (suc fuel) acc hf ht hs =
    unfold parse_options has_more_bytes in rw append-nil
parse_options-encoding ((name, value) ∷ options) zero acc hf ht hs =
    absurd (omega (arith, options_shorter name value (options_encoding options)))
parse_options-encoding ((name, value) ∷ options) (suc fuel) acc hf ((hn, hv), ht) hs =
    parse_options_round fuel acc name value (options_encoding options) hn hv
    ∙ rw (
      emplace_last name value acc (IsSorted-before acc name value options hs),
      parse_options-encoding options fuel (acc ++ (name, value) ∷ [])
          (omega (arith, options_shorter name value (options_encoding options))) ht
          (subst IsSorted (sym (append_assoc acc ((name, value) ∷ []) options)) hs),
      append_assoc,
    )

parse_file_req-encoding :
    (p : PacketFileReq)
    → IsFileReq p
    → parse_file_req p.op (p.filename ++ 0 ∷ (p.mode ++ 0 ∷ options_encoding p.options))
      ≡ returned (file_req p)
unfolding parse_file_req ensure_all_read
parse_file_req-encoding p (_, hf, hm, ho, hs) = rw (
  read_string-encoding p.filename (p.mode ++ 0 ∷ options_encoding p.options) hf,
  read_string-encoding p.mode (options_encoding p.options) hm,
  parse_options-encoding p.options (length (options_encoding p.options)) [] (omega arith) ho hs,
)

parse_data-encoding :
    (n : ℕ) (bytes : Bytes)
    → IsU16 n
    → parse_data (u16_encoding n bytes)
      ≡ returned (data_packet (record { op = op_data; block_no = n; bytes = bytes }))
unfolding parse_data ensure_all_read read_remaining_bytes
parse_data-encoding n bytes h = rw (read_uint16-encoding n bytes h)

parse_ack-encoding :
    (n : ℕ)
    → IsU16 n
    → parse_ack (u16_encoding n []) ≡ returned (ack (record { op = op_ack; block_no = n }))
unfolding parse_ack ensure_all_read
parse_ack-encoding n h = rw (read_uint16-encoding n [] h)

parse_error-encoding :
    (n : ℕ) (message : Bytes)
    → IsU16 n
    → IsText message
    → parse_error (u16_encoding n (message ++ 0 ∷ []))
      ≡ returned (error (record { op = op_error; error_code = n; error_message = message }))
unfolding parse_error ensure_all_read
parse_error-encoding n message h ht =
    rw (read_uint16-encoding n (message ++ 0 ∷ []) h, read_string-encoding message [] ht)

-- What `parse_packet` makes of an op and of what stands behind it.
pub parse_packet-op :
    (op : ℕ) (rest : Bytes)
    → IsU16 op
    → parse_packet (u16_encoding op rest) ≡ caught (parse_op op rest)
unfolding parse_packet parse_try
parse_packet-op op rest h = rw (read_uint16-encoding op rest h)

op-IsU16 : (p : Packet) → IsWellFormed p → IsU16 (packet_op p)
op-IsU16 (file_req p) h = omega (arith, h.0)
op-IsU16 (data_packet p) h = omega arith
op-IsU16 (ack p) h = omega arith
op-IsU16 (error p) h = omega arith

parse_packet-encoding : (p : Packet) → IsWellFormed p → parse_packet (encoding p) ≡ some p
unfolding parse_op
parse_packet-encoding (file_req p) h =
    parse_packet-op p.op (p.filename ++ 0 ∷ (p.mode ++ 0 ∷ options_encoding p.options))
      (op-IsU16 (file_req p) h)
    ∙ ground (arith, parse_file_req-encoding p h)
parse_packet-encoding (data_packet p) (e, hb, hx) =
    parse_packet-op p.op (u16_encoding p.block_no p.bytes) (op-IsU16 (data_packet p) (e, hb, hx))
    ∙ ground (arith, parse_data-encoding p.block_no p.bytes hb)
parse_packet-encoding (ack p) (e, hb) =
    parse_packet-op p.op (u16_encoding p.block_no []) (op-IsU16 (ack p) (e, hb))
    ∙ ground (arith, parse_ack-encoding p.block_no hb)
parse_packet-encoding (error p) (e, hc, hm) =
    parse_packet-op p.op (u16_encoding p.error_code (p.error_message ++ 0 ∷ []))
      (op-IsU16 (error p) (e, hc, hm))
    ∙ ground (arith, parse_error-encoding p.error_code p.error_message hc hm)

-- `parse_packet` reads back each well-formed packet from the bytes that `build_packet` wrote.
pub parse_packet-build_packet :
    (p : Packet) → IsWellFormed p → parse_packet (build_packet p) ≡ some p
parse_packet-build_packet p h = rw (build_packet-encoding p h) (parse_packet-encoding p h)

pub parse_packet_nil : parse_packet [] ≡ none
unfolding parse_packet parse_op read_uint16 read_uint8
parse_packet_nil = refl
