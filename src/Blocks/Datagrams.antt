-- ===== src/Blocks/Datagrams.antt =====
-- The DATA packet of each block of a file, its ACK, and what is read of either in a datagram.
use octnet_tftp.Base.{
  ℕ, zero, suc, ◌+◌, ◌*◌, ◌%◌, ◌≤◌, ◌<◌, ◌≡◌, refl, ap, ◌∙◌, some, [], Bytes, IsByte, All, All-take,
  All-drop, take, take_all, drop, length, length-take, length-drop, ltb, if◌then◌else◌, Bool, true,
  false, arith,
}
use octnet_tftp.Wire.Packet.{
  op_data, op_ack, op_error, max_recv_packet_size, PacketData, PacketAck, data_packet, ack, error,
}
use octnet_tftp.Wire.Builder.{build_packet}
use octnet_tftp.Wire.Builder.Layout.{build_packet-encoding}
use octnet_tftp.Wire.WellFormed.{IsWellFormed}
use octnet_tftp.Wire.Parser.{parse_packet}
use octnet_tftp.Wire.Parser.RoundTrip.{parse_packet-build_packet}
use octnet_tftp.Blocks.Cut.{block}

-- The DATA packet of block `k`, and the ACK that it waits for.
abbrev pub data_of : Bytes → ℕ → PacketData
data_of c k = record { op = op_data; block_no = (k + 1) % 65536; bytes = block c k }

abbrev pub ack_of : ℕ → PacketAck
ack_of k = record { op = op_ack; block_no = (k + 1) % 65536 }

-- The ACK with number `n`.
abbrev pub ack_numbered : ℕ → PacketAck
ack_numbered n = record { op = op_ack; block_no = n }

-- A DATA packet as it is sent, in a datagram that fits the buffer.
abbrev pub IsSent : PacketData → Type 0
IsSent p = IsWellFormed (data_packet p) × (length p.bytes ≤ 1020)

abbrev pub datagram : PacketData → Bytes
datagram p = build_packet (data_packet p)

pub take-datagram :
    (p : PacketData) → IsSent p → take max_recv_packet_size (datagram p) ≡ datagram p
take-datagram p (h, l) =
    take_all 1024 (datagram p) (rw (build_packet-encoding (data_packet p) h) (omega arith))

pub data_of-IsSent : (c : Bytes) (k : ℕ) → All IsByte c → IsSent (data_of c k)
data_of-IsSent c k h = (
  (refl, omega arith, All-take IsByte 512 (drop (512 * k) c) (All-drop IsByte (512 * k) c h)),
  omega (arith, length-take 512 (drop (512 * k) c)),
)

-- The datagrams of a transfer by the number of the block, from 1 on.
abbrev pub block_datagram : Bytes → ℕ → Bytes
block_datagram c zero = []
block_datagram c (suc k) = datagram (data_of c k)

abbrev pub ack_datagram : ℕ → Bytes
ack_datagram n = build_packet (ack (ack_numbered n))

-- The ERROR with a code and a message.
abbrev pub error_datagram : ℕ → Bytes → Bytes
error_datagram code message =
    build_packet (error (record { op = op_error; error_code = code; error_message = message }))

pub take-ack_datagram :
    (n : ℕ) → n < 65536 → take max_recv_packet_size (ack_datagram n) ≡ ack_datagram n
take-ack_datagram n h =
    take_all 1024 (ack_datagram n)
      (rw (build_packet-encoding (ack (ack_numbered n)) (refl, h)) (omega arith))

pub parse-ack_datagram :
    (n : ℕ)
    → n < 65536
    → parse_packet (take max_recv_packet_size (ack_datagram n)) ≡ some (ack (ack_numbered n))
parse-ack_datagram n h =
    ap parse_packet (take-ack_datagram n h)
    ∙ parse_packet-build_packet (ack (ack_numbered n)) (refl, h)

pub parse-datagram :
    (p : PacketData)
    → IsSent p
    → parse_packet (take max_recv_packet_size (datagram p)) ≡ some (data_packet p)
parse-datagram p h =
    ap parse_packet (take-datagram p h) ∙ parse_packet-build_packet (data_packet p) h.0

pub number : (k : ℕ) → k < 65535 → (k + 1) % 65536 ≡ suc k
number k h = omega arith

pub numbered : (k : ℕ) → k < 65535 → ack_of k ≡ ack_numbered (suc k)
numbered k h = ap ack_numbered (number k h)

-- The bytes from block `n` on.
abbrev pub bytes_left : Bytes → ℕ → ℕ
bytes_left c n = length (drop (512 * n) c)

pub bytes_left-suc :
    (c : Bytes) (n : ℕ) → bytes_left c n ≡ length (block c n) + bytes_left c (suc n)
bytes_left-suc c n = omega (
  arith,
  length-take 512 (drop (512 * n) c),
  length-drop (512 * n) c,
  length-drop (512 * suc n) c,
)

pub bytes_left-zero : (c : Bytes) → bytes_left c 0 ≡ length c
bytes_left-zero c = omega (arith, length-drop (512 * 0) c)

-- `m_last_packet_sent` becomes true with a short block.
pub if_true : (b last : Bool) → last ≡ false → (if b then true else last) ≡ b
if_true true last e = refl
if_true false last e = e

pub ltb_full : {n : ℕ} → n ≡ 512 → ltb n 512 ≡ false
ltb_full h = ground arith

pub ltb_short : {n : ℕ} → n < 512 → ltb n 512 ≡ true
ltb_short h = ground arith
