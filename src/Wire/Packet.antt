-- ===== src/Wire/Packet.antt =====
-- src/common/defs.hpp and src/common/packet.hpp: constants and packet types. A `uint16_t` is a
-- number below 65536; that the fields keep to their width is `IsWellFormed` of Wire/WellFormed.
use octnet_tftp.Base.{ℕ, Bytes, List}

abbrev pub op_rrq : ℕ
op_rrq = 1

abbrev pub op_wrq : ℕ
op_wrq = 2

abbrev pub op_data : ℕ
op_data = 3

abbrev pub op_ack : ℕ
op_ack = 4

abbrev pub op_error : ℕ
op_error = 5

abbrev pub default_tftp_port : ℕ
default_tftp_port = 69

abbrev pub max_packet_size : ℕ
max_packet_size = 4096

abbrev pub default_data_size : ℕ
default_data_size = 512

abbrev pub default_retry_timeout_sec : ℕ
default_retry_timeout_sec = 1

abbrev pub default_retry_counter : ℕ
default_retry_counter = 5

abbrev pub max_recv_packet_size : ℕ
max_recv_packet_size = 1024

-- `std::map<std::string, std::string>`, in the order in which it is iterated.
abbrev pub Options : Type 0
Options = List (Bytes × Bytes)

pub record PacketFileReq : Type 0 where
  pub op : ℕ
  pub filename : Bytes
  pub mode : Bytes
  pub options : Options

pub record PacketData : Type 0 where
  pub op : ℕ
  pub block_no : ℕ
  pub bytes : Bytes

pub record PacketAck : Type 0 where
  pub op : ℕ
  pub block_no : ℕ

pub record PacketError : Type 0 where
  pub op : ℕ
  pub error_code : ℕ
  pub error_message : Bytes

-- A `packet` pointer: the object behind it is of one of the derived types.
pub data Packet : Type 0 where
  file_req : PacketFileReq → Packet
  data_packet : PacketData → Packet
  ack : PacketAck → Packet
  error : PacketError → Packet

-- `packet->m_op`
abbrev pub packet_op : Packet → ℕ
packet_op (file_req p) = p.op
packet_op (data_packet p) = p.op
packet_op (ack p) = p.op
packet_op (error p) = p.op
