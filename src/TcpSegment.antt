-- ===== src/TcpSegment.antt =====
-- libsponge/tcp_helpers/tcp_header.hh and tcp_segment.hh, tcp_segment.cc: a TCP segment in memory.
-- The payload is the bytes that `Buffer::str()` shows.
pub mod Wire
use com_net_sponge.Prelude.{ℕ, ◌+◌, Bool, false, List, length, if◌then◌else◌}
use com_net_sponge.WrappingInt32.{WrappingInt32}

pub record TcpHeader : Type 0 where
  pub sport : ℕ
  pub dport : ℕ
  pub seqno : WrappingInt32
  pub ackno : WrappingInt32
  pub doff : ℕ
  pub urg : Bool
  pub ack : Bool
  pub psh : Bool
  pub rst : Bool
  pub syn : Bool
  pub fin : Bool
  pub win : ℕ
  pub cksum : ℕ
  pub uptr : ℕ

-- The default member initializers.
abbrev pub default_header : TcpHeader
default_header = record {
  sport = 0;
  dport = 0;
  seqno = 0;
  ackno = 0;
  doff = 5;
  urg = false;
  ack = false;
  psh = false;
  rst = false;
  syn = false;
  fin = false;
  win = 0;
  cksum = 0;
  uptr = 0;
}

pub record TcpSegment : Type 0 where
  pub header : TcpHeader
  pub open header use *
  pub payload : List ℕ

abbrev pub flag : Bool → ℕ
flag b = if b then 1 else 0

unfoldable pub length_in_sequence_space : TcpSegment → ℕ
length_in_sequence_space seg = length seg.payload + flag seg.syn + flag seg.fin
