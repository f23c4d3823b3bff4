-- ===== src/TcpSegment/Wire.antt =====
-- libsponge/tcp_helpers/tcp_header.cc and tcp_segment.cc: a TCP segment and its bytes.
pub mod Header
pub mod RoundTrip
pub mod Rejected
mod Tests
use com_net_sponge.Prelude.{
  ℕ, ◌+◌, ◌-◌, ◌*◌, ◌/◌, ◌%◌, ◌^◌, Bool, true, false, not, ◌&&◌, ltb, ◌==◌, if◌then◌else◌, List, [],
  ◌∷◌, ◌++◌, length, take, replicate, Option, none, some,
}
use com_net_sponge.Buffer
use com_net_sponge.Buffer.{Buffer, BufferList}
use com_net_sponge.InternetChecksum
use com_net_sponge.InternetChecksum.{InternetChecksum}
use com_net_sponge.NetParser
use com_net_sponge.NetParser.{
  ParseResult, no_error, bad_checksum, header_too_short, is_error, NetParser, Parse, ◌>>=◌, bit,
  resize, u32, u16, u8, put32, put16, put8,
}
use com_net_sponge.TcpSegment.{TcpHeader, default_header, TcpSegment}

-- The end of `TCPHeader::parse`.
unfoldable pub skip_options : TcpHeader → Parse (TcpHeader × ParseResult)
skip_options header p =
    let p' : NetParser = NetParser.remove_prefix p (header.doff * 4 - 20) in
    if ltb header.doff 5
    then ((header, header_too_short), p)
    else ((header, (if is_error p'.error then p'.error else no_error)), p')

unfoldable pub parse_header : Parse (TcpHeader × ParseResult)
parse_header = do
  sport ← u16
  dport ← u16
  seqno ← u32
  ackno ← u32
  offset_byte ← u8
  fl_b ← u8
  win ← u16
  cksum ← u16
  uptr ← u16
  skip_options (record {
    sport = sport;
    dport = dport;
    seqno = seqno;
    ackno = ackno;
    doff = offset_byte / 2 ^ 4;
    urg = bit fl_b 5;
    ack = bit fl_b 4;
    psh = bit fl_b 3;
    rst = bit fl_b 2;
    syn = bit fl_b 1;
    fin = bit fl_b 0;
    win = win;
    cksum = cksum;
    uptr = uptr;
  })

-- The bitwise or of distinct bits.
unfoldable pub flags_byte : TcpHeader → ℕ
flags_byte h =
    (if h.urg then 32 else 0)
    + (if h.ack then 16 else 0)
    + (if h.psh then 8 else 0)
    + (if h.rst then 4 else 0)
    + (if h.syn then 2 else 0)
    + (if h.fin then 1 else 0)

-- `none` is the exception.
unfoldable pub serialize_header : TcpHeader → Option (List ℕ)
unfolding resize flags_byte
serialize_header h =
    let s1 : List ℕ = put16 [] h.sport in
    let s2 : List ℕ = put16 s1 h.dport in
    let s3 : List ℕ = put32 s2 h.seqno in
    let s4 : List ℕ = put32 s3 h.ackno in
    let s5 : List ℕ = put8 s4 (h.doff * 2 ^ 4) in
    let s6 : List ℕ = put8 s5 (flags_byte h) in
    let s7 : List ℕ = put16 s6 h.win in
    let s8 : List ℕ = put16 s7 h.cksum in
    let s9 : List ℕ = put16 s8 h.uptr in
    if ltb h.doff 5 then none else some (resize s9 (4 * h.doff))

abbrev same_flag : Bool → Bool → Bool
same_flag true b = b
same_flag false true = false
same_flag false false = true

-- `TCPHeader::operator==`.
unfoldable pub same_header : TcpHeader → TcpHeader → Bool
same_header h other =
    (h.seqno == other.seqno)
    && (h.ackno == other.ackno)
    && (h.doff == other.doff)
    && same_flag h.urg other.urg
    && same_flag h.ack other.ack
    && same_flag h.psh other.psh
    && same_flag h.rst other.rst
    && same_flag h.syn other.syn
    && same_flag h.fin other.fin
    && (h.win == other.win)
    && (h.uptr == other.uptr)

-- `TCPSegment::parse` of a new segment. What `TCPHeader::parse` returns is not looked at.
unfoldable pub parse : Buffer → ℕ → TcpSegment × ParseResult
parse buffer datagram_layer_checksum =
    let check : InternetChecksum =
      InternetChecksum.add (InternetChecksum.new datagram_layer_checksum) (Buffer.str buffer) in
    let ((header, ignored), p) = parse_header (NetParser.new buffer) in
    if not (InternetChecksum.value check == 0)
    then (record { header = default_header; payload = [] }, bad_checksum)
    else (record { header = header; payload = Buffer.str p.buffer }, p.error)

-- The checksum over the header with a zero in its place, and the payload.
unfoldable pub segment_checksum : TcpSegment → ℕ → Option ℕ
segment_checksum seg datagram_layer_checksum =
    elim (serialize_header (record seg.header { cksum = 0 })) [
      | none ↦ none
      | some bytes ↦ some (
          InternetChecksum.value (
            InternetChecksum.add
              (InternetChecksum.add (InternetChecksum.new datagram_layer_checksum) bytes)
              seg.payload))
    ]

-- The end of `TCPSegment::serialize`, where the header has its checksum.
unfoldable pub append_parts : TcpHeader → List ℕ → Option BufferList
append_parts header_out payload = elim (serialize_header header_out) [
  | none ↦ none
  | some bytes ↦ some (
      Buffer.append (Buffer.append [] (Buffer.of_string bytes ∷ []))
        (Buffer.of_string payload ∷ []))
]

unfoldable pub serialize : TcpSegment → ℕ → Option BufferList
unfolding segment_checksum append_parts
serialize seg datagram_layer_checksum = elim (segment_checksum seg datagram_layer_checksum) [
  | none ↦ none
  | some cksum ↦ append_parts (record seg.header { cksum = cksum }) seg.payload
]
