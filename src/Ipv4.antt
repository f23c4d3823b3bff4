-- ===== src/Ipv4.antt =====
-- libsponge/tcp_helpers/ipv4_header.hh, ipv4_header.cc and ipv4_datagram.cc: IPv4 datagrams and their bytes.
pub mod Header
pub mod RoundTrip
mod Tests
use com_net_sponge.Prelude.{
  ℕ, ◌+◌, ◌-◌, ◌*◌, ◌/◌, ◌%◌, ◌^◌, Bool, true, false, not, ltb, ◌==◌, if◌then◌else◌, List, [], ◌∷◌,
  take, Option, none, some,
}
use com_net_sponge.Prelude.Words.{add32}
use com_net_sponge.Buffer
use com_net_sponge.Buffer.{Buffer, BufferList}
use com_net_sponge.InternetChecksum
use com_net_sponge.NetParser
use com_net_sponge.NetParser.{
  ParseResult, no_error, bad_checksum, packet_too_short, wrong_ip_version, header_too_short,
  truncated_packet, is_error, NetParser, Parse, ◌>>=◌, bit, resize, u32, u16, u8, put32, put16,
  put8,
}

pub record Ipv4Header : Type 0 where
  pub ver : ℕ
  pub hlen : ℕ
  pub tos : ℕ
  pub len : ℕ
  pub id : ℕ
  pub df : Bool
  pub mf : Bool
  pub offset : ℕ
  pub ttl : ℕ
  pub proto : ℕ
  pub cksum : ℕ
  pub src : ℕ
  pub dst : ℕ

-- `IPv4Header::PROTO_TCP`.
abbrev pub proto_tcp : ℕ
proto_tcp = 6

-- The default member initializers.
abbrev pub default_header : Ipv4Header
default_header = record {
  ver = 4;
  hlen = 5;
  tos = 0;
  len = 0;
  id = 0;
  df = true;
  mf = false;
  offset = 0;
  ttl = 128;
  proto = proto_tcp;
  cksum = 0;
  src = 0;
  dst = 0;
}

-- The end of `IPv4Header::parse`, after the options were skipped.
unfoldable pub check_sum : List ℕ → Ipv4Header → NetParser → ParseResult
check_sum original header p =
    let check : ℕ =
      InternetChecksum.value
        (InternetChecksum.add (InternetChecksum.new 0) (take (4 * header.hlen) original)) in
    if is_error p.error then p.error else if not (check == 0) then bad_checksum else no_error

-- The part of `IPv4Header::parse` after the fields were read.
unfoldable pub check_fields : List ℕ → ℕ → Ipv4Header → Parse (Ipv4Header × ParseResult)
check_fields original data_size header p =
    let p' : NetParser = NetParser.remove_prefix p (header.hlen * 4 - 20) in
    if ltb data_size (4 * header.hlen)
    then ((header, packet_too_short), p)
    else if not (header.ver == 4)
    then ((header, wrong_ip_version), p)
    else if ltb header.hlen 5
    then ((header, header_too_short), p)
    else if not (data_size == header.len)
    then ((header, truncated_packet), p)
    else ((header, check_sum original header p'), p')

unfoldable pub parse_fields : List ℕ → ℕ → Parse (Ipv4Header × ParseResult)
parse_fields original data_size = do
  first_byte ← u8
  tos ← u8
  len ← u16
  id ← u16
  fo_val ← u16
  ttl ← u8
  proto ← u8
  cksum ← u16
  src ← u32
  dst ← u32
  check_fields original data_size (record {
    ver = first_byte / 2 ^ 4;
    hlen = first_byte % 2 ^ 4;
    tos = tos;
    len = len;
    id = id;
    df = bit fo_val 14;
    mf = bit fo_val 13;
    offset = fo_val % 2 ^ 13;
    ttl = ttl;
    proto = proto;
    cksum = cksum;
    src = src;
    dst = dst;
  })

-- `IPv4Header::parse`.
unfoldable pub parse_header : Ipv4Header → Parse (Ipv4Header × ParseResult)
parse_header header p =
    let data_size : ℕ = Buffer.size p.buffer in
    if ltb data_size 20
    then ((header, packet_too_short), p)
    else parse_fields (Buffer.str p.buffer) data_size p

-- The bitwise or of distinct bits.
unfoldable pub fragment_word : Ipv4Header → ℕ
fragment_word h = (if h.df then 0x4000 else 0) + (if h.mf then 0x2000 else 0) + h.offset % 2 ^ 13

-- `none` is an exception.
unfoldable pub serialize_header : Ipv4Header → Option (List ℕ)
serialize_header h =
    let s1 : List ℕ = put8 [] (h.ver * 2 ^ 4 + h.hlen % 2 ^ 4) in
    let s2 : List ℕ = put8 s1 h.tos in
    let s3 : List ℕ = put16 s2 h.len in
    let s4 : List ℕ = put16 s3 h.id in
    let s5 : List ℕ = put16 s4 (fragment_word h) in
    let s6 : List ℕ = put8 s5 h.ttl in
    let s7 : List ℕ = put8 s6 h.proto in
    let s8 : List ℕ = put16 s7 h.cksum in
    let s9 : List ℕ = put32 s8 h.src in
    let s10 : List ℕ = put32 s9 h.dst in
    if not (h.ver == 4)
    then none
    else if ltb (4 * h.hlen) 20
    then none
    else some (resize s10 (4 * h.hlen))

unfoldable pub payload_length : Ipv4Header → ℕ
payload_length h = (h.len + 2 ^ 16 - 4 * h.hlen) % 2 ^ 16

unfoldable pub pseudo_cksum : Ipv4Header → ℕ
unfolding payload_length
pseudo_cksum h =
    let addresses : ℕ =
      add32 (add32 (h.src / 2 ^ 16) (h.src % 2 ^ 16)) (add32 (h.dst / 2 ^ 16) (h.dst % 2 ^ 16)) in
    add32 (add32 addresses h.proto) (payload_length h)

-- `IPv4Datagram`, also called `InternetDatagram`.
pub record Ipv4Datagram : Type 0 where
  pub header : Ipv4Header
  pub open header use *
  pub payload : BufferList

-- `IPv4Datagram::parse` of a new datagram. What `IPv4Header::parse` returns is not looked at.
unfoldable pub parse : Buffer → Ipv4Datagram × ParseResult
parse buffer =
    let ((header, ignored), p) = parse_header default_header (NetParser.new buffer) in
    let payload : BufferList = p.buffer ∷ [] in
    let dgram : Ipv4Datagram = record { header = header; payload = payload } in
    (
      dgram,
      (if not (Buffer.list_size payload == payload_length header)
          then packet_too_short
          else p.error),
    )

-- The checksum over the header with a zero in its place.
unfoldable pub header_checksum : Ipv4Header → Option ℕ
header_checksum h = elim (serialize_header (record h { cksum = 0 })) [
  | none ↦ none
  | some bytes ↦ some (InternetChecksum.value (InternetChecksum.add (InternetChecksum.new 0) bytes))
]

-- The end of `IPv4Datagram::serialize`, where the header has its checksum.
unfoldable pub append_parts : Ipv4Header → BufferList → Option BufferList
append_parts header_out payload = elim (serialize_header header_out) [
  | none ↦ none
  | some bytes ↦ some (Buffer.append (Buffer.append [] (Buffer.of_string bytes ∷ [])) payload)
]

unfoldable pub serialize : Ipv4Datagram → Option BufferList
serialize dgram =
    let done : Option BufferList = elim (header_checksum dgram.header) [
      | none ↦ none
      | some cksum ↦ append_parts (record dgram.header { cksum = cksum }) dgram.payload
    ] in
    if not (Buffer.list_size dgram.payload == payload_length dgram.header) then none else done
