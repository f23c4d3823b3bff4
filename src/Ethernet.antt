-- ===== src/Ethernet.antt =====
-- libsponge/tcp_helpers/ethernet_header.hh, ethernet_header.cc and ethernet_frame.cc: Ethernet frames and
-- their bytes. A payload is the bytes of its `BufferList`.
pub mod RoundTrip
mod Tests
use com_net_sponge.Prelude.{ℕ, ltb, if◌then◌else◌, List, [], ◌∷◌}
use com_net_sponge.Buffer
use com_net_sponge.Buffer.{Buffer, BufferList}
use com_net_sponge.NetParser
use com_net_sponge.NetParser.{
  ParseResult, no_error, packet_too_short, NetParser, Parse, ◌>>=◌, u16, put16, get_bytes,
  put_bytes, with_error,
}

-- `std::array<uint8_t, 6>`.
abbrev pub EthernetAddress : Type 0
EthernetAddress = List ℕ

-- `ETHERNET_BROADCAST`.
abbrev pub ethernet_broadcast : EthernetAddress
ethernet_broadcast = 255 ∷ 255 ∷ 255 ∷ 255 ∷ 255 ∷ 255 ∷ []

-- A default `EthernetAddress{}`.
abbrev pub zero_address : EthernetAddress
zero_address = 0 ∷ 0 ∷ 0 ∷ 0 ∷ 0 ∷ 0 ∷ []

-- `EthernetHeader::TYPE_IPv4` and `TYPE_ARP`.
abbrev pub type_ipv4 : ℕ
type_ipv4 = 2048

abbrev pub type_arp : ℕ
type_arp = 2054

pub record EthernetHeader : Type 0 where
  pub dst : EthernetAddress
  pub src : EthernetAddress
  pub type : ℕ

-- `EthernetHeader{}`.
abbrev pub empty_header : EthernetHeader
empty_header = record { dst = zero_address; src = zero_address; type = 0 }

pub record EthernetFrame : Type 0 where
  pub header : EthernetHeader
  pub open header use *
  pub payload : List ℕ

unfoldable pub parse_fields : Parse (EthernetHeader × ParseResult)
parse_fields = do
  dst ← get_bytes 6
  src ← get_bytes 6
  type ← u16
  with_error (record { dst = dst; src = src; type = type })

-- `EthernetHeader::parse`; too short a buffer leaves the header and the parser as they are.
unfoldable pub parse_header : EthernetHeader → Parse (EthernetHeader × ParseResult)
parse_header header p =
    if ltb (Buffer.size p.buffer) 14 then ((header, packet_too_short), p) else parse_fields p

unfoldable pub serialize_header : EthernetHeader → List ℕ
serialize_header h =
    let s1 : List ℕ = put_bytes [] h.dst in let s2 : List ℕ = put_bytes s1 h.src in put16 s2 h.type

-- `EthernetFrame::parse` of a new frame.
unfoldable pub parse : Buffer → EthernetFrame × ParseResult
parse buffer =
    let ((header, ignored), p) = parse_header empty_header (NetParser.new buffer) in
    (record { header = header; payload = Buffer.str p.buffer }, p.error)

unfoldable pub serialize : EthernetFrame → BufferList
serialize frame =
    Buffer.append (Buffer.append [] (Buffer.of_string (serialize_header frame.header) ∷ []))
      (Buffer.of_string frame.payload ∷ [])
