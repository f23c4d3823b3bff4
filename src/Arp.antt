-- ===== src/Arp.antt =====
-- libsponge/tcp_helpers/arp_message.hh and arp_message.cc: ARP messages and their bytes.
pub mod RoundTrip
mod Tests
use com_net_sponge.Prelude.{
  ℕ, Bool, ◌&&◌, ◌||◌, ltb, ◌==◌, if◌then◌else◌, List, [], ◌∷◌, Option, none, some,
}
use com_net_sponge.Buffer
use com_net_sponge.Buffer.{Buffer}
use com_net_sponge.Ethernet.{EthernetAddress, zero_address, type_ipv4}
use com_net_sponge.NetParser
use com_net_sponge.NetParser.{
  ParseResult, packet_too_short, unsupported, NetParser, Parse, ◌>>=◌, u32, u16, u8, put32, put16,
  put8, get_bytes, put_bytes, with_error,
}

-- `ARPMessage::TYPE_ETHERNET`, `OPCODE_REQUEST` and `OPCODE_REPLY`.
abbrev pub type_ethernet : ℕ
type_ethernet = 1

abbrev pub opcode_request : ℕ
opcode_request = 1

abbrev pub opcode_reply : ℕ
opcode_reply = 2

pub record ArpMessage : Type 0 where
  pub hardware_type : ℕ
  pub protocol_type : ℕ
  pub hardware_address_size : ℕ
  pub protocol_address_size : ℕ
  pub opcode : ℕ
  pub sender_ethernet_address : EthernetAddress
  pub sender_ip_address : ℕ
  pub target_ethernet_address : EthernetAddress
  pub target_ip_address : ℕ

-- The default member initializers.
abbrev pub default_message : ArpMessage
default_message = record {
  hardware_type = type_ethernet;
  protocol_type = type_ipv4;
  hardware_address_size = 6;
  protocol_address_size = 4;
  opcode = 0;
  sender_ethernet_address = zero_address;
  sender_ip_address = 0;
  target_ethernet_address = zero_address;
  target_ip_address = 0;
}

unfoldable pub supported : ArpMessage → Bool
supported m =
    (m.hardware_type == type_ethernet)
    && (m.protocol_type == type_ipv4)
    && (m.hardware_address_size == 6)
    && (m.protocol_address_size == 4)
    && ((m.opcode == opcode_request) || (m.opcode == opcode_reply))

-- The part of `parse` after the test `supported()`.
unfoldable pub parse_addresses : ArpMessage → Parse (ArpMessage × ParseResult)
parse_addresses m = do
  sender_ethernet_address ← get_bytes 6
  sender_ip_address ← u32
  target_ethernet_address ← get_bytes 6
  target_ip_address ← u32
  with_error (record m {
    sender_ethernet_address = sender_ethernet_address;
    sender_ip_address = sender_ip_address;
    target_ethernet_address = target_ethernet_address;
    target_ip_address = target_ip_address;
  })

unfoldable pub parse_supported : ArpMessage → Parse (ArpMessage × ParseResult)
parse_supported m p = if supported m then parse_addresses m p else ((m, unsupported), p)

unfoldable pub parse_message : ArpMessage → Parse (ArpMessage × ParseResult)
parse_message m = do
  hardware_type ← u16
  protocol_type ← u16
  hardware_address_size ← u8
  protocol_address_size ← u8
  opcode ← u16
  parse_supported (record m {
    hardware_type = hardware_type;
    protocol_type = protocol_type;
    hardware_address_size = hardware_address_size;
    protocol_address_size = protocol_address_size;
    opcode = opcode;
  })

-- `ARPMessage::parse` of a new message.
unfoldable pub parse : Buffer → ArpMessage × ParseResult
parse buffer =
    let p : NetParser = NetParser.new buffer in
    if ltb (Buffer.size p.buffer) 28
    then (default_message, packet_too_short)
    else (parse_message default_message p).0

-- `none` is the exception.
unfoldable pub serialize : ArpMessage → Option (List ℕ)
serialize m =
    let s1 : List ℕ = put16 [] m.hardware_type in
    let s2 : List ℕ = put16 s1 m.protocol_type in
    let s3 : List ℕ = put8 s2 m.hardware_address_size in
    let s4 : List ℕ = put8 s3 m.protocol_address_size in
    let s5 : List ℕ = put16 s4 m.opcode in
    let s6 : List ℕ = put_bytes s5 m.sender_ethernet_address in
    let s7 : List ℕ = put32 s6 m.sender_ip_address in
    let s8 : List ℕ = put_bytes s7 m.target_ethernet_address in
    let s9 : List ℕ = put32 s8 m.target_ip_address in if supported m then some s9 else none
