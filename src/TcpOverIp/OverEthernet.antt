-- ===== src/TcpOverIp/OverEthernet.antt =====
-- libsponge/tcp_helpers/tuntap_adapter.cc: segments in datagrams in Ethernet frames, through a network
-- interface with the formats of the program. Bytes are what the TAP device gives and takes.
pub mod Crossing
pub mod Resolving
mod Tests
use com_net_sponge.Prelude.{ℕ, if◌then◌else◌, List, [], map, Option, none, some}
use com_net_sponge.Arp
use com_net_sponge.Arp.{ArpMessage}
use com_net_sponge.Buffer
use com_net_sponge.Ethernet
use com_net_sponge.Ethernet.{EthernetAddress, EthernetFrame}
use com_net_sponge.Ipv4
use com_net_sponge.Ipv4.{Ipv4Datagram}
use com_net_sponge.NetParser.{is_error}
use com_net_sponge.NetworkInterface
use com_net_sponge.NetworkInterface.{NetworkInterface, Codec}
use com_net_sponge.TcpOverIp.{FdAdapter, unwrap_tcp_in_ip, wrap_tcp_in_ip}
use com_net_sponge.TcpSegment.{TcpSegment}

-- The bytes of a datagram; `none` where `serialize` throws.
unfoldable pub datagram_bytes : Ipv4Datagram → Option (List ℕ)
datagram_bytes dgram = elim (Ipv4.serialize dgram) [
  | none ↦ none
  | some bs ↦ some (Buffer.concatenate bs)
]

-- `parse` and the test of its result.
unfoldable pub read_datagram : List ℕ → Option Ipv4Datagram
read_datagram bytes =
    let (dgram, result) = Ipv4.parse (Buffer.of_string bytes) in
    if is_error result then none else some dgram

unfoldable pub message_bytes : ArpMessage → List ℕ
message_bytes m = elim (Arp.serialize m) [ none ↦ [] | some bytes ↦ bytes ]

unfoldable pub read_message : List ℕ → Option ArpMessage
read_message bytes =
    let (m, result) = Arp.parse (Buffer.of_string bytes) in if is_error result then none else some m

abbrev pub codec : Codec Ipv4Datagram
codec = record {
  serialize = datagram_bytes;
  parse = read_datagram;
  serialize_arp = message_bytes;
  parse_arp = read_message;
}

-- `TCPOverIPv4OverEthernetAdapter`.
pub record EthernetAdapter : Type 0 where
  pub base : FdAdapter
  pub interface : NetworkInterface Ipv4Datagram
  pub next_hop : ℕ

-- The constructor, with the bytes of the dummy frame that it writes.
unfoldable pub new : FdAdapter → EthernetAddress → ℕ → ℕ → EthernetAdapter × List ℕ
new base eth_address ip_address next_hop =
    let dummy_frame : EthernetFrame = record { header = Ethernet.empty_header; payload = [] } in
    (
      record {
        base = base;
        interface = NetworkInterface.new eth_address ip_address;
        next_hop = next_hop;
      },
      Buffer.concatenate (Ethernet.serialize dummy_frame),
    )

-- `send_pending`: the bytes of the frames in the order in which they are written.
unfoldable pub send_pending : EthernetAdapter → EthernetAdapter × List (List ℕ)
send_pending x = (
  record x { interface = record (x.interface) { frames_out = [] } },
  map (λ (frame : EthernetFrame). Buffer.concatenate (Ethernet.serialize frame))
      x.interface.frames_out,
)

-- What a read gives: the adapter afterwards, the frames that were written, and a segment, if there is one.
abbrev pub EthernetRead : Type 0
EthernetRead = EthernetAdapter × List (List ℕ) × Option TcpSegment

-- The end of `read`: the datagram of a frame is interpreted as TCP.
unfoldable pub read_segment :
    EthernetAdapter → List (List ℕ) → Option Ipv4Datagram → Option EthernetRead
read_segment x written none = some (x, written, none)
read_segment x written (some dgram) = elim (unwrap_tcp_in_ip x.base dgram) [
  | none ↦ none
  | some (base, seg) ↦ some (record x { base = base }, written, seg)
]

unfoldable pub read : EthernetAdapter → List ℕ → Option EthernetRead
read x bytes =
    let (frame, result) = Ethernet.parse (Buffer.of_string bytes) in
    if is_error result
    then some (x, [], none)
    else elim (NetworkInterface.recv_frame codec x.interface frame) [
      | none ↦ none
      | some (interface, dgram) ↦
          let (x', written) = send_pending (record x { interface = interface }) in
          read_segment x' written dgram
    ]

unfoldable pub tick : EthernetAdapter → ℕ → EthernetAdapter × List (List ℕ)
tick x ms_since_last_tick =
    send_pending (record x { interface = NetworkInterface.tick x.interface ms_since_last_tick })

unfoldable pub write :
    EthernetAdapter → TcpSegment → Option (TcpSegment × EthernetAdapter × List (List ℕ))
write x seg = elim (wrap_tcp_in_ip x.base seg) [
  | none ↦ none
  | some (seg', dgram) ↦ elim (NetworkInterface.send_datagram codec x.interface dgram x.next_hop) [
    | none ↦ none
    | some sender ↦
        let (x', written) = send_pending (record x { interface = sender }) in
        some (seg', x', written)
  ]
]
