-- ===== src/TcpOverIp.antt =====
-- libsponge/tcp_helpers/fd_adapter.hh, fd_adapter.cc, tcp_over_ip.cc, tuntap_adapter.hh and
-- lossy_fd_adapter.hh: segments in IPv4 datagrams and in UDP payloads. An `Address` is its
-- `ipv4_numeric()` and its `port()`; what a socket or a device gives and takes is bytes.
pub mod Laws
pub mod Travel
pub mod RoundTrip
pub mod Udp
pub mod OverEthernet
mod Tests
use com_net_sponge.Prelude.{
  ℕ, ◌+◌, ◌*◌, ◌%◌, ◌^◌, Bool, true, false, not, ◌&&◌, ◌||◌, ltb, ◌==◌, if◌then◌else◌, List, [],
  ◌∷◌, length, Option, none, some,
}
use com_net_sponge.Buffer
use com_net_sponge.Buffer.{Buffer, BufferList}
use com_net_sponge.Ipv4
use com_net_sponge.Ipv4.{Ipv4Header, Ipv4Datagram, proto_tcp}
use com_net_sponge.NetParser.{ParseResult, is_error}
use com_net_sponge.TcpSegment.{TcpHeader, TcpSegment}
use com_net_sponge.TcpSegment.Wire

pub record Address : Type 0 where
  pub ip : ℕ
  pub port : ℕ

pub record FdAdapterConfig : Type 0 where
  pub source : Address
  pub destination : Address
  pub loss_rate_dn : ℕ
  pub loss_rate_up : ℕ

-- `FdAdapterBase`.
pub record FdAdapter : Type 0 where
  pub cfg : FdAdapterConfig
  pub listening : Bool

-- `Address::operator==`.
unfoldable pub same_address : Address → Address → Bool
same_address a b = (a.ip == b.ip) && (a.port == b.port)

-- What a read gives: the adapter afterwards and a segment, if there is one.
abbrev pub ReadResult : Type 0
ReadResult = FdAdapter × Option TcpSegment

-- The end of `unwrap_tcp_in_ip`.
unfoldable pub from_peer : FdAdapter → TcpSegment → ReadResult
from_peer a seg = if not (seg.sport == a.cfg.destination.port) then (a, none) else (a, some seg)

-- The addresses of a datagram are taken over, and the adapter no longer listens.
unfoldable pub adopt : FdAdapter → Ipv4Header → TcpSegment → FdAdapter
adopt a h seg = record {
  cfg = record a.cfg {
    source = record { ip = h.dst; port = a.cfg.source.port };
    destination = record { ip = h.src; port = seg.sport };
  };
  listening = false;
}

-- The part of `unwrap_tcp_in_ip` after the segment was parsed.
unfoldable pub accept : FdAdapter → Ipv4Header → TcpSegment → ReadResult
accept a h seg =
    if not (seg.dport == a.cfg.source.port)
    then (a, none)
    else if a.listening
    then (if seg.syn && not seg.rst then from_peer (adopt a h seg) seg else (a, none))
    else from_peer a seg

unfoldable pub accept_parsed : FdAdapter → Ipv4Header → TcpSegment × ParseResult → ReadResult
accept_parsed a h (seg, result) = if is_error result then (a, none) else accept a h seg

-- The payload is converted to one `Buffer`, with an exception (`none`) if it is made of several.
unfoldable pub unwrap_payload : FdAdapter → Ipv4Datagram → Option ReadResult
unwrap_payload a dgram = elim (Buffer.to_buffer dgram.payload) [
  | none ↦ none
  | some buffer ↦
      some (accept_parsed a dgram.header (Wire.parse buffer (Ipv4.pseudo_cksum dgram.header)))
]

unfoldable pub unwrap_tcp_in_ip : FdAdapter → Ipv4Datagram → Option ReadResult
unwrap_tcp_in_ip a dgram =
    if not a.listening && not (dgram.dst == a.cfg.source.ip)
    then some (a, none)
    else if not a.listening && not (dgram.src == a.cfg.destination.ip)
    then some (a, none)
    else if not (dgram.proto == proto_tcp)
    then some (a, none)
    else unwrap_payload a dgram

-- The ports are set in the segment itself.
unfoldable pub with_ports : FdAdapter → TcpSegment → TcpSegment
with_ports a seg = record seg {
  header = record seg.header { sport = a.cfg.source.port; dport = a.cfg.destination.port };
}

unfoldable pub datagram_header : FdAdapter → TcpSegment → Ipv4Header
datagram_header a seg = record Ipv4.default_header {
  src = a.cfg.source.ip;
  dst = a.cfg.destination.ip;
  len = (5 * 4 + seg.doff * 4 + length seg.payload) % 2 ^ 16;
}

unfoldable pub wrap_tcp_in_ip : FdAdapter → TcpSegment → Option (TcpSegment × Ipv4Datagram)
wrap_tcp_in_ip a seg =
    let seg' : TcpSegment = with_ports a seg in
    let header : Ipv4Header = datagram_header a seg' in
    elim (Wire.serialize seg' (Ipv4.pseudo_cksum header)) [
      | none ↦ none
      | some payload ↦ some (seg', record { header = header; payload = payload })
    ]

-- `TCPOverIPv4OverTunFdAdapter::read`, with the bytes that the device gives.
unfoldable pub tun_read : FdAdapter → List ℕ → Option ReadResult
tun_read a bytes =
    let (dgram, result) = Ipv4.parse (Buffer.of_string bytes) in
    if is_error result then some (a, none) else unwrap_tcp_in_ip a dgram

-- `TCPOverIPv4OverTunFdAdapter::write`, with the bytes for the device.
unfoldable pub tun_write : FdAdapter → TcpSegment → Option (TcpSegment × List ℕ)
tun_write a seg = elim (wrap_tcp_in_ip a seg) [
  | none ↦ none
  | some (seg', dgram) ↦ elim (Ipv4.serialize dgram) [
    | none ↦ none
    | some bs ↦ some (seg', Buffer.concatenate bs)
  ]
]

-- The part of `TCPOverUDPSocketAdapter::read` after the segment was parsed.
unfoldable pub udp_accept : FdAdapter → Address → TcpSegment → ReadResult
udp_accept a source seg =
    let a' : FdAdapter = record {
      cfg = record a.cfg { destination = source };
      listening = false;
    } in
    if a.listening
    then (if seg.syn && not seg.rst then (a', some seg) else (a, none))
    else (a, some seg)

-- `TCPOverUDPSocketAdapter::read` of a datagram from an address.
unfoldable pub udp_read : FdAdapter → Address → List ℕ → ReadResult
udp_read a source bytes =
    let (seg, result) = Wire.parse (Buffer.of_string bytes) 0 in
    if not a.listening && not (same_address source a.cfg.destination)
    then (a, none)
    else if is_error result
    then (a, none)
    else udp_accept a source seg

-- `TCPOverUDPSocketAdapter::write`: the segment with its ports, the address and the bytes to send to it.
unfoldable pub udp_write : FdAdapter → TcpSegment → Option (TcpSegment × Address × List ℕ)
udp_write a seg =
    let seg' : TcpSegment = with_ports a seg in
    elim (Wire.serialize seg' 0) [
      | none ↦ none
      | some bs ↦ some (seg', a.cfg.destination, Buffer.concatenate bs)
    ]

-- `LossyFdAdapter::_should_drop`, with what `_rand()` gives.
unfoldable pub should_drop : FdAdapter → Bool → ℕ → Bool
should_drop a uplink random =
    let loss : ℕ = if uplink then a.cfg.loss_rate_up else a.cfg.loss_rate_dn in
    not (loss == 0) && ltb (random % 2 ^ 16) loss

-- `LossyFdAdapter::read`, given what the adapter below has read.
unfoldable pub lossy_read : ReadResult → ℕ → ReadResult
lossy_read (a, seg) random = if should_drop a false random then (a, none) else (a, seg)

-- `LossyFdAdapter::write`, given how the adapter below writes; `none` inside is a segment that is dropped.
unfoldable pub lossy_write :
    {W : Type 0}
    → (FdAdapter → TcpSegment → Option W)
    → FdAdapter
    → TcpSegment
    → ℕ
    → Option (Option W)
lossy_write write a seg random =
    if should_drop a true random
    then some none
    else elim (write a seg) [ none ↦ none | some w ↦ some (some w) ]
