-- ===== src/TcpOverIp/Travel.antt =====
-- libsponge/tcp_helpers/tcp_over_ip.cc: a segment in a datagram, and the bytes that go over the network.
use com_net_sponge.Prelude.{ℕ, ◌+◌, ◌*◌, ◌^◌, ◌<◌, ◌≡◌, ap, ◌∙◌, List, [], ◌∷◌, length, some, arith}
use com_net_sponge.Buffer
use com_net_sponge.Buffer.{Buffer, BufferList}
use com_net_sponge.Ipv4
use com_net_sponge.Ipv4.{Ipv4Header, Ipv4Datagram, proto_tcp, pseudo_cksum}
use com_net_sponge.Ipv4.Header
use com_net_sponge.Ipv4.RoundTrip
use com_net_sponge.NetParser.{no_error}
use com_net_sponge.NetParser.Reads.{AllBytes}
use com_net_sponge.TcpOverIp.{FdAdapter, with_ports, datagram_header, wrap_tcp_in_ip}
use com_net_sponge.TcpSegment.{TcpSegment}
use com_net_sponge.TcpSegment.Wire
use com_net_sponge.TcpSegment.Wire.Header.{IsHeader}
use com_net_sponge.TcpSegment.Wire.RoundTrip.{
  IsSegment, wire, checksum, summed, length-wire, serialize_lem, wire_parsed,
}

-- The segment with the adapter's ports fits a datagram between the adapter's addresses.
pub record CanSend (a : FdAdapter) (seg : TcpSegment) : Type 0 where
  pub header_fits : IsHeader (with_ports a seg).header
  pub bytes : AllBytes seg.payload
  pub short : 20 + seg.doff * 4 + length seg.payload < 2 ^ 16
  pub source_fits : a.cfg.source.ip < 2 ^ 32
  pub destination_fits : a.cfg.destination.ip < 2 ^ 32

pseudo_cksum-lt :
    (h : Ipv4Header) → h.src < 2 ^ 32 → h.dst < 2 ^ 32 → h.proto < 2 ^ 8 → pseudo_cksum h < 2 ^ 23
unfolding pseudo_cksum
pseudo_cksum-lt h s d p = omega arith

-- The checksum of the lower layer.
abbrev pub lower : FdAdapter → TcpSegment → ℕ
lower a seg = pseudo_cksum (datagram_header a (with_ports a seg))

-- The segment that the other side gets.
abbrev pub sent : FdAdapter → TcpSegment → TcpSegment
sent a seg = summed (with_ports a seg) (lower a seg)

CanSend-IsSegment :
    (a : FdAdapter) (seg : TcpSegment) → CanSend a seg → IsSegment (with_ports a seg) (lower a seg)
unfolding with_ports datagram_header
CanSend-IsSegment a seg v = record {
  header_fits = v.header_fits;
  bytes = v.bytes;
  short = omega arith;
  small =
      pseudo_cksum-lt (datagram_header a (with_ports a seg)) v.source_fits v.destination_fits
        (omega arith);
}

datagram_header-IsHeader :
    (a : FdAdapter) (seg : TcpSegment)
    → CanSend a seg
    → Header.IsHeader (datagram_header a (with_ports a seg))
unfolding with_ports datagram_header
datagram_header-IsHeader a seg v = omega arith

wrapped :
    (a : FdAdapter) (seg : TcpSegment)
    → CanSend a seg
    → (payload : BufferList) × (wrap_tcp_in_ip a seg
        ≡ some (
          with_ports a seg,
          record { header = datagram_header a (with_ports a seg); payload = payload },
        ))
      × (Buffer.concatenate payload
          ≡ wire (with_ports a seg) (checksum (with_ports a seg) (lower a seg)))
unfolding wrap_tcp_in_ip
wrapped a seg v =
    let (payload, done, bytes) =
      serialize_lem (with_ports a seg) (lower a seg) (CanSend-IsSegment a seg v) in
    (payload, rw (done, wrap_tcp_in_ip), bytes)

-- The header of the datagram that is sent.
abbrev pub sent_header : FdAdapter → TcpSegment → Ipv4Header
sent_header a seg = record (datagram_header a (with_ports a seg)) {
  cksum = RoundTrip.checksum (datagram_header a (with_ports a seg));
}

total_length :
    (a : FdAdapter) (seg : TcpSegment) (payload : List ℕ)
    → CanSend a seg
    → length payload ≡ seg.doff * 4 + length seg.payload
    → (datagram_header a (with_ports a seg)).len
      ≡ 4 * (datagram_header a (with_ports a seg)).hlen + length payload
unfolding with_ports datagram_header
total_length a seg payload v e = omega (arith, v.short)

-- What a datagram has on its way: its bytes, the datagram that is parsed from them, whose payload is one
-- buffer, and the segment that is parsed from that.
abbrev pub Travels : FdAdapter → TcpSegment → Ipv4Datagram → BufferList → Type 0
Travels a seg dgram bs =
    (Ipv4.serialize dgram ≡ some bs)
    × (length (Buffer.concatenate bs) < 2 ^ 16)
    × ((b : Buffer) × (Ipv4.parse (Buffer.of_string (Buffer.concatenate bs))
          ≡ (record { header = sent_header a seg; payload = b ∷ [] }, no_error))
        × (Wire.parse b (lower a seg) ≡ (sent a seg, no_error)))

-- A segment that can be sent is wrapped into a datagram that travels.
pub wrapped-Travels :
    (a : FdAdapter) (seg : TcpSegment)
    → CanSend a seg
    → (dgram : Ipv4Datagram) × (bs : BufferList) × (wrap_tcp_in_ip a seg
        ≡ some (with_ports a seg, dgram))
      × Travels a seg dgram bs
wrapped-Travels a seg v =
    let seg' : TcpSegment = with_ports a seg in
    let (payload, wrap, on_wire) = wrapped a seg v in
    let len : length (Buffer.concatenate payload) ≡ seg.doff * 4 + length seg.payload =
      ap length on_wire
      ∙ unfold with_ports in length-wire seg' (checksum seg' (lower a seg)) v.header_fits.whole in
    let dgram : Ipv4Datagram = record { header = datagram_header a seg'; payload = payload } in
    let fits : Header.IsHeader (datagram_header a seg') = datagram_header-IsHeader a seg v in
    let (bs, done, all, (b, parsed, shows, sound)) =
      RoundTrip.parse-serialize_datagram dgram fits
        (total_length a seg (Buffer.concatenate payload) v len) in
    (
      dgram,
      bs,
      wrap,
      (
        done,
        omega (arith, all, fits.len_fits),
        (
          b,
          parsed,
          wire_parsed seg' (lower a seg) b (CanSend-IsSegment a seg v) (shows ∙ on_wire) sound,
        ),
      ),
    )
