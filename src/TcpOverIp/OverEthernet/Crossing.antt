-- ===== src/TcpOverIp/OverEthernet/Crossing.antt =====
-- libsponge/tcp_helpers/tuntap_adapter.cc: a segment crosses an Ethernet, through the network interfaces of
-- both ends.
use com_net_sponge.Prelude.{
  ℕ, ◌≡◌, refl, sym, subst, ap, ◌∙◌, true, false, ◌==◌, List, [], ◌∷◌, ◌++◌, map, some, arith,
}
use com_net_sponge.Buffer
use com_net_sponge.Buffer.{Buffer, BufferList}
use com_net_sponge.Ethernet
use com_net_sponge.Ethernet.{EthernetAddress, EthernetFrame, ethernet_broadcast, type_ipv4}
use com_net_sponge.Ethernet.RoundTrip.{IsAddress, IsFrame, parse-serialize_frame}
use com_net_sponge.Ipv4
use com_net_sponge.Ipv4.{Ipv4Datagram}
use com_net_sponge.NetParser.{no_error}
use com_net_sponge.NetworkInterface.{
  NetworkInterface, CacheEntry, same_address, lookup, emit, make_frame, emit_datagram,
  send_datagram, recv_frame,
}
use com_net_sponge.TcpOverIp.{with_ports, unwrap_tcp_in_ip, wrap_tcp_in_ip}
use com_net_sponge.TcpOverIp.OverEthernet.{
  datagram_bytes, read_datagram, codec, EthernetAdapter, send_pending, read_segment, read, write,
}
use com_net_sponge.TcpOverIp.RoundTrip.{Faces, unwrap-Faces}
use com_net_sponge.TcpOverIp.Travel.{CanSend, sent, sent_header, wrapped-Travels}
use com_net_sponge.TcpSegment.{TcpSegment}

pub same_address_refl : (a : EthernetAddress) → same_address a a ≡ true
unfolding same_address
same_address_refl [] = refl
same_address_refl (x ∷ a) = ground (arith, same_address_refl a)

-- The adapter when its frames were written.
abbrev pub flushed : EthernetAdapter → EthernetAdapter
flushed x = record x { interface = record (x.interface) { frames_out = [] } }

abbrev bytes_of_frame : EthernetFrame → List ℕ
bytes_of_frame frame = Buffer.concatenate (Ethernet.serialize frame)

-- The frame that carries a datagram to the next hop.
abbrev pub framed_bytes : EthernetAdapter → CacheEntry → BufferList → EthernetFrame
framed_bytes x entry bs = make_frame x.interface entry.address type_ipv4 (Buffer.concatenate bs)

send_known :
    (x : EthernetAdapter) (entry : CacheEntry) (dgram : Ipv4Datagram) (bs : BufferList)
    → lookup x.next_hop x.interface.arp_cache ≡ some entry
    → Ipv4.serialize dgram ≡ some bs
    → send_datagram codec x.interface dgram x.next_hop
      ≡ some (emit x.interface (framed_bytes x entry bs))
unfolding send_datagram emit_datagram datagram_bytes
send_known x entry dgram bs known done =
    rw (known, send_datagram) (rw (done, emit_datagram, datagram_bytes) refl)

write_known :
    (x : EthernetAdapter) (entry : CacheEntry) (seg seg' : TcpSegment) (dgram : Ipv4Datagram)
    (bs : BufferList)
    → x.interface.frames_out ≡ []
    → lookup x.next_hop x.interface.arp_cache ≡ some entry
    → wrap_tcp_in_ip x.base seg ≡ some (seg', dgram)
    → Ipv4.serialize dgram ≡ some bs
    → write x seg
      ≡ some
          (seg', flushed x, Buffer.concatenate (Ethernet.serialize (framed_bytes x entry bs)) ∷ [])
unfolding write send_pending
write_known x entry seg seg' dgram bs empty known wrap done =
    rw (wrap, write)
      (rw (send_known x entry dgram bs known done) (
        ap
          (λ (fs : List EthernetFrame).
            some (seg', flushed x, map bytes_of_frame (fs ++ (framed_bytes x entry bs ∷ []))))
          empty))

recv_known :
    (n : NetworkInterface Ipv4Datagram) (frame : EthernetFrame) (dgram : Ipv4Datagram)
    → frame.dst ≡ n.ethernet_address
    → frame.type ≡ type_ipv4
    → Ipv4.parse (Buffer.of_string frame.payload) ≡ (dgram, no_error)
    → recv_frame codec n frame ≡ some (n, some dgram)
unfolding recv_frame read_datagram
recv_known n frame dgram ours ip parsed =
    let own : same_address frame.dst n.ethernet_address ≡ true =
      ap (λ d. same_address d n.ethernet_address) ours ∙ same_address_refl n.ethernet_address in
    let is_ip : (frame.type == type_ipv4) ≡ true = ground (arith, ip) in
    rw (own, is_ip) (rw (parsed, read_datagram) refl)

read_known :
    (y : EthernetAdapter) (frame : EthernetFrame) (dgram : Ipv4Datagram) (seg : TcpSegment)
    → IsFrame frame
    → frame.dst ≡ y.interface.ethernet_address
    → frame.type ≡ type_ipv4
    → y.interface.frames_out ≡ []
    → Ipv4.parse (Buffer.of_string frame.payload) ≡ (dgram, no_error)
    → unwrap_tcp_in_ip y.base dgram ≡ some (y.base, some seg)
    → read y (bytes_of_frame frame) ≡ some (flushed y, [], some seg)
unfolding read send_pending read_segment
read_known y frame dgram seg v ours ip empty parsed unwrapped = rw (parse-serialize_frame frame v) (
    rw (recv_known y.interface frame dgram ours ip parsed) (
      rw (unwrapped, read_segment)
        (ap (λ (fs : List EthernetFrame). some (flushed y, map bytes_of_frame fs, some seg))
          empty)))

-- Where the next hop's address is in the ARP cache and is that of the other end's interface, a segment
-- that is written goes out as one frame, and the other end reads it from that frame, with the ports and
-- the checksum filled in. The other end writes no frame, and both stay as they are, with no frame waiting.
pub read-write_segment :
    (x y : EthernetAdapter) (entry : CacheEntry) (seg : TcpSegment)
    → CanSend x.base seg
    → Faces x.base y.base
    → y.base.listening ≡ false
    → IsAddress x.interface.ethernet_address
    → IsAddress y.interface.ethernet_address
    → lookup x.next_hop x.interface.arp_cache ≡ some entry
    → entry.address ≡ y.interface.ethernet_address
    → x.interface.frames_out ≡ []
    → y.interface.frames_out ≡ []
    → (bytes : List ℕ) × (write x seg ≡ some (with_ports x.base seg, flushed x, bytes ∷ []))
      × (read y bytes ≡ some (flushed y, [], some (sent x.base seg)))
read-write_segment x y entry seg can faces connected near far known at_peer quiet_x quiet_y =
    let (dgram, bs, wrap, (done, short, (b, parsed, inner))) = wrapped-Travels x.base seg can in
    let frame : EthernetFrame = framed_bytes x entry bs in
    let v : IsFrame frame = record {
      dst_fits = subst IsAddress (sym at_peer) far;
      src_fits = near;
      type_fits = omega arith;
      short = omega arith;
    } in
    (
      bytes_of_frame frame,
      write_known x entry seg (with_ports x.base seg) dgram bs quiet_x known wrap done,
      read_known y frame (record { header = sent_header x.base seg; payload = b ∷ [] })
          (sent x.base seg) v at_peer refl quiet_y parsed
          (unwrap-Faces x.base y.base seg b faces connected inner),
    )
