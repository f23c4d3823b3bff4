-- ===== src/TcpOverIp/RoundTrip.antt =====
-- libsponge/tcp_helpers/tcp_over_ip.cc and tuntap_adapter.hh: what one adapter writes, the other reads.
use com_net_sponge.Prelude.{
  ℕ, ◌≡◌, ◌⊎◌, inl, inr, refl, sym, ap, ◌∙◌, true, false, List, [], ◌∷◌, some, arith,
}
use com_net_sponge.Buffer
use com_net_sponge.Buffer.{Buffer, BufferList}
use com_net_sponge.Ipv4
use com_net_sponge.Ipv4.{Ipv4Header, Ipv4Datagram, proto_tcp, pseudo_cksum}
use com_net_sponge.NetParser.{no_error}
use com_net_sponge.TcpOverIp.{
  FdAdapter, from_peer, adopt, accept, accept_parsed, unwrap_payload, unwrap_tcp_in_ip, with_ports,
  datagram_header, tun_read, tun_write,
}
use com_net_sponge.TcpSegment.{TcpSegment}
use com_net_sponge.TcpSegment.Wire
use com_net_sponge.TcpOverIp.Travel.{CanSend, lower, sent, sent_header, wrapped-Travels}

written :
    (a : FdAdapter) (seg : TcpSegment)
    → CanSend a seg
    → (bytes : List ℕ) × (tun_write a seg ≡ some (with_ports a seg, bytes))
      × ((b : Buffer) × (Ipv4.parse (Buffer.of_string bytes)
            ≡ (record { header = sent_header a seg; payload = b ∷ [] }, no_error))
          × (Wire.parse b (lower a seg) ≡ (sent a seg, no_error)))
unfolding tun_write
written a seg v =
    let (dgram, bs, wrap, (done, short, read)) = wrapped-Travels a seg v in
    (Buffer.concatenate bs, rw (wrap, done, tun_write), read)

-- The datagram is between the ends of the adapter, or the adapter listens.
abbrev pub Expected : FdAdapter → Ipv4Header → Type 0
Expected a h = (a.listening ≡ true) ⊎ ((h.dst ≡ a.cfg.source.ip) × (h.src ≡ a.cfg.destination.ip))

unwrap_payload_lem :
    (a : FdAdapter) (h : Ipv4Header) (b : Buffer) (seg : TcpSegment)
    → Wire.parse b (pseudo_cksum h) ≡ (seg, no_error)
    → unwrap_payload a (record { header = h; payload = b ∷ [] }) ≡ some (accept a h seg)
unfolding unwrap_payload Buffer.to_buffer accept_parsed
unwrap_payload_lem a h b seg e = rw e

unwrap_tcp_in_ip_lem :
    (a : FdAdapter) (dgram : Ipv4Datagram)
    → Expected a dgram.header
    → dgram.proto ≡ proto_tcp
    → unwrap_tcp_in_ip a dgram ≡ unwrap_payload a dgram
unfolding unwrap_tcp_in_ip
unwrap_tcp_in_ip_lem a dgram (inl listens) proto = ground arith
unwrap_tcp_in_ip_lem a dgram (inr ends) proto = ground arith

-- An adapter that expects the datagram puts its segment to the last tests.
pub unwrap-Expected :
    (a : FdAdapter) (h : Ipv4Header) (b : Buffer) (seg : TcpSegment)
    → Wire.parse b (pseudo_cksum h) ≡ (seg, no_error)
    → Expected a h
    → h.proto ≡ proto_tcp
    → unwrap_tcp_in_ip a (record { header = h; payload = b ∷ [] }) ≡ some (accept a h seg)
unwrap-Expected a h b seg inner ends proto =
    unwrap_tcp_in_ip_lem a (record { header = h; payload = b ∷ [] }) ends proto
    ∙ unwrap_payload_lem a h b seg inner

tun_read_lem :
    (a : FdAdapter) (bytes : List ℕ) (h : Ipv4Header) (b : Buffer) (seg : TcpSegment)
    → Ipv4.parse (Buffer.of_string bytes) ≡ (record { header = h; payload = b ∷ [] }, no_error)
    → Wire.parse b (pseudo_cksum h) ≡ (seg, no_error)
    → Expected a h
    → h.proto ≡ proto_tcp
    → tun_read a bytes ≡ some (accept a h seg)
unfolding tun_read
tun_read_lem a bytes h b seg parsed inner ends proto =
    rw parsed (unwrap-Expected a h b seg inner ends proto)

-- What is written and then read by an adapter that expects it goes to the last tests of `unwrap_tcp_in_ip`.
crossed :
    (a b : FdAdapter) (seg : TcpSegment)
    → CanSend a seg
    → Expected b (sent_header a seg)
    → (bytes : List ℕ) × (tun_write a seg ≡ some (with_ports a seg, bytes))
      × (tun_read b bytes ≡ some (accept b (sent_header a seg) (sent a seg)))
unfolding datagram_header pseudo_cksum
crossed a b seg v ends =
    let (bytes, done, (buffer, parsed, inner)) = written a seg v in
    (
      bytes,
      done,
      tun_read_lem b bytes (sent_header a seg) buffer (sent a seg) parsed inner ends refl,
    )

accept_connected :
    (a : FdAdapter) (h : Ipv4Header) (seg : TcpSegment)
    → a.listening ≡ false
    → seg.dport ≡ a.cfg.source.port
    → seg.sport ≡ a.cfg.destination.port
    → accept a h seg ≡ (a, some seg)
unfolding accept from_peer
accept_connected a h seg connected ours theirs = ground arith

accept_listening :
    (a : FdAdapter) (h : Ipv4Header) (seg : TcpSegment)
    → a.listening ≡ true
    → seg.dport ≡ a.cfg.source.port
    → seg.syn ≡ true
    → seg.rst ≡ false
    → accept a h seg ≡ (adopt a h seg, some seg)
unfolding accept from_peer adopt
accept_listening a h seg listens ours syn rst = ground arith

-- The other end of a connection.
abbrev pub Faces : FdAdapter → FdAdapter → Type 0
Faces a b = (b.cfg.source ≡ a.cfg.destination) × (b.cfg.destination ≡ a.cfg.source)

-- The adapter at the other end hands on what arrives, and stays as it is.
pub unwrap-Faces :
    (a b : FdAdapter) (seg : TcpSegment) (buffer : Buffer)
    → Faces a b
    → b.listening ≡ false
    → Wire.parse buffer (lower a seg) ≡ (sent a seg, no_error)
    → unwrap_tcp_in_ip b (record { header = sent_header a seg; payload = buffer ∷ [] })
      ≡ some (b, some (sent a seg))
unfolding datagram_header with_ports pseudo_cksum
unwrap-Faces a b seg buffer (ours, theirs) connected inner =
    unwrap-Expected b (sent_header a seg) buffer (sent a seg) inner
      (inr (ap (λ x. x.ip) (sym ours), ap (λ x. x.ip) (sym theirs))) refl
    ∙ ap some (
        accept_connected b (sent_header a seg) (sent a seg) connected (ap (λ x. x.port) (sym ours))
          (ap (λ x. x.port) (sym theirs)))

-- A segment that one adapter writes to its TUN device is what the adapter at the other end of the
-- connection reads there, with the ports and the checksum filled in; that adapter stays as it is.
pub tun_read-tun_write :
    (a b : FdAdapter) (seg : TcpSegment)
    → CanSend a seg
    → Faces a b
    → b.listening ≡ false
    → (bytes : List ℕ) × (tun_write a seg ≡ some (with_ports a seg, bytes))
      × (tun_read b bytes ≡ some (b, some (sent a seg)))
unfolding datagram_header with_ports
tun_read-tun_write a b seg v (ours, theirs) connected =
    let ends : Expected b (sent_header a seg) =
      inr (ap (λ x. x.ip) (sym ours), ap (λ x. x.ip) (sym theirs)) in
    let (bytes, done, read) = crossed a b seg v ends in
    (
      bytes,
      done,
      read
          ∙ ap some (
              accept_connected b (sent_header a seg) (sent a seg) connected
                (ap (λ x. x.port) (sym ours)) (ap (λ x. x.port) (sym theirs))),
    )

-- A listening adapter that has the port takes over both addresses from a SYN, listens no more, and reads
-- the segment.
pub listener-tun_write :
    (a b : FdAdapter) (seg : TcpSegment)
    → CanSend a seg
    → b.listening ≡ true
    → b.cfg.source.port ≡ a.cfg.destination.port
    → seg.syn ≡ true
    → seg.rst ≡ false
    → (b' : FdAdapter) × (bytes : List ℕ) × (tun_write a seg ≡ some (with_ports a seg, bytes))
      × (tun_read b bytes ≡ some (b', some (sent a seg)))
      × Faces a b'
      × (b'.listening ≡ false)
unfolding datagram_header with_ports adopt
listener-tun_write a b seg v listens port syn rst =
    let (bytes, done, read) = crossed a b seg v (inl listens) in
    (
      adopt b (sent_header a seg) (sent a seg),
      bytes,
      done,
      read
          ∙ ap some
              (accept_listening b (sent_header a seg) (sent a seg) listens (sym port) syn rst),
      (λ i. record { ip = a.cfg.destination.ip; port = port i }, refl),
      refl,
    )
