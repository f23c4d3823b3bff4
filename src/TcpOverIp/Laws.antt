-- ===== src/TcpOverIp/Laws.antt =====
-- libsponge/tcp_helpers/tcp_over_ip.cc and fd_adapter.cc: which segments an adapter lets through.
use com_net_sponge.Prelude.{
  ◌≡◌, ◌⊎◌, inl, inr, sym, ap, ◌∙◌, Option-cases, Bool-cases, true, false, some, arith,
}
use mathlib.Core.Option.{some-ne-none, some-injective}
use com_net_sponge.Buffer
use com_net_sponge.Buffer.{Buffer}
use com_net_sponge.Ipv4
use com_net_sponge.Ipv4.{Ipv4Header, Ipv4Datagram, proto_tcp}
use com_net_sponge.NetParser.{
  ParseResult, no_error, bad_checksum, packet_too_short, wrong_ip_version, header_too_short,
  truncated_packet, unsupported,
}
use com_net_sponge.TcpSegment.{TcpSegment}
use com_net_sponge.TcpSegment.Wire
use com_net_sponge.TcpOverIp.{
  FdAdapter, ReadResult, from_peer, adopt, accept, accept_parsed, unwrap_payload, unwrap_tcp_in_ip,
}

-- The segment goes between the two ends of the adapter, which does not listen.
pub record Related (a : FdAdapter) (h : Ipv4Header) (seg : TcpSegment) : Type 0 where
  pub connected : a.listening ≡ false
  pub to_us : h.dst ≡ a.cfg.source.ip
  pub from_them : h.src ≡ a.cfg.destination.ip
  pub our_port : seg.dport ≡ a.cfg.source.port
  pub their_port : seg.sport ≡ a.cfg.destination.port

accept-Related :
    (a : FdAdapter) (h : Ipv4Header) (seg got : TcpSegment) (a' : FdAdapter)
    → ((a.listening ≡ true) ⊎ ((h.dst ≡ a.cfg.source.ip) × (h.src ≡ a.cfg.destination.ip)))
    → accept a h seg ≡ (a', some got)
    → Related a' h got
unfolding accept from_peer adopt
accept-Related a h seg got a' (inl listens) e = ground arith
accept-Related a h seg got a' (inr ends) e = ground arith

-- What `accept` hands on is the segment that it was given.
accept_same :
    (a : FdAdapter) (h : Ipv4Header) (seg got : TcpSegment) (a' : FdAdapter)
    → accept a h seg ≡ (a', some got)
    → seg ≡ got
unfolding accept from_peer adopt
accept_same a h seg got a' e = ground arith

accept_parsed-Related :
    (a : FdAdapter) (h : Ipv4Header) (parsed : TcpSegment × ParseResult) (got : TcpSegment)
    (a' : FdAdapter)
    → ((a.listening ≡ true) ⊎ ((h.dst ≡ a.cfg.source.ip) × (h.src ≡ a.cfg.destination.ip)))
    → accept_parsed a h parsed ≡ (a', some got)
    → Related a' h got × (parsed ≡ (got, no_error))
unfolding accept_parsed
accept_parsed-Related a h (seg, no_error) got a' ends e =
    (accept-Related a h seg got a' ends e, ap (λ s. (s, no_error)) (accept_same a h seg got a' e))
accept_parsed-Related a h (seg, bad_checksum) got a' ends e = ground arith
accept_parsed-Related a h (seg, packet_too_short) got a' ends e = ground arith
accept_parsed-Related a h (seg, wrong_ip_version) got a' ends e = ground arith
accept_parsed-Related a h (seg, header_too_short) got a' ends e = ground arith
accept_parsed-Related a h (seg, truncated_packet) got a' ends e = ground arith
accept_parsed-Related a h (seg, unsupported) got a' ends e = ground arith

-- The payload is one buffer, from which this segment is parsed.
abbrev pub Carries : Ipv4Datagram → TcpSegment → Type 0
Carries dgram seg =
    (b : Buffer) × (Buffer.to_buffer dgram.payload ≡ some b)
    × (Wire.parse b (Ipv4.pseudo_cksum dgram.header) ≡ (seg, no_error))

-- The tests on the datagram's header.
reached :
    (a : FdAdapter) (dgram : Ipv4Datagram) (got : TcpSegment) (a' : FdAdapter)
    → unwrap_tcp_in_ip a dgram ≡ some (a', some got)
    → ((a.listening ≡ true) ⊎ ((dgram.dst ≡ a.cfg.source.ip) × (dgram.src ≡ a.cfg.destination.ip)))
      × (dgram.proto ≡ proto_tcp)
      × (unwrap_payload a dgram ≡ some (a', some got))
unfolding unwrap_tcp_in_ip
reached a dgram got a' e = elim (Bool-cases a.listening) [
  | inl listens ↦ (inl listens, ground arith, ground arith)
  | inr connected ↦ (inr (ground arith), ground arith, ground arith)
]

unwrap_payload-Related :
    (a : FdAdapter) (dgram : Ipv4Datagram) (got : TcpSegment) (a' : FdAdapter)
    → ((a.listening ≡ true) ⊎ ((dgram.dst ≡ a.cfg.source.ip) × (dgram.src ≡ a.cfg.destination.ip)))
    → unwrap_payload a dgram ≡ some (a', some got)
    → Related a' dgram.header got × Carries dgram got
unfolding unwrap_payload
unwrap_payload-Related a dgram got a' ends e =
    elim (Option-cases (Buffer.to_buffer dgram.payload)) [
      | inl gone ↦ absurd (some-ne-none _ (sym e ∙ rw (gone, unwrap_payload)))
      | inr (b, buffer) ↦
          let parsed_here : ReadResult =
            accept_parsed a dgram.header (Wire.parse b (Ipv4.pseudo_cksum dgram.header)) in
          let opened : unwrap_payload a dgram ≡ some parsed_here = rw (buffer, unwrap_payload) in
          let accepted : parsed_here ≡ (a', some got) = some-injective _ _ (sym opened ∙ e) in
          let (related, parsed) = accept_parsed-Related a dgram.header _ got a' ends accepted in
          (related, (b, buffer, parsed))
    ]

-- A segment is handed on only from a datagram for TCP that carries it without an error, and only if it
-- belongs to the connection that the adapter then has: addresses and ports of both ends are its own.
pub unwrap_tcp_in_ip-Related :
    (a : FdAdapter) (dgram : Ipv4Datagram) (got : TcpSegment) (a' : FdAdapter)
    → unwrap_tcp_in_ip a dgram ≡ some (a', some got)
    → (dgram.proto ≡ proto_tcp) × Related a' dgram.header got × Carries dgram got
unfolding unwrap_tcp_in_ip
unwrap_tcp_in_ip-Related a dgram got a' e =
    let (ends, proto, unwrapped) = reached a dgram got a' e in
    let (related, carried) = unwrap_payload-Related a dgram got a' ends unwrapped in
    (proto, related, carried)
