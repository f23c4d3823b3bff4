-- ===== src/TcpOverIp/Udp.antt =====
-- libsponge/tcp_helpers/fd_adapter.cc and lossy_fd_adapter.hh: segments in UDP payloads, and lost ones.
use com_net_sponge.Prelude.{
  ℕ, ◌%◌, ◌^◌, ◌≤◌, ◌<◌, ◌≡◌, ◌⊎◌, inl, inr, Bool-cases, true, ltb, Option, none, arith,
}
use com_net_sponge.Buffer
use com_net_sponge.Buffer.{BufferList}
use com_net_sponge.TcpOverIp.{Address, FdAdapter, same_address, with_ports, should_drop, lossy_read}
use com_net_sponge.TcpSegment.{TcpSegment}
use com_net_sponge.TcpSegment.Wire
use com_net_sponge.TcpSegment.Wire.RoundTrip.{summed}

same_address_refl : (a : Address) → same_address a a ≡ true
unfolding same_address
same_address_refl a = ground arith

-- The segment as the other side gets it.
abbrev pub sent : FdAdapter → TcpSegment → TcpSegment
sent a seg = summed (with_ports a seg) 0

-- With a loss rate of zero nothing is dropped, and for any other rate exactly the numbers whose low 16
-- bits are below it drop a segment.
pub should_drop_lem :
    (a : FdAdapter) (seg : Option TcpSegment) (random : ℕ)
    → ((lossy_read (a, seg) random ≡ (a, seg)) × (a.cfg.loss_rate_dn ≤ random % 2 ^ 16))
      ⊎ ((lossy_read (a, seg) random ≡ (a, none)) × (random % 2 ^ 16 < a.cfg.loss_rate_dn))
unfolding lossy_read should_drop
should_drop_lem a seg random = elim (Bool-cases (ltb (random % 2 ^ 16) a.cfg.loss_rate_dn)) [
  | inl lost ↦ inr (ground arith, ground arith)
  | inr kept ↦ inl (ground arith, ground arith)
]
