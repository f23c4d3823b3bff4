-- ===== src/TcpSender/Window.antt =====
-- libsponge/tcp_sender.cc against the peer's window: when `fill_window` stops, and what it does when
-- the window has shrunk below what was sent.
use com_net_sponge.Prelude.{ℕ, ◌+◌, ◌-◌, ◌<◌, ◌^◌, ◌≡◌, inl, inr, length, arith}
use com_net_sponge.TcpSender.{TcpSender, available_space, enqueue, fill_loop, fill_window, rounds}
use com_net_sponge.TcpSender.Round.{fill_round_cases}
use com_net_sponge.TcpSender.Valid.{IsSender, next_seqno-le, sent-IsSender, sent-rounds, sent_next}
use com_net_sponge.TcpSender.Fill.{window_end, fill_loop-Filled}

-- With the end of the window behind the next sequence number, the unsigned subtraction wraps.
shrunk_space :
    (s : TcpSender)
    → window_end s < s.next_seqno
    → s.next_seqno < 2 ^ 64
    → available_space s ≡ 2 ^ 64 + window_end s - s.next_seqno
unfolding available_space
shrunk_space s h b = ground arith

-- When the peer's window has shrunk so that its end lies before the next sequence number, and the
-- stream holds bytes, `fill_window` does not wait: it sends, and steps still further beyond the window.
pub fill_window_beyond :
    (f : ℕ → ℕ) (s : TcpSender)
    → IsSender f s
    → window_end s < s.next_seqno
    → 0 < length s.stream.buffer
    → (s.next_seqno < (fill_window s).next_seqno) × (window_end s < (fill_window s).next_seqno)
unfolding fill_window fill_loop enqueue
fill_window_beyond f s v h some_bytes = elim (fill_round_cases f s v.outbound v.placed) [
  | inl (e, done) ↦ absurd (
      omega (
        arith,
        done,
        shrunk_space s h
            (omega (arith, next_seqno-le s v.placed, v.outbound.small, v.outbound.counted)),
        next_seqno-le s v.placed,
        v.outbound.small,
        v.outbound.counted,
      ))
  | inr (seg, b, e, d) ↦
      let (new, filled, stopped) =
        fill_loop-Filled f (rounds s) (enqueue (record s { stream = b }) seg)
          (sent-IsSender f s v seg b d) (sent-rounds f s v seg b d) in
      let further : s.next_seqno
          < (fill_loop (rounds s) (enqueue (record s { stream = b }) seg)).next_seqno =
        omega (arith, filled.grown, sent_next f s v seg b d, d.positive) in
      rw e (further, omega arith)
]
