-- ===== src/TcpSender/Ack.antt =====
-- `ack_received` of libsponge/tcp_sender.cc: exactly the segments that the acknowledgment covers leave
-- the queue, the timer and its backoff start over, and the window is filled again.
use com_net_sponge.Prelude.{
  ℕ, ◌+◌, ◌≤◌, ◌<◌, ◌^◌, ◌≡◌, ◌⊎◌, refl, ap, sym, subst, inl, inr, true, false, Bool-cases,
  if◌then◌else◌, List, [], ◌∷◌, ◌++◌, is_empty, ltb, leb, leb→le, lt→ltb, arith,
}
use mathlib.Core.Path.{subst₂}
use com_net_sponge.ByteStream
use com_net_sponge.Prelude.Words.{add64}
use com_net_sponge.WrappingInt32.{wrap, unwrap}
use com_net_sponge.WrappingInt32.Unwrap.{unwrap-wrap}
use com_net_sponge.TcpSegment.{TcpSegment, length_in_sequence_space}
use com_net_sponge.TcpSender.{
  TcpSender, Outstanding, stopped, start, reset, pop_acked, ack_loop, ack_received, fill_window,
}
use com_net_sponge.TcpSender.Round.{IsOutbound, Placed, Exhausted}
use com_net_sponge.TcpSender.Valid.{Chain, first-le, IsSender, next_seqno-le}
use com_net_sponge.TcpSender.Fill.{Filled, fill_window-Filled}

-- Every segment of the queue ends at `a` or before.
abbrev pub AllCovered : ℕ → List Outstanding → Type 0
AllCovered a [] = Unit {0}
AllCovered a ((k, seg) ∷ q) = (k + length_in_sequence_space seg ≤ a) × AllCovered a q

-- The first segment of the queue ends behind `a`.
abbrev pub FrontOpen : ℕ → List Outstanding → Type 0
FrontOpen a [] = Unit {0}
FrontOpen a ((k, seg) ∷ q) = a < k + length_in_sequence_space seg

-- The backoff is undone; the timer runs anew if segments are left, and stands still if not.
abbrev pub Restarted : TcpSender → TcpSender → Type 0
Restarted s s' =
    (s'.consecutive_retransmissions ≡ 0)
    × (s'.retransmission_timeout ≡ s.initial_retransmission_timeout)
    × (s'.timer ≡ (
        if is_empty s'.outstanding
        then stopped
        else start s.timer s.initial_retransmission_timeout))

-- What the loop does to a state whose queue is `q`.
pub record Acked (a : ℕ) (q : List Outstanding) (s s' : TcpSender) : Type 0 where
  pub gone : List Outstanding
  pub split : q ≡ gone ++ s'.outstanding
  pub covered : AllCovered a gone
  pub open_front : FrontOpen a s'.outstanding
  pub stream : s'.stream ≡ s.stream
  pub next_seqno : s'.next_seqno ≡ s.next_seqno
  pub abs_ackno : s'.abs_ackno ≡ s.abs_ackno
  pub window : s'.window_size ≡ s.window_size
  pub isn : s'.isn ≡ s.isn
  pub queued : s'.segments_out ≡ s.segments_out
  pub restarted : ((gone ≡ []) × (s' ≡ s)) ⊎ Restarted s s'

-- One more covered segment at the front.
Acked-step :
    (a k : ℕ) (seg : TcpSegment) (q : List Outstanding) (s s' : TcpSender)
    → k + length_in_sequence_space seg ≤ a
    → Acked a q (pop_acked s seg q) s'
    → Acked a ((k, seg) ∷ q) s s'
unfolding pop_acked start reset
Acked-step a k seg q s s' covered h = record {
  gone = (k, seg) ∷ h.gone;
  split = ap (λ r. (k, seg) ∷ r) h.split;
  covered = (covered, h.covered);
  open_front = h.open_front;
  stream = h.stream;
  next_seqno = h.next_seqno;
  abs_ackno = h.abs_ackno;
  window = h.window;
  isn = h.isn;
  queued = h.queued;
  restarted = elim (h.restarted) [
    | inl (_, e) ↦ inr (subst (Restarted s) (sym e) (refl, refl, refl))
    | inr r ↦ inr r
  ];
}

module _ (f : ℕ → ℕ) (isn : ℕ) where
  ack_loop-Acked :
      (a last : ℕ) (q : List Outstanding) (s : TcpSender)
      → s.outstanding ≡ q
      → last < 2 ^ 64
      → Chain f isn last q
      → Acked a q s (ack_loop a q s)
  unfolding ack_loop pop_acked
  ack_loop-Acked a last [] s e b c = record {
    gone = [];
    split = sym e;
    covered = tt;
    open_front = subst (FrontOpen a) (sym e) tt;
    stream = refl;
    next_seqno = refl;
    abs_ackno = refl;
    window = refl;
    isn = refl;
    queued = refl;
    restarted = inl (refl, refl);
  }
  ack_loop-Acked a last ((k, seg) ∷ q) s e b c =
      let fit : add64 k (length_in_sequence_space seg) ≡ k + length_in_sequence_space seg =
        omega (arith, c.1, first-le f isn q last c.2) in
      elim (Bool-cases (leb (k + length_in_sequence_space seg) a)) [
        | inl covered ↦
            rw (fit, covered)
              (Acked-step a k seg q s _ (leb→le _ _ covered)
                (ack_loop-Acked a last q (pop_acked s seg q) refl b c.2))
        | inr front ↦
            rw (fit, front)
              (record {
                gone = [];
                split = sym e;
                covered = tt;
                open_front = subst (FrontOpen a) (sym e) (ground arith);
                stream = refl;
                next_seqno = refl;
                abs_ackno = refl;
                window = refl;
                isn = refl;
                queued = refl;
                restarted = inl (refl, refl);
              })
      ]

Chain-suffix :
    (f : ℕ → ℕ) (isn last : ℕ) (gone rest : List Outstanding)
    → Chain f isn last (gone ++ rest)
    → Chain f isn last rest
Chain-suffix f isn last [] rest c = c
Chain-suffix f isn last ((k, seg) ∷ gone) rest c = Chain-suffix f isn last gone rest c.2

pub Placed-eq :
    (s s' : TcpSender) → s'.stream ≡ s.stream → s'.next_seqno ≡ s.next_seqno → Placed s → Placed s'
Placed-eq s s' e n p =
    subst₂
      (λ b k.
        ((k ≡ 0) × (b.bytes_read ≡ 0))
        ⊎ (k ≡ 1 + b.bytes_read)
        ⊎ ((k ≡ 2 + b.bytes_read) × (ByteStream.eof b ≡ true)))
      (sym e) (sym n) p

Acked-IsSender :
    (f : ℕ → ℕ) (a : ℕ) (s s' : TcpSender)
    → IsSender f s
    → Acked a s.outstanding s s'
    → IsSender f s'
Acked-IsSender f a s s' v h = record {
  outbound = subst (IsOutbound f) (sym h.stream) v.outbound;
  placed = Placed-eq s s' h.stream h.next_seqno v.placed;
  chained =
      subst₂ (λ i k. Chain f i k s'.outstanding) (sym h.isn) (sym h.next_seqno)
        (Chain-suffix f s.isn s.next_seqno h.gone s'.outstanding
          (subst (Chain f s.isn s.next_seqno) h.split v.chained));
}

-- A number that `ack_received` recovers from its wrapped form: less than 2 ^ 31 from the checkpoint.
abbrev pub IsNear : TcpSender → ℕ → Type 0
IsNear s a =
    (s.isn < 2 ^ 32)
    × (a < 2 ^ 63)
    × (s.abs_ackno + 1 < 2 ^ 63)
    × (a < s.abs_ackno + 1 + 2 ^ 31)
    × (s.abs_ackno + 1 < a + 2 ^ 31)

recovered :
    (s : TcpSender) (a : ℕ) → IsNear s a → unwrap (wrap a s.isn) s.isn (add64 s.abs_ackno 1) ≡ a
recovered s a h =
    let e : add64 s.abs_ackno 1 ≡ s.abs_ackno + 1 = omega arith in
    rw e (unwrap-wrap a s.isn (s.abs_ackno + 1) (omega arith) h.0 (omega arith) h.3 h.4)

-- An acknowledgment of `a`, not beyond what was sent: exactly the covered segments at the front leave
-- the queue, and if any did the timer and its backoff start over; `a` and the window are recorded; then
-- the window is filled as `fill_window` does, with the invariant kept.
pub ack_received_lem :
    (f : ℕ → ℕ) (s : TcpSender) (a window : ℕ)
    → IsSender f s
    → IsNear s a
    → a ≤ s.next_seqno
    → (mid : TcpSender) × (new : List Outstanding) × Acked a s.outstanding
        (record s { window_size = window; abs_ackno = a })
        mid
      × (ack_received s (wrap a s.isn) window ≡ fill_window mid)
      × Filled f mid (fill_window mid) new
      × Exhausted (fill_window mid)
unfolding ack_received
ack_received_lem f s a window v near le =
    let s' : TcpSender = record s { window_size = window; abs_ackno = a } in
    let mid : TcpSender = ack_loop a s.outstanding s' in
    let acked : Acked a s.outstanding s' mid =
      ack_loop-Acked f s.isn a s.next_seqno s.outstanding s' refl
        (omega (arith, next_seqno-le s v.placed, v.outbound.small, v.outbound.counted)) v.chained in
    let v' : IsSender f s' = record {
      outbound = v.outbound;
      placed = v.placed;
      chained = v.chained;
    } in
    let (new, filled, done) = fill_window-Filled f mid (Acked-IsSender f a s' mid v' acked) in
    let within : ltb s.next_seqno a ≡ false = ground arith in
    (mid, new, acked, rw (recovered s a near, within), filled, done)

-- An acknowledgment of something that was never sent changes the recorded window and nothing else.
pub ack_beyond :
    (s : TcpSender) (a window : ℕ)
    → IsNear s a
    → s.next_seqno < a
    → ack_received s (wrap a s.isn) window ≡ record s { window_size = window }
unfolding ack_received
ack_beyond s a window near beyond =
    let t : ltb s.next_seqno a ≡ true = lt→ltb _ _ beyond in rw (recovered s a near, t)
