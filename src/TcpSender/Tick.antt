-- ===== src/TcpSender/Tick.antt =====
-- The retransmission timer of libsponge/tcp_sender.cc and `tick`.
use com_net_sponge.Prelude.{
  ℕ, ◌+◌, ◌%◌, ◌≤◌, ◌<◌, ◌^◌, ◌≡◌, refl, ap, sym, subst, ◌∙◌, inl, inr, true, false, Bool-cases,
  if◌then◌else◌, List, [], ◌∷◌, ◌++◌, ltb, arith,
}
use com_net_sponge.Prelude.Words.{mul64, add32}
use com_net_sponge.WrappingInt32.{wrap}
use com_net_sponge.TcpSegment.{TcpSegment}
use com_net_sponge.TcpSender.Round.{IsOutbound}
use com_net_sponge.TcpSender.Valid.{IsSender, Chain}
use com_net_sponge.TcpSender.Ack.{Placed-eq}
use com_net_sponge.TcpSender.{
  TcpSender, Outstanding, Timer, start, update, expired, retransmit, tick,
}

-- The timer runs towards `timeout` and has not reached it.
abbrev pub IsRunning : Timer → Type 0
IsRunning t = (t.active ≡ true) × (t.is_expired ≡ false) × (t.current_time < t.timeout)

-- The timeout after a retransmission: doubled, unless the peer's window is 0.
abbrev pub backed_off : TcpSender → ℕ
backed_off s =
    if ltb 0 s.window_size then mul64 s.retransmission_timeout 2 else s.retransmission_timeout

-- While the time does not reach the timeout, only the clock moves.
tick_waits :
    (s : TcpSender) (ms : ℕ)
    → IsRunning s.timer
    → s.timer.current_time + ms < s.timer.timeout
    → s.timer.timeout < 2 ^ 32
    → tick s ms ≡ record s { timer = record (s.timer) { current_time = s.timer.current_time + ms } }
unfolding tick update expired
tick_waits s ms r h b =
    let e : add32 s.timer.current_time (ms % 2 ^ 32) ≡ s.timer.current_time + ms = omega arith in
    rw e (ground arith)

-- The segment that is sent again: the one at the front, numbered anew.
abbrev pub resent : TcpSender → Outstanding → TcpSegment
resent s (k, seg) = record {
  header = record (seg.header) { seqno = wrap k s.isn };
  payload = seg.payload;
}

retransmit_lem :
    (s : TcpSender) (t : Timer) (front : Outstanding)
    → retransmit (record s { timer = t }) front ≡ record s {
      segments_out = s.segments_out ++ (resent s front ∷ []);
      consecutive_retransmissions =
          (if ltb 0 s.window_size
            then add32 s.consecutive_retransmissions 1
            else s.consecutive_retransmissions);
      retransmission_timeout = backed_off s;
      timer = start s.timer (backed_off s);
    }
unfolding retransmit start
retransmit_lem s t front = refl

tick-expired :
    (s : TcpSender) (ms : ℕ) (front : Outstanding) (rest : List Outstanding)
    → s.timer.active ≡ true
    → expired (update s.timer ms) ≡ true
    → s.outstanding ≡ front ∷ rest
    → tick s ms ≡ retransmit (record s { timer = update s.timer ms }) front
unfolding tick
tick-expired s ms front rest a x e = ground arith

expires :
    (t : Timer) (ms : ℕ)
    → IsRunning t
    → t.timeout ≤ t.current_time + ms
    → t.current_time + ms < 2 ^ 32
    → expired (update t ms) ≡ true
unfolding expired update
expires t ms r h b =
    let fits : add32 t.current_time (ms % 2 ^ 32) ≡ t.current_time + ms = omega arith in
    ground arith

-- When the time reaches the timeout while segments are in flight, the front one is sent again with its
-- header and payload, the clock restarts on the timeout that is doubled unless the peer's window is 0,
-- and the retransmission is counted in the same case. Nothing else changes.
tick_fires :
    (s : TcpSender) (ms : ℕ) (front : Outstanding) (rest : List Outstanding)
    → IsRunning s.timer
    → s.timer.timeout ≤ s.timer.current_time + ms
    → s.timer.current_time + ms < 2 ^ 32
    → s.outstanding ≡ front ∷ rest
    → tick s ms ≡ record s {
      segments_out = s.segments_out ++ (resent s front ∷ []);
      consecutive_retransmissions =
          (if ltb 0 s.window_size
            then add32 s.consecutive_retransmissions 1
            else s.consecutive_retransmissions);
      retransmission_timeout = backed_off s;
      timer = start s.timer (backed_off s);
    }
tick_fires s ms front rest r h b e =
    tick-expired s ms front rest r.0 (expires s.timer ms r h b) e ∙ retransmit_lem s _ front

-- The state after calls of `tick`, in order.
pub ticks : List ℕ → TcpSender → TcpSender
ticks [] s = s
ticks (ms ∷ rest) s = ticks rest (tick s ms)

abbrev pub sum : List ℕ → ℕ
sum [] = 0
sum (ms ∷ rest) = ms + sum rest

-- However the time is cut into calls of `tick`: when it reaches the timeout while a segment is in
-- flight, one of the calls has sent the front segment again, and the calls before it sent nothing.
pub ticks_resend :
    (s : TcpSender) (front : Outstanding) (rest : List Outstanding) (times : List ℕ)
    → IsRunning s.timer
    → s.outstanding ≡ front ∷ rest
    → s.timer.timeout ≤ s.timer.current_time + sum times
    → s.timer.current_time + sum times < 2 ^ 32
    → (before : List ℕ) × (ms : ℕ) × (after : List ℕ) × (times ≡ before ++ (ms ∷ after))
      × ((ticks before s).segments_out ≡ s.segments_out)
      × ((ticks (before ++ (ms ∷ [])) s).segments_out ≡ s.segments_out ++ (resent s front ∷ []))
unfolding ticks
ticks_resend s front rest [] r e h b = absurd (omega (arith, r.2))
ticks_resend s front rest (ms ∷ times) r e h b =
    elim (Bool-cases (ltb (s.timer.current_time + ms) s.timer.timeout)) [
      | inr e' ↦ (
        [],
        ms,
        times,
        refl,
        refl,
        ap (λ t. t.segments_out) (tick_fires s ms front rest r (ground arith) (omega arith) e),
      )
      | inl e' ↦
          let early : s.timer.current_time + ms < s.timer.timeout = ground arith in
          let waits = tick_waits s ms r early (omega arith) in
          let (before, last, after, cut, quiet, again) =
            ticks_resend
              (record s { timer = record (s.timer) { current_time = s.timer.current_time + ms } })
              front rest times (r.0, r.1, early) e (omega arith) (omega arith) in
          (
            ms ∷ before,
            last,
            after,
            ap (λ l. ms ∷ l) cut,
            subst (λ t. (ticks before t).segments_out ≡ s.segments_out) (sym waits) quiet,
            subst
                (λ t.
                  (ticks (before ++ (last ∷ [])) t).segments_out
                  ≡ s.segments_out ++ (resent s front ∷ []))
                (sym waits) again,
          )
    ]

tick_unmoved :
    (s : TcpSender) (ms : ℕ)
    → ((tick s ms).outstanding ≡ s.outstanding)
      × ((tick s ms).stream ≡ s.stream)
      × ((tick s ms).next_seqno ≡ s.next_seqno)
      × ((tick s ms).isn ≡ s.isn)
unfolding tick retransmit
tick_unmoved s ms = ground arith

-- `tick` keeps the invariant of the sender, whether the timer expires or not.
pub tick-IsSender : (f : ℕ → ℕ) (s : TcpSender) (ms : ℕ) → IsSender f s → IsSender f (tick s ms)
tick-IsSender f s ms v =
    let (flying, stream, next, isn) = tick_unmoved s ms in
    record {
      outbound = subst (IsOutbound f) (sym stream) v.outbound;
      placed = Placed-eq s (tick s ms) stream next v.placed;
      chained =
          subst (λ q. Chain f (tick s ms).isn (tick s ms).next_seqno q) (sym flying)
            (subst (λ i. Chain f i (tick s ms).next_seqno s.outstanding) (sym isn)
              (subst (λ k. Chain f s.isn k s.outstanding) (sym next) v.chained));
    }
