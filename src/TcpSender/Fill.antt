-- ===== src/TcpSender/Fill.antt =====
-- The loop of `fill_window` in libsponge/tcp_sender.cc: it ends by its own tests, keeps the invariant,
-- moves bytes from the stream into segments with none lost, and stays within the peer's window.
use com_net_sponge.Prelude.{
  ℕ, zero, suc, ◌+◌, ◌-◌, ◌≤◌, ◌<◌, ◌^◌, ◌≡◌, refl, sym, ap, ◌∙◌, inl, inr, if◌then◌else◌, List, [],
  ◌∷◌, ◌++◌, map, append-nil, append_assoc, ◌==◌, arith,
}
use com_net_sponge.ByteStream.{ByteStream}
use com_net_sponge.TcpSegment.{TcpSegment}
use com_net_sponge.TcpSender.{
  TcpSender, Outstanding, effective_window, available_space, enqueue, fill_loop, rounds,
  fill_window,
}
use com_net_sponge.TcpSender.Round.{Sends, Exhausted, fill_round_cases}
use com_net_sponge.TcpSender.Valid.{
  first, payloads, Chain-append, IsSender, sent-IsSender, sent-rounds, sent_next, sent-IsCut,
}

-- The first absolute sequence number beyond the peer's window; a window of 0 counts as 1.
abbrev pub window_end : TcpSender → ℕ
window_end s = s.abs_ackno + effective_window s

-- What `fill_window` does to a state, with the segments that it sends.
pub record Filled (f : ℕ → ℕ) (s s' : TcpSender) (new : List Outstanding) : Type 0 where
  pub valid : IsSender f s'
  pub flying : s'.outstanding ≡ s.outstanding ++ new
  pub queued : s'.segments_out ≡ s.segments_out ++ map (λ (p : Outstanding). p.1) new
  pub bytes : payloads new ++ s'.stream.buffer ≡ s.stream.buffer
  pub front : first s'.outstanding s'.next_seqno ≡ first s.outstanding s.next_seqno
  pub grown : s.next_seqno ≤ s'.next_seqno
  pub ackno : s'.abs_ackno ≡ s.abs_ackno
  pub window : s'.window_size ≡ s.window_size
  pub isn : s'.isn ≡ s.isn

Filled-refl : (f : ℕ → ℕ) (s : TcpSender) → IsSender f s → Filled f s s []
Filled-refl f s v = record {
  valid = v;
  flying = sym (append-nil s.outstanding);
  queued = sym (append-nil s.segments_out);
  bytes = refl;
  front = refl;
  grown = omega arith;
  ackno = refl;
  window = refl;
  isn = refl;
}

available_space_lem :
    (s : TcpSender)
    → window_end s < 2 ^ 64
    → s.next_seqno ≤ window_end s
    → available_space s ≡ window_end s - s.next_seqno
unfolding available_space
available_space_lem s b h = ground arith

-- A round, then the rest of the loop.
Filled-step :
    (f : ℕ → ℕ) (s s' : TcpSender) (seg : TcpSegment) (b : ByteStream) (new : List Outstanding)
    → IsSender f s
    → Sends s seg b
    → Filled f (enqueue (record s { stream = b }) seg) s' new
    → Filled f s s' ((s.next_seqno, seg) ∷ new)
unfolding enqueue
Filled-step f s s' seg b new v d h = record {
  valid = h.valid;
  flying = h.flying ∙ append_assoc s.outstanding ((s.next_seqno, seg) ∷ []) new;
  queued = h.queued ∙ append_assoc s.segments_out (seg ∷ []) (map (λ (p : Outstanding). p.1) new);
  bytes =
      append_assoc seg.payload (payloads new) s'.stream.buffer
      ∙ ap (λ r. seg.payload ++ r) h.bytes
      ∙ d.taken;
  front =
      h.front
      ∙ (Chain-append f s.isn s.outstanding s.next_seqno seg _ v.chained (sent-IsCut f s v seg b d)
          (sent_next f s v seg b d)).1;
  grown = omega (arith, h.grown, sent_next f s v seg b d);
  ackno = h.ackno;
  window = h.window;
  isn = h.isn;
}

pub fill_loop-Filled :
    (f : ℕ → ℕ) (fuel : ℕ) (s : TcpSender)
    → IsSender f s
    → rounds s < fuel
    → (new : List Outstanding) × Filled f s (fill_loop fuel s) new × Exhausted (fill_loop fuel s)
unfolding fill_loop
fill_loop-Filled f zero s v h = absurd (omega arith)
fill_loop-Filled f (suc fuel) s v h = elim (fill_round_cases f s v.outbound v.placed) [
  | inl (e, done) ↦ rw e ([], Filled-refl f s v, done)
  | inr (seg, b, e, d) ↦
      let (new, filled, stopped) =
        fill_loop-Filled f fuel (enqueue (record s { stream = b }) seg)
          (sent-IsSender f s v seg b d) (omega (arith, sent-rounds f s v seg b d)) in
      rw e ((s.next_seqno, seg) ∷ new, Filled-step f s _ seg b new v d filled, stopped)
]

-- A window that reaches as far as what was sent is never overrun.
fill_loop_within :
    (f : ℕ → ℕ) (fuel : ℕ) (s : TcpSender)
    → IsSender f s
    → window_end s < 2 ^ 64
    → s.next_seqno ≤ window_end s
    → (fill_loop fuel s).next_seqno ≤ window_end s
unfolding fill_loop enqueue
fill_loop_within f zero s v small inside = inside
fill_loop_within f (suc fuel) s v small inside = elim (fill_round_cases f s v.outbound v.placed) [
  | inl (e, done) ↦ rw e inside
  | inr (seg, b, e, d) ↦ rw e (
      fill_loop_within f fuel (enqueue (record s { stream = b }) seg) (sent-IsSender f s v seg b d)
        small (omega (arith, sent_next f s v seg b d, d.fits, available_space_lem s small inside)))
]

-- As long as the next sequence number does not lie beyond the peer's window, a window of 0 counted as 1,
-- `fill_window` does not send beyond it.
pub fill_window_within :
    (f : ℕ → ℕ) (s : TcpSender)
    → IsSender f s
    → s.abs_ackno + (if s.window_size == 0 then 1 else s.window_size) < 2 ^ 64
    → s.next_seqno ≤ s.abs_ackno + (if s.window_size == 0 then 1 else s.window_size)
    → (fill_window s).next_seqno ≤ s.abs_ackno + (if s.window_size == 0 then 1 else s.window_size)
unfolding fill_window
fill_window_within f s v small inside = fill_loop_within f (suc (rounds s)) s v small inside

-- In a valid state `fill_window` ends by its own tests: the window is full, or the SYN is out, the
-- stream is empty and no FIN is due. It keeps the invariant, queues each new segment and puts it in
-- flight, and the new payloads followed by what is left in the stream are the bytes that it held.
pub fill_window-Filled :
    (f : ℕ → ℕ) (s : TcpSender)
    → IsSender f s
    → (new : List Outstanding) × Filled f s (fill_window s) new × Exhausted (fill_window s)
unfolding fill_window
fill_window-Filled f s v = fill_loop-Filled f (suc (rounds s)) s v (omega arith)
