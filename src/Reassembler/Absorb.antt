-- ===== src/Reassembler/Absorb.antt =====
-- The loop of `insert_segment` in libsponge/stream_reassembler.cc: over disjoint excerpts of a stream
-- it leaves disjoint excerpts with a gap that the joined new data fits.
use com_net_sponge.Prelude.{
  ℕ, ◌+◌, ◌-◌, ◌≤◌, ◌<◌, ◌^◌, ◌≡◌, ◌⊎◌, refl, List, [], ◌∷◌, ◌++◌, length, length-append,
  length-take, length-drop, take, drop, ltb, lt→ltb, true, arith,
}
use com_net_sponge.Prelude.Words.{add64, sub64}
use com_net_sponge.Reassembler.SegmentMap.{Segments}
use com_net_sponge.Reassembler.{Incoming, Overlap, overlap, join_tail, join_front, absorb}
use com_net_sponge.Reassembler.Overlap.{
  before, after, covered_by_new, covers_new, new_first, segment_first,
}
use com_net_sponge.Reassembler.Content.{Agrees, Agrees-take, Agrees-drop, Agrees-append, Good, Gap}

pub last_index : (k n : ℕ) → 0 < n → k + n < 2 ^ 64 → sub64 (add64 k n) 1 ≡ k + n - 1
last_index k n h b = omega arith

-- What each outcome of the tests says about the two ranges.
abbrev pub Lies : Incoming → ℕ → ℕ → Overlap → Type 0
Lies t k e before = e < t.index
Lies t k e after = (t.index ≤ e) × (t.last < k)
Lies t k e covered_by_new = (t.index ≤ k) × (e ≤ t.last)
Lies t k e covers_new = (k ≤ t.index) × (t.last ≤ e)
Lies t k e new_first = (t.index < k) × (k ≤ t.last) × (t.last < e)
Lies t k e segment_first = (k < t.index) × (t.index ≤ e) × (e < t.last)

pub overlap-Lies : (t : Incoming) (k e : ℕ) → Lies t k e (overlap t k e)
unfolding overlap
overlap-Lies t k e = ground arith

overlap_after : (t : Incoming) (k e : ℕ) → t.index ≤ e → t.last < k → overlap t k e ≡ after
unfolding overlap
overlap_after t k e h l = ground arith

-- A segment that starts behind the new data ends the loop.
pub absorb_past :
    (f : ℕ → ℕ) (size : ℕ) (m : Segments) (t : Incoming)
    → size < 2 ^ 64
    → t.index ≤ t.last
    → Good f size (t.last + 1) m
    → absorb m t ≡ (m, t)
unfolding absorb
absorb_past f size [] t s h g = refl
absorb_past f size ((k, d) ∷ m) t s h g =
    let e : overlap t k (sub64 (add64 k (length d)) 1) ≡ after =
      overlap_after t k (sub64 (add64 k (length d)) 1) (omega arith) (omega arith) in
    rw (e, absorb)

module _ (f : ℕ → ℕ) (size : ℕ) where
  abbrev pub Fits : ℕ → Incoming → Type 0
  Fits lo t =
      (lo ≤ t.index)
      × (0 < length t.bytes)
      × (t.index + length t.bytes ≤ size)
      × (t.last + 1 ≡ t.index + length t.bytes)
      × Agrees f t.index t.bytes

  -- Either the new data was stored already, or it is an excerpt that fits the gap left for it.
  abbrev pub Absorbed : ℕ → Segments × Incoming → Type 0
  Absorbed lo r =
      ((r.1.bytes ≡ []) × Good f size lo r.0)
      ⊎ (Fits lo r.1 × Gap f size r.1.index (r.1.index + length r.1.bytes) lo r.0)

  pub Fits-of :
      (lo i : ℕ) (bytes : List ℕ)
      → size < 2 ^ 64
      → lo ≤ i
      → 0 < length bytes
      → i + length bytes ≤ size
      → Agrees f i bytes
      → Fits lo (record { bytes = bytes; index = i; last = sub64 (add64 i (length bytes)) 1 })
  Fits-of lo i bytes s l p b a = (l, p, b, omega arith, a)

  pub join_tail-Fits :
      (lo k : ℕ) (t : Incoming) (d : List ℕ)
      → size < 2 ^ 64
      → k + length d ≤ size
      → Agrees f k d
      → Lies t k (k + length d - 1) new_first
      → Fits lo t
      → Fits lo (join_tail t (k + length d - 1) d)
  unfolding join_tail
  join_tail-Fits lo k t d s b a o h =
      let extra : sub64 (k + length d - 1) t.last ≡ k + length d - 1 - t.last = omega arith in
      let some_left : ltb 0 (k + length d - 1 - t.last) ≡ true = lt→ltb _ _ (omega arith) in
      let cut : sub64 (length d) (k + length d - 1 - t.last) ≡ t.last + 1 - k = omega arith in
      let size_eq : length (t.bytes ++ drop (t.last + 1 - k) d) ≡ k + length d - t.index =
        omega (
          arith,
          length-append t.bytes (drop (t.last + 1 - k) d),
          length-drop (t.last + 1 - k) d,
        ) in
      rw (extra, some_left, cut)
        (Fits-of lo t.index (t.bytes ++ drop (t.last + 1 - k) d) s h.0 (omega arith) (omega arith) (
          Agrees-append f t.index (t.last + 1) t.bytes _ (omega arith) h.4
            (Agrees-drop f (t.last + 1 - k) k (t.last + 1) d (omega arith) a)))

  pub join_front-Fits :
      (lo k : ℕ) (t : Incoming) (d : List ℕ)
      → size < 2 ^ 64
      → lo ≤ k
      → Agrees f k d
      → Lies t k (k + length d - 1) segment_first
      → Fits lo t
      → Fits lo (join_front t k d)
  unfolding join_front
  join_front-Fits lo k t d s b a o h =
      let cut : sub64 t.index k ≡ t.index - k = omega arith in
      let cut_eq : length (take (t.index - k) d) ≡ t.index - k =
        omega (arith, length-take (t.index - k) d) in
      let size_eq : length (take (t.index - k) d ++ t.bytes) ≡ t.index - k + length t.bytes =
        omega (arith, length-append (take (t.index - k) d) t.bytes) in
      rw cut (
        Fits-of lo k (take (t.index - k) d ++ t.bytes) s b (omega arith) (omega arith) (
          Agrees-append f k t.index (take (t.index - k) d) t.bytes (omega arith)
            (Agrees-take f (t.index - k) k d a) h.4))
