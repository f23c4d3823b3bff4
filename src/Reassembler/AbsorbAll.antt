-- ===== src/Reassembler/AbsorbAll.antt =====
-- The whole loop of `insert_segment` in libsponge/stream_reassembler.cc, by its outcomes at the first
-- stored segment.
use com_net_sponge.Prelude.{
  ℕ, ◌+◌, ◌-◌, ◌≤◌, ◌<◌, ◌^◌, ◌≡◌, inl, inr, refl, List, [], ◌∷◌, length, arith,
}
use com_net_sponge.Prelude.Words.{add64, sub64}
use com_net_sponge.Reassembler.SegmentMap.{Segments, total}
use com_net_sponge.Reassembler.{Incoming, Overlap, overlap, join_tail, join_front, absorb}
use com_net_sponge.Reassembler.Overlap.{
  before, after, covered_by_new, covers_new, new_first, segment_first,
}
use com_net_sponge.Reassembler.Content.{Agrees, Good, Good-weaken}
use com_net_sponge.Reassembler.Absorb.{
  last_index, Lies, overlap-Lies, absorb_past, Fits, Absorbed, join_tail-Fits, join_front-Fits,
}

module _ (f : ℕ → ℕ) (size : ℕ) (small : size < 2 ^ 64) where
  Absorbed-cons :
      (lo k : ℕ) (d : List ℕ) (r : Segments × Incoming)
      → lo ≤ k
      → 0 < length d
      → k + length d ≤ size
      → Agrees f k d
      → Absorbed f size (k + length d) r
      → Absorbed f size lo ((k, d) ∷ r.0, r.1)
  Absorbed-cons lo k d r l p b a (inl (e, g)) = inl (e, (l, p, b, a, g))
  Absorbed-cons lo k d r l p b a (inr (h, g)) =
      inr ((omega arith, h.1, h.2, h.3, h.4), inl (l, h.0, p, b, a, g))

  -- The loop by the outcome of the tests at the first segment.
  abbrev absorb_by : Overlap → ℕ → List ℕ → Segments → Incoming → Segments × Incoming
  absorb_by before k d m t = let (m', t') = absorb m t in ((k, d) ∷ m', t')
  absorb_by after k d m t = ((k, d) ∷ m, t)
  absorb_by covered_by_new k d m t = absorb m t
  absorb_by covers_new k d m t =
      let (m', t') = absorb m (record t { bytes = [] }) in ((k, d) ∷ m', t')
  absorb_by new_first k d m t = absorb m (join_tail t (k + length d - 1) d)
  absorb_by segment_first k d m t = absorb m (join_front t k d)

  absorb-cons :
      (o : Overlap) (k : ℕ) (d : List ℕ) (m : Segments) (t : Incoming)
      → sub64 (add64 k (length d)) 1 ≡ k + length d - 1
      → overlap t k (k + length d - 1) ≡ o
      → absorb ((k, d) ∷ m) t ≡ absorb_by o k d m t
  unfolding absorb
  absorb-cons new_first k d m t eq e = rw (eq, e, absorb) (rw eq)
  absorb-cons _ k d m t eq e = rw (eq, e, absorb)

  absorb_by-Absorbed :
      (o : Overlap) (lo k : ℕ) (d : List ℕ) (m : Segments) (t : Incoming)
      → Lies t k (k + length d - 1) o
      → Good f size lo ((k, d) ∷ m)
      → Fits f size lo t
      → ((lo' : ℕ) (t' : Incoming)
          → Good f size lo' m
          → Fits f size lo' t'
          → Absorbed f size lo' (absorb m t'))
      → Absorbed f size lo (absorb_by o k d m t)
  absorb_by-Absorbed before lo k d m t l g h ih =
      Absorbed-cons lo k d (absorb m t) g.0 g.1 g.2 g.3
        (ih (k + length d) t g.4 (omega arith, h.1, h.2, h.3, h.4))
  absorb_by-Absorbed after lo k d m t l g h ih =
      inr (h, inr (h.0, (omega arith, g.1, g.2, g.3, g.4)))
  absorb_by-Absorbed covered_by_new lo k d m t l g h ih =
      ih lo t (Good-weaken f size lo (k + length d) m (omega arith) g.4) h
  absorb_by-Absorbed covers_new lo k d m t l g h ih =
      rw
        (absorb_past f size m (record t { bytes = [] }) small (omega arith)
          (Good-weaken f size (t.last + 1) (k + length d) m (omega arith) g.4))
        (inl (refl, g))
  absorb_by-Absorbed new_first lo k d m t l g h ih =
      ih lo (join_tail t (k + length d - 1) d)
        (Good-weaken f size lo (k + length d) m (omega arith) g.4)
        (join_tail-Fits f size lo k t d small g.2 g.3 l h)
  absorb_by-Absorbed segment_first lo k d m t l g h ih =
      ih lo (join_front t k d) (Good-weaken f size lo (k + length d) m (omega arith) g.4)
        (join_front-Fits f size lo k t d small g.0 g.3 l h)

  pub absorb-Absorbed :
      (m : Segments) (lo : ℕ) (t : Incoming)
      → Good f size lo m
      → Fits f size lo t
      → Absorbed f size lo (absorb m t)
  unfolding absorb
  absorb-Absorbed [] lo t g h = inr (h, h.0)
  absorb-Absorbed ((k, d) ∷ m) lo t g h =
      rw
        (absorb-cons (overlap t k (k + length d - 1)) k d m t
          (last_index k (length d) g.1 (omega arith)) refl)
        (absorb_by-Absorbed (overlap t k (k + length d - 1)) lo k d m t
          (overlap-Lies t k (k + length d - 1)) g h
          (λ lo' t' g' h'. absorb-Absorbed m lo' t' g' h'))

-- The loop erases segments and adds none.
pub total-absorb : (m : Segments) (t : Incoming) → total (absorb m t).0 ≤ total m
unfolding absorb total
total-absorb [] t = omega arith
total-absorb ((k, d) ∷ m) t = ground (
  arith,
  total-absorb m t,
  total-absorb m (record t { bytes = [] }),
  total-absorb m (join_tail t (sub64 (add64 k (length d)) 1) d),
  total-absorb m (join_front t k d),
)
