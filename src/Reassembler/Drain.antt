-- ===== src/Reassembler/Drain.antt =====
-- The `while (true)` loop of `push_substring` in libsponge/stream_reassembler.cc: it ends within its
-- fuel, writes stored bytes in order, and leaves nothing stored at the next index.
use native.Mathlib.Nat.{le_refl, le_trans}
use com_net_sponge.Prelude.{
  ℕ_discrete, ℕ, zero, suc, ◌+◌, ◌≤◌, ◌<◌, ◌≡◌, refl, sym, ap, subst, inl, inr, ◌⊎◌, List, [], ◌∷◌,
  Option, none, some, length, arith,
}
use com_net_sponge.Reassembler.SegmentMap.{Segments, find, erase, total}
use com_net_sponge.Reassembler.{Reassembler, flush, drain}
use com_net_sponge.Reassembler.Content.{Good}
use com_net_sponge.Reassembler.Assemble.{trim, find-mid}
use com_net_sponge.Reassembler.Trim.{try_assemble_lem, trim-Good, trim_small}
use com_net_sponge.Reassembler.Valid.{IsSound, IsValid, Grown, write_whole, wrote, wrote-IsSound}

module _ (f : ℕ → ℕ) (size : ℕ) where
  pub find_above : (m : Segments) (lo i : ℕ) → i < lo → Good f size lo m → find i m ≡ none
  unfolding find
  find_above [] lo i h g = refl
  find_above ((k, d) ∷ m) lo i h g = ground (arith, find_above m (k + length d) i)

  -- The state behind the trimmed segments: the first of them is at `first_unassembled`, or none is.
  head_cases :
      (m : Segments) (fu : ℕ)
      → Good f size fu m
      → (Good f size (fu + 1) m) ⊎ ((d : List ℕ) × (rest : Segments) × (m ≡ (fu, d) ∷ rest))
  head_cases [] fu g = inl tt
  head_cases ((k, d) ∷ m) fu g = elim (ℕ_discrete k fu) [
    | yes e ↦ inr (d, m, rw e)
    | no ne ↦ inl (ground arith, g.1, g.2, g.3, g.4)
  ]

  -- `flush` writes a first segment at `first_unassembled` whole, and erases it.
  flush_lem :
      (s : Reassembler) (d : List ℕ) (rest : Segments)
      → IsSound f size s.first_unassembled (record s { segments = (s.first_unassembled, d) ∷ rest })
      → flush (record s { segments = (s.first_unassembled, d) ∷ rest }) d ≡ wrote s d rest
  unfolding flush erase total
  flush_lem s d rest v = rw (write_whole s.output d (omega arith)) (ground arith)

  -- The loop behind `try_assemble`, on the segments that it leaves.
  abbrev round : ℕ → Reassembler → Segments → Option Reassembler
  round fuel s m = elim (find s.first_unassembled m) [
    | none ↦ some (record s { segments = m })
    | some d ↦ drain fuel (flush (record s { segments = m }) d)
  ]

  -- What the loop returns.
  abbrev pub Drained : Reassembler → Option Reassembler → Type 0
  Drained s r = (s' : Reassembler) × (r ≡ some s') × IsValid f size s' × Grown s s'

  -- After a flush the rest of the map is still to be assembled.
  flushed-IsSound :
      (s : Reassembler) (d : List ℕ) (rest : Segments)
      → IsSound f size s.first_unassembled (record s { segments = (s.first_unassembled, d) ∷ rest })
      → IsSound f size (wrote s d rest).first_unassembled (wrote s d rest)
        × (s.first_unassembled ≤ (wrote s d rest).first_unassembled)
  unfolding total
  flushed-IsSound s d rest v =
      let (sound, e) =
        wrote-IsSound f size s.first_unassembled (s.first_unassembled + length d)
          (record s { segments = (s.first_unassembled, d) ∷ rest }) d rest v v.steady.good.4
          (omega arith) v.steady.good.2 v.steady.good.3 in
      (subst (λ k. IsSound f size k (wrote s d rest)) (sym e) sound, omega arith)

  trimmed-IsSound :
      (s : Reassembler) (lo : ℕ)
      → IsSound f size lo s
      → IsSound f size s.first_unassembled
          (record s { segments = trim s.first_unassembled s.segments })
  trimmed-IsSound s lo v = record {
    steady = record {
      good = trim-Good f size s.segments s.first_unassembled lo v.steady.good;
      fits = omega (arith, trim_small s.segments s.first_unassembled);
      count = v.steady.count;
      small = v.steady.small;
      window = v.steady.window;
    };
    buffered = v.buffered;
    written = v.written;
    same = v.same;
    inside = v.inside;
  }

  -- The round that writes a segment.
  drain_found :
      (fuel : ℕ) (s : Reassembler) (d : List ℕ) (rest : Segments)
      → IsSound f size s.first_unassembled (record s { segments = (s.first_unassembled, d) ∷ rest })
      → ((s' : Reassembler)
          → IsSound f size s'.first_unassembled s'
          → length s'.segments ≤ length rest
          → Drained s' (drain fuel s'))
      → Drained s (round fuel s ((s.first_unassembled, d) ∷ rest))
  drain_found fuel s d rest v ih =
      let (sound, grown) = flushed-IsSound s d rest v in
      let (s', e, valid, more) = ih (wrote s d rest) sound (le_refl (length rest)) in
      let found : find s.first_unassembled ((s.first_unassembled, d) ∷ rest) ≡ some d =
        find-mid f size [] s.first_unassembled s.first_unassembled d rest v.steady.good in
      rw (found, round, flush_lem s d rest v)
        (s', e, valid, (le_trans grown more.0, more.1, more.2, more.3, more.4))

  -- One round behind `try_assemble`, given the loop for shorter maps.
  drain-round :
      (fuel : ℕ) (s : Reassembler) (m : Segments)
      → IsSound f size s.first_unassembled (record s { segments = m })
      → ((s' : Reassembler)
          → IsSound f size s'.first_unassembled s'
          → length s'.segments < length m
          → Drained s' (drain fuel s'))
      → Drained s (round fuel s m)
  drain-round fuel s m v ih = elim (head_cases m s.first_unassembled v.steady.good) [
    | inl g ↦
        rw (find_above m (s.first_unassembled + 1) s.first_unassembled (omega arith) g, round)
          (
            record s { segments = m },
            refl,
            record {
              steady = record {
                good = g;
                fits = v.steady.fits;
                count = v.steady.count;
                small = v.steady.small;
                window = v.steady.window;
              };
              buffered = v.buffered;
              written = v.written;
              same = v.same;
              inside = v.inside;
            },
            (le_refl s.first_unassembled, refl, refl, refl, refl),
          )
    | inr (d, rest, e) ↦
        subst (λ k. Drained s (round fuel s k)) (sym e)
          (drain_found fuel s d rest
            (subst (λ k. IsSound f size s.first_unassembled (record s { segments = k })) e v)
            (λ s' v' h'. ih s' v' (omega (arith, ap length e))))
  ]

  pub drain-Drained :
      (fuel lo : ℕ) (s : Reassembler)
      → IsSound f size lo s
      → length s.segments < fuel
      → Drained s (drain fuel s)
  unfolding drain
  drain-Drained zero lo s v h = absurd (omega arith)
  drain-Drained (suc fuel) lo s v h =
      rw (try_assemble_lem f size lo s v.steady, drain)
        (drain-round fuel s (trim s.first_unassembled s.segments) (trimmed-IsSound s lo v)
          λ s' v' h'.
            drain-Drained fuel s'.first_unassembled s' v'
              (omega (arith, trim_small s.segments s.first_unassembled)))
