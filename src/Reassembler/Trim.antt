-- ===== src/Reassembler/Trim.antt =====
-- `try_assemble` of libsponge/stream_reassembler.cc does what `trim` describes, within its fuel and
-- with no use of an iterator whose node is gone.
use com_net_sponge.Prelude.{
  ℕ, zero, suc, ◌+◌, ◌-◌, ◌≤◌, ◌<◌, ◌^◌, ◌≡◌, inl, inr, refl, List, [], ◌∷◌, some, Bool-cases, ltb,
  if◌then◌else◌, length, length-drop, drop, arith,
}
use native.Mathlib.Nat.{le_refl}
use com_net_sponge.Prelude.Words.{sub64}
use com_net_sponge.Reassembler.SegmentMap.{Segments, begin, find, next, erase, total}
use com_net_sponge.Reassembler.{
  Reassembler, insert_segment, assemble_step, assemble_from, try_assemble,
}
use com_net_sponge.Reassembler.Content.{Agrees-drop, Good, Good-weaken}
use com_net_sponge.Reassembler.Assemble.{
  trim, find-mid, next-begin, assemble_from_clean, insert_segment_front,
}

-- The facts about a state that `try_assemble` needs and keeps: the segments are disjoint excerpts of
-- the stream, everything fits the capacity, and no index overflows.
pub record IsSteady (f : ℕ → ℕ) (size lo : ℕ) (s : Reassembler) : Type 0 where
  pub good : Good f size lo s.segments
  pub fits : length s.output.buffer + total s.segments ≤ s.capacity
  pub count : s.output.bytes_read + length s.output.buffer ≡ s.first_unassembled
  pub small : size < 2 ^ 64
  pub window : s.output.bytes_read + s.capacity < 2 ^ 64

-- A round at a first node below `first_unassembled`.
assemble_step_drops :
    (s : Reassembler) (k : ℕ) (d : List ℕ) (m : Segments)
    → k < s.first_unassembled
    → k + length d < 2 ^ 64
    → s.first_unassembled < 2 ^ 64
    → assemble_step (record s { segments = (k, d) ∷ m }) k d ≡ (
      if ltb s.first_unassembled (k + length d)
          then insert_segment
              (record s { segments = m })
              (drop (s.first_unassembled - k) d)
              s.first_unassembled
          else record s { segments = m },
      next k m,
    )
unfolding assemble_step erase next
assemble_step_drops s k d m h b c =
    let cut : sub64 s.first_unassembled k ≡ s.first_unassembled - k = omega arith in
    rw (← cut) (ground arith)

module _ (f : ℕ → ℕ) (size : ℕ) where
  -- A first segment that spans `first_unassembled` loses its front, and the walk goes on behind it.
  assemble_from_span :
      (fuel lo k : ℕ) (d : List ℕ) (m : Segments) (s : Reassembler)
      → IsSteady f size lo (record s { segments = (k, d) ∷ m })
      → k < s.first_unassembled
      → s.first_unassembled < k + length d
      → length m < fuel
      → assemble_from fuel
          (insert_segment
            (record s { segments = m })
            (drop (s.first_unassembled - k) d)
            s.first_unassembled)
          (begin m)
        ≡ some (record s { segments = (s.first_unassembled, drop (s.first_unassembled - k) d) ∷ m })
  unfolding total
  assemble_from_span fuel lo k d m s v below spans h =
      rw
        (insert_segment_front f size (record s { segments = m }) x v.small (omega arith)
          (Good-weaken f size (fu + length x) (k + length d) m (omega (arith, len)) v.good.4)
          (omega (arith, len)) (omega (arith, len)) (omega (arith, len)) v.window v.count)
        (assemble_from_clean f size fuel (record s { segments = (fu, x) ∷ m }) ((fu, x) ∷ []) m refl
          (
            le_refl fu,
            omega (arith, len),
            omega (arith, len),
            Agrees-drop f (fu - k) k fu d (omega arith) v.good.3,
            Good-weaken f size (fu + length x) (k + length d) m (omega (arith, len)) v.good.4,
          )
          h)
    where
      fu : ℕ
      fu = s.first_unassembled

      x : List ℕ
      x = drop (fu - k) d

      len : length x ≡ length d - (fu - k)
      len = length-drop (fu - k) d

  assemble_from-trim :
      (m : Segments) (fuel lo : ℕ) (s : Reassembler)
      → IsSteady f size lo (record s { segments = m })
      → length m < fuel
      → assemble_from fuel (record s { segments = m }) (begin m)
        ≡ some (record s { segments = trim s.first_unassembled m })
  unfolding assemble_from begin trim total
  assemble_from-trim m zero lo s v h = absurd (omega arith)
  assemble_from-trim [] (suc fuel) lo s v h = refl
  assemble_from-trim ((k, d) ∷ m) (suc fuel) lo s v h =
      elim (Bool-cases (ltb k s.first_unassembled)) [
        | inr above ↦ rw above (
            assemble_from_clean f size (suc fuel) (record s { segments = (k, d) ∷ m }) []
              ((k, d) ∷ m) refl (ground arith, v.good.1, v.good.2, v.good.3, v.good.4) h)
        | inl below ↦
            rw (below, here, assemble_from)
              (rw (assemble_step_drops s k d m (ground arith) (omega arith) (omega arith), onward)
                (elim (Bool-cases (ltb s.first_unassembled (k + length d))) [
                  | inl spans ↦ rw spans (
                      assemble_from_span fuel lo k d m s v (ground arith) (ground arith)
                        (omega arith))
                  | inr gone ↦ rw gone (
                      assemble_from-trim m fuel (k + length d) s
                        (record {
                          good = v.good.4;
                          fits = omega arith;
                          count = v.count;
                          small = v.small;
                          window = v.window;
                        })
                        (omega arith))
                ]))
      ]
    where
      here : find k ((k, d) ∷ m) ≡ some d
      here = find-mid f size [] lo k d m v.good

      onward : next k m ≡ begin m
      onward = next-begin f size m (k + length d) k (omega arith) v.good.4

  -- In a steady state `try_assemble` ends, and does what `trim` describes.
  pub try_assemble_lem :
      (lo : ℕ) (s : Reassembler)
      → IsSteady f size lo s
      → try_assemble s ≡ some (record s { segments = trim s.first_unassembled s.segments })
  unfolding try_assemble
  try_assemble_lem lo s v = assemble_from-trim s.segments _ lo s v (omega arith)

  pub trim-Good : (m : Segments) (fu lo : ℕ) → Good f size lo m → Good f size fu (trim fu m)
  unfolding trim
  trim-Good [] fu lo g = tt
  trim-Good ((k, d) ∷ m) fu lo g = elim (Bool-cases (ltb k fu)) [
    | inr above ↦ rw above (ground arith, g.1, g.2, g.3, g.4)
    | inl below ↦ rw below (elim (Bool-cases (ltb fu (k + length d))) [
      | inr gone ↦ rw gone (trim-Good m fu (k + length d) g.4)
      | inl spans ↦
          let spans' : fu < k + length d = ground arith in
          let below' : k < fu = ground arith in
          let len : length (drop (fu - k) d) ≡ length d - (fu - k) = length-drop (fu - k) d in
          rw spans (
            le_refl fu,
            omega arith,
            omega arith,
            Agrees-drop f (fu - k) k fu d (omega arith) g.3,
            Good-weaken f size (fu + length (drop (fu - k) d)) (k + length d) m (omega arith) g.4,
          )
    ])
  ]

-- `trim` adds no bytes and no segments.
pub trim_small :
    (m : Segments) (fu : ℕ) → (total (trim fu m) ≤ total m) × (length (trim fu m) ≤ length m)
unfolding trim total
trim_small [] fu = omega arith
trim_small ((k, d) ∷ m) fu = ground (arith, trim_small m fu, length-drop (fu - k) d)
