-- ===== src/Reassembler/Assemble.antt =====
-- `try_assemble` of libsponge/stream_reassembler.cc, which walks a map that it changes, against a
-- recursive description of its effect. No iterator is used after its node is gone.
use com_net_sponge.Prelude.{
  ℕ, zero, suc, ◌+◌, ◌-◌, ◌≤◌, ◌<◌, ◌^◌, ◌≡◌, refl, sym, ap, ◌∙◌, List, [], ◌∷◌, ◌++◌, append_assoc,
  some, false, ltb, if◌then◌else◌, length, take_all, drop, is_empty, is_empty_iff, arith,
}
use com_net_sponge.Prelude.Words.{add64, sub64}
use com_net_sponge.Reassembler.SegmentMap.{Segments, begin, find, next, insert, total}
use com_net_sponge.Reassembler.{
  Reassembler, Incoming, truncate_data, absorb, store, insert_segment, assemble_step, assemble_from,
}
use com_net_sponge.Reassembler.Content.{Good, Good-weaken}
use com_net_sponge.Reassembler.Absorb.{absorb_past}
use com_net_sponge.Reassembler.Insert.{truncate_data_lem}

-- Segments with nothing below `fu`: those before it are dropped, one that spans it loses its front.
unfoldable pub trim : ℕ → Segments → Segments
trim fu [] = []
trim fu ((k, d) ∷ m) =
    if ltb k fu
    then (if ltb fu (k + length d) then (fu, drop (fu - k) d) ∷ m else trim fu m)
    else (k, d) ∷ m

module _ (f : ℕ → ℕ) (size : ℕ) where
  Good-mid-le :
      (pre : Segments) (lo k : ℕ) (d : List ℕ) (m : Segments)
      → Good f size lo (pre ++ ((k, d) ∷ m))
      → lo ≤ k
  Good-mid-le [] lo k d m g = g.0
  Good-mid-le ((j, c) ∷ pre) lo k d m g = omega (arith, Good-mid-le pre (j + length c) k d m g.4)

  pub find-mid :
      (pre : Segments) (lo k : ℕ) (d : List ℕ) (m : Segments)
      → Good f size lo (pre ++ ((k, d) ∷ m))
      → find k (pre ++ ((k, d) ∷ m)) ≡ some d
  unfolding find
  find-mid [] lo k d m g = ground arith
  find-mid ((j, c) ∷ pre) lo k d m g =
      ground
        (arith, Good-mid-le pre (j + length c) k d m g.4, find-mid pre (j + length c) k d m g.4)

  pub next-begin : (m : Segments) (lo k : ℕ) → k < lo → Good f size lo m → next k m ≡ begin m
  unfolding next begin
  next-begin [] lo k h g = refl
  next-begin ((j, c) ∷ m) lo k h g = ground arith

  next-mid :
      (pre : Segments) (lo k : ℕ) (d : List ℕ) (m : Segments)
      → Good f size lo (pre ++ ((k, d) ∷ m))
      → next k (pre ++ ((k, d) ∷ m)) ≡ begin m
  unfolding next
  next-mid [] lo k d m g = ground (arith, next-begin m (k + length d) k)
  next-mid ((j, c) ∷ pre) lo k d m g =
      ground
        (arith, Good-mid-le pre (j + length c) k d m g.4, next-mid pre (j + length c) k d m g.4)

-- A round at a node that is not below `first_unassembled` only moves on.
assemble_step_keeps :
    (s : Reassembler) (k : ℕ) (d : List ℕ)
    → s.first_unassembled ≤ k
    → assemble_step s k d ≡ (s, next k s.segments)
unfolding assemble_step
assemble_step_keeps s k d h = ground arith

module _ (f : ℕ → ℕ) (size : ℕ) where
  -- From a node on, nothing changes if no segment lies below `first_unassembled`.
  pub assemble_from_clean :
      (fuel : ℕ) (s : Reassembler) (pre m : Segments)
      → s.segments ≡ pre ++ m
      → Good f size s.first_unassembled (pre ++ m)
      → length m < fuel
      → assemble_from fuel s (begin m) ≡ some s
  unfolding assemble_from begin
  assemble_from_clean zero s pre m e g h = absurd (omega arith)
  assemble_from_clean (suc fuel) s pre [] e g h = refl
  assemble_from_clean (suc fuel) s pre ((k, d) ∷ m) e g h =
      let found : find k s.segments ≡ some d =
        ap (find k) e ∙ find-mid f size pre s.first_unassembled k d m g in
      let stay : assemble_step s k d ≡ (s, begin m) =
        assemble_step_keeps s k d (Good-mid-le f size pre s.first_unassembled k d m g)
        ∙ ap (λ it. (s, it)) (ap (next k) e ∙ next-mid f size pre s.first_unassembled k d m g) in
      let shift : (pre ++ ((k, d) ∷ [])) ++ m ≡ pre ++ ((k, d) ∷ m) =
        append_assoc pre ((k, d) ∷ []) m in
      rw (found, assemble_from)
        (rw stay (
          assemble_from_clean fuel s (pre ++ ((k, d) ∷ [])) m (e ∙ sym shift) (rw shift g)
            (omega arith)))

  insert_front :
      (m : Segments) (i : ℕ) (x : List ℕ)
      → Good f size (i + length x) m
      → 0 < length x
      → insert i x m ≡ (i, x) ∷ m
  unfolding insert
  insert_front [] i x g p = refl
  insert_front ((k, d) ∷ m) i x g p = ground arith

  -- An excerpt that starts at `first_unassembled`, before all stored segments, and for which there
  -- is room, is stored whole.
  pub insert_segment_front :
      (s : Reassembler) (x : List ℕ)
      → size < 2 ^ 64
      → s.capacity < 2 ^ 64
      → Good f size (s.first_unassembled + length x) s.segments
      → 0 < length x
      → s.first_unassembled + length x ≤ size
      → length s.output.buffer + (length x + total s.segments) ≤ s.capacity
      → s.output.bytes_read + s.capacity < 2 ^ 64
      → s.output.bytes_read + length s.output.buffer ≡ s.first_unassembled
      → insert_segment s x s.first_unassembled
        ≡ record s { segments = (s.first_unassembled, x) ∷ s.segments }
  unfolding insert_segment store
  insert_segment_front s x small cap_small g p b r w c =
      let t : Incoming = record {
        bytes = x;
        index = s.first_unassembled;
        last = sub64 (add64 s.first_unassembled (length x)) 1;
      } in
      let past : absorb s.segments t ≡ (s.segments, t) =
        absorb_past f size s.segments t small (omega arith) (
          Good-weaken f size (t.last + 1) (s.first_unassembled + length x) s.segments (omega arith)
            g) in
      let filled : is_empty x ≡ false = ground (arith, is_empty_iff x) in
      let cut : truncate_data s x s.first_unassembled ≡ x =
        truncate_data_lem s x s.first_unassembled (omega arith, cap_small)
        ∙ take_all _ x (omega arith) in
      rw (past, filled, cut, filled, insert_front s.segments s.first_unassembled x g p)
