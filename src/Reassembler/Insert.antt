-- ===== src/Reassembler/Insert.antt =====
-- `truncate_data` and `insert_segment` of libsponge/stream_reassembler.cc on disjoint excerpts of a
-- stream that fit the capacity.
use com_net_sponge.Prelude.{
  ℕ, ◌+◌, ◌-◌, ◌≤◌, ◌<◌, ◌^◌, ◌≡◌, inl, inr, List, [], ◌∷◌, length, length-take, take, min,
  is_empty, is_empty_iff, Bool-cases, arith,
}
use com_net_sponge.Prelude.Words.{add64, sub64}
use com_net_sponge.ByteStream
use com_net_sponge.Reassembler.SegmentMap.{Segments, insert, total}
use com_net_sponge.Reassembler.{
  Reassembler, Incoming, unassembled_bytes, truncate_data, absorb, store, insert_segment,
}
use com_net_sponge.Reassembler.Content.{Agrees, Agrees-take, Good, Good-weaken, Gap, sum_sizes_lem}
use com_net_sponge.Reassembler.Absorb.{Absorbed, Fits-of}
use com_net_sponge.Reassembler.AbsorbAll.{absorb-Absorbed, total-absorb}

-- The buffered and the stored bytes together stay within the capacity.
abbrev pub HasRoom : Reassembler → Type 0
HasRoom s = (length s.output.buffer + total s.segments ≤ s.capacity) × (s.capacity < 2 ^ 64)

-- The bytes that still fit.
abbrev pub available : Reassembler → ℕ
available s = s.capacity - length s.output.buffer - total s.segments

pub unassembled_bytes_lem : (s : Reassembler) → HasRoom s → unassembled_bytes s ≡ total s.segments
unfolding unassembled_bytes
unassembled_bytes_lem s r = omega (arith, sum_sizes_lem s.segments 0 (omega arith))

pub truncate_data_lem :
    (s : Reassembler) (bytes : List ℕ) (index : ℕ)
    → HasRoom s
    → truncate_data s bytes index
      ≡ take
          (min
            (min (length bytes) (sub64 (add64 s.output.bytes_read s.capacity) index))
            (available s))
          bytes
unfolding truncate_data ByteStream.buffer_size
truncate_data_lem s bytes index r =
    let e : sub64 (sub64 s.capacity (length s.output.buffer)) (unassembled_bytes s) ≡ available s =
      omega (arith, unassembled_bytes_lem s r) in
    rw e

module _ (f : ℕ → ℕ) (size : ℕ) where
  pub insert-Good :
      (m : Segments) (lo a b : ℕ) (x : List ℕ)
      → Gap f size a b lo m
      → 0 < length x
      → a + length x ≤ b
      → a + length x ≤ size
      → Agrees f a x
      → Good f size lo (insert a x m)
  unfolding insert
  insert-Good [] lo a b x g p h s ag = (g, p, s, ag, tt)
  insert-Good ((k, d) ∷ m) lo a b x (inl g) p h s ag =
      let ih = insert-Good m (k + length d) a b x g.5 p h s ag in ground arith
  insert-Good ((k, d) ∷ m) lo a b x (inr g) p h s ag = ground arith

  pub Gap-Good : (m : Segments) (lo a b : ℕ) → a ≤ b → Gap f size a b lo m → Good f size lo m
  Gap-Good [] lo a b le g = tt
  Gap-Good ((k, d) ∷ m) lo a b le (inl g) =
      (g.0, g.2, g.3, g.4, Gap-Good m (k + length d) a b le g.5)
  Gap-Good ((k, d) ∷ m) lo a b le (inr g) = Good-weaken f size lo b ((k, d) ∷ m) (omega arith) g.1

  pub truncate_data-Agrees :
      (s : Reassembler) (bytes : List ℕ) (index : ℕ)
      → HasRoom s
      → Agrees f index bytes
      → Agrees f index (truncate_data s bytes index)
  truncate_data-Agrees s bytes index r a =
      rw (truncate_data_lem s bytes index r) (Agrees-take f _ index bytes a)

pub length-truncate_data :
    (s : Reassembler) (bytes : List ℕ) (index : ℕ)
    → HasRoom s
    → (length (truncate_data s bytes index) ≤ available s)
      × (length (truncate_data s bytes index) ≤ length bytes)
length-truncate_data s bytes index r =
    rw (truncate_data_lem s bytes index r)
      (omega (arith, length-take {0} {A = ℕ}), omega (arith, length-take {0} {A = ℕ}))

pub total-insert : (m : Segments) (a : ℕ) (x : List ℕ) → total (insert a x m) ≤ length x + total m
unfolding insert total
total-insert [] a x = omega arith
total-insert ((k, d) ∷ m) a x = ground (arith, total-insert m a x)

-- What `insert_segment` leaves: a state that differs in the segments alone, which are good and fit.
abbrev pub Inserted : (ℕ → ℕ) → ℕ → ℕ → Reassembler → Reassembler → Type 0
Inserted f size lo s s' =
    (m : Segments) × (s' ≡ record s { segments = m })
    × Good f size lo m
    × (length s.output.buffer + total m ≤ s.capacity)

module _ (f : ℕ → ℕ) (size : ℕ) (small : size < 2 ^ 64) where
  store-Inserted :
      (s : Reassembler) (lo : ℕ) (t : Incoming)
      → HasRoom s
      → Absorbed f size lo (s.segments, t)
      → Inserted f size lo s (store s t)
  unfolding store
  store-Inserted s lo t r (inl (e, g)) = (s.segments, rw e, g, r.0)
  store-Inserted s lo t r (inr (h, g)) = elim (Bool-cases (is_empty cut)) [
    | inl e ↦ (s.segments, ground (arith, e), whole, r.0)
    | inr e ↦ (
      insert t.index cut s.segments,
      ground (arith, e, is_empty_iff t.bytes),
      insert-Good f size s.segments lo t.index (t.index + length t.bytes) cut g
          (ground (arith, is_empty_iff cut)) (omega (arith, short)) (omega (arith, short))
          (truncate_data-Agrees f size s t.bytes t.index r h.4),
      omega (arith, total-insert s.segments t.index cut, short),
    )
  ]
    where
      cut : List ℕ
      cut = truncate_data s t.bytes t.index

      short : (length cut ≤ available s) × (length cut ≤ length t.bytes)
      short = length-truncate_data s t.bytes t.index r

      whole : Good f size lo s.segments
      whole = Gap-Good f size s.segments lo t.index (t.index + length t.bytes) (omega arith) g

  -- Storing an excerpt of the stream keeps the stored segments disjoint excerpts within the capacity.
  pub insert_segment-Inserted :
      (s : Reassembler) (lo index : ℕ) (bytes : List ℕ)
      → HasRoom s
      → Good f size lo s.segments
      → lo ≤ index
      → 0 < length bytes
      → index + length bytes ≤ size
      → Agrees f index bytes
      → Inserted f size lo s (insert_segment s bytes index)
  unfolding insert_segment
  insert_segment-Inserted s lo index bytes r g l p b a =
      let t : Incoming = record {
        bytes = bytes;
        index = index;
        last = sub64 (add64 index (length bytes)) 1;
      } in
      store-Inserted (record s { segments = (absorb s.segments t).0 }) lo (absorb s.segments t).1
        (omega (arith, total-absorb s.segments t))
        (absorb-Absorbed f size small s.segments lo t g
          (Fits-of f size lo index bytes small l p b a))
