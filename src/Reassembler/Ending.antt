-- ===== src/Reassembler/Ending.antt =====
-- The end of the output of libsponge/stream_reassembler.cc: the bytes that continue the output, and the
-- test that ends it exactly when the whole stream was put out.
use com_net_sponge.Prelude.{
  ℕ, ◌+◌, ◌-◌, ◌≤◌, ◌<◌, ◌^◌, ◌≡◌, ◌⊎◌, refl, sym, ap, subst, ◌∙◌, Bool, true, false, List, [], ◌∷◌,
  some, ◌==◌, ◌&&◌, if◌then◌else◌, is_empty, length, length-take, take, min, arith,
}
use com_net_sponge.Prelude.Words.{add64, sub64}
use com_net_sponge.ByteStream
use com_net_sponge.Reassembler.SegmentMap.{Segments}
use com_net_sponge.Reassembler.{Reassembler, empty, truncate_data, end_output, push_next, finish}
use com_net_sponge.Reassembler.Content.{Agrees, Good}
use com_net_sponge.Reassembler.Insert.{
  HasRoom, available, truncate_data_lem, truncate_data-Agrees, length-truncate_data,
}
use com_net_sponge.Reassembler.Valid.{IsSound, IsValid, Grown, write_whole, wrote, wrote-IsSound}
use com_net_sponge.Reassembler.Drain.{drain-Drained}

module _ (f : ℕ → ℕ) (size : ℕ) where
  pub has_room : {lo : ℕ} {s : Reassembler} → IsSound f size lo s → HasRoom s
  has_room v = (v.steady.fits, omega arith)

  -- The bytes that `push_next` writes: as many as there is room for beside the stored ones.
  next_bytes :
      (s : Reassembler) (x : List ℕ)
      → IsValid f size s
      → truncate_data s x s.first_unassembled ≡ take (min (length x) (available s)) x
  next_bytes s x v =
      let e : min
            (min (length x) (sub64 (add64 s.output.bytes_read s.capacity) s.first_unassembled))
            (available s)
          ≡ min (length x) (available s) =
        omega arith in
      truncate_data_lem s x s.first_unassembled (has_room v) ∙ ap (λ n. take n x) e

  -- Bytes that continue the output are written as far as there is room, then what is stored.
  pub push_next-Drained :
      (s : Reassembler) (x : List ℕ)
      → IsValid f size s
      → s.first_unassembled + length x ≤ size
      → Agrees f s.first_unassembled x
      → (s' : Reassembler) × (push_next s x ≡ some s')
        × IsValid f size s'
        × Grown s s'
        × (s.first_unassembled + min (length x) (available s) ≤ s'.first_unassembled)
  unfolding push_next
  push_next-Drained s x v b a =
      let y : List ℕ = truncate_data s x s.first_unassembled in
      let short : (length y ≤ available s) × (length y ≤ length x) =
        length-truncate_data s x s.first_unassembled (has_room v) in
      let (sound, e) =
        wrote-IsSound f size (s.first_unassembled + 1) (s.first_unassembled + 1) s y s.segments v
          v.steady.good (omega (arith, short)) (omega (arith, short))
          (truncate_data-Agrees f size s x s.first_unassembled (has_room v) a) in
      let (s', e', valid, more) =
        drain-Drained f size (length s.segments + 1) (s.first_unassembled + 1)
          (wrote s y s.segments) sound (omega arith) in
      rw (write_whole s.output y (omega (arith, short))) (
        s',
        e',
        valid,
        (omega arith, more.1, more.2, more.3, more.4),
        omega (arith, ap length (next_bytes s x v), length-take (min (length x) (available s)) x),
      )

  -- The invariant reads neither the end of the output nor the index of the end.
  pub marked-IsSound :
      (lo : ℕ) (s : Reassembler) (ended : Bool) (at_index : ℕ)
      → IsSound f size lo s
      → IsSound f size lo
          (record s { output = record (s.output) { input_ended = ended }; eof_index = at_index })
  marked-IsSound lo s ended at_index v = record {
    steady = record {
      good = v.steady.good;
      fits = v.steady.fits;
      count = v.steady.count;
      small = v.steady.small;
      window = v.steady.window;
    };
    buffered = v.buffered;
    written = v.written;
    same = v.same;
    inside = v.inside;
  }

  -- An end that is known is the end of the stream, and the output has ended exactly when the whole
  -- stream was put out and its end is known.
  pub record IsEnding (s : Reassembler) : Type 0 where
    pub known : (s.eof_index ≡ 2 ^ 64 - 1) ⊎ (s.eof_index ≡ size)
    pub ended : s.output.input_ended ≡ true → (s.eof_index ≡ size) × (s.first_unassembled ≡ size)
    pub complete : s.eof_index ≡ size → s.first_unassembled ≡ size → s.output.input_ended ≡ true

  -- The two conditions on a state before the last test of `push_substring`.
  abbrev pub Pending : Reassembler → Type 0
  Pending s =
      ((s.eof_index ≡ 2 ^ 64 - 1) ⊎ (s.eof_index ≡ size))
      × (s.output.input_ended ≡ true → (s.eof_index ≡ size) × (s.first_unassembled ≡ size))

  pub empty_at_end : (m : Segments) → Good f size (size + 1) m → is_empty m ≡ true
  empty_at_end [] g = refl
  empty_at_end ((k, d) ∷ m) g = absurd (omega arith)

  -- What the last test leaves alone.
  abbrev pub Same : Reassembler → Reassembler → Type 0
  Same s s' =
      (s'.first_unassembled ≡ s.first_unassembled)
      × (s'.capacity ≡ s.capacity)
      × (s'.output.bytes_read ≡ s.output.bytes_read)

  -- Any test that holds once the stream is complete ends the output at the right time.
  pub settle :
      (s : Reassembler) (test : Bool)
      → size < 2 ^ 64 - 1
      → IsValid f size s
      → (test ≡ true → s.eof_index ≤ s.first_unassembled)
      → (s.eof_index ≡ size → s.first_unassembled ≡ size → test ≡ true)
      → IsValid f size (if test then end_output s else s)
        × (Pending s → IsEnding (if test then end_output s else s))
        × Same s (if test then end_output s else s)
  unfolding end_output ByteStream.end_input
  settle s true b v only always = (
    marked-IsSound (s.first_unassembled + 1) s true s.eof_index v,
    λ p. record { known = p.0; ended = λ _. omega (arith, only refl, p.0); complete = λ _ _. refl },
    (refl, refl, refl),
  )
  settle s false b v only always = (
    v,
    λ p. record { known = p.0; ended = p.1; complete = λ e e'. cc (always e e') },
    (refl, refl, refl),
  )

  pub Grown-Pending :
      (s s' : Reassembler) → s'.first_unassembled ≤ size → Grown s s' → Pending s → Pending s'
  Grown-Pending s s' b more p = (
    rw (more.1) (p.0),
    λ e. let (at_end, done) = p.1 (sym more.4 ∙ e) in (more.1 ∙ at_end, omega arith),
  )

  pub settle-finish :
      (s : Reassembler)
      → size < 2 ^ 64 - 1
      → IsValid f size s
      → IsValid f size (finish s) × (Pending s → IsEnding (finish s)) × Same s (finish s)
  unfolding finish empty
  settle-finish s b v =
      settle s (is_empty s.segments && (s.first_unassembled == s.eof_index)) b v (λ e. ground arith)
        (λ e e'.
          let none_left : is_empty s.segments ≡ true =
            empty_at_end s.segments
              (subst (λ k. Good f size (k + 1) s.segments) e' v.steady.good) in
          rw none_left (ground arith))
