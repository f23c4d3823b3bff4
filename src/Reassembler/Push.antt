-- ===== src/Reassembler/Push.antt =====
-- `push_substring` of libsponge/stream_reassembler.cc: pushing true excerpts of a stream in any order
-- puts out exactly the stream, and the output ends exactly when all of it is there.
use com_net_sponge.Prelude.{
  ℕ, ◌+◌, ◌-◌, ◌≤◌, ◌<◌, ◌^◌, ◌≡◌, refl, subst, ◌∙◌, inl, inr, Bool, true, false, Bool-cases, List,
  Option, none, some, ltb, lt→ltb, dec_lt, leb, leb→le, ◌==◌, ◌&&◌, if◌then◌else◌, is_empty, length,
  length-drop, drop, min, arith,
}
use com_net_sponge.Prelude.Words.{add64, sub64}
use com_net_sponge.Reassembler.{
  Reassembler, empty, insert_segment, end_output, push_next, finish, push_at, push_substring,
}
use com_net_sponge.Reassembler.Content.{Agrees, Agrees-drop, Good}
use com_net_sponge.Reassembler.Insert.{available, insert_segment-Inserted}
use com_net_sponge.Reassembler.Valid.{IsValid}
use com_net_sponge.Reassembler.Ending.{
  push_next-Drained, settle-finish, settle, Grown-Pending, marked-IsSound, IsEnding, Pending, Same,
  has_room, empty_at_end,
}

module _ (f : ℕ → ℕ) (size : ℕ) where
  -- What a push does, with the condition for the right end kept by it: it returns a state, keeps the invariant, never steps back, and puts out the
  -- bytes that continue the output as far as there is room beside the stored ones.
  abbrev pub Pushed : Type 0 → Reassembler → List ℕ → ℕ → Option Reassembler → Type 0
  Pushed Before s bytes index r =
      (s' : Reassembler) × (r ≡ some s')
      × IsValid f size s'
      × (Before → IsEnding f size s')
      × (s.first_unassembled ≤ s'.first_unassembled)
      × (s'.capacity ≡ s.capacity)
      × (s'.output.bytes_read ≡ s.output.bytes_read)
      × (index ≤ s.first_unassembled
          → s.first_unassembled + min (index + length bytes - s.first_unassembled) (available s)
            ≤ s'.first_unassembled)

  -- The branch for bytes that continue the output.
  push_now :
      (s : Reassembler) (x : List ℕ)
      → size < 2 ^ 64 - 1
      → IsValid f size s
      → s.first_unassembled + length x ≤ size
      → Agrees f s.first_unassembled x
      → (s' : Reassembler) × (elim (push_next s x) [ none ↦ none | some s'' ↦ some (finish s'') ]
          ≡ some s')
        × IsValid f size s'
        × (Pending f size s → IsEnding f size s')
        × (s'.capacity ≡ s.capacity)
        × (s'.output.bytes_read ≡ s.output.bytes_read)
        × (s.first_unassembled + min (length x) (available s) ≤ s'.first_unassembled)
  push_now s x b v fit a =
      let (s', e, valid, more, advance) = push_next-Drained f size s x v fit a in
      let (valid', ending, same) = settle-finish f size s' b valid in
      rw e (
        finish s',
        refl,
        valid',
        (λ p. ending (Grown-Pending f size s s' valid.inside more p)),
        same.1 ∙ more.2,
        same.2 ∙ more.3,
        omega (arith, same.0, advance),
      )

  -- The branch for bytes beyond a gap.
  push_later :
      (s : Reassembler) (x : List ℕ) (index : ℕ)
      → size < 2 ^ 64 - 1
      → IsValid f size s
      → s.first_unassembled < index
      → 0 < length x
      → index + length x ≤ size
      → Agrees f index x
      → IsValid f size (finish (insert_segment s x index))
        × (Pending f size s → IsEnding f size (finish (insert_segment s x index)))
        × Same f size s (finish (insert_segment s x index))
  push_later s x index b v later some_bytes fit a =
      let (m, e, good, fits) =
        insert_segment-Inserted f size v.steady.small s (s.first_unassembled + 1) index x
          (has_room f size v) v.steady.good (omega arith) some_bytes fit a in
      rw e (
        settle-finish f size (record s { segments = m }) b
          (record {
            steady = record {
              good = good;
              fits = fits;
              count = v.steady.count;
              small = v.steady.small;
              window = v.steady.window;
            };
            buffered = v.buffered;
            written = v.written;
            same = v.same;
            inside = v.inside;
          }))

  -- The early return for bytes that were all put out before.
  push_old :
      (s : Reassembler) (bytes : List ℕ) (index : ℕ)
      → size < 2 ^ 64 - 1
      → IsValid f size s
      → length bytes ≤ s.first_unassembled - index
      → Pushed
          (Pending f size s)
          s
          bytes
          index
          (some (if empty s && leb s.eof_index s.first_unassembled then end_output s else s))
  unfolding empty
  push_old s bytes index b v old =
      let (valid, ending, same) =
        settle f size s (is_empty s.segments && leb s.eof_index s.first_unassembled) b v
          (λ e. ground arith)
          (λ e e'.
            let none_left : is_empty s.segments ≡ true =
              empty_at_end f size s.segments
                (subst (λ k. Good f size (k + 1) s.segments) e' v.steady.good) in
            rw none_left (ground arith)) in
      (
        if empty s && leb s.eof_index s.first_unassembled then end_output s else s,
        refl,
        valid,
        ending,
        omega (arith, same),
        same.1,
        same.2,
        λ h. omega (arith, same),
      )

  push_at-Pushed :
      (s : Reassembler) (bytes : List ℕ) (index : ℕ)
      → size < 2 ^ 64 - 1
      → IsValid f size s
      → index + length bytes ≤ size
      → Agrees f index bytes
      → Pushed (Pending f size s) s bytes index (push_at s bytes index)
  unfolding push_at
  push_at-Pushed s bytes index b v fit a =
      rw start (elim (Bool-cases (leb (length bytes) (s.first_unassembled - index))) [
        | inl old ↦ rw old (push_old s bytes index b v (leb→le _ _ old))
        | inr fresh ↦ rw fresh (elim (dec_lt s.first_unassembled index) [
          | yes later ↦
              let none_old : s.first_unassembled - index ≡ 0 = omega arith in
              let place : add64 index 0 ≡ index = omega arith in
              let ne : (index == s.first_unassembled) ≡ false = ground arith in
              let (valid, ending, same) = push_later s bytes index b v later (ground arith) fit a in
              rw (none_old, place, ne, lt→ltb s.first_unassembled index later)
                (
                  finish (insert_segment s bytes index),
                  refl,
                  valid,
                  ending,
                  omega (arith, same),
                  same.1,
                  same.2,
                  λ h. absurd (omega arith),
                )
          | no now ↦
              let place : add64 index (s.first_unassembled - index) ≡ s.first_unassembled =
                omega arith in
              let eq : (s.first_unassembled == s.first_unassembled) ≡ true = ground arith in
              let len : length (drop (s.first_unassembled - index) bytes)
                  ≡ length bytes - (s.first_unassembled - index) =
                length-drop (s.first_unassembled - index) bytes in
              let (s', e, valid, ending, cap_same, read_same, advance) =
                push_now s (drop (s.first_unassembled - index) bytes) b v (omega arith) (
                  Agrees-drop f (s.first_unassembled - index) index s.first_unassembled bytes
                    (omega arith) a) in
              rw (place, eq)
                (
                  s',
                  e,
                  valid,
                  ending,
                  omega (arith, advance),
                  cap_same,
                  read_same,
                  λ h. omega (arith, advance, len),
                )
        ])
      ])
    where
      start :
          (if ltb index s.first_unassembled then sub64 s.first_unassembled index else 0)
          ≡ s.first_unassembled - index
      start = ground arith

  -- A push of an excerpt of the stream returns and keeps the invariant, and it keeps the right end if
  -- only the end of the stream is flagged as one.
  pub push_substring-Pushed :
      (s : Reassembler) (bytes : List ℕ) (index : ℕ) (eof : Bool)
      → size < 2 ^ 64 - 1
      → IsValid f size s
      → index + length bytes ≤ size
      → Agrees f index bytes
      → Pushed
          (IsEnding f size s × (eof ≡ true → index + length bytes ≡ size))
          s
          bytes
          index
          (push_substring s bytes index eof)
  unfolding push_substring
  push_substring-Pushed s bytes index true b v fit a =
      let (s', e, valid, ending, grown, cap_same, read_same, advance) =
        push_at-Pushed (record s { eof_index = add64 index (length bytes) }) bytes index b
          (marked-IsSound f size (s.first_unassembled + 1) s s.output.input_ended
            (add64 index (length bytes)) v)
          fit a in
      (s', e, valid, (λ h. ending (marked h)), grown, cap_same, read_same, advance)
    where
      marked :
          IsEnding f size s × (true ≡ true → index + length bytes ≡ size)
          → Pending f size (record s { eof_index = add64 index (length bytes) })
      marked h =
          let at_end : add64 index (length bytes) ≡ size = omega (arith, h.1 refl) in
          (inr at_end, λ e. (at_end, (h.0.ended e).1))
  push_substring-Pushed s bytes index false b v fit a =
      let (s', e, valid, ending, grown, cap_same, read_same, advance) =
        push_at-Pushed s bytes index b v fit a in
      (s', e, valid, (λ h. ending (h.0.known, h.0.ended)), grown, cap_same, read_same, advance)

  -- An excerpt of the stream that starts no later than the next byte to put out is taken without fault,
  -- and the output grows by all its new bytes, as far as there is room beside the buffered and the
  -- stored ones; the state stays valid.
  pub push_substring_advances :
      (s : Reassembler) (bytes : List ℕ) (index : ℕ) (eof : Bool)
      → size < 2 ^ 64 - 1
      → IsValid f size s
      → index + length bytes ≤ size
      → Agrees f index bytes
      → index ≤ s.first_unassembled
      → (s' : Reassembler) × (push_substring s bytes index eof ≡ some s')
        × IsValid f size s'
        × (s.first_unassembled + min (index + length bytes - s.first_unassembled) (available s)
            ≤ s'.first_unassembled)
  push_substring_advances s bytes index eof b v fit a early =
      let (s', e, valid, ending, grown, cap_same, read_same, advance) =
        push_substring-Pushed s bytes index eof b v fit a in
      (s', e, valid, advance early)
