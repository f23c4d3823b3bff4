-- ===== src/Reassembler/History.antt =====
-- Whole histories of libsponge/stream_reassembler.cc: excerpts of one stream are pushed in any order,
-- with overlaps and repetitions, while the reader takes bytes from the output.
use com_net_sponge.Prelude.{
  ℕ, ◌+◌, ◌-◌, ◌≤◌, ◌<◌, ◌^◌, ◌≡◌, ◌↔◌, refl, sym, subst, ◌∙◌, inl, Bool, true, List, [], ◌∷◌, ◌++◌,
  Option, none, some, length, length-append, length-take, length-drop, take, drop-min, min, arith,
}
use com_net_sponge.Prelude.Words.{add64}
use com_net_sponge.ByteStream
use com_net_sponge.ByteStream.Laws.{pop_output_lem, read_lem}
use com_net_sponge.Reassembler.{Reassembler, new, push_substring}
use com_net_sponge.Reassembler.SegmentMap.{total}
use com_net_sponge.Reassembler.Content.{Agrees, Agrees-append, Agrees-take, Agrees-drop}
use com_net_sponge.Reassembler.Valid.{IsValid}
use com_net_sponge.Reassembler.Ending.{IsEnding}
use com_net_sponge.Reassembler.Push.{push_substring-Pushed}

-- A call of `push_substring`, or of `stream_out().read`.
pub data Event : Type 0 where
  pushed : List ℕ → ℕ → Bool → Event
  reads : ℕ → Event

-- The reader's side of the output.
unfoldable pub read_output : Reassembler → ℕ → Reassembler × List ℕ
read_output s n =
    let (out, bytes) = ByteStream.read s.output n in (record s { output = out }, bytes)

-- The events in turn; beside the state, all that was read so far.
unfoldable pub run : Reassembler × List ℕ → List Event → Option (Reassembler × List ℕ)
run (s, got) [] = some (s, got)
run (s, got) (pushed bytes index eof ∷ events) = elim (push_substring s bytes index eof) [
  | none ↦ none
  | some s' ↦ run (s', got) events
]
run (s, got) (reads n ∷ events) = let (s', bytes) = read_output s n in run (s', got ++ bytes) events

module _ (f : ℕ → ℕ) (size : ℕ) where
  -- The pushes are true: excerpts of the stream, marked as its end only where it ends.
  abbrev pub IsTrue : List Event → Type 0
  IsTrue [] = Unit {0}
  IsTrue (pushed bytes index eof ∷ events) =
      (index + length bytes ≤ size)
      × Agrees f index bytes
      × (eof ≡ true → index + length bytes ≡ size)
      × IsTrue events
  IsTrue (reads n ∷ events) = IsTrue events

  -- What the reader has, and the output's buffer behind it, is the stream up to `first_unassembled`.
  pub record IsPrefix (s : Reassembler) (got : List ℕ) : Type 0 where
    pub valid : IsValid f size s
    pub ending : IsEnding f size s
    pub taken : Agrees f 0 got
    pub counted : length got ≡ s.output.bytes_read

  -- The reader's bytes leave the output.
  pub popped-IsValid :
      (s : Reassembler) (n : ℕ)
      → size + s.capacity < 2 ^ 64
      → IsValid f size s
      → IsValid f size (record s { output = ByteStream.pop_output s.output n })
  popped-IsValid s n b v = rw (pop_output_lem s.output n) (record {
    steady = record {
      good = v.steady.good;
      fits = omega (arith, length-drop n s.output.buffer);
      count = omega (arith, length-drop n s.output.buffer);
      small = v.steady.small;
      window = omega arith;
    };
    buffered =
        subst (λ d. Agrees f (add64 s.output.bytes_read (min n (length s.output.buffer))) d)
          (drop-min n s.output.buffer)
          (Agrees-drop f (min n (length s.output.buffer)) s.output.bytes_read _ s.output.buffer
            (omega arith) v.buffered);
    written = v.written;
    same = v.same;
    inside = v.inside;
  })

  read_output-IsPrefix :
      (s : Reassembler) (got : List ℕ) (n : ℕ)
      → size + s.capacity < 2 ^ 64
      → IsPrefix s got
      → IsPrefix (read_output s n).0 (got ++ (read_output s n).1)
        × ((read_output s n).0.capacity ≡ s.capacity)
  unfolding read_output
  read_output-IsPrefix s got n b v =
      rw (read_lem s.output n, pop_output_lem s.output n)
        (
          record {
            valid = rw (← pop_output_lem s.output n) (popped-IsValid s n b v.valid);
            ending = record {
              known = v.ending.known;
              ended = v.ending.ended;
              complete = v.ending.complete;
            };
            taken =
                Agrees-append f 0 s.output.bytes_read got (take n s.output.buffer) (omega arith)
                  v.taken (Agrees-take f n s.output.bytes_read s.output.buffer v.valid.buffered);
            counted =
                omega (
                  arith,
                  length-append got (take n s.output.buffer),
                  length-take n s.output.buffer,
                );
          },
          refl,
        )

  pub new-IsPrefix :
      (capacity : ℕ) → size < 2 ^ 64 - 1 → size + capacity < 2 ^ 64 → IsPrefix (new capacity) []
  unfolding new ByteStream.new total
  new-IsPrefix capacity b w = record {
    valid = record {
      steady = record {
        good = tt;
        fits = omega arith;
        count = omega arith;
        small = omega arith;
        window = omega arith;
      };
      buffered = tt;
      written = refl;
      same = refl;
      inside = omega arith;
    };
    ending = record { known = inl refl; ended = λ e. cc; complete = λ e. absurd (omega arith) };
    taken = tt;
    counted = refl;
  }

  run-IsPrefix :
      (s : Reassembler) (got : List ℕ) (events : List Event)
      → size < 2 ^ 64 - 1
      → size + s.capacity < 2 ^ 64
      → IsTrue events
      → IsPrefix s got
      → (s' : Reassembler) × (got' : List ℕ) × (run (s, got) events ≡ some (s', got'))
        × IsPrefix s' got'
  unfolding run
  run-IsPrefix s got [] b w t v = (s, got, refl, v)
  run-IsPrefix s got (reads n ∷ events) b w t v =
      let (v', same) = read_output-IsPrefix s got n w v in
      run-IsPrefix (read_output s n).0 (got ++ (read_output s n).1) events b (rw same w) t v'
  run-IsPrefix s got (pushed bytes index eof ∷ events) b w t v =
      let (s', e, valid, ending, grown, cap_same, read_same, advance) =
        push_substring-Pushed f size s bytes index eof b v.valid t.0 t.1 in
      rw (e, run)
        (run-IsPrefix s' got events b (rw cap_same w) t.3 (record {
          valid = valid;
          ending = ending (v.ending, t.2);
          taken = v.taken;
          counted = v.counted ∙ sym read_same;
        }))

  -- From an empty reassembler, after any true pushes and any reads: every call returned; the bytes
  -- read, followed by those buffered in the output, are the first `first_unassembled` bytes of the
  -- stream; buffered and stored bytes stay within the capacity; and the output has ended exactly when
  -- the end is known and the whole stream was put out.
  pub run-new-IsPrefix :
      (capacity : ℕ) (events : List Event)
      → size < 2 ^ 64 - 1
      → size + capacity < 2 ^ 64
      → IsTrue events
      → (s : Reassembler) × (got : List ℕ) × (run (new capacity, []) events ≡ some (s, got))
        × Agrees f 0 (got ++ s.output.buffer)
        × (length (got ++ s.output.buffer) ≡ s.first_unassembled)
        × (length s.output.buffer + total s.segments ≤ s.capacity)
        × ((s.output.input_ended ≡ true) ↔ ((s.eof_index ≡ size) × (s.first_unassembled ≡ size)))
  unfolding new
  run-new-IsPrefix capacity events b w t =
      let (s, got, e, v) =
        run-IsPrefix (new capacity) [] events b w t (new-IsPrefix capacity b w) in
      (
        s,
        got,
        e,
        Agrees-append f 0 s.output.bytes_read got s.output.buffer (omega (arith, v.counted)) v.taken
            v.valid.buffered,
        omega (arith, length-append got s.output.buffer, v.counted, v.valid.steady.count),
        v.valid.steady.fits,
        (v.ending.ended, λ h. v.ending.complete h.0 h.1),
      )
