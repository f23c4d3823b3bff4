-- ===== src/Reassembler/Tests.antt =====
-- Runs of libsponge/stream_reassembler.cc at small inputs.
use com_net_sponge.Prelude.{
  ℕ, ◌+◌, ◌≤◌, ◌≡◌, ◌↔◌, ◌^◌, ◌-◌, refl, true, false, List, [], ◌∷◌, ◌++◌, some, length, min, arith,
}
use com_net_sponge.Reassembler.{Reassembler, new, push_substring}
use com_net_sponge.Reassembler.SegmentMap.{total}
use com_net_sponge.Reassembler.Content.{Agrees}
use com_net_sponge.Reassembler.Insert.{available}
use com_net_sponge.Reassembler.Valid.{IsValid}
use com_net_sponge.Reassembler.Push.{push_substring_advances}
use com_net_sponge.Reassembler.History.{Event, pushed, reads, run, run-new-IsPrefix}

-- The stream whose byte at each index is the index.
abbrev pub indices : ℕ → ℕ
indices i = i

-- Two bytes were put out and one of them read; bytes 4 and 5 wait for byte 2 and 3.
abbrev pub waiting : Reassembler
waiting = record {
  output = record {
    buffer = 1 ∷ [];
    bytes_read = 1;
    bytes_written = 2;
    capacity = 8;
    input_ended = false;
    error = false;
  };
  capacity = 8;
  segments = (4, 4 ∷ 5 ∷ []) ∷ [];
  first_unassembled = 2;
  eof_index = 2 ^ 64 - 1;
}

pub waiting-IsValid : IsValid indices 100 waiting
unfolding total
waiting-IsValid = record {
  steady = record {
    good = (omega arith, omega arith, omega arith, (refl, (refl, tt)), tt);
    fits = omega arith;
    count = omega arith;
    small = omega arith;
    window = omega arith;
  };
  buffered = (refl, tt);
  written = refl;
  same = refl;
  inside = omega arith;
}

abbrev history : List Event
history =
    pushed (2 ∷ 3 ∷ []) 2 true
    ∷ pushed (1 ∷ 2 ∷ []) 1 false
    ∷ pushed (0 ∷ 1 ∷ []) 0 false
    ∷ reads 3
    ∷ []

run-new-IsPrefix_example :
    (s : Reassembler) × (got : List ℕ) × (run (new 8, []) history ≡ some (s, got))
    × Agrees indices 0 (got ++ s.output.buffer)
    × (length (got ++ s.output.buffer) ≡ s.first_unassembled)
    × (length s.output.buffer + total s.segments ≤ s.capacity)
    × ((s.output.input_ended ≡ true) ↔ ((s.eof_index ≡ 4) × (s.first_unassembled ≡ 4)))
run-new-IsPrefix_example = run-new-IsPrefix indices 4 8 history (omega arith) (omega arith) (
  omega arith,
  (refl, (refl, tt)),
  (λ _. refl),
  (omega arith, (refl, (refl, tt)), (λ e. cc), (omega arith, (refl, (refl, tt)), (λ e. cc), tt)),
)

push_substring_advances_example :
    (s' : Reassembler) × (push_substring waiting (2 ∷ 3 ∷ []) 2 false ≡ some s')
    × IsValid indices 100 s'
    × (2 + min 2 (available waiting) ≤ s'.first_unassembled)
unfolding total
push_substring_advances_example =
    push_substring_advances indices 100 waiting (2 ∷ 3 ∷ []) 2 false (omega arith) waiting-IsValid
      (omega arith) (refl, (refl, tt)) (omega arith)
