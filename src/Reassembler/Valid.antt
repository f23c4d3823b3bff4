-- ===== src/Reassembler/Valid.antt =====
-- The invariant of libsponge/stream_reassembler.cc between calls of `push_substring`, and the steps
-- that write to the output.
use com_net_sponge.Prelude.{
  ℕ, ◌+◌, ◌≤◌, ◌≡◌, List, ◌++◌, length, length-append, take_all, min, arith,
}
use com_net_sponge.Prelude.Words.{add64}
use com_net_sponge.ByteStream
use com_net_sponge.ByteStream.{ByteStream}
use com_net_sponge.ByteStream.Laws.{room, write_lem}
use com_net_sponge.Reassembler.SegmentMap.{Segments, total}
use com_net_sponge.Reassembler.{Reassembler}
use com_net_sponge.Reassembler.Content.{Agrees, Agrees-append, Good}
use com_net_sponge.Reassembler.Trim.{IsSteady}

-- The stored segments start at `lo` or later; the output holds the bytes of the stream from
-- `bytes_read` up to `first_unassembled`.
pub record IsSound (f : ℕ → ℕ) (size lo : ℕ) (s : Reassembler) : Type 0 where
  pub steady : IsSteady f size lo s
  pub buffered : Agrees f s.output.bytes_read s.output.buffer
  pub written : s.output.bytes_written ≡ s.first_unassembled
  pub same : s.output.capacity ≡ s.capacity
  pub inside : s.first_unassembled ≤ size

-- Between calls every stored segment lies beyond the next byte to write.
abbrev pub IsValid : (ℕ → ℕ) → ℕ → Reassembler → Type 0
IsValid f size s = IsSound f size (s.first_unassembled + 1) s

-- A state after more of the stream was written out.
abbrev pub Grown : Reassembler → Reassembler → Type 0
Grown s s' =
    (s.first_unassembled ≤ s'.first_unassembled)
    × (s'.eof_index ≡ s.eof_index)
    × (s'.capacity ≡ s.capacity)
    × (s'.output.bytes_read ≡ s.output.bytes_read)
    × (s'.output.input_ended ≡ s.output.input_ended)

pub write_whole :
    (s : ByteStream) (bytes : List ℕ)
    → length bytes ≤ room s
    → ByteStream.write s bytes ≡ (
      record s { buffer = s.buffer ++ bytes; bytes_written = add64 s.bytes_written (length bytes) },
      length bytes,
    )
write_whole s bytes h =
    let all : min (length bytes) (room s) ≡ length bytes = omega arith in
    rw (write_lem s bytes, take_all (room s) bytes h, all)

-- The state after `x` went to the output and `m` is left to assemble.
abbrev pub wrote : Reassembler → List ℕ → Segments → Reassembler
wrote s x m = record s {
  output = record (s.output) {
    buffer = s.output.buffer ++ x;
    bytes_written = add64 s.output.bytes_written (length x);
  };
  first_unassembled = add64 s.first_unassembled (length x);
  segments = m;
}

module _ (f : ℕ → ℕ) (size : ℕ) where
  -- Writing the next bytes of the stream keeps the invariant.
  pub wrote-IsSound :
      (lo lo' : ℕ) (s : Reassembler) (x : List ℕ) (m : Segments)
      → IsSound f size lo s
      → Good f size lo' m
      → length s.output.buffer + length x + total m ≤ s.capacity
      → s.first_unassembled + length x ≤ size
      → Agrees f s.first_unassembled x
      → IsSound f size lo' (wrote s x m)
        × (add64 s.first_unassembled (length x) ≡ s.first_unassembled + length x)
  wrote-IsSound lo lo' s x m v g r b a =
      let len : length (s.output.buffer ++ x) ≡ length s.output.buffer + length x =
        length-append s.output.buffer x in
      (
        record {
          steady = record {
            good = g;
            fits = omega arith;
            count = omega arith;
            small = v.steady.small;
            window = v.steady.window;
          };
          buffered =
              Agrees-append f s.output.bytes_read s.first_unassembled s.output.buffer x
                v.steady.count v.buffered a;
          written = omega arith;
          same = v.same;
          inside = omega arith;
        },
        omega arith,
      )
