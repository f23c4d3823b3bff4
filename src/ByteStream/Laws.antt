-- ===== src/ByteStream/Laws.antt =====
-- libsponge/byte_stream.cc: what the loops of `write`, `peek_output` and `pop_output` compute.
use com_net_sponge.Prelude.{
  ℕ, zero, suc, ◌+◌, ◌-◌, ◌≡◌, refl, List, [], ◌∷◌, ◌++◌, append-nil, append_assoc, ap, length,
  length-append, length-take, take, drop, take-nil, take-zero, take-cons, drop-min, min, arith,
}
use com_net_sponge.Prelude.Words.{add64}
use com_net_sponge.ByteStream.{
  ByteStream, write_loop, write, peek_loop, peek_output, pop_loop, pop_output, read,
}

pub write_loop_lem :
    (cap : ℕ) (buf bytes : List ℕ) (n : ℕ)
    → write_loop cap buf bytes n
      ≡ (buf ++ take (cap - length buf) bytes, n + min (length bytes) (cap - length buf))
unfolding write_loop
write_loop_lem cap buf [] n = ground (arith, take-nil {A = ℕ} (cap - length buf), append-nil buf)
write_loop_lem cap buf (ch ∷ rest) n = ground (
  arith,
  append-nil buf,
  length-append buf (ch ∷ []),
  take-zero (cap - length buf) (ch ∷ rest),
  take-cons (cap - length buf) ch rest,
  append_assoc buf (ch ∷ []) (take (cap - length buf - 1) rest),
  write_loop_lem cap (buf ++ (ch ∷ [])) rest (n + 1),
)

pub peek_loop_lem : (n : ℕ) (xs : List ℕ) → peek_loop n xs ≡ take n xs
unfolding peek_loop
peek_loop_lem zero xs = refl
peek_loop_lem (suc n) [] = refl
peek_loop_lem (suc n) (x ∷ xs) = rw (peek_loop_lem n xs)

pub pop_loop_lem : (n : ℕ) (xs : List ℕ) → pop_loop n xs ≡ drop n xs
unfolding pop_loop
pop_loop_lem zero xs = refl
pop_loop_lem (suc n) [] = refl
pop_loop_lem (suc n) (x ∷ xs) = pop_loop_lem n xs

-- The room that is left for the writer.
abbrev pub room : ByteStream → ℕ
room s = s.capacity - length s.buffer

-- What `write` does: it appends as many bytes as there is room for, in order, and counts them.
pub write_lem :
    (s : ByteStream) (bytes : List ℕ)
    → write s bytes ≡ (
      record s {
        buffer = s.buffer ++ take (room s) bytes;
        bytes_written = add64 s.bytes_written (min (length bytes) (room s));
      },
      min (length bytes) (room s),
    )
unfolding write
write_lem s bytes = rw (write_loop_lem s.capacity s.buffer bytes 0) (ground arith)

pub peek_output_lem : (s : ByteStream) (n : ℕ) → peek_output s n ≡ take n s.buffer
unfolding peek_output
peek_output_lem s n = peek_loop_lem n s.buffer

pub pop_output_lem :
    (s : ByteStream) (n : ℕ)
    → pop_output s n ≡ record s {
      buffer = drop n s.buffer;
      bytes_read = add64 s.bytes_read (min n (length s.buffer));
    }
unfolding pop_output
pop_output_lem s n = rw (pop_loop_lem (min n (length s.buffer)) s.buffer, drop-min n s.buffer) refl

pop_output-min : (s : ByteStream) (n : ℕ) → pop_output s (min n (length s.buffer)) ≡ pop_output s n
unfolding pop_output
pop_output-min s n =
    let e : min (min n (length s.buffer)) (length s.buffer) ≡ min n (length s.buffer) =
      omega arith in
    rw e

-- `read` returns what `peek_output` shows, and removes exactly that.
pub read_lem : (s : ByteStream) (n : ℕ) → read s n ≡ (pop_output s n, take n s.buffer)
unfolding read
read_lem s n =
    rw (peek_output_lem s n)
      (rw (length-take n s.buffer) (ap (λ t. (t, take n s.buffer)) (pop_output-min s n)))
