-- ===== src/ByteStream.antt =====
-- libsponge/byte_stream.hh and byte_stream.cc: a bounded FIFO of bytes with a writer and a reader side.
-- A byte is a number; `std::queue<char>` is a list, oldest byte first.
pub mod Laws
pub mod Fifo
mod Tests
use com_net_sponge.Prelude.{
  ℕ, zero, suc, ◌+◌, Bool, true, false, ◌&&◌, List, [], ◌∷◌, ◌++◌, leb, length, is_empty, min,
  if◌then◌else◌,
}
use com_net_sponge.Prelude.Words.{add64, sub64}

pub record ByteStream : Type 0 where
  pub buffer : List ℕ
  pub bytes_read : ℕ
  pub bytes_written : ℕ
  pub capacity : ℕ
  pub input_ended : Bool
  pub error : Bool

-- The constructor.
unfoldable pub new : ℕ → ByteStream
new cap = record {
  buffer = [];
  bytes_read = 0;
  bytes_written = 0;
  capacity = cap;
  input_ended = false;
  error = false;
}

-- The loop of `write`: the bytes still to write, the buffer, and the bytes written so far.
unfoldable pub write_loop : ℕ → List ℕ → List ℕ → ℕ → List ℕ × ℕ
write_loop cap buf [] n = (buf, n)
write_loop cap buf (ch ∷ rest) n =
    let next = write_loop cap (buf ++ (ch ∷ [])) rest (n + 1) in
    if leb cap (length buf) then (buf, n) else next

unfoldable pub write : ByteStream → List ℕ → ByteStream × ℕ
unfolding write_loop
write s bytes =
    let (buf, n) = write_loop s.capacity s.buffer bytes 0 in
    (record s { buffer = buf; bytes_written = add64 s.bytes_written n }, n)

-- The loop of `peek_output` over its copy of the queue, for `len - count` more rounds.
unfoldable pub peek_loop : ℕ → List ℕ → List ℕ
peek_loop zero tmp = []
peek_loop (suc n) [] = []
peek_loop (suc n) (c ∷ tmp) = c ∷ peek_loop n tmp

unfoldable pub peek_output : ByteStream → ℕ → List ℕ
unfolding peek_loop
peek_output s len = peek_loop len s.buffer

-- The loop of `pop_output`, for `actual_bytes_popped - count` more rounds.
unfoldable pub pop_loop : ℕ → List ℕ → List ℕ
pop_loop zero buf = buf
pop_loop (suc n) [] = []
pop_loop (suc n) (c ∷ buf) = pop_loop n buf

unfoldable pub pop_output : ByteStream → ℕ → ByteStream
unfolding pop_loop
pop_output s len =
    let n = min len (length s.buffer) in
    record s { buffer = pop_loop n s.buffer; bytes_read = add64 s.bytes_read n }

unfoldable pub read : ByteStream → ℕ → ByteStream × List ℕ
unfolding peek_output pop_output
read s len = let out = peek_output s len in (pop_output s (length out), out)

unfoldable pub end_input : ByteStream → ByteStream
end_input s = record s { input_ended = true }

unfoldable pub set_error : ByteStream → ByteStream
set_error s = record s { error = true }

unfoldable pub buffer_size : ByteStream → ℕ
buffer_size s = length s.buffer

unfoldable pub buffer_empty : ByteStream → Bool
buffer_empty s = is_empty s.buffer

unfoldable pub eof : ByteStream → Bool
unfolding buffer_empty
eof s = s.input_ended && buffer_empty s

unfoldable pub remaining_capacity : ByteStream → ℕ
remaining_capacity s = sub64 s.capacity (length s.buffer)
