-- ===== src/ByteStream/Fifo.antt =====
-- libsponge/byte_stream.cc against an unbounded log: which bytes went in and which came out.
use com_net_sponge.Prelude.{
  ℕ, ◌%◌, ◌^◌, ◌≤◌, ◌<◌, ◌≡◌, refl, ap, sym, ◌∙◌, List, [], ◌∷◌, ◌++◌, append_assoc, length,
  length-append, length-take, length-drop, take, drop, take-append-drop, take-min, take-cons,
  is_empty_iff, true, false, arith,
}
use com_net_sponge.ByteStream.{
  ByteStream, new, write, peek_output, pop_output, read, eof, end_input, set_error,
}
use com_net_sponge.ByteStream.Laws.{room, write_lem, peek_output_lem, pop_output_lem, read_lem}

-- A call of the writer or of the reader.
pub data Op : Type 0 where
  write_op : List ℕ → Op
  read_op : ℕ → Op
  pop_op : ℕ → Op
  end_op : Op
  error_op : Op

-- A stream with the bytes that it has accepted and the bytes that have left it, oldest first.
pub record Logged : Type 0 where
  pub stream : ByteStream
  pub taken : List ℕ
  pub given : List ℕ

pub step : Logged → Op → Logged
step l (write_op bytes) =
    let (s, n) = write l.stream bytes in record l { stream = s; taken = l.taken ++ take n bytes }
step l (read_op n) =
    let (s, out) = read l.stream n in record l { stream = s; given = l.given ++ out }
step l (pop_op n) = record l {
  stream = pop_output l.stream n;
  given = l.given ++ peek_output l.stream n;
}
step l end_op = record l { stream = end_input l.stream }
step l error_op = record l { stream = set_error l.stream }

pub run : Logged → List Op → Logged
run l [] = l
run l (op ∷ ops) = run (step l op) ops

-- What was accepted is what left, then what is buffered; the counters count both, modulo 2 ^ 64.
pub record IsFifo (l : Logged) : Type 0 where
  pub order : l.taken ≡ l.given ++ l.stream.buffer
  pub written : l.stream.bytes_written ≡ length l.taken % 2 ^ 64
  pub left : l.stream.bytes_read ≡ length l.given % 2 ^ 64
  pub bounded : length l.stream.buffer ≤ l.stream.capacity

abbrev pub fresh : ℕ → Logged
fresh capacity = record { stream = new capacity; taken = []; given = [] }

write-IsFifo : (l : Logged) (bytes : List ℕ) → IsFifo l → IsFifo (step l (write_op bytes))
unfolding step
write-IsFifo l bytes v =
    rw (write_lem l.stream bytes, take-min (room l.stream) bytes)
      (record {
        order = rw v.order (append_assoc l.given l.stream.buffer (take (room l.stream) bytes));
        written = omega (
          arith,
          length-append l.taken (take (room l.stream) bytes),
          length-take (room l.stream) bytes,
        );
        left = v.left;
        bounded = omega (
          arith,
          length-append l.stream.buffer (take (room l.stream) bytes),
          length-take (room l.stream) bytes,
        );
      })

-- The bytes that `pop_output s n` removes join those that have left.
pop-IsFifo :
    (l : Logged) (n : ℕ)
    → IsFifo l
    → IsFifo
        (record l { stream = pop_output l.stream n; given = l.given ++ take n l.stream.buffer })
pop-IsFifo l n v = rw (pop_output_lem l.stream n) (record {
  order =
      v.order
      ∙ ap (λ r. l.given ++ r) (sym (take-append-drop n l.stream.buffer))
      ∙ sym (append_assoc l.given (take n l.stream.buffer) (drop n l.stream.buffer));
  written = v.written;
  left =
      omega (arith, length-append l.given (take n l.stream.buffer), length-take n l.stream.buffer);
  bounded = omega (arith, length-drop n l.stream.buffer);
})

step-IsFifo : (l : Logged) (op : Op) → IsFifo l → IsFifo (step l op)
unfolding step end_input set_error
step-IsFifo l (write_op bytes) v = write-IsFifo l bytes v
step-IsFifo l (read_op n) v = rw (read_lem l.stream n) (pop-IsFifo l n v)
step-IsFifo l (pop_op n) v = rw (peek_output_lem l.stream n) (pop-IsFifo l n v)
step-IsFifo l end_op v = record {
  order = v.order;
  written = v.written;
  left = v.left;
  bounded = v.bounded;
}
step-IsFifo l error_op v = record {
  order = v.order;
  written = v.written;
  left = v.left;
  bounded = v.bounded;
}

run-IsFifo : (l : Logged) (ops : List Op) → IsFifo l → IsFifo (run l ops)
unfolding run
run-IsFifo l [] v = v
run-IsFifo l (op ∷ ops) v = run-IsFifo (step l op) ops (step-IsFifo l op v)

fresh-IsFifo : (capacity : ℕ) → IsFifo (fresh capacity)
unfolding new
fresh-IsFifo capacity = record { order = refl; written = refl; left = refl; bounded = omega arith }

-- After any sequence of calls on a new stream, the bytes accepted by `write` are, in order, the bytes
-- that left through `read` and `pop_output` followed by the buffered ones; `bytes_written` and
-- `bytes_read` count them modulo 2 ^ 64, and the buffer never exceeds the capacity.
pub run-fresh-IsFifo : (capacity : ℕ) (ops : List Op) → IsFifo (run (fresh capacity) ops)
run-fresh-IsFifo capacity ops = run-IsFifo (fresh capacity) ops (fresh-IsFifo capacity)

-- A stream that is at its end accepts more bytes: while there is room, `write` with a byte to write
-- stores at least one, and the stream is no longer at its end.
pub write-eof :
    (s : ByteStream) (b : ℕ) (bytes : List ℕ)
    → eof s ≡ true
    → 0 < s.capacity
    → (0 < (write s (b ∷ bytes)).1) × (eof (write s (b ∷ bytes)).0 ≡ false)
unfolding eof
write-eof s b bytes h room_left =
    let none_left : length s.buffer ≡ 0 = ground (arith, is_empty_iff s.buffer) in
    rw (write_lem s (b ∷ bytes), take-cons (room s) b bytes (omega arith))
      (omega arith, ground arith)
