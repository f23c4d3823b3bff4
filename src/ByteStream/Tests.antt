-- ===== src/ByteStream/Tests.antt =====
-- Runs of libsponge/byte_stream.cc at small inputs.
use com_net_sponge.Prelude.{◌≡◌, refl, true, false, List, [], ◌∷◌}
use com_net_sponge.ByteStream.{ByteStream, write, new}
use com_net_sponge.ByteStream.Fifo.{
  Op, write_op, read_op, pop_op, end_op, run, fresh, IsFifo, run-fresh-IsFifo,
}

abbrev ended : ByteStream
ended = record {
  buffer = [];
  bytes_read = 2;
  bytes_written = 2;
  capacity = 4;
  input_ended = true;
  error = false;
}

abbrev calls : List Op
calls = write_op (1 ∷ 2 ∷ 3 ∷ []) ∷ read_op 1 ∷ write_op (4 ∷ []) ∷ pop_op 2 ∷ end_op ∷ []

cut_short : (write (new 2) (7 ∷ 8 ∷ 9 ∷ [])).1 ≡ 2
unfolding write new
cut_short = refl

run-fresh-IsFifo_example : IsFifo (run (fresh 2) calls)
run-fresh-IsFifo_example = run-fresh-IsFifo 2 calls
