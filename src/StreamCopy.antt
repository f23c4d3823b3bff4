-- ===== src/StreamCopy.antt =====
-- apps/bidirectional_stream_copy.cc: bytes are copied from the standard input to a socket, and from the
-- socket to the standard output, by four rules of an event loop. The answers of the system stand in the
-- state, and a call with no answer left throws. `none` is an exception.
mod Flow
mod Laws
mod Tests
use com_net_sponge.Prelude.{
  ℕ, Bool, true, false, not, ◌&&◌, ◌||◌, ltb, if◌then◌else◌, List, [], ◌∷◌, ◌++◌, min, Option, none,
  some,
}
use com_net_sponge.ByteStream
use com_net_sponge.ByteStream.{ByteStream}
use com_net_sponge.EventLoop.{
  is_exit, Rule, direction_in, direction_out, PollAnswer, Result, success, timeout, exit,
  wait_next_event,
}
use com_net_sponge.FileDescriptor
use com_net_sponge.FileDescriptor.{
  FdWrapper, Answer, ReadAnswer, WriteResult, wrote, threw, blocked, shut_wr,
}

abbrev pub max_copy_length : ℕ
max_copy_length = 65536

abbrev pub buffer_capacity : ℕ
buffer_capacity = 1048576

-- The variables that the rules share, the answers that are left, and what was read and written so far.
pub record Copy : Type 0 where
  pub input : FdWrapper
  pub output : FdWrapper
  pub socket : FdWrapper
  pub outbound : ByteStream
  pub inbound : ByteStream
  pub outbound_shutdown : Bool
  pub inbound_shutdown : Bool
  pub input_reads : List ReadAnswer
  pub socket_reads : List ReadAnswer
  pub socket_writes : List Answer
  pub output_writes : List Answer
  pub socket_shutdowns : List Answer
  pub output_closes : List Answer
  pub typed : List ℕ
  pub sent : List ℕ
  pub heard : List ℕ
  pub shown : List ℕ

-- A read into a stream, which is ended at the end of the source: with the answers left, what was read.
unfoldable pub fill :
    FdWrapper
    → ByteStream
    → List ReadAnswer
    → Option (FdWrapper × ByteStream × List ReadAnswer × List ℕ)
fill f b [] = none
fill f b (answer ∷ answers) =
    elim (FileDescriptor.read f (ByteStream.remaining_capacity b) answer) [
      | none ↦ none
      | some (f', bytes) ↦
          let b' : ByteStream = (ByteStream.write b bytes).0 in
          some (f', if f'.eof then ByteStream.end_input b' else b', answers, bytes)
    ]

-- The write of the front of a stream: with the answers left, what was written.
unfoldable pub written :
    ByteStream → List Answer → WriteResult → Option (FdWrapper × ByteStream × List Answer × List ℕ)
written b answers (wrote f out n) = some (f, ByteStream.pop_output b n, answers, out)
written b answers (threw f out) = none
written b answers (blocked f out) = none

unfoldable pub drain :
    FdWrapper → ByteStream → List Answer → Option (FdWrapper × ByteStream × List Answer × List ℕ)
drain f b [] = none
drain f b (answer ∷ answers) =
    let bytes_to_write : ℕ = min max_copy_length (ByteStream.buffer_size b) in
    written b answers
      (FileDescriptor.write f (ByteStream.peek_output b bytes_to_write) false (answer ∷ []))

unfoldable pub read_input : Copy → Option Copy
read_input s = elim (fill s.input s.outbound s.input_reads) [
  | none ↦ none
  | some (f, b, answers, bytes) ↦
      some (record s { input = f; outbound = b; input_reads = answers; typed = s.typed ++ bytes })
]

-- The end of rule 2.
unfoldable pub shut_socket : Copy → Option Copy
shut_socket s =
    if ByteStream.eof s.outbound
    then elim s.socket_shutdowns [
      | [] ↦ none
      | answer ∷ answers ↦ elim (FileDescriptor.shutdown s.socket shut_wr answer) [
        | none ↦ none
        | some f ↦
            some (record s { socket = f; socket_shutdowns = answers; outbound_shutdown = true })
      ]
    ]
    else some s

unfoldable pub write_socket : Copy → Option Copy
write_socket s = elim (drain s.socket s.outbound s.socket_writes) [
  | none ↦ none
  | some (f, b, answers, bytes) ↦
      shut_socket
        (record s { socket = f; outbound = b; socket_writes = answers; sent = s.sent ++ bytes })
]

unfoldable pub read_socket : Copy → Option Copy
read_socket s = elim (fill s.socket s.inbound s.socket_reads) [
  | none ↦ none
  | some (f, b, answers, bytes) ↦
      some (record s { socket = f; inbound = b; socket_reads = answers; heard = s.heard ++ bytes })
]

-- The end of rule 4.
unfoldable pub close_output : Copy → Option Copy
close_output s =
    if ByteStream.eof s.inbound
    then elim s.output_closes [
      | [] ↦ none
      | answer ∷ answers ↦ elim (FileDescriptor.close s.output answer) [
        | none ↦ none
        | some f ↦ some (record s { output = f; output_closes = answers; inbound_shutdown = true })
      ]
    ]
    else some s

unfoldable pub write_output : Copy → Option Copy
write_output s = elim (drain s.output s.inbound s.output_writes) [
  | none ↦ none
  | some (f, b, answers, bytes) ↦
      close_output
        (record s { output = f; inbound = b; output_writes = answers; shown = s.shown ++ bytes })
]

-- When there is room in one stream, and neither has failed; and when there is something to pass on.
unfoldable pub wants_bytes : ByteStream → ByteStream → Bool
wants_bytes b other = not b.error && ltb 0 (ByteStream.remaining_capacity b) && not other.error

unfoldable pub has_bytes : ByteStream → Bool → Bool
has_bytes b is_shut = not (ByteStream.buffer_empty b) || (ByteStream.eof b && not is_shut)

unfoldable pub end_outbound : Copy → Option Copy
end_outbound s = some (record s { outbound = ByteStream.end_input s.outbound })

unfoldable pub end_inbound : Copy → Option Copy
end_inbound s = some (record s { inbound = ByteStream.end_input s.inbound })

unfoldable pub input_rule : Rule Copy
input_rule = record {
  fd = λ s. s.input;
  direction = direction_in;
  callback = read_input;
  interest = λ s. wants_bytes s.outbound s.inbound;
  cancel = end_outbound;
}

unfoldable pub socket_out_rule : Rule Copy
socket_out_rule = record {
  fd = λ s. s.socket;
  direction = direction_out;
  callback = write_socket;
  interest = λ s. has_bytes s.outbound s.outbound_shutdown;
  cancel = end_outbound;
}

unfoldable pub socket_in_rule : Rule Copy
socket_in_rule = record {
  fd = λ s. s.socket;
  direction = direction_in;
  callback = read_socket;
  interest = λ s. wants_bytes s.inbound s.outbound;
  cancel = end_inbound;
}

unfoldable pub output_rule : Rule Copy
output_rule = record {
  fd = λ s. s.output;
  direction = direction_out;
  callback = write_output;
  interest = λ s. has_bytes s.inbound s.inbound_shutdown;
  cancel = end_inbound;
}

abbrev pub copy_rules : List (Rule Copy)
copy_rules = input_rule ∷ socket_out_rule ∷ socket_in_rule ∷ output_rule ∷ []

-- How the loop stands after some polls.
pub data CopyResult : Type 0 where
  returned going : Copy → CopyResult
  left_by_exception : CopyResult

unfoldable pub copy_loop : List PollAnswer → List (Rule Copy) → Copy → CopyResult
copy_loop [] rules s = going s
copy_loop (answer ∷ polls) rules s = elim (wait_next_event rules answer s) [
  | none ↦ left_by_exception
  | some (result, s', rules') ↦ elim (is_exit result) [
    | true ↦ returned s'
    | false ↦ copy_loop polls rules' s'
  ]
]

-- `bidirectional_stream_copy`, with the variables as they are at its start.
unfoldable pub bidirectional_stream_copy : List PollAnswer → Copy → CopyResult
bidirectional_stream_copy polls s = copy_loop polls copy_rules (record s {
  outbound = ByteStream.new buffer_capacity;
  inbound = ByteStream.new buffer_capacity;
  outbound_shutdown = false;
  inbound_shutdown = false;
})
