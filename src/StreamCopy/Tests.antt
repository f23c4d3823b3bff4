-- ===== src/StreamCopy/Tests.antt =====
-- Runs of apps/bidirectional_stream_copy.cc.
use com_net_sponge.Prelude.{ℕ, ◌≡◌, refl, true, false, List, [], ◌∷◌}
use com_net_sponge.EventLoop
use com_net_sponge.FileDescriptor
use com_net_sponge.Buffer.{remove_view_prefix, view_size, view_size_loop}
use com_net_sponge.EventLoop.{PollAnswer, Revents, nothing_reported, reported}
use com_net_sponge.FileDescriptor.{FdWrapper, returned, gave}
use com_net_sponge.StreamCopy.{Copy, CopyResult, going, bidirectional_stream_copy}
use com_net_sponge.StreamCopy
use com_net_sponge.StreamCopy.Laws.{Kept, CopyHolds, copied}
use com_net_sponge.ByteStream

abbrev descriptor : ℕ → FdWrapper
descriptor n = record { fd = n; eof = false; closed = false; read_count = 0; write_count = 0 }

-- The user types two bytes and then ends the input; the socket takes one byte at a time.
abbrev at_start : Copy
at_start = record {
  input = descriptor 0;
  output = descriptor 1;
  socket = descriptor 3;
  outbound = ByteStream.new 0;
  inbound = ByteStream.new 0;
  outbound_shutdown = false;
  inbound_shutdown = false;
  input_reads = gave (65 ∷ 66 ∷ []) ∷ gave [] ∷ [];
  socket_reads = [];
  socket_writes = returned 1 ∷ returned 1 ∷ [];
  output_writes = [];
  socket_shutdowns = returned 0 ∷ [];
  output_closes = [];
  typed = [];
  sent = [];
  heard = [];
  shown = [];
}

abbrev readable : Revents
readable = record nothing_reported { readable = true }

abbrev writable : Revents
writable = record nothing_reported { writable = true }

abbrev polls : List PollAnswer
polls =
    reported (readable ∷ nothing_reported ∷ nothing_reported ∷ nothing_reported ∷ [])
    ∷ reported (readable ∷ writable ∷ nothing_reported ∷ nothing_reported ∷ [])
    ∷ reported (writable ∷ nothing_reported ∷ nothing_reported ∷ [])
    ∷ []

sent_of : CopyResult → List ℕ
sent_of (StreamCopy.returned s) = s.sent
sent_of (going s) = s.sent
sent_of StreamCopy.left_by_exception = []

both_sent : sent_of (bidirectional_stream_copy polls at_start) ≡ 65 ∷ 66 ∷ []
unfolding sent_of bidirectional_stream_copy EventLoop.set_up EventLoop.defunct
    EventLoop.something_to_poll EventLoop.asked EventLoop.pollfd_of EventLoop.polled EventLoop.serve
    EventLoop.wait_next_event EventLoop.turn EventLoop.at_eof EventLoop.call EventLoop.count_of
    EventLoop.first_report EventLoop.later_reports EventLoop.ready EventLoop.rules_of
    EventLoop.service_count FileDescriptor.shut FileDescriptor.shutdown FileDescriptor.system_call
    FileDescriptor.write FileDescriptor.write_loop FileDescriptor.read FileDescriptor.read_bytes
    FileDescriptor.register_read FileDescriptor.register_write ByteStream.new
    ByteStream.remaining_capacity ByteStream.buffer_empty ByteStream.buffer_size
    ByteStream.end_input ByteStream.eof ByteStream.peek_loop ByteStream.peek_output
    ByteStream.pop_loop ByteStream.pop_output ByteStream.write ByteStream.write_loop
    StreamCopy.copy_loop StreamCopy.input_rule StreamCopy.socket_out_rule StreamCopy.socket_in_rule
    StreamCopy.output_rule StreamCopy.wants_bytes StreamCopy.has_bytes StreamCopy.drain
    StreamCopy.end_outbound StreamCopy.fill EventLoop.is_exit StreamCopy.read_input
    StreamCopy.shut_socket StreamCopy.write_socket StreamCopy.written remove_view_prefix view_size
    view_size_loop
both_sent = refl

copied_example : CopyHolds Kept (bidirectional_stream_copy polls at_start)
copied_example = copied polls at_start refl refl refl refl
