-- ===== src/SpongeSocket.antt =====
-- libsponge/tcp_helpers/tcp_sponge_socket.hh and tcp_sponge_socket.cc: the thread that joins a connection,
-- an adapter and a local socket by an event loop. The template's adapter is a parameter; the answers of the
-- system to the calls on the local socket stand in the state, and a call with no answer left throws, as a
-- call that would block does there. `none` is an exception. What only prints is left out.
pub mod Loop
pub mod Rules
pub mod Inbound
pub mod Session
pub mod Ending
pub mod Tun
mod Tests
use com_net_sponge.Prelude.{
  ℕ, Bool, true, false, not, ◌&&◌, ◌||◌, ltb, ◌==◌, if◌then◌else◌, List, [], ◌∷◌, ◌++◌, is_empty,
  length, min, Option, none, some,
}
use com_net_sponge.Prelude.Words.{sub64}
use com_net_sponge.ByteStream
use com_net_sponge.ByteStream.{ByteStream}
use com_net_sponge.EventLoop.{
  Rule, direction_in, direction_out, PollAnswer, Result, exit, add_rule, wait_next_event,
}
use com_net_sponge.FileDescriptor
use com_net_sponge.FileDescriptor.{
  FdWrapper, Answer, ReadAnswer, WriteResult, wrote, threw, blocked, shut_wr, shut_rdwr,
}
use com_net_sponge.TcpConnection
use com_net_sponge.TcpConnection.{TcpConnection, TcpConfig}
use com_net_sponge.TcpOverIp.{FdAdapterConfig}
use com_net_sponge.TcpReceiver
use com_net_sponge.TcpSegment.{TcpSegment}
use com_net_sponge.TcpSender
use com_net_sponge.TcpState
use com_net_sponge.TcpState.{listening, syn_rcvd, syn_was_sent, of_state, same_state}
use com_net_sponge.WrappingInt32.{WrappingInt32}

-- What the template asks of its parameter `AdaptT`.
pub record AdapterOps (A : Type 0) : Type 0 where
  pub read : A → Option (A × Option TcpSegment)
  pub write : A → TcpSegment → Option A
  pub tick : A → ℕ → A
  pub fd : A → FdWrapper
  pub set_config : A → FdAdapterConfig → A
  pub set_listening : A → Bool → A

-- The members. `tcp` is what `_tcp` holds, while `has_tcp`. `user_end` is the end of the socket pair that
-- the application has, `thread_data` the other; the answers to its calls are in `app_reads`, `app_writes`
-- and `shutdowns`, and `delivered` is what was written to it.
pub record Socket (A : Type 0) : Type 0 where
  pub tcp : TcpConnection
  pub has_tcp : Bool
  pub adapter : A
  pub user_end : FdWrapper
  pub thread_data : FdWrapper
  pub inbound_shutdown : Bool
  pub outbound_shutdown : Bool
  pub fully_acked : Bool
  pub app_reads : List ReadAnswer
  pub app_writes : List Answer
  pub shutdowns : List Answer
  pub delivered : List ℕ

-- One pass of the event loop: how its `poll` ends, what `_abort` holds after it, and the time then.
pub record Pass : Type 0 where
  pub answer : PollAnswer
  pub abort : Bool
  pub now : ℕ

module _ {A : Type 0} where
  unfoldable pub inbound : Socket A → ByteStream
  inbound s = s.tcp.receiver.reassembler.output

  -- A change of the inbound stream by its reader.
  unfoldable pub with_inbound : Socket A → ByteStream → Socket A
  with_inbound s b = record s {
    tcp = record (s.tcp) { receiver = TcpReceiver.with_stream_out s.tcp.receiver b };
  }

  -- The end of rule 1's callback.
  unfoldable pub note_acked : Socket A → Socket A
  note_acked s =
      if s.thread_data.eof && (TcpSender.bytes_in_flight s.tcp.sender == 0) && not s.fully_acked
      then record s { fully_acked = true }
      else s

  -- The end of the outbound stream, in rule 2 and when that is cancelled.
  unfoldable pub end_outbound : Socket A → Socket A
  end_outbound s = record s { tcp = TcpConnection.end_input_stream s.tcp; outbound_shutdown = true }

  unfoldable pub outbound_capacity : Socket A → ℕ
  outbound_capacity s = ByteStream.remaining_capacity s.tcp.sender.stream

  -- Rule 2 after its read: everything must be accepted.
  unfoldable pub take_app_data : Socket A → List ℕ → Option (Socket A)
  take_app_data s bytes =
      let (c, amount_written) = TcpConnection.write s.tcp bytes in
      let s' : Socket A = record s { tcp = c } in
      if not (amount_written == length bytes)
      then none
      else if s.thread_data.eof
      then some (end_outbound s')
      else some s'

  unfoldable pub on_app_data : Socket A → Option (Socket A)
  on_app_data s = elim s.app_reads [
    | [] ↦ none
    | answer ∷ answers ↦ elim (FileDescriptor.read s.thread_data (outbound_capacity s) answer) [
      | none ↦ none
      | some (f, bytes) ↦ take_app_data (record s { thread_data = f; app_reads = answers }) bytes
    ]
  ]

  unfoldable pub wants_app_data : Socket A → Bool
  wants_app_data s = s.tcp.active && not s.outbound_shutdown && ltb 0 (outbound_capacity s)

  -- Rule 3 after its write.
  unfoldable pub end_inbound : Socket A → Option (Socket A)
  end_inbound s =
      if ByteStream.eof (inbound s) || (inbound s).error
      then elim s.shutdowns [
        | [] ↦ none
        | answer ∷ answers ↦ elim (FileDescriptor.shutdown s.thread_data shut_wr answer) [
          | none ↦ none
          | some f ↦
              some (record s { thread_data = f; shutdowns = answers; inbound_shutdown = true })
        ]
      ]
      else some s

  unfoldable pub after_write : Socket A → WriteResult → Option (Socket A)
  after_write s (wrote f sent n) = end_inbound (
      with_inbound (record s { thread_data = f; delivered = s.delivered ++ sent })
        (ByteStream.pop_output (inbound s) n))
  after_write s (threw f sent) = none
  after_write s (blocked f sent) = none

  unfoldable pub on_writable : Socket A → Option (Socket A)
  on_writable s = elim s.app_writes [
    | [] ↦ none
    | answer ∷ answers ↦
        let amount_to_write : ℕ = min 65536 (ByteStream.buffer_size (inbound s)) in
        let buffer : List ℕ = ByteStream.peek_output (inbound s) amount_to_write in
        after_write (record s { app_writes = answers })
          (FileDescriptor.write s.thread_data buffer false (answer ∷ []))
  ]

  unfoldable pub wants_to_deliver : Socket A → Bool
  wants_to_deliver s =
      not (ByteStream.buffer_empty (inbound s))
      || ((ByteStream.eof (inbound s) || (inbound s).error) && not s.inbound_shutdown)

  -- What is asked of the loop to go on, for `connect` and for `listen_and_accept`.
  unfoldable pub still_connecting : Socket A → Bool
  still_connecting s = same_state (TcpState.state s.tcp) (of_state syn_was_sent)

  unfoldable pub still_accepting : Socket A → Bool
  still_accepting s =
      same_state (TcpState.state s.tcp) (of_state listening)
      || same_state (TcpState.state s.tcp) (of_state syn_rcvd)
      || same_state (TcpState.state s.tcp) (of_state syn_was_sent)

  module _ (ops : AdapterOps A) where
    -- Rule 1 after its read.
    unfoldable pub take_segment : Socket A → Option TcpSegment → Option (Socket A)
    take_segment s none = some (note_acked s)
    take_segment s (some seg) = elim (TcpConnection.segment_received s.tcp seg) [
      | none ↦ none
      | some c ↦ some (note_acked (record s { tcp = c }))
    ]

    unfoldable pub on_datagram : Socket A → Option (Socket A)
    unfolding take_segment
    on_datagram s = elim (ops.read s.adapter) [
      | none ↦ none
      | some (a, seg) ↦ take_segment (record s { adapter = a }) seg
    ]

    -- The loop of rule 4.
    unfoldable pub write_segments : List TcpSegment → A → Option A
    write_segments [] a = some a
    write_segments (seg ∷ segs) a = elim (ops.write a seg) [
      | none ↦ none
      | some a' ↦ write_segments segs a'
    ]

    unfoldable pub on_segments : Socket A → Option (Socket A)
    on_segments s = elim (write_segments s.tcp.segments_out s.adapter) [
      | none ↦ none
      | some a ↦ some (record s { adapter = a; tcp = record (s.tcp) { segments_out = [] } })
    ]

    unfoldable pub datagram_rule : Rule (Socket A)
    datagram_rule = record {
      fd = λ s. ops.fd s.adapter;
      direction = direction_in;
      callback = on_datagram;
      interest = λ s. s.tcp.active;
      cancel = λ s. some s;
    }

    unfoldable pub app_data_rule : Rule (Socket A)
    app_data_rule = record {
      fd = λ s. s.thread_data;
      direction = direction_in;
      callback = on_app_data;
      interest = wants_app_data;
      cancel = λ s. some (end_outbound s);
    }

    unfoldable pub deliver_rule : Rule (Socket A)
    deliver_rule = record {
      fd = λ s. s.thread_data;
      direction = direction_out;
      callback = on_writable;
      interest = wants_to_deliver;
      cancel = λ s. some s;
    }

    unfoldable pub segments_rule : Rule (Socket A)
    segments_rule = record {
      fd = λ s. ops.fd s.adapter;
      direction = direction_out;
      callback = on_segments;
      interest = λ s. not (is_empty s.tcp.segments_out);
      cancel = λ s. some s;
    }

    -- `_initialize_TCP`.
    unfoldable pub initialize_tcp :
        Socket A
        → List (Rule (Socket A))
        → TcpConfig
        → WrappingInt32
        → Socket A × List (Rule (Socket A))
    initialize_tcp s rules cfg isn = (
      record s { tcp = TcpConnection.new cfg isn; has_tcp = true },
      add_rule (add_rule (add_rule (add_rule rules datagram_rule) app_data_rule) deliver_rule)
          segments_rule,
    )

    -- The time passes for the connection and the adapter.
    unfoldable pub tick : Socket A → ℕ → Socket A
    tick s ms = record s { tcp = TcpConnection.tick s.tcp ms; adapter = ops.tick s.adapter ms }
