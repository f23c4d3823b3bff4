-- ===== src/TcpConnection.antt =====
-- libsponge/tcp_connection.hh and tcp_connection.cc: a receiver and a sender joined into an endpoint.
-- `none` is an exception: a fault of the reassembler, or `value()` of an empty `optional`. The
-- reference to the front that `_clear_sender_buffer` keeps over `pop()` is read as the segment itself.
pub mod Outbound
pub mod Closing
pub mod Receiving
pub mod Tests
use com_net_sponge.Prelude.{
  ℕ, ◌+◌, ◌*◌, ◌%◌, ◌^◌, Bool, true, false, not, ◌&&◌, ◌||◌, ltb, leb, ◌==◌, if◌then◌else◌, List,
  [], ◌∷◌, ◌++◌, is_empty, Option, none, some,
}
use com_net_sponge.Prelude.Words.{add64}
use com_net_sponge.ByteStream
use com_net_sponge.WrappingInt32.{WrappingInt32, back}
use com_net_sponge.TcpSegment.{TcpSegment, TcpHeader, length_in_sequence_space}
use com_net_sponge.TcpReceiver
use com_net_sponge.TcpReceiver.{TcpReceiver}
use com_net_sponge.TcpSender
use com_net_sponge.TcpSender.{TcpSender}

-- `TCPConfig`, less the fixed ISN, which is an argument of the constructor.
pub record TcpConfig : Type 0 where
  pub rt_timeout : ℕ
  pub recv_capacity : ℕ
  pub send_capacity : ℕ

abbrev pub max_retx_attempts : ℕ
max_retx_attempts = 8

pub record TcpConnection : Type 0 where
  pub cfg : TcpConfig
  pub receiver : TcpReceiver
  pub sender : TcpSender
  pub segments_out : List TcpSegment
  pub linger_after_streams_finish : Bool
  pub time_last_recv : ℕ
  pub active : Bool

unfoldable pub new : TcpConfig → WrappingInt32 → TcpConnection
unfolding TcpReceiver.new TcpSender.new
new cfg isn = record {
  cfg = cfg;
  receiver = TcpReceiver.new cfg.recv_capacity;
  sender = TcpSender.new cfg.send_capacity cfg.rt_timeout isn;
  segments_out = [];
  linger_after_streams_finish = true;
  time_last_recv = 0;
  active = true;
}

unfoldable pub set_errors : TcpConnection → TcpConnection
set_errors c = record c {
  sender = record (c.sender) { stream = ByteStream.set_error c.sender.stream };
  receiver =
      TcpReceiver.with_stream_out c.receiver (ByteStream.set_error c.receiver.reassembler.output);
}

unfoldable pub kill_connection : TcpConnection → Bool → TcpConnection
kill_connection c clean = record (if not clean then set_errors c else c) { active = false }

-- What the loop of `_clear_sender_buffer` writes into a segment's header.
unfoldable pub stamp : TcpReceiver → TcpSegment → TcpSegment
stamp r seg =
    let window : ℕ = TcpReceiver.window_size r in
    let header : TcpHeader = record (seg.header) {
      win = (if ltb 65535 window then 65535 else window % 2 ^ 16);
    } in
    record seg {
      header = elim (TcpReceiver.ackno r) [
        | none ↦ header
        | some ackno ↦ record header { ackno = ackno; ack = true }
      ];
    }

-- The loop: from the sender's queue to the connection's.
unfoldable pub clear_loop : TcpReceiver → List TcpSegment → List TcpSegment → List TcpSegment
clear_loop r [] out = out
clear_loop r (seg ∷ queue) out = clear_loop r queue (out ++ (stamp r seg ∷ []))

unfoldable pub clear_sender_buffer : TcpConnection → TcpConnection
clear_sender_buffer c = record c {
  sender = record (c.sender) { segments_out = [] };
  segments_out = clear_loop c.receiver c.sender.segments_out c.segments_out;
}

unfoldable pub send_rst_empty_segment : TcpConnection → TcpConnection
send_rst_empty_segment c =
    clear_sender_buffer (record c { sender = TcpSender.send_flags c.sender false false true })

unfoldable pub kill_condition_check : TcpConnection → Bool
kill_condition_check c =
    c.receiver.reassembler.output.input_ended
    && (TcpReceiver.unassembled_bytes c.receiver == 0)
    && c.sender.stream.input_ended
    && (TcpSender.bytes_in_flight c.sender == 0)
    && (c.sender.next_seqno
        == add64 c.sender.stream.bytes_written (if ByteStream.eof c.sender.stream then 2 else 0))

-- The segment that `segment_received` sends where the sender has nothing queued of its own.
unfoldable pub answer : TcpSender → TcpSegment → TcpSender
answer s seg =
    let filled : TcpSender = TcpSender.fill_window s in
    if is_empty s.segments_out && ltb 0 (length_in_sequence_space seg)
    then (if is_empty filled.segments_out then TcpSender.send_empty_segment filled else filled)
    else s

-- The reply to a keep-alive, numbered one before what is expected.
unfoldable pub keep_alive : TcpReceiver → TcpSender → TcpSegment → TcpSender
keep_alive r s seg = elim (TcpReceiver.ackno r) [
  | none ↦ s
  | some ackno ↦
      (if (length_in_sequence_space seg == 0) && (seg.header.seqno == back ackno 1)
        then TcpSender.send_empty_segment s
        else s)
]

-- The acknowledgment number for the sender: the segment's, or without its flag the receiver's own.
unfoldable pub heard : TcpReceiver → TcpSegment → Option WrappingInt32
heard r seg = if seg.header.ack then some seg.header.ackno else TcpReceiver.ackno r

-- The end of `segment_received`, with the receiver done and the acknowledgment number known.
unfoldable pub respond : TcpConnection → TcpSegment → WrappingInt32 → TcpConnection
respond c seg ackno =
    let s : TcpSender = TcpSender.ack_received c.sender ackno seg.header.win in
    let s' : TcpSender = keep_alive c.receiver (answer s seg) seg in
    let c' : TcpConnection = clear_sender_buffer (record c { sender = s' }) in
    if c'.receiver.reassembler.output.input_ended && not c'.sender.stream.input_ended
    then record c' { linger_after_streams_finish = false }
    else c'

unfoldable pub segment_received : TcpConnection → TcpSegment → Option TcpConnection
segment_received c seg =
    if seg.header.rst
    then some (kill_connection c false)
    else elim (TcpReceiver.segment_received c.receiver seg) [
      | none ↦ none
      | some r ↦ elim (heard r seg) [
        | none ↦ none
        | some ackno ↦ some (respond (record c { receiver = r; time_last_recv = 0 }) seg ackno)
      ]
    ]

-- `fill_window` and `_clear_sender_buffer`: the whole of `connect`.
unfoldable pub connect : TcpConnection → TcpConnection
connect c = clear_sender_buffer (record c { sender = TcpSender.fill_window c.sender })

unfoldable pub write : TcpConnection → List ℕ → TcpConnection × ℕ
write c bytes =
    let (stream, bytes_written) = ByteStream.write c.sender.stream bytes in
    (connect (record c { sender = record (c.sender) { stream = stream } }), bytes_written)

unfoldable pub end_input_stream : TcpConnection → TcpConnection
end_input_stream c =
    let s : TcpSender = record (c.sender) { stream = ByteStream.end_input c.sender.stream } in
    let c' : TcpConnection = connect (record c { sender = s }) in
    if c'.receiver.reassembler.output.input_ended && ByteStream.eof c'.sender.stream
    then record c' { linger_after_streams_finish = false }
    else c'

-- The clean end of the connection, checked by `tick`.
unfoldable pub close_if_done : TcpConnection → TcpConnection
close_if_done c =
    if kill_condition_check c
    then (if c.linger_after_streams_finish
        then (if leb (10 * c.cfg.rt_timeout) c.time_last_recv then kill_connection c true else c)
        else kill_connection c true)
    else c

unfoldable pub tick : TcpConnection → ℕ → TcpConnection
tick c ms =
    let c' : TcpConnection = record c { time_last_recv = add64 c.time_last_recv ms } in
    if leb max_retx_attempts c.sender.consecutive_retransmissions
    then kill_connection (send_rst_empty_segment c') false
    else clear_sender_buffer (close_if_done (record c' { sender = TcpSender.tick c.sender ms }))

-- The destructor.
unfoldable pub destroy : TcpConnection → TcpConnection
destroy c =
    if c.active then record (send_rst_empty_segment (set_errors c)) { active = false } else c
