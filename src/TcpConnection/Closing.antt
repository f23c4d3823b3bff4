-- ===== src/TcpConnection/Closing.antt =====
-- libsponge/tcp_connection.cc: how a connection ends, by RST or when both streams are done.
use com_net_sponge.Prelude.{
  ℕ, ◌+◌, ◌*◌, ◌≤◌, ◌≡◌, ◌⊎◌, refl, inl, inr, Bool, true, false, Bool-cases, not, ◌&&◌, ◌||◌, some,
  arith, leb, length, is_empty, is_empty_iff, if◌then◌else◌,
}
use com_net_sponge.Prelude.Words.{add64}
use com_net_sponge.ByteStream
use com_net_sponge.TcpSegment.{TcpSegment}
use com_net_sponge.TcpReceiver
use com_net_sponge.TcpReceiver.{TcpReceiver}
use com_net_sponge.TcpSender
use com_net_sponge.TcpSender.{TcpSender}
use com_net_sponge.TcpSender.Valid.{IsSender, first, bytes_in_flight_lem}
use com_net_sponge.TcpConnection.{
  TcpConnection, set_errors, kill_connection, kill_condition_check, segment_received,
}

-- Both streams of a connection carry the error flag, and it is not active.
pub record IsAborted (c : TcpConnection) : Type 0 where
  pub inbound : c.receiver.reassembler.output.error ≡ true
  pub outbound : c.sender.stream.error ≡ true
  pub dead : c.active ≡ false

-- A segment with RST aborts the connection, and nothing is sent.
pub rst_aborts :
    (c : TcpConnection) (seg : TcpSegment)
    → seg.header.rst ≡ true
    → (c' : TcpConnection) × (segment_received c seg ≡ some c')
      × IsAborted c'
      × (c'.segments_out ≡ c.segments_out)
unfolding segment_received kill_connection set_errors ByteStream.set_error
    TcpReceiver.with_stream_out
rst_aborts c seg e = rw e (_, refl, record { inbound = refl; outbound = refl; dead = refl }, refl)

-- The connection is done and may close: at once, or when it need not linger longer.
abbrev pub closes : TcpConnection → Bool
closes c =
    kill_condition_check c
    && (not c.linger_after_streams_finish || leb (10 * c.cfg.rt_timeout) c.time_last_recv)

-- `_kill_condition_check` holds, and there is no lingering or it has been long enough.
pub record IsFinished (c : TcpConnection) : Type 0 where
  pub inbound_ended : c.receiver.reassembler.output.input_ended ≡ true
  pub assembled : TcpReceiver.unassembled_bytes c.receiver ≡ 0
  pub outbound_ended : c.sender.stream.input_ended ≡ true
  pub acknowledged : TcpSender.bytes_in_flight c.sender ≡ 0
  pub counted :
      c.sender.next_seqno
      ≡ add64 c.sender.stream.bytes_written (if ByteStream.eof c.sender.stream then 2 else 0)
  pub lingered :
      (c.linger_after_streams_finish ≡ false) ⊎ (10 * c.cfg.rt_timeout ≤ c.time_last_recv)

conditions :
    (c : TcpConnection)
    → kill_condition_check c ≡ true
    → (c.receiver.reassembler.output.input_ended ≡ true)
      × (TcpReceiver.unassembled_bytes c.receiver ≡ 0)
      × (c.sender.stream.input_ended ≡ true)
      × (TcpSender.bytes_in_flight c.sender ≡ 0)
      × (c.sender.next_seqno
          ≡ add64 c.sender.stream.bytes_written (if ByteStream.eof c.sender.stream then 2 else 0))
unfolding kill_condition_check
conditions c h = ground (arith, h)

last_byte :
    (s : TcpSender) (f : ℕ → ℕ)
    → IsSender f s
    → s.stream.input_ended ≡ true
    → s.next_seqno ≡ add64 s.stream.bytes_written (if ByteStream.eof s.stream then 2 else 0)
    → (s.next_seqno ≡ s.stream.bytes_written + 2) ⊎ (length s.stream.buffer ≡ 1)
unfolding ByteStream.eof ByteStream.buffer_empty
last_byte s f v e last = elim (Bool-cases (is_empty s.stream.buffer)) [
  | inl none_left ↦ inl (ground (arith, v.outbound.small))
  | inr some_left ↦
      inr (
        ground
          (arith, v.outbound.small, v.outbound.counted, v.placed, is_empty_iff s.stream.buffer))
]

-- What `_kill_condition_check` establishes of a valid sender: the inbound stream has ended with nothing
-- stored; the outbound stream has ended, with everything sent acknowledged; and the FIN was sent, or
-- exactly one byte of the outbound stream was not sent yet.
pub kill_condition_check_lem :
    (f : ℕ → ℕ) (c : TcpConnection)
    → IsSender f c.sender
    → kill_condition_check c ≡ true
    → (c.receiver.reassembler.output.input_ended ≡ true)
      × (TcpReceiver.unassembled_bytes c.receiver ≡ 0)
      × (c.sender.stream.input_ended ≡ true)
      × (c.sender.next_seqno ≤ first c.sender.outstanding c.sender.next_seqno)
      × ((c.sender.next_seqno ≡ c.sender.stream.bytes_written + 2)
          ⊎ (length c.sender.stream.buffer ≡ 1))
kill_condition_check_lem f c v h =
    let (ended, stored, input_ended, idle, last) = conditions c h in
    (
      ended,
      stored,
      input_ended,
      omega (arith, bytes_in_flight_lem f c.sender v),
      last_byte c.sender f v input_ended last,
    )
