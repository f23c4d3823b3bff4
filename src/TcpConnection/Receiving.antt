-- ===== src/TcpConnection/Receiving.antt =====
-- libsponge/tcp_connection.cc: what the operations of a connection do to its receiver.
use com_net_sponge.Prelude.{
  ℕ, ◌≡◌, ◌⊎◌, refl, inl, inr, true, false, Bool-cases, leb, List, none, some, arith,
}
use com_net_sponge.ByteStream
use com_net_sponge.TcpConnection.{
  TcpConnection, set_errors, kill_connection, clear_sender_buffer, send_rst_empty_segment, respond,
  heard, segment_received, connect, write, end_input_stream, close_if_done, tick,
}
use com_net_sponge.TcpReceiver
use com_net_sponge.TcpReceiver.{TcpReceiver}
use com_net_sponge.TcpSegment.{TcpSegment}
use com_net_sponge.WrappingInt32.{WrappingInt32}

-- A receiver after the reset of its connection.
abbrev pub failed : TcpReceiver → TcpReceiver
failed r = TcpReceiver.with_stream_out r (ByteStream.set_error r.reassembler.output)

clear_sender_buffer_keeps : (c : TcpConnection) → (clear_sender_buffer c).receiver ≡ c.receiver
unfolding clear_sender_buffer
clear_sender_buffer_keeps c = refl

pub respond_keeps :
    (c : TcpConnection) (seg : TcpSegment) (a : WrappingInt32)
    → (respond c seg a).receiver ≡ c.receiver
unfolding respond clear_sender_buffer
respond_keeps c seg a = ground arith

pub connect_keeps : (c : TcpConnection) → (connect c).receiver ≡ c.receiver
unfolding connect clear_sender_buffer
connect_keeps c = refl

pub write_keeps : (c : TcpConnection) (bytes : List ℕ) → (write c bytes).0.receiver ≡ c.receiver
unfolding write connect clear_sender_buffer
write_keeps c bytes = refl

pub end_input_stream_keeps : (c : TcpConnection) → (end_input_stream c).receiver ≡ c.receiver
unfolding end_input_stream connect clear_sender_buffer
end_input_stream_keeps c = ground arith

close_if_done_keeps : (c : TcpConnection) → (close_if_done c).receiver ≡ c.receiver
unfolding close_if_done kill_connection
close_if_done_keeps c = ground arith

-- Time leaves the receiver as it is, unless it ends the connection with a reset.
pub tick_keeps :
    (c : TcpConnection) (ms : ℕ)
    → ((tick c ms).receiver ≡ c.receiver) ⊎ ((tick c ms).receiver ≡ failed c.receiver)
unfolding tick kill_connection set_errors send_rst_empty_segment clear_sender_buffer
tick_keeps c ms = elim (Bool-cases (leb 8 c.sender.consecutive_retransmissions)) [
  | inl over ↦ inr (rw over refl)
  | inr left ↦ inl (rw (left, close_if_done_keeps) refl)
]

-- A reset fails the receiver.
pub segment_received_reset :
    (c : TcpConnection) (seg : TcpSegment)
    → seg.header.rst ≡ true
    → (c' : TcpConnection) × (segment_received c seg ≡ some c') × (c'.receiver ≡ failed c.receiver)
unfolding segment_received kill_connection set_errors
segment_received_reset c seg e = rw e (_, refl, refl)

-- A segment without an acknowledgment number, when the receiver has none either, is an exception.
pub segment_received_unheard :
    (c : TcpConnection) (seg : TcpSegment) (r : TcpReceiver)
    → seg.header.rst ≡ false
    → TcpReceiver.segment_received c.receiver seg ≡ some r
    → heard r seg ≡ none
    → segment_received c seg ≡ none
unfolding segment_received
segment_received_unheard c seg r no_rst taken unknown = ground (arith, taken, unknown)
