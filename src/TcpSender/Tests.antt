-- ===== src/TcpSender/Tests.antt =====
-- Runs of libsponge/tcp_sender.cc, and the laws of its operations at concrete states.
use com_net_sponge.Prelude.{
  ℕ, ◌≤◌, ◌≡◌, refl, inl, inr, true, false, List, [], ◌∷◌, ◌++◌, length, arith,
}
use com_net_sponge.ByteStream
use com_net_sponge.WrappingInt32.{wrap}
use com_net_sponge.TcpSegment.{TcpSegment, default_header, length_in_sequence_space}
use com_net_sponge.TcpSender.{
  TcpSender, Outstanding, new, bytes_in_flight, fill_window, fill_round, available_space,
  make_segment, enqueue, ack_received,
}
use com_net_sponge.TcpSender.Round.{Exhausted}
use com_net_sponge.TcpSender.Valid.{IsSender, bytes_in_flight_lem}
use com_net_sponge.TcpSender.Fill.{Filled, fill_window-Filled, fill_window_within}
use com_net_sponge.TcpSender.Ack.{Acked, ack_received_lem}
use com_net_sponge.TcpSender.Tick.{resent, ticks, ticks_resend}

-- The stream whose byte at each index is the index.
abbrev pub counting : ℕ → ℕ
counting i = i

abbrev pub two_bytes : TcpSegment
two_bytes = record { header = record default_header { seqno = wrap 1 7 }; payload = 0 ∷ 1 ∷ [] }

-- The SYN is acknowledged, two bytes are in flight, two more are in the stream.
abbrev pub flying : TcpSender
flying = record {
  isn = 7;
  segments_out = [];
  initial_retransmission_timeout = 1000;
  stream = record {
    buffer = 2 ∷ 3 ∷ [];
    bytes_read = 2;
    bytes_written = 4;
    capacity = 8;
    input_ended = false;
    error = false;
  };
  timer = record { active = true; is_expired = false; current_time = 900; timeout = 1000 };
  next_seqno = 3;
  abs_ackno = 1;
  window_size = 3;
  outstanding = (1, two_bytes) ∷ [];
  bytes_in_flight_count = 2;
  retransmission_timeout = 1000;
  consecutive_retransmissions = 0;
}

-- The window has shrunk to one byte while two are in flight.
abbrev shrunk : TcpSender
shrunk = record flying { window_size = 1 }

pub flying-IsSender : (window : ℕ) → IsSender counting (record flying { window_size = window })
unfolding length_in_sequence_space
flying-IsSender window = record {
  outbound = record { buffered = (refl, (refl, tt)); counted = refl; small = omega arith };
  placed = inr (inl refl);
  chained = (
    record { numbered = refl; content = (refl, (refl, tt)); behind_syn = λ _. omega arith },
    refl,
    tt,
  );
}

first_byte : (fill_window flying).next_seqno ≡ 4
unfolding fill_window fill_round available_space make_segment enqueue length_in_sequence_space
    ByteStream.buffer_empty ByteStream.read ByteStream.eof
first_byte = refl

opening : length (fill_window (new 8 1000 7)).segments_out ≡ 1
unfolding fill_window new fill_round available_space make_segment enqueue length_in_sequence_space
    ByteStream.buffer_empty ByteStream.read ByteStream.eof
opening = refl

bytes_in_flight_example : bytes_in_flight flying ≡ 2
bytes_in_flight_example = bytes_in_flight_lem counting flying (flying-IsSender 3)

fill_window_example :
    (fresh : List Outstanding) × Filled counting flying (fill_window flying) fresh
    × Exhausted (fill_window flying)
fill_window_example = fill_window-Filled counting flying (flying-IsSender 3)

fill_window_within_example : (fill_window flying).next_seqno ≤ 4
fill_window_within_example =
    fill_window_within counting flying (flying-IsSender 3) (omega arith) (omega arith)

ack_received_example :
    (mid : TcpSender) × (fresh : List Outstanding) × Acked 3 flying.outstanding
      (record flying { window_size = 5; abs_ackno = 3 })
      mid
    × (ack_received flying (wrap 3 7) 5 ≡ fill_window mid)
    × Filled counting mid (fill_window mid) fresh
    × Exhausted (fill_window mid)
ack_received_example =
    ack_received_lem counting flying 3 5 (flying-IsSender 3)
      (omega arith, omega arith, omega arith, omega arith, omega arith) (omega arith)

ticks_resend_example :
    (before : List ℕ) × (ms : ℕ) × (after : List ℕ) × ((60 ∷ 60 ∷ []) ≡ before ++ (ms ∷ after))
    × ((ticks before flying).segments_out ≡ [])
    × ((ticks (before ++ (ms ∷ [])) flying).segments_out ≡ resent flying (1, two_bytes) ∷ [])
ticks_resend_example =
    ticks_resend flying (1, two_bytes) [] (60 ∷ 60 ∷ []) (refl, refl, omega arith) refl
      (omega arith) (omega arith)
