-- ===== src/TcpConnection/Tests.antt =====
-- Runs of libsponge/tcp_connection.cc at small states.
use com_net_sponge.Prelude.{◌≡◌, refl, inr, true, false, List, [], ◌∷◌, ◌++◌, map, some, arith}
use com_net_sponge.ByteStream
use com_net_sponge.WrappingInt32.{wrap}
use com_net_sponge.TcpSegment.{TcpSegment, default_header, length_in_sequence_space}
use com_net_sponge.TcpReceiver
use com_net_sponge.TcpReceiver.{TcpReceiver}
use com_net_sponge.TcpReceiver.Tests.{open_receiver}
use com_net_sponge.TcpSender
use com_net_sponge.TcpSender.{TcpSender, Outstanding}
use com_net_sponge.TcpSender.Round.{Exhausted}
use com_net_sponge.TcpSender.Valid.{IsSender, payloads}
use com_net_sponge.TcpSender.Tests.{counting, flying, flying-IsSender}
use com_net_sponge.TcpConnection.{TcpConnection, stamp, segment_received, write}
use com_net_sponge.TcpConnection.Outbound.{acking, segment_received_answers, connection_write_lem}

abbrev pub open_connection : TcpConnection
open_connection = record {
  cfg = record { rt_timeout = 1000; recv_capacity = 8; send_capacity = 8 };
  receiver = open_receiver;
  sender = flying;
  segments_out = [];
  linger_after_streams_finish = true;
  time_last_recv = 0;
  active = true;
}

-- The SYN of the peer again, with an acknowledgment: it is ignored but answered.
abbrev syn_again : TcpSegment
syn_again = record {
  header = record default_header { seqno = 7; syn = true; ack = true; ackno = wrap 1 7; win = 4 };
  payload = [];
}

abbrev pub reset_segment : TcpSegment
reset_segment = record { header = record default_header { rst = true }; payload = [] }

abbrev given_up : TcpConnection
given_up = record open_connection { sender = record flying { consecutive_retransmissions = 8 } }

-- Both streams have ended and all was acknowledged.
abbrev pub done : TcpConnection
done = record open_connection {
  receiver = record open_receiver {
    reassembler = record (open_receiver.reassembler) {
      segments = [];
      output = record (open_receiver.reassembler.output) { input_ended = true };
    };
  };
  sender = record flying {
    stream = record {
      buffer = [];
      bytes_read = 4;
      bytes_written = 4;
      capacity = 8;
      input_ended = true;
      error = false;
    };
    next_seqno = 6;
    abs_ackno = 6;
    outstanding = [];
  };
}

done-IsSender : IsSender counting done.sender
unfolding ByteStream.eof
done-IsSender = record {
  outbound = record { buffered = tt; counted = refl; small = omega arith };
  placed = inr (inr (refl, refl));
  chained = tt;
}

segment_received_answers_example :
    (c' : TcpConnection) × (seg : TcpSegment) × (rest : List TcpSegment) × (segment_received
        open_connection syn_again
      ≡ some c')
    × (c'.receiver ≡ open_receiver)
    × (c'.segments_out
        ≡ [] ++ map (acking (wrap 3 7) (TcpReceiver.window_size open_receiver)) (seg ∷ rest))
unfolding length_in_sequence_space TcpReceiver.ackno TcpReceiver.segment_received
    TcpReceiver.push_payload TcpReceiver.note_fin
segment_received_answers_example =
    segment_received_answers open_connection syn_again open_receiver (wrap 3 7) refl (omega arith)
      refl refl

connection_write_example :
    (fresh : List Outstanding) × ((write open_connection (4 ∷ 5 ∷ [])).1 ≡ 2)
    × IsSender counting (write open_connection (4 ∷ 5 ∷ [])).0.sender
    × (payloads fresh ++ (write open_connection (4 ∷ 5 ∷ [])).0.sender.stream.buffer
        ≡ (2 ∷ 3 ∷ 4 ∷ 5 ∷ []))
    × ((write open_connection (4 ∷ 5 ∷ [])).0.segments_out
        ≡ [] ++ map (stamp open_receiver) (map (λ (p : Outstanding). p.1) fresh))
    × ((write open_connection (4 ∷ 5 ∷ [])).0.sender.outstanding ≡ flying.outstanding ++ fresh)
    × Exhausted (write open_connection (4 ∷ 5 ∷ [])).0.sender
connection_write_example =
    connection_write_lem counting open_connection (4 ∷ 5 ∷ []) (flying-IsSender 3) refl refl
      (refl, (refl, tt)) (omega arith)
