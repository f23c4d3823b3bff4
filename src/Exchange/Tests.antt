-- ===== src/Exchange/Tests.antt =====
-- A retransmission of libsponge/tcp_sender.cc that reaches libsponge/tcp_receiver.cc over a TUN device.
use com_net_sponge.Prelude.{
  ◌+◌, ◌-◌, ◌≤◌, ◌≡◌, ◌^◌, refl, ℕ, List, false, true, [], some, min, arith,
}
use com_net_sponge.Reassembler.SegmentMap.{total}
use com_net_sponge.Reassembler.Insert.{available}
use com_net_sponge.TcpReceiver
use com_net_sponge.TcpReceiver.{TcpReceiver}
use com_net_sponge.TcpReceiver.Laws.{IsSynced}
use com_net_sponge.TcpSender.Tests.{counting, flying, flying-IsSender, two_bytes}
use com_net_sponge.TcpSender.Tick.{resent}
use com_net_sponge.Exchange.Delivery.{delivered_advances}
use com_net_sponge.ByteStream
use com_net_sponge.WrappingInt32.{wrap}
use com_net_sponge.TcpConnection.{stamp}
use com_net_sponge.TcpOverIp.{FdAdapter, with_ports, tun_read, tun_write}
use com_net_sponge.TcpOverIp.Travel.{CanSend}
use com_net_sponge.TcpSegment.{TcpSegment}

-- A receiver that has seen the SYN only.
abbrev started : TcpReceiver
started = record {
  reassembler = record {
    output = record {
      buffer = [];
      bytes_read = 0;
      bytes_written = 0;
      capacity = 8;
      input_ended = false;
      error = false;
    };
    capacity = 8;
    segments = [];
    first_unassembled = 0;
    eof_index = 2 ^ 64 - 1;
  };
  capacity = 8;
  syn = true;
  fin = false;
  isn = 7;
}

started-IsSynced : IsSynced counting 100 started
unfolding total
started-IsSynced = record {
  synced = refl;
  isn_small = omega arith;
  valid = record {
    steady = record {
      good = tt;
      fits = omega arith;
      count = omega arith;
      small = omega arith;
      window = omega arith;
    };
    buffered = tt;
    written = refl;
    same = refl;
    inside = omega arith;
  };
}

abbrev client : FdAdapter
client = record {
  cfg = record {
    source = record { ip = 167837953; port = 40000 };
    destination = record { ip = 3232235777; port = 80 };
    loss_rate_dn = 0;
    loss_rate_up = 0;
  };
  listening = false;
}

abbrev server : FdAdapter
server = record {
  cfg = record {
    source = client.cfg.destination;
    destination = client.cfg.source;
    loss_rate_dn = 0;
    loss_rate_up = 0;
  };
  listening = false;
}

two_bytes-CanSend : CanSend client (stamp started (resent flying (1, two_bytes)))
unfolding with_ports stamp wrap TcpReceiver.ackno TcpReceiver.window_size ByteStream.buffer_size
two_bytes-CanSend = omega arith

delivered_advances_example :
    (bytes : List ℕ) × (got : TcpSegment) × (tun_write client
        (stamp started (resent flying (1, two_bytes)))
      ≡ some (with_ports client (stamp started (resent flying (1, two_bytes))), bytes))
    × (tun_read server bytes ≡ some (server, some got))
    × ((r' : TcpReceiver) × (TcpReceiver.segment_received started got ≡ some r')
        × IsSynced counting 100 r'
        × (0 + min 2 (available started.reassembler) ≤ r'.reassembler.first_unassembled))
delivered_advances_example =
    delivered_advances counting 100 1 flying started started client server two_bytes []
      two_bytes-CanSend (refl, refl) refl (omega arith) (flying-IsSender 3) started-IsSynced refl
      refl refl refl (omega arith) (λ e. absurd (omega arith))
