-- ===== src/TcpReceiver/Tests.antt =====
-- Runs of libsponge/tcp_receiver.cc at small states.
use com_net_sponge.TcpReceiver.Session.{
  IsReceiving, Continues, carries, segment_received-IsReceiving,
}
use com_net_sponge.Prelude.{inr, ◌+◌, ◌≤◌, ◌≡◌, refl, true, false, [], ◌∷◌, some, min, arith}
use com_net_sponge.WrappingInt32.{wrap}
use com_net_sponge.Reassembler.SegmentMap.{total}
use com_net_sponge.Reassembler.Insert.{available}
use com_net_sponge.Reassembler.Valid.{IsSound}
use com_net_sponge.Reassembler.Tests.{indices, waiting, waiting-IsValid}
use com_net_sponge.TcpSegment.{TcpSegment, default_header}
use com_net_sponge.TcpReceiver.{TcpReceiver, segment_received}
use com_net_sponge.TcpReceiver.Laws.{IsSynced, Carries, segment_received_advances}

-- Behind the SYN numbered 7; byte 2 is wanted, bytes 4 and 5 wait.
abbrev pub open_receiver : TcpReceiver
open_receiver = record { reassembler = waiting; capacity = 8; syn = true; fin = false; isn = 7 }

pub open_receiver-IsSynced : IsSynced indices 100 open_receiver
open_receiver-IsSynced = record { synced = refl; isn_small = omega arith; valid = waiting-IsValid }

-- Bytes 2 and 3.
abbrev next_two : TcpSegment
next_two = record { header = record default_header { seqno = wrap 3 7 }; payload = 2 ∷ 3 ∷ [] }

next_two-Carries : Carries indices 100 open_receiver 2 next_two
next_two-Carries = record {
  no_syn = refl;
  number = refl;
  inside = omega arith;
  bytes = (refl, (refl, tt));
  not_far = omega arith;
  not_old = omega arith;
  not_isn = λ e. absurd (omega arith);
}

-- Nothing is stored; bytes 0 and 1 were put out.
abbrev idle_receiver : TcpReceiver
idle_receiver = record open_receiver { reassembler = record waiting { segments = [] } }

idle-IsSound : IsSound indices 100 3 idle_receiver.reassembler
unfolding total
idle-IsSound = record {
  steady = record {
    good = tt;
    fits = omega arith;
    count = omega arith;
    small = omega arith;
    window = omega arith;
  };
  buffered = (refl, tt);
  written = refl;
  same = refl;
  inside = omega arith;
}

-- The byte at index 2 ^ 32 - 1 has the number of the SYN.
abbrev numbered_like_syn : TcpSegment
numbered_like_syn = record { header = record default_header { seqno = 7 }; payload = 9 ∷ [] }

segment_received_advances_example :
    (r' : TcpReceiver) × (segment_received open_receiver next_two ≡ some r')
    × IsSynced indices 100 r'
    × (2 + min 2 (available waiting) ≤ r'.reassembler.first_unassembled)
segment_received_advances_example =
    segment_received_advances indices 100 open_receiver 2 next_two (omega arith)
      open_receiver-IsSynced next_two-Carries (omega arith)

-- The reader has taken byte 0.
open_receiver-IsReceiving : IsReceiving indices 100 7 (0 ∷ []) open_receiver
open_receiver-IsReceiving = record {
  phase = inr (refl, refl);
  valid = waiting-IsValid;
  roomy = omega arith;
  taken = (refl, tt);
  counted = refl;
}

segment_received-IsReceiving_example : Continues indices 100 7 (0 ∷ []) open_receiver next_two
segment_received-IsReceiving_example =
    segment_received-IsReceiving indices 100 7 (0 ∷ []) open_receiver next_two (omega arith)
      (omega arith) (carries 2 refl refl (omega arith) (refl, (refl, tt))) open_receiver-IsReceiving
