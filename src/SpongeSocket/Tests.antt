-- ===== src/SpongeSocket/Tests.antt =====
-- Runs of libsponge/tcp_helpers/tcp_sponge_socket.cc at small states, over an adapter that reads segments
-- from a list.
use com_net_sponge.Prelude.{
  if◌then◌else◌, ◌≡◌, ◌↔◌, inr, refl, true, false, ◌||◌, List, [], ◌∷◌, Option, none, some, arith,
}
use com_net_sponge.ByteStream
use com_net_sponge.EventLoop.{Revents, timed_out, reported, exit, wait_next_event, defunct}
use com_net_sponge.EventLoop.Laws.{After, AllLive}
use com_net_sponge.FileDescriptor
use com_net_sponge.FileDescriptor.{
  shut_wr, register_read, register_write, FdWrapper, returned, gave,
}
use com_net_sponge.Reassembler.Tests.{indices}
use com_net_sponge.SpongeSocket.{
  AdapterOps, Socket, Pass, inbound, outbound_capacity, datagram_rule, deliver_rule, segments_rule,
  on_app_data, on_writable, initialize_tcp,
}
use com_net_sponge.SpongeSocket.Ending.{IsDone, rules_left, wait_done, exit-IsDone}
use com_net_sponge.SpongeSocket.Inbound.{Truthful, IsTruthful}
use com_net_sponge.SpongeSocket.Loop.{LoopResult, start_connecting, listen_and_accept, run_thread}
use com_net_sponge.SpongeSocket.Rules.{over, start_connecting_lem, on_app_data_lem, on_writable_lem}
use com_net_sponge.SpongeSocket.Session.{Shows, accepted-Prefix}
use com_net_sponge.TcpConnection
use com_net_sponge.TcpConnection.{TcpConnection, TcpConfig}
use com_net_sponge.TcpConnection.Tests.{done, open_connection}
use com_net_sponge.TcpOverIp.{FdAdapterConfig}
use com_net_sponge.TcpReceiver.Session.{opens, carries}
use com_net_sponge.TcpSegment.{TcpSegment, default_header}
use com_net_sponge.TcpState
use com_net_sponge.TcpState.{of_state, syn_was_sent}
use com_net_sponge.WrappingInt32.{wrap}

abbrev descriptor : FdWrapper
descriptor = record { fd = 4; eof = false; closed = false; read_count = 0; write_count = 0 }

-- The device of the adapter, and the segments that are still to come from it.
record Script : Type 0 where
  device : FdWrapper
  segments : List TcpSegment

abbrev read_next : FdWrapper → List TcpSegment → Option (Script × Option TcpSegment)
read_next device [] = none
read_next device (seg ∷ segs) =
    some (record { device = register_read device; segments = segs }, some seg)

abbrev script_ops : AdapterOps Script
script_ops = record {
  read = λ a. read_next a.device a.segments;
  write = λ a seg. some (record a { device = register_write a.device });
  tick = λ a ms. a;
  fd = λ a. a.device;
  set_config = λ a config. a;
  set_listening = λ a l. a;
}

-- The stream of `indices`, with the ISN 7.
abbrev AllTruthful : List TcpSegment → Type 0
AllTruthful [] = Unit
AllTruthful (seg ∷ segs) = Truthful indices 100 7 seg × AllTruthful segs

abbrev TruthfulScript : Script → Type 0
TruthfulScript a = AllTruthful a.segments

read_next-Truthful :
    (device : FdWrapper) (segs : List TcpSegment)
    → AllTruthful segs
    → After (λ x. TruthfulScript x.0 × After (Truthful indices 100 7) x.1) (read_next device segs)
read_next-Truthful device [] t = tt
read_next-Truthful device (seg ∷ segs) t = (t.1, t.0)

script_ops-IsTruthful : IsTruthful indices 100 7 script_ops TruthfulScript
script_ops-IsTruthful = record {
  reads = λ a. read_next-Truthful a.device a.segments;
  writes = λ a seg p. p;
  ticks = λ a ms p. p;
}

abbrev syn : TcpSegment
syn = record { header = record default_header { seqno = 7; syn = true }; payload = [] }

-- Bytes 0 and 1, with the acknowledgment of the other side's SYN, whose ISN is 5.
abbrev bytes : TcpSegment
bytes = record {
  header = record default_header { seqno = wrap 1 7; ack = true; ackno = 6; win = 8 };
  payload = 0 ∷ 1 ∷ [];
}

all_truthful : AllTruthful (syn ∷ bytes ∷ [])
all_truthful = (
  inr (refl, opens refl refl refl),
  (inr (refl, carries 0 refl refl (omega arith) (refl, (refl, tt))), tt),
)

abbrev socket : Socket Script
socket = record {
  tcp = open_connection;
  has_tcp = false;
  adapter = record { device = descriptor; segments = syn ∷ bytes ∷ [] };
  user_end = descriptor;
  thread_data = descriptor;
  inbound_shutdown = false;
  outbound_shutdown = false;
  fully_acked = false;
  app_reads = gave (9 ∷ []) ∷ [];
  app_writes = returned 1 ∷ [];
  shutdowns = returned 0 ∷ [];
  delivered = [];
}

abbrev cfg : TcpConfig
cfg = record { rt_timeout = 1000; recv_capacity = 8; send_capacity = 8 }

abbrev config : FdAdapterConfig
config = record {
  source = record { ip = 1; port = 2 };
  destination = record { ip = 3; port = 4 };
  loss_rate_dn = 0;
  loss_rate_up = 0;
}

abbrev idle : Revents
idle = record { readable = false; writable = false; err = false; nval = false; hup = false }

abbrev can_read : Revents
can_read = record idle { readable = true }

abbrev can_write : Revents
can_write = record idle { writable = true }

-- The SYN comes; it is answered while the bytes come; then the application takes a byte.
abbrev syn_comes : Pass
syn_comes = record { answer = reported (can_read ∷ []); abort = false; now = 10 }

abbrev bytes_come : Pass
bytes_come = record {
  answer = reported (can_read ∷ idle ∷ idle ∷ can_write ∷ []);
  abort = false;
  now = 20;
}

abbrev app_takes : Pass
app_takes = record { answer = reported (idle ∷ idle ∷ can_write ∷ []); abort = false; now = 30 }

abbrev accepting : LoopResult Script
accepting = listen_and_accept script_ops socket [] cfg 5 config 0 (syn_comes ∷ bytes_come ∷ [])

-- The run goes on with byte 0 delivered and byte 1 buffered.
accepted-Prefix_example :
    Shows indices 100 7 script_ops TruthfulScript
      (omega arith)
      (omega arith)
      script_ops-IsTruthful
      (run_thread script_ops accepting 20 (app_takes ∷ []) (returned 0))
accepted-Prefix_example =
    accepted-Prefix indices 100 7 script_ops TruthfulScript (omega arith) (omega arith)
      script_ops-IsTruthful socket cfg 5 0 20 config (syn_comes ∷ bytes_come ∷ []) (app_takes ∷ [])
      (returned 0) refl (omega arith) all_truthful

start_connecting_example :
    (s' : Socket Script) × (start_connecting script_ops socket [] cfg 5 config
      ≡ some (s', (initialize_tcp script_ops socket [] cfg 5).1))
    × (TcpState.state s'.tcp ≡ of_state syn_was_sent)
    × (s'.tcp ≡ TcpConnection.connect (TcpConnection.new cfg 5))
    × (s'.adapter ≡ socket.adapter)
start_connecting_example = start_connecting_lem script_ops socket [] cfg 5 config refl

capacity_left : outbound_capacity socket ≡ 6
unfolding outbound_capacity ByteStream.remaining_capacity
capacity_left = refl

on_app_data_example :
    (s' : Socket Script) × (on_app_data socket ≡ some s')
    × ((TcpConnection.write open_connection (9 ∷ [])).1 ≡ 1)
    × (s'.tcp ≡ (TcpConnection.write open_connection (9 ∷ [])).0)
    × (s'.outbound_shutdown ≡ false)
    × (s'.app_reads ≡ [])
on_app_data_example =
    on_app_data_lem socket (9 ∷ []) [] refl refl (rw capacity_left (omega arith)) (omega arith)
      (omega arith) (rw capacity_left (omega arith))

on_writable_example :
    (s' : Socket Script) × (on_writable socket ≡ some s')
    × (s'.delivered ≡ 1 ∷ [])
    × ((inbound s').buffer ≡ [])
    × (s'.inbound_shutdown ≡ (over s' || false))
    × (s'.thread_data ≡ (
        if over s'
        then FileDescriptor.shut (register_write descriptor) shut_wr
        else register_write descriptor))
    × (s'.shutdowns ≡ (if over s' then [] else returned 0 ∷ []))
unfolding inbound
on_writable_example =
    on_writable_lem socket 1 0 [] [] refl refl (omega arith) (λ e. absurd (omega arith))

-- Both streams have ended: the application's bytes are at their end, so that the rule for them is gone, and
-- the inbound stream was passed on.
abbrev finished : Socket Script
finished = record socket {
  tcp = record done {
    active = false;
    receiver = record (done.receiver) {
      reassembler = record (done.receiver.reassembler) {
        output = record (done.receiver.reassembler.output) { buffer = []; bytes_read = 2 };
      };
    };
  };
  has_tcp = true;
  thread_data = record descriptor { eof = true; read_count = 2; write_count = 2 };
  inbound_shutdown = true;
  outbound_shutdown = true;
  fully_acked = true;
  delivered = 0 ∷ 1 ∷ [];
}

finished-IsDone : IsDone finished
unfolding inbound
finished-IsDone = record { over = refl; drained = refl; passed_on = refl; sent = refl }

finished_live : AllLive (rules_left script_ops false) finished
unfolding datagram_rule deliver_rule segments_rule defunct
finished_live = (refl, (refl, (refl, tt)))

finished_exits :
    wait_next_event (rules_left script_ops false) timed_out finished
    ≡ some (exit, finished, rules_left script_ops false)
finished_exits = wait_done script_ops false timed_out finished finished_live finished-IsDone

exit-IsDone_example : (exit ≡ exit) ↔ IsDone finished
exit-IsDone_example =
    exit-IsDone script_ops false timed_out finished finished exit (rules_left script_ops false)
      (record { adapter_reads = refl; adapter_open = refl; socket_open = refl }) (λ e. cc)
      finished_exits
