-- ===== src/TcpSender.antt =====
-- libsponge/tcp_sender.hh and tcp_sender.cc: the retransmission timer, and the sender that cuts the
-- outbound stream into segments and keeps those in flight. `std::queue`s are lists, front first.
pub mod Round
pub mod Valid
pub mod Fill
pub mod Window
pub mod Ack
pub mod Tick
pub mod Tests
use com_net_sponge.Prelude.{
  ℕ, zero, suc, ◌+◌, ◌-◌, ◌%◌, ◌^◌, Bool, true, false, not, ◌&&◌, ◌||◌, ltb, leb, ◌==◌,
  if◌then◌else◌, List, [], ◌∷◌, ◌++◌, is_empty, length, min,
}
use com_net_sponge.Prelude.Words.{add64, sub64, mul64, add32}
use com_net_sponge.ByteStream
use com_net_sponge.ByteStream.{ByteStream}
use com_net_sponge.WrappingInt32.{WrappingInt32, wrap, unwrap}
use com_net_sponge.TcpSegment.{
  TcpSegment, TcpHeader, default_header, flag, length_in_sequence_space,
}

-- `class Timer`; its fields are of type `unsigned int`.
pub record Timer : Type 0 where
  pub active : Bool
  pub is_expired : Bool
  pub current_time : ℕ
  pub timeout : ℕ

abbrev pub stopped : Timer
stopped = record { active = false; is_expired = false; current_time = 0; timeout = 0 }

-- The argument is converted to `unsigned int`.
unfoldable pub start : Timer → ℕ → Timer
start t timeout = record {
  active = true;
  is_expired = false;
  current_time = 0;
  timeout = timeout % 2 ^ 32;
}

unfoldable pub update : Timer → ℕ → Timer
update t time_elapsed =
    let now : ℕ = add32 t.current_time (time_elapsed % 2 ^ 32) in
    if not t.active then t else record t {
      current_time = now;
      is_expired = (if leb t.timeout now then true else t.is_expired);
    }

unfoldable pub reset : Timer → Timer
reset t = stopped

unfoldable pub expired : Timer → Bool
expired t = t.active && t.is_expired

-- A segment in flight, with its absolute sequence number.
abbrev pub Outstanding : Type 0
Outstanding = ℕ × TcpSegment

pub record TcpSender : Type 0 where
  pub isn : WrappingInt32
  pub segments_out : List TcpSegment
  pub initial_retransmission_timeout : ℕ
  pub stream : ByteStream
  pub timer : Timer
  pub next_seqno : ℕ
  pub abs_ackno : ℕ
  pub window_size : ℕ
  pub outstanding : List Outstanding
  pub bytes_in_flight_count : ℕ
  pub retransmission_timeout : ℕ
  pub consecutive_retransmissions : ℕ

-- The constructor; `isn` is `fixed_isn`, or what `std::random_device` gave.
unfoldable pub new : ℕ → ℕ → WrappingInt32 → TcpSender
unfolding ByteStream.new
new capacity retx_timeout isn = record {
  isn = isn;
  segments_out = [];
  initial_retransmission_timeout = retx_timeout;
  stream = ByteStream.new capacity;
  timer = stopped;
  next_seqno = 0;
  abs_ackno = 0;
  window_size = 1;
  outstanding = [];
  bytes_in_flight_count = 0;
  retransmission_timeout = retx_timeout;
  consecutive_retransmissions = 0;
}

-- The loop of `bytes_in_flight` over its copy of the queue.
unfoldable pub flight_loop : List Outstanding → ℕ → ℕ
flight_loop [] res = res
flight_loop ((k, seg) ∷ q) res = flight_loop q (add64 res (length_in_sequence_space seg))

unfoldable pub bytes_in_flight : TcpSender → ℕ
unfolding flight_loop
bytes_in_flight s = flight_loop s.outstanding 0

-- `TCPConfig::MAX_PAYLOAD_SIZE`.
abbrev pub max_payload_size : ℕ
max_payload_size = 1000

abbrev pub effective_window : TcpSender → ℕ
effective_window s = if s.window_size == 0 then 1 else s.window_size

-- `available_space` of `fill_window`, on `uint64_t`.
unfoldable pub available_space : TcpSender → ℕ
available_space s =
    let diff : ℕ = sub64 (add64 s.abs_ackno (effective_window s)) s.next_seqno in
    if ltb 0 diff then diff else 0

unfoldable pub fin_needed : TcpSender → Bool
fin_needed s =
    ByteStream.eof s.stream
    && ByteStream.buffer_empty s.stream
    && ltb s.next_seqno (add64 s.stream.bytes_written 2)

-- The segment that a round of `fill_window` makes, and the stream after its payload was read.
unfoldable pub make_segment : TcpSender → ℕ → TcpSegment × ByteStream
make_segment s space =
    let syn : Bool = s.next_seqno == 0 in
    let room : ℕ = sub64 space (flag syn) in
    let (stream, payload) = ByteStream.read s.stream (min max_payload_size room) in
    let fin_space : Bool = ltb 0 (sub64 room (length payload)) in
    let fin : Bool = ByteStream.eof stream && ByteStream.buffer_empty stream && fin_space in
    (
      record {
        header = record default_header { seqno = wrap s.next_seqno s.isn; syn = syn; fin = fin };
        payload = payload;
      },
      stream,
    )

-- The end of a round: the segment is queued, numbered and timed.
unfoldable pub enqueue : TcpSender → TcpSegment → TcpSender
enqueue s seg =
    let size : ℕ = length_in_sequence_space seg in
    record s {
      segments_out = s.segments_out ++ (seg ∷ []);
      outstanding = s.outstanding ++ ((s.next_seqno, seg) ∷ []);
      bytes_in_flight_count = add64 s.bytes_in_flight_count size;
      next_seqno = add64 s.next_seqno size;
      timer = (if not s.timer.active then start s.timer s.retransmission_timeout else s.timer);
    }

-- One round of `fill_window`: the state after it, and whether the loop goes on.
unfoldable pub fill_round : TcpSender → TcpSender × Bool
fill_round s =
    let space : ℕ = available_space s in
    let (seg, stream) = make_segment s space in
    let size : ℕ = length_in_sequence_space seg in
    if space == 0
    then (s, false)
    else if not (s.next_seqno == 0) && ByteStream.buffer_empty s.stream && not (fin_needed s)
    then (s, false)
    else if size == 0 || ltb space size
    then (record s { stream = stream }, false)
    else (enqueue (record s { stream = stream }) seg, true)

-- The `while (true)` loop, on fuel.
unfoldable pub fill_loop : ℕ → TcpSender → TcpSender
fill_loop zero s = s
fill_loop (suc fuel) s =
    let (s', more) = fill_round s in let rest = fill_loop fuel s' in if more then rest else s'

-- A number of rounds that the loop cannot reach.
abbrev pub rounds : TcpSender → ℕ
rounds s = length s.stream.buffer + (s.stream.bytes_written + 2 - s.next_seqno)

unfoldable pub fill_window : TcpSender → TcpSender
unfolding fill_loop
fill_window s = fill_loop (suc (rounds s)) s

-- A round of the loop of `ack_received`: the front segment, acknowledged, leaves the queue.
unfoldable pub pop_acked : TcpSender → TcpSegment → List Outstanding → TcpSender
pop_acked s seg rest = record s {
  bytes_in_flight_count = sub64 s.bytes_in_flight_count (length_in_sequence_space seg);
  outstanding = rest;
  consecutive_retransmissions = 0;
  retransmission_timeout = s.initial_retransmission_timeout;
  timer = (if is_empty rest then reset s.timer else start s.timer s.initial_retransmission_timeout);
}

-- The loop of `ack_received`, over the queue from its front.
unfoldable pub ack_loop : ℕ → List Outstanding → TcpSender → TcpSender
ack_loop abs_ackno [] s = s
ack_loop abs_ackno ((k, seg) ∷ rest) s =
    let next = ack_loop abs_ackno rest (pop_acked s seg rest) in
    if leb (add64 k (length_in_sequence_space seg)) abs_ackno then next else s

unfoldable pub ack_received : TcpSender → WrappingInt32 → ℕ → TcpSender
ack_received s ackno window =
    let abs_ackno : ℕ = unwrap ackno s.isn (add64 s.abs_ackno 1) in
    let s' : TcpSender = record s { window_size = window } in
    let acked : TcpSender = record s' { abs_ackno = abs_ackno } in
    if ltb s.next_seqno abs_ackno then s' else fill_window (ack_loop abs_ackno s.outstanding acked)

-- The branch of `tick` for an expired timer, at the front of the queue.
unfoldable pub retransmit : TcpSender → Outstanding → TcpSender
retransmit s (k, seg) =
    let again : TcpSegment = record {
      header = record (seg.header) { seqno = wrap k s.isn };
      payload = seg.payload;
    } in
    let timeout : ℕ =
      if ltb 0 s.window_size then mul64 s.retransmission_timeout 2 else s.retransmission_timeout in
    record s {
      segments_out = s.segments_out ++ (again ∷ []);
      consecutive_retransmissions =
          (if ltb 0 s.window_size
            then add32 s.consecutive_retransmissions 1
            else s.consecutive_retransmissions);
      retransmission_timeout = timeout;
      timer = start s.timer timeout;
    }

unfoldable pub tick : TcpSender → ℕ → TcpSender
tick s ms =
    let s' : TcpSender = record s { timer = update s.timer ms } in
    if s.timer.active
    then (if expired s'.timer
        then elim s.outstanding [ [] ↦ s' | front ∷ rest ↦ retransmit s' front ]
        else s')
    else s

unfoldable pub send_empty_segment : TcpSender → TcpSender
send_empty_segment s =
    let seg : TcpSegment = record {
      header = record default_header { seqno = wrap s.next_seqno s.isn };
      payload = [];
    } in
    record s { segments_out = s.segments_out ++ (seg ∷ []) }

-- `send_empty_segment(syn, fin, rst)`.
unfoldable pub send_flags : TcpSender → Bool → Bool → Bool → TcpSender
send_flags s syn fin rst =
    let seg : TcpSegment = record {
      header = record default_header {
        seqno = wrap s.next_seqno s.isn;
        syn = syn;
        fin = fin;
        rst = rst;
      };
      payload = [];
    } in
    record s {
      segments_out = s.segments_out ++ (seg ∷ []);
      outstanding = s.outstanding ++ ((s.next_seqno, seg) ∷ []);
      next_seqno = add64 s.next_seqno (length_in_sequence_space seg);
    }
