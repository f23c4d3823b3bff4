-- ===== src/TcpConnection/Outbound.antt =====
-- libsponge/tcp_connection.cc: what leaves a connection, and that what must be answered is.
use com_net_sponge.Prelude.{
  ℕ, ◌+◌, ◌^◌, ◌<◌, ◌≡◌, refl, ap, sym, ◌∙◌, inl, inr, ◌%◌, true, false, Bool-cases, if◌then◌else◌,
  ltb, List, [], ◌∷◌, ◌++◌, map, is_empty, length, append-nil, append_assoc, length-append,
  length-take, take, min, some, arith,
}
use com_net_sponge.ByteStream
use com_net_sponge.ByteStream.Laws.{write_lem, room}
use com_net_sponge.Reassembler.Content.{Agrees, Agrees-append, Agrees-take}
use com_net_sponge.WrappingInt32.{WrappingInt32}
use com_net_sponge.TcpSegment.{TcpSegment, length_in_sequence_space}
use com_net_sponge.TcpReceiver
use com_net_sponge.TcpReceiver.{TcpReceiver}
use com_net_sponge.TcpSender
use com_net_sponge.TcpSender.{TcpSender, Outstanding}
use com_net_sponge.TcpSender.Round.{Exhausted, Placed}
use com_net_sponge.TcpSender.Valid.{IsSender, payloads}
use com_net_sponge.TcpSender.Fill.{fill_window-Filled}
use com_net_sponge.TcpConnection.{
  TcpConnection, stamp, clear_loop, clear_sender_buffer, answer, keep_alive, respond, heard,
  segment_received, connect, write,
}

clear_loop_lem :
    (r : TcpReceiver) (queue out : List TcpSegment)
    → clear_loop r queue out ≡ out ++ map (stamp r) queue
unfolding clear_loop
clear_loop_lem r [] out = sym (append-nil out)
clear_loop_lem r (seg ∷ queue) out =
    clear_loop_lem r queue (out ++ (stamp r seg ∷ []))
    ∙ append_assoc out (stamp r seg ∷ []) (map (stamp r) queue)

-- `_clear_sender_buffer` empties the sender's queue, and puts its segments, in order and stamped, behind
-- those of the connection.
pub clear_sender_buffer_lem :
    (c : TcpConnection)
    → clear_sender_buffer c ≡ record c {
      sender = record (c.sender) { segments_out = [] };
      segments_out = c.segments_out ++ map (stamp c.receiver) c.sender.segments_out;
    }
unfolding clear_sender_buffer
clear_sender_buffer_lem c = rw (clear_loop_lem c.receiver c.sender.segments_out c.segments_out) refl

front_of :
    {A : Type 0} (xs : List A)
    → is_empty xs ≡ false
    → (first : A) × (rest : List A) × (xs ≡ first ∷ rest)
front_of [] e = absurd (ground (arith, e))
front_of (x ∷ xs) e = (x, xs, refl)

is_empty-snoc : {A : Type 0} (xs : List A) (x : A) → is_empty (xs ++ (x ∷ [])) ≡ false
is_empty-snoc [] x = refl
is_empty-snoc (y ∷ xs) x = refl

sends_empty : (s : TcpSender) → is_empty (TcpSender.send_empty_segment s).segments_out ≡ false
unfolding TcpSender.send_empty_segment
sends_empty s = is_empty-snoc s.segments_out _

answer_queues :
    (s : TcpSender) (seg : TcpSegment)
    → 0 < length_in_sequence_space seg
    → is_empty (answer s seg).segments_out ≡ false
unfolding answer
answer_queues s seg h = ground (arith, sends_empty (TcpSender.fill_window s))

answer-queue :
    (s : TcpSender) (seg : TcpSegment)
    → 0 < length_in_sequence_space seg
    → (first : TcpSegment) × (rest : List TcpSegment) × ((answer s seg).segments_out ≡ first ∷ rest)
answer-queue s seg h = front_of (answer s seg).segments_out (answer_queues s seg h)

keep_alive_spares :
    (r : TcpReceiver) (s : TcpSender) (seg : TcpSegment)
    → 0 < length_in_sequence_space seg
    → keep_alive r s seg ≡ s
unfolding keep_alive
keep_alive_spares r s seg h = ground arith

respond_lem :
    (c : TcpConnection) (seg : TcpSegment) (a : WrappingInt32)
    → 0 < length_in_sequence_space seg
    → ((respond c seg a).segments_out
        ≡ c.segments_out
          ++ map
              (stamp c.receiver)
              (answer (TcpSender.ack_received c.sender a seg.header.win) seg).segments_out)
      × ((respond c seg a).receiver ≡ c.receiver)
unfolding respond
respond_lem c seg a h =
    rw
      (
        keep_alive_spares c.receiver (answer (TcpSender.ack_received c.sender a seg.header.win) seg)
            seg h,
        clear_sender_buffer_lem,
      )
      (ground arith)

pub segment_received_lem :
    (c : TcpConnection) (seg : TcpSegment) (r : TcpReceiver) (a : WrappingInt32)
    → seg.header.rst ≡ false
    → TcpReceiver.segment_received c.receiver seg ≡ some r
    → heard r seg ≡ some a
    → segment_received c seg ≡ some (respond (record c { receiver = r; time_last_recv = 0 }) seg a)
unfolding segment_received
segment_received_lem c seg r a no_rst taken known = ground (arith, taken, known)

window_fits : (w : ℕ) → (if ltb 65535 w then 65535 else w % 2 ^ 16) ≡ min 65535 w
window_fits w = ground arith

map_ext : {A B : Type 0} {f g : A → B} → ((x : A) → f x ≡ g x) → (xs : List A) → map f xs ≡ map g xs
map_ext e [] = refl
map_ext {f = f} {g} e (x ∷ xs) = ap (λ y. y ∷ map f xs) (e x) ∙ ap (λ ys. g x ∷ ys) (map_ext e xs)

-- A segment as it is sent with this acknowledgment number and window.
abbrev pub acking : WrappingInt32 → ℕ → TcpSegment → TcpSegment
acking n window seg = record seg {
  header = record (seg.header) { ackno = n; ack = true; win = min 65535 window };
}

stamp-acking :
    (r : TcpReceiver) (n : WrappingInt32) (segs : List TcpSegment)
    → TcpReceiver.ackno r ≡ some n
    → map (stamp r) segs ≡ map (acking n (TcpReceiver.window_size r)) segs
unfolding stamp
stamp-acking r n segs e =
    let fits = window_fits (TcpReceiver.window_size r) in
    map_ext
      (λ seg.
        rw (stamp, e)
          (ap (λ w. record seg { header = record (seg.header) { ackno = n; ack = true; win = w } })
            fits))
      segs

heard_some :
    (r : TcpReceiver) (seg : TcpSegment) (n : WrappingInt32)
    → TcpReceiver.ackno r ≡ some n
    → heard r seg ≡ some (if seg.header.ack then seg.header.ackno else n)
unfolding heard
heard_some r seg n e = elim (Bool-cases seg.header.ack) [
  | inl acks ↦ rw (heard, acks) refl
  | inr other ↦ rw (heard, other, e) refl
]

-- A segment without RST that occupies sequence numbers is answered, when the receiver takes it without
-- fault and has an acknowledgment number afterwards: at least one segment is put behind those that were
-- already to be sent, and all of the new ones carry that acknowledgment number, with the ACK flag, and
-- the receiver's new window, or 65535 if that is less.
pub segment_received_answers :
    (c : TcpConnection) (seg : TcpSegment) (r : TcpReceiver) (n : WrappingInt32)
    → seg.header.rst ≡ false
    → 0 < length_in_sequence_space seg
    → TcpReceiver.segment_received c.receiver seg ≡ some r
    → TcpReceiver.ackno r ≡ some n
    → (c' : TcpConnection) × (first : TcpSegment) × (rest : List TcpSegment) × (segment_received c
          seg
        ≡ some c')
      × (c'.receiver ≡ r)
      × (c'.segments_out
          ≡ c.segments_out ++ map (acking n (TcpReceiver.window_size r)) (first ∷ rest))
segment_received_answers c seg r n no_rst h taken known =
    let a : WrappingInt32 = if seg.header.ack then seg.header.ackno else n in
    let c' : TcpConnection = record c { receiver = r; time_last_recv = 0 } in
    let (first, rest, queue) =
      answer-queue (TcpSender.ack_received c.sender a seg.header.win) seg h in
    let (out, same) = respond_lem c' seg a h in
    (
      respond c' seg a,
      first,
      rest,
      segment_received_lem c seg r a no_rst taken (heard_some r seg n known),
      same,
      rw (out, queue) (ap (λ x. c.segments_out ++ x) (stamp-acking r n (first ∷ rest) known)),
    )

cleared-Exhausted : (s : TcpSender) → Exhausted s → Exhausted (record s { segments_out = [] })
unfolding TcpSender.available_space TcpSender.fin_needed
cleared-Exhausted s h = h

before_end :
    (s : TcpSender) (b : ByteStream.ByteStream)
    → s.stream.input_ended ≡ false
    → b.bytes_read ≡ s.stream.bytes_read
    → Placed s
    → Placed (record s { stream = b })
unfolding ByteStream.eof
before_end s b running same p = ground arith

-- A write keeps the sender valid, when the bytes are those of the stream behind what was written.
write-IsSender :
    (f : ℕ → ℕ) (s : TcpSender) (bytes : List ℕ)
    → IsSender f s
    → s.stream.input_ended ≡ false
    → Agrees f s.stream.bytes_written bytes
    → s.stream.bytes_written + length bytes + 2 < 2 ^ 63
    → IsSender f (record s { stream = (ByteStream.write s.stream bytes).0 })
write-IsSender f s bytes v running right small = rw (write_lem s.stream bytes) (record {
  outbound = record {
    buffered =
        Agrees-append f s.stream.bytes_read s.stream.bytes_written s.stream.buffer
          (take (room s.stream) bytes) (sym v.outbound.counted) v.outbound.buffered
          (Agrees-take f (room s.stream) s.stream.bytes_written bytes right);
    counted = omega (
      arith,
      v.outbound.counted,
      length-append s.stream.buffer (take (room s.stream) bytes),
      length-take (room s.stream) bytes,
    );
    small = omega arith;
  };
  placed = before_end s _ running refl v.placed;
  chained = v.chained;
})

-- `write` into a connection whose sender is valid, before the stream's end: as many bytes are accepted
-- as the stream has room for, and the payloads of the new segments followed by what is left in the
-- stream are what the stream held followed by the accepted bytes. The new segments are stamped and put
-- behind those to be sent, the sender stays valid, and it sends until its own tests stop it.
pub connection_write_lem :
    (f : ℕ → ℕ) (c : TcpConnection) (bytes : List ℕ)
    → IsSender f c.sender
    → c.sender.segments_out ≡ []
    → c.sender.stream.input_ended ≡ false
    → Agrees f c.sender.stream.bytes_written bytes
    → c.sender.stream.bytes_written + length bytes + 2 < 2 ^ 63
    → (fresh : List Outstanding) × ((write c bytes).1 ≡ min (length bytes) (room c.sender.stream))
      × IsSender f (write c bytes).0.sender
      × (payloads fresh ++ (write c bytes).0.sender.stream.buffer
          ≡ c.sender.stream.buffer ++ take (room c.sender.stream) bytes)
      × ((write c bytes).0.segments_out
          ≡ c.segments_out ++ map (stamp c.receiver) (map (λ (p : Outstanding). p.1) fresh))
      × ((write c bytes).0.sender.outstanding ≡ c.sender.outstanding ++ fresh)
      × Exhausted (write c bytes).0.sender
unfolding write connect clear_sender_buffer
connection_write_lem f c bytes v idle running right small =
    let s : TcpSender = record (c.sender) { stream = (ByteStream.write c.sender.stream bytes).0 } in
    let (fresh, h, stopped) =
      fill_window-Filled f s (write-IsSender f c.sender bytes v running right small) in
    let written = write_lem c.sender.stream bytes in
    (
      fresh,
      ap (λ t. t.1) written,
      record { outbound = h.valid.outbound; placed = h.valid.placed; chained = h.valid.chained },
      h.bytes ∙ ap (λ t. t.0.buffer) written,
      clear_loop_lem c.receiver (TcpSender.fill_window s).segments_out c.segments_out
          ∙ ap (λ q. c.segments_out ++ map (stamp c.receiver) q)
              (h.queued ∙ ap (λ q. q ++ map (λ (p : Outstanding). p.1) fresh) idle),
      h.flying,
      cleared-Exhausted (TcpSender.fill_window s) stopped,
    )
