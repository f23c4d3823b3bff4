-- ===== src/TcpSender/Round.antt =====
-- One round of `fill_window` in libsponge/tcp_sender.cc: either it stops and changes nothing, or it
-- sends a segment that takes its payload from the front of the stream and fits the space.
use com_net_sponge.Prelude.{
  ℕ, ◌+◌, ◌-◌, ◌≤◌, ◌<◌, ◌^◌, ◌≡◌, ◌⊎◌, refl, inl, inr, true, false, not, ◌&&◌, ◌||◌, Bool-cases,
  ltb, ◌==◌, ◌++◌, is_empty_iff, length, length-take, length-drop, take, drop, take-append-drop,
  min, arith,
}
use com_net_sponge.Prelude.Words.{add64, sub64}
use com_net_sponge.ByteStream
use com_net_sponge.ByteStream.{ByteStream}
use com_net_sponge.ByteStream.Laws.{read_lem, pop_output_lem}
use com_net_sponge.WrappingInt32.{wrap}
use com_net_sponge.Reassembler.Content.{Agrees}
use com_net_sponge.TcpSegment.{TcpSegment, default_header, flag, length_in_sequence_space}
use com_net_sponge.TcpSender.{
  TcpSender, available_space, fin_needed, make_segment, enqueue, fill_round,
}

-- The outbound stream holds the bytes of `f` from `bytes_read` on, and no counter is near overflow.
pub record IsOutbound (f : ℕ → ℕ) (b : ByteStream) : Type 0 where
  pub buffered : Agrees f b.bytes_read b.buffer
  pub counted : b.bytes_written ≡ b.bytes_read + length b.buffer
  pub small : b.bytes_written + 2 < 2 ^ 63

-- Where the next sequence number stands: before the SYN, behind the SYN and the bytes that were read,
-- or behind the FIN too.
abbrev pub Placed : TcpSender → Type 0
Placed s =
    ((s.next_seqno ≡ 0) × (s.stream.bytes_read ≡ 0))
    ⊎ (s.next_seqno ≡ 1 + s.stream.bytes_read)
    ⊎ ((s.next_seqno ≡ 2 + s.stream.bytes_read) × (ByteStream.eof s.stream ≡ true))

-- What a round that goes on sends, and the stream that it leaves.
pub record Sends (s : TcpSender) (seg : TcpSegment) (b : ByteStream) : Type 0 where
  pub numbered : seg.seqno ≡ wrap s.next_seqno s.isn
  pub opening : seg.syn ≡ (s.next_seqno == 0)
  pub taken : seg.payload ++ b.buffer ≡ s.stream.buffer
  pub read : b.bytes_read ≡ s.stream.bytes_read + length seg.payload
  pub written : b.bytes_written ≡ s.stream.bytes_written
  pub place : s.next_seqno + flag seg.syn ≡ 1 + s.stream.bytes_read
  pub closing : seg.fin ≡ true → ByteStream.eof b ≡ true
  pub positive : 0 < length_in_sequence_space seg
  pub fits : length_in_sequence_space seg ≤ available_space s
  pub short : length seg.payload ≤ 1000

-- A round stops only for want of space, or when the SYN is out, the stream is empty and no FIN is due.
abbrev pub Exhausted : TcpSender → Type 0
Exhausted s =
    (available_space s ≡ 0)
    ⊎ ((0 < s.next_seqno) × (length s.stream.buffer ≡ 0) × (fin_needed s ≡ false))

module _ (f : ℕ → ℕ) (s : TcpSender) (v : IsOutbound f s.stream) where
  -- The bytes that go into the payload.
  abbrev limit : ℕ → ℕ
  limit space = min 1000 (space - flag (s.next_seqno == 0))

  abbrev rest_of : ℕ → ByteStream
  rest_of space = record (s.stream) {
    buffer = drop (limit space) s.stream.buffer;
    bytes_read = s.stream.bytes_read + min (limit space) (length s.stream.buffer);
  }

  abbrev segment_of : ℕ → TcpSegment
  segment_of space = record {
    header = record default_header {
      seqno = wrap s.next_seqno s.isn;
      syn = s.next_seqno == 0;
      fin =
          ByteStream.eof (rest_of space)
          && ByteStream.buffer_empty (rest_of space)
          && ltb (length (take (limit space) s.stream.buffer)) (space - flag (s.next_seqno == 0));
    };
    payload = take (limit space) s.stream.buffer;
  }

  make_segment_lem :
      (space : ℕ)
      → 0 < space
      → space < 2 ^ 64
      → make_segment s space ≡ (segment_of space, rest_of space)
  unfolding make_segment
  make_segment_lem space p b =
      let room : sub64 space (flag (s.next_seqno == 0)) ≡ space - flag (s.next_seqno == 0) =
        ground arith in
      let count : add64 s.stream.bytes_read (min (limit space) (length s.stream.buffer))
          ≡ s.stream.bytes_read + min (limit space) (length s.stream.buffer) =
        omega (arith, v.counted, v.small) in
      let spare : ltb 0
            (sub64 (space - flag (s.next_seqno == 0)) (length (take (limit space) s.stream.buffer)))
          ≡ ltb (length (take (limit space) s.stream.buffer)) (space - flag (s.next_seqno == 0)) =
        ground (arith, length-take (limit space) s.stream.buffer) in
      rw
        (room, read_lem s.stream (limit space), pop_output_lem s.stream (limit space), count, spare)
        refl

  -- The loop goes on past its second test.
  abbrev Going : Type 0
  Going =
      (not (s.next_seqno == 0) && ByteStream.buffer_empty s.stream && not (fin_needed s)) ≡ false

  -- Behind the FIN nothing is left to send.
  going_place : Placed s → Going → s.next_seqno + flag (s.next_seqno == 0) ≡ 1 + s.stream.bytes_read
  unfolding fin_needed ByteStream.eof ByteStream.buffer_empty
  going_place p g = ground (arith, v.counted, v.small, is_empty_iff s.stream.buffer)

  segment_positive :
      (space : ℕ) → 0 < space → Going → 0 < length_in_sequence_space (segment_of space)
  unfolding length_in_sequence_space fin_needed ByteStream.eof ByteStream.buffer_empty
  segment_positive space p g = ground (
    arith,
    is_empty_iff s.stream.buffer,
    is_empty_iff (drop (limit space) s.stream.buffer),
    length-take (limit space) s.stream.buffer,
    length-drop (limit space) s.stream.buffer,
  )

  segment_fits : (space : ℕ) → 0 < space → length_in_sequence_space (segment_of space) ≤ space
  unfolding length_in_sequence_space
  segment_fits space p = ground (arith, length-take (limit space) s.stream.buffer)

  segment_closing :
      (space : ℕ) → (segment_of space).fin ≡ true → ByteStream.eof (rest_of space) ≡ true
  segment_closing space e = ground arith

  going-Sends :
      (space : ℕ)
      → 0 < space
      → space ≡ available_space s
      → Placed s
      → Going
      → Sends s (segment_of space) (rest_of space)
  going-Sends space p e place g = record {
    numbered = refl;
    opening = refl;
    taken = take-append-drop (limit space) s.stream.buffer;
    read = omega (arith, length-take (limit space) s.stream.buffer);
    written = refl;
    place = going_place place g;
    closing = segment_closing space;
    positive = segment_positive space p g;
    fits = omega (arith, segment_fits space p);
    short = omega (arith, length-take (limit space) s.stream.buffer);
  }

  available_space-lt : available_space s < 2 ^ 64
  unfolding available_space
  available_space-lt = ground arith

  -- A round stops the loop and changes nothing, or it goes on and sends a segment.
  pub fill_round_cases :
      Placed s
      → ((fill_round s ≡ (s, false)) × Exhausted s)
        ⊎ ((seg : TcpSegment) × (b : ByteStream) × (fill_round s
              ≡ (enqueue (record s { stream = b }) seg, true))
            × Sends s seg b)
  unfolding fill_round ByteStream.buffer_empty
  fill_round_cases place = elim (Bool-cases (available_space s == 0)) [
    | inl e ↦ inl (rw e, inl (ground arith))
    | inr e ↦
        elim (Bool-cases
          (not (s.next_seqno == 0) && ByteStream.buffer_empty s.stream && not (fin_needed s))) [
            | inl stop ↦ inl (rw (e, stop), inr (ground (arith, is_empty_iff s.stream.buffer)))
            | inr g ↦
                let some_space : 0 < available_space s = ground arith in
                let check : (length_in_sequence_space (segment_of (available_space s)) == 0
                      || ltb (available_space s)
                          (length_in_sequence_space (segment_of (available_space s))))
                    ≡ false =
                  ground (
                    arith,
                    segment_positive (available_space s) some_space g,
                    segment_fits (available_space s) some_space,
                  ) in
                inr (
                  segment_of (available_space s),
                  rest_of (available_space s),
                  rw (
                    e,
                    g,
                    make_segment_lem (available_space s) some_space available_space-lt,
                    check,
                  ),
                  going-Sends (available_space s) some_space refl place g,
                )
          ]
  ]
