-- ===== src/StreamCopy/Flow.antt =====
-- apps/bidirectional_stream_copy.cc: how bytes go into one of the streams and out of it.
use com_net_sponge.Prelude.{
  ℕ, ◌≤◌, ◌<◌, ◌^◌, ◌≡◌, inl, inr, ap, sym, subst, ◌∙◌, Bool, true, false, if◌then◌else◌, List, [],
  ◌∷◌, ◌++◌, append_assoc, length, length-append, length-take, take, take_all, take-append-drop,
  drop, length-drop, min, arith,
}
use com_net_sponge.ByteStream
use com_net_sponge.ByteStream.{ByteStream}
use com_net_sponge.ByteStream.Laws.{room, write_lem, peek_output_lem, pop_output_lem}
use com_net_sponge.EventLoop.Laws.{After}
use com_net_sponge.FileDescriptor
use com_net_sponge.FileDescriptor.{
  FdWrapper, Answer, ReadAnswer, read_failed, gave, WriteResult, wrote, threw, blocked, shut_wr,
}
use com_net_sponge.FileDescriptor.Laws.{read_gives, read_fails, Sent, write-Sent}
use com_net_sponge.SpongeSocket.Inbound.{take-take}
use com_net_sponge.StreamCopy.{max_copy_length, buffer_capacity, fill, written, drain}

-- What came out of a stream and what is still in it is what went in.
abbrev pub Flow : List ℕ → List ℕ → ByteStream → Type 0
Flow got out b =
    (out ++ b.buffer ≡ got) × (length b.buffer ≤ b.capacity) × (b.capacity ≡ buffer_capacity)

written_whole :
    (b : ByteStream) (bytes : List ℕ)
    → length bytes ≤ room b
    → ((ByteStream.write b bytes).0.buffer ≡ b.buffer ++ bytes)
      × ((ByteStream.write b bytes).0.capacity ≡ b.capacity)
written_whole b bytes fits =
    let w = write_lem b bytes in
    (
      ap (λ t. t.0.buffer) w ∙ ap (λ x. b.buffer ++ x) (take_all (room b) bytes fits),
      ap (λ t. t.0.capacity) w,
    )

Flow-write :
    (got out bytes : List ℕ) (b : ByteStream)
    → length bytes ≤ room b
    → Flow got out b
    → Flow (got ++ bytes) out (ByteStream.write b bytes).0
Flow-write got out bytes b fits (all, within, cap) =
    let (buffer, same) = written_whole b bytes fits in
    let long = length-append b.buffer bytes in
    (
      ap (λ x. out ++ x) buffer ∙ sym (append_assoc out b.buffer bytes) ∙ ap (λ x. x ++ bytes) all,
      omega (arith, ap length buffer),
      same ∙ cap,
    )

pub Flow-end :
    (got out : List ℕ) (b : ByteStream) → Flow got out b → Flow got out (ByteStream.end_input b)
unfolding ByteStream.end_input
Flow-end got out b h = h

Flow-either :
    (got out : List ℕ) (eof : Bool) (b : ByteStream)
    → Flow got out b
    → Flow got out (if eof then ByteStream.end_input b else b)
Flow-either got out true b h = Flow-end got out b h
Flow-either got out false b h = h

Flow-pop :
    (got out : List ℕ) (n : ℕ) (b : ByteStream)
    → Flow got out b
    → Flow got (out ++ take n b.buffer) (ByteStream.pop_output b n)
Flow-pop got out n b (all, within, cap) = rw (pop_output_lem b n) (
  append_assoc out (take n b.buffer) (drop n b.buffer)
      ∙ ap (λ x. out ++ x) (take-append-drop n b.buffer)
      ∙ all,
  omega (arith, length-drop n b.buffer),
  cap,
)

room_lem :
    (got out : List ℕ) (b : ByteStream) → Flow got out b → ByteStream.remaining_capacity b ≡ room b
unfolding ByteStream.remaining_capacity
room_lem got out b (all, within, cap) = omega (arith, cap)

module _ (got out : List ℕ) (f : FdWrapper) (b : ByteStream) (h : Flow got out b) where
  pub fill-Flow :
      (answers : List ReadAnswer) → After (λ x. Flow (got ++ x.3) out x.1) (fill f b answers)
  unfolding fill
  fill-Flow [] = tt
  fill-Flow (read_failed errno ∷ answers) =
      rw (fill, read_fails f (ByteStream.remaining_capacity b) errno) tt
  fill-Flow (gave bytes ∷ answers) = elim (read_gives f (ByteStream.remaining_capacity b) bytes) [
    | inl e ↦ rw (fill, e) tt
    | inr (f', e, within) ↦
        rw (fill, e)
          (Flow-either (got ++ bytes) out f'.eof (ByteStream.write b bytes).0
            (Flow-write got out bytes b (omega (arith, room_lem got out b h)) h))
  ]

  written-Flow :
      (m : ℕ) (answers : List Answer) (r : WriteResult)
      → Sent (take m b.buffer) r
      → After (λ x. Flow got (out ++ x.3) x.1) (written b answers r)
  unfolding written
  written-Flow m answers (threw f' part) s = tt
  written-Flow m answers (blocked f' part) s = tt
  written-Flow m answers (wrote f' part n) (fits, same) =
      subst (λ x. Flow got (out ++ x) (ByteStream.pop_output b n))
        (sym (same ∙ take-take n m b.buffer fits)) (Flow-pop got out n b h)

  pub drain-Flow :
      (answers : List Answer) → After (λ x. Flow got (out ++ x.3) x.1) (drain f b answers)
  unfolding drain
  drain-Flow [] = tt
  drain-Flow (answer ∷ answers) =
      let m : ℕ = min max_copy_length (ByteStream.buffer_size b) in
      let buffer : List ℕ = ByteStream.peek_output b m in
      let shown : buffer ≡ take m b.buffer = peek_output_lem b m in
      let short : length buffer < 2 ^ 64 = omega (arith, ap length shown, length-take m b.buffer) in
      written-Flow m answers (FileDescriptor.write f buffer false (answer ∷ [])) (
        subst (λ x. Sent x (FileDescriptor.write f buffer false (answer ∷ []))) shown
          (write-Sent f buffer answer short))
