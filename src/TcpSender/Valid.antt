-- ===== src/TcpSender/Valid.antt =====
-- The invariant of libsponge/tcp_sender.cc: the segments in flight lie end to end up to the next
-- sequence number, and carry the bytes of the outbound stream that their numbers say.
use com_net_sponge.Prelude.{
  ℕ, ◌+◌, ◌-◌, ◌≤◌, ◌<◌, ◌^◌, ◌≡◌, refl, sym, ap, subst, ◌∙◌, inl, inr, Bool-cases, List, [], ◌∷◌,
  ◌++◌, append_assoc, length, length-append, arith,
}
use com_net_sponge.Prelude.Words.{add64}
use com_net_sponge.ByteStream.{ByteStream}
use com_net_sponge.WrappingInt32.{wrap}
use com_net_sponge.Reassembler.Content.{Agrees, Agrees-split}
use com_net_sponge.TcpSegment.{TcpSegment, flag, length_in_sequence_space}
use com_net_sponge.TcpSender.{TcpSender, Outstanding, flight_loop, bytes_in_flight, enqueue, rounds}
use com_net_sponge.TcpSender.Round.{IsOutbound, Placed, Sends}

-- The absolute sequence number of the front segment, or `last` if none is in flight.
abbrev pub first : List Outstanding → ℕ → ℕ
first [] last = last
first ((k, seg) ∷ q) last = k

-- The payloads of a queue, in order.
abbrev pub payloads : List Outstanding → List ℕ
payloads [] = []
payloads ((k, seg) ∷ q) = seg.payload ++ payloads q

module _ (f : ℕ → ℕ) (isn : ℕ) where
  -- A segment at absolute number `k` carries the bytes of the stream behind the SYN.
  pub record IsCut (k : ℕ) (seg : TcpSegment) : Type 0 where
    pub numbered : seg.seqno ≡ wrap k isn
    pub content : Agrees f (k + flag seg.syn - 1) seg.payload
    pub behind_syn : 0 < length seg.payload → 1 ≤ k + flag seg.syn

  -- The queue covers the numbers from its front up to `last` with no gap and no overlap.
  abbrev pub Chain : ℕ → List Outstanding → Type 0
  Chain last [] = Unit {0}
  Chain last ((k, seg) ∷ q) =
      IsCut k seg × (first q last ≡ k + length_in_sequence_space seg) × Chain last q

  pub Chain-append :
      (q : List Outstanding) (last : ℕ) (seg : TcpSegment) (next : ℕ)
      → Chain last q
      → IsCut last seg
      → next ≡ last + length_in_sequence_space seg
      → Chain next (q ++ ((last, seg) ∷ [])) × (first (q ++ ((last, seg) ∷ [])) next ≡ first q last)
  Chain-append [] last seg next c s e = ((s, e, tt), refl)
  Chain-append ((k, x) ∷ q) last seg next c s e =
      let (c', e') = Chain-append q last seg next c.2 s e in ((c.0, e' ∙ c.1, c'), refl)

  pub first-le : (q : List Outstanding) (last : ℕ) → Chain last q → first q last ≤ last
  first-le [] last c = omega arith
  first-le ((k, x) ∷ q) last c = omega (arith, first-le q last c.2)

  -- The sizes in the queue add up to the numbers that it covers.
  pub flight_loop_lem :
      (q : List Outstanding) (last res : ℕ)
      → Chain last q
      → res + (last - first q last) < 2 ^ 64
      → flight_loop q res ≡ res + (last - first q last)
  unfolding flight_loop
  flight_loop_lem [] last res c b = omega arith
  flight_loop_lem ((k, seg) ∷ q) last res c b =
      let e : add64 res (length_in_sequence_space seg) ≡ res + length_in_sequence_space seg =
        omega (arith, c.1, first-le q last c.2) in
      rw e (
        omega (
          arith,
          c.1,
          first-le q last c.2,
          flight_loop_lem q last (res + length_in_sequence_space seg) c.2
              (omega (arith, c.1, first-le q last c.2)),
        ))

pub payloads-append : (q r : List Outstanding) → payloads (q ++ r) ≡ payloads q ++ payloads r
payloads-append [] r = refl
payloads-append ((k, seg) ∷ q) r =
    rw (payloads-append q r) (sym (append_assoc seg.payload (payloads q) (payloads r)))

pub record IsSender (f : ℕ → ℕ) (s : TcpSender) : Type 0 where
  pub outbound : IsOutbound f s.stream
  pub placed : Placed s
  pub chained : Chain f s.isn s.next_seqno s.outstanding

pub next_seqno-le : (s : TcpSender) → Placed s → s.next_seqno ≤ 2 + s.stream.bytes_read
next_seqno-le s p = ground arith

-- `bytes_in_flight` is the length of the covered range of sequence numbers.
pub bytes_in_flight_lem :
    (f : ℕ → ℕ) (s : TcpSender)
    → IsSender f s
    → bytes_in_flight s ≡ s.next_seqno - first s.outstanding s.next_seqno
unfolding bytes_in_flight
bytes_in_flight_lem f s v =
    flight_loop_lem f s.isn s.outstanding s.next_seqno 0 v.chained
      (omega (arith, next_seqno-le s v.placed, v.outbound.small))
    ∙ omega arith

-- Queueing the segment of a round keeps the invariant and brings the loop nearer to its end.
module _ (f : ℕ → ℕ) (s : TcpSender) (v : IsSender f s) (seg : TcpSegment) (b : ByteStream)
    (d : Sends s seg b) where
  abbrev sent : TcpSender
  sent = enqueue (record s { stream = b }) seg

  sent_size : length s.stream.buffer ≡ length seg.payload + length b.buffer
  sent_size = omega (arith, ap length d.taken, length-append seg.payload b.buffer)

  pub sent_next :
      add64 s.next_seqno (length_in_sequence_space seg)
      ≡ s.next_seqno + length_in_sequence_space seg
  unfolding length_in_sequence_space
  sent_next =
      ground
        (arith, next_seqno-le s v.placed, v.outbound.small, v.outbound.counted, d.place, sent_size)

  split :
      Agrees f s.stream.bytes_read seg.payload
      × Agrees f (s.stream.bytes_read + length seg.payload) b.buffer
  split =
      Agrees-split f s.stream.bytes_read seg.payload b.buffer
        (subst (λ xs. Agrees f s.stream.bytes_read xs) (sym d.taken) v.outbound.buffered)

  pub sent-IsCut : IsCut f s.isn s.next_seqno seg
  sent-IsCut = record {
    numbered = d.numbered;
    content =
        let e : s.stream.bytes_read ≡ s.next_seqno + flag seg.syn - 1 = omega (arith, d.place) in
        subst (λ k. Agrees f k seg.payload) e split.0;
    behind_syn = λ _. omega (arith, d.place);
  }

  sent-Placed : Placed sent
  unfolding enqueue length_in_sequence_space
  sent-Placed = elim (Bool-cases seg.fin) [
    | inl e ↦ inr (inr (ground (arith, sent_next, d.place, d.read), d.closing e))
    | inr e ↦ inr (inl (ground (arith, sent_next, d.place, d.read)))
  ]

  sent-IsOutbound : IsOutbound f b
  sent-IsOutbound = record {
    buffered = subst (λ k. Agrees f k b.buffer) (sym d.read) split.1;
    counted = omega (arith, sent_size, d.read, d.written, v.outbound.counted);
    small = omega (arith, d.written, v.outbound.small);
  }

  pub sent-IsSender : IsSender f sent
  unfolding enqueue
  sent-IsSender = record {
    outbound = sent-IsOutbound;
    placed = sent-Placed;
    chained =
        (Chain-append f s.isn s.outstanding s.next_seqno seg
          (add64 s.next_seqno (length_in_sequence_space seg)) v.chained sent-IsCut sent_next).0;
  }

  pub sent-rounds : rounds sent < rounds s
  unfolding enqueue
  sent-rounds =
      omega (arith, sent_next, sent_size, d.positive, d.place, d.written, v.outbound.counted)
