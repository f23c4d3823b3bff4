-- ===== src/TcpReceiver/Session.antt =====
-- libsponge/tcp_receiver.cc over a whole session: from the state before the SYN, what the reader has taken
-- and what is buffered for it is the start of the peer's stream.
use com_net_sponge.Prelude.{
  ℕ, ◌+◌, ◌-◌, ◌≤◌, ◌<◌, ◌^◌, ◌≡◌, ◌⊎◌, inl, inr, refl, ap, sym, ◌∙◌, true, false, ◌||◌, List, [],
  ◌++◌, length, length-append, length-take, take, some, arith,
}
use com_net_sponge.ByteStream
use com_net_sponge.ByteStream.Laws.{pop_output_lem}
use com_net_sponge.WrappingInt32.{wrap}
use com_net_sponge.Reassembler
use com_net_sponge.Reassembler.{Reassembler}
use com_net_sponge.Reassembler.Content.{Agrees, Agrees-append, Agrees-take}
use com_net_sponge.Reassembler.Valid.{IsValid}
use com_net_sponge.Reassembler.History.{popped-IsValid, new-IsPrefix}
use com_net_sponge.TcpSegment.{TcpSegment}
use com_net_sponge.TcpReceiver
use com_net_sponge.TcpReceiver.{
  TcpReceiver, note_fin, push_payload, segment_received, with_stream_out,
}
use com_net_sponge.TcpReceiver.Laws.{
  IsSynced, Carries, note_fin_lem, push_payload_empty, segment_received_both,
}

-- The first SYN gives the receiver its ISN.
segment_received_first :
    (r : TcpReceiver) (seg : TcpSegment)
    → r.syn ≡ false
    → seg.syn ≡ true
    → seg.payload ≡ []
    → segment_received r seg ≡ some (note_fin (record r { isn = seg.seqno; syn = true }) seg)
unfolding segment_received
segment_received_first r seg closed is_syn empty =
    let pushed = push_payload_empty (record r { isn = seg.seqno; syn = true }) seg empty in
    ground (arith, pushed)

segment_received_again :
    (r : TcpReceiver) (seg : TcpSegment)
    → r.syn ≡ true
    → seg.payload ≡ []
    → segment_received r seg ≡ some (note_fin r seg)
unfolding segment_received
segment_received_again r seg synced empty = ground (arith, push_payload_empty r seg empty)

-- Before the SYN all else is dropped.
segment_received_early :
    (r : TcpReceiver) (seg : TcpSegment)
    → r.syn ≡ false
    → seg.syn ≡ false
    → segment_received r seg ≡ some r
unfolding segment_received
segment_received_early r seg closed no_syn = rw (closed, no_syn) refl

module _ (f : ℕ → ℕ) (size isn : ℕ) where
  -- A segment of the peer: its SYN, which is numbered by the ISN and carries no bytes, or bytes of its
  -- stream.
  pub data Speaks (seg : TcpSegment) : Type 0 where
    opens : seg.syn ≡ true → seg.seqno ≡ isn → seg.payload ≡ [] → Speaks seg
    carries :
        (i : ℕ)
        → seg.syn ≡ false
        → seg.seqno ≡ wrap (i + 1) isn
        → i + length seg.payload ≤ size
        → Agrees f i seg.payload
        → Speaks seg

  -- `got` is what the reader has taken so far.
  pub record IsReceiving (got : List ℕ) (r : TcpReceiver) : Type 0 where
    pub phase : (r.syn ≡ false) ⊎ ((r.syn ≡ true) × (r.isn ≡ isn))
    pub valid : IsValid f size r.reassembler
    pub roomy : size + r.reassembler.capacity < 2 ^ 64
    pub taken : Agrees f 0 got
    pub counted : length got ≡ r.reassembler.output.bytes_read

  pub new-IsReceiving :
      (capacity : ℕ)
      → size < 2 ^ 64 - 1
      → size + capacity < 2 ^ 64
      → IsReceiving [] (TcpReceiver.new capacity)
  unfolding TcpReceiver.new Reassembler.new ByteStream.new
  new-IsReceiving capacity b w = record {
    phase = inl refl;
    valid = (new-IsPrefix f size capacity b w).valid;
    roomy = w;
    taken = tt;
    counted = refl;
  }

  -- The whole of it: in order, from the start of the stream, without a gap.
  pub whole :
      (got : List ℕ) (r : TcpReceiver)
      → IsReceiving got r
      → Agrees f 0 (got ++ r.reassembler.output.buffer)
        × (length (got ++ r.reassembler.output.buffer) ≡ r.reassembler.first_unassembled)
  whole got r v =
      let out = r.reassembler.output in
      (
        Agrees-append f 0 out.bytes_read got out.buffer (omega (arith, v.counted)) v.taken
            v.valid.buffered,
        omega (arith, length-append got out.buffer, v.counted, v.valid.steady.count),
      )

  -- The reader takes bytes.
  pub popped-IsReceiving :
      (got : List ℕ) (r : TcpReceiver) (n : ℕ)
      → IsReceiving got r
      → IsReceiving
          (got ++ take n r.reassembler.output.buffer)
          (with_stream_out r (ByteStream.pop_output r.reassembler.output n))
  unfolding with_stream_out
  popped-IsReceiving got r n v = record {
    phase = v.phase;
    valid = popped-IsValid f size r.reassembler n v.roomy v.valid;
    roomy = v.roomy;
    taken =
        Agrees-append f 0 r.reassembler.output.bytes_read got (take n r.reassembler.output.buffer)
          (omega (arith, v.counted)) v.taken
          (Agrees-take f n r.reassembler.output.bytes_read r.reassembler.output.buffer
            v.valid.buffered);
    counted = rw (pop_output_lem r.reassembler.output n) (
        omega (
          arith,
          v.counted,
          v.valid.steady.count,
          v.valid.inside,
          length-append got (take n r.reassembler.output.buffer),
          length-take n r.reassembler.output.buffer,
        ));
  }

  -- The error flag changes nothing of this.
  pub failed-IsReceiving :
      (got : List ℕ) (r : TcpReceiver)
      → IsReceiving got r
      → IsReceiving got (with_stream_out r (ByteStream.set_error r.reassembler.output))
  unfolding with_stream_out ByteStream.set_error
  failed-IsReceiving got r v = record {
    phase = v.phase;
    valid = record {
      steady = record {
        good = v.valid.steady.good;
        fits = v.valid.steady.fits;
        count = v.valid.steady.count;
        small = v.valid.steady.small;
        window = v.valid.steady.window;
      };
      buffered = v.valid.buffered;
      written = v.valid.written;
      same = v.valid.same;
      inside = v.valid.inside;
    };
    roomy = v.roomy;
    taken = v.taken;
    counted = v.counted;
  }

  -- A segment without bytes for a receiver that has its ISN.
  noted-IsReceiving :
      (got : List ℕ) (r : TcpReceiver) (seg : TcpSegment)
      → r.syn ≡ true
      → r.isn ≡ isn
      → IsReceiving got r
      → IsReceiving got (note_fin r seg) × ((note_fin r seg).syn ≡ true)
  noted-IsReceiving got r seg synced same v =
      let (valid, unread, first, syn_same, isn_same) = note_fin_lem f size r seg v.valid in
      (
        record {
          phase = inr (syn_same ∙ synced, isn_same ∙ same);
          valid = valid;
          roomy = rw (unread.0) v.roomy;
          taken = v.taken;
          counted = v.counted ∙ sym unread.1;
        },
        syn_same ∙ synced,
      )

  opened-IsReceiving :
      (got : List ℕ) (r : TcpReceiver)
      → IsReceiving got r
      → IsReceiving got (record r { isn = isn; syn = true })
  opened-IsReceiving got r v = record {
    phase = inr (refl, refl);
    valid = v.valid;
    roomy = v.roomy;
    taken = v.taken;
    counted = v.counted;
  }

  -- What a call gives: no fault, and a receiver that goes on so, synchronized if it was or by a SYN.
  abbrev pub Continues : List ℕ → TcpReceiver → TcpSegment → Type 0
  Continues got r seg =
      (r' : TcpReceiver) × (segment_received r seg ≡ some r')
      × IsReceiving got r'
      × (r.syn || seg.syn ≡ true → r'.syn ≡ true)

  -- The SYN, for the first time or again.
  received_syn :
      (got : List ℕ) (r : TcpReceiver) (seg : TcpSegment)
      → seg.syn ≡ true
      → seg.seqno ≡ isn
      → seg.payload ≡ []
      → IsReceiving got r
      → Continues got r seg
  received_syn got r seg is_syn number empty v = elim v.phase [
    | inl closed ↦
        let opened : TcpReceiver = record r { isn = isn; syn = true } in
        let first = segment_received_first r seg closed is_syn empty in
        let (v', done) = noted-IsReceiving got opened seg refl refl (opened-IsReceiving got r v) in
        (
          note_fin opened seg,
          first ∙ ap (λ k. some (note_fin (record r { isn = k; syn = true }) seg)) number,
          v',
          λ h. done,
        )
    | inr (synced, same) ↦
        let (v', done) = noted-IsReceiving got r seg synced same v in
        (note_fin r seg, segment_received_again r seg synced empty, v', λ h. done)
  ]

  -- Bytes of the stream, before the SYN or after it.
  received_bytes :
      (got : List ℕ) (r : TcpReceiver) (seg : TcpSegment) (i : ℕ)
      → size < 2 ^ 31 - 1
      → isn < 2 ^ 32
      → seg.syn ≡ false
      → seg.seqno ≡ wrap (i + 1) isn
      → i + length seg.payload ≤ size
      → Agrees f i seg.payload
      → IsReceiving got r
      → Continues got r seg
  received_bytes got r seg i b small no_syn number inside bytes v = elim v.phase [
    | inl closed ↦ (r, segment_received_early r seg closed no_syn, v, λ h. ground arith)
    | inr (synced, same) ↦
        let w : IsSynced f size r = record {
          synced = synced;
          isn_small = rw same small;
          valid = v.valid;
        } in
        let c : Carries f size r i seg = record {
          no_syn = no_syn;
          number = number ∙ ap (wrap (i + 1)) (sym same);
          inside = inside;
          bytes = bytes;
          not_far = omega (arith, v.valid.inside);
          not_old = omega (arith, v.valid.inside);
          not_isn = λ z. omega arith;
        } in
        let (r', e, w', unread, isn_same, grown, advance) =
          segment_received_both f size r i seg (omega arith) w c in
        (
          r',
          e,
          record {
            phase = inr (w'.synced, isn_same ∙ same);
            valid = w'.valid;
            roomy = rw (unread.0) v.roomy;
            taken = v.taken;
            counted = v.counted ∙ sym unread.1;
          },
          λ h. w'.synced,
        )
  ]

  -- Whatever the peer says, in any order and as often as it likes, is taken without fault, and the
  -- session goes on.
  pub segment_received-IsReceiving :
      (got : List ℕ) (r : TcpReceiver) (seg : TcpSegment)
      → size < 2 ^ 31 - 1
      → isn < 2 ^ 32
      → Speaks seg
      → IsReceiving got r
      → Continues got r seg
  segment_received-IsReceiving got r seg b small (opens is_syn number empty) v =
      received_syn got r seg is_syn number empty v
  segment_received-IsReceiving got r seg b small (carries i no_syn number inside bytes) v =
      received_bytes got r seg i b small no_syn number inside bytes v
