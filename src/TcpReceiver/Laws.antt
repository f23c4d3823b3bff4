-- ===== src/TcpReceiver/Laws.antt =====
-- libsponge/tcp_receiver.cc: which bytes reach the reassembler, and what is advertised to the peer.
use native.Mathlib.Nat.{le_refl}
use com_net_sponge.Prelude.{
  ℕ, ◌+◌, ◌-◌, ◌%◌, ◌≤◌, ◌<◌, ◌^◌, ◌≡◌, ◌≢◌, inl, inr, refl, ap, ◌∙◌, true, false, Bool-cases, ltb,
  ◌==◌, [], length, none, some, min, arith,
}
use com_net_sponge.ByteStream
use com_net_sponge.WrappingInt32.{wrap, unwrap, back, plus}
use com_net_sponge.WrappingInt32.Unwrap.{unwrap-wrap}
use com_net_sponge.Reassembler
use com_net_sponge.Reassembler.SegmentMap.{total}
use com_net_sponge.Reassembler.{Reassembler}
use com_net_sponge.Reassembler.Content.{Agrees}
use com_net_sponge.Reassembler.Insert.{available, unassembled_bytes_lem}
use com_net_sponge.Reassembler.Valid.{IsSound, IsValid}
use com_net_sponge.Reassembler.Ending.{has_room, marked-IsSound}
use com_net_sponge.Reassembler.Push.{push_substring-Pushed}
use com_net_sponge.TcpSegment.{TcpSegment}
use com_net_sponge.TcpReceiver.{TcpReceiver, push_payload, note_fin, segment_received}

-- A number stepped forward by one and back again, for sequence numbers.
back-wrap : (i isn : ℕ) → isn < 2 ^ 32 → back (wrap (i + 1) isn) 1 ≡ wrap i isn
unfolding back wrap plus
back-wrap i isn h = omega arith

back_zero : (i isn : ℕ) → isn < 2 ^ 32 → back (wrap i isn) 0 ≡ wrap i isn
unfolding back wrap plus
back_zero i isn h = omega arith

wrap_at_isn : (i isn : ℕ) → isn < 2 ^ 32 → (i % 2 ^ 32 ≢ 0) → (wrap i isn == isn) ≡ false
unfolding wrap plus
wrap_at_isn i isn h ne = ground arith

-- After the SYN a segment's payload is pushed, and its FIN noted.
segment_received_synced :
    (r : TcpReceiver) (seg : TcpSegment)
    → r.syn ≡ true
    → segment_received r seg
      ≡ elim (push_payload r seg) [ none ↦ none | some r' ↦ some (note_fin r' seg) ]
unfolding segment_received
segment_received_synced r seg e = ground (arith, e)

-- What the peer's segments leave alone in a reassembler.
abbrev pub Unread : Reassembler → Reassembler → Type 0
Unread s s' = (s'.capacity ≡ s.capacity) × (s'.output.bytes_read ≡ s.output.bytes_read)

module _ (f : ℕ → ℕ) (size : ℕ) where
  -- The receiver has seen the SYN, and its reassembler is valid.
  pub record IsSynced (r : TcpReceiver) : Type 0 where
    pub synced : r.syn ≡ true
    pub isn_small : r.isn < 2 ^ 32
    pub valid : IsValid f size r.reassembler

  -- A segment without SYN that carries the bytes of the stream from index `i` on.
  pub record Carries (r : TcpReceiver) (i : ℕ) (seg : TcpSegment) : Type 0 where
    pub no_syn : seg.syn ≡ false
    pub number : seg.seqno ≡ wrap (i + 1) r.isn
    pub inside : i + length seg.payload ≤ size
    pub bytes : Agrees f i seg.payload
    pub not_far : i < r.reassembler.first_unassembled + 2 ^ 31
    pub not_old : r.reassembler.first_unassembled < i + 2 ^ 31
    pub not_isn : (i + 1) % 2 ^ 32 ≢ 0

  index_lem :
      (r : TcpReceiver) (i : ℕ) (seg : TcpSegment)
      → size < 2 ^ 64 - 1
      → IsSynced r
      → Carries r i seg
      → unwrap (back seg.seqno 1) r.isn r.reassembler.first_unassembled ≡ i
  index_lem r i seg b v c =
      rw (c.number, back-wrap i r.isn v.isn_small)
        (unwrap-wrap i r.isn r.reassembler.first_unassembled (omega arith) v.isn_small
          (omega (arith, v.valid.inside)) c.not_far c.not_old)

  push_payload_lem :
      (r : TcpReceiver) (i : ℕ) (seg : TcpSegment)
      → size < 2 ^ 64 - 1
      → IsSynced r
      → Carries r i seg
      → (s : Reassembler) × (push_payload r seg ≡ some (record r { reassembler = s }))
        × IsValid f size s
        × Unread r.reassembler s
        × (r.reassembler.first_unassembled ≤ s.first_unassembled)
        × (i ≤ r.reassembler.first_unassembled
            → r.reassembler.first_unassembled
                + min
                    (i + length seg.payload - r.reassembler.first_unassembled)
                    (available r.reassembler)
              ≤ s.first_unassembled)
  unfolding push_payload
  push_payload_lem r i seg b v c =
      rw (c.no_syn, index_lem r i seg b v c)
        (elim (Bool-cases (ltb 0 (length seg.payload))) [
          | inr e ↦
              let none_left : length seg.payload ≡ 0 = ground arith in
              rw e (r.reassembler, refl, v.valid, (refl, refl), le_refl _, λ h. omega arith)
          | inl e ↦
              let other : (seg.seqno == r.isn) ≡ false =
                rw (c.number) (wrap_at_isn (i + 1) r.isn v.isn_small c.not_isn) in
              let (s, pushed, valid, ending, grown, cap_same, read_same, advance) =
                push_substring-Pushed f size r.reassembler seg.payload i seg.fin b v.valid c.inside
                  c.bytes in
              rw (e, other, pushed) (s, refl, valid, (cap_same, read_same), grown, advance)
        ])

  pub note_fin_lem :
      (r : TcpReceiver) (seg : TcpSegment)
      → IsValid f size r.reassembler
      → IsValid f size (note_fin r seg).reassembler
        × Unread r.reassembler (note_fin r seg).reassembler
        × ((note_fin r seg).reassembler.first_unassembled ≡ r.reassembler.first_unassembled)
        × ((note_fin r seg).syn ≡ r.syn)
        × ((note_fin r seg).isn ≡ r.isn)
  unfolding note_fin Reassembler.end_output ByteStream.end_input
  note_fin_lem r seg v = ground (
    arith,
    v,
    marked-IsSound f size (r.reassembler.first_unassembled + 1) r.reassembler true
        r.reassembler.eof_index v,
  )

  -- All of what follows.
  pub segment_received_both :
      (r : TcpReceiver) (i : ℕ) (seg : TcpSegment)
      → size < 2 ^ 64 - 1
      → IsSynced r
      → Carries r i seg
      → (r' : TcpReceiver) × (segment_received r seg ≡ some r')
        × IsSynced r'
        × Unread r.reassembler r'.reassembler
        × (r'.isn ≡ r.isn)
        × (r.reassembler.first_unassembled ≤ r'.reassembler.first_unassembled)
        × (i ≤ r.reassembler.first_unassembled
            → r.reassembler.first_unassembled
                + min
                    (i + length seg.payload - r.reassembler.first_unassembled)
                    (available r.reassembler)
              ≤ r'.reassembler.first_unassembled)
  segment_received_both r i seg b v c =
      let (s, e, valid, unread, grown, advance) = push_payload_lem r i seg b v c in
      let (valid', unread', same, syn_same, isn_same) =
        note_fin_lem (record r { reassembler = s }) seg valid in
      rw (segment_received_synced r seg v.synced, e)
        (
          note_fin (record r { reassembler = s }) seg,
          refl,
          record {
            synced = syn_same ∙ v.synced;
            isn_small = rw isn_same v.isn_small;
            valid = valid';
          },
          (unread'.0 ∙ unread.0, unread'.1 ∙ unread.1),
          isn_same,
          omega (arith, same, grown),
          λ h. omega (arith, same, advance h),
        )

  -- In the synchronized state a segment that carries bytes of the peer's stream, less than 2 ^ 31
  -- from the next byte wanted and not numbered like the SYN, is handled without fault: the receiver
  -- stays synchronized and valid, and never loses ground.
  pub segment_received-Carries :
      (r : TcpReceiver) (i : ℕ) (seg : TcpSegment)
      → size < 2 ^ 64 - 1
      → IsSynced r
      → Carries r i seg
      → (r' : TcpReceiver) × (segment_received r seg ≡ some r')
        × IsSynced r'
        × (r'.isn ≡ r.isn)
        × (r.reassembler.first_unassembled ≤ r'.reassembler.first_unassembled)
  segment_received-Carries r i seg b v c =
      let (r', e, valid, unread, isn_same, grown, advance) = segment_received_both r i seg b v c in
      (r', e, valid, isn_same, grown)

  -- When such a segment starts no later than the next byte wanted, the receiver advances by all its new
  -- bytes, as far as there is room beside the buffered and the stored ones.
  pub segment_received_advances :
      (r : TcpReceiver) (i : ℕ) (seg : TcpSegment)
      → size < 2 ^ 64 - 1
      → IsSynced r
      → Carries r i seg
      → i ≤ r.reassembler.first_unassembled
      → (r' : TcpReceiver) × (segment_received r seg ≡ some r')
        × IsSynced r'
        × (r.reassembler.first_unassembled
              + min
                  (i + length seg.payload - r.reassembler.first_unassembled)
                  (available r.reassembler)
            ≤ r'.reassembler.first_unassembled)
  segment_received_advances r i seg b v c early =
      let (r', e, valid, unread, isn_same, grown, advance) = segment_received_both r i seg b v c in
      (r', e, valid, advance early)

pub push_payload_empty :
    (r : TcpReceiver) (seg : TcpSegment) → seg.payload ≡ [] → push_payload r seg ≡ some r
unfolding push_payload
push_payload_empty r seg e = ground (arith, ap length e)

-- A FIN segment without payload ends the output whenever nothing is stored, wherever its sequence
-- number lies: the bytes before it need not have arrived.
pub fin_ends_early :
    (f : ℕ → ℕ) (size lo : ℕ) (r : TcpReceiver) (seg : TcpSegment)
    → r.syn ≡ true
    → IsSound f size lo r.reassembler
    → r.reassembler.segments ≡ []
    → seg.payload ≡ []
    → seg.fin ≡ true
    → (r' : TcpReceiver) × (segment_received r seg ≡ some r')
      × (r'.reassembler.output.input_ended ≡ true)
      × (r'.reassembler.first_unassembled ≡ r.reassembler.first_unassembled)
unfolding note_fin total Reassembler.end_output ByteStream.end_input
fin_ends_early f size lo r seg s v none_stored no_payload fin =
    rw (segment_received_synced r seg s, push_payload_empty r seg no_payload)
      (note_fin r seg, refl, ground (arith, empty_store), ground (arith, empty_store))
  where
    empty_store : Reassembler.unassembled_bytes r.reassembler ≡ 0
    empty_store = unassembled_bytes_lem r.reassembler (has_room f size v) ∙ ap total none_stored

-- A segment that is numbered like the SYN is dropped, although it may carry the byte of the stream at
-- index 2 ^ 32 - 1 or a multiple of 2 ^ 32 beyond: only its FIN flag counts.
pub isn_number_dropped :
    (r : TcpReceiver) (seg : TcpSegment)
    → r.syn ≡ true
    → r.fin ≡ false
    → seg.syn ≡ false
    → seg.fin ≡ false
    → seg.seqno ≡ r.isn
    → segment_received r seg ≡ some r
unfolding segment_received push_payload note_fin
isn_number_dropped r seg s nf ns nf' e = ground arith
