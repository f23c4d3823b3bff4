-- ===== src/SpongeSocket/Inbound.antt =====
-- libsponge/tcp_helpers/tcp_sponge_socket.cc: what the application reads is the start of the peer's stream.
use com_net_sponge.Prelude.{
  ℕ, zero, suc, length-take, ◌-◌, ◌≤◌, ◌<◌, ◌^◌, ◌≡◌, ◌⊎◌, inl, inr, refl, ap, sym, subst, ◌∙◌,
  true, false, Bool-cases, ◌||◌, ◌&&◌, not, List, [], ◌∷◌, ◌++◌, length, take, Option, Option-cases,
  none, some, min, arith, ◌==◌,
}
use com_net_sponge.ByteStream
use com_net_sponge.ByteStream.Laws.{peek_output_lem}
use com_net_sponge.EventLoop.{add_rule}
use com_net_sponge.EventLoop.Laws.{After, Keeps, AllKeep}
use com_net_sponge.FileDescriptor
use com_net_sponge.FileDescriptor.Laws.{Sent, write-Sent}
use com_net_sponge.FileDescriptor.{Answer, shut_wr, ReadAnswer, WriteResult, wrote, threw, blocked}
use com_net_sponge.SpongeSocket.{
  AdapterOps, Socket, inbound, with_inbound, note_acked, end_outbound, take_app_data, on_app_data,
  outbound_capacity, end_inbound, after_write, on_writable, take_segment, on_datagram,
  initialize_tcp, write_segments, on_segments, datagram_rule, app_data_rule, deliver_rule,
  segments_rule, tick,
}
use com_net_sponge.TcpConnection
use com_net_sponge.TcpConnection.{TcpConfig, TcpConnection, respond, heard}
use com_net_sponge.TcpConnection.Outbound.{segment_received_lem}
use com_net_sponge.TcpConnection.Receiving.{
  respond_keeps, write_keeps, end_input_stream_keeps, tick_keeps, segment_received_reset,
  segment_received_unheard,
}
use com_net_sponge.TcpReceiver
use com_net_sponge.TcpReceiver.{TcpReceiver}
use com_net_sponge.TcpReceiver.Session.{
  Speaks, IsReceiving, popped-IsReceiving, failed-IsReceiving, segment_received-IsReceiving,
}
use com_net_sponge.TcpSegment.{TcpSegment}
use com_net_sponge.TcpSender

pub take-take : (n m : ℕ) (xs : List ℕ) → n ≤ length (take m xs) → take n (take m xs) ≡ take n xs
take-take zero m xs h = refl
take-take (suc n) zero xs h = absurd (omega arith)
take-take (suc n) (suc m) [] h = refl
take-take (suc n) (suc m) (x ∷ xs) h = ap (λ r. x ∷ r) (take-take n m xs (omega arith))

module _ (f : ℕ → ℕ) (size isn : ℕ) where
  -- A segment of the peer, or a reset.
  abbrev pub Truthful : TcpSegment → Type 0
  Truthful seg = (seg.header.rst ≡ true) ⊎ ((seg.header.rst ≡ false) × Speaks f size isn seg)

  abbrev pub Session : List ℕ → TcpConnection → Type 0
  Session got c = IsReceiving f size isn got c.receiver

  segment_received-Session :
      (got : List ℕ) (c : TcpConnection) (seg : TcpSegment)
      → size < 2 ^ 31 - 1
      → isn < 2 ^ 32
      → Truthful seg
      → Session got c
      → After (Session got) (TcpConnection.segment_received c seg)
  segment_received-Session got c seg b small (inl reset) v =
      let (c', e, same) = segment_received_reset c seg reset in
      rw e (
        subst (IsReceiving f size isn got) (sym same)
          (failed-IsReceiving f size isn got c.receiver v))
  segment_received-Session got c seg b small (inr (no_rst, speaks)) v =
      let (r', e, v', synced) =
        segment_received-IsReceiving f size isn got c.receiver seg b small speaks v in
      elim (Option-cases (heard r' seg)) [
        | inl unheard ↦ rw (segment_received_unheard c seg r' no_rst e unheard) tt
        | inr (a, known) ↦
            let c' : TcpConnection = record c { receiver = r'; time_last_recv = 0 } in
            rw (segment_received_lem c seg r' a no_rst e known)
              (subst (IsReceiving f size isn got) (sym (respond_keeps c' seg a)) v')
      ]

  -- What is asked of an adapter: it reads truthful segments only, as long as `P` holds of it.
  pub record IsTruthful {A : Type 0} (ops : AdapterOps A) (P : A → Type 0) : Type 0 where
    pub reads : (a : A) → P a → After (λ x. P x.0 × After Truthful x.1) (ops.read a)
    pub writes : (a : A) (seg : TcpSegment) → P a → After P (ops.write a seg)
    pub ticks : (a : A) (ms : ℕ) → P a → P (ops.tick a ms)

  module _ {A : Type 0} (ops : AdapterOps A) (P : A → Type 0) (b : size < 2 ^ 31 - 1)
      (small : isn < 2 ^ 32) (truth : IsTruthful ops P) where
    -- What was delivered and what is buffered behind it come from the peer's stream.
    abbrev pub Kept : Socket A → Type 0
    Kept s = Session s.delivered s.tcp × P s.adapter

    note_acked-Kept : (s : Socket A) → Kept s → Kept (note_acked s)
    unfolding note_acked
    note_acked-Kept s k =
        elim (Bool-cases (
          s.thread_data.eof
          && (TcpSender.bytes_in_flight s.tcp.sender == 0)
          && not s.fully_acked)) [ inl e ↦ rw e k | inr e ↦ rw e k ]

    take_segment-Kept :
        (s : Socket A) (seg : Option TcpSegment)
        → After Truthful seg
        → Kept s
        → After Kept (take_segment ops s seg)
    unfolding take_segment
    take_segment-Kept s none t k = note_acked-Kept s k
    take_segment-Kept s (some seg) t k =
        let after = segment_received-Session s.delivered s.tcp seg b small t k.0 in
        elim (Option-cases (TcpConnection.segment_received s.tcp seg)) [
          | inl e ↦ rw (take_segment, e) tt
          | inr (c, e) ↦
              let v : Session s.delivered c = subst (After (Session s.delivered)) e after in
              rw (take_segment, e) (note_acked-Kept (record s { tcp = c }) (v, k.1))
        ]

    on_datagram-Kept : (s : Socket A) → Kept s → After Kept (on_datagram ops s)
    unfolding on_datagram
    on_datagram-Kept s k =
        let read = truth.reads s.adapter k.1 in
        elim (Option-cases (ops.read s.adapter)) [
          | inl e ↦ rw (on_datagram, e) tt
          | inr ((a, seg), e) ↦
              let (p, t) = subst (After (λ x. P x.0 × After Truthful x.1)) e read in
              rw (on_datagram, e) (take_segment-Kept (record s { adapter = a }) seg t (k.0, p))
        ]

    end_outbound-Kept : (s : Socket A) → Kept s → Kept (end_outbound s)
    unfolding end_outbound
    end_outbound-Kept s k =
        (subst (IsReceiving f size isn s.delivered) (sym (end_input_stream_keeps s.tcp)) k.0, k.1)

    take_app_data-Kept :
        (s : Socket A) (bytes : List ℕ) → Kept s → After Kept (take_app_data s bytes)
    unfolding take_app_data end_outbound
    take_app_data-Kept s bytes k =
        let s' : Socket A = record s { tcp = (TcpConnection.write s.tcp bytes).0 } in
        let k' : Kept s' =
          (subst (IsReceiving f size isn s.delivered) (sym (write_keeps s.tcp bytes)) k.0, k.1) in
        elim (Bool-cases (not ((TcpConnection.write s.tcp bytes).1 == length bytes))) [
          | inl short ↦ rw short tt
          | inr all ↦ elim (Bool-cases s.thread_data.eof) [
            | inl e ↦ rw (all, e) (end_outbound-Kept s' k')
            | inr e ↦ rw (all, e) k'
          ]
        ]

    on_app_data-Kept :
        (s : Socket A) (answers : List ReadAnswer)
        → s.app_reads ≡ answers
        → Kept s
        → After Kept (on_app_data s)
    unfolding on_app_data
    on_app_data-Kept s [] none_left k = rw (on_app_data, none_left) tt
    on_app_data-Kept s (answer ∷ answers) e k =
        elim (Option-cases (FileDescriptor.read s.thread_data (outbound_capacity s) answer)) [
          | inl e' ↦ rw (on_app_data, e, e') tt
          | inr ((f', bytes), e') ↦
              rw (on_app_data, e, e')
                (take_app_data-Kept (record s { thread_data = f'; app_reads = answers }) bytes k)
        ]

    end_inbound-Kept :
        (s : Socket A) (answers : List Answer)
        → s.shutdowns ≡ answers
        → Kept s
        → After Kept (end_inbound s)
    unfolding end_inbound
    end_inbound-Kept s answers e k =
        elim (Bool-cases (ByteStream.eof (inbound s) || (inbound s).error)) [
          | inr goes_on ↦ rw (end_inbound, goes_on) k
          | inl over ↦ rw (end_inbound, over) (shut answers e)
        ]
      where
        shut :
            (answers : List Answer)
            → s.shutdowns ≡ answers
            → After Kept (elim s.shutdowns [
              | [] ↦ none
              | answer ∷ answers ↦ elim (FileDescriptor.shutdown s.thread_data shut_wr answer) [
                | none ↦ none
                | some f ↦
                    some
                      (record s { thread_data = f; shutdowns = answers; inbound_shutdown = true })
              ]
            ])
        shut [] none_left = rw none_left tt
        shut (answer ∷ answers) e =
            elim (Option-cases (FileDescriptor.shutdown s.thread_data shut_wr answer)) [
              | inl e' ↦ rw (e, e') tt
              | inr (f', e') ↦ rw (e, e') k
            ]

    after_write-Kept :
        (s : Socket A) (m : ℕ) (r : WriteResult)
        → Sent (take m (inbound s).buffer) r
        → Kept s
        → After Kept (after_write s r)
    unfolding after_write with_inbound inbound
    after_write-Kept s m (threw f' sent) h k = tt
    after_write-Kept s m (blocked f' sent) h k = tt
    after_write-Kept s m (wrote f' sent n) (fits, part) k = end_inbound-Kept _ _ refl (
      subst
          (λ x. IsReceiving f size isn (s.delivered ++ x) (
            TcpReceiver.with_stream_out s.tcp.receiver
              (ByteStream.pop_output s.tcp.receiver.reassembler.output n)))
          (sym (part ∙ take-take n m s.tcp.receiver.reassembler.output.buffer fits))
          (popped-IsReceiving f size isn s.delivered s.tcp.receiver n k.0),
      k.1,
    )

    on_writable-Kept :
        (s : Socket A) (answers : List Answer)
        → s.app_writes ≡ answers
        → Kept s
        → After Kept (on_writable s)
    unfolding on_writable inbound
    on_writable-Kept s [] none_left k = rw (on_writable, none_left) tt
    on_writable-Kept s (answer ∷ answers) e k =
        let m : ℕ = min 65536 (ByteStream.buffer_size (inbound s)) in
        let buffer : List ℕ = ByteStream.peek_output (inbound s) m in
        let shown : buffer ≡ take m (inbound s).buffer = peek_output_lem (inbound s) m in
        let short : length buffer < 2 ^ 64 =
          omega (arith, ap length shown, length-take m (inbound s).buffer) in
        let sent =
          subst (λ x. Sent x (FileDescriptor.write s.thread_data buffer false (answer ∷ []))) shown
            (write-Sent s.thread_data buffer answer short) in
        rw (on_writable, e)
          (after_write-Kept (record s { app_writes = answers }) m
            (FileDescriptor.write s.thread_data buffer false (answer ∷ [])) sent k)

    write_segments-Kept :
        (segs : List TcpSegment) (a : A) → P a → After P (write_segments ops segs a)
    unfolding write_segments
    write_segments-Kept [] a p = p
    write_segments-Kept (seg ∷ segs) a p =
        let written = truth.writes a seg p in
        elim (Option-cases (ops.write a seg)) [
          | inl e ↦ rw (write_segments, e) tt
          | inr (a', e) ↦
              rw (write_segments, e) (write_segments-Kept segs a' (subst (After P) e written))
        ]

    on_segments-Kept : (s : Socket A) → Kept s → After Kept (on_segments ops s)
    unfolding on_segments
    on_segments-Kept s k =
        let written = write_segments-Kept s.tcp.segments_out s.adapter k.1 in
        elim (Option-cases (write_segments ops s.tcp.segments_out s.adapter)) [
          | inl e ↦ rw (on_segments, e) tt
          | inr (a, e) ↦ rw (on_segments, e) (k.0, subst (After P) e written)
        ]

    pub tick-Kept : (s : Socket A) (ms : ℕ) → Kept s → Kept (tick ops s ms)
    unfolding tick
    tick-Kept s ms k = elim (tick_keeps s.tcp ms) [
      | inl e ↦
          (subst (IsReceiving f size isn s.delivered) (sym e) k.0, truth.ticks s.adapter ms k.1)
      | inr e ↦ (
        subst (IsReceiving f size isn s.delivered) (sym e)
            (failed-IsReceiving f size isn s.delivered s.tcp.receiver k.0),
        truth.ticks s.adapter ms k.1,
      )
    ]

    -- The four rules, as `_initialize_TCP` leaves them.
    pub rules-Kept :
        (s : Socket A) (cfg : TcpConfig) (own : ℕ)
        → AllKeep Kept (initialize_tcp ops s [] cfg own).1
    unfolding initialize_tcp add_rule datagram_rule app_data_rule deliver_rule segments_rule
    rules-Kept s cfg own =
        let datagram : Keeps Kept (datagram_rule ops) = record {
          callback_keeps = on_datagram-Kept;
          cancel_keeps = λ s k. k;
        } in
        let app_data : Keeps Kept (app_data_rule ops) = record {
          callback_keeps = λ s. on_app_data-Kept s s.app_reads refl;
          cancel_keeps = end_outbound-Kept;
        } in
        let deliver : Keeps Kept (deliver_rule ops) = record {
          callback_keeps = λ s. on_writable-Kept s s.app_writes refl;
          cancel_keeps = λ s k. k;
        } in
        let segments : Keeps Kept (segments_rule ops) = record {
          callback_keeps = on_segments-Kept;
          cancel_keeps = λ s k. k;
        } in
        (datagram, (app_data, (deliver, (segments, tt))))
