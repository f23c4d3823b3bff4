-- ===== src/TcpState/Names.antt =====
-- libsponge/tcp_helpers/tcp_state.cc: what the summaries tell of a sender, and which official states a
-- connection goes through when it is made, and when it is reset.
use com_net_sponge.Prelude.{
  ℕ, ◌+◌, ◌-◌, ◌≤◌, ◌<◌, ◌≡◌, ◌↔◌, ◌^◌, refl, ap, sym, ◌∙◌, Bool, true, false, Option, none, some,
  arith, ◌==◌, ltb,
}
use com_net_sponge.Prelude.Words.{add64}
use com_net_sponge.ByteStream
use com_net_sponge.WrappingInt32.{WrappingInt32}
use com_net_sponge.TcpSegment
use com_net_sponge.TcpSegment.{TcpSegment}
use com_net_sponge.TcpReceiver
use com_net_sponge.TcpSender
use com_net_sponge.TcpSender.{TcpSender}
use com_net_sponge.TcpSender.Valid.{IsSender, first, bytes_in_flight_lem}
use com_net_sponge.TcpConnection
use com_net_sponge.TcpConnection.{TcpConnection, TcpConfig}
use com_net_sponge.TcpConnection.Closing.{IsAborted, rst_aborts}
use com_net_sponge.TcpState.{
  TcpState, State, SenderSummary, listen, fin_recv, sender_error, closed, syn_sent, syn_acked,
  fin_sent, fin_acked, listening, syn_rcvd, syn_was_sent, established, close_wait, last_ack,
  fin_wait_1, fin_wait_2, closing, time_wait, is_closed, is_reset, of_state, receiver_summary,
  sender_summary, summarize, state, same_flag, same_state,
}

-- The official state that a summary stands for.
named : TcpState → Option State
named s = elim s.active [
  | false ↦ elim s.sender [ sender_error ↦ some is_reset | fin_acked ↦ some is_closed | _ ↦ none ]
  | true ↦ elim s.sender [
    | closed ↦ some listening
    | syn_sent ↦ elim s.receiver [ listen ↦ some syn_was_sent | _ ↦ some syn_rcvd ]
    | syn_acked ↦ elim s.receiver [ fin_recv ↦ some close_wait | _ ↦ some established ]
    | fin_sent ↦ elim s.receiver [
      | fin_recv ↦ elim s.linger_after_streams_finish [
        | true ↦ some closing
        | false ↦ some last_ack
      ]
      | _ ↦ some fin_wait_1
    ]
    | fin_acked ↦ elim s.receiver [ fin_recv ↦ some time_wait | _ ↦ some fin_wait_2 ]
    | _ ↦ none
  ]
]

named-of_state : (s : State) → named (of_state s) ≡ some s
unfolding of_state named
named-of_state listening = refl
named-of_state syn_rcvd = refl
named-of_state syn_was_sent = refl
named-of_state established = refl
named-of_state close_wait = refl
named-of_state last_ack = refl
named-of_state fin_wait_1 = refl
named-of_state fin_wait_2 = refl
named-of_state closing = refl
named-of_state time_wait = refl
named-of_state is_closed = refl
named-of_state is_reset = refl

some_injective : {a b : State} → some a ≡ some b → a ≡ b
some_injective e = cc e

-- No two official states have the same summary.
pub of_state_injective : (a b : State) → of_state a ≡ of_state b → a ≡ b
of_state_injective a b e = some_injective (sym (named-of_state a) ∙ ap named e ∙ named-of_state b)

-- A new connection is in the state LISTEN.
pub new_listens :
    (cfg : TcpConfig) (isn : WrappingInt32) → state (TcpConnection.new cfg isn) ≡ of_state listening
unfolding state summarize of_state sender_summary receiver_summary TcpReceiver.ackno
    TcpConnection.new
new_listens cfg isn = refl

aborted_state : (c : TcpConnection) → IsAborted c → state c ≡ of_state is_reset
unfolding state summarize of_state sender_summary receiver_summary
aborted_state c h = rw (h.inbound, h.outbound, h.dead) refl

-- A segment with RST brings the connection to the state RESET, whatever state it was in.
pub rst_resets :
    (c : TcpConnection) (seg : TcpSegment)
    → seg.header.rst ≡ true
    → (c' : TcpConnection) × (TcpConnection.segment_received c seg ≡ some c')
      × (state c' ≡ of_state is_reset)
rst_resets c seg e =
    let (c', done, aborted, out) = rst_aborts c seg e in (c', done, aborted_state c' aborted)

summary_of : Bool → Bool → Bool → Bool → SenderSummary
summary_of true eof early none_flying = syn_sent
summary_of false false early none_flying = syn_acked
summary_of false true true none_flying = syn_acked
summary_of false true false false = fin_sent
summary_of false true false true = fin_acked

sender_summary_cases :
    (s : TcpSender)
    → s.stream.error ≡ false
    → 0 < s.next_seqno
    → sender_summary s
      ≡ summary_of
          (s.next_seqno == TcpSender.bytes_in_flight s)
          (ByteStream.eof s.stream)
          (ltb s.next_seqno (add64 s.stream.bytes_written 2))
          (TcpSender.bytes_in_flight s == 0)
unfolding sender_summary summary_of
sender_summary_cases s no_error begun = ground arith

syn_sent_iff : (a b c d : Bool) → (summary_of a b c d ≡ syn_sent) ↔ (a ≡ true)
unfolding summary_of
syn_sent_iff a b c d = ground arith

fin_acked_iff :
    (a b c d : Bool)
    → (summary_of a b c d ≡ fin_acked) ↔ ((a ≡ false) × (b ≡ true) × (c ≡ false) × (d ≡ true))
unfolding summary_of
fin_acked_iff a b c d = ground arith

whole_range : (n k b : ℕ) → b ≡ n - k → 0 < n → ((n == b) ≡ true) ↔ (k ≡ 0)
whole_range n k b e h = ground arith

no_range : (n k b : ℕ) → b ≡ n - k → ((b == 0) ≡ true) ↔ (n ≤ k)
no_range n k b e = ground arith

not_whole : (n k b : ℕ) → b ≡ n - k → 0 < n → n ≤ k → (n == b) ≡ false
not_whole n k b e h le = ground arith

fin_counted : (n w : ℕ) → w + 2 < 2 ^ 63 → (ltb n (add64 w 2) ≡ false) ↔ (w + 2 ≤ n)
fin_counted n w h = ground arith

-- For a valid sender without error that has sent something: it is summarized as "nothing acknowledged"
-- exactly when the first segment in flight starts at sequence number 0, and as "fully acknowledged"
-- exactly when the stream is at its end, the FIN was sent and nothing is in flight.
pub sender_summary_lem :
    (f : ℕ → ℕ) (s : TcpSender)
    → IsSender f s
    → s.stream.error ≡ false
    → 0 < s.next_seqno
    → ((sender_summary s ≡ syn_sent) ↔ (first s.outstanding s.next_seqno ≡ 0))
      × ((sender_summary s ≡ fin_acked) ↔ (
          (ByteStream.eof s.stream ≡ true)
          × (s.stream.bytes_written + 2 ≤ s.next_seqno)
          × (s.next_seqno ≤ first s.outstanding s.next_seqno)))
sender_summary_lem f s v no_error begun =
    let flight = bytes_in_flight_lem f s v in
    let n : ℕ = s.next_seqno in
    let k : ℕ = first s.outstanding s.next_seqno in
    let b : ℕ = TcpSender.bytes_in_flight s in
    let early : Bool = ltb n (add64 s.stream.bytes_written 2) in
    let (sent, sent_back) = syn_sent_iff (n == b) (ByteStream.eof s.stream) early (b == 0) in
    let (acked, acked_back) = fin_acked_iff (n == b) (ByteStream.eof s.stream) early (b == 0) in
    let (whole, whole_back) = whole_range n k b flight begun in
    let (none_flying, none_back) = no_range n k b flight in
    let (counted, counted_back) = fin_counted n s.stream.bytes_written v.outbound.small in
    let cases = sender_summary_cases s no_error begun in
    (
      (λ h. whole (sent (sym cases ∙ h)), λ h. cases ∙ sent_back (whole_back h)),
      (
        λ h.
            let (x, at_end, late, idle) = acked (sym cases ∙ h) in
            (at_end, counted late, none_flying idle),
        λ h.
            cases
            ∙ acked_back (not_whole n k b flight begun h.2, h.0, counted_back h.1, none_back h.2),
      ),
    )

-- Equality of states is decided: the comparison holds exactly of equal summaries.
pub same_state_iff : (a b : TcpState) → (same_state a b ≡ true) ↔ (a ≡ b)
unfolding same_state same_flag
same_state_iff a b = ground arith

-- A new connection that connects comes to the state SYN_SENT.
pub connect_sends_syn :
    (cfg : TcpConfig) (isn : WrappingInt32)
    → state (TcpConnection.connect (TcpConnection.new cfg isn)) ≡ of_state syn_was_sent
unfolding state summarize of_state sender_summary receiver_summary TcpReceiver.ackno
    TcpConnection.new TcpConnection.connect TcpSender.fill_window TcpSender.fill_round
    TcpSender.enqueue TcpSender.make_segment TcpSender.fin_needed TcpSender.available_space
    ByteStream.read ByteStream.eof ByteStream.buffer_empty TcpSegment.length_in_sequence_space
    TcpSender.bytes_in_flight TcpConnection.clear_sender_buffer
connect_sends_syn cfg isn = refl
