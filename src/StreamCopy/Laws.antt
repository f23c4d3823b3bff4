-- ===== src/StreamCopy/Laws.antt =====
-- apps/bidirectional_stream_copy.cc: nothing is lost, added or reordered on the way.
use com_net_sponge.Prelude.{
  ◌≡◌, inl, inr, refl, subst, true, Bool-cases, List, [], ◌∷◌, ◌++◌, Option-cases, none, some,
  arith,
}
use com_net_sponge.ByteStream
use com_net_sponge.ByteStream.{ByteStream}
use com_net_sponge.EventLoop.{is_exit, Rule, PollAnswer, wait_next_event}
use com_net_sponge.EventLoop.Laws.{After, Keeps, AllKeep, wait_next_event-Keeps}
use com_net_sponge.FileDescriptor
use com_net_sponge.FileDescriptor.{
  FdWrapper, Answer, ReadAnswer, read_failed, gave, WriteResult, wrote, threw, blocked, shut_wr,
}
use com_net_sponge.StreamCopy.{
  Copy, CopyResult, returned, going, left_by_exception, fill, drain, read_input, shut_socket,
  write_socket, read_socket, close_output, write_output, end_outbound, end_inbound, input_rule,
  socket_out_rule, socket_in_rule, output_rule, copy_rules, copy_loop, bidirectional_stream_copy,
}
use com_net_sponge.StreamCopy.Flow.{Flow, Flow-end, fill-Flow, drain-Flow}

-- Flow of both streams.
abbrev pub Kept : Copy → Type 0
Kept s = Flow s.typed s.sent s.outbound × Flow s.heard s.shown s.inbound

shut_socket-Kept :
    (s : Copy) (answers : List Answer)
    → s.socket_shutdowns ≡ answers
    → Kept s
    → After Kept (shut_socket s)
unfolding shut_socket
shut_socket-Kept s answers e k = elim (Bool-cases (ByteStream.eof s.outbound)) [
  | inr goes_on ↦ rw (shut_socket, goes_on) k
  | inl over ↦ rw (shut_socket, over) (shut answers e)
]
  where
    shut :
        (answers : List Answer)
        → s.socket_shutdowns ≡ answers
        → After Kept (elim s.socket_shutdowns [
          | [] ↦ none
          | answer ∷ answers ↦ elim (FileDescriptor.shutdown s.socket shut_wr answer) [
            | none ↦ none
            | some f ↦
                some (record s { socket = f; socket_shutdowns = answers; outbound_shutdown = true })
          ]
        ])
    shut [] none_left = rw none_left tt
    shut (answer ∷ answers) e =
        elim (Option-cases (FileDescriptor.shutdown s.socket shut_wr answer)) [
          | inl e' ↦ rw (e, e') tt
          | inr (f', e') ↦ rw (e, e') k
        ]

close_output-Kept :
    (s : Copy) (answers : List Answer)
    → s.output_closes ≡ answers
    → Kept s
    → After Kept (close_output s)
unfolding close_output
close_output-Kept s answers e k = elim (Bool-cases (ByteStream.eof s.inbound)) [
  | inr goes_on ↦ rw (close_output, goes_on) k
  | inl over ↦ rw (close_output, over) (shut answers e)
]
  where
    shut :
        (answers : List Answer)
        → s.output_closes ≡ answers
        → After Kept (elim s.output_closes [
          | [] ↦ none
          | answer ∷ answers ↦ elim (FileDescriptor.close s.output answer) [
            | none ↦ none
            | some f ↦
                some (record s { output = f; output_closes = answers; inbound_shutdown = true })
          ]
        ])
    shut [] none_left = rw none_left tt
    shut (answer ∷ answers) e = elim (Option-cases (FileDescriptor.close s.output answer)) [
      | inl e' ↦ rw (e, e') tt
      | inr (f', e') ↦ rw (e, e') k
    ]

read_input-Kept : (s : Copy) → Kept s → After Kept (read_input s)
unfolding read_input
read_input-Kept s k =
    let filled = fill-Flow s.typed s.sent s.input s.outbound k.0 s.input_reads in
    elim (Option-cases (fill s.input s.outbound s.input_reads)) [
      | inl e ↦ rw (read_input, e) tt
      | inr ((f, b, answers, bytes), e) ↦
          rw (read_input, e) (subst (After (λ x. Flow (s.typed ++ x.3) s.sent x.1)) e filled, k.1)
    ]

read_socket-Kept : (s : Copy) → Kept s → After Kept (read_socket s)
unfolding read_socket
read_socket-Kept s k =
    let filled = fill-Flow s.heard s.shown s.socket s.inbound k.1 s.socket_reads in
    elim (Option-cases (fill s.socket s.inbound s.socket_reads)) [
      | inl e ↦ rw (read_socket, e) tt
      | inr ((f, b, answers, bytes), e) ↦
          rw (read_socket, e) (k.0, subst (After (λ x. Flow (s.heard ++ x.3) s.shown x.1)) e filled)
    ]

write_socket-Kept : (s : Copy) → Kept s → After Kept (write_socket s)
unfolding write_socket
write_socket-Kept s k =
    let drained = drain-Flow s.typed s.sent s.socket s.outbound k.0 s.socket_writes in
    elim (Option-cases (drain s.socket s.outbound s.socket_writes)) [
      | inl e ↦ rw (write_socket, e) tt
      | inr ((f, b, answers, bytes), e) ↦
          rw (write_socket, e)
            (shut_socket-Kept _ _ refl
              (subst (After (λ x. Flow s.typed (s.sent ++ x.3) x.1)) e drained, k.1))
    ]

write_output-Kept : (s : Copy) → Kept s → After Kept (write_output s)
unfolding write_output
write_output-Kept s k =
    let drained = drain-Flow s.heard s.shown s.output s.inbound k.1 s.output_writes in
    elim (Option-cases (drain s.output s.inbound s.output_writes)) [
      | inl e ↦ rw (write_output, e) tt
      | inr ((f, b, answers, bytes), e) ↦
          rw (write_output, e)
            (close_output-Kept _ _ refl
              (k.0, subst (After (λ x. Flow s.heard (s.shown ++ x.3) x.1)) e drained))
    ]

end_outbound-Kept : (s : Copy) → Kept s → After Kept (end_outbound s)
unfolding end_outbound
end_outbound-Kept s k = (Flow-end s.typed s.sent s.outbound k.0, k.1)

end_inbound-Kept : (s : Copy) → Kept s → After Kept (end_inbound s)
unfolding end_inbound
end_inbound-Kept s k = (k.0, Flow-end s.heard s.shown s.inbound k.1)

copy_rules-Kept : AllKeep Kept copy_rules
unfolding input_rule socket_out_rule socket_in_rule output_rule
copy_rules-Kept =
    let input : Keeps Kept input_rule = record {
      callback_keeps = read_input-Kept;
      cancel_keeps = end_outbound-Kept;
    } in
    let socket_out : Keeps Kept socket_out_rule = record {
      callback_keeps = write_socket-Kept;
      cancel_keeps = end_outbound-Kept;
    } in
    let socket_in : Keeps Kept socket_in_rule = record {
      callback_keeps = read_socket-Kept;
      cancel_keeps = end_inbound-Kept;
    } in
    let output : Keeps Kept output_rule = record {
      callback_keeps = write_output-Kept;
      cancel_keeps = end_inbound-Kept;
    } in
    (input, (socket_out, (socket_in, (output, tt))))

-- `P` holds of the variables, unless an exception has ended it.
unfoldable pub CopyHolds : (Copy → Type 0) → CopyResult → Type 0
CopyHolds P (returned s) = P s
CopyHolds P (going s) = P s
CopyHolds P left_by_exception = Unit

copy_loop-Kept :
    (polls : List PollAnswer) (rules : List (Rule Copy)) (s : Copy)
    → AllKeep Kept rules
    → Kept s
    → CopyHolds Kept (copy_loop polls rules s)
unfolding copy_loop CopyHolds
copy_loop-Kept [] rules s all k = k
copy_loop-Kept (answer ∷ polls) rules s all k =
    let waited = wait_next_event-Keeps Kept rules answer s all k in
    elim (Option-cases (wait_next_event rules answer s)) [
      | inl e ↦ rw (copy_loop, e) tt
      | inr ((result, s', rules'), e) ↦
          let after = subst (After (λ x. Kept x.1 × AllKeep Kept x.2)) e waited in
          elim (Bool-cases (is_exit result)) [
            | inl over ↦ rw (copy_loop, e, over) after.0
            | inr goes_on ↦
                rw (copy_loop, e, goes_on) (copy_loop-Kept polls rules' s' after.1 after.0)
          ]
    ]

-- Whatever is polled, read and written, as long as no exception is thrown: what was typed is what was sent
-- to the socket followed by what is buffered for it, what was heard from the socket is what was shown
-- followed by what is buffered, and neither buffer exceeds 1 MiB.
pub copied :
    (polls : List PollAnswer) (s : Copy)
    → s.typed ≡ []
    → s.sent ≡ []
    → s.heard ≡ []
    → s.shown ≡ []
    → CopyHolds Kept (bidirectional_stream_copy polls s)
unfolding bidirectional_stream_copy ByteStream.new
copied polls s typed sent heard shown =
    copy_loop-Kept polls copy_rules _ copy_rules-Kept
      ((rw (typed, sent) refl, omega arith, refl), (rw (heard, shown) refl, omega arith, refl))
