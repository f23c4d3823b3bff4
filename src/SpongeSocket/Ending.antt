-- ===== src/SpongeSocket/Ending.antt =====
-- libsponge/tcp_helpers/tcp_sponge_socket.cc with libsponge/util/eventloop.cc: when the loop of the thread
-- ends by itself.
use com_net_sponge.Prelude.{
  ℕ, ◌≡◌, ◌≢◌, ◌↔◌, inl, inr, refl, ap, sym, subst, ◌∙◌, none, Bool, true, false, Bool-cases, ◌||◌,
  ◌&&◌, if◌then◌else◌, not, List, [], ◌∷◌, is_empty, some, arith,
}
use com_net_sponge.ByteStream
use com_net_sponge.EventLoop.{
  Rule, defunct, at_eof, set_up, pollfd_of, direction_in, PollAnswer, interrupted, Result, exit,
  add_rule, wait_next_event,
}
use com_net_sponge.EventLoop.Laws.{AllLive, set_up_live, any_interested, exit_iff, wait_live}
use com_net_sponge.SpongeSocket.{
  end_outbound, AdapterOps, Socket, inbound, wants_app_data, wants_to_deliver, datagram_rule,
  app_data_rule, deliver_rule, segments_rule, initialize_tcp,
}
use com_net_sponge.TcpConnection
use com_net_sponge.TcpConnection.{TcpConfig}

-- Nothing is left to do: the connection is over, its inbound bytes were delivered and their end was passed
-- on, and no segment waits.
pub record IsDone {A : Type 0} (s : Socket A) : Type 0 where
  pub over : s.tcp.active ≡ false
  pub drained : is_empty (inbound s).buffer ≡ true
  pub passed_on : ((inbound s).input_ended || (inbound s).error) && not s.inbound_shutdown ≡ false
  pub sent : is_empty s.tcp.segments_out ≡ true

module _ {A : Type 0} (ops : AdapterOps A) where
  abbrev pub our_rules : List (Rule (Socket A))
  our_rules = datagram_rule ops ∷ app_data_rule ops ∷ deliver_rule ops ∷ segments_rule ops ∷ []

  pub initialize_tcp_rules :
      (s : Socket A) (cfg : TcpConfig) (isn : ℕ) → (initialize_tcp ops s [] cfg isn).1 ≡ our_rules
  unfolding initialize_tcp add_rule
  initialize_tcp_rules s cfg isn = refl

  -- The rules when the one for the application's bytes is there or was cancelled.
  abbrev pub rules_left : Bool → List (Rule (Socket A))
  rules_left taking =
      if taking then our_rules else datagram_rule ops ∷ deliver_rule ops ∷ segments_rule ops ∷ []

  -- The state in which a wait asks the rules, when it has cancelled a rule at the end of its descriptor.
  abbrev pub settled : Bool → Socket A → Socket A
  settled taking s = if taking && s.thread_data.eof then end_outbound s else s

  -- The adapter can be read, and neither it nor the local socket was closed.
  pub record IsOpen (s : Socket A) : Type 0 where
    pub adapter_reads : (ops.fd s.adapter).eof ≡ false
    pub adapter_open : (ops.fd s.adapter).closed ≡ false
    pub socket_open : s.thread_data.closed ≡ false

  idle_iff :
      (taking : Bool) (s : Socket A) → (any_interested (rules_left taking) s ≡ false) ↔ IsDone s
  unfolding datagram_rule app_data_rule deliver_rule segments_rule wants_app_data wants_to_deliver
      ByteStream.buffer_empty ByteStream.eof
  idle_iff true s = ground arith
  idle_iff false s = ground arith

  live_three : (s : Socket A) → IsOpen s → AllLive (rules_left false) s
  unfolding datagram_rule deliver_rule segments_rule defunct at_eof
  live_three s o = (
    rw (o.adapter_reads, o.adapter_open) refl,
    (rw (o.socket_open) refl, (rw (o.adapter_open) refl, tt)),
  )

  live_four : (s : Socket A) → s.thread_data.eof ≡ false → IsOpen s → AllLive our_rules s
  unfolding datagram_rule app_data_rule deliver_rule segments_rule defunct at_eof
  live_four s e o = (
    rw (o.adapter_reads, o.adapter_open) refl,
    (rw (e, o.socket_open) refl, (rw (o.socket_open) refl, (rw (o.adapter_open) refl, tt))),
  )

  end_outbound-IsOpen : (s : Socket A) → IsOpen s → IsOpen (end_outbound s)
  unfolding end_outbound
  end_outbound-IsOpen s o = record {
    adapter_reads = o.adapter_reads;
    adapter_open = o.adapter_open;
    socket_open = o.socket_open;
  }

  end_outbound_active : (s : Socket A) → (end_outbound s).tcp.active ≡ s.tcp.active
  unfolding end_outbound TcpConnection.end_input_stream TcpConnection.connect
      TcpConnection.clear_sender_buffer
  end_outbound_active s = ground arith

  app_gone : (s : Socket A) → s.thread_data.eof ≡ true → defunct (app_data_rule ops) s ≡ true
  unfolding app_data_rule defunct at_eof
  app_gone s e = rw e refl

  asked_same :
      (s : Socket A)
      → pollfd_of (datagram_rule ops) s ≡ pollfd_of (datagram_rule ops) (end_outbound s)
  unfolding pollfd_of datagram_rule end_outbound
  asked_same s =
      ap
        (λ (active : Bool). record {
          fd_num = (ops.fd s.adapter).fd;
          events = (if active then some direction_in else none);
        })
        (sym (end_outbound_active s))

  cancels :
      (s : Socket A)
      → s.thread_data.eof ≡ true
      → IsOpen s
      → AllLive (rules_left false) (end_outbound s)
      → set_up our_rules s ≡ set_up (rules_left false) (end_outbound s)
  unfolding set_up app_data_rule defunct datagram_rule end_outbound segments_rule deliver_rule
  cancels s at_end o three =
      let s' : Socket A = end_outbound s in
      let rest = set_up_live (deliver_rule ops ∷ segments_rule ops ∷ []) s' three.1 in
      let first : defunct (datagram_rule ops) s ≡ false = (live_three s o).0 in
      let gone : defunct (app_data_rule ops) s ≡ true = app_gone s at_end in
      rw (set_up, first, gone, rest) (rw (asked_same s) refl)

  -- At the end of the application's bytes a wait cancels their rule, and is as one without it.
  wait_cancels :
      (answer : PollAnswer) (s : Socket A)
      → s.thread_data.eof ≡ true
      → IsOpen s
      → wait_next_event our_rules answer s
        ≡ wait_next_event (rules_left false) answer (end_outbound s)
  unfolding wait_next_event
  wait_cancels answer s at_end o =
      let s' : Socket A = end_outbound s in
      let three = live_three s' (end_outbound-IsOpen s o) in
      let before : set_up our_rules s ≡ set_up (rules_left false) s' = cancels s at_end o three in
      rw (wait_next_event, before) refl

  settled_one :
      (taking : Bool) (answer : PollAnswer) (s s' : Socket A) (result : Result)
      (rules' : List (Rule (Socket A)))
      → AllLive (rules_left taking) s
      → answer ≢ interrupted
      → wait_next_event (rules_left taking) answer s ≡ some (result, s', rules')
      → (result ≡ exit) ↔ IsDone s
  settled_one taking answer s s' result rules' live running e =
      let (there, back) = exit_iff (rules_left taking) answer s s' result rules' live running e in
      (λ x. (idle_iff taking s).0 (there x), λ d. back ((idle_iff taking s).1 d))

  -- While the adapter can be read and the local socket is not closed, and unless a signal interrupts the
  -- poll, a wait that returns tells the loop to exit exactly when nothing is left to do: with the four rules
  -- of a socket, also where the rule for the application's bytes is at the end of them and is cancelled
  -- first, which ends the outbound stream; and with the other three rules after that.
  pub exit-IsDone :
      (taking : Bool) (answer : PollAnswer) (s s' : Socket A) (result : Result)
      (rules' : List (Rule (Socket A)))
      → IsOpen s
      → answer ≢ interrupted
      → wait_next_event (rules_left taking) answer s ≡ some (result, s', rules')
      → (result ≡ exit) ↔ IsDone (settled taking s)
  exit-IsDone false answer s s' result rules' o running e =
      settled_one false answer s s' result rules' (live_three s o) running e
  exit-IsDone true answer s s' result rules' o running e = elim (Bool-cases s.thread_data.eof) [
    | inl at_end ↦
        subst (λ eof. (result ≡ exit) ↔ IsDone (if eof then end_outbound s else s)) (sym at_end)
          (settled_one false answer (end_outbound s) s' result rules'
            (live_three (end_outbound s) (end_outbound-IsOpen s o)) running
            (sym (wait_cancels answer s at_end o) ∙ e))
    | inr goes_on ↦
        subst (λ eof. (result ≡ exit) ↔ IsDone (if eof then end_outbound s else s)) (sym goes_on)
          (settled_one true answer s s' result rules' (live_four s goes_on o) running e)
  ]

  -- A wait with nothing left to do.
  pub wait_done :
      (taking : Bool) (answer : PollAnswer) (s : Socket A)
      → AllLive (rules_left taking) s
      → IsDone s
      → wait_next_event (rules_left taking) answer s ≡ some (exit, s, rules_left taking)
  wait_done taking answer s live d =
      let idle = (idle_iff taking s).1 d in
      wait_live (rules_left taking) answer s live ∙ rw idle refl
