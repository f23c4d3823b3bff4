-- ===== src/SpongeSocket/Session.antt =====
-- libsponge/tcp_helpers/tcp_sponge_socket.cc: over all passes of the event loop, what the application reads
-- is the start of the peer's stream.
use com_net_sponge.Prelude.{
  ℕ, ◌+◌, ◌-◌, ◌<◌, ◌^◌, ◌≡◌, inl, inr, sym, subst, Bool, true, false, Bool-cases, ◌||◌, List, [],
  ◌∷◌, ◌++◌, length, Option, Option-cases, none, some, arith, if◌then◌else◌,
}
use com_net_sponge.Prelude.Words.{sub64}
use com_net_sponge.EventLoop.{is_exit, Rule, wait_next_event}
use com_net_sponge.EventLoop.Laws.{After, AllKeep, wait_next_event-Keeps}
use com_net_sponge.FileDescriptor
use com_net_sponge.FileDescriptor.{
  Answer, shut_rdwr, ReadAnswer, WriteResult, wrote, threw, blocked,
}
use com_net_sponge.Reassembler.Content.{Agrees}
use com_net_sponge.SpongeSocket.{
  still_connecting, still_accepting, AdapterOps, Socket, Pass, inbound, initialize_tcp, tick,
}
use com_net_sponge.SpongeSocket.Inbound.{IsTruthful, Kept, tick-Kept, rules-Kept}
use com_net_sponge.SpongeSocket.Loop.{
  tcp_main, run_thread, end_thread, close_socket, connect, listen_and_accept, start_connecting,
  start_listening, LoopResult, ended, going, left_by_exception, tick_if_active, tcp_loop,
}
use com_net_sponge.TcpConnection
use com_net_sponge.TcpConnection.{TcpConfig, TcpConnection, respond, heard}
use com_net_sponge.TcpConnection.Receiving.{connect_keeps}
use com_net_sponge.TcpOverIp.{FdAdapterConfig}
use com_net_sponge.TcpReceiver
use com_net_sponge.TcpReceiver.{TcpReceiver}
use com_net_sponge.TcpReceiver.Session.{IsReceiving, new-IsReceiving, whole}

module _ {A : Type 0} (f : ℕ → ℕ) (size isn : ℕ) (ops : AdapterOps A) (P : A → Type 0)
    (b : size < 2 ^ 31 - 1) (small : isn < 2 ^ 32) (truth : IsTruthful f size isn ops P) where
  abbrev Good : Socket A → Type 0
  Good s = Kept f size isn ops P b small truth s

  -- The loop has not been left by an exception, and goes on or has ended so.
  abbrev Standing : LoopResult A → Type 0
  Standing (ended s rules) = Good s × AllKeep Good rules
  Standing (going s rules base) = Good s × AllKeep Good rules
  Standing left_by_exception = Unit

  either :
      (active : Bool) (x y : Socket A × ℕ) → Good x.0 → Good y.0 → Good (if active then x else y).0
  either true x y p q = p
  either false x y p q = q

  tick_if_active-Kept :
      (s : Socket A) (now base : ℕ) → Good s → Good (tick_if_active ops s now base).0
  unfolding tick_if_active
  tick_if_active-Kept s now base k =
      either s.tcp.active (tick ops s (sub64 now base), now) (s, base)
        (tick-Kept f size isn ops P b small truth s (sub64 now base) k) k

  tcp_loop-Standing :
      (condition : Socket A → Bool) (passes : List Pass) (s : Socket A)
      (rules : List (Rule (Socket A))) (base : ℕ)
      → AllKeep Good rules
      → Good s
      → Standing (tcp_loop ops condition passes s rules base)
  unfolding tcp_loop
  tcp_loop-Standing condition [] s rules base keep k = elim (Bool-cases (condition s)) [
    | inl e ↦ rw (tcp_loop, e) (k, keep)
    | inr e ↦ rw (tcp_loop, e) (k, keep)
  ]
  tcp_loop-Standing condition (pass ∷ passes) s rules base keep k =
      let waited = wait_next_event-Keeps Good rules pass.answer s keep k in
      elim (Bool-cases (condition s)) [
        | inr e ↦ rw (tcp_loop, e) (k, keep)
        | inl goes_on ↦ elim (Option-cases (wait_next_event rules pass.answer s)) [
          | inl e ↦ rw (tcp_loop, goes_on, e) tt
          | inr ((result, s', rules'), e) ↦
              let (k', keep') = subst (After (λ x. Good x.1 × AllKeep Good x.2)) e waited in
              elim (Bool-cases (is_exit result || pass.abort)) [
                | inl out ↦ rw (tcp_loop, goes_on, e, out) (k', keep')
                | inr on ↦
                    rw (tcp_loop, goes_on, e, on)
                      (tcp_loop-Standing condition passes (tick_if_active ops s' pass.now base).0
                        rules' (tick_if_active ops s' pass.now base).1 keep'
                        (tick_if_active-Kept s' pass.now base k'))
              ]
        ]
      ]

  close_socket-Standing :
      (s : Socket A) (rules : List (Rule (Socket A))) (answer : Answer)
      → AllKeep Good rules
      → Good s
      → Standing (close_socket ops s rules answer)
  unfolding close_socket
  close_socket-Standing s rules answer keep k =
      elim (Option-cases (FileDescriptor.shutdown s.user_end shut_rdwr answer)) [
        | inl e ↦ rw (close_socket, e) tt
        | inr (f', e) ↦ rw (close_socket, e) (k, keep)
      ]

  end_thread-Standing :
      (r : LoopResult A) (answer : Answer) → Standing r → Standing (end_thread ops r answer)
  unfolding end_thread
  end_thread-Standing (ended s rules) answer h = close_socket-Standing s rules answer h.1 h.0
  end_thread-Standing (going s rules base) answer h = h
  end_thread-Standing left_by_exception answer h = tt

  if_begun :
      (begun : Bool) (r : LoopResult A)
      → Standing r
      → Standing (if begun then r else left_by_exception)
  if_begun true r h = h
  if_begun false r h = tt

  run_thread-Standing :
      (r : LoopResult A) (base : ℕ) (passes : List Pass) (answer : Answer)
      → Standing r
      → Standing (run_thread ops r base passes answer)
  unfolding run_thread tcp_main
  run_thread-Standing (going s rules since) base passes answer h = h
  run_thread-Standing left_by_exception base passes answer h = tt
  run_thread-Standing (ended s rules) base passes answer h =
      if_begun s.has_tcp (end_thread ops (tcp_loop ops (λ s. true) passes s rules base) answer) (
        end_thread-Standing (tcp_loop ops (λ s. true) passes s rules base) answer
          (tcp_loop-Standing (λ s. true) passes s rules base h.1 h.0))

  -- What the application was given, followed by what is buffered for it, is the start of the stream.
  abbrev pub Prefix : Socket A → Type 0
  Prefix s =
      Agrees f 0 (s.delivered ++ (inbound s).buffer)
      × (length (s.delivered ++ (inbound s).buffer) ≡ s.tcp.receiver.reassembler.first_unassembled)

  -- The socket that a loop has left, or in which it goes on.
  abbrev pub Shows : LoopResult A → Type 0
  Shows (ended s rules) = Prefix s
  Shows (going s rules base) = Prefix s
  Shows left_by_exception = Unit

  shown : (r : LoopResult A) → Standing r → Shows r
  unfolding inbound
  shown (ended s rules) h = whole f size isn s.delivered s.tcp.receiver h.0.0
  shown (going s rules base) h = whole f size isn s.delivered s.tcp.receiver h.0.0
  shown left_by_exception h = tt

  initialized :
      (got : List ℕ) (cfg : TcpConfig) (own : ℕ)
      → got ≡ []
      → size + cfg.recv_capacity < 2 ^ 64
      → IsReceiving f size isn got (TcpConnection.new cfg own).receiver
  unfolding TcpConnection.new
  initialized got cfg own e w =
      subst (λ x. IsReceiving f size isn x (TcpReceiver.new cfg.recv_capacity)) (sym e)
        (new-IsReceiving f size isn cfg.recv_capacity (omega arith) w)

  abbrev entered :
      (Socket A → Bool) → List Pass → ℕ → Option (Socket A × List (Rule (Socket A))) → LoopResult A
  entered condition passes base o = elim o [
    | none ↦ left_by_exception
    | some (s, rules) ↦ tcp_loop ops condition passes s rules base
  ]

  entered_if :
      (has_tcp ready : Bool) (condition : Socket A → Bool) (passes : List Pass) (base : ℕ)
      (s : Socket A) (rules : List (Rule (Socket A)))
      → AllKeep Good rules
      → Good s
      → Standing (
          entered condition passes base
            (if has_tcp then none else if ready then some (s, rules) else none))
  entered_if true ready condition passes base s rules keep k = tt
  entered_if false false condition passes base s rules keep k = tt
  entered_if false true condition passes base s rules keep k =
      tcp_loop-Standing condition passes s rules base keep k

  listening-Standing :
      (s : Socket A) (cfg : TcpConfig) (own base : ℕ) (config : FdAdapterConfig)
      (passes : List Pass)
      → s.delivered ≡ []
      → size + cfg.recv_capacity < 2 ^ 64
      → P (ops.set_listening (ops.set_config s.adapter config) true)
      → Standing (listen_and_accept ops s [] cfg own config base passes)
  unfolding listen_and_accept start_listening initialize_tcp
  listening-Standing s cfg own base config passes e w p =
      entered_if s.has_tcp true still_accepting passes base _ _
        (rules-Kept f size isn ops P b small truth s cfg own)
        (initialized s.delivered cfg own e w, p)

  connecting-Standing :
      (s : Socket A) (cfg : TcpConfig) (own base : ℕ) (config : FdAdapterConfig)
      (passes : List Pass)
      → s.delivered ≡ []
      → size + cfg.recv_capacity < 2 ^ 64
      → P (ops.set_config s.adapter config)
      → Standing (connect ops s [] cfg own config base passes)
  unfolding connect start_connecting initialize_tcp
  connecting-Standing s cfg own base config passes e w p =
      entered_if s.has_tcp _ still_connecting passes base _ _
        (rules-Kept f size isn ops P b small truth s cfg own)
        (
          subst (IsReceiving f size isn s.delivered)
              (sym (connect_keeps (TcpConnection.new cfg own)))
              (initialized s.delivered cfg own e w),
          p,
        )

  -- An application accepts a connection, over an adapter that reads only resets and segments of a peer:
  -- its SYN, and pieces of one stream in any order, lost, repeated or overlapping. Whatever the system
  -- reports to the event loop, however long the loop and then the thread run, and whether they still do:
  -- unless an exception ended them, what was written to the application, followed by what is buffered for
  -- it, is the stream from its start up to the next byte wanted, without a gap.
  pub accepted-Prefix :
      (s : Socket A) (cfg : TcpConfig) (own base since : ℕ) (config : FdAdapterConfig)
      (passes later : List Pass) (answer : Answer)
      → s.delivered ≡ []
      → size + cfg.recv_capacity < 2 ^ 64
      → P (ops.set_listening (ops.set_config s.adapter config) true)
      → Shows (
          run_thread ops (listen_and_accept ops s [] cfg own config base passes) since later answer)
  accepted-Prefix s cfg own base since config passes later answer e w p = shown _ (
      run_thread-Standing (listen_and_accept ops s [] cfg own config base passes) since later answer
        (listening-Standing s cfg own base config passes e w p))

  -- The same of a connection that the application opens.
  pub connected-Prefix :
      (s : Socket A) (cfg : TcpConfig) (own base since : ℕ) (config : FdAdapterConfig)
      (passes later : List Pass) (answer : Answer)
      → s.delivered ≡ []
      → size + cfg.recv_capacity < 2 ^ 64
      → P (ops.set_config s.adapter config)
      → Shows (run_thread ops (connect ops s [] cfg own config base passes) since later answer)
  connected-Prefix s cfg own base since config passes later answer e w p = shown _ (
      run_thread-Standing (connect ops s [] cfg own config base passes) since later answer
        (connecting-Standing s cfg own base config passes e w p))
