-- ===== src/SpongeSocket/Loop.antt =====
-- libsponge/tcp_helpers/tcp_sponge_socket.cc: the loop of the thread, and the calls that run it. The passes
-- of the event loop that the system has allowed so far are a list; the loop may still be going at its end.
use com_net_sponge.Prelude.{
  ℕ, Bool, true, false, ◌||◌, if◌then◌else◌, List, [], ◌∷◌, Option, none, some,
}
use com_net_sponge.Prelude.Words.{sub64}
use com_net_sponge.EventLoop.{is_exit, Rule, wait_next_event}
use com_net_sponge.FileDescriptor
use com_net_sponge.FileDescriptor.{Answer, shut_rdwr}
use com_net_sponge.SpongeSocket.{
  AdapterOps, Socket, Pass, tick, initialize_tcp, still_connecting, still_accepting,
}
use com_net_sponge.TcpConnection
use com_net_sponge.TcpConnection.{TcpConfig}
use com_net_sponge.TcpOverIp.{FdAdapterConfig}
use com_net_sponge.WrappingInt32.{WrappingInt32}

-- How a loop stands: it has ended, it is still going (with its `base_time`), or an exception left it.
pub data LoopResult (A : Type 0) : Type 0 where
  ended : Socket A → List (Rule (Socket A)) → LoopResult A
  going : Socket A → List (Rule (Socket A)) → ℕ → LoopResult A
  left_by_exception : LoopResult A

module _ {A : Type 0} (ops : AdapterOps A) where
  -- The time since the last tick passes, while the connection is active: the socket and `base_time`.
  unfoldable pub tick_if_active : Socket A → ℕ → ℕ → Socket A × ℕ
  tick_if_active s now base = if s.tcp.active then (tick ops s (sub64 now base), now) else (s, base)

  -- The loop, with its condition.
  unfoldable pub tcp_loop :
      (Socket A → Bool) → List Pass → Socket A → List (Rule (Socket A)) → ℕ → LoopResult A
  tcp_loop condition [] s rules base = if condition s then going s rules base else ended s rules
  tcp_loop condition (pass ∷ passes) s rules base = elim (condition s) [
    | false ↦ ended s rules
    | true ↦ elim (wait_next_event rules pass.answer s) [
      | none ↦ left_by_exception
      | some (result, s', rules') ↦ elim (is_exit result || pass.abort) [
        | true ↦ ended s' rules'
        | false ↦
            let next = tick_if_active s' pass.now base in
            tcp_loop condition passes next.0 rules' next.1
      ]
    ]
  ]

  -- `connect` up to its loop, which it enters only in the state SYN_SENT.
  unfoldable pub start_connecting :
      Socket A
      → List (Rule (Socket A))
      → TcpConfig
      → WrappingInt32
      → FdAdapterConfig
      → Option (Socket A × List (Rule (Socket A)))
  start_connecting s rules cfg isn config =
      let (s', rules') = initialize_tcp ops s rules cfg isn in
      let s'' : Socket A = record s' {
        adapter = ops.set_config s'.adapter config;
        tcp = TcpConnection.connect s'.tcp;
      } in
      if s.has_tcp then none else if still_connecting s'' then some (s'', rules') else none

  unfoldable pub connect :
      Socket A
      → List (Rule (Socket A))
      → TcpConfig
      → WrappingInt32
      → FdAdapterConfig
      → ℕ
      → List Pass
      → LoopResult A
  connect s rules cfg isn config base passes = elim (start_connecting s rules cfg isn config) [
    | none ↦ left_by_exception
    | some (s', rules') ↦ tcp_loop still_connecting passes s' rules' base
  ]

  -- `listen_and_accept` up to its loop.
  unfoldable pub start_listening :
      Socket A
      → List (Rule (Socket A))
      → TcpConfig
      → WrappingInt32
      → FdAdapterConfig
      → Option (Socket A × List (Rule (Socket A)))
  start_listening s rules cfg isn config =
      let (s', rules') = initialize_tcp ops s rules cfg isn in
      if s.has_tcp
      then none
      else some (
        record s' { adapter = ops.set_listening (ops.set_config s'.adapter config) true },
        rules',
      )

  unfoldable pub listen_and_accept :
      Socket A
      → List (Rule (Socket A))
      → TcpConfig
      → WrappingInt32
      → FdAdapterConfig
      → ℕ
      → List Pass
      → LoopResult A
  listen_and_accept s rules cfg isn config base passes =
      elim (start_listening s rules cfg isn config) [
        | none ↦ left_by_exception
        | some (s', rules') ↦ tcp_loop still_accepting passes s' rules' base
      ]

  -- `shutdown` of the application's end, and the end of the connection.
  unfoldable pub close_socket : Socket A → List (Rule (Socket A)) → Answer → LoopResult A
  close_socket s rules answer = elim (FileDescriptor.shutdown s.user_end shut_rdwr answer) [
    | none ↦ left_by_exception
    | some f ↦ ended (record s { user_end = f; has_tcp = false }) rules
  ]

  unfoldable pub end_thread : LoopResult A → Answer → LoopResult A
  unfolding close_socket
  end_thread (ended s rules) answer = close_socket s rules answer
  end_thread (going s rules base) answer = going s rules base
  end_thread left_by_exception answer = left_by_exception

  -- `_tcp_main`, the body of the thread.
  unfoldable pub tcp_main :
      Socket A → List (Rule (Socket A)) → ℕ → List Pass → Answer → LoopResult A
  tcp_main s rules base passes answer =
      if s.has_tcp
      then end_thread (tcp_loop (λ s. true) passes s rules base) answer
      else left_by_exception

  -- `connect` and `listen_and_accept` start the thread when their loop has ended.
  unfoldable pub run_thread : LoopResult A → ℕ → List Pass → Answer → LoopResult A
  unfolding tcp_main
  run_thread (ended s rules) base passes answer = tcp_main s rules base passes answer
  run_thread (going s rules since) base passes answer = going s rules since
  run_thread left_by_exception base passes answer = left_by_exception
