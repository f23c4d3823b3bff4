-- ===== src/SpongeSocket/Rules.antt =====
-- libsponge/tcp_helpers/tcp_sponge_socket.cc: what the callbacks of the rules do, and that `connect` comes to
-- its loop.
use com_net_sponge.Prelude.{
  ℕ, ◌≤◌, ◌<◌, ◌^◌, ◌≡◌, inl, inr, refl, ap, sym, ◌∙◌, Bool, true, false, Bool-cases, ◌||◌, ==_iff,
  ◌==◌, if◌then◌else◌, List, [], ◌∷◌, ◌++◌, length, length-take, take, drop, some, min, arith,
}
use com_net_sponge.ByteStream
use com_net_sponge.ByteStream.{ByteStream}
use com_net_sponge.ByteStream.Laws.{room, write_lem, peek_output_lem, pop_output_lem}
use com_net_sponge.EventLoop.{Rule}
use com_net_sponge.FileDescriptor
use com_net_sponge.FileDescriptor.{
  wrote, Answer, returned, ReadAnswer, gave, read_bytes, register_read, register_write, shut_wr,
}
use com_net_sponge.FileDescriptor.Laws.{read_lem, write_once}
use com_net_sponge.SpongeSocket.{
  AdapterOps, Socket, inbound, with_inbound, end_outbound, outbound_capacity, take_app_data,
  on_app_data, end_inbound, after_write, on_writable, initialize_tcp, still_connecting,
}
use com_net_sponge.SpongeSocket.Inbound.{take-take}
use com_net_sponge.SpongeSocket.Loop.{start_connecting}
use com_net_sponge.TcpConnection
use com_net_sponge.TcpConnection.{TcpConnection, TcpConfig}
use com_net_sponge.TcpOverIp.{FdAdapterConfig}
use com_net_sponge.TcpReceiver
use com_net_sponge.TcpState
use com_net_sponge.TcpState.{syn_was_sent, of_state, same_state}
use com_net_sponge.TcpState.Names.{connect_sends_syn, same_state_iff}
use com_net_sponge.WrappingInt32.{WrappingInt32}

-- The bytes of the application are all taken.
written_all :
    (c : TcpConnection) (bytes : List ℕ)
    → length bytes ≤ room c.sender.stream
    → (TcpConnection.write c bytes).1 ≡ length bytes
unfolding TcpConnection.write
written_all c bytes fits = ap (λ t. t.1) (write_lem c.sender.stream bytes) ∙ (omega arith)

module _ {A : Type 0} where
  -- `connect` on a socket without a connection never throws on account of the state that it finds: the
  -- new connection is in the state SYN_SENT, and the loop is entered.
  pub start_connecting_lem :
      (ops : AdapterOps A) (s : Socket A) (rules : List (Rule (Socket A))) (cfg : TcpConfig)
      (isn : WrappingInt32) (config : FdAdapterConfig)
      → s.has_tcp ≡ false
      → (s' : Socket A) × (start_connecting ops s rules cfg isn config
          ≡ some (s', (initialize_tcp ops s rules cfg isn).1))
        × (TcpState.state s'.tcp ≡ of_state syn_was_sent)
        × (s'.tcp ≡ TcpConnection.connect (TcpConnection.new cfg isn))
        × (s'.adapter ≡ ops.set_config s.adapter config)
  unfolding start_connecting initialize_tcp still_connecting
  start_connecting_lem ops s rules cfg isn config idle =
      let right : same_state (TcpState.state (TcpConnection.connect (TcpConnection.new cfg isn)))
            (of_state syn_was_sent)
          ≡ true =
        (same_state_iff _ _).1 (connect_sends_syn cfg isn) in
      let s' : Socket A = record s {
        tcp = TcpConnection.connect (TcpConnection.new cfg isn);
        has_tcp = true;
        adapter = ops.set_config s.adapter config;
      } in
      (s', simp (idle, right), connect_sends_syn cfg isn, refl, refl)

  capacity_is_room :
      (s : Socket A)
      → length s.tcp.sender.stream.buffer ≤ s.tcp.sender.stream.capacity
      → s.tcp.sender.stream.capacity < 2 ^ 64
      → outbound_capacity s ≡ room s.tcp.sender.stream
  unfolding outbound_capacity ByteStream.remaining_capacity
  capacity_is_room s fits small = omega arith

  after_app_data : Socket A → List ℕ → Socket A
  after_app_data s bytes =
      let s' : Socket A = record s { tcp = (TcpConnection.write s.tcp bytes).0 } in
      if s.thread_data.eof then end_outbound s' else s'

  either_way :
      (eof : Bool) (x y : Socket A) → (if eof then some x else some y) ≡ some (if eof then x else y)
  either_way true x y = refl
  either_way false x y = refl

  take_app_data_lem :
      (s : Socket A) (bytes : List ℕ)
      → ((TcpConnection.write s.tcp bytes).1 == length bytes) ≡ true
      → take_app_data s bytes ≡ some (after_app_data s bytes)
  unfolding take_app_data after_app_data
  take_app_data_lem s bytes taken = simp taken (either_way s.thread_data.eof _ _)

  -- The callback of rule 2, when the system gives bytes, as many as were asked for at most: it does not
  -- throw, every byte is written to the connection, and the outbound stream is ended exactly when there
  -- were none.
  pub on_app_data_lem :
      (s : Socket A) (bytes : List ℕ) (answers : List ReadAnswer)
      → s.app_reads ≡ gave bytes ∷ answers
      → s.thread_data.eof ≡ false
      → 0 < outbound_capacity s
      → length s.tcp.sender.stream.buffer ≤ s.tcp.sender.stream.capacity
      → s.tcp.sender.stream.capacity < 2 ^ 64
      → length bytes ≤ min FileDescriptor.buffer_size (outbound_capacity s)
      → (s' : Socket A) × (on_app_data s ≡ some s')
        × ((TcpConnection.write s.tcp bytes).1 ≡ length bytes)
        × (s'.tcp ≡ (
            if length bytes == 0
            then TcpConnection.end_input_stream (TcpConnection.write s.tcp bytes).0
            else (TcpConnection.write s.tcp bytes).0))
        × (s'.outbound_shutdown ≡ ((length bytes == 0) || s.outbound_shutdown))
        × (s'.app_reads ≡ answers)
  unfolding on_app_data after_app_data end_outbound register_read
  on_app_data_lem s bytes answers script before asked fits small given =
      let limit = capacity_is_room s fits small in
      let all = written_all s.tcp bytes (omega arith) in
      let taken : ((TcpConnection.write s.tcp bytes).1 == length bytes) ≡ true =
        (==_iff _ _).1 all in
      let was_read = read_lem s.thread_data (outbound_capacity s) bytes asked given in
      let s' : Socket A = record s {
        thread_data =
            register_read
              (if length bytes == 0 then record (s.thread_data) { eof = true } else s.thread_data);
        app_reads = answers;
      } in
      (
        after_app_data s' bytes,
        rw (on_app_data, script, was_read) (take_app_data_lem s' bytes taken),
        all,
        elim (Bool-cases (length bytes == 0)) [
          | inl none_left ↦ rw (after_app_data, none_left) refl
          | inr some_left ↦ simp (some_left, before)
        ],
        elim (Bool-cases (length bytes == 0)) [
          | inl none_left ↦ rw (after_app_data, none_left) refl
          | inr some_left ↦ simp (some_left, before)
        ],
        elim (Bool-cases (length bytes == 0)) [
          | inl none_left ↦ rw (after_app_data, none_left) refl
          | inr some_left ↦ simp (some_left, before)
        ],
      )

  abbrev pub over : Socket A → Bool
  over s = ByteStream.eof (inbound s) || (inbound s).error

  after_end : Socket A → List Answer → Socket A
  after_end s answers = record s {
    thread_data = FileDescriptor.shut s.thread_data shut_wr;
    shutdowns = answers;
    inbound_shutdown = true;
  }

  end_inbound_lem :
      (s : Socket A) (k : ℕ) (answers : List Answer)
      → s.shutdowns ≡ returned k ∷ answers
      → end_inbound s ≡ some (if over s then after_end s answers else s)
  unfolding end_inbound after_end FileDescriptor.shutdown
  end_inbound_lem s k answers script = elim (Bool-cases (over s)) [
    | inl ends ↦ simp ends (rw (script) refl)
    | inr runs ↦ simp runs refl
  ]

  -- What rule 3's callback has done before it looks at the end of the stream.
  abbrev given : Socket A → ℕ → List Answer → Socket A
  given s n answers =
      with_inbound
        (record s {
          thread_data = register_write s.thread_data;
          app_writes = answers;
          delivered = s.delivered ++ take n (inbound s).buffer;
        })
        (ByteStream.pop_output (inbound s) n)

  on_writable_given :
      (s : Socket A) (n : ℕ) (answers : List Answer)
      → s.app_writes ≡ returned n ∷ answers
      → n ≤ min 65536 (length (inbound s).buffer)
      → (n ≡ 0 → length (inbound s).buffer ≡ 0)
      → on_writable s ≡ end_inbound (given s n answers)
  unfolding on_writable after_write ByteStream.buffer_size inbound
  on_writable_given s n answers script fits idle =
      let out : ByteStream = s.tcp.receiver.reassembler.output in
      let m : ℕ = min 65536 (length out.buffer) in
      let long = length-take m out.buffer in
      let sent : FileDescriptor.write s.thread_data (ByteStream.peek_output out m) false
            (returned n ∷ [])
          ≡ wrote (register_write s.thread_data) (take n out.buffer) n =
        ap (λ x. FileDescriptor.write s.thread_data x false (returned n ∷ []))
          (peek_output_lem out m)
        ∙ write_once s.thread_data (take m out.buffer) n [] (omega arith) (omega arith)
            (λ z. omega (arith, idle z))
        ∙ ap (λ x. wrote (register_write s.thread_data) x n)
            (take-take n m out.buffer (omega arith)) in
      rw (on_writable, script, sent) refl

  -- The callback of rule 3, when the system takes some bytes, at least one if there are any: they are the
  -- oldest bytes of the inbound stream, they leave it, and the others stay; and shutdown(SHUT_WR) is called
  -- on the socket, and noted, exactly when the stream is then at its end or has failed.
  pub on_writable_lem :
      (s : Socket A) (n k : ℕ) (answers shut : List Answer)
      → s.app_writes ≡ returned n ∷ answers
      → s.shutdowns ≡ returned k ∷ shut
      → n ≤ min 65536 (length (inbound s).buffer)
      → (n ≡ 0 → length (inbound s).buffer ≡ 0)
      → (s' : Socket A) × (on_writable s ≡ some s')
        × (s'.delivered ≡ s.delivered ++ take n (inbound s).buffer)
        × ((inbound s').buffer ≡ drop n (inbound s).buffer)
        × (s'.inbound_shutdown ≡ (over s' || s.inbound_shutdown))
        × (s'.thread_data ≡ (
            if over s'
            then FileDescriptor.shut (register_write s.thread_data) shut_wr
            else register_write s.thread_data))
        × (s'.shutdowns ≡ (if over s' then shut else returned k ∷ shut))
  unfolding after_end with_inbound inbound TcpReceiver.with_stream_out
  on_writable_lem s n k answers shut script shuts fits idle =
      let t : Socket A = given s n answers in
      let done = on_writable_given s n answers script fits idle ∙ end_inbound_lem t k shut shuts in
      let left = ap (λ x. x.buffer) (pop_output_lem (inbound s) n) in
      elim (Bool-cases (over t)) [
        | inl ends ↦ (
          after_end t shut,
          done ∙ ap (λ o. some (if o then after_end t shut else t)) ends,
          refl,
          left,
          sym (ap (λ o. o || s.inbound_shutdown) ends),
          sym (
              ap
                (λ o.
                  if o
                  then FileDescriptor.shut (register_write s.thread_data) shut_wr
                  else register_write s.thread_data)
                ends),
          sym (ap (λ o. if o then shut else returned k ∷ shut) ends),
        )
        | inr runs ↦ (
          t,
          done ∙ ap (λ o. some (if o then after_end t shut else t)) runs,
          refl,
          left,
          sym (ap (λ o. o || s.inbound_shutdown) runs),
          sym (
              ap
                (λ o.
                  if o
                  then FileDescriptor.shut (register_write s.thread_data) shut_wr
                  else register_write s.thread_data)
                runs),
          shuts ∙ sym (ap (λ o. if o then shut else returned k ∷ shut) runs),
        )
      ]
