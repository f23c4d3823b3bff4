-- ===== src/SpongeSocket/Tun.antt =====
-- libsponge/tcp_helpers/tuntap_adapter.hh over libsponge/util/file_descriptor.cc: the adapter for a TUN
-- device, as the parameter of the socket. The bytes of a datagram are handed to `writev` as one piece.
use com_net_sponge.Prelude.{
  ℕ, ◌-◌, ◌+◌, ◌^◌, ◌<◌, ◌≡◌, inl, inr, refl, subst, true, List, [], ◌∷◌, ◌++◌, Option,
  Option-cases, none, some,
}
use com_net_sponge.EventLoop.Laws.{After}
use com_net_sponge.FileDescriptor
use com_net_sponge.FileDescriptor.{
  FdWrapper, Answer, ReadAnswer, gave, read_failed, WriteResult, wrote, threw, blocked, read_bytes,
}
use com_net_sponge.FileDescriptor.Laws.{read_gives, read_fails}
use com_net_sponge.SpongeSocket.{AdapterOps, Socket, Pass}
use com_net_sponge.SpongeSocket.Inbound.{Truthful, IsTruthful}
use com_net_sponge.SpongeSocket.Loop.{listen_and_accept, run_thread}
use com_net_sponge.SpongeSocket.Session.{Shows, accepted-Prefix}
use com_net_sponge.TcpConnection.{TcpConfig}
use com_net_sponge.TcpOverIp.{FdAdapter, FdAdapterConfig, tun_read, tun_write}
use com_net_sponge.TcpSegment.{TcpSegment}

-- The device and the adapter's state; the answers to the reads, those to the calls of each write, and the
-- datagrams that were written.
pub record TunAdapter : Type 0 where
  pub device : FdWrapper
  pub adapter : FdAdapter
  pub reads : List ReadAnswer
  pub writes : List (List Answer)
  pub written : List (List ℕ)

-- The default limit of `read`.
abbrev pub no_limit : ℕ
no_limit = 2 ^ 64 - 1

unfoldable pub take_datagram : TunAdapter → List ℕ → Option (TunAdapter × Option TcpSegment)
take_datagram a bytes = elim (tun_read a.adapter bytes) [
  | none ↦ none
  | some (b, seg) ↦ some (record a { adapter = b }, seg)
]

unfoldable pub read : TunAdapter → Option (TunAdapter × Option TcpSegment)
unfolding take_datagram
read a = elim a.reads [
  | [] ↦ none
  | answer ∷ answers ↦ elim (FileDescriptor.read a.device no_limit answer) [
    | none ↦ none
    | some (f, bytes) ↦ take_datagram (record a { device = f; reads = answers }) bytes
  ]
]

unfoldable pub note_written : TunAdapter → WriteResult → Option TunAdapter
note_written a (wrote f sent n) = some (record a { device = f; written = a.written ++ (sent ∷ []) })
note_written a (threw f sent) = none
note_written a (blocked f sent) = none

unfoldable pub write : TunAdapter → TcpSegment → Option TunAdapter
unfolding note_written
write a seg = elim a.writes [
  | [] ↦ none
  | answers ∷ later ↦ elim (tun_write a.adapter seg) [
    | none ↦ none
    | some (seg', bytes) ↦
        note_written (record a { writes = later })
          (FileDescriptor.write a.device bytes true answers)
  ]
]

unfoldable pub tun_ops : AdapterOps TunAdapter
tun_ops = record {
  read = read;
  write = write;
  tick = λ a ms. a;
  fd = λ a. a.device;
  set_config = λ a config. record a { adapter = record (a.adapter) { cfg = config } };
  set_listening = λ a l. record a { adapter = record (a.adapter) { listening = l } };
}

module _ (f : ℕ → ℕ) (size isn : ℕ) where
  -- What the device gives, if it is a datagram that the adapter hands on, is truthful.
  abbrev pub Datagram : List ℕ → Type 0
  Datagram bytes = (a : FdAdapter) → After (λ x. After (Truthful f size isn) x.1) (tun_read a bytes)

  abbrev pub AllDatagrams : List ReadAnswer → Type 0
  AllDatagrams [] = Unit
  AllDatagrams (gave bytes ∷ answers) = Datagram bytes × AllDatagrams answers
  AllDatagrams (read_failed errno ∷ answers) = AllDatagrams answers

  abbrev pub Fed : TunAdapter → Type 0
  Fed a = AllDatagrams a.reads

  take_datagram-Fed :
      (a : TunAdapter) (bytes : List ℕ)
      → Datagram bytes
      → Fed a
      → After (λ x. Fed x.0 × After (Truthful f size isn) x.1) (take_datagram a bytes)
  unfolding take_datagram
  take_datagram-Fed a bytes d p =
      let given = d a.adapter in
      elim (Option-cases (tun_read a.adapter bytes)) [
        | inl e ↦ rw (take_datagram, e) tt
        | inr ((b, seg), e) ↦
            rw (take_datagram, e) (p, subst (After (λ x. After (Truthful f size isn) x.1)) e given)
      ]

  read-Fed :
      (a : TunAdapter) (answers : List ReadAnswer)
      → a.reads ≡ answers
      → AllDatagrams answers
      → After (λ x. Fed x.0 × After (Truthful f size isn) x.1) (read a)
  unfolding read
  read-Fed a [] e p = rw (read, e) tt
  read-Fed a (read_failed errno ∷ answers) e p = rw (read, e, read_fails a.device no_limit errno) tt
  read-Fed a (gave bytes ∷ answers) e p = elim (read_gives a.device no_limit bytes) [
    | inl e' ↦ rw (read, e, e') tt
    | inr (f', e', within) ↦
        rw (read, e, e')
          (take_datagram-Fed (record a { device = f'; reads = answers }) bytes p.0 p.1)
  ]

  note_written-Fed : (a : TunAdapter) (r : WriteResult) → Fed a → After Fed (note_written a r)
  unfolding note_written
  note_written-Fed a (wrote f' sent n) p = p
  note_written-Fed a (threw f' sent) p = tt
  note_written-Fed a (blocked f' sent) p = tt

  write-Fed :
      (a : TunAdapter) (seg : TcpSegment) (writes : List (List Answer))
      → a.writes ≡ writes
      → Fed a
      → After Fed (write a seg)
  unfolding write
  write-Fed a seg [] e p = rw (write, e) tt
  write-Fed a seg (answers ∷ later) e p = elim (Option-cases (tun_write a.adapter seg)) [
    | inl e' ↦ rw (write, e, e') tt
    | inr ((seg', bytes), e') ↦
        rw (write, e, e')
          (note_written-Fed (record a { writes = later })
            (FileDescriptor.write a.device bytes true answers) p)
  ]

  pub tun_ops-IsTruthful : IsTruthful f size isn tun_ops Fed
  unfolding tun_ops
  tun_ops-IsTruthful = record {
    reads = λ a p. read-Fed a a.reads refl p;
    writes = λ a seg p. write-Fed a seg a.writes refl p;
    ticks = λ a ms p. p;
  }

  -- An application accepts a connection over a TUN device, on which every datagram that the adapter hands
  -- on carries a reset or a segment of one peer: as long as no exception ends the loops, what was written
  -- to the application, followed by what is buffered for it, is the start of the peer's stream.
  pub tun-Prefix :
      (s : Socket TunAdapter) (cfg : TcpConfig) (own base since : ℕ) (config : FdAdapterConfig)
      (passes later : List Pass) (answer : Answer)
      → (b : size < 2 ^ 31 - 1) (small : isn < 2 ^ 32) → s.delivered ≡ []
      → size + cfg.recv_capacity < 2 ^ 64
      → Fed s.adapter
      → Shows f size isn tun_ops Fed b small tun_ops-IsTruthful (
          run_thread tun_ops
            (listen_and_accept tun_ops s [] cfg own config base passes)
            since
            later
            answer)
  unfolding tun_ops
  tun-Prefix s cfg own base since config passes later answer b small e w p =
      accepted-Prefix f size isn tun_ops Fed b small tun_ops-IsTruthful s cfg own base since config
        passes later answer e w p
