-- ===== src/Exchange.antt =====
-- libsponge/tcp_sender.cc and tcp_receiver.cc together: a segment of a valid sender reaches a receiver
-- of the same connection.
pub mod Delivery
mod Tests
use com_net_sponge.Prelude.{
  ℕ, ◌+◌, ◌-◌, ◌%◌, ◌^◌, ◌≤◌, ◌<◌, ◌≡◌, ◌≢◌, refl, sym, ap, subst, ◌∙◌, Bool, true, false, List,
  ◌∷◌, length, Option, some, min, arith,
}
use com_net_sponge.WrappingInt32.{wrap}
use com_net_sponge.Reassembler.Content.{Agrees}
use com_net_sponge.Reassembler.Insert.{available}
use com_net_sponge.TcpSegment.{TcpSegment, flag}
use com_net_sponge.TcpReceiver
use com_net_sponge.TcpReceiver.{TcpReceiver}
use com_net_sponge.TcpReceiver.Laws.{IsSynced, Carries, segment_received_advances}
use com_net_sponge.TcpSender.{TcpSender, Outstanding}
use com_net_sponge.TcpSender.Valid.{IsSender, IsCut, Chain}
use com_net_sponge.TcpSender.Tick.{resent}

front-IsCut :
    (f : ℕ → ℕ) (s : TcpSender) (k : ℕ) (seg : TcpSegment) (rest : List Outstanding)
    → IsSender f s
    → s.outstanding ≡ (k, seg) ∷ rest
    → IsCut f s.isn k seg
front-IsCut f s k seg rest v e = (subst (Chain f s.isn s.next_seqno) e v.chained).0

-- When the first segment in flight, behind the SYN, starts at the byte that the receiver wants next, its
-- retransmission is taken without fault: the receiver stays synchronized and valid, and advances by the
-- whole payload, as far as there is room.
pub resent_advances :
    (f : ℕ → ℕ) (size k : ℕ) (s : TcpSender) (r : TcpReceiver) (seg : TcpSegment)
    (rest : List Outstanding)
    → size < 2 ^ 64 - 1
    → IsSender f s
    → IsSynced f size r
    → s.isn ≡ r.isn
    → s.outstanding ≡ (k, seg) ∷ rest
    → seg.syn ≡ false
    → k ≡ r.reassembler.first_unassembled + 1
    → r.reassembler.first_unassembled + length seg.payload ≤ size
    → k % 2 ^ 32 ≢ 0
    → (r' : TcpReceiver) × (TcpReceiver.segment_received r (resent s (k, seg)) ≡ some r')
      × IsSynced f size r'
      × (r.reassembler.first_unassembled + min (length seg.payload) (available r.reassembler)
          ≤ r'.reassembler.first_unassembled)
resent_advances f size k s r seg rest b v w same e no_syn wanted inside not_isn =
    let cut = front-IsCut f s k seg rest v e in
    let i : ℕ = r.reassembler.first_unassembled in
    let at_i : k + flag seg.syn - 1 ≡ i = rw no_syn (omega arith) in
    let carries : Carries f size r i (resent s (k, seg)) = record {
      no_syn = no_syn;
      number = ap (λ j. wrap k j) same ∙ ap (λ j. wrap j r.isn) wanted;
      inside = inside;
      bytes = subst (λ j. Agrees f j seg.payload) at_i cut.content;
      not_far = omega arith;
      not_old = omega arith;
      not_isn = subst (λ j. j % 2 ^ 32 ≢ 0) wanted not_isn;
    } in
    let (r', taken, valid, advance) =
      segment_received_advances f size r i (resent s (k, seg)) b w carries (omega arith) in
    (r', taken, valid, omega (arith, advance))
