-- ===== src/Exchange/Delivery.antt =====
-- libsponge/tcp_connection.cc, tcp_over_ip.cc and tcp_receiver.cc together: a segment goes out of a
-- connection, over a TUN device, and into a receiver.
use com_net_sponge.Prelude.{
  ℕ, ◌+◌, ◌-◌, ◌%◌, ◌^◌, ◌≤◌, ◌<◌, ◌≡◌, ◌≢◌, inl, inr, refl, ap, ◌∙◌, Bool, true, false, List, ◌∷◌,
  length, Option-cases, some, min, ltb, if◌then◌else◌,
}
use com_net_sponge.Exchange.{resent_advances}
use com_net_sponge.Reassembler.Insert.{available}
use com_net_sponge.TcpConnection.{stamp}
use com_net_sponge.TcpOverIp.{FdAdapter, with_ports, tun_read, tun_write}
use com_net_sponge.TcpOverIp.RoundTrip.{Faces, tun_read-tun_write}
use com_net_sponge.TcpOverIp.Travel.{CanSend, sent}
use com_net_sponge.TcpReceiver
use com_net_sponge.TcpReceiver.{TcpReceiver, push_payload, note_fin}
use com_net_sponge.TcpReceiver.Laws.{IsSynced}
use com_net_sponge.TcpSegment.{TcpSegment}
use com_net_sponge.TcpSender.{TcpSender, Outstanding}
use com_net_sponge.TcpSender.Valid.{IsSender}
use com_net_sponge.TcpSender.Tick.{resent}

-- A segment with another acknowledgment and window.
abbrev marked : TcpSegment → ℕ → Bool → ℕ → TcpSegment
marked seg ackno ack win = record seg {
  header = record seg.header { ackno = ackno; ack = ack; win = win };
}

abbrev window_field : TcpReceiver → ℕ
window_field own =
    let window : ℕ = TcpReceiver.window_size own in
    if ltb 65535 window then 65535 else window % 2 ^ 16

stamp-marked :
    (own : TcpReceiver) (seg : TcpSegment)
    → (ackno : ℕ) × (ack : Bool) × (win : ℕ) × (stamp own seg ≡ marked seg ackno ack win)
unfolding stamp
stamp-marked own seg = elim (Option-cases (TcpReceiver.ackno own)) [
  | inl e ↦ (seg.ackno, seg.ack, window_field own, rw (e, stamp))
  | inr (n, e) ↦ (n, true, window_field own, rw (e, stamp))
]

-- A receiver does not look at the acknowledgment, the window, the ports and the checksum.
unseen_marks :
    (r : TcpReceiver) (a : FdAdapter) (seg : TcpSegment) (ackno : ℕ) (ack : Bool) (win : ℕ)
    → TcpReceiver.segment_received r (sent a (marked seg ackno ack win))
      ≡ TcpReceiver.segment_received r seg
unfolding with_ports TcpReceiver.segment_received push_payload note_fin
unseen_marks r a seg ackno ack win = refl

unseen :
    (r own : TcpReceiver) (a : FdAdapter) (seg : TcpSegment)
    → TcpReceiver.segment_received r (sent a (stamp own seg)) ≡ TcpReceiver.segment_received r seg
unseen r own a seg =
    let (ackno, ack, win, e) = stamp-marked own seg in
    ap (λ x. TcpReceiver.segment_received r (sent a x)) e ∙ unseen_marks r a seg ackno ack win

-- Where the first segment in flight of a valid sender lies behind the SYN and starts at the byte that a
-- valid receiver of the same stream wants next, its retransmission, stamped by its connection and written
-- to a TUN device, is read by the adapter at the other end; that receiver takes it without fault, stays
-- synchronized and valid, and advances by the whole payload, as far as there is room. It holds
-- of segments whose absolute sequence number is not a multiple of 2 ^ 32.
pub delivered_advances :
    (f : ℕ → ℕ) (size k : ℕ) (s : TcpSender) (own r : TcpReceiver) (a b : FdAdapter)
    (seg : TcpSegment) (rest : List Outstanding)
    → CanSend a (stamp own (resent s (k, seg)))
    → Faces a b
    → b.listening ≡ false
    → size < 2 ^ 64 - 1
    → IsSender f s
    → IsSynced f size r
    → s.isn ≡ r.isn
    → s.outstanding ≡ (k, seg) ∷ rest
    → seg.syn ≡ false
    → k ≡ r.reassembler.first_unassembled + 1
    → r.reassembler.first_unassembled + length seg.payload ≤ size
    → k % 2 ^ 32 ≢ 0
    → (bytes : List ℕ) × (got : TcpSegment) × (tun_write a (stamp own (resent s (k, seg)))
        ≡ some (with_ports a (stamp own (resent s (k, seg))), bytes))
      × (tun_read b bytes ≡ some (b, some got))
      × ((r' : TcpReceiver) × (TcpReceiver.segment_received r got ≡ some r')
          × IsSynced f size r'
          × (r.reassembler.first_unassembled + min (length seg.payload) (available r.reassembler)
              ≤ r'.reassembler.first_unassembled))
delivered_advances f size k s own r a b seg rest can faces connected bound v w same e no_syn wanted
      inside not_isn =
    let out : TcpSegment = stamp own (resent s (k, seg)) in
    let (bytes, written, read) = tun_read-tun_write a b out can faces connected in
    let (r', taken, valid, advance) =
      resent_advances f size k s r seg rest bound v w same e no_syn wanted inside not_isn in
    (
      bytes,
      sent a out,
      written,
      read,
      (r', unseen r own a (resent s (k, seg)) ∙ taken, valid, advance),
    )
