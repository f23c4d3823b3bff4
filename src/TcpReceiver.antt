-- ===== src/TcpReceiver.antt =====
-- libsponge/tcp_receiver.hh and tcp_receiver.cc: inbound segments go to the reassembler, and the
-- acknowledgment number and the window are computed for the peer. `none` is a fault of the
-- reassembler, which valid states do not reach.
pub mod Laws
pub mod Session
pub mod Tests
use com_net_sponge.Prelude.{
  ℕ, ◌+◌, Bool, true, false, not, ◌&&◌, ◌||◌, ltb, ◌==◌, if◌then◌else◌, List, length, Option, none,
  some,
}
use com_net_sponge.Prelude.Words.{add64, sub64}
use com_net_sponge.ByteStream
use com_net_sponge.WrappingInt32.{WrappingInt32, wrap, unwrap, back}
use com_net_sponge.Reassembler
use com_net_sponge.Reassembler.{Reassembler}
use com_net_sponge.TcpSegment.{TcpSegment, TcpHeader, flag}

pub record TcpReceiver : Type 0 where
  pub reassembler : Reassembler
  pub capacity : ℕ
  pub syn : Bool
  pub fin : Bool
  pub isn : WrappingInt32

-- The constructor.
unfoldable pub new : ℕ → TcpReceiver
unfolding Reassembler.new
new capacity = record {
  reassembler = Reassembler.new capacity;
  capacity = capacity;
  syn = false;
  fin = false;
  isn = 0;
}

-- The payload, which is not pushed where it is empty or its index would lie before the SYN.
unfoldable pub push_payload : TcpReceiver → TcpSegment → Option TcpReceiver
push_payload r seg =
    let index : ℕ =
      unwrap (back seg.seqno (flag (not seg.header.syn))) r.isn r.reassembler.first_unassembled in
    if ltb 0 (length seg.payload) && (seg.header.syn || not (seg.seqno == r.isn))
    then elim (Reassembler.push_substring r.reassembler seg.payload index seg.header.fin) [
      | none ↦ none
      | some s ↦ some (record r { reassembler = s })
    ]
    else some r

-- The FIN flag, of this segment or of an earlier one.
unfoldable pub note_fin : TcpReceiver → TcpSegment → TcpReceiver
note_fin r seg =
    if seg.header.fin || r.fin
    then (if Reassembler.unassembled_bytes r.reassembler == 0
        then record r { fin = true; reassembler = Reassembler.end_output r.reassembler }
        else record r { fin = true })
    else r

unfoldable pub segment_received : TcpReceiver → TcpSegment → Option TcpReceiver
segment_received r seg =
    if not r.syn && not seg.header.syn
    then some r
    else (let opened : TcpReceiver =
          if not r.syn then record r { isn = seg.seqno; syn = true } else r in
        elim (push_payload opened seg) [ none ↦ none | some r' ↦ some (note_fin r' seg) ])

unfoldable pub ackno : TcpReceiver → Option WrappingInt32
ackno r =
    let index : ℕ = add64 r.reassembler.first_unassembled 1 in
    let index' : ℕ = if r.reassembler.output.input_ended then add64 index 1 else index in
    if r.syn then some (wrap index' r.isn) else none

unfoldable pub window_size : TcpReceiver → ℕ
window_size r = sub64 r.capacity (ByteStream.buffer_size r.reassembler.output)

unfoldable pub unassembled_bytes : TcpReceiver → ℕ
unassembled_bytes r = Reassembler.unassembled_bytes r.reassembler

-- A change that the reader makes through `stream_out()`.
unfoldable pub with_stream_out : TcpReceiver → ByteStream.ByteStream → TcpReceiver
with_stream_out r out = record r { reassembler = record (r.reassembler) { output = out } }
