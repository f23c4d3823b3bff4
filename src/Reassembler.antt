-- ===== src/Reassembler.antt =====
-- libsponge/stream_reassembler.hh and stream_reassembler.cc: excerpts of a byte stream, out of order
-- and overlapping, are put together into the output stream.
pub mod SegmentMap
pub mod Content
pub mod Absorb
pub mod AbsorbAll
pub mod Insert
pub mod Assemble
pub mod Trim
pub mod Valid
pub mod Drain
pub mod Ending
pub mod Push
pub mod History
pub mod Tests
use SegmentMap.{Segment, Segments, begin, find, next, erase, insert}
use com_net_sponge.Prelude.{
  ℕ, zero, suc, ◌+◌, ◌-◌, ◌*◌, ◌^◌, Bool, true, false, ◌&&◌, List, [], ◌∷◌, ◌++◌, Option, none,
  some, ltb, leb, ◌==◌, if◌then◌else◌, length, is_empty, take, drop, min,
}
use com_net_sponge.Prelude.Words.{add64, sub64}
use com_net_sponge.ByteStream
use com_net_sponge.ByteStream.{ByteStream}

pub record Reassembler : Type 0 where
  pub output : ByteStream
  pub capacity : ℕ
  pub first_unassembled : ℕ
  pub segments : Segments
  pub eof_index : ℕ

-- The constructor; `std::numeric_limits<size_t>::max()` stands for no end seen.
unfoldable pub new : ℕ → Reassembler
unfolding ByteStream.new
new capacity = record {
  output = ByteStream.new capacity;
  capacity = capacity;
  first_unassembled = 0;
  segments = [];
  eof_index = 2 ^ 64 - 1;
}

-- The loop of `unassembled_bytes`.
unfoldable pub sum_sizes : Segments → ℕ → ℕ
sum_sizes [] acc = acc
sum_sizes ((k, d) ∷ m) acc = sum_sizes m (add64 acc (length d))

unfoldable pub unassembled_bytes : Reassembler → ℕ
unfolding sum_sizes
unassembled_bytes s = sum_sizes s.segments 0

unfoldable pub empty : Reassembler → Bool
empty s = is_empty s.segments

unfoldable pub truncate_data : Reassembler → List ℕ → ℕ → List ℕ
truncate_data s bytes index =
    let first_unacceptable : ℕ = add64 s.output.bytes_read s.capacity in
    let available_space : ℕ =
      sub64 (sub64 s.capacity (ByteStream.buffer_size s.output)) (unassembled_bytes s) in
    take (min (min (length bytes) (sub64 first_unacceptable index)) available_space) bytes

-- The local variables of `insert_segment`.
pub record Incoming : Type 0 where
  pub bytes : List ℕ
  pub index : ℕ
  pub last : ℕ

-- How the loop of `insert_segment` finds a stored segment to lie: its tests, in their order.
pub data Overlap : Type 0 where
  before after covered_by_new covers_new new_first segment_first : Overlap

-- The source tests `seg_start < tmp_index` for the last one, which is what is left.
unfoldable pub overlap : Incoming → ℕ → ℕ → Overlap
overlap t seg_start seg_end =
    if ltb seg_end t.index
    then before
    else if ltb t.last seg_start
    then after
    else if leb t.index seg_start && leb seg_end t.last
    then covered_by_new
    else if leb seg_start t.index && leb t.last seg_end
    then covers_new
    else if ltb t.index seg_start
    then new_first
    else segment_first

-- The tail of the stored segment goes behind the new data.
unfoldable pub join_tail : Incoming → ℕ → List ℕ → Incoming
join_tail t seg_end d =
    let extra_len : ℕ = sub64 seg_end t.last in
    let bytes : List ℕ =
      if ltb 0 extra_len then t.bytes ++ drop (sub64 (length d) extra_len) d else t.bytes in
    record t { bytes = bytes; last = sub64 (add64 t.index (length bytes)) 1 }

-- The front of the stored segment goes before the new data.
unfoldable pub join_front : Incoming → ℕ → List ℕ → Incoming
join_front t seg_start d =
    let bytes : List ℕ = take (sub64 t.index seg_start) d ++ t.bytes in
    record { bytes = bytes; index = seg_start; last = sub64 (add64 seg_start (length bytes)) 1 }

-- The loop of `insert_segment`, over the nodes from the iterator on.
unfoldable pub absorb : Segments → Incoming → Segments × Incoming
absorb [] t = ([], t)
absorb ((k, d) ∷ m) t =
    let seg_end : ℕ = sub64 (add64 k (length d)) 1 in
    elim (overlap t k seg_end) [
      | before ↦ let (m', t') = absorb m t in ((k, d) ∷ m', t')
      | after ↦ ((k, d) ∷ m, t)
      | covered_by_new ↦ absorb m t
      | covers_new ↦ let (m', t') = absorb m (record t { bytes = [] }) in ((k, d) ∷ m', t')
      | new_first ↦ absorb m (join_tail t seg_end d)
      | segment_first ↦ absorb m (join_front t k d)
    ]

-- The end of `insert_segment`: what is left of the new data is cut to size and stored.
unfoldable pub store : Reassembler → Incoming → Reassembler
store s t =
    let truncated : List ℕ = truncate_data s t.bytes t.index in
    if is_empty t.bytes
    then s
    else if is_empty truncated
    then s
    else record s { segments = insert t.index truncated s.segments }

unfoldable pub insert_segment : Reassembler → List ℕ → ℕ → Reassembler
unfolding store
insert_segment s bytes index =
    let (m, t) =
      absorb s.segments
        (record { bytes = bytes; index = index; last = sub64 (add64 index (length bytes)) 1 }) in
    store (record s { segments = m }) t

-- One round of `try_assemble` at the node `(k, d)`: the new state and the next iterator.
unfoldable pub assemble_step : Reassembler → ℕ → List ℕ → Reassembler × Option ℕ
assemble_step s k d =
    let rest : Segments = erase k s.segments in
    let dropped : Reassembler = record s { segments = rest } in
    let fu : ℕ = s.first_unassembled in
    if ltb k fu
    then (
      if ltb fu (add64 k (length d))
          then insert_segment dropped (drop (sub64 fu k) d) fu
          else dropped,
      next k rest,
    )
    else (s, next k s.segments)

-- The loop of `try_assemble`. `none` is a use of an iterator whose node was erased, or fuel that ran
-- out; neither happens in a valid state.
unfoldable pub assemble_from : ℕ → Reassembler → Option ℕ → Option Reassembler
assemble_from zero s it = none
assemble_from (suc fuel) s none = some s
assemble_from (suc fuel) s (some k) = elim (find k s.segments) [
  | none ↦ none
  | some d ↦ let (s', it) = assemble_step s k d in assemble_from fuel s' it
]

unfoldable pub try_assemble : Reassembler → Option Reassembler
unfolding assemble_from
try_assemble s = assemble_from (2 * length s.segments + 2) s (begin s.segments)

-- A node at `first_unassembled` is written out and erased.
unfoldable pub flush : Reassembler → List ℕ → Reassembler
flush s d =
    let (out, written) = ByteStream.write s.output d in
    record s {
      output = out;
      first_unassembled = add64 s.first_unassembled written;
      segments = erase s.first_unassembled s.segments;
    }

-- The `while (true)` loop of `push_substring`, on fuel.
unfoldable pub drain : ℕ → Reassembler → Option Reassembler
drain zero s = none
drain (suc fuel) s = elim (try_assemble s) [
  | none ↦ none
  | some s' ↦ elim (find s'.first_unassembled s'.segments) [
    | none ↦ some s'
    | some d ↦ drain fuel (flush s' d)
  ]
]

unfoldable pub end_output : Reassembler → Reassembler
end_output s = record s { output = ByteStream.end_input s.output }

-- The branch of `push_substring` for bytes that continue the output.
unfoldable pub push_next : Reassembler → List ℕ → Option Reassembler
push_next s write_data =
    let (out, written) =
      ByteStream.write s.output (truncate_data s write_data s.first_unassembled) in
    let s' : Reassembler = record s {
      output = out;
      first_unassembled = add64 s.first_unassembled written;
    } in
    drain (length s'.segments + 1) s'

-- The last test of `push_substring`.
unfoldable pub finish : Reassembler → Reassembler
finish s = if empty s && (s.first_unassembled == s.eof_index) then end_output s else s

-- `push_substring` after `_eof_index` is set.
unfoldable pub push_at : Reassembler → List ℕ → ℕ → Option Reassembler
push_at s bytes index =
    let fu : ℕ = s.first_unassembled in
    let start_data : ℕ = if ltb index fu then sub64 fu index else 0 in
    let write_data : List ℕ = drop start_data bytes in
    let adjusted_index : ℕ = add64 index start_data in
    if leb (length bytes) start_data
    then some (if empty s && leb s.eof_index fu then end_output s else s)
    else if adjusted_index == fu
    then elim (push_next s write_data) [ none ↦ none | some s' ↦ some (finish s') ]
    else if ltb fu adjusted_index
    then some (finish (insert_segment s write_data adjusted_index))
    else some (finish s)

unfoldable pub push_substring : Reassembler → List ℕ → ℕ → Bool → Option Reassembler
push_substring s bytes index eof =
    push_at (if eof then record s { eof_index = add64 index (length bytes) } else s) bytes index
