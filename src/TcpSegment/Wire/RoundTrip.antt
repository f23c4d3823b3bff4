-- ===== src/TcpSegment/Wire/RoundTrip.antt =====
-- libsponge/tcp_helpers/tcp_segment.cc: a segment that was serialized is parsed after_cksum, its checksum verified.
use com_net_sponge.Prelude.{
  ℕ, ◌+◌, ◌-◌, ◌*◌, ◌%◌, ◌^◌, ◌≤◌, ◌<◌, ◌≡◌, sym, subst, ap, ◌∙◌, false, List, [], ◌∷◌, ◌++◌,
  append_assoc, append-nil, length, length-append, length-replicate, some, arith,
}
use com_net_sponge.Buffer
use com_net_sponge.Buffer.{Buffer, BufferList}
use com_net_sponge.Buffer.Laws.{IsBuffer, of_string-IsBuffer}
use com_net_sponge.InternetChecksum
use com_net_sponge.InternetChecksum.{InternetChecksum}
use com_net_sponge.InternetChecksum.Laws.{
  weight, weight-le, value-fill, value-lt, add-append, AllBytes-append, AllBytes-replicate,
  AllBytes-word32, AllBytes-word16, AllBytes-word8,
}
use com_net_sponge.NetParser
use com_net_sponge.NetParser.{
  ParseResult, no_error, is_error, NetParser, u32, u16, u8, word32, word16, word8, put32, put16,
  put8,
}
use com_net_sponge.NetParser.Reads.{Reads, new-Reads, length-word16, lengths, AllBytes}
use com_net_sponge.TcpSegment.{TcpHeader, TcpSegment}
use com_net_sponge.TcpSegment.Wire.Header.{
  IsHeader, before_cksum, fixed, options, serialize_header_lem, parse_header_lem,
}
use com_net_sponge.Buffer.Lists.{concatenate_parts, concatenate-of_string}
use com_net_sponge.TcpSegment.Wire.{
  parse_header, flags_byte, parse, segment_checksum, append_parts, serialize,
}

-- The bytes before the checksum.
abbrev front : TcpHeader → List ℕ
front h = before_cksum h []

-- The bytes after it.
abbrev after_cksum : TcpHeader → List ℕ → List ℕ
after_cksum h payload = word16 h.uptr ++ (options h ++ payload)

with_cksum :
    (h : TcpHeader) (k : ℕ) (payload : List ℕ)
    → fixed (record h { cksum = k }) (options h) ++ payload
      ≡ front h ++ (word16 k ++ after_cksum h payload)
unfolding flags_byte
with_cksum h k payload = simp (append_assoc, append-nil)

length-front : (h : TcpHeader) → length (front h) ≡ 16
length-front h = simp lengths (omega arith)

length-after_cksum :
    (h : TcpHeader) (payload : List ℕ)
    → length (after_cksum h payload) ≡ 2 + (h.doff * 4 - 20 + length payload)
length-after_cksum h payload = simp (length-append, length-word16, length-replicate)

AllBytes-front : (h : TcpHeader) → AllBytes (front h)
AllBytes-front h = AllBytes-append _ _ (AllBytes-word16 h.sport) (
    AllBytes-append _ _ (AllBytes-word16 h.dport) (
      AllBytes-append _ _ (AllBytes-word32 h.seqno) (
        AllBytes-append _ _ (AllBytes-word32 h.ackno) (
          AllBytes-append _ _ (AllBytes-word8 (h.doff * 2 ^ 4)) (
            AllBytes-append _ _ (AllBytes-word8 (flags_byte h))
              (AllBytes-append _ [] (AllBytes-word16 h.win) (omega arith)))))))

AllBytes-after_cksum :
    (h : TcpHeader) (payload : List ℕ) → AllBytes payload → AllBytes (after_cksum h payload)
AllBytes-after_cksum h payload b =
    AllBytes-append _ _ (AllBytes-word16 h.uptr)
      (AllBytes-append _ _ (AllBytes-replicate (h.doff * 4 - 20)) b)

-- The segment and the checksum of the layer below are small enough for 32 bits to hold every sum.
pub record IsSegment (seg : TcpSegment) (datagram_layer_checksum : ℕ) : Type 0 where
  pub header_fits : IsHeader seg.header
  pub bytes : AllBytes seg.payload
  pub short : seg.header.doff * 4 + length seg.payload < 2 ^ 16
  pub small : datagram_layer_checksum < 2 ^ 23

sum_fits :
    (seg : TcpSegment) (init : ℕ)
    → IsSegment seg init
    → init
        + weight false (front seg.header)
        + weight false (after_cksum seg.header seg.payload)
        + 65535
      < 2 ^ 32
sum_fits seg init v = omega (
  arith,
  v.header_fits.whole,
  v.short,
  v.small,
  weight-le false (front seg.header) (AllBytes-front seg.header),
  weight-le false (after_cksum seg.header seg.payload)
      (AllBytes-after_cksum seg.header seg.payload v.bytes),
  length-front seg.header,
  length-after_cksum seg.header seg.payload,
)

-- The bytes on the wire, with a checksum.
abbrev pub wire : TcpSegment → ℕ → List ℕ
wire seg k = front seg.header ++ (word16 k ++ after_cksum seg.header seg.payload)

-- The checksum that `serialize` computes.
unfoldable pub checksum : TcpSegment → ℕ → ℕ
checksum seg init =
    InternetChecksum.value (InternetChecksum.add (InternetChecksum.new init) (wire seg 0))

segment_checksum_lem :
    (seg : TcpSegment) (init : ℕ)
    → 5 ≤ seg.doff
    → segment_checksum seg init ≡ some (checksum seg init)
unfolding segment_checksum checksum
segment_checksum_lem seg init w =
    rw (serialize_header_lem (record seg.header { cksum = 0 }) w, segment_checksum)
      (ap (λ c. some (InternetChecksum.value c))
        (sym (
            add-append (InternetChecksum.new init)
              (fixed (record seg.header { cksum = 0 }) (options seg.header)) seg.payload)
          ∙ ap (InternetChecksum.add (InternetChecksum.new init))
              (with_cksum seg.header 0 seg.payload)))

append_parts_lem :
    (h : TcpHeader) (payload : List ℕ)
    → 5 ≤ h.doff
    → (bs : BufferList) × (append_parts h payload ≡ some bs)
      × (Buffer.concatenate bs ≡ fixed h (options h) ++ payload)
unfolding append_parts
append_parts_lem h payload w =
    let first : BufferList = Buffer.append [] (Buffer.of_string (fixed h (options h)) ∷ []) in
    let second : BufferList = Buffer.of_string payload ∷ [] in
    (
      Buffer.append first second,
      rw (serialize_header_lem h w, append_parts),
      concatenate_parts (fixed h (options h)) second
          ∙ ap (λ r. fixed h (options h) ++ r) (concatenate-of_string payload),
    )

verifies :
    (seg : TcpSegment) (init : ℕ)
    → IsSegment seg init
    → (checksum seg init < 2 ^ 16)
      × (InternetChecksum.value
            (InternetChecksum.add (InternetChecksum.new init) (wire seg (checksum seg init)))
          ≡ 0)
unfolding checksum
verifies seg init v =
    let even : length (front seg.header) % 2 ≡ 0 = rw (length-front seg.header) in
    (
      value-lt _,
      value-fill init (front seg.header) (after_cksum seg.header seg.payload) even
          (sum_fits seg init v),
    )

pub parse_verified :
    (b : Buffer) (init : ℕ) (h : TcpHeader) (result : ParseResult) (p : NetParser) (rest : List ℕ)
    → InternetChecksum.value (InternetChecksum.add (InternetChecksum.new init) (Buffer.str b)) ≡ 0
    → parse_header (NetParser.new b) ≡ ((h, result), p)
    → Reads p rest
    → parse b init ≡ (record { header = h; payload = rest }, no_error)
unfolding parse
parse_verified b init h result p rest good read r =
    rw (good, read) (λ i. (record { header = h; payload = r.left i }, r.fine i))

pub length-wire :
    (seg : TcpSegment) (k : ℕ)
    → 5 ≤ seg.doff
    → length (wire seg k) ≡ seg.doff * 4 + length seg.payload
length-wire seg k w =
    let e : length (wire seg k)
        ≡ length (front seg.header) + (2 + length (after_cksum seg.header seg.payload)) =
      simp (length-append, length-word16) in
    omega (arith, e, length-front seg.header, length-after_cksum seg.header seg.payload)

with_rest :
    (h : TcpHeader) (k : ℕ) (payload : List ℕ)
    → front h ++ (word16 k ++ after_cksum h payload)
      ≡ fixed (record h { cksum = k }) (options h ++ payload)
unfolding flags_byte
with_rest h k payload = simp (append_assoc, append-nil)

-- A buffer that shows the bytes of a segment whose checksum verifies.
parsed :
    (seg : TcpSegment) (init k : ℕ) (b : Buffer)
    → IsSegment seg init
    → k < 2 ^ 16
    → InternetChecksum.value (InternetChecksum.add (InternetChecksum.new init) (wire seg k)) ≡ 0
    → Buffer.str b ≡ wire seg k
    → IsBuffer b
    → parse b init ≡ (record seg { header = record seg.header { cksum = k } }, no_error)
parsed seg init k b v small good shows sound =
    let h : TcpHeader = record seg.header { cksum = k } in
    let fits : IsHeader h = omega arith in
    let r : Reads (NetParser.new b) (wire seg k) = new-Reads b (wire seg k) shows sound in
    let (p', read, after) =
      parse_header_lem h (NetParser.new b) seg.payload fits
        (subst (Reads (NetParser.new b)) (with_rest seg.header k seg.payload) r) in
    parse_verified b init h no_error p' seg.payload (rw shows good) read after

-- The segment with the checksum that `serialize` computes.
abbrev pub summed : TcpSegment → ℕ → TcpSegment
summed seg init = record seg { header = record seg.header { cksum = checksum seg init } }

-- What is serialized are the bytes on the wire.
pub serialize_lem :
    (seg : TcpSegment) (init : ℕ)
    → IsSegment seg init
    → (bs : BufferList) × (serialize seg init ≡ some bs)
      × (Buffer.concatenate bs ≡ wire seg (checksum seg init))
unfolding serialize
serialize_lem seg init v =
    let k : ℕ = checksum seg init in
    let w : 5 ≤ seg.doff = v.header_fits.whole in
    let (bs, done, bytes) = append_parts_lem (record seg.header { cksum = k }) seg.payload w in
    (
      bs,
      rw (segment_checksum_lem seg init w, serialize) done,
      bytes ∙ with_cksum seg.header k seg.payload,
    )

-- A buffer that shows these bytes is parsed.
pub wire_parsed :
    (seg : TcpSegment) (init : ℕ) (b : Buffer)
    → IsSegment seg init
    → Buffer.str b ≡ wire seg (checksum seg init)
    → IsBuffer b
    → parse b init ≡ (summed seg init, no_error)
wire_parsed seg init b v shows sound =
    let (small, good) = verifies seg init v in
    parsed seg init (checksum seg init) b v small good shows sound

-- A segment whose fields are in range is parsed from what was serialized, with the checksum that was
-- computed and no error.
pub parse-serialize_segment :
    (seg : TcpSegment) (init : ℕ)
    → IsSegment seg init
    → (bs : BufferList) × (serialize seg init ≡ some bs)
      × (parse (Buffer.of_string (Buffer.concatenate bs)) init ≡ (summed seg init, no_error))
parse-serialize_segment seg init v =
    let (bs, done, on_wire) = serialize_lem seg init v in
    let len : length (wire seg (checksum seg init)) < 2 ^ 64 =
      omega (arith, length-wire seg (checksum seg init) v.header_fits.whole, v.short) in
    let (shows, sound) = of_string-IsBuffer (wire seg (checksum seg init)) len in
    (
      bs,
      done,
      rw on_wire
          (wire_parsed seg init (Buffer.of_string (wire seg (checksum seg init))) v shows sound),
    )
