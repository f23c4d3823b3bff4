-- ===== src/Ipv4/RoundTrip.antt =====
-- libsponge/tcp_helpers/ipv4_datagram.cc: a datagram that was serialized is parsed after_cksum.
use com_net_sponge.Prelude.{
  ℕ, ◌+◌, ◌-◌, ◌*◌, ◌%◌, ◌^◌, ◌≤◌, ◌<◌, ◌≡◌, sym, ap, ◌∙◌, true, false, ◌==◌, List, [], ◌∷◌, ◌++◌,
  append_assoc, append-nil, length, length-append, length-replicate, some, arith,
}
use com_net_sponge.Buffer
use com_net_sponge.Buffer.{Buffer, BufferList}
use com_net_sponge.Buffer.Laws.{IsBuffer}
use com_net_sponge.Buffer.Lists.{concatenate_parts, concatenate_one, list_size_lem}
use com_net_sponge.InternetChecksum
use com_net_sponge.InternetChecksum.Laws.{
  weight, weight-le, value-fill, value-lt, AllBytes-append, AllBytes-replicate, AllBytes-word32,
  AllBytes-word16, AllBytes-word8,
}
use com_net_sponge.Ipv4.{
  Ipv4Header, default_header, Ipv4Datagram, parse_header, fragment_word, payload_length, parse,
  header_checksum, append_parts, serialize,
}
use com_net_sponge.Ipv4.Header.{
  IsHeader, before_cksum, fixed, options, length-fixed, serialize_header_lem, verdict,
  parse_header_lem,
}
use com_net_sponge.NetParser
use com_net_sponge.NetParser.{ParseResult, no_error, NetParser, word32, word16, word8}
use com_net_sponge.NetParser.Reads.{of_string-Reads, AllBytes, length-word32, lengths}

-- The bytes before and after the checksum.
abbrev front : Ipv4Header → List ℕ
front h = before_cksum h []

abbrev after_cksum : Ipv4Header → List ℕ
after_cksum h = word32 h.src ++ (word32 h.dst ++ options h)

with_cksum :
    (h : Ipv4Header) (k : ℕ)
    → fixed (record h { cksum = k }) (options h) ≡ front h ++ (word16 k ++ after_cksum h)
unfolding fragment_word
with_cksum h k = simp (append_assoc, append-nil)

AllBytes-front : (h : Ipv4Header) → AllBytes (front h)
AllBytes-front h = AllBytes-append _ _ (AllBytes-word8 (h.ver * 2 ^ 4 + h.hlen % 2 ^ 4)) (
    AllBytes-append _ _ (AllBytes-word8 h.tos) (
      AllBytes-append _ _ (AllBytes-word16 h.len) (
        AllBytes-append _ _ (AllBytes-word16 h.id) (
          AllBytes-append _ _ (AllBytes-word16 (fragment_word h)) (
            AllBytes-append _ _ (AllBytes-word8 h.ttl)
              (AllBytes-append _ [] (AllBytes-word8 h.proto) (omega arith)))))))

AllBytes-after_cksum : (h : Ipv4Header) → AllBytes (after_cksum h)
AllBytes-after_cksum h =
    AllBytes-append _ _ (AllBytes-word32 h.src)
      (AllBytes-append _ _ (AllBytes-word32 h.dst) (AllBytes-replicate (h.hlen * 4 - 20)))

length-front : (h : Ipv4Header) → length (front h) ≡ 10
length-front h = simp lengths (omega arith)

length-after_cksum : (h : Ipv4Header) → length (after_cksum h) ≡ 4 + (4 + (h.hlen * 4 - 20))
length-after_cksum h = simp (length-append, length-word32, length-replicate)

-- The checksum that `serialize` puts into the header.
unfoldable pub checksum : Ipv4Header → ℕ
checksum h =
    InternetChecksum.value
      (InternetChecksum.add (InternetChecksum.new 0) (front h ++ (word16 0 ++ after_cksum h)))

header_checksum_lem : (h : Ipv4Header) → IsHeader h → header_checksum h ≡ some (checksum h)
unfolding checksum header_checksum
header_checksum_lem h v =
    rw (serialize_header_lem (record h { cksum = 0 }) v.version v.whole, header_checksum)
      (ap
        (λ bytes.
          some (InternetChecksum.value (InternetChecksum.add (InternetChecksum.new 0) bytes)))
        (with_cksum h 0))

-- The header with its checksum passes the test of `IPv4Header::parse`.
pub verdict-checksum :
    (h : Ipv4Header) → IsHeader h → verdict (record h { cksum = checksum h }) ≡ no_error
unfolding checksum
verdict-checksum h v =
    let even : length (front h) % 2 ≡ 0 = rw (length-front h) in
    let room : 0 + weight false (front h) + weight false (after_cksum h) + 65535 < 2 ^ 32 = omega (
      arith,
      weight-le false (front h) (AllBytes-front h),
      weight-le false (after_cksum h) (AllBytes-after_cksum h),
      length-front h,
      length-after_cksum h,
      v.hlen_fits,
    ) in
    let good : InternetChecksum.value (
          InternetChecksum.add (InternetChecksum.new 0)
            (front h ++ (word16 (checksum h) ++ after_cksum h)))
        ≡ 0 =
      value-fill 0 (front h) (after_cksum h) even room in
    rw (with_cksum h (checksum h), good)

-- The datagram with these bytes for its payload.
abbrev pub bytes_of : Ipv4Header → List ℕ → List ℕ
bytes_of h payload = fixed h (options h ++ payload)

abbrev pub Parses : List ℕ → Ipv4Header → List ℕ → Type 0
Parses bytes h payload =
    (b : Buffer) × (parse (Buffer.of_string bytes)
      ≡ (record { header = h; payload = b ∷ [] }, no_error))
    × (Buffer.str b ≡ payload)
    × IsBuffer b

length-bytes_of :
    (h : Ipv4Header) (payload : List ℕ)
    → 5 ≤ h.hlen
    → length (bytes_of h payload) ≡ 4 * h.hlen + length payload
length-bytes_of h payload w = omega (
  arith,
  length-fixed h (options h ++ payload),
  length-append (options h) payload,
  length-replicate {A = ℕ} (h.hlen * 4 - 20) 0,
)

parse_size :
    (h : Ipv4Header) (size : ℕ) → IsHeader h → h.len ≡ 4 * h.hlen + size → payload_length h ≡ size
unfolding payload_length
parse_size h size v e = omega arith

parse_sized :
    (bytes : List ℕ) (h : Ipv4Header) (result : ParseResult) (p : NetParser)
    → parse_header default_header (NetParser.new (Buffer.of_string bytes)) ≡ ((h, result), p)
    → Buffer.list_size (p.buffer ∷ []) ≡ payload_length h
    → p.error ≡ no_error
    → parse (Buffer.of_string bytes) ≡ (record { header = h; payload = p.buffer ∷ [] }, no_error)
unfolding parse
parse_sized bytes h result p read size fine =
    let sized : (Buffer.list_size (p.buffer ∷ []) == payload_length h) ≡ true =
      ground (arith, size) in
    rw (read, sized) (ap (λ e. (record { header = h; payload = p.buffer ∷ [] }, e)) fine)

-- Whatever its checksum, a datagram whose length field counts all the bytes is parsed with no error.
pub bad_checksum_accepted :
    (h : Ipv4Header) (payload : List ℕ)
    → IsHeader h
    → h.len ≡ 4 * h.hlen + length payload
    → Parses (bytes_of h payload) h payload
bad_checksum_accepted h payload v total =
    let bytes : List ℕ = bytes_of h payload in
    let fits : length bytes < 2 ^ 64 = omega (
      arith,
      length-fixed h (options h ++ payload),
      length-append (options h) payload,
      length-replicate {A = ℕ} (h.hlen * 4 - 20) 0,
      v.len_fits,
    ) in
    let p : NetParser = NetParser.new (Buffer.of_string bytes) in
    let (p', read, after) =
      parse_header_lem default_header h p payload v total (of_string-Reads bytes fits) in
    let one : Buffer.concatenate (p'.buffer ∷ []) ≡ payload =
      concatenate_one p'.buffer ∙ after.left in
    let size : Buffer.list_size (p'.buffer ∷ []) ≡ length payload =
      list_size_lem (p'.buffer ∷ []) (omega (arith, ap length one, v.len_fits)) ∙ ap length one in
    (
      p'.buffer,
      parse_sized bytes h (verdict h) p' read (size ∙ sym (parse_size h (length payload) v total))
          after.fine,
      after.left,
      after.sound,
    )

append_parts_lem :
    (h : Ipv4Header) (payload : BufferList)
    → IsHeader h
    → (bs : BufferList) × (append_parts h payload ≡ some bs)
      × (Buffer.concatenate bs ≡ fixed h (options h) ++ Buffer.concatenate payload)
unfolding append_parts
append_parts_lem h payload v = (
  Buffer.append (Buffer.append [] (Buffer.of_string (fixed h (options h)) ∷ [])) payload,
  rw (serialize_header_lem h v.version v.whole, append_parts),
  concatenate_parts (fixed h (options h)) payload,
)

-- A datagram whose length field counts all the bytes is serialized to so many bytes, and is parsed from
-- them: the header comes back with its checksum, and the payload with its bytes.
pub parse-serialize_datagram :
    (dgram : Ipv4Datagram)
    → IsHeader dgram.header
    → dgram.len ≡ 4 * dgram.hlen + length (Buffer.concatenate dgram.payload)
    → (bs : BufferList) × (serialize dgram ≡ some bs)
      × (length (Buffer.concatenate bs) ≡ dgram.len)
      × Parses
          (Buffer.concatenate bs)
          (record dgram.header { cksum = checksum dgram.header })
          (Buffer.concatenate dgram.payload)
unfolding serialize
parse-serialize_datagram dgram v total =
    let payload : List ℕ = Buffer.concatenate dgram.payload in
    let h : Ipv4Header = record dgram.header { cksum = checksum dgram.header } in
    let small : checksum dgram.header < 2 ^ 16 = unfold checksum in value-lt _ in
    let v' : IsHeader h = omega arith in
    let size : Buffer.list_size dgram.payload ≡ payload_length dgram.header =
      list_size_lem dgram.payload (omega (arith, v.len_fits))
      ∙ sym (parse_size dgram.header (length payload) v total) in
    let sized : (Buffer.list_size dgram.payload == payload_length dgram.header) ≡ true =
      ground (arith, size) in
    let (bs, done, bytes) = append_parts_lem h dgram.payload v' in
    let on_wire : Buffer.concatenate bs ≡ bytes_of h payload = bytes ∙ simp append_assoc in
    let all : length (Buffer.concatenate bs) ≡ dgram.len =
      omega (arith, ap length on_wire, length-bytes_of h payload v.whole) in
    (
      bs,
      rw (sized, header_checksum_lem dgram.header v) done,
      all,
      rw on_wire (bad_checksum_accepted h payload v' total),
    )
