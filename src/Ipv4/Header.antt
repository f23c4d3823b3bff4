-- ===== src/Ipv4/Header.antt =====
-- libsponge/tcp_helpers/ipv4_header.cc: a header that was serialized is parsed back.
use com_net_sponge.Prelude.{
  ℕ, ◌+◌, ◌-◌, ◌*◌, ◌/◌, ◌%◌, ◌^◌, ◌≤◌, ◌<◌, ◌≡◌, ap, ◌∙◌, true, false, ltb, ◌==◌, if◌then◌else◌,
  List, [], ◌++◌, append_assoc, append-nil, length, length-append, length-replicate, take,
  replicate, some, arith,
}
use com_net_sponge.Buffer
use com_net_sponge.InternetChecksum
use com_net_sponge.NetParser
use com_net_sponge.NetParser.{
  ParseResult, no_error, bad_checksum, NetParser, Parse, bit, resize, word32, word16, word8, put32,
  put16, put8,
}
use com_net_sponge.NetParser.Reads.{
  Reads, u32-word32, u16-word16, u8-word8, read_next, remove_prefix-Reads, resize_lem, lengths,
  take_front,
}
use com_net_sponge.Ipv4.{
  Ipv4Header, check_sum, check_fields, parse_fields, parse_header, fragment_word, serialize_header,
}

-- Each field fits its width, and the version and the header's length are as they should be.
pub record IsHeader (h : Ipv4Header) : Type 0 where
  pub version : h.ver ≡ 4
  pub whole : 5 ≤ h.hlen
  pub hlen_fits : h.hlen < 2 ^ 4
  pub tos_fits : h.tos < 2 ^ 8
  pub len_fits : h.len < 2 ^ 16
  pub id_fits : h.id < 2 ^ 16
  pub offset_fits : h.offset < 2 ^ 13
  pub ttl_fits : h.ttl < 2 ^ 8
  pub proto_fits : h.proto < 2 ^ 8
  pub cksum_fits : h.cksum < 2 ^ 16
  pub src_fits : h.src < 2 ^ 32
  pub dst_fits : h.dst < 2 ^ 32

-- The fixed part up to the checksum, and the fixed part before other bytes.
abbrev pub before_cksum : Ipv4Header → List ℕ → List ℕ
before_cksum h rest =
    word8 (h.ver * 2 ^ 4 + h.hlen % 2 ^ 4)
    ++ (word8 h.tos
        ++ (word16 h.len
            ++ (word16 h.id
                ++ (word16 (fragment_word h) ++ (word8 h.ttl ++ (word8 h.proto ++ rest))))))

abbrev pub fixed : Ipv4Header → List ℕ → List ℕ
fixed h rest = before_cksum h (word16 h.cksum ++ (word32 h.src ++ (word32 h.dst ++ rest)))

abbrev pub options : Ipv4Header → List ℕ
options h = replicate (h.hlen * 4 - 20) 0

pub length-fixed : (h : Ipv4Header) (rest : List ℕ) → length (fixed h rest) ≡ 20 + length rest
length-fixed h rest = simp lengths (omega arith)

joined :
    (h : Ipv4Header)
    → put32
        (put32
          (put16
            (put8
              (put8
                (put16
                  (put16 (put16 (put8 (put8 [] (h.ver * 2 ^ 4 + h.hlen % 2 ^ 4)) h.tos) h.len) h.id)
                  (fragment_word h))
                h.ttl)
              h.proto)
            h.cksum)
          h.src)
        h.dst
      ≡ fixed h []
unfolding put32 put16 put8
joined h = simp (append_assoc, append-nil)

padded : (h : Ipv4Header) → 5 ≤ h.hlen → resize (fixed h []) (4 * h.hlen) ≡ fixed h (options h)
padded h w =
    let len : length (fixed h []) ≡ 20 = length-fixed h [] in
    let rest : 4 * h.hlen - length (fixed h []) ≡ h.hlen * 4 - 20 = omega (arith, len) in
    resize_lem (fixed h []) (4 * h.hlen) (omega (arith, len)) ∙ rw rest (simp append_assoc)

pub serialize_header_lem :
    (h : Ipv4Header) → h.ver ≡ 4 → 5 ≤ h.hlen → serialize_header h ≡ some (fixed h (options h))
unfolding serialize_header
serialize_header_lem h version w =
    let right : (h.ver == 4) ≡ true = ground arith in
    let whole : ltb (4 * h.hlen) 20 ≡ false = ground arith in
    rw (right, whole) (ap some (ap (λ s. resize s (4 * h.hlen)) (joined h) ∙ padded h w))

fragments :
    (h : Ipv4Header)
    → h.offset < 2 ^ 13
    → (fragment_word h < 2 ^ 16)
      × (bit (fragment_word h) 14 ≡ h.df)
      × (bit (fragment_word h) 13 ≡ h.mf)
      × (fragment_word h % 2 ^ 13 ≡ h.offset)
unfolding fragment_word bit
fragments h v = ground arith

-- The header that `parse` makes of what is read.
read_back : Ipv4Header → Ipv4Header
read_back h =
    let first : ℕ = h.ver * 2 ^ 4 + h.hlen % 2 ^ 4 in
    record h {
      ver = first / 2 ^ 4;
      hlen = first % 2 ^ 4;
      df = bit (fragment_word h) 14;
      mf = bit (fragment_word h) 13;
      offset = fragment_word h % 2 ^ 13;
    }

read_back_lem : (h : Ipv4Header) → IsHeader h → read_back h ≡ h
unfolding read_back
read_back_lem h v =
    let (fits, df, mf, offset) = fragments h v.offset_fits in
    let first : ℕ = h.ver * 2 ^ 4 + h.hlen % 2 ^ 4 in
    let ver : first / 2 ^ 4 ≡ h.ver = omega arith in
    let hlen : first % 2 ^ 4 ≡ h.hlen = omega arith in
    λ i. record h { ver = ver i; hlen = hlen i; df = df i; mf = mf i; offset = offset i }

-- The fields are read back, up to the point where they are checked.
parse_fields_lem :
    (original : List ℕ) (data_size : ℕ) (h : Ipv4Header) (p : NetParser) (rest : List ℕ)
    → IsHeader h
    → Reads p (fixed h rest)
    → (p' : NetParser) × (parse_fields original data_size p ≡ check_fields original data_size h p')
      × Reads p' rest
unfolding parse_fields read_back
parse_fields_lem original data_size h p rest v r =
    let (fits, df, mf, offset) = fragments h v.offset_fits in
    let first : ℕ = h.ver * 2 ^ 4 + h.hlen % 2 ^ 4 in
    let (p1, e1, r1) = u8-word8 p first _ (omega arith) r in
    let (p2, e2, r2) = u8-word8 p1 h.tos _ v.tos_fits r1 in
    let (p3, e3, r3) = u16-word16 p2 h.len _ v.len_fits r2 in
    let (p4, e4, r4) = u16-word16 p3 h.id _ v.id_fits r3 in
    let (p5, e5, r5) = u16-word16 p4 (fragment_word h) _ fits r4 in
    let (p6, e6, r6) = u8-word8 p5 h.ttl _ v.ttl_fits r5 in
    let (p7, e7, r7) = u8-word8 p6 h.proto _ v.proto_fits r6 in
    let (p8, e8, r8) = u16-word16 p7 h.cksum _ v.cksum_fits r7 in
    let (p9, e9, r9) = u32-word32 p8 h.src _ v.src_fits r8 in
    let (p10, e10, r10) = u32-word32 p9 h.dst _ v.dst_fits r9 in
    (
      p10,
      read_next _ _ e1
          ∙ read_next _ _ e2
          ∙ read_next _ _ e3
          ∙ read_next _ _ e4
          ∙ read_next _ _ e5
          ∙ read_next _ _ e6
          ∙ read_next _ _ e7
          ∙ read_next _ _ e8
          ∙ read_next _ _ e9
          ∙ read_next _ _ e10
          ∙ ap (λ r. check_fields original data_size r p10) (read_back_lem h v),
      r10,
    )

-- What the checksum over a header with its options says.
abbrev pub verdict : Ipv4Header → ParseResult
verdict h =
    if InternetChecksum.value (InternetChecksum.add (InternetChecksum.new 0) (fixed h (options h)))
      == 0
    then no_error
    else bad_checksum

front_taken :
    (h : Ipv4Header) (rest : List ℕ)
    → 5 ≤ h.hlen
    → take (4 * h.hlen) (fixed h (options h ++ rest)) ≡ fixed h (options h)
front_taken h rest w =
    let len : length (fixed h (options h)) ≡ 4 * h.hlen =
      omega (arith, length-fixed h (options h), length-replicate {A = ℕ} (h.hlen * 4 - 20) 0) in
    let split : fixed h (options h ++ rest) ≡ fixed h (options h) ++ rest = simp append_assoc in
    rw (split, ← len) (take_front (fixed h (options h)) rest)

check_sum_lem :
    (h : Ipv4Header) (p : NetParser) (rest : List ℕ)
    → 5 ≤ h.hlen
    → Reads p rest
    → check_sum (fixed h (options h ++ rest)) h p ≡ verdict h
unfolding check_sum
check_sum_lem h p rest w r = rw (front_taken h rest w) (ground (arith, r.fine))

check_fields_lem :
    (h : Ipv4Header) (data_size : ℕ) (p : NetParser) (rest : List ℕ)
    → IsHeader h
    → data_size ≡ h.len
    → 4 * h.hlen ≤ h.len
    → Reads p (options h ++ rest)
    → (p' : NetParser) × (check_fields (fixed h (options h ++ rest)) data_size h p
        ≡ ((h, verdict h), p'))
      × Reads p' rest
unfolding check_fields
check_fields_lem h data_size p rest v e long r =
    let p' : NetParser = NetParser.remove_prefix p (h.hlen * 4 - 20) in
    let skipped : Reads p' rest =
      rw (← length-replicate {A = ℕ} (h.hlen * 4 - 20) 0)
        (remove_prefix-Reads p (options h) rest r) in
    let enough : ltb data_size (4 * h.hlen) ≡ false = ground arith in
    let version : (h.ver == 4) ≡ true = ground arith in
    let whole : ltb h.hlen 5 ≡ false = ground arith in
    let all : (data_size == h.len) ≡ true = ground arith in
    (
      p',
      rw (enough, version, whole, all)
          (ap (λ c. ((h, c), p')) (check_sum_lem h p' rest v.whole skipped)),
      skipped,
    )

-- A header whose length field counts all the bytes is read back, its options are skipped, and the result
-- is `NoError` or `BadChecksum`, as the checksum says.
pub parse_header_lem :
    (start h : Ipv4Header) (p : NetParser) (rest : List ℕ)
    → IsHeader h
    → h.len ≡ 4 * h.hlen + length rest
    → Reads p (fixed h (options h ++ rest))
    → (p' : NetParser) × (parse_header start p ≡ ((h, verdict h), p')) × Reads p' rest
unfolding parse_header
parse_header_lem start h p rest v total r =
    let bytes : List ℕ = fixed h (options h ++ rest) in
    let size : Buffer.size p.buffer ≡ h.len =
      unfold Buffer.size in
      omega (
        arith,
        ap length r.left,
        length-fixed h (options h ++ rest),
        length-append (options h) rest,
        length-replicate {A = ℕ} (h.hlen * 4 - 20) 0,
      ) in
    let enough : ltb (Buffer.size p.buffer) 20 ≡ false = ground arith in
    let (p1, read, r1) =
      parse_fields_lem bytes (Buffer.size p.buffer) h p (options h ++ rest) v r in
    let (p2, check, r2) =
      check_fields_lem h (Buffer.size p.buffer) p1 rest v size (omega arith) r1 in
    (p2, rw enough (rw r.left read ∙ check), r2)
