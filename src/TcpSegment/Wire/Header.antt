-- ===== src/TcpSegment/Wire/Header.antt =====
-- libsponge/tcp_helpers/tcp_header.cc: a header that was serialized is parsed back.
use com_net_sponge.Prelude.{
  ℕ, ◌+◌, ◌-◌, ◌*◌, ◌/◌, ◌^◌, ◌≤◌, ◌<◌, ◌≡◌, ap, ◌∙◌, inl, inr, Bool-cases, ltb, List, [], ◌++◌,
  append_assoc, append-nil, length, length-replicate, replicate, some, arith,
}
use com_net_sponge.NetParser
use com_net_sponge.NetParser.{
  ParseResult, no_error, header_too_short, is_error, NetParser, bit, resize, u32, u16, u8, word32,
  word16, word8, put32, put16, put8,
}
use com_net_sponge.NetParser.Reads.{
  Reads, u32-word32, u16-word16, u8-word8, read_next, remove_prefix-Reads, resize_lem, lengths,
}
use com_net_sponge.TcpSegment.{TcpHeader}
use com_net_sponge.TcpSegment.Wire.{parse_header, skip_options, flags_byte, serialize_header}

-- Each field fits its width.
pub record FieldsFit (h : TcpHeader) : Type 0 where
  pub sport_fits : h.sport < 2 ^ 16
  pub dport_fits : h.dport < 2 ^ 16
  pub seqno_fits : h.seqno < 2 ^ 32
  pub ackno_fits : h.ackno < 2 ^ 32
  pub doff_fits : h.doff < 16
  pub win_fits : h.win < 2 ^ 16
  pub cksum_fits : h.cksum < 2 ^ 16
  pub uptr_fits : h.uptr < 2 ^ 16

-- So it does, and the offset covers the fixed part.
pub record IsHeader (h : TcpHeader) : Type 0 where
  pub fields : FieldsFit h
  pub whole : 5 ≤ h.doff

-- The fixed part up to the checksum, and the fixed part before other bytes.
abbrev pub before_cksum : TcpHeader → List ℕ → List ℕ
before_cksum h rest =
    word16 h.sport
    ++ (word16 h.dport
        ++ (word32 h.seqno
            ++ (word32 h.ackno
                ++ (word8 (h.doff * 2 ^ 4) ++ (word8 (flags_byte h) ++ (word16 h.win ++ rest))))))

abbrev pub fixed : TcpHeader → List ℕ → List ℕ
fixed h rest = before_cksum h (word16 h.cksum ++ (word16 h.uptr ++ rest))

abbrev pub options : TcpHeader → List ℕ
options h = replicate (h.doff * 4 - 20) 0

pub length-fixed : (h : TcpHeader) (rest : List ℕ) → length (fixed h rest) ≡ 20 + length rest
length-fixed h rest = simp lengths (omega arith)

joined :
    (h : TcpHeader)
    → put16
        (put16
          (put16
            (put8
              (put8
                (put32 (put32 (put16 (put16 [] h.sport) h.dport) h.seqno) h.ackno)
                (h.doff * 2 ^ 4))
              (flags_byte h))
            h.win)
          h.cksum)
        h.uptr
      ≡ fixed h []
unfolding put32 put16 put8
joined h = simp (append_assoc, append-nil)

padded : (h : TcpHeader) → 5 ≤ h.doff → resize (fixed h []) (4 * h.doff) ≡ fixed h (options h)
padded h w =
    let len : length (fixed h []) ≡ 20 = length-fixed h [] in
    let rest : 4 * h.doff - length (fixed h []) ≡ h.doff * 4 - 20 = omega (arith, len) in
    resize_lem (fixed h []) (4 * h.doff) (omega (arith, len)) ∙ rw rest (simp append_assoc)

pub serialize_header_lem :
    (h : TcpHeader) → 5 ≤ h.doff → serialize_header h ≡ some (fixed h (options h))
unfolding serialize_header
serialize_header_lem h w = elim (Bool-cases (ltb h.doff 5)) [
  | inl short ↦ absurd (ground arith)
  | inr whole ↦ rw (whole) (ap some (ap (λ s. resize s (4 * h.doff)) (joined h) ∙ padded h w))
]

flags :
    (h : TcpHeader)
    → (flags_byte h < 2 ^ 8)
      × (bit (flags_byte h) 5 ≡ h.urg)
      × (bit (flags_byte h) 4 ≡ h.ack)
      × (bit (flags_byte h) 3 ≡ h.psh)
      × (bit (flags_byte h) 2 ≡ h.rst)
      × (bit (flags_byte h) 1 ≡ h.syn)
      × (bit (flags_byte h) 0 ≡ h.fin)
unfolding flags_byte bit
flags h = ground arith

skip_options_lem :
    (h : TcpHeader) (p : NetParser) (rest : List ℕ)
    → 5 ≤ h.doff
    → Reads p (options h ++ rest)
    → (p' : NetParser) × (skip_options h p ≡ ((h, no_error), p')) × Reads p' rest
unfolding skip_options
skip_options_lem h p rest w r =
    let skipped : Reads (NetParser.remove_prefix p (h.doff * 4 - 20)) rest =
      rw (← length-replicate {A = ℕ} (h.doff * 4 - 20) 0)
        (remove_prefix-Reads p (options h) rest r) in
    (NetParser.remove_prefix p (h.doff * 4 - 20), ground (arith, skipped.fine), skipped)

-- The fixed part is read back, up to the point where the options are skipped.
pub parse_header-fixed :
    (h : TcpHeader) (p : NetParser) (rest : List ℕ)
    → FieldsFit h
    → Reads p (fixed h rest)
    → (p' : NetParser) × (parse_header p ≡ skip_options h p') × Reads p' rest
unfolding parse_header
parse_header-fixed h p rest v r =
    let (fits, urg, ack, psh, rst, syn, fin) = flags h in
    let (p1, e1, r1) = u16-word16 p h.sport _ v.sport_fits r in
    let (p2, e2, r2) = u16-word16 p1 h.dport _ v.dport_fits r1 in
    let (p3, e3, r3) = u32-word32 p2 h.seqno _ v.seqno_fits r2 in
    let (p4, e4, r4) = u32-word32 p3 h.ackno _ v.ackno_fits r3 in
    let (p5, e5, r5) = u8-word8 p4 (h.doff * 2 ^ 4) _ (omega arith) r4 in
    let (p6, e6, r6) = u8-word8 p5 (flags_byte h) _ fits r5 in
    let (p7, e7, r7) = u16-word16 p6 h.win _ v.win_fits r6 in
    let (p8, e8, r8) = u16-word16 p7 h.cksum _ v.cksum_fits r7 in
    let (p9, e9, r9) = u16-word16 p8 h.uptr _ v.uptr_fits r8 in
    let doff : (h.doff * 2 ^ 4) / 2 ^ 4 ≡ h.doff = omega arith in
    (
      p9,
      read_next _ _ e1
          ∙ read_next _ _ e2
          ∙ read_next _ _ e3
          ∙ read_next _ _ e4
          ∙ read_next _ _ e5
          ∙ read_next _ _ e6
          ∙ read_next _ _ e7
          ∙ read_next _ _ e8
          ∙ read_next _ _ e9
          ∙ rw (doff, urg, ack, psh, rst, syn, fin),
      r9,
    )

-- A header that was serialized is read back, whatever follows it.
pub parse_header_lem :
    (h : TcpHeader) (p : NetParser) (rest : List ℕ)
    → IsHeader h
    → Reads p (fixed h (options h ++ rest))
    → (p' : NetParser) × (parse_header p ≡ ((h, no_error), p')) × Reads p' rest
parse_header_lem h p rest v r =
    let (p9, read, r9) = parse_header-fixed h p (options h ++ rest) v.fields r in
    let (p', skip, r') = skip_options_lem h p9 rest v.whole r9 in (p', read ∙ skip, r')

-- Too small an offset: nothing is skipped, and the parser itself has no error.
pub parse_header_short :
    (h : TcpHeader) (p : NetParser) (rest : List ℕ)
    → FieldsFit h
    → h.doff < 5
    → Reads p (fixed h rest)
    → (p' : NetParser) × (parse_header p ≡ ((h, header_too_short), p')) × Reads p' rest
parse_header_short h p rest v short r =
    let (p9, read, r9) = parse_header-fixed h p rest v r in
    (p9, read ∙ (unfold skip_options in ground arith), r9)
