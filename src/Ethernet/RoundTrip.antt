-- ===== src/Ethernet/RoundTrip.antt =====
-- libsponge/tcp_helpers/ethernet_header.cc and ethernet_frame.cc: what was serialized is parsed back.
use com_net_sponge.Prelude.{
  ℕ, ◌+◌, ◌^◌, ◌<◌, ◌≡◌, ap, subst, ◌∙◌, false, ltb, List, [], ◌∷◌, ◌++◌, append_assoc, append-nil,
  length, length-append, arith,
}
use com_net_sponge.Buffer
use com_net_sponge.Buffer.{Buffer, BufferList}
use com_net_sponge.Buffer.Laws.{of_string-IsBuffer}
use com_net_sponge.Buffer.Lists.{concatenate_parts, concatenate-of_string}
use com_net_sponge.NetParser
use com_net_sponge.NetParser.{
  ParseResult, no_error, NetParser, Parse, word16, put16, get_bytes, put_bytes,
}
use com_net_sponge.NetParser.Reads.{
  Reads, of_string-Reads, u16-word16, read_next, with_error_lem, length-word16, AllBytes,
  put_bytes_lem, get_bytes_lem,
}
use com_net_sponge.Ethernet.{
  EthernetAddress, EthernetHeader, empty_header, EthernetFrame, parse_fields, parse_header,
  serialize_header, parse, serialize,
}

-- Six bytes.
abbrev pub IsAddress : EthernetAddress → Type 0
IsAddress a = (length a ≡ 6) × AllBytes a

-- Each field fits its width.
pub record IsFrame (frame : EthernetFrame) : Type 0 where
  pub dst_fits : IsAddress frame.dst
  pub src_fits : IsAddress frame.src
  pub type_fits : frame.type < 2 ^ 16
  pub short : length frame.payload < 2 ^ 32

-- The loop that reads an address.
pub get_bytes-IsAddress :
    (p : NetParser) (a : EthernetAddress) (rest : List ℕ)
    → IsAddress a
    → Reads p (a ++ rest)
    → (p' : NetParser) × (get_bytes 6 p ≡ (a, p')) × Reads p' rest
get_bytes-IsAddress p a rest v r =
    subst (λ n. (p' : NetParser) × (get_bytes n p ≡ (a, p')) × Reads p' rest) v.0
      (get_bytes_lem p a rest v.1 r)

abbrev pub wire : EthernetHeader → List ℕ → List ℕ
wire h rest = h.dst ++ (h.src ++ (word16 h.type ++ rest))

serialize_header_lem :
    (h : EthernetHeader) → AllBytes h.dst → AllBytes h.src → serialize_header h ≡ wire h []
unfolding serialize_header put16
serialize_header_lem h d s =
    rw (put_bytes_lem [] h.dst d, put_bytes_lem h.dst h.src s) (simp (append_assoc, append-nil))

parse_fields_lem :
    (frame : EthernetFrame) (p : NetParser) (rest : List ℕ)
    → IsFrame frame
    → Reads p (wire frame.header rest)
    → (p' : NetParser) × (parse_fields p ≡ ((frame.header, no_error), p')) × Reads p' rest
unfolding parse_fields
parse_fields_lem frame p rest v r =
    let (p1, e1, r1) = get_bytes-IsAddress p frame.dst _ v.dst_fits r in
    let (p2, e2, r2) = get_bytes-IsAddress p1 frame.src _ v.src_fits r1 in
    let (p3, e3, r3) = u16-word16 p2 frame.type _ v.type_fits r2 in
    (
      p3,
      read_next _ _ e1
          ∙ read_next _ _ e2
          ∙ read_next _ _ e3
          ∙ with_error_lem frame.header p3 rest r3,
      r3,
    )

length-wire :
    (frame : EthernetFrame)
    → IsFrame frame
    → length (wire frame.header frame.payload) ≡ 14 + length frame.payload
length-wire frame v =
    let e : length (wire frame.header frame.payload)
        ≡ length frame.dst + (length frame.src + (2 + length frame.payload)) =
      simp (length-append, length-word16) in
    omega (arith, e, v.dst_fits.0, v.src_fits.0)

serialize_lem :
    (frame : EthernetFrame)
    → IsFrame frame
    → Buffer.concatenate (serialize frame) ≡ wire frame.header frame.payload
unfolding serialize
serialize_lem frame v =
    concatenate_parts (serialize_header frame.header) (Buffer.of_string frame.payload ∷ [])
    ∙ rw
        (
          concatenate-of_string frame.payload,
          serialize_header_lem frame.header v.dst_fits.1 v.src_fits.1,
        )
        (simp append_assoc)

parse_long :
    (bytes : List ℕ) (h : EthernetHeader) (result : ParseResult) (p : NetParser) (rest : List ℕ)
    → ltb (Buffer.size (Buffer.of_string bytes)) 14 ≡ false
    → parse_fields (NetParser.new (Buffer.of_string bytes)) ≡ ((h, result), p)
    → Reads p rest
    → parse (Buffer.of_string bytes) ≡ (record { header = h; payload = rest }, no_error)
unfolding parse parse_header NetParser.new
parse_long bytes h result p rest long read r =
    rw (long, read) (λ i. (record { header = h; payload = r.left i }, r.fine i))

-- A frame whose addresses have six bytes and whose type fits 16 bits is parsed from what was serialized.
pub parse-serialize_frame :
    (frame : EthernetFrame)
    → IsFrame frame
    → parse (Buffer.of_string (Buffer.concatenate (serialize frame))) ≡ (frame, no_error)
parse-serialize_frame frame v =
    let bytes : List ℕ = wire frame.header frame.payload in
    let len : length bytes ≡ 14 + length frame.payload = length-wire frame v in
    let fits : length bytes < 2 ^ 64 = omega (arith, v.short) in
    let (start, sound) = of_string-IsBuffer bytes fits in
    let (p, read, after) =
      parse_fields_lem frame (NetParser.new (Buffer.of_string bytes)) frame.payload v
        (of_string-Reads bytes fits) in
    rw (serialize_lem frame v) (
      parse_long bytes frame.header no_error p frame.payload
        (unfold Buffer.size in ground (arith, ap length start)) read after)

-- Fewer than 14 bytes are parsed with no error: the header is left at its default, and all bytes are the
-- payload.
pub short_frame_accepted :
    (bytes : List ℕ)
    → length bytes < 14
    → parse (Buffer.of_string bytes) ≡ (record { header = empty_header; payload = bytes }, no_error)
unfolding parse parse_header NetParser.new Buffer.size Buffer.of_string Buffer.str
short_frame_accepted bytes h = ground arith
