-- ===== src/Arp/RoundTrip.antt =====
-- libsponge/tcp_helpers/arp_message.cc: a message that was serialized is parsed back; which are not.
use com_net_sponge.Prelude.{
  ℕ, ◌+◌, ◌^◌, ◌≤◌, ◌<◌, ◌≡◌, refl, ap, ◌∙◌, true, false, ltb, List, [], ◌++◌, append_assoc,
  append-nil, length, length-append, none, some, arith,
}
use com_net_sponge.Arp.{
  ArpMessage, default_message, supported, parse_addresses, parse_supported, parse_message, parse,
  serialize,
}
use com_net_sponge.Buffer
use com_net_sponge.Buffer.{Buffer}
use com_net_sponge.Buffer.Laws.{of_string-IsBuffer}
use com_net_sponge.Ethernet.RoundTrip.{IsAddress, get_bytes-IsAddress}
use com_net_sponge.NetParser
use com_net_sponge.NetParser.{
  ParseResult, no_error, unsupported, NetParser, Parse, word32, word16, word8, put32, put16, put8,
  put_bytes,
}
use com_net_sponge.NetParser.Reads.{
  Reads, of_string-Reads, u32-word32, u16-word16, u8-word8, read_next, with_error_lem,
  length-word32, length-word16, length-word8, put_bytes_lem,
}

-- Each field fits its width.
pub record IsMessage (m : ArpMessage) : Type 0 where
  pub hardware_type_fits : m.hardware_type < 2 ^ 16
  pub protocol_type_fits : m.protocol_type < 2 ^ 16
  pub hardware_size_fits : m.hardware_address_size < 2 ^ 8
  pub protocol_size_fits : m.protocol_address_size < 2 ^ 8
  pub opcode_fits : m.opcode < 2 ^ 16
  pub sender_fits : IsAddress m.sender_ethernet_address
  pub sender_ip_fits : m.sender_ip_address < 2 ^ 32
  pub target_fits : IsAddress m.target_ethernet_address
  pub target_ip_fits : m.target_ip_address < 2 ^ 32

-- The fields before the addresses, and the addresses.
abbrev pub fields : ArpMessage → List ℕ → List ℕ
fields m rest =
    word16 m.hardware_type
    ++ (word16 m.protocol_type
        ++ (word8 m.hardware_address_size
            ++ (word8 m.protocol_address_size ++ (word16 m.opcode ++ rest))))

abbrev pub addresses : ArpMessage → List ℕ
addresses m =
    m.sender_ethernet_address
    ++ (word32 m.sender_ip_address
        ++ (m.target_ethernet_address ++ (word32 m.target_ip_address ++ [])))

pub serialize_lem :
    (m : ArpMessage)
    → IsMessage m
    → supported m ≡ true
    → serialize m ≡ some (fields m (addresses m))
unfolding serialize put32 put16 put8
serialize_lem m v s =
    rw
      (
        s,
        put_bytes_lem _ m.sender_ethernet_address v.sender_fits.1,
        put_bytes_lem _ m.target_ethernet_address v.target_fits.1,
      )
      (simp (append_assoc, append-nil))

-- The message when the fields before the addresses were read.
abbrev pub fields_read : ArpMessage → ArpMessage
fields_read m = record default_message {
  hardware_type = m.hardware_type;
  protocol_type = m.protocol_type;
  hardware_address_size = m.hardware_address_size;
  protocol_address_size = m.protocol_address_size;
  opcode = m.opcode;
}

parse_addresses_lem :
    (m : ArpMessage) (p : NetParser)
    → IsMessage m
    → Reads p (addresses m)
    → (p' : NetParser) × (parse_addresses (fields_read m) p ≡ ((m, no_error), p'))
unfolding parse_addresses
parse_addresses_lem m p v r =
    let (p1, e1, r1) = get_bytes-IsAddress p m.sender_ethernet_address _ v.sender_fits r in
    let (p2, e2, r2) = u32-word32 p1 m.sender_ip_address _ v.sender_ip_fits r1 in
    let (p3, e3, r3) = get_bytes-IsAddress p2 m.target_ethernet_address _ v.target_fits r2 in
    let (p4, e4, r4) = u32-word32 p3 m.target_ip_address _ v.target_ip_fits r3 in
    (
      p4,
      read_next _ _ e1
          ∙ read_next _ _ e2
          ∙ read_next _ _ e3
          ∙ read_next _ _ e4
          ∙ with_error_lem m p4 [] r4,
    )

-- The fields before the addresses are read back.
parse_message-fields :
    (m : ArpMessage) (p : NetParser) (rest : List ℕ)
    → IsMessage m
    → Reads p (fields m rest)
    → (p' : NetParser) × (parse_message default_message p ≡ parse_supported (fields_read m) p')
      × Reads p' rest
unfolding parse_message
parse_message-fields m p rest v r =
    let (p1, e1, r1) = u16-word16 p m.hardware_type _ v.hardware_type_fits r in
    let (p2, e2, r2) = u16-word16 p1 m.protocol_type _ v.protocol_type_fits r1 in
    let (p3, e3, r3) = u8-word8 p2 m.hardware_address_size _ v.hardware_size_fits r2 in
    let (p4, e4, r4) = u8-word8 p3 m.protocol_address_size _ v.protocol_size_fits r3 in
    let (p5, e5, r5) = u16-word16 p4 m.opcode _ v.opcode_fits r4 in
    (
      p5,
      read_next _ _ e1 ∙ read_next _ _ e2 ∙ read_next _ _ e3 ∙ read_next _ _ e4 ∙ read_next _ _ e5,
      r5,
    )

supported-fields_read : (m : ArpMessage) → supported (fields_read m) ≡ supported m
unfolding supported
supported-fields_read m = refl

length-fields : (m : ArpMessage) (rest : List ℕ) → length (fields m rest) ≡ 8 + length rest
length-fields m rest = simp (length-append, length-word16, length-word8) (omega arith)

length-addresses : (m : ArpMessage) → IsMessage m → length (addresses m) ≡ 20
length-addresses m v =
    let e : length (addresses m)
        ≡ length m.sender_ethernet_address + (4 + (length m.target_ethernet_address + (4 + 0))) =
      simp (length-append, length-word32) in
    omega (arith, e, v.sender_fits.0, v.target_fits.0)

-- Enough bytes are read as far as the test `supported()`.
parse_long :
    (m : ArpMessage) (rest : List ℕ)
    → IsMessage m
    → 20 ≤ length rest
    → length rest < 2 ^ 32
    → (p : NetParser) × (parse (Buffer.of_string (fields m rest))
        ≡ (parse_supported (fields_read m) p).0)
      × Reads p rest
unfolding parse NetParser.new
parse_long m rest v enough short =
    let bytes : List ℕ = fields m rest in
    let fits : length bytes < 2 ^ 64 = omega (arith, length-fields m rest) in
    let (begin, sound) = of_string-IsBuffer bytes fits in
    let (p, read, after) =
      parse_message-fields m (NetParser.new (Buffer.of_string bytes)) rest v
        (of_string-Reads bytes fits) in
    let long : ltb (Buffer.size (Buffer.of_string bytes)) 28 ≡ false =
      unfold Buffer.size in ground (arith, ap length begin, length-fields m rest) in
    (p, rw long (ap (λ r. r.0) read), after)

-- A supported message is parsed from what was serialized.
pub parse-serialize_message :
    (m : ArpMessage)
    → IsMessage m
    → supported m ≡ true
    → (bytes : List ℕ) × (serialize m ≡ some bytes)
      × (parse (Buffer.of_string bytes) ≡ (m, no_error))
unfolding parse_supported
parse-serialize_message m v s =
    let len : length (addresses m) ≡ 20 = length-addresses m v in
    let (p, read, after) = parse_long m (addresses m) v (omega arith) (omega arith) in
    let (p', e) = parse_addresses_lem m p v after in
    (fields m (addresses m), serialize_lem m v s, read ∙ rw (supported-fields_read m ∙ s, e) refl)

-- Any other message is not serialized, and is not parsed: the result is `Unsupported`, with the addresses
-- left at zero.
pub unsupported_rejected :
    (m : ArpMessage) (rest : List ℕ)
    → IsMessage m
    → supported m ≡ false
    → 20 ≤ length rest
    → length rest < 2 ^ 32
    → (serialize m ≡ none)
      × (parse (Buffer.of_string (fields m rest)) ≡ (fields_read m, unsupported))
unfolding parse_supported serialize
unsupported_rejected m rest v s enough short =
    let (p, read, after) = parse_long m rest v enough short in
    (rw s, read ∙ rw (supported-fields_read m ∙ s) refl)
