-- ===== src/TcpSegment/Wire/Tests.antt =====
-- Runs of libsponge/tcp_helpers/tcp_segment.cc and tcp_header.cc.
use com_net_sponge.Prelude.{ℕ, ◌≡◌, refl, true, List, [], ◌∷◌, ◌++◌, none, some, arith}
use com_net_sponge.Buffer
use com_net_sponge.Buffer.{BufferList}
use com_net_sponge.InternetChecksum
use com_net_sponge.NetParser
use com_net_sponge.NetParser.{no_error, bad_checksum, word16}
use com_net_sponge.TcpSegment.{TcpHeader, TcpSegment, default_header}
use com_net_sponge.TcpSegment.Wire.{
  parse, parse_header, skip_options, serialize, serialize_header, same_header, flags_byte,
}
use com_net_sponge.TcpSegment.Wire.Header.{FieldsFit, fixed}
use com_net_sponge.TcpSegment.Wire.RoundTrip.{IsSegment, summed, parse-serialize_segment}
use com_net_sponge.TcpSegment.Wire.Rejected.{verified, changed_word_rejected, short_offset_accepted}

abbrev syn_ack : TcpHeader
syn_ack = record default_header {
  sport = 80;
  dport = 40000;
  seqno = 4000000000;
  ackno = 8;
  doff = 6;
  ack = true;
  syn = true;
  win = 65000;
}

abbrev greeting : TcpSegment
greeting = record { header = syn_ack; payload = 104 ∷ 105 ∷ [] }

-- Options are written as zeros; the checksum is not computed.
header_bytes :
    serialize_header syn_ack
    ≡ some (
        0 ∷ 80 ∷ 156 ∷ 64 ∷ 238 ∷ 107 ∷ 40 ∷ 0 ∷ 0 ∷ 0 ∷ 0 ∷ 8 ∷ 96 ∷ 18 ∷ 253 ∷ 232 ∷ 0 ∷ 0 ∷ 0 ∷ 0
        ∷ 0 ∷ 0 ∷ 0 ∷ 0 ∷ [])
unfolding serialize_header NetParser.put32 NetParser.put16 NetParser.put8 NetParser.resize
    NetParser.word32 NetParser.word16 NetParser.word8
header_bytes = refl

header_too_short : serialize_header (record syn_ack { doff = 4 }) ≡ none
unfolding serialize_header
header_too_short = refl

-- Ports and the checksum are not compared.
ports_ignored : same_header syn_ack (record syn_ack { sport = 1; cksum = 9 }) ≡ true
unfolding same_header
ports_ignored = refl

greeting-IsSegment : IsSegment greeting 52424
greeting-IsSegment = omega arith

parse-serialize_segment_example :
    (bs : BufferList) × (serialize greeting 52424 ≡ some bs)
    × (parse (Buffer.of_string (Buffer.concatenate bs)) 52424 ≡ (summed greeting 52424, no_error))
parse-serialize_segment_example = parse-serialize_segment greeting 52424 greeting-IsSegment

-- A segment from port 40000 to port 80 behind its ports and the high half of its number.
abbrev tail : List ℕ
tail = 0 ∷ 7 ∷ 0 ∷ 0 ∷ 0 ∷ 0 ∷ 80 ∷ 2 ∷ 3 ∷ 232 ∷ 185 ∷ 75 ∷ 0 ∷ 0 ∷ 104 ∷ 105 ∷ 33 ∷ []

abbrev ports : List ℕ
ports = 156 ∷ 64 ∷ 0 ∷ 80 ∷ []

tail_parsed : (parse (Buffer.of_string (ports ++ (word16 0 ++ tail))) 52424).1 ≡ no_error
unfolding word16 Buffer.of_string parse InternetChecksum.value InternetChecksum.add Buffer.str
    InternetChecksum.add_byte InternetChecksum.new parse_header NetParser.◌>>=◌ skip_options
    NetParser.u8 NetParser.parse_int NetParser.check_size Buffer.size NetParser.u32 NetParser.u16
    NetParser.new NetParser.advance Buffer.remove_prefix Buffer.release InternetChecksum.fold
    NetParser.bit NetParser.parse_loop NetParser.remove_prefix
tail_parsed = refl

changed_word_rejected_example :
    (parse (Buffer.of_string (ports ++ (word16 1 ++ tail))) 52424).1 ≡ bad_checksum
changed_word_rejected_example =
    changed_word_rejected 52424 0 1 ports tail (omega arith) (omega arith) (omega arith)
      (omega arith) refl (omega arith) (omega arith) (omega arith) tail_parsed

-- All fields are zero but the checksum, also the data offset.
abbrev no_offset : TcpHeader
no_offset = record default_header { doff = 0; cksum = 65535 }

no_offset-FieldsFit : FieldsFit no_offset
no_offset-FieldsFit = omega arith

no_offset-verified : verified 0 (fixed no_offset []) ≡ 0
unfolding NetParser.word16 NetParser.word32 NetParser.word8 flags_byte InternetChecksum.value
    InternetChecksum.add InternetChecksum.add_byte InternetChecksum.new
no_offset-verified = refl

short_offset_accepted_example :
    parse (Buffer.of_string (fixed no_offset [])) 0
    ≡ (record { header = no_offset; payload = [] }, no_error)
short_offset_accepted_example =
    short_offset_accepted no_offset 0 [] no_offset-FieldsFit (omega arith) (omega arith)
      no_offset-verified
