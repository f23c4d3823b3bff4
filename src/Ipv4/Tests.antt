-- ===== src/Ipv4/Tests.antt =====
-- Runs of libsponge/tcp_helpers/ipv4_datagram.cc.
use com_net_sponge.Prelude.{◌+◌, ◌*◌, ◌≡◌, refl, length, [], ◌∷◌, some, arith}
use com_net_sponge.Buffer
use com_net_sponge.Buffer.{BufferList}
use com_net_sponge.Ipv4.{Ipv4Header, Ipv4Datagram, default_header, serialize, pseudo_cksum}
use com_net_sponge.Ipv4.Header.{IsHeader}
use com_net_sponge.Ipv4.RoundTrip.{
  checksum, bytes_of, Parses, parse-serialize_datagram, bad_checksum_accepted,
}

abbrev ping_header : Ipv4Header
ping_header = record default_header {
  hlen = 6;
  len = 27;
  ttl = 64;
  proto = 1;
  src = 167837953;
  dst = 3232235777;
}

abbrev ping : Ipv4Datagram
ping = record {
  header = ping_header;
  payload = Buffer.of_string (8 ∷ 0 ∷ []) ∷ Buffer.of_string (9 ∷ []) ∷ [];
}

ping_header-IsHeader : IsHeader ping_header
ping_header-IsHeader = omega arith

-- The pseudo header's sum of the two addresses, the protocol and the payload's length.
ping_sum : pseudo_cksum ping_header ≡ 2561 + 257 + (49320 + 257) + 1 + 3
unfolding pseudo_cksum
ping_sum = refl

ping_total : ping.len ≡ 4 * ping.hlen + length (Buffer.concatenate ping.payload)
unfolding Buffer.concatenate Buffer.str Buffer.of_string
ping_total = refl

parse-serialize_datagram_example :
    (bs : BufferList) × (serialize ping ≡ some bs)
    × (length (Buffer.concatenate bs) ≡ ping.len)
    × Parses
        (Buffer.concatenate bs)
        (record ping_header { cksum = checksum ping_header })
        (Buffer.concatenate ping.payload)
parse-serialize_datagram_example = parse-serialize_datagram ping ping_header-IsHeader ping_total

-- The checksum of this header should not be zero.
bad_checksum_accepted_example :
    Parses (bytes_of ping_header (1 ∷ 2 ∷ 3 ∷ [])) ping_header (1 ∷ 2 ∷ 3 ∷ [])
bad_checksum_accepted_example =
    bad_checksum_accepted ping_header (1 ∷ 2 ∷ 3 ∷ []) ping_header-IsHeader refl
