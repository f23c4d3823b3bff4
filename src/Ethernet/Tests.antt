-- ===== src/Ethernet/Tests.antt =====
-- Runs of libsponge/tcp_helpers/ethernet_frame.cc.
use com_net_sponge.Prelude.{◌≡◌, refl, [], ◌∷◌, arith}
use com_net_sponge.Buffer
use com_net_sponge.Ethernet.{
  EthernetFrame, ethernet_broadcast, type_arp, empty_header, parse, serialize_header,
}
use com_net_sponge.Ethernet.RoundTrip.{IsFrame, short_frame_accepted}
use com_net_sponge.NetParser
use com_net_sponge.NetParser.{no_error}

abbrev shout : EthernetFrame
shout = record {
  header = record { dst = ethernet_broadcast; src = 2 ∷ 0 ∷ 0 ∷ 0 ∷ 0 ∷ 1 ∷ []; type = type_arp };
  payload = 1 ∷ 2 ∷ 3 ∷ [];
}

shout_header :
    serialize_header shout.header
    ≡ 255 ∷ 255 ∷ 255 ∷ 255 ∷ 255 ∷ 255 ∷ 2 ∷ 0 ∷ 0 ∷ 0 ∷ 0 ∷ 1 ∷ 8 ∷ 6 ∷ []
unfolding serialize_header NetParser.put_bytes NetParser.put16 NetParser.put8 NetParser.word16
    NetParser.word8
shout_header = refl

shout-IsFrame : IsFrame shout
shout-IsFrame = record {
  dst_fits = (refl, omega arith);
  src_fits = (refl, omega arith);
  type_fits = omega arith;
  short = omega arith;
}

-- Three bytes.
runt :
    parse (Buffer.of_string (1 ∷ 2 ∷ 3 ∷ []))
    ≡ (record { header = empty_header; payload = 1 ∷ 2 ∷ 3 ∷ [] }, no_error)
runt = short_frame_accepted (1 ∷ 2 ∷ 3 ∷ []) (omega arith)
