-- ===== src/TcpOverIp/OverEthernet/Tests.antt =====
-- Two adapters on one Ethernet.
use com_net_sponge.Prelude.{none, ℕ, ◌≡◌, refl, true, false, List, [], ◌∷◌, some, arith}
use com_net_sponge.Ethernet.{EthernetAddress, EthernetFrame, ethernet_broadcast, type_ipv4}
use com_net_sponge.NetworkInterface.{
  CacheEntry, NetworkInterface, lookup, make_frame, request_due, send_datagram, recv_frame,
}
use com_net_sponge.TcpOverIp.OverEthernet.Resolving.{emptied, resolved}
use com_net_sponge.Ipv4
use com_net_sponge.Buffer
use com_net_sponge.NetParser
use com_net_sponge.InternetChecksum
use com_net_sponge.Ipv4.{Ipv4Datagram}
use com_net_sponge.TcpOverIp.{Address, with_ports}
use com_net_sponge.TcpOverIp.OverEthernet.{datagram_bytes, EthernetAdapter, codec, read, write}
use com_net_sponge.TcpOverIp.OverEthernet.Crossing.{flushed, read-write_segment}
use com_net_sponge.TcpOverIp.Travel.{CanSend, sent}
use com_net_sponge.TcpSegment.{TcpSegment, default_header}

abbrev near : Address
near = record { ip = 167837953; port = 40000 }

abbrev far : Address
far = record { ip = 167837954; port = 80 }

abbrev far_card : EthernetAddress
far_card = 2 ∷ 0 ∷ 0 ∷ 0 ∷ 0 ∷ 2 ∷ []

abbrev cached : CacheEntry
cached = record { address = far_card; since = 100 }

abbrev client : EthernetAdapter
client = record {
  base = record {
    cfg = record { source = near; destination = far; loss_rate_dn = 0; loss_rate_up = 0 };
    listening = false;
  };
  interface = record {
    ethernet_address = 2 ∷ 0 ∷ 0 ∷ 0 ∷ 0 ∷ 1 ∷ [];
    ip_address = 167837953;
    frames_out = [];
    arp_cache = (167837954, cached) ∷ [];
    pending_datagrams = [];
    arp_request_timeouts = [];
    current_time = 200;
  };
  next_hop = 167837954;
}

abbrev server : EthernetAdapter
server = record {
  base = record {
    cfg = record { source = far; destination = near; loss_rate_dn = 0; loss_rate_up = 0 };
    listening = false;
  };
  interface = record {
    ethernet_address = far_card;
    ip_address = 167837954;
    frames_out = [];
    arp_cache = [];
    pending_datagrams = [];
    arp_request_timeouts = [];
    current_time = 0;
  };
  next_hop = 167837953;
}

abbrev hello : TcpSegment
hello = record {
  header = record default_header { seqno = 7; syn = true; win = 1000 };
  payload = 104 ∷ 105 ∷ 33 ∷ [];
}

hello-CanSend : CanSend client.base hello
unfolding with_ports
hello-CanSend = omega arith

next_hop_known : lookup client.next_hop client.interface.arp_cache ≡ some cached
unfolding lookup
next_hop_known = refl

read-write_segment_example :
    (bytes : List ℕ) × (write client hello
      ≡ some (with_ports client.base hello, flushed client, bytes ∷ []))
    × (read server bytes ≡ some (flushed server, [], some (sent client.base hello)))
read-write_segment_example =
    read-write_segment client server cached hello hello-CanSend (refl, refl) refl
      (refl, omega arith) (refl, omega arith) next_hop_known refl refl refl

-- The client's interface before it knows any address.
abbrev fresh : NetworkInterface Ipv4Datagram
fresh = record client.interface { arp_cache = [] }

abbrev empty_dgram : Ipv4Datagram
empty_dgram = record { header = record Ipv4.default_header { len = 20 }; payload = [] }

unknown : lookup server.interface.ip_address fresh.arp_cache ≡ none
unfolding lookup
unknown = refl

due : request_due fresh server.interface.ip_address ≡ true
unfolding request_due lookup
due = refl

abbrev dgram_payload : List ℕ
dgram_payload =
    69 ∷ 0 ∷ 0 ∷ 20 ∷ 0 ∷ 0 ∷ 64 ∷ 0 ∷ 128 ∷ 6 ∷ 250 ∷ 228 ∷ 0 ∷ 0 ∷ 0 ∷ 0 ∷ 0 ∷ 0 ∷ 0 ∷ 0 ∷ []

serialized : datagram_bytes empty_dgram ≡ some dgram_payload
unfolding datagram_bytes Ipv4.serialize Ipv4.payload_length Ipv4.header_checksum
    Ipv4.serialize_header Ipv4.append_parts Ipv4.fragment_word Buffer.list_size Buffer.concatenate
    Buffer.append Buffer.str Buffer.of_string Buffer.concatenate_loop Buffer.size Buffer.size_loop
    NetParser.resize NetParser.put32 NetParser.put16 NetParser.put8 NetParser.word8 NetParser.word16
    NetParser.word32 NetParser.unparse_int InternetChecksum.value InternetChecksum.add
    InternetChecksum.add_byte InternetChecksum.fold InternetChecksum.new
serialized = refl

resolved_example :
    (waits : NetworkInterface Ipv4Datagram) × (request : EthernetFrame) × (y' : NetworkInterface
      Ipv4Datagram)
    × (answer : EthernetFrame) × (x' : NetworkInterface Ipv4Datagram) × (send_datagram codec fresh
          empty_dgram server.interface.ip_address
        ≡ some waits)
    × (waits.frames_out ≡ request ∷ [])
    × (request.header.dst ≡ ethernet_broadcast)
    × (recv_frame codec server.interface request ≡ some (y', none))
    × (y'.frames_out ≡ answer ∷ [])
    × (recv_frame codec (emptied waits) answer ≡ some (x', none))
    × (x'.frames_out
        ≡ make_frame fresh server.interface.ethernet_address type_ipv4 dgram_payload ∷ [])
    × (x'.pending_datagrams ≡ [])
    × (lookup server.interface.ip_address x'.arp_cache
        ≡ some (record { address = server.interface.ethernet_address; since = fresh.current_time }))
resolved_example =
    resolved fresh server.interface empty_dgram dgram_payload serialized (refl, omega arith)
      (refl, omega arith) (omega arith) (omega arith) unknown due refl refl refl refl
