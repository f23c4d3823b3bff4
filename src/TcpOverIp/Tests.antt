-- ===== src/TcpOverIp/Tests.antt =====
-- Two adapters at the ends of a connection, and what crosses between them.
use com_net_sponge.Prelude.{ℕ, ◌≡◌, refl, true, false, List, [], ◌∷◌, some, arith}
use com_net_sponge.Buffer
use com_net_sponge.Buffer.{Buffer}
use com_net_sponge.Ipv4
use com_net_sponge.Ipv4.{Ipv4Header, Ipv4Datagram, proto_tcp}
use com_net_sponge.InternetChecksum
use com_net_sponge.NetParser
use com_net_sponge.TcpOverIp
use com_net_sponge.TcpOverIp.{
  Address, FdAdapterConfig, FdAdapter, with_ports, unwrap_tcp_in_ip, tun_read, tun_write,
}
use com_net_sponge.TcpOverIp.Laws.{Related, Carries, unwrap_tcp_in_ip-Related}
use com_net_sponge.TcpOverIp.RoundTrip.{tun_read-tun_write}
use com_net_sponge.TcpOverIp.Travel.{CanSend, sent}
use com_net_sponge.TcpOverIp.Udp
use com_net_sponge.TcpSegment.{TcpSegment, default_header}
use com_net_sponge.TcpSegment.Wire

abbrev near : Address
near = record { ip = 167837953; port = 40000 }

abbrev far : Address
far = record { ip = 3232235777; port = 80 }

abbrev client : FdAdapter
client = record {
  cfg = record { source = near; destination = far; loss_rate_dn = 0; loss_rate_up = 0 };
  listening = false;
}

abbrev server : FdAdapter
server = record {
  cfg = record { source = far; destination = near; loss_rate_dn = 0; loss_rate_up = 0 };
  listening = false;
}

-- It is bound to any address.
abbrev listener : FdAdapter
listener = record {
  cfg = record {
    source = record { ip = 0; port = 80 };
    destination = record { ip = 0; port = 0 };
    loss_rate_dn = 0;
    loss_rate_up = 0;
  };
  listening = true;
}

abbrev hello : TcpSegment
hello = record {
  header = record default_header { seqno = 7; syn = true; win = 1000 };
  payload = 104 ∷ 105 ∷ 33 ∷ [];
}

hello-CanSend : CanSend client hello
unfolding with_ports
hello-CanSend = omega arith

tun_read-tun_write_example :
    (bytes : List ℕ) × (tun_write client hello ≡ some (with_ports client hello, bytes))
    × (tun_read server bytes ≡ some (server, some (sent client hello)))
tun_read-tun_write_example = tun_read-tun_write client server hello hello-CanSend (refl, refl) refl

-- The datagram as it is on the wire.
abbrev hello_dgram : Ipv4Datagram
hello_dgram = record {
  header = record Ipv4.default_header {
    src = 167837953;
    dst = 3232235777;
    len = 43;
    cksum = 11810;
  };
  payload =
      Buffer.of_string (
        156 ∷ 64 ∷ 0 ∷ 80 ∷ 0 ∷ 0 ∷ 0 ∷ 7 ∷ 0 ∷ 0 ∷ 0 ∷ 0 ∷ 80 ∷ 2 ∷ 3 ∷ 232 ∷ 185 ∷ 75 ∷ 0 ∷ 0
        ∷ 104 ∷ 105 ∷ 33 ∷ [])
      ∷ [];
}

abbrev hello_got : TcpSegment
hello_got = record {
  header = record default_header {
    sport = 40000;
    dport = 80;
    seqno = 7;
    syn = true;
    win = 1000;
    cksum = 47435;
  };
  payload = 104 ∷ 105 ∷ 33 ∷ [];
}

hello_unwrapped : unwrap_tcp_in_ip listener hello_dgram ≡ some (server, some hello_got)
unfolding unwrap_tcp_in_ip TcpOverIp.unwrap_payload TcpOverIp.accept_parsed TcpOverIp.accept
    TcpOverIp.adopt TcpOverIp.from_peer Buffer.to_buffer Wire.parse Ipv4.pseudo_cksum
    Buffer.of_string InternetChecksum.value InternetChecksum.add Buffer.str
    InternetChecksum.add_byte InternetChecksum.new Wire.parse_header NetParser.◌>>=◌
    Wire.skip_options NetParser.u8 NetParser.parse_int NetParser.check_size Buffer.size
    NetParser.u32 NetParser.u16 NetParser.new NetParser.advance Buffer.remove_prefix Buffer.release
    InternetChecksum.fold Ipv4.payload_length NetParser.bit NetParser.parse_loop
    NetParser.remove_prefix
hello_unwrapped = refl

unwrap_tcp_in_ip-Related_example :
    (hello_dgram.proto ≡ proto_tcp)
    × Related server hello_dgram.header hello_got
    × Carries hello_dgram hello_got
unwrap_tcp_in_ip-Related_example =
    unwrap_tcp_in_ip-Related listener hello_dgram hello_got server hello_unwrapped
