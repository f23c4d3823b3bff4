-- ===== src/TcpOverIp/OverEthernet/Resolving.antt =====
-- libsponge/network_interface.cc with libsponge/tcp_helpers/arp_message.cc: an address is asked for and
-- answered in ARP messages, and the datagram that waited for it is sent.
use com_net_sponge.Prelude.{
  ℕ, ◌^◌, ◌<◌, ◌≡◌, refl, ap, ◌∙◌, Bool, true, false, ◌||◌, ◌==◌, List, [], ◌∷◌, ◌++◌, none, some,
  arith,
}
use com_net_sponge.Arp.{ArpMessage, default_message, opcode_request, opcode_reply, supported}
use com_net_sponge.Arp.RoundTrip.{IsMessage, parse-serialize_message}
use com_net_sponge.Ethernet.{
  EthernetAddress, EthernetFrame, ethernet_broadcast, zero_address, type_arp, type_ipv4,
}
use com_net_sponge.Ethernet.RoundTrip.{IsAddress}
use com_net_sponge.Ipv4.{Ipv4Datagram}
use com_net_sponge.NetworkInterface.{
  NetworkInterface, same_address, lookup, assign, erase_key, make_frame, request_due,
  request_address, send_datagram, reply, recv_frame,
}
use com_net_sponge.NetworkInterface.Learning.{
  frames_of, frames_of-nil, frames_of-one, waiting_for, waiting_else, recv_frame_learns,
  lookup-assign, waiting_for-nil, waiting_alone,
}
use com_net_sponge.TcpOverIp.OverEthernet.Crossing.{same_address_refl}
use com_net_sponge.TcpOverIp.OverEthernet.{datagram_bytes, message_bytes, read_message, codec}

-- The request for the address of `target`, and the answer to it.
abbrev request_message : EthernetAddress → ℕ → ℕ → ArpMessage
request_message address ip target = record default_message {
  opcode = opcode_request;
  sender_ethernet_address = address;
  sender_ip_address = ip;
  target_ethernet_address = zero_address;
  target_ip_address = target;
}

abbrev reply_message : EthernetAddress → ℕ → EthernetAddress → ℕ → ArpMessage
reply_message address ip to target = record default_message {
  opcode = opcode_reply;
  sender_ethernet_address = address;
  sender_ip_address = ip;
  target_ethernet_address = to;
  target_ip_address = target;
}

-- What the codec writes of a supported message it reads back.
read_message-message_bytes :
    (m : ArpMessage) → IsMessage m → supported m ≡ true → read_message (message_bytes m) ≡ some m
unfolding read_message message_bytes
read_message-message_bytes m v s =
    let (bytes, done, parsed) = parse-serialize_message m v s in
    rw (done, message_bytes) (rw (parsed, read_message) refl)

request-IsMessage :
    (address : EthernetAddress) (ip target : ℕ)
    → IsAddress address
    → ip < 2 ^ 32
    → target < 2 ^ 32
    → IsMessage (request_message address ip target)
request-IsMessage address ip target a i t = record {
  hardware_type_fits = omega arith;
  protocol_type_fits = omega arith;
  hardware_size_fits = omega arith;
  protocol_size_fits = omega arith;
  opcode_fits = omega arith;
  sender_fits = a;
  sender_ip_fits = i;
  target_fits = (refl, omega arith);
  target_ip_fits = t;
}

reply-IsMessage :
    (address to : EthernetAddress) (ip target : ℕ)
    → IsAddress address
    → IsAddress to
    → ip < 2 ^ 32
    → target < 2 ^ 32
    → IsMessage (reply_message address ip to target)
reply-IsMessage address to ip target a b i t = record {
  hardware_type_fits = omega arith;
  protocol_type_fits = omega arith;
  hardware_size_fits = omega arith;
  protocol_size_fits = omega arith;
  opcode_fits = omega arith;
  sender_fits = a;
  sender_ip_fits = i;
  target_fits = b;
  target_ip_fits = t;
}

-- The frame of a message from an interface.
abbrev arp_frame : NetworkInterface Ipv4Datagram → EthernetAddress → ArpMessage → EthernetFrame
arp_frame n dst m = make_frame n dst type_arp (message_bytes m)

-- An interface after it has learned the sender of a message, and sent these frames.
abbrev taught :
    NetworkInterface Ipv4Datagram → ArpMessage → List EthernetFrame → NetworkInterface Ipv4Datagram
taught n msg fs = record n {
  frames_out = n.frames_out ++ fs;
  arp_cache =
      assign msg.sender_ip_address
        (record { address = msg.sender_ethernet_address; since = n.current_time }) n.arp_cache;
  pending_datagrams = waiting_else msg.sender_ip_address n.pending_datagrams;
  arp_request_timeouts = erase_key msg.sender_ip_address n.arp_request_timeouts;
}

hears :
    (n sender : NetworkInterface Ipv4Datagram) (dst : EthernetAddress) (msg : ArpMessage)
    (fs : List EthernetFrame)
    → (same_address dst n.ethernet_address || same_address dst ethernet_broadcast) ≡ true
    → IsMessage msg
    → supported msg ≡ true
    → frames_of codec n msg.sender_ethernet_address
        (waiting_for msg.sender_ip_address n.pending_datagrams)
      ≡ some fs
    → recv_frame codec n (arp_frame sender dst msg) ≡ some (reply codec (taught n msg fs) msg, none)
hears n sender dst msg fs mine v s waiting =
    recv_frame_learns codec n (arp_frame sender dst msg) msg fs mine refl
      (read_message-message_bytes msg v s) waiting

-- The frames of an interface were written.
abbrev pub emptied : NetworkInterface Ipv4Datagram → NetworkInterface Ipv4Datagram
emptied n = record n { frames_out = [] }

abbrev asks : NetworkInterface Ipv4Datagram → ℕ → EthernetFrame
asks x hop = arp_frame x ethernet_broadcast (request_message x.ethernet_address x.ip_address hop)

abbrev answers : NetworkInterface Ipv4Datagram → NetworkInterface Ipv4Datagram → EthernetFrame
answers x y =
    arp_frame y x.ethernet_address
      (reply_message y.ethernet_address y.ip_address x.ethernet_address x.ip_address)

-- An interface that has asked for an address.
abbrev asked : NetworkInterface Ipv4Datagram → Ipv4Datagram → ℕ → NetworkInterface Ipv4Datagram
asked x dgram hop = record x {
  frames_out = x.frames_out ++ (asks x hop ∷ []);
  pending_datagrams = x.pending_datagrams ++ ((hop, dgram) ∷ []);
  arp_request_timeouts = assign hop x.current_time x.arp_request_timeouts;
}

asked_lem :
    (x : NetworkInterface Ipv4Datagram) (dgram : Ipv4Datagram) (hop : ℕ)
    → lookup hop x.arp_cache ≡ none
    → request_due x hop ≡ true
    → send_datagram codec x dgram hop ≡ some (asked x dgram hop)
unfolding send_datagram request_address
asked_lem x dgram hop unknown due = rw (unknown, due, send_datagram) refl

reply-request :
    (n : NetworkInterface Ipv4Datagram) (address : EthernetAddress) (ip : ℕ)
    → reply codec n (request_message address ip n.ip_address) ≡ record n {
      frames_out =
          n.frames_out
          ++ (arp_frame n address (reply_message n.ethernet_address n.ip_address address ip) ∷ []);
    }
unfolding reply
reply-request n address ip =
    let own : (n.ip_address == n.ip_address) ≡ true = ground arith in rw own refl

reply-reply :
    (n : NetworkInterface Ipv4Datagram) (address to : EthernetAddress) (ip target : ℕ)
    → reply codec n (reply_message address ip to target) ≡ n
unfolding reply
reply-reply n address to ip target = refl

or_true : (b : Bool) → (b || true) ≡ true
or_true true = refl
or_true false = refl

for_all :
    (n : NetworkInterface Ipv4Datagram)
    → (same_address ethernet_broadcast n.ethernet_address
        || same_address ethernet_broadcast ethernet_broadcast)
      ≡ true
for_all n =
    rw (same_address_refl ethernet_broadcast)
      (or_true (same_address ethernet_broadcast n.ethernet_address))

-- Between two interfaces whose addresses fit their fields and that have no frame or datagram waiting, an
-- address that is not in the cache and may be asked for is asked for in one broadcast frame, when a
-- datagram that can be serialized is sent there. The interface that has it answers in one frame. From that
-- answer the first interface learns the address, and sends the serialized datagram to it, in one frame;
-- nothing waits any longer.
pub resolved :
    (x y : NetworkInterface Ipv4Datagram) (dgram : Ipv4Datagram) (payload : List ℕ)
    → datagram_bytes dgram ≡ some payload
    → IsAddress x.ethernet_address
    → IsAddress y.ethernet_address
    → x.ip_address < 2 ^ 32
    → y.ip_address < 2 ^ 32
    → lookup y.ip_address x.arp_cache ≡ none
    → request_due x y.ip_address ≡ true
    → x.frames_out ≡ []
    → x.pending_datagrams ≡ []
    → y.frames_out ≡ []
    → y.pending_datagrams ≡ []
    → (waits : NetworkInterface Ipv4Datagram) × (request : EthernetFrame) × (y' : NetworkInterface
        Ipv4Datagram)
      × (answer : EthernetFrame) × (x' : NetworkInterface Ipv4Datagram) × (send_datagram codec x
            dgram y.ip_address
          ≡ some waits)
      × (waits.frames_out ≡ request ∷ [])
      × (request.header.dst ≡ ethernet_broadcast)
      × (recv_frame codec y request ≡ some (y', none))
      × (y'.frames_out ≡ answer ∷ [])
      × (recv_frame codec (emptied waits) answer ≡ some (x', none))
      × (x'.frames_out ≡ make_frame x y.ethernet_address type_ipv4 payload ∷ [])
      × (x'.pending_datagrams ≡ [])
      × (lookup y.ip_address x'.arp_cache
          ≡ some (record { address = y.ethernet_address; since = x.current_time }))
resolved x y dgram payload can ax ay ix iy unknown due quiet_x none_x quiet_y none_y =
    let r : ArpMessage = request_message x.ethernet_address x.ip_address y.ip_address in
    let m : ArpMessage =
      reply_message y.ethernet_address y.ip_address x.ethernet_address x.ip_address in
    let n : NetworkInterface Ipv4Datagram = emptied (asked x dgram y.ip_address) in
    let sent : EthernetFrame = make_frame x y.ethernet_address type_ipv4 payload in
    let none_waits : waiting_for x.ip_address y.pending_datagrams ≡ [] =
      ap (waiting_for x.ip_address) none_y ∙ waiting_for-nil x.ip_address in
    let one_waits : waiting_for y.ip_address n.pending_datagrams ≡ dgram ∷ [] =
      ap (λ ps. waiting_for y.ip_address (ps ++ ((y.ip_address, dgram) ∷ []))) none_x
      ∙ (waiting_alone y.ip_address dgram).0 in
    let heard =
      hears y x ethernet_broadcast r [] (for_all y)
        (request-IsMessage x.ethernet_address x.ip_address y.ip_address ax ix iy)
        (unfold supported in refl)
        (ap (frames_of codec y x.ethernet_address) none_waits
          ∙ frames_of-nil codec y x.ethernet_address) in
    let learnt =
      hears n y x.ethernet_address m (sent ∷ []) (rw (same_address_refl x.ethernet_address) refl)
        (reply-IsMessage y.ethernet_address x.ethernet_address y.ip_address x.ip_address ay ax iy
          ix)
        (unfold supported in refl)
        (ap (frames_of codec n y.ethernet_address) one_waits
          ∙ frames_of-one codec n y.ethernet_address dgram payload can) in
    (
      asked x dgram y.ip_address,
      asks x y.ip_address,
      reply codec (taught y r []) r,
      answers x y,
      taught n m (sent ∷ []),
      asked_lem x dgram y.ip_address unknown due,
      ap (λ (fs : List EthernetFrame). fs ++ (asks x y.ip_address ∷ [])) quiet_x,
      refl,
      heard,
      ap (λ z. z.frames_out) (reply-request (taught y r []) x.ethernet_address x.ip_address)
          ∙ ap (λ (fs : List EthernetFrame). (fs ++ []) ++ (answers x y ∷ [])) quiet_y,
      learnt
          ∙ ap (λ z. some (z, none))
              (reply-reply (taught n m (sent ∷ [])) y.ethernet_address x.ethernet_address
                y.ip_address x.ip_address),
      refl,
      ap (λ ps. waiting_else y.ip_address (ps ++ ((y.ip_address, dgram) ∷ []))) none_x
          ∙ (waiting_alone y.ip_address dgram).1,
      lookup-assign y.ip_address _ x.arp_cache,
    )
