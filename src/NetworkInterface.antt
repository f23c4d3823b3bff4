-- ===== src/NetworkInterface.antt =====
-- libsponge/network_interface.hh and network_interface.cc: datagrams are put into Ethernet frames, whose
-- addresses are learned by ARP. The serialized forms of datagrams and ARP messages are a parameter. An IP
-- address is its `ipv4_numeric()`; maps are association lists. `none` is an exception of `serialize`.
pub mod Ageing
pub mod Laws
pub mod Learning
mod Tests
use com_net_sponge.Prelude.{
  ℕ, ◌+◌, ◌*◌, ◌^◌, Bool, true, false, not, ◌&&◌, ◌||◌, ltb, ◌==◌, if◌then◌else◌, List, [], ◌∷◌,
  ◌++◌, Option, none, some,
}
use com_net_sponge.Prelude.Words.{add64, sub64}
use com_net_sponge.Arp.{ArpMessage, default_message, opcode_request, opcode_reply}
use com_net_sponge.Ethernet.{
  EthernetAddress, EthernetFrame, ethernet_broadcast, zero_address, type_ipv4, type_arp,
}

-- `operator==` of addresses.
unfoldable pub same_address : EthernetAddress → EthernetAddress → Bool
same_address [] [] = true
same_address [] (y ∷ ys) = false
same_address (x ∷ xs) [] = false
same_address (x ∷ xs) (y ∷ ys) = (x == y) && same_address xs ys

-- The serialized forms; `serialize` of a datagram is `none` where it throws, and `parse` returns `none` for
-- every result but `NoError`. The ARP messages of an interface are of a supported type.
pub record Codec (D : Type 0) : Type 0 where
  pub serialize : D → Option (List ℕ)
  pub parse : List ℕ → Option D
  pub serialize_arp : ArpMessage → List ℕ
  pub parse_arp : List ℕ → Option ArpMessage

-- The value in the ARP cache: an address, and when it was learned.
pub record CacheEntry : Type 0 where
  pub address : EthernetAddress
  pub since : ℕ

pub record NetworkInterface (D : Type 0) : Type 0 where
  pub ethernet_address : EthernetAddress
  pub ip_address : ℕ
  pub frames_out : List EthernetFrame
  pub arp_cache : List (ℕ × CacheEntry)
  pub pending_datagrams : List (ℕ × D)
  pub arp_request_timeouts : List (ℕ × ℕ)
  pub current_time : ℕ

-- `find(key)` of a map.
unfoldable pub lookup : {V : Type 0} → ℕ → List (ℕ × V) → Option V
lookup k [] = none
lookup k ((k', v) ∷ m) = if k' == k then some v else lookup k m

-- The entry with the key is replaced, or a new one is put at the end.
unfoldable pub assign : {V : Type 0} → ℕ → V → List (ℕ × V) → List (ℕ × V)
assign k v [] = (k, v) ∷ []
assign k v ((k', v') ∷ m) = if k' == k then (k, v) ∷ m else (k', v') ∷ assign k v m

-- `erase` of the entry that `find` gave, if any.
unfoldable pub erase_key : {V : Type 0} → ℕ → List (ℕ × V) → List (ℕ × V)
erase_key k [] = []
erase_key k ((k', v) ∷ m) = if k' == k then m else (k', v) ∷ erase_key k m

-- The loop of `_remove_expired_cache`.
unfoldable pub expire_loop : ℕ → List (ℕ × CacheEntry) → List (ℕ × CacheEntry)
expire_loop now [] = []
expire_loop now ((ip, entry) ∷ m) =
    let rest = expire_loop now m in
    if ltb 30000 (sub64 now entry.since) then rest else (ip, entry) ∷ rest

module _ {D : Type 0} where
  abbrev pub make_frame : NetworkInterface D → EthernetAddress → ℕ → List ℕ → EthernetFrame
  make_frame n dst type payload = record {
    header = record { dst = dst; src = n.ethernet_address; type = type };
    payload = payload;
  }

  abbrev pub emit : NetworkInterface D → EthernetFrame → NetworkInterface D
  emit n frame = record n { frames_out = n.frames_out ++ (frame ∷ []) }

  -- The constructor.
  unfoldable pub new : EthernetAddress → ℕ → NetworkInterface D
  new ethernet_address ip_address = record {
    ethernet_address = ethernet_address;
    ip_address = ip_address;
    frames_out = [];
    arp_cache = [];
    pending_datagrams = [];
    arp_request_timeouts = [];
    current_time = 0;
  }

  -- The test for a new ARP request: none is on its way, or the last is more than 5 seconds old.
  unfoldable pub request_due : NetworkInterface D → ℕ → Bool
  request_due n next_hop_ip = elim (lookup next_hop_ip n.arp_request_timeouts) [
    | none ↦ true
    | some since ↦ ltb 5000 (sub64 n.current_time since)
  ]

  unfoldable pub request_address : Codec D → NetworkInterface D → ℕ → NetworkInterface D
  request_address codec n next_hop_ip =
      let arp_request : ArpMessage = record default_message {
        opcode = opcode_request;
        sender_ethernet_address = n.ethernet_address;
        sender_ip_address = n.ip_address;
        target_ethernet_address = zero_address;
        target_ip_address = next_hop_ip;
      } in
      let payload : List ℕ = codec.serialize_arp arp_request in
      record (emit n (make_frame n ethernet_broadcast type_arp payload)) {
        arp_request_timeouts = assign next_hop_ip n.current_time n.arp_request_timeouts;
      }

  -- The datagram is serialized and put into a frame.
  unfoldable pub emit_datagram :
      Codec D → NetworkInterface D → EthernetAddress → D → Option (NetworkInterface D)
  emit_datagram codec n dst dgram = elim (codec.serialize dgram) [
    | none ↦ none
    | some payload ↦ some (emit n (make_frame n dst type_ipv4 payload))
  ]

  unfoldable pub send_datagram : Codec D → NetworkInterface D → D → ℕ → Option (NetworkInterface D)
  send_datagram codec n dgram next_hop_ip = elim (lookup next_hop_ip n.arp_cache) [
    | some entry ↦ emit_datagram codec n entry.address dgram
    | none ↦
        let n' : NetworkInterface D =
          if request_due n next_hop_ip then request_address codec n next_hop_ip else n in
        some (record n' { pending_datagrams = n'.pending_datagrams ++ ((next_hop_ip, dgram) ∷ []) })
  ]

  -- `_arp_cache[ip_address].first`; `operator[]` puts a default entry where there is none.
  unfoldable pub send_one : Codec D → NetworkInterface D → ℕ → D → Option (NetworkInterface D)
  send_one codec n ip_address dgram = elim (lookup ip_address n.arp_cache) [
    | some entry ↦ emit_datagram codec n entry.address dgram
    | none ↦
        emit_datagram codec
          (record n {
            arp_cache =
                assign ip_address (record { address = zero_address; since = 0 }) n.arp_cache;
          })
          zero_address dgram
  ]

  -- The loop of `_send_pending_datagrams`, with the datagrams that stay behind in `pending_datagrams`.
  unfoldable pub pending_loop :
      Codec D → ℕ → List (ℕ × D) → NetworkInterface D → Option (NetworkInterface D)
  pending_loop codec ip_address [] n = some n
  pending_loop codec ip_address ((hop, dgram) ∷ rest) n = elim (hop == ip_address) [
    | true ↦ elim (send_one codec n ip_address dgram) [
      | none ↦ none
      | some n' ↦ pending_loop codec ip_address rest n'
    ]
    | false ↦
        pending_loop codec ip_address rest
          (record n { pending_datagrams = n.pending_datagrams ++ ((hop, dgram) ∷ []) })
  ]

  unfoldable pub send_pending_datagrams :
      Codec D → NetworkInterface D → ℕ → Option (NetworkInterface D)
  send_pending_datagrams codec n ip_address =
      pending_loop codec ip_address n.pending_datagrams (record n { pending_datagrams = [] })

  -- The sender of an ARP message is entered into the cache, and a request for it is done with.
  unfoldable pub learn : NetworkInterface D → ArpMessage → NetworkInterface D
  learn n msg = record n {
    arp_cache =
        assign msg.sender_ip_address
          (record { address = msg.sender_ethernet_address; since = n.current_time }) n.arp_cache;
    arp_request_timeouts = erase_key msg.sender_ip_address n.arp_request_timeouts;
  }

  -- The answer to a request for the address of this interface.
  unfoldable pub reply : Codec D → NetworkInterface D → ArpMessage → NetworkInterface D
  reply codec n msg =
      let arp_reply : ArpMessage = record default_message {
        opcode = opcode_reply;
        sender_ethernet_address = n.ethernet_address;
        sender_ip_address = n.ip_address;
        target_ethernet_address = msg.sender_ethernet_address;
        target_ip_address = msg.sender_ip_address;
      } in
      if (msg.opcode == opcode_request) && (msg.target_ip_address == n.ip_address)
      then emit n
          (make_frame n msg.sender_ethernet_address type_arp (codec.serialize_arp arp_reply))
      else n

  unfoldable pub recv_frame :
      Codec D → NetworkInterface D → EthernetFrame → Option (NetworkInterface D × Option D)
  recv_frame codec n frame =
      if same_address frame.dst n.ethernet_address || same_address frame.dst ethernet_broadcast
      then (if frame.type == type_ipv4
          then some (n, codec.parse frame.payload)
          else if frame.type == type_arp
          then elim (codec.parse_arp frame.payload) [
            | none ↦ some (n, none)
            | some msg ↦ elim (send_pending_datagrams codec (learn n msg) msg.sender_ip_address) [
              | none ↦ none
              | some n' ↦ some (reply codec n' msg, none)
            ]
          ]
          else some (n, none))
      else some (n, none)

  unfoldable pub tick : NetworkInterface D → ℕ → NetworkInterface D
  tick n ms_since_last_tick =
      let now : ℕ = add64 n.current_time ms_since_last_tick in
      record n { current_time = now; arp_cache = expire_loop now n.arp_cache }
