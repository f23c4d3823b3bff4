-- ===== src/NetworkInterface/Tests.antt =====
-- Runs of libsponge/network_interface.cc with a small codec.
use com_net_sponge.Prelude.Words.{sub64}
use com_net_sponge.Prelude.{◌≤◌, ◌<◌, refl, ℕ, ◌≡◌, ◌⊎◌, List, [], ◌∷◌, ◌++◌, Option, none, some}
use com_net_sponge.Arp.{ArpMessage, default_message}
use com_net_sponge.Ethernet.{zero_address, type_ipv4}
use com_net_sponge.NetworkInterface.{
  CacheEntry, Codec, NetworkInterface, lookup, assign, make_frame, emit_datagram, send_datagram,
}
use com_net_sponge.NetworkInterface.Laws.{asking, send_datagram_lem}

-- A datagram is its bytes, of which there must be some; an ARP message is its numbers and the sender's address.
abbrev read_arp : List ℕ → Option ArpMessage
read_arp (opcode ∷ sender ∷ target ∷ address) = some (record default_message {
  opcode = opcode;
  sender_ethernet_address = address;
  sender_ip_address = sender;
  target_ethernet_address = zero_address;
  target_ip_address = target;
})
read_arp bytes = none

abbrev write_bytes : List ℕ → Option (List ℕ)
write_bytes [] = none
write_bytes (b ∷ bs) = some (b ∷ bs)

abbrev plain : Codec (List ℕ)
plain = record {
  serialize = write_bytes;
  parse = λ bytes. some bytes;
  serialize_arp = λ (m : ArpMessage).
      m.opcode ∷ m.sender_ip_address ∷ m.target_ip_address ∷ m.sender_ethernet_address;
  parse_arp = read_arp;
}

abbrev neighbour : CacheEntry
neighbour = record { address = 2 ∷ 2 ∷ 2 ∷ 2 ∷ 2 ∷ 2 ∷ []; since = 10 }

-- Two datagrams wait, for 20 and for 30; 40 is known.
abbrev busy : NetworkInterface (List ℕ)
busy = record {
  ethernet_address = 1 ∷ 1 ∷ 1 ∷ 1 ∷ 1 ∷ 1 ∷ [];
  ip_address = 5;
  frames_out = [];
  arp_cache = (40, neighbour) ∷ [];
  pending_datagrams = (20, 7 ∷ []) ∷ (30, 8 ∷ []) ∷ [];
  arp_request_timeouts = (20, 100) ∷ (30, 100) ∷ [];
  current_time = 200;
}

send_datagram_example :
    ((entry : CacheEntry) × (lookup 50 busy.arp_cache ≡ some entry)
      × (((payload : List ℕ) × (write_bytes (6 ∷ []) ≡ some payload)
            × (send_datagram plain busy (6 ∷ []) 50
                ≡ some (record busy {
                  frames_out = [] ++ (make_frame busy entry.address type_ipv4 payload ∷ []);
                })))
          ⊎ ((write_bytes (6 ∷ []) ≡ none) × (send_datagram plain busy (6 ∷ []) 50 ≡ none))))
    ⊎ ((lookup 50 busy.arp_cache ≡ none)
        × (since : ℕ) × (lookup 50 busy.arp_request_timeouts ≡ some since)
        × (sub64 200 since ≤ 5000)
        × (send_datagram plain busy (6 ∷ []) 50
            ≡ some (record busy {
              pending_datagrams = busy.pending_datagrams ++ ((50, 6 ∷ []) ∷ []);
            })))
    ⊎ ((lookup 50 busy.arp_cache ≡ none)
        × ((since : ℕ) → lookup 50 busy.arp_request_timeouts ≡ some since → 5000 < sub64 200 since)
        × (send_datagram plain busy (6 ∷ []) 50
            ≡ some (record busy {
              frames_out = [] ++ (asking plain busy 50 ∷ []);
              pending_datagrams = busy.pending_datagrams ++ ((50, 6 ∷ []) ∷ []);
              arp_request_timeouts = assign 50 200 busy.arp_request_timeouts;
            })))
send_datagram_example = send_datagram_lem plain busy (6 ∷ []) 50

-- A datagram that cannot be serialized is an exception once its hop is known, and waits before that.
thrown : send_datagram plain busy [] 40 ≡ none
unfolding send_datagram lookup emit_datagram
thrown = refl
