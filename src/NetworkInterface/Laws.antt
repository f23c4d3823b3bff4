-- ===== src/NetworkInterface/Laws.antt =====
-- libsponge/network_interface.cc: what a call of `send_datagram` sends and keeps.
use com_net_sponge.Prelude.{
  ℕ, ◌≤◌, ◌<◌, ◌≡◌, ◌⊎◌, refl, inl, inr, true, false, Bool-cases, ltb, List, [], ◌∷◌, ◌++◌,
  Option-cases, subst, none, some, arith,
}
use com_net_sponge.Prelude.Words.{sub64}
use com_net_sponge.Arp.{default_message, opcode_request}
use com_net_sponge.Ethernet.{EthernetFrame, ethernet_broadcast, zero_address, type_ipv4, type_arp}
use com_net_sponge.NetworkInterface.{
  CacheEntry, Codec, NetworkInterface, make_frame, lookup, assign, request_due, request_address,
  send_datagram,
}
use com_net_sponge.NetworkInterface.Learning.{found, emit_done, emit_fails}

module _ {D : Type 0} (codec : Codec D) where
  -- The frame that asks for the address of a hop: an ARP request to all from this interface.
  abbrev pub asking : NetworkInterface D → ℕ → EthernetFrame
  asking n hop = make_frame n ethernet_broadcast type_arp (
      codec.serialize_arp (record default_message {
        opcode = opcode_request;
        sender_ethernet_address = n.ethernet_address;
        sender_ip_address = n.ip_address;
        target_ethernet_address = zero_address;
        target_ip_address = hop;
      }))

  due_cases :
      (n : NetworkInterface D) (hop : ℕ)
      → ((since : ℕ) × (lookup hop n.arp_request_timeouts ≡ some since)
          × (sub64 n.current_time since ≤ 5000)
          × (request_due n hop ≡ false))
        ⊎ (((since : ℕ)
              → lookup hop n.arp_request_timeouts ≡ some since
              → 5000 < sub64 n.current_time since)
            × (request_due n hop ≡ true))
  unfolding request_due
  due_cases n hop = elim (found (lookup hop n.arp_request_timeouts)) [
    | inl e ↦ inr (λ since h. cc, rw (e, request_due) refl)
    | inr (t, e) ↦ elim (Bool-cases (ltb 5000 (sub64 n.current_time t))) [
      | inl old ↦ inr (
        λ since h.
            let same : t ≡ since = cc in
            subst (λ x. 5000 < sub64 n.current_time x) same (ground (arith, old)),
        rw (e, old, request_due) refl,
      )
      | inr recent ↦ inl (t, e, ground (arith, recent), rw (e, recent, request_due) refl)
    ]
  ]

  -- `send_datagram` in all its branches. For an address in the cache it frames the datagram at once, or
  -- throws if the datagram cannot be serialized. For one that is not, the datagram waits: where the last
  -- request for the address is at most 5 seconds old nothing is sent, and where there is none, or it is
  -- older, an ARP request is broadcast and its time noted.
  pub send_datagram_lem :
      (n : NetworkInterface D) (dgram : D) (hop : ℕ)
      → ((entry : CacheEntry) × (lookup hop n.arp_cache ≡ some entry)
          × (((payload : List ℕ) × (codec.serialize dgram ≡ some payload)
                × (send_datagram codec n dgram hop
                    ≡ some (record n {
                      frames_out =
                          n.frames_out ++ (make_frame n entry.address type_ipv4 payload ∷ []);
                    })))
              ⊎ ((codec.serialize dgram ≡ none) × (send_datagram codec n dgram hop ≡ none))))
        ⊎ ((lookup hop n.arp_cache ≡ none)
            × (since : ℕ) × (lookup hop n.arp_request_timeouts ≡ some since)
            × (sub64 n.current_time since ≤ 5000)
            × (send_datagram codec n dgram hop
                ≡ some
                    (record n { pending_datagrams = n.pending_datagrams ++ ((hop, dgram) ∷ []) })))
        ⊎ ((lookup hop n.arp_cache ≡ none)
            × ((since : ℕ)
                → lookup hop n.arp_request_timeouts ≡ some since
                → 5000 < sub64 n.current_time since)
            × (send_datagram codec n dgram hop
                ≡ some (record n {
                  frames_out = n.frames_out ++ (asking n hop ∷ []);
                  pending_datagrams = n.pending_datagrams ++ ((hop, dgram) ∷ []);
                  arp_request_timeouts = assign hop n.current_time n.arp_request_timeouts;
                })))
  unfolding send_datagram request_address
  send_datagram_lem n dgram hop = elim (found (lookup hop n.arp_cache)) [
    | inr (entry, e) ↦ elim (Option-cases (codec.serialize dgram)) [
      | inl fails ↦ inl (
        entry,
        e,
        inr (fails, rw (e, emit_fails codec n entry.address dgram fails, send_datagram) refl),
      )
      | inr (payload, done) ↦ inl (
        entry,
        e,
        inl (
          payload,
          done,
          rw (e, emit_done codec n entry.address dgram payload done, send_datagram) refl,
        ),
      )
    ]
    | inl e ↦ elim (due_cases n hop) [
      | inl (since, t, recent, d) ↦ inr (inl (e, since, t, recent, rw (e, d, send_datagram) refl))
      | inr (old, d) ↦ inr (inr (e, old, rw (e, d, send_datagram) refl))
    ]
  ]
