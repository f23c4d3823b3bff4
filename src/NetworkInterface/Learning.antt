-- ===== src/NetworkInterface/Learning.antt =====
-- libsponge/network_interface.cc: what becomes of the datagrams that wait when an address is learned.
use com_net_sponge.Prelude.{
  ℕ, ◌≡◌, ◌⊎◌, ◌||◌, refl, ap, ◌∙◌, inl, inr, true, Bool-cases, ◌==◌, if◌then◌else◌, List, [], ◌∷◌,
  ◌++◌, append-nil, append_assoc, Option, Option-cases, none, some, arith,
}
use com_net_sponge.Arp.{ArpMessage}
use com_net_sponge.Ethernet.{
  EthernetAddress, EthernetFrame, ethernet_broadcast, type_ipv4, type_arp,
}
use com_net_sponge.NetworkInterface.{
  CacheEntry, Codec, NetworkInterface, same_address, make_frame, lookup, assign, erase_key,
  emit_datagram, send_one, pending_loop, send_pending_datagrams, learn, reply, recv_frame,
}

pub lookup-assign :
    {V : Type 0} (k : ℕ) (v : V) (m : List (ℕ × V)) → lookup k (assign k v m) ≡ some v
unfolding lookup assign
lookup-assign k v [] = ground arith
lookup-assign k v ((k', v') ∷ m) = ground (arith, lookup-assign k v m)

pub found : {V : Type 0} (o : Option V) → (o ≡ none) ⊎ ((v : V) × (o ≡ some v))
found none = inl refl
found (some v) = inr (v, refl)

-- The datagrams that wait for `ip`, and the entries that wait for others.
module _ {D : Type 0} where
  pub waiting_for : ℕ → List (ℕ × D) → List D
  waiting_for ip [] = []
  waiting_for ip ((hop, dgram) ∷ q) =
      let rest = waiting_for ip q in if hop == ip then dgram ∷ rest else rest

  pub waiting_else : ℕ → List (ℕ × D) → List (ℕ × D)
  waiting_else ip [] = []
  waiting_else ip ((hop, dgram) ∷ q) =
      let rest = waiting_else ip q in if hop == ip then rest else (hop, dgram) ∷ rest

  pub waiting_for-nil : (ip : ℕ) → waiting_for ip [] ≡ []
  unfolding waiting_for
  waiting_for-nil ip = refl

  -- A datagram that waits alone.
  pub waiting_alone :
      (ip : ℕ) (dgram : D)
      → (waiting_for ip ((ip, dgram) ∷ []) ≡ dgram ∷ []) × (waiting_else ip ((ip, dgram) ∷ []) ≡ [])
  unfolding waiting_for waiting_else
  waiting_alone ip dgram = let own : (ip == ip) ≡ true = ground arith in (rw own, rw own)

module _ {D : Type 0} (codec : Codec D) where
  -- The frames of datagrams for a learned address; `none` where one cannot be serialized.
  pub frames_of : NetworkInterface D → EthernetAddress → List D → Option (List EthernetFrame)
  frames_of n address [] = some []
  frames_of n address (dgram ∷ ds) = elim (codec.serialize dgram) [
    | none ↦ none
    | some payload ↦ elim (frames_of n address ds) [
      | none ↦ none
      | some fs ↦ some (make_frame n address type_ipv4 payload ∷ fs)
    ]
  ]

  pub frames_of-nil :
      (n : NetworkInterface D) (address : EthernetAddress) → frames_of n address [] ≡ some []
  unfolding frames_of
  frames_of-nil n address = refl

  pub frames_of-one :
      (n : NetworkInterface D) (address : EthernetAddress) (dgram : D) (payload : List ℕ)
      → codec.serialize dgram ≡ some payload
      → frames_of n address (dgram ∷ []) ≡ some (make_frame n address type_ipv4 payload ∷ [])
  unfolding frames_of
  frames_of-one n address dgram payload e = rw (frames_of, e) refl

  pub emit_done :
      (n : NetworkInterface D) (dst : EthernetAddress) (dgram : D) (payload : List ℕ)
      → codec.serialize dgram ≡ some payload
      → emit_datagram codec n dst dgram
        ≡ some (record n { frames_out = n.frames_out ++ (make_frame n dst type_ipv4 payload ∷ []) })
  unfolding emit_datagram
  emit_done n dst dgram payload e = rw (emit_datagram, e) refl

  pub emit_fails :
      (n : NetworkInterface D) (dst : EthernetAddress) (dgram : D)
      → codec.serialize dgram ≡ none
      → emit_datagram codec n dst dgram ≡ none
  unfolding emit_datagram
  emit_fails n dst dgram e = rw (emit_datagram, e) refl

  send_one_lem :
      (n : NetworkInterface D) (ip : ℕ) (entry : CacheEntry) (dgram : D)
      → lookup ip n.arp_cache ≡ some entry
      → send_one codec n ip dgram ≡ emit_datagram codec n entry.address dgram
  unfolding send_one
  send_one_lem n ip entry dgram e = rw (send_one, e) refl

  -- The interface afterwards, when the frames are there.
  abbrev sent_all :
      NetworkInterface D → List (ℕ × D) → Option (List EthernetFrame) → Option (NetworkInterface D)
  sent_all n others o = elim o [
    | none ↦ none
    | some fs ↦ some (record n {
      frames_out = n.frames_out ++ fs;
      pending_datagrams = n.pending_datagrams ++ others;
    })
  ]

  sent_one :
      (n : NetworkInterface D) (frame : EthernetFrame) (others : List (ℕ × D))
      (o : Option (List EthernetFrame))
      → sent_all (record n { frames_out = n.frames_out ++ (frame ∷ []) }) others o
        ≡ sent_all n others (elim o [ none ↦ none | some fs ↦ some (frame ∷ fs) ])
  sent_one n frame others none = refl
  sent_one n frame others (some fs) =
      ap
        (λ out.
          some (record n { frames_out = out; pending_datagrams = n.pending_datagrams ++ others }))
        (append_assoc n.frames_out (frame ∷ []) fs)

  kept_one :
      (n : NetworkInterface D) (x : ℕ × D) (others : List (ℕ × D)) (o : Option (List EthernetFrame))
      → sent_all (record n { pending_datagrams = n.pending_datagrams ++ (x ∷ []) }) others o
        ≡ sent_all n (x ∷ others) o
  kept_one n x others none = refl
  kept_one n x others (some fs) =
      ap (λ ps. some (record n { frames_out = n.frames_out ++ fs; pending_datagrams = ps }))
        (append_assoc n.pending_datagrams (x ∷ []) others)

  pending_loop_lem :
      (n : NetworkInterface D) (ip : ℕ) (entry : CacheEntry) (q : List (ℕ × D))
      → lookup ip n.arp_cache ≡ some entry
      → pending_loop codec ip q n
        ≡ sent_all n (waiting_else ip q) (frames_of n entry.address (waiting_for ip q))
  unfolding pending_loop waiting_for waiting_else frames_of
  pending_loop_lem n ip entry [] e =
      rw (append-nil n.frames_out, append-nil n.pending_datagrams) refl
  pending_loop_lem n ip entry ((hop, dgram) ∷ q) e = elim (Bool-cases (hop == ip)) [
    | inl here ↦ elim (Option-cases (codec.serialize dgram)) [
      | inl fails ↦
          rw
            (
              pending_loop,
              here,
              send_one_lem n ip entry dgram e,
              emit_fails n entry.address dgram fails,
              fails,
            )
            refl
      | inr (payload, done) ↦
          let frame : EthernetFrame = make_frame n entry.address type_ipv4 payload in
          rw
            (
              pending_loop,
              here,
              send_one_lem n ip entry dgram e,
              emit_done n entry.address dgram payload done,
              done,
            )
            (pending_loop_lem (record n { frames_out = n.frames_out ++ (frame ∷ []) }) ip entry q e
              ∙ sent_one n frame (waiting_else ip q) (frames_of n entry.address (waiting_for ip q)))
    ]
    | inr other ↦
        rw (pending_loop, other)
          (pending_loop_lem
              (record n { pending_datagrams = n.pending_datagrams ++ ((hop, dgram) ∷ []) }) ip entry
              q e
            ∙ kept_one n (hop, dgram) (waiting_else ip q)
                (frames_of n entry.address (waiting_for ip q)))
  ]

  -- When an ARP message is heard, and the datagrams that waited for its sender can be serialized, they are
  -- sent to the sender's address, in order and once; those that wait for others keep waiting in their
  -- order. Then the message is answered if it is a request for this interface. The sender is in the cache,
  -- and a request for it is no longer on its way.
  pub recv_frame_learns :
      (n : NetworkInterface D) (frame : EthernetFrame) (msg : ArpMessage) (fs : List EthernetFrame)
      → (same_address frame.dst n.ethernet_address || same_address frame.dst ethernet_broadcast)
        ≡ true
      → frame.type ≡ type_arp
      → codec.parse_arp frame.payload ≡ some msg
      → frames_of n msg.sender_ethernet_address
          (waiting_for msg.sender_ip_address n.pending_datagrams)
        ≡ some fs
      → recv_frame codec n frame
        ≡ some (
          reply codec
              (record n {
                frames_out = n.frames_out ++ fs;
                arp_cache =
                    assign msg.sender_ip_address
                      (record { address = msg.sender_ethernet_address; since = n.current_time })
                      n.arp_cache;
                pending_datagrams = waiting_else msg.sender_ip_address n.pending_datagrams;
                arp_request_timeouts = erase_key msg.sender_ip_address n.arp_request_timeouts;
              })
              msg,
          none,
        )
  unfolding recv_frame send_pending_datagrams learn frames_of
  recv_frame_learns n frame msg fs mine arp parsed waiting =
      let entry : CacheEntry = record {
        address = msg.sender_ethernet_address;
        since = n.current_time;
      } in
      let n' : NetworkInterface D = record n {
        arp_cache = assign msg.sender_ip_address entry n.arp_cache;
        pending_datagrams = [];
        arp_request_timeouts = erase_key msg.sender_ip_address n.arp_request_timeouts;
      } in
      let looped =
        pending_loop_lem n' msg.sender_ip_address entry n.pending_datagrams
          (lookup-assign msg.sender_ip_address entry n.arp_cache)
        ∙ ap (sent_all n' (waiting_else msg.sender_ip_address n.pending_datagrams)) waiting in
      rw (mine, arp, parsed, looped) refl
