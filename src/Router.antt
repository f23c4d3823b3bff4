-- ===== src/Router.antt =====
-- libsponge/router.hh and router.cc: datagrams go out on the interface of the route whose prefix matches
-- the destination over the most bits. `none` is an interface number out of range, or
-- an exception of an interface.
pub mod Match
mod Tests
use Prim.Native.Nat.{bit_and}
use com_net_sponge.Prelude.{
  ℕ, zero, suc, ◌+◌, ◌-◌, ◌*◌, ◌%◌, ◌^◌, Bool, true, false, ltb, leb, ◌==◌, if◌then◌else◌, List, [],
  ◌∷◌, ◌++◌, Option, none, some, length,
}
use com_net_sponge.Ethernet.{EthernetFrame}
use com_net_sponge.NetworkInterface
use com_net_sponge.NetworkInterface.{NetworkInterface, Codec}

-- `Router::Route`.
pub record Route : Type 0 where
  pub route_prefix : ℕ
  pub prefix_length : ℕ
  pub next_hop : Option ℕ
  pub interface_num : ℕ

-- The header fields of a datagram that the router reads and writes.
pub record Header (D : Type 0) : Type 0 where
  pub ttl : D → ℕ
  pub dst : D → ℕ
  pub set_ttl : D → ℕ → D

-- `AsyncNetworkInterface`.
pub record AsyncInterface (D : Type 0) : Type 0 where
  pub interface : NetworkInterface D
  pub datagrams_out : List D

pub record Router (D : Type 0) : Type 0 where
  pub routes : List Route
  pub interfaces : List (AsyncInterface D)

-- The shift is on 32 bits.
unfoldable pub mask : Route → ℕ
mask r = if r.prefix_length == 0 then 0 else ((2 ^ 32 - 1) * 2 ^ (32 - r.prefix_length)) % 2 ^ 32

unfoldable pub matches : ℕ → Route → Bool
matches dst r = bit_and dst (mask r) == bit_and r.route_prefix (mask r)

-- The loop over the routes, with the best match so far.
unfoldable pub best_loop : ℕ → List Route → Option Route → Option Route
best_loop dst [] best = best
best_loop dst (r ∷ rs) best =
    let better : Bool = elim best [ none ↦ true | some b ↦ ltb b.prefix_length r.prefix_length ] in
    let next : Option Route = if matches dst r then (if better then some r else best) else best in
    best_loop dst rs next

-- The next hop of a route: its own, or the destination on a network that is directly attached.
unfoldable pub hop_of : Route → ℕ → ℕ
hop_of r dst = elim r.next_hop [ none ↦ dst | some hop ↦ hop ]

module _ {D : Type 0} where
  unfoldable pub add_route : Router D → Route → Router D
  add_route t r = record t { routes = t.routes ++ (r ∷ []) }

  unfoldable pub add_interface : Router D → AsyncInterface D → Router D
  add_interface t i = record t { interfaces = t.interfaces ++ (i ∷ []) }

  -- `_interfaces[n].send_datagram(dgram, hop)`.
  unfoldable pub send_on :
      Codec D → List (AsyncInterface D) → ℕ → D → ℕ → Option (List (AsyncInterface D))
  send_on codec [] n dgram hop = none
  send_on codec (i ∷ is) zero dgram hop =
      elim (NetworkInterface.send_datagram codec i.interface dgram hop) [
        | none ↦ none
        | some interface ↦ some (record i { interface = interface } ∷ is)
      ]
  send_on codec (i ∷ is) (suc n) dgram hop = elim (send_on codec is n dgram hop) [
    | none ↦ none
    | some is' ↦ some (i ∷ is')
  ]

  unfoldable pub route_one_datagram : Codec D → Header D → Router D → D → Option (Router D)
  route_one_datagram codec h t dgram =
      let dst : ℕ = h.dst dgram in
      if leb (h.ttl dgram) 1 then some t else elim (best_loop dst t.routes none) [
        | none ↦ some t
        | some r ↦
            elim (send_on codec t.interfaces r.interface_num (h.set_ttl dgram (h.ttl dgram - 1))
              (hop_of r dst)) [ none ↦ none | some is ↦ some (record t { interfaces = is }) ]
      ]

  -- The queue of the interface at an index, and the interfaces with that queue emptied.
  unfoldable pub queue_at : List (AsyncInterface D) → ℕ → List D
  queue_at [] n = []
  queue_at (i ∷ is) zero = i.datagrams_out
  queue_at (i ∷ is) (suc n) = queue_at is n

  unfoldable pub empty_at : List (AsyncInterface D) → ℕ → List (AsyncInterface D)
  empty_at [] n = []
  empty_at (i ∷ is) zero = record i { datagrams_out = [] } ∷ is
  empty_at (i ∷ is) (suc n) = i ∷ empty_at is n

  -- The inner loop of `route`; routing puts nothing into these queues.
  unfoldable pub route_queue : Codec D → Header D → List D → Router D → Option (Router D)
  route_queue codec h [] t = some t
  route_queue codec h (dgram ∷ q) t = elim (route_one_datagram codec h t dgram) [
    | none ↦ none
    | some t' ↦ route_queue codec h q t'
  ]

  -- The outer loop, from interface `n` on, for `k` more.
  unfoldable pub route_from : Codec D → Header D → ℕ → ℕ → Router D → Option (Router D)
  route_from codec h n zero t = some t
  route_from codec h n (suc k) t =
      elim (route_queue codec h (queue_at t.interfaces n)
        (record t { interfaces = empty_at t.interfaces n })) [
          | none ↦ none
          | some t' ↦ route_from codec h (n + 1) k t'
        ]

  unfoldable pub route : Codec D → Header D → Router D → Option (Router D)
  route codec h t = route_from codec h 0 (length t.interfaces) t

  -- `AsyncNetworkInterface::recv_frame`.
  unfoldable pub receive : Codec D → AsyncInterface D → EthernetFrame → Option (AsyncInterface D)
  receive codec i frame = elim (NetworkInterface.recv_frame codec i.interface frame) [
    | none ↦ none
    | some (interface, dgram) ↦ some (record {
      interface = interface;
      datagrams_out = elim dgram [ none ↦ i.datagrams_out | some d ↦ i.datagrams_out ++ (d ∷ []) ];
    })
  ]
