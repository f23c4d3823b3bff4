-- ===== src/Router/Tests.antt =====
-- Runs of libsponge/router.cc with a default route and two networks.
use com_net_sponge.Prelude.{ℕ, ◌*◌, ◌+◌, ◌^◌, ◌≡◌, refl, List, [], ◌∷◌, none, some}
use com_net_sponge.Router.{Route, mask, matches, best_loop}

abbrev route_to : ℕ → ℕ → Route
route_to route_prefix prefix_length = record {
  route_prefix = route_prefix;
  prefix_length = prefix_length;
  next_hop = none;
  interface_num = 0;
}

-- 0.0.0.0/0, 10.0.0.0/8 and 10.1.0.0/16.
abbrev table : List Route
table = route_to 0 0 ∷ route_to (10 * 2 ^ 24) 8 ∷ route_to (10 * 2 ^ 24 + 2 ^ 16) 16 ∷ []

eight_bits : best_loop (10 * 2 ^ 24 + 7) table none ≡ some (route_to (10 * 2 ^ 24) 8)
unfolding best_loop matches mask
eight_bits = refl
