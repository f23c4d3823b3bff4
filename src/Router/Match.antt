-- ===== src/Router/Match.antt =====
-- libsponge/router.cc: the route that is chosen is the longest match.
use com_net_sponge.Prelude.{ℕ, ◌≤◌, ◌≡◌, ◌⊎◌, true, false, List, [], ◌∷◌}
use com_net_sponge.Router.{Route, matches}

-- `r` is one of the routes.
abbrev pub IsRoute : Route → List Route → Type 0
IsRoute r [] = true ≡ false
IsRoute r (r' ∷ rs) = (r ≡ r') ⊎ IsRoute r rs

-- Every matching route has a prefix of at most `n` bits.
abbrev pub NoneLonger : ℕ → ℕ → List Route → Type 0
NoneLonger dst n [] = 0 ≤ 0
NoneLonger dst n (r ∷ rs) = ((matches dst r ≡ false) ⊎ (r.prefix_length ≤ n)) × NoneLonger dst n rs

-- No route matches.
abbrev pub NoMatch : ℕ → List Route → Type 0
NoMatch dst [] = 0 ≤ 0
NoMatch dst (r ∷ rs) = (matches dst r ≡ false) × NoMatch dst rs
