-- ===== src/WrappingInt32/Unwrap.antt =====
-- libsponge/wrapping_integers.cc: `unwrap` against its documented contract, and the step operators.
use com_net_sponge.Prelude.{ℕ, ◌+◌, ◌-◌, ◌^◌, ◌≤◌, ◌<◌, ◌≡◌, arith}
use com_net_sponge.WrappingInt32.{plus, back, distance, wrap, unwrap}

-- How far apart two absolute sequence numbers are.
abbrev pub apart : ℕ → ℕ → ℕ
apart a b = (a - b) + (b - a)

wrap-unwrap :
    (n isn c : ℕ)
    → n < 2 ^ 32
    → isn < 2 ^ 32
    → c < 2 ^ 64
    → (wrap (unwrap n isn c) isn ≡ n) × (unwrap n isn c < 2 ^ 64)
unfolding wrap unwrap
wrap-unwrap n isn c hn hi hc = ground arith

unwrap_nearest :
    (n isn c m : ℕ)
    → n < 2 ^ 32
    → isn < 2 ^ 32
    → c < 2 ^ 64
    → m < 2 ^ 64
    → wrap m isn ≡ n
    → apart (unwrap n isn c) c ≤ apart m c
unfolding wrap unwrap
unwrap_nearest n isn c m hn hi hc hm e = ground arith

-- `unwrap` returns a 64-bit number that wraps to `n`, and of all of those one that is closest to the
-- checkpoint: any other, `m`, is at least as far from it.
pub unwrap_closest :
    (n isn c m : ℕ)
    → n < 2 ^ 32
    → isn < 2 ^ 32
    → c < 2 ^ 64
    → m < 2 ^ 64
    → wrap m isn ≡ n
    → (wrap (unwrap n isn c) isn ≡ n)
      × (unwrap n isn c < 2 ^ 64)
      × (apart (unwrap n isn c) c ≤ apart m c)
unwrap_closest n isn c m hn hi hc hm e =
    let (wraps, small) = wrap-unwrap n isn c hn hi hc in
    (wraps, small, unwrap_nearest n isn c m hn hi hc hm e)

-- A number less than 2 ^ 31 away from the checkpoint is recovered exactly from its wrapped form.
pub unwrap-wrap :
    (x isn c : ℕ)
    → x < 2 ^ 64
    → isn < 2 ^ 32
    → c < 2 ^ 64
    → x < c + 2 ^ 31
    → c < x + 2 ^ 31
    → unwrap (wrap x isn) isn c ≡ x
unfolding wrap unwrap
unwrap-wrap x isn c hx hi hc above below = ground arith

-- Steps forward and back cancel, adding steps to a wrapped number wraps the sum, and the distance
-- between two wrapped numbers is the difference of the absolute ones, modulo 2 ^ 32.
pub wrap_steps :
    (x k isn : ℕ)
    → isn < 2 ^ 32
    → k < 2 ^ 32
    → (plus (wrap x isn) k ≡ wrap (x + k) isn)
      × (back (plus (wrap x isn) k) k ≡ wrap x isn)
      × (distance (wrap (x + k) isn) (wrap x isn) ≡ k)
unfolding wrap plus back distance
wrap_steps x k isn hi hk = (omega arith, omega arith, omega arith)
