-- ===== src/WrappingInt32/Tests.antt =====
-- Runs of libsponge/wrapping_integers.cc around the wrap of the 32-bit number.
use com_net_sponge.Prelude.{◌+◌, ◌≤◌, ◌<◌, ◌≡◌, ◌-◌, ◌^◌, refl, arith}
use com_net_sponge.WrappingInt32.{wrap, unwrap}
use com_net_sponge.WrappingInt32.Unwrap.{apart, unwrap_closest}

second_round : unwrap 1 0 (2 ^ 32) ≡ 2 ^ 32 + 1
unfolding unwrap
second_round = refl

unwrap_closest_example :
    (wrap (unwrap 3 9 (2 ^ 33)) 9 ≡ 3)
    × (unwrap 3 9 (2 ^ 33) < 2 ^ 64)
    × (apart (unwrap 3 9 (2 ^ 33)) (2 ^ 33) ≤ apart (2 ^ 32 - 6) (2 ^ 33))
unfolding wrap
unwrap_closest_example =
    unwrap_closest 3 9 (2 ^ 33) (2 ^ 32 - 6) (omega arith) (omega arith) (omega arith) (omega arith)
      refl
