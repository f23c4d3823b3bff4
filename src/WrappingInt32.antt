-- ===== src/WrappingInt32.antt =====
-- libsponge/wrapping_integers.hh and wrapping_integers.cc: sequence numbers modulo 2 ^ 32.
-- A `WrappingInt32` is its raw value, a number below 2 ^ 32.
pub mod Unwrap
mod Tests
use com_net_sponge.Prelude.{
  ℕ, ◌+◌, ◌-◌, ◌*◌, ◌/◌, ◌%◌, ◌^◌, Bool, ◌&&◌, ltb, leb, ◌==◌, if◌then◌else◌,
}
use com_net_sponge.Prelude.Words.{add32, sub32, add64, sub64, mul64}

abbrev pub WrappingInt32 : Type 0
WrappingInt32 = ℕ

-- `operator+(WrappingInt32, uint32_t)`.
unfoldable pub plus : WrappingInt32 → ℕ → WrappingInt32
plus a b = add32 a b

-- `operator-(WrappingInt32, uint32_t)`, which adds the negated number of steps.
unfoldable pub back : WrappingInt32 → ℕ → WrappingInt32
unfolding plus
back a b = plus a (sub32 0 b)

-- `operator-(WrappingInt32, WrappingInt32)`: the bit pattern of the `int32_t` that it returns.
unfoldable pub distance : WrappingInt32 → WrappingInt32 → ℕ
distance a b = sub32 a b

unfoldable pub wrap : ℕ → WrappingInt32 → WrappingInt32
unfolding plus
wrap n isn = plus isn (n % 2 ^ 32)

-- `WRAP_MOD`.
abbrev pub wrap_mod : ℕ
wrap_mod = 2 ^ 32

-- The distance of a candidate from the checkpoint, on `uint64_t`.
abbrev pub gap : ℕ → ℕ → ℕ
gap candidate checkpoint =
    if ltb checkpoint candidate then sub64 candidate checkpoint else sub64 checkpoint candidate

unfoldable pub unwrap : WrappingInt32 → WrappingInt32 → ℕ → ℕ
unwrap n isn checkpoint =
    let offset : ℕ = sub32 n isn in
    let wraps : ℕ = checkpoint / wrap_mod in
    let base : ℕ = add64 (mul64 wraps wrap_mod) offset in
    let prev : ℕ = if ltb 0 wraps then add64 (mul64 (sub64 wraps 1) wrap_mod) offset else offset in
    let next : ℕ = add64 (mul64 (add64 wraps 1) wrap_mod) offset in
    let d0 : ℕ = gap base checkpoint in
    let d1 : ℕ = gap prev checkpoint in
    let d2 : ℕ = gap next checkpoint in
    if leb d0 d1 && leb d0 d2 then base else if leb d1 d2 then prev else next
