-- ===== src/InternetChecksum.antt =====
-- libsponge/util/util.hh and util.cc: the class `InternetChecksum`.
pub mod Laws
mod Tests
use com_net_sponge.Prelude.{
  ℕ, zero, suc, ◌+◌, ◌-◌, ◌*◌, ◌/◌, ◌%◌, Bool, true, false, not, ltb, if◌then◌else◌, List, [], ◌∷◌,
}
use com_net_sponge.Prelude.Words.{add32}

pub record InternetChecksum : Type 0 where
  pub sum : ℕ
  pub parity : Bool

-- The constructor.
unfoldable pub new : ℕ → InternetChecksum
new initial_sum = record { sum = initial_sum; parity = false }

-- A round of the loop of `add`.
unfoldable pub add_byte : InternetChecksum → ℕ → InternetChecksum
add_byte c byte = record {
  sum = add32 c.sum (if not c.parity then byte * 256 else byte);
  parity = not c.parity;
}

unfoldable pub add : InternetChecksum → List ℕ → InternetChecksum
add c [] = c
add c (byte ∷ bytes) = add (add_byte c byte) bytes

-- The loop of `value`, on fuel. Two rounds bring 32 bits down to 16.
unfoldable pub fold : ℕ → ℕ → ℕ
fold zero ret = ret
fold (suc fuel) ret =
    let rest = fold fuel (ret / 65536 + ret % 65536) in if ltb 65535 ret then rest else ret

-- `~ret` as 16 bits.
unfoldable pub value : InternetChecksum → ℕ
unfolding fold
value c = 65535 - fold 2 c.sum
