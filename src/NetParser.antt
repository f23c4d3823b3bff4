-- ===== src/NetParser.antt =====
-- libsponge/util/parser.hh and parser.cc: integers in network byte order are read from a buffer and
-- written to a string. A parser that has met an error reads zeros and stays where it is.
pub mod Reads
mod Tests
use com_net_sponge.Prelude.{
  ℕ, zero, suc, ◌+◌, ◌*◌, ◌/◌, ◌%◌, ◌^◌, Bool, true, false, not, ltb, if◌then◌else◌, List, [], ◌∷◌,
  ◌++◌, length, take, replicate, ◌-◌, ◌==◌, Option, none, some,
}
use com_net_sponge.Buffer
use com_net_sponge.Buffer.{Buffer}

pub data ParseResult : Type 0 where
  no_error bad_checksum packet_too_short wrong_ip_version : ParseResult
  header_too_short truncated_packet unsupported : ParseResult

-- `r != ParseResult::NoError`.
abbrev pub is_error : ParseResult → Bool
is_error no_error = false
is_error bad_checksum = true
is_error packet_too_short = true
is_error wrong_ip_version = true
is_error header_too_short = true
is_error truncated_packet = true
is_error unsupported = true

pub record NetParser : Type 0 where
  pub buffer : Buffer
  pub error : ParseResult

-- The constructor.
unfoldable pub new : Buffer → NetParser
new buffer = record { buffer = buffer; error = no_error }

unfoldable pub check_size : NetParser → ℕ → NetParser
check_size p size =
    if ltb (Buffer.size p.buffer) size then record p { error = packet_too_short } else p

-- `_buffer.remove_prefix(n)`, after the check of the size, so that it does not throw.
unfoldable pub advance : NetParser → ℕ → NetParser
advance p n = elim (Buffer.remove_prefix p.buffer n) [
  | none ↦ p
  | some buffer ↦ record p { buffer = buffer }
]

-- The loop of `_parse_int`, on integers of `width` bits.
unfoldable pub parse_loop : ℕ → List ℕ → ℕ → ℕ
parse_loop width [] ret = ret
parse_loop width (byte ∷ bytes) ret =
    parse_loop width bytes (((ret * 256) % 2 ^ width + byte) % 2 ^ width)

unfoldable pub parse_int : NetParser → ℕ → ℕ × NetParser
unfolding parse_loop
parse_int p len =
    let p' : NetParser = check_size p len in
    if is_error p'.error
    then (0, p')
    else (parse_loop (8 * len) (take len (Buffer.str p'.buffer)) 0, advance p' len)

unfoldable pub u32 : NetParser → ℕ × NetParser
u32 p = parse_int p 4

unfoldable pub u16 : NetParser → ℕ × NetParser
u16 p = parse_int p 2

unfoldable pub u8 : NetParser → ℕ × NetParser
u8 p = parse_int p 1

unfoldable pub remove_prefix : NetParser → ℕ → NetParser
remove_prefix p n =
    let p' : NetParser = check_size p n in if is_error p'.error then p' else advance p' n

-- Reads in sequence: each starts where the one before it has left the parser.
abbrev pub Parse : Type 0 → Type 0
Parse A = NetParser → A × NetParser

infixl 5 ◌>>=◌
unfoldable pub ◌>>=◌ : {A B : Type 0} → Parse A → (A → Parse B) → Parse B
◌>>=◌ m f p = let (a, p') = m p in f a p'

-- `return p.get_error();` after the fields were read.
unfoldable pub with_error : {A : Type 0} → A → Parse (A × ParseResult)
with_error a p = ((a, p.error), p)

-- `b & (1 << k)` as a Boolean.
unfoldable pub bit : ℕ → ℕ → Bool
bit b k = (b / 2 ^ k) % 2 == 1

-- `std::string::resize`.
unfoldable pub resize : List ℕ → ℕ → List ℕ
resize s n = take n s ++ replicate (n - length s) 0

-- `NetUnparser::_unparse_int`: the byte at `i` is what is left above `len - i - 1` bytes.
unfoldable pub unparse_int : ℕ → ℕ → List ℕ
unparse_int zero val = []
unparse_int (suc rest) val = ((val / 2 ^ (rest * 8)) % 256) ∷ unparse_int rest val

-- The bytes of an integer that is converted to 32, 16 or 8 bits.
unfoldable pub word32 : ℕ → List ℕ
unfolding unparse_int
word32 val = unparse_int 4 (val % 2 ^ 32)

unfoldable pub word16 : ℕ → List ℕ
unfolding unparse_int
word16 val = unparse_int 2 (val % 2 ^ 16)

unfoldable pub word8 : ℕ → List ℕ
unfolding unparse_int
word8 val = unparse_int 1 (val % 2 ^ 8)

-- `NetUnparser::u32`, `u16` and `u8`, which push them to a string.
unfoldable pub put32 : List ℕ → ℕ → List ℕ
put32 s val = s ++ word32 val

unfoldable pub put16 : List ℕ → ℕ → List ℕ
put16 s val = s ++ word16 val

unfoldable pub put8 : List ℕ → ℕ → List ℕ
put8 s val = s ++ word8 val

-- The loop `for (auto &byte : address) byte = p.u8();`, and its counterpart.
unfoldable pub get_bytes : ℕ → NetParser → List ℕ × NetParser
get_bytes zero p = ([], p)
get_bytes (suc n) p =
    let (byte, p') = u8 p in let (bytes, p'') = get_bytes n p' in (byte ∷ bytes, p'')

unfoldable pub put_bytes : List ℕ → List ℕ → List ℕ
put_bytes s [] = s
put_bytes s (byte ∷ bytes) = put_bytes (put8 s byte) bytes
