-- ===== src/NetParser/Tests.antt =====
-- Runs of libsponge/util/parser.cc.
use com_net_sponge.Prelude.{◌≡◌, refl, [], ◌∷◌}
use com_net_sponge.Buffer
use com_net_sponge.NetParser.{packet_too_short, new, check_size, u32, u16, word32, parse_int}

-- The most significant byte comes first.
word32_bytes : word32 0x12345678 ≡ 0x12 ∷ 0x34 ∷ 0x56 ∷ 0x78 ∷ []
unfolding word32
word32_bytes = refl

read_back : (u16 (new (Buffer.of_string (0x12 ∷ 0x34 ∷ 9 ∷ [])))).0 ≡ 0x1234
unfolding u16 parse_int new check_size Buffer.of_string Buffer.size Buffer.str
read_back = refl

-- An integer that is not there: zero, and the error is noted.
too_short : (u32 (new (Buffer.of_string (1 ∷ 2 ∷ 3 ∷ [])))).1.error ≡ packet_too_short
unfolding u32 parse_int new check_size Buffer.of_string Buffer.size Buffer.str
too_short = refl
