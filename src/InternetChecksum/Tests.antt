-- ===== src/InternetChecksum/Tests.antt =====
-- Runs of `InternetChecksum` of libsponge/util/util.cc.
use com_net_sponge.Prelude.{ℕ, ◌+◌, ◌≡◌, refl, List, [], ◌∷◌}
use com_net_sponge.InternetChecksum.{new, add_byte, add, value}

-- The bytes of RFC 1071, whose words sum up to ddf2 with the carries added in.
abbrev rfc_bytes : List ℕ
rfc_bytes = 0x00 ∷ 0x01 ∷ 0xf2 ∷ 0x03 ∷ 0xf4 ∷ 0xf5 ∷ 0xf6 ∷ 0xf7 ∷ []

rfc_value : value (add (new 0) rfc_bytes) + 0xddf2 ≡ 65535
unfolding value add add_byte new
rfc_value = refl

-- Bytes may come in several calls, also cut in the middle of a word.
rfc_in_parts :
    value (add (add (new 0) (0x00 ∷ 0x01 ∷ 0xf2 ∷ [])) (0x03 ∷ 0xf4 ∷ 0xf5 ∷ 0xf6 ∷ 0xf7 ∷ []))
      + 0xddf2
    ≡ 65535
unfolding value add add_byte new
rfc_in_parts = refl
