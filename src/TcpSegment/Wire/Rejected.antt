-- ===== src/TcpSegment/Wire/Rejected.antt =====
-- libsponge/tcp_helpers/tcp_segment.cc: which segments are rejected, and which are not.
use com_net_sponge.Prelude.{
  ℕ, ◌+◌, ◌%◌, ◌^◌, ◌<◌, ◌≡◌, ◌≢◌, ◌⊎◌, inl, inr, refl, Bool-cases, false, ◌==◌, List, ◌++◌, length,
  length-append, arith,
}
use com_net_sponge.Buffer
use com_net_sponge.Buffer.Laws.{of_string-IsBuffer}
use com_net_sponge.InternetChecksum
use com_net_sponge.InternetChecksum.Laws.{weight, weight-le, change_detected}
use com_net_sponge.NetParser
use com_net_sponge.NetParser.{header_too_short, ParseResult, no_error, bad_checksum, word16}
use com_net_sponge.NetParser.Reads.{of_string-Reads, AllBytes, length-word16}
use com_net_sponge.TcpSegment.{TcpHeader}
use com_net_sponge.TcpSegment.Wire.Header.{FieldsFit, fixed, length-fixed, parse_header_short}
use com_net_sponge.TcpSegment.Wire.RoundTrip.{parse_verified}
use com_net_sponge.TcpSegment.Wire.{parse}

-- The value that `parse` looks at.
abbrev pub verified : ℕ → List ℕ → ℕ
verified init bytes =
    InternetChecksum.value (InternetChecksum.add (InternetChecksum.new init) bytes)

parse_checks :
    (bytes : List ℕ) (init : ℕ)
    → length bytes < 2 ^ 64
    → (((parse (Buffer.of_string bytes) init).1 ≡ bad_checksum) × (verified init bytes ≢ 0))
      ⊎ (verified init bytes ≡ 0)
unfolding parse
parse_checks bytes init h =
    let (start, sound) = of_string-IsBuffer bytes h in
    elim (Bool-cases (verified init bytes == 0)) [
      | inl zeros ↦ inr (ground arith)
      | inr other ↦ inl (rw (start, other) refl, ground arith)
    ]

rejects :
    (bytes : List ℕ) (init : ℕ)
    → length bytes < 2 ^ 64
    → verified init bytes ≢ 0
    → (parse (Buffer.of_string bytes) init).1 ≡ bad_checksum
rejects bytes init h bad = elim (parse_checks bytes init h) [
  | inl (result, _) ↦ result
  | inr zeros ↦ absurd (bad zeros)
]

accepts :
    (bytes : List ℕ) (init : ℕ)
    → length bytes < 2 ^ 64
    → (parse (Buffer.of_string bytes) init).1 ≡ no_error
    → verified init bytes ≡ 0
accepts bytes init h fine = elim (parse_checks bytes init h) [
  | inl (result, _) ↦ cc
  | inr zeros ↦ zeros
]

-- Where the bytes of a segment were parsed with no error and one 16-bit word of them is replaced by a
-- word that differs modulo 65535, the result is `BadChecksum`.
pub changed_word_rejected :
    (init v w : ℕ) (before after : List ℕ)
    → init < 2 ^ 23
    → v < 2 ^ 16
    → w < 2 ^ 16
    → v % 65535 ≢ w % 65535
    → length before % 2 ≡ 0
    → length before + length after + 2 < 2 ^ 16
    → AllBytes before
    → AllBytes after
    → (parse (Buffer.of_string (before ++ (word16 v ++ after))) init).1 ≡ no_error
    → (parse (Buffer.of_string (before ++ (word16 w ++ after))) init).1 ≡ bad_checksum
changed_word_rejected init v w before after small hv hw differ even short first last fine =
    let total : (x : ℕ)
        → length (before ++ (word16 x ++ after)) ≡ length before + (2 + length after) =
      λ x. simp (length-append, length-word16) in
    let room : init + weight false before + weight false after + 65535 < 2 ^ 32 =
      omega (arith, weight-le false before first, weight-le false after last) in
    rejects (before ++ (word16 w ++ after)) init (omega (arith, total w)) (
      change_detected init before after even v w hv hw room differ
        (accepts (before ++ (word16 v ++ after)) init (omega (arith, total v)) fine))

-- A header whose data offset is less than its own length is not rejected, if its checksum verifies: the
-- segment is parsed with no error, and all that follows the fixed part is its payload.
pub short_offset_accepted :
    (h : TcpHeader) (init : ℕ) (payload : List ℕ)
    → FieldsFit h
    → h.doff < 5
    → length payload < 2 ^ 16
    → verified init (fixed h payload) ≡ 0
    → parse (Buffer.of_string (fixed h payload)) init
      ≡ (record { header = h; payload = payload }, no_error)
short_offset_accepted h init payload v short len good =
    let long : length (fixed h payload) < 2 ^ 64 = omega (arith, length-fixed h payload) in
    let (start, sound) = of_string-IsBuffer (fixed h payload) long in
    let (p, read, after) =
      parse_header_short h (NetParser.new (Buffer.of_string (fixed h payload))) payload v short
        (of_string-Reads (fixed h payload) long) in
    parse_verified (Buffer.of_string (fixed h payload)) init h header_too_short p payload
      (rw start good) read after
