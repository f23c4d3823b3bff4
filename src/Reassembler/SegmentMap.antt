-- ===== src/Reassembler/SegmentMap.antt =====
-- The `std::map<size_t, std::string>` of libsponge/stream_reassembler.hh: a list sorted by index.
-- An iterator is the key of the node that it points to; `none` is `end()`.
use com_net_sponge.Prelude.{
  ℕ, ◌+◌, List, [], ◌∷◌, Option, none, some, ltb, ◌==◌, length, if◌then◌else◌,
}

abbrev pub Segment : Type 0
Segment = ℕ × List ℕ

abbrev pub Segments : Type 0
Segments = List Segment

-- `begin()`.
unfoldable pub begin : Segments → Option ℕ
begin [] = none
begin ((k, d) ∷ m) = some k

-- `find(key)`, and the string that the iterator points to.
unfoldable pub find : ℕ → Segments → Option (List ℕ)
find i [] = none
find i ((k, d) ∷ m) = if k == i then some d else find i m

-- The iterator after the one with key `i`: the first key above it.
unfoldable pub next : ℕ → Segments → Option ℕ
next i [] = none
next i ((k, d) ∷ m) = if ltb i k then some k else next i m

-- `erase(it)`.
unfoldable pub erase : ℕ → Segments → Segments
erase i [] = []
erase i ((k, d) ∷ m) = if k == i then m else (k, d) ∷ erase i m

-- `insert({i, bytes})`, which keeps a node that is already there.
unfoldable pub insert : ℕ → List ℕ → Segments → Segments
insert i bytes [] = (i, bytes) ∷ []
insert i bytes ((k, d) ∷ m) =
    if ltb i k
    then (i, bytes) ∷ (k, d) ∷ m
    else if k == i
    then (k, d) ∷ m
    else (k, d) ∷ insert i bytes m

-- The stored bytes.
unfoldable pub total : Segments → ℕ
total [] = 0
total ((k, d) ∷ m) = length d + total m
