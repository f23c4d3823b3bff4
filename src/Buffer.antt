-- ===== src/Buffer.antt =====
-- libsponge/util/buffer.hh and buffer.cc: strings that lose bytes from the front without a copy. `none` is
-- `std::out_of_range` or `std::runtime_error`.
pub mod Laws
pub mod Lists
mod Tests
use com_net_sponge.Prelude.{
  ℕ, ◌+◌, ◌-◌, Bool, true, false, ltb, ◌==◌, if◌then◌else◌, List, [], ◌∷◌, ◌++◌, length, drop,
  get_elem?, Option, none, some,
}
use com_net_sponge.Prelude.Words.{add64, sub64}

-- `class Buffer`; what is shared through the pointer is never written.
pub record Buffer : Type 0 where
  pub storage : Option (List ℕ)
  pub starting_offset : ℕ

abbrev pub empty_buffer : Buffer
empty_buffer = record { storage = none; starting_offset = 0 }

-- The constructor from a string.
unfoldable pub of_string : List ℕ → Buffer
of_string bytes = record { storage = some bytes; starting_offset = 0 }

unfoldable pub str : Buffer → List ℕ
str b = elim b.storage [ none ↦ [] | some bytes ↦ drop b.starting_offset bytes ]

-- `at(n)`, which throws out of range.
unfoldable pub at : Buffer → ℕ → Option ℕ
unfolding str
at b n = get_elem? (str b) n

unfoldable pub size : Buffer → ℕ
unfolding str
size b = length (str b)

-- The storage is given up when nothing of it is left.
unfoldable pub release : Option (List ℕ) → ℕ → Option (List ℕ)
release none offset = none
release (some bytes) offset = if offset == length bytes then none else some bytes

unfoldable pub remove_prefix : Buffer → ℕ → Option Buffer
unfolding size release
remove_prefix b n =
    let offset : ℕ = add64 b.starting_offset n in
    if ltb (size b) n
    then none
    else some (record { storage = release b.storage offset; starting_offset = offset })

-- `class BufferList`, the front buffer first.
abbrev pub BufferList : Type 0
BufferList = List Buffer

-- The loop of `append`.
unfoldable pub append : BufferList → BufferList → BufferList
append bs [] = bs
append bs (b ∷ other) = append (bs ++ (b ∷ [])) other

-- `operator Buffer`.
unfoldable pub to_buffer : BufferList → Option Buffer
to_buffer [] = some empty_buffer
to_buffer (b ∷ []) = some b
to_buffer (b ∷ b' ∷ bs) = none

-- The loops of `concatenate` and `size`.
unfoldable pub concatenate_loop : BufferList → List ℕ → List ℕ
concatenate_loop [] ret = ret
concatenate_loop (b ∷ bs) ret = concatenate_loop bs (ret ++ str b)

unfoldable pub concatenate : BufferList → List ℕ
unfolding concatenate_loop
concatenate bs = concatenate_loop bs []

unfoldable pub size_loop : BufferList → ℕ → ℕ
size_loop [] ret = ret
size_loop (b ∷ bs) ret = size_loop bs (add64 ret (size b))

unfoldable pub list_size : BufferList → ℕ
unfolding size_loop
list_size bs = size_loop bs 0

-- `BufferList::remove_prefix`: the loop over the buffers that are left.
unfoldable pub remove_list_prefix : BufferList → ℕ → Option BufferList
remove_list_prefix [] n = if n == 0 then some [] else none
remove_list_prefix (b ∷ bs) n =
    let next = remove_list_prefix bs (sub64 n (size b)) in
    let cut : Option BufferList = elim (remove_prefix b n) [
      | none ↦ none
      | some b' ↦ some (b' ∷ bs)
    ] in
    if n == 0 then some (b ∷ bs) else if ltb n (size b) then cut else next

-- `class BufferViewList`: views are the bytes that they show.
abbrev pub BufferViewList : Type 0
BufferViewList = List (List ℕ)

-- The loop of the constructor from a `BufferList`.
unfoldable pub views_loop : BufferList → BufferViewList → BufferViewList
views_loop [] views = views
views_loop (b ∷ bs) views = views_loop bs (views ++ (str b ∷ []))

unfoldable pub of_buffers : BufferList → BufferViewList
unfolding views_loop
of_buffers bs = views_loop bs []

unfoldable pub remove_view_prefix : BufferViewList → ℕ → Option BufferViewList
remove_view_prefix [] n = if n == 0 then some [] else none
remove_view_prefix (v ∷ vs) n =
    let next = remove_view_prefix vs (sub64 n (length v)) in
    if n == 0 then some (v ∷ vs) else if ltb n (length v) then some (drop n v ∷ vs) else next

unfoldable pub view_size_loop : BufferViewList → ℕ → ℕ
view_size_loop [] ret = ret
view_size_loop (v ∷ vs) ret = view_size_loop vs (add64 ret (length v))

unfoldable pub view_size : BufferViewList → ℕ
unfolding view_size_loop
view_size vs = view_size_loop vs 0
