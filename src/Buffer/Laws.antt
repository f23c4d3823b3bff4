-- ===== src/Buffer/Laws.antt =====
-- libsponge/util/buffer.cc: a buffer against the bytes that it shows.
use com_net_sponge.Prelude.{
  ℕ, zero, suc, ◌+◌, ◌≤◌, ◌<◌, ◌^◌, ◌≡◌, ◌⊎◌, refl, sym, ap, ◌∙◌, inl, inr, Bool-cases, ltb, ◌==◌,
  List, [], ◌∷◌, length, length-drop, drop, drop_all, Option, none, some, arith,
}
use com_net_sponge.Prelude.Words.{add64}
use com_net_sponge.Buffer.{Buffer, of_string, str, size, release, remove_prefix}

-- The offset does not pass the end of the string, which fits a `size_t`.
abbrev pub IsSound : Option (List ℕ) → ℕ → Type 0
IsSound none offset = 0 ≤ 0
IsSound (some bytes) offset = (offset ≤ length bytes) × (length bytes < 2 ^ 64)

abbrev pub IsBuffer : Buffer → Type 0
IsBuffer b = IsSound b.storage b.starting_offset

drop-drop : (m n : ℕ) (xs : List ℕ) → drop n (drop m xs) ≡ drop (m + n) xs
drop-drop zero n xs = let e : 0 + n ≡ n = omega arith in rw e
drop-drop (suc m) n [] = drop_all n [] (omega arith) ∙ sym (drop_all (suc m + n) [] (omega arith))
drop-drop (suc m) n (x ∷ xs) =
    let e : suc m + n ≡ suc (m + n) = omega arith in rw e (drop-drop m n xs)

shown : Option (List ℕ) → ℕ → List ℕ
shown none offset = []
shown (some bytes) offset = drop offset bytes

str_lem : (b : Buffer) → str b ≡ shown b.storage b.starting_offset
unfolding str shown
str_lem b = ground arith

shown-release :
    (storage : Option (List ℕ)) (offset n : ℕ)
    → IsSound storage offset
    → n ≤ length (shown storage offset)
    → (shown (release storage (add64 offset n)) (add64 offset n) ≡ drop n (shown storage offset))
      × IsSound (release storage (add64 offset n)) (add64 offset n)
unfolding shown release
shown-release none offset n v h = (sym (drop_all n [] (omega arith)), omega arith)
shown-release (some bytes) offset n v h =
    let e : add64 offset n ≡ offset + n = omega (arith, length-drop offset bytes) in
    rw e (elim (Bool-cases (offset + n == length bytes)) [
      | inl last ↦
          rw last (
            sym (drop-drop offset n bytes ∙ drop_all (offset + n) bytes (ground arith)),
            omega arith,
          )
      | inr more ↦
          rw more (sym (drop-drop offset n bytes), omega (arith, v, length-drop offset bytes))
    ])

pub of_string-IsBuffer :
    (bytes : List ℕ)
    → length bytes < 2 ^ 64
    → (str (of_string bytes) ≡ bytes) × IsBuffer (of_string bytes)
unfolding str of_string
of_string-IsBuffer bytes h = (refl, omega arith)

-- `Buffer::remove_prefix` removes the first `n` bytes when there are so many, and throws otherwise.
pub remove_prefix_lem :
    (b : Buffer) (n : ℕ)
    → IsBuffer b
    → ((n ≤ length (str b))
        × ((b' : Buffer) × (remove_prefix b n ≡ some b') × (str b' ≡ drop n (str b)) × IsBuffer b'))
      ⊎ ((length (str b) < n) × (remove_prefix b n ≡ none))
unfolding remove_prefix size
remove_prefix_lem b n v = elim (Bool-cases (ltb (size b) n)) [
  | inl beyond ↦ inr (ground arith, rw beyond)
  | inr within ↦
      let offset : ℕ = add64 b.starting_offset n in
      let b' : Buffer = record { storage = release b.storage offset; starting_offset = offset } in
      let fits : n ≤ length (shown b.storage b.starting_offset) =
        ground (arith, ap length (str_lem b)) in
      let (bytes, sound) = shown-release b.storage b.starting_offset n v fits in
      inl (ground arith, (b', rw within, str_lem b' ∙ bytes ∙ ap (drop n) (sym (str_lem b)), sound))
]
