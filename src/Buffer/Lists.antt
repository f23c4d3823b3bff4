-- ===== src/Buffer/Lists.antt =====
-- libsponge/util/buffer.cc: lists of buffers against the bytes that `concatenate` gives.
use com_net_sponge.Prelude.{
  ℕ, zero, suc, ◌+◌, ◌-◌, ◌≤◌, ◌<◌, ◌^◌, ◌≡◌, ◌⊎◌, refl, sym, ap, ◌∙◌, inl, inr, Bool-cases, ltb,
  ◌==◌, List, [], ◌∷◌, ◌++◌, map, append-nil, append_assoc, length, length-append, drop, drop_all,
  Option, none, some, arith,
}
use mathlib.Core.Path.{ap₂}
use com_net_sponge.Prelude.Words.{add64, sub64}
use com_net_sponge.Buffer.{
  Buffer, BufferList, BufferViewList, of_string, str, size, append, concatenate_loop, concatenate,
  size_loop, list_size, remove_list_prefix, views_loop, of_buffers, remove_view_prefix,
}
use com_net_sponge.Buffer.Laws.{IsBuffer, remove_prefix_lem}

-- The bytes of a list of buffers, and of a list of views.
abbrev pub flat : List (List ℕ) → List ℕ
flat [] = []
flat (v ∷ vs) = v ++ flat vs

abbrev pub shows : BufferList → List (List ℕ)
shows bs = map str bs

abbrev pub AllBuffers : BufferList → Type 0
AllBuffers [] = 0 ≤ 0
AllBuffers (b ∷ bs) = IsBuffer b × AllBuffers bs

concatenate_loop_lem :
    (bs : BufferList) (ret : List ℕ) → concatenate_loop bs ret ≡ ret ++ flat (shows bs)
unfolding concatenate_loop
concatenate_loop_lem [] ret = sym (append-nil ret)
concatenate_loop_lem (b ∷ bs) ret =
    concatenate_loop_lem bs (ret ++ str b) ∙ append_assoc ret (str b) (flat (shows bs))

pub concatenate_lem : (bs : BufferList) → concatenate bs ≡ flat (shows bs)
unfolding concatenate
concatenate_lem bs = concatenate_loop_lem bs []

append_lem : (bs other : BufferList) → append bs other ≡ bs ++ other
unfolding append
append_lem bs [] = sym (append-nil bs)
append_lem bs (b ∷ other) = append_lem (bs ++ (b ∷ [])) other ∙ append_assoc bs (b ∷ []) other

flat-append :
    (bs other : BufferList) → flat (shows (bs ++ other)) ≡ flat (shows bs) ++ flat (shows other)
flat-append [] other = refl
flat-append (b ∷ bs) other =
    ap (λ r. str b ++ r) (flat-append bs other)
    ∙ sym (append_assoc (str b) (flat (shows bs)) (flat (shows other)))

-- Appending a list of buffers appends its bytes.
pub concatenate-append :
    (bs other : BufferList) → concatenate (append bs other) ≡ concatenate bs ++ concatenate other
concatenate-append bs other =
    ap concatenate (append_lem bs other)
    ∙ concatenate_lem (bs ++ other)
    ∙ flat-append bs other
    ∙ ap₂ (λ x y. x ++ y) (sym (concatenate_lem bs)) (sym (concatenate_lem other))

pub concatenate-of_string : (bytes : List ℕ) → concatenate (of_string bytes ∷ []) ≡ bytes
unfolding concatenate of_string str
concatenate-of_string bytes = refl

pub concatenate_one : (b : Buffer) → concatenate (b ∷ []) ≡ str b
unfolding concatenate
concatenate_one b = refl

-- A header's bytes before a payload.
pub concatenate_parts :
    (bytes : List ℕ) (bs : BufferList)
    → concatenate (append (append [] (of_string bytes ∷ [])) bs) ≡ bytes ++ concatenate bs
unfolding concatenate
concatenate_parts bytes bs =
    concatenate-append (append [] (of_string bytes ∷ [])) bs
    ∙ ap (λ r. r ++ concatenate bs)
        (concatenate-append [] (of_string bytes ∷ []) ∙ concatenate-of_string bytes)

size_loop_lem :
    (bs : BufferList) (ret : ℕ)
    → ret + length (flat (shows bs)) < 2 ^ 64
    → size_loop bs ret ≡ ret + length (flat (shows bs))
unfolding size_loop size
size_loop_lem [] ret h = omega arith
size_loop_lem (b ∷ bs) ret h =
    let e : add64 ret (length (str b)) ≡ ret + length (str b) =
      omega (arith, length-append (str b) (flat (shows bs))) in
    rw e (
      omega (
        arith,
        length-append (str b) (flat (shows bs)),
        size_loop_lem bs (ret + length (str b))
            (omega (arith, length-append (str b) (flat (shows bs)))),
      ))

-- `size` is the number of bytes that `concatenate` gives.
pub list_size_lem :
    (bs : BufferList) → length (concatenate bs) < 2 ^ 64 → list_size bs ≡ length (concatenate bs)
unfolding list_size
list_size_lem bs h = omega (
  arith,
  ap length (concatenate_lem bs),
  size_loop_lem bs 0 (omega (arith, ap length (concatenate_lem bs))),
)

views_loop_lem :
    (bs : BufferList) (views : BufferViewList) → views_loop bs views ≡ views ++ shows bs
unfolding views_loop
views_loop_lem [] views = sym (append-nil views)
views_loop_lem (b ∷ bs) views =
    views_loop_lem bs (views ++ (str b ∷ [])) ∙ append_assoc views (str b ∷ []) (shows bs)

of_buffers_lem : (bs : BufferList) → of_buffers bs ≡ shows bs
unfolding of_buffers
of_buffers_lem bs = views_loop_lem bs []

drop_past : (xs ys : List ℕ) (n : ℕ) → length xs ≤ n → drop n (xs ++ ys) ≡ drop (n - length xs) ys
drop_past [] ys n h = ap (λ k. drop k ys) (omega arith)
drop_past (x ∷ xs) ys zero h = absurd (omega arith)
drop_past (x ∷ xs) ys (suc n) h =
    drop_past xs ys n (omega arith) ∙ ap (λ k. drop k ys) (omega arith)

drop_within : (xs ys : List ℕ) (n : ℕ) → n ≤ length xs → drop n (xs ++ ys) ≡ drop n xs ++ ys
drop_within xs ys zero h = refl
drop_within [] ys (suc n) h = absurd (omega arith)
drop_within (x ∷ xs) ys (suc n) h = drop_within xs ys n (omega arith)

-- What removing `n` bytes from a list with `bytes` leaves, or that there are too few.
abbrev pub Removed : List ℕ → ℕ → Option BufferList → Type 0
Removed bytes n result =
    ((n ≤ length bytes)
      × ((bs : BufferList) × (result ≡ some bs) × (flat (shows bs) ≡ drop n bytes) × AllBuffers bs))
    ⊎ ((length bytes < n) × (result ≡ none))

remove_list_prefix-flat :
    (bs : BufferList) (n : ℕ)
    → AllBuffers bs
    → n < 2 ^ 64
    → Removed (flat (shows bs)) n (remove_list_prefix bs n)
unfolding remove_list_prefix size
remove_list_prefix-flat [] n v h = elim (Bool-cases (n == 0)) [
  | inl none_left ↦
      inl (ground arith, ([], rw none_left, sym (drop_all n [] (omega arith)), omega arith))
  | inr more ↦ inr (ground arith, rw more)
]
remove_list_prefix-flat (b ∷ bs) n v h = elim (Bool-cases (n == 0)) [
  | inl none_left ↦
      let e : n ≡ 0 = ground arith in rw e (inl (omega arith, (b ∷ bs, refl, refl, v)))
  | inr more ↦ rw more (elim (Bool-cases (ltb n (size b))) [
    | inl here ↦ rw here (elim (remove_prefix_lem b n v.0) [
      | inl (fits, (b', e, bytes, sound)) ↦ rw e (
          inl (
            omega (arith, length-append (str b) (flat (shows bs))),
            (
              b' ∷ bs,
              refl,
              ap (λ x. x ++ flat (shows bs)) bytes
                  ∙ sym (drop_within (str b) (flat (shows bs)) n fits),
              (sound, v.1),
            ),
          ))
      | inr (beyond, e) ↦ absurd (ground arith)
    ])
    | inr on ↦
        let past : length (str b) ≤ n = ground arith in
        let e : sub64 n (size b) ≡ n - length (str b) = ground arith in
        rw (on, e)
          (elim (remove_list_prefix-flat bs (n - length (str b)) v.1 (omega arith)) [
            | inl (fits, (bs', e', bytes, sound)) ↦ inl (
              omega (arith, length-append (str b) (flat (shows bs))),
              (bs', e', bytes ∙ sym (drop_past (str b) (flat (shows bs)) n past), sound),
            )
            | inr (beyond, e') ↦ inr (omega (arith, length-append (str b) (flat (shows bs))), e')
          ])
  ])
]

-- `BufferList::remove_prefix` removes the first `n` bytes of the list when it has so many, across the
-- borders of its buffers, and throws otherwise.
pub remove_list_prefix_lem :
    (bs : BufferList) (n : ℕ)
    → AllBuffers bs
    → n < 2 ^ 64
    → ((n ≤ length (concatenate bs))
        × ((bs' : BufferList) × (remove_list_prefix bs n ≡ some bs')
            × (concatenate bs' ≡ drop n (concatenate bs))
            × AllBuffers bs'))
      ⊎ ((length (concatenate bs) < n) × (remove_list_prefix bs n ≡ none))
remove_list_prefix_lem bs n v h = rw (concatenate_lem bs) (elim (remove_list_prefix-flat bs n v h) [
  | inl (fits, (bs', e, bytes, sound)) ↦ inl (fits, (bs', e, concatenate_lem bs' ∙ bytes, sound))
  | inr other ↦ inr other
])

-- The views that a result shows.
abbrev pub viewed : Option BufferList → Option BufferViewList
viewed none = none
viewed (some bs) = some (shows bs)

remove_view_prefix-shows :
    (bs : BufferList) (n : ℕ)
    → AllBuffers bs
    → viewed (remove_list_prefix bs n) ≡ remove_view_prefix (shows bs) n
unfolding remove_list_prefix remove_view_prefix size
remove_view_prefix-shows [] n v = ground arith
remove_view_prefix-shows (b ∷ bs) n v = elim (Bool-cases (n == 0)) [
  | inl none_left ↦ rw none_left
  | inr more ↦ rw more (elim (Bool-cases (ltb n (length (str b)))) [
    | inl here ↦ rw here (elim (remove_prefix_lem b n v.0) [
      | inl (fits, (b', e, bytes, sound)) ↦ rw e (ap (λ x. some (x ∷ shows bs)) bytes)
      | inr (beyond, e) ↦ absurd (ground arith)
    ])
    | inr on ↦ rw on (remove_view_prefix-shows bs (sub64 n (length (str b))) v.1)
  ])
]

-- Removing a prefix from the views of a list of buffers gives the views of what is left of the list, and
-- throws exactly when that does.
pub remove_view_prefix_lem :
    (bs : BufferList) (n : ℕ)
    → AllBuffers bs
    → viewed (remove_list_prefix bs n) ≡ remove_view_prefix (of_buffers bs) n
remove_view_prefix_lem bs n v = rw (of_buffers_lem bs) (remove_view_prefix-shows bs n v)
