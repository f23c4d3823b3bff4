-- ===== src/FileDescriptor/Laws.antt =====
-- libsponge/util/file_descriptor.cc: what `read` and `write` do.
use com_net_sponge.Prelude.{
  ℕ, zero, suc, ◌+◌, ◌-◌, ◌^◌, ◌≤◌, ◌<◌, ◌≡◌, ◌⊎◌, refl, sym, ap, ◌∙◌, inl, inr, Bool, true, false,
  Bool-cases, not, ◌&&◌, ltb, ◌==◌, List, [], ◌∷◌, ◌++◌, min, if◌then◌else◌, append-nil,
  append_assoc, length, length-append, length-drop, length-take, take, drop, take-append-drop, none,
  some, arith,
}
use com_net_sponge.Prelude.Words.{add64, sub64}
use com_net_sponge.Buffer.{BufferViewList, remove_view_prefix, view_size_loop, view_size}
use com_net_sponge.Buffer.Lists.{flat}
use com_net_sponge.FileDescriptor.{
  read_failed, register_read, buffer_size, gave, read, FdWrapper, Answer, failed, returned,
  WriteResult, wrote, threw, blocked, register_write, write_loop, write,
}

view_size_loop_lem :
    (vs : BufferViewList) (ret : ℕ)
    → ret + length (flat vs) < 2 ^ 64
    → view_size_loop vs ret ≡ ret + length (flat vs)
unfolding view_size_loop
view_size_loop_lem [] ret b = omega arith
view_size_loop_lem (v ∷ vs) ret b =
    let split = length-append v (flat vs) in
    let here : add64 ret (length v) ≡ ret + length v = omega arith in
    rw here (view_size_loop_lem vs (ret + length v) (omega arith) ∙ (omega arith))

view_size_lem : (vs : BufferViewList) → length (flat vs) < 2 ^ 64 → view_size vs ≡ length (flat vs)
unfolding view_size
view_size_lem vs b = view_size_loop_lem vs 0 (omega arith) ∙ (omega arith)

drop_in : (n : ℕ) (xs ys : List ℕ) → n ≤ length xs → drop n (xs ++ ys) ≡ drop n xs ++ ys
drop_in zero xs ys h = refl
drop_in (suc n) [] ys h = absurd (omega arith)
drop_in (suc n) (x ∷ xs) ys h = drop_in n xs ys (omega arith)

drop_past : (n : ℕ) (xs ys : List ℕ) → length xs ≤ n → drop n (xs ++ ys) ≡ drop (n - length xs) ys
drop_past n [] ys h = ap (λ k. drop k ys) (omega arith)
drop_past zero (x ∷ xs) ys h = absurd (omega arith)
drop_past (suc n) (x ∷ xs) ys h =
    drop_past n xs ys (omega arith) ∙ ap (λ k. drop k ys) (omega arith)

-- The bytes that are left of some views.
remove_view_prefix-flat :
    (vs : BufferViewList) (n : ℕ)
    → n ≤ length (flat vs)
    → n < 2 ^ 64
    → (vs' : BufferViewList) × (remove_view_prefix vs n ≡ some vs') × (flat vs' ≡ drop n (flat vs))
unfolding remove_view_prefix
remove_view_prefix-flat [] n h b = let z : n ≡ 0 = omega arith in rw z ([], refl, refl)
remove_view_prefix-flat (v ∷ vs) n h b =
    let split = length-append v (flat vs) in
    elim (Bool-cases (n == 0)) [
      | inl none_left ↦ let z : n ≡ 0 = ground arith in (v ∷ vs, rw none_left refl, rw z refl)
      | inr more ↦ elim (Bool-cases (ltb n (length v))) [
        | inl here ↦
            (drop n v ∷ vs, rw (more, here) refl, sym (drop_in n v (flat vs) (ground arith)))
        | inr on ↦
            let past : length v ≤ n = ground arith in
            let left : sub64 n (length v) ≡ n - length v = omega arith in
            let (vs', e, rest) =
              remove_view_prefix-flat vs (sub64 n (length v)) (omega arith) (omega arith) in
            (
              vs',
              rw (more, on) e,
              rest ∙ ap (λ k. drop k (flat vs)) left ∙ sym (drop_past n v (flat vs) past),
            )
      ]
    ]

-- The loop may end so: everything is written, or an exception left a part unwritten.
abbrev pub Whole : List ℕ → WriteResult → Type 0
Whole bytes (wrote f sent n) = (sent ≡ bytes) × (n ≡ length bytes)
Whole bytes (threw f sent) = (rest : List ℕ) × (sent ++ rest ≡ bytes)
Whole bytes (blocked f sent) = ⊥

nothing : (xs : List ℕ) → length xs ≡ 0 → xs ≡ []
nothing [] h = refl
nothing (x ∷ xs) h = absurd (omega arith)

-- What the loop does with a number of bytes that the system took.
taken : Bool → List Answer → FdWrapper → BufferViewList → List ℕ → ℕ → WriteResult
unfolding write_loop
taken all answers f views sent total = elim (all && not (view_size views == 0)) [
  | true ↦ write_loop all answers f views sent total
  | false ↦ wrote f sent total
]

taken_done :
    (answers : List Answer) (f : FdWrapper) (views : BufferViewList) (sent : List ℕ) (total : ℕ)
    → (view_size views == 0) ≡ true
    → taken true answers f views sent total ≡ wrote f sent total
unfolding taken
taken_done answers f views sent total e = rw (e, taken) refl

taken_more :
    (answers : List Answer) (f : FdWrapper) (views : BufferViewList) (sent : List ℕ) (total : ℕ)
    → (view_size views == 0) ≡ false
    → taken true answers f views sent total ≡ write_loop true answers f views sent total
unfolding taken
taken_more answers f views sent total e = rw (e, taken) refl

taken_once :
    (answers : List Answer) (f : FdWrapper) (views : BufferViewList) (sent : List ℕ) (total : ℕ)
    → taken false answers f views sent total ≡ wrote f sent total
unfolding taken
taken_once answers f views sent total = refl

-- A call of `writev` either takes a part that is not empty, if there is anything, or ends in an exception.
write_step :
    (all : Bool) (answers : List Answer) (n : ℕ) (f : FdWrapper) (views : BufferViewList)
    (sent : List ℕ) (total : ℕ)
    → length (flat views) < 2 ^ 64
    → (write_loop all (returned n ∷ answers) f views sent total ≡ threw f sent)
      ⊎ ((n ≤ length (flat views))
          × (n ≡ 0 → length (flat views) ≡ 0)
          × ((views' : BufferViewList) × (flat views' ≡ drop n (flat views))
              × (write_loop all (returned n ∷ answers) f views sent total
                  ≡ taken all answers
                      (register_write f)
                      views'
                      (sent ++ take n (flat views))
                      (add64 total n))))
unfolding write_loop taken
write_step all answers n f views sent total b =
    let size = view_size_lem views b in
    elim (Bool-cases ((n == 0) && not (view_size views == 0))) [
      | inl stuck ↦ inl (rw stuck refl)
      | inr moved ↦ elim (Bool-cases (ltb (view_size views) n)) [
        | inl beyond ↦ inl (rw (moved, beyond) refl)
        | inr inside ↦
            let fits : n ≤ length (flat views) = ground arith in
            let (views', e, rest) = remove_view_prefix-flat views n fits (omega arith) in
            inr (fits, λ z. ground arith, (views', rest, rw (moved, inside, e) refl))
      ]
    ]

write_loop-Whole :
    (bytes : List ℕ) (answers : List Answer) (f : FdWrapper) (views : BufferViewList)
    (sent : List ℕ) (total : ℕ)
    → length bytes < 2 ^ 64
    → sent ++ flat views ≡ bytes
    → total ≡ length sent
    → length (flat views) < length answers
    → Whole bytes (write_loop true answers f views sent total)
unfolding write_loop
write_loop-Whole bytes [] f views sent total b whole count enough = absurd (omega arith)
write_loop-Whole bytes (failed errno ∷ answers) f views sent total b whole count enough =
    (flat views, whole)
write_loop-Whole bytes (returned n ∷ answers) f views sent total b whole count enough =
    let parts = ap length whole in
    let split = length-append sent (flat views) in
    elim (write_step true answers n f views sent total (omega arith)) [
      | inl e ↦ rw e (flat views, whole)
      | inr (fits, idle, (views', rest, e)) ↦
          let left : length (flat views') ≡ length (flat views) - n =
            ap length rest ∙ length-drop n (flat views) in
          let size = view_size_lem views' (omega arith) in
          let part = length-append sent (take n (flat views)) in
          let long = length-take n (flat views) in
          let all : (sent ++ take n (flat views)) ++ flat views' ≡ bytes =
            append_assoc sent (take n (flat views)) (flat views')
            ∙ ap (λ r. sent ++ (take n (flat views) ++ r)) rest
            ∙ ap (λ r. sent ++ r) (take-append-drop n (flat views))
            ∙ whole in
          elim (Bool-cases (view_size views' == 0)) [
            | inl done ↦
                let none_left : flat views' ≡ [] = nothing (flat views') (ground arith) in
                rw
                  (
                    e,
                    taken_done answers (register_write f) views' (sent ++ take n (flat views))
                        (add64 total n) done,
                  )
                  (
                    sym (append-nil (sent ++ take n (flat views)))
                        ∙ ap (λ r. (sent ++ take n (flat views)) ++ r) (sym none_left)
                        ∙ all,
                    ground arith,
                  )
            | inr more ↦
                rw
                  (
                    e,
                    taken_more answers (register_write f) views' (sent ++ take n (flat views))
                        (add64 total n) more,
                  )
                  (write_loop-Whole bytes answers (register_write f) views'
                    (sent ++ take n (flat views)) (add64 total n) b all (omega arith)
                    (ground arith))
          ]
    ]

-- With `write_all`, and with more answers of the system than bytes, `write` does not wait for ever: it has
-- written all the bytes and returns their number, or it throws, with a prefix of them written.
pub write-Whole :
    (f : FdWrapper) (bytes : List ℕ) (answers : List Answer)
    → length bytes < 2 ^ 64
    → length bytes < length answers
    → Whole bytes (write f bytes true answers)
unfolding write
write-Whole f bytes answers b enough =
    write_loop-Whole bytes answers f (bytes ∷ []) [] 0 b (append-nil bytes) refl
      (omega (arith, ap length (append-nil bytes)))

-- Without `write_all`, `write` returns after one call of the system, with as many bytes of the front as
-- that took, at least one if there are any.
pub write_once :
    (f : FdWrapper) (bytes : List ℕ) (n : ℕ) (answers : List Answer)
    → length bytes < 2 ^ 64
    → n ≤ length bytes
    → (n ≡ 0 → length bytes ≡ 0)
    → write f bytes false (returned n ∷ answers) ≡ wrote (register_write f) (take n bytes) n
unfolding write
write_once f bytes n answers b fits idle =
    let one : length (flat (bytes ∷ [])) ≡ length bytes = ap length (append-nil bytes) in
    let size = view_size_lem (bytes ∷ []) (omega arith) in
    let (views', e, rest) = remove_view_prefix-flat (bytes ∷ []) n (omega arith) (omega arith) in
    let moved : ((n == 0) && not (view_size (bytes ∷ []) == 0)) ≡ false = ground arith in
    let inside : ltb (view_size (bytes ∷ [])) n ≡ false = ground arith in
    let number : add64 0 n ≡ n = omega arith in
    rw (moved, inside, e)
      (ap (λ r. wrote (register_write f) (take n r) (add64 0 n)) (append-nil bytes)
        ∙ ap (wrote (register_write f) (take n bytes)) number)

-- One call that returns has written a prefix, of the length that it returns.
abbrev pub Sent : List ℕ → WriteResult → Type 0
Sent bytes (wrote f sent n) = (n ≤ length bytes) × (sent ≡ take n bytes)
Sent bytes (threw f sent) = Unit
Sent bytes (blocked f sent) = Unit

pub write-Sent :
    (f : FdWrapper) (bytes : List ℕ) (answer : Answer)
    → length bytes < 2 ^ 64
    → Sent bytes (write f bytes false (answer ∷ []))
unfolding write write_loop
write-Sent f bytes (failed errno) b = tt
write-Sent f bytes (returned n) b =
    let one : length (flat (bytes ∷ [])) ≡ length bytes = ap length (append-nil bytes) in
    elim (write_step false [] n f (bytes ∷ []) [] 0 (omega arith)) [
      | inl e ↦ rw e tt
      | inr (fits, idle, (views', rest, e)) ↦
          let number : add64 0 n ≡ n = omega arith in
          rw (e, taken_once [] (register_write f) views' (take n (flat (bytes ∷ []))) (add64 0 n))
            (
              omega arith,
              ap (λ r. take n r) (append-nil bytes) ∙ ap (λ k. take k bytes) (sym number),
            )
    ]

-- Bytes that were asked for are returned; the end is noted exactly when there are none.
pub read_lem :
    (f : FdWrapper) (limit : ℕ) (bytes : List ℕ)
    → 0 < limit
    → length bytes ≤ min buffer_size limit
    → read f limit (gave bytes)
      ≡ some (register_read (if length bytes == 0 then record f { eof = true } else f), bytes)
unfolding read
read_lem f limit bytes asked given =
    let some_asked : ltb 0 limit ≡ true = ground arith in
    let enough : ltb (min buffer_size limit) (length bytes) ≡ false = ground arith in
    rw (some_asked, enough) refl

-- What is returned is what the system gave, and no more than was asked for.
pub read_gives :
    (f : FdWrapper) (limit : ℕ) (bytes : List ℕ)
    → (read f limit (gave bytes) ≡ none)
      ⊎ ((f' : FdWrapper) × (read f limit (gave bytes) ≡ some (f', bytes))
          × (length bytes ≤ min buffer_size limit))
unfolding read
read_gives f limit bytes = elim (Bool-cases (ltb (min buffer_size limit) (length bytes))) [
  | inl beyond ↦ inl (rw beyond refl)
  | inr inside ↦ inr (
    register_read (if ltb 0 limit && (length bytes == 0) then record f { eof = true } else f),
    rw inside refl,
    ground arith,
  )
]

pub read_fails : (f : FdWrapper) (limit errno : ℕ) → read f limit (read_failed errno) ≡ none
unfolding read
read_fails f limit errno = refl
