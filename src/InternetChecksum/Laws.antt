-- ===== src/InternetChecksum/Laws.antt =====
-- libsponge/util/util.cc: the Internet checksum against the sum of 16-bit words of RFC 1071.
use com_net_sponge.Prelude.{
  ℕ, zero, suc, ◌+◌, ◌*◌, ◌%◌, ◌^◌, ◌≤◌, ◌<◌, ◌≡◌, ◌≢◌, ◌↔◌, refl, ap, ◌∙◌, inl, inr, Bool,
  Bool-cases, true, false, not, ltb, if◌then◌else◌, List, [], ◌∷◌, ◌++◌, length, replicate, arith,
}
use com_net_sponge.NetParser.{word32, word16, word8}
use com_net_sponge.NetParser.Reads.{AllBytes}
use com_net_sponge.InternetChecksum.{InternetChecksum, new, add_byte, add, fold, value}

-- The sum of the 16-bit words of the bytes, which start in the middle of a word if the flag is set.
abbrev pub weight : Bool → List ℕ → ℕ
weight odd [] = 0
weight odd (byte ∷ bytes) = (if odd then byte else byte * 256) + weight (not odd) bytes

-- Whether the bytes end in the middle of a word.
abbrev pub flips : Bool → List ℕ → Bool
flips odd [] = odd
flips odd (byte ∷ bytes) = flips (not odd) bytes

pub flips-append : (odd : Bool) (xs ys : List ℕ) → flips odd (xs ++ ys) ≡ flips (flips odd xs) ys
flips-append odd [] ys = refl
flips-append odd (x ∷ xs) ys = flips-append (not odd) xs ys

pub weight-append :
    (odd : Bool) (xs ys : List ℕ) → weight odd (xs ++ ys) ≡ weight odd xs + weight (flips odd xs) ys
weight-append odd [] ys = omega arith
weight-append odd (x ∷ xs) ys = omega (arith, weight-append (not odd) xs ys)

pub weight-word16 :
    (v : ℕ) (ys : List ℕ) → v < 2 ^ 16 → weight false (word16 v ++ ys) ≡ v + weight false ys
unfolding word16
weight-word16 v ys h = omega arith

pub flips-word16 : (odd : Bool) (v : ℕ) (ys : List ℕ) → flips odd (word16 v ++ ys) ≡ flips odd ys
unfolding word16
flips-word16 true v ys = refl
flips-word16 false v ys = refl

pub flips_even : (xs : List ℕ) → length xs % 2 ≡ 0 → flips false xs ≡ false
flips_even [] h = refl
flips_even (x ∷ []) h = absurd (omega arith)
flips_even (x ∷ y ∷ xs) h = flips_even xs (omega arith)

pub add-append : (c : InternetChecksum) (xs ys : List ℕ) → add c (xs ++ ys) ≡ add (add c xs) ys
unfolding add
add-append c [] ys = refl
add-append c (x ∷ xs) ys = add-append (add_byte c x) xs ys

sum_step :
    (c : InternetChecksum) (x : ℕ) (xs : List ℕ) (total : ℕ)
    → total ≡ ((add_byte c x).sum + weight (add_byte c x).parity xs) % 2 ^ 32
    → total ≡ (c.sum + weight c.parity (x ∷ xs)) % 2 ^ 32
unfolding add_byte
sum_step c x xs total h = elim (Bool-cases c.parity) [
  | inl odd ↦ ground arith
  | inr even ↦ ground arith
]

-- The loop of `add` adds the words, modulo 2 ^ 32.
pub sum-add :
    (c : InternetChecksum) (xs : List ℕ)
    → c.sum < 2 ^ 32
    → (add c xs).sum ≡ (c.sum + weight c.parity xs) % 2 ^ 32
unfolding add
sum-add c [] h = omega arith
sum-add c (x ∷ xs) h =
    sum_step c x xs _ (sum-add (add_byte c x) xs (unfold add_byte in omega arith))

-- What two rounds of folding give: 16 bits, zero only for zero, and the same number modulo 65535.
fold_lem :
    (ret : ℕ)
    → ret < 2 ^ 32
    → (fold 2 ret ≤ 65535) × (fold 2 ret % 65535 ≡ ret % 65535) × ((fold 2 ret ≡ 0) ↔ (ret ≡ 0))
unfolding fold
fold_lem ret h = ground arith

-- The loop of `value` ends after two rounds for any 32-bit sum: what they give passes the loop's test, and
-- more rounds would give the same.
pub fold_ends :
    (ret fuel : ℕ)
    → ret < 2 ^ 32
    → (ltb 65535 (fold 2 ret) ≡ false) × (fold (suc (suc fuel)) ret ≡ fold 2 ret)
unfolding fold
fold_ends ret zero h = ground arith
fold_ends ret (suc fuel) h = ground arith

pub value_lem :
    (c : InternetChecksum)
    → c.sum < 2 ^ 32
    → (value c < 2 ^ 16)
      × ((value c + c.sum) % 65535 ≡ 0)
      × (0 < value c + c.sum)
      × ((value c ≡ 0) ↔ ((0 < c.sum) × (c.sum % 65535 ≡ 0)))
unfolding value
value_lem c h = ground (arith, fold_lem c.sum h)

pub value-lt : (c : InternetChecksum) → value c < 2 ^ 16
unfolding value
value-lt c = omega arith

-- The sum over bytes with a word `v` at an even place, if it does not pass 32 bits.
module _ (init : ℕ) (before after : List ℕ) (even : length before % 2 ≡ 0) where
  abbrev pub around : ℕ
  around = init + weight false before + weight false after

  pub sum_word :
      (v : ℕ)
      → v < 2 ^ 16
      → around + v < 2 ^ 32
      → (add (new init) (before ++ (word16 v ++ after))).sum ≡ around + v
  unfolding new
  sum_word v hv h =
      let total : weight false (before ++ (word16 v ++ after))
          ≡ weight false before + (v + weight false after) =
        weight-append false before (word16 v ++ after)
        ∙ rw (flips_even before even)
            (ap (λ n. weight false before + n) (weight-word16 v after hv)) in
      sum-add (new init) (before ++ (word16 v ++ after)) (omega arith) ∙ rw total (omega arith)

  -- The value computed with a zero in the checksum's place verifies when it is put there.
  pub value-fill :
      around + 65535 < 2 ^ 32
      → value (
          add
            (new init)
            (before ++ (word16 (value (add (new init) (before ++ (word16 0 ++ after)))) ++ after)))
        ≡ 0
  value-fill h =
      let c : InternetChecksum = add (new init) (before ++ (word16 0 ++ after)) in
      let e : c.sum ≡ around + 0 = sum_word 0 (omega arith) (omega arith) in
      let (small, cancels, some_bit, zeros) = value_lem c (omega arith) in
      let filled : InternetChecksum = add (new init) (before ++ (word16 (value c) ++ after)) in
      let e' : filled.sum ≡ around + value c = sum_word (value c) small (omega arith) in
      (value_lem filled (omega arith)).3.1 (omega arith, omega arith)

  -- Of two words that differ modulo 65535 at most one passes verification.
  pub change_detected :
      (v w : ℕ)
      → v < 2 ^ 16
      → w < 2 ^ 16
      → around + 65535 < 2 ^ 32
      → v % 65535 ≢ w % 65535
      → value (add (new init) (before ++ (word16 v ++ after))) ≡ 0
      → value (add (new init) (before ++ (word16 w ++ after))) ≢ 0
  change_detected v w hv hw h differ good bad =
      let c : InternetChecksum = add (new init) (before ++ (word16 v ++ after)) in
      let c' : InternetChecksum = add (new init) (before ++ (word16 w ++ after)) in
      let e : c.sum ≡ around + v = sum_word v hv (omega arith) in
      let e' : c'.sum ≡ around + w = sum_word w hw (omega arith) in
      let (_, zero_v) = (value_lem c (omega arith)).3.0 good in
      let (_, zero_w) = (value_lem c' (omega arith)).3.0 bad in differ (omega arith)

pub AllBytes-append : (xs ys : List ℕ) → AllBytes xs → AllBytes ys → AllBytes (xs ++ ys)
AllBytes-append [] ys h k = k
AllBytes-append (x ∷ xs) ys h k = (h.0, AllBytes-append xs ys h.1 k)

pub AllBytes-replicate : (n : ℕ) → AllBytes (replicate n 0)
AllBytes-replicate zero = omega arith
AllBytes-replicate (suc n) = (omega arith, AllBytes-replicate n)

pub AllBytes-word32 : (v : ℕ) → AllBytes (word32 v)
unfolding word32
AllBytes-word32 v = omega arith

pub AllBytes-word16 : (v : ℕ) → AllBytes (word16 v)
unfolding word16
AllBytes-word16 v = omega arith

pub AllBytes-word8 : (v : ℕ) → AllBytes (word8 v)
unfolding word8
AllBytes-word8 v = omega arith

pub weight-le : (odd : Bool) (xs : List ℕ) → AllBytes xs → weight odd xs ≤ 65280 * length xs
weight-le odd [] h = omega arith
weight-le true (x ∷ xs) h = omega (arith, weight-le false xs h.1)
weight-le false (x ∷ xs) h = omega (arith, weight-le true xs h.1)
