-- ===== src/Reassembler/Content.antt =====
-- What it means for bytes, and for the segments of libsponge/stream_reassembler.cc, to be excerpts of
-- one stream: `f i` is the byte at index `i`, and `size` the length of the stream.
use com_net_sponge.Prelude.{
  ℕ, zero, suc, ◌+◌, ◌≤◌, ◌<◌, ◌^◌, ◌≡◌, ◌⊎◌, subst, List, [], ◌∷◌, ◌++◌, length, take, drop, arith,
}
use com_net_sponge.Prelude.Words.{add64}
use com_net_sponge.Reassembler.SegmentMap.{Segments, total}
use com_net_sponge.Reassembler.{sum_sizes}

module _ (f : ℕ → ℕ) where
  abbrev pub Agrees : ℕ → List ℕ → Type 0
  Agrees i [] = Unit {0}
  Agrees i (x ∷ xs) = (x ≡ f i) × Agrees (i + 1) xs

  pub Agrees-take : (n i : ℕ) (xs : List ℕ) → Agrees i xs → Agrees i (take n xs)
  Agrees-take zero i xs h = tt
  Agrees-take (suc n) i [] h = tt
  Agrees-take (suc n) i (x ∷ xs) h = (h.0, Agrees-take n (i + 1) xs h.1)

  pub Agrees-drop : (n i j : ℕ) (xs : List ℕ) → i + n ≡ j → Agrees i xs → Agrees j (drop n xs)
  Agrees-drop zero i j xs e h = let e' : i ≡ j = omega arith in subst (λ k. Agrees k xs) e' h
  Agrees-drop (suc n) i j [] e h = tt
  Agrees-drop (suc n) i j (x ∷ xs) e h = Agrees-drop n (i + 1) j xs (omega arith) h.1

  pub Agrees-append :
      (i j : ℕ) (xs ys : List ℕ)
      → i + length xs ≡ j
      → Agrees i xs
      → Agrees j ys
      → Agrees i (xs ++ ys)
  Agrees-append i j [] ys e h k = let e' : j ≡ i = omega arith in subst (λ n. Agrees n ys) e' k
  Agrees-append i j (x ∷ xs) ys e h k = (h.0, Agrees-append (i + 1) j xs ys (omega arith) h.1 k)

  pub Agrees-split :
      (i : ℕ) (xs ys : List ℕ) → Agrees i (xs ++ ys) → Agrees i xs × Agrees (i + length xs) ys
  Agrees-split i [] ys h = let e : i ≡ i + 0 = omega arith in (tt, subst (λ k. Agrees k ys) e h)
  Agrees-split i (x ∷ xs) ys h =
      let (a, b) = Agrees-split (i + 1) xs ys h.1 in
      let e : i + 1 + length xs ≡ i + suc (length xs) = omega arith in
      ((h.0, a), subst (λ k. Agrees k ys) e b)

  module _ (size : ℕ) where
    -- Sorted, disjoint, non-empty excerpts of the stream, from index `lo` on.
    abbrev pub Good : ℕ → Segments → Type 0
    Good lo [] = Unit {0}
    Good lo ((k, d) ∷ m) =
        (lo ≤ k) × (0 < length d) × (k + length d ≤ size) × Agrees k d × Good (k + length d) m

    pub Good-weaken : (lo hi : ℕ) (m : Segments) → lo ≤ hi → Good hi m → Good lo m
    Good-weaken lo hi [] le h = tt
    Good-weaken lo hi ((k, d) ∷ m) le h = (omega arith, h.1, h.2, h.3, h.4)

    -- As `Good`, with the indices from `a` up to `b` free.
    abbrev pub Gap : ℕ → ℕ → ℕ → Segments → Type 0
    Gap a b lo [] = lo ≤ a
    Gap a b lo ((k, d) ∷ m) =
        ((lo ≤ k)
          × (k + length d ≤ a)
          × (0 < length d)
          × (k + length d ≤ size)
          × Agrees k d
          × Gap a b (k + length d) m)
        ⊎ ((lo ≤ a) × Good b ((k, d) ∷ m))

-- Without overflow the loop of `unassembled_bytes` is a sum.
pub sum_sizes_lem :
    (m : Segments) (acc : ℕ) → acc + total m < 2 ^ 64 → sum_sizes m acc ≡ acc + total m
unfolding sum_sizes total
sum_sizes_lem [] acc h = omega arith
sum_sizes_lem ((k, d) ∷ m) acc h =
    let e : add64 acc (length d) ≡ acc + length d = omega arith in
    rw e (omega (arith, sum_sizes_lem m (acc + length d) (omega arith)))
