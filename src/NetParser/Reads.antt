-- ===== src/NetParser/Reads.antt =====
-- libsponge/util/parser.cc: what was written is read back, and too short a buffer is an error that stays.
use com_net_sponge.Prelude.{
  ℕ, zero, suc, ◌+◌, ◌-◌, ◌*◌, ◌/◌, ◌%◌, ◌^◌, ◌≤◌, ◌<◌, ◌≡◌, ◌⊎◌, refl, sym, ap, subst, ◌∙◌, inl,
  inr, Bool, Bool-cases, true, false, ltb, if◌then◌else◌, List, [], ◌∷◌, ◌++◌, append_assoc,
  append-nil, length, length-append, take, take_all, replicate, drop, Option, none, some, arith,
}
use com_net_sponge.Buffer
use com_net_sponge.Buffer.{Buffer}
use com_net_sponge.Buffer.Laws.{IsBuffer, remove_prefix_lem, of_string-IsBuffer}
use com_net_sponge.NetParser.{
  no_error, is_error, NetParser, new, check_size, advance, parse_loop, parse_int, u32, u16, u8,
  remove_prefix, Parse, ◌>>=◌, resize, with_error, word32, word16, word8, put8, get_bytes,
  put_bytes,
}

-- The parser has met no error, and these bytes are left.
pub record Reads (p : NetParser) (bytes : List ℕ) : Type 0 where
  pub fine : p.error ≡ no_error
  pub left : Buffer.str p.buffer ≡ bytes
  pub sound : IsBuffer p.buffer

pub new-Reads :
    (b : Buffer) (bytes : List ℕ) → Buffer.str b ≡ bytes → IsBuffer b → Reads (new b) bytes
unfolding new
new-Reads b bytes left sound = record { fine = refl; left = left; sound = sound }

pub of_string-Reads :
    (bytes : List ℕ) → length bytes < 2 ^ 64 → Reads (new (Buffer.of_string bytes)) bytes
of_string-Reads bytes h =
    let (left, sound) = of_string-IsBuffer bytes h in
    new-Reads (Buffer.of_string bytes) bytes left sound

pub take_front : (xs ys : List ℕ) → take (length xs) (xs ++ ys) ≡ xs
take_front [] ys = refl
take_front (x ∷ xs) ys = ap (λ r. x ∷ r) (take_front xs ys)

drop_front : (xs ys : List ℕ) → drop (length xs) (xs ++ ys) ≡ ys
drop_front [] ys = refl
drop_front (x ∷ xs) ys = drop_front xs ys

check_size_fits :
    (p : NetParser) (n : ℕ) (bytes : List ℕ) → Reads p bytes → n ≤ length bytes → check_size p n ≡ p
unfolding check_size Buffer.size
check_size_fits p n bytes r h = ground (arith, ap length r.left)

advance-Reads :
    (p : NetParser) (xs rest : List ℕ) → Reads p (xs ++ rest) → Reads (advance p (length xs)) rest
unfolding advance
advance-Reads p xs rest r = elim (remove_prefix_lem p.buffer (length xs) r.sound) [
  | inl (fits, (b', e, bytes, sound)) ↦
      rw (e, advance)
        (record {
          fine = r.fine;
          left = bytes ∙ ap (drop (length xs)) r.left ∙ drop_front xs rest;
          sound = sound;
        })
  | inr (beyond, e) ↦ absurd (omega (arith, ap length r.left, length-append xs rest))
]

parse_int-Reads :
    (p : NetParser) (xs rest : List ℕ)
    → Reads p (xs ++ rest)
    → (parse_int p (length xs) ≡ (parse_loop (8 * length xs) xs 0, advance p (length xs)))
      × Reads (advance p (length xs)) rest
unfolding parse_int
parse_int-Reads p xs rest r = (
  rw
      (
        check_size_fits p (length xs) (xs ++ rest) r (omega (arith, length-append xs rest)),
        r.fine,
        r.left,
        take_front xs rest,
      )
      refl,
  advance-Reads p xs rest r,
)

-- A read that returns `v` and leaves `rest`.
abbrev pub Returns : ℕ × NetParser → ℕ → List ℕ → Type 0
Returns result v rest = (p' : NetParser) × (result ≡ (v, p')) × Reads p' rest

returns :
    (p : NetParser) (xs rest : List ℕ) (v : ℕ)
    → parse_loop (8 * length xs) xs 0 ≡ v
    → Reads p (xs ++ rest)
    → Returns (parse_int p (length xs)) v rest
returns p xs rest v e r =
    let (read, after) = parse_int-Reads p xs rest r in
    (advance p (length xs), read ∙ ap (λ n. (n, advance p (length xs))) e, after)

-- A read, and what follows it.
pub read_next :
    {A B : Type 0} (m : Parse A) (f : A → Parse B) {p p' : NetParser} {a : A}
    → m p ≡ (a, p')
    → (m >>= f) p ≡ f a p'
unfolding ◌>>=◌
read_next m f e = ap (λ r. f r.0 r.1) e

pub with_error_lem :
    {A : Type 0} (a : A) (p : NetParser) (rest : List ℕ)
    → Reads p rest
    → with_error a p ≡ ((a, no_error), p)
unfolding with_error
with_error_lem a p rest r = ap (λ e. ((a, e), p)) r.fine

pub length-word32 : (v : ℕ) → length (word32 v) ≡ 4
unfolding word32
length-word32 v = refl

pub length-word16 : (v : ℕ) → length (word16 v) ≡ 2
unfolding word16
length-word16 v = refl

pub length-word8 : (v : ℕ) → length (word8 v) ≡ 1
unfolding word8
length-word8 v = refl

value32 : (v : ℕ) → v < 2 ^ 32 → parse_loop 32 (word32 v) 0 ≡ v
unfolding parse_int word32
value32 v h = omega arith

value16 : (v : ℕ) → v < 2 ^ 16 → parse_loop 16 (word16 v) 0 ≡ v
unfolding parse_int word16
value16 v h = omega arith

value8 : (v : ℕ) → v < 2 ^ 8 → parse_loop 8 (word8 v) 0 ≡ v
unfolding parse_int word8
value8 v h = omega arith

-- What `NetUnparser` writes of a number in range is read back by `NetParser`, with what follows left.
pub u32-word32 :
    (p : NetParser) (v : ℕ) (rest : List ℕ)
    → v < 2 ^ 32
    → Reads p (word32 v ++ rest)
    → Returns (u32 p) v rest
unfolding u32 word32
u32-word32 p v rest h r = returns p (word32 v) rest v (value32 v h) r

pub u16-word16 :
    (p : NetParser) (v : ℕ) (rest : List ℕ)
    → v < 2 ^ 16
    → Reads p (word16 v ++ rest)
    → Returns (u16 p) v rest
unfolding u16 word16
u16-word16 p v rest h r = returns p (word16 v) rest v (value16 v h) r

pub u8-word8 :
    (p : NetParser) (v : ℕ) (rest : List ℕ)
    → v < 2 ^ 8
    → Reads p (word8 v ++ rest)
    → Returns (u8 p) v rest
unfolding u8 word8
u8-word8 p v rest h r = returns p (word8 v) rest v (value8 v h) r

remove_prefix-advance :
    (p : NetParser) (n : ℕ)
    → check_size p n ≡ p
    → p.error ≡ no_error
    → remove_prefix p n ≡ advance p n
unfolding remove_prefix
remove_prefix-advance p n e fine = ground arith

pub remove_prefix-Reads :
    (p : NetParser) (xs rest : List ℕ)
    → Reads p (xs ++ rest)
    → Reads (remove_prefix p (length xs)) rest
remove_prefix-Reads p xs rest r =
    let fits : length xs ≤ length (xs ++ rest) = omega (arith, length-append xs rest) in
    rw
      (remove_prefix-advance p (length xs) (check_size_fits p (length xs) (xs ++ rest) r fits)
        r.fine)
      (advance-Reads p xs rest r)

pub ruleset lengths = (length-append, length-word32, length-word16, length-word8)

pub resize_lem : (s : List ℕ) (n : ℕ) → length s ≤ n → resize s n ≡ s ++ replicate (n - length s) 0
unfolding resize
resize_lem s n h = rw (take_all n s h)

-- All numbers are bytes.
abbrev pub AllBytes : List ℕ → Type 0
AllBytes [] = 0 ≤ 0
AllBytes (x ∷ xs) = (x < 256) × AllBytes xs

word8_lem : (v : ℕ) → v < 2 ^ 8 → word8 v ≡ v ∷ []
unfolding word8
word8_lem v h = ap (λ n. n ∷ []) (omega arith)

pub put_bytes_lem : (s bytes : List ℕ) → AllBytes bytes → put_bytes s bytes ≡ s ++ bytes
unfolding put_bytes put8
put_bytes_lem s [] h = sym (append-nil s)
put_bytes_lem s (x ∷ bytes) h =
    rw (word8_lem x h.0) (put_bytes_lem (s ++ (x ∷ [])) bytes h.1 ∙ append_assoc s (x ∷ []) bytes)

pub get_bytes_lem :
    (p : NetParser) (bytes rest : List ℕ)
    → AllBytes bytes
    → Reads p (bytes ++ rest)
    → (p' : NetParser) × (get_bytes (length bytes) p ≡ (bytes, p')) × Reads p' rest
unfolding get_bytes
get_bytes_lem p [] rest h r = (p, refl, r)
get_bytes_lem p (x ∷ bytes) rest h r =
    let (p1, e1, r1) = u8-word8 p x (bytes ++ rest) h.0 (rw (word8_lem x h.0) r) in
    let (p2, e2, r2) = get_bytes_lem p1 bytes rest h.1 r1 in (p2, rw (e1, e2) refl, r2)

-- Too short a buffer: zero is returned and the error is noted, with the buffer as it was. A parser that
-- has an error returns zero, keeps an error and its buffer, whatever is read.
pub parse_int_fails :
    (p : NetParser) (len : ℕ)
    → (is_error p.error ≡ true) ⊎ (length (Buffer.str p.buffer) < len)
    → ((parse_int p len).0 ≡ 0)
      × ((parse_int p len).1.buffer ≡ p.buffer)
      × (is_error (parse_int p len).1.error ≡ true)
unfolding parse_int check_size Buffer.size
parse_int_fails p len (inl h) = ground arith
parse_int_fails p len (inr h) = ground arith
