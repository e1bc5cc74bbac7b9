-- ===== src/Sdp/Numbers.antt =====
-- The decimal numbers that src/signal/sdp_generator.c prints and src/signal/sdp_parser.c reads.
use tinyrtc.Prelude.{
  ℕ, zero, suc, ◌+◌, ◌*◌, ◌/◌, ◌%◌, ◌^◌, ◌≤◌, ◌<◌, ◌≡◌, inl, inr, refl, sym, ap, ◌∙◌, Bool, true,
  false, List, [], ◌∷◌, ◌++◌, arith, ltb, lt_cases, ltb-true, leb-false, if-true, if-false, length,
  All, Option, none, some, u32,
}
use tinyrtc.Sdp.Text.{
  put_digits, print_unsigned, print_int, read_digits, is_digit, is_space, magnitude, read_sign,
  skip_spaces, strtol, strtoull, long_value, unsigned_value, as_value, parse_int, parse_uint64,
  atoi,
}

-- The text does not go on with a digit.
abbrev pub Ends : List ℕ → Type 0
Ends [] = Unit
Ends (c ∷ cs) = is_digit c ≡ false

digit-IsDigit : (n : ℕ) → is_digit (b'0' + n % 10) ≡ true
unfolding is_digit
digit-IsDigit n = ground arith

read_digits-digit :
    (acc n : ℕ) (out : List ℕ)
    → read_digits acc ((b'0' + n % 10) ∷ out) ≡ read_digits (acc * 10 + n % 10) out
unfolding read_digits
read_digits-digit acc n out =
    if-true _ _ _ (digit-IsDigit n) ∙ ap (λ a. read_digits a out) (omega arith)

-- `10 ^ k`
ten_to : ℕ → ℕ
ten_to zero = 1
ten_to (suc k) = 10 * ten_to k

read_digits-put_digits :
    (fuel n : ℕ) (out : List ℕ)
    → n < ten_to (suc fuel)
    → read_digits 0 (put_digits (suc fuel) n out) ≡ read_digits n out
unfolding put_digits ten_to
read_digits-put_digits zero n out h =
    let t : ltb n 10 ≡ true = ground arith in
    ap (read_digits 0) (if-true _ _ _ t)
    ∙ read_digits-digit 0 n out
    ∙ ap (λ a. read_digits a out) (omega arith)
read_digits-put_digits (suc fuel) n out h = elim (lt_cases n 10) [
  | inl (small, t) ↦
      ap (read_digits 0) (if-true _ _ _ t)
      ∙ read_digits-digit 0 n out
      ∙ ap (λ a. read_digits a out) (omega arith)
  | inr (large, t) ↦
      ap (read_digits 0) (if-false _ _ _ t)
      ∙ read_digits-put_digits fuel (n / 10) ((b'0' + n % 10) ∷ out) (omega arith)
      ∙ read_digits-digit (n / 10) n out
      ∙ ap (λ a. read_digits a out) (omega arith)
]

put_digits-append :
    (fuel n : ℕ) (out rest : List ℕ)
    → put_digits fuel n out ++ rest ≡ put_digits fuel n (out ++ rest)
unfolding put_digits
put_digits-append zero n out rest = refl
put_digits-append (suc fuel) n out rest = elim (lt_cases n 10) [
  | inl (small, t) ↦ ap (λ (x : List ℕ). x ++ rest) (if-true _ _ _ t) ∙ sym (if-true _ _ _ t)
  | inr (large, t) ↦
      ap (λ (x : List ℕ). x ++ rest) (if-false _ _ _ t)
      ∙ put_digits-append fuel (n / 10) _ rest
      ∙ sym (if-false _ _ _ t)
]

-- The characters of a number are digits, and there is at least one.
abbrev pub Digits : List ℕ → Type 0
Digits t = All (λ c. is_digit c ≡ true) t

put_digits-Digits : (fuel n : ℕ) (out : List ℕ) → Digits out → Digits (put_digits fuel n out)
unfolding put_digits
put_digits-Digits zero n out h = h
put_digits-Digits (suc fuel) n out h = elim (lt_cases n 10) [
  | inl (small, t) ↦ rw t (digit-IsDigit n, h)
  | inr (large, t) ↦ rw t (put_digits-Digits fuel (n / 10) _ (digit-IsDigit n, h))
]

length-put_digits :
    (fuel n : ℕ) (out : List ℕ)
    → (length out + 1 ≤ length (put_digits (suc fuel) n out))
      × (length (put_digits (suc fuel) n out) ≤ length out + suc fuel)
unfolding put_digits
length-put_digits zero n out = ground arith
length-put_digits (suc fuel) n out =
    ground (arith, length-put_digits fuel (n / 10) ((b'0' + n % 10) ∷ out))

length-put_digits-below :
    (fuel k n : ℕ) (out : List ℕ)
    → n < ten_to (suc k)
    → length (put_digits fuel n out) ≤ length out + suc k
unfolding put_digits ten_to
length-put_digits-below zero k n out h = omega arith
length-put_digits-below (suc fuel) zero n out h =
    let t : ltb n 10 ≡ true = ground arith in rw t (omega arith)
length-put_digits-below (suc fuel) (suc k) n out h = elim (lt_cases n 10) [
  | inl (small, t) ↦ rw t (omega arith)
  | inr (large, t) ↦
      rw t (
        omega
          (arith, length-put_digits-below fuel k (n / 10) ((b'0' + n % 10) ∷ out) (omega arith)))
]

-- A 32-bit number has at most 10 digits, and a 16-bit number at most 5.
pub length-print_32 : (n : ℕ) → n < 2 ^ 32 → length (print_unsigned n) ≤ 10
unfolding print_unsigned ten_to
length-print_32 n h = length-put_digits-below 20 9 n [] (omega arith)

pub length-print_16 : (n : ℕ) → n < 2 ^ 16 → length (print_unsigned n) ≤ 5
unfolding print_unsigned ten_to
length-print_16 n h = length-put_digits-below 20 4 n [] (omega arith)

pub print_unsigned-Digits : (n : ℕ) → Digits (print_unsigned n)
unfolding print_unsigned
print_unsigned-Digits n = put_digits-Digits 20 n [] tt

pub length-print_unsigned :
    (n : ℕ) → (1 ≤ length (print_unsigned n)) × (length (print_unsigned n) ≤ 20)
unfolding print_unsigned
length-print_unsigned n = length-put_digits 19 n []

read_digits-Ends : (n : ℕ) (rest : List ℕ) → Ends rest → read_digits n rest ≡ (n, rest)
unfolding read_digits
read_digits-Ends n [] h = refl
read_digits-Ends n (c ∷ cs) h = if-false _ _ _ h

read_digits-print_unsigned :
    (n : ℕ) (rest : List ℕ)
    → n < 2 ^ 64
    → Ends rest
    → read_digits 0 (print_unsigned n ++ rest) ≡ (n, rest)
unfolding print_unsigned ten_to
read_digits-print_unsigned n rest h e =
    ap (read_digits 0) (put_digits-append 20 n [] rest)
    ∙ read_digits-put_digits 19 n rest (omega arith)
    ∙ read_digits-Ends n rest e

-- A text of digits has no blank in front and no sign, and its number is what they give.
skip_spaces-Digits :
    (t rest : List ℕ) → Digits t → 1 ≤ length t → skip_spaces (t ++ rest) ≡ t ++ rest
unfolding skip_spaces is_space is_digit
skip_spaces-Digits [] rest h p = absurd (omega arith)
skip_spaces-Digits (c ∷ cs) rest (h, k) p = ground arith

read_sign-Digits :
    (t rest : List ℕ) → Digits t → 1 ≤ length t → read_sign (t ++ rest) ≡ (false, t ++ rest)
unfolding read_sign is_digit
read_sign-Digits [] rest h p = absurd (omega arith)
read_sign-Digits (c ∷ cs) rest (h, k) p = ground arith

magnitude-Digits :
    (t rest : List ℕ)
    → Digits t
    → 1 ≤ length t
    → magnitude (t ++ rest) ≡ some (read_digits 0 (t ++ rest))
unfolding magnitude
magnitude-Digits [] rest h p = absurd (omega arith)
magnitude-Digits (c ∷ cs) rest (h, k) p = if-true _ _ _ h

magnitude-print_unsigned :
    (n : ℕ) (rest : List ℕ)
    → n < 2 ^ 64
    → Ends rest
    → magnitude (read_sign (skip_spaces (print_unsigned n ++ rest))).1 ≡ some (n, rest)
magnitude-print_unsigned n rest h e =
    let d = print_unsigned-Digits n in
    let p = (length-print_unsigned n).0 in
    ap (λ x. magnitude (read_sign x).1) (skip_spaces-Digits _ rest d p)
    ∙ ap (λ (x : Bool × List ℕ). magnitude x.1) (read_sign-Digits _ rest d p)
    ∙ magnitude-Digits _ rest d p
    ∙ ap some (read_digits-print_unsigned n rest h e)

positive : (n : ℕ) (rest : List ℕ) → (read_sign (skip_spaces (print_unsigned n ++ rest))).0 ≡ false
positive n rest =
    let d = print_unsigned-Digits n in
    let p = (length-print_unsigned n).0 in
    ap (λ x. (read_sign x).0) (skip_spaces-Digits _ rest d p)
    ∙ ap (λ (x : Bool × List ℕ). x.0) (read_sign-Digits _ rest d p)

pub strtoull-print_unsigned :
    (n : ℕ) (rest : List ℕ)
    → n < 2 ^ 64
    → Ends rest
    → strtoull (print_unsigned n ++ rest) ≡ some (n, rest)
unfolding strtoull as_value unsigned_value
strtoull-print_unsigned n rest h e =
    ap (as_value _) (magnitude-print_unsigned n rest h e)
    ∙ ap (λ b. some (unsigned_value b n, rest)) (positive n rest)
    ∙ ap (λ m. some (m, rest)) (if-false _ _ _ (leb-false (2 ^ 64) n h))

pub strtol-print_unsigned :
    (n : ℕ) (rest : List ℕ)
    → n < 2 ^ 63
    → Ends rest
    → strtol (print_unsigned n ++ rest) ≡ some (n, rest)
unfolding strtol as_value long_value
strtol-print_unsigned n rest h e =
    ap (as_value _) (magnitude-print_unsigned n rest (omega arith) e)
    ∙ ap (λ b. some (long_value b n, rest)) (positive n rest)
    ∙ ap (λ m. some (m, rest)) (omega arith)

pub print_int-positive : (n : ℕ) → n < 2 ^ 31 → print_int n ≡ print_unsigned n
unfolding print_int
print_int-positive n h = if-true _ _ _ (ltb-true n (2 ^ 31) h)

pub parse_int-print_unsigned :
    (n : ℕ) (rest : List ℕ) → n < 2 ^ 32 → Ends rest → parse_int (print_unsigned n ++ rest) ≡ some n
unfolding parse_int
parse_int-print_unsigned n rest h e =
    ap
      (λ (r : Option (ℕ × List ℕ)). elim r as (λ _. Option ℕ) [
        | none ↦ none
        | some (value, rest) ↦ some (u32 value)
      ])
      (strtol-print_unsigned n rest (omega arith) e)
    ∙ ap some (omega arith)

pub parse_uint64-print_unsigned :
    (n : ℕ) (rest : List ℕ)
    → n < 2 ^ 64
    → Ends rest
    → parse_uint64 (print_unsigned n ++ rest) ≡ some n
unfolding parse_uint64
parse_uint64-print_unsigned n rest h e =
    ap
      (λ (r : Option (ℕ × List ℕ)). elim r as (λ _. Option ℕ) [
        | none ↦ none
        | some (value, rest) ↦ some value
      ])
      (strtoull-print_unsigned n rest h e)

pub atoi-print_unsigned :
    (n : ℕ) (rest : List ℕ) → n < 2 ^ 32 → Ends rest → atoi (print_unsigned n ++ rest) ≡ n
unfolding atoi
atoi-print_unsigned n rest h e =
    ap (λ (r : Option ℕ). elim r as (λ _. ℕ) [ none ↦ 0 | some value ↦ value ])
      (parse_int-print_unsigned n rest h e)
