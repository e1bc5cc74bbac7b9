-- ===== src/Prelude/Reads.antt =====
-- The results of the parsers: a value, a refusal that the caller sees (`false`, an error code), or
-- a fault, which is a read outside the buffer and undefined in C.
use Prim.Native.Nat.{ℕ, ◌+◌, ◌≤◌, ◌<◌}
use mathlib.Core.Path.{◌≡◌, refl}
use mathlib.Core.List.{List, ◌++◌}
use mathlib.Core.Option.{Option, none, some}
use native.Mathlib.Omega.{arith}
use tinyrtc.Prelude.Lists.{length, get_elem?, get_elem?-some, get_elem?-append_right}
use tinyrtc.Prelude.Word.{be16, be24, be32}

pub data Outcome {ℓ} (A : Type ℓ) : Type ℓ where
  done : A → Outcome A
  refused : Outcome A
  fault : Outcome A

infixl 5 ◌>>=◌
abbrev pub ◌>>=◌ {ℓ κ} : {A : Type ℓ} {B : Type κ} → Outcome A → (A → Outcome B) → Outcome B
done a >>= f = f a
refused >>= f = refused
fault >>= f = fault

-- What the caller of a parser sees, where no fault happens.
abbrev pub to_option {ℓ} : {A : Type ℓ} → Outcome A → Option A
to_option (done a) = some a
to_option refused = none
to_option fault = none

-- `p[i]`
unfoldable pub read : List ℕ → ℕ → Outcome ℕ
read p i = elim (get_elem? p i) [ none ↦ fault | some b ↦ done b ]

unfoldable pub read16 : List ℕ → ℕ → Outcome ℕ
read16 p i = do a ← read p i; b ← read p (i + 1); done (be16 a b)

unfoldable pub read24 : List ℕ → ℕ → Outcome ℕ
read24 p i = do a ← read p i; b ← read p (i + 1); c ← read p (i + 2); done (be24 a b c)

unfoldable pub read32 : List ℕ → ℕ → Outcome ℕ
read32 p i = do
  a ← read p i
  b ← read p (i + 1)
  c ← read p (i + 2)
  d ← read p (i + 3)
  done (be32 a b c d)

-- Reads inside the buffer succeed.
pub read-done : (p : List ℕ) (i : ℕ) → i < length p → (b : ℕ) × (read p i ≡ done b)
unfolding read
read-done p i h = let (b, e) = get_elem?-some p i h in (b, rw (e, read))

pub read16-done : (p : List ℕ) (i : ℕ) → i + 2 ≤ length p → (w : ℕ) × (read16 p i ≡ done w)
read16-done p i h =
    let (a, ea) = read-done p i (omega arith) in
    let (b, eb) = read-done p (i + 1) (omega arith) in (be16 a b, unfold read16 in rw (ea, eb))

pub read24-done : (p : List ℕ) (i : ℕ) → i + 3 ≤ length p → (w : ℕ) × (read24 p i ≡ done w)
read24-done p i h =
    let (a, ea) = read-done p i (omega arith) in
    let (b, eb) = read-done p (i + 1) (omega arith) in
    let (c, ec) = read-done p (i + 2) (omega arith) in
    (be24 a b c, unfold read24 in rw (ea, eb, ec))

pub read32-done : (p : List ℕ) (i : ℕ) → i + 4 ≤ length p → (w : ℕ) × (read32 p i ≡ done w)
read32-done p i h =
    let (a, ea) = read-done p i (omega arith) in
    let (b, eb) = read-done p (i + 1) (omega arith) in
    let (c, ec) = read-done p (i + 2) (omega arith) in
    let (d, ed) = read-done p (i + 3) (omega arith) in
    (be32 a b c d, unfold read32 in rw (ea, eb, ec, ed))

-- A read behind a first part.
pub read-append : (xs ys : List ℕ) (i j : ℕ) → length xs + j ≡ i → read (xs ++ ys) i ≡ read ys j
unfolding read
read-append xs ys i j h = rw (get_elem?-append_right xs ys i j h, read)

pub read24-append :
    (xs ys : List ℕ) (i j : ℕ) → length xs + j ≡ i → read24 (xs ++ ys) i ≡ read24 ys j
unfolding read24
read24-append xs ys i j h = rw (
  read-append xs ys i j h,
  read-append xs ys (i + 1) (j + 1) (omega arith),
  read-append xs ys (i + 2) (j + 2) (omega arith),
)

pub read32-append :
    (xs ys : List ℕ) (i j : ℕ) → length xs + j ≡ i → read32 (xs ++ ys) i ≡ read32 ys j
unfolding read32
read32-append xs ys i j h = rw (
  read-append xs ys i j h,
  read-append xs ys (i + 1) (j + 1) (omega arith),
  read-append xs ys (i + 2) (j + 2) (omega arith),
  read-append xs ys (i + 3) (j + 3) (omega arith),
)

-- A chain that succeeds has a first step that does.
pub >>=-done {ℓ κ} :
    {A : Type ℓ} {B : Type κ} (m : Outcome A) (f : A → Outcome B) {b : B}
    → (m >>= f) ≡ done b
    → (a : A) × (m ≡ done a) × (f a ≡ done b)
>>=-done (done a) f h = (a, refl, h)
>>=-done refused f h = cc
>>=-done fault f h = cc

-- To prove something of a chain that succeeds, prove it of what follows the first step.
pub >>=-elim {ℓ κ μ} :
    {A : Type ℓ} {B : Type κ} {P : Type μ} (m : Outcome A) (f : A → Outcome B) {b : B}
    → (m >>= f) ≡ done b
    → ((a : A) → m ≡ done a → f a ≡ done b → P)
    → P
>>=-elim (done a) f h k = k a refl h
>>=-elim refused f h k = absurd (cc)
>>=-elim fault f h k = absurd (cc)
