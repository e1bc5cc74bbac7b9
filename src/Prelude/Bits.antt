-- ===== src/Prelude/Bits.antt =====
-- `|` of disjoint bit fields as a sum, at every width, and facts on single bytes by evaluation.
use Prim.Native.Nat.{
  ℕ, zero, suc, ◌+◌, ◌-◌, ◌*◌, ◌/◌, ◌%◌, ◌^◌, ◌≤◌, ◌<◌, max, differ, bit_or, bit_xor, digits,
  bitwise, bit_or-bitwise, bit_xor-bitwise,
}
use mathlib.Core.Path.{◌≡◌, refl, sym, ap, ◌∙◌}
use mathlib.Core.Bool.{Bool, true, ◌&&◌}
use native.Mathlib.Nat.{le_refl, pow-suc, div-add-mod}
use native.Mathlib.Omega.{arith}

-- A bitwise operation, given by its results at zero and on two digits, recurses on fuel. One round
-- more than needed changes nothing, and so no number of them does.
module _ (at_zero : ℕ → ℕ) (digit : ℕ → ℕ → ℕ) where
  spare_round :
      (b a fuel : ℕ)
      → a ≤ fuel
      → digits at_zero digit (suc fuel) a b ≡ digits at_zero digit fuel a b
  spare_round b zero zero h = refl
  spare_round b zero (suc fuel) h = refl
  spare_round b (suc a) zero h = absurd (omega arith)
  spare_round b (suc a) (suc fuel) h =
      let half : suc a / 2 ≤ fuel = omega arith in rw (spare_round (b / 2) (suc a / 2) fuel half)

  spare_rounds :
      (b a fuel extra : ℕ)
      → a ≤ fuel
      → digits at_zero digit (extra + fuel) a b ≡ digits at_zero digit fuel a b
  spare_rounds b a fuel zero h = ap (λ n. digits at_zero digit n a b) (omega arith)
  spare_rounds b a fuel (suc extra) h =
      let sum : suc extra + fuel ≡ suc (extra + fuel) = omega arith in
      rw sum (spare_round b a (extra + fuel) (omega arith) ∙ spare_rounds b a fuel extra h)

  -- The lowest digit and the others.
  low_digit :
      (b a : ℕ)
      → bitwise at_zero digit (suc a) b
        ≡ digit (suc a % 2) (b % 2) + 2 * bitwise at_zero digit (suc a / 2) (b / 2)
  low_digit b a =
      let half = suc a / 2 in
      let split : a ≡ (a - half) + half = omega arith in
      omega (
        arith,
        ap (λ n. digits at_zero digit n half (b / 2)) split,
        spare_rounds (b / 2) half half (a - half) (omega arith),
      )

-- The same for `|` and exclusive or.
bit_or_low : (b a : ℕ) → bit_or a b ≡ max (a % 2) (b % 2) + 2 * bit_or (a / 2) (b / 2)
bit_or_low b (suc n) = simp bit_or-bitwise (low_digit (λ y. y) max b n)
bit_or_low b zero = simp bit_or-bitwise (omega arith)

bit_xor_low : (b a : ℕ) → bit_xor a b ≡ differ (a % 2) (b % 2) + 2 * bit_xor (a / 2) (b / 2)
bit_xor_low b (suc n) = simp bit_xor-bitwise (low_digit (λ y. y) differ b n)
bit_xor_low b zero = simp bit_xor-bitwise (omega arith)

bit_or-zero_fuel : (n a : ℕ) → a ≤ n → bit_or a 0 ≡ a
bit_or-zero_fuel n zero h = refl
bit_or-zero_fuel zero (suc a) h = absurd (omega arith)
bit_or-zero_fuel (suc n) (suc a) h =
    omega (arith, bit_or_low 0 (suc a), bit_or-zero_fuel n (suc a / 2) (omega arith))

pub bit_or-zero : (a : ℕ) → bit_or a 0 ≡ a
bit_or-zero a = bit_or-zero_fuel a a (le_refl a)

double_pow : (q k : ℕ) → q * 2 ^ suc k ≡ 2 * (q * 2 ^ k)
double_pow q k = omega (arith, ap (λ (t : ℕ). q * t) (pow-suc 2 k))

-- `(q << k) | r` is a sum where `r` fits `k` bits.
pub bit_or-shift : (k q r : ℕ) → r < 2 ^ k → bit_or (q * 2 ^ k) r ≡ q * 2 ^ k + r
bit_or-shift zero q r fits = ground (arith, bit_or-zero q)
bit_or-shift (suc k) q r fits =
    ground
      (arith, bit_or_low r (q * 2 ^ suc k), double_pow q k, bit_or-shift k q (r / 2) (omega arith))

differ_digits : (x y : ℕ) → x < 2 → y < 2 → (differ x y < 2) × (differ (differ x y) y ≡ x)
differ_digits zero zero p q = omega arith
differ_digits zero (suc zero) p q = omega arith
differ_digits (suc zero) zero p q = omega arith
differ_digits (suc zero) (suc zero) p q = omega arith
differ_digits (suc (suc x)) y p q = absurd (omega arith)
differ_digits zero (suc (suc y)) p q = absurd (omega arith)
differ_digits (suc zero) (suc (suc y)) p q = absurd (omega arith)

bit_xor_digits :
    (a b : ℕ)
    → (bit_xor a b / 2 ≡ bit_xor (a / 2) (b / 2)) × (bit_xor a b % 2 ≡ differ (a % 2) (b % 2))
bit_xor_digits a b =
    omega (arith, bit_xor_low b a, differ_digits (a % 2) (b % 2) (omega arith) (omega arith))

bit_xor_cancel_fuel : (n a b : ℕ) → a ≤ n → b ≤ n → bit_xor (bit_xor a b) b ≡ a
bit_xor_cancel_fuel zero zero zero p q = refl
bit_xor_cancel_fuel zero (suc a) b p q = absurd (omega arith)
bit_xor_cancel_fuel zero zero (suc b) p q = absurd (omega arith)
bit_xor_cancel_fuel (suc n) a b p q =
    bit_xor_low b (bit_xor a b)
    ∙ rw ((bit_xor_digits a b).0, (bit_xor_digits a b).1)
        (omega (
          arith,
          bit_xor_cancel_fuel n (a / 2) (b / 2) (omega arith) (omega arith),
          differ_digits (a % 2) (b % 2) (omega arith) (omega arith),
        ))

-- Exclusive or by the same number twice changes nothing.
pub bit_xor_cancel : (a b : ℕ) → bit_xor (bit_xor a b) b ≡ a
bit_xor_cancel a b = bit_xor_cancel_fuel (a + b) a b (omega arith) (omega arith)

-- Exclusive or stays within the width of its operands.
pub bit_xor-lt : (k a b : ℕ) → a < 2 ^ k → b < 2 ^ k → bit_xor a b < 2 ^ k
bit_xor-lt zero zero zero p q = omega arith
bit_xor-lt zero (suc a) b p q = absurd (omega arith)
bit_xor-lt zero zero (suc b) p q = absurd (omega arith)
bit_xor-lt (suc k) a b p q = omega (
  arith,
  pow-suc 2 k,
  bit_xor_low b a,
  differ_digits (a % 2) (b % 2) (omega arith) (omega arith),
  bit_xor-lt k (a / 2) (b / 2) (omega (arith, pow-suc 2 k)) (omega (arith, pow-suc 2 k)),
)

-- Facts on small numbers, by evaluation of all of them.
unfoldable pub all_below : ℕ → (ℕ → Bool) → Bool
all_below zero test = true
all_below (suc bound) test = all_below bound test && test bound

pub all_below_sound :
    (bound : ℕ) (test : ℕ → Bool)
    → all_below bound test ≡ true
    → (x : ℕ) → x < bound
    → test x ≡ true
unfolding all_below
all_below_sound zero test all x small = absurd (omega arith)
all_below_sound (suc bound) test all x small = grind (arith, all_below_sound bound test)

-- `a | r` is a sum where `r` lies below the digits of `a`.
pub bit_or-disjoint : (k a r : ℕ) → a % 2 ^ k ≡ 0 → r < 2 ^ k → bit_or a r ≡ a + r
bit_or-disjoint k a r z fits =
    let e : a ≡ a / 2 ^ k * 2 ^ k = grind (arith, div-add-mod a (2 ^ k)) in
    rw e (bit_or-shift k (a / 2 ^ k) r fits)

zero-bit_or : (b : ℕ) → bit_or 0 b ≡ b
zero-bit_or b = simp bit_or-bitwise

pub zero-bit_xor : (b : ℕ) → bit_xor 0 b ≡ b
zero-bit_xor b = simp bit_xor-bitwise

bit_or-parts_fuel : (n a b : ℕ) → a ≤ n → b ≤ n → bit_or a b ≡ 0 → (a ≡ 0) × (b ≡ 0)
bit_or-parts_fuel zero a b p q e = omega arith
bit_or-parts_fuel (suc n) zero b p q e = (refl, sym (zero-bit_or b) ∙ e)
bit_or-parts_fuel (suc n) (suc a) b p q e =
    let step = bit_or_low b (suc a) in
    let high : bit_or (suc a / 2) (b / 2) ≡ 0 = omega arith in
    let low : max (suc a % 2) (b % 2) ≡ 0 = omega arith in
    let (c, d) = bit_or-parts_fuel n (suc a / 2) (b / 2) (omega arith) (omega arith) high in
    omega arith

-- `|` is zero where both operands are.
pub bit_or-parts : (a b : ℕ) → bit_or a b ≡ 0 → (a ≡ 0) × (b ≡ 0)
bit_or-parts a b e = bit_or-parts_fuel (a + b) a b (omega arith) (omega arith) e
