-- ===== src/Prelude/Word.antt =====
-- Unsigned words of C as native numbers, their shifts, and their bytes in network order.
use Prim.Native.Nat.{ℕ, ◌+◌, ◌*◌, ◌/◌, ◌%◌, ◌^◌, ◌<◌, bit_or}
use mathlib.Core.Path.{◌≡◌, ◌∙◌}
use mathlib.Core.List.{List, [], ◌∷◌}
use native.Mathlib.Omega.{arith}
use tinyrtc.Prelude.Bits.{bit_or-shift}

abbrev pub u8 : ℕ → ℕ
u8 n = n % 2 ^ 8

abbrev pub u16 : ℕ → ℕ
u16 n = n % 2 ^ 16

abbrev pub u32 : ℕ → ℕ
u32 n = n % 2 ^ 32

abbrev pub u64 : ℕ → ℕ
u64 n = n % 2 ^ 64

infixl 75 ◌<<◌ ◌>>◌
abbrev pub ◌<<◌ : ℕ → ℕ → ℕ
x << k = x * 2 ^ k

abbrev pub ◌>>◌ : ℕ → ℕ → ℕ
x >> k = x / 2 ^ k

-- `x & (2 ^ k - 1)`
abbrev pub low_bits : ℕ → ℕ → ℕ
low_bits k x = x % 2 ^ k

-- `(a << 8) | b`
unfoldable pub be16 : ℕ → ℕ → ℕ
be16 a b = u16 (bit_or (a << 8) b)

-- `(a << 16) | (b << 8) | c`
unfoldable pub be24 : ℕ → ℕ → ℕ → ℕ
be24 a b c = bit_or (bit_or (a << 16) (b << 8)) c

-- `(a << 24) | (b << 16) | (c << 8) | d`, stored in a `uint32_t`
unfoldable pub be32 : ℕ → ℕ → ℕ → ℕ → ℕ
be32 a b c d = u32 (bit_or (bit_or (bit_or (a << 24) (b << 16)) (c << 8)) d)

-- The stores `(v >> 8 * i) & 0xFF`, highest byte first.
abbrev pub put16 : ℕ → List ℕ
put16 v = low_bits 8 (v >> 8) ∷ low_bits 8 v ∷ []

abbrev pub put24 : ℕ → List ℕ
put24 v = low_bits 8 (v >> 16) ∷ low_bits 8 (v >> 8) ∷ low_bits 8 v ∷ []

abbrev pub put32 : ℕ → List ℕ
put32 v = low_bits 8 (v >> 24) ∷ low_bits 8 (v >> 16) ∷ low_bits 8 (v >> 8) ∷ low_bits 8 v ∷ []

abbrev pub put64 : ℕ → List ℕ
put64 v =
    low_bits 8 (v >> 56)
    ∷ low_bits 8 (v >> 48)
    ∷ low_bits 8 (v >> 40)
    ∷ low_bits 8 (v >> 32)
    ∷ low_bits 8 (v >> 24)
    ∷ low_bits 8 (v >> 16)
    ∷ low_bits 8 (v >> 8)
    ∷ low_bits 8 v
    ∷ []

-- The reads are sums of the bytes.
pub be16_sum : (a b : ℕ) → a < 256 → b < 256 → be16 a b ≡ a * 256 + b
unfolding be16
be16_sum a b p q = omega (arith, bit_or-shift 8 a b q)

pub be24_sum : (a b c : ℕ) → a < 256 → b < 256 → c < 256 → be24 a b c ≡ a * 65536 + b * 256 + c
unfolding be24
be24_sum a b c p q r =
    let e : a * 2 ^ 16 + b * 2 ^ 8 ≡ (a * 256 + b) * 2 ^ 8 = omega arith in
    rw (bit_or-shift 16 a (b * 2 ^ 8) (omega arith), e, bit_or-shift 8 (a * 256 + b) c r)
      (omega arith)

pub be32_sum :
    (a b c d : ℕ)
    → a < 256
    → b < 256
    → c < 256
    → d < 256
    → be32 a b c d ≡ a * 16777216 + b * 65536 + c * 256 + d
unfolding be32
be32_sum a b c d p q r s =
    let e : a * 2 ^ 24 + b * 2 ^ 16 ≡ (a * 256 + b) * 2 ^ 16 = omega arith in
    let f : (a * 256 + b) * 2 ^ 16 + c * 2 ^ 8 ≡ ((a * 256 + b) * 256 + c) * 2 ^ 8 = omega arith in
    rw
      (
        bit_or-shift 24 a (b * 2 ^ 16) (omega arith),
        e,
        bit_or-shift 16 (a * 256 + b) (c * 2 ^ 8) (omega arith),
        f,
        bit_or-shift 8 ((a * 256 + b) * 256 + c) d s,
      )
      (omega arith)

-- Reading back what was stored.
pub be16-put16 : (v : ℕ) → v < 2 ^ 16 → be16 (low_bits 8 (v >> 8)) (low_bits 8 v) ≡ v
be16-put16 v h =
    be16_sum (low_bits 8 (v >> 8)) (low_bits 8 v) (omega arith) (omega arith) ∙ omega arith

pub be24-put24 :
    (v : ℕ) → v < 2 ^ 24 → be24 (low_bits 8 (v >> 16)) (low_bits 8 (v >> 8)) (low_bits 8 v) ≡ v
be24-put24 v h =
    be24_sum (low_bits 8 (v >> 16)) (low_bits 8 (v >> 8)) (low_bits 8 v) (omega arith) (omega arith)
      (omega arith)
    ∙ omega arith

pub be32-put32 :
    (v : ℕ)
    → v < 2 ^ 32
    → be32 (low_bits 8 (v >> 24)) (low_bits 8 (v >> 16)) (low_bits 8 (v >> 8)) (low_bits 8 v) ≡ v
be32-put32 v h =
    be32_sum (low_bits 8 (v >> 24)) (low_bits 8 (v >> 16)) (low_bits 8 (v >> 8)) (low_bits 8 v)
      (omega arith) (omega arith) (omega arith) (omega arith)
    ∙ omega arith

pub be16-lt : (a b : ℕ) → be16 a b < 2 ^ 16
unfolding be16
be16-lt a b = omega arith
