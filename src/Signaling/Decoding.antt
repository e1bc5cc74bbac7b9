-- ===== src/Signaling/Decoding.antt =====
-- The decoding of what `base64_encode` of src/signaling/signaling.c writes.
use tinyrtc.Prelude.{
  ℕ, ◌+◌, ◌-◌, ◌*◌, ◌/◌, ◌%◌, ◌≤◌, ◌<◌, ◌≡◌, ◌⊎◌, inl, inr, lt_cases, refl, ap, ◌∙◌, Bool, true,
  false, List, [], ◌∷◌, ◌++◌, arith, All, none, some, leb, ◌==◌, eq_of_==, if◌then◌else◌, length,
  low_bits,
}
use tinyrtc.Prelude.Bits.{bit_or-shift, all_below, all_below_sound}
use tinyrtc.Signaling.Base64.{base64_char, index1, index2, index3, encode_groups, base64_encode}

-- The number of a character of the alphabet of RFC 4648.
unfoldable pub char_value : ℕ → ℕ
char_value c =
    if leb 97 c
    then c - 71
    else if leb 65 c
    then c - 65
    else if leb 48 c
    then c + 4
    else if c == 43
    then 62
    else 63

-- The bytes of a group of four characters, by the places that `=` takes.
unfoldable pub decode_group : ℕ → ℕ → ℕ → ℕ → List ℕ
decode_group w x y z =
    let first = char_value w * 4 + char_value x / 16 in
    let second = char_value x % 16 * 16 + char_value y / 4 in
    let third = char_value y % 4 * 64 + char_value z in
    if y == 61
    then first ∷ []
    else if z == 61
    then first ∷ second ∷ []
    else first ∷ second ∷ third ∷ []

-- A decoder as RFC 4648 describes it.
unfoldable pub decode : List ℕ → List ℕ
decode (w ∷ x ∷ y ∷ z ∷ rest) = decode_group w x y z ++ decode rest
decode _ = []

char_test : ℕ → Bool
unfolding char_value base64_char
char_test i = (char_value (base64_char i) == i)

pad_test : ℕ → Bool
unfolding base64_char
pad_test i = if base64_char i == 61 then false else true

char_value-base64_char : (i : ℕ) → i < 64 → char_value (base64_char i) ≡ i
unfolding char_test all_below
char_value-base64_char i h = eq_of_== _ i (all_below_sound 64 char_test refl i h)

no_pad : (b : Bool) → (if b then false else true) ≡ true → b ≡ false
no_pad true e = absurd (cc)
no_pad false e = refl

base64_char-pad : (i : ℕ) → i < 64 → (base64_char i == 61) ≡ false
unfolding pad_test all_below
base64_char-pad i h = no_pad (base64_char i == 61) (all_below_sound 64 pad_test refl i h)

index2_sum : (a b : ℕ) → index2 a b ≡ a % 4 * 16 + b / 16 % 16
unfolding index2
index2_sum a b = bit_or-shift 4 (a % 4) (b / 16 % 16) (omega arith)

index3_sum : (b c : ℕ) → index3 b c ≡ b % 16 * 4 + c / 64 % 4
unfolding index3
index3_sum b c = bit_or-shift 2 (b % 16) (c / 64 % 4) (omega arith)

-- The bytes of four indices, and those of three or two of them in front of the padding.
full_group :
    (p q r s : ℕ)
    → p < 64
    → q < 64
    → r < 64
    → s < 64
    → decode_group (base64_char p) (base64_char q) (base64_char r) (base64_char s)
      ≡ (p * 4 + q / 16) ∷ (q % 16 * 16 + r / 4) ∷ (r % 4 * 64 + s) ∷ []
unfolding decode_group
full_group p q r s hp hq hr hs = rw (
  base64_char-pad r hr,
  base64_char-pad s hs,
  char_value-base64_char p hp,
  char_value-base64_char q hq,
  char_value-base64_char r hr,
  char_value-base64_char s hs,
)

two_groups :
    (p q r : ℕ)
    → p < 64
    → q < 64
    → r < 64
    → decode_group (base64_char p) (base64_char q) (base64_char r) 61
      ≡ (p * 4 + q / 16) ∷ (q % 16 * 16 + r / 4) ∷ []
unfolding decode_group
two_groups p q r hp hq hr = rw (
  base64_char-pad r hr,
  char_value-base64_char p hp,
  char_value-base64_char q hq,
  char_value-base64_char r hr,
)

one_group :
    (p q : ℕ)
    → p < 64
    → q < 64
    → decode_group (base64_char p) (base64_char q) 61 61 ≡ (p * 4 + q / 16) ∷ []
unfolding decode_group
one_group p q hp hq = rw (char_value-base64_char p hp, char_value-base64_char q hq)

index1_sum : (a : ℕ) → index1 a ≡ a / 4 % 64
unfolding index1
index1_sum a = refl

same_pair : {x y x' y' : ℕ} → x ≡ x' → y ≡ y' → ◌≡◌ {A = List ℕ} (x ∷ y ∷ []) (x' ∷ y' ∷ [])
same_pair e f = rw (e, f)

-- Decoding gives the bytes back.
decode-encode_groups :
    (bytes : List ℕ) → All (λ b. b < 256) bytes → decode (encode_groups bytes) ≡ bytes
unfolding decode encode_groups
decode-encode_groups [] h = refl
decode-encode_groups (a ∷ []) (ha, _) =
    let i = index1_sum a in
    let j = index2_sum a 0 in
    let e : index1 a * 4 + index2 a 0 / 16 ≡ a = omega (arith, i, j) in
    ap (λ (g : List ℕ). g ++ []) (one_group (index1 a) (index2 a 0) (omega arith) (omega arith))
    ∙ ap (λ n. n ∷ []) e
decode-encode_groups (a ∷ b ∷ []) (ha, (hb, _)) =
    let i = index1_sum a in
    let j = index2_sum a b in
    let k = index3_sum b 0 in
    let e : index1 a * 4 + index2 a b / 16 ≡ a = omega (arith, i, j) in
    let f : index2 a b % 16 * 16 + index3 b 0 / 4 ≡ b = omega (arith, j, k) in
    ap (λ (g : List ℕ). g ++ [])
      (two_groups (index1 a) (index2 a b) (index3 b 0) (omega arith) (omega arith) (omega arith))
    ∙ same_pair e f
decode-encode_groups (a ∷ b ∷ c ∷ rest) (ha, (hb, (hc, hs))) =
    let i = index1_sum a in
    let j = index2_sum a b in
    let k = index3_sum b c in
    let e : index1 a * 4 + index2 a b / 16 ≡ a = omega (arith, i, j) in
    let f : index2 a b % 16 * 16 + index3 b c / 4 ≡ b = omega (arith, j, k) in
    let g : index3 b c % 4 * 64 + low_bits 6 c ≡ c = omega (arith, k) in
    ap (λ (x : List ℕ). x ++ decode (encode_groups rest))
      (full_group (index1 a) (index2 a b) (index3 b c) (low_bits 6 c) (omega arith) (omega arith)
        (omega arith) (omega arith))
    ∙ ap
        (λ n.
          n
          ∷ (index2 a b % 16 * 16 + index3 b c / 4)
          ∷ (index3 b c % 4 * 64 + low_bits 6 c)
          ∷ decode (encode_groups rest))
        e
    ∙ ap (λ n. a ∷ n ∷ (index3 b c % 4 * 64 + low_bits 6 c) ∷ decode (encode_groups rest)) f
    ∙ ap (λ n. a ∷ b ∷ n ∷ decode (encode_groups rest)) g
    ∙ ap (λ r. a ∷ b ∷ c ∷ r) (decode-encode_groups rest hs)

length-encode_groups : (bytes : List ℕ) → length (encode_groups bytes) ≡ (length bytes + 2) / 3 * 4
unfolding encode_groups
length-encode_groups [] = refl
length-encode_groups (a ∷ []) = refl
length-encode_groups (a ∷ b ∷ []) = refl
length-encode_groups (a ∷ b ∷ c ∷ rest) = omega (arith, length-encode_groups rest)

-- Bytes are either encoded to four characters for each three of them or a part of three, from
-- which a decoder gets them back, and they fit the buffer with their terminator; or they are
-- refused, because they do not fit it.
pub base64_encode_lem :
    (bytes : List ℕ) (output_len : ℕ)
    → All (λ b. b < 256) bytes
    → ((text : List ℕ) × (base64_encode bytes output_len ≡ some text)
        × (decode text ≡ bytes)
        × (length text ≡ (length bytes + 2) / 3 * 4)
        × (length text < output_len))
      ⊎ (base64_encode bytes output_len ≡ none) × (output_len ≤ (length bytes + 2) / 3 * 4)
unfolding base64_encode
base64_encode_lem bytes output_len small =
    elim (lt_cases output_len ((length bytes + 2) / 3 * 4 + 1)) [
      | inl (less, t) ↦ inr (rw t, omega arith)
      | inr (room, t) ↦
          let len = length-encode_groups bytes in
          inl (encode_groups bytes, rw t, decode-encode_groups bytes small, len, omega arith)
    ]
