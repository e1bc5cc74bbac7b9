-- ===== src/Srtp/Counter.antt =====
-- The counter mode and the comparison of tags of src/media/srtp.c.
use tinyrtc.Prelude.{
  ℕ, zero, suc, ◌≤◌, ◌<◌, ◌≡◌, refl, ap, ◌∙◌, List, [], ◌∷◌, ◌++◌, arith, leb, if◌then◌else◌,
  length, take, drop, length-take, length-append, length-drop, take-append, drop-append,
  take-append-drop,
}
use tinyrtc.Prelude.Bits.{bit_xor_cancel}
use tinyrtc.Srtp.{xor_bytes, counter_mode, next_block}

pub length-xor_bytes : (xs ys : List ℕ) → length (xor_bytes xs ys) ≡ length xs
length-xor_bytes [] ys = refl
length-xor_bytes (x ∷ xs) [] = refl
length-xor_bytes (x ∷ xs) (y ∷ ys) = ap suc (length-xor_bytes xs ys)

pub xor_bytes_cancel : (xs ys : List ℕ) → xor_bytes (xor_bytes xs ys) ys ≡ xs
xor_bytes_cancel [] ys = refl
xor_bytes_cancel (x ∷ xs) [] = refl
xor_bytes_cancel (x ∷ xs) (y ∷ ys) = rw (bit_xor_cancel x y, xor_bytes_cancel xs ys)

module _ (block hmac : List ℕ → List ℕ → List ℕ) where
  counter_mode-none : (fuel : ℕ) (key c : List ℕ) → counter_mode block hmac fuel key c [] ≡ []
  unfolding counter_mode
  counter_mode-none zero key c = refl
  counter_mode-none (suc fuel) key c = refl

  -- One round on a payload that is not empty.
  counter_mode-step :
      (fuel n : ℕ) (key c payload : List ℕ)
      → 0 < length payload
      → n ≡ (if leb 16 (length payload) then 16 else length payload)
      → counter_mode block hmac (suc fuel) key c payload
        ≡ xor_bytes (take n payload) (block key c)
          ++ counter_mode block hmac fuel key (next_block c) (drop n payload)
  unfolding counter_mode
  counter_mode-step fuel n key c [] h e = absurd (omega arith)
  counter_mode-step fuel n key c (x ∷ xs) h e = rw e

  pub length-counter_mode :
      (fuel : ℕ) (key c payload : List ℕ)
      → length payload ≤ fuel
      → length (counter_mode block hmac fuel key c payload) ≡ length payload
  length-counter_mode fuel key c [] h = rw (counter_mode-none fuel key c)
  length-counter_mode zero key c (x ∷ xs) h = absurd (omega arith)
  length-counter_mode (suc fuel) key c (x ∷ xs) h =
      let payload = x ∷ xs in
      let n = if leb 16 (length payload) then 16 else length payload in
      let size : (1 ≤ n) × (n ≤ length payload) = ground arith in
      let rest = counter_mode block hmac fuel key (next_block c) (drop n payload) in
      rw (counter_mode-step fuel n key c payload (omega arith) refl) (
        omega (
          arith,
          length-append (xor_bytes (take n payload) (block key c)) rest,
          length-xor_bytes (take n payload) (block key c),
          length-take n payload,
          length-drop n payload,
          length-counter_mode fuel key (next_block c) (drop n payload)
              (omega (arith, length-drop n payload)),
        ))

  -- The counter mode is its own inverse.
  pub counter_mode_twice :
      (fuel : ℕ) (key c payload : List ℕ)
      → length payload ≤ fuel
      → counter_mode block hmac fuel key c (counter_mode block hmac fuel key c payload) ≡ payload
  counter_mode_twice fuel key c [] h =
      rw (counter_mode-none fuel key c) (counter_mode-none fuel key c)
  counter_mode_twice zero key c (x ∷ xs) h = absurd (omega arith)
  counter_mode_twice (suc fuel) key c (x ∷ xs) h =
      let payload = x ∷ xs in
      let n = if leb 16 (length payload) then 16 else length payload in
      let size : (1 ≤ n) × (n ≤ length payload) = ground arith in
      let first = xor_bytes (take n payload) (block key c) in
      let rest = counter_mode block hmac fuel key (next_block c) (drop n payload) in
      let len_first : length first ≡ n =
        omega (arith, length-xor_bytes (take n payload) (block key c), length-take n payload) in
      let fuel_left : length (drop n payload) ≤ fuel = omega (arith, length-drop n payload) in
      let len_rest : length (first ++ rest) ≡ length payload = omega (
        arith,
        length-append first rest,
        length-counter_mode fuel key (next_block c) (drop n payload) fuel_left,
        length-drop n payload,
      ) in
      let again : n ≡ (if leb 16 (length (first ++ rest)) then 16 else length (first ++ rest)) =
        rw len_rest in
      rw (counter_mode-step fuel n key c payload (omega arith) refl) (
        counter_mode-step fuel n key c (first ++ rest) (omega arith) again
        ∙ rw
            (
              take-append n first rest len_first,
              drop-append n first rest len_first,
              xor_bytes_cancel (take n payload) (block key c),
              counter_mode_twice fuel key (next_block c) (drop n payload) fuel_left,
            )
            (take-append-drop n payload))
