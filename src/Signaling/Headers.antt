-- ===== src/Signaling/Headers.antt =====
-- The header that `sig_send_ws_frame` of src/signaling/signaling.c writes, as the reader takes it.
use tinyrtc.Prelude.{
  ℕ, ◌+◌, ◌≤◌, ◌<◌, ◌≡◌, inl, inr, refl, ap, Bool, true, false, ◌&&◌, List, [], ◌∷◌, arith, leb,
  ◌==◌, eq_of_==, lt_cases, length, low_bits, bit_or, be16-put16, put16, u8,
}
use tinyrtc.Prelude.Bits.{all_below, all_below_sound, bit_or-disjoint}
use tinyrtc.Signaling.{Incoming}
use tinyrtc.Signaling.Frames.{ready, read_bytes, read_length, frame_header}
use tinyrtc.Signaling.Stream.{stream}

-- A header from which the reader takes the opcode and the length.
pub record Announces (opcode len : ℕ) (header : List ℕ) : Type 0 where
  pub first : ℕ
  pub second : ℕ
  pub extension : List ℕ
  pub parts : header ≡ first ∷ second ∷ extension
  pub is_final : leb 128 first ≡ true
  pub same_opcode : low_bits 4 first ≡ opcode
  pub is_masked : leb 128 second ≡ true
  pub same_length :
      (rest : List Incoming)
      → read_length (low_bits 7 second) (stream extension rest) ≡ ready len rest

first_byte_lem :
    (opcode : ℕ)
    → opcode < 16
    → (leb 128 (bit_or 0x80 opcode) ≡ true) × (low_bits 4 (bit_or 0x80 opcode) ≡ opcode)
first_byte_lem opcode h =
    let sum : bit_or 0x80 opcode ≡ 128 + opcode = bit_or-disjoint 7 128 opcode refl (omega arith) in
    rw sum (ground arith, omega arith)

both_true : (a b : Bool) → (a && b) ≡ true → (a ≡ true) × (b ≡ true)
both_true true b h = (refl, h)
both_true false b h = absurd (cc)

second_byte : ℕ → Bool
second_byte len = leb 128 (bit_or (u8 len) 0x80) && (low_bits 7 (bit_or (u8 len) 0x80) == len)

second_byte_lem :
    (len : ℕ)
    → len ≤ 125
    → (leb 128 (bit_or (u8 len) 0x80) ≡ true) × (low_bits 7 (bit_or (u8 len) 0x80) ≡ len)
unfolding second_byte all_below
second_byte_lem len h =
    let (masked, same) =
      both_true (leb 128 (bit_or (u8 len) 0x80)) (low_bits 7 (bit_or (u8 len) 0x80) == len)
        (all_below_sound 126 second_byte refl len (omega arith)) in
    (masked, eq_of_== _ len same)

pub frame_header-Announces :
    (opcode len : ℕ) → opcode < 16 → len ≤ 0xFFFF → Announces opcode len (frame_header opcode len)
unfolding frame_header read_length read_bytes stream
frame_header-Announces opcode len small fits =
    let (final, same) = first_byte_lem opcode small in
    elim (lt_cases 125 len) [
      | inr (short, _) ↦
          let t : leb len 125 ≡ true = ground arith in
          let (masked, kept) = second_byte_lem len short in
          let a : (len == 126) ≡ false = ground arith in
          let b : (len == 127) ≡ false = ground arith in
          record {
            first = bit_or 0x80 opcode;
            second = bit_or (u8 len) 0x80;
            extension = [];
            parts = rw t;
            is_final = final;
            same_opcode = same;
            is_masked = masked;
            same_length = λ rest. rw (kept, a, b);
          }
      | inl (long, _) ↦
          let t : leb len 125 ≡ false = ground arith in
          let u : leb len 0xFFFF ≡ true = ground arith in
          record {
            first = bit_or 0x80 opcode;
            second = bit_or 126 0x80;
            extension = put16 len;
            parts = rw (t, u);
            is_final = final;
            same_opcode = same;
            is_masked = refl;
            same_length = λ rest. ap (λ n. ready n rest) (be16-put16 len (omega arith));
          }
    ]

pub length-frame_header : (opcode len : ℕ) → len ≤ 0xFFFF → length (frame_header opcode len) ≤ 4
unfolding frame_header
length-frame_header opcode len fits = elim (lt_cases 125 len) [
  | inr (short, _) ↦ let t : leb len 125 ≡ true = ground arith in rw t (omega arith)
  | inl (long, _) ↦
      let t : leb len 125 ≡ false = ground arith in
      let u : leb len 0xFFFF ≡ true = ground arith in rw (t, u) (omega arith)
]
