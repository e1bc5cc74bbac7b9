-- ===== src/Depacketize/Nalu.antt =====
-- The receiver's side of the fragmentation of a NAL unit: `tinyrtc_depacketize_frame` on what
-- `h264_packetize_nalu` of src/media/rtp.c sends.
use tinyrtc.Prelude.{
  min, ℕ, zero, suc, ◌+◌, ◌-◌, ◌≤◌, ◌<◌, ◌≡◌, refl, ap, ◌∙◌, Bool, true, false, ◌&&◌, ◌||◌, not,
  inl, inr, List, [], ◌∷◌, ◌++◌, arith, length, take, drop, concat, map, length-drop,
  take-append-drop, append-nil, append_assoc, ltb, leb, ◌==◌, lt_cases, u8, low_bits, bit_and,
  bit_or, eq_of_==, length-take,
}
use tinyrtc.Prelude.Bits.{all_below, all_below_sound}
use tinyrtc.Packetize.{Packet, fragments, packetize_nalu, fragment_nalu, fu_indicator, fu_header}
use tinyrtc.Packetize.Fragments.{fragments-less, fragments-last}
use tinyrtc.Depacketize.{Frame, depacketize_fu, depacketize_h264}

-- Whether two tests agree.
abbrev pub agree : Bool → Bool → Bool
agree true b = b
agree false b = not b

agree_lem : (a b : Bool) → agree a b ≡ true → a ≡ b
agree_lem true true e = refl
agree_lem true false e = absurd (cc)
agree_lem false true e = absurd (cc)
agree_lem false false e = refl

and_parts : (a b : Bool) → (a && b) ≡ true → (a ≡ true) × (b ≡ true)
and_parts true true e = (refl, refl)
and_parts true false e = absurd (cc)
and_parts false b e = absurd (cc)

-- What the receiver reads off the two bytes in front of a fragment.
abbrev pub reads_back : Bool → Bool → ℕ → Bool
reads_back s e h =
    (low_bits 5 (fu_indicator h) == 28)
    && (agree (bit_and (fu_header h s e) 0x80 == 0) (not s)
        && (agree (bit_and (fu_header h s e) 0x40 == 0) (not e)
            && (u8 (bit_or (bit_and (fu_indicator h) 0xE0) (low_bits 5 (fu_header h s e))) == h)))

reads_back_all : (s e : Bool) → all_below 256 (reads_back s e) ≡ true
unfolding all_below fu_indicator fu_header
reads_back_all true true = refl
reads_back_all true false = refl
reads_back_all false true = refl
reads_back_all false false = refl

module _ (s e : Bool) (h : ℕ) (byte : h < 256) where
  fu_parts :
      (low_bits 5 (fu_indicator h) ≡ 28)
      × ((bit_and (fu_header h s e) 0x80 == 0) ≡ not s)
      × ((bit_and (fu_header h s e) 0x40 == 0) ≡ not e)
      × (u8 (bit_or (bit_and (fu_indicator h) 0xE0) (low_bits 5 (fu_header h s e))) ≡ h)
  fu_parts =
      let all = all_below_sound 256 (reads_back s e) (reads_back_all s e) h byte in
      let (a, rest) = and_parts _ _ all in
      let (b, more) = and_parts _ _ rest in
      let (c, d) = and_parts _ _ more in
      (eq_of_== _ _ a, agree_lem _ _ b, agree_lem _ _ c, eq_of_== _ _ d)

not-not : (b : Bool) → not (not b) ≡ b
not-not true = refl
not-not false = refl

two_bytes :
    (x y : ℕ) (bytes : List ℕ)
    → ((length (x ∷ y ∷ bytes) == 0) ≡ false) × (ltb (length (x ∷ y ∷ bytes)) 2 ≡ false)
two_bytes x y bytes = (ground arith, ground arith)

-- The receiver's result on one fragment.
abbrev pub prefix : Bool → ℕ → List ℕ
prefix true h = 0 ∷ 0 ∷ 0 ∷ 1 ∷ h ∷ []
prefix false h = []

depacketize_h264-fragment :
    (s e marker : Bool) (h max_len : ℕ) (bytes : List ℕ)
    → h < 256
    → length bytes + 5 ≤ max_len
    → depacketize_h264 marker max_len (fu_indicator h ∷ fu_header h s e ∷ bytes)
      ≡ (marker || e, prefix s h ++ bytes)
unfolding depacketize_h264 depacketize_fu
depacketize_h264-fragment true e marker h max_len bytes byte room =
    let (a, b, c, d) = fu_parts true e h byte in
    let t : ltb max_len (length bytes + 5) ≡ false = ground arith in
    let two = two_bytes (fu_indicator h) (fu_header h true e) bytes in
    rw (a, b, c, d, not-not e, t, two.0, two.1)
depacketize_h264-fragment false e marker h max_len bytes byte room =
    let (a, b, c, d) = fu_parts false e h byte in
    let t : ltb max_len (length bytes) ≡ false = ground arith in
    let two = two_bytes (fu_indicator h) (fu_header h false e) bytes in
    rw (a, b, c, not-not e, t, two.0, two.1)

-- The receiver's results on the packets of a sender, in order.
abbrev pub outputs : ℕ → List Packet → List Frame
outputs max_len ps = map (λ (p : Packet). depacketize_h264 p.marker max_len p.payload) ps

-- The bytes of the results make up `bytes`; the last result has the flag `m`, the others have not.
abbrev pub Flagged : Bool → List Frame → Type 0
Flagged m [] = ⊥
Flagged m (f ∷ []) = f.0 ≡ m
Flagged m (f ∷ g ∷ fs) = (f.0 ≡ false) × Flagged m (g ∷ fs)

abbrev pub Gives : Bool → List ℕ → List Frame → Type 0
Gives m bytes fs = (concat (map (λ (f : Frame). f.1) fs) ≡ bytes) × Flagged m fs

Flagged-cons :
    (m : Bool) (f : Frame) (fs : List Frame) → f.0 ≡ false → Flagged m fs → Flagged m (f ∷ fs)
Flagged-cons m f [] e h = absurd h
Flagged-cons m f (g ∷ fs) e h = (e, h)

or-true : (b : Bool) → (b || true) ≡ true
or-true true = refl
or-true false = refl

module _ (h max_len size : ℕ) (last : Bool) (byte : h < 256) where
  pub fragments_back :
      (fuel : ℕ) (start : Bool) (body : List ℕ)
      → 0 < size
      → length body ≤ fuel
      → 0 < length body
      → min size (length body) + 5 ≤ max_len
      → Gives true
          (prefix start h ++ body)
          (outputs max_len (fragments fuel h size last start body))
  fragments_back zero start body k m l r = absurd (omega arith)
  fragments_back (suc fuel) start body k m l r = elim (lt_cases size (length body)) [
    | inl (less, t) ↦
        let rest = drop size body in
        let len = length-drop size body in
        let shorter = length-take size body in
        let (bytes, flags) =
          fragments_back fuel false rest k (omega arith) (omega arith) (omega arith) in
        let first =
          depacketize_h264-fragment start false false h max_len (take size body) byte
            (omega arith) in
        rw (fragments-less h size last start fuel body less, first)
          (
            append_assoc (prefix start h) (take size body) _
                ∙ ap (λ r. prefix start h ++ r)
                    (ap (λ r. take size body ++ r) bytes ∙ take-append-drop size body),
            Flagged-cons true (false, prefix start h ++ take size body)
                (outputs max_len (fragments fuel h size last false rest)) refl flags,
          )
    | inr (all, t) ↦
        let only = depacketize_h264-fragment start true last h max_len body byte (omega arith) in
        rw (fragments-last h size last start fuel body l all, only)
          (append-nil (prefix start h ++ body), or-true last)
  ]

or_false : (b : Bool) → (b || false) ≡ b
or_false true = refl
or_false false = refl

single :
    (marker : Bool) (h max_len : ℕ) (body : List ℕ)
    → 0 < low_bits 5 h
    → low_bits 5 h < 24
    → length body + 5 ≤ max_len
    → depacketize_h264 marker max_len (h ∷ body) ≡ (marker, 0 ∷ 0 ∷ 0 ∷ 1 ∷ h ∷ body)
unfolding depacketize_h264
single marker h max_len body lo hi room =
    let n : (length (h ∷ body) == 0) ≡ false = ground arith in
    let a : ltb 0 (low_bits 5 h) ≡ true = ground arith in
    let b : ltb (low_bits 5 h) 24 ≡ true = ground arith in
    let c : ltb max_len (length (h ∷ body) + 4) ≡ false = ground arith in rw (n, a, b, c)

-- The packets of a NAL unit of a type from 1 to 23, each of which the receiver's buffer can hold
-- behind a start code, make the receiver write the start code and the NAL unit, byte for byte.
-- The NAL unit itself may be larger than that buffer. The flag comes with the last packet only,
-- where that carries the marker or the NAL unit was split.
pub depacketize-packetize_nalu :
    (h max_payload max_len : ℕ) (last : Bool) (body : List ℕ)
    → h < 256
    → 0 < low_bits 5 h
    → low_bits 5 h < 24
    → 2 < max_payload
    → min max_payload (length (h ∷ body)) + 4 ≤ max_len
    → Gives
        (last || ltb max_payload (length (h ∷ body)))
        (0 ∷ 0 ∷ 0 ∷ 1 ∷ h ∷ body)
        (outputs max_len (packetize_nalu true (h ∷ body) max_payload last))
unfolding packetize_nalu fragment_nalu
depacketize-packetize_nalu h max_payload max_len last body byte lo hi more room =
    let n : (length (h ∷ body) == 0) ≡ false = ground arith in
    elim (lt_cases max_payload (length (h ∷ body))) [
      | inl (less, t) ↦
          let a : leb (length (h ∷ body)) max_payload ≡ false = ground arith in
          let b : leb max_payload 2 ≡ false = ground arith in
          let c : leb (length (h ∷ body)) 1 ≡ false = ground arith in
          rw (n, a, b, c, t, or-true last)
            (fragments_back h max_len (max_payload - 2) last byte (length body) true body
              (omega arith) (omega arith) (omega arith) (omega arith))
      | inr (all, t) ↦
          let a : leb (length (h ∷ body)) max_payload ≡ true = ground arith in
          rw (n, a, t, or_false last, single last h max_len body lo hi (omega arith))
            (append-nil (0 ∷ 0 ∷ 0 ∷ 1 ∷ h ∷ body), refl)
    ]
