-- ===== src/Packetize/Fragments.antt =====
-- What the packetizers of src/media/rtp.c hand to the callback: sizes, markers and bytes.
use tinyrtc.Prelude.{
  ℕ, zero, suc, ◌+◌, ◌≤◌, ◌<◌, ◌≡◌, refl, ap, ◌∙◌, Bool, true, false, ◌&&◌, inl, inr, List, [], ◌∷◌,
  ◌++◌, arith, All, length, take, drop, concat, map, length-take, length-drop, take-append-drop,
  take-all, append-nil, ltb, ◌==◌, lt_cases, min, ==_refl,
}
use tinyrtc.Packetize.{Packet, fragments, chunk_loop, fu_indicator, fu_header}

-- The last packet carries the marker `m`, and the others carry none; there is at least one.
abbrev pub Marked : Bool → List Packet → Type 0
Marked m [] = ⊥
Marked m (p ∷ []) = p.marker ≡ m
Marked m (p ∷ q ∷ ps) = (p.marker ≡ false) × Marked m (q ∷ ps)

abbrev pub Fits : ℕ → Packet → Type 0
Fits n p = length p.payload ≤ n

abbrev pub payloads : List Packet → List (List ℕ)
payloads ps = map (λ (p : Packet). p.payload) ps

Marked-cons :
    (m : Bool) (p : Packet) (ps : List Packet) → p.marker ≡ false → Marked m ps → Marked m (p ∷ ps)
Marked-cons m p [] e h = absurd h
Marked-cons m p (q ∷ ps) e h = (e, h)

length-none : (xs : List ℕ) → length xs ≡ 0 → xs ≡ []
length-none [] e = refl
length-none (x ∷ xs) e = absurd (omega arith)

-- What a step of a loop owes: one packet in front of those of the rest.
abbrev pub Split : ℕ → ℕ → Bool → List ℕ → List Packet → Type 0
Split skip size mark bytes ps =
    (concat (map (drop skip) (payloads ps)) ≡ bytes) × All (Fits size) ps × Marked mark ps

drop-length : (xs : List ℕ) → drop (length xs) xs ≡ []
drop-length xs = length-none (drop (length xs) xs) (omega (arith, length-drop (length xs) xs))

and-false : (b : Bool) → (b && false) ≡ false
and-false true = refl
and-false false = refl

and-true : (b : Bool) → (b && true) ≡ b
and-true true = refl
and-true false = refl

chunk_loop-none : (fuel size : ℕ) → chunk_loop fuel size [] ≡ []
unfolding chunk_loop
chunk_loop-none zero size = refl
chunk_loop-none (suc fuel) size = refl

fragments-none :
    (fuel header size : ℕ) (last : Bool) → fragments fuel header size last false [] ≡ []
unfolding fragments
fragments-none zero header size last = refl
fragments-none (suc fuel) header size last = refl

-- One round of the loops, with bytes left behind it and without.
chunk_loop-less :
    (fuel max_payload : ℕ) (frame : List ℕ)
    → max_payload < length frame
    → chunk_loop (suc fuel) max_payload frame
      ≡ record { payload = take max_payload frame; marker = false }
        ∷ chunk_loop fuel max_payload (drop max_payload frame)
unfolding chunk_loop
chunk_loop-less fuel max_payload [] k = absurd (omega arith)
chunk_loop-less fuel max_payload (x ∷ xs) k =
    let t : ltb max_payload (length (x ∷ xs)) ≡ true = ground arith in
    let n : (max_payload == length (x ∷ xs)) ≡ false = ground arith in rw (t, n)

chunk_loop-last :
    (fuel max_payload : ℕ) (frame : List ℕ)
    → 0 < length frame
    → length frame ≤ max_payload
    → chunk_loop (suc fuel) max_payload frame ≡ record { payload = frame; marker = true } ∷ []
unfolding chunk_loop
chunk_loop-last fuel max_payload [] h k = absurd (omega arith)
chunk_loop-last fuel max_payload (x ∷ xs) h k =
    let t : ltb max_payload (length (x ∷ xs)) ≡ false = ground arith in
    rw
      (
        t,
        ==_refl (length (x ∷ xs)),
        take-all (length (x ∷ xs)) (x ∷ xs) (omega arith),
        drop-length (x ∷ xs),
      )
      (ap (λ ps. record { payload = x ∷ xs; marker = true } ∷ ps)
        (chunk_loop-none fuel max_payload))

module _ (header size : ℕ) (last start : Bool) where
  pub fragments-less :
      (fuel : ℕ) (body : List ℕ)
      → size < length body
      → fragments (suc fuel) header size last start body
        ≡ record {
          payload = fu_indicator header ∷ fu_header header start false ∷ take size body;
          marker = false;
        }
          ∷ fragments fuel header size last false (drop size body)
  unfolding fragments
  fragments-less fuel [] k = absurd (omega arith)
  fragments-less fuel (x ∷ xs) k =
      let t : min (length (x ∷ xs)) size ≡ size = omega arith in
      let n : (size == length (x ∷ xs)) ≡ false = ground arith in rw (t, n, and-false last)

  pub fragments-last :
      (fuel : ℕ) (body : List ℕ)
      → 0 < length body
      → length body ≤ size
      → fragments (suc fuel) header size last start body
        ≡ record {
          payload = fu_indicator header ∷ fu_header header start true ∷ body;
          marker = last;
        }
          ∷ []
  unfolding fragments
  fragments-last fuel [] h k = absurd (omega arith)
  fragments-last fuel (x ∷ xs) h k =
      let t : min (length (x ∷ xs)) size ≡ length (x ∷ xs) = omega arith in
      rw
        (
          t,
          ==_refl (length (x ∷ xs)),
          and-true last,
          take-all (length (x ∷ xs)) (x ∷ xs) (omega arith),
          drop-length (x ∷ xs),
        )
        (ap
          (λ ps.
            record {
              payload = fu_indicator header ∷ fu_header header start true ∷ x ∷ xs;
              marker = last;
            }
            ∷ ps)
          (fragments-none fuel header size last))

-- Splitting the bytes of a frame of the other codecs.
pub chunk_loop_lem :
    (fuel size : ℕ) (frame : List ℕ)
    → 0 < size
    → length frame ≤ fuel
    → 0 < length frame
    → Split 0 size true frame (chunk_loop fuel size frame)
chunk_loop_lem zero size frame h k l = absurd (omega arith)
chunk_loop_lem (suc fuel) size frame h k l = elim (lt_cases size (length frame)) [
  | inl (less, t) ↦
      let rest = drop size frame in
      let len = length-drop size frame in
      let (bytes, fits, marks) = chunk_loop_lem fuel size rest h (omega arith) (omega arith) in
      rw (chunk_loop-less fuel size frame less) (
        ap (λ r. take size frame ++ r) bytes ∙ take-append-drop size frame,
        (omega (arith, length-take size frame), fits),
        Marked-cons true (record { payload = take size frame; marker = false })
            (chunk_loop fuel size rest) refl marks,
      )
  | inr (all, t) ↦ rw (chunk_loop-last fuel size frame l all) (append-nil frame, (all, tt), refl)
]

-- Splitting the bytes of a NAL unit behind its header.
pub fragments_lem :
    (fuel header size : ℕ) (last start : Bool) (body : List ℕ)
    → 0 < size
    → length body ≤ fuel
    → 0 < length body
    → Split 2 (size + 2) last body (fragments fuel header size last start body)
fragments_lem zero header size last start body h k l = absurd (omega arith)
fragments_lem (suc fuel) header size last start body h k l = elim (lt_cases size (length body)) [
  | inl (less, t) ↦
      let rest = drop size body in
      let len = length-drop size body in
      let (bytes, fits, marks) =
        fragments_lem fuel header size last false rest h (omega arith) (omega arith) in
      rw (fragments-less header size last start fuel body less) (
        ap (λ r. take size body ++ r) bytes ∙ take-append-drop size body,
        (omega (arith, length-take size body), fits),
        Marked-cons last
            (record {
              payload = fu_indicator header ∷ fu_header header start false ∷ take size body;
              marker = false;
            })
            (fragments fuel header size last false rest) refl marks,
      )
  | inr (all, t) ↦
      rw (fragments-last header size last start fuel body l all)
        (append-nil body, (omega arith, tt), refl)
]
