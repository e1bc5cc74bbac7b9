-- ===== src/Packetize/Sizes.antt =====
-- The size of the packets of src/media/rtp.c, on every branch of the packetizers.
use tinyrtc.Prelude.{
  ℕ, zero, suc, ◌+◌, ◌-◌, ◌≤◌, ◌≡◌, refl, Bool, true, false, List, [], ◌∷◌, arith, All, length,
  take, drop, length-take, All-append, ltb, leb, ◌==◌, not, if◌then◌else◌, min,
}
use mathlib.Core.Path.{subst}
use tinyrtc.Codec.{CodecId}
use tinyrtc.Packetize.{
  Packet, fragments, chunk_loop, packetize_nalu, fragment_nalu, nalu_loop, packetize_frame, is_h264,
  start_code_len, find_start_code,
}
use tinyrtc.Packetize.Fragments.{Fits}

All-if :
    (size : ℕ) (c : Bool) (ps qs : List Packet)
    → (c ≡ true → All (Fits size) ps)
    → (c ≡ false → All (Fits size) qs)
    → All (Fits size) (if c then ps else qs)
All-if size true ps qs h k = h refl
All-if size false ps qs h k = k refl

fragments-Fits :
    (fuel header size : ℕ) (last start : Bool) (body : List ℕ)
    → All (Fits (size + 2)) (fragments fuel header size last start body)
unfolding fragments
fragments-Fits fuel header size last start [] = tt
fragments-Fits zero header size last start (x ∷ xs) = tt
fragments-Fits (suc fuel) header size last start (x ∷ xs) =
    let chunk = min (length (x ∷ xs)) size in
    (
      omega (arith, length-take chunk (x ∷ xs)),
      fragments-Fits fuel header size last false (drop chunk (x ∷ xs)),
    )

chunk_loop-Fits : (fuel size : ℕ) (frame : List ℕ) → All (Fits size) (chunk_loop fuel size frame)
unfolding chunk_loop
chunk_loop-Fits fuel size [] = tt
chunk_loop-Fits zero size (x ∷ xs) = tt
chunk_loop-Fits (suc fuel) size (x ∷ xs) =
    let chunk = if ltb size (length (x ∷ xs)) then size else length (x ∷ xs) in
    let small : chunk ≤ size = ground arith in
    (omega (arith, length-take chunk (x ∷ xs)), chunk_loop-Fits fuel size (drop chunk (x ∷ xs)))

pub packetize_nalu-Fits :
    (alloc : Bool) (nalu : List ℕ) (size : ℕ) (last : Bool)
    → All (Fits size) (packetize_nalu alloc nalu size last)
unfolding packetize_nalu fragment_nalu
packetize_nalu-Fits alloc [] size last = tt
packetize_nalu-Fits alloc (h ∷ body) size last =
    let whole : List Packet = record { payload = h ∷ body; marker = last } ∷ [] in
    let parts = fragments (length body) h (size - 2) last true body in
    All-if size (length (h ∷ body) == 0) [] _ (λ e. tt)
      λ e.
        All-if size (leb (length (h ∷ body)) size) whole _ (λ f. (ground arith, tt))
          λ f.
            All-if size (leb size 2) [] _ (λ g. tt)
              λ g.
                All-if size (leb (length (h ∷ body)) 1) [] _ (λ k. tt)
                  λ k.
                    All-if size (not alloc) [] _ (λ l. tt)
                      λ l.
                        let m : size - 2 + 2 ≡ size = ground arith in
                        subst (λ n. All (Fits n) parts) m
                          (fragments-Fits (length body) h (size - 2) last true body)

nalu_loop-Fits :
    (fuel : ℕ) (alloc : ℕ → Bool) (size offset : ℕ) (frame : List ℕ)
    → All (Fits size) (nalu_loop fuel alloc size offset frame)
unfolding nalu_loop
nalu_loop-Fits fuel alloc size offset [] = tt
nalu_loop-Fits zero alloc size offset (x ∷ xs) = tt
nalu_loop-Fits (suc fuel) alloc size offset (x ∷ xs) =
    let next_start = find_start_code (x ∷ xs) in
    let next_start_code = start_code_len (drop next_start (x ∷ xs)) in
    let moved = next_start + next_start_code in
    let later = nalu_loop-Fits fuel alloc size (offset + moved) (drop moved (x ∷ xs)) in
    All-if size (next_start == 0) _ _ (λ e. later)
      (λ e.
        All-if size (next_start == length (x ∷ xs)) _ _
          (λ f. packetize_nalu-Fits (alloc offset) (take next_start (x ∷ xs)) size true)
          (λ f.
            All-append (Fits size) _ _
              (packetize_nalu-Fits (alloc offset) (take next_start (x ∷ xs)) size false) later))

-- Whatever the codec, the MTU, the frame and the outcome of the allocations, no packet is larger
-- than the MTU less the 12 bytes of the RTP header.
pub packetize_frame-Fits :
    (alloc : ℕ → Bool) (codec : CodecId) (mtu : ℕ) (frame : List ℕ)
    → All (Fits (mtu - 12)) (packetize_frame alloc codec mtu frame)
unfolding packetize_frame
packetize_frame-Fits alloc codec mtu frame =
    let size = mtu - 12 in
    let start = start_code_len frame in
    All-if size (ltb mtu 20) _ _ (λ e. tt)
      (λ e.
        All-if size (is_h264 codec) _ _
          (λ f.
            All-if size (not (start == 0)) _ _
              (λ g. nalu_loop-Fits (length frame) alloc size start (drop start frame))
              (λ g. packetize_nalu-Fits (alloc 0) frame size true))
          (λ f. chunk_loop-Fits (length frame) size frame))
