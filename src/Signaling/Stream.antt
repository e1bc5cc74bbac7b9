-- ===== src/Signaling/Stream.antt =====
-- The reading of a frame, piece by piece, from bytes that are there: `sig_read_ws_frame` of
-- src/signaling/signaling.c.
use tinyrtc.Prelude.{
  ℕ, zero, suc, ◌+◌, ◌≤◌, ◌%◌, ◌≡◌, refl, ap, ◌∙◌, true, false, List, [], ◌∷◌, ◌++◌, arith, ltb,
  leb, length, get_or, low_bits, if-true, if-false, if◌then◌else◌,
}
use tinyrtc.Prelude.Bits.{bit_xor_cancel}
use tinyrtc.Signaling.{Incoming, byte, want, broken, max_recv_buf}
use tinyrtc.Signaling.Frames.{
  Reader, Reading, make_frame, read_payload, read_masked, read_behind, ready, idle, lost, overrun,
  ◌>>=◌, cons_byte, read_into, read_bytes, read_length, read_frame, apply_mask, Frame,
}

-- The bytes arrive one after the other, and then `rest`.
unfoldable pub stream : List ℕ → List Incoming → List Incoming
stream [] rest = rest
stream (b ∷ bs) rest = byte b ∷ stream bs rest

pub stream-append :
    (xs ys : List ℕ) (rest : List Incoming) → stream (xs ++ ys) rest ≡ stream xs (stream ys rest)
unfolding stream
stream-append [] ys rest = refl
stream-append (x ∷ xs) ys rest = ap (λ s. byte x ∷ s) (stream-append xs ys rest)

pub read_bytes-stream :
    (n : ℕ) (bs : List ℕ) (rest : List Incoming)
    → length bs ≡ n
    → read_bytes n (stream bs rest) ≡ ready bs rest
unfolding read_bytes stream
read_bytes-stream zero [] rest h = refl
read_bytes-stream zero (b ∷ bs) rest h = absurd (omega arith)
read_bytes-stream (suc n) [] rest h = absurd (omega arith)
read_bytes-stream (suc n) (b ∷ bs) rest h = rw (read_bytes-stream n bs rest (omega arith))

-- Where the bytes fit the buffer, reading them into it is reading them.
pub read_into-read_bytes :
    (i n : ℕ) (s : List Incoming) → i + n ≤ max_recv_buf → read_into i n s ≡ read_bytes n s
unfolding read_into read_bytes
read_into-read_bytes i zero s h = refl
read_into-read_bytes i (suc n) [] h = refl
read_into-read_bytes i (suc n) (want ∷ s) h = refl
read_into-read_bytes i (suc n) (broken ∷ s) h = refl
read_into-read_bytes i (suc n) (byte b ∷ s) h =
    let room : ltb i max_recv_buf ≡ true = ground arith in
    if-true _ _ _ room ∙ ap (cons_byte b) (read_into-read_bytes (suc i) n s (omega arith))

-- A chain whose first step is ready goes on with the second one.
bind_ready :
    {A B : Type 0} (m : Reader A) (f : A → Reader B) (s t : List Incoming) (a : A)
    → m s ≡ ready a t
    → (m >>= f) s ≡ f a t
bind_ready {B = B} m f s t a e =
    ap
      (λ r. elim r as (λ _. Reading B) [
        | ready b u ↦ f b u
        | idle u ↦ idle u
        | lost u ↦ lost u
        | overrun u ↦ overrun u
      ])
      e

pub length-apply_mask :
    (mask : List ℕ) (i : ℕ) (bs : List ℕ) → length (apply_mask mask i bs) ≡ length bs
unfolding apply_mask
length-apply_mask mask i [] = refl
length-apply_mask mask i (b ∷ bs) = ap suc (length-apply_mask mask (suc i) bs)

-- The mask is its own inverse.
pub apply_mask_twice :
    (mask : List ℕ) (i : ℕ) (bs : List ℕ) → apply_mask mask i (apply_mask mask i bs) ≡ bs
unfolding apply_mask
apply_mask_twice mask i [] = refl
apply_mask_twice mask i (b ∷ bs) =
    rw (bit_xor_cancel b (get_or mask (i % 4) 0), apply_mask_twice mask (suc i) bs)

pub read_frame_steps :
    (recv_len : ℕ) (s s1 s2 s3 s4 : List Incoming) (h0 h1 len : ℕ) (mask received : List ℕ)
    → read_bytes 2 s ≡ ready (h0 ∷ h1 ∷ []) s1
    → read_length (low_bits 7 h1) s1 ≡ ready len s2
    → leb 128 h1 ≡ true
    → read_bytes 4 s2 ≡ ready mask s3
    → ltb max_recv_buf len ≡ false
    → read_into recv_len len s3 ≡ ready received s4
    → read_frame recv_len s
      ≡ ready
          (record {
            fin = leb 128 h0;
            opcode = low_bits 4 h0;
            payload = apply_mask mask 0 received;
          })
          s4
unfolding read_frame read_behind read_masked read_payload make_frame
read_frame_steps recv_len s s1 s2 s3 s4 h0 h1 len mask received e1 e2 masked e3 room e4 =
    let hdr : List ℕ = h0 ∷ h1 ∷ [] in
    let mask_read : (if leb 128 h1 then read_bytes 4 else ready []) s2 ≡ ready mask s3 =
      ap (λ (m : Reader (List ℕ)). m s2) (if-true (leb 128 h1) (read_bytes 4) (ready []) masked)
      ∙ e3 in
    bind_ready (read_bytes 2) (read_behind recv_len) s s1 hdr e1
    ∙ bind_ready (read_length (low_bits 7 h1)) (read_masked recv_len hdr) s1 s2 len e2
    ∙ bind_ready (if leb 128 h1 then read_bytes 4 else ready []) (read_payload recv_len hdr len) s2
        s3 mask mask_read
    ∙ ap (λ (m : Reader Frame). m s3) (if-false (ltb max_recv_buf len) lost _ room)
    ∙ bind_ready (read_into recv_len len) (λ r. ready (make_frame hdr mask r)) s3 s4 received e4
    ∙ ap
        (λ (p : List ℕ).
          ready (record { fin = leb 128 h0; opcode = low_bits 4 h0; payload = p }) s4)
        (if-true (leb 128 h1) (apply_mask mask 0 received) received masked)
