-- ===== src/Signaling/Safety.antt =====
-- What `tinyrtc_signaling_process` of src/signaling/signaling.c keeps of the buffers, whatever
-- arrives at the socket.
use tinyrtc.Prelude.{
  ℕ, zero, suc, ◌≤◌, ◌≡◌, inl, inr, refl, ap, Bool, true, false, List, [], ◌∷◌, Option, none, some,
  arith, ltb, lt_cases, length, low_bits, leb, get_or, sym, ◌+◌, length-append, if◌then◌else◌, ◌==◌,
  be16,
}
use mathlib.Core.Path.{subst}
use tinyrtc.Signaling.{
  Signaling, SignalingState, connected, disconnected, connecting, error, Incoming, byte, want,
  broken, max_recv_buf, max_send_buf,
}
use tinyrtc.Signaling.Frames.{
  Reader, Reading, ready, idle, lost, overrun, ◌>>=◌, cons_byte, read_into, join_bytes, read_bytes,
  read_length, apply_mask, Frame, make_frame, read_payload, read_masked, read_behind, read_frame,
  Output, message, frame_header, frame_bytes, send_in, send_ws_frame, append_part, Handled,
  keep_part, start_message, end_part, continue_message, clear, handle_frame, after_reading,
  read_ws_frame, process, process_in, finish_call,
}
use tinyrtc.Signaling.Stream.{length-apply_mask, read_into-read_bytes}
use tinyrtc.Signaling.Exchange.{accept_frame_lem}

-- Nothing is written behind the buffer, and a property of what was read, where something was.
unfoldable pub Holds : {A : Type 0} → (A → Type 0) → Reading A → Type 0
Holds P (ready a t) = P a
Holds P (idle t) = Unit
Holds P (lost t) = Unit
Holds P (overrun t) = ⊥

bind-Holds :
    {A B : Type 0} (P : A → Type 0) (Q : B → Type 0) (m : Reader A) (f : A → Reader B)
    (s : List Incoming)
    → Holds P (m s)
    → ((a : A) (t : List Incoming) → P a → Holds Q (f a t))
    → Holds Q ((m >>= f) s)
unfolding Holds
bind-Holds {B = B} P Q m f s p q =
    (elim (m s)
        as (λ r.
          Holds P r
          → Holds Q (elim r as (λ _. Reading B) [
            | ready b u ↦ f b u
            | idle u ↦ idle u
            | lost u ↦ lost u
            | overrun u ↦ overrun u
          ])) [
            | ready a t ↦ λ h. q a t h
            | idle t ↦ λ h. tt
            | lost t ↦ λ h. tt
            | overrun t ↦ λ h. absurd h
          ])
      p

cons_byte-Holds :
    (n b : ℕ) (r : Reading (List ℕ))
    → Holds (λ bs. length bs ≡ n) r
    → Holds (λ bs. length bs ≡ suc n) (cons_byte b r)
unfolding Holds cons_byte
cons_byte-Holds n b (ready bs t) h = ap suc h
cons_byte-Holds n b (idle t) h = tt
cons_byte-Holds n b (lost t) h = tt
cons_byte-Holds n b (overrun t) h = absurd h

read_bytes-Holds : (n : ℕ) (s : List Incoming) → Holds (λ bs. length bs ≡ n) (read_bytes n s)
unfolding Holds read_bytes
read_bytes-Holds zero s = refl
read_bytes-Holds (suc n) [] = tt
read_bytes-Holds (suc n) (want ∷ s) = tt
read_bytes-Holds (suc n) (broken ∷ s) = tt
read_bytes-Holds (suc n) (byte b ∷ s) = cons_byte-Holds n b (read_bytes n s) (read_bytes-Holds n s)

-- Nothing is known of what was read, but that no byte was written behind the buffer.
abbrev IsSafe : {A : Type 0} → Reading A → Type 0
IsSafe = Holds (λ _. Unit)

read_bytes-IsSafe : (n : ℕ) (s : List Incoming) → IsSafe (read_bytes n s)
unfolding Holds
read_bytes-IsSafe n s =
    (elim (read_bytes n s) as (λ (r : Reading (List ℕ)). Holds (λ bs. length bs ≡ n) r → IsSafe r) [
      | ready bs t ↦ λ h. tt
      | idle t ↦ λ h. tt
      | lost t ↦ λ h. tt
      | overrun t ↦ λ h. h
    ])
      (read_bytes-Holds n s)

if-IsSafe :
    {A : Type 0} (b : Bool) (m n : Reader A) (s : List Incoming)
    → IsSafe (m s)
    → IsSafe (n s)
    → IsSafe ((if b then m else n) s)
if-IsSafe true m n s p q = p
if-IsSafe false m n s p q = q

read_length-IsSafe : (payload_len : ℕ) (s : List Incoming) → IsSafe (read_length payload_len s)
unfolding Holds read_length
read_length-IsSafe payload_len s =
    if-IsSafe (payload_len == 126) _ _ s
      (bind-Holds (λ _. Unit) (λ _. Unit) (read_bytes 2)
        (λ ext. ready (be16 (get_or ext 0 0) (get_or ext 1 0))) s (read_bytes-IsSafe 2 s)
        (λ ext t _. tt))
      (if-IsSafe (payload_len == 127) _ (ready payload_len) s
        (bind-Holds (λ _. Unit) (λ _. Unit) (read_bytes 8) (λ ext. ready (join_bytes 0 ext)) s
          (read_bytes-IsSafe 8 s) (λ ext t _. tt))
        tt)

length-make_frame :
    (hdr mask received : List ℕ) → length (make_frame hdr mask received).payload ≡ length received
unfolding make_frame
length-make_frame hdr mask received =
    elim (leb 128 (get_or hdr 1 0))
      as (λ b. length (if b then apply_mask mask 0 received else received) ≡ length received) [
        | true ↦ length-apply_mask mask 0 received
        | false ↦ refl
      ]

abbrev Fits : Frame → Type 0
Fits frame = length frame.payload ≤ max_recv_buf

read_payload-Holds :
    (hdr : List ℕ) (len : ℕ) (mask : List ℕ) (s : List Incoming)
    → Holds Fits (read_payload 0 hdr len mask s)
unfolding Holds read_payload
read_payload-Holds hdr len mask s = elim (lt_cases max_recv_buf len) [
  | inl (long, _) ↦ let t : ltb max_recv_buf len ≡ true = ground arith in rw t tt
  | inr (short, _) ↦
      let t : ltb max_recv_buf len ≡ false = ground arith in
      let stored : Holds (λ (bs : List ℕ). length bs ≡ len) (read_into 0 len s) =
        subst (Holds (λ (bs : List ℕ). length bs ≡ len))
          (sym (read_into-read_bytes 0 len s (omega arith))) (read_bytes-Holds len s) in
      rw t (
        bind-Holds (λ bs. length bs ≡ len) Fits (read_into 0 len)
          (λ r. ready (make_frame hdr mask r)) s stored
          (λ r t e. let f = length-make_frame hdr mask r in omega (arith, f, e)))
]

read_frame-Holds : (s : List Incoming) → Holds Fits (read_frame 0 s)
unfolding Holds read_frame read_behind read_masked
read_frame-Holds s =
    bind-Holds (λ _. Unit) Fits (read_bytes 2) (read_behind 0) s (read_bytes-IsSafe 2 s)
      (λ hdr t _.
        bind-Holds (λ _. Unit) Fits (read_length (low_bits 7 (get_or hdr 1 0))) (read_masked 0 hdr)
          t (read_length-IsSafe (low_bits 7 (get_or hdr 1 0)) t)
          (λ len u _.
            bind-Holds (λ _. Unit) Fits
              (if leb 128 (get_or hdr 1 0) then read_bytes 4 else ready []) (read_payload 0 hdr len)
              u
              (if-IsSafe (leb 128 (get_or hdr 1 0)) (read_bytes 4) (ready []) u
                (read_bytes-IsSafe 4 u) tt)
              (λ mask v _. read_payload-Holds hdr len mask v)))

-- The parts of a message that have come, if any have.
unfoldable pub get_parts : Option (List ℕ) → List ℕ
get_parts none = []
get_parts (some bytes) = bytes

both_same :
    (b : Bool) (x y : Bool × Signaling × List Output) (sig : Signaling)
    → x.1.message_buf ≡ sig.message_buf
    → y.1.message_buf ≡ sig.message_buf
    → (if b then x else y).1.message_buf ≡ sig.message_buf
both_same true x y sig p q = p
both_same false x y sig p q = q

-- Between two frames the receive buffer is empty, and the parts of a message fit their buffer.
pub record IsValid (sig : Signaling) : Type 0 where
  pub empty : sig.recv_buf ≡ []
  pub parts_fit : length (get_parts sig.message_buf) ≤ max_recv_buf

-- A call that goes on leaves a valid state.
Keeps : Handled → Type 0
Keeps (going, sig, outputs) = going ≡ true → IsValid sig

if-Keeps : (b : Bool) (x y : Handled) → Keeps x → Keeps y → Keeps (if b then x else y)
if-Keeps true x y p q = p
if-Keeps false x y p q = q

fails-Keeps : (sig : Signaling) (outputs : List Output) → Keeps (false, sig, outputs)
unfolding Keeps
fails-Keeps sig outputs h = absurd (cc)

append_part-fit :
    (buffer part : List ℕ) → length (get_parts (append_part buffer part)) ≤ max_recv_buf
unfolding append_part get_parts
append_part-fit buffer part = elim (lt_cases max_recv_buf (length buffer + length part)) [
  | inl (long, _) ↦
      let t : ltb max_recv_buf (length buffer + length part) ≡ true = ground arith in
      rw t (omega arith)
  | inr (short, _) ↦
      let t : ltb max_recv_buf (length buffer + length part) ≡ false = ground arith in
      rw t (omega (arith, length-append buffer part))
]

keep_part-Keeps :
    (sig : Signaling) (bytes : List ℕ) (all : Option (List ℕ))
    → length (get_parts all) ≤ max_recv_buf
    → Keeps (keep_part sig bytes all)
unfolding Keeps keep_part get_parts
keep_part-Keeps sig bytes none fits = fails-Keeps _ []
keep_part-Keeps sig bytes (some all) fits = λ _. record { empty = refl; parts_fit = fits }

start_message-Keeps :
    (alloc : Bool) (sig : Signaling) (part : List ℕ) (parts : Option (List ℕ))
    → Keeps (start_message alloc sig part parts)
unfolding start_message
start_message-Keeps alloc sig part none =
    if-Keeps alloc _ _ (keep_part-Keeps sig [] _ (append_part-fit [] part)) (fails-Keeps sig [])
start_message-Keeps alloc sig part (some bytes) =
    keep_part-Keeps sig bytes _ (append_part-fit bytes part)

end_part-Keeps :
    (sig : Signaling) (fin : Bool) (all : Option (List ℕ))
    → length (get_parts all) ≤ max_recv_buf
    → Keeps (end_part sig fin all)
unfolding Keeps end_part get_parts
end_part-Keeps sig fin none fits = fails-Keeps sig []
end_part-Keeps sig true (some all) fits = λ _. record { empty = refl; parts_fit = omega arith }
end_part-Keeps sig false (some all) fits = λ _. record { empty = refl; parts_fit = fits }

continue_message-Keeps :
    (sig : Signaling) (fin : Bool) (part : List ℕ) (parts : Option (List ℕ))
    → Keeps (continue_message sig fin part parts)
unfolding continue_message
continue_message-Keeps sig fin part none = fails-Keeps sig []
continue_message-Keeps sig fin part (some bytes) =
    end_part-Keeps sig fin _ (append_part-fit bytes part)

send_in-message_buf :
    (st : SignalingState) (deliver : List ℕ → Bool) (sig : Signaling) (opcode : ℕ)
    (mask payload : List ℕ)
    → (send_in st deliver sig opcode mask payload).1.message_buf ≡ sig.message_buf
unfolding send_in
send_in-message_buf connected deliver sig opcode mask payload =
    both_same
      (ltb max_send_buf (length (frame_header opcode (length payload)) + 4 + length payload)) _ _
      sig refl (both_same (deliver (frame_bytes opcode mask payload)) _ _ sig refl refl)
send_in-message_buf disconnected deliver sig opcode mask payload = refl
send_in-message_buf connecting deliver sig opcode mask payload = refl
send_in-message_buf error deliver sig opcode mask payload = refl

module _ (deliver : List ℕ → Bool) (alloc : Bool) (mask : List ℕ) where
  handle_frame-Keeps :
      (sig : Signaling) (fin : Bool) (opcode : ℕ) (part : List ℕ)
      → length (get_parts sig.message_buf) ≤ max_recv_buf
      → Keeps (handle_frame deliver alloc mask sig fin opcode part)
  unfolding handle_frame Keeps send_ws_frame
  handle_frame-Keeps sig fin opcode part fits =
      let whole =
        if-Keeps fin (true, clear sig, message part ∷ []) _
          (λ _. record { empty = refl; parts_fit = fits })
          (start_message-Keeps alloc sig part sig.message_buf) in
      let pong = send_in-message_buf sig.state deliver sig 10 mask part in
      if-Keeps (opcode == 1) _ _ whole (
        if-Keeps (opcode == 2) _ _ whole (
          if-Keeps (opcode == 0) _ _ (continue_message-Keeps sig fin part sig.message_buf) (
            if-Keeps (opcode == 8) _ _ (fails-Keeps _ []) (
              if-Keeps (opcode == 9) _ _
                (λ _. record {
                  empty = refl;
                  parts_fit = subst (λ b. length (get_parts b) ≤ max_recv_buf) (sym pong) fits;
                })
                (λ _. record { empty = refl; parts_fit = fits })))))

  -- The result of one frame: nothing is written behind the receive buffer, and the state is valid
  -- again where the call goes on.
  Sound : (Bool × Handled) × List Incoming → Type 0
  Sound ((safe, handled), rest) = (safe ≡ true) × Keeps handled

  after_reading-Sound :
      (sig : Signaling) (r : Reading Frame)
      → IsValid sig
      → Holds Fits r
      → Sound (after_reading deliver alloc mask sig r)
  unfolding after_reading Holds Sound Keeps
  after_reading-Sound sig (ready frame rest) valid fits =
      subst (λ h. Sound ((true, h), rest))
        (sym (accept_frame_lem deliver alloc mask sig frame valid.empty))
        (
          refl,
          handle_frame-Keeps (record sig { recv_buf = frame.payload }) frame.fin frame.opcode
              frame.payload valid.parts_fit,
        )
  after_reading-Sound sig (idle rest) valid _ = (refl, λ _. valid)
  after_reading-Sound sig (lost rest) valid _ = (refl, fails-Keeps sig [])
  after_reading-Sound sig (overrun rest) valid h = absurd h

  -- The result of a call.
  Ends : (Bool × Signaling × List Output) × List Incoming → Type 0
  Ends ((safe, sig, outputs), rest) = (safe ≡ true) × (sig.state ≡ connected → IsValid sig)

  finish_call-Ends :
      (r : (Bool × Handled) × List Incoming) → Sound r → Ends (finish_call deliver alloc mask r)
  unfolding finish_call Sound Ends Keeps
  finish_call-Ends ((safe, (true, after, outputs)), rest) (s, keeps) = (s, λ _. keeps refl)
  finish_call-Ends ((safe, (false, after, outputs)), rest) (s, keeps) = (s, λ h. absurd (cc))

  process_in-Ends :
      (st : SignalingState) (sig : Signaling) (input : List Incoming)
      → sig.state ≡ st
      → (sig.state ≡ connected → IsValid sig)
      → Ends (process_in deliver alloc mask st sig input)
  unfolding process_in read_ws_frame Ends
  process_in-Ends connected sig input e valid =
      let start : Holds Fits (read_frame (length sig.recv_buf) input) =
        subst (λ (b : List ℕ). Holds Fits (read_frame (length b) input)) (sym (valid e).empty)
          (read_frame-Holds input) in
      finish_call-Ends _
        (after_reading-Sound sig (read_frame (length sig.recv_buf) input) (valid e) start)
  process_in-Ends disconnected sig input e valid = (refl, valid)
  process_in-Ends connecting sig input e valid = (refl, valid)
  process_in-Ends error sig input e valid = (refl, valid)

-- A client that is not connected or whose buffers are valid is that again after a call, whatever
-- arrives, also where the call fails and where frames stop in the middle; and no byte is written
-- behind the end of the receive buffer. Valid means that the receive buffer is empty and that the
-- parts of an unfinished message fit the message buffer. The answers to pings may fail.
pub process-IsValid :
    (deliver : List ℕ → Bool) (alloc : Bool) (mask : List ℕ) (sig : Signaling)
    (input : List Incoming)
    → (sig.state ≡ connected → IsValid sig)
    → (process deliver alloc mask sig input).0.0 ≡ true
      × ((process deliver alloc mask sig input).0.1.state ≡ connected
          → IsValid (process deliver alloc mask sig input).0.1)
unfolding process Ends
process-IsValid deliver alloc mask sig input valid =
    process_in-Ends deliver alloc mask sig.state sig input refl valid
