-- ===== src/Signaling/Fragmented.antt =====
-- Messages that come in several frames, in `sig_read_ws_frame` of src/signaling/signaling.c.
use tinyrtc.Prelude.{
  ℕ, ◌+◌, ◌≤◌, ◌<◌, ◌≡◌, ◌⊎◌, inl, inr, lt_cases, if◌then◌else◌, refl, ap, ◌∙◌, Bool, true, false,
  List, [], ◌∷◌, ◌++◌, arith, length, length-append, append_assoc, concat, map, ltb, Option, none,
  some, if-false, if-true, sym,
}
use tinyrtc.Signaling.{Signaling, max_recv_buf}
use tinyrtc.Signaling.Frames.{
  Frame, Output, message, Handled, append_part, keep_part, end_part, start_message,
  continue_message, handle_frame, accept_frame,
}
use tinyrtc.Signaling.Exchange.{accept_frame_lem}

-- A part of a message: its first frame, one in the middle, and the last one.
abbrev pub first_part : List ℕ → Frame
first_part bytes = record { fin = false; opcode = 1; payload = bytes }

abbrev pub middle_part : List ℕ → Frame
middle_part bytes = record { fin = false; opcode = 0; payload = bytes }

abbrev pub last_part : List ℕ → Frame
last_part bytes = record { fin = true; opcode = 0; payload = bytes }

-- A client between two parts: it holds the bytes `acc`.
abbrev pub between : Signaling → List ℕ → Signaling
between sig acc = record sig { recv_buf = []; message_buf = some acc }

append_part_lem :
    (buffer part : List ℕ)
    → length buffer + length part ≤ max_recv_buf
    → append_part buffer part ≡ some (buffer ++ part)
unfolding append_part
append_part_lem buffer part fits =
    let room : ltb max_recv_buf (length buffer + length part) ≡ false = ground arith in
    if-false _ none (some (buffer ++ part)) room

append_part_refused :
    (buffer part : List ℕ)
    → max_recv_buf < length buffer + length part
    → append_part buffer part ≡ none
unfolding append_part
append_part_refused buffer part long =
    let full : ltb max_recv_buf (length buffer + length part) ≡ true = ground arith in
    if-true _ none (some (buffer ++ part)) full

-- A message of `n` bytes: where they fit, it is handed on whole and the client is in the state `sig`;
-- where they do not, the call fails and nothing is handed on.
abbrev pub Verdict : ℕ → List ℕ → Signaling → Handled → Type 0
Verdict n whole sig result =
    (n ≤ max_recv_buf) × (result ≡ (true, sig, message whole ∷ []))
    ⊎ (max_recv_buf < n) × (result.0 ≡ false) × (result.2 ≡ [])

module _ (deliver : List ℕ → Bool) (alloc : Bool) (answer : List ℕ) where
  -- The frames arrive one after the other, until a call fails: whether none did, the state, and what
  -- was handed on.
  unfoldable pub accept_all : Signaling → List Frame → Handled
  unfolding accept_frame
  accept_all sig [] = (true, sig, [])
  accept_all sig (frame ∷ frames) =
      let (going, after, outputs) = accept_frame deliver alloc answer sig frame in
      let (fine, last, later) = accept_all after frames in
      if going then (fine, last, outputs ++ later) else (false, after, outputs)

  accept_all_more :
      (sig after : Signaling) (frame : Frame) (frames : List Frame) (outputs : List Output)
      → accept_frame deliver alloc answer sig frame ≡ (true, after, outputs)
      → accept_all sig (frame ∷ frames) ≡ (
        (accept_all after frames).0,
        (accept_all after frames).1,
        outputs ++ (accept_all after frames).2,
      )
  unfolding accept_all
  accept_all_more sig after frame frames outputs e =
      ap
        (λ (x : Handled).
          if x.0
          then (
            (accept_all x.1 frames).0,
            (accept_all x.1 frames).1,
            x.2 ++ (accept_all x.1 frames).2,
          )
          else (false, x.1, x.2))
        e

  accept_all_stops :
      (sig after : Signaling) (frame : Frame) (frames : List Frame)
      → accept_frame deliver alloc answer sig frame ≡ (false, after, [])
      → accept_all sig (frame ∷ frames) ≡ (false, after, [])
  unfolding accept_all
  accept_all_stops sig after frame frames e =
      ap
        (λ (x : Handled).
          if x.0
          then (
            (accept_all x.1 frames).0,
            (accept_all x.1 frames).1,
            x.2 ++ (accept_all x.1 frames).2,
          )
          else (false, x.1, x.2))
        e

  -- A continuation is appended or refused.
  accept_part :
      (sig : Signaling) (acc bytes : List ℕ) (fin : Bool)
      → accept_frame deliver alloc answer
          (between sig acc)
          (record { fin = fin; opcode = 0; payload = bytes })
        ≡ end_part
            (record sig { recv_buf = bytes; message_buf = some acc })
            fin
            (append_part acc bytes)
  unfolding handle_frame continue_message
  accept_part sig acc bytes fin =
      accept_frame_lem deliver alloc answer (between sig acc)
        (record { fin = fin; opcode = 0; payload = bytes }) refl

  accept_refused :
      (sig : Signaling) (acc bytes : List ℕ) (fin : Bool) (frames : List Frame)
      → max_recv_buf < length acc + length bytes
      → accept_all (between sig acc) (record { fin = fin; opcode = 0; payload = bytes } ∷ frames)
        ≡ (false, record sig { recv_buf = bytes; message_buf = some acc }, [])
  unfolding end_part
  accept_refused sig acc bytes fin frames long =
      accept_all_stops (between sig acc) (record sig { recv_buf = bytes; message_buf = some acc })
        (record { fin = fin; opcode = 0; payload = bytes }) frames
        (accept_part sig acc bytes fin
          ∙ ap (end_part (record sig { recv_buf = bytes; message_buf = some acc }) fin)
              (append_part_refused acc bytes long))

  accept_middle :
      (sig : Signaling) (acc bytes : List ℕ)
      → length acc + length bytes ≤ max_recv_buf
      → accept_frame deliver alloc answer (between sig acc) (middle_part bytes)
        ≡ (true, between sig (acc ++ bytes), [])
  unfolding end_part
  accept_middle sig acc bytes fits =
      accept_part sig acc bytes false
      ∙ ap (end_part (record sig { recv_buf = bytes; message_buf = some acc }) false)
          (append_part_lem acc bytes fits)

  accept_last :
      (sig : Signaling) (acc bytes : List ℕ)
      → length acc + length bytes ≤ max_recv_buf
      → accept_frame deliver alloc answer (between sig acc) (last_part bytes)
        ≡ (true, record sig { recv_buf = []; message_buf = none }, message (acc ++ bytes) ∷ [])
  unfolding end_part
  accept_last sig acc bytes fits =
      accept_part sig acc bytes true
      ∙ ap (end_part (record sig { recv_buf = bytes; message_buf = some acc }) true)
          (append_part_lem acc bytes fits)

  accept_first :
      (sig : Signaling) (bytes : List ℕ)
      → alloc ≡ true
      → sig.recv_buf ≡ []
      → sig.message_buf ≡ none
      → accept_frame deliver alloc answer sig (first_part bytes)
        ≡ keep_part (record sig { recv_buf = bytes }) [] (append_part [] bytes)
  unfolding handle_frame start_message
  accept_first sig bytes given empty fresh =
      let filled : Signaling = record sig { recv_buf = bytes } in
      accept_frame_lem deliver alloc answer sig (first_part bytes) empty
      ∙ ap (start_message alloc filled bytes) fresh
      ∙ if-true alloc (keep_part filled [] (append_part [] bytes)) _ given

  -- The parts behind the first one.
  accept_rest :
      (middles : List (List ℕ)) (sig : Signaling) (acc last : List ℕ)
      → Verdict
          (length acc + length (concat middles ++ last))
          (acc ++ (concat middles ++ last))
          (record sig { recv_buf = []; message_buf = none })
          (accept_all (between sig acc) (map middle_part middles ++ (last_part last ∷ [])))
  accept_rest [] sig acc last = elim (lt_cases max_recv_buf (length acc + length last)) [
    | inl (long, _) ↦
        let stop = accept_refused sig acc last true [] long in
        inr (long, ap (λ (r : Handled). r.0) stop, ap (λ (r : Handled). r.2) stop)
    | inr (fits, _) ↦
        let done = record sig { recv_buf = []; message_buf = none } in
        let more =
          accept_all_more (between sig acc) done (last_part last) [] (message (acc ++ last) ∷ [])
            (accept_last sig acc last (omega arith)) in
        inl (omega arith, more ∙ (unfold accept_all in refl))
  ]
  accept_rest (m ∷ ms) sig acc last =
      let a = length-append (m ++ concat ms) last in
      let b = length-append m (concat ms) in
      let c = length-append acc m in
      let d = length-append (concat ms) last in
      elim (lt_cases max_recv_buf (length acc + length m)) [
        | inl (long, _) ↦
            let stop =
              accept_refused sig acc m false (map middle_part ms ++ (last_part last ∷ [])) long in
            inr (
              omega (arith, a, b, long),
              ap (λ (r : Handled). r.0) stop,
              ap (λ (r : Handled). r.2) stop,
            )
        | inr (fits, _) ↦
            let frames = map middle_part ms ++ (last_part last ∷ []) in
            let more =
              accept_all_more (between sig acc) (between sig (acc ++ m)) (middle_part m) frames []
                (accept_middle sig acc m (omega arith)) in
            let whole : (acc ++ m) ++ (concat ms ++ last) ≡ acc ++ ((m ++ concat ms) ++ last) =
              append_assoc acc m (concat ms ++ last)
              ∙ ap (λ r. acc ++ r) (sym (append_assoc m (concat ms) last)) in
            let size : length (acc ++ m) + length (concat ms ++ last)
                ≡ length acc + length ((m ++ concat ms) ++ last) =
              omega (arith, a, b, c, d) in
            elim (accept_rest ms sig (acc ++ m) last) [
              | inl (short, e) ↦ inl (
                omega (arith, size),
                more
                    ∙ e
                    ∙ ap
                        (λ w.
                          (true, record sig { recv_buf = []; message_buf = none }, message w ∷ []))
                        whole,
              )
              | inr (over, e, f) ↦ inr (
                omega (arith, size),
                ap (λ (r : Handled). r.0) more ∙ e,
                ap (λ (r : Handled). r.2) more ∙ f,
              )
            ]
      ]

-- A message that comes in any number of parts (a text frame without the final bit, continuations
-- without it, and one with it), to a client that holds no part of another message and whose
-- allocation succeeds: if it has at most 8192 bytes it is handed on exactly once, whole and in
-- order, no call fails, and the client is in the same state as before; if it has more, a call fails
-- and nothing is handed on.
pub accept_all_lem :
    (deliver : List ℕ → Bool) (answer : List ℕ) (sig : Signaling) (first last : List ℕ)
    (middles : List (List ℕ))
    → sig.recv_buf ≡ []
    → sig.message_buf ≡ none
    → Verdict
        (length first + length (concat middles ++ last))
        (first ++ (concat middles ++ last))
        sig
        (accept_all deliver true answer sig
          (first_part first ∷ (map middle_part middles ++ (last_part last ∷ []))))
unfolding keep_part
accept_all_lem deliver answer sig first last middles empty fresh =
    let filled : Signaling = record sig { recv_buf = first } in
    let frames = map middle_part middles ++ (last_part last ∷ []) in
    let begun = accept_first deliver true answer sig first refl empty fresh in
    elim (lt_cases max_recv_buf (length first)) [
      | inl (long, _) ↦
          let stop =
            accept_all_stops deliver true answer sig (record filled { message_buf = some [] })
              (first_part first) frames
              (begun ∙ ap (keep_part filled []) (append_part_refused [] first (omega arith))) in
          inr (omega (arith, long), ap (λ (r : Handled). r.0) stop, ap (λ (r : Handled). r.2) stop)
      | inr (fits, _) ↦
          let more =
            accept_all_more deliver true answer sig (between sig first) (first_part first) frames []
              (begun ∙ ap (keep_part filled []) (append_part_lem [] first (omega arith))) in
          let same : record sig { recv_buf = []; message_buf = none } ≡ sig =
            ap (λ (b : List ℕ). record sig { recv_buf = b; message_buf = none }) (sym empty)
            ∙ ap (λ (o : Option (List ℕ)). record sig { message_buf = o }) (sym fresh) in
          elim (accept_rest deliver true answer middles sig first last) [
            | inl (short, e) ↦ inl (
              short,
              more
                  ∙ e
                  ∙ ap
                      (λ (x : Signaling).
                        (true, x, message (first ++ (concat middles ++ last)) ∷ []))
                      same,
            )
            | inr (over, e, f) ↦
                inr (over, ap (λ (r : Handled). r.0) more ∙ e, ap (λ (r : Handled). r.2) more ∙ f)
          ]
    ]
