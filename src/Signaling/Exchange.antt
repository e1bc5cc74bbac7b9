-- ===== src/Signaling/Exchange.antt =====
-- A frame on its way from `sig_send_ws_frame` to `sig_read_ws_frame` of src/signaling/signaling.c.
use tinyrtc.Prelude.{
  ℕ, ◌+◌, ◌≤◌, ◌<◌, ◌≡◌, refl, sym, ap, ◌∙◌, Bool, true, false, List, [], ◌∷◌, ◌++◌, arith, ltb,
  length, take, take-all, low_bits, if-false,
}
use tinyrtc.Signaling.{Signaling, connected, Incoming, max_recv_buf, max_send_buf}
use tinyrtc.Signaling.Frames.{
  ready, read_bytes, read_frame, apply_mask, Frame, frame_header, frame_bytes, message, sent,
  send_ws_frame, send_in, read_ws_frame, after_reading, accept_frame, handle_frame,
}
use tinyrtc.Signaling.Stream.{
  stream, stream-append, read_bytes-stream, read_into-read_bytes, length-apply_mask,
  apply_mask_twice, read_frame_steps,
}
use tinyrtc.Signaling.Headers.{frame_header-Announces, length-frame_header}

-- What `sig_send_ws_frame` writes is read back, with the same opcode and payload.
read_frame-frame_bytes :
    (opcode : ℕ) (mask payload : List ℕ) (rest : List Incoming)
    → opcode < 16
    → length mask ≡ 4
    → length payload ≤ max_recv_buf
    → read_frame 0 (stream (frame_bytes opcode mask payload) rest)
      ≡ ready (record { fin = true; opcode = opcode; payload = payload }) rest
unfolding frame_bytes stream read_bytes
read_frame-frame_bytes opcode mask payload rest small four fits =
    let len = length payload in
    let h = frame_header-Announces opcode len small (omega arith) in
    let masked = apply_mask mask 0 payload in
    let body = stream (mask ++ masked) rest in
    let header = frame_header opcode len in
    let split : stream (header ++ (mask ++ masked)) rest
        ≡ stream (h.first ∷ h.second ∷ h.extension) body =
      stream-append header (mask ++ masked) rest ∙ ap (λ x. stream x body) h.parts in
    let room : ltb max_recv_buf len ≡ false = ground arith in
    let mask_read : read_bytes 4 body ≡ ready mask (stream masked rest) =
      ap (read_bytes 4) (stream-append mask masked rest)
      ∙ read_bytes-stream 4 mask (stream masked rest) four in
    let last =
      read_frame_steps 0 (stream (h.first ∷ h.second ∷ h.extension) body) (stream h.extension body)
        body (stream masked rest) rest h.first h.second len mask masked refl (h.same_length body)
        h.is_masked mask_read room
        (read_into-read_bytes 0 len (stream masked rest) (omega arith)
          ∙ read_bytes-stream len masked rest (length-apply_mask mask 0 payload)) in
    ap (read_frame 0) split
    ∙ last
    ∙ ap
        (λ b.
          ready
            (record { fin = b; opcode = low_bits 4 h.first; payload = apply_mask mask 0 masked })
            rest)
        h.is_final
    ∙ ap (λ n. ready (record { fin = true; opcode = n; payload = apply_mask mask 0 masked }) rest)
        h.same_opcode
    ∙ ap (λ p. ready (record { fin = true; opcode = opcode; payload = p }) rest)
        (apply_mask_twice mask 0 payload)

send_ws_frame_lem :
    (sig : Signaling) (opcode : ℕ) (mask payload : List ℕ)
    → sig.state ≡ connected
    → length payload ≤ 8184
    → send_ws_frame (λ _. true) sig opcode mask payload
      ≡ (true, sig, sent (frame_bytes opcode mask payload) ∷ [])
unfolding send_ws_frame send_in
send_ws_frame_lem sig opcode mask payload on fits =
    let header = length-frame_header opcode (length payload) (omega arith) in
    let room : ltb max_send_buf (length (frame_header opcode (length payload)) + 4 + length payload)
        ≡ false =
      ground arith in
    ap (λ st. send_in st (λ _. true) sig opcode mask payload) on ∙ if-false _ _ _ room

module _ (deliver : List ℕ → Bool) (alloc : Bool) (answer : List ℕ) where
  pub read_ws_frame_lem :
      (sig : Signaling) (frame : Frame) (input rest : List Incoming)
      → read_frame (length sig.recv_buf) input ≡ ready frame rest
      → read_ws_frame deliver alloc answer sig input
        ≡ ((true, accept_frame deliver alloc answer sig frame), rest)
  unfolding read_ws_frame after_reading
  read_ws_frame_lem sig frame input rest e = ap (after_reading deliver alloc answer sig) e

  -- A frame that comes to an empty receive buffer is handled with its own payload.
  pub accept_frame_lem :
      (sig : Signaling) (frame : Frame)
      → sig.recv_buf ≡ []
      → accept_frame deliver alloc answer sig frame
        ≡ handle_frame deliver alloc answer
            (record sig { recv_buf = frame.payload })
            frame.fin
            frame.opcode
            frame.payload
  unfolding accept_frame
  accept_frame_lem sig frame empty =
      ap
        (λ (b : List ℕ).
          handle_frame deliver alloc answer (record sig { recv_buf = b ++ frame.payload }) frame.fin
            frame.opcode (take (length frame.payload) (b ++ frame.payload)))
        empty
      ∙ ap
          (λ (p : List ℕ).
            handle_frame deliver alloc answer (record sig { recv_buf = frame.payload }) frame.fin
              frame.opcode p)
          (take-all (length frame.payload) frame.payload (omega arith))

-- A text of at most 8184 bytes that a connected client sends, with any mask of four bytes and over
-- a network that takes it, is handed on by the reader at the other end as one message with the
-- same bytes; both sides are in the same state as before, and the reader stops exactly behind the
-- frame, whatever follows it.
pub read_ws_frame-send_ws_frame :
    (deliver : List ℕ → Bool) (alloc : Bool) (answer mask payload : List ℕ)
    (sender receiver : Signaling) (rest : List Incoming)
    → sender.state ≡ connected
    → receiver.recv_buf ≡ []
    → length mask ≡ 4
    → length payload ≤ 8184
    → (wire : List ℕ) × (send_ws_frame (λ _. true) sender 1 mask payload
        ≡ (true, sender, sent wire ∷ []))
      × (read_ws_frame deliver alloc answer receiver (stream wire rest)
          ≡ ((true, (true, receiver, message payload ∷ [])), rest))
unfolding handle_frame
read_ws_frame-send_ws_frame deliver alloc answer mask payload sender receiver rest on empty four
      fits =
    let frame : Frame = record { fin = true; opcode = 1; payload = payload } in
    let wire = frame_bytes 1 mask payload in
    (
      wire,
      send_ws_frame_lem sender 1 mask payload on fits,
      read_ws_frame_lem deliver alloc answer receiver frame (stream wire rest) rest (
            ap (λ (b : List ℕ). read_frame (length b) (stream wire rest)) empty
            ∙ read_frame-frame_bytes 1 mask payload rest (omega arith) four (omega arith))
          ∙ ap (λ h. ((true, h), rest)) (accept_frame_lem deliver alloc answer receiver frame empty)
          ∙ ap
              (λ (b : List ℕ).
                ((true, (true, record receiver { recv_buf = b }, message payload ∷ [])), rest))
              (sym empty),
    )
