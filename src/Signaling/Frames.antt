-- ===== src/Signaling/Frames.antt =====
-- The WebSocket frames of src/signaling/signaling.c: `sig_read_ws_frame` and `sig_send_ws_frame`.
-- The mask comes from the random generator of mbedtls, and whether a write succeeds from the
-- network; both are arguments. The loop of the writes is one step: it ends with all the bytes
-- written or with an error.
use tinyrtc.Prelude.{
  ℕ, zero, suc, ◌+◌, ◌%◌, Bool, true, false, List, [], ◌∷◌, ◌++◌, Option, none, some, ltb, leb,
  ◌==◌, if◌then◌else◌, length, get_or, take, low_bits, bit_or, bit_xor, ◌<<◌, be16, u64, u8, put16,
  put64,
}
use tinyrtc.Signaling.{
  Signaling, SignalingState, disconnected, connected, error, Incoming, byte, want, broken,
  max_recv_buf, max_send_buf,
}

-- A read from the stream: a value and the rest of the stream, `return 0` for want of bytes,
-- `return -1`, or a byte that is written behind the end of `recv_buf`. The bytes that were read
-- before any of these are gone.
pub data Reading {ℓ} (A : Type ℓ) : Type ℓ where
  ready : A → List Incoming → Reading A
  idle : List Incoming → Reading A
  lost : List Incoming → Reading A
  overrun : List Incoming → Reading A

abbrev pub Reader {ℓ} : Type ℓ → Type ℓ
Reader A = List Incoming → Reading A

infixl 5 ◌>>=◌
abbrev pub ◌>>=◌ {ℓ κ} : {A : Type ℓ} {B : Type κ} → Reader A → (A → Reader B) → Reader B
(m >>= f) s = elim (m s) [
  | ready a t ↦ f a t
  | idle t ↦ idle t
  | lost t ↦ lost t
  | overrun t ↦ overrun t
]

-- A byte in front of those that were read.
unfoldable pub cons_byte : ℕ → Reading (List ℕ) → Reading (List ℕ)
cons_byte b (ready bs t) = ready (b ∷ bs) t
cons_byte b (idle t) = idle t
cons_byte b (lost t) = lost t
cons_byte b (overrun t) = overrun t

-- The loops that read `n` bytes into a variable.
unfoldable pub read_bytes : ℕ → Reader (List ℕ)
unfolding cons_byte
read_bytes zero s = ready [] s
read_bytes (suc n) [] = idle []
read_bytes (suc n) (want ∷ s) = idle s
read_bytes (suc n) (broken ∷ s) = lost s
read_bytes (suc n) (byte b ∷ s) = cons_byte b (read_bytes n s)

-- The loop that reads `n` bytes into `recv_buf` from index `i` on.
unfoldable pub read_into : ℕ → ℕ → Reader (List ℕ)
unfolding cons_byte
read_into i zero s = ready [] s
read_into i (suc n) [] = idle []
read_into i (suc n) (want ∷ s) = idle s
read_into i (suc n) (broken ∷ s) = lost s
read_into i (suc n) (byte b ∷ s) =
    let later = read_into (suc i) n s in if ltb i max_recv_buf then cons_byte b later else overrun s

-- `len = (len << 8) | ext_len[i]` over the bytes, from `len` on.
unfoldable pub join_bytes : ℕ → List ℕ → ℕ
join_bytes len [] = len
join_bytes len (b ∷ bs) = join_bytes (bit_or (u64 (len << 8)) b) bs

-- The length that the second byte announces, with its extension.
unfoldable pub read_length : ℕ → Reader ℕ
unfolding read_bytes join_bytes
read_length payload_len =
    if payload_len == 126
    then (do ext ← read_bytes 2; ready (be16 (get_or ext 0 0) (get_or ext 1 0)))
    else if payload_len == 127
    then (do ext ← read_bytes 8; ready (join_bytes 0 ext))
    else ready payload_len

-- `data[i] ^= mask[i % 4]` from index `i` on.
unfoldable pub apply_mask : List ℕ → ℕ → List ℕ → List ℕ
apply_mask mask i [] = []
apply_mask mask i (b ∷ bs) = bit_xor b (get_or mask (i % 4) 0) ∷ apply_mask mask (suc i) bs

-- A frame that was read.
pub record Frame : Type 0 where
  pub fin : Bool
  pub opcode : ℕ
  pub payload : List ℕ

-- The frame of a header, a mask (if the header announces one) and the bytes behind it.
unfoldable pub make_frame : List ℕ → List ℕ → List ℕ → Frame
unfolding apply_mask
make_frame hdr mask received = record {
  fin = leb 128 (get_or hdr 0 0);
  opcode = low_bits 4 (get_or hdr 0 0);
  payload = if leb 128 (get_or hdr 1 0) then apply_mask mask 0 received else received;
}

-- The payload goes behind the `recv_len` bytes that `recv_buf` holds.
unfoldable pub read_payload : ℕ → List ℕ → ℕ → List ℕ → Reader Frame
unfolding read_into make_frame
read_payload recv_len hdr len mask =
    if ltb max_recv_buf len
    then lost
    else (do received ← read_into recv_len len; ready (make_frame hdr mask received))

unfoldable pub read_masked : ℕ → List ℕ → ℕ → Reader Frame
unfolding read_bytes read_payload
read_masked recv_len hdr len = do
  mask ← if leb 128 (get_or hdr 1 0) then read_bytes 4 else ready []
  read_payload recv_len hdr len mask

unfoldable pub read_behind : ℕ → List ℕ → Reader Frame
unfolding read_length read_masked
read_behind recv_len hdr = do
  len ← read_length (low_bits 7 (get_or hdr 1 0))
  read_masked recv_len hdr len

-- The part of `sig_read_ws_frame` that reads, for a `recv_buf` that holds `recv_len` bytes.
unfoldable pub read_frame : ℕ → Reader Frame
unfolding read_bytes read_behind
read_frame recv_len = do hdr ← read_bytes 2; read_behind recv_len hdr

-- The header in front of the mask: `0x80 | opcode`, and the length with the mask bit.
unfoldable pub frame_header : ℕ → ℕ → List ℕ
frame_header opcode len =
    bit_or 0x80 opcode
    ∷ (if leb len 125
        then bit_or (u8 len) 0x80 ∷ []
        else if leb len 0xFFFF
        then bit_or 126 0x80 ∷ put16 len
        else bit_or 127 0x80 ∷ put64 len)

-- The bytes of a frame.
unfoldable pub frame_bytes : ℕ → List ℕ → List ℕ → List ℕ
unfolding frame_header apply_mask
frame_bytes opcode mask payload =
    frame_header opcode (length payload) ++ (mask ++ apply_mask mask 0 payload)

-- What a call hands on: a message to `sig_process_message`, or bytes to the network.
pub data Output : Type 0 where
  message : List ℕ → Output
  sent : List ℕ → Output

-- What `sig_send_ws_frame` does in a state.
unfoldable pub send_in :
    SignalingState
    → (List ℕ → Bool)
    → Signaling
    → ℕ
    → List ℕ
    → List ℕ
    → Bool × Signaling × List Output
unfolding frame_bytes frame_header
send_in connected deliver sig opcode mask payload =
    let bytes = frame_bytes opcode mask payload in
    if ltb max_send_buf (length (frame_header opcode (length payload)) + 4 + length payload)
    then (false, sig, [])
    else if deliver bytes
    then (true, sig, sent bytes ∷ [])
    else (false, record sig { state = error }, [])
send_in _ deliver sig opcode mask payload = (false, sig, [])

-- `sig_send_ws_frame`; true is the result 0.
unfoldable pub send_ws_frame :
    (List ℕ → Bool) → Signaling → ℕ → List ℕ → List ℕ → Bool × Signaling × List Output
unfolding send_in
send_ws_frame deliver sig opcode mask payload = send_in sig.state deliver sig opcode mask payload

-- A part of a message is put behind those before it; the result is none where it does not fit.
unfoldable pub append_part : List ℕ → List ℕ → Option (List ℕ)
append_part buffer part =
    if ltb max_recv_buf (length buffer + length part) then none else some (buffer ++ part)

-- The answers of the receiving side: whether the call goes on, and the state.
abbrev pub Handled : Type 0
Handled = Bool × Signaling × List Output

-- A part that was appended to the buffer `bytes`, or does not fit.
unfoldable pub keep_part : Signaling → List ℕ → Option (List ℕ) → Handled
keep_part sig bytes none = (false, record sig { message_buf = some bytes }, [])
keep_part sig bytes (some all) = (true, record sig { message_buf = some all; recv_buf = [] }, [])

-- The first or a later part of a message that is not finished.
unfoldable pub start_message : Bool → Signaling → List ℕ → Option (List ℕ) → Handled
unfolding append_part keep_part
start_message alloc sig part none =
    if alloc then keep_part sig [] (append_part [] part) else (false, sig, [])
start_message alloc sig part (some bytes) = keep_part sig bytes (append_part bytes part)

-- A continuation that was appended, or does not fit.
unfoldable pub end_part : Signaling → Bool → Option (List ℕ) → Handled
end_part sig fin none = (false, sig, [])
end_part sig true (some all) =
    (true, record sig { message_buf = none; recv_buf = [] }, message all ∷ [])
end_part sig false (some all) = (true, record sig { message_buf = some all; recv_buf = [] }, [])

-- A continuation.
unfoldable pub continue_message : Signaling → Bool → List ℕ → Option (List ℕ) → Handled
unfolding append_part end_part
continue_message sig fin part none = (false, sig, [])
continue_message sig fin part (some bytes) = end_part sig fin (append_part bytes part)

abbrev pub clear : Signaling → Signaling
clear sig = record sig { recv_buf = [] }

module _ (deliver : List ℕ → Bool) (alloc : Bool) (mask : List ℕ) where
  -- The switch on the opcode, for the first `len` bytes of `recv_buf`.
  unfoldable pub handle_frame : Signaling → Bool → ℕ → List ℕ → Handled
  unfolding send_ws_frame start_message continue_message
  handle_frame sig fin opcode part =
      if (opcode == 1)
      then (if fin
          then (true, clear sig, message part ∷ [])
          else start_message alloc sig part sig.message_buf)
      else if opcode == 2
      then (if fin
          then (true, clear sig, message part ∷ [])
          else start_message alloc sig part sig.message_buf)
      else if opcode == 0
      then continue_message sig fin part sig.message_buf
      else if opcode == 8
      then (false, record sig { state = disconnected }, [])
      else if opcode == 9
      then (let pong = send_ws_frame deliver sig 10 mask part in (true, clear pong.1, pong.2))
      else (true, clear sig, [])

  -- What follows the reading: the payload, which stands behind the bytes that `recv_buf` held, is
  -- handled by its opcode.
  unfoldable pub accept_frame : Signaling → Frame → Handled
  unfolding handle_frame
  accept_frame sig frame =
      let filled = record sig { recv_buf = sig.recv_buf ++ frame.payload } in
      handle_frame filled frame.fin frame.opcode (take (length frame.payload) filled.recv_buf)

  -- What follows the part that reads. The first result is false where bytes were written behind the
  -- end of `recv_buf`.
  unfoldable pub after_reading : Signaling → Reading Frame → (Bool × Handled) × List Incoming
  unfolding accept_frame
  after_reading sig (ready frame rest) = ((true, accept_frame sig frame), rest)
  after_reading sig (idle rest) = ((true, (true, sig, [])), rest)
  after_reading sig (lost rest) = ((true, (false, sig, [])), rest)
  after_reading sig (overrun rest) = ((false, (false, sig, [])), rest)

  -- `sig_read_ws_frame`: the result (false for -1), the state, what was handed on, and the rest of
  -- the stream. The result 0 also stands for a frame that was handled.
  unfoldable pub read_ws_frame : Signaling → List Incoming → (Bool × Handled) × List Incoming
  unfolding read_frame after_reading
  read_ws_frame sig input = after_reading sig (read_frame (length sig.recv_buf) input)

  -- What the loop of `tinyrtc_signaling_process` does with the result of a frame.
  unfoldable pub finish_call :
      (Bool × Handled) × List Incoming → (Bool × Signaling × List Output) × List Incoming
  finish_call ((safe, (true, after, outputs)), rest) = ((safe, after, outputs), rest)
  finish_call ((safe, (false, after, outputs)), rest) =
      ((safe, record after { state = disconnected }, outputs), rest)

  -- What `tinyrtc_signaling_process` does in a state.
  unfoldable pub process_in :
      SignalingState → Signaling → List Incoming → (Bool × Signaling × List Output) × List Incoming
  unfolding read_ws_frame finish_call
  process_in connected sig input = finish_call (read_ws_frame sig input)
  process_in _ sig input = ((true, sig, []), input)

  -- `tinyrtc_signaling_process`: one frame at most, since no result is positive.
  unfoldable pub process :
      Signaling → List Incoming → (Bool × Signaling × List Output) × List Incoming
  unfolding process_in
  process sig input = process_in sig.state sig input
