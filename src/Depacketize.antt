-- ===== src/Depacketize.antt =====
-- `tinyrtc_depacketize_frame` of src/media/rtp.c. The result is the returned flag and the bytes
-- written to the frame buffer, whose number goes out through `frame_len`.
mod Tests
pub mod Nalu
pub mod Chunks
use tinyrtc.Prelude.{
  ℕ, zero, suc, ◌+◌, ◌-◌, ◌≤◌, Bool, true, false, ◌&&◌, ◌||◌, not, List, [], ◌∷◌, ◌++◌, ltb, leb,
  ◌==◌, if◌then◌else◌, length, get_or, take, drop, bit_and, bit_or, low_bits, done, refused, fault,
  u8,
}
use tinyrtc.Codec.{CodecId, h264}
use tinyrtc.Packetize.{is_h264}
use tinyrtc.Rtp.{Header, parse_header, get_payload}

abbrev pub Frame : Type 0
Frame = Bool × List ℕ

-- An FU-A fragment; `indicator` and `fu_header` are its first two bytes.
unfoldable pub depacketize_fu : Bool → ℕ → ℕ → ℕ → List ℕ → Frame
depacketize_fu marker max_len indicator fu_header fragment =
    let is_start = not (bit_and fu_header 0x80 == 0) in
    let is_end = not (bit_and fu_header 0x40 == 0) in
    if is_start
    then (if ltb max_len (length fragment + 5) then (false, []) else (
      marker || is_end,
      0 ∷ 0 ∷ 0 ∷ 1 ∷ u8 (bit_or (bit_and indicator 0xE0) (low_bits 5 fu_header)) ∷ fragment,
    ))
    else if ltb max_len (length fragment)
    then (false, [])
    else (marker || is_end, fragment)

-- The H.264 part: a single NAL unit, a fragment, or anything else.
unfoldable pub depacketize_h264 : Bool → ℕ → List ℕ → Frame
unfolding depacketize_fu
depacketize_h264 marker max_len payload =
    if length payload == 0
    then (false, [])
    else (let nalu_type = low_bits 5 (get_or payload 0 0) in
        if ltb 0 nalu_type && ltb nalu_type 24
        then (if ltb max_len (length payload + 4)
            then (false, [])
            else (marker, 0 ∷ 0 ∷ 0 ∷ 1 ∷ payload))
        else if nalu_type == 28
        then (if ltb (length payload) 2
            then (false, [])
            else depacketize_fu marker max_len (get_or payload 0 0) (get_or payload 1 0)
                (drop 2 payload))
        else (false, []))

-- What happens behind the RTP header.
unfoldable pub depacketize_payload : CodecId → Bool → ℕ → List ℕ → Frame
unfolding depacketize_h264 is_h264
depacketize_payload codec marker max_len payload =
    if is_h264 codec
    then depacketize_h264 marker max_len payload
    else if ltb max_len (length payload)
    then (false, [])
    else (marker, payload)

-- `tinyrtc_depacketize_frame`. A fault of the parser gives nothing here: see `Rtp.Bounds`.
unfoldable pub depacketize_frame : CodecId → ℕ → List ℕ → Frame
unfolding depacketize_payload
depacketize_frame codec max_len packet = elim (parse_header packet) [
  | done h ↦ elim (get_payload packet h) [
    | done off ↦ depacketize_payload codec h.marker max_len (drop off packet)
    | refused ↦ (false, [])
    | fault ↦ (false, [])
  ]
  | refused ↦ (false, [])
  | fault ↦ (false, [])
]
