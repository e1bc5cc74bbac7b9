-- ===== src/Packetize.antt =====
-- Frame packetization of src/media/rtp.c. A frame is the list of its bytes. The calls of
-- `callback` are the list of the packets handed to it, in order; the result of the C functions is
-- their number. Whether `malloc` succeeds is given for each NAL unit by its offset in the frame.
pub mod Fragments
pub mod Sizes
use tinyrtc.Prelude.{
  ℕ, zero, suc, ◌+◌, ◌-◌, ◌≤◌, Bool, true, false, ◌&&◌, not, List, [], ◌∷◌, ◌++◌, ltb, leb, ◌==◌,
  if◌then◌else◌, length, get_or, take, drop, bit_and, bit_or, low_bits, min,
}
use tinyrtc.Codec.{CodecId, h264}

-- One call of `tinyrtc_packet_callback_t`: the payload and the marker.
pub record Packet : Type 0 where
  pub payload : List ℕ
  pub marker : Bool

-- `h264_start_code_len`; the reads are behind the tests of the length.
unfoldable pub start_code_len : List ℕ → ℕ
start_code_len d =
    if leb 4 (length d)
      && (get_or d 0 0 == 0 && (get_or d 1 0 == 0 && (get_or d 2 0 == 0 && get_or d 3 0 == 1)))
    then 4
    else if leb 3 (length d) && (get_or d 0 0 == 0 && (get_or d 1 0 == 0 && get_or d 2 0 == 1))
    then 3
    else 0

-- `h264_find_start_code`: the loop over the suffixes `data + i`.
pub find_start_code : List ℕ → ℕ
unfolding start_code_len
find_start_code [] = 0
find_start_code (x ∷ xs) =
    let rest = find_start_code xs in if not (start_code_len (x ∷ xs) == 0) then 0 else suc rest

-- `(nalu_header & 0xE0) | H264_NALU_TYPE_FU_A`
unfoldable pub fu_indicator : ℕ → ℕ
fu_indicator header = bit_or (bit_and header 0xE0) 28

-- `(is_start ? 0x80 : 0) | (is_end ? 0x40 : 0) | (nalu_header & 0x1F)`
unfoldable pub fu_header : ℕ → Bool → Bool → ℕ
fu_header header is_start is_end =
    bit_or (bit_or (if is_start then 0x80 else 0) (if is_end then 0x40 else 0)) (low_bits 5 header)

-- The FU-A loop over the bytes that remain. Each round takes at least one byte, so the number of
-- the bytes is enough fuel.
unfoldable pub fragments : ℕ → ℕ → ℕ → Bool → Bool → List ℕ → List Packet
unfolding fu_indicator fu_header
fragments fuel header fragment_payload is_last is_start [] = []
fragments zero header fragment_payload is_last is_start (x ∷ xs) = []
fragments (suc fuel) header fragment_payload is_last is_start (x ∷ xs) =
    let remaining = length (x ∷ xs) in
    let chunk = min remaining fragment_payload in
    let is_end = chunk == remaining in
    record {
      payload = fu_indicator header ∷ fu_header header is_start is_end ∷ take chunk (x ∷ xs);
      marker = is_last && is_end;
    }
    ∷ fragments fuel header fragment_payload is_last false (drop chunk (x ∷ xs))

-- The part of `h264_packetize_nalu` behind its first byte.
unfoldable pub fragment_nalu : List ℕ → ℕ → Bool → List Packet
unfolding fragments
fragment_nalu [] max_payload is_last = []
fragment_nalu (header ∷ body) max_payload is_last =
    fragments (length body) header (max_payload - 2) is_last true body

-- `h264_packetize_nalu`
unfoldable pub packetize_nalu : Bool → List ℕ → ℕ → Bool → List Packet
unfolding fragment_nalu
packetize_nalu alloc nalu max_payload is_last =
    if length nalu == 0
    then []
    else if leb (length nalu) max_payload
    then record { payload = nalu; marker = is_last } ∷ []
    else if leb max_payload 2
    then []
    else if leb (length nalu) 1
    then []
    else if not alloc
    then []
    else fragment_nalu nalu max_payload is_last

-- The loop over the NAL units of a frame, from `offset` on. Each round moves on by at least one
-- byte, so the number of the bytes is enough fuel.
unfoldable pub nalu_loop : ℕ → (ℕ → Bool) → ℕ → ℕ → List ℕ → List Packet
unfolding find_start_code
nalu_loop fuel alloc max_payload offset [] = []
nalu_loop zero alloc max_payload offset (x ∷ xs) = []
nalu_loop (suc fuel) alloc max_payload offset (x ∷ xs) =
    let rest = x ∷ xs in
    let next_start = find_start_code rest in
    let next_start_code = start_code_len (drop next_start rest) in
    let moved = next_start + next_start_code in
    let later = nalu_loop fuel alloc max_payload (offset + moved) (drop moved rest) in
    if next_start == 0
    then later
    else if next_start == length rest
    then packetize_nalu (alloc offset) (take next_start rest) max_payload true
    else packetize_nalu (alloc offset) (take next_start rest) max_payload false ++ later

-- The loop of the other codecs. Each round takes at least one byte.
unfoldable pub chunk_loop : ℕ → ℕ → List ℕ → List Packet
chunk_loop fuel max_payload [] = []
chunk_loop zero max_payload (x ∷ xs) = []
chunk_loop (suc fuel) max_payload (x ∷ xs) =
    let remaining = length (x ∷ xs) in
    let chunk_len = if ltb max_payload remaining then max_payload else remaining in
    record { payload = take chunk_len (x ∷ xs); marker = chunk_len == remaining }
    ∷ chunk_loop fuel max_payload (drop chunk_len (x ∷ xs))

unfoldable pub is_h264 : CodecId → Bool
is_h264 h264 = true
is_h264 _ = false

-- `tinyrtc_packetize_frame` for the codec and MTU of `params`.
unfoldable pub packetize_frame : (ℕ → Bool) → CodecId → ℕ → List ℕ → List Packet
unfolding is_h264 nalu_loop chunk_loop start_code_len
packetize_frame alloc codec mtu frame =
    if ltb mtu 20
    then []
    else if is_h264 codec
    then (let start = start_code_len frame in
        if not (start == 0)
        then nalu_loop (length frame) alloc (mtu - 12) start (drop start frame)
        else packetize_nalu (alloc 0) frame (mtu - 12) true)
    else chunk_loop (length frame) (mtu - 12) frame
