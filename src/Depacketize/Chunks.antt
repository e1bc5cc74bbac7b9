-- ===== src/Depacketize/Chunks.antt =====
-- Whole packets at the depacketizer, and frames of the codecs that `tinyrtc_packetize_frame` of
-- src/media/rtp.c cuts into plain pieces.
use tinyrtc.Prelude.{
  ℕ, ◌+◌, ◌*◌, ◌-◌, ◌≤◌, ◌<◌, ◌≡◌, refl, ap, ◌∙◌, Bool, true, false, List, [], ◌∷◌, ◌++◌, arith,
  All, length, drop, drop-append, map, concat, ltb, done,
}
use tinyrtc.Codec.{CodecId}
use tinyrtc.Packetize.{Packet, packetize_frame, is_h264, chunk_loop}
use tinyrtc.Packetize.Fragments.{Fits, Marked, payloads, chunk_loop_lem}
use tinyrtc.Rtp.{Header, parse_header, get_payload, build_header}
use tinyrtc.Rtp.RoundTrip.{IsWire, parse_header-build_header}
use tinyrtc.Depacketize.{Frame, depacketize_payload, depacketize_frame}
use tinyrtc.Depacketize.Nalu.{Flagged, Gives}

pub depacketize_frame_lem :
    (codec : CodecId) (max_len : ℕ) (packet : List ℕ) (h : Header) (off : ℕ)
    → parse_header packet ≡ done h
    → get_payload packet h ≡ done off
    → depacketize_frame codec max_len packet
      ≡ depacketize_payload codec h.marker max_len (drop off packet)
unfolding depacketize_frame
depacketize_frame_lem codec max_len packet h off e f = rw (depacketize_frame, e, f)

-- The receiver of a packet that starts with a header from the RTP builder handles the payload
-- behind it, with the marker of that header.
pub depacketize_frame-build_header :
    (codec : CodecId) (max_len max_header : ℕ) (h : Header) (payload : List ℕ)
    → IsWire h
    → 12 + 4 * h.num_csrc ≤ max_header
    → (bytes : List ℕ) × (build_header h max_header ≡ done bytes)
      × (depacketize_frame codec max_len (bytes ++ payload)
          ≡ depacketize_payload codec h.marker max_len payload)
depacketize_frame-build_header codec max_len max_header h payload v fits =
    let (bytes, built, parsed, behind) = parse_header-build_header h max_header payload v fits in
    (
      bytes,
      built,
      depacketize_frame_lem codec max_len (bytes ++ payload) h (length bytes) parsed behind
          ∙ ap (depacketize_payload codec h.marker max_len)
              (drop-append (length bytes) bytes payload refl),
    )

-- What `tinyrtc_depacketize_frame` makes of the payload of each packet, by itself, in order.
abbrev pub pieces : CodecId → ℕ → List Packet → List Frame
pieces codec max_len ps =
    map (λ (p : Packet). depacketize_payload codec p.marker max_len p.payload) ps

module _ (codec : CodecId) (plain : is_h264 codec ≡ false) (max_len size : ℕ)
    (room : size ≤ max_len) where
  pieces-Fits :
      (ps : List Packet)
      → All (Fits size) ps
      → pieces codec max_len ps ≡ map (λ (p : Packet). (p.marker, p.payload)) ps
  unfolding depacketize_payload
  pieces-Fits [] fits = refl
  pieces-Fits (p ∷ ps) (fit, fits) =
      let t : ltb max_len (length p.payload) ≡ false = ground arith in
      rw (plain, t, pieces-Fits ps fits)

concat_pairs :
    (ps : List Packet)
    → concat (map (λ (f : Frame). f.1) (map (λ (p : Packet). (p.marker, p.payload)) ps))
      ≡ concat (map (drop 0) (payloads ps))
concat_pairs [] = refl
concat_pairs (p ∷ ps) = ap (λ r. p.payload ++ r) (concat_pairs ps)

Flagged-Marked :
    (m : Bool) (ps : List Packet)
    → Marked m ps
    → Flagged m (map (λ (p : Packet). (p.marker, p.payload)) ps)
Flagged-Marked m [] h = h
Flagged-Marked m (p ∷ []) h = h
Flagged-Marked m (p ∷ q ∷ ps) (e, h) = (e, Flagged-Marked m (q ∷ ps) h)

-- A frame of a codec other than H.264 that is not empty, cut for an MTU of at least 20 bytes: the
-- depacketizer, called with each packet's payload by itself and a buffer that is large enough, gives
-- pieces that joined in order are the frame, byte for byte, and reports the frame complete at the
-- last piece only. What a track makes of the pieces is in Peer.Pieces.
pub pieces-packetize_frame :
    (alloc : ℕ → Bool) (codec : CodecId) (mtu max_len : ℕ) (frame : List ℕ)
    → is_h264 codec ≡ false
    → 20 ≤ mtu
    → mtu - 12 ≤ max_len
    → 0 < length frame
    → Gives true frame (pieces codec max_len (packetize_frame alloc codec mtu frame))
unfolding packetize_frame
pieces-packetize_frame alloc codec mtu max_len frame plain big room some_bytes =
    let t : ltb mtu 20 ≡ false = ground arith in
    let (bytes, fits, marks) =
      chunk_loop_lem (length frame) (mtu - 12) frame (omega arith) (omega arith) some_bytes in
    let ps = chunk_loop (length frame) (mtu - 12) frame in
    rw (t, plain, pieces-Fits codec plain max_len (mtu - 12) room ps fits)
      (concat_pairs ps ∙ bytes, Flagged-Marked true ps marks)
