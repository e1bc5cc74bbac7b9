-- ===== src/Depacketize/Tests.antt =====
-- Runs of the packetizers and the depacketizer of src/media/rtp.c.
use tinyrtc.Prelude.{ℕ, ◌≡◌, refl, true, false, List, [], ◌∷◌, ◌++◌, arith, All, done}
use tinyrtc.Codec.{h264, opus}
use tinyrtc.Rtp.{Header, build_header}
use tinyrtc.Rtp.RoundTrip.{IsWire}
use tinyrtc.Packetize.{packetize_nalu, packetize_frame, is_h264}
use tinyrtc.Packetize.Fragments.{Fits}
use tinyrtc.Packetize.Sizes.{packetize_frame-Fits}
use tinyrtc.Depacketize.{depacketize_payload, depacketize_frame}
use tinyrtc.Depacketize.Nalu.{Gives, outputs, depacketize-packetize_nalu}
use tinyrtc.Depacketize.Chunks.{pieces, pieces-packetize_frame, depacketize_frame-build_header}

-- A slice of an IDR picture, cut into three fragments.
depacketize-packetize_nalu_example :
    Gives true
      (0 ∷ 0 ∷ 0 ∷ 1 ∷ 0x65 ∷ 1 ∷ 2 ∷ 3 ∷ 4 ∷ 5 ∷ [])
      (outputs 100 (packetize_nalu true (0x65 ∷ 1 ∷ 2 ∷ 3 ∷ 4 ∷ 5 ∷ []) 4 true))
depacketize-packetize_nalu_example =
    depacketize-packetize_nalu 0x65 4 100 true (1 ∷ 2 ∷ 3 ∷ 4 ∷ 5 ∷ []) (omega arith) (omega arith)
      (omega arith) (omega arith) (omega arith)

abbrev audio : List ℕ
audio = 1 ∷ 2 ∷ 3 ∷ 4 ∷ 5 ∷ 6 ∷ 7 ∷ 8 ∷ 9 ∷ 10 ∷ []

pieces_of_audio : Gives true audio (pieces opus 100 (packetize_frame (λ _. true) opus 20 audio))
unfolding is_h264
pieces_of_audio =
    pieces-packetize_frame (λ _. true) opus 20 100 audio refl (omega arith) (omega arith)
      (omega arith)

packetize_frame-Fits_example : All (Fits 8) (packetize_frame (λ _. true) opus 20 audio)
packetize_frame-Fits_example = packetize_frame-Fits (λ _. true) opus 20 audio

abbrev header : Header
header = record {
  version = 2;
  padding = false;
  extension = false;
  csrc_count = 0;
  marker = true;
  payload_type = 100;
  sequence = 9;
  timestamp = 3000;
  ssrc = 5;
  num_csrc = 0;
  csrc = [];
}

header-IsWire : IsWire header
header-IsWire = record {
  version_two = refl;
  no_extension = refl;
  count_fits = omega arith;
  count_agrees = refl;
  sources_agree = refl;
  type_fits = omega arith;
  sequence_fits = omega arith;
  timestamp_fits = omega arith;
  ssrc_fits = omega arith;
  sources_fit = tt;
}

depacketize_frame-build_header_example :
    (bytes : List ℕ) × (build_header header 1500 ≡ done bytes)
    × (depacketize_frame h264 100 (bytes ++ (0x65 ∷ 1 ∷ []))
        ≡ depacketize_payload h264 header.marker 100 (0x65 ∷ 1 ∷ []))
depacketize_frame-build_header_example =
    depacketize_frame-build_header h264 100 1500 header (0x65 ∷ 1 ∷ []) header-IsWire (omega arith)
