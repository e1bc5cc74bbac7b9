-- ===== src/TrackTypes.antt =====
-- The kind and the configuration of a track, of include/tinyrtc/peer_connection.h.
use tinyrtc.Prelude.{ℕ, List}
use tinyrtc.Codec.{CodecId}

-- `tinyrtc_track_kind_t`
pub data TrackKind : Type 0 where
  audio video : TrackKind

-- `tinyrtc_track_config_t`
pub record TrackConfig : Type 0 where
  pub kind : TrackKind
  pub codec_id : CodecId
  pub payload_type : ℕ
  pub clock_rate : ℕ
  pub channels : ℕ
  pub mid : List ℕ
