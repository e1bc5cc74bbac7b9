-- ===== src/Codec.antt =====
-- src/media_codec.c and include/tinyrtc/media_codec.h: the codecs and the table of their payload
-- types, clock rates and channels. A codec number is that of the C enumeration; a call may pass
-- any other number.
use tinyrtc.Prelude.{ℕ, List, [], ◌∷◌, Option, none, some, if◌then◌else◌, ◌==◌}
use Prim.Native.String.{String}

-- `tinyrtc_codec_id_t`
pub data CodecId : Type 0 where
  h264 opus pcma pcmu g722 : CodecId

-- The number that the C enumeration gives a codec.
unfoldable pub codec_number : CodecId → ℕ
codec_number h264 = 0
codec_number opus = 100
codec_number pcma = 101
codec_number pcmu = 102
codec_number g722 = 103

-- `codec_info_t`
pub record CodecInfo : Type 0 where
  pub id : ℕ
  pub name : String
  pub default_payload : ℕ
  pub clock_rate : ℕ
  pub channels : ℕ

abbrev info : ℕ → String → ℕ → ℕ → ℕ → CodecInfo
info id name default_payload clock_rate channels = record {
  id = id;
  name = name;
  default_payload = default_payload;
  clock_rate = clock_rate;
  channels = channels;
}

-- `codec_info_table`
abbrev pub codec_info_table : List CodecInfo
codec_info_table =
    info 0 "H264" 100 90000 1
    ∷ info 100 "OPUS" 111 48000 2
    ∷ info 101 "PCMA" 8 8000 1
    ∷ info 102 "PCMU" 0 8000 1
    ∷ info 103 "G722" 9 8000 1
    ∷ []

-- `find_codec_info`: the loop over the table; `none` for `NULL`.
pub find_codec_info : List CodecInfo → ℕ → Option CodecInfo
find_codec_info [] codec = none
find_codec_info (entry ∷ table) codec =
    let rest = find_codec_info table codec in if entry.id == codec then some entry else rest

-- `tinyrtc_codec_get_default_payload`; `none` is the result -1.
unfoldable pub get_default_payload : ℕ → Option ℕ
unfolding find_codec_info
get_default_payload codec = elim (find_codec_info codec_info_table codec) [
  | none ↦ none
  | some entry ↦ some entry.default_payload
]

-- `tinyrtc_codec_get_name`
unfoldable pub get_name : ℕ → String
unfolding find_codec_info
get_name codec = elim (find_codec_info codec_info_table codec) [
  | none ↦ "UNKNOWN"
  | some entry ↦ entry.name
]

-- `tinyrtc_codec_get_clock_rate`
unfoldable pub get_clock_rate : ℕ → ℕ
unfolding find_codec_info
get_clock_rate codec = elim (find_codec_info codec_info_table codec) [
  | none ↦ 0
  | some entry ↦ entry.clock_rate
]

-- `tinyrtc_codec_get_channels`
unfoldable pub get_channels : ℕ → ℕ
unfolding find_codec_info
get_channels codec = elim (find_codec_info codec_info_table codec) [
  | none ↦ 1
  | some entry ↦ entry.channels
]
