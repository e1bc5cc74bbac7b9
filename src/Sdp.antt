-- ===== src/Sdp.antt =====
-- The session descriptions of src/include/sdp_internal.h, and the operations on them of
-- src/signal/sdp_parser.c. An array with a counter is a list, and a text the list of its
-- characters.
mod Tests
pub mod Text
pub mod Words
pub mod Parser
pub mod Numbers
pub mod Lines
pub mod Fields
pub mod Header
pub mod Tracks
pub mod TrackTexts
pub mod Candidates
pub mod RoundTrip
pub mod Generator
use tinyrtc.Prelude.{
  ℕ, ◌+◌, ◌-◌, ◌^◌, Bool, true, false, not, List, [], ◌∷◌, ◌++◌, Option, none, some, leb, ◌==◌,
  if◌then◌else◌, length, take,
}
use tinyrtc.Codec.{CodecId, h264, codec_number, get_default_payload, get_clock_rate, get_channels}
use tinyrtc.TrackTypes.{TrackKind, TrackConfig}
use tinyrtc.Ice.{max_candidates}
use Text.{same_text}

-- `SDP_MAX_MEDIA`
abbrev pub max_media : ℕ
max_media = 2

-- `sdp_media_t`, less `proto`, which nothing writes or reads.
pub record Media : Type 0 where
  pub kind : TrackKind
  pub port : ℕ
  pub payload_type : ℕ
  pub codec_id : CodecId
  pub clock_rate : ℕ
  pub channels : ℕ
  pub mid : List ℕ
  pub direction_send : Bool
  pub direction_recv : Bool

-- `sdp_candidate_t`
pub record SdpCandidate : Type 0 where
  pub foundation : List ℕ
  pub priority : ℕ
  pub ip : List ℕ
  pub port : ℕ
  pub type : List ℕ
  pub protocol : List ℕ
  pub is_ipv6 : Bool

-- `sdp_session_t`
pub record SdpSession : Type 0 where
  pub version : ℕ
  pub username : List ℕ
  pub session_id : ℕ
  pub session_version : ℕ
  pub network_type : List ℕ
  pub address_type : List ℕ
  pub unicast_address : List ℕ
  pub session_name : List ℕ
  pub start_time : ℕ
  pub stop_time : ℕ
  pub ice_ufrag : List ℕ
  pub ice_pwd : List ℕ
  pub fingerprint : List ℕ
  pub fingerprint_type : List ℕ
  pub media : List Media
  pub candidates : List SdpCandidate
  pub dtls_setup : List ℕ

-- `sdp_session_init`
abbrev pub session_init : SdpSession
session_init = record {
  version = 0;
  username = [];
  session_id = 0;
  session_version = 0;
  network_type = [];
  address_type = [];
  unicast_address = [];
  session_name = [];
  start_time = 0;
  stop_time = 0;
  ice_ufrag = [];
  ice_pwd = [];
  fingerprint = [];
  fingerprint_type = [];
  media = [];
  candidates = [];
  dtls_setup = [];
}

-- `sdp_find_media_by_mid`
unfoldable pub find_media_by_mid : List Media → List ℕ → Option Media
unfolding same_text
find_media_by_mid [] mid = none
find_media_by_mid (m ∷ ms) mid =
    let rest = find_media_by_mid ms mid in if same_text m.mid mid then some m else rest

-- What is configured, or the default of the codec's table where that is 0.
unfoldable pub or_default : ℕ → ℕ → ℕ
or_default configured default = if not (configured == 0) then configured else default

-- The payload type -1 of an unknown codec, in two's complement.
unfoldable pub default_payload : CodecId → ℕ
default_payload codec = elim (get_default_payload (codec_number codec)) [
  | none ↦ 2 ^ 32 - 1
  | some pt ↦ pt
]

-- The entry that `sdp_add_media` fills in.
unfoldable pub configured_media : TrackConfig → Media
unfolding or_default default_payload
configured_media config = record {
  kind = config.kind;
  port = 9;
  payload_type = or_default config.payload_type (default_payload config.codec_id);
  codec_id = config.codec_id;
  clock_rate = or_default config.clock_rate (get_clock_rate (codec_number config.codec_id));
  channels = or_default config.channels (get_channels (codec_number config.codec_id));
  mid = take 15 config.mid;
  direction_send = true;
  direction_recv = true;
}

-- `sdp_add_media`; the result is whether there was room.
unfoldable pub add_media : SdpSession → TrackConfig → Bool × SdpSession
unfolding configured_media
add_media session config =
    if leb max_media (length session.media)
    then (false, session)
    else (true, record session { media = session.media ++ (configured_media config ∷ []) })

-- `sdp_add_candidate`; the result is whether there was room.
unfoldable pub add_candidate : SdpSession → SdpCandidate → Bool × SdpSession
add_candidate session c =
    if leb max_candidates (length session.candidates) then (false, session) else (
      true,
      record session {
        candidates =
            session.candidates
            ++ (record {
              foundation = take 31 c.foundation;
              priority = c.priority;
              ip = take 63 c.ip;
              port = c.port;
              type = take 31 c.type;
              protocol = take 15 c.protocol;
              is_ipv6 = c.is_ipv6;
            }
                ∷ []);
      },
    )
