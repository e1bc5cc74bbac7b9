-- ===== src/Sdp/Tests.antt =====
-- Runs of src/signal/sdp_parser.c and src/signal/sdp_generator.c.
use tinyrtc.Prelude.{ℕ, ◌≡◌, ◌<◌, inr, refl, true, false, List, [], ◌∷◌, length, arith, done, fault}
use tinyrtc.Status.{ok}
use tinyrtc.Codec.{h264, opus}
use tinyrtc.TrackTypes.{audio, video}
use tinyrtc.Sdp.{Media, SdpCandidate, SdpSession}
use tinyrtc.Sdp.Text.{
  codes, same_text, has_char, copy_until, copied, trim_end, cons_trimmed, skip_whitespace, stops,
}
use tinyrtc.Sdp.Words.{Word}
use tinyrtc.Sdp.Fields.{Field}
use tinyrtc.Sdp.Tracks.{IsMedia}
use tinyrtc.Sdp.Candidates.{IsCandidate}
use tinyrtc.Sdp.RoundTrip.{IsSession, sdp_parse-sdp_generate}
use tinyrtc.Sdp.Parser.{
  sdp_parse, parse_lines, round, typed_line, skip_invalid, attribute, attribute_line,
}
use tinyrtc.Sdp.Generator.{sdp_generate}

abbrev picture : Media
picture = record {
  kind = video;
  port = 9;
  payload_type = 100;
  codec_id = h264;
  clock_rate = 90000;
  channels = 1;
  mid = codes "video";
  direction_send = true;
  direction_recv = true;
}

abbrev sound : Media
sound = record {
  kind = audio;
  port = 9;
  payload_type = 111;
  codec_id = opus;
  clock_rate = 48000;
  channels = 2;
  mid = codes "audio";
  direction_send = true;
  direction_recv = true;
}

abbrev candidate : SdpCandidate
candidate = record {
  foundation = codes "1";
  priority = 2130706431;
  ip = codes "192.168.1.2";
  port = 50000;
  type = codes "host";
  protocol = codes "udp";
  is_ipv6 = false;
}

abbrev session : SdpSession
session = record {
  version = 0;
  username = codes "-";
  session_id = 17;
  session_version = 18;
  network_type = codes "IN";
  address_type = codes "IP4";
  unicast_address = codes "0.0.0.0";
  session_name = codes "TinyRTC";
  start_time = 0;
  stop_time = 0;
  ice_ufrag = codes "tiny17";
  ice_pwd = codes "rtc12362random";
  fingerprint = codes "AA:BB";
  fingerprint_type = codes "sha-256";
  media = picture ∷ sound ∷ [];
  candidates = candidate ∷ [];
  dtls_setup = codes "actpass";
}

text : (n : ℕ) (t : List ℕ) → Word b' ' t → 0 < length t → length t < n → Field n t
text n t w p h = record { is_word = w; there = p; fits = h }

picture-IsMedia : IsMedia picture
picture-IsMedia = record {
  port_fits = omega arith;
  payload_fits = omega arith;
  clock_positive = omega arith;
  clock_fits = omega arith;
  channels_fit = refl;
  mid_fits = inr (text 16 (codes "video") (omega arith) (omega arith) (omega arith));
  sends = refl;
  receives = refl;
}

sound-IsMedia : IsMedia sound
sound-IsMedia = record {
  port_fits = omega arith;
  payload_fits = omega arith;
  clock_positive = omega arith;
  clock_fits = omega arith;
  channels_fit = (omega arith, omega arith);
  mid_fits = inr (text 16 (codes "audio") (omega arith) (omega arith) (omega arith));
  sends = refl;
  receives = refl;
}

candidate-IsCandidate : IsCandidate candidate
unfolding has_char
candidate-IsCandidate = record {
  foundation_fits = text 32 (codes "1") (omega arith) (omega arith) (omega arith);
  protocol_fits = text 16 (codes "udp") (omega arith) (omega arith) (omega arith);
  priority_fits = omega arith;
  ip_fits = text 64 (codes "192.168.1.2") (omega arith) (omega arith) (omega arith);
  port_fits = omega arith;
  type_fits = text 32 (codes "host") (omega arith) (omega arith) (omega arith);
  same_version = refl;
}

session-IsSession : IsSession session
session-IsSession = record {
  version_zero = refl;
  username_fits = text 256 (codes "-") (omega arith) (omega arith) (omega arith);
  id_fits = omega arith;
  session_version_fits = omega arith;
  network_fits = text 16 (codes "IN") (omega arith) (omega arith) (omega arith);
  address_fits = text 16 (codes "IP4") (omega arith) (omega arith) (omega arith);
  unicast_fits = text 64 (codes "0.0.0.0") (omega arith) (omega arith) (omega arith);
  name_fits = text 256 (codes "TinyRTC") (omega arith) (omega arith) (omega arith);
  start_fits = omega arith;
  stop_fits = omega arith;
  ufrag_fits = inr (text 64 (codes "tiny17") (omega arith) (omega arith) (omega arith));
  pwd_fits = inr (text 128 (codes "rtc12362random") (omega arith) (omega arith) (omega arith));
  fingerprint_fits = inr (
    text 16 (codes "sha-256") (omega arith) (omega arith) (omega arith),
    text 128 (codes "AA:BB") (omega arith) (omega arith) (omega arith),
  );
  setup_fits = inr (text 16 (codes "actpass") (omega arith) (omega arith) (omega arith));
  tracks_fit = omega arith;
  tracks = (picture-IsMedia, (sound-IsMedia, tt));
  payloads = (tt, ((refl, tt), tt));
  candidates_fit = omega arith;
  candidates_valid = (candidate-IsCandidate, tt);
}

sdp_parse-sdp_generate_example : sdp_parse 0 (sdp_generate session) ≡ done (ok, session)
sdp_parse-sdp_generate_example = sdp_parse-sdp_generate 0 session session-IsSession

-- A last line without its `=` is read behind its end.
bad_end : sdp_parse 0 (codes "\nx") ≡ fault
unfolding sdp_parse parse_lines round typed_line skip_invalid
bad_end = refl

-- The direction of a track is not read.
direction_lost : (attribute_line session (codes "recvonly\r\n")).0 ≡ session
unfolding attribute_line attribute same_text copy_until copied trim_end cons_trimmed skip_whitespace
    stops
direction_lost = refl
