-- ===== src/Peer/OfferTests.antt =====
-- Runs of the offers and the remote descriptions of src/peer_connection.c.
use tinyrtc.Prelude.{
  ℕ, ◌+◌, ◌≡◌, refl, false, true, List, [], ◌∷◌, none, some, arith, map, done, inr,
}
use tinyrtc.Status.{ok}
use tinyrtc.Codec.{opus, codec_number, get_default_payload, get_channels, get_clock_rate}
use tinyrtc.TrackTypes.{audio}
use tinyrtc.Sdp.{session_init, configured_media, default_payload, or_default}
use tinyrtc.Sdp.Tracks.{IsMedia}
use tinyrtc.Sdp.Text.{codes}
use tinyrtc.Ice.Gathering.{host_priority}
use tinyrtc.Dtls.{Dtls}
use tinyrtc.Peer.{Track, PeerConnection, connecting}
use tinyrtc.Peer.Descriptions.{
  Environment, create_offer, create_answer, matched, has_kind, same_kind, set_remote_description,
  offered_config, fingerprint_of, ensure_dtls, is_closed,
}
use tinyrtc.Peer.Exchange.{CanPublish}
use tinyrtc.Peer.Negotiation.{offered, answered, set_remote_description-create_answer}

abbrev dtls : Dtls
dtls = record {
  master_secret = [];
  master_secret_captured = false;
  keys = record { client_key = []; client_salt = []; server_key = []; server_salt = [] };
}

abbrev env : Environment
env = record {
  id_time = 1700;
  version_time = 1701;
  credential_time = 1702;
  interfaces = codes "192.168.1.2" ∷ codes "10.0.0.2" ∷ [];
  stun_request = none;
  port = some 50000;
  dtls_init = λ is_initiator. some dtls;
  get_fingerprint = λ d. some (codes "AA:BB");
}

abbrev microphone : Track
microphone = record {
  address = 4000;
  kind = audio;
  codec_id = opus;
  mid = codes "audio";
  payload_type = 0;
  clock_rate = 48000;
  is_local = true;
  next_sequence = 0;
  jitter_buffer = none;
  reassembly_buffer = [];
  reassembly_capacity = 0;
  reassembly_timestamp = 0;
  reassembly_active = false;
  frames_sent = 0;
  bytes_sent = 0;
  packets_received = 0;
  frames_received = 0;
}

abbrev caller : PeerConnection
caller = record {
  is_initiator = true;
  state = connecting;
  local_tracks = microphone ∷ [];
  remote_tracks = [];
  ice = none;
  socket_open = false;
  dtls = none;
  srtp_initialized = false;
  srtp = none;
  srtp_rx = none;
  on_audio_frame = true;
  on_video_frame = true;
  local_sdp = session_init;
  remote_sdp = session_init;
}

abbrev callee : PeerConnection
callee = record caller { is_initiator = false }

microphone-IsMedia : IsMedia (configured_media (offered_config microphone))
unfolding offered_config configured_media default_payload get_default_payload get_channels
    codec_number
microphone-IsMedia = record {
  port_fits = omega arith;
  payload_fits = omega arith;
  clock_positive = omega arith;
  clock_fits = omega arith;
  channels_fit = (omega arith, omega arith);
  mid_fits = inr (record { is_word = omega arith; there = omega arith; fits = omega arith });
  sends = refl;
  receives = refl;
}

caller-CanPublish : CanPublish env caller (offered caller)
unfolding is_closed fingerprint_of ensure_dtls
caller-CanPublish = record {
  is_open = refl;
  addresses = (
    record { is_word = omega arith; there = omega arith; fits = omega arith },
    (record { is_word = omega arith; there = omega arith; fits = omega arith }, tt),
  );
  port_fits = omega arith;
  fingerprint_fits = record { is_word = omega arith; there = omega arith; fits = omega arith };
  few_entries = omega arith;
  entries = (microphone-IsMedia, tt);
  payloads = (tt, tt);
}

callee-CanPublish : CanPublish env callee (answered caller callee)
unfolding is_closed fingerprint_of ensure_dtls matched has_kind same_kind offered_config
    configured_media or_default default_payload get_default_payload get_channels get_clock_rate
    codec_number
callee-CanPublish = record {
  is_open = refl;
  addresses = caller-CanPublish.addresses;
  port_fits = caller-CanPublish.port_fits;
  fingerprint_fits = record { is_word = omega arith; there = omega arith; fits = omega arith };
  few_entries = omega arith;
  entries = (
    record {
      port_fits = omega arith;
      payload_fits = omega arith;
      clock_positive = omega arith;
      clock_fits = omega arith;
      channels_fit = (omega arith, omega arith);
      mid_fits = inr (record { is_word = omega arith; there = omega arith; fits = omega arith });
      sends = refl;
      receives = refl;
    },
    tt,
  );
  payloads = (tt, tt);
}

set_remote_description-create_answer_example :
    (caller1 called callee1 calling : PeerConnection) × (text reply : List ℕ) × (create_offer env
        caller
      ≡ (ok, caller1, some text))
    × (set_remote_description 0 (λ i. some (7000 + i)) callee text ≡ done (ok, called))
    × (create_answer env called ≡ (ok, callee1, some reply))
    × (set_remote_description 0 (λ i. none) caller1 reply ≡ done (ok, calling))
    × (callee1.remote_sdp ≡ calling.local_sdp)
    × (calling.remote_sdp ≡ callee1.local_sdp)
    × (calling.local_sdp.media ≡ map configured_media (offered caller))
    × (callee1.local_sdp.media ≡ map configured_media (answered caller callee))
set_remote_description-create_answer_example =
    set_remote_description-create_answer 0 (λ i. some (7000 + i)) (λ i. none) env env caller callee
      caller-CanPublish callee-CanPublish

-- The 14th candidate's priority is nearly the largest number.
wrapped : host_priority 130 ≡ 0xfffffffc
unfolding host_priority
wrapped = refl
