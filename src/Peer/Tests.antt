-- ===== src/Peer/Tests.antt =====
-- Runs of src/peer_connection.c, with a toy cipher and a toy HMAC in place of those of mbedtls.
use tinyrtc.Prelude.{
  ℕ, ◌≤◌, ◌≡◌, ◌⊎◌, refl, ap, Bool, true, false, List, [], ◌∷◌, ◌++◌, arith, All, length, take,
  replicate, length-replicate, leb, none, some, done, inr,
}
use tinyrtc.Status.{Status, ok, error, not_found}
use tinyrtc.Codec.{h264, opus}
use tinyrtc.Srtp.{Context}
use tinyrtc.Sdp.{session_init}
use tinyrtc.Ice.{Session, Pair}
use tinyrtc.Jitter.{Jitter, empty_slot}
use tinyrtc.Peer.{
  PeerConnection, Track, TrackConfig, audio, video, connected, max_media, add_track, remove_track,
  find_address, is_secure_media_ready,
}
use tinyrtc.Peer.Send.{send_frame}
use tinyrtc.Peer.Receive.{append_reassembly, find_payload, receive_all, process_incoming_rtp}
use tinyrtc.Peer.Room.{HasRoom, append_reassembly_lem}
use tinyrtc.Peer.Reassembly.{Fresh}
use tinyrtc.Peer.Arrival.{Receiving}
use tinyrtc.Peer.Media.{CanSend, told, receive_all-send_frame}
use tinyrtc.Peer.Outgoing.{AllFit, send_frame_lem}
use tinyrtc.Peer.Rejects.{process_incoming_rtp_forged}
use tinyrtc.Peer.Tracks.{remove_track-add_track}

abbrev block : List ℕ → List ℕ → List ℕ
block key counter_block = take 16 (key ++ counter_block)

abbrev hmac : List ℕ → List ℕ → List ℕ
hmac key message = replicate 20 (length message)

length-hmac : (key message : List ℕ) → length (hmac key message) ≡ 20
length-hmac key message = length-replicate 20 (length message)

abbrev context : Context
context = record { key = replicate 16 7; salt = replicate 14 9; roc = 0; initialized = true }

abbrev pair : Pair
pair = record {
  local = 0;
  remote = 0;
  succeeded = true;
  last_ping_ms = 0;
  last_transaction_id = [];
  last_transaction_id_valid = false;
}

abbrev session : Session
session = record {
  state = 2;
  local = [];
  remote = [];
  check_pairs = pair ∷ [];
  selected_pair = some 0;
  server_transaction_id = [];
  server_transaction_id_valid = false;
}

abbrev config : TrackConfig
config = record {
  kind = video;
  codec_id = h264;
  payload_type = 96;
  clock_rate = 90000;
  channels = 1;
  mid = [];
}

abbrev camera : Track
camera = record {
  address = 4000;
  kind = video;
  codec_id = h264;
  mid = [];
  payload_type = 96;
  clock_rate = 90000;
  is_local = true;
  next_sequence = 65535;
  jitter_buffer = none;
  reassembly_buffer = [];
  reassembly_capacity = 0;
  reassembly_timestamp = 0;
  reassembly_active = false;
  frames_sent = 0;
  bytes_sent = 0;
  packets_received = 0;
  frames_received = 0;
}

abbrev jitter : Jitter
jitter = record {
  config = record { min_delay_ms = 30; max_delay_ms = 200; buffer_size = 4 };
  slots = replicate 4 empty_slot;
  count = 0;
  next_playout_time = 0;
}

-- A track that holds a part of an older frame.
abbrev screen : Track
screen = record camera {
  address = 5000;
  is_local = false;
  jitter_buffer = some jitter;
  reassembly_buffer = 1 ∷ 2 ∷ [];
  reassembly_capacity = 4096;
  reassembly_timestamp = 1;
  reassembly_active = true;
}

abbrev sender : PeerConnection
sender = record {
  is_initiator = true;
  state = connected;
  local_tracks = camera ∷ [];
  remote_tracks = [];
  ice = some session;
  socket_open = true;
  dtls = none;
  srtp_initialized = true;
  srtp = some context;
  srtp_rx = none;
  on_audio_frame = true;
  on_video_frame = true;
  local_sdp = session_init;
  remote_sdp = session_init;
}

abbrev receiver : PeerConnection
receiver = record sender {
  local_tracks = [];
  remote_tracks = screen ∷ [];
  srtp = none;
  srtp_rx = some context;
}

camera-CanSend : CanSend 96 (λ _. true) sender camera 4000
unfolding find_address is_secure_media_ready
camera-CanSend = record {
  found = refl;
  local = refl;
  ready = refl;
  codec = refl;
  same_type = refl;
  in_range = omega arith;
  allocates = refl;
}

screen-Receiving : Receiving video 5000 96 (Fresh 777) receiver
unfolding find_payload
screen-Receiving = record {
  track = screen;
  found = refl;
  remote = record {
    same_kind = refl;
    same_address = refl;
    same_payload = refl;
    same_codec = refl;
    buffered = (jitter, refl);
  };
  buffer = record { idle_or_other = inr (refl, refl, omega arith) };
  watched = refl;
}

-- An IDR picture of 3001 bytes, in three packets whose sequence numbers wrap around.
receive_all-send_frame_example :
    (after : PeerConnection) × (wire : List (List ℕ)) × (send_frame block hmac
        (λ _. true)
        (λ _. true)
        sender
        4000
        (0x65 ∷ replicate 3000 42)
        777
      ≡ done (ok, after, wire))
    × All (λ s. s ≡ ok) (receive_all block hmac (true, true) receiver (λ n. n) 0 wire).0
    × ((receive_all block hmac (true, true) receiver (λ n. n) 0 wire).2
        ≡ told video 5000 777 (0 ∷ 0 ∷ 0 ∷ 1 ∷ 0x65 ∷ replicate 3000 42))
receive_all-send_frame_example =
    receive_all-send_frame block hmac video 5000 96 777 (λ _. true) sender receiver camera 4000
      (λ n. n) 0 0x65 (replicate 3000 42) length-hmac (omega arith) (omega arith) camera-CanSend
      screen-Receiving (refl, refl) (omega arith) (omega arith) (omega arith)

send_frame_example :
    (s : Status) × (after : PeerConnection) × (wire : List (List ℕ)) × (send_frame block hmac
        (λ _. true)
        (λ _. false)
        sender
        4000
        (0x65 ∷ 1 ∷ [])
        777
      ≡ done (s, after, wire))
    × AllFit wire
send_frame_example =
    send_frame_lem block hmac (λ _. true) (λ _. false) sender 4000 camera (0x65 ∷ 1 ∷ []) 777
      camera-CanSend.found

remove_track-add_track_example :
    (leb max_media (length sender.local_tracks) ≡ true)
      × (add_track (some 8) sender config ≡ (none, sender))
    ⊎ (after : PeerConnection) × (add_track (some 8) sender config ≡ (some 8, after))
      × (length after.local_tracks ≤ max_media)
      × (remove_track after 8 ≡ (ok, sender))
      × (remove_track sender 8 ≡ (not_found, sender))
remove_track-add_track_example = remove_track-add_track sender config 8 (refl, tt)

append_reassembly_example :
    ((append_reassembly true screen (3 ∷ [])).0 ≡ true)
      × ((append_reassembly true screen (3 ∷ [])).1.reassembly_buffer ≡ 1 ∷ 2 ∷ [] ++ (3 ∷ []))
      × HasRoom (append_reassembly true screen (3 ∷ [])).1
    ⊎ (append_reassembly true screen (3 ∷ []) ≡ (false, screen)) × (◌≡◌ {A = Bool} true false)
append_reassembly_example = append_reassembly_lem true screen (3 ∷ []) (omega arith)

first : List ℕ → ℕ
first [] = 0
first (x ∷ xs) = x

zero_ne_twelve : ¬ (◌≡◌ {A = ℕ} 0 12)
zero_ne_twelve e = omega arith

-- Twelve zero bytes with a tag of ten zero bytes; the toy tag would be ten times 12.
process_incoming_rtp_forged_example :
    process_incoming_rtp block hmac (true, true) receiver (replicate 12 0 ++ replicate 10 0) 5
    ≡ (error, receiver, [])
unfolding first
process_incoming_rtp_forged_example =
    process_incoming_rtp_forged block hmac (true, true) receiver context (replicate 12 0)
      (replicate 10 0) 5 refl (omega arith) refl (omega arith) (λ e. zero_ne_twelve (ap first e))

-- A track of sound, and a frame of two pieces.
abbrev speaker : Track
speaker = record screen { kind = audio; codec_id = opus }

abbrev sound : List ℕ
sound = replicate 1500 42
