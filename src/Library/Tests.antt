-- ===== src/Library/Tests.antt =====
-- Runs of src/tinyrtc.c and src/media/dtls.c, with toy functions in place of those of mbedtls.
use tinyrtc.Prelude.{
  ℕ, ◌≡◌, ◌≢◌, ◌⊎◌, refl, true, false, List, [], ◌∷◌, ◌++◌, arith, take, length, replicate, none,
  some, done, inl,
}
use tinyrtc.Status.{Status, ok}
use tinyrtc.Dtls.{Dtls, SrtpKeys}
use tinyrtc.Sdp.{session_init}
use tinyrtc.Ice.{Session, Pair}
use tinyrtc.Peer.{PeerConnection, closed, connected, is_secure_media_ready}
use tinyrtc.Peer.Wire.{Paired}
use tinyrtc.Library.{
  Environment, state_change, initialize_srtp, process_peer, start_dtls, is_connected_state,
}
use tinyrtc.Library.Secure.{IsSecure, SameSrtp, initialize_srtp-Paired, initialize_srtp_lem}
use tinyrtc.Library.Events.{process_peer-ready}

abbrev sha256 : List ℕ → List ℕ
sha256 message = replicate 32 (length message)

abbrev native_bytes : ℕ → List ℕ
native_bytes n = n ∷ 0 ∷ 0 ∷ 0 ∷ []

abbrev block : List ℕ → List ℕ → List ℕ
block key counter_block = take 16 (key ++ counter_block)

abbrev hmac : List ℕ → List ℕ → List ℕ
hmac key message = replicate 20 (length message)

abbrev no_keys : SrtpKeys
no_keys = record { client_key = []; client_salt = []; server_key = []; server_salt = [] }

abbrev dtls : Dtls
dtls = record { master_secret = replicate 48 5; master_secret_captured = true; keys = no_keys }

abbrev pair : Pair
pair = record {
  local = 0;
  remote = 0;
  succeeded = true;
  last_ping_ms = 7;
  last_transaction_id = [];
  last_transaction_id_valid = false;
}

abbrev session : Session
session = record {
  state = 2;
  local = [];
  remote = [];
  check_pairs = record pair { succeeded = false } ∷ pair ∷ [];
  selected_pair = none;
  server_transaction_id = [];
  server_transaction_id_valid = false;
}

-- A connection that was closed.
abbrev client : PeerConnection
client = record {
  is_initiator = true;
  state = closed;
  local_tracks = [];
  remote_tracks = [];
  ice = some session;
  socket_open = true;
  dtls = some dtls;
  srtp_initialized = false;
  srtp = none;
  srtp_rx = none;
  on_audio_frame = true;
  on_video_frame = true;
  local_sdp = session_init;
  remote_sdp = session_init;
}

abbrev server : PeerConnection
server = record client { is_initiator = false }

abbrev env : Environment
env = record {
  text = λ _. [];
  sha256 = sha256;
  native_bytes = native_bytes;
  block = block;
  hmac = hmac;
  dtls_init = some dtls;
  start = λ d. d;
  process = λ d _. d;
  poll = λ d. (d, true);
  allocs = (true, true);
  now = 5000;
  clock = λ _. 5000;
}

initialize_srtp-Paired_example :
    (c s : PeerConnection) × (initialize_srtp sha256 native_bytes (true, true) client ≡ (ok, c))
    × (initialize_srtp sha256 native_bytes (true, true) server ≡ (ok, s))
    × Paired c.srtp s.srtp_rx
    × Paired s.srtp c.srtp_rx
    × (c.srtp_initialized ≡ true)
    × (s.srtp_initialized ≡ true)
initialize_srtp-Paired_example =
    initialize_srtp-Paired sha256 native_bytes client server dtls dtls refl refl refl refl refl refl
      refl

initialize_srtp_example :
    (s : Status) × (after : PeerConnection) × (initialize_srtp sha256 native_bytes
        (true, false)
        client
      ≡ (s, after))
    × ((s ≡ ok) × IsSecure after ⊎ (s ≢ ok) × SameSrtp client after)
initialize_srtp_example = initialize_srtp_lem sha256 native_bytes (true, false) client

process_peer-ready_example :
    (after : PeerConnection) × (process_peer env client none
      ≡ done (after, state_change connected ∷ []))
    × (after.state ≡ connected)
    × (is_secure_media_ready after ≡ true)
unfolding is_connected_state start_dtls
process_peer-ready_example =
    process_peer-ready env client session dtls dtls refl refl refl refl (omega arith) (inl refl)
      (record { index = 1; pair = pair; stands = refl; success = refl }) refl refl refl refl
