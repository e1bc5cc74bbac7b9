-- ===== src/Peer/Descriptions.antt =====
-- The descriptions of src/peer_connection.c: `tinyrtc_peer_connection_create_offer`,
-- `tinyrtc_peer_connection_create_answer` and `tinyrtc_peer_connection_set_remote_description`.
-- The clock, the system's interfaces and socket, and the DTLS context that mbedtls makes are given
-- by an environment. Allocations succeed, but for those of tracks. The calls of the observer are
-- left out.
use tinyrtc.Prelude.{
  ℕ, ◌+◌, Bool, true, false, List, [], ◌∷◌, ◌++◌, Option, none, some, ltb, if◌then◌else◌, length,
  map, take, u64, Outcome, done, refused, fault,
}
use tinyrtc.Status.{Status, ok, invalid_state}
use tinyrtc.Jitter
use tinyrtc.Dtls.{Dtls}
use tinyrtc.Ice.{Session, session_create}
use tinyrtc.Ice.Gathering.{start_gathering}
use tinyrtc.TrackTypes.{TrackKind, audio, video, TrackConfig}
use tinyrtc.Sdp.{Media, SdpCandidate, SdpSession, session_init, max_media, add_media}
use tinyrtc.Sdp.Text.{codes, print_unsigned}
use tinyrtc.Sdp.Parser.{sdp_parse}
use tinyrtc.Sdp.Generator.{sdp_generate}
use tinyrtc.Peer.{Track, PeerConnection, PcState, connecting, closed}
use tinyrtc.Peer.Candidates.{candidate_to_sdp, add_all_remote}

-- What a call gets from outside: the time at its reads, the interfaces, the request to a STUN
-- server and the port of the socket, the DTLS context that `dtls_init` makes for a role, and the
-- text of a context's fingerprint, if there is one.
pub record Environment : Type 0 where
  pub id_time : ℕ
  pub version_time : ℕ
  pub credential_time : ℕ
  pub interfaces : List (List ℕ)
  pub stun_request : Option (List ℕ)
  pub port : Option ℕ
  pub dtls_init : Bool → Option Dtls
  pub get_fingerprint : Dtls → Option (List ℕ)

-- `pc_generate_local_ice_credentials`
unfoldable pub generate_local_ice_credentials : ℕ → SdpSession → SdpSession
generate_local_ice_credentials now session = record session {
  ice_ufrag = take 31 (codes "tiny" ++ print_unsigned now);
  ice_pwd = take 63 (codes "rtc" ++ (print_unsigned (u64 (now + 12345)) ++ codes "random"));
}

-- The fingerprint of a context, where there is one.
unfoldable pub set_fingerprint : SdpSession → Option (List ℕ) → SdpSession
set_fingerprint session none = session
set_fingerprint session (some text) = record session {
  fingerprint_type = codes "sha-256";
  fingerprint = take 127 text;
}

unfoldable pub fingerprint_of : Environment → Option Dtls → Option (List ℕ)
fingerprint_of env none = none
fingerprint_of env (some dtls) = env.get_fingerprint dtls

-- The context that there is, or a new one.
unfoldable pub ensure_dtls : Environment → Bool → Option Dtls → Option Dtls
ensure_dtls env is_initiator none = env.dtls_init is_initiator
ensure_dtls env is_initiator (some dtls) = some dtls

-- `cfg` of an offer.
unfoldable pub offered_config : Track → TrackConfig
offered_config t = record {
  kind = t.kind;
  codec_id = t.codec_id;
  payload_type = t.payload_type;
  clock_rate = t.clock_rate;
  channels = 0;
  mid = t.mid;
}

unfoldable pub add_all_media : SdpSession → List TrackConfig → SdpSession
unfolding add_media
add_all_media session [] = session
add_all_media session (c ∷ cs) = add_all_media (add_media session c).1 cs

-- The fields of an offer in front of its tracks.
unfoldable pub offer_fields : Environment → SdpSession
offer_fields env = record session_init {
  username = codes "-";
  session_id = u64 env.id_time;
  session_version = u64 env.version_time;
  network_type = codes "IN";
  address_type = codes "IP4";
  unicast_address = codes "0.0.0.0";
  session_name = codes "TinyRTC";
}

unfoldable pub answer_fields : SdpSession → SdpSession
answer_fields remote = record session_init {
  username = remote.username;
  session_id = remote.session_id;
  session_version = u64 (remote.session_version + 1);
  network_type = remote.network_type;
  address_type = remote.address_type;
  unicast_address = codes "0.0.0.0";
  session_name = codes "TinyRTC";
}

-- A description with its credentials, its setup and its fingerprint.
unfoldable pub with_secrets : Environment → PeerConnection → List ℕ → SdpSession → SdpSession
unfolding generate_local_ice_credentials set_fingerprint fingerprint_of ensure_dtls
with_secrets env pc setup session =
    set_fingerprint
      (record (generate_local_ice_credentials env.credential_time session) { dtls_setup = setup })
      (fingerprint_of env (ensure_dtls env pc.is_initiator pc.dtls))

-- The new ICE session, with the remote candidates that are known already.
unfoldable pub new_ice : Environment → SdpSession → Session
unfolding start_gathering add_all_remote
new_ice env remote =
    add_all_remote (start_gathering env.interfaces env.stun_request env.port session_create).1
      remote.candidates

unfoldable pub opened : Option ℕ → Bool
opened none = false
opened (some port) = true

-- What an offer and an answer have in common: the description becomes the local one, a new ICE
-- session gathers its candidates, and they go into the description, of which the text is made.
unfoldable pub publish :
    Environment → PeerConnection → SdpSession → Status × PeerConnection × Option (List ℕ)
unfolding new_ice opened ensure_dtls candidate_to_sdp
publish env pc session =
    let ice = new_ice env pc.remote_sdp in
    let local = record session {
      candidates = session.candidates ++ map candidate_to_sdp ice.local;
    } in
    (
      ok,
      record pc {
        state = connecting;
        dtls = ensure_dtls env pc.is_initiator pc.dtls;
        ice = some ice;
        socket_open = opened env.port;
        local_sdp = local;
      },
      some (sdp_generate local),
    )

unfoldable pub is_closed : PcState → Bool
is_closed closed = true
is_closed _ = false

-- The offer.
unfoldable pub offer_session : Environment → PeerConnection → SdpSession
unfolding with_secrets offer_fields add_all_media offered_config
offer_session env pc =
    add_all_media (with_secrets env pc (codes "actpass") (offer_fields env))
      (map offered_config pc.local_tracks)

-- `tinyrtc_peer_connection_create_offer`
unfoldable pub create_offer :
    Environment → PeerConnection → Status × PeerConnection × Option (List ℕ)
unfolding is_closed publish offer_session
create_offer env pc =
    if is_closed pc.state then (invalid_state, pc, none) else publish env pc (offer_session env pc)

unfoldable pub same_kind : TrackKind → TrackKind → Bool
same_kind audio audio = true
same_kind video video = true
same_kind _ _ = false

-- The loop that looks for a local track of the kind.
unfoldable pub has_kind : TrackKind → List Track → Bool
unfolding same_kind
has_kind kind [] = false
has_kind kind (t ∷ ts) = if same_kind t.kind kind then true else has_kind kind ts

-- The entries of an answer: those of the offer for which there is a local track.
unfoldable pub matched : List Track → List Media → List TrackConfig
unfolding has_kind
matched tracks [] = []
matched tracks (m ∷ ms) =
    let rest = matched tracks ms in
    if has_kind m.kind tracks
    then record {
      kind = m.kind;
      codec_id = m.codec_id;
      payload_type = m.payload_type;
      clock_rate = m.clock_rate;
      channels = m.channels;
      mid = m.mid;
    }
      ∷ rest
    else rest

unfoldable pub answer_session : Environment → PeerConnection → SdpSession
unfolding with_secrets answer_fields add_all_media matched
answer_session env pc =
    add_all_media (with_secrets env pc (codes "active") (answer_fields pc.remote_sdp))
      (matched pc.local_tracks pc.remote_sdp.media)

-- `tinyrtc_peer_connection_create_answer`
unfoldable pub create_answer :
    Environment → PeerConnection → Status × PeerConnection × Option (List ℕ)
unfolding is_closed publish answer_session
create_answer env pc =
    if is_closed pc.state then (invalid_state, pc, none) else publish env pc (answer_session env pc)

-- The track at `address` for an entry of the remote description.
unfoldable pub remote_track : ℕ → Media → Track
remote_track address m = record {
  address = address;
  kind = m.kind;
  codec_id = m.codec_id;
  mid = m.mid;
  payload_type = m.payload_type;
  clock_rate = m.clock_rate;
  is_local = false;
  next_sequence = 0;
  jitter_buffer = some (Jitter.create Jitter.default_config);
  reassembly_buffer = [];
  reassembly_capacity = 0;
  reassembly_timestamp = 0;
  reassembly_active = false;
  frames_sent = 0;
  bytes_sent = 0;
  packets_received = 0;
  frames_received = 0;
}

-- The loop over the entries. `alloc` gives the address of each new track, if it succeeds.
unfoldable pub add_remote_tracks : (ℕ → Option ℕ) → ℕ → List Media → List Track → List Track
unfolding remote_track
add_remote_tracks alloc i [] tracks = tracks
add_remote_tracks alloc i (m ∷ ms) tracks = elim (alloc i) [
  | none ↦ add_remote_tracks alloc (i + 1) ms tracks
  | some address ↦
      add_remote_tracks alloc (i + 1) ms
        (if ltb (length tracks) max_media then tracks ++ (remote_track address m ∷ []) else tracks)
]

unfoldable pub with_remote : Option Session → List SdpCandidate → Option Session
unfolding add_all_remote
with_remote none candidates = none
with_remote (some ice) candidates = some (add_all_remote ice candidates)

-- What follows the parsing, which has written `remote_sdp`.
unfoldable pub use_remote :
    (ℕ → Option ℕ)
    → PeerConnection
    → Outcome (Status × SdpSession)
    → Outcome (Status × PeerConnection)
unfolding add_remote_tracks with_remote
use_remote alloc pc (done (ok, session)) = done (
  ok,
  record pc {
    remote_sdp = session;
    remote_tracks = add_remote_tracks alloc 0 session.media pc.remote_tracks;
    ice = with_remote pc.ice session.candidates;
  },
)
use_remote alloc pc (done (status, session)) = done (status, record pc { remote_sdp = session })
use_remote alloc pc refused = refused
use_remote alloc pc fault = fault

-- `tinyrtc_peer_connection_set_remote_description`
unfoldable pub set_remote_description :
    ℕ → (ℕ → Option ℕ) → PeerConnection → List ℕ → Outcome (Status × PeerConnection)
unfolding is_closed use_remote
set_remote_description junk alloc pc sdp =
    if is_closed pc.state
    then done (invalid_state, pc)
    else use_remote alloc pc (sdp_parse junk sdp)
