-- ===== src/Peer.antt =====
-- The peer connection of src/peer_connection.c: its tracks and its state. A track stands in the
-- list of its connection under its address; a list is as long as its counter says. The lock is
-- left out: a call runs from its start to its end. Whether an allocation succeeds is an argument.
mod Tests
pub mod Send
pub mod Receive
pub mod Room
pub mod Reassembly
pub mod Wire
pub mod Arrival
pub mod Tracks
pub mod Outgoing
pub mod Rejects
pub mod Media
pub mod Pieces
pub mod Candidates
pub mod Descriptions
pub mod Gathered
pub mod Offered
pub mod Exchange
pub mod Negotiation
mod OfferTests
use tinyrtc.Prelude.{
  ℕ, zero, suc, ◌+◌, ◌-◌, ◌*◌, ◌^◌, Bool, true, false, not, List, [], ◌∷◌, ◌++◌, Option, none, some,
  ltb, leb, ◌==◌, if◌then◌else◌, length, get_elem?, take,
}
use tinyrtc.Status.{Status, ok, invalid_arg, not_found}
use tinyrtc.Codec.{CodecId, codec_number, get_default_payload, get_clock_rate}
pub use tinyrtc.TrackTypes.{TrackKind, audio, video, TrackConfig}
use tinyrtc.Jitter.{Jitter}
use tinyrtc.Srtp.{Context}
use tinyrtc.Dtls.{Dtls}
use tinyrtc.Ice.{Pair, Session}
use tinyrtc.Sdp.{SdpSession, session_init, max_media}

-- `tinyrtc_pc_state_t`
pub data PcState : Type 0 where
  new connecting connected disconnected failed closed : PcState

-- `struct tinyrtc_track`. The bytes of the reassembly buffer that are in use are a list.
pub record Track : Type 0 where
  pub address : ℕ
  pub kind : TrackKind
  pub codec_id : CodecId
  pub mid : List ℕ
  pub payload_type : ℕ
  pub clock_rate : ℕ
  pub is_local : Bool
  pub next_sequence : ℕ
  pub jitter_buffer : Option Jitter
  pub reassembly_buffer : List ℕ
  pub reassembly_capacity : ℕ
  pub reassembly_timestamp : ℕ
  pub reassembly_active : Bool
  pub frames_sent : ℕ
  pub bytes_sent : ℕ
  pub packets_received : ℕ
  pub frames_received : ℕ

-- `struct tinyrtc_peer_connection`, less the fields that nothing reads. The ICE
-- session comes with the test `socket >= 0`; the observer is whether each callback is set.
pub record PeerConnection : Type 0 where
  pub is_initiator : Bool
  pub state : PcState
  pub local_tracks : List Track
  pub remote_tracks : List Track
  pub ice : Option Session
  pub socket_open : Bool
  pub dtls : Option Dtls
  pub srtp_initialized : Bool
  pub srtp : Option Context
  pub srtp_rx : Option Context
  pub on_audio_frame : Bool
  pub on_video_frame : Bool
  pub local_sdp : SdpSession
  pub remote_sdp : SdpSession

-- `tinyrtc_peer_connection_create`, for allocations that succeed.
pub create : Bool → Bool → Bool → PeerConnection
create is_initiator on_audio_frame on_video_frame = record {
  is_initiator = is_initiator;
  state = new;
  local_tracks = [];
  remote_tracks = [];
  ice = none;
  socket_open = false;
  dtls = none;
  srtp_initialized = false;
  srtp = none;
  srtp_rx = none;
  on_audio_frame = on_audio_frame;
  on_video_frame = on_video_frame;
  local_sdp = session_init;
  remote_sdp = session_init;
}

-- `tinyrtc_peer_connection_close`
pub close : PeerConnection → PeerConnection
close pc = record pc { state = closed }

-- The payload type of a new track; the result -1 of the table is written in two's complement.
abbrev pub payload_or_default : ℕ → CodecId → ℕ
payload_or_default payload_type codec =
    if not (payload_type == 0)
    then payload_type
    else elim (get_default_payload (codec_number codec)) [ none ↦ 2 ^ 32 - 1 | some pt ↦ pt ]

-- The new track at `address`, as `tinyrtc_peer_connection_add_track` fills it in.
unfoldable pub local_track : ℕ → TrackConfig → Track
local_track address config = record {
  address = address;
  kind = config.kind;
  codec_id = config.codec_id;
  mid = take 15 config.mid;
  payload_type = payload_or_default config.payload_type config.codec_id;
  clock_rate =
      if not (config.clock_rate == 0)
      then config.clock_rate
      else get_clock_rate (codec_number config.codec_id);
  is_local = true;
  next_sequence = 0;
  jitter_buffer = none;
  reassembly_buffer = [];
  reassembly_capacity = 0;
  reassembly_timestamp = 0;
  reassembly_active = false;
  frames_sent = 0;
  bytes_sent = 0;
  packets_received = 0;
  frames_received = 0;
}

-- `tinyrtc_peer_connection_add_track`; the allocator's result is `none` for a failure.
unfoldable pub add_track : Option ℕ → PeerConnection → TrackConfig → Option ℕ × PeerConnection
unfolding local_track
add_track alloc pc config =
    if leb max_media (length pc.local_tracks) then (none, pc) else elim alloc [
      | none ↦ (none, pc)
      | some address ↦ (
        some address,
        record pc { local_tracks = pc.local_tracks ++ (local_track address config ∷ []) },
      )
    ]

-- The loop that finds the track and moves the later ones one place to the front.
unfoldable pub remove : ℕ → List Track → Option (List Track)
remove address [] = none
remove address (t ∷ ts) =
    let rest = remove address ts in
    if t.address == address then some ts else elim rest [ none ↦ none | some us ↦ some (t ∷ us) ]

-- `tinyrtc_peer_connection_remove_track`
unfoldable pub remove_track : PeerConnection → ℕ → Status × PeerConnection
unfolding remove
remove_track pc address = elim (remove address pc.local_tracks) [
  | none ↦ (not_found, pc)
  | some tracks ↦ (ok, record pc { local_tracks = tracks })
]

-- The pair that a session has chosen.
unfoldable pub selected : Session → Option Pair
selected ice = elim ice.selected_pair [ none ↦ none | some i ↦ get_elem? ice.check_pairs i ]

-- The tests of the pair and of the SRTP contexts.
unfoldable pub pair_ready : Bool → Option Pair → Bool
pair_ready srtp_initialized none = false
pair_ready srtp_initialized (some pair) = if not pair.succeeded then false else srtp_initialized

unfoldable pub media_ready : Option Session → Bool → Bool → Bool
unfolding selected pair_ready
media_ready none socket_open srtp_initialized = false
media_ready (some ice) socket_open srtp_initialized =
    if not socket_open then false else pair_ready srtp_initialized (selected ice)

-- `pc_is_secure_media_ready`
unfoldable pub is_secure_media_ready : PeerConnection → Bool
unfolding media_ready
is_secure_media_ready pc = media_ready pc.ice pc.socket_open pc.srtp_initialized

-- The track at an address.
unfoldable pub find_address : ℕ → List Track → Option Track
find_address address [] = none
find_address address (t ∷ ts) =
    let rest = find_address address ts in if t.address == address then some t else rest

-- A write through the pointer `address`.
unfoldable pub write_address : ℕ → Track → List Track → List Track
write_address address new_track [] = []
write_address address new_track (t ∷ ts) =
    let rest = write_address address new_track ts in
    if t.address == address then new_track ∷ ts else t ∷ rest
