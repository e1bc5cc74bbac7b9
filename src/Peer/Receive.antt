-- ===== src/Peer/Receive.antt =====
-- Receiving of src/peer_connection.c: `pc_process_incoming_rtp` and the reassembly of frames.
use tinyrtc.Prelude.{
  ℕ, zero, suc, ◌+◌, ◌*◌, Bool, true, false, ◌&&◌, not, List, [], ◌∷◌, ◌++◌, Option, none, some,
  ltb, leb, ◌==◌, if◌then◌else◌, length, u64, Outcome, done, refused, fault, ◌>>=◌,
}
use tinyrtc.Status.{Status, ok, error, invalid_arg, memory, not_found}
use tinyrtc.Rtp.{parse_header}
use tinyrtc.Packetize.{is_h264}
use tinyrtc.Depacketize.{Frame, depacketize_frame}
use tinyrtc.Jitter.{add_packet}
use tinyrtc.Srtp.{Context, srtp_decrypt_packet}
use tinyrtc.Peer.{Track, TrackKind, audio, video, PeerConnection}

-- `track_reset_reassembly`
unfoldable pub reset_reassembly : Track → Track
reset_reassembly track = record track {
  reassembly_buffer = [];
  reassembly_timestamp = 0;
  reassembly_active = false;
}

-- The doubling of the capacity. A round adds at least one byte, so the bytes needed are enough
-- fuel.
unfoldable pub grow : ℕ → ℕ → ℕ → ℕ
grow zero needed capacity = capacity
grow (suc fuel) needed capacity =
    let rest = grow fuel needed (capacity * 2) in if ltb capacity needed then rest else capacity

-- `track_append_reassembly`; `alloc` is whether `aosl_realloc` succeeds.
unfoldable pub append_reassembly : Bool → Track → List ℕ → Bool × Track
unfolding grow
append_reassembly alloc track bytes =
    let needed = length track.reassembly_buffer + length bytes in
    if length bytes == 0
    then (true, track)
    else if leb needed track.reassembly_capacity
    then (true, record track { reassembly_buffer = track.reassembly_buffer ++ bytes })
    else if not alloc
    then (false, track)
    else (
      true,
      record track {
        reassembly_buffer = track.reassembly_buffer ++ bytes;
        reassembly_capacity =
            grow needed needed
              (if track.reassembly_capacity == 0 then 4096 else track.reassembly_capacity);
      },
    )

-- One call of `on_audio_frame` or `on_video_frame`.
pub record Delivery : Type 0 where
  pub kind : TrackKind
  pub address : ℕ
  pub frame : List ℕ
  pub timestamp : ℕ

-- A fragment of another frame than the one in the buffer drops what the buffer holds, and the
-- first fragment sets the timestamp.
unfoldable pub start_reassembly : Track → ℕ → Track
unfolding reset_reassembly
start_reassembly track timestamp =
    let stale =
      track.reassembly_active
      && (not (track.reassembly_timestamp == timestamp)
          && ltb 0 (length track.reassembly_buffer)) in
    let fresh = if stale then reset_reassembly track else track in
    if not fresh.reassembly_active
    then record fresh { reassembly_timestamp = timestamp; reassembly_active = true }
    else fresh

-- What an appending leaves: a failed allocation drops the frame.
unfoldable pub appended : Bool × Track → Status × Track
unfolding reset_reassembly
appended (true, track) = (ok, track)
appended (false, track) = (memory, reset_reassembly track)

-- The bytes of one packet are collected; only H.264 frames are put together.
unfoldable pub collect : Bool → Track → ℕ → List ℕ → Status × Track
unfolding start_reassembly append_reassembly appended
collect alloc track timestamp bytes =
    if ltb 0 (length bytes) && is_h264 track.codec_id
    then appended (append_reassembly alloc (start_reassembly track timestamp) bytes)
    else (ok, track)

-- Which callback a complete frame goes to.
abbrev pub observed : PeerConnection → TrackKind → Bool
observed pc audio = pc.on_audio_frame
observed pc video = pc.on_video_frame

-- The end of a complete frame: the callback, and the reset of the buffer.
unfoldable pub complete : PeerConnection → Track → ℕ → List ℕ → Track × List Delivery
complete pc track timestamp bytes =
    let assembled = is_h264 track.codec_id in
    let frame = if assembled then track.reassembly_buffer else bytes in
    let counted = record track { frames_received = u64 (track.frames_received + 1) } in
    let delivery : Delivery = record {
      kind = track.kind;
      address = track.address;
      frame = frame;
      timestamp = timestamp;
    } in
    (
      if assembled then reset_reassembly counted else counted,
      if observed pc track.kind then delivery ∷ [] else [],
    )

-- What follows the collecting.
unfoldable pub finish : PeerConnection → ℕ → Frame → Status × Track → Status × Track × List Delivery
unfolding complete
finish pc timestamp (true, bytes) (ok, track) =
    let (after, deliveries) = complete pc track timestamp bytes in (ok, after, deliveries)
finish pc timestamp (false, bytes) (ok, track) = (ok, track, [])
finish pc timestamp frame (s, track) = (s, track, [])

-- What `pc_process_incoming_rtp` does with the depacketized bytes.
unfoldable pub reassemble :
    Bool → PeerConnection → Track → ℕ → Frame → Status × Track × List Delivery
unfolding collect finish
reassemble alloc pc track timestamp frame =
    finish pc timestamp frame (collect alloc track timestamp frame.1)

-- The first track with the payload type, and a write to it.
unfoldable pub find_payload : ℕ → List Track → Option Track
find_payload payload_type [] = none
find_payload payload_type (t ∷ ts) =
    let rest = find_payload payload_type ts in
    if t.payload_type == payload_type then some t else rest

unfoldable pub write_payload : ℕ → Track → List Track → List Track
write_payload payload_type track [] = []
write_payload payload_type track (t ∷ ts) =
    let rest = write_payload payload_type track ts in
    if t.payload_type == payload_type then track ∷ ts else t ∷ rest

-- The jitter buffer stores the packet; `NULL` is refused.
unfoldable pub buffer_packet : Bool → Track → List ℕ → ℕ → Status × Track
unfolding add_packet
buffer_packet alloc track packet now =
    let counted = record track { packets_received = u64 (track.packets_received + 1) } in
    elim track.jitter_buffer [
      | none ↦ (invalid_arg, counted)
      | some jb ↦
          let (s, after) = add_packet alloc jb packet now in
          (s, record counted { jitter_buffer = some after })
    ]

-- What follows the buffering.
unfoldable pub unpack :
    Bool → PeerConnection → ℕ → List ℕ → Status × Track → Status × Track × List Delivery
unfolding reassemble
unpack alloc pc timestamp packet (ok, track) =
    reassemble alloc pc track timestamp (depacketize_frame track.codec_id 4096 packet)
unpack alloc pc timestamp packet (s, track) = (s, track, [])

-- What happens to the track that a packet belongs to.
unfoldable pub track_receive :
    Bool × Bool → PeerConnection → Track → List ℕ → ℕ → ℕ → Status × Track × List Delivery
unfolding buffer_packet unpack
track_receive (malloc, realloc) pc track packet timestamp now =
    unpack realloc pc timestamp packet (buffer_packet malloc track packet now)

abbrev pub Received : Type 0
Received = Status × PeerConnection × List Delivery

-- `pc_process_incoming_rtp` behind the decryption. A fault of the parser stands with the
-- refusals: see `Rtp.Bounds`.
unfoldable pub process_rtp : Bool × Bool → PeerConnection → List ℕ → ℕ → Received
unfolding find_payload write_payload track_receive
process_rtp allocs pc packet now = elim (parse_header packet) [
  | done header ↦ elim (find_payload header.payload_type pc.remote_tracks) [
    | none ↦ (not_found, pc, [])
    | some track ↦
        let (s, after, deliveries) = track_receive allocs pc track packet header.timestamp now in
        (
          s,
          record pc { remote_tracks = write_payload header.payload_type after pc.remote_tracks },
          deliveries,
        )
  ]
  | refused ↦ (error, pc, [])
  | fault ↦ (error, pc, [])
]

-- What follows the decryption; a failed one is `TINYRTC_ERROR`.
unfoldable pub route :
    Bool × Bool → PeerConnection → ℕ → Outcome (Option Context × List ℕ) → Received
unfolding process_rtp
route allocs pc now (done (context, plain)) =
    process_rtp allocs (record pc { srtp_rx = context }) plain now
route allocs pc now refused = (error, pc, [])
route allocs pc now fault = (error, pc, [])

module _ (block hmac : List ℕ → List ℕ → List ℕ) where
  -- The decryption in place, where there is an SRTP context.
  unfoldable pub unprotect : Option Context → List ℕ → Outcome (Option Context × List ℕ)
  unfolding srtp_decrypt_packet
  unprotect none packet = done (none, packet)
  unprotect (some context) packet = do
    plain ← srtp_decrypt_packet block hmac context packet
    done (some plain.0, plain.1)

  -- `pc_process_incoming_rtp`
  unfoldable pub process_incoming_rtp : Bool × Bool → PeerConnection → List ℕ → ℕ → Received
  unfolding route unprotect
  process_incoming_rtp allocs pc packet now = route allocs pc now (unprotect pc.srtp_rx packet)

  -- The packets of a list arrive one after the other; `clock` is `aosl_time_ms` at each. The
  -- results and the calls of the observer, in order.
  unfoldable pub receive_all :
      Bool × Bool
      → PeerConnection
      → (ℕ → ℕ)
      → ℕ
      → List (List ℕ)
      → List Status × PeerConnection × List Delivery
  unfolding process_incoming_rtp
  receive_all allocs pc clock n [] = ([], pc, [])
  receive_all allocs pc clock n (packet ∷ packets) =
      let (s, after, deliveries) = process_incoming_rtp allocs pc packet (clock n) in
      let (ss, last, later) = receive_all allocs after clock (suc n) packets in
      (s ∷ ss, last, deliveries ++ later)
