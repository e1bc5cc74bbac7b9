-- ===== src/Peer/Pieces.antt =====
-- Frames of the codecs other than H.264 at the receiving track: what `pc_process_incoming_rtp` of
-- src/peer_connection.c does with the pieces that `tinyrtc_packetize_frame` of src/media/rtp.c cut.
use tinyrtc.Prelude.{ℕ, ◌+◌, ◌≡◌, true, false, List, [], ◌∷◌, ◌++◌, u64}
use tinyrtc.Status.{Status}
use tinyrtc.Packetize.{Packet, is_h264}
use tinyrtc.Depacketize.{depacketize_payload}
use tinyrtc.Peer.{PeerConnection, Track}
use tinyrtc.Peer.Receive.{Delivery, observed, reassemble}

-- The packets of a frame arrive at the track in order; each payload goes through the depacketizer
-- and its result through `reassemble`. The state of the track and the calls of the observer.
unfoldable pub hear : PeerConnection → Track → ℕ → List Packet → Track × List Delivery
unfolding reassemble depacketize_payload
hear pc t timestamp [] = (t, [])
hear pc t timestamp (p ∷ ps) =
    let (s, after, deliveries) =
      reassemble true pc t timestamp (depacketize_payload t.codec_id p.marker 4096 p.payload) in
    let (last, later) = hear pc after timestamp ps in (last, deliveries ++ later)

module _ (pc : PeerConnection) (t : Track) (timestamp : ℕ) (plain : is_h264 t.codec_id ≡ false)
    (watched : observed pc t.kind ≡ true) where
  -- The track behind a frame.
  abbrev counted : Track
  counted = record t { frames_received = u64 (t.frames_received + 1) }
