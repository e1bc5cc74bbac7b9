-- ===== src/Peer/Send.antt =====
-- Sending of src/peer_connection.c: `tinyrtc_track_send_audio_frame`, which
-- `tinyrtc_track_send_video_frame` repeats but for its log, and `packetize_send_callback`.
use tinyrtc.Prelude.{
  ℕ, ◌+◌, Bool, false, not, List, [], ◌∷◌, ◌++◌, Option, none, some, ltb, if◌then◌else◌, length, u8,
  u16, u64, Outcome, done, refused, fault, ◌>>=◌,
}
use tinyrtc.Status.{Status, ok, invalid_state}
use tinyrtc.Rtp.{Header, build_header}
use tinyrtc.Packetize.{Packet, packetize_frame}
use tinyrtc.Srtp.{Context, srtp_encrypt_packet}
use tinyrtc.Peer.{Track, PeerConnection, is_secure_media_ready, find_address, write_address}

-- `TINYRTC_SEND_MTU - TINYRTC_SRTP_AUTH_TAG_RESERVED`
abbrev pub send_mtu : ℕ
send_mtu = 1490

-- What the calls of the callback change: `ctx->sequence`, `track->next_sequence` and the SRTP
-- context.
pub record Sending : Type 0 where
  pub sequence : ℕ
  pub next_sequence : ℕ
  pub srtp : Option Context

-- The header of a packet; the sources are none.
abbrev pub sent_header : ℕ → ℕ → ℕ → Bool → Header
sent_header payload_type timestamp sequence marker = record {
  version = 2;
  padding = false;
  extension = false;
  csrc_count = 0;
  marker = marker;
  payload_type = u8 payload_type;
  sequence = sequence;
  timestamp = timestamp;
  ssrc = 0;
  num_csrc = 0;
  csrc = [];
}

module _ (block hmac : List ℕ → List ℕ → List ℕ) where
  -- The encryption in the buffer of 1500 bytes, where there is an SRTP context.
  unfoldable pub protect : Option Context → List ℕ → Outcome (Option Context × List ℕ)
  unfolding srtp_encrypt_packet
  protect none packet = done (none, packet)
  protect (some context) packet = do
    encrypted ← srtp_encrypt_packet block hmac context packet 1500
    done (some encrypted.0, encrypted.1)

  module _ (deliver : List ℕ → Bool) (ready : Bool) (payload_type timestamp : ℕ) where
    -- The part of the callback behind the header: `deliver` is whether `inet_pton` takes the
    -- remote address and `sendto` the packet.
    unfoldable pub transmit : Sending → List ℕ → Outcome (Sending × List (List ℕ))
    unfolding protect
    transmit counted packet =
        if not ready then done (counted, []) else elim (protect counted.srtp packet) [
          | done (context, bytes) ↦
              if deliver bytes
              then done (
                record {
                  sequence = counted.sequence;
                  next_sequence = counted.sequence;
                  srtp = context;
                },
                bytes ∷ [],
              )
              else done (record counted { srtp = context }, [])
          | refused ↦ done (counted, [])
          | fault ↦ fault
        ]

    -- `packetize_send_callback`, with the packet that went out, if one did. A payload that does
    -- not fit behind the header is a fault.
    unfoldable pub send_packet : Sending → Packet → Outcome (Sending × List (List ℕ))
    unfolding transmit
    send_packet s p =
        let counted = record s { sequence = u16 (s.sequence + 1) } in
        elim (build_header (sent_header payload_type timestamp s.sequence p.marker) 1500) [
          | done bytes ↦
              if ltb 1500 (length bytes + length p.payload)
              then fault
              else transmit counted (bytes ++ p.payload)
          | refused ↦ done (counted, [])
          | fault ↦ fault
        ]

    -- The calls of the callback for the packets of a frame.
    unfoldable pub send_packets : Sending → List Packet → Outcome (Sending × List (List ℕ))
    unfolding send_packet
    send_packets s [] = done (s, [])
    send_packets s (p ∷ ps) = do
      first ← send_packet s p
      rest ← send_packets first.0 ps
      done (rest.0, first.1 ++ rest.1)

  -- The frame goes out through `track`, which the caller holds.
  unfoldable pub track_send :
      (ℕ → Bool)
      → (List ℕ → Bool)
      → PeerConnection
      → Track
      → List ℕ
      → ℕ
      → Outcome (Sending × List (List ℕ))
  unfolding send_packets
  track_send alloc deliver pc track frame timestamp =
      send_packets deliver (is_secure_media_ready pc) track.payload_type timestamp
        (record {
          sequence = track.next_sequence;
          next_sequence = track.next_sequence;
          srtp = pc.srtp;
        })
        (packetize_frame alloc track.codec_id send_mtu frame)

  -- `tinyrtc_track_send_audio_frame` on the track at `address`, with the packets that went out. A
  -- track that is not there is a pointer to freed memory.
  unfoldable pub send_frame :
      (ℕ → Bool)
      → (List ℕ → Bool)
      → PeerConnection
      → ℕ
      → List ℕ
      → ℕ
      → Outcome (Status × PeerConnection × List (List ℕ))
  unfolding track_send find_address write_address
  send_frame alloc deliver pc address frame timestamp =
      elim (find_address address (pc.local_tracks ++ pc.remote_tracks)) [
        | none ↦ fault
        | some track ↦
            if not track.is_local
            then done (invalid_state, pc, [])
            else if not (is_secure_media_ready pc)
            then done (invalid_state, pc, [])
            else (do
              sent ← track_send alloc deliver pc track frame timestamp
              done (
                ok,
                record pc {
                  srtp = sent.0.srtp;
                  local_tracks =
                      write_address address
                        (record track {
                          next_sequence = sent.0.next_sequence;
                          frames_sent = u64 (track.frames_sent + 1);
                          bytes_sent = u64 (track.bytes_sent + length frame);
                        })
                        pc.local_tracks;
                },
                sent.1,
              ))
      ]
