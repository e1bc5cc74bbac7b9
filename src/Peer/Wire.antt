-- ===== src/Peer/Wire.antt =====
-- One RTP packet on its way from `packetize_send_callback` to `pc_process_incoming_rtp` of
-- src/peer_connection.c.
use tinyrtc.Prelude.{
  ℕ, ◌+◌, ◌^◌, ◌≤◌, ◌<◌, ◌≡◌, refl, sym, ap, ◌∙◌, Bool, true, false, List, [], ◌∷◌, ◌++◌, arith,
  ltb, length, length-append, drop-append, Option, none, some, u16, Outcome, done, refused, fault,
}
use tinyrtc.Codec.{h264}
use tinyrtc.Rtp.{parse_header, build_header}
use tinyrtc.Rtp.RoundTrip.{IsWire, parse_header-build_header, build_header-IsWire}
use tinyrtc.Packetize.{Packet}
use tinyrtc.Depacketize.{depacketize_frame, depacketize_payload}
use tinyrtc.Depacketize.Chunks.{depacketize_frame_lem}
use tinyrtc.Srtp.{Context, next_roc}
use tinyrtc.Srtp.Packets.{srtp_decrypt-srtp_encrypt}
use tinyrtc.Peer.Send.{Sending, sent_header, protect, transmit, send_packet}
use tinyrtc.Peer.Receive.{unprotect}

-- Both ends use SRTP with the same key and salt, or neither does.
abbrev pub Paired : Option Context → Option Context → Type 0
Paired none none = Unit
Paired (some s) (some r) = (s.key ≡ r.key) × (s.salt ≡ r.salt)
Paired none (some r) = ⊥
Paired (some s) none = ⊥

written : Outcome (List ℕ) → ℕ
written (done bytes) = length bytes
written refused = 0
written fault = 0

module _ (block hmac : List ℕ → List ℕ → List ℕ) where
  -- The receiver with the context `before` reads `packet` from the bytes, and then has `context`.
  abbrev pub Opens : Option Context → Option Context → List ℕ → List ℕ → Type 0
  Opens before context bytes packet = unprotect block hmac before bytes ≡ done (context, packet)

  pub protect_lem :
      (sender receiver : Option Context) (packet : List ℕ)
      → ((key message : List ℕ) → length (hmac key message) ≡ 20)
      → Paired sender receiver
      → 12 ≤ length packet
      → length packet ≤ 1490
      → (bytes : List ℕ) × (after : Option Context) × (context : Option Context) × (protect block
            hmac sender packet
          ≡ done (after, bytes))
        × Paired after context
        × Opens receiver context bytes packet
  unfolding protect unprotect
  protect_lem none none packet mac same long room = (packet, none, none, refl, tt, refl)
  protect_lem none (some r) packet mac same long room = absurd same
  protect_lem (some s) none packet mac same long room = absurd same
  protect_lem (some s) (some r) packet mac (key, salt) long room =
      let (bytes, encrypted, len, decrypted) =
        srtp_decrypt-srtp_encrypt block hmac s r packet 1500 mac key salt long (omega arith) in
      (
        bytes,
        some (next_roc block hmac s),
        some (next_roc block hmac r),
        rw encrypted,
        unfold next_roc in (key, salt),
        rw decrypted,
      )

  module _ (payload_type timestamp : ℕ) where
    sent_header-IsWire :
        (sequence : ℕ) (marker : Bool)
        → payload_type < 128
        → timestamp < 2 ^ 32
        → sequence < 2 ^ 16
        → IsWire (sent_header payload_type timestamp sequence marker)
    sent_header-IsWire sequence marker pt ts sn = record {
      version_two = refl;
      no_extension = refl;
      count_fits = omega arith;
      count_agrees = refl;
      sources_agree = refl;
      type_fits = omega arith;
      sequence_fits = sn;
      timestamp_fits = ts;
      ssrc_fits = omega arith;
      sources_fit = tt;
    }

    send_packet-done :
        (s : Sending) (p : Packet) (header bytes : List ℕ) (srtp : Option Context)
        → build_header (sent_header payload_type timestamp s.sequence p.marker) 1500 ≡ done header
        → ltb 1500 (length header + length p.payload) ≡ false
        → protect block hmac s.srtp (header ++ p.payload) ≡ done (srtp, bytes)
        → send_packet block hmac (λ _. true) true payload_type timestamp s p
          ≡ done (
            record {
              sequence = u16 (s.sequence + 1);
              next_sequence = u16 (s.sequence + 1);
              srtp = srtp;
            },
            bytes ∷ [],
          )
    unfolding send_packet transmit
    send_packet-done s p header bytes srtp built room encrypted =
        rw (send_packet, built, room, transmit, encrypted)

    -- A packet of at most 1478 bytes of payload goes out, and the receiver reads its header and
    -- its payload from what goes out.
    pub send_packet_lem :
        (s : Sending) (p : Packet) (receiver : Option Context)
        → ((key message : List ℕ) → length (hmac key message) ≡ 20)
        → payload_type < 128
        → timestamp < 2 ^ 32
        → s.sequence < 2 ^ 16
        → length p.payload ≤ 1478
        → Paired s.srtp receiver
        → (bytes packet : List ℕ) × (after : Sending) × (context : Option Context) × (send_packet
              block hmac
              (λ _. true)
              true
              payload_type
              timestamp
              s
              p
            ≡ done (after, bytes ∷ []))
          × (after.sequence < 2 ^ 16)
          × Paired after.srtp context
          × Opens receiver context bytes packet
          × (parse_header packet ≡ done (sent_header payload_type timestamp s.sequence p.marker))
          × (depacketize_frame h264 4096 packet ≡ depacketize_payload h264 p.marker 4096 p.payload)
    unfolding written
    send_packet_lem s p receiver mac pt ts sn fits same =
        let h = sent_header payload_type timestamp s.sequence p.marker in
        let wire = sent_header-IsWire s.sequence p.marker pt ts sn in
        let (header, built, parsed, behind) =
          parse_header-build_header h 1500 p.payload wire (omega arith) in
        let (built_too, len) = build_header-IsWire h 1500 wire (omega arith) in
        let twelve : length header ≡ 12 = ap written (sym built ∙ built_too) ∙ len in
        let total = length-append header p.payload in
        let (bytes, srtp, context, encrypted, paired, opens) =
          protect_lem s.srtp receiver (header ++ p.payload) mac same (omega arith) (omega arith) in
        let room : ltb 1500 (length header + length p.payload) ≡ false = ground arith in
        (
          bytes,
          header ++ p.payload,
          record {
            sequence = u16 (s.sequence + 1);
            next_sequence = u16 (s.sequence + 1);
            srtp = srtp;
          },
          context,
          send_packet-done s p header bytes srtp built room encrypted,
          omega arith,
          paired,
          opens,
          parsed,
          depacketize_frame_lem h264 4096 (header ++ p.payload) h (length header) parsed behind
              ∙ ap (depacketize_payload h264 p.marker 4096)
                  (drop-append (length header) header p.payload refl),
        )
