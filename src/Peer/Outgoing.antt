-- ===== src/Peer/Outgoing.antt =====
-- The buffer of 1500 bytes in which `packetize_send_callback` of src/peer_connection.c builds a
-- packet.
use tinyrtc.Prelude.{
  ℕ, ◌+◌, ◌≤◌, ◌≡◌, refl, inl, inr, Bool, true, false, Bool-cases, List, [], ◌∷◌, ◌++◌, arith, All,
  take, All-append, ltb, length, length-append, length-take, Option, none, some, done, u16, u64,
  ◌∙◌,
}
use tinyrtc.Status.{Status, ok, invalid_state}
use tinyrtc.Rtp.{build_header}
use tinyrtc.Rtp.RoundTrip.{build_header_plain}
use tinyrtc.Packetize.{Packet, packetize_frame}
use tinyrtc.Packetize.Fragments.{Fits}
use tinyrtc.Packetize.Sizes.{packetize_frame-Fits}
use tinyrtc.Srtp.{Context, srtp_encrypt_packet, crypt, generate_auth, next_roc}
use tinyrtc.Srtp.Packets.{length-crypt}
use tinyrtc.Peer.{Track, PeerConnection, find_address, write_address, is_secure_media_ready}
use tinyrtc.Peer.Send.{
  Sending, sent_header, protect, transmit, send_packet, send_packets, track_send, send_frame,
  send_mtu,
}

-- What goes out fits the buffer.
abbrev pub AllFit : List (List ℕ) → Type 0
AllFit wire = All (λ bytes. length bytes ≤ 1500) wire

module _ (block hmac : List ℕ → List ℕ → List ℕ) where
  protect_fits :
      (context : Option Context) (packet : List ℕ)
      → 12 ≤ length packet
      → length packet ≤ 1490
      → (after : Option Context) × (bytes : List ℕ) × (protect block hmac context packet
          ≡ done (after, bytes))
        × (length bytes ≤ 1500)
  unfolding protect srtp_encrypt_packet generate_auth
  protect_fits none packet long room = (none, packet, refl, omega arith)
  protect_fits (some c) packet long room =
      let encrypted = crypt block hmac c packet in
      let tag = take 10 (hmac c.key encrypted) in
      let a : ltb 1500 (length packet + 10) ≡ false = ground arith in
      let b : ltb (length packet) 12 ≡ false = ground arith in
      (
        some (next_roc block hmac c),
        encrypted ++ tag,
        rw (a, b),
        omega (
          arith,
          length-append encrypted tag,
          length-crypt block hmac c packet,
          length-take 10 (hmac c.key encrypted),
        ),
      )

  module _ (deliver : List ℕ → Bool) (ready : Bool) (payload_type timestamp : ℕ) where
    transmit_fits :
        (s : Sending) (packet : List ℕ)
        → 12 ≤ length packet
        → length packet ≤ 1490
        → (after : Sending) × (wire : List (List ℕ)) × (transmit block hmac deliver ready
              payload_type timestamp s packet
            ≡ done (after, wire))
          × AllFit wire
    unfolding transmit
    transmit_fits s packet long room = elim (Bool-cases ready) [
      | inr off ↦ (s, [], rw (transmit, off), tt)
      | inl on ↦
          let (context, bytes, encrypted, fits) = protect_fits s.srtp packet long room in
          elim (Bool-cases (deliver bytes)) [
            | inl taken ↦ (
              record { sequence = s.sequence; next_sequence = s.sequence; srtp = context },
              bytes ∷ [],
              rw (transmit, on, encrypted, taken),
              (fits, tt),
            )
            | inr lost ↦ (record s { srtp = context }, [], rw (transmit, on, encrypted, lost), tt)
          ]
    ]

    send_packet_on :
        (s : Sending) (p : Packet) (header : List ℕ)
        → build_header (sent_header payload_type timestamp s.sequence p.marker) 1500 ≡ done header
        → ltb 1500 (length header + length p.payload) ≡ false
        → send_packet block hmac deliver ready payload_type timestamp s p
          ≡ transmit block hmac deliver ready payload_type timestamp
              (record s { sequence = u16 (s.sequence + 1) })
              (header ++ p.payload)
    unfolding send_packet
    send_packet_on s p header built room = rw (send_packet, built, room)

    -- A payload of at most 1478 bytes never overruns the buffer.
    send_packet_fits :
        (s : Sending) (p : Packet)
        → length p.payload ≤ 1478
        → (after : Sending) × (wire : List (List ℕ)) × (send_packet block hmac deliver ready
              payload_type timestamp s p
            ≡ done (after, wire))
          × AllFit wire
    send_packet_fits s p fits =
        let (header, built, twelve) =
          build_header_plain (sent_header payload_type timestamp s.sequence p.marker) 1500 refl refl
            (omega arith) in
        let total = length-append header p.payload in
        let room : ltb 1500 (length header + length p.payload) ≡ false = ground arith in
        let (after, wire, sent, small) =
          transmit_fits (record s { sequence = u16 (s.sequence + 1) }) (header ++ p.payload)
            (omega arith) (omega arith) in
        (after, wire, send_packet_on s p header built room ∙ sent, small)

    send_packets_fit :
        (ps : List Packet) (s : Sending)
        → All (Fits 1478) ps
        → (after : Sending) × (wire : List (List ℕ)) × (send_packets block hmac deliver ready
              payload_type timestamp s ps
            ≡ done (after, wire))
          × AllFit wire
    unfolding send_packets
    send_packets_fit [] s fits = (s, [], refl, tt)
    send_packets_fit (p ∷ ps) s (fit, fits) =
        let (middle, wire, sent, small) = send_packet_fits s p fit in
        let (after, later, sends, all_small) = send_packets_fit ps middle fits in
        (
          after,
          wire ++ later,
          rw (sent, sends),
          All-append (λ bytes. length bytes ≤ 1500) wire later small all_small,
        )

-- The frame goes out where the track and the connection are ready.
pub sent_frame :
    (block hmac : List ℕ → List ℕ → List ℕ) (alloc : ℕ → Bool) (deliver : List ℕ → Bool)
    (pc : PeerConnection) (address : ℕ) (t : Track) (frame : List ℕ) (timestamp : ℕ)
    (after : Sending) (wire : List (List ℕ))
    → find_address address (pc.local_tracks ++ pc.remote_tracks) ≡ some t
    → t.is_local ≡ true
    → is_secure_media_ready pc ≡ true
    → send_packets block hmac deliver true t.payload_type timestamp
        (record { sequence = t.next_sequence; next_sequence = t.next_sequence; srtp = pc.srtp })
        (packetize_frame alloc t.codec_id send_mtu frame)
      ≡ done (after, wire)
    → (pc1 : PeerConnection) × (send_frame block hmac alloc deliver pc address frame timestamp
        ≡ done (ok, pc1, wire))
unfolding send_frame track_send
sent_frame block hmac alloc deliver pc address t frame timestamp after wire found own ready sent = (
  record pc {
    srtp = after.srtp;
    local_tracks =
        write_address address
          (record t {
            next_sequence = after.next_sequence;
            frames_sent = u64 (t.frames_sent + 1);
            bytes_sent = u64 (t.bytes_sent + length frame);
          })
          pc.local_tracks;
  },
  rw (send_frame, found, own, ready, track_send, sent),
)

-- Sending a frame of any codec, any length and any payload type, with or without SRTP, whichever
-- allocations and transmissions fail, never writes outside the packet buffer; every packet that
-- goes out has at most 1500 bytes, its tag included.
pub send_frame_lem :
    (block hmac : List ℕ → List ℕ → List ℕ) (alloc : ℕ → Bool) (deliver : List ℕ → Bool)
    (pc : PeerConnection) (address : ℕ) (t : Track) (frame : List ℕ) (timestamp : ℕ)
    → find_address address (pc.local_tracks ++ pc.remote_tracks) ≡ some t
    → (s : Status) × (after : PeerConnection) × (wire : List (List ℕ)) × (send_frame block hmac
          alloc deliver pc address frame timestamp
        ≡ done (s, after, wire))
      × AllFit wire
unfolding send_frame
send_frame_lem block hmac alloc deliver pc address t frame timestamp found =
    elim (Bool-cases t.is_local) [
      | inr remote ↦ (invalid_state, pc, [], rw (send_frame, found, remote), tt)
      | inl own ↦ elim (Bool-cases (is_secure_media_ready pc)) [
        | inr off ↦ (invalid_state, pc, [], rw (send_frame, found, own, off), tt)
        | inl ready ↦
            let (after, wire, sent, small) =
              send_packets_fit block hmac deliver true t.payload_type timestamp
                (packetize_frame alloc t.codec_id send_mtu frame)
                (record {
                  sequence = t.next_sequence;
                  next_sequence = t.next_sequence;
                  srtp = pc.srtp;
                })
                (packetize_frame-Fits alloc t.codec_id send_mtu frame) in
            let done_with =
              sent_frame block hmac alloc deliver pc address t frame timestamp after wire found own
                ready sent in
            (ok, done_with.0, wire, done_with.1, small)
      ]
    ]
