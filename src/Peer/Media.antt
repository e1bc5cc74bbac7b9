-- ===== src/Peer/Media.antt =====
-- A frame on its way from the sender's track to the receiver's observer, through
-- src/peer_connection.c, src/media/rtp.c and src/media/srtp.c.
use tinyrtc.Prelude.{
  ℕ, suc, ◌^◌, ◌<◌, ◌≡◌, refl, sym, ap, ◌∙◌, Bool, true, false, List, [], ◌∷◌, ◌++◌, arith, All,
  length, concat, map, append_assoc, append-nil, Option, some, done, ◌==◌, inr, ◌&&◌, leb, low_bits,
}
use tinyrtc.Codec.{h264}
use tinyrtc.Status.{ok}
use tinyrtc.Rtp.{parse_header}
use tinyrtc.Packetize.{Packet, packetize_frame, packetize_nalu, is_h264, start_code_len}
use tinyrtc.Packetize.Fragments.{Fits}
use tinyrtc.Packetize.Sizes.{packetize_frame-Fits}
use tinyrtc.Depacketize.{Frame, depacketize_frame, depacketize_payload, depacketize_h264}
use tinyrtc.Depacketize.Nalu.{Flagged, Gives, outputs, depacketize-packetize_nalu}
use tinyrtc.Srtp.{Context}
use tinyrtc.Peer.{PeerConnection, Track, TrackKind, find_address, is_secure_media_ready}
use tinyrtc.Peer.Send.{Sending, send_packet, send_packets, send_frame, send_mtu, sent_header}
use tinyrtc.Peer.Receive.{Delivery, process_incoming_rtp, receive_all}
use tinyrtc.Peer.Reassembly.{Ready, Fresh, reassemble_part, reassemble_whole}
use tinyrtc.Peer.Wire.{Paired, Opens, send_packet_lem}
use tinyrtc.Peer.Outgoing.{sent_frame}
use tinyrtc.Peer.Arrival.{Receiving, observed_same, receive_step}

-- What the observer of the receiver is heard.
abbrev pub told : TrackKind → ℕ → ℕ → List ℕ → List Delivery
told kind address timestamp whole =
    record { kind = kind; address = address; frame = whole; timestamp = timestamp } ∷ []

-- The track at `own` of the connection of the sender, ready to send.
pub record CanSend (payload_type : ℕ) (alloc : ℕ → Bool) (pc : PeerConnection) (t : Track) (own : ℕ)
    : Type 0 where
  pub found : find_address own (pc.local_tracks ++ pc.remote_tracks) ≡ some t
  pub local : t.is_local ≡ true
  pub ready : is_secure_media_ready pc ≡ true
  pub codec : t.codec_id ≡ h264
  pub same_type : t.payload_type ≡ payload_type
  pub in_range : t.next_sequence < 2 ^ 16
  pub allocates : alloc 0 ≡ true

module _ (block hmac : List ℕ → List ℕ → List ℕ) (kind : TrackKind)
    (address payload_type timestamp : ℕ) where
  -- The outcome of sending the packets `ps` to the receiver `pc`.
  abbrev Arrives : Sending → List Packet → PeerConnection → (ℕ → ℕ) → ℕ → List ℕ → Type 0
  Arrives s ps pc clock n whole =
      (after : Sending) × (wire : List (List ℕ)) × (send_packets block hmac (λ _. true) true
          payload_type timestamp s ps
        ≡ done (after, wire))
      × (All (λ st. st ≡ ok) (receive_all block hmac (true, true) pc clock n wire).0)
      × ((receive_all block hmac (true, true) pc clock n wire).2
          ≡ told kind address timestamp whole)

  -- The packet that completes the frame, and one that does not.
  deliver_last :
      (pc : PeerConnection) (context : Option Context) (wire packet acc bytes : List ℕ)
      (sequence : ℕ) (marker : Bool) (now : ℕ)
      → payload_type < 128
      → Opens block hmac pc.srtp_rx context wire packet
      → parse_header packet ≡ done (sent_header payload_type timestamp sequence marker)
      → depacketize_frame h264 4096 packet ≡ (true, bytes)
      → 0 < length (acc ++ bytes)
      → Receiving kind address payload_type (Ready timestamp acc) pc
      → (pc1 : PeerConnection) × (process_incoming_rtp block hmac (true, true) pc wire now
          ≡ (ok, pc1, told kind address timestamp (acc ++ bytes)))
        × Receiving kind address payload_type (Fresh timestamp) pc1
        × (pc1.srtp_rx ≡ context)
  deliver_last pc context wire packet acc bytes sn marker now pt opens parsed framed some_bytes at =
      let watched = observed_same kind pc context pc.remote_tracks at.watched in
      receive_step block hmac kind address payload_type timestamp pc context wire packet acc sn
        marker (true, bytes) now (told kind address timestamp (acc ++ bytes)) (Fresh timestamp) pt
        opens parsed framed at
        λ u ready r.
          reassemble_whole timestamp kind address payload_type (record pc { srtp_rx = context }) acc
            u bytes ready r watched some_bytes

  deliver_part :
      (pc : PeerConnection) (context : Option Context) (wire packet acc bytes : List ℕ)
      (sequence : ℕ) (marker : Bool) (now : ℕ)
      → payload_type < 128
      → Opens block hmac pc.srtp_rx context wire packet
      → parse_header packet ≡ done (sent_header payload_type timestamp sequence marker)
      → depacketize_frame h264 4096 packet ≡ (false, bytes)
      → Receiving kind address payload_type (Ready timestamp acc) pc
      → (pc1 : PeerConnection) × (process_incoming_rtp block hmac (true, true) pc wire now
          ≡ (ok, pc1, []))
        × Receiving kind address payload_type (Ready timestamp (acc ++ bytes)) pc1
        × (pc1.srtp_rx ≡ context)
  deliver_part pc context wire packet acc bytes sn marker now pt opens parsed framed at =
      receive_step block hmac kind address payload_type timestamp pc context wire packet acc sn
        marker (false, bytes) now [] (Ready timestamp (acc ++ bytes)) pt opens parsed framed at
        λ u ready r.
          reassemble_part timestamp kind address payload_type (record pc { srtp_rx = context }) acc
            u bytes ready r

  Arrives-last :
      (s after : Sending) (p : Packet) (wire : List ℕ) (pc pc1 : PeerConnection) (clock : ℕ → ℕ)
      (n : ℕ) (whole : List ℕ)
      → send_packet block hmac (λ _. true) true payload_type timestamp s p ≡ done (after, wire ∷ [])
      → process_incoming_rtp block hmac (true, true) pc wire (clock n)
        ≡ (ok, pc1, told kind address timestamp whole)
      → Arrives s (p ∷ []) pc clock n whole
  unfolding send_packets receive_all
  Arrives-last s after p wire pc pc1 clock n whole sent received =
      (after, wire ∷ [], rw sent, rw received (refl, tt), rw received)

  Arrives-more :
      (s after : Sending) (p : Packet) (ps : List Packet) (wire : List ℕ) (pc pc1 : PeerConnection)
      (clock : ℕ → ℕ) (n : ℕ) (whole : List ℕ)
      → send_packet block hmac (λ _. true) true payload_type timestamp s p ≡ done (after, wire ∷ [])
      → process_incoming_rtp block hmac (true, true) pc wire (clock n) ≡ (ok, pc1, [])
      → Arrives after ps pc1 clock (suc n) whole
      → Arrives s (p ∷ ps) pc clock n whole
  unfolding send_packets receive_all
  Arrives-more s after p ps wire pc pc1 clock n whole sent received
        (last, rest, sends, oks, heard) =
      (last, wire ∷ rest, rw (sent, sends), rw received (refl, oks), rw received heard)

  module _ (mac : (key message : List ℕ) → length (hmac key message) ≡ 20) (pt : payload_type < 128)
      (ts : timestamp < 2 ^ 32) where
    media_loop :
        (ps : List Packet) (acc whole : List ℕ) (s : Sending) (pc : PeerConnection) (clock : ℕ → ℕ)
        (n : ℕ)
        → All (Fits 1478) ps
        → Flagged true (outputs 4096 ps)
        → acc ++ concat (map (λ (f : Frame). f.1) (outputs 4096 ps)) ≡ whole
        → 0 < length whole
        → s.sequence < 2 ^ 16
        → Paired s.srtp pc.srtp_rx
        → Receiving kind address payload_type (Ready timestamp acc) pc
        → Arrives s ps pc clock n whole
    unfolding depacketize_payload is_h264
    media_loop [] acc whole s pc clock n fits flags bytes some_bytes sn same at = absurd flags
    media_loop (p ∷ []) acc whole s pc clock n (fit, _) flag bytes some_bytes sn same at =
        let (wire, packet, after, context, sent, sn1, same1, opens, parsed, framed) =
          send_packet_lem block hmac payload_type timestamp s p pc.srtp_rx mac pt ts sn fit same in
        let f = depacketize_h264 p.marker 4096 p.payload in
        let all_bytes : acc ++ f.1 ≡ whole = ap (λ r. acc ++ r) (sym (append-nil f.1)) ∙ bytes in
        let (pc1, received, at1, rx) =
          deliver_last pc context wire packet acc f.1 s.sequence p.marker (clock n) pt opens parsed
            (framed ∙ ap (λ m. (m, f.1)) flag) (rw all_bytes some_bytes) at in
        Arrives-last s after p wire pc pc1 clock n whole sent
          (received ∙ ap (λ w. (ok, pc1, told kind address timestamp w)) all_bytes)
    media_loop (p ∷ q ∷ ps) acc whole s pc clock n (fit, fits) (flag, flags) bytes some_bytes sn
          same at =
        let (wire, packet, after, context, sent, sn1, same1, opens, parsed, framed) =
          send_packet_lem block hmac payload_type timestamp s p pc.srtp_rx mac pt ts sn fit same in
        let f = depacketize_h264 p.marker 4096 p.payload in
        let (pc1, received, at1, rx) =
          deliver_part pc context wire packet acc f.1 s.sequence p.marker (clock n) pt opens parsed
            (framed ∙ ap (λ m. (m, f.1)) flag) at in
        let later = concat (map (λ (g : Frame). g.1) (outputs 4096 (q ∷ ps))) in
        let all_bytes : (acc ++ f.1) ++ later ≡ whole = append_assoc acc f.1 later ∙ bytes in
        Arrives-more s after p (q ∷ ps) wire pc pc1 clock n whole sent received (
          media_loop (q ∷ ps) (acc ++ f.1) whole after pc1 clock (suc n) fits flags all_bytes
            some_bytes sn1 (rw rx same1) at1)

  send_frame-done :
      (alloc : ℕ → Bool) (pc : PeerConnection) (t : Track) (own : ℕ) (frame : List ℕ)
      (after : Sending) (wire : List (List ℕ))
      → CanSend payload_type alloc pc t own
      → send_packets block hmac
          (λ _. true)
          true
          payload_type
          timestamp
          (record { sequence = t.next_sequence; next_sequence = t.next_sequence; srtp = pc.srtp })
          (packetize_frame alloc h264 send_mtu frame)
        ≡ done (after, wire)
      → (pc1 : PeerConnection) × (send_frame block hmac alloc (λ _. true) pc own frame timestamp
          ≡ done (ok, pc1, wire))
  send_frame-done alloc pc t own frame after wire c sends =
      sent_frame block hmac alloc (λ _. true) pc own t frame timestamp after wire c.found c.local
        c.ready (rw (c.codec, c.same_type) sends)

and-false : (b : Bool) → (b && false) ≡ false
and-false true = refl
and-false false = refl

start_code_len_header : (h : ℕ) (body : List ℕ) → 0 < h → start_code_len (h ∷ body) ≡ 0
unfolding start_code_len
start_code_len_header h body pos =
    let z : (h == 0) ≡ false = ground arith in
    rw (z, and-false (leb 4 (length (h ∷ body))), and-false (leb 3 (length (h ∷ body))))

packetize_frame-packetize_nalu :
    (alloc : ℕ → Bool) (h : ℕ) (body : List ℕ)
    → 0 < low_bits 5 h
    → alloc 0 ≡ true
    → packetize_frame alloc h264 send_mtu (h ∷ body) ≡ packetize_nalu true (h ∷ body) 1478 true
unfolding packetize_frame is_h264
packetize_frame-packetize_nalu alloc h body lo given =
    rw (start_code_len_header h body (omega arith), given)

-- An H.264 frame that is one NAL unit of a type from 1 to 23 and of any length goes out through a
-- local track that is ready to send, in the packets of `send_frame`. A receiver whose SRTP context
-- has the same key and salt (or that has none, like the sender), whose first remote track with the
-- payload type is an H.264 track, and whose reassembly buffer is idle or holds a part of a frame of
-- another time, handles each of these packets with `TINYRTC_OK`, and calls its observer exactly
-- once, with the NAL unit behind a start code, byte for byte, and the timestamp of the sender. The
-- HMAC has 20 bytes, the network loses and reorders nothing, and the allocations succeed.
pub receive_all-send_frame :
    (block hmac : List ℕ → List ℕ → List ℕ) (kind : TrackKind) (address payload_type timestamp : ℕ)
    (alloc : ℕ → Bool) (sender receiver : PeerConnection) (t : Track) (own : ℕ) (clock : ℕ → ℕ)
    (n h : ℕ) (body : List ℕ)
    → ((key message : List ℕ) → length (hmac key message) ≡ 20)
    → payload_type < 128
    → timestamp < 2 ^ 32
    → CanSend payload_type alloc sender t own
    → Receiving kind address payload_type (Fresh timestamp) receiver
    → Paired sender.srtp receiver.srtp_rx
    → h < 256
    → 0 < low_bits 5 h
    → low_bits 5 h < 24
    → (after : PeerConnection) × (wire : List (List ℕ)) × (send_frame block hmac alloc
          (λ _. true)
          sender
          own
          (h ∷ body)
          timestamp
        ≡ done (ok, after, wire))
      × All (λ s. s ≡ ok) (receive_all block hmac (true, true) receiver clock n wire).0
      × ((receive_all block hmac (true, true) receiver clock n wire).2
          ≡ told kind address timestamp (0 ∷ 0 ∷ 0 ∷ 1 ∷ h ∷ body))
receive_all-send_frame block hmac kind address payload_type timestamp alloc sender receiver t own
      clock n h body mac pt ts c r same byte lo hi =
    let ps = packetize_frame alloc h264 send_mtu (h ∷ body) in
    let e = packetize_frame-packetize_nalu alloc h body lo c.allocates in
    let (bytes, flags) : Gives true (0 ∷ 0 ∷ 0 ∷ 1 ∷ h ∷ body) (outputs 4096 ps) =
      rw e
        (depacketize-packetize_nalu h 1478 4096 true body byte lo hi (omega arith) (omega arith)) in
    let ready : Receiving kind address payload_type (Ready timestamp []) receiver = record {
      track = r.track;
      found = r.found;
      remote = r.remote;
      buffer = inr (r.buffer, refl);
      watched = r.watched;
    } in
    let (last, wire, sends, oks, heard) =
      media_loop block hmac kind address payload_type timestamp mac pt ts ps []
        (0 ∷ 0 ∷ 0 ∷ 1 ∷ h ∷ body)
        (record { sequence = t.next_sequence; next_sequence = t.next_sequence; srtp = sender.srtp })
        receiver clock n (packetize_frame-Fits alloc h264 send_mtu (h ∷ body)) flags bytes
        (omega arith) c.in_range same ready in
    let (after, sent) =
      send_frame-done block hmac kind address payload_type timestamp alloc sender t own (h ∷ body)
        last wire c sends in
    (after, wire, sent, oks, heard)
