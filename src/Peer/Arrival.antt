-- ===== src/Peer/Arrival.antt =====
-- One packet at the receiver: from `pc_process_incoming_rtp` of src/peer_connection.c to the track
-- it belongs to.
use tinyrtc.Prelude.{
  ℕ, ◌+◌, ◌<◌, ◌≡◌, refl, ap, ◌∙◌, Bool, true, List, [], ◌∷◌, arith, length, Option, some, done,
  ==_refl, ◌==◌, Bool-cases, inl, inr, u8, u64,
}
use tinyrtc.Codec.{h264}
use tinyrtc.Status.{ok}
use tinyrtc.Rtp.{Header, parse_header}
use tinyrtc.Depacketize.{Frame, depacketize_frame}
use tinyrtc.Jitter.{Jitter, add_packet, store, make_room}
use tinyrtc.Srtp.{Context}
use tinyrtc.Peer.{PeerConnection, Track, TrackKind, audio, video}
use tinyrtc.Peer.Send.{sent_header}
use tinyrtc.Peer.Receive.{
  Delivery, observed, find_payload, write_payload, buffer_packet, reassemble, unpack, track_receive,
  process_rtp, route, process_incoming_rtp,
}
use tinyrtc.Peer.Reassembly.{Remote, Ready}
use tinyrtc.Peer.Wire.{Opens}

-- The track that was found is the one that is written.
find_payload-write_payload :
    (payload_type : ℕ) (t u : Track) (ts : List Track)
    → find_payload payload_type ts ≡ some t
    → u.payload_type ≡ payload_type
    → find_payload payload_type (write_payload payload_type u ts) ≡ some u
unfolding find_payload write_payload
find_payload-write_payload pt t u [] found same = absurd (cc)
find_payload-write_payload pt t u (v ∷ ts) found same = elim (Bool-cases (v.payload_type == pt)) [
  | inl hit ↦ let e : (u.payload_type == pt) ≡ true = rw same (==_refl pt) in rw (hit, e)
  | inr miss ↦
      let rest : find_payload pt ts ≡ some t = rw miss at found in
      rw (miss, miss) (find_payload-write_payload pt t u ts rest same)
]

-- A connection that collects a frame on its first track with the payload type.
pub record Receiving (kind : TrackKind) (address payload_type : ℕ) (P : Track → Type 0)
    (pc : PeerConnection) : Type 0 where
  pub track : Track
  pub found : find_payload payload_type pc.remote_tracks ≡ some track
  pub remote : Remote kind address payload_type track
  pub buffer : P track
  pub watched : observed pc kind ≡ true

pub observed_same :
    (k : TrackKind) (pc : PeerConnection) (context : Option Context) (tracks : List Track)
    → observed pc k ≡ true
    → observed (record pc { srtp_rx = context; remote_tracks = tracks }) k ≡ true
observed_same audio pc context tracks h = h
observed_same video pc context tracks h = h

module _ (block hmac : List ℕ → List ℕ → List ℕ) (kind : TrackKind)
    (address payload_type timestamp : ℕ) where
  add_packet_ok :
      (jb : Jitter) (packet : List ℕ) (h : Header) (now : ℕ)
      → parse_header packet ≡ done h
      → (after : Jitter) × (add_packet true jb packet now ≡ (ok, after))
  unfolding add_packet
  add_packet_ok jb packet h now parsed = (
    store (make_room jb) (record {
      packet = packet;
      packet_len = length packet;
      sequence = h.sequence;
      arrival_time = now;
    }),
    rw (add_packet, parsed),
  )

  buffer_packet_lem :
      (acc : List ℕ) (t : Track) (packet : List ℕ) (h : Header) (now : ℕ)
      → parse_header packet ≡ done h
      → Ready timestamp acc t
      → Remote kind address payload_type t
      → (after : Track) × (buffer_packet true t packet now ≡ (ok, after))
        × Ready timestamp acc after
        × Remote kind address payload_type after
  unfolding buffer_packet
  buffer_packet_lem acc t packet h now parsed ready r =
      let (jb, there) = r.buffered in
      let (later, added) = add_packet_ok jb packet h now parsed in
      (
        record t { packets_received = u64 (t.packets_received + 1); jitter_buffer = some later },
        rw (buffer_packet, there, added),
        elim ready [
          | inl h ↦
              inl (record { contents = h.contents; active = h.active; same_frame = h.same_frame })
          | inr (f, e) ↦ inr (record { idle_or_other = f.idle_or_other }, e)
        ],
        record {
          same_kind = r.same_kind;
          same_address = r.same_address;
          same_payload = r.same_payload;
          same_codec = r.same_codec;
          buffered = (later, refl);
        },
      )

  track_receive_lem :
      (pc : PeerConnection) (acc : List ℕ) (t : Track) (packet : List ℕ) (h : Header) (f : Frame)
      (now : ℕ) (ds : List Delivery) (P : Track → Type 0)
      → parse_header packet ≡ done h
      → depacketize_frame h264 4096 packet ≡ f
      → Ready timestamp acc t
      → Remote kind address payload_type t
      → ((u : Track)
          → Ready timestamp acc u
          → Remote kind address payload_type u
          → (after : Track) × (reassemble true pc u timestamp f ≡ (ok, after, ds))
            × P after
            × Remote kind address payload_type after)
      → (after : Track) × (track_receive (true, true) pc t packet timestamp now ≡ (ok, after, ds))
        × P after
        × Remote kind address payload_type after
  unfolding track_receive unpack
  track_receive_lem pc acc t packet h f now ds P parsed framed ready r step =
      let (t1, buffered, ready1, r1) = buffer_packet_lem acc t packet h now parsed ready r in
      let (after, assembled, holds, same) = step t1 ready1 r1 in
      (
        after,
        ap (unpack true pc timestamp packet) buffered
            ∙ ap (λ c. reassemble true pc t1 timestamp (depacketize_frame c 4096 packet))
                r1.same_codec
            ∙ ap (reassemble true pc t1 timestamp) framed
            ∙ assembled,
        holds,
        same,
      )

  process_rtp_ok :
      (pc : PeerConnection) (packet : List ℕ) (h : Header) (t after : Track) (now : ℕ)
      (ds : List Delivery)
      → parse_header packet ≡ done h
      → find_payload h.payload_type pc.remote_tracks ≡ some t
      → track_receive (true, true) pc t packet h.timestamp now ≡ (ok, after, ds)
      → process_rtp (true, true) pc packet now ≡ (
        ok,
        record pc { remote_tracks = write_payload h.payload_type after pc.remote_tracks },
        ds,
      )
  unfolding process_rtp write_payload
  process_rtp_ok pc packet h t after now ds parsed found received =
      rw (process_rtp, parsed, found, received)

  -- One packet of the frame arrives, when `acc` was collected; `step` is what its track does.
  pub receive_step :
      (pc : PeerConnection) (context : Option Context) (bytes packet acc : List ℕ) (sequence : ℕ)
      (marker : Bool) (f : Frame) (now : ℕ) (ds : List Delivery) (P : Track → Type 0)
      → payload_type < 128
      → Opens block hmac pc.srtp_rx context bytes packet
      → parse_header packet ≡ done (sent_header payload_type timestamp sequence marker)
      → depacketize_frame h264 4096 packet ≡ f
      → Receiving kind address payload_type (Ready timestamp acc) pc
      → ((u : Track)
          → Ready timestamp acc u
          → Remote kind address payload_type u
          → (after : Track) × (reassemble true (record pc { srtp_rx = context }) u timestamp f
              ≡ (ok, after, ds))
            × P after
            × Remote kind address payload_type after)
      → (pc1 : PeerConnection) × (process_incoming_rtp block hmac (true, true) pc bytes now
          ≡ (ok, pc1, ds))
        × Receiving kind address payload_type P pc1
        × (pc1.srtp_rx ≡ context)
  unfolding process_incoming_rtp route
  receive_step pc context bytes packet acc sequence marker f now ds P pt opens parsed framed at
        step =
      let pc0 = record pc { srtp_rx = context } in
      let h = sent_header payload_type timestamp sequence marker in
      let (after, received, holds, same) =
        track_receive_lem pc0 acc at.track packet h f now ds P parsed framed at.buffer at.remote
          step in
      let same_type : u8 payload_type ≡ payload_type = omega arith in
      let pc1 = record pc0 { remote_tracks = write_payload payload_type after pc.remote_tracks } in
      (
        pc1,
        ap (route (true, true) pc now) opens
            ∙ process_rtp_ok pc0 packet h at.track after now ds parsed (rw same_type at.found)
                received
            ∙ ap
                (λ n.
                  (ok, record pc0 { remote_tracks = write_payload n after pc.remote_tracks }, ds))
                same_type,
        record {
          track = after;
          found =
              find_payload-write_payload payload_type at.track after pc.remote_tracks at.found
                same.same_payload;
          remote = same;
          buffer = holds;
          watched =
              observed_same kind pc context (write_payload payload_type after pc.remote_tracks)
                at.watched;
        },
        refl,
      )
