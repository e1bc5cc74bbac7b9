-- ===== src/Peer/Reassembly.antt =====
-- The reassembly of H.264 frames of src/peer_connection.c: the room of its buffer, and what it
-- makes of the bytes of consecutive packets.
use tinyrtc.Prelude.{
  ℕ, ◌+◌, ◌<◌, ◌≡◌, ◌⊎◌, inl, inr, refl, sym, ap, ◌∙◌, Bool, true, false, ◌&&◌, Bool-cases, not,
  List, [], ◌∷◌, ◌++◌, arith, ltb, leb, ◌==◌, ==_refl, length, append-nil, if◌then◌else◌, if-true,
  if-false, some, u64,
}
use tinyrtc.Codec.{h264}
use tinyrtc.Packetize.{is_h264}
use tinyrtc.Jitter.{Jitter}
use tinyrtc.Status.{ok}
use tinyrtc.Peer.{Track, TrackKind, PeerConnection}
use tinyrtc.Peer.Receive.{
  grow, append_reassembly, reset_reassembly, start_reassembly, collect, complete, reassemble,
  observed, Delivery, appended, finish,
}

-- What stays the same of a remote H.264 track while it receives.
pub record Remote (kind : TrackKind) (address payload_type : ℕ) (t : Track) : Type 0 where
  pub same_kind : t.kind ≡ kind
  pub same_address : t.address ≡ address
  pub same_payload : t.payload_type ≡ payload_type
  pub same_codec : t.codec_id ≡ h264
  pub buffered : (jb : Jitter) × (t.jitter_buffer ≡ some jb)

-- The buffer holds the bytes `acc` of the frame at `timestamp`.
pub record Holds (timestamp : ℕ) (acc : List ℕ) (t : Track) : Type 0 where
  pub contents : t.reassembly_buffer ≡ acc
  pub active : t.reassembly_active ≡ true
  pub same_frame : t.reassembly_timestamp ≡ timestamp

-- The buffer is idle, or holds a part of a frame of another time.
pub record Fresh (timestamp : ℕ) (t : Track) : Type 0 where
  pub idle_or_other :
      (t.reassembly_active ≡ false) × (t.reassembly_buffer ≡ [])
      ⊎ (t.reassembly_active ≡ true)
        × ((t.reassembly_timestamp == timestamp) ≡ false)
        × (0 < length t.reassembly_buffer)

abbrev pub Ready : ℕ → List ℕ → Track → Type 0
Ready timestamp acc t = Holds timestamp acc t ⊎ Fresh timestamp t × (acc ≡ [])

-- The buffer of a track, with another room.
abbrev with_buffer : Track → List ℕ → ℕ → Track
with_buffer t bytes capacity = record t {
  reassembly_buffer = bytes;
  reassembly_capacity = capacity;
}

append_reassembly-true :
    (t : Track) (bytes : List ℕ)
    → (capacity : ℕ) × (append_reassembly true t bytes
        ≡ (true, with_buffer t (t.reassembly_buffer ++ bytes) capacity))
unfolding append_reassembly
append_reassembly-true t [] = (
  t.reassembly_capacity,
  ap (λ b. (true, with_buffer t b t.reassembly_capacity)) (sym (append-nil t.reassembly_buffer)),
)
append_reassembly-true t (b ∷ bs) =
    let needed = length t.reassembly_buffer + length (b ∷ bs) in
    let none : (length (b ∷ bs) == 0) ≡ false = ground arith in
    elim (Bool-cases (leb needed t.reassembly_capacity)) [
      | inl e ↦ (t.reassembly_capacity, rw (none, e))
      | inr e ↦ (
        grow needed needed (if t.reassembly_capacity == 0 then 4096 else t.reassembly_capacity),
        rw (none, e),
      )
    ]

module _ (timestamp : ℕ) where
  begin : Track → Track
  begin t = record t { reassembly_timestamp = timestamp; reassembly_active = true }

  after : Track → Track
  after t = if not t.reassembly_active then begin t else t

  stale : Track → Bool
  stale t =
      t.reassembly_active
      && (not (t.reassembly_timestamp == timestamp) && ltb 0 (length t.reassembly_buffer))

  start_reassembly_cases :
      (t : Track) → start_reassembly t timestamp ≡ after (if stale t then reset_reassembly t else t)
  unfolding start_reassembly after stale begin
  start_reassembly_cases t = refl

  start_reassembly-Holds :
      (acc : List ℕ) (t : Track) → Holds timestamp acc t → start_reassembly t timestamp ≡ t
  unfolding after stale begin
  start_reassembly-Holds acc t h =
      let current : stale t ≡ false = rw (h.active, h.same_frame, ==_refl timestamp) in
      let on : not t.reassembly_active ≡ false = rw h.active in
      start_reassembly_cases t
      ∙ ap after (if-false (stale t) (reset_reassembly t) t current)
      ∙ if-false (not t.reassembly_active) (begin t) t on

  start_reassembly-Fresh :
      (t : Track)
      → Fresh timestamp t
      → (start_reassembly t timestamp ≡ begin (with_buffer t [] t.reassembly_capacity))
  unfolding after stale begin reset_reassembly
  start_reassembly-Fresh t f = elim f.idle_or_other [
    | inl (idle, none) ↦
        let current : stale t ≡ false = rw idle in
        let on : not t.reassembly_active ≡ true = rw idle in
        start_reassembly_cases t
        ∙ ap after (if-false (stale t) (reset_reassembly t) t current)
        ∙ if-true (not t.reassembly_active) (begin t) t on
        ∙ ap (λ b. begin (with_buffer t b t.reassembly_capacity)) none
    | inr (active, other, some_bytes) ↦
        let there : ltb 0 (length t.reassembly_buffer) ≡ true = ground arith in
        let old : stale t ≡ true = rw (active, other, there) in
        start_reassembly_cases t ∙ ap after (if-true (stale t) (reset_reassembly t) t old)
  ]

module _ (timestamp : ℕ) (kind : TrackKind) (address payload_type : ℕ) where
  -- A track whose buffer holds `acc`, and the rest of which is that of `t`.
  holding :
      (t : Track) (acc : List ℕ) (capacity : ℕ)
      → Remote kind address payload_type t
      → Holds timestamp acc (begin timestamp (with_buffer t acc capacity))
        × Remote kind address payload_type (begin timestamp (with_buffer t acc capacity))
  unfolding begin
  holding t acc capacity r = (
    record { contents = refl; active = refl; same_frame = refl },
    record {
      same_kind = r.same_kind;
      same_address = r.same_address;
      same_payload = r.same_payload;
      same_codec = r.same_codec;
      buffered = r.buffered;
    },
  )

  start_reassembly_lem :
      (acc : List ℕ) (t : Track)
      → Ready timestamp acc t
      → Remote kind address payload_type t
      → Holds timestamp acc (start_reassembly t timestamp)
        × Remote kind address payload_type (start_reassembly t timestamp)
  start_reassembly_lem acc t (inl h) r = rw (start_reassembly-Holds timestamp acc t h) (h, r)
  start_reassembly_lem acc t (inr (f, e)) r =
      rw (start_reassembly-Fresh timestamp t f, e) (holding t [] t.reassembly_capacity r)

  append_reassembly-Holds :
      (acc : List ℕ) (t : Track) (bytes : List ℕ)
      → Holds timestamp acc t
      → Remote kind address payload_type t
      → (after : Track) × (append_reassembly true t bytes ≡ (true, after))
        × Holds timestamp (acc ++ bytes) after
        × Remote kind address payload_type after
  append_reassembly-Holds acc t bytes h r =
      let (capacity, e) = append_reassembly-true t bytes in
      (
        with_buffer t (t.reassembly_buffer ++ bytes) capacity,
        e,
        record {
          contents = ap (λ b. b ++ bytes) h.contents;
          active = h.active;
          same_frame = h.same_frame;
        },
        record {
          same_kind = r.same_kind;
          same_address = r.same_address;
          same_payload = r.same_payload;
          same_codec = r.same_codec;
          buffered = r.buffered;
        },
      )

  -- Bytes of a packet of the frame: the status is `TINYRTC_OK`, and the buffer holds them too.
  collect_lem :
      (acc : List ℕ) (t : Track) (bytes : List ℕ)
      → Ready timestamp acc t
      → Remote kind address payload_type t
      → (after : Track) × (collect true t timestamp bytes ≡ (ok, after))
        × Ready timestamp (acc ++ bytes) after
        × Remote kind address payload_type after
  unfolding collect is_h264 appended
  collect_lem acc t [] h r = (t, refl, rw (append-nil acc) h, r)
  collect_lem acc t (b ∷ bs) h r =
      let (started, remote) = start_reassembly_lem acc t h r in
      let (after, e, holds, same) =
        append_reassembly-Holds acc (start_reassembly t timestamp) (b ∷ bs) started remote in
      let some_bytes : ltb 0 (length (b ∷ bs)) ≡ true = ground arith in
      let h264_bytes : (ltb 0 (length (b ∷ bs)) && is_h264 t.codec_id) ≡ true =
        rw (some_bytes, r.same_codec) in
      (after, if-true _ _ _ h264_bytes ∙ ap appended e, inl holds, same)

  -- The buffer holds the bytes, where there are any.
  contents_lem :
      (acc : List ℕ) (t : Track)
      → Ready timestamp acc t
      → 0 < length acc
      → t.reassembly_buffer ≡ acc
  contents_lem acc t (inl h) some_bytes = h.contents
  contents_lem acc t (inr (f, e)) some_bytes =
      let zero : length acc ≡ 0 = ap length e in absurd (omega arith)

  -- A packet that does not complete the frame.
  pub reassemble_part :
      (pc : PeerConnection) (acc : List ℕ) (t : Track) (bytes : List ℕ)
      → Ready timestamp acc t
      → Remote kind address payload_type t
      → (after : Track) × (reassemble true pc t timestamp (false, bytes) ≡ (ok, after, []))
        × Ready timestamp (acc ++ bytes) after
        × Remote kind address payload_type after
  unfolding reassemble finish
  reassemble_part pc acc t bytes h r =
      let (after, e, ready, same) = collect_lem acc t bytes h r in
      (after, ap (finish pc timestamp (false, bytes)) e, ready, same)

  complete_lem :
      (pc : PeerConnection) (t : Track) (bytes whole : List ℕ)
      → t.reassembly_buffer ≡ whole
      → Remote kind address payload_type t
      → observed pc kind ≡ true
      → (after : Track) × (complete pc t timestamp bytes ≡ (
        after,
        record { kind = kind; address = address; frame = whole; timestamp = timestamp } ∷ [],
      ))
        × (after.reassembly_active ≡ false)
        × (after.reassembly_buffer ≡ [])
        × Remote kind address payload_type after
  unfolding complete is_h264 reset_reassembly
  complete_lem pc t bytes whole e r seen =
      let assembled : is_h264 t.codec_id ≡ true = rw r.same_codec in
      let watched : observed pc t.kind ≡ true = rw r.same_kind seen in
      (
        reset_reassembly (record t { frames_received = u64 (t.frames_received + 1) }),
        rw (assembled, watched, e, r.same_kind, r.same_address),
        refl,
        refl,
        record {
          same_kind = r.same_kind;
          same_address = r.same_address;
          same_payload = r.same_payload;
          same_codec = r.same_codec;
          buffered = r.buffered;
        },
      )

  -- The packet that completes it: one call of the observer with all the bytes.
  pub reassemble_whole :
      (pc : PeerConnection) (acc : List ℕ) (t : Track) (bytes : List ℕ)
      → Ready timestamp acc t
      → Remote kind address payload_type t
      → observed pc kind ≡ true
      → 0 < length (acc ++ bytes)
      → (after : Track) × (reassemble true pc t timestamp (true, bytes) ≡ (
        ok,
        after,
        record { kind = kind; address = address; frame = acc ++ bytes; timestamp = timestamp } ∷ [],
      ))
        × Fresh timestamp after
        × Remote kind address payload_type after
  unfolding reassemble finish
  reassemble_whole pc acc t bytes h r seen some_bytes =
      let (full, e, ready, same) = collect_lem acc t bytes h r in
      let buffer = contents_lem (acc ++ bytes) full ready some_bytes in
      let (after, done, off, empty, kept) =
        complete_lem pc full bytes (acc ++ bytes) buffer same seen in
      (
        after,
        ap (finish pc timestamp (true, bytes)) e
            ∙ ap (λ (x : Track × List Delivery). (ok, x.0, x.1)) done,
        record { idle_or_other = inl (off, empty) },
        kept,
      )
