-- ===== src/Peer/Offered.antt =====
-- The fields and the media of an offer of src/peer_connection.c.
use tinyrtc.Prelude.{
  ℕ, ◌+◌, ◌^◌, ◌≤◌, ◌<◌, ◌≡◌, ◌⊎◌, inl, inr, refl, sym, ap, ◌∙◌, false, List, [], ◌∷◌, ◌++◌, Option,
  none, some, arith, leb, length, map, take, take-all, u64, All, Bool-cases, append-nil,
  append_assoc, ◌≢◌, length-append, All-append,
}
use tinyrtc.TrackTypes.{TrackConfig}
use tinyrtc.Ice.{max_candidates}
use tinyrtc.Sdp.{Media, SdpSession, SdpCandidate, add_media, configured_media, max_media}
use tinyrtc.Sdp.Text.{codes, print_unsigned}
use tinyrtc.Sdp.Numbers.{length-print_unsigned}
use tinyrtc.Sdp.Words.{Word}
use tinyrtc.Sdp.Fields.{Field, number-Field}
use tinyrtc.Sdp.Tracks.{IsMedia}
use tinyrtc.Sdp.TrackTexts.{DistinctPayloads}
use tinyrtc.Sdp.Candidates.{IsCandidate}
use tinyrtc.Sdp.RoundTrip.{IsSession}
use tinyrtc.Peer.Descriptions.{
  Environment, generate_local_ice_credentials, set_fingerprint, add_all_media, offer_fields,
  answer_fields,
}

-- Entries go into the list of media alone.
add_media-rest :
    (s : SdpSession) (c : TrackConfig)
    → (add_media s c).1 ≡ record s { media = (add_media s c).1.media }
unfolding add_media
add_media-rest s c = elim (Bool-cases (leb max_media (length s.media))) [
  | inl t ↦ rw t refl
  | inr t ↦ rw t refl
]

pub add_all_media-rest :
    (s : SdpSession) (cs : List TrackConfig)
    → add_all_media s cs ≡ record s { media = (add_all_media s cs).media }
unfolding add_all_media
add_all_media-rest s [] = refl
add_all_media-rest s (c ∷ cs) =
    let rest = (add_all_media (add_media s c).1 cs).media in
    add_all_media-rest (add_media s c).1 cs
    ∙ ap (λ (z : SdpSession). record z { media = rest }) (add_media-rest s c)

add_media-room :
    (s : SdpSession) (c : TrackConfig)
    → length s.media < max_media
    → (add_media s c).1 ≡ record s { media = s.media ++ (configured_media c ∷ []) }
unfolding add_media
add_media-room s c h =
    let room : leb max_media (length s.media) ≡ false = ground arith in rw room refl

-- Where there is room, each configuration becomes an entry.
pub add_all_media-room :
    (s : SdpSession) (cs : List TrackConfig)
    → length s.media + length cs ≤ max_media
    → (add_all_media s cs).media ≡ s.media ++ map configured_media cs
unfolding add_all_media
add_all_media-room s [] h = sym (append-nil s.media)
add_all_media-room s (c ∷ cs) h =
    let entry : List Media = configured_media c ∷ [] in
    let size : length (s.media ++ entry) ≡ length s.media + 1 = length-append s.media entry in
    ap (λ (z : SdpSession). (add_all_media z cs).media) (add_media-room s c (omega arith))
    ∙ add_all_media-room (record s { media = s.media ++ entry }) cs (omega arith)
    ∙ append_assoc s.media entry (map configured_media cs)

Word-append : (s t : List ℕ) → Word b' ' s → Word b' ' t → Word b' ' (s ++ t)
Word-append s t = All-append (λ c. (33 ≤ c) × (c ≢ b' ')) s t

-- The credentials fit their arrays.
ufrag-Field : (now : ℕ) → Field 64 (take 31 (codes "tiny" ++ print_unsigned now))
ufrag-Field now =
    let digits : Field 32 (print_unsigned now) = number-Field 32 now (omega arith) in
    let long = length-print_unsigned now in
    rw (take-all 31 (codes "tiny" ++ print_unsigned now) (omega arith)) (record {
      is_word = Word-append (codes "tiny") (print_unsigned now) (omega arith) digits.is_word;
      there = omega arith;
      fits = omega arith;
    })

pwd-Field : (n : ℕ) → Field 128 (take 63 (codes "rtc" ++ (print_unsigned n ++ codes "random")))
pwd-Field n =
    let digits : Field 32 (print_unsigned n) = number-Field 32 n (omega arith) in
    let long = length-print_unsigned n in
    let size = length-append (print_unsigned n) (codes "random") in
    rw (take-all 63 (codes "rtc" ++ (print_unsigned n ++ codes "random")) (omega arith)) (record {
      is_word =
          Word-append (codes "rtc") (print_unsigned n ++ codes "random") (omega arith)
            (Word-append (print_unsigned n) (codes "random") digits.is_word (omega arith));
      there = omega arith;
      fits = omega arith;
    })

abbrev pub FingerprintFits : Option (List ℕ) → Type 0
FingerprintFits none = Unit
FingerprintFits (some t) = Field 128 t

-- The fields that a description starts from, without secrets, entries and candidates.
pub record IsBlank (b : SdpSession) : Type 0 where
  pub version_zero : b.version ≡ 0
  pub username_fits : Field 256 b.username
  pub id_fits : b.session_id < 2 ^ 64
  pub session_version_fits : b.session_version < 2 ^ 64
  pub network_fits : Field 16 b.network_type
  pub address_fits : Field 16 b.address_type
  pub unicast_fits : Field 64 b.unicast_address
  pub name_fits : Field 256 b.session_name
  pub start_fits : b.start_time < 2 ^ 64
  pub stop_fits : b.stop_time < 2 ^ 64
  pub no_fingerprint : (b.fingerprint ≡ []) × (b.fingerprint_type ≡ [])
  pub no_media : b.media ≡ []
  pub no_candidates : b.candidates ≡ []

pub offer_fields-IsBlank : (env : Environment) → IsBlank (offer_fields env)
unfolding offer_fields
offer_fields-IsBlank env = record {
  version_zero = refl;
  username_fits = record { is_word = omega arith; there = omega arith; fits = omega arith };
  id_fits = omega arith;
  session_version_fits = omega arith;
  network_fits = record { is_word = omega arith; there = omega arith; fits = omega arith };
  address_fits = record { is_word = omega arith; there = omega arith; fits = omega arith };
  unicast_fits = record { is_word = omega arith; there = omega arith; fits = omega arith };
  name_fits = record { is_word = omega arith; there = omega arith; fits = omega arith };
  start_fits = omega arith;
  stop_fits = omega arith;
  no_fingerprint = (refl, refl);
  no_media = refl;
  no_candidates = refl;
}

pub answer_fields-IsBlank :
    (remote : SdpSession) → IsSession remote → IsBlank (answer_fields remote)
unfolding answer_fields
answer_fields-IsBlank remote h = record {
  version_zero = refl;
  username_fits = h.username_fits;
  id_fits = h.id_fits;
  session_version_fits = omega arith;
  network_fits = h.network_fits;
  address_fits = h.address_fits;
  unicast_fits = record { is_word = omega arith; there = omega arith; fits = omega arith };
  name_fits = record { is_word = omega arith; there = omega arith; fits = omega arith };
  start_fits = omega arith;
  stop_fits = omega arith;
  no_fingerprint = (refl, refl);
  no_media = refl;
  no_candidates = refl;
}

abbrev pub fields : Environment → List ℕ → SdpSession → Option (List ℕ) → SdpSession
fields env setup b f =
    set_fingerprint
      (record (generate_local_ice_credentials env.credential_time b) { dtls_setup = setup }) f

module _ (env : Environment) (setup : List ℕ) (b : SdpSession) (blank : IsBlank b) where
  pub fields-bare :
      (f : Option (List ℕ))
      → ((fields env setup b f).media ≡ []) × ((fields env setup b f).candidates ≡ [])
  unfolding set_fingerprint generate_local_ice_credentials
  fields-bare none = (blank.no_media, blank.no_candidates)
  fields-bare (some t) = (blank.no_media, blank.no_candidates)

module _ (env : Environment) (setup : List ℕ) (b : SdpSession) (blank : IsBlank b)
    (is_setup : Field 16 setup) (ms : List Media) (cs : List SdpCandidate) where
  plain-IsSession :
      (type text : List ℕ)
      → ((text ≡ []) × (type ≡ [])) ⊎ (Field 16 type × Field 128 text)
      → length ms ≤ 2
      → All IsMedia ms
      → DistinctPayloads [] ms
      → length cs ≤ max_candidates
      → All IsCandidate cs
      → IsSession (record (fields env setup b none) {
        fingerprint = text;
        fingerprint_type = type;
        media = ms;
        candidates = cs;
      })
  unfolding set_fingerprint generate_local_ice_credentials
  plain-IsSession type text p few v d n w = record {
    version_zero = blank.version_zero;
    username_fits = blank.username_fits;
    id_fits = blank.id_fits;
    session_version_fits = blank.session_version_fits;
    network_fits = blank.network_fits;
    address_fits = blank.address_fits;
    unicast_fits = blank.unicast_fits;
    name_fits = blank.name_fits;
    start_fits = blank.start_fits;
    stop_fits = blank.stop_fits;
    ufrag_fits = inr (ufrag-Field env.credential_time);
    pwd_fits = inr (pwd-Field (u64 (env.credential_time + 12345)));
    fingerprint_fits = p;
    setup_fits = inr is_setup;
    tracks_fit = few;
    tracks = v;
    payloads = d;
    candidates_fit = n;
    candidates_valid = w;
  }

  pub fields-IsSession :
      (f : Option (List ℕ))
      → FingerprintFits f
      → length ms ≤ 2
      → All IsMedia ms
      → DistinctPayloads [] ms
      → length cs ≤ max_candidates
      → All IsCandidate cs
      → IsSession (record (fields env setup b f) { media = ms; candidates = cs })
  unfolding set_fingerprint generate_local_ice_credentials
  fields-IsSession none p few v d n w =
      let bare : IsSession (record (fields env setup b none) {
        fingerprint = b.fingerprint;
        fingerprint_type = b.fingerprint_type;
        media = ms;
        candidates = cs;
      }) =
        plain-IsSession b.fingerprint_type b.fingerprint (inl blank.no_fingerprint) few v d n w in
      bare
  fields-IsSession (some t) p few v d n w =
      let short : length t ≤ 127 = omega (arith, p.fits) in
      let type : Field 16 (codes "sha-256") = record {
        is_word = omega arith;
        there = omega arith;
        fits = omega arith;
      } in
      rw (take-all 127 t short) (plain-IsSession (codes "sha-256") t (inr (type, p)) few v d n w)
