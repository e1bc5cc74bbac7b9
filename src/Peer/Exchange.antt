-- ===== src/Peer/Exchange.antt =====
-- A description on its way to the peer: what `tinyrtc_peer_connection_create_offer` and
-- `tinyrtc_peer_connection_create_answer` of src/peer_connection.c have in common, and
-- `tinyrtc_peer_connection_set_remote_description`.
use tinyrtc.Prelude.{
  ℕ, ◌≤◌, ◌≡◌, refl, ap, ◌∙◌, false, List, [], ◌∷◌, ◌++◌, Option, some, arith, length, map, All,
  if-false, done,
}
use tinyrtc.Status.{Status, ok, invalid_state}
use tinyrtc.TrackTypes.{TrackConfig}
use tinyrtc.Sdp.{Media, SdpSession, SdpCandidate, configured_media, max_media}
use tinyrtc.Sdp.Fields.{Field}
use tinyrtc.Sdp.Tracks.{IsMedia}
use tinyrtc.Sdp.TrackTexts.{DistinctPayloads}
use tinyrtc.Sdp.Parser.{sdp_parse}
use tinyrtc.Sdp.Generator.{sdp_generate}
use tinyrtc.Sdp.RoundTrip.{IsSession, sdp_parse-sdp_generate}
use tinyrtc.Peer.{PeerConnection, connecting}
use tinyrtc.Peer.Candidates.{candidate_to_sdp}
use tinyrtc.Peer.Descriptions.{
  Environment, fingerprint_of, ensure_dtls, add_all_media, with_secrets, new_ice, opened, publish,
  is_closed, add_remote_tracks, with_remote, use_remote, set_remote_description,
}
use tinyrtc.Peer.Gathered.{PortFits, new_ice-HasLocals, sent_candidates}
use tinyrtc.Peer.Offered.{
  add_all_media-rest, add_all_media-room, FingerprintFits, IsBlank, fields, fields-bare,
  fields-IsSession,
}

-- What a description needs: addresses and a fingerprint that fit, and entries that can be read.
pub record CanPublish (env : Environment) (pc : PeerConnection) (configs : List TrackConfig)
    : Type 0 where
  pub is_open : is_closed pc.state ≡ false
  pub addresses : All (Field 64) env.interfaces
  pub port_fits : PortFits env.port
  pub fingerprint_fits :
      FingerprintFits (fingerprint_of env (ensure_dtls env pc.is_initiator pc.dtls))
  pub few_entries : length configs ≤ max_media
  pub entries : All IsMedia (map configured_media configs)
  pub payloads : DistinctPayloads [] (map configured_media configs)

abbrev candidates_of : Environment → PeerConnection → List SdpCandidate
candidates_of env pc = map candidate_to_sdp (new_ice env pc.remote_sdp).local

length-map : {A B : Type 0} (f : A → B) (xs : List A) → length (map f xs) ≡ length xs
length-map f [] = refl
length-map f (x ∷ xs) = omega (arith, length-map f xs)

abbrev pub published : Environment → PeerConnection → SdpSession → PeerConnection
published env pc d = record pc {
  state = connecting;
  dtls = ensure_dtls env pc.is_initiator pc.dtls;
  ice = some (new_ice env pc.remote_sdp);
  socket_open = opened env.port;
  local_sdp = d;
}

-- The description that an offer or an answer puts together.
pub described : Environment → PeerConnection → List ℕ → SdpSession → List TrackConfig → SdpSession
described env pc setup b configs =
    record (fields env setup b (fingerprint_of env (ensure_dtls env pc.is_initiator pc.dtls))) {
      media = map configured_media configs;
      candidates = candidates_of env pc;
    }

module _ (env : Environment) (pc : PeerConnection) (setup : List ℕ) (b : SdpSession)
    (blank : IsBlank b) (configs : List TrackConfig) (p : CanPublish env pc configs) where
  pub described-media : (described env pc setup b configs).media ≡ map configured_media configs
  unfolding described
  described-media = refl

  pub described-IsSession : Field 16 setup → IsSession (described env pc setup b configs)
  unfolding described
  described-IsSession is_setup =
      let local = new_ice-HasLocals env pc.remote_sdp p.addresses p.port_fits in
      let size = length-map configured_media configs in
      let count = length-map candidate_to_sdp (new_ice env pc.remote_sdp).local in
      fields-IsSession env setup b blank is_setup _ _ _ p.fingerprint_fits
        (omega (arith, p.few_entries)) p.entries p.payloads (omega (arith, local.few))
        (sent_candidates _ local.all_gathered)

  with_media :
      add_all_media (with_secrets env pc setup b) configs
      ≡ record (fields env setup b (fingerprint_of env (ensure_dtls env pc.is_initiator pc.dtls))) {
        media = map configured_media configs;
      }
  unfolding with_secrets
  with_media =
      let f = fingerprint_of env (ensure_dtls env pc.is_initiator pc.dtls) in
      let none_yet : (fields env setup b f).media ≡ [] = (fields-bare env setup b blank f).0 in
      let size : length (fields env setup b f).media ≡ 0 = ap length none_yet in
      add_all_media-rest (fields env setup b f) configs
      ∙ ap (λ (ms : List Media). record (fields env setup b f) { media = ms })
          (add_all_media-room (fields env setup b f) configs (omega (arith, p.few_entries))
            ∙ ap (λ ms. ms ++ map configured_media configs) none_yet)

  local_sdp :
      record (add_all_media (with_secrets env pc setup b) configs) {
        candidates =
            (add_all_media (with_secrets env pc setup b) configs).candidates
            ++ candidates_of env pc;
      }
      ≡ described env pc setup b configs
  unfolding described
  local_sdp =
      let f = fingerprint_of env (ensure_dtls env pc.is_initiator pc.dtls) in
      let more = candidates_of env pc in
      ap (λ (s : SdpSession). record s { candidates = s.candidates ++ more }) with_media
      ∙ ap
          (λ (cs : List SdpCandidate). record (fields env setup b f) {
            media = map configured_media configs;
            candidates = cs ++ more;
          })
          (fields-bare env setup b blank f).1

  abbrev result : SdpSession → Status × PeerConnection × Option (List ℕ)
  result d = (ok, published env pc d, some (sdp_generate d))

  pub publish-described :
      publish env pc (add_all_media (with_secrets env pc setup b) configs)
      ≡ result (described env pc setup b configs)
  unfolding publish
  publish-described = ap result local_sdp

-- What a connection becomes by the description of the other.
abbrev pub with_description : (ℕ → Option ℕ) → PeerConnection → SdpSession → PeerConnection
with_description alloc pc d = record pc {
  remote_sdp = d;
  remote_tracks = add_remote_tracks alloc 0 d.media pc.remote_tracks;
  ice = with_remote pc.ice d.candidates;
}

pub set_remote_description-sdp_generate :
    (junk : ℕ) (alloc : ℕ → Option ℕ) (pc : PeerConnection) (d : SdpSession)
    → is_closed pc.state ≡ false
    → IsSession d
    → set_remote_description junk alloc pc (sdp_generate d) ≡ done (ok, with_description alloc pc d)
unfolding set_remote_description use_remote
set_remote_description-sdp_generate junk alloc pc d h v =
    if-false _ (done (invalid_state, pc)) (use_remote alloc pc (sdp_parse junk (sdp_generate d))) h
    ∙ ap (use_remote alloc pc) (sdp_parse-sdp_generate junk d v)
