-- ===== src/Peer/Negotiation.antt =====
-- The exchange of an offer and an answer between two connections of src/peer_connection.c.
use mathlib.Core.Path.{subst}
use tinyrtc.Prelude.{
  ℕ, ◌≡◌, refl, sym, ap, ◌∙◌, List, Option, none, some, arith, map, if-false, done,
}
use tinyrtc.Status.{ok, invalid_state}
use tinyrtc.TrackTypes.{TrackConfig}
use tinyrtc.Sdp.{SdpSession, configured_media}
use tinyrtc.Sdp.Text.{codes}
use tinyrtc.Sdp.Fields.{Field}
use tinyrtc.Sdp.Generator.{sdp_generate}
use tinyrtc.Sdp.RoundTrip.{IsSession}
use tinyrtc.Peer.{PeerConnection}
use tinyrtc.Peer.Descriptions.{
  Environment, offer_fields, answer_fields, offered_config, publish, is_closed, offer_session,
  create_offer, matched, answer_session, create_answer, set_remote_description,
}
use tinyrtc.Peer.Offered.{offer_fields-IsBlank, answer_fields-IsBlank}
use tinyrtc.Peer.Exchange.{
  CanPublish, published, described, described-media, described-IsSession, publish-described,
  with_description, set_remote_description-sdp_generate,
}

-- The configurations that the local tracks of an offer become.
abbrev pub offered : PeerConnection → List TrackConfig
offered pc = map offered_config pc.local_tracks

-- The configurations of an answer to such an offer.
abbrev pub answered : PeerConnection → PeerConnection → List TrackConfig
answered pc q = matched q.local_tracks (map configured_media (offered pc))

abbrev CanOffer : Environment → PeerConnection → Type 0
CanOffer env pc = CanPublish env pc (offered pc)

abbrev offer : Environment → PeerConnection → SdpSession
offer env pc = described env pc (codes "actpass") (offer_fields env) (offered pc)

actpass-Field : Field 16 (codes "actpass")
actpass-Field = record { is_word = omega arith; there = omega arith; fits = omega arith }

active-Field : Field 16 (codes "active")
active-Field = record { is_word = omega arith; there = omega arith; fits = omega arith }

create_offer-published :
    (env : Environment) (pc : PeerConnection)
    → CanOffer env pc
    → create_offer env pc
      ≡ (ok, published env pc (offer env pc), some (sdp_generate (offer env pc)))
unfolding create_offer offer_session
create_offer-published env pc p =
    if-false _ (invalid_state, pc, none) (publish env pc (offer_session env pc)) p.is_open
    ∙ publish-described env pc (codes "actpass") (offer_fields env) (offer_fields-IsBlank env)
        (offered pc) p

offer-IsSession :
    (env : Environment) (pc : PeerConnection) → CanOffer env pc → IsSession (offer env pc)
offer-IsSession env pc p =
    described-IsSession env pc (codes "actpass") (offer_fields env) (offer_fields-IsBlank env)
      (offered pc) p actpass-Field

abbrev answer : Environment → PeerConnection → SdpSession → List TrackConfig → SdpSession
answer env pc remote configs = described env pc (codes "active") (answer_fields remote) configs

-- A connection that holds a valid remote description answers it.
create_answer-published :
    (env : Environment) (pc : PeerConnection)
    → IsSession pc.remote_sdp
    → (p : CanPublish env pc (matched pc.local_tracks pc.remote_sdp.media))
    → (d : SdpSession) × (create_answer env pc ≡ (ok, published env pc d, some (sdp_generate d)))
      × (d.media ≡ map configured_media (matched pc.local_tracks pc.remote_sdp.media))
      × IsSession d
unfolding create_answer answer_session
create_answer-published env pc v p =
    let blank = answer_fields-IsBlank pc.remote_sdp v in
    let configs = matched pc.local_tracks pc.remote_sdp.media in
    let active = codes "active" in
    (
      described env pc active (answer_fields pc.remote_sdp) configs,
      if-false _ (invalid_state, pc, none) (publish env pc (answer_session env pc)) p.is_open
          ∙ publish-described env pc active (answer_fields pc.remote_sdp) blank configs p,
      described-media env pc active (answer_fields pc.remote_sdp) blank configs p,
      described-IsSession env pc active (answer_fields pc.remote_sdp) blank configs p active-Field,
    )

-- What a connection needs for an answer does not depend on the remote description it has.
called-CanPublish :
    (alloc : ℕ → Option ℕ) (env : Environment) (q : PeerConnection) (d : SdpSession)
    (configs : List TrackConfig)
    → CanPublish env q configs
    → CanPublish env (with_description alloc q d) configs
called-CanPublish alloc env q d configs r = record {
  is_open = r.is_open;
  addresses = r.addresses;
  port_fits = r.port_fits;
  fingerprint_fits = r.fingerprint_fits;
  few_entries = r.few_entries;
  entries = r.entries;
  payloads = r.payloads;
}

-- Two open connections, of which the one offers and the other has taken the offer and answers it,
-- where the addresses, the fingerprints and the entries of both fit: each call reports success, and
-- in the end each has exactly the local description of the other as its remote description. The
-- offer has an entry for each track of the caller, the answer one for each entry of the offer with a
-- kind of which the callee has a track, in the same order.
pub set_remote_description-create_answer :
    (junk : ℕ) (alloc alloc' : ℕ → Option ℕ) (env env' : Environment) (pc q : PeerConnection)
    → CanPublish env pc (offered pc)
    → CanPublish env' q (answered pc q)
    → (caller called callee calling : PeerConnection) × (text reply : List ℕ) × (create_offer env pc
        ≡ (ok, caller, some text))
      × (set_remote_description junk alloc q text ≡ done (ok, called))
      × (create_answer env' called ≡ (ok, callee, some reply))
      × (set_remote_description junk alloc' caller reply ≡ done (ok, calling))
      × (callee.remote_sdp ≡ calling.local_sdp)
      × (calling.remote_sdp ≡ callee.local_sdp)
      × (calling.local_sdp.media ≡ map configured_media (offered pc))
      × (callee.local_sdp.media ≡ map configured_media (answered pc q))
set_remote_description-create_answer junk alloc alloc' env env' pc q p r =
    let d : SdpSession = offer env pc in
    let valid : IsSession d = offer-IsSession env pc p in
    let entries : d.media ≡ map configured_media (offered pc) =
      described-media env pc (codes "actpass") (offer_fields env) (offer_fields-IsBlank env)
        (offered pc) p in
    let caller : PeerConnection = published env pc d in
    let called : PeerConnection = with_description alloc q d in
    let fits = subst (λ ms. CanPublish env' q (matched q.local_tracks ms)) (sym entries) r in
    let can = called-CanPublish alloc env' q d _ fits in
    let (e, made, media, valid') = create_answer-published env' called valid can in
    (
      caller,
      called,
      published env' called e,
      with_description alloc' caller e,
      sdp_generate d,
      sdp_generate e,
      create_offer-published env pc p,
      set_remote_description-sdp_generate junk alloc q d r.is_open valid,
      made,
      set_remote_description-sdp_generate junk alloc' caller e (unfold is_closed in refl) valid',
      refl,
      refl,
      entries,
      media ∙ ap (λ ms. map configured_media (matched q.local_tracks ms)) entries,
    )
