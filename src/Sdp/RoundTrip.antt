-- ===== src/Sdp/RoundTrip.antt =====
-- A session description on its way through its text: `sdp_generate` of src/signal/sdp_generator.c
-- and `sdp_parse` of src/signal/sdp_parser.c.
use mathlib.Core.Path.{subst}
use tinyrtc.Prelude.{
  ℕ, zero, suc, ◌+◌, ◌-◌, ◌^◌, ◌≤◌, ◌<◌, ◌≡◌, ◌⊎◌, inl, inr, refl, sym, ap, ◌∙◌, List, [], ◌∷◌,
  ◌++◌, arith, append-nil, append_assoc, ◌==◌, length, All, All-append, if-true, if-false,
  Bool-cases, if◌then◌else◌, Outcome, done, ◌>>=◌,
}
use tinyrtc.Status.{ok, error}
use tinyrtc.Ice.{max_candidates}
use tinyrtc.Sdp.{Media, SdpSession, session_init}
use tinyrtc.Sdp.Text.{codes, same_text}
use tinyrtc.Sdp.Parser.{attribute, parse_lines, sdp_parse}
use tinyrtc.Sdp.Generator.{
  crlf, optional_line, fingerprint_line, have_all_mids, mids, group_line, sdp_generate,
}
use tinyrtc.Sdp.Lines.{Consumes, Consumes-nil, Consumes-append, line-Consumes}
use tinyrtc.Sdp.Fields.{Field, line_end, find_eol-plain, plain-Word}
use tinyrtc.Sdp.Header.{
  name-Parses, version-Consumes, origin-Consumes, name-Consumes, timing-Consumes, ufrag-Consumes,
  pwd-Consumes, setup-Consumes, fingerprint-Consumes,
}
use tinyrtc.Sdp.Tracks.{IsMedia}
use tinyrtc.Sdp.TrackTexts.{DistinctPayloads, options-Consumes, media_texts-Consumes}
use tinyrtc.Sdp.Candidates.{IsCandidate, candidate_lines-Consumes}

-- A field that may be missing.
abbrev pub Optional : ℕ → List ℕ → Type 0
Optional size t = (t ≡ []) ⊎ Field size t

-- A session whose fields the lines of a description carry.
pub record IsSession (s : SdpSession) : Type 0 where
  pub version_zero : s.version ≡ 0
  pub username_fits : Field 256 s.username
  pub id_fits : s.session_id < 2 ^ 64
  pub session_version_fits : s.session_version < 2 ^ 64
  pub network_fits : Field 16 s.network_type
  pub address_fits : Field 16 s.address_type
  pub unicast_fits : Field 64 s.unicast_address
  pub name_fits : Field 256 s.session_name
  pub start_fits : s.start_time < 2 ^ 64
  pub stop_fits : s.stop_time < 2 ^ 64
  pub ufrag_fits : Optional 64 s.ice_ufrag
  pub pwd_fits : Optional 128 s.ice_pwd
  pub fingerprint_fits :
      ((s.fingerprint ≡ []) × (s.fingerprint_type ≡ []))
      ⊎ (Field 16 s.fingerprint_type × Field 128 s.fingerprint)
  pub setup_fits : Optional 16 s.dtls_setup
  pub tracks_fit : length s.media ≤ 2
  pub tracks : All IsMedia s.media
  pub payloads : DistinctPayloads [] s.media
  pub candidates_fit : length s.candidates ≤ max_candidates
  pub candidates_valid : All IsCandidate s.candidates

abbrev Plain : List ℕ → Type 0
Plain t = All (λ c. 32 ≤ c) t

Optional-Plain : (t : List ℕ) → Optional 16 t → Plain t
Optional-Plain [] h = tt
Optional-Plain (c ∷ cs) (inl e) = absurd (cc)
Optional-Plain (c ∷ cs) (inr f) = plain-Word b' ' (c ∷ cs) f.is_word

mids-Plain : (ms : List Media) → All IsMedia ms → Plain (mids ms)
unfolding mids
mids-Plain [] v = tt
mids-Plain (m ∷ ms) (v, vs) = (
  omega arith,
  All-append (λ c. 32 ≤ c) m.mid (mids ms) (Optional-Plain m.mid v.mid_fits) (mids-Plain ms vs),
)

module _ (junk : ℕ) where
  bundle-Consumes :
      (s : SdpSession) (ms : List Media)
      → All IsMedia ms
      → Consumes junk s (codes "a=group:BUNDLE" ++ (mids ms ++ crlf)) s
  unfolding attribute same_text
  bundle-Consumes s ms v = line-Consumes junk b'a' s s _ refl (
      name-Parses junk (codes "group") s s (codes "BUNDLE" ++ (mids ms ++ crlf))
        (λ rest. codes ":BUNDLE" ++ (mids ms ++ line_end rest)) (omega arith) (omega arith)
        (omega arith)
        (λ rest. ap (λ (x : List ℕ). (s, codes ":BUNDLE" ++ x)) (append_assoc (mids ms) crlf rest))
        (λ rest.
          find_eol-plain (codes ":BUNDLE" ++ mids ms) rest
            (All-append (λ c. 32 ≤ c) (codes ":BUNDLE") (mids ms) (omega arith) (mids-Plain ms v))))

  group-Consumes :
      (s : SdpSession) (ms : List Media) → All IsMedia ms → Consumes junk s (group_line ms) s
  unfolding group_line
  group-Consumes s [] v = Consumes-nil junk s
  group-Consumes s (m ∷ ms) v = elim (Bool-cases (have_all_mids (m ∷ ms))) [
    | inl t ↦
        subst (λ x. Consumes junk s x s) (sym (if-true _ _ _ t)) (bundle-Consumes s (m ∷ ms) v)
    | inr t ↦ subst (λ x. Consumes junk s x s) (sym (if-false _ _ _ t)) (Consumes-nil junk s)
  ]

  -- A line of a field that may be missing, by what it does where it is there.
  Optional-Consumes :
      (size : ℕ) (head : List ℕ) (s : SdpSession) (write : List ℕ → SdpSession) (t : List ℕ)
      → write [] ≡ s
      → ((u : List ℕ) → Field size u → Consumes junk s (head ++ (u ++ crlf)) (write u))
      → Optional size t
      → Consumes junk s (optional_line head t) (write t)
  unfolding optional_line
  Optional-Consumes size head s write [] e there h =
      subst (Consumes junk s []) (sym e) (Consumes-nil junk s)
  Optional-Consumes size head s write (c ∷ cs) e there (inl q) = absurd (cc)
  Optional-Consumes size head s write (c ∷ cs) e there (inr f) = there (c ∷ cs) f

  fingerprint_line-Consumes :
      (s : SdpSession) (type t : List ℕ)
      → record s { fingerprint = []; fingerprint_type = [] } ≡ s
      → ((t ≡ []) × (type ≡ [])) ⊎ (Field 16 type × Field 128 t)
      → Consumes junk s
          (fingerprint_line type t)
          (record s { fingerprint_type = type; fingerprint = t })
  unfolding fingerprint_line
  fingerprint_line-Consumes s [] [] e h = subst (Consumes junk s []) (sym e) (Consumes-nil junk s)
  fingerprint_line-Consumes s (d ∷ ds) [] e (inl (q, r)) = absurd (cc)
  fingerprint_line-Consumes s (d ∷ ds) [] e (inr (f, g)) = absurd (omega (arith, g.there))
  fingerprint_line-Consumes s type (c ∷ cs) e (inl (q, r)) = absurd (cc)
  fingerprint_line-Consumes s type (c ∷ cs) e (inr (f, g)) =
      fingerprint-Consumes junk s type (c ∷ cs) f g

  parse_lines-nil : (fuel : ℕ) (s : SdpSession) → parse_lines junk fuel s [] ≡ done s
  unfolding parse_lines
  parse_lines-nil zero s = refl
  parse_lines-nil (suc fuel) s = refl

  -- A text of whole lines, all of which the loop takes.
  sdp_parse-Consumes :
      (text : List ℕ) (s : SdpSession)
      → Consumes junk session_init text s
      → s.version ≡ 0
      → sdp_parse junk text ≡ done (ok, s)
  unfolding sdp_parse
  sdp_parse-Consumes text s c e =
      let rounds : length text ≡ c.rounds + (length text - c.rounds) = omega (arith, c.few) in
      let run : parse_lines junk (length text) session_init text ≡ done s =
        ap (λ n. parse_lines junk n session_init text) rounds
        ∙ ap (parse_lines junk (c.rounds + (length text - c.rounds)) session_init)
            (sym (append-nil text))
        ∙ c.runs (length text - c.rounds) []
        ∙ parse_lines-nil (length text - c.rounds) s in
      ap (λ (r : Outcome SdpSession). r >>= (λ t. done (if t.version == 0 then ok else error, t)))
        run
      ∙ ap (λ n. done (if n == 0 then ok else error, s)) e

  -- All the lines, one after the other.
  sdp_generate-Consumes :
      (s : SdpSession)
      → IsSession s
      → Consumes junk session_init (sdp_generate s) (record s { version = 0 })
  unfolding sdp_generate
  sdp_generate-Consumes s v =
      let s1 : SdpSession = record session_init {
        username = s.username;
        session_id = s.session_id;
        session_version = s.session_version;
        network_type = s.network_type;
        address_type = s.address_type;
        unicast_address = s.unicast_address;
      } in
      let s2 : SdpSession = record s1 { session_name = s.session_name } in
      let s3 : SdpSession = record s2 { start_time = s.start_time; stop_time = s.stop_time } in
      let s4 : SdpSession = record s3 { ice_ufrag = s.ice_ufrag } in
      let s5 : SdpSession = record s4 { ice_pwd = s.ice_pwd } in
      let s6 : SdpSession = record s5 {
        fingerprint_type = s.fingerprint_type;
        fingerprint = s.fingerprint;
      } in
      let s7 : SdpSession = record s6 { dtls_setup = s.dtls_setup } in
      let s8 : SdpSession = record s7 { media = s.media } in
      Consumes-append junk _ _ (version-Consumes junk session_init s refl v.version_zero) (
        Consumes-append junk _ _
          (origin-Consumes junk session_init s v.username_fits v.id_fits v.session_version_fits
            v.network_fits v.address_fits v.unicast_fits)
          (Consumes-append junk _ _ (name-Consumes junk s1 s v.name_fits) (
            Consumes-append junk _ _ (timing-Consumes junk s2 s v.start_fits v.stop_fits) (
              Consumes-append junk _ _
                (Optional-Consumes 64 (codes "a=ice-ufrag:") s3 (λ t. record s3 { ice_ufrag = t })
                  s.ice_ufrag refl (ufrag-Consumes junk s3) v.ufrag_fits)
                (Consumes-append junk _ _
                  (Optional-Consumes 128 (codes "a=ice-pwd:") s4 (λ t. record s4 { ice_pwd = t })
                    s.ice_pwd refl (pwd-Consumes junk s4) v.pwd_fits)
                  (Consumes-append junk _ _
                    (fingerprint_line-Consumes s5 s.fingerprint_type s.fingerprint refl
                      v.fingerprint_fits)
                    (Consumes-append junk _ _
                      (Optional-Consumes 16 (codes "a=setup:") s6
                        (λ t. record s6 { dtls_setup = t }) s.dtls_setup refl
                        (setup-Consumes junk s6) v.setup_fits)
                      (Consumes-append junk _ _ (group-Consumes s7 s.media v.tracks) (
                        Consumes-append junk _ _ (options-Consumes junk s7) (
                          Consumes-append junk _ _
                            (media_texts-Consumes junk s7 s.media v.tracks
                              (omega (arith, v.tracks_fit)) v.payloads)
                            (candidate_lines-Consumes junk s8 s.candidates v.candidates_valid
                              (omega (arith, v.candidates_fit)))))))))))))

-- What `sdp_generate` writes of a session, `sdp_parse` reads back, field by field, with
-- `TINYRTC_OK`: the version is 0, each text fits its array and has no blanks or control
-- characters; the origin and the name of the session are there, the credentials, the fingerprint
-- and the setup may be missing; the at most two tracks have different payload types, go in both
-- directions, and one for video has a single channel; and the at most 32 candidates are marked as
-- IPv6 exactly where their address has a colon.
pub sdp_parse-sdp_generate :
    (junk : ℕ) (s : SdpSession) → IsSession s → sdp_parse junk (sdp_generate s) ≡ done (ok, s)
sdp_parse-sdp_generate junk s v =
    sdp_parse-Consumes junk (sdp_generate s) (record s { version = 0 })
      (sdp_generate-Consumes junk s v) refl
    ∙ (λ i. done (ok, record s { version = sym v.version_zero i }))
