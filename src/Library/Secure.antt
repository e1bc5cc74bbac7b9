-- ===== src/Library/Secure.antt =====
-- `pc_initialize_srtp_after_dtls` of src/tinyrtc.c at both ends of a connection.
use tinyrtc.Prelude.{
  ℕ, ◌≡◌, ◌≢◌, ◌⊎◌, inl, inr, refl, ap, ◌∙◌, sym, Bool, true, false, Bool-cases, not, if-true,
  if-false, List, Option, none, some,
}
use tinyrtc.Status.{Status, ok, invalid_state, memory}
use tinyrtc.Srtp.{Context}
use tinyrtc.Dtls.{Dtls, SrtpKeys, derive_srtp_keys, expand, split_keys}
use tinyrtc.Peer.{PeerConnection}
use tinyrtc.Peer.Wire.{Paired}
use tinyrtc.Library.{srtp_contexts, install, initialize_srtp, from_dtls}

-- The contexts of the connection are there.
pub record IsSecure (pc : PeerConnection) : Type 0 where
  pub sends : (c : Context) × (pc.srtp ≡ some c)
  pub receives : (c : Context) × (pc.srtp_rx ≡ some c)
  pub initialized : pc.srtp_initialized ≡ true

-- The SRTP state of two connections is the same.
pub record SameSrtp (pc after : PeerConnection) : Type 0 where
  pub same_srtp : after.srtp ≡ pc.srtp
  pub same_srtp_rx : after.srtp_rx ≡ pc.srtp_rx
  pub same_initialized : after.srtp_initialized ≡ pc.srtp_initialized

-- What else stays the same of a connection.
pub record SameTransport (pc after : PeerConnection) : Type 0 where
  pub same_state : after.state ≡ pc.state
  pub same_ice : after.ice ≡ pc.ice
  pub same_socket : after.socket_open ≡ pc.socket_open

module _ (sha256 : List ℕ → List ℕ) (native_bytes : ℕ → List ℕ) where
  -- The keys of the handshake's secret.
  pub keys_of : Dtls → SrtpKeys
  keys_of dtls = split_keys (expand sha256 native_bytes 2 0 dtls.master_secret)

  pub initialize_srtp_ok :
      (pc : PeerConnection) (dtls : Dtls) (role : Bool)
      → pc.dtls ≡ some dtls
      → pc.is_initiator ≡ role
      → dtls.master_secret_captured ≡ true
      → (after : PeerConnection) × (initialize_srtp sha256 native_bytes (true, true) pc
          ≡ (ok, after))
        × (after.srtp ≡ some (srtp_contexts role (keys_of dtls)).0)
        × (after.srtp_rx ≡ some (srtp_contexts role (keys_of dtls)).1)
        × (after.srtp_initialized ≡ true)
        × SameTransport pc after
  unfolding initialize_srtp from_dtls derive_srtp_keys install keys_of
  initialize_srtp_ok pc dtls role there initiator captured =
      let contexts = srtp_contexts role (keys_of dtls) in
      (
        record pc {
          dtls = some (record dtls { keys = keys_of dtls });
          srtp = some contexts.0;
          srtp_rx = some contexts.1;
          srtp_initialized = true;
        },
        rw (initialize_srtp, there, from_dtls, derive_srtp_keys, captured, initiator),
        refl,
        refl,
        refl,
        record { same_state = refl; same_ice = refl; same_socket = refl },
      )

-- The two ends of a handshake, of which one is the initiator, on machines of the same byte order,
-- where both have captured the same secret and the allocations of both succeed: both derive their
-- keys, with success, and afterwards each end decrypts with the key and salt with which the other
-- one encrypts.
pub initialize_srtp-Paired :
    (sha256 : List ℕ → List ℕ) (native_bytes : ℕ → List ℕ) (client server : PeerConnection)
    (d e : Dtls)
    → client.dtls ≡ some d
    → server.dtls ≡ some e
    → client.is_initiator ≡ true
    → server.is_initiator ≡ false
    → d.master_secret_captured ≡ true
    → e.master_secret_captured ≡ true
    → d.master_secret ≡ e.master_secret
    → (c s : PeerConnection) × (initialize_srtp sha256 native_bytes (true, true) client ≡ (ok, c))
      × (initialize_srtp sha256 native_bytes (true, true) server ≡ (ok, s))
      × Paired c.srtp s.srtp_rx
      × Paired s.srtp c.srtp_rx
      × (c.srtp_initialized ≡ true)
      × (s.srtp_initialized ≡ true)
unfolding keys_of srtp_contexts
initialize_srtp-Paired sha256 native_bytes client server d e there there_too initiator other got
      got_too same =
    let (c, ran, sends, receives, on, _) =
      initialize_srtp_ok sha256 native_bytes client d true there initiator got in
    let (s, ran_too, sends_too, receives_too, on_too, _) =
      initialize_srtp_ok sha256 native_bytes server e false there_too other got_too in
    let keys = ap (λ ms. split_keys (expand sha256 native_bytes 2 0 ms)) same in
    (
      c,
      s,
      ran,
      ran_too,
      rw (sends, receives_too)
          (
            ap (λ k. (srtp_contexts true k).0.key) keys,
            ap (λ k. (srtp_contexts true k).0.salt) keys,
          ),
      rw (sends_too, receives)
          (
            ap (λ k. (srtp_contexts true k).1.key) (sym keys),
            ap (λ k. (srtp_contexts true k).1.salt) (sym keys),
          ),
      on,
      on_too,
    )

Option-cases : {A : Type 0} (x : Option A) → (x ≡ none) ⊎ (a : A) × (x ≡ some a)
Option-cases none = inl refl
Option-cases (some a) = inr (a, refl)

abbrev Outcomes : PeerConnection → Status → PeerConnection → Type 0
Outcomes pc s after = (s ≡ ok) × IsSecure after ⊎ (s ≢ ok) × SameSrtp pc after

untouched : (pc : PeerConnection) (dtls : Option Dtls) → SameSrtp pc (record pc { dtls = dtls })
untouched pc dtls = record { same_srtp = refl; same_srtp_rx = refl; same_initialized = refl }

invalid_state_ne_ok : invalid_state ≢ ok
invalid_state_ne_ok = λ e. cc

memory_ne_ok : memory ≢ ok
memory_ne_ok = λ e. cc

install_lem :
    (alloc : Bool) (pc : PeerConnection) (dtls : Dtls)
    → (s : Status) × (after : PeerConnection) × (install alloc pc (ok, dtls) ≡ (s, after))
      × Outcomes pc s after
unfolding install
install_lem true pc dtls = (
  ok,
  record pc {
    dtls = some dtls;
    srtp = some (srtp_contexts pc.is_initiator dtls.keys).0;
    srtp_rx = some (srtp_contexts pc.is_initiator dtls.keys).1;
    srtp_initialized = true;
  },
  refl,
  inl (refl, record { sends = (_, refl); receives = (_, refl); initialized = refl }),
)
install_lem false pc dtls =
    (memory, record pc { dtls = some dtls }, refl, inr (memory_ne_ok, untouched pc (some dtls)))

derive_srtp_keys_cases :
    (sha256 : List ℕ → List ℕ) (native_bytes : ℕ → List ℕ) (alloc : Bool) (dtls : Dtls)
    → ((derived : Dtls) × (derive_srtp_keys sha256 native_bytes alloc dtls ≡ (ok, derived)))
      ⊎ (derive_srtp_keys sha256 native_bytes alloc dtls ≡ (invalid_state, dtls))
      ⊎ (derive_srtp_keys sha256 native_bytes alloc dtls ≡ (memory, dtls))
unfolding derive_srtp_keys
derive_srtp_keys_cases sha256 native_bytes alloc dtls =
    elim (Bool-cases dtls.master_secret_captured) [
      | inr missing ↦ inr (inl (if-true (not dtls.master_secret_captured) _ _ (rw missing)))
      | inl captured ↦ elim (Bool-cases alloc) [
        | inr full ↦
            inr (inr (if-false (not dtls.master_secret_captured) _ _ (rw captured) ∙ rw full))
        | inl room ↦ inl (
          record dtls { keys = split_keys (expand sha256 native_bytes 2 0 dtls.master_secret) },
          if-false (not dtls.master_secret_captured) _ _ (rw captured) ∙ rw room,
        )
      ]
    ]

-- Whatever the handshake captured and whichever allocations fail, the call either returns
-- `TINYRTC_OK` and both contexts are there, or it returns an error and changes nothing of SRTP.
pub initialize_srtp_lem :
    (sha256 : List ℕ → List ℕ) (native_bytes : ℕ → List ℕ) (allocs : Bool × Bool)
    (pc : PeerConnection)
    → (s : Status) × (after : PeerConnection) × (initialize_srtp sha256 native_bytes allocs pc
        ≡ (s, after))
      × ((s ≡ ok) × IsSecure after ⊎ (s ≢ ok) × SameSrtp pc after)
unfolding initialize_srtp from_dtls
initialize_srtp_lem sha256 native_bytes (output, contexts) pc = elim (Option-cases pc.dtls) [
  | inl none_yet ↦ (
    invalid_state,
    pc,
    ap (from_dtls sha256 native_bytes (output, contexts) pc) none_yet,
    inr (invalid_state_ne_ok, untouched pc pc.dtls),
  )
  | inr (dtls, there) ↦
      let start = ap (from_dtls sha256 native_bytes (output, contexts) pc) there in
      elim (derive_srtp_keys_cases sha256 native_bytes output dtls) [
        | inl (derived, e) ↦
            let (s, after, installed, outcome) = install_lem contexts pc derived in
            (s, after, start ∙ ap (install contexts pc) e ∙ installed, outcome)
        | inr (inl e) ↦ (
          invalid_state,
          record pc { dtls = some dtls },
          start ∙ ap (install contexts pc) e,
          inr (invalid_state_ne_ok, untouched pc (some dtls)),
        )
        | inr (inr e) ↦ (
          memory,
          record pc { dtls = some dtls },
          start ∙ ap (install contexts pc) e,
          inr (memory_ne_ok, untouched pc (some dtls)),
        )
      ]
]
