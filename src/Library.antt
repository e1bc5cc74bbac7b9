-- ===== src/Library.antt =====
-- src/tinyrtc.c: the SRTP contexts made of the keys of the handshake, and the part of
-- `tinyrtc_process_events` that handles one connection.
mod Tests
pub mod Secure
pub mod Events
use tinyrtc.Prelude.{
  ℕ, Bool, true, false, not, ◌&&◌, List, [], ◌∷◌, Option, none, some, if◌then◌else◌, Outcome, done,
  refused, fault, ◌>>=◌, ◌==◌, ◌++◌, map,
}
use tinyrtc.Status.{Status, ok, invalid_state, memory}
use tinyrtc.Srtp.{Context, srtp_init}
use tinyrtc.Dtls.{Dtls, SrtpKeys, derive_srtp_keys}
use tinyrtc.Ice.{Session}
use tinyrtc.Ice.Arrivals.{process_packet}
use tinyrtc.Ice.Checks.{check_connectivity, is_connected}
use tinyrtc.Peer.{PeerConnection, PcState, new, connecting, connected, disconnected, failed, closed}
use tinyrtc.Peer.Receive.{Delivery, process_incoming_rtp}

-- `pc->state == TINYRTC_PC_STATE_CONNECTED`
unfoldable pub is_connected_state : PcState → Bool
is_connected_state connected = true
is_connected_state _ = false

-- The contexts of the two directions: the initiator is the client.
unfoldable pub srtp_contexts : Bool → SrtpKeys → Context × Context
unfolding srtp_init
srtp_contexts true keys =
    (srtp_init keys.client_key keys.client_salt, srtp_init keys.server_key keys.server_salt)
srtp_contexts false keys =
    (srtp_init keys.server_key keys.server_salt, srtp_init keys.client_key keys.client_salt)

-- What follows the derivation of the keys; `alloc` is whether both allocations succeed.
unfoldable pub install : Bool → PeerConnection → Status × Dtls → Status × PeerConnection
unfolding srtp_contexts
install alloc pc (ok, dtls) =
    if not alloc
    then (memory, record pc { dtls = some dtls })
    else (let (send, receive) = srtp_contexts pc.is_initiator dtls.keys in
        (
          ok,
          record pc {
            dtls = some dtls;
            srtp = some send;
            srtp_rx = some receive;
            srtp_initialized = true;
          },
        ))
install alloc pc (s, dtls) = (s, record pc { dtls = some dtls })

module _ (sha256 : List ℕ → List ℕ) (native_bytes : ℕ → List ℕ) where
  unfoldable pub from_dtls : Bool × Bool → PeerConnection → Option Dtls → Status × PeerConnection
  unfolding install derive_srtp_keys
  from_dtls (output, contexts) pc none = (invalid_state, pc)
  from_dtls (output, contexts) pc (some dtls) =
      install contexts pc (derive_srtp_keys sha256 native_bytes output dtls)

  -- `pc_initialize_srtp_after_dtls`; the first argument says whether the allocation of the key
  -- derivation and those of the contexts succeed.
  unfoldable pub initialize_srtp : Bool × Bool → PeerConnection → Status × PeerConnection
  unfolding from_dtls
  initialize_srtp allocs pc = from_dtls allocs pc pc.dtls

-- What the environment does for one connection in a round of `tinyrtc_process_events`: the
-- calls of dtls.c that run mbedtls, and the time. `dtls_init` is what the call of that name
-- returns, `process` is `dtls_process_data`, `poll` is `dtls_poll_handshake` followed by
-- `dtls_is_handshake_complete`, `text` is `inet_ntop`, and `clock` the times that the checks read.
pub record Environment : Type 0 where
  pub text : ℕ → List ℕ
  pub sha256 : List ℕ → List ℕ
  pub native_bytes : ℕ → List ℕ
  pub block : List ℕ → List ℕ → List ℕ
  pub hmac : List ℕ → List ℕ → List ℕ
  pub dtls_init : Option Dtls
  pub start : Dtls → Dtls
  pub process : Dtls → List ℕ → Dtls
  pub poll : Dtls → Dtls × Bool
  pub allocs : Bool × Bool
  pub now : ℕ
  pub clock : ℕ → ℕ

-- What the observer is told: a frame, or a new state.
pub data Event : Type 0 where
  frame : Delivery → Event
  state_change : PcState → Event

-- `pc->dtls != NULL && !pc->srtp_initialized && ice_is_connected(pc->ice)`
abbrev pub in_handshake : PeerConnection → Session → Bool
in_handshake pc ice = elim pc.dtls [
  | none ↦ false
  | some _ ↦ not pc.srtp_initialized && is_connected ice
]

-- A datagram that is not STUN: a message of the handshake, or media.
unfoldable pub media_or_dtls :
    Environment → PeerConnection → Session → List ℕ → PeerConnection × List Event
unfolding process_incoming_rtp is_connected
media_or_dtls env pc ice datagram =
    if in_handshake pc ice
    then (
      elim pc.dtls [
        | none ↦ pc
        | some dtls ↦ record pc { dtls = some (env.process dtls datagram) }
      ],
      [],
    )
    else (let (s, after, deliveries) =
          process_incoming_rtp env.block env.hmac env.allocs pc datagram env.now in
        (after, map frame deliveries))

-- The datagram of this round, with its source, if one is there to read.
unfoldable pub receive_datagram :
    Environment
    → PeerConnection
    → Session
    → Option (List ℕ × List ℕ × ℕ)
    → Outcome (PeerConnection × List Event)
unfolding process_packet media_or_dtls
receive_datagram env pc ice none = done (pc, [])
receive_datagram env pc ice (some (datagram, ip, port)) = do
  handled ← process_packet env.text ice datagram (some (ip, port))
  (let updated = record pc { ice = some handled.1 } in
      if handled.0 then done (media_or_dtls env updated handled.1 datagram) else done (updated, []))

-- The handshake starts; a context that is not there yet is made first.
unfoldable pub start_dtls : Environment → Option Dtls → Option Dtls
start_dtls env none = elim env.dtls_init [ none ↦ none | some dtls ↦ some (env.start dtls) ]
start_dtls env (some dtls) = some (env.start dtls)

-- The notice of a connection that was not CONNECTED before the pair was chosen.
unfoldable pub notice_connected :
    Environment → PeerConnection → Session → PeerConnection × List Event
unfolding is_connected_state is_connected start_dtls
notice_connected env pc ice =
    if not (is_connected_state pc.state) && is_connected ice
    then (
      record pc { state = connected; dtls = start_dtls env pc.dtls },
      state_change connected ∷ [],
    )
    else (pc, [])

-- What follows a poll of the handshake: its context, and whether it is complete.
unfoldable pub polled : Environment → PeerConnection → Dtls × Bool → PeerConnection
unfolding initialize_srtp
polled env pc (dtls, true) =
    (initialize_srtp env.sha256 env.native_bytes env.allocs (record pc { dtls = some dtls })).1
polled env pc (dtls, false) = record pc { dtls = some dtls }

-- The handshake, where it is under way.
unfoldable pub poll_handshake :
    Environment → PeerConnection → Session → Option Dtls → PeerConnection
unfolding polled
poll_handshake env pc ice none = pc
poll_handshake env pc ice (some dtls) =
    if not pc.srtp_initialized && is_connected ice then polled env pc (env.poll dtls) else pc

-- What follows the datagram in the round of a connection.
unfoldable pub advance :
    Environment → PeerConnection → List Event → Option Session → PeerConnection × List Event
unfolding check_connectivity notice_connected poll_handshake
advance env pc events none = (pc, events)
advance env pc events (some ice) =
    let checked = check_connectivity env.now env.clock ice in
    let noticed = notice_connected env (record pc { ice = some checked }) checked in
    (poll_handshake env noticed.0 checked noticed.0.dtls, events ++ noticed.1)

-- The round of one connection in `tinyrtc_process_events`, with its session, if it has one.
unfoldable pub process_session :
    Environment
    → PeerConnection
    → Option (List ℕ × List ℕ × ℕ)
    → Option Session
    → Outcome (PeerConnection × List Event)
unfolding receive_datagram advance
process_session env pc input none = done (pc, [])
process_session env pc input (some ice) = if not pc.socket_open then done (pc, []) else (do
  received ← receive_datagram env pc ice input
  done (advance env received.0 received.1 received.0.ice))

-- The round of one connection in `tinyrtc_process_events`.
unfoldable pub process_peer :
    Environment
    → PeerConnection
    → Option (List ℕ × List ℕ × ℕ)
    → Outcome (PeerConnection × List Event)
unfolding process_session
process_peer env pc input = process_session env pc input pc.ice
