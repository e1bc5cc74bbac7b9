-- ===== src/Library/Events.antt =====
-- The rounds of `tinyrtc_process_events` of src/tinyrtc.c for one connection.
use tinyrtc.Prelude.{
  ℕ, ◌≤◌, ◌≡◌, refl, ap, ◌∙◌, true, false, not, ◌&&◌, if-true, if-false, List, [], ◌∷◌, ◌++◌,
  Option, none, some, get_elem?, done,
}
use tinyrtc.Status.{Status}
use tinyrtc.Dtls.{Dtls}
use tinyrtc.Ice.{Pair, Session}
use tinyrtc.Ice.Checks.{check_connectivity, is_connected}
use tinyrtc.Ice.Invariant.{Settled}
use tinyrtc.Ice.Progress.{HasSuccess, check_connectivity-HasSuccess}
use tinyrtc.Peer.{
  PeerConnection, connected, is_secure_media_ready, media_ready, pair_ready, selected,
}
use tinyrtc.Library.{
  Environment, Event, state_change, is_connected_state, initialize_srtp, start_dtls,
  notice_connected, polled, poll_handshake, advance, receive_datagram, process_session,
  process_peer,
}
use tinyrtc.Library.Secure.{initialize_srtp_ok, SameTransport}

-- A connected session has a pair that succeeded.
selected_lem :
    (ice : Session)
    → is_connected ice ≡ true
    → (p : Pair) × (selected ice ≡ some p) × (p.succeeded ≡ true)
unfolding is_connected selected
selected_lem ice linked = go ice.selected_pair refl
  where
    at_index :
        (i : ℕ) (o : Option Pair)
        → ice.selected_pair ≡ some i
        → get_elem? ice.check_pairs i ≡ o
        → (p : Pair) × (selected ice ≡ some p) × (p.succeeded ≡ true)
    at_index i none s g = absurd (let f = rw (is_connected, s, g) at linked in cc)
    at_index i (some p) s g =
        let f = rw (is_connected, s, g) at linked in (p, rw (selected, s, g), f)

    go :
        (o : Option ℕ)
        → ice.selected_pair ≡ o
        → (p : Pair) × (selected ice ≡ some p) × (p.succeeded ≡ true)
    go none s = absurd (let f = rw (is_connected, s) at linked in cc)
    go (some i) s = at_index i (get_elem? ice.check_pairs i) s refl

-- A connection over a connected session, with its SRTP contexts, is ready for media.
is_secure_media_ready_lem :
    (pc : PeerConnection) (ice : Session)
    → pc.ice ≡ some ice
    → pc.socket_open ≡ true
    → is_connected ice ≡ true
    → pc.srtp_initialized ≡ true
    → is_secure_media_ready pc ≡ true
unfolding is_secure_media_ready media_ready pair_ready
is_secure_media_ready_lem pc ice there open_socket linked keys =
    let (p, chosen, success) = selected_lem ice linked in
    let ready : pair_ready true (some p) ≡ true = rw success in
    ap (λ o. media_ready o pc.socket_open pc.srtp_initialized) there
    ∙ ap (λ b. media_ready (some ice) b pc.srtp_initialized) open_socket
    ∙ ap (media_ready (some ice) true) keys
    ∙ ap (pair_ready true) chosen
    ∙ ready

notice_connected_lem :
    (env : Environment) (pc : PeerConnection) (ice : Session)
    → is_connected_state pc.state ≡ false
    → is_connected ice ≡ true
    → notice_connected env pc ice ≡ (
      record pc { state = connected; dtls = start_dtls env pc.dtls },
      state_change connected ∷ [],
    )
unfolding notice_connected
notice_connected_lem env pc ice off linked =
    if-true (not (is_connected_state pc.state) && is_connected ice) _ _ (rw (off, linked))

-- The handshake that is complete makes the connection ready.
poll_handshake_lem :
    (env : Environment) (pc : PeerConnection) (ice : Session) (d e : Dtls)
    → pc.dtls ≡ some d
    → pc.srtp_initialized ≡ false
    → is_connected ice ≡ true
    → env.poll d ≡ (e, true)
    → env.allocs ≡ (true, true)
    → e.master_secret_captured ≡ true
    → (after : PeerConnection) × (poll_handshake env pc ice pc.dtls ≡ after)
      × (after.srtp_initialized ≡ true)
      × SameTransport pc after
unfolding poll_handshake polled
poll_handshake_lem env pc ice d e there off linked complete room captured =
    let updated = record pc { dtls = some e } in
    let (after, ran, _, _, on, same) =
      initialize_srtp_ok env.sha256 env.native_bytes updated e pc.is_initiator refl refl captured in
    (
      after,
      ap (poll_handshake env pc ice) there
          ∙ if-true (not pc.srtp_initialized && is_connected ice) _ _ (rw (off, linked))
          ∙ ap (polled env pc) complete
          ∙ ap (λ a. (initialize_srtp env.sha256 env.native_bytes a updated).1) room
          ∙ ap (λ (r : Status × PeerConnection). r.1) ran,
      on,
      record {
        same_state = same.same_state;
        same_ice = same.same_ice;
        same_socket = same.same_socket;
      },
    )

-- A connection that is not CONNECTED yet (also one that was closed) and has an open socket, over a
-- session that is done gathering and in which some check succeeded, whose handshake is complete
-- when it is polled, becomes CONNECTED in one round without a datagram: the observer is told so
-- once, and the connection is ready for media afterwards.
pub process_peer-ready :
    (env : Environment) (pc : PeerConnection) (ice : Session) (d e : Dtls)
    → pc.ice ≡ some ice
    → pc.socket_open ≡ true
    → is_connected_state pc.state ≡ false
    → pc.srtp_initialized ≡ false
    → 2 ≤ ice.state
    → Settled ice
    → HasSuccess ice.check_pairs
    → start_dtls env pc.dtls ≡ some d
    → env.poll d ≡ (e, true)
    → e.master_secret_captured ≡ true
    → env.allocs ≡ (true, true)
    → (after : PeerConnection) × (process_peer env pc none
        ≡ done (after, state_change connected ∷ []))
      × (after.state ≡ connected)
      × (is_secure_media_ready after ≡ true)
unfolding process_peer process_session receive_datagram advance
process_peer-ready env pc ice d e there open_socket off no_keys begun settled success started
      complete captured room =
    let checked = check_connectivity env.now env.clock ice in
    let linked = check_connectivity-HasSuccess env.now env.clock ice begun settled success in
    let pc0 = record pc { ice = some checked } in
    let pc1 = record pc0 { state = connected; dtls = start_dtls env pc.dtls } in
    let noticed = notice_connected_lem env pc0 checked off linked in
    let (after, ran, on, same) =
      poll_handshake_lem env pc1 checked d e started no_keys linked complete room captured in
    (
      after,
      ap (process_session env pc none) there
          ∙ if-false (not pc.socket_open) (done (pc, [])) _ (rw open_socket)
          ∙ ap (λ o. done (advance env pc [] o)) there
          ∙ ap
              (λ (n : PeerConnection × List Event).
                done (poll_handshake env n.0 checked n.0.dtls, [] ++ n.1))
              noticed
          ∙ ap (λ a. done (a, state_change connected ∷ [])) ran,
      same.same_state,
      is_secure_media_ready_lem after checked same.same_ice (same.same_socket ∙ open_socket) linked
          on,
    )
