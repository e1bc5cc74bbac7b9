-- ===== src/Peer/Candidates.antt =====
-- Candidates between the ICE session and the descriptions: `ice_candidate_to_sdp`,
-- `ice_candidate_from_sdp` and `ice_add_remote_candidate` of src/ice/ice.c, and
-- `tinyrtc_peer_connection_add_ice_candidate` of src/peer_connection.c. Local candidates are UDP.
use tinyrtc.Prelude.{
  ℕ, Bool, true, false, not, List, [], ◌∷◌, Option, none, some, if◌then◌else◌, take,
}
use tinyrtc.Status.{Status, ok, error}
use tinyrtc.Ice.{CandidateType, host, srflx, relay, Candidate, Session, add_remote_candidate}
use tinyrtc.Sdp.{SdpCandidate, SdpSession, add_candidate}
use tinyrtc.Sdp.Text.{codes, same_text, same_text_ignoring_case}
use tinyrtc.Peer.{PeerConnection}

unfoldable pub type_text : CandidateType → List ℕ
type_text host = codes "host"
type_text srflx = codes "srflx"
type_text relay = codes "relay"

-- `ice_candidate_to_sdp`
unfoldable pub candidate_to_sdp : Candidate → SdpCandidate
unfolding type_text
candidate_to_sdp c = record {
  foundation = codes "tiny";
  priority = c.priority;
  ip = c.ip;
  port = c.port;
  type = type_text c.type;
  protocol = codes "udp";
  is_ipv6 = c.is_ipv6;
}

unfoldable pub type_from : List ℕ → CandidateType
unfolding same_text
type_from type =
    if same_text type (codes "host")
    then host
    else if same_text type (codes "srflx")
    then srflx
    else relay

-- `ice_candidate_from_sdp`
unfoldable pub candidate_from_sdp : SdpCandidate → Candidate
unfolding type_from
candidate_from_sdp c = record {
  type = type_from c.type;
  priority = c.priority;
  ip = c.ip;
  port = c.port;
  is_ipv6 = c.is_ipv6;
}

-- `ice_add_remote_candidate`
unfoldable pub add_remote : Session → SdpCandidate → Status × Session
unfolding candidate_from_sdp same_text_ignoring_case
add_remote ice c =
    add_remote_candidate ice (same_text_ignoring_case c.protocol (codes "udp"))
      (candidate_from_sdp c)

-- The loops that hand all the candidates of a description over, whatever each call results in.
unfoldable pub add_all_remote : Session → List SdpCandidate → Session
unfolding add_remote
add_all_remote ice [] = ice
add_all_remote ice (c ∷ cs) = add_all_remote (add_remote ice c).1 cs

-- The result of `tinyrtc_peer_connection_add_ice_candidate` behind the test of the protocol.
unfoldable pub pass_on : PeerConnection → SdpCandidate → Option Session → Status × PeerConnection
unfolding add_remote
pass_on pc c none = (ok, pc)
pass_on pc c (some ice) =
    let (status, after) = add_remote ice c in (status, record pc { ice = some after })

unfoldable pub record_candidate :
    PeerConnection → SdpCandidate → Bool × SdpSession → Status × PeerConnection
unfolding pass_on
record_candidate pc c (false, session) = (error, pc)
record_candidate pc c (true, session) = pass_on (record pc { remote_sdp = session }) c pc.ice

-- `tinyrtc_peer_connection_add_ice_candidate`, for a candidate whose texts are all there.
unfoldable pub add_ice_candidate : PeerConnection → SdpCandidate → Status × PeerConnection
unfolding record_candidate same_text_ignoring_case add_candidate
add_ice_candidate pc c =
    if not (same_text_ignoring_case c.protocol (codes "udp"))
    then (ok, pc)
    else record_candidate pc
        (record c {
          foundation = take 31 c.foundation;
          ip = take 63 c.ip;
          type = take 31 c.type;
          protocol = take 15 c.protocol;
        })
        (add_candidate pc.remote_sdp c)
