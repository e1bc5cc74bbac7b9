-- ===== src/Peer/Rejects.antt =====
-- Packets that `pc_process_incoming_rtp` of src/peer_connection.c refuses.
use tinyrtc.Prelude.{ℕ, ◌≤◌, ◌≡◌, ap, ◌∙◌, inl, inr, Bool, List, [], ◌++◌, length, some, refused}
use tinyrtc.Status.{error}
use tinyrtc.Srtp.{Context, srtp_decrypt_packet}
use tinyrtc.Srtp.Packets.{Tagged, srtp_decrypt_packet_lem}
use tinyrtc.Peer.{PeerConnection}
use tinyrtc.Peer.Receive.{route, unprotect, process_incoming_rtp}

decrypts :
    (block hmac : List ℕ → List ℕ → List ℕ) (context : Context) (bytes : List ℕ)
    → srtp_decrypt_packet block hmac context bytes ≡ refused
    → unprotect block hmac (some context) bytes ≡ refused
unfolding unprotect
decrypts block hmac context bytes e = rw e

refused_lem :
    (block hmac : List ℕ → List ℕ → List ℕ) (allocs : Bool × Bool) (pc : PeerConnection)
    (context : Context) (bytes : List ℕ) (now : ℕ)
    → pc.srtp_rx ≡ some context
    → srtp_decrypt_packet block hmac context bytes ≡ refused
    → process_incoming_rtp block hmac allocs pc bytes now ≡ (error, pc, [])
unfolding process_incoming_rtp unprotect route
refused_lem block hmac allocs pc context bytes now secured e =
    ap (λ c. route allocs pc now (unprotect block hmac c bytes)) secured
    ∙ ap (route allocs pc now) (decrypts block hmac context bytes e)

-- Where SRTP is in use, a packet whose last ten bytes are not the tag of the bytes in front of
-- them is answered with `TINYRTC_ERROR`, and has no other effect: no track, no counter, no buffer
-- changes, and the observer is not called.
pub process_incoming_rtp_forged :
    (block hmac : List ℕ → List ℕ → List ℕ) (allocs : Bool × Bool) (pc : PeerConnection)
    (context : Context) (packet tag : List ℕ) (now : ℕ)
    → pc.srtp_rx ≡ some context
    → 10 ≤ length (hmac context.key packet)
    → length tag ≡ 10
    → 12 ≤ length packet
    → ¬ Tagged block hmac context packet tag
    → process_incoming_rtp block hmac allocs pc (packet ++ tag) now ≡ (error, pc, [])
process_incoming_rtp_forged block hmac allocs pc context packet tag now secured mac ten long
      forged =
    elim (srtp_decrypt_packet_lem block hmac context packet tag mac ten long) [
      | inl (genuine, _) ↦ absurd (forged genuine)
      | inr (_, e) ↦ refused_lem block hmac allocs pc context (packet ++ tag) now secured e
    ]
