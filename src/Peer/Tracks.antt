-- ===== src/Peer/Tracks.antt =====
-- The local tracks of src/peer_connection.c.
use tinyrtc.Prelude.{
  ℕ, ◌≤◌, ◌≡◌, refl, ap, true, false, ◌⊎◌, inl, inr, List, [], ◌∷◌, ◌++◌, arith, All, ◌==◌, ==_refl,
  leb, lt_cases, length, length-append, append-nil, none, some,
}
use tinyrtc.Status.{ok, not_found}
use tinyrtc.Peer.{
  Track, PeerConnection, TrackConfig, local_track, add_track, remove, remove_track, max_media,
}

-- No track of the list stands at the address.
abbrev pub Absent : ℕ → List Track → Type 0
Absent address ts = All (λ (t : Track). (t.address == address) ≡ false) ts

remove-append :
    (address : ℕ) (ts us : List Track) (t : Track)
    → Absent address ts
    → t.address ≡ address
    → remove address (ts ++ (t ∷ us)) ≡ some (ts ++ us)
unfolding remove
remove-append address [] us t absent e =
    let hit : (t.address == address) ≡ true = rw e (==_refl address) in rw hit
remove-append address (v ∷ ts) us t (miss, absent) e =
    rw (miss, remove-append address ts us t absent e)

remove-Absent : (address : ℕ) (ts : List Track) → Absent address ts → remove address ts ≡ none
unfolding remove
remove-Absent address [] absent = refl
remove-Absent address (t ∷ ts) (miss, absent) = rw (miss, remove-Absent address ts absent)

-- A track that was added, at an address where none stood, is the last one; there was room for
-- it; removing it gives back the connection as it was, and removing it again is refused.
pub remove_track-add_track :
    (pc : PeerConnection) (config : TrackConfig) (address : ℕ)
    → Absent address pc.local_tracks
    → (leb max_media (length pc.local_tracks) ≡ true)
        × (add_track (some address) pc config ≡ (none, pc))
      ⊎ (after : PeerConnection) × (add_track (some address) pc config ≡ (some address, after))
        × (length after.local_tracks ≤ max_media)
        × (remove_track after address ≡ (ok, pc))
        × (remove_track pc address ≡ (not_found, pc))
unfolding add_track remove_track local_track
remove_track-add_track pc config address absent = elim (lt_cases (length pc.local_tracks) 2) [
  | inr (full, _) ↦
      let e : leb max_media (length pc.local_tracks) ≡ true = ground arith in inl (e, rw e)
  | inl (room, _) ↦
      let e : leb max_media (length pc.local_tracks) ≡ false = ground arith in
      let t = local_track address config in
      inr (
        record pc { local_tracks = pc.local_tracks ++ (t ∷ []) },
        rw e,
        omega (arith, length-append pc.local_tracks (t ∷ [])),
        rw (remove_track, remove-append address pc.local_tracks [] t absent refl)
            (ap (λ ts. (ok, record pc { local_tracks = ts })) (append-nil pc.local_tracks)),
        rw (remove_track, remove-Absent address pc.local_tracks absent),
      )
]
