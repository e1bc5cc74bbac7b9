-- ===== src/Peer/Room.antt =====
-- The room of the reassembly buffer of src/peer_connection.c.
use tinyrtc.Prelude.{
  ℕ, zero, suc, ◌+◌, ◌*◌, ◌≤◌, ◌<◌, ◌≡◌, ◌⊎◌, inl, inr, refl, sym, Bool, true, false, Bool-cases,
  List, [], ◌∷◌, ◌++◌, arith, leb, ◌==◌, lt_cases, length, length-append, append-nil, if◌then◌else◌,
}
use tinyrtc.Peer.{Track}
use tinyrtc.Peer.Receive.{grow, append_reassembly}

-- Doubling reaches the bytes needed with the fuel that `append_reassembly` gives it.
grow_enough :
    (fuel needed capacity : ℕ)
    → 0 < capacity
    → needed ≤ capacity + fuel
    → needed ≤ grow fuel needed capacity
unfolding grow
grow_enough zero needed capacity pos h = omega (arith, h)
grow_enough (suc fuel) needed capacity pos h =
    let again = grow_enough fuel needed (capacity * 2) (omega arith) (omega arith) in
    elim (lt_cases capacity needed) [ inl (less, t) ↦ rw t again | inr (room, t) ↦ rw t room ]

-- The bytes in use lie inside the buffer.
abbrev pub HasRoom : Track → Type 0
HasRoom t = length t.reassembly_buffer ≤ t.reassembly_capacity

-- Appending either adds exactly the new bytes behind those in the buffer, and the buffer is large
-- enough for all of them afterwards, or an allocation failed, and the track is as before.
pub append_reassembly_lem :
    (alloc : Bool) (t : Track) (bytes : List ℕ)
    → HasRoom t
    → ((append_reassembly alloc t bytes).0 ≡ true)
        × ((append_reassembly alloc t bytes).1.reassembly_buffer ≡ t.reassembly_buffer ++ bytes)
        × HasRoom (append_reassembly alloc t bytes).1
      ⊎ (append_reassembly alloc t bytes ≡ (false, t)) × (alloc ≡ false)
unfolding append_reassembly
append_reassembly_lem alloc t [] room = inl (refl, sym (append-nil t.reassembly_buffer), room)
append_reassembly_lem alloc t (b ∷ bs) room =
    let needed = length t.reassembly_buffer + length (b ∷ bs) in
    let none : (length (b ∷ bs) == 0) ≡ false = ground arith in
    let len = length-append t.reassembly_buffer (b ∷ bs) in
    elim (lt_cases t.reassembly_capacity needed) [
      | inr (fits, _) ↦
          let e : leb needed t.reassembly_capacity ≡ true = ground arith in
          rw (none, e) (inl (refl, refl, omega arith))
      | inl (less, _) ↦
          let e : leb needed t.reassembly_capacity ≡ false = ground arith in
          elim (Bool-cases alloc) [
            | inr failed ↦ rw (none, e, failed) (inr (refl, refl))
            | inl given ↦
                let start = if t.reassembly_capacity == 0 then 4096 else t.reassembly_capacity in
                let positive : 0 < start = ground arith in
                let enough = grow_enough needed needed start positive (omega arith) in
                rw (none, e, given) (inl (refl, refl, omega arith))
          ]
    ]
