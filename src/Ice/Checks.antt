-- ===== src/Ice/Checks.antt =====
-- The connectivity checks and the choice of a pair: `ice_check_connectivity` and `ice_is_connected`
-- of src/ice/ice.c.
use tinyrtc.Prelude.{
  ℕ, suc, ◌+◌, ◌-◌, ◌*◌, ◌^◌, Bool, true, false, not, ◌&&◌, ◌||◌, List, [], ◌∷◌, ◌++◌, ltb, ◌==◌,
  if◌then◌else◌, get_elem?, ◌>>◌, u64, put32, put64, Option, none, some,
}
use tinyrtc.Ice.{Pair, Session}

-- The state of `ice_check_connectivity`: checking starts when gathering is complete.
unfoldable pub start_checking : Session → Session
start_checking ice = if ice.state == 2 then record ice { state = 3 } else ice

-- The transaction id made of the time.
unfoldable pub time_id : ℕ → List ℕ
time_id now = put64 now ++ put32 (u64 (now * 31337) >> 32)

-- One round of the loop that sends checks, with the time that this round reads.
unfoldable pub ping : ℕ → ℕ → Pair → Pair
unfolding time_id
ping now now_stun p =
    if not p.succeeded && ((p.last_ping_ms == 0) || ltb 3000 (u64 (now + 2 ^ 64 - p.last_ping_ms)))
    then record {
      local = p.local;
      remote = p.remote;
      succeeded = p.succeeded;
      last_ping_ms = now;
      last_transaction_id = time_id now_stun;
      last_transaction_id_valid = true;
    }
    else p

-- The loop that sends checks; `clock i` is the time that the round of pair `i` reads.
unfoldable pub ping_loop : ℕ → (ℕ → ℕ) → ℕ → List Pair → List Pair
unfolding ping
ping_loop now clock i [] = []
ping_loop now clock i (p ∷ ps) = ping now (clock i) p ∷ ping_loop now clock (suc i) ps

-- The first pair that succeeded, from index `i` on.
unfoldable pub first_succeeded : ℕ → List Pair → Option ℕ
first_succeeded i [] = none
first_succeeded i (p ∷ ps) =
    let rest = first_succeeded (suc i) ps in if p.succeeded then some i else rest

-- The loop that chooses a pair, where none is chosen. The flag of its local candidate is left
-- out.
unfoldable pub choose : Session → Option ℕ → Session
choose ice none = ice
choose ice (some i) = record ice { selected_pair = some i; state = 4 }

unfoldable pub select_from : Session → Option ℕ → Session
unfolding choose first_succeeded
select_from ice (some i) = ice
select_from ice none = choose ice (first_succeeded 0 ice.check_pairs)

unfoldable pub select : Session → Session
unfolding select_from
select ice = select_from ice ice.selected_pair

-- `ice_check_connectivity`
unfoldable pub check_connectivity : ℕ → (ℕ → ℕ) → Session → Session
unfolding start_checking ping_loop select
check_connectivity now clock ice =
    let started = start_checking ice in
    if ltb started.state 3
    then started
    else select (record started { check_pairs = ping_loop now clock 0 started.check_pairs })

-- `ice_is_connected`
unfoldable pub is_connected : Session → Bool
is_connected ice = elim ice.selected_pair [
  | none ↦ false
  | some i ↦ elim (get_elem? ice.check_pairs i) [ none ↦ false | some p ↦ p.succeeded ]
]
