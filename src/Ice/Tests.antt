-- ===== src/Ice/Tests.antt =====
-- Runs of the session of src/ice/ice.c.
use tinyrtc.Prelude.{ℕ, ◌≡◌, refl, true, false, List, [], ◌∷◌, none, some}
use tinyrtc.Ice.{Candidate, Pair, Session, host, session_create, gathered, add_local_candidate}
use tinyrtc.Ice.Checks.{check_connectivity, is_connected}
use tinyrtc.Ice.Invariant.{
  start, step, gathering_ends, local_added, checked, Settled, Reachable-Settled, Step-connected,
}

abbrev text : ℕ → List ℕ
text addr = addr ∷ []

abbrev local_candidate : Candidate
local_candidate = record { type = host; priority = 9; ip = 49 ∷ []; port = 5000; is_ipv6 = false }

abbrev pair : Pair
pair = record {
  local = 0;
  remote = 0;
  succeeded = true;
  last_ping_ms = 7;
  last_transaction_id = [];
  last_transaction_id_valid = true;
}

-- A session with a pair that succeeded and was chosen.
abbrev connected : Session
connected = record {
  state = 4;
  local = local_candidate ∷ [];
  remote = local_candidate ∷ [];
  check_pairs = pair ∷ [];
  selected_pair = some 0;
  server_transaction_id = [];
  server_transaction_id_valid = false;
}

abbrev one_candidate : Session
one_candidate = add_local_candidate (gathered session_create none) (49 ∷ []) 5000 9

Reachable-Settled_example : Settled one_candidate
Reachable-Settled_example = Reachable-Settled text one_candidate (
    step (gathered session_create none) one_candidate
      (step session_create (gathered session_create none) start
        (gathering_ends session_create none))
      (local_added (gathered session_create none) (49 ∷ []) 5000 9))

connected_is : is_connected connected ≡ true
unfolding is_connected
connected_is = refl

Step-connected_example :
    (is_connected (check_connectivity 100 (λ i. i) connected) ≡ true)
    × ((check_connectivity 100 (λ i. i) connected).selected_pair ≡ connected.selected_pair)
Step-connected_example =
    Step-connected text connected (check_connectivity 100 (λ i. i) connected)
      (checked connected 100 (λ i. i)) connected_is
