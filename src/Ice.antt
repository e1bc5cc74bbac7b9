-- ===== src/Ice.antt =====
-- The ICE session of src/ice/ice.c: candidates, check pairs and the choice of a pair. The arrays
-- are lists, as long as their counters say; a pointer to an entry is its index. Texts are lists of
-- characters. What is sent to the network is left out.
mod Tests
pub mod Gathering
pub mod Arrivals
pub mod Checks
pub mod Pairs
pub mod Quiet
pub mod Invariant
pub mod Progress
use tinyrtc.Prelude.{
  ℕ, zero, suc, ◌+◌, ◌-◌, ◌*◌, ◌^◌, Bool, true, false, not, ◌&&◌, ◌||◌, List, [], ◌∷◌, ◌++◌, map,
  ltb, leb, ◌==◌, if◌then◌else◌, length, take, drop, get_elem?, bit_or, ◌<<◌, ◌>>◌, u64, u16, put32,
  put64, Outcome, done, refused, fault, ◌>>=◌, read16, read32, Option, none, some,
}
use tinyrtc.Status.{Status, ok, error}
use tinyrtc.Stun.{magic_cookie, binding_request, binding_response, process_response}

abbrev pub max_candidates : ℕ
max_candidates = 32

-- `ice_candidate_type_t`
pub data CandidateType : Type 0 where
  host srflx relay : CandidateType

-- `ice_candidate_internal_t`, less the fields that nothing reads.
pub record Candidate : Type 0 where
  pub type : CandidateType
  pub priority : ℕ
  pub ip : List ℕ
  pub port : ℕ
  pub is_ipv6 : Bool

-- `ice_check_pair_t`, less `rtt`, which only the log reads.
pub record Pair : Type 0 where
  pub local : ℕ
  pub remote : ℕ
  pub succeeded : Bool
  pub last_ping_ms : ℕ
  pub last_transaction_id : List ℕ
  pub last_transaction_id_valid : Bool

-- `ice_session_t`
pub record Session : Type 0 where
  pub state : ℕ
  pub local : List Candidate
  pub remote : List Candidate
  pub check_pairs : List Pair
  pub selected_pair : Option ℕ
  pub server_transaction_id : List ℕ
  pub server_transaction_id_valid : Bool

-- `ice_session_create`, for an allocation that succeeds.
unfoldable pub session_create : Session
session_create = record {
  state = 0;
  local = [];
  remote = [];
  check_pairs = [];
  selected_pair = none;
  server_transaction_id = [];
  server_transaction_id_valid = false;
}

-- The end of `ice_start_gathering`, with the transaction id of the request to a STUN server where
-- one was made.
unfoldable pub gathered : Session → Option (List ℕ) → Session
gathered ice none = record ice { state = 2 }
gathered ice (some id) = record ice {
  state = 2;
  server_transaction_id = id;
  server_transaction_id_valid = true;
}

-- `strcmp` and `memcmp` equal to 0, and `strchr` not null.
abbrev pub same_bytes : List ℕ → List ℕ → Bool
same_bytes [] [] = true
same_bytes [] (y ∷ ys) = false
same_bytes (x ∷ xs) [] = false
same_bytes (x ∷ xs) (y ∷ ys) = (x == y) && same_bytes xs ys

abbrev pub has_char : ℕ → List ℕ → Bool
has_char c [] = false
has_char c (x ∷ xs) = (x == c) || has_char c xs

-- `ice_calculate_priority`
abbrev pub type_preference : CandidateType → ℕ
type_preference host = 126
type_preference srflx = 110
type_preference relay = 100

unfoldable pub calculate_priority : CandidateType → ℕ
calculate_priority type = bit_or (type_preference type << 24) 255

-- The loop that looks for a candidate with this address and port.
pub known : List Candidate → List ℕ → ℕ → Bool
known [] ip port = false
known (c ∷ cs) ip port = (same_bytes c.ip ip && (c.port == port)) || known cs ip port

-- `ice_add_local_candidate`
unfoldable pub add_local_candidate : Session → List ℕ → ℕ → ℕ → Session
unfolding known
add_local_candidate ice ip port priority =
    if leb max_candidates (length ice.local)
    then ice
    else if known ice.local ip port
    then ice
    else record ice {
      local =
          ice.local
          ++ (record {
            type = host;
            priority = priority;
            ip = take 63 ip;
            port = port;
            is_ipv6 = has_char 58 ip;
          }
              ∷ []);
    }

-- A pair as `memset` and the stores of its candidates leave it.
abbrev pub new_pair : ℕ → ℕ → Pair
new_pair local remote = record {
  local = local;
  remote = remote;
  succeeded = false;
  last_ping_ms = 0;
  last_transaction_id = [];
  last_transaction_id_valid = false;
}

-- The loops that pair one candidate with the first `n` of the other side, from index `i` on.
pub pair_loop : (ℕ → Pair) → ℕ → ℕ → List Pair → List Pair
pair_loop make zero i pairs = pairs
pair_loop make (suc n) i pairs =
    let more = pair_loop make n (suc i) (pairs ++ (make i ∷ [])) in
    if leb (max_candidates * max_candidates) (length pairs) then pairs else more

-- `ice_add_check_pairs_for_local_candidate`, given the index of the candidate.
unfoldable pub add_check_pairs_for_local_candidate : Session → ℕ → Session
unfolding pair_loop
add_check_pairs_for_local_candidate ice local = record ice {
  check_pairs = pair_loop (new_pair local) (length ice.remote) 0 ice.check_pairs;
}

-- `ice_add_remote_candidate`, for a candidate that `ice_candidate_from_sdp` made and whose protocol
-- is UDP or not.
unfoldable pub add_remote_candidate : Session → Bool → Candidate → Status × Session
unfolding pair_loop
add_remote_candidate ice udp candidate =
    if leb max_candidates (length ice.remote)
    then (error, ice)
    else if not udp
    then (ok, ice)
    else (
      ok,
      record ice {
        remote = ice.remote ++ (candidate ∷ []);
        check_pairs =
            pair_loop (λ i. new_pair i (length ice.remote)) (length ice.local) 0 ice.check_pairs;
      },
    )
