-- ===== src/Ice/Arrivals.antt =====
-- What a datagram changes in the session: `ice_process_packet` of src/ice/ice.c. `inet_ntop` is the
-- parameter `text`.
use tinyrtc.Prelude.{
  ℕ, Bool, true, false, not, ◌&&◌, List, [], ◌∷◌, ◌++◌, map, ltb, leb, ◌==◌, if◌then◌else◌, length,
  take, drop, get_elem?, Outcome, done, refused, fault, ◌>>=◌, read16, read32, Option, none, some,
}
use tinyrtc.Stun.{magic_cookie, binding_request, binding_response, process_response}
use tinyrtc.Ice.{
  max_candidates, Candidate, Pair, Session, calculate_priority, same_bytes, has_char, srflx,
  add_check_pairs_for_local_candidate,
}

abbrev pub succeed : Pair → Pair
succeed p = record {
  local = p.local;
  remote = p.remote;
  succeeded = true;
  last_ping_ms = p.last_ping_ms;
  last_transaction_id = p.last_transaction_id;
  last_transaction_id_valid = p.last_transaction_id_valid;
}

-- The loop over the pairs after a request: those whose remote candidate is its source succeed.
unfoldable pub mark_source : List Candidate → List ℕ → ℕ → Pair → Pair
mark_source remote ip port p = elim (get_elem? remote p.remote) [
  | none ↦ p
  | some c ↦ if (c.port == port) && same_bytes c.ip ip then succeed p else p
]

-- The loop over the pairs after a response: the first with its transaction succeeds.
unfoldable pub mark_transaction : List ℕ → List Pair → List Pair
mark_transaction id [] = []
mark_transaction id (p ∷ ps) =
    let rest = mark_transaction id ps in
    if p.last_transaction_id_valid && same_bytes id p.last_transaction_id
    then succeed p ∷ ps
    else p ∷ rest

-- A response of the STUN server marks no pair.
unfoldable pub handle_response : Session → List ℕ → Session
unfolding mark_transaction
handle_response ice id =
    if ice.server_transaction_id_valid && same_bytes id ice.server_transaction_id
    then ice
    else record ice { check_pairs = mark_transaction id ice.check_pairs }

-- A mapped address becomes a server reflexive candidate.
unfoldable pub add_reflexive : Session → List ℕ → ℕ → Session
unfolding add_check_pairs_for_local_candidate calculate_priority
add_reflexive ice ip port =
    if leb max_candidates (length ice.local)
    then ice
    else add_check_pairs_for_local_candidate
        (record ice {
          local =
              ice.local
              ++ (record {
                type = srflx;
                priority = calculate_priority srflx;
                ip = take 63 ip;
                port = port;
                is_ipv6 = has_char 58 ip;
              }
                  ∷ []);
        })
        (length ice.local)

-- The transaction id of a message; a datagram that is too short for it is read behind its end.
unfoldable pub transaction_id : List ℕ → Outcome (List ℕ)
transaction_id d = if ltb (length d) 20 then fault else done (take 12 (drop 8 d))

module _ (text : ℕ → List ℕ) where
  -- The part of `ice_process_packet` behind the tests of the message type.
  unfoldable pub add_mapped : Session → Outcome (ℕ × ℕ) → Outcome (Bool × Session)
  unfolding add_reflexive
  add_mapped ice (done (port, addr)) =
      if length (text addr) == 0
      then done (false, ice)
      else done (false, add_reflexive ice (text addr) port)
  add_mapped ice refused = done (false, ice)
  add_mapped ice fault = fault

  -- `ice_process_packet`, with the source's address and port where it is given: whether the packet
  -- is media, and the session.
  unfoldable pub process_packet : Session → List ℕ → Option (List ℕ × ℕ) → Outcome (Bool × Session)
  unfolding mark_source handle_response transaction_id add_mapped
  process_packet ice d source = if ltb (length d) 8 then done (true, ice) else (do
    magic ← read32 d 4
    if not (magic == magic_cookie) then done (true, ice) else (do
      msg_type ← read16 d 0
      if msg_type == binding_request
          then (do
            id ← transaction_id d
            done (
              false,
              elim source [
                | none ↦ ice
                | some (ip, port) ↦ record ice {
                  check_pairs = map (mark_source ice.remote ip port) ice.check_pairs;
                }
              ],
            ))
          else (if msg_type == binding_response
              then (do
                id ← transaction_id d
                add_mapped (handle_response ice id) (process_response d))
              else add_mapped ice (process_response d))))
