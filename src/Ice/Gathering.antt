-- ===== src/Ice/Gathering.antt =====
-- `ice_start_gathering` of src/ice/ice.c. What the system tells is given: the addresses of the
-- interfaces that are up, in their order, and the port of the socket, if one was opened and bound.
use tinyrtc.Prelude.{
  ℕ, ◌+◌, ◌-◌, ◌*◌, ◌^◌, List, [], ◌∷◌, Option, none, some, ◌==◌, if◌then◌else◌, length, bit_or,
  ◌<<◌, u32,
}
use tinyrtc.Status.{Status, ok, network}
use tinyrtc.Ice.{Session, gathered, add_local_candidate}

-- `ICE_PRIORITY_HOST - n`: the macro has no parentheses, so `n` is taken from its last part, 126.
unfoldable pub host_priority : ℕ → ℕ
host_priority n = u32 (bit_or (126 << 24) (u32 (126 + (2 ^ 32 - u32 n))))

-- The loop over the interfaces.
unfoldable pub add_interfaces : List (List ℕ) → ℕ → Session → Session
unfolding host_priority
add_interfaces [] port ice = ice
add_interfaces (ip ∷ ips) port ice =
    add_interfaces ips port
      (add_local_candidate ice ip port (host_priority (length ice.local * 10)))

-- "127.0.0.1", where no interface gave a candidate.
unfoldable pub add_loopback : ℕ → Session → Session
unfolding host_priority
add_loopback port ice =
    if length ice.local == 0
    then add_local_candidate ice (49 ∷ 50 ∷ 55 ∷ 46 ∷ 48 ∷ 46 ∷ 48 ∷ 46 ∷ 49 ∷ []) port
        (host_priority 0)
    else ice

-- `ice_start_gathering`, with the transaction id of the request to a STUN server, if one was sent.
unfoldable pub start_gathering :
    List (List ℕ) → Option (List ℕ) → Option ℕ → Session → Status × Session
unfolding add_interfaces add_loopback gathered
start_gathering ips request none ice = (network, record ice { state = 2 })
start_gathering ips request (some port) ice =
    (ok, gathered (add_loopback port (add_interfaces ips port (record ice { state = 1 }))) request)
