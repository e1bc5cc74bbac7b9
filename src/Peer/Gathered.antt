-- ===== src/Peer/Gathered.antt =====
-- The candidates of a new ICE session: `ice_start_gathering` and `ice_candidate_to_sdp` of
-- src/ice/ice.c, as src/peer_connection.c calls them.
use mathlib.Core.Path.{subst}
use tinyrtc.Prelude.{
  ℕ, ◌*◌, ◌^◌, ◌≤◌, ◌<◌, ◌≡◌, inl, inr, refl, sym, ap, ◌∙◌, List, [], ◌∷◌, Option, none, some,
  arith, leb, length, map, take-all, All, Bool-cases, not, ◌||◌, length-append, All-append, ◌==◌,
}
use tinyrtc.Ice
use tinyrtc.Ice.{
  host, Candidate, Session, session_create, max_candidates, known, add_local_candidate, gathered,
  add_remote_candidate,
}
use tinyrtc.Ice.Gathering.{host_priority, add_interfaces, add_loopback, start_gathering}
use tinyrtc.Sdp.{SdpSession, SdpCandidate}
use tinyrtc.Sdp.Text.{codes, has_char, same_text_ignoring_case}
use tinyrtc.Sdp.Fields.{Field}
use tinyrtc.Sdp.Candidates.{IsCandidate}
use tinyrtc.Peer.Candidates.{type_text, candidate_to_sdp, add_remote, add_all_remote}
use tinyrtc.Peer.Descriptions.{Environment, new_ice}

-- A candidate as `ice_start_gathering` makes it.
pub record IsGathered (c : Candidate) : Type 0 where
  is_host : c.type ≡ host
  priority_fits : c.priority < 2 ^ 32
  ip_fits : Field 64 c.ip
  port_fits : c.port < 2 ^ 16
  same_version : c.is_ipv6 ≡ Ice.has_char b':' c.ip

pub record HasLocals (cs : List Candidate) : Type 0 where
  pub few : length cs ≤ max_candidates
  pub all_gathered : All IsGathered cs

host_priority-fits : (n : ℕ) → host_priority n < 2 ^ 32
unfolding host_priority
host_priority-fits n = omega arith

abbrev new_candidate : List ℕ → ℕ → ℕ → Candidate
new_candidate ip port priority = record {
  type = host;
  priority = priority;
  ip = ip;
  port = port;
  is_ipv6 = Ice.has_char b':' ip;
}

add_local_candidate-HasLocals :
    (ice : Session) (ip : List ℕ) (port priority : ℕ)
    → HasLocals ice.local
    → Field 64 ip
    → port < 2 ^ 16
    → priority < 2 ^ 32
    → HasLocals (add_local_candidate ice ip port priority).local
unfolding add_local_candidate
add_local_candidate-HasLocals ice ip port priority h f p q =
    elim (Bool-cases (leb max_candidates (length ice.local))) [
      | inl t ↦ rw t h
      | inr t ↦ elim (Bool-cases (known ice.local ip port)) [
        | inl u ↦ rw (t, u) h
        | inr u ↦
            let short : length ip ≤ 63 = omega (arith, f.fits) in
            rw (t, u, take-all 63 ip short)
              (record {
                few =
                    grind (arith, length-append ice.local (new_candidate ip port priority ∷ []), t);
                all_gathered =
                    All-append IsGathered ice.local (new_candidate ip port priority ∷ [])
                      h.all_gathered
                      (
                        record {
                          is_host = refl;
                          priority_fits = q;
                          ip_fits = f;
                          port_fits = p;
                          same_version = refl;
                        },
                        tt,
                      );
              })
      ]
    ]

add_interfaces-HasLocals :
    (ips : List (List ℕ)) (port : ℕ) (ice : Session)
    → HasLocals ice.local
    → All (Field 64) ips
    → port < 2 ^ 16
    → HasLocals (add_interfaces ips port ice).local
unfolding add_interfaces
add_interfaces-HasLocals [] port ice h f p = h
add_interfaces-HasLocals (ip ∷ ips) port ice h (f, fs) p =
    let n = length ice.local * 10 in
    add_interfaces-HasLocals ips port (add_local_candidate ice ip port (host_priority n))
      (add_local_candidate-HasLocals ice ip port (host_priority n) h f p (host_priority-fits n)) fs
      p

loopback-Field : Field 64 (codes "127.0.0.1")
loopback-Field = record { is_word = omega arith; there = omega arith; fits = omega arith }

add_loopback-HasLocals :
    (port : ℕ) (ice : Session)
    → HasLocals ice.local
    → port < 2 ^ 16
    → HasLocals (add_loopback port ice).local
unfolding add_loopback
add_loopback-HasLocals port ice h p = elim (Bool-cases (length ice.local == 0)) [
  | inl t ↦ rw t (
      add_local_candidate-HasLocals ice (codes "127.0.0.1") port (host_priority 0) h loopback-Field
        p (host_priority-fits 0))
  | inr t ↦ rw t h
]

-- The port of a socket.
abbrev pub PortFits : Option ℕ → Type 0
PortFits none = Unit
PortFits (some port) = port < 2 ^ 16

gathered_loop-HasLocals :
    (ips : List (List ℕ)) (port : ℕ)
    → All (Field 64) ips
    → port < 2 ^ 16
    → HasLocals
        (add_loopback port (add_interfaces ips port (record session_create { state = 1 }))).local
gathered_loop-HasLocals ips port f p =
    let begun : Session = record session_create { state = 1 } in
    let empty : HasLocals [] = record { few = omega arith; all_gathered = tt } in
    add_loopback-HasLocals port (add_interfaces ips port begun)
      (add_interfaces-HasLocals ips port begun (unfold session_create in empty) f p) p

start_gathering-HasLocals :
    (ips : List (List ℕ)) (request : Option (List ℕ)) (port : Option ℕ)
    → All (Field 64) ips
    → PortFits port
    → HasLocals (start_gathering ips request port session_create).1.local
unfolding start_gathering gathered session_create
start_gathering-HasLocals ips request none f p = record { few = omega arith; all_gathered = tt }
start_gathering-HasLocals ips none (some port) f p = gathered_loop-HasLocals ips port f p
start_gathering-HasLocals ips (some id) (some port) f p = gathered_loop-HasLocals ips port f p

add_remote-local : (ice : Session) (c : SdpCandidate) → (add_remote ice c).1.local ≡ ice.local
unfolding add_remote add_remote_candidate
add_remote-local ice c = elim (Bool-cases (leb max_candidates (length ice.remote))) [
  | inl t ↦ rw t refl
  | inr t ↦ elim (Bool-cases (not (same_text_ignoring_case c.protocol (codes "udp")))) [
    | inl u ↦ rw (t, u) refl
    | inr u ↦ rw (t, u) refl
  ]
]

add_all_remote-local :
    (ice : Session) (cs : List SdpCandidate) → (add_all_remote ice cs).local ≡ ice.local
unfolding add_all_remote
add_all_remote-local ice [] = refl
add_all_remote-local ice (c ∷ cs) =
    add_all_remote-local (add_remote ice c).1 cs ∙ add_remote-local ice c

has_char_same : (c : ℕ) (t : List ℕ) → Ice.has_char c t ≡ has_char c t
unfolding has_char
has_char_same c [] = refl
has_char_same c (d ∷ ds) = ap (λ b. (d == c) || b) (has_char_same c ds)

candidate_to_sdp-IsCandidate : (c : Candidate) → IsGathered c → IsCandidate (candidate_to_sdp c)
unfolding candidate_to_sdp
candidate_to_sdp-IsCandidate c h = record {
  foundation_fits = record { is_word = omega arith; there = omega arith; fits = omega arith };
  protocol_fits = record { is_word = omega arith; there = omega arith; fits = omega arith };
  priority_fits = h.priority_fits;
  ip_fits = h.ip_fits;
  port_fits = h.port_fits;
  type_fits =
      let is_field : Field 32 (codes "host") = record {
        is_word = omega arith;
        there = omega arith;
        fits = omega arith;
      } in
      subst (λ type. Field 32 (type_text type)) (sym h.is_host) (unfold type_text in is_field);
  same_version = h.same_version ∙ has_char_same b':' c.ip;
}

pub new_ice-HasLocals :
    (env : Environment) (remote : SdpSession)
    → All (Field 64) env.interfaces
    → PortFits env.port
    → HasLocals (new_ice env remote).local
unfolding new_ice
new_ice-HasLocals env remote f p =
    let begun = (start_gathering env.interfaces env.stun_request env.port session_create).1 in
    subst HasLocals (sym (add_all_remote-local begun remote.candidates))
      (start_gathering-HasLocals env.interfaces env.stun_request env.port f p)

pub sent_candidates :
    (cs : List Candidate) → All IsGathered cs → All IsCandidate (map candidate_to_sdp cs)
sent_candidates [] h = tt
sent_candidates (c ∷ cs) (h, hs) = (candidate_to_sdp-IsCandidate c h, sent_candidates cs hs)
