-- ===== src/Ice/Pairs.antt =====
-- What the loops of src/ice/ice.c do to the check pairs.
use tinyrtc.Prelude.{
  ℕ, zero, suc, ◌*◌, ◌≡◌, refl, Bool, true, false, inl, inr, List, [], ◌∷◌, ◌++◌, map, length,
  get_elem?, Option, none, some, Bool-cases, leb, if◌then◌else◌, ◌&&◌, ◌==◌,
}
use tinyrtc.Ice.{Candidate, Pair, pair_loop, max_candidates, same_bytes}
use tinyrtc.Ice.Arrivals.{mark_source, mark_transaction}
use tinyrtc.Ice.Checks.{ping, ping_loop}

-- A pair after a step: between the same candidates, and still successful if it was.
abbrev pub Follows : Pair → Pair → Type 0
Follows p q =
    (q.local ≡ p.local) × (q.remote ≡ p.remote) × (p.succeeded ≡ true → q.succeeded ≡ true)

-- Every pair is followed by that at its index, and there may be new ones behind them.
abbrev pub Extends : List Pair → List Pair → Type 0
Extends [] qs = Unit
Extends (p ∷ ps) [] = ⊥
Extends (p ∷ ps) (q ∷ qs) = Follows p q × Extends ps qs

Follows-refl : (p : Pair) → Follows p p
Follows-refl p = (refl, refl, λ h. h)

pub Extends-refl : (ps : List Pair) → Extends ps ps
Extends-refl [] = tt
Extends-refl (p ∷ ps) = (Follows-refl p, Extends-refl ps)

pub Extends-append : (ps qs : List Pair) → Extends ps (ps ++ qs)
Extends-append [] qs = tt
Extends-append (p ∷ ps) qs = (Follows-refl p, Extends-append ps qs)

pub Extends-trans : (ps qs rs : List Pair) → Extends ps qs → Extends qs rs → Extends ps rs
Extends-trans [] qs rs h k = tt
Extends-trans (p ∷ ps) [] rs h k = absurd h
Extends-trans (p ∷ ps) (q ∷ qs) [] h k = absurd k
Extends-trans (p ∷ ps) (q ∷ qs) (r ∷ rs) ((a, b, c), h) ((d, e, f), k) =
    ((cc, cc, λ t. f (c t)), Extends-trans ps qs rs h k)

pub Extends-pair_loop :
    (make : ℕ → Pair) (n i : ℕ) (pairs : List Pair) → Extends pairs (pair_loop make n i pairs)
unfolding pair_loop
Extends-pair_loop make zero i pairs = Extends-refl pairs
Extends-pair_loop make (suc n) i pairs =
    elim (Bool-cases (leb (max_candidates * max_candidates) (length pairs))) [
      | inl full ↦ rw full (Extends-refl pairs)
      | inr room ↦ rw room (
          Extends-trans pairs (pairs ++ (make i ∷ []))
            (pair_loop make n (suc i) (pairs ++ (make i ∷ []))) (Extends-append pairs (make i ∷ []))
            (Extends-pair_loop make n (suc i) (pairs ++ (make i ∷ []))))
    ]

Follows-mark_source :
    (remote : List Candidate) (ip : List ℕ) (port : ℕ) (p : Pair)
    → Follows p (mark_source remote ip port p)
unfolding mark_source
Follows-mark_source remote ip port p = go (get_elem? remote p.remote) refl
  where
    go :
        (o : Option Candidate)
        → get_elem? remote p.remote ≡ o
        → Follows p (mark_source remote ip port p)
    go none e = rw (mark_source, e) (Follows-refl p)
    go (some c) e = elim (Bool-cases ((c.port == port) && same_bytes c.ip ip)) [
      | inl t ↦ rw (mark_source, e, t) (refl, refl, λ h. refl)
      | inr t ↦ rw (mark_source, e, t) (Follows-refl p)
    ]

pub Extends-mark_source :
    (remote : List Candidate) (ip : List ℕ) (port : ℕ) (ps : List Pair)
    → Extends ps (map (mark_source remote ip port) ps)
Extends-mark_source remote ip port [] = tt
Extends-mark_source remote ip port (p ∷ ps) =
    (Follows-mark_source remote ip port p, Extends-mark_source remote ip port ps)

pub Extends-mark_transaction : (id : List ℕ) (ps : List Pair) → Extends ps (mark_transaction id ps)
unfolding mark_transaction
Extends-mark_transaction id [] = tt
Extends-mark_transaction id (p ∷ ps) =
    elim (Bool-cases (p.last_transaction_id_valid && same_bytes id p.last_transaction_id)) [
      | inl t ↦ rw t ((refl, refl, λ h. refl), Extends-refl ps)
      | inr t ↦ rw t (Follows-refl p, Extends-mark_transaction id ps)
    ]

Follows-if : (c : Bool) (p q : Pair) → Follows p q → Follows p (if c then q else p)
Follows-if true p q h = h
Follows-if false p q h = Follows-refl p

Follows-ping : (now now_stun : ℕ) (p : Pair) → Follows p (ping now now_stun p)
unfolding ping
Follows-ping now now_stun p = Follows-if _ p _ (refl, refl, λ h. h)

pub Extends-ping_loop :
    (now : ℕ) (clock : ℕ → ℕ) (i : ℕ) (ps : List Pair) → Extends ps (ping_loop now clock i ps)
unfolding ping_loop
Extends-ping_loop now clock i [] = tt
Extends-ping_loop now clock i (p ∷ ps) =
    (Follows-ping now (clock i) p, Extends-ping_loop now clock (suc i) ps)
