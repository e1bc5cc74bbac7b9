-- ===== src/Ice/Progress.antt =====
-- How a session of src/ice/ice.c comes to its connection.
use tinyrtc.Prelude.{
  ℕ, suc, zero, ◌≤◌, ◌≡◌, refl, ap, ◌∙◌, true, false, inl, inr, List, [], ◌∷◌, arith, get_elem?,
  none, some, Bool-cases, ltb, if-false,
}
use tinyrtc.Ice.{Pair, Session}
use tinyrtc.Ice.Checks.{
  start_checking, ping_loop, first_succeeded, choose, select_from, select, check_connectivity,
  is_connected,
}
use tinyrtc.Ice.Pairs.{Extends-ping_loop}
use tinyrtc.Ice.Quiet.{still_succeeded, Quiet, Quiet-trans, with_pairs}
use tinyrtc.Ice.Invariant.{
  Settled, Settled-Quiet, Quiet-start_checking, select-connected, first_succeeded_lem,
}

-- A pair at some index of the list succeeded.
pub record HasSuccess (ps : List Pair) : Type 0 where
  pub index : ℕ
  pub pair : Pair
  pub stands : get_elem? ps index ≡ some pair
  pub success : pair.succeeded ≡ true

first_succeeded-none :
    (ps : List Pair) (i j : ℕ) (p : Pair)
    → get_elem? ps j ≡ some p
    → p.succeeded ≡ true
    → first_succeeded i ps ≡ none
    → ⊥
unfolding first_succeeded
first_succeeded-none [] i j p at s e = cc
first_succeeded-none (x ∷ ps) i zero p at s e =
    let same : x ≡ p = cc in
    let t : x.succeeded ≡ true = ap (λ (z : Pair). z.succeeded) same ∙ s in let f = rw t at e in cc
first_succeeded-none (x ∷ ps) i (suc j) p at s e = elim (Bool-cases x.succeeded) [
  | inl t ↦ let f = rw t at e in cc
  | inr t ↦
      let rest : first_succeeded (suc i) ps ≡ none = rw t at e in
      first_succeeded-none ps (suc i) j p at s rest
]

select-HasSuccess :
    (ice : Session) → Settled ice → HasSuccess ice.check_pairs → is_connected (select ice) ≡ true
unfolding select select_from choose is_connected
select-HasSuccess ice (inr c) h = rw (select-connected ice c) c
select-HasSuccess ice (inl n) h = elim (first_succeeded_lem ice.check_pairs 0) [
  | inl none_there ↦
      absurd (first_succeeded-none ice.check_pairs 0 h.index h.pair h.stands h.success none_there)
  | inr (j, p, e, g, t) ↦
      let z : first_succeeded 0 ice.check_pairs ≡ some j = e ∙ ap some (omega arith) in
      rw (n, z) (rw (is_connected, g) t)
]

-- Once gathering is over, a session in which some check succeeded is connected after the next
-- call of `ice_check_connectivity`, whatever its clock shows.
pub check_connectivity-HasSuccess :
    (now : ℕ) (clock : ℕ → ℕ) (ice : Session)
    → 2 ≤ ice.state
    → Settled ice
    → HasSuccess ice.check_pairs
    → is_connected (check_connectivity now clock ice) ≡ true
unfolding check_connectivity start_checking
check_connectivity-HasSuccess now clock ice begun settled h =
    let started = start_checking ice in
    let checking : ltb (start_checking ice).state 3 ≡ false = ground arith in
    let pinged = record started { check_pairs = ping_loop now clock 0 started.check_pairs } in
    let quiet : Quiet ice pinged =
      Quiet-trans ice started pinged (Quiet-start_checking ice)
        (with_pairs started pinged (Extends-ping_loop now clock 0 started.check_pairs) refl) in
    let (p, there, good) =
      still_succeeded h.index ice.check_pairs pinged.check_pairs quiet.extends h.pair h.stands
        h.success in
    ap is_connected (if-false _ started (select pinged) checking)
    ∙ select-HasSuccess pinged (Settled-Quiet (λ _. []) ice pinged quiet settled)
        (record { index = h.index; pair = p; stands = there; success = good })
