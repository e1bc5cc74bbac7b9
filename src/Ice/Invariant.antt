-- ===== src/Ice/Invariant.antt =====
-- The session of src/ice/ice.c over every sequence of its calls.
use tinyrtc.Prelude.{
  ℕ, suc, ◌+◌, ◌≡◌, refl, ap, ◌∙◌, ◌⊎◌, Bool, true, inl, inr, List, [], ◌∷◌, arith, get_elem?,
  Option, none, some, Bool-cases, ltb, ◌==◌, done,
}
use tinyrtc.Ice.{
  Candidate, Pair, Session, session_create, gathered, add_local_candidate, add_remote_candidate,
}
use tinyrtc.Ice.Arrivals.{process_packet}
use tinyrtc.Ice.Checks.{
  start_checking, ping_loop, first_succeeded, choose, select_from, select, check_connectivity,
  is_connected,
}
use tinyrtc.Ice.Pairs.{Extends-refl, Extends-ping_loop}
use tinyrtc.Ice.Quiet.{
  Quiet, Quiet-add_local_candidate, Quiet-add_remote_candidate, Quiet-process_packet, Quiet-refl,
  Quiet-trans, connected-Quiet, with_pairs,
}

module _ (text : ℕ → List ℕ) where
  -- One call of an operation on the session.
  pub data Step : Session → Session → Type 0 where
    gathering_ends : (ice : Session) (id : Option (List ℕ)) → Step ice (gathered ice id)
    local_added :
        (ice : Session) (ip : List ℕ) (port priority : ℕ)
        → Step ice (add_local_candidate ice ip port priority)
    remote_added :
        (ice : Session) (udp : Bool) (candidate : Candidate)
        → Step ice (add_remote_candidate ice udp candidate).1
    received :
        (ice next : Session) (d : List ℕ) (source : Option (List ℕ × ℕ)) (media : Bool)
        → process_packet text ice d source ≡ done (media, next)
        → Step ice next
    checked :
        (ice : Session) (now : ℕ) (clock : ℕ → ℕ) → Step ice (check_connectivity now clock ice)

  -- The sessions that any sequence of calls reaches from a new one.
  pub data Reachable : Session → Type 0 where
    start : Reachable session_create
    step : (ice next : Session) → Reachable ice → Step ice next → Reachable next

pub first_succeeded_lem :
    (ps : List Pair) (i : ℕ)
    → (first_succeeded i ps ≡ none)
      ⊎ ((j : ℕ) × (p : Pair) × (first_succeeded i ps ≡ some (i + j))
          × (get_elem? ps j ≡ some p)
          × (p.succeeded ≡ true))
unfolding first_succeeded
first_succeeded_lem [] i = inl refl
first_succeeded_lem (p ∷ ps) i = elim (Bool-cases p.succeeded) [
  | inl t ↦ let z : i ≡ i + 0 = omega arith in inr (0, p, rw t (ap some z), refl, t)
  | inr t ↦ elim (first_succeeded_lem ps (suc i)) [
    | inl n ↦ inl (rw t n)
    | inr (j, q, e, g, s) ↦
        let z : suc i + j ≡ i + suc j = omega arith in inr (suc j, q, rw t (e ∙ ap some z), g, s)
  ]
]

-- Either no pair is chosen, or the chosen pair succeeded.
abbrev pub Settled : Session → Type 0
Settled ice = (ice.selected_pair ≡ none) ⊎ (is_connected ice ≡ true)

choose-Settled :
    (ice : Session) → Settled ice → Settled (choose ice (first_succeeded 0 ice.check_pairs))
unfolding choose is_connected
choose-Settled ice h = elim (first_succeeded_lem ice.check_pairs 0) [
  | inl n ↦ rw n h
  | inr (j, p, e, g, t) ↦
      let z : first_succeeded 0 ice.check_pairs ≡ some j = e ∙ ap some (omega arith) in
      rw z (inr (rw (is_connected, g) t))
]

select_from-Settled : (ice : Session) (o : Option ℕ) → Settled ice → Settled (select_from ice o)
unfolding select_from
select_from-Settled ice (some i) h = h
select_from-Settled ice none h = choose-Settled ice h

pub Settled-Quiet : (text : ℕ → List ℕ) (a b : Session) → Quiet a b → Settled a → Settled b
Settled-Quiet text a b q (inl n) = inl (q.same ∙ n)
Settled-Quiet text a b q (inr c) = inr (connected-Quiet text a b q c)

-- A connected session has a choice, and choosing leaves it alone.
pub select-connected : (ice : Session) → is_connected ice ≡ true → select ice ≡ ice
unfolding select select_from is_connected
select-connected ice c = go ice.selected_pair refl
  where
    go : (o : Option ℕ) → ice.selected_pair ≡ o → select_from ice ice.selected_pair ≡ ice
    go none s = absurd (let f = rw (is_connected, s) at c in cc)
    go (some i) s = ap (select_from ice) s

pub Quiet-start_checking : (ice : Session) → Quiet ice (start_checking ice)
unfolding start_checking
Quiet-start_checking ice = elim (Bool-cases (ice.state == 2)) [
  | inl t ↦ rw t (with_pairs ice _ (Extends-refl ice.check_pairs) refl)
  | inr t ↦ rw t (Quiet-refl ice)
]

-- The checks in two parts: what leaves the choice alone, and the choice.
check_connectivity-select :
    (now : ℕ) (clock : ℕ → ℕ) (ice : Session)
    → (mid : Session) × Quiet ice mid
      × ((check_connectivity now clock ice ≡ mid) ⊎ (check_connectivity now clock ice ≡ select mid))
unfolding check_connectivity
check_connectivity-select now clock ice =
    let started = start_checking ice in
    let q = Quiet-start_checking ice in
    elim (Bool-cases (ltb started.state 3)) [
      | inl t ↦ (started, q, inl (rw t))
      | inr t ↦
          let pinged = record started { check_pairs = ping_loop now clock 0 started.check_pairs } in
          (
            pinged,
            Quiet-trans ice started pinged q (
                with_pairs started pinged (Extends-ping_loop now clock 0 started.check_pairs) refl),
            inr (rw t),
          )
    ]

module _ (text : ℕ → List ℕ) where
  Step-Settled : (a b : Session) → Step text a b → Settled a → Settled b
  unfolding gathered
  Step-Settled a _ (gathering_ends _ none) h =
      Settled-Quiet text a _ (with_pairs a _ (Extends-refl a.check_pairs) refl) h
  Step-Settled a _ (gathering_ends _ (some id)) h =
      Settled-Quiet text a _ (with_pairs a _ (Extends-refl a.check_pairs) refl) h
  Step-Settled a _ (local_added _ ip port priority) h =
      Settled-Quiet text a _ (Quiet-add_local_candidate a ip port priority) h
  Step-Settled a _ (remote_added _ udp c) h =
      Settled-Quiet text a _ (Quiet-add_remote_candidate a udp c) h
  Step-Settled a b (received _ _ d source media e) h =
      Settled-Quiet text a b (Quiet-process_packet text a d source media b e) h
  Step-Settled a _ (checked _ now clock) h =
      let (mid, q, o) = check_connectivity-select now clock a in
      let m = Settled-Quiet text a mid q h in
      elim o [
        | inl e ↦ rw e m
        | inr e ↦ rw e (unfold select in select_from-Settled mid mid.selected_pair m)
      ]

  -- After any sequence of calls either no pair is chosen, or the session is connected: the chosen
  -- pair is there and succeeded.
  pub Reachable-Settled : (ice : Session) → Reachable text ice → Settled ice
  unfolding session_create
  Reachable-Settled _ start = inl refl
  Reachable-Settled b (step a _ r s) = Step-Settled a b s (Reachable-Settled a r)

  -- No call makes a connected session lose its connection or change its pair.
  pub Step-connected :
      (a b : Session)
      → Step text a b
      → is_connected a ≡ true
      → (is_connected b ≡ true) × (b.selected_pair ≡ a.selected_pair)
  unfolding gathered
  Step-connected a b s c = go b s
    where
      quietly :
          (b : Session) → Quiet a b → (is_connected b ≡ true) × (b.selected_pair ≡ a.selected_pair)
      quietly b q = (connected-Quiet text a b q c, q.same)

      go :
          (b : Session)
          → Step text a b
          → (is_connected b ≡ true) × (b.selected_pair ≡ a.selected_pair)
      go _ (gathering_ends _ none) = quietly _ (with_pairs a _ (Extends-refl a.check_pairs) refl)
      go _ (gathering_ends _ (some id)) =
          quietly _ (with_pairs a _ (Extends-refl a.check_pairs) refl)
      go _ (local_added _ ip port priority) =
          quietly _ (Quiet-add_local_candidate a ip port priority)
      go _ (remote_added _ udp candidate) = quietly _ (Quiet-add_remote_candidate a udp candidate)
      go b (received _ _ d source media e) =
          quietly b (Quiet-process_packet text a d source media b e)
      go _ (checked _ now clock) =
          let (mid, q, o) = check_connectivity-select now clock a in
          let (k, same) = quietly mid q in
          elim o [ inl e ↦ rw e (k, same) | inr e ↦ rw (e, select-connected mid k) (k, same) ]
