-- ===== src/Ice/Quiet.antt =====
-- The steps of src/ice/ice.c that leave the choice of a pair alone: all but `select`.
use tinyrtc.Prelude.{
  ℕ, zero, suc, ◌≡◌, refl, sym, ap, ◌∙◌, Bool, true, false, inl, inr, List, [], ◌∷◌, map, length,
  get_elem?, Option, none, some, Bool-cases, leb, ltb, if◌then◌else◌, ◌&&◌, ◌==◌, Outcome, done,
  refused, fault, >>=-elim, read16, read32,
}
use tinyrtc.Stun.{magic_cookie, binding_request, binding_response, process_response}
use tinyrtc.Ice.{
  Candidate, Pair, Session, add_local_candidate, add_check_pairs_for_local_candidate,
  add_remote_candidate, new_pair, max_candidates, known, same_bytes,
}
use tinyrtc.Ice.Arrivals.{
  mark_source, handle_response, add_reflexive, transaction_id, add_mapped, process_packet,
}
use tinyrtc.Ice.Checks.{is_connected}
use tinyrtc.Ice.Pairs.{
  Extends, Extends-refl, Extends-trans, Extends-pair_loop, Extends-mark_source,
  Extends-mark_transaction,
}

-- A step that extends the pairs and leaves the choice as it was.
pub record Quiet (a b : Session) : Type 0 where
  pub extends : Extends a.check_pairs b.check_pairs
  pub same : b.selected_pair ≡ a.selected_pair

pub Quiet-refl : (a : Session) → Quiet a a
Quiet-refl a = record { extends = Extends-refl a.check_pairs; same = refl }

pub Quiet-same : (a b : Session) → a ≡ b → Quiet a b
Quiet-same a b e = record {
  extends = rw e (Extends-refl b.check_pairs);
  same = ap (λ (s : Session). s.selected_pair) (sym e);
}

pub Quiet-trans : (a b c : Session) → Quiet a b → Quiet b c → Quiet a c
Quiet-trans a b c h k = record {
  extends = Extends-trans a.check_pairs b.check_pairs c.check_pairs h.extends k.extends;
  same = k.same ∙ h.same;
}

pub Quiet-if :
    (a : Session) (c : Bool) (x y : Session) → Quiet a x → Quiet a y → Quiet a (if c then x else y)
Quiet-if a true x y h k = h
Quiet-if a false x y h k = k

-- New pairs in place of the old ones.
pub with_pairs :
    (a b : Session)
    → Extends a.check_pairs b.check_pairs
    → b.selected_pair ≡ a.selected_pair
    → Quiet a b
with_pairs a b h e = record { extends = h; same = e }

done_same :
    (x : Bool) (a : Session) (y : Bool) (b : Session)
    → ◌≡◌ {A = Outcome (Bool × Session)} (done (x, a)) (done (y, b))
    → a ≡ b
done_same x a y b e = ap (session_of a) e
  where
    session_of : Session → Outcome (Bool × Session) → Session
    session_of d (done (z, c)) = c
    session_of d refused = d
    session_of d fault = d

-- Where the pairs are extended, a pair that succeeded is still there.
pub still_succeeded :
    (i : ℕ) (ps qs : List Pair)
    → Extends ps qs
    → (p : Pair) → get_elem? ps i ≡ some p
    → p.succeeded ≡ true
    → (q : Pair) × (get_elem? qs i ≡ some q) × (q.succeeded ≡ true)
still_succeeded i [] qs h p e s = absurd (cc)
still_succeeded i (x ∷ ps) [] h p e s = absurd h
still_succeeded zero (x ∷ ps) (y ∷ qs) ((a, b, c), k) p e s =
    let same : x ≡ p = cc in (y, refl, c (ap (λ (z : Pair). z.succeeded) same ∙ s))
still_succeeded (suc i) (x ∷ ps) (y ∷ qs) (h, k) p e s = still_succeeded i ps qs k p e s

pub Quiet-add_local_candidate :
    (ice : Session) (ip : List ℕ) (port priority : ℕ)
    → Quiet ice (add_local_candidate ice ip port priority)
unfolding add_local_candidate
Quiet-add_local_candidate ice ip port priority =
    elim (Bool-cases (leb max_candidates (length ice.local))) [
      | inl t ↦ rw t (Quiet-refl ice)
      | inr t ↦ elim (Bool-cases (known ice.local ip port)) [
        | inl u ↦ rw (t, u) (Quiet-refl ice)
        | inr u ↦ rw (t, u) (with_pairs ice _ (Extends-refl ice.check_pairs) refl)
      ]
    ]

pub Quiet-add_check_pairs :
    (ice : Session) (local : ℕ) → Quiet ice (add_check_pairs_for_local_candidate ice local)
unfolding add_check_pairs_for_local_candidate
Quiet-add_check_pairs ice local =
    with_pairs ice _ (Extends-pair_loop (new_pair local) (length ice.remote) 0 ice.check_pairs) refl

pub Quiet-add_remote_candidate :
    (ice : Session) (udp : Bool) (c : Candidate) → Quiet ice (add_remote_candidate ice udp c).1
unfolding add_remote_candidate
Quiet-add_remote_candidate ice udp c = elim (Bool-cases (leb max_candidates (length ice.remote))) [
  | inl t ↦ rw t (Quiet-refl ice)
  | inr t ↦ elim (Bool-cases udp) [
    | inl u ↦
        rw (t, u)
          (with_pairs ice _
            (Extends-pair_loop (λ i. new_pair i (length ice.remote)) (length ice.local) 0
              ice.check_pairs)
            refl)
    | inr u ↦ rw (t, u) (Quiet-refl ice)
  ]
]

pub Quiet-handle_response : (ice : Session) (id : List ℕ) → Quiet ice (handle_response ice id)
unfolding handle_response
Quiet-handle_response ice id =
    elim (Bool-cases (ice.server_transaction_id_valid && same_bytes id ice.server_transaction_id)) [
      | inl t ↦ rw t (Quiet-refl ice)
      | inr t ↦ rw t (with_pairs ice _ (Extends-mark_transaction id ice.check_pairs) refl)
    ]

pub Quiet-add_reflexive :
    (ice : Session) (ip : List ℕ) (port : ℕ) → Quiet ice (add_reflexive ice ip port)
unfolding add_reflexive add_check_pairs_for_local_candidate
Quiet-add_reflexive ice ip port = elim (Bool-cases (leb max_candidates (length ice.local))) [
  | inl t ↦ rw t (Quiet-refl ice)
  | inr t ↦ rw t (
      with_pairs ice _
        (Extends-pair_loop (new_pair (length ice.local)) (length ice.remote) 0 ice.check_pairs)
        refl)
]

module _ (text : ℕ → List ℕ) where
  pub Quiet-add_mapped :
      (a ice : Session) (o : Outcome (ℕ × ℕ)) (media : Bool) (b : Session)
      → Quiet a ice
      → add_mapped text ice o ≡ done (media, b)
      → Quiet a b
  unfolding add_mapped
  Quiet-add_mapped a ice refused media b h e = rw (done_same false ice media b e) at h
  Quiet-add_mapped a ice fault media b h e = absurd (cc)
  Quiet-add_mapped a ice (done (port, addr)) media b h e =
      elim (Bool-cases (length (text addr) == 0)) [
        | inl t ↦ let f = rw t at e in rw (done_same false ice media b f) at h
        | inr t ↦
            let f = rw t at e in
            rw (done_same false (add_reflexive ice (text addr) port) media b f) at (
              Quiet-trans a ice (add_reflexive ice (text addr) port) h
                (Quiet-add_reflexive ice (text addr) port))
      ]

  pub Quiet-process_packet :
      (ice : Session) (d : List ℕ) (source : Option (List ℕ × ℕ)) (media : Bool) (b : Session)
      → process_packet text ice d source ≡ done (media, b)
      → Quiet ice b
  unfolding process_packet
  Quiet-process_packet ice d source media b e = elim (Bool-cases (ltb (length d) 8)) [
    | inl t ↦ let f = rw (process_packet, t) at e in Quiet-same ice b (done_same true ice media b f)
    | inr t ↦
        let f = rw (process_packet, t) at e in
        >>=-elim (read32 d 4) _ f λ magic _ g. elim (Bool-cases (magic == magic_cookie)) [
          | inr u ↦ let k = rw u at g in Quiet-same ice b (done_same true ice media b k)
          | inl u ↦
              let k = rw u at g in
              >>=-elim (read16 d 0) _ k λ msg_type _ l.
                elim (Bool-cases (msg_type == binding_request)) [
                  | inl v ↦
                      let m = rw v at l in
                      >>=-elim (transaction_id d) _ m λ id _ n. requested source n
                  | inr v ↦
                      let m = rw v at l in
                      elim (Bool-cases (msg_type == binding_response)) [
                        | inl w ↦
                            let n = rw w at m in
                            >>=-elim (transaction_id d) _ n λ id _ o.
                              Quiet-add_mapped ice (handle_response ice id) (process_response d)
                                media b (Quiet-handle_response ice id) o
                        | inr w ↦
                            Quiet-add_mapped ice ice (process_response d) media b (Quiet-refl ice)
                              (rw w at m)
                      ]
                ]
        ]
  ]
    where
      requested :
          (source : Option (List ℕ × ℕ))
          → ◌≡◌ {A = Outcome (Bool × Session)}
              (done (
                false,
                elim source [
                  | none ↦ ice
                  | some (ip, port) ↦ record ice {
                    check_pairs = map (mark_source ice.remote ip port) ice.check_pairs;
                  }
                ],
              ))
              (done (media, b))
          → Quiet ice b
      requested none n = Quiet-same ice b (done_same false ice media b n)
      requested (some (ip, port)) n =
          let marked = record ice {
            check_pairs = map (mark_source ice.remote ip port) ice.check_pairs;
          } in
          Quiet-trans ice marked b
            (with_pairs ice marked (Extends-mark_source ice.remote ip port ice.check_pairs) refl)
            (Quiet-same marked b (done_same false marked media b n))

  pub connected-Quiet : (a b : Session) → Quiet a b → is_connected a ≡ true → is_connected b ≡ true
  unfolding is_connected
  connected-Quiet a b q e = go a.selected_pair refl
    where
      at_index :
          (i : ℕ) (o : Option Pair)
          → a.selected_pair ≡ some i
          → get_elem? a.check_pairs i ≡ o
          → is_connected b ≡ true
      at_index i none s g = absurd (let f = rw (is_connected, s, g) at e in cc)
      at_index i (some p) s g =
          let f = rw (is_connected, s, g) at e in
          let (r, h, k) = still_succeeded i a.check_pairs b.check_pairs q.extends p g f in
          rw (is_connected, q.same, s, h) k

      go : (o : Option ℕ) → a.selected_pair ≡ o → is_connected b ≡ true
      go none s = absurd (let f = rw (is_connected, s) at e in cc)
      go (some i) s = at_index i (get_elem? a.check_pairs i) s refl
