-- ===== src/Jitter/Shift.antt =====
-- The two shifting loops of the jitter buffer of src/media/rtp.c, and its search, as operations on
-- the list of the packets in use.
use tinyrtc.Prelude.{
  ℕ, zero, suc, ◌+◌, ◌≤◌, ◌<◌, ◌≡◌, refl, sym, ap, ◌∙◌, inl, inr, List, [], ◌∷◌, ◌++◌, arith,
  if◌then◌else◌, length, get_or, set, take, drop, length-set, length-take, take-append, Bool-cases,
  append_assoc,
}
use tinyrtc.Jitter.{Slot, empty_slot, shift_left, shift_right, precedes, find_pos}

shift_left-cons :
    (n j : ℕ) (x : Slot) (xs : List Slot) → shift_left n (suc j) (x ∷ xs) ≡ x ∷ shift_left n j xs
unfolding shift_left
shift_left-cons zero j x xs = refl
shift_left-cons (suc n) j x xs =
    shift_left-cons n (suc j) x (set xs j (get_or xs (suc j) empty_slot))

-- Shifting `n` slots left drops the first.
pub take-shift_left :
    (n : ℕ) (x : Slot) (xs : List Slot)
    → n ≤ length xs
    → take n (shift_left n 0 (x ∷ xs)) ≡ take n xs
unfolding shift_left
take-shift_left zero x xs h = refl
take-shift_left (suc n) x [] h = absurd (omega arith)
take-shift_left (suc n) x (y ∷ ys) h =
    rw (shift_left-cons n 0 y (y ∷ ys)) (ap (λ r. y ∷ r) (take-shift_left n y ys (omega arith)))

pub length-shift_left : (n j : ℕ) (xs : List Slot) → length (shift_left n j xs) ≡ length xs
unfolding shift_left
length-shift_left zero j xs = refl
length-shift_left (suc n) j xs = length-shift_left n (suc j) _ ∙ length-set xs j _

pub length-shift_right : (n pos : ℕ) (xs : List Slot) → length (shift_right n pos xs) ≡ length xs
unfolding shift_right
length-shift_right zero pos xs = refl
length-shift_right (suc n) pos xs = length-shift_right n pos _ ∙ length-set xs (suc (pos + n)) _

shift_right-cons :
    (n pos : ℕ) (x : Slot) (xs : List Slot)
    → shift_right n (suc pos) (x ∷ xs) ≡ x ∷ shift_right n pos xs
unfolding shift_right
shift_right-cons zero pos x xs = refl
shift_right-cons (suc n) pos x xs =
    let e : suc pos + n ≡ suc (pos + n) = omega arith in rw e (shift_right-cons n pos x _)

take-set_ge : (n i : ℕ) (xs : List Slot) (v : Slot) → n ≤ i → take n (set xs i v) ≡ take n xs
take-set_ge zero i xs v h = refl
take-set_ge (suc n) i [] v h = refl
take-set_ge (suc n) zero (x ∷ xs) v h = absurd (omega arith)
take-set_ge (suc n) (suc i) (x ∷ xs) v h = ap (λ r. x ∷ r) (take-set_ge n i xs v (omega arith))

drop-set :
    (n : ℕ) (xs : List Slot) (v : Slot) → n < length xs → drop n (set xs n v) ≡ v ∷ drop (suc n) xs
drop-set n [] v h = absurd (omega arith)
drop-set zero (x ∷ xs) v h = refl
drop-set (suc n) (x ∷ xs) v h = drop-set n xs v (omega arith)

take-suc :
    (n : ℕ) (xs : List Slot)
    → n < length xs
    → take (suc n) xs ≡ take n xs ++ (get_or xs n empty_slot ∷ [])
take-suc n [] h = absurd (omega arith)
take-suc zero (x ∷ xs) h = refl
take-suc (suc n) (x ∷ xs) h = ap (λ r. x ∷ r) (take-suc n xs (omega arith))

-- Shifting `n` slots right doubles the first.
shift_right-front :
    (n : ℕ) (x : Slot) (xs : List Slot)
    → n ≤ length xs
    → shift_right n 0 (x ∷ xs) ≡ x ∷ (take n (x ∷ xs) ++ drop n xs)
unfolding shift_right
shift_right-front zero x xs h = refl
shift_right-front (suc n) x xs h =
    let v = get_or (x ∷ xs) n empty_slot in
    let e : 0 + n ≡ n = omega arith in
    let front : take n (x ∷ set xs n v) ≡ take n (x ∷ xs) =
      take-set_ge n (suc n) (x ∷ xs) v (omega arith) in
    let back : drop n (set xs n v) ≡ v ∷ drop (suc n) xs = drop-set n xs v h in
    let whole : take (suc n) (x ∷ xs) ≡ take n (x ∷ xs) ++ (v ∷ []) =
      take-suc n (x ∷ xs) (omega arith) in
    rw e (
      shift_right-front n x (set xs n v) (omega (arith, length-set xs n v))
      ∙ ap (λ r. x ∷ r)
          (ap (λ r. r ++ drop n (set xs n v)) front
            ∙ ap (λ r. take n (x ∷ xs) ++ r) back
            ∙ sym (append_assoc (take n (x ∷ xs)) (v ∷ []) (drop (suc n) xs))
            ∙ ap (λ r. r ++ drop (suc n) xs) (sym whole)))

-- Opening a gap at `pos` among `pos + n` packets and storing there inserts a packet.
pub take-set-shift_right :
    (pos n : ℕ) (slots : List Slot) (v : Slot)
    → pos + n < length slots
    → take (suc (pos + n)) (set (shift_right n pos slots) pos v)
      ≡ take pos slots ++ (v ∷ take n (drop pos slots))
take-set-shift_right zero n [] v h = absurd (omega arith)
take-set-shift_right (suc pos) n [] v h = absurd (omega arith)
take-set-shift_right zero n (x ∷ xs) v h =
    let e : 0 + n ≡ n = omega arith in
    rw (e, shift_right-front n x xs (omega arith))
      (ap (λ r. v ∷ r)
        (take-append n (take n (x ∷ xs)) (drop n xs) (omega (arith, length-take n (x ∷ xs)))))
take-set-shift_right (suc pos) n (x ∷ xs) v h =
    let e : suc pos + n ≡ suc (pos + n) = omega arith in
    rw (e, shift_right-cons n pos x xs)
      (ap (λ r. x ∷ r) (take-set-shift_right pos n xs v (omega arith)))

pub drop-get_or :
    (i : ℕ) (xs : List Slot) → i < length xs → drop i xs ≡ get_or xs i empty_slot ∷ drop (suc i) xs
drop-get_or i [] h = absurd (omega arith)
drop-get_or zero (x ∷ xs) h = refl
drop-get_or (suc i) (x ∷ xs) h = drop-get_or i xs (omega arith)

-- Where a packet with sequence number `seq` goes: before the first that it precedes.
abbrev pub position : ℕ → List Slot → ℕ
position seq [] = 0
position seq (x ∷ xs) = if precedes seq x.sequence then 0 else suc (position seq xs)

-- The search finds that place.
pub find_pos-position :
    (count seq : ℕ) (slots : List Slot) (n i : ℕ)
    → i + n ≡ count
    → count ≤ length slots
    → find_pos count seq slots n i ≡ i + position seq (take n (drop i slots))
unfolding find_pos
find_pos-position count seq slots zero i e h = omega arith
find_pos-position count seq slots (suc n) i e h =
    let head = drop-get_or i slots (omega arith) in
    let rest = find_pos-position count seq slots n (suc i) (omega arith) h in
    rw head (elim (Bool-cases (precedes seq (get_or slots i empty_slot).sequence)) [
      | inl now ↦ rw now (omega arith)
      | inr later ↦ rw later (rest ∙ omega arith)
    ])
