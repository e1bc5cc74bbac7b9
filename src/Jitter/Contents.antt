-- ===== src/Jitter/Contents.antt =====
-- The jitter buffer of src/media/rtp.c as the list of its packets in the order of playout, and its
-- operations on that list.
use tinyrtc.Prelude.{
  ℕ, zero, suc, ◌+◌, ◌-◌, ◌^◌, ◌≤◌, ◌<◌, ◌≡◌, refl, sym, ap, ◌∙◌, inl, inr, List, [], ◌∷◌, ◌++◌,
  arith, if◌then◌else◌, length, set, take, drop, length-set, length-replicate, length-take,
  take-take, drop-take, Bool-cases, u64,
}
use tinyrtc.Jitter.{
  Config, Jitter, Slot, empty_slot, create, shift_left, shift_right, precedes, find_pos, drop_first,
  store, dec_size,
}
use tinyrtc.Jitter.Shift.{
  take-shift_left, length-shift_left, length-shift_right, take-set-shift_right, position,
  find_pos-position,
}

-- The arrays have the configured size, at least one and below 2 ^ 32, and hold the packets in use.
pub record IsValid (jb : Jitter) : Type 0 where
  pub allocated : length jb.slots ≡ jb.config.buffer_size
  pub room : 0 < jb.config.buffer_size
  pub size_small : jb.config.buffer_size < 2 ^ 32
  pub within : jb.count ≤ jb.config.buffer_size

abbrev pub contents : Jitter → List Slot
contents jb = take jb.count jb.slots

-- Before the first packet that it precedes, and behind all others.
abbrev pub insert : Slot → List Slot → List Slot
insert s [] = s ∷ []
insert s (x ∷ xs) = if precedes s.sequence x.sequence then s ∷ x ∷ xs else x ∷ insert s xs

abbrev pub tail : List Slot → List Slot
tail [] = []
tail (x ∷ xs) = xs

insert-position :
    (s : Slot) (xs : List Slot)
    → insert s xs ≡ take (position s.sequence xs) xs ++ (s ∷ drop (position s.sequence xs) xs)
insert-position s [] = refl
insert-position s (x ∷ xs) = elim (Bool-cases (precedes s.sequence x.sequence)) [
  | inl p ↦ rw p
  | inr p ↦ rw p (ap (λ r. x ∷ r) (insert-position s xs))
]

-- A created buffer is valid and empty.
pub create-IsValid :
    (c : Config)
    → 0 < c.buffer_size
    → c.buffer_size < 2 ^ 32
    → IsValid (create c) × (contents (create c) ≡ [])
unfolding create
create-IsValid c h k = (
  record {
    allocated = length-replicate c.buffer_size empty_slot;
    room = h;
    size_small = k;
    within = omega arith;
  },
  refl,
)

take-shift_left-tail :
    (n : ℕ) (slots : List Slot)
    → 0 < n
    → n ≤ length slots
    → take (n - 1) (shift_left (n - 1) 0 slots) ≡ tail (take n slots)
take-shift_left-tail zero slots h k = absurd (omega arith)
take-shift_left-tail (suc n) [] h k = absurd (omega arith)
take-shift_left-tail (suc n) (x ∷ xs) h k =
    let e : suc n - 1 ≡ n = omega arith in rw e (take-shift_left n x xs (omega arith))

-- What an operation on a valid buffer that leaves a valid buffer does to its packets.
pub record Becomes (jb : Jitter) (packets : List Slot) : Type 0 where
  pub valid : IsValid jb
  pub holds : contents jb ≡ packets

pub drop_first-Becomes :
    (jb : Jitter) → IsValid jb → 0 < jb.count → Becomes (drop_first jb) (tail (contents jb))
unfolding drop_first
drop_first-Becomes jb v h =
    let fewer : dec_size jb.count ≡ jb.count - 1 = omega arith in
    record {
      valid = record {
        allocated = length-shift_left (jb.count - 1) 0 jb.slots ∙ v.allocated;
        room = v.room;
        size_small = v.size_small;
        within = omega arith;
      };
      holds = rw fewer (take-shift_left-tail jb.count jb.slots h (omega arith));
    }

position-le : (seq : ℕ) (xs : List Slot) → position seq xs ≤ length xs
position-le seq [] = omega arith
position-le seq (x ∷ xs) = ground (arith, position-le seq xs)

take-store :
    (pos count : ℕ) (slots : List Slot) (s : Slot)
    → pos ≤ count
    → count < length slots
    → pos ≡ position s.sequence (take count slots)
    → take (count + 1) (set (shift_right (count - pos) pos slots) pos s)
      ≡ insert s (take count slots)
take-store pos count slots s h k e =
    let back : pos + (count - pos) ≡ count = omega arith in
    let more : suc (pos + (count - pos)) ≡ count + 1 = omega arith in
    let inserted = take-set-shift_right pos (count - pos) slots s (omega arith) in
    let split : insert s (take count slots)
        ≡ take pos (take count slots) ++ (s ∷ drop pos (take count slots)) =
      rw e (insert-position s (take count slots)) in
    let rest : drop pos (take count slots) ≡ take (count - pos) (drop pos slots) =
      rw (ap (λ c. drop pos (take c slots)) (sym back)) (drop-take pos (count - pos) slots) in
    (rw more at inserted) ∙ sym (split ∙ rw (take-take pos count slots h, rest))

-- Storing below capacity inserts the packet at its place.
pub store-Becomes :
    (jb : Jitter) (s : Slot)
    → IsValid jb
    → jb.count < jb.config.buffer_size
    → Becomes (store jb s) (insert s (contents jb))
unfolding store
store-Becomes jb s v h =
    let pos = find_pos jb.count s.sequence jb.slots jb.count 0 in
    let found : pos ≡ position s.sequence (contents jb) =
      find_pos-position jb.count s.sequence jb.slots jb.count 0 (omega arith) (omega arith)
      ∙ omega arith in
    let inside : pos ≤ jb.count =
      omega (arith, position-le s.sequence (contents jb), length-take jb.count jb.slots) in
    let one_more : u64 (jb.count + 1) ≡ jb.count + 1 = omega arith in
    record {
      valid = record {
        allocated =
            length-set _ pos s ∙ length-shift_right (jb.count - pos) pos jb.slots ∙ v.allocated;
        room = v.room;
        size_small = v.size_small;
        within = omega arith;
      };
      holds = rw one_more (take-store pos jb.count jb.slots s inside (omega arith) found);
    }
