-- ===== src/Jitter/Order.antt =====
-- The playout order of the jitter buffer of src/media/rtp.c and the sequence numbers, across their
-- wrap at 2 ^ 16.
use tinyrtc.Prelude.{
  ℕ, ◌+◌, ◌-◌, ◌%◌, ◌^◌, ◌≤◌, ◌<◌, ◌≡◌, true, inl, inr, List, [], ◌∷◌, arith, All, leb, ltb,
  Bool-cases, lt_cases, done,
}
use tinyrtc.Rtp.{Header, parse_header}
use tinyrtc.Jitter.{Jitter, Slot, precedes, add_packet}
use tinyrtc.Jitter.Contents.{IsValid, contents, insert, tail}
use tinyrtc.Jitter.Calls.{joined, slot_of, add_packet-ok}

-- How far a sequence number lies behind `base`, on the circle of 2 ^ 16 numbers.
abbrev pub ahead : ℕ → ℕ → ℕ
ahead base seq = (seq + 2 ^ 16 - base) % 2 ^ 16

-- The half of the circle that starts at `base`.
abbrev pub InWindow : ℕ → Slot → Type 0
InWindow base s = (s.sequence < 2 ^ 16) × (ahead base s.sequence < 2 ^ 15)

abbrev pub Sorted : ℕ → List Slot → Type 0
Sorted base [] = Unit
Sorted base (x ∷ xs) =
    All (λ (y : Slot). ahead base x.sequence ≤ ahead base y.sequence) xs × Sorted base xs

-- In the window the signed 16-bit difference compares the distances from `base`.
precedes-ahead :
    (base a b : ℕ)
    → base < 2 ^ 16
    → a < 2 ^ 16
    → b < 2 ^ 16
    → ahead base a < 2 ^ 15
    → ahead base b < 2 ^ 15
    → precedes a b ≡ ltb (ahead base a) (ahead base b)
precedes-ahead base a b h ha hb wa wb = ground arith

All-insert {κ} :
    (P : Slot → Type κ) (s : Slot) (xs : List Slot) → P s → All P xs → All P (insert s xs)
All-insert P s [] h a = (h, tt)
All-insert P s (x ∷ xs) h a = elim (Bool-cases (precedes s.sequence x.sequence)) [
  | inl p ↦ rw p (h, a)
  | inr p ↦ rw p (a.0, All-insert P s xs h a.1)
]

All-trans :
    (base a : ℕ) (x : Slot) (xs : List Slot)
    → a ≤ ahead base x.sequence
    → All (λ (y : Slot). ahead base x.sequence ≤ ahead base y.sequence) xs
    → All (λ (y : Slot). a ≤ ahead base y.sequence) xs
All-trans base a x [] h k = tt
All-trans base a x (y ∷ ys) h k = (omega (arith, k.0), All-trans base a x ys h k.1)

insert-Sorted :
    (base : ℕ) (s : Slot) (xs : List Slot)
    → base < 2 ^ 16
    → InWindow base s
    → All (InWindow base) xs
    → Sorted base xs
    → Sorted base (insert s xs)
insert-Sorted base s [] b w a h = (tt, tt)
insert-Sorted base s (x ∷ xs) b w a h =
    let test = precedes-ahead base s.sequence x.sequence b w.0 a.0.0 w.1 a.0.1 in
    elim (lt_cases (ahead base s.sequence) (ahead base x.sequence)) [
      | inl (l, t) ↦ rw (test, t) (((omega arith, All-trans base _ x xs (omega arith) h.0), h))
      | inr (l, t) ↦
          rw (test, t)
            (
              All-insert (λ (y : Slot). ahead base x.sequence ≤ ahead base y.sequence) s xs l h.0,
              insert-Sorted base s xs b w a.1 h.1,
            )
    ]

joined-keeps {κ} :
    (P : List Slot → Type κ) (jb : Jitter)
    → ((xs : List Slot) → P xs → P (tail xs))
    → P (contents jb)
    → P (joined jb)
joined-keeps P jb keep h = elim (Bool-cases (leb jb.config.buffer_size jb.count)) [
  | inl full ↦ rw full (keep (contents jb) h)
  | inr free ↦ rw free h
]

tail-All {κ} : (P : Slot → Type κ) (xs : List Slot) → All P xs → All P (tail xs)
tail-All P [] a = tt
tail-All P (x ∷ xs) a = a.1

tail-Sorted : (base : ℕ) (xs : List Slot) → Sorted base xs → Sorted base (tail xs)
tail-Sorted base [] h = tt
tail-Sorted base (x ∷ xs) h = h.1

-- If the packets in the buffer and the new one lie in one half of the sequence space, and the
-- buffer is in the order of that half, it still is after the packet was added.
pub add_packet-Sorted :
    (base : ℕ) (jb : Jitter) (packet : List ℕ) (timestamp : ℕ) {h : Header}
    → IsValid jb
    → parse_header packet ≡ done h
    → base < 2 ^ 16
    → InWindow base (slot_of h packet timestamp)
    → All (InWindow base) (contents jb)
    → Sorted base (contents jb)
    → Sorted base (contents (add_packet true jb packet timestamp).1)
      × All (InWindow base) (contents (add_packet true jb packet timestamp).1)
add_packet-Sorted base jb packet timestamp {h} v e b w a sorted =
    let s = slot_of h packet timestamp in
    let in_order : Sorted base (joined jb) =
      joined-keeps (Sorted base) jb (tail-Sorted base) sorted in
    let in_window : All (InWindow base) (joined jb) =
      joined-keeps (All (InWindow base)) jb (tail-All (InWindow base)) a in
    rw (add_packet-ok jb packet timestamp v e).1.holds (
      insert-Sorted base s (joined jb) b w in_window in_order,
      All-insert (InWindow base) s (joined jb) w in_window,
    )
