-- ===== src/Jitter/Calls.antt =====
-- What the two calls of the jitter buffer of src/media/rtp.c do to its packets.
use tinyrtc.Prelude.{
  ℕ, zero, suc, ◌≤◌, ◌<◌, ◌≡◌, ◌≢◌, refl, ap, ◌⊎◌, Bool, true, false, inl, inr, List, [], ◌∷◌,
  arith, if◌then◌else◌, length, get_or, take, leb, leb-true, leb-false, ltb, ◌==◌, ltb-false,
  lt_cases, none, some, Outcome, done, refused, fault,
}
use tinyrtc.Status.{ok, invalid_arg, memory}
use tinyrtc.Rtp.{Header, parse_header}
use tinyrtc.Rtp.Bounds.{parse_header-ne-fault}
use tinyrtc.Jitter.{
  Jitter, Slot, empty_slot, drop_first, make_room, add_packet, get_packet, next_time,
}
use tinyrtc.Jitter.Contents.{
  IsValid, Becomes, contents, insert, tail, drop_first-Becomes, store-Becomes,
}

-- The packets that are left to join: all, or all but the first where the buffer is full.
abbrev pub joined : Jitter → List Slot
joined jb = if leb jb.config.buffer_size jb.count then tail (contents jb) else contents jb

record Room (jb r : Jitter) : Type 0 where
  becomes : Becomes r (joined jb)
  free : r.count < r.config.buffer_size

make_room-Room : (jb : Jitter) → IsValid jb → Room jb (make_room jb)
unfolding make_room
make_room-Room jb v = elim (lt_cases jb.count jb.config.buffer_size) [
  | inl (h, t) ↦
      let f = leb-false jb.config.buffer_size jb.count h in
      record { becomes = rw f (record { valid = v; holds = refl }); free = rw f h }
  | inr (h, t) ↦
      let f = leb-true jb.config.buffer_size jb.count h in
      record {
        becomes = rw f (drop_first-Becomes jb v (omega arith));
        free = rw f (unfold drop_first in omega arith);
      }
]

abbrev pub slot_of : Header → List ℕ → ℕ → Slot
slot_of h packet timestamp = record {
  packet = packet;
  packet_len = length packet;
  sequence = h.sequence;
  arrival_time = timestamp;
}

-- Adding a packet that parses to a valid buffer succeeds, keeps the buffer valid and inserts the
-- packet at its place by sequence number; a full buffer first loses its first packet.
pub add_packet-ok :
    (jb : Jitter) (packet : List ℕ) (timestamp : ℕ) {h : Header}
    → IsValid jb
    → parse_header packet ≡ done h
    → ((add_packet true jb packet timestamp).0 ≡ ok)
      × Becomes
          (add_packet true jb packet timestamp).1
          (insert (slot_of h packet timestamp) (joined jb))
unfolding add_packet
add_packet-ok jb packet timestamp {h} v e =
    let r = make_room-Room jb v in
    let s = store-Becomes (make_room jb) (slot_of h packet timestamp) r.becomes.valid r.free in
    rw (e, add_packet) (refl, rw (r.becomes.holds) at s)

-- A packet that cannot be copied, or does not parse, is not added, but a full buffer has lost its
-- first packet all the same.
pub add_packet-failed :
    (alloc : Bool) (jb : Jitter) (packet : List ℕ) (timestamp : ℕ)
    → IsValid jb
    → (alloc ≡ false) ⊎ (parse_header packet ≡ refused)
    → ((add_packet alloc jb packet timestamp).0 ≡ (if alloc then invalid_arg else memory))
      × Becomes (add_packet alloc jb packet timestamp).1 (joined jb)
unfolding add_packet
add_packet-failed false jb packet timestamp v f = (refl, (make_room-Room jb v).becomes)
add_packet-failed true jb packet timestamp v (inl e) = absurd (cc)
add_packet-failed true jb packet timestamp v (inr e) =
    rw (e, add_packet) (refl, (make_room-Room jb v).becomes)

-- Every call of `add_packet` keeps the buffer valid.
pub add_packet-IsValid :
    (alloc : Bool) (jb : Jitter) (packet : List ℕ) (timestamp : ℕ)
    → IsValid jb
    → IsValid (add_packet alloc jb packet timestamp).1
add_packet-IsValid alloc jb packet timestamp v = go alloc (parse_header packet) refl
  where
    go :
        (alloc : Bool) (o : Outcome Header)
        → parse_header packet ≡ o
        → IsValid (add_packet alloc jb packet timestamp).1
    go false o e = (add_packet-failed false jb packet timestamp v (inl refl)).1.valid
    go true (done h) e = (add_packet-ok jb packet timestamp v e).1.valid
    go true refused e = (add_packet-failed true jb packet timestamp v (inr e)).1.valid
    go true fault e = absurd (parse_header-ne-fault packet e)

take-eq-cons :
    (n : ℕ) (xs : List Slot) {s : Slot} {rest : List Slot}
    → take n xs ≡ s ∷ rest
    → (0 < n) × (get_or xs 0 empty_slot ≡ s) × (tail (take n xs) ≡ rest)
take-eq-cons zero xs e = absurd (cc)
take-eq-cons (suc n) [] e = absurd (cc)
take-eq-cons (suc n) (x ∷ xs) e = (omega arith, cc, ap tail e)

-- The time of the next playout is no part of what a buffer holds.
Becomes-next :
    (jb : Jitter) (packets : List Slot) (t : ℕ)
    → Becomes jb packets
    → Becomes (record jb { next_playout_time = t }) packets
Becomes-next jb packets t b = record {
  valid = record {
    allocated = b.valid.allocated;
    room = b.valid.room;
    size_small = b.valid.size_small;
    within = b.valid.within;
  };
  holds = b.holds;
}

-- When the first packet's time has come and it fits the output, it is played out: its bytes are
-- written, the others stay in order, and the next playout is set.
pub get_packet-first :
    (jb : Jitter) (max_len now : ℕ) {s : Slot} {rest : List Slot}
    → IsValid jb
    → contents jb ≡ s ∷ rest
    → jb.next_playout_time ≤ now
    → s.packet_len ≤ max_len
    → ((get_packet jb max_len now).0 ≡ ok)
      × ((get_packet jb max_len now).1 ≡ some s.packet)
      × Becomes (get_packet jb max_len now).2 rest
      × ((get_packet jb max_len now).2.next_playout_time ≡ next_time jb.config now)
unfolding get_packet
get_packet-first jb max_len now {s} {rest} v e due fits =
    let (some_left, first, others) = take-eq-cons jb.count jb.slots e in
    let busy : (jb.count == 0) ≡ false = ground arith in
    let small : ltb max_len (get_or jb.slots 0 empty_slot).packet_len ≡ false =
      rw first (ltb-false max_len s.packet_len fits) in
    let b = drop_first-Becomes jb v some_left in
    rw (busy, ltb-false now jb.next_playout_time due, small)
      (
        refl,
        ap (λ (x : Slot). some x.packet) first,
        Becomes-next (drop_first jb) rest _ (rw others at b),
        refl,
      )

-- On every other branch nothing is written and the buffer stays as it was: there is no packet, its
-- time has not come, or it does not fit.
pub get_packet-unchanged :
    (jb : Jitter) (max_len now : ℕ)
    → (get_packet jb max_len now).0 ≢ ok
    → ((get_packet jb max_len now).1 ≡ none)
      × ((get_packet jb max_len now).2 ≡ jb)
      × ((jb.count ≡ 0)
          ⊎ (now < jb.next_playout_time)
          ⊎ (max_len < (get_or jb.slots 0 empty_slot).packet_len))
unfolding get_packet
get_packet-unchanged jb max_len now h = ground arith
