-- ===== src/Jitter/Playout.antt =====
-- The clock of the jitter buffer of src/media/rtp.c. It starts again with the first packet that is
-- added to a buffer that was emptied.
use tinyrtc.Prelude.{
  ℕ, ◌+◌, ◌-◌, ◌*◌, ◌^◌, ◌≤◌, ◌<◌, ◌≡◌, ◌∙◌, ap, refl, inl, inr, Bool, true, false, Bool-cases,
  List, [], ◌∷◌, ◌==◌, if-false, leb, length, min, u64, arith, done, refused, fault,
}
use tinyrtc.Status.{Status, ok, invalid_arg}
use tinyrtc.Rtp.{parse_header}
use tinyrtc.Jitter.{
  Config, Slot, Jitter, dec_size, drop_first, make_room, store, add_packet, next_time, get_packet,
  get_delay,
}

-- The configured delays are 32-bit numbers.
abbrev pub IsConfig : Config → Type 0
IsConfig c = (c.min_delay_ms < 2 ^ 32) × (c.max_delay_ms < 2 ^ 32)

next_time-min :
    (c : Config) (now : ℕ)
    → IsConfig c
    → now + 2 ^ 32 ≤ 2 ^ 64
    → next_time c now ≡ now + min c.min_delay_ms c.max_delay_ms
unfolding next_time
next_time-min c now h k = ground arith

get_packet-sets :
    (jb : Jitter) (max_len now : ℕ)
    → (get_packet jb max_len now).0 ≡ ok
    → (get_packet jb max_len now).2.next_playout_time ≡ next_time jb.config now
unfolding get_packet
get_packet-sets jb max_len now e = ground arith

get_packet-due :
    (jb : Jitter) (max_len now : ℕ)
    → (get_packet jb max_len now).0 ≡ ok
    → jb.next_playout_time ≤ now
unfolding get_packet
get_packet-due jb max_len now e = ground arith

get_packet-count :
    (jb : Jitter) (max_len now : ℕ)
    → (get_packet jb max_len now).0 ≡ ok
    → ((get_packet jb max_len now).2.count ≡ dec_size jb.count)
      × ((get_packet jb max_len now).2.config ≡ jb.config)
unfolding get_packet drop_first
get_packet-count jb max_len now e = ground arith

-- A buffer that holds a packet, and that a single new one does not replace.
record IsWaiting (jb : Jitter) : Type 0 where
  some_left : 1 ≤ jb.count
  within : jb.count ≤ jb.config.buffer_size
  several : 2 ≤ jb.config.buffer_size
  small : jb.config.buffer_size < 2 ^ 64

-- The clock of the second buffer is that of the first one, and it holds a packet, too.
record SameClock (before after : Jitter) : Type 0 where
  same_time : after.next_playout_time ≡ before.next_playout_time
  waiting : IsWaiting after

make_room-SameClock :
    (jb : Jitter)
    → IsWaiting jb
    → SameClock jb (make_room jb) × ((make_room jb).count < (make_room jb).config.buffer_size)
unfolding make_room drop_first
make_room-SameClock jb w = elim (Bool-cases (leb jb.config.buffer_size jb.count)) [
  | inl t ↦ rw t (
    record {
      same_time = refl;
      waiting = record {
        some_left = ground (arith, t, w.some_left, w.within, w.several, w.small);
        within = ground (arith, t, w.some_left, w.within, w.several, w.small);
        several = w.several;
        small = w.small;
      };
    },
    ground (arith, t, w.some_left, w.within, w.several, w.small),
  )
  | inr t ↦ rw t (record { same_time = refl; waiting = w }, ground (arith, t, w.within))
]

store-SameClock :
    (jb : Jitter) (slot : Slot)
    → IsWaiting jb
    → jb.count < jb.config.buffer_size
    → SameClock jb (store jb slot)
unfolding store
store-SameClock jb slot w room =
    let more : (u64 (jb.count + 1) == 1) ≡ false = ground (arith, w.some_left, w.small, room) in
    record {
      same_time = if-false _ _ _ more;
      waiting = record {
        some_left = ground (arith, w.some_left, w.small, room);
        within = ground (arith, w.some_left, w.small, room);
        several = w.several;
        small = w.small;
      };
    }

add_packet-SameClock :
    (alloc : Bool) (jb : Jitter) (packet : List ℕ) (timestamp : ℕ)
    → IsWaiting jb
    → SameClock jb (add_packet alloc jb packet timestamp).1
unfolding add_packet
add_packet-SameClock false jb packet timestamp w = (make_room-SameClock jb w).0
add_packet-SameClock true jb packet timestamp w =
    let (r, room) = make_room-SameClock jb w in
    elim (parse_header packet)
      as (λ o.
        SameClock jb
          (elim o as (λ _. Status × Jitter) [
            | done h ↦ (
              ok,
              store (make_room jb) (record {
                packet = packet;
                packet_len = length packet;
                sequence = h.sequence;
                arrival_time = timestamp;
              }),
            )
            | refused ↦ (invalid_arg, make_room jb)
            | fault ↦ (invalid_arg, make_room jb)
          ]).1) [
            | done h ↦
                let stored = store-SameClock (make_room jb) _ r.waiting room in
                record { same_time = stored.same_time ∙ r.same_time; waiting = stored.waiting }
            | refused ↦ r
            | fault ↦ r
          ]

-- Packets that are added one after the other: whether the copy can be allocated, the bytes, and the
-- time.
abbrev pub add_packets : Jitter → List (Bool × List ℕ × ℕ) → Jitter
add_packets jb [] = jb
add_packets jb ((alloc, packet, timestamp) ∷ rest) =
    add_packets (add_packet alloc jb packet timestamp).1 rest

add_packets-SameClock :
    (added : List (Bool × List ℕ × ℕ)) (jb : Jitter)
    → IsWaiting jb
    → SameClock jb (add_packets jb added)
add_packets-SameClock [] jb w = record { same_time = refl; waiting = w }
add_packets-SameClock ((alloc, packet, timestamp) ∷ rest) jb w =
    let first = add_packet-SameClock alloc jb packet timestamp w in
    let later = add_packets-SameClock rest (add_packet alloc jb packet timestamp).1 first.waiting in
    record { same_time = later.same_time ∙ first.same_time; waiting = later.waiting }

-- Where a packet is played out of a buffer that holds no more packets than its size, and another
-- one stays in it, the next packet is played out no sooner than the smaller of the two delays (32-bit
-- numbers) after it, whatever packets are added in between, also ones that are refused or for which
-- there is no memory, and as long as the clock does not come near the end of its 64 bits.
pub get_packet_spaced :
    (jb : Jitter) (max_len max_len' now later : ℕ) (added : List (Bool × List ℕ × ℕ))
    → IsConfig jb.config
    → now + 2 ^ 32 ≤ 2 ^ 64
    → 2 ≤ jb.count
    → jb.count ≤ jb.config.buffer_size
    → jb.config.buffer_size < 2 ^ 64
    → (get_packet jb max_len now).0 ≡ ok
    → (get_packet (add_packets (get_packet jb max_len now).2 added) max_len' later).0 ≡ ok
    → now + min jb.config.min_delay_ms jb.config.max_delay_ms ≤ later
get_packet_spaced jb max_len max_len' now later added c k two within small first second =
    let played = (get_packet jb max_len now).2 in
    let (count, config) = get_packet-count jb max_len now first in
    let size : played.config.buffer_size ≡ jb.config.buffer_size =
      ap (λ (x : Config). x.buffer_size) config in
    let left : played.count ≡ jb.count - 1 = count ∙ ground (arith, two, within, small) in
    let waiting : IsWaiting played = record {
      some_left = omega (arith, left, two);
      within = omega (arith, left, size, within);
      several = omega (arith, size, two, within);
      small = omega (arith, size, small);
    } in
    let kept = add_packets-SameClock added played waiting in
    omega (
      arith,
      kept.same_time,
      get_packet-sets jb max_len now first,
      next_time-min jb.config now c k,
      get_packet-due (add_packets played added) max_len' later second,
    )

-- The estimated delay is 33 ms for each packet in the buffer, held to the maximal delay.
pub get_delay-min :
    (jb : Jitter) → jb.count < 2 ^ 26 → get_delay jb ≡ min (33 * jb.count) jb.config.max_delay_ms
unfolding get_delay
get_delay-min jb h = ground arith
