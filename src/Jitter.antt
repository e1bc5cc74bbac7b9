-- ===== src/Jitter.antt =====
-- The jitter buffer of src/media/rtp.c. The four parallel arrays are one list of slots, as long
-- as the arrays that were allocated; `count` of them are in use. Pointers are not null; whether
-- `malloc` succeeds is an argument.
mod Tests
pub mod Shift
pub mod Contents
pub mod Calls
pub mod Order
pub mod Playout
use tinyrtc.Prelude.{
  ℕ, zero, suc, ◌+◌, ◌-◌, ◌*◌, ◌%◌, ◌^◌, Bool, true, false, not, List, [], Option, none, some, ltb,
  leb, ◌==◌, if◌then◌else◌, get_or, set, length, replicate, u32, u64, Outcome, done, refused, fault,
}
use tinyrtc.Status.{Status, ok, error, invalid_arg, memory, not_found}
use tinyrtc.Rtp.{Header, parse_header}

-- `tinyrtc_jitter_config_t`
pub record Config : Type 0 where
  pub min_delay_ms : ℕ
  pub max_delay_ms : ℕ
  pub buffer_size : ℕ

-- `tinyrtc_jitter_get_default_config`
pub default_config : Config
default_config = record { min_delay_ms = 30; max_delay_ms = 200; buffer_size = 64 }

-- One index of `packets`, `packet_len`, `sequence` and `arrival_time`.
pub record Slot : Type 0 where
  pub packet : List ℕ
  pub packet_len : ℕ
  pub sequence : ℕ
  pub arrival_time : ℕ

-- `struct tinyrtc_jitter_buffer`
pub record Jitter : Type 0 where
  pub config : Config
  pub slots : List Slot
  pub count : ℕ
  pub next_playout_time : ℕ

-- A slot as `calloc` leaves it.
abbrev pub empty_slot : Slot
empty_slot = record { packet = []; packet_len = 0; sequence = 0; arrival_time = 0 }

-- `tinyrtc_jitter_buffer_create`, for allocations that succeed.
pub create : Config → Jitter
create config = record {
  config = config;
  slots = replicate config.buffer_size empty_slot;
  count = 0;
  next_playout_time = 0;
}

-- The loop that closes the gap at the front, `n` rounds from `i = j + 1`.
pub shift_left : ℕ → ℕ → List Slot → List Slot
shift_left zero j slots = slots
shift_left (suc n) j slots = shift_left n (suc j) (set slots j (get_or slots (suc j) empty_slot))

-- The loop that opens a gap at `pos`, `n` rounds down from `i = pos + n`.
pub shift_right : ℕ → ℕ → List Slot → List Slot
shift_right zero pos slots = slots
shift_right (suc n) pos slots =
    shift_right n pos (set slots (suc (pos + n)) (get_or slots (pos + n) empty_slot))

-- `(int16_t)(a - b) < 0`
abbrev pub precedes : ℕ → ℕ → Bool
precedes a b = leb (2 ^ 15) ((a + 2 ^ 16 - b) % 2 ^ 16)

-- The search for the place of a sequence number, `n` rounds from index `i`; `count` if no stored
-- packet comes later.
pub find_pos : ℕ → ℕ → List Slot → ℕ → ℕ → ℕ
find_pos count seq slots zero i = count
find_pos count seq slots (suc n) i =
    let rest = find_pos count seq slots n (suc i) in
    if precedes seq (get_or slots i empty_slot).sequence then i else rest

-- `count--` on a `size_t`
abbrev pub dec_size : ℕ → ℕ
dec_size n = (n + 2 ^ 64 - 1) % 2 ^ 64

-- The first packet leaves the buffer.
pub drop_first : Jitter → Jitter
unfolding shift_left
drop_first jb = record jb {
  slots = shift_left (jb.count - 1) 0 jb.slots;
  count = dec_size jb.count;
}

-- A full buffer makes room.
pub make_room : Jitter → Jitter
unfolding drop_first
make_room jb = if leb jb.config.buffer_size jb.count then drop_first jb else jb

-- The new packet is stored at its place; the first packet of an empty buffer starts the clock.
pub store : Jitter → Slot → Jitter
unfolding find_pos shift_right
store jb slot =
    let pos = find_pos jb.count slot.sequence jb.slots jb.count 0 in
    record jb {
      slots = set (shift_right (jb.count - pos) pos jb.slots) pos slot;
      count = u64 (jb.count + 1);
      next_playout_time =
          if u64 (jb.count + 1) == 1
          then u64 (slot.arrival_time + jb.config.min_delay_ms)
          else jb.next_playout_time;
    }

-- `tinyrtc_jitter_buffer_add_packet`. The oldest packet of a full buffer is dropped before the
-- copy is allocated and before the new packet is parsed.
-- A fault of the parser stands with the refusals: see `Rtp.Bounds`.
unfoldable pub add_packet : Bool → Jitter → List ℕ → ℕ → Status × Jitter
unfolding make_room store
add_packet alloc jb packet timestamp =
    let room = make_room jb in
    if not alloc then (memory, room) else elim (parse_header packet) [
      | done h ↦ (
        ok,
        store room (record {
          packet = packet;
          packet_len = length packet;
          sequence = h.sequence;
          arrival_time = timestamp;
        }),
      )
      | refused ↦ (invalid_arg, room)
      | fault ↦ (invalid_arg, room)
    ]

-- The time of the next playout after one at `now`, held to the maximal delay.
pub next_time : Config → ℕ → ℕ
next_time config now =
    let next = u64 (now + config.min_delay_ms) in
    if ltb config.max_delay_ms (u64 (next + 2 ^ 64 - now))
    then u64 (now + config.max_delay_ms)
    else next

-- `tinyrtc_jitter_buffer_get_packet`: the status, the bytes written through `out_buffer` and
-- `out_len`, and the buffer afterwards.
unfoldable pub get_packet : Jitter → ℕ → ℕ → Status × Option (List ℕ) × Jitter
unfolding drop_first next_time
get_packet jb max_len now =
    if jb.count == 0
    then (not_found, none, jb)
    else if ltb now jb.next_playout_time
    then (not_found, none, jb)
    else (let first = get_or jb.slots 0 empty_slot in
        if ltb max_len first.packet_len then (error, none, jb) else (
          ok,
          some first.packet,
          record (drop_first jb) { next_playout_time = next_time jb.config now },
        ))

-- `tinyrtc_jitter_buffer_get_delay`
unfoldable pub get_delay : Jitter → ℕ
get_delay jb =
    if jb.count == 0
    then 0
    else (let delay = u32 (jb.count * 33) in
        if ltb jb.config.max_delay_ms delay then jb.config.max_delay_ms else delay)
