-- ===== src/Jitter/Tests.antt =====
-- Runs of the jitter buffer of src/media/rtp.c.
use tinyrtc.Prelude.{
  ℕ, Bool, read, read16, read32, be16, ◌+◌, ◌*◌, ◌≤◌, ◌<◌, ◌≡◌, ◌≢◌, ◌⊎◌, refl, inr, true, false,
  List, [], ◌∷◌, arith, min, All, get_or, none, some, done, read, read16, read32, be16, be32,
}
use tinyrtc.Status.{ok, invalid_arg}
use tinyrtc.Rtp.{Header, parse_header}
use tinyrtc.Jitter.{
  Config, Jitter, Slot, empty_slot, create, add_packet, get_packet, next_time, get_delay,
}
use tinyrtc.Jitter.Contents.{IsValid, Becomes, contents, insert, create-IsValid}
use tinyrtc.Jitter.Calls.{
  joined, slot_of, add_packet-ok, add_packet-failed, add_packet-IsValid, get_packet-first,
  get_packet-unchanged,
}
use tinyrtc.Jitter.Order.{InWindow, Sorted, add_packet-Sorted}
use tinyrtc.Jitter.Playout.{add_packets, get_packet_spaced, get_delay-min}

abbrev config : Config
config = record { min_delay_ms = 30; max_delay_ms = 200; buffer_size = 2 }

abbrev stored : ℕ → Slot
stored sequence = record {
  packet = 0x80 ∷ [];
  packet_len = 1;
  sequence = sequence;
  arrival_time = 5;
}

-- A buffer with the packets 65535 and 1, around the wrap of the sequence numbers; it is full.
abbrev full : Jitter
full = record {
  config = config;
  slots = stored 65535 ∷ stored 1 ∷ [];
  count = 2;
  next_playout_time = 35;
}

full-IsValid : IsValid full
full-IsValid = record {
  allocated = refl;
  room = omega arith;
  size_small = omega arith;
  within = omega arith;
}

-- A packet with the sequence number 0.
abbrev packet : List ℕ
packet = 0x80 ∷ 0 ∷ 0 ∷ 0 ∷ 0 ∷ 0 ∷ 0 ∷ 0 ∷ 0 ∷ 0 ∷ 0 ∷ 0 ∷ []

abbrev header : Header
header = record {
  version = 2;
  padding = false;
  extension = false;
  csrc_count = 0;
  marker = false;
  payload_type = 0;
  sequence = 0;
  timestamp = 0;
  ssrc = 0;
  num_csrc = 0;
  csrc = [];
}

parse_header-packet : parse_header packet ≡ done header
unfolding parse_header read read16 read32 be16 be32
parse_header-packet = refl

created : IsValid (create config) × (contents (create config) ≡ [])
created = create-IsValid config (omega arith) (omega arith)

add_packet-ok_example :
    ((add_packet true full packet 7).0 ≡ ok)
    × Becomes (add_packet true full packet 7).1 (insert (slot_of header packet 7) (joined full))
add_packet-ok_example = add_packet-ok full packet 7 full-IsValid parse_header-packet

add_packet-failed_example :
    ((add_packet true full [] 7).0 ≡ invalid_arg)
    × Becomes (add_packet true full [] 7).1 (joined full)
unfolding parse_header
add_packet-failed_example = add_packet-failed true full [] 7 full-IsValid (inr refl)

add_packet-IsValid_example : IsValid (add_packet true full packet 7).1
add_packet-IsValid_example = add_packet-IsValid true full packet 7 full-IsValid

add_packet-Sorted_example :
    Sorted 65535 (contents (add_packet true full packet 7).1)
    × All (InWindow 65535) (contents (add_packet true full packet 7).1)
add_packet-Sorted_example =
    add_packet-Sorted 65535 full packet 7 full-IsValid parse_header-packet (omega arith)
      (omega arith, omega arith) ((omega arith, omega arith), ((omega arith, omega arith), tt))
      ((omega arith, tt), (tt, tt))

get_packet-first_example :
    ((get_packet full 100 40).0 ≡ ok)
    × ((get_packet full 100 40).1 ≡ some (0x80 ∷ []))
    × Becomes (get_packet full 100 40).2 (stored 1 ∷ [])
    × ((get_packet full 100 40).2.next_playout_time ≡ next_time config 40)
get_packet-first_example =
    get_packet-first full 100 40 full-IsValid refl (omega arith) (omega arith)

get_packet_early : (get_packet full 100 30).0 ≢ ok
unfolding get_packet
get_packet_early = λ e. cc

nothing_taken :
    ((get_packet full 100 30).1 ≡ none)
    × ((get_packet full 100 30).2 ≡ full)
    × ((full.count ≡ 0)
        ⊎ (30 < full.next_playout_time)
        ⊎ (100 < (get_or full.slots 0 empty_slot).packet_len))
nothing_taken = get_packet-unchanged full 100 30 get_packet_early

-- One packet is added, and for another there is no memory.
abbrev meanwhile : List (Bool × List ℕ × ℕ)
meanwhile = (true, packet, 45) ∷ (false, packet, 46) ∷ []

get_packet_twice :
    ((get_packet full 100 40).0 ≡ ok)
    × ((get_packet (add_packets (get_packet full 100 40).2 meanwhile) 100 70).0 ≡ ok)
unfolding get_packet add_packet parse_header read read16 read32 be16
get_packet_twice = (refl, refl)

get_packet_spaced_example : 40 + min config.min_delay_ms config.max_delay_ms ≤ 70
get_packet_spaced_example =
    get_packet_spaced full 100 100 40 70 meanwhile (omega arith, omega arith) (omega arith)
      (omega arith) (omega arith) (omega arith) get_packet_twice.0 get_packet_twice.1

delay : get_delay full ≡ min (33 * full.count) config.max_delay_ms
delay = get_delay-min full (omega arith)
