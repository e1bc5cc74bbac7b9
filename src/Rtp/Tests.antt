-- ===== src/Rtp/Tests.antt =====
-- Runs of the RTP header code of src/media/rtp.c.
use tinyrtc.Prelude.{
  ℕ, ◌+◌, ◌*◌, ◌≤◌, ◌≡◌, refl, true, false, List, [], ◌∷◌, ◌++◌, arith, length, done, fault, ◌≢◌,
  read, read16, read32, be16, be32,
}
use tinyrtc.Rtp.{Header, parse_header, get_payload, build_header}
use tinyrtc.Rtp.RoundTrip.{IsWire, parse_header-build_header}
use tinyrtc.Rtp.Bounds.{get_payload-parse_header, parse_header-ne-fault}

abbrev header : Header
header = record {
  version = 2;
  padding = false;
  extension = false;
  csrc_count = 1;
  marker = true;
  payload_type = 111;
  sequence = 4660;
  timestamp = 90000;
  ssrc = 305419896;
  num_csrc = 1;
  csrc = 7 ∷ [];
}

abbrev packet : List ℕ
packet =
    0x81 ∷ 0xEF ∷ 0x12 ∷ 0x34 ∷ 0 ∷ 1 ∷ 0x5F ∷ 0x90 ∷ 0x12 ∷ 0x34 ∷ 0x56 ∷ 0x78 ∷ 0 ∷ 0 ∷ 0 ∷ 7 ∷ 1
    ∷ 2 ∷ []

header-IsWire : IsWire header
header-IsWire = record {
  version_two = refl;
  no_extension = refl;
  count_fits = omega arith;
  count_agrees = refl;
  sources_agree = refl;
  type_fits = omega arith;
  sequence_fits = omega arith;
  timestamp_fits = omega arith;
  ssrc_fits = omega arith;
  sources_fit = (omega arith, tt);
}

parse_header-packet : parse_header packet ≡ done header
unfolding parse_header read read16 read32 be16 be32
parse_header-packet = refl

parse_header-build_header_example :
    (bytes : List ℕ) × (build_header header 1500 ≡ done bytes)
    × (parse_header (bytes ++ (1 ∷ 2 ∷ [])) ≡ done header)
    × (get_payload (bytes ++ (1 ∷ 2 ∷ [])) header ≡ done (length bytes))
parse_header-build_header_example =
    parse_header-build_header header 1500 (1 ∷ 2 ∷ []) header-IsWire (omega arith)

get_payload-parse_header_example :
    (off : ℕ) × (get_payload packet header ≡ done off)
    × (12 + 4 * header.num_csrc ≤ off)
    × (off ≤ length packet)
get_payload-parse_header_example = get_payload-parse_header packet parse_header-packet

parse_header-ne-fault_example : parse_header packet ≢ fault
parse_header-ne-fault_example = parse_header-ne-fault packet
