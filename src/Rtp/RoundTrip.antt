-- ===== src/Rtp/RoundTrip.antt =====
-- RTP headers of src/media/rtp.c, built and read.
use tinyrtc.Prelude.{
  ℕ, zero, suc, ◌+◌, ◌*◌, ◌%◌, ◌^◌, ◌≤◌, ◌<◌, ◌≡◌, refl, ap, ◌∙◌, Bool, true, false, List, [], ◌∷◌,
  ◌++◌, append_assoc, arith, length, length-append, All, done, read, read16, read32, ltb, ltb-false,
  if◌then◌else◌, low_bits, ◌==◌, ◌>>◌, be16-put16, be32-put32, put16, put32, read32-append,
}
use tinyrtc.Prelude.Bits.{bit_or-disjoint}
use tinyrtc.Rtp.{
  Header, parse_csrc, check_len, parse_rest, parse_header, get_payload, build_csrc, build_byte0,
  build_byte1, build_header, bit_set, bit,
}

-- The headers that fit the wire: version 2, no extension, all fields within their widths, and
-- exactly the announced sources.
pub record IsWire (h : Header) : Type 0 where
  pub version_two : h.version ≡ 2
  pub no_extension : h.extension ≡ false
  pub count_fits : h.csrc_count < 16
  pub count_agrees : h.num_csrc ≡ h.csrc_count
  pub sources_agree : length h.csrc ≡ h.num_csrc
  pub type_fits : h.payload_type < 128
  pub sequence_fits : h.sequence < 2 ^ 16
  pub timestamp_fits : h.timestamp < 2 ^ 32
  pub ssrc_fits : h.ssrc < 2 ^ 32
  pub sources_fit : All (λ w. w < 2 ^ 32) h.csrc

bit-lt : (b : Bool) → bit b < 2
bit-lt true = omega arith
bit-lt false = omega arith

build_byte0_sum :
    (h : Header)
    → build_byte0 h
      ≡ h.version % 4 * 64 + bit h.padding * 32 + bit h.extension * 16 + h.csrc_count % 16
unfolding build_byte0
build_byte0_sum h =
    let p = bit-lt h.padding in
    let x = bit-lt h.extension in
    rw
      (
        bit_or-disjoint 6 (h.version % 4 * 2 ^ 6) (bit h.padding * 2 ^ 5) (omega arith)
            (omega arith),
        bit_or-disjoint 5 (h.version % 4 * 2 ^ 6 + bit h.padding * 2 ^ 5) (bit h.extension * 2 ^ 4)
            (omega arith) (omega arith),
        bit_or-disjoint 4 (h.version % 4 * 2 ^ 6 + bit h.padding * 2 ^ 5 + bit h.extension * 2 ^ 4)
            (h.csrc_count % 2 ^ 4) (omega arith) (omega arith),
      )
      refl

build_byte1_sum : (h : Header) → build_byte1 h ≡ bit h.marker * 128 + h.payload_type % 128
unfolding build_byte1
build_byte1_sum h =
    bit_or-disjoint 7 (bit h.marker * 2 ^ 7) (h.payload_type % 2 ^ 7) (omega arith) (omega arith)

bit_set-bit : (b : Bool) → bit_set (bit b) ≡ b
bit_set-bit true = refl
bit_set-bit false = refl

abbrev source_bytes : List ℕ → List ℕ
source_bytes [] = []
source_bytes (w ∷ ws) = put32 w ++ source_bytes ws

build_csrc-done : (n : ℕ) (ws : List ℕ) → length ws ≡ n → build_csrc n ws ≡ done (source_bytes ws)
unfolding build_csrc
build_csrc-done zero [] e = refl
build_csrc-done zero (w ∷ ws) e = absurd (omega arith)
build_csrc-done (suc n) [] e = absurd (omega arith)
build_csrc-done (suc n) (w ∷ ws) e = rw (build_csrc-done n ws (omega arith))

length-source_bytes : (ws : List ℕ) → length (source_bytes ws) ≡ 4 * length ws
length-source_bytes [] = omega arith
length-source_bytes (w ∷ ws) = omega (arith, length-source_bytes ws)

-- The sources that the builder wrote behind `pre` are read back, up to what follows them.
parse_csrc-source_bytes :
    (pre post : List ℕ) (n i : ℕ) (ws : List ℕ)
    → length pre ≡ 12 + i * 4
    → length ws ≡ n
    → All (λ w. w < 2 ^ 32) ws
    → parse_csrc (pre ++ (source_bytes ws ++ post)) n i ≡ done ws
unfolding parse_csrc read32 read
parse_csrc-source_bytes pre post zero i [] l k a = refl
parse_csrc-source_bytes pre post zero i (w ∷ ws) l k a = absurd (omega arith)
parse_csrc-source_bytes pre post (suc n) i [] l k a = absurd (omega arith)
parse_csrc-source_bytes pre post (suc n) i (w ∷ ws) l k a =
    let rest : List ℕ = source_bytes ws ++ post in
    let ih : parse_csrc ((pre ++ put32 w) ++ rest) n (i + 1) ≡ done ws =
      parse_csrc-source_bytes (pre ++ put32 w) post n (i + 1) ws
        (omega (arith, length-append pre (put32 w))) (omega arith) a.1 in
    let first : read32 (pre ++ (put32 w ++ rest)) (12 + i * 4) ≡ done w =
      read32-append pre (put32 w ++ rest) (12 + i * 4) 0 (omega arith)
      ∙ ap done (be32-put32 w a.0) in
    let room : ltb (length (pre ++ (put32 w ++ rest))) (12 + i * 4 + 4) ≡ false =
      ltb-false _ _ (omega (arith, length-append pre (put32 w ++ rest))) in
    let again : parse_csrc (pre ++ (put32 w ++ rest)) n (i + 1) ≡ done ws =
      rw (append_assoc pre (put32 w) rest) at ih in
    rw (room, first, again)

-- What the builder writes for a header that fits the wire.
abbrev header_bytes : Header → List ℕ
header_bytes h =
    build_byte0 h ∷ build_byte1 h ∷ put16 h.sequence
    ++ (put32 h.timestamp ++ (put32 h.ssrc ++ source_bytes h.csrc))

-- The builder accepts a header that fits the wire exactly if its bytes fit the buffer, and then
-- writes 12 bytes and 4 for each source.
pub build_header-IsWire :
    (h : Header) (max_len : ℕ)
    → IsWire h
    → 12 + 4 * h.num_csrc ≤ max_len
    → (build_header h max_len ≡ done (header_bytes h))
      × (length (header_bytes h) ≡ 12 + 4 * h.num_csrc)
unfolding build_header
build_header-IsWire h max_len v fits = (
  rw (
    v.no_extension,
    ltb-false max_len (12 + 4 * h.num_csrc) fits,
    build_csrc-done h.num_csrc h.csrc v.sources_agree,
  ),
  omega (arith, length-source_bytes h.csrc, v.sources_agree),
)

abbrev Byte0Fields : Header → ℕ → Type 0
Byte0Fields h b =
    (low_bits 2 (b >> 6) ≡ h.version)
    × (low_bits 4 b ≡ h.csrc_count)
    × (bit_set (low_bits 1 (b >> 5)) ≡ h.padding)
    × (bit_set (low_bits 1 (b >> 4)) ≡ h.extension)

build_byte0_fields : (h : Header) → IsWire h → Byte0Fields h (build_byte0 h)
build_byte0_fields h v =
    let sum = build_byte0_sum h in
    let p = bit-lt h.padding in
    let x = bit-lt h.extension in
    let two = v.version_two in
    let pad : low_bits 1 (build_byte0 h >> 5) ≡ bit h.padding = omega arith in
    let ext : low_bits 1 (build_byte0 h >> 4) ≡ bit h.extension = omega arith in
    (
      omega arith,
      omega arith,
      ap bit_set pad ∙ bit_set-bit h.padding,
      ap bit_set ext ∙ bit_set-bit h.extension,
    )

build_byte1_fields :
    (h : Header)
    → IsWire h
    → (bit_set (low_bits 1 (build_byte1 h >> 7)) ≡ h.marker)
      × (low_bits 7 (build_byte1 h) ≡ h.payload_type)
build_byte1_fields h v =
    let sum = build_byte1_sum h in
    let m = bit-lt h.marker in
    let mark : low_bits 1 (build_byte1 h >> 7) ≡ bit h.marker = omega arith in
    (ap bit_set mark ∙ bit_set-bit h.marker, omega arith)

parse_csrc-header_bytes :
    (h : Header) (payload : List ℕ)
    → IsWire h
    → parse_csrc (header_bytes h ++ payload) h.csrc_count 0 ≡ done h.csrc
parse_csrc-header_bytes h payload v =
    parse_csrc-source_bytes
      (build_byte0 h ∷ build_byte1 h ∷ put16 h.sequence ++ (put32 h.timestamp ++ put32 h.ssrc))
      payload h.csrc_count 0 h.csrc refl (v.sources_agree ∙ v.count_agrees) v.sources_fit

check_len-no_extension :
    (p : List ℕ) (h : Header)
    → h.extension ≡ false
    → 12 + 4 * h.num_csrc ≤ length p
    → check_len p h ≡ done h
unfolding check_len
check_len-no_extension p h e l = ground arith

length-header_bytes :
    (h : Header) (payload : List ℕ)
    → IsWire h
    → length (header_bytes h ++ payload) ≡ 12 + 4 * h.num_csrc + length payload
length-header_bytes h payload v =
    omega
      (arith, length-append (header_bytes h) payload, length-source_bytes h.csrc, v.sources_agree)

parse_rest-header_bytes :
    (h : Header) (payload : List ℕ)
    → IsWire h
    → parse_rest (header_bytes h ++ payload) (build_byte0 h) ≡ done h
unfolding parse_rest read read16 read32
parse_rest-header_bytes h payload v =
    let (ev, ec, ep, ex) = build_byte0_fields h v in
    let (em, et) = build_byte1_fields h v in
    let small : (if ltb h.csrc_count 16 then h.csrc_count else 16) ≡ h.csrc_count = ground arith in
    let kept : (if ltb 16 h.csrc_count then 16 else h.csrc_count) ≡ h.num_csrc = ground arith in
    rw
      (
        ec,
        small,
        parse_csrc-header_bytes h payload v,
        kept,
        ev,
        ep,
        ex,
        em,
        et,
        be16-put16 h.sequence v.sequence_fits,
        be32-put32 h.timestamp v.timestamp_fits,
        be32-put32 h.ssrc v.ssrc_fits,
      )
      (check_len-no_extension (header_bytes h ++ payload) h v.no_extension
        (omega (arith, length-header_bytes h payload v)))

-- A header that fits the wire, built into a buffer that is large enough and followed by any
-- payload, is parsed to itself; and the payload accessor finds that payload.
pub parse_header-build_header :
    (h : Header) (max_len : ℕ) (payload : List ℕ)
    → IsWire h
    → 12 + 4 * h.num_csrc ≤ max_len
    → (bytes : List ℕ) × (build_header h max_len ≡ done bytes)
      × (parse_header (bytes ++ payload) ≡ done h)
      × (get_payload (bytes ++ payload) h ≡ done (length bytes))
unfolding parse_header read get_payload
parse_header-build_header h max_len payload v fits =
    let (built, len) = build_header-IsWire h max_len v fits in
    let two : (low_bits 2 (build_byte0 h >> 6) == 2) ≡ true =
      rw (build_byte0_fields h v).0 (ground arith) in
    let long : ltb (length (header_bytes h ++ payload)) 12 ≡ false =
      ltb-false _ _ (omega (arith, length-header_bytes h payload v)) in
    let room : ltb (length (header_bytes h ++ payload)) (12 + 4 * h.num_csrc) ≡ false =
      ltb-false _ _ (omega (arith, length-header_bytes h payload v)) in
    (
      header_bytes h,
      built,
      rw (long, two, parse_rest-header_bytes h payload v),
      rw (v.no_extension, room, len),
    )

-- A header without extension and sources always takes 12 bytes.
pub build_header_plain :
    (h : Header) (max_len : ℕ)
    → h.extension ≡ false
    → h.num_csrc ≡ 0
    → 12 ≤ max_len
    → (bytes : List ℕ) × (build_header h max_len ≡ done bytes) × (length bytes ≡ 12)
unfolding build_header
build_header_plain h max_len off none fits =
    let room : ltb max_len 12 ≡ false = ltb-false max_len 12 fits in
    (
      build_byte0 h ∷ build_byte1 h ∷ put16 h.sequence
          ++ (put32 h.timestamp ++ (put32 h.ssrc ++ [])),
      rw (off, none, room),
      refl,
    )
