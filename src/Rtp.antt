-- ===== src/Rtp.antt =====
-- The RTP header of src/media/rtp.c. A packet is the list of its bytes, and `len` is its length.
-- The pointers are not null. A header that a caller built by hand may announce more sources than
-- `csrc` holds; reading those is a fault.
mod Tests
pub mod Bounds
pub mod RoundTrip
use tinyrtc.Prelude.{
  ℕ, zero, suc, ◌+◌, ◌*◌, Bool, true, false, ◌&&◌, not, List, [], ◌∷◌, ◌++◌, ltb, leb, ◌==◌,
  if◌then◌else◌, length, ◌<<◌, ◌>>◌, low_bits, bit_or, put16, put32, Outcome, done, refused, fault,
  ◌>>=◌, read, read16, read32,
}

-- `tinyrtc_rtp_header_t`. `csrc` holds the entries of the array that were written, and
-- `num_csrc` is not negative.
pub record Header : Type 0 where
  pub version : ℕ
  pub padding : Bool
  pub extension : Bool
  pub csrc_count : ℕ
  pub marker : Bool
  pub payload_type : ℕ
  pub sequence : ℕ
  pub timestamp : ℕ
  pub ssrc : ℕ
  pub num_csrc : ℕ
  pub csrc : List ℕ

-- `x != 0` of a single bit
abbrev pub bit_set : ℕ → Bool
bit_set x = not (x == 0)

-- The CSRC loop of the parser, with `n` rounds left from index `i`.
pub parse_csrc : List ℕ → ℕ → ℕ → Outcome (List ℕ)
parse_csrc p zero i = done []
parse_csrc p (suc n) i =
    let rest = parse_csrc p n (i + 1) in
    let off = 12 + i * 4 in
    if ltb (length p) (off + 4) then refused else (do w ← read32 p off; ws ← rest; done (w ∷ ws))

-- The length of the header, with the extension that a set X bit announces: `refused` where the
-- extension's own header does not fit. `ext_len` is a `uint16_t`.
pub extended_len : List ℕ → Bool → ℕ → Outcome ℕ
extended_len p ext header_len =
    if ext
    then (if ltb (length p) (header_len + 4)
        then refused
        else (do ext_len ← read16 p (header_len + 2); done (header_len + (4 + 4 * ext_len))))
    else done header_len

-- The last check: the whole header lies inside the packet.
pub check_len : List ℕ → Header → Outcome Header
unfolding extended_len
check_len p h = do
  header_len ← extended_len p h.extension (12 + 4 * h.num_csrc)
  if ltb (length p) header_len then refused else done h

-- What the parser does behind the version check, given the first byte.
pub parse_rest : List ℕ → ℕ → Outcome Header
unfolding parse_csrc check_len
parse_rest p b0 = do
  b1 ← read p 1
  sequence ← read16 p 2
  timestamp ← read32 p 4
  ssrc ← read32 p 8
  let csrc_count = low_bits 4 b0
  csrc ← parse_csrc p (if ltb csrc_count 16 then csrc_count else 16) 0
  check_len p (record {
    version = low_bits 2 (b0 >> 6);
    padding = bit_set (low_bits 1 (b0 >> 5));
    extension = bit_set (low_bits 1 (b0 >> 4));
    csrc_count = csrc_count;
    marker = bit_set (low_bits 1 (b1 >> 7));
    payload_type = low_bits 7 b1;
    sequence = sequence;
    timestamp = timestamp;
    ssrc = ssrc;
    num_csrc = if ltb 16 csrc_count then 16 else csrc_count;
    csrc = csrc;
  })

-- `tinyrtc_rtp_parse_header`; `refused` is the result `false`.
unfoldable pub parse_header : List ℕ → Outcome Header
unfolding parse_rest
parse_header p =
    if ltb (length p) 12
    then refused
    else (do b0 ← read p 0; if not (low_bits 2 (b0 >> 6) == 2) then refused else parse_rest p b0)

abbrev pub bit : Bool → ℕ
bit true = 1
bit false = 0

-- The CSRC loop of the builder: the bytes of the first `n` sources.
pub build_csrc : ℕ → List ℕ → Outcome (List ℕ)
build_csrc zero ws = done []
build_csrc (suc n) [] = fault
build_csrc (suc n) (w ∷ ws) = do rest ← build_csrc n ws; done (put32 w ++ rest)

pub build_byte0 : Header → ℕ
build_byte0 h =
    bit_or (bit_or (bit_or (low_bits 2 h.version << 6) (bit h.padding << 5)) (bit h.extension << 4))
      (low_bits 4 h.csrc_count)

pub build_byte1 : Header → ℕ
build_byte1 h = bit_or (bit h.marker << 7) (low_bits 7 h.payload_type)

-- `tinyrtc_rtp_build_header`: the bytes that it writes, whose number it returns; `refused` is the
-- result 0. All of the first `header_len` bytes are written.
unfoldable pub build_header : Header → ℕ → Outcome (List ℕ)
unfolding build_csrc build_byte0 build_byte1
build_header h max_len =
    if h.extension then refused else if ltb max_len (12 + 4 * h.num_csrc) then refused else (do
      sources ← build_csrc h.num_csrc h.csrc
      done (
          build_byte0 h ∷ build_byte1 h ∷ put16 h.sequence
          ++ (put32 h.timestamp ++ (put32 h.ssrc ++ sources))))

-- Where the payload starts, before it is held against the length: here an extension whose own
-- header does not fit is not skipped.
pub payload_start : List ℕ → Bool → ℕ → Outcome ℕ
payload_start p ext header_len =
    if ext && leb (header_len + 4) (length p)
    then (do ext_len ← read16 p (header_len + 2); done (header_len + (4 + 4 * ext_len)))
    else done header_len

-- `tinyrtc_rtp_get_payload`: the offset of the payload, `refused` for `NULL`.
unfoldable pub get_payload : List ℕ → Header → Outcome ℕ
unfolding payload_start
get_payload p h = do
  header_len ← payload_start p h.extension (12 + 4 * h.num_csrc)
  if ltb (length p) header_len then refused else done header_len
