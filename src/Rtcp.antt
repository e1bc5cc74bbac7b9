-- ===== src/Rtcp.antt =====
-- The RTCP part of src/media/rtp.c: sender reports, receiver reports and their report blocks.
-- A packet is the list of its bytes, and `len` is its length. The pointers are not null.
mod Tests
pub mod Bounds
pub mod Blocks
pub mod SenderReports
use tinyrtc.Prelude.{
  ℕ, ◌^◌, zero, suc, ◌+◌, ◌-◌, ◌*◌, ◌/◌, not, List, [], ◌∷◌, ◌++◌, ltb, leb, ◌==◌, if◌then◌else◌,
  length, ◌<<◌, ◌>>◌, low_bits, u64, bit_or, put16, put24, put32, put64, Outcome, done, refused,
  fault, ◌>>=◌, read, read16, read24, read32,
}

-- `tinyrtc_rtcp_report_block_t`
pub record ReportBlock : Type 0 where
  pub ssrc : ℕ
  pub fraction_lost : ℕ
  pub cumulative_lost : ℕ
  pub highest_seq : ℕ
  pub jitter : ℕ
  pub lsr : ℕ
  pub dlsr : ℕ

-- `tinyrtc_rtcp_sender_report_t`
pub record SenderReport : Type 0 where
  pub ssrc : ℕ
  pub ntp_timestamp : ℕ
  pub rtp_timestamp : ℕ
  pub packet_count : ℕ
  pub octet_count : ℕ

-- `tinyrtc_rtcp_get_type`; a packet without a whole header has type 0xFF.
unfoldable pub get_type : List ℕ → Outcome ℕ
get_type p = if ltb (length p) 4 then done 0xFF else (do b ← read p 1; done (low_bits 8 b))

-- `tinyrtc_rtcp_get_report_count`
unfoldable pub get_report_count : List ℕ → Outcome ℕ
get_report_count p = if ltb (length p) 4 then done 0 else (do b ← read p 0; done (low_bits 5 b))

-- `((uint64_t)ntp_hi << 32) | ntp_lo`
pub ntp_join : ℕ → ℕ → ℕ
ntp_join hi lo = u64 (bit_or (hi << 32) lo)

-- The fields of a sender report whose header was accepted.
pub parse_sender_fields : List ℕ → Outcome SenderReport
parse_sender_fields p = do
  ssrc ← read32 p 4
  ntp_hi ← read32 p 8
  ntp_lo ← read32 p 12
  rtp_timestamp ← read32 p 16
  packet_count ← read32 p 20
  octet_count ← read32 p 24
  done (record {
    ssrc = ssrc;
    ntp_timestamp = ntp_join ntp_hi ntp_lo;
    rtp_timestamp = rtp_timestamp;
    packet_count = packet_count;
    octet_count = octet_count;
  })

-- `tinyrtc_rtcp_parse_sender_report`; `refused` is the result `false`.
unfoldable pub parse_sender_report : List ℕ → Outcome SenderReport
unfolding get_type ntp_join parse_sender_fields
parse_sender_report p = if ltb (length p) 28 then refused else (do
  b0 ← read p 0
  if not (low_bits 2 (b0 >> 6) == 2) then refused else (do
    type ← get_type p
    if not (type == 200) then refused else (do
      length_words ← read16 p 2
      if ltb (length p) ((length_words + 1) * 4) then refused else parse_sender_fields p)))

-- `tinyrtc_rtcp_parse_report_block` at an index that is not negative; the offset is that of the
-- blocks of a sender report. It is computed in an `int`: a fault also stands for its overflow.
unfoldable pub parse_report_block : ℕ → List ℕ → Outcome ReportBlock
parse_report_block report_index p =
    let offset = 28 + report_index * 24 in
    if leb (2 ^ 31) offset then fault else if ltb (length p) (offset + 24) then refused else (do
      ssrc ← read32 p offset
      fraction_lost ← read p (offset + 4)
      cumulative_lost ← read24 p (offset + 5)
      highest_seq ← read32 p (offset + 8)
      jitter ← read32 p (offset + 12)
      lsr ← read32 p (offset + 16)
      dlsr ← read32 p (offset + 20)
      done (record {
        ssrc = ssrc;
        fraction_lost = fraction_lost;
        cumulative_lost = cumulative_lost;
        highest_seq = highest_seq;
        jitter = jitter;
        lsr = lsr;
        dlsr = dlsr;
      }))

-- `tinyrtc_rtcp_build_sender_report`: the 28 bytes that it writes; `refused` is the result 0.
unfoldable pub build_sender_report : SenderReport → ℕ → Outcome (List ℕ)
build_sender_report sr max_len =
    if ltb max_len 28
    then refused
    else done (
        (2 << 6) ∷ 200 ∷ 0 ∷ 6 ∷ put32 sr.ssrc
        ++ (put64 sr.ntp_timestamp
            ++ (put32 sr.rtp_timestamp ++ (put32 sr.packet_count ++ put32 sr.octet_count))))

-- The 24 bytes of one block; `fraction_lost` is stored as it is.
abbrev pub block_bytes : ReportBlock → List ℕ
block_bytes rb =
    put32 rb.ssrc
    ++ (rb.fraction_lost ∷ put24 rb.cumulative_lost
        ++ (put32 rb.highest_seq ++ (put32 rb.jitter ++ (put32 rb.lsr ++ put32 rb.dlsr))))

-- The loop over the first `n` blocks; reading past the array is a fault.
pub build_blocks : ℕ → List ReportBlock → Outcome (List ℕ)
build_blocks zero bs = done []
build_blocks (suc n) [] = fault
build_blocks (suc n) (b ∷ bs) = do rest ← build_blocks n bs; done (block_bytes b ++ rest)

-- `tinyrtc_rtcp_build_receiver_report` for a count that is not negative: the bytes that it writes;
-- `refused` is the result 0.
unfoldable pub build_receiver_report : List ReportBlock → ℕ → ℕ → Outcome (List ℕ)
unfolding build_blocks
build_receiver_report blocks num_blocks max_len =
    if ltb 31 num_blocks
    then refused
    else (let total_len = 4 + 24 * num_blocks in
        if ltb max_len total_len then refused else (do
          body ← build_blocks num_blocks blocks
          done (bit_or (2 << 6) (low_bits 5 num_blocks) ∷ 201 ∷ put16 (total_len / 4 - 1) ++ body)))
