-- ===== src/Rtcp/SenderReports.antt =====
-- The sender reports of src/media/rtp.c, built and read.
use tinyrtc.Prelude.{
  ℕ, ◌^◌, ◌/◌, ◌%◌, ◌≤◌, ◌<◌, ◌≡◌, ◌∙◌, refl, List, ◌++◌, arith, length, false, ltb, ltb-false,
  put32, put64, ◌∷◌, low_bits, ◌>>◌, ◌<<◌, be16, be32, be32-put32, be32_sum, done, read, read16,
  read32,
}
use tinyrtc.Prelude.Bits.{bit_or-shift}
use tinyrtc.Rtcp.{
  SenderReport, get_type, ntp_join, parse_sender_fields, parse_sender_report, build_sender_report,
}

-- The fields lie within their widths.
pub record IsWire (sr : SenderReport) : Type 0 where
  pub ssrc_fits : sr.ssrc < 2 ^ 32
  pub ntp_fits : sr.ntp_timestamp < 2 ^ 64
  pub rtp_fits : sr.rtp_timestamp < 2 ^ 32
  pub packets_fit : sr.packet_count < 2 ^ 32
  pub octets_fit : sr.octet_count < 2 ^ 32

ntp_join_halves :
    (v : ℕ)
    → v < 2 ^ 64
    → ntp_join
        (be32
          (low_bits 8 (v >> 56))
          (low_bits 8 (v >> 48))
          (low_bits 8 (v >> 40))
          (low_bits 8 (v >> 32)))
        (be32 (low_bits 8 (v >> 24)) (low_bits 8 (v >> 16)) (low_bits 8 (v >> 8)) (low_bits 8 v))
      ≡ v
unfolding ntp_join
ntp_join_halves v h =
    let hi : be32 (low_bits 8 (v >> 56)) (low_bits 8 (v >> 48)) (low_bits 8 (v >> 40))
          (low_bits 8 (v >> 32))
        ≡ v / 2 ^ 32 =
      be32_sum (low_bits 8 (v >> 56)) (low_bits 8 (v >> 48)) (low_bits 8 (v >> 40))
        (low_bits 8 (v >> 32)) (omega arith) (omega arith) (omega arith) (omega arith)
      ∙ omega arith in
    let lo : be32 (low_bits 8 (v >> 24)) (low_bits 8 (v >> 16)) (low_bits 8 (v >> 8)) (low_bits 8 v)
        ≡ v % 2 ^ 32 =
      be32_sum (low_bits 8 (v >> 24)) (low_bits 8 (v >> 16)) (low_bits 8 (v >> 8)) (low_bits 8 v)
        (omega arith) (omega arith) (omega arith) (omega arith)
      ∙ omega arith in
    rw (hi, lo, bit_or-shift 32 (v / 2 ^ 32) (v % 2 ^ 32) (omega arith)) (omega arith)

abbrev report_bytes : SenderReport → List ℕ
report_bytes sr =
    (2 << 6) ∷ 200 ∷ 0 ∷ 6 ∷ put32 sr.ssrc
    ++ (put64 sr.ntp_timestamp
        ++ (put32 sr.rtp_timestamp ++ (put32 sr.packet_count ++ put32 sr.octet_count)))

parse_sender_fields-report_bytes :
    (sr : SenderReport) (rest : List ℕ)
    → IsWire sr
    → parse_sender_fields (report_bytes sr ++ rest) ≡ done sr
unfolding parse_sender_fields read read32
parse_sender_fields-report_bytes sr rest v = rw (
  be32-put32 sr.ssrc v.ssrc_fits,
  ntp_join_halves sr.ntp_timestamp v.ntp_fits,
  be32-put32 sr.rtp_timestamp v.rtp_fits,
  be32-put32 sr.packet_count v.packets_fit,
  be32-put32 sr.octet_count v.octets_fit,
)

-- A sender report whose fields fit, built into a buffer of at least 28 bytes and followed by
-- anything, is parsed to itself; the builder writes 28 bytes.
pub parse_sender_report-build_sender_report :
    (sr : SenderReport) (max_len : ℕ) (rest : List ℕ)
    → IsWire sr
    → 28 ≤ max_len
    → (bytes : List ℕ) × (build_sender_report sr max_len ≡ done bytes)
      × (length bytes ≡ 28)
      × (parse_sender_report (bytes ++ rest) ≡ done sr)
unfolding parse_sender_report build_sender_report get_type read read16 be16
parse_sender_report-build_sender_report sr max_len rest v fits =
    let long : ltb (length (report_bytes sr ++ rest)) 28 ≡ false = ltb-false _ _ (omega arith) in
    let typed : ltb (length (report_bytes sr ++ rest)) 4 ≡ false = ltb-false _ _ (omega arith) in
    (
      report_bytes sr,
      rw (ltb-false max_len 28 fits),
      refl,
      rw (long, typed, parse_sender_fields-report_bytes sr rest v),
    )
