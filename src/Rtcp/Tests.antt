-- ===== src/Rtcp/Tests.antt =====
-- Runs of the RTCP code of src/media/rtp.c.
use tinyrtc.Prelude.{
  ℕ, ◌+◌, ◌*◌, ◌^◌, ◌≢◌, ◌≡◌, List, [], ◌∷◌, ◌++◌, arith, length, done, fault, suc, get_elem?,
}
use tinyrtc.Rtcp.{
  ReportBlock, SenderReport, build_sender_report, parse_sender_report, build_receiver_report,
  parse_report_block,
}
use tinyrtc.Rtcp.SenderReports.{parse_sender_report-build_sender_report}
use tinyrtc.Rtcp.Bounds.{parse_sender_report-ne-fault, parse_report_block-ne-fault}
use tinyrtc.Rtcp.Blocks.{entry, parse_report_block-build_receiver_report}
use tinyrtc.Rtcp.SenderReports
use tinyrtc.Rtcp.Blocks

abbrev report : SenderReport
report = record {
  ssrc = 17;
  ntp_timestamp = 2 ^ 40 + 5;
  rtp_timestamp = 90000;
  packet_count = 12;
  octet_count = 3400;
}

report-IsWire : SenderReports.IsWire report
report-IsWire = record {
  ssrc_fits = omega arith;
  ntp_fits = omega arith;
  rtp_fits = omega arith;
  packets_fit = omega arith;
  octets_fit = omega arith;
}

abbrev block : ReportBlock
block = record {
  ssrc = 17;
  fraction_lost = 12;
  cumulative_lost = 70000;
  highest_seq = 65540;
  jitter = 3;
  lsr = 4;
  dlsr = 5;
}

block-IsWire : Blocks.IsWire block
block-IsWire = record {
  ssrc_fits = omega arith;
  fraction_fits = omega arith;
  lost_fits = omega arith;
  seq_fits = omega arith;
  jitter_fits = omega arith;
  lsr_fits = omega arith;
  dlsr_fits = omega arith;
}

parse_sender_report-build_sender_report_example :
    (bytes : List ℕ) × (build_sender_report report 64 ≡ done bytes)
    × (length bytes ≡ 28)
    × (parse_sender_report (bytes ++ (9 ∷ [])) ≡ done report)
parse_sender_report-build_sender_report_example =
    parse_sender_report-build_sender_report report 64 (9 ∷ []) report-IsWire (omega arith)

parse_report_block-build_receiver_report_example :
    (bytes : List ℕ) × (build_receiver_report (block ∷ block ∷ []) (length (block ∷ block ∷ [])) 100
      ≡ done bytes)
    × (length bytes ≡ 4 + 24 * length (block ∷ block ∷ []))
    × (parse_report_block 0 bytes ≡ entry (get_elem? (block ∷ block ∷ []) (suc 0)))
parse_report_block-build_receiver_report_example =
    parse_report_block-build_receiver_report (block ∷ block ∷ []) 100 0 (omega arith) (omega arith)
      (block-IsWire, (block-IsWire, tt)) (omega arith)

short_report : parse_sender_report (0x80 ∷ 200 ∷ 0 ∷ 6 ∷ []) ≢ fault
short_report = parse_sender_report-ne-fault (0x80 ∷ 200 ∷ 0 ∷ 6 ∷ [])

short_block : parse_report_block 2 (0x80 ∷ 200 ∷ 0 ∷ 6 ∷ []) ≢ fault
short_block = parse_report_block-ne-fault 2 (0x80 ∷ 200 ∷ 0 ∷ 6 ∷ []) (omega arith)
