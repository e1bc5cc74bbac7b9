-- ===== src/Rtcp/Bounds.antt =====
-- The reads of the RTCP parsers of src/media/rtp.c.
use tinyrtc.Prelude.{
  ℕ, ◌+◌, ◌*◌, ◌^◌, ◌≤◌, ◌<◌, ◌≡◌, ◌≢◌, false, leb, inl, inr, List, arith, length, lt_cases, fault,
  read-done, read16-done, read24-done, read32-done,
}
use tinyrtc.Rtcp.{get_type, parse_sender_fields, parse_sender_report, parse_report_block}

parse_sender_fields-ne-fault : (p : List ℕ) → 28 ≤ length p → parse_sender_fields p ≢ fault
unfolding parse_sender_fields
parse_sender_fields-ne-fault p h =
    let (a, ea) = read32-done p 4 (omega arith) in
    let (b, eb) = read32-done p 8 (omega arith) in
    let (c, ec) = read32-done p 12 (omega arith) in
    let (d, ed) = read32-done p 16 (omega arith) in
    let (e, ee) = read32-done p 20 (omega arith) in
    let (f, ef) = read32-done p 24 (omega arith) in rw (ea, eb, ec, ed, ee, ef) (λ q. cc)

-- Whatever the packet holds, parsing it as a sender report reads nothing outside it.
pub parse_sender_report-ne-fault : (p : List ℕ) → parse_sender_report p ≢ fault
unfolding parse_sender_report get_type
parse_sender_report-ne-fault p = elim (lt_cases (length p) 28) [
  | inl (h, t) ↦ rw t (λ e. cc)
  | inr (h, t) ↦
      let (b0, e0) = read-done p 0 (omega arith) in
      let (b1, e1) = read-done p 1 (omega arith) in
      let (w, ew) = read16-done p 2 (omega arith) in
      rw (t, e0) (ground (arith, parse_sender_fields-ne-fault p h))
]

-- Whatever the packet holds, and at any index for which the offset does not overflow an `int`,
-- reading a report block from it reads nothing outside it.
pub parse_report_block-ne-fault :
    (i : ℕ) (p : List ℕ) → 28 + i * 24 < 2 ^ 31 → parse_report_block i p ≢ fault
unfolding parse_report_block
parse_report_block-ne-fault i p small =
    let exact : leb (2 ^ 31) (28 + i * 24) ≡ false = ground arith in
    elim (lt_cases (length p) (28 + i * 24 + 24)) [
      | inl (h, t) ↦ rw (exact, t) (λ e. cc)
      | inr (h, t) ↦
          let (a, ea) = read32-done p (28 + i * 24) (omega arith) in
          let (b, eb) = read-done p (28 + i * 24 + 4) (omega arith) in
          let (c, ec) = read24-done p (28 + i * 24 + 5) (omega arith) in
          let (d, ed) = read32-done p (28 + i * 24 + 8) (omega arith) in
          let (e, ee) = read32-done p (28 + i * 24 + 12) (omega arith) in
          let (f, ef) = read32-done p (28 + i * 24 + 16) (omega arith) in
          let (g, eg) = read32-done p (28 + i * 24 + 20) (omega arith) in
          rw (exact, t, ea, eb, ec, ed, ee, ef, eg) (λ q. cc)
    ]
