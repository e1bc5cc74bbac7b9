-- ===== src/Rtcp/Blocks.antt =====
-- The report blocks of src/media/rtp.c, built and read.
use tinyrtc.Prelude.{
  ℕ, zero, suc, ◌+◌, ◌-◌, ◌*◌, ◌^◌, ◌/◌, ◌≤◌, ◌<◌, ◌≡◌, ◌∙◌, refl, false, leb, List, [], ◌∷◌, ◌++◌,
  append_assoc, append-nil, get_elem?-none, Option, none, some, arith, length, length-append,
  get_elem?, All, ltb, ltb-false, ltb-true, low_bits, ◌<<◌, be32-put32, be24-put24, bit_or, done,
  refused, Outcome, read, read24, read32, put16, read-append, read24-append, read32-append,
}
use tinyrtc.Rtcp.{ReportBlock, parse_report_block, block_bytes, build_blocks, build_receiver_report}

-- The fields lie within their widths; `cumulative_lost` has 24 bits.
pub record IsWire (rb : ReportBlock) : Type 0 where
  pub ssrc_fits : rb.ssrc < 2 ^ 32
  pub fraction_fits : rb.fraction_lost < 2 ^ 8
  pub lost_fits : rb.cumulative_lost < 2 ^ 24
  pub seq_fits : rb.highest_seq < 2 ^ 32
  pub jitter_fits : rb.jitter < 2 ^ 32
  pub lsr_fits : rb.lsr < 2 ^ 32
  pub dlsr_fits : rb.dlsr < 2 ^ 32

abbrev pub blocks_bytes : List ReportBlock → List ℕ
blocks_bytes [] = []
blocks_bytes (b ∷ bs) = block_bytes b ++ blocks_bytes bs

length-blocks_bytes : (bs : List ReportBlock) → length (blocks_bytes bs) ≡ 24 * length bs
length-blocks_bytes [] = omega arith
length-blocks_bytes (b ∷ bs) = omega (arith, length-blocks_bytes bs)

-- One block behind a first part of `28 + 24 * i` bytes.
parse_report_block-here :
    (pre post : List ℕ) (i : ℕ) (b : ReportBlock)
    → length pre ≡ 28 + i * 24
    → 28 + i * 24 < 2 ^ 31
    → IsWire b
    → parse_report_block i (pre ++ (block_bytes b ++ post)) ≡ done b
unfolding parse_report_block
parse_report_block-here pre post i b l small v =
    let ys : List ℕ = block_bytes b ++ post in
    let off : ℕ = 28 + i * 24 in
    let exact : leb (2 ^ 31) off ≡ false = ground arith in
    let room : ltb (length (pre ++ ys)) (off + 24) ≡ false =
      ltb-false _ _ (omega (arith, length-append pre ys)) in
    rw
      (
        exact,
        room,
        read32-append pre ys off 0 (omega arith),
        read-append pre ys (off + 4) 4 (omega arith),
        read24-append pre ys (off + 5) 5 (omega arith),
        read32-append pre ys (off + 8) 8 (omega arith),
        read32-append pre ys (off + 12) 12 (omega arith),
        read32-append pre ys (off + 16) 16 (omega arith),
        read32-append pre ys (off + 20) 20 (omega arith),
      )
      (unfold read read24 read32 in
        rw (
          be32-put32 b.ssrc v.ssrc_fits,
          be24-put24 b.cumulative_lost v.lost_fits,
          be32-put32 b.highest_seq v.seq_fits,
          be32-put32 b.jitter v.jitter_fits,
          be32-put32 b.lsr v.lsr_fits,
          be32-put32 b.dlsr v.dlsr_fits,
        ))

-- Any 28 bytes followed by report blocks: index `i` of the parser is the block at `i`.
pub parse_report_block-blocks_bytes :
    (pre post : List ℕ) (bs : List ReportBlock) (i : ℕ) {b : ReportBlock}
    → length pre ≡ 28
    → 28 + i * 24 < 2 ^ 31
    → All IsWire bs
    → get_elem? bs i ≡ some b
    → parse_report_block i (pre ++ (blocks_bytes bs ++ post)) ≡ done b
parse_report_block-blocks_bytes pre post bs i l small a e =
    go pre bs i 0 i (omega arith) (omega arith) small a e
  where
    go :
        (pre : List ℕ) (bs : List ReportBlock) (i k j : ℕ) {b : ReportBlock}
        → length pre ≡ 28 + k * 24
        → k + j ≡ i
        → 28 + i * 24 < 2 ^ 31
        → All IsWire bs
        → get_elem? bs j ≡ some b
        → parse_report_block i (pre ++ (blocks_bytes bs ++ post)) ≡ done b
    go pre [] i k j l s small a e = absurd (cc)
    go pre (b ∷ bs) i k zero l s small a e =
        let here : i ≡ k = omega arith in
        rw here
          (parse_report_block-here pre (blocks_bytes bs ++ post) k b l (omega arith) a.0 ∙ (cc))
    go pre (b ∷ bs) i k (suc j) {b = c} l s small a e =
        let later : parse_report_block i ((pre ++ block_bytes b) ++ (blocks_bytes bs ++ post))
            ≡ done c =
          go (pre ++ block_bytes b) bs i (k + 1) j
            (omega (arith, length-append pre (block_bytes b))) (omega arith) small a.1 e in
        rw (append_assoc pre (block_bytes b) (blocks_bytes bs ++ post)) at later

-- Behind the last block the parser refuses.
parse_report_block-short :
    (i : ℕ) (p : List ℕ)
    → 28 + i * 24 < 2 ^ 31
    → length p < 28 + i * 24 + 24
    → parse_report_block i p ≡ refused
unfolding parse_report_block
parse_report_block-short i p small h =
    let exact : leb (2 ^ 31) (28 + i * 24) ≡ false = ground arith in rw (exact, ltb-true _ _ h)

build_blocks-done :
    (n : ℕ) (bs : List ReportBlock) → length bs ≡ n → build_blocks n bs ≡ done (blocks_bytes bs)
unfolding build_blocks
build_blocks-done zero [] e = refl
build_blocks-done zero (b ∷ bs) e = absurd (omega arith)
build_blocks-done (suc n) [] e = absurd (omega arith)
build_blocks-done (suc n) (b ∷ bs) e = rw (build_blocks-done n bs (omega arith))

abbrev report_header : ℕ → List ℕ
report_header n = bit_or (2 << 6) (low_bits 5 n) ∷ 201 ∷ put16 ((4 + 24 * n) / 4 - 1)

-- What the reader sees of an array entry: the block, or a refusal past the end.
abbrev pub entry : Option ReportBlock → Outcome ReportBlock
entry none = refused
entry (some b) = done b

entries-report :
    (n : ℕ) (bs : List ReportBlock) (i : ℕ)
    → 28 + i * 24 < 2 ^ 31
    → All IsWire bs
    → parse_report_block i (report_header n ++ blocks_bytes bs) ≡ entry (get_elem? bs (suc i))
entries-report n [] i small a = parse_report_block-short i _ small (omega arith)
entries-report n (b ∷ bs) i small a = go (get_elem? bs i) refl
  where
    go :
        (o : Option ReportBlock)
        → get_elem? bs i ≡ o
        → parse_report_block i (report_header n ++ blocks_bytes (b ∷ bs)) ≡ entry o
    go none e =
        parse_report_block-short i _ small
          (omega (arith, get_elem?-none bs i e, length-blocks_bytes bs))
    go (some c) e =
        let found : parse_report_block i
              ((report_header n ++ block_bytes b) ++ (blocks_bytes bs ++ []))
            ≡ done c =
          parse_report_block-blocks_bytes (report_header n ++ block_bytes b) [] bs i refl small a.1
            e in
        rw (append-nil (blocks_bytes bs)) at found

-- A receiver report of at most 31 blocks, built into a buffer that is large enough, takes 4 bytes
-- and 24 for each block. Reading it with the report block parser, at an index for which the offset
-- does not overflow an `int`, is off by one block: index `i` gives block `i + 1`, and the last index
-- and those behind it are refused, so that block 0 is never seen.
pub parse_report_block-build_receiver_report :
    (blocks : List ReportBlock) (max_len i : ℕ)
    → length blocks ≤ 31
    → 4 + 24 * length blocks ≤ max_len
    → All IsWire blocks
    → 28 + i * 24 < 2 ^ 31
    → (bytes : List ℕ) × (build_receiver_report blocks (length blocks) max_len ≡ done bytes)
      × (length bytes ≡ 4 + 24 * length blocks)
      × (parse_report_block i bytes ≡ entry (get_elem? blocks (suc i)))
unfolding build_receiver_report
parse_report_block-build_receiver_report blocks max_len i few fits a small = (
  report_header (length blocks) ++ blocks_bytes blocks,
  rw (
    ltb-false 31 (length blocks) few,
    ltb-false max_len (4 + 24 * length blocks) fits,
    build_blocks-done (length blocks) blocks refl,
  ),
  omega (arith, length-blocks_bytes blocks),
  entries-report (length blocks) blocks i small a,
)
