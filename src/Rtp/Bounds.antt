-- ===== src/Rtp/Bounds.antt =====
-- The reads of the RTP header parser and the payload accessor of src/media/rtp.c.
use tinyrtc.Prelude.{
  ℕ, zero, suc, ◌+◌, ◌*◌, ◌≤◌, ◌≡◌, ◌≢◌, inl, inr, Bool, true, false, List, arith, length, lt_cases,
  done, fault, >>=-elim, read, read16, read32, read16-done, read32-done, read-done, ltb,
  if◌then◌else◌, low_bits,
}
use tinyrtc.Rtp.{
  Header, parse_csrc, extended_len, check_len, parse_rest, parse_header, get_payload, payload_start,
}

-- The CSRC loop stays inside the packet.
parse_csrc-ne-fault : (p : List ℕ) (n i : ℕ) → parse_csrc p n i ≢ fault
unfolding parse_csrc
parse_csrc-ne-fault p zero i = λ e. cc
parse_csrc-ne-fault p (suc n) i = elim (lt_cases (length p) (12 + i * 4 + 4)) [
  | inl (h, t) ↦ rw t (λ e. cc)
  | inr (h, t) ↦
      let (w, e) = read32-done p (12 + i * 4) h in
      rw (t, e) (ground (arith, parse_csrc-ne-fault p n (i + 1)))
]

extended_len-ne-fault : (p : List ℕ) (ext : Bool) (n : ℕ) → extended_len p ext n ≢ fault
unfolding extended_len
extended_len-ne-fault p false n = λ e. cc
extended_len-ne-fault p true n = elim (lt_cases (length p) (n + 4)) [
  | inl (h, t) ↦ rw t (λ e. cc)
  | inr (h, t) ↦ let (w, e) = read16-done p (n + 2) (omega arith) in rw (t, e) (λ e. cc)
]

check_len-ne-fault : (p : List ℕ) (h : Header) → check_len p h ≢ fault
unfolding check_len
check_len-ne-fault p h = ground (arith, extended_len-ne-fault p h.extension (12 + 4 * h.num_csrc))

-- The fields are what the reads gave, so no later step can fault either.
parse_rest-ne-fault : (p : List ℕ) (b0 : ℕ) → 12 ≤ length p → parse_rest p b0 ≢ fault
unfolding parse_rest
parse_rest-ne-fault p b0 h =
    let (b1, e1) = read-done p 1 (omega arith) in
    let (w2, e2) = read16-done p 2 (omega arith) in
    let (w4, e4) = read32-done p 4 (omega arith) in
    let (w8, e8) = read32-done p 8 (omega arith) in
    rw (e1, e2, e4, e8) (grind (arith, parse_csrc-ne-fault, check_len-ne-fault))

-- Whatever the packet holds, the parser accepts or refuses it without a read outside.
pub parse_header-ne-fault : (p : List ℕ) → parse_header p ≢ fault
unfolding parse_header
parse_header-ne-fault p = elim (lt_cases (length p) 12) [
  | inl (h, t) ↦ rw t (λ e. cc)
  | inr (h, t) ↦
      let (b0, e0) = read-done p 0 (omega arith) in
      rw (t, e0) (ground (arith, parse_rest-ne-fault p b0 h))
]

check_len-done : (p : List ℕ) (h : Header) {h' : Header} → check_len p h ≡ done h' → h ≡ h'
unfolding check_len
check_len-done p h e = ground arith

check_len_self :
    (p : List ℕ) (h : Header) {h' : Header} → check_len p h ≡ done h' → check_len p h' ≡ done h'
check_len_self p h e = let same = check_len-done p h e in rw same at e

-- An accepted header went through the last check.
check_len-parse_rest :
    (p : List ℕ) (b0 : ℕ) {h : Header} → parse_rest p b0 ≡ done h → check_len p h ≡ done h
unfolding parse_rest
check_len-parse_rest p b0 e = >>=-elim (read p 1) _ e λ b1 _ e1.
    >>=-elim (read16 p 2) _ e1 λ w2 _ e2. >>=-elim (read32 p 4) _ e2 λ w4 _ e4.
      >>=-elim (read32 p 8) _ e4 λ w8 _ e8.
        >>=-elim (parse_csrc p (if ltb (low_bits 4 b0) 16 then low_bits 4 b0 else 16) 0) _ e8
          λ ws _ e9. check_len_self p _ e9

check_len-parse_header :
    (p : List ℕ) {h : Header} → parse_header p ≡ done h → check_len p h ≡ done h
unfolding parse_header
check_len-parse_header p {h} e = grind (arith, check_len-parse_rest)

payload_start-extended_len :
    (p : List ℕ) (ext : Bool) (n : ℕ) {off : ℕ}
    → extended_len p ext n ≡ done off
    → (payload_start p ext n ≡ done off) × (n ≤ off)
unfolding payload_start extended_len
payload_start-extended_len p ext n e = ground arith

-- After an accepted packet the payload accessor returns an offset behind the fixed header and the
-- sources, inside the packet or at its end.
pub get_payload-parse_header :
    (p : List ℕ) {h : Header}
    → parse_header p ≡ done h
    → (off : ℕ) × (get_payload p h ≡ done off) × (12 + 4 * h.num_csrc ≤ off) × (off ≤ length p)
unfolding get_payload check_len
get_payload-parse_header p {h} e =
    >>=-elim (extended_len p h.extension (12 + 4 * h.num_csrc)) _ (check_len-parse_header p e)
      λ off at_off last.
        let (start, behind) = payload_start-extended_len p h.extension _ at_off in
        (off, ground arith, behind, ground arith)
