-- ===== src/Sdp/Candidates.antt =====
-- The lines of the candidates, from src/signal/sdp_generator.c to src/signal/sdp_parser.c.
use mathlib.Core.Path.{subst}
use tinyrtc.Prelude.{
  ℕ, zero, suc, ◌+◌, ◌^◌, ◌≤◌, ◌<◌, ◌≡◌, refl, sym, ap, ◌∙◌, true, false, not, ◌&&◌, List, [], ◌∷◌,
  ◌++◌, some, arith, append-nil, append_assoc, ltb, ltb-true, ◌==◌, length, length-append, All,
  All-append, if-true, if-false, u16, u32,
}
use tinyrtc.Ice.{max_candidates}
use tinyrtc.Sdp.{SdpCandidate, SdpSession}
use tinyrtc.Sdp.Text.{
  codes, same_text, has_char, stops, find_end, find_eol, copy_until, copied, trim_end, cons_trimmed,
  skip_whitespace, parse_int, strtol, strtoull, skip_spaces, is_space, is_digit, read_sign,
  magnitude, read_digits, long_value, as_value, print_unsigned, print_int, put_digits,
}
use tinyrtc.Sdp.Parser.{
  skip_char, starts_with, checked_priority, priority_of, make_candidate, parse_candidate,
  add_parsed, candidate_attribute, attribute,
}
use tinyrtc.Sdp.Generator.{crlf, candidate_line, candidate_lines}
use tinyrtc.Sdp.Numbers.{
  length-print_16, print_int-positive, parse_int-print_unsigned, strtoull-print_unsigned,
}
use tinyrtc.Sdp.Lines.{Consumes, Consumes-nil, Consumes-append, line-Consumes}
use tinyrtc.Sdp.Fields.{
  Field, line_end, find_eol-plain, plain-Word, short-Field, number-Field, copy_until-next,
}
use tinyrtc.Sdp.Header.{name-Parses}
use tinyrtc.Sdp.Words.{copy_until-Word, copy_until-blank}

-- What the generator writes of a candidate and the parser reads.
pub record IsCandidate (c : SdpCandidate) : Type 0 where
  pub foundation_fits : Field 32 c.foundation
  pub protocol_fits : Field 16 c.protocol
  pub priority_fits : c.priority < 2 ^ 32
  pub ip_fits : Field 64 c.ip
  pub port_fits : c.port < 2 ^ 16
  pub type_fits : Field 32 c.type
  pub same_version : c.is_ipv6 ≡ has_char b':' c.ip

component-read :
    (rest : List ℕ) → copy_until 16 b' ' (codes " 1 " ++ rest) ≡ (codes "1", b' ' ∷ rest)
unfolding copy_until skip_whitespace copied trim_end cons_trimmed find_end stops
component-read rest = refl

typ-read : (rest : List ℕ) → copy_until 32 b' ' (codes " typ " ++ rest) ≡ (codes "typ", b' ' ∷ rest)
unfolding copy_until skip_whitespace copied trim_end cons_trimmed find_end stops
typ-read rest = refl

one-read : parse_int (codes "1") ≡ some 1
unfolding parse_int strtol skip_spaces is_space is_digit read_sign magnitude read_digits long_value
    as_value
one-read = refl

port-read : (n : ℕ) → n < 2 ^ 16 → parse_int (print_unsigned n) ≡ some n
port-read n h =
    ap parse_int (sym (append-nil (print_unsigned n)))
    ∙ parse_int-print_unsigned n [] (omega arith) tt

nonzero : (n : ℕ) → ((n == 0) && not (starts_with b'0' (print_unsigned n))) ≡ false
unfolding starts_with print_unsigned put_digits
nonzero zero = refl
nonzero (suc n) = let t : (suc n == 0) ≡ false = ground arith in rw t

-- The number 0 is told from no number by its character.
priority_of-print_unsigned : (n : ℕ) → n < 2 ^ 32 → priority_of (print_unsigned n) ≡ some n
unfolding priority_of checked_priority
priority_of-print_unsigned n h =
    ap (checked_priority (print_unsigned n)) (
      ap strtoull (sym (append-nil (print_unsigned n)))
      ∙ strtoull-print_unsigned n [] (omega arith) tt)
    ∙ if-false _ _ _ (nonzero n)

module _ (c : SdpCandidate) (v : IsCandidate c) where
  open c use {foundation, priority, ip, port, type, protocol, is_ipv6}

  make_candidate-fields :
      make_candidate foundation protocol ip (codes "typ") type (some 1) (some priority) (some port)
      ≡ some c
  unfolding make_candidate same_text
  make_candidate-fields =
      let e1 : ltb 0 (length foundation) ≡ true =
        ltb-true 0 (length foundation) v.foundation_fits.there in
      let e2 : ltb 0 (length ip) ≡ true = ltb-true 0 (length ip) v.ip_fits.there in
      let e3 : ltb 0 (length type) ≡ true = ltb-true 0 (length type) v.type_fits.there in
      let e4 : ltb 0 (length protocol) ≡ true =
        ltb-true 0 (length protocol) v.protocol_fits.there in
      let e5 : u32 priority ≡ priority = omega (arith, v.priority_fits) in
      let e6 : u16 port ≡ port = omega (arith, v.port_fits) in
      let test : (ltb 0 (length foundation) && (ltb 0 (length ip) && ltb 0 (length type))) ≡ true =
        rw (e1, e2, e3) in
      if-true _ _ _ test ∙ (λ i. some (record {
        foundation = foundation;
        priority = e5 i;
        ip = ip;
        port = e6 i;
        type = type;
        protocol = if-true (ltb 0 (length protocol)) protocol (codes "udp") e4 i;
        is_ipv6 = sym v.same_version i;
      }))

  -- The line behind its colon.
  abbrev candidate_body : List ℕ → List ℕ
  candidate_body rest =
      foundation
      ++ (codes " 1 "
          ++ (protocol
              ++ (b' '
                  ∷ (print_unsigned priority
                      ++ (b' '
                          ∷ (ip
                              ++ (b' '
                                  ∷ (print_unsigned port
                                      ++ (codes " typ " ++ (type ++ rest))))))))))

  parse_candidate-body : (rest : List ℕ) → parse_candidate (candidate_body (line_end rest)) ≡ some c
  unfolding parse_candidate
  parse_candidate-body rest =
      let p7 : List ℕ = type ++ line_end rest in
      let p6 : List ℕ = codes " typ " ++ p7 in
      let p5 : List ℕ = b' ' ∷ (print_unsigned port ++ p6) in
      let p4 : List ℕ = b' ' ∷ (ip ++ p5) in
      let p3 : List ℕ = b' ' ∷ (print_unsigned priority ++ p4) in
      let p2 : List ℕ = protocol ++ p3 in
      let p1 : List ℕ = codes " 1 " ++ p2 in
      let ff = v.foundation_fits in
      let ft = v.type_fits in
      let e1 : copy_until 32 b' ' (foundation ++ p1) ≡ (foundation, p1) =
        copy_until-Word 32 b' ' foundation (codes "1 " ++ p2) b' ' ff.is_word ff.there ff.fits
          (unfold stops in refl) in
      let e2 : copy_until 16 b' ' p1 ≡ (codes "1", b' ' ∷ p2) = component-read p2 in
      let e3 : copy_until 16 b' ' (b' ' ∷ p2) ≡ (protocol, p3) =
        copy_until-next 16 protocol (print_unsigned priority ++ p4) v.protocol_fits in
      let e4 : copy_until 32 b' ' p3 ≡ (print_unsigned priority, p4) =
        copy_until-next 32 (print_unsigned priority) (ip ++ p5)
          (number-Field 32 priority (omega arith)) in
      let e5 : copy_until 64 b' ' p4 ≡ (ip, p5) =
        copy_until-next 64 ip (print_unsigned port ++ p6) v.ip_fits in
      let e6 : copy_until 16 b' ' p5 ≡ (print_unsigned port, p6) =
        copy_until-next 16 (print_unsigned port) (codes "typ " ++ p7)
          (short-Field 16 port (omega (arith, length-print_16 port v.port_fits))) in
      let e7 : copy_until 32 b' ' p6 ≡ (codes "typ", b' ' ∷ p7) = typ-read p7 in
      let e8 : copy_until 32 b' ' (b' ' ∷ p7) ≡ (type, line_end rest) =
        copy_until-blank 32 b' ' type (b'\n' ∷ rest) b'\r' ft.is_word ft.there ft.fits
          (unfold stops in refl) in
      rw
        (
          e1,
          e2,
          e3,
          e4,
          e5,
          e6,
          e7,
          e8,
          one-read,
          priority_of-print_unsigned priority v.priority_fits,
          port-read port v.port_fits,
        )
        make_candidate-fields

  candidate_body-eol : (rest : List ℕ) → find_eol (candidate_body (line_end rest)) ≡ line_end rest
  candidate_body-eol rest =
      let plain : (t u : List ℕ)
          → All (λ c. 32 ≤ c) t
          → All (λ c. 32 ≤ c) u
          → All (λ c. 32 ≤ c) (t ++ u) =
        All-append (λ c. 32 ≤ c) in
      let word : (n : ℕ) (t : List ℕ) → Field n t → All (λ c. 32 ≤ c) t =
        λ n t f. plain-Word b' ' t f.is_word in
      let e : candidate_body (line_end rest) ≡ candidate_body [] ++ line_end rest =
        simp (append_assoc, append-nil) in
      ap find_eol e
      ∙ find_eol-plain (candidate_body []) rest (
          plain _ _ (word 32 foundation v.foundation_fits) (
            plain (codes " 1 ") _ (omega arith) (
              plain _ _ (word 16 protocol v.protocol_fits) (
                omega arith,
                plain _ _
                    (word 32 (print_unsigned priority) (number-Field 32 priority (omega arith)))
                    (
                      omega arith,
                      plain _ _ (word 64 ip v.ip_fits) (
                        omega arith,
                        plain _ _
                            (word 32 (print_unsigned port) (number-Field 32 port (omega arith)))
                            (plain (codes " typ ") _ (omega arith)
                              (plain _ _ (word 32 type v.type_fits) tt)),
                      ),
                    ),
              ))))

  pub candidate_line-Consumes :
      (junk : ℕ) (s : SdpSession)
      → length s.candidates < max_candidates
      → Consumes junk s (candidate_line c) (record s { candidates = s.candidates ++ (c ∷ []) })
  unfolding candidate_line attribute same_text candidate_attribute skip_char add_parsed
  candidate_line-Consumes junk s room = line-Consumes junk b'a' _ _ _ refl (
      name-Parses junk (codes "candidate") _ _ _ (λ rest. candidate_body (line_end rest))
        (omega arith) (omega arith) (omega arith)
        (λ rest.
          let e0 : (foundation
                  ++ (codes " 1 "
                      ++ (protocol
                          ++ (codes " "
                              ++ (print_unsigned priority
                                  ++ (codes " "
                                      ++ (ip
                                          ++ (codes " "
                                              ++ (print_int port
                                                  ++ (codes " typ " ++ (type ++ crlf)))))))))))
                ++ rest
              ≡ candidate_body (line_end rest) =
            rw (print_int-positive port (omega (arith, v.port_fits))) (simp append_assoc) in
          let e1 : ltb (length s.candidates) max_candidates ≡ true =
            ltb-true (length s.candidates) max_candidates room in
          if-true _ _ _ e1
          ∙ ap (λ x. (add_parsed s (parse_candidate x), x)) e0
          ∙ ap (λ x. (add_parsed s x, candidate_body (line_end rest))) (parse_candidate-body rest))
        candidate_body-eol)

pub candidate_lines-Consumes :
    (junk : ℕ) (s : SdpSession) (cs : List SdpCandidate)
    → All IsCandidate cs
    → length s.candidates + length cs ≤ max_candidates
    → Consumes junk s (candidate_lines cs) (record s { candidates = s.candidates ++ cs })
unfolding candidate_lines
candidate_lines-Consumes junk s [] v room =
    subst (λ (cs : List SdpCandidate). Consumes junk s [] (record s { candidates = cs }))
      (sym (append-nil s.candidates)) (Consumes-nil junk s)
candidate_lines-Consumes junk s (c ∷ cs) (v, vs) room =
    let t : SdpSession = record s { candidates = s.candidates ++ (c ∷ []) } in
    let grown = length-append s.candidates (c ∷ []) in
    Consumes-append junk _ _ (candidate_line-Consumes c v junk s (omega (arith, room))) (
      subst
        (λ (ds : List SdpCandidate).
          Consumes junk t (candidate_lines cs) (record s { candidates = ds }))
        (append_assoc s.candidates (c ∷ []) cs)
        (candidate_lines-Consumes junk t cs vs (omega (arith, room, grown))))
