-- ===== src/Sdp/Header.antt =====
-- The lines in front of the tracks, from src/signal/sdp_generator.c to src/signal/sdp_parser.c.
use tinyrtc.Prelude.{
  ℕ, ◌^◌, ◌≤◌, ◌<◌, ◌≡◌, refl, sym, ap, ◌∙◌, true, List, ◌∷◌, ◌++◌, arith, append_assoc, ltb,
  ltb-true, length, All-append,
}
use tinyrtc.Sdp.{SdpSession}
use tinyrtc.Sdp.Text.{
  codes, same_text, stops, find_eol, copy_until, parse_int, parse_uint64, skip_whitespace, is_digit,
  print_unsigned, print_int,
}
use tinyrtc.Sdp.Parser.{
  value_or, skip_char, fingerprint_text, parse_fingerprint, attribute, attribute_line, timing_line,
  origin_line, parse_line,
}
use tinyrtc.Sdp.Generator.{crlf, version_line, origin_line_text, name_line, timing_line_text}
use tinyrtc.Sdp.Numbers.{print_int-positive, parse_int-print_unsigned}
use tinyrtc.Sdp.Words.{Word, copy_until-Word, copy_until-blank, skip_whitespace-Word}
use tinyrtc.Sdp.Lines.{Consumes, Parses, line-Consumes}
use tinyrtc.Sdp.Fields.{
  Field, Word-eol, attribute_line-Word, copy_until-last, copy_until-next, find_eol-plain,
  fingerprint_text-Word, line_end, line_end-eol, number-Field, plain-Word, text_or-Field,
  value-print_unsigned, zero_eol,
}

module _ (junk : ℕ) where
  pub name-Parses :
      (name : List ℕ) (s after : SdpSession) (line : List ℕ) (pointer : List ℕ → List ℕ)
      → Word b':' name
      → 0 < length name
      → length name < 64
      → ((rest : List ℕ) → attribute name s (b':' ∷ (line ++ rest)) ≡ (after, pointer rest))
      → ((rest : List ℕ) → find_eol (pointer rest) ≡ line_end rest)
      → Parses junk b'a' s (name ++ (b':' ∷ line)) after
  unfolding parse_line
  name-Parses name s after line pointer w p fits a e = record {
    pointer = pointer;
    parsed = λ rest.
        ap (attribute_line s) (append_assoc name (b':' ∷ line) rest)
        ∙ attribute_line-Word name s (line ++ rest) w p fits
        ∙ a rest;
    at_end = e;
  }

  pub attribute-Parses :
      (name : List ℕ) (s after : SdpSession) (value : List ℕ) (pointer : List ℕ → List ℕ)
      → Word b':' name
      → 0 < length name
      → length name < 64
      → ((rest : List ℕ)
          → attribute name s (b':' ∷ (value ++ line_end rest)) ≡ (after, pointer rest))
      → ((rest : List ℕ) → find_eol (pointer rest) ≡ line_end rest)
      → Parses junk b'a' s (name ++ (b':' ∷ (value ++ crlf))) after
  attribute-Parses name s after value pointer w p fits a e =
      name-Parses name s after (value ++ crlf) pointer w p fits
        (λ rest. ap (λ x. attribute name s (b':' ∷ x)) (append_assoc value crlf rest) ∙ a rest) e

  pub ufrag-Consumes :
      (s : SdpSession) (t : List ℕ)
      → Field 64 t
      → Consumes junk s (codes "a=ice-ufrag:" ++ (t ++ crlf)) (record s { ice_ufrag = t })
  unfolding attribute same_text skip_char
  ufrag-Consumes s t f =
      line-Consumes junk b'a' s (record s { ice_ufrag = t }) (codes "ice-ufrag:" ++ (t ++ crlf))
        refl
        (attribute-Parses (codes "ice-ufrag") s (record s { ice_ufrag = t }) t line_end
          (omega arith) (omega arith) (omega arith)
          (λ rest.
            ap (λ (r : List ℕ × List ℕ). (record s { ice_ufrag = r.0 }, r.1))
              (copy_until-last 64 t rest f))
          line_end-eol)

  pub version-Consumes :
      (s a : SdpSession) → s.version ≡ 0 → a.version ≡ 0 → Consumes junk s (version_line a) s
  unfolding version_line parse_line value_or is_digit
  version-Consumes s a e z =
      line-Consumes junk b'v' s s (print_int a.version ++ crlf) refl (record {
        pointer = λ rest. print_int a.version ++ line_end rest;
        parsed = λ rest.
            ap (λ p. (record s { version = value_or s.version (parse_int p) }, p))
              (append_assoc (print_int a.version) crlf rest)
            ∙ ap (λ (v : ℕ). (record s { version = v }, print_int a.version ++ line_end rest))
                (ap (λ v. value_or s.version (parse_int (print_int v ++ line_end rest))) z
                  ∙ ap (λ (t : List ℕ). value_or s.version (parse_int (t ++ line_end rest)))
                      (print_int-positive 0 (omega arith))
                  ∙ ap (value_or s.version)
                      (parse_int-print_unsigned 0 (line_end rest) (omega arith) refl)
                  ∙ sym e);
        at_end = λ rest. ap (λ v. find_eol (print_int v ++ line_end rest)) z ∙ zero_eol rest;
      })

  origin_line-fields :
      (s : SdpSession) (u n t w rest : List ℕ) (id version : ℕ)
      → Field 256 u
      → id < 2 ^ 64
      → version < 2 ^ 64
      → Field 16 n
      → Field 16 t
      → Field 64 w
      → origin_line junk s (
          u
          ++ (b' '
              ∷ (print_unsigned id
                  ++ (b' '
                      ∷ (print_unsigned version
                          ++ (b' ' ∷ (n ++ (b' ' ∷ (t ++ (b' ' ∷ (w ++ line_end rest)))))))))))
        ≡ (
          record s {
            username = u;
            session_id = id;
            session_version = version;
            network_type = n;
            address_type = t;
            unicast_address = w;
          },
          line_end rest,
        )
  unfolding origin_line
  origin_line-fields s u n t w rest id version fu hi hv fn ft fw =
      let p5 : List ℕ = b' ' ∷ (w ++ line_end rest) in
      let p4 : List ℕ = b' ' ∷ (t ++ p5) in
      let p3 : List ℕ = b' ' ∷ (n ++ p4) in
      let p2 : List ℕ = b' ' ∷ (print_unsigned version ++ p3) in
      let p1 : List ℕ = b' ' ∷ (print_unsigned id ++ p2) in
      let e1 : copy_until 256 b' ' (u ++ p1) ≡ (u, p1) =
        copy_until-Word 256 b' ' u (print_unsigned id ++ p2) b' ' fu.is_word fu.there fu.fits
          (unfold stops in refl) in
      let e2 : copy_until 64 b' ' p1 ≡ (print_unsigned id, p2) =
        copy_until-next 64 (print_unsigned id) (print_unsigned version ++ p3)
          (number-Field 64 id (omega arith)) in
      let e3 : copy_until 64 b' ' p2 ≡ (print_unsigned version, p3) =
        copy_until-next 64 (print_unsigned version) (n ++ p4)
          (number-Field 64 version (omega arith)) in
      let e4 : copy_until 16 b' ' p3 ≡ (n, p4) = copy_until-next 16 n (t ++ p5) fn in
      let e5 : copy_until 16 b' ' p4 ≡ (t, p5) = copy_until-next 16 t (w ++ line_end rest) ft in
      let e6 : copy_until 64 b'\n' p5 ≡ (w, line_end rest) =
        copy_until-blank 64 b'\n' w (b'\n' ∷ rest) b'\r' (Word-eol w fw.is_word) fw.there fw.fits
          (unfold stops in refl) in
      let d1 : value_or junk (parse_uint64 (print_unsigned id)) ≡ id =
        value-print_unsigned junk id hi in
      let d2 : value_or junk (parse_uint64 (print_unsigned version)) ≡ version =
        value-print_unsigned junk version hv in
      rw (e1, e2, e3, e4, e5, e6, d1, d2)

  pub origin-Consumes :
      (s a : SdpSession)
      → Field 256 a.username
      → a.session_id < 2 ^ 64
      → a.session_version < 2 ^ 64
      → Field 16 a.network_type
      → Field 16 a.address_type
      → Field 64 a.unicast_address
      → Consumes junk s (origin_line_text a) (record s {
        username = a.username;
        session_id = a.session_id;
        session_version = a.session_version;
        network_type = a.network_type;
        address_type = a.address_type;
        unicast_address = a.unicast_address;
      })
  unfolding origin_line_text parse_line
  origin-Consumes s a u i v n t w =
      let e1 = text_or-Field 256 a.username (codes "-") u in
      let e2 = text_or-Field 16 a.network_type (codes "IN") n in
      let e3 = text_or-Field 16 a.address_type (codes "IP4") t in
      let e4 = text_or-Field 64 a.unicast_address (codes "0.0.0.0") w in
      line-Consumes junk b'o' s _ _ refl (record {
        pointer = line_end;
        parsed = λ rest.
            ap (origin_line junk s) (rw (e1, e2, e3, e4) (simp append_assoc))
            ∙ origin_line-fields s a.username a.network_type a.address_type a.unicast_address rest
                a.session_id a.session_version u i v n t w;
        at_end = line_end-eol;
      })

  pub name-Consumes :
      (s a : SdpSession)
      → Field 256 a.session_name
      → Consumes junk s (name_line a) (record s { session_name = a.session_name })
  unfolding name_line parse_line
  name-Consumes s a f = line-Consumes junk b's' s _ _ refl (record {
    pointer = line_end;
    parsed = λ rest.
        let e = text_or-Field 256 a.session_name (codes "-") f in
        ap (λ (r : List ℕ × List ℕ). (record s { session_name = r.0 }, r.1))
          (ap (copy_until 256 b'\n') (rw e (simp append_assoc))
            ∙ copy_until-last 256 a.session_name rest f);
    at_end = line_end-eol;
  })

  pub timing-Consumes :
      (s a : SdpSession)
      → a.start_time < 2 ^ 64
      → a.stop_time < 2 ^ 64
      → Consumes junk s
          (timing_line_text a)
          (record s { start_time = a.start_time; stop_time = a.stop_time })
  unfolding timing_line_text parse_line timing_line
  timing-Consumes s a h k = line-Consumes junk b't' s _ _ refl (record {
    pointer = line_end;
    parsed = λ rest.
        let p : List ℕ = b' ' ∷ (print_unsigned a.stop_time ++ line_end rest) in
        let e0 : (print_unsigned a.start_time ++ (b' ' ∷ (print_unsigned a.stop_time ++ crlf)))
              ++ rest
            ≡ print_unsigned a.start_time ++ p =
          simp append_assoc in
        let fa = number-Field 64 a.start_time (omega arith) in
        let fb = number-Field 64 a.stop_time (omega arith) in
        let e1 : copy_until 64 b' ' (print_unsigned a.start_time ++ p)
            ≡ (print_unsigned a.start_time, p) =
          copy_until-Word 64 b' ' (print_unsigned a.start_time)
            (print_unsigned a.stop_time ++ line_end rest) b' ' fa.is_word fa.there fa.fits
            (unfold stops in refl) in
        let e2 : copy_until 64 b'\n' p ≡ (print_unsigned a.stop_time, line_end rest) =
          copy_until-blank 64 b'\n' (print_unsigned a.stop_time) (b'\n' ∷ rest) b'\r'
            (Word-eol _ fb.is_word) fb.there fb.fits (unfold stops in refl) in
        ap (timing_line s) e0
        ∙ rw (
          e1,
          e2,
          value-print_unsigned s.start_time a.start_time h,
          value-print_unsigned s.stop_time a.stop_time k,
        );
    at_end = line_end-eol;
  })

  pub pwd-Consumes :
      (s : SdpSession) (t : List ℕ)
      → Field 128 t
      → Consumes junk s (codes "a=ice-pwd:" ++ (t ++ crlf)) (record s { ice_pwd = t })
  unfolding attribute same_text skip_char
  pwd-Consumes s t f = line-Consumes junk b'a' s _ _ refl (
      attribute-Parses (codes "ice-pwd") s _ t line_end (omega arith) (omega arith) (omega arith)
        (λ rest.
          ap (λ (r : List ℕ × List ℕ). (record s { ice_pwd = r.0 }, r.1))
            (copy_until-last 128 t rest f))
        line_end-eol)

  pub setup-Consumes :
      (s : SdpSession) (t : List ℕ)
      → Field 16 t
      → Consumes junk s (codes "a=setup:" ++ (t ++ crlf)) (record s { dtls_setup = t })
  unfolding attribute same_text skip_char
  setup-Consumes s t f = line-Consumes junk b'a' s _ _ refl (
      attribute-Parses (codes "setup") s _ t line_end (omega arith) (omega arith) (omega arith)
        (λ rest.
          ap (λ (r : List ℕ × List ℕ). (record s { dtls_setup = r.0 }, r.1))
            (copy_until-last 16 t rest f))
        line_end-eol)

  pub fingerprint-Consumes :
      (s : SdpSession) (type t : List ℕ)
      → Field 16 type
      → Field 128 t
      → Consumes junk s
          (codes "a=fingerprint:" ++ (type ++ (codes " " ++ (t ++ crlf))))
          (record s { fingerprint_type = type; fingerprint = t })
  unfolding attribute same_text skip_char parse_fingerprint skip_whitespace
  fingerprint-Consumes s type t ft f = line-Consumes junk b'a' s _ _ refl (
      name-Parses (codes "fingerprint") s _ (type ++ (codes " " ++ (t ++ crlf)))
        (λ rest. type ++ (b' ' ∷ (t ++ line_end rest))) (omega arith) (omega arith) (omega arith)
        (λ rest.
          let p : List ℕ = b' ' ∷ (t ++ line_end rest) in
          let e0 : (type ++ (codes " " ++ (t ++ crlf))) ++ rest ≡ type ++ p = simp append_assoc in
          let e1 : copy_until 16 b' ' (type ++ p) ≡ (type, p) =
            copy_until-Word 16 b' ' type (t ++ line_end rest) b' ' ft.is_word ft.there ft.fits
              (unfold stops in refl) in
          let e2 : skip_whitespace (t ++ line_end rest) ≡ t ++ line_end rest =
            skip_whitespace-Word b' ' t (line_end rest) f.is_word f.there in
          let e3 : fingerprint_text 127 (t ++ line_end rest) ≡ t =
            fingerprint_text-Word 127 t rest f.is_word (omega (arith, f.fits)) in
          let e4 : ltb 0 (length type) ≡ true = ltb-true 0 (length type) ft.there in
          rw (e0, e1, e4, e2, e3))
        (λ rest.
          ap find_eol (sym (append_assoc type (b' ' ∷ t) (line_end rest)))
          ∙ find_eol-plain (type ++ (b' ' ∷ t)) rest (
              All-append (λ c. 32 ≤ c) type (b' ' ∷ t) (plain-Word b' ' type ft.is_word)
                (omega arith, plain-Word b' ' t f.is_word))))
