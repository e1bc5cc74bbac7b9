-- ===== src/Sdp/Fields.antt =====
-- The fields of a line, as src/signal/sdp_parser.c takes them from the text.
use tinyrtc.Prelude.{
  ℕ, zero, suc, ◌^◌, ◌≤◌, ◌<◌, ◌≡◌, refl, sym, ap, ◌∙◌, false, List, [], ◌∷◌, ◌++◌, arith,
  append-nil, ◌==◌, if-false, length, All, ◌||◌,
}
use tinyrtc.Sdp.{SdpSession}
use tinyrtc.Sdp.Text.{
  stops, find_end, find_eol, copy_until, parse_uint64, is_digit, print_unsigned, print_int,
}
use tinyrtc.Sdp.Parser.{value_or, fingerprint_text, attribute, attribute_line}
use tinyrtc.Sdp.Generator.{text_or}
use tinyrtc.Sdp.Numbers.{print_unsigned-Digits, length-print_unsigned, parse_uint64-print_unsigned}
use tinyrtc.Sdp.Words.{Word, Word-Digits, copy_until-Word, copy_until-blank}

-- A word that fits an array of `size` characters with its terminator.
pub record Field (size : ℕ) (t : List ℕ) : Type 0 where
  pub is_word : Word b' ' t
  pub there : 0 < length t
  pub fits : length t < size

abbrev pub line_end : List ℕ → List ℕ
line_end rest = b'\r' ∷ b'\n' ∷ rest

-- At the end of a line another separator makes no difference for a word.
pub Word-eol : (t : List ℕ) → Word b' ' t → Word b'\n' t
Word-eol [] w = tt
Word-eol (c ∷ cs) ((h, n), w) = ((h, λ q. ground arith), Word-eol cs w)

-- The last field of a line.
pub copy_until-last :
    (size : ℕ) (t rest : List ℕ)
    → Field size t
    → copy_until size b'\n' (t ++ line_end rest) ≡ (t, line_end rest)
copy_until-last size t rest f =
    copy_until-Word size b'\n' t (b'\n' ∷ rest) b'\r' (Word-eol t f.is_word) f.there f.fits
      (unfold stops in refl)

-- An attribute by its name.
pub attribute_line-Word :
    (name : List ℕ) (s : SdpSession) (rest : List ℕ)
    → Word b':' name
    → 0 < length name
    → length name < 64
    → attribute_line s (name ++ (b':' ∷ rest)) ≡ attribute name s (b':' ∷ rest)
unfolding attribute_line
attribute_line-Word name s rest w p fits =
    ap (λ (r : List ℕ × List ℕ). attribute r.0 s r.1)
      (copy_until-Word 64 b':' name rest b':' w p fits (unfold stops in refl))

-- A line without control characters is passed over to its end.
pub find_eol-plain :
    (t rest : List ℕ) → All (λ c. 32 ≤ c) t → find_eol (t ++ line_end rest) ≡ line_end rest
unfolding find_end stops
find_eol-plain [] rest h = refl
find_eol-plain (c ∷ cs) rest (h, k) =
    let go : stops b'\n' c ≡ false = ground arith in if-false _ _ _ go ∙ find_eol-plain cs rest k

pub plain-Word : (sep : ℕ) (t : List ℕ) → Word sep t → All (λ c. 32 ≤ c) t
plain-Word sep [] w = tt
plain-Word sep (c ∷ cs) ((h, n), w) = (omega arith, plain-Word sep cs w)

-- The rest of a fingerprint's line.
pub fingerprint_text-Word :
    (n : ℕ) (t rest : List ℕ)
    → Word b' ' t
    → length t ≤ n
    → fingerprint_text n (t ++ line_end rest) ≡ t
unfolding fingerprint_text
fingerprint_text-Word zero [] rest w h = refl
fingerprint_text-Word (suc n) [] rest w h = refl
fingerprint_text-Word zero (c ∷ cs) rest w h = absurd (omega arith)
fingerprint_text-Word (suc n) (c ∷ cs) rest ((k, q), w) h =
    let go : ((c == b'\n') || (c == b'\r')) ≡ false = ground arith in
    if-false _ _ _ go ∙ ap (λ r. c ∷ r) (fingerprint_text-Word n cs rest w (omega arith))

pub zero_eol : (rest : List ℕ) → find_eol (print_int 0 ++ line_end rest) ≡ line_end rest
unfolding print_int print_unsigned find_end stops
zero_eol rest = refl

-- A number is a field.
pub number-Field : (size n : ℕ) → 20 < size → Field size (print_unsigned n)
number-Field size n h = record {
  is_word = Word-Digits b' ' (print_unsigned n) (unfold is_digit in refl) (print_unsigned-Digits n);
  there = omega (arith, (length-print_unsigned n).0);
  fits = omega (arith, (length-print_unsigned n).1);
}

pub short-Field : (size n : ℕ) → length (print_unsigned n) < size → Field size (print_unsigned n)
short-Field size n h = record {
  is_word = Word-Digits b' ' (print_unsigned n) (unfold is_digit in refl) (print_unsigned-Digits n);
  there = omega (arith, (length-print_unsigned n).0);
  fits = h;
}

-- A field behind a blank, up to the next blank or the end of the line.
pub copy_until-next :
    (size : ℕ) (t rest : List ℕ)
    → Field size t
    → copy_until size b' ' (b' ' ∷ (t ++ (b' ' ∷ rest))) ≡ (t, b' ' ∷ rest)
copy_until-next size t rest f =
    copy_until-blank size b' ' t rest b' ' f.is_word f.there f.fits (unfold stops in refl)

pub text_or-Field : (size : ℕ) (t default : List ℕ) → Field size t → text_or t default ≡ t
unfolding text_or
text_or-Field size [] default f = absurd (omega (arith, f.there))
text_or-Field size (c ∷ cs) default f = refl

pub line_end-eol : (rest : List ℕ) → find_eol (line_end rest) ≡ line_end rest
unfolding find_end stops
line_end-eol rest = refl

pub value-print_unsigned :
    (default n : ℕ) → n < 2 ^ 64 → value_or default (parse_uint64 (print_unsigned n)) ≡ n
unfolding value_or
value-print_unsigned default n h =
    ap (λ (t : List ℕ). value_or default (parse_uint64 t)) (sym (append-nil (print_unsigned n)))
    ∙ ap (value_or default) (parse_uint64-print_unsigned n [] h tt)
