-- ===== src/Signaling/Escaped.antt =====
-- A session description on its way through the JSON of src/signaling/signaling.c.
use tinyrtc.Prelude.{
  ℕ, suc, ◌+◌, ◌-◌, ◌≤◌, ◌≡◌, ◌⊎◌, inl, inr, refl, sym, ap, ◌∙◌, Bool, true, false, Bool-cases, not,
  ◌&&◌, List, [], ◌∷◌, ◌++◌, arith, Option, none, some, ltb, leb, ◌==◌, eq_of_==, if◌then◌else◌,
  if-false, length, length-append,
}
use tinyrtc.Signaling.Json.{
  escape_letter, escape_loop, json_escape, raw_value, unescape_letter, unescape, string_value,
  field_value, find, starts_with, skip_blanks, extract_json_string_field, extract_sdp_value,
  offer_head, answer_head, json_tail, description_json,
}

-- A character as it is written, in front of `rest`.
unfoldable pub written : ℕ → Option ℕ → List ℕ → List ℕ
written c none rest = c ∷ rest
written c (some letter) rest = 92 ∷ letter ∷ rest

-- The text with every escape written out, whatever its length.
unfoldable pub escape_all : List ℕ → List ℕ
unfolding escape_letter written
escape_all [] = []
escape_all (c ∷ cs) = written c (escape_letter c) (escape_all cs)

-- Whether the text, or what stands in front of it, ends with a backslash.
unfoldable pub ends_with_backslash : Bool → List ℕ → Bool
ends_with_backslash before [] = before
ends_with_backslash before (c ∷ cs) = ends_with_backslash (c == 92) cs

-- A character is written as it is, and then it is neither a quote nor a backslash; or it is written
-- as a letter behind a backslash, which stands for it.
record Plain (c : ℕ) : Type 0 where
  no_letter : escape_letter c ≡ none
  no_quote : (c == 34) ≡ false
  no_backslash : (c == 92) ≡ false

record Escape (c : ℕ) : Type 0 where
  letter : ℕ
  has_letter : escape_letter c ≡ some letter
  stands_for : unescape_letter letter ≡ c ∷ []
  same_end : (letter == 92) ≡ (c == 92)

Escape-of : (c d : ℕ) → (c == d) ≡ true → Escape d → Escape c
Escape-of c d t e = let same : c ≡ d = eq_of_== c d t in rw same e

Escape-cases : (c : ℕ) → Plain c ⊎ Escape c
unfolding escape_letter unescape_letter
Escape-cases c = elim (Bool-cases (c == 34)) [
  | inl t ↦ inr (
      Escape-of c 34 t
        (record { letter = 34; has_letter = refl; stands_for = refl; same_end = refl }))
  | inr quote ↦ elim (Bool-cases (c == 92)) [
    | inl t ↦ inr (
        Escape-of c 92 t
          (record { letter = 92; has_letter = refl; stands_for = refl; same_end = refl }))
    | inr backslash ↦ elim (Bool-cases (c == 10)) [
      | inl t ↦ inr (
          Escape-of c 10 t
            (record { letter = 110; has_letter = refl; stands_for = refl; same_end = refl }))
      | inr newline ↦ elim (Bool-cases (c == 13)) [
        | inl t ↦ inr (
            Escape-of c 13 t
              (record { letter = 114; has_letter = refl; stands_for = refl; same_end = refl }))
        | inr return ↦ elim (Bool-cases (c == 9)) [
          | inl t ↦ inr (
              Escape-of c 9 t
                (record { letter = 116; has_letter = refl; stands_for = refl; same_end = refl }))
          | inr tab ↦ inl (record {
            no_letter = rw (quote, backslash, newline, return, tab);
            no_quote = quote;
            no_backslash = backslash;
          })
        ]
      ]
    ]
  ]
]

escape_all-Plain : (c : ℕ) (cs : List ℕ) → Plain c → escape_all (c ∷ cs) ≡ c ∷ escape_all cs
unfolding escape_all written
escape_all-Plain c cs p = ap (λ o. written c o (escape_all cs)) p.no_letter

escape_all-Escape :
    (c : ℕ) (cs : List ℕ) (x : Escape c) → escape_all (c ∷ cs) ≡ 92 ∷ x.letter ∷ escape_all cs
unfolding escape_all written
escape_all-Escape c cs x = ap (λ o. written c o (escape_all cs)) x.has_letter

escape_loop-Plain :
    (size n c : ℕ) (cs : List ℕ)
    → Plain c
    → ltb n (size - 1) ≡ true
    → escape_loop size n (c ∷ cs) ≡ c ∷ escape_loop size (n + 1) cs
unfolding escape_loop
escape_loop-Plain size n c cs p t = rw (t, p.no_letter)

escape_loop-Escape :
    (size n c : ℕ) (cs : List ℕ) (x : Escape c)
    → ltb n (size - 1) ≡ true
    → leb size (n + 2) ≡ false
    → escape_loop size n (c ∷ cs) ≡ 92 ∷ x.letter ∷ escape_loop size (n + 2) cs
unfolding escape_loop
escape_loop-Escape size n c cs x t u = rw (t, x.has_letter, u)

-- Where the whole text fits, the loop writes all of it.
escape_loop-escape_all :
    (size n : ℕ) (text : List ℕ)
    → n + length (escape_all text) + 1 ≤ size
    → escape_loop size n text ≡ escape_all text
escape_loop-escape_all size n [] fits = unfold escape_loop escape_all in refl
escape_loop-escape_all size n (c ∷ cs) fits = elim (Escape-cases c) [
  | inl p ↦
      let e = escape_all-Plain c cs p in
      let len : length (escape_all (c ∷ cs)) ≡ suc (length (escape_all cs)) = ap length e in
      let t : ltb n (size - 1) ≡ true = ground arith in
      escape_loop-Plain size n c cs p t
      ∙ ap (λ r. c ∷ r) (escape_loop-escape_all size (n + 1) cs (omega arith))
      ∙ sym e
  | inr x ↦
      let e = escape_all-Escape c cs x in
      let len : length (escape_all (c ∷ cs)) ≡ suc (suc (length (escape_all cs))) = ap length e in
      let t : ltb n (size - 1) ≡ true = ground arith in
      let u : leb size (n + 2) ≡ false = ground arith in
      escape_loop-Escape size n c cs x t u
      ∙ ap (λ r. 92 ∷ x.letter ∷ r) (escape_loop-escape_all size (n + 2) cs (omega arith))
      ∙ sym e
]

unescape-Plain : (c : ℕ) (cs : List ℕ) → Plain c → unescape false (c ∷ cs) ≡ c ∷ unescape false cs
unfolding unescape
unescape-Plain c cs p = if-false (c == 92) (unescape true cs) (c ∷ unescape false cs) p.no_backslash

unescape-Escape :
    (c : ℕ) (cs : List ℕ) (x : Escape c)
    → unescape false (92 ∷ x.letter ∷ cs) ≡ c ∷ unescape false cs
unfolding unescape
unescape-Escape c cs x = ap (λ (l : List ℕ). l ++ unescape false cs) x.stands_for

unescape-escape_all : (text : List ℕ) → unescape false (escape_all text) ≡ text
unescape-escape_all [] = unfold unescape escape_all in refl
unescape-escape_all (c ∷ cs) = elim (Escape-cases c) [
  | inl p ↦
      ap (unescape false) (escape_all-Plain c cs p)
      ∙ unescape-Plain c (escape_all cs) p
      ∙ ap (λ r. c ∷ r) (unescape-escape_all cs)
  | inr x ↦
      ap (unescape false) (escape_all-Escape c cs x)
      ∙ unescape-Escape c (escape_all cs) x
      ∙ ap (λ r. c ∷ r) (unescape-escape_all cs)
]

raw_value-more :
    (before : Bool) (c : ℕ) (cs raw : List ℕ)
    → (c == 34 && not before) ≡ false
    → raw_value (c == 92) cs ≡ some raw
    → raw_value before (c ∷ cs) ≡ some (c ∷ raw)
unfolding raw_value
raw_value-more before c cs raw open_still e = rw (open_still, e)

and_false : (b : Bool) → (b && false) ≡ false
and_false true = refl
and_false false = refl

-- The closing quote is found behind a text that does not end with a backslash.
raw_value-escape_all :
    (before : Bool) (text rest : List ℕ)
    → ends_with_backslash before text ≡ false
    → raw_value before (escape_all text ++ (34 ∷ rest)) ≡ some (escape_all text)
unfolding ends_with_backslash
raw_value-escape_all before [] rest e = unfold raw_value escape_all in rw e
raw_value-escape_all before (c ∷ cs) rest e = elim (Escape-cases c) [
  | inl p ↦
      let later = raw_value-escape_all (c == 92) cs rest e in
      let open_still : (c == 34 && not before) ≡ false = rw p.no_quote in
      rw (escape_all-Plain c cs p)
        (raw_value-more before c (escape_all cs ++ (34 ∷ rest)) (escape_all cs) open_still later)
  | inr x ↦
      let f : ends_with_backslash (x.letter == 92) cs ≡ false = rw x.same_end e in
      let later = raw_value-escape_all (x.letter == 92) cs rest f in
      let open_still : (x.letter == 34 && false) ≡ false = and_false (x.letter == 34) in
      rw (escape_all-Escape c cs x) (
        raw_value-more before 92 (x.letter ∷ (escape_all cs ++ (34 ∷ rest)))
          (x.letter ∷ escape_all cs) refl
          (raw_value-more true x.letter (escape_all cs ++ (34 ∷ rest)) (escape_all cs) open_still
            later))
]

-- A string whose text was escaped is read back.
string_value-escape_all :
    (text rest : List ℕ)
    → ends_with_backslash false text ≡ false
    → string_value (34 ∷ (escape_all text ++ (34 ∷ rest))) ≡ some text
unfolding string_value
string_value-escape_all text rest e =
    rw (raw_value-escape_all false text rest e, unescape-escape_all text)

-- The value of the inner field is the string behind the head.
extract_sdp_value-offer_head :
    (rest : List ℕ) → extract_sdp_value (offer_head ++ rest) ≡ string_value (34 ∷ rest)
unfolding extract_sdp_value extract_json_string_field field_value find starts_with skip_blanks
extract_sdp_value-offer_head rest = refl

extract_sdp_value-answer_head :
    (rest : List ℕ) → extract_sdp_value (answer_head ++ rest) ≡ string_value (34 ∷ rest)
unfolding extract_sdp_value extract_json_string_field field_value find starts_with skip_blanks
extract_sdp_value-answer_head rest = refl

json_escape-escape_all :
    (text : List ℕ) → length (escape_all text) ≤ 4095 → json_escape 4096 text ≡ escape_all text
unfolding json_escape
json_escape-escape_all text fits = escape_loop-escape_all 4096 0 text (omega arith)

description_json_lem :
    (head text : List ℕ)
    → length head ≤ 100
    → length (escape_all text) ≤ 4095
    → description_json head text ≡ some (head ++ (escape_all text ++ json_tail))
unfolding description_json
description_json_lem head text short fits =
    let json = head ++ (escape_all text ++ json_tail) in
    let a = length-append head (escape_all text ++ json_tail) in
    let b = length-append (escape_all text) json_tail in
    let room : leb 8192 (length json) ≡ false = ground arith in
    ap
      (λ e.
        if leb 8192 (length (head ++ (e ++ json_tail)))
        then none
        else some (head ++ (e ++ json_tail)))
      (json_escape-escape_all text fits)
    ∙ if-false _ none (some json) room

-- A description that fits the buffers once it is escaped, and does not end with a backslash, is
-- read back by `sig_extract_sdp_value` from the offer or the answer that was made of it, character
-- by character, whatever quotes, backslashes, line ends and tabs it holds.
pub extract_sdp_value-description_json :
    (head text : List ℕ)
    → (head ≡ offer_head) ⊎ (head ≡ answer_head)
    → length (escape_all text) ≤ 4095
    → ends_with_backslash false text ≡ false
    → (json : List ℕ) × (description_json head text ≡ some json)
      × (extract_sdp_value json ≡ some text)
extract_sdp_value-description_json head text (inl e) fits open_end = (
  offer_head ++ (escape_all text ++ json_tail),
  rw e (description_json_lem offer_head text (omega arith) fits),
  extract_sdp_value-offer_head (escape_all text ++ json_tail)
      ∙ string_value-escape_all text (125 ∷ 125 ∷ []) open_end,
)
extract_sdp_value-description_json head text (inr e) fits open_end = (
  answer_head ++ (escape_all text ++ json_tail),
  rw e (description_json_lem answer_head text (omega arith) fits),
  extract_sdp_value-answer_head (escape_all text ++ json_tail)
      ∙ string_value-escape_all text (125 ∷ 125 ∷ []) open_end,
)
