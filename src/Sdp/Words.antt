-- ===== src/Sdp/Words.antt =====
-- Fields without blanks, as `copy_until` of src/signal/sdp_parser.c copies them.
use tinyrtc.Prelude.{
  ℕ, suc, ◌+◌, ◌-◌, ◌≤◌, ◌<◌, ◌≡◌, ◌≢◌, refl, ap, ◌∙◌, true, false, not, ◌&&◌, ◌||◌, List, [], ◌∷◌,
  ◌++◌, arith, ltb, ◌==◌, if-true, if-false, length, All,
}
use tinyrtc.Sdp.Text.{
  skip_whitespace, stops, find_end, copied, cons_trimmed, trim_end, copy_until, is_digit,
}
use tinyrtc.Sdp.Numbers.{Digits}

-- No character is a blank, a control character or the separator.
abbrev pub Word : ℕ → List ℕ → Type 0
Word sep t = All (λ c. (33 ≤ c) × (c ≢ sep)) t

-- A number is a word, where the separator is not a digit.
pub Word-Digits : (sep : ℕ) (t : List ℕ) → is_digit sep ≡ false → Digits t → Word sep t
unfolding is_digit
Word-Digits sep [] e h = tt
Word-Digits sep (c ∷ cs) e (h, k) = ((ground arith, λ q. ground arith), Word-Digits sep cs e k)

pub skip_whitespace-Word :
    (sep : ℕ) (t rest : List ℕ)
    → Word sep t
    → 0 < length t
    → skip_whitespace (t ++ rest) ≡ t ++ rest
unfolding skip_whitespace
skip_whitespace-Word sep [] rest w p = absurd (omega arith)
skip_whitespace-Word sep (c ∷ cs) rest ((h, n), w) p = ground arith

pub find_end-Word :
    (sep : ℕ) (t rest : List ℕ) (e : ℕ)
    → Word sep t
    → stops sep e ≡ true
    → find_end sep (t ++ (e ∷ rest)) ≡ e ∷ rest
unfolding find_end
find_end-Word sep [] rest e w s = if-true _ _ _ s
find_end-Word sep (c ∷ cs) rest e ((h, n), w) s =
    let go : stops sep c ≡ false = unfold stops in ground arith in
    if-false _ _ _ go ∙ find_end-Word sep cs rest e w s

copied-Word :
    (dst_len sep i : ℕ) (t rest : List ℕ) (e : ℕ)
    → Word sep t
    → i + length t < dst_len
    → stops sep e ≡ true
    → copied dst_len sep i (t ++ (e ∷ rest)) ≡ t
unfolding copied
copied-Word dst_len sep i [] rest e w fits s = if-true _ _ _ s
copied-Word dst_len sep i (c ∷ cs) rest e ((h, n), w) fits s =
    let go : stops sep c ≡ false = unfold stops in ground arith in
    let keep : ((not (c == b' ') || ltb 0 i) && ltb i (dst_len - 1)) ≡ true = ground arith in
    if-false _ _ _ go
    ∙ if-true _ _ _ keep
    ∙ ap (λ r. c ∷ r) (copied-Word dst_len sep (suc i) cs rest e w (omega arith) s)

trim_end-Word : (sep : ℕ) (t : List ℕ) → Word sep t → trim_end t ≡ t
unfolding trim_end cons_trimmed
trim_end-Word sep [] w = refl
trim_end-Word sep (c ∷ []) ((h, n), w) = ground arith
trim_end-Word sep (c ∷ d ∷ cs) (hc, w) = ap (cons_trimmed c) (trim_end-Word sep (d ∷ cs) w)

-- A word is copied as it is, up to what ends it.
pub copy_until-Word :
    (dst_len sep : ℕ) (t rest : List ℕ) (e : ℕ)
    → Word sep t
    → 0 < length t
    → length t < dst_len
    → stops sep e ≡ true
    → copy_until dst_len sep (t ++ (e ∷ rest)) ≡ (t, e ∷ rest)
unfolding copy_until
copy_until-Word dst_len sep t rest e w p fits s =
    ap (λ x. (trim_end (copied dst_len sep 0 x), find_end sep x))
      (skip_whitespace-Word sep t (e ∷ rest) w p)
    ∙ ap (λ x. (trim_end x, find_end sep (t ++ (e ∷ rest))))
        (copied-Word dst_len sep 0 t rest e w (omega arith) s)
    ∙ ap (λ x. (x, find_end sep (t ++ (e ∷ rest)))) (trim_end-Word sep t w)
    ∙ ap (λ x. (t, x)) (find_end-Word sep t rest e w s)

-- So is one behind a blank.
pub copy_until-blank :
    (dst_len sep : ℕ) (t rest : List ℕ) (e : ℕ)
    → Word sep t
    → 0 < length t
    → length t < dst_len
    → stops sep e ≡ true
    → copy_until dst_len sep (b' ' ∷ (t ++ (e ∷ rest))) ≡ (t, e ∷ rest)
unfolding copy_until skip_whitespace
copy_until-blank = copy_until-Word
