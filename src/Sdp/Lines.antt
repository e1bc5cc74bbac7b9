-- ===== src/Sdp/Lines.antt =====
-- Lines on their way through the loop of `sdp_parse` of src/signal/sdp_parser.c.
use tinyrtc.Prelude.{
  ℕ, suc, ◌+◌, ◌≤◌, ◌≡◌, ap, ◌∙◌, false, ◌||◌, List, [], ◌∷◌, ◌++◌, arith, append_assoc, ◌==◌,
  if-false, length, length-append, done, Outcome, ◌>>=◌,
}
use tinyrtc.Sdp.{SdpSession}
use tinyrtc.Sdp.Text.{find_eol}
use tinyrtc.Sdp.Parser.{parse_line, next_line, typed_line, round, parse_lines}

module _ (junk : ℕ) where
  -- The loop takes a text of whole lines, in no more rounds than the text is long, and goes on with
  -- another session behind it.
  pub record Consumes (s : SdpSession) (text : List ℕ) (after : SdpSession) : Type 0 where
    pub rounds : ℕ
    pub few : rounds ≤ length text
    pub runs :
        (fuel : ℕ) (rest : List ℕ)
        → parse_lines junk (rounds + fuel) s (text ++ rest) ≡ parse_lines junk fuel after rest

  pub Consumes-nil : (s : SdpSession) → Consumes s [] s
  Consumes-nil s = record {
    rounds = 0;
    few = omega arith;
    runs = λ fuel rest. ap (λ n. parse_lines junk n s rest) (omega arith);
  }

  pub Consumes-append :
      {s t u : SdpSession} (xs ys : List ℕ)
      → Consumes s xs t
      → Consumes t ys u
      → Consumes s (xs ++ ys) u
  Consumes-append {s} {t} {u} xs ys p q = record {
    rounds = p.rounds + q.rounds;
    few = omega (arith, p.few, q.few, length-append xs ys);
    runs = λ fuel rest.
        ap (λ n. parse_lines junk n s ((xs ++ ys) ++ rest)) (omega arith)
        ∙ ap (parse_lines junk (p.rounds + (q.rounds + fuel)) s) (append_assoc xs ys rest)
        ∙ p.runs (q.rounds + fuel) (ys ++ rest)
        ∙ q.runs fuel rest;
  }

  -- What the switch does with a line behind its `=`, where it stops in front of the line's end.
  pub record Parses (type : ℕ) (s : SdpSession) (line : List ℕ) (after : SdpSession) : Type 0 where
    pub pointer : List ℕ → List ℕ
    pub parsed : (rest : List ℕ) → parse_line junk type s (line ++ rest) ≡ (after, pointer rest)
    pub at_end : (rest : List ℕ) → find_eol (pointer rest) ≡ b'\r' ∷ b'\n' ∷ rest

  round-Parses :
      (type : ℕ) (s after : SdpSession) (line rest : List ℕ)
      → ((type == b'\n') || (type == b'\r')) ≡ false
      → Parses type s line after
      → round junk type s (b'=' ∷ (line ++ rest)) ≡ done (after, rest)
  unfolding round typed_line next_line
  round-Parses type s after line rest no_end p =
      if-false _ _ _ no_end
      ∙ ap (λ (r : SdpSession × List ℕ). done (r.0, next_line (find_eol r.1))) (p.parsed rest)
      ∙ ap (λ q. done (after, next_line q)) (p.at_end rest)

  one_more : (n : ℕ) → 1 + n ≡ suc n
  one_more n = omega arith

  pub line-Consumes :
      (type : ℕ) (s after : SdpSession) (line : List ℕ)
      → ((type == b'\n') || (type == b'\r')) ≡ false
      → Parses type s line after
      → Consumes s (type ∷ b'=' ∷ line) after
  unfolding parse_lines
  line-Consumes type s after line no_end p = record {
    rounds = 1;
    few = omega arith;
    runs = λ fuel rest.
        ap (λ n. parse_lines junk n s (type ∷ b'=' ∷ (line ++ rest))) (one_more fuel)
        ∙ ap (λ (r : Outcome (SdpSession × List ℕ)). r >>= (λ a. parse_lines junk fuel a.0 a.1))
            (round-Parses type s after line rest no_end p);
  }
