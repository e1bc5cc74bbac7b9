-- ===== src/Sdp/TrackTexts.antt =====
-- All the lines of the tracks, from src/signal/sdp_generator.c to src/signal/sdp_parser.c.
use tinyrtc.Prelude.{
  ℕ, ◌+◌, ◌≤◌, ◌<◌, ◌≡◌, ◌⊎◌, inl, inr, refl, sym, ap, ◌∙◌, Bool, true, false, List, [], ◌∷◌, ◌++◌,
  arith, append-nil, append_assoc, ltb, ltb-true, length, length-append, All, take, take-all,
  if-true,
}
use mathlib.Core.Path.{subst}
use tinyrtc.Codec.{CodecId}
use tinyrtc.TrackTypes.{TrackKind}
use tinyrtc.Sdp.{Media, SdpSession}
use tinyrtc.Sdp.Text.{
  codes, same_text, stops, find_end, copy_until, copied, trim_end, cons_trimmed, skip_whitespace,
}
use tinyrtc.Sdp.Parser.{
  skip_char, attribute, attribute_line, parse_line, push_media, set_mid, parse_mid,
}
use tinyrtc.Sdp.Generator.{crlf, optional_line, direction_line, media_text, media_texts}
use tinyrtc.Sdp.Lines.{Consumes, Consumes-nil, Consumes-append, line-Consumes}
use tinyrtc.Sdp.Fields.{Field, line_end, line_end-eol, Word-eol}
use tinyrtc.Sdp.Header.{attribute-Parses}
use tinyrtc.Sdp.Words.{copy_until-Word}
use tinyrtc.Sdp.Tracks.{bare, Fresh, IsMedia, media_line-Consumes, rtpmap-Consumes}

set_mid-last :
    (mid : List ℕ) (ms : List Media) (m : Media)
    → set_mid mid (ms ++ (m ∷ [])) ≡ ms ++ (record m { mid = take 15 mid } ∷ [])
unfolding set_mid
set_mid-last mid [] m = refl
set_mid-last mid (n ∷ []) m = refl
set_mid-last mid (n ∷ k ∷ ms) m = ap (λ r. n ∷ r) (set_mid-last mid (k ∷ ms) m)

module _ (junk : ℕ) (s : SdpSession) where
  mid-Consumes :
      (kind : TrackKind) (port pt : ℕ) (codec : CodecId) (rate channels : ℕ) (mid : List ℕ)
      → Field 16 mid
      → Consumes junk
          (push_media s (bare kind port pt codec rate channels []))
          (codes "a=mid:" ++ (mid ++ crlf))
          (push_media s (bare kind port pt codec rate channels mid))
  unfolding attribute same_text parse_mid skip_char push_media
  mid-Consumes kind port pt codec rate channels mid f = line-Consumes junk b'a' _ _ _ refl (
      attribute-Parses junk (codes "mid") _ _ mid line_end (omega arith) (omega arith) (omega arith)
        (λ rest.
          let x = bare kind port pt codec rate channels [] in
          let e0 : ltb 0 (length (s.media ++ (x ∷ []))) ≡ true =
            ltb-true 0 (length (s.media ++ (x ∷ [])))
              (omega (arith, length-append s.media (x ∷ []))) in
          let e1 : copy_until 32 b'\n' (mid ++ line_end rest) ≡ (mid, line_end rest) =
            copy_until-Word 32 b'\n' mid (b'\n' ∷ rest) b'\r' (Word-eol mid f.is_word) f.there
              (omega (arith, f.fits)) (unfold stops in refl) in
          if-true _ _ _ e0
          ∙ ap
              (λ (r : List ℕ × List ℕ).
                (record s { media = set_mid r.0 (s.media ++ (x ∷ [])) }, r.1))
              e1
          ∙ ap (λ (ms : List Media). (record s { media = ms }, line_end rest))
              (set_mid-last mid s.media x)
          ∙ ap
              (λ (t : List ℕ).
                (record s { media = s.media ++ (record x { mid = t } ∷ []) }, line_end rest))
              (take-all 15 mid (omega (arith, f.fits))))
        line_end-eol)

  -- A line that the parser knows nothing of.
  mux-Consumes : Consumes junk s (codes "a=rtcp-mux\r\n") s
  unfolding parse_line attribute_line attribute same_text copy_until copied trim_end cons_trimmed
      skip_whitespace find_end stops
  mux-Consumes =
      line-Consumes junk b'a' s s (codes "rtcp-mux\r\n") refl
        (record { pointer = line_end; parsed = λ rest. refl; at_end = line_end-eol })

  direction-Consumes :
      (send recv : Bool) → send ≡ true → recv ≡ true → Consumes junk s (direction_line send recv) s
  unfolding direction_line parse_line attribute_line attribute same_text copy_until copied trim_end
      cons_trimmed skip_whitespace find_end stops
  direction-Consumes true true e f =
      line-Consumes junk b'a' s s (codes "sendrecv\r\n") refl
        (record { pointer = line_end; parsed = λ rest. refl; at_end = line_end-eol })
  direction-Consumes true false e f = absurd (cc)
  direction-Consumes false recv e f = absurd (cc)

  pub options-Consumes : Consumes junk s (codes "a=ice-options:trickle\r\n") s
  unfolding parse_line attribute_line attribute same_text copy_until copied trim_end cons_trimmed
      skip_whitespace find_end stops
  options-Consumes = line-Consumes junk b'a' s s (codes "ice-options:trickle\r\n") refl (record {
    pointer = λ rest. codes ":trickle" ++ line_end rest;
    parsed = λ rest. refl;
    at_end = λ rest. refl;
  })

  optional_mid-Consumes :
      (kind : TrackKind) (port pt : ℕ) (codec : CodecId) (rate channels : ℕ) (mid : List ℕ)
      → (mid ≡ []) ⊎ Field 16 mid
      → Consumes junk
          (push_media s (bare kind port pt codec rate channels []))
          (optional_line (codes "a=mid:") mid)
          (push_media s (bare kind port pt codec rate channels mid))
  unfolding optional_line
  optional_mid-Consumes kind port pt codec rate channels [] h = Consumes-nil junk _
  optional_mid-Consumes kind port pt codec rate channels (c ∷ cs) (inl e) = absurd (cc)
  optional_mid-Consumes kind port pt codec rate channels (c ∷ cs) (inr f) =
      mid-Consumes kind port pt codec rate channels (c ∷ cs) f

module _ (junk : ℕ) where
  pub media_text-Consumes :
      (s : SdpSession) (m : Media)
      → IsMedia m
      → length s.media < 2
      → Fresh m.payload_type s.media
      → Consumes junk s (media_text m) (push_media s m)
  unfolding media_text
  media_text-Consumes s m v room fresh =
      let whole : bare m.kind m.port m.payload_type m.codec_id m.clock_rate m.channels m.mid ≡ m =
        λ i. record {
          kind = m.kind;
          port = m.port;
          payload_type = m.payload_type;
          codec_id = m.codec_id;
          clock_rate = m.clock_rate;
          channels = m.channels;
          mid = m.mid;
          direction_send = sym v.sends i;
          direction_recv = sym v.receives i;
        } in
      let last =
        direction-Consumes junk (push_media s m) m.direction_send m.direction_recv v.sends
          v.receives in
      Consumes-append junk _ _ (media_line-Consumes s m v fresh junk room) (
        Consumes-append junk _ _ (rtpmap-Consumes s m v fresh junk) (
          Consumes-append junk _ _
            (subst
              (λ n.
                Consumes junk
                  (push_media s
                    (bare m.kind m.port m.payload_type m.codec_id m.clock_rate m.channels []))
                  (optional_line (codes "a=mid:") m.mid) (push_media s n))
              whole
              (optional_mid-Consumes junk s m.kind m.port m.payload_type m.codec_id m.clock_rate
                m.channels m.mid v.mid_fits))
            (Consumes-append junk _ _ (mux-Consumes junk (push_media s m)) last)))

-- No payload type is used twice, also by the tracks in front.
abbrev pub DistinctPayloads : List Media → List Media → Type 0
DistinctPayloads before [] = Unit
DistinctPayloads before (m ∷ ms) =
    Fresh m.payload_type before × DistinctPayloads (before ++ (m ∷ [])) ms

pub media_texts-Consumes :
    (junk : ℕ) (s : SdpSession) (ms : List Media)
    → All IsMedia ms
    → length s.media + length ms ≤ 2
    → DistinctPayloads s.media ms
    → Consumes junk s (media_texts ms) (record s { media = s.media ++ ms })
unfolding media_texts push_media
media_texts-Consumes junk s [] v room d =
    subst (λ (ms : List Media). Consumes junk s [] (record s { media = ms }))
      (sym (append-nil s.media)) (Consumes-nil junk s)
media_texts-Consumes junk s (m ∷ ms) (v, vs) room (fresh, d) =
    let t : SdpSession = record s { media = s.media ++ (m ∷ []) } in
    let grown = length-append s.media (m ∷ []) in
    Consumes-append junk _ _ (media_text-Consumes junk s m v (omega (arith, room)) fresh) (
      subst (λ (ns : List Media). Consumes junk t (media_texts ms) (record s { media = ns }))
        (append_assoc s.media (m ∷ []) ms)
        (media_texts-Consumes junk t ms vs (omega (arith, room, grown)) d))
