-- ===== src/Sdp/Tracks.antt =====
-- The lines of a track, from src/signal/sdp_generator.c to src/signal/sdp_parser.c.
use tinyrtc.Prelude.{
  ℕ, ◌^◌, ◌≤◌, ◌<◌, ◌≡◌, ◌≢◌, ◌⊎◌, inl, inr, refl, sym, ap, ◌∙◌, Bool, true, false, ◌&&◌, ◌||◌,
  List, [], ◌∷◌, ◌++◌, Option, none, some, arith, append-nil, append_assoc, ltb, ltb-true, leb,
  leb-false, ◌==◌, ==_refl, Bool-cases, if-true, if-false, if◌then◌else◌, length, length-append,
  All, All-append, u32,
}
use tinyrtc.Codec.{CodecId, h264, opus, pcma, pcmu, g722, codec_number, get_name}
use tinyrtc.TrackTypes.{TrackKind, audio, video}
use tinyrtc.Sdp.{Media, SdpSession}
use tinyrtc.Sdp.Text.{
  codes, same_text, same_text_ignoring_case, stops, find_end, copy_until, copied, trim_end,
  cons_trimmed, skip_whitespace, parse_int, strtol, skip_spaces, is_space, is_digit, to_lower,
  print_unsigned, print_int, atoi,
}
use tinyrtc.Sdp.Parser.{
  channels_of, value_or, skip_char, attribute, parse_line, kind_of, new_media, default_codec,
  push_media, add_numbered, add_known, rtpmap_of, media_line, find_blank, split_slash, codec_named,
  update_codec, rtpmap_codec, parse_rtpmap,
}
use tinyrtc.Sdp.Generator.{crlf, media_name, channels_text, rtpmap_line, media_description_line}
use tinyrtc.Sdp.Numbers.{
  Digits, print_unsigned-Digits, length-print_16, length-print_32, print_int-positive,
  parse_int-print_unsigned, strtol-print_unsigned, atoi-print_unsigned,
}
use tinyrtc.Sdp.Words.{Word, copy_until-Word, copy_until-blank}
use tinyrtc.Sdp.Lines.{Consumes, line-Consumes}
use tinyrtc.Sdp.Fields.{Field, line_end, line_end-eol, short-Field, copy_until-last}
use tinyrtc.Sdp.Header.{name-Parses}

-- The first entry of a track, as its `m=` line gives it.
abbrev pub bare : TrackKind → ℕ → ℕ → CodecId → ℕ → ℕ → List ℕ → Media
bare kind port payload_type codec_id clock_rate channels mid = record {
  kind = kind;
  port = port;
  payload_type = payload_type;
  codec_id = codec_id;
  clock_rate = clock_rate;
  channels = channels;
  mid = mid;
  direction_send = true;
  direction_recv = true;
}

if-same : {A : Type 0} (P : A → Type 0) (b : Bool) (x y : A) → P x → P y → P (if b then x else y)
if-same P true x y p q = p
if-same P false x y p q = q

-- The defaults of a payload type write three fields.
module _ (kind : TrackKind) (port pt : ℕ) (P : Media → Type 0) where
  new_media-cases :
      ((codec : CodecId) (clock channels : ℕ) → P (bare kind port pt codec clock channels []))
      → P (new_media kind port pt)
  unfolding new_media default_codec
  new_media-cases all = if-same P (pt == 0) _ _ (all pcmu 8000 1) (
      if-same P (pt == 8) _ _ (all pcma 8000 1) (
        if-same P (pt == 9) _ _ (all g722 8000 1) (
          if-same P (pt == 100) _ _ (all h264 90000 1)
            (if-same P (pt == 111) _ _ (all opus 48000 2) (all h264 0 0)))))

-- The payload type of none of the tracks.
abbrev pub Fresh : ℕ → List Media → Type 0
Fresh pt ms = All (λ m. (m.payload_type == pt) ≡ false) ms

update_codec-last :
    (pt clock channels : ℕ) (name : List ℕ) (ms : List Media) (m after : Media)
    → Fresh pt ms
    → update_codec pt name clock channels (m ∷ []) ≡ after ∷ []
    → update_codec pt name clock channels (ms ++ (m ∷ [])) ≡ ms ++ (after ∷ [])
unfolding update_codec
update_codec-last pt clock channels name [] m after f e = e
update_codec-last pt clock channels name (n ∷ ns) m after (h, f) e =
    if-false _ _ _ h ∙ ap (λ r. n ∷ r) (update_codec-last pt clock channels name ns m after f e)

-- The name of a codec is read back.
abbrev name_of : CodecId → List ℕ
name_of codec = codes (get_name (codec_number codec))

record Named (codec : CodecId) : Type 0 where
  is_word : Word b'/' (name_of codec)
  there : 0 < length (name_of codec)
  fits : length (name_of codec) < 64
  read_back : (old : CodecId) → codec_named (name_of codec) old ≡ codec

name_of-Named : (codec : CodecId) → Named codec
unfolding get_name codec_number codec_named same_text_ignoring_case to_lower
name_of-Named h264 = record {
  is_word = omega arith;
  there = omega arith;
  fits = omega arith;
  read_back = λ old. refl;
}
name_of-Named opus = record {
  is_word = omega arith;
  there = omega arith;
  fits = omega arith;
  read_back = λ old. refl;
}
name_of-Named pcma = record {
  is_word = omega arith;
  there = omega arith;
  fits = omega arith;
  read_back = λ old. refl;
}
name_of-Named pcmu = record {
  is_word = omega arith;
  there = omega arith;
  fits = omega arith;
  read_back = λ old. refl;
}
name_of-Named g722 = record {
  is_word = omega arith;
  there = omega arith;
  fits = omega arith;
  read_back = λ old. refl;
}

update_codec-new :
    (kind : TrackKind) (port pt clock channels : ℕ) (codec : CodecId)
    → 0 < clock
    → update_codec pt (name_of codec) clock channels (new_media kind port pt ∷ [])
      ≡ bare kind port pt codec clock channels [] ∷ []
update_codec-new kind port pt clock channels codec h =
    new_media-cases kind port pt
      (λ m.
        update_codec pt (name_of codec) clock channels (m ∷ [])
        ≡ bare kind port pt codec clock channels [] ∷ [])
      (λ old c n.
        let same : (pt == pt) ≡ true = ==_refl pt in
        let positive : ltb 0 clock ≡ true = ltb-true 0 clock h in
        unfold update_codec in
        if-true _ _ _ same
        ∙ ap (λ k. bare kind port pt (codec_named (name_of codec) old) k channels [] ∷ [])
            (if-true _ _ _ positive)
        ∙ ap (λ k. bare kind port pt k clock channels [] ∷ [])
            ((name_of-Named codec).read_back old))

-- A video track has one channel, and a sound track a positive number of them.
abbrev pub ChannelsFit : TrackKind → ℕ → Type 0
ChannelsFit audio channels = (0 < channels) × (channels < 2 ^ 31)
ChannelsFit video channels = channels ≡ 1

-- What the generator writes of a track and the parser reads.
pub record IsMedia (m : Media) : Type 0 where
  pub port_fits : m.port < 2 ^ 16
  pub payload_fits : m.payload_type < 2 ^ 31
  pub clock_positive : 0 < m.clock_rate
  pub clock_fits : m.clock_rate < 2 ^ 32
  pub channels_fit : ChannelsFit m.kind m.channels
  pub mid_fits : (m.mid ≡ []) ⊎ Field 16 m.mid
  pub sends : m.direction_send ≡ true
  pub receives : m.direction_recv ≡ true

kind_of-media_name : (kind : TrackKind) → kind_of (media_name kind) ≡ some kind
unfolding kind_of same_text
kind_of-media_name audio = refl
kind_of-media_name video = refl

media_name-Field : (kind : TrackKind) → Field 16 (media_name kind)
media_name-Field audio = record { is_word = omega arith; there = omega arith; fits = omega arith }
media_name-Field video = record { is_word = omega arith; there = omega arith; fits = omega arith }

-- The protocol is cut to 15 characters and forgotten.
protocol-skipped :
    (rest : List ℕ)
    → copy_until 16 b' ' (codes " UDP/TLS/RTP/SAVPF " ++ rest)
      ≡ (codes "UDP/TLS/RTP/SAV", b' ' ∷ rest)
unfolding copy_until skip_whitespace copied trim_end cons_trimmed find_end stops
protocol-skipped rest = refl

strtol-blank :
    (n : ℕ) (rest : List ℕ)
    → n < 2 ^ 31
    → strtol (b' ' ∷ (print_unsigned n ++ line_end rest)) ≡ some (n, line_end rest)
unfolding strtol skip_spaces is_space is_digit
strtol-blank n rest h = strtol-print_unsigned n (line_end rest) (omega arith) refl

find_blank-Digits : (t rest : List ℕ) → Digits t → find_blank (t ++ (b' ' ∷ rest)) ≡ b' ' ∷ rest
unfolding find_blank is_digit
find_blank-Digits [] rest d = refl
find_blank-Digits (c ∷ cs) rest (h, d) =
    let go : ((c == b' ') || (c == b'\n')) ≡ false = ground arith in
    if-false _ _ _ go ∙ find_blank-Digits cs rest d

split_slash-none : (t : List ℕ) → Digits t → split_slash t ≡ (t, none)
unfolding split_slash is_digit
split_slash-none [] d = refl
split_slash-none (c ∷ cs) (h, d) =
    let go : (c == b'/') ≡ false = ground arith in
    if-false _ _ _ go
    ∙ ap (λ (r : List ℕ × Option (List ℕ)). (c ∷ r.0, r.1)) (split_slash-none cs d)

split_slash-some : (t rest : List ℕ) → Digits t → split_slash (t ++ (b'/' ∷ rest)) ≡ (t, some rest)
unfolding split_slash is_digit
split_slash-some [] rest d = refl
split_slash-some (c ∷ cs) rest (h, d) =
    let go : (c == b'/') ≡ false = ground arith in
    if-false _ _ _ go
    ∙ ap (λ (r : List ℕ × Option (List ℕ)). (c ∷ r.0, r.1)) (split_slash-some cs rest d)

-- The parameters behind a codec's name, and what the parser makes of them.
parameter_text : TrackKind → ℕ → ℕ → List ℕ
parameter_text kind clock channels = print_unsigned clock ++ channels_text kind channels

parse_int-all : (n : ℕ) → n < 2 ^ 32 → parse_int (print_unsigned n) ≡ some n
parse_int-all n h =
    ap parse_int (sym (append-nil (print_unsigned n))) ∙ parse_int-print_unsigned n [] h tt

atoi-all : (n : ℕ) → n < 2 ^ 32 → atoi (print_unsigned n) ≡ n
atoi-all n h = ap atoi (sym (append-nil (print_unsigned n))) ∙ atoi-print_unsigned n [] h tt

channels_text-audio : (n : ℕ) → 0 < n → n < 2 ^ 31 → channels_text audio n ≡ b'/' ∷ print_unsigned n
unfolding channels_text print_unsigned
channels_text-audio n p h = elim (Bool-cases (ltb 1 n && ltb n 2147483648)) [
  | inl t ↦ if-true _ _ _ t ∙ ap (λ (x : List ℕ). b'/' ∷ x) (print_int-positive n h)
  | inr t ↦
      let one : n ≡ 1 = ground arith in
      if-false _ _ _ t ∙ ap (λ k. b'/' ∷ print_unsigned k) (sym one)
]

record Parameters (kind : TrackKind) (rate channels : ℕ) : Type 0 where
  front : List ℕ
  behind : Option (List ℕ)
  is_split : split_slash (parameter_text kind rate channels) ≡ (front, behind)
  clock : atoi front ≡ rate
  count : channels_of behind ≡ channels
  field : Field 64 (parameter_text kind rate channels)

parameter_text-Parameters :
    (kind : TrackKind) (rate channels : ℕ)
    → rate < 2 ^ 32
    → ChannelsFit kind channels
    → Parameters kind rate channels
unfolding parameter_text channels_of
parameter_text-Parameters video rate channels h c =
    let all : print_unsigned rate ++ channels_text video channels ≡ print_unsigned rate =
      unfold channels_text in append-nil (print_unsigned rate) in
    let short = length-print_32 rate h in
    record {
      front = print_unsigned rate;
      behind = none;
      is_split = ap split_slash all ∙ split_slash-none _ (print_unsigned-Digits rate);
      clock = atoi-all rate h;
      count = sym c;
      field = rw all (short-Field 64 rate (omega (arith, short)));
    }
parameter_text-Parameters audio rate channels h (p, c) =
    let all : print_unsigned rate ++ channels_text audio channels
        ≡ print_unsigned rate ++ (b'/' ∷ print_unsigned channels) =
      ap (λ x. print_unsigned rate ++ x) (channels_text-audio channels p c) in
    let f = short-Field 64 rate (omega (arith, length-print_32 rate h)) in
    let g = short-Field 64 channels (omega (arith, length-print_32 channels (omega arith))) in
    let whole : Field 64 (print_unsigned rate ++ (b'/' ∷ print_unsigned channels)) = record {
      is_word =
          All-append (λ c. (33 ≤ c) × (c ≢ b' ')) (print_unsigned rate)
            (b'/' ∷ print_unsigned channels) f.is_word (omega arith, g.is_word);
      there = omega (arith, length-append (print_unsigned rate) (b'/' ∷ print_unsigned channels));
      fits = omega (
        arith,
        length-append (print_unsigned rate) (b'/' ∷ print_unsigned channels),
        length-print_32 rate h,
        length-print_32 channels (omega arith),
      );
    } in
    record {
      front = print_unsigned rate;
      behind = some (print_unsigned channels);
      is_split = ap split_slash all ∙ split_slash-some _ _ (print_unsigned-Digits rate);
      clock = atoi-all rate h;
      count = atoi-all channels (omega arith);
      field = rw all whole;
    }

module _ (s : SdpSession) (m : Media) (v : IsMedia m) (fresh : Fresh m.payload_type s.media) where
  open m use {kind, port, payload_type, codec_id, clock_rate, channels}

  rtpmap_codec-line :
      (rest : List ℕ)
      → rtpmap_codec (push_media s (new_media kind port payload_type)) payload_type (
          print_unsigned payload_type
          ++ (b' '
              ∷ (name_of codec_id
                  ++ (b'/' ∷ (parameter_text kind clock_rate channels ++ line_end rest)))))
        ≡ (
          push_media s (bare kind port payload_type codec_id clock_rate channels []),
          line_end rest,
        )
  unfolding rtpmap_codec skip_char push_media
  rtpmap_codec-line rest =
      let named = name_of-Named codec_id in
      let params = parameter_text-Parameters kind clock_rate channels v.clock_fits v.channels_fit in
      let tail : List ℕ = parameter_text kind clock_rate channels ++ line_end rest in
      let e1 : find_blank
            (print_unsigned payload_type ++ (b' ' ∷ (name_of codec_id ++ (b'/' ∷ tail))))
          ≡ b' ' ∷ (name_of codec_id ++ (b'/' ∷ tail)) =
        find_blank-Digits (print_unsigned payload_type) _ (print_unsigned-Digits payload_type) in
      let e2 : copy_until 64 b'/' (name_of codec_id ++ (b'/' ∷ tail))
          ≡ (name_of codec_id, b'/' ∷ tail) =
        copy_until-Word 64 b'/' (name_of codec_id) tail b'/' named.is_word named.there named.fits
          (unfold stops in refl) in
      let e3 : copy_until 64 b'\n' tail ≡ (parameter_text kind clock_rate channels, line_end rest) =
        copy_until-last 64 (parameter_text kind clock_rate channels) rest params.field in
      let e4 : update_codec payload_type (name_of codec_id) clock_rate channels
            (s.media ++ (new_media kind port payload_type ∷ []))
          ≡ s.media ++ (bare kind port payload_type codec_id clock_rate channels [] ∷ []) =
        update_codec-last payload_type clock_rate channels (name_of codec_id) s.media _ _ fresh
          (update_codec-new kind port payload_type clock_rate channels codec_id v.clock_positive) in
      rw (e1, e2, e3, params.is_split, params.clock, params.count, e4)

  add_numbered-strtol :
      (rest : List ℕ)
      → add_numbered s kind port
          (b' ' ∷ (print_unsigned payload_type ++ line_end rest))
          (strtol (b' ' ∷ (print_unsigned payload_type ++ line_end rest)))
        ≡ (push_media s (new_media kind port payload_type), line_end rest)
  unfolding add_numbered
  add_numbered-strtol rest =
      let e : u32 payload_type ≡ payload_type = omega (arith, v.payload_fits) in
      ap (add_numbered s kind port (b' ' ∷ (print_unsigned payload_type ++ line_end rest)))
        (strtol-blank payload_type rest v.payload_fits)
      ∙ ap (λ n. (push_media s (new_media kind port n), line_end rest)) e

  media_line-fields :
      (rest : List ℕ)
      → length s.media < 2
      → media_line s (
          media_name kind
          ++ (b' '
              ∷ (print_unsigned port
                  ++ (codes " UDP/TLS/RTP/SAVPF "
                      ++ (print_unsigned payload_type ++ line_end rest)))))
        ≡ (push_media s (new_media kind port payload_type), line_end rest)
  unfolding media_line add_known value_or
  media_line-fields rest room =
      let p3 : List ℕ = print_unsigned payload_type ++ line_end rest in
      let p2 : List ℕ = codes " UDP/TLS/RTP/SAVPF " ++ p3 in
      let p1 : List ℕ = b' ' ∷ (print_unsigned port ++ p2) in
      let fk = media_name-Field kind in
      let fp = short-Field 16 port (omega (arith, length-print_16 port v.port_fits)) in
      let e0 : leb 2 (length s.media) ≡ false = leb-false 2 (length s.media) room in
      let e1 : copy_until 16 b' ' (media_name kind ++ p1) ≡ (media_name kind, p1) =
        copy_until-Word 16 b' ' (media_name kind) (print_unsigned port ++ p2) b' ' fk.is_word
          fk.there fk.fits (unfold stops in refl) in
      let e2 : copy_until 16 b' ' p1 ≡ (print_unsigned port, p2) =
        copy_until-blank 16 b' ' (print_unsigned port) (codes "UDP/TLS/RTP/SAVPF " ++ p3) b' '
          fp.is_word fp.there fp.fits (unfold stops in refl) in
      let e3 : copy_until 16 b' ' p2 ≡ (codes "UDP/TLS/RTP/SAV", b' ' ∷ p3) = protocol-skipped p3 in
      let e4 : parse_int (print_unsigned port) ≡ some port =
        parse_int-all port (omega (arith, v.port_fits)) in
      rw (e0, e1, e2, e3, kind_of-media_name kind, e4) (add_numbered-strtol rest)

  module _ (junk : ℕ) where
    pub media_line-Consumes :
        length s.media < 2
        → Consumes junk s
            (media_description_line m)
            (push_media s (new_media kind port payload_type))
    unfolding media_description_line parse_line
    media_line-Consumes room = line-Consumes junk b'm' s _ _ refl (record {
      pointer = line_end;
      parsed = λ rest.
          let e : (media_name kind
                  ++ (codes " "
                      ++ (print_int port
                          ++ (codes " UDP/TLS/RTP/SAVPF " ++ (print_int payload_type ++ crlf)))))
                ++ rest
              ≡ media_name kind
                ++ (b' '
                    ∷ (print_unsigned port
                        ++ (codes " UDP/TLS/RTP/SAVPF "
                            ++ (print_unsigned payload_type ++ line_end rest)))) =
            rw
              (
                print_int-positive port (omega (arith, v.port_fits)),
                print_int-positive payload_type v.payload_fits,
              )
              (simp append_assoc) in
          ap (media_line s) e ∙ media_line-fields rest room;
      at_end = line_end-eol;
    })

    pub rtpmap-Consumes :
        Consumes junk
          (push_media s (new_media kind port payload_type))
          (rtpmap_line m)
          (push_media s (bare kind port payload_type codec_id clock_rate channels []))
    unfolding rtpmap_line attribute same_text skip_char parse_rtpmap rtpmap_of parameter_text
    rtpmap-Consumes = line-Consumes junk b'a' _ _ _ refl (
        name-Parses junk (codes "rtpmap") _ _ _ line_end (omega arith) (omega arith) (omega arith)
          (λ rest.
            let e : (print_int payload_type
                    ++ (codes " "
                        ++ (name_of codec_id
                            ++ (codes "/"
                                ++ (print_unsigned clock_rate
                                    ++ (channels_text kind channels ++ crlf))))))
                  ++ rest
                ≡ print_unsigned payload_type
                  ++ (b' '
                      ∷ (name_of codec_id
                          ++ (b'/'
                              ∷ ((print_unsigned clock_rate ++ channels_text kind channels)
                                  ++ line_end rest)))) =
              rw (print_int-positive payload_type v.payload_fits) (simp append_assoc) in
            let n =
              parse_int-print_unsigned payload_type
                (b' '
                  ∷ (name_of codec_id
                      ++ (b'/'
                          ∷ ((print_unsigned clock_rate ++ channels_text kind channels)
                              ++ line_end rest))))
                (omega (arith, v.payload_fits)) (unfold is_digit in refl) in
            rw (e, n) (rtpmap_codec-line rest))
          line_end-eol)
