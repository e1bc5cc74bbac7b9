-- ===== src/Sdp/Parser.antt =====
-- `sdp_parse` of src/signal/sdp_parser.c and its helpers. What an attribute or a line does to the
-- session is a function that gives the session and the pointer `p` behind it; the log is left out.
use tinyrtc.Prelude.{
  ℕ, zero, suc, Bool, true, false, not, ◌&&◌, ◌||◌, List, [], ◌∷◌, ◌++◌, Option, none, some, ltb,
  leb, ◌==◌, if◌then◌else◌, length, take, u16, u32, Outcome, done, refused, fault, ◌>>=◌,
}
use tinyrtc.Status.{Status, ok, error}
use tinyrtc.Codec.{CodecId, h264, opus, pcma, pcmu, g722}
use tinyrtc.TrackTypes.{TrackKind, audio, video}
use tinyrtc.Ice.{max_candidates}
use tinyrtc.Sdp.{Media, SdpCandidate, SdpSession, session_init, max_media}
use tinyrtc.Sdp.Text.{
  codes, same_text, same_text_ignoring_case, has_char, skip_whitespace, find_eol, copy_until,
  strtol, strtoull, parse_int, parse_uint64, atoi,
}

-- `text[0] == c`
unfoldable pub starts_with : ℕ → List ℕ → Bool
starts_with c [] = false
starts_with c (d ∷ ds) = d == c

-- `strtoul` of the priority; none where nothing was read.
unfoldable pub checked_priority : List ℕ → Option (ℕ × List ℕ) → Option ℕ
checked_priority text none = none
checked_priority text (some (value, rest)) =
    if (value == 0) && not (starts_with b'0' text) then none else some value

unfoldable pub priority_of : List ℕ → Option ℕ
priority_of text = checked_priority text (strtoull text)

-- The entry, where each field is there and each number was read.
unfoldable pub make_candidate :
    List ℕ
    → List ℕ
    → List ℕ
    → List ℕ
    → List ℕ
    → Option ℕ
    → Option ℕ
    → Option ℕ
    → Option SdpCandidate
make_candidate foundation protocol ip token type (some comp) (some priority) (some port) =
    if ltb 0 (length foundation)
      && (ltb 0 (length ip) && (same_text token (codes "typ") && ltb 0 (length type)))
    then some (record {
      foundation = foundation;
      priority = u32 priority;
      ip = ip;
      port = u16 port;
      type = type;
      protocol = if ltb 0 (length protocol) then protocol else codes "udp";
      is_ipv6 = has_char b':' ip;
    })
    else none
make_candidate foundation protocol ip token type comp priority port = none

-- `parse_candidate`; none is the result -1. The caller's entry is written also where the line is
-- refused, but it is not counted then, and every field is written before it is.
unfoldable pub parse_candidate : List ℕ → Option SdpCandidate
parse_candidate line =
    let (foundation, line1) = copy_until 32 b' ' line in
    let (comp_str, line2) = copy_until 16 b' ' line1 in
    let (protocol, line3) = copy_until 16 b' ' line2 in
    let (prio_str, line4) = copy_until 32 b' ' line3 in
    let (ip, line5) = copy_until 64 b' ' line4 in
    let (port_str, line6) = copy_until 16 b' ' line5 in
    let (token, line7) = copy_until 32 b' ' line6 in
    let (type, line8) = copy_until 32 b' ' line7 in
    make_candidate foundation protocol ip token type (parse_int comp_str) (priority_of prio_str)
      (parse_int port_str)

-- `parse_fingerprint`: the type and the rest of the line; none is the result -1, where the type is
-- written nevertheless.
unfoldable pub fingerprint_text : ℕ → List ℕ → List ℕ
fingerprint_text zero line = []
fingerprint_text (suc n) [] = []
fingerprint_text (suc n) (c ∷ cs) =
    let more = c ∷ fingerprint_text n cs in if (c == b'\n') || (c == b'\r') then [] else more

unfoldable pub parse_fingerprint : SdpSession → List ℕ → SdpSession
parse_fingerprint session line =
    let (type, rest) = copy_until 16 b' ' line in
    if ltb 0 (length type)
    then record session {
      fingerprint_type = type;
      fingerprint = fingerprint_text 127 (skip_whitespace rest);
    }
    else record session { fingerprint_type = type }

-- `if (*p == ':') p++`
unfoldable pub skip_char : ℕ → List ℕ → List ℕ
skip_char c [] = []
skip_char c (d ∷ ds) = if d == c then ds else d ∷ ds

-- The codec of a name, and the old one for a name that is not known.
unfoldable pub codec_named : List ℕ → CodecId → CodecId
codec_named name old =
    if same_text_ignoring_case name (codes "H264")
    then h264
    else if same_text_ignoring_case name (codes "OPUS")
    then opus
    else if same_text_ignoring_case name (codes "PCMA")
    then pcma
    else if same_text_ignoring_case name (codes "PCMU")
    then pcmu
    else if same_text_ignoring_case name (codes "G722")
    then g722
    else old

-- The loop that finds the first track with the payload type.
unfoldable pub update_codec : ℕ → List ℕ → ℕ → ℕ → List Media → List Media
update_codec pt name clock_rate channels [] = []
update_codec pt name clock_rate channels (m ∷ ms) =
    let rest = update_codec pt name clock_rate channels ms in
    if m.payload_type == pt
    then record m {
      codec_id = codec_named name m.codec_id;
      clock_rate = if ltb 0 clock_rate then clock_rate else m.clock_rate;
      channels = channels;
    }
      ∷ ms
    else m ∷ rest

-- What stands in front of a slash, and what stands behind it, if there is one.
unfoldable pub split_slash : List ℕ → List ℕ × Option (List ℕ)
split_slash [] = ([], none)
split_slash (c ∷ cs) =
    let (front, behind) = split_slash cs in if c == b'/' then ([], some cs) else (c ∷ front, behind)

-- The number behind the slash; 1 where there is none.
unfoldable pub channels_of : Option (List ℕ) → ℕ
channels_of none = 1
channels_of (some text) = atoi text

-- The loop to the blank behind the payload type.
unfoldable pub find_blank : List ℕ → List ℕ
find_blank [] = []
find_blank (c ∷ cs) =
    let rest = find_blank cs in if (c == b' ') || (c == b'\n') then c ∷ cs else rest

-- The attribute `rtpmap`, behind its colon, for the payload type that `parse_int` gives.
unfoldable pub rtpmap_codec : SdpSession → ℕ → List ℕ → SdpSession × List ℕ
rtpmap_codec session pt p =
    let (codec_name, p1) = copy_until 64 b'/' (skip_char b' ' (find_blank p)) in
    let (encoding_params, p2) = copy_until 64 b'\n' (skip_char b'/' p1) in
    let (clock, behind) = split_slash encoding_params in
    (
      record session {
        media = update_codec pt codec_name (atoi clock) (channels_of behind) session.media;
      },
      p2,
    )

unfoldable pub rtpmap_of : SdpSession → List ℕ → Option ℕ → SdpSession × List ℕ
rtpmap_of session p none = (session, p)
rtpmap_of session p (some pt) = rtpmap_codec session pt p

unfoldable pub parse_rtpmap : SdpSession → List ℕ → SdpSession × List ℕ
parse_rtpmap session p = rtpmap_of session p (parse_int p)

-- The last track gets the identification.
unfoldable pub set_mid : List ℕ → List Media → List Media
set_mid mid [] = []
set_mid mid (m ∷ []) = record m { mid = take 15 mid } ∷ []
set_mid mid (m ∷ n ∷ ms) = m ∷ set_mid mid (n ∷ ms)

-- The attribute `mid`, at its colon.
unfoldable pub parse_mid : SdpSession → List ℕ → SdpSession × List ℕ
parse_mid session p =
    if ltb 0 (length session.media)
    then (let (mid_value, rest) = copy_until 32 b'\n' (skip_char b':' p) in
        (record session { media = set_mid mid_value session.media }, rest))
    else (session, p)

-- The attribute `candidate`, at its colon.
unfoldable pub add_parsed : SdpSession → Option SdpCandidate → SdpSession
add_parsed session none = session
add_parsed session (some c) = record session { candidates = session.candidates ++ (c ∷ []) }

unfoldable pub candidate_attribute : SdpSession → List ℕ → SdpSession × List ℕ
candidate_attribute session p =
    if ltb (length session.candidates) max_candidates
    then (add_parsed session (parse_candidate (skip_char b':' p)), skip_char b':' p)
    else (session, p)

-- An attribute by its name, at its colon.
unfoldable pub attribute : List ℕ → SdpSession → List ℕ → SdpSession × List ℕ
attribute name session p =
    let (text64, p64) = copy_until 64 b'\n' (skip_char b':' p) in
    let (text128, p128) = copy_until 128 b'\n' (skip_char b':' p) in
    let (text16, p16) = copy_until 16 b'\n' (skip_char b':' p) in
    if same_text name (codes "ice-ufrag")
    then (record session { ice_ufrag = text64 }, p64)
    else if same_text name (codes "ice-pwd")
    then (record session { ice_pwd = text128 }, p128)
    else if same_text name (codes "fingerprint")
    then (parse_fingerprint session (skip_char b':' p), skip_char b':' p)
    else if same_text name (codes "candidate")
    then candidate_attribute session p
    else if same_text name (codes "setup")
    then (record session { dtls_setup = text16 }, p16)
    else if same_text name (codes "mid")
    then parse_mid session p
    else if same_text name (codes "rtpmap")
    then parse_rtpmap session (skip_char b':' p)
    else (session, p)

-- The codec, clock rate and channels that a payload type has by default.
unfoldable pub default_codec : Media → Media
default_codec m =
    if m.payload_type == 0
    then record m { codec_id = pcmu; clock_rate = 8000; channels = 1 }
    else if m.payload_type == 8
    then record m { codec_id = pcma; clock_rate = 8000; channels = 1 }
    else if m.payload_type == 9
    then record m { codec_id = g722; clock_rate = 8000; channels = 1 }
    else if m.payload_type == 100
    then record m { codec_id = h264; clock_rate = 90000; channels = 1 }
    else if m.payload_type == 111
    then record m { codec_id = opus; clock_rate = 48000; channels = 2 }
    else m

-- The new entry, cleared but for its kind, port and payload type.
unfoldable pub new_media : TrackKind → ℕ → ℕ → Media
new_media kind port payload_type = default_codec (record {
  kind = kind;
  port = port;
  payload_type = payload_type;
  codec_id = h264;
  clock_rate = 0;
  channels = 0;
  mid = [];
  direction_send = true;
  direction_recv = true;
})

unfoldable pub push_media : SdpSession → Media → SdpSession
push_media session m = record session { media = session.media ++ (m ∷ []) }

-- A number that is read, or a default where none was.
unfoldable pub value_or : ℕ → Option ℕ → ℕ
value_or default none = default
value_or default (some value) = value

-- The kind of a media type, which may be unknown.
unfoldable pub kind_of : List ℕ → Option TrackKind
kind_of media_type =
    if same_text media_type (codes "audio")
    then some audio
    else if same_text media_type (codes "video")
    then some video
    else none

-- The payload type at the end of the line, which stays 0 where there is no number.
unfoldable pub add_numbered :
    SdpSession → TrackKind → ℕ → List ℕ → Option (ℕ × List ℕ) → SdpSession × List ℕ
add_numbered session kind port p none = (push_media session (new_media kind port 0), p)
add_numbered session kind port p (some (pt, rest)) =
    (push_media session (new_media kind port (u32 pt)), rest)

-- The entry of a kind, where that is known.
unfoldable pub add_known : SdpSession → Option ℕ → List ℕ → Option TrackKind → SdpSession × List ℕ
add_known session port p none = (session, p)
add_known session port p (some kind) = add_numbered session kind (value_or 0 port) p (strtol p)

-- A line of type `m`.
unfoldable pub media_line : SdpSession → List ℕ → SdpSession × List ℕ
media_line session p =
    if leb max_media (length session.media)
    then (session, p)
    else (let (media_type, p1) = copy_until 16 b' ' p in
        let (port_str, p2) = copy_until 16 b' ' p1 in
        let (proto_str, p3) = copy_until 16 b' ' p2 in
        add_known session (parse_int port_str) p3 (kind_of media_type))

unfoldable pub timing_line : SdpSession → List ℕ → SdpSession × List ℕ
timing_line session p =
    let (start, p1) = copy_until 64 b' ' p in
    let (stop, p2) = copy_until 64 b'\n' p1 in
    (
      record session {
        start_time = value_or session.start_time (parse_uint64 start);
        stop_time = value_or session.stop_time (parse_uint64 stop);
      },
      p2,
    )

unfoldable pub attribute_line : SdpSession → List ℕ → SdpSession × List ℕ
attribute_line session p = let (name, rest) = copy_until 64 b':' p in attribute name session rest

-- What stands behind the end of the line that `p` is at.
unfoldable pub next_line : List ℕ → List ℕ
next_line [] = []
next_line (c ∷ []) = []
next_line (c ∷ d ∷ rest) = if d == b'\n' then rest else d ∷ rest

-- The pointer behind the end of an invalid line; behind the terminator it is a fault.
unfoldable pub skip_invalid : SdpSession → List ℕ → Outcome (SdpSession × List ℕ)
skip_invalid session [] = fault
skip_invalid session (c ∷ rest) = done (session, rest)

-- The lines of each type, in which a number of an origin that is not there leaves the variable
-- `junk` as it was, which was never set.
module _ (junk : ℕ) where
  unfoldable pub origin_line : SdpSession → List ℕ → SdpSession × List ℕ
  origin_line session p =
      let (username, p1) = copy_until 256 b' ' p in
      let (id, p2) = copy_until 64 b' ' p1 in
      let (version, p3) = copy_until 64 b' ' p2 in
      let (network, p4) = copy_until 16 b' ' p3 in
      let (address, p5) = copy_until 16 b' ' p4 in
      let (unicast, p6) = copy_until 64 b'\n' p5 in
      (
        record session {
          username = username;
          session_id = value_or junk (parse_uint64 id);
          session_version = value_or junk (parse_uint64 version);
          network_type = network;
          address_type = address;
          unicast_address = unicast;
        },
        p6,
      )

  -- The switch on the type of a line, behind the `=`.
  unfoldable pub parse_line : ℕ → SdpSession → List ℕ → SdpSession × List ℕ
  parse_line type session p =
      let (name, rest) = copy_until 256 b'\n' p in
      if type == b'v'
      then (record session { version = value_or session.version (parse_int p) }, p)
      else if type == b'o'
      then origin_line session p
      else if type == b's'
      then (record session { session_name = name }, rest)
      else if type == b't'
      then timing_line session p
      else if type == b'a'
      then attribute_line session p
      else if type == b'm'
      then media_line session p
      else (session, p)

  -- A line of a type, at the place of its `=`.
  unfoldable pub typed_line : ℕ → SdpSession → List ℕ → Outcome (SdpSession × List ℕ)
  typed_line type session [] = skip_invalid session []
  typed_line type session (c ∷ p) =
      let (after, q) = parse_line type session p in
      if c == b'='
      then done (after, next_line (find_eol q))
      else skip_invalid session (find_eol (c ∷ p))

  -- One round of the loop over the lines.
  unfoldable pub round : ℕ → SdpSession → List ℕ → Outcome (SdpSession × List ℕ)
  round type session p =
      if (type == b'\n') || (type == b'\r') then done (session, p) else typed_line type session p

  -- The loop, with a number of rounds as fuel.
  unfoldable pub parse_lines : ℕ → SdpSession → List ℕ → Outcome SdpSession
  parse_lines fuel session [] = done session
  parse_lines zero session (c ∷ p) = refused
  parse_lines (suc fuel) session (c ∷ p) = do r ← round c session p; parse_lines fuel r.0 r.1

  -- `sdp_parse`
  unfoldable pub sdp_parse : List ℕ → Outcome (Status × SdpSession)
  sdp_parse text = do
    session ← parse_lines (length text) session_init text
    done (if session.version == 0 then ok else error, session)
