-- ===== src/Signaling/Json.antt =====
-- The JSON of src/signaling/signaling.c: what `tinyrtc_signaling_send_offer` and
-- `tinyrtc_signaling_send_answer` write, and what `sig_process_message` reads. A text is the list of
-- its characters, none of which is 0.
use tinyrtc.Prelude.{
  ℕ, ◌+◌, ◌-◌, Bool, true, false, not, ◌&&◌, ◌||◌, List, [], ◌∷◌, ◌++◌, Option, none, some, ltb,
  leb, ◌==◌, if◌then◌else◌, length, drop,
}

-- The letter that stands for a character behind a backslash, where the escaping uses one.
unfoldable pub escape_letter : ℕ → Option ℕ
escape_letter c =
    if c == 34
    then some 34
    else if c == 92
    then some 92
    else if c == 10
    then some 110
    else if c == 13
    then some 114
    else if c == 9
    then some 116
    else none

-- The loop of `sig_json_escape` when `out_len` characters were written. An escape that does not fit
-- is left out, and the loop goes on.
unfoldable pub escape_loop : ℕ → ℕ → List ℕ → List ℕ
unfolding escape_letter
escape_loop output_size out_len [] = []
escape_loop output_size out_len (c ∷ cs) =
    let plain = c ∷ escape_loop output_size (out_len + 1) cs in
    let skipped = escape_loop output_size out_len cs in
    let longer = escape_loop output_size (out_len + 2) cs in
    if not (ltb out_len (output_size - 1)) then [] else elim (escape_letter c) [
      | none ↦ plain
      | some letter ↦ if leb output_size (out_len + 2) then skipped else 92 ∷ letter ∷ longer
    ]

-- `sig_json_escape`
unfoldable pub json_escape : ℕ → List ℕ → List ℕ
unfolding escape_loop
json_escape output_size input = escape_loop output_size 0 input

-- The characters of a string up to its closing quote, which is one that no backslash precedes.
unfoldable pub raw_value : Bool → List ℕ → Option (List ℕ)
raw_value behind_backslash [] = none
raw_value behind_backslash (c ∷ cs) =
    let rest = raw_value (c == 92) cs in
    if c == 34 && not behind_backslash
    then some []
    else elim rest [ none ↦ none | some raw ↦ some (c ∷ raw) ]

-- What a character behind a backslash stands for: itself and the backslash where it is no escape.
unfoldable pub unescape_letter : ℕ → List ℕ
unescape_letter c =
    if c == 114
    then 13 ∷ []
    else if c == 110
    then 10 ∷ []
    else if c == 116
    then 9 ∷ []
    else if (c == 34) || ((c == 92) || (c == 47))
    then c ∷ []
    else 92 ∷ c ∷ []

-- The loop that undoes the escapes; the flag is set behind a backslash.
unfoldable pub unescape : Bool → List ℕ → List ℕ
unfolding unescape_letter
unescape false [] = []
unescape true [] = 92 ∷ []
unescape false (c ∷ cs) =
    let escaped = unescape true cs in
    let plain = c ∷ unescape false cs in if c == 92 then escaped else plain
unescape true (c ∷ cs) = unescape_letter c ++ unescape false cs

-- The text starts with the pattern.
unfoldable pub starts_with : List ℕ → List ℕ → Bool
starts_with [] text = true
starts_with (p ∷ ps) [] = false
starts_with (p ∷ ps) (c ∷ cs) = if p == c then starts_with ps cs else false

-- `strstr`, and `strchr` for one character.
unfoldable pub find : List ℕ → List ℕ → Option (List ℕ)
unfolding starts_with
find pattern [] = none
find pattern (c ∷ cs) =
    let rest = find pattern cs in if starts_with pattern (c ∷ cs) then some (c ∷ cs) else rest

unfoldable pub skip_blanks : List ℕ → List ℕ
skip_blanks [] = []
skip_blanks (c ∷ cs) = let rest = skip_blanks cs in if (c == 32) || (c == 9) then rest else c ∷ cs

-- What stands behind the colon that follows the name of a field.
unfoldable pub field_value : List ℕ → List ℕ → Option (List ℕ)
unfolding find skip_blanks
field_value json name = elim (find (34 ∷ (name ++ (34 ∷ []))) json) [
  | none ↦ none
  | some found ↦ elim (find (58 ∷ []) (drop (length name + 2) found)) [
    | none ↦ none
    | some colon ↦ some (skip_blanks (drop 1 colon))
  ]
]

-- A string in quotes.
unfoldable pub string_value : List ℕ → Option (List ℕ)
unfolding raw_value unescape
string_value [] = none
string_value (c ∷ cs) =
    if not (c == 34)
    then none
    else elim (raw_value false cs) [ none ↦ none | some raw ↦ some (unescape false raw) ]

-- `sig_extract_json_string_field`, for a name of at most 60 characters.
unfoldable pub extract_json_string_field : List ℕ → List ℕ → Option (List ℕ)
unfolding field_value string_value
extract_json_string_field json name = elim (field_value json name) [
  | none ↦ none
  | some value ↦ string_value value
]

-- "sdp"
abbrev pub sdp : List ℕ
sdp = 115 ∷ 100 ∷ 112 ∷ []

-- `sig_extract_sdp_value`
unfoldable pub extract_sdp_value : List ℕ → Option (List ℕ)
unfolding extract_json_string_field field_value find
extract_sdp_value json = elim (find (34 ∷ (sdp ++ (34 ∷ []))) json) [
  | none ↦ none
  | some found ↦ elim (field_value found sdp) [
    | none ↦ none
    | some [] ↦ none
    | some (c ∷ cs) ↦
        if c == 34
        then extract_json_string_field found sdp
        else if c == 123
        then extract_json_string_field (c ∷ cs) sdp
        else none
  ]
]

-- The texts in front of and behind the description in an offer and in an answer:
-- {"type": "offer", "sdp": {"type": "offer", "sdp": "%s"}}, the quote included.
abbrev pub offer_head : List ℕ
offer_head =
    123 ∷ 34 ∷ 116 ∷ 121 ∷ 112 ∷ 101 ∷ 34 ∷ 58 ∷ 32 ∷ 34 ∷ 111 ∷ 102 ∷ 102 ∷ 101 ∷ 114 ∷ 34 ∷ 44
    ∷ 32 ∷ 34 ∷ 115 ∷ 100 ∷ 112 ∷ 34 ∷ 58 ∷ 32 ∷ 123 ∷ 34 ∷ 116 ∷ 121 ∷ 112 ∷ 101 ∷ 34 ∷ 58 ∷ 32
    ∷ 34 ∷ 111 ∷ 102 ∷ 102 ∷ 101 ∷ 114 ∷ 34 ∷ 44 ∷ 32 ∷ 34 ∷ 115 ∷ 100 ∷ 112 ∷ 34 ∷ 58 ∷ 32 ∷ 34
    ∷ []

abbrev pub answer_head : List ℕ
answer_head =
    123 ∷ 34 ∷ 116 ∷ 121 ∷ 112 ∷ 101 ∷ 34 ∷ 58 ∷ 32 ∷ 34 ∷ 97 ∷ 110 ∷ 115 ∷ 119 ∷ 101 ∷ 114 ∷ 34
    ∷ 44 ∷ 32 ∷ 34 ∷ 115 ∷ 100 ∷ 112 ∷ 34 ∷ 58 ∷ 32 ∷ 123 ∷ 34 ∷ 116 ∷ 121 ∷ 112 ∷ 101 ∷ 34 ∷ 58
    ∷ 32 ∷ 34 ∷ 97 ∷ 110 ∷ 115 ∷ 119 ∷ 101 ∷ 114 ∷ 34 ∷ 44 ∷ 32 ∷ 34 ∷ 115 ∷ 100 ∷ 112 ∷ 34 ∷ 58
    ∷ 32 ∷ 34 ∷ []

abbrev pub json_tail : List ℕ
json_tail = 34 ∷ 125 ∷ 125 ∷ []

-- The message of `tinyrtc_signaling_send_offer` or `tinyrtc_signaling_send_answer`, by its head;
-- none where it does not fit the buffer of 8192 characters.
unfoldable pub description_json : List ℕ → List ℕ → Option (List ℕ)
unfolding json_escape
description_json head text =
    let json = head ++ (json_escape 4096 text ++ json_tail) in
    if leb 8192 (length json) then none else some json

-- What `sig_process_message` takes a message for.
pub data MessageType : Type 0 where
  joined peer_join peer_leave offer answer ice_candidate server_error unknown : MessageType

-- The characters `:`, blank and `"` in front of the type.
unfoldable pub skip_to_type : List ℕ → List ℕ
skip_to_type [] = []
skip_to_type (c ∷ cs) =
    let rest = skip_to_type cs in if (c == 58) || ((c == 32) || (c == 34)) then rest else c ∷ cs

-- The comparisons of `sig_process_message`, in their order.
unfoldable pub type_of : List ℕ → MessageType
unfolding starts_with
type_of value =
    if starts_with (106 ∷ 111 ∷ 105 ∷ 110 ∷ 101 ∷ 100 ∷ []) value
    then joined
    else if starts_with (112 ∷ 101 ∷ 101 ∷ 114 ∷ 45 ∷ 106 ∷ 111 ∷ 105 ∷ 110 ∷ 101 ∷ 100 ∷ []) value
    then peer_join
    else if starts_with (112 ∷ 101 ∷ 101 ∷ 114 ∷ 45 ∷ 108 ∷ 101 ∷ 102 ∷ 116 ∷ []) value
    then peer_leave
    else if starts_with (111 ∷ 102 ∷ 102 ∷ 101 ∷ 114 ∷ []) value
    then offer
    else if starts_with (97 ∷ 110 ∷ 115 ∷ 119 ∷ 101 ∷ 114 ∷ []) value
    then answer
    else if starts_with
        (105 ∷ 99 ∷ 101 ∷ 45 ∷ 99 ∷ 97 ∷ 110 ∷ 100 ∷ 105 ∷ 100 ∷ 97 ∷ 116 ∷ 101 ∷ []) value
    then ice_candidate
    else if starts_with (101 ∷ 114 ∷ 114 ∷ 111 ∷ 114 ∷ []) value
    then server_error
    else unknown

-- The type of a message; none where it has no field of that name. Of an unknown type the C code
-- hands on an event whose type was never set.
unfoldable pub message_type : List ℕ → Option MessageType
unfolding find skip_to_type type_of
message_type json = elim (find (34 ∷ 116 ∷ 121 ∷ 112 ∷ 101 ∷ 34 ∷ []) json) [
  | none ↦ none
  | some found ↦ elim (find (58 ∷ []) (drop 6 found)) [
    | none ↦ none
    | some colon ↦ some (type_of (skip_to_type colon))
  ]
]
