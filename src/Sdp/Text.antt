-- ===== src/Sdp/Text.antt =====
-- The helpers of src/signal/sdp_parser.c and the functions of the C library that the parser and
-- the generator of session descriptions use, on texts as lists of characters. No character is 0,
-- and the end of the list is the terminator. A pointer into a text is what stands behind it. `int`
-- has 32 bits and `long` 64, both in two's complement.
use Prim.Native.Char.{code}
use Prim.Native.String.{String}
use tinyrtc.Prelude.{
  ℕ, zero, suc, ◌+◌, ◌-◌, ◌*◌, ◌/◌, ◌%◌, ◌^◌, Bool, true, false, not, ◌&&◌, ◌||◌, List, [], ◌∷◌,
  Option, none, some, ltb, leb, ◌==◌, if◌then◌else◌, min, u32,
}

-- The characters of a literal.
abbrev pub codes : String → List ℕ
codes String.[] = []
codes (String.◌∷◌ c s) = code c ∷ codes s

-- `strcmp(a, b) == 0`
unfoldable pub same_text : List ℕ → List ℕ → Bool
same_text [] [] = true
same_text [] (d ∷ ds) = false
same_text (c ∷ cs) [] = false
same_text (c ∷ cs) (d ∷ ds) = (c == d) && same_text cs ds

-- `tolower`
unfoldable pub to_lower : ℕ → ℕ
to_lower c = if leb b'A' c && leb c b'Z' then c + 32 else c

-- `strcasecmp(a, b) == 0`
unfoldable pub same_text_ignoring_case : List ℕ → List ℕ → Bool
unfolding to_lower
same_text_ignoring_case [] [] = true
same_text_ignoring_case [] (d ∷ ds) = false
same_text_ignoring_case (c ∷ cs) [] = false
same_text_ignoring_case (c ∷ cs) (d ∷ ds) =
    (to_lower c == to_lower d) && same_text_ignoring_case cs ds

-- `strchr(text, c) != NULL`
unfoldable pub has_char : ℕ → List ℕ → Bool
has_char c [] = false
has_char c (d ∷ ds) = (d == c) || has_char c ds

-- `skip_whitespace`
unfoldable pub skip_whitespace : List ℕ → List ℕ
skip_whitespace [] = []
skip_whitespace (c ∷ cs) =
    let rest = skip_whitespace cs in if (c == b' ') || (c == b'\t') then rest else c ∷ cs

-- The characters at which a loop over a field ends.
unfoldable pub stops : ℕ → ℕ → Bool
stops sep c = (c == b'\n') || ((c == b'\r') || (c == sep))

-- `find_eol` and, with another separator, the last `p` of `copy_until`.
unfoldable pub find_end : ℕ → List ℕ → List ℕ
unfolding stops
find_end sep [] = []
find_end sep (c ∷ cs) = let rest = find_end sep cs in if stops sep c then c ∷ cs else rest

abbrev pub find_eol : List ℕ → List ℕ
find_eol = find_end b'\n'

-- What the loop of `copy_until` writes from index `i` on.
unfoldable pub copied : ℕ → ℕ → ℕ → List ℕ → List ℕ
unfolding stops
copied dst_len sep i [] = []
copied dst_len sep i (c ∷ cs) =
    let kept = c ∷ copied dst_len sep (suc i) cs in
    let skipped = copied dst_len sep i cs in
    if stops sep c
    then []
    else if (not (c == b' ') || ltb 0 i) && ltb i (dst_len - 1)
    then kept
    else skipped

-- A character in front of a trimmed text.
unfoldable pub cons_trimmed : ℕ → List ℕ → List ℕ
cons_trimmed c [] = if c == b' ' then [] else c ∷ []
cons_trimmed c (d ∷ ds) = c ∷ d ∷ ds

-- The loop that cuts trailing blanks off.
unfoldable pub trim_end : List ℕ → List ℕ
unfolding cons_trimmed
trim_end [] = []
trim_end (c ∷ cs) = cons_trimmed c (trim_end cs)

-- `copy_until`: what stands in `dst`, and `*start`.
unfoldable pub copy_until : ℕ → ℕ → List ℕ → List ℕ × List ℕ
unfolding skip_whitespace copied trim_end find_end
copy_until dst_len sep text =
    let p = skip_whitespace text in (trim_end (copied dst_len sep 0 p), find_end sep p)

-- `isspace` and `isdigit`
unfoldable pub is_space : ℕ → Bool
is_space c = (c == b' ') || (leb 9 c && leb c 13)

unfoldable pub is_digit : ℕ → Bool
is_digit c = leb b'0' c && leb c b'9'

unfoldable pub skip_spaces : List ℕ → List ℕ
unfolding is_space
skip_spaces [] = []
skip_spaces (c ∷ cs) = let rest = skip_spaces cs in if is_space c then rest else c ∷ cs

-- The digits at the front of a text behind the number `acc`.
unfoldable pub read_digits : ℕ → List ℕ → ℕ × List ℕ
unfolding is_digit
read_digits acc [] = (acc, [])
read_digits acc (c ∷ cs) =
    let more = read_digits (acc * 10 + (c - b'0')) cs in if is_digit c then more else (acc, c ∷ cs)

-- A number of at least one digit.
unfoldable pub magnitude : List ℕ → Option (ℕ × List ℕ)
unfolding read_digits is_digit
magnitude [] = none
magnitude (c ∷ cs) = if is_digit c then some (read_digits 0 (c ∷ cs)) else none

-- A sign, if there is one: whether it is a minus, and the text behind it.
unfoldable pub read_sign : List ℕ → Bool × List ℕ
read_sign [] = (false, [])
read_sign (c ∷ cs) =
    if c == b'-' then (true, cs) else if c == b'+' then (false, cs) else (false, c ∷ cs)

-- The values of a 64-bit `long`, and of an `unsigned long long`, by their magnitude.
unfoldable pub long_value : Bool → ℕ → ℕ
long_value negative m = if negative then (2 ^ 64 - min m (2 ^ 63)) % 2 ^ 64 else min m (2 ^ 63 - 1)

unfoldable pub unsigned_value : Bool → ℕ → ℕ
unsigned_value negative m =
    if leb (2 ^ 64) m then 2 ^ 64 - 1 else if negative then (2 ^ 64 - m) % 2 ^ 64 else m

-- A number whose magnitude was read.
unfoldable pub as_value : (ℕ → ℕ) → Option (ℕ × List ℕ) → Option (ℕ × List ℕ)
as_value value none = none
as_value value (some (m, rest)) = some (value m, rest)

-- `strtol` in base 10: the value and `end`, or none where `end == str`.
unfoldable pub strtol : List ℕ → Option (ℕ × List ℕ)
unfolding skip_spaces read_sign magnitude long_value as_value
strtol text =
    let (negative, digits) = read_sign (skip_spaces text) in
    as_value (long_value negative) (magnitude digits)

-- `strtoull`, and `strtoul`, in base 10.
unfoldable pub strtoull : List ℕ → Option (ℕ × List ℕ)
unfolding skip_spaces read_sign magnitude unsigned_value as_value
strtoull text =
    let (negative, digits) = read_sign (skip_spaces text) in
    as_value (unsigned_value negative) (magnitude digits)

-- `parse_int`; none is the result -1.
unfoldable pub parse_int : List ℕ → Option ℕ
unfolding strtol
parse_int text = elim (strtol text) [ none ↦ none | some (value, rest) ↦ some (u32 value) ]

-- `parse_uint64`; none is the result -1.
unfoldable pub parse_uint64 : List ℕ → Option ℕ
unfolding strtoull
parse_uint64 text = elim (strtoull text) [ none ↦ none | some (value, rest) ↦ some value ]

-- `atoi`
unfoldable pub atoi : List ℕ → ℕ
unfolding parse_int
atoi text = elim (parse_int text) [ none ↦ 0 | some value ↦ value ]

-- The decimal digits of a number in front of a text: one round for each, at most `fuel`.
unfoldable pub put_digits : ℕ → ℕ → List ℕ → List ℕ
put_digits zero n out = out
put_digits (suc fuel) n out =
    let digit = b'0' + n % 10 in
    let more = put_digits fuel (n / 10) (digit ∷ out) in if ltb n 10 then digit ∷ out else more

-- `%llu` and `%u`, of a number of at most 64 bits, which has at most 20 digits.
unfoldable pub print_unsigned : ℕ → List ℕ
unfolding put_digits
print_unsigned n = put_digits 20 n []

-- `%d`
unfoldable pub print_int : ℕ → List ℕ
unfolding print_unsigned
print_int n = if ltb n (2 ^ 31) then print_unsigned n else b'-' ∷ print_unsigned (2 ^ 32 - n)
