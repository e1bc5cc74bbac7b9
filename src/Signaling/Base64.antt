-- ===== src/Signaling/Base64.antt =====
-- `base64_encode` and `sig_compute_accept_key` of src/signaling/signaling.c. SHA-1 comes from
-- mbedtls: it is the parameter `sha1`.
use tinyrtc.Prelude.{
  ℕ, ◌+◌, ◌*◌, ◌/◌, List, [], ◌∷◌, ◌++◌, Option, none, some, ltb, if◌then◌else◌, length, get_or,
  low_bits, bit_or, ◌<<◌, ◌>>◌,
}

-- `base64_chars`
abbrev pub base64_chars : List ℕ
base64_chars =
    65 ∷ 66 ∷ 67 ∷ 68 ∷ 69 ∷ 70 ∷ 71 ∷ 72 ∷ 73 ∷ 74 ∷ 75 ∷ 76 ∷ 77 ∷ 78 ∷ 79 ∷ 80 ∷ 81 ∷ 82 ∷ 83
    ∷ 84 ∷ 85 ∷ 86 ∷ 87 ∷ 88 ∷ 89 ∷ 90 ∷ 97 ∷ 98 ∷ 99 ∷ 100 ∷ 101 ∷ 102 ∷ 103 ∷ 104 ∷ 105 ∷ 106
    ∷ 107 ∷ 108 ∷ 109 ∷ 110 ∷ 111 ∷ 112 ∷ 113 ∷ 114 ∷ 115 ∷ 116 ∷ 117 ∷ 118 ∷ 119 ∷ 120 ∷ 121 ∷ 122
    ∷ 48 ∷ 49 ∷ 50 ∷ 51 ∷ 52 ∷ 53 ∷ 54 ∷ 55 ∷ 56 ∷ 57 ∷ 43 ∷ 47 ∷ []

-- `base64_chars[i]`
unfoldable pub base64_char : ℕ → ℕ
base64_char i = get_or base64_chars i 0

-- The first, second and third index that three bytes give; the last one is the third byte's.
unfoldable pub index1 : ℕ → ℕ
index1 a = low_bits 6 (a >> 2)

unfoldable pub index2 : ℕ → ℕ → ℕ
index2 a b = bit_or (low_bits 2 a << 4) (low_bits 4 (b >> 4))

unfoldable pub index3 : ℕ → ℕ → ℕ
index3 b c = bit_or (low_bits 4 b << 2) (low_bits 2 (c >> 6))

-- The loop over full groups of three bytes, and the bytes that remain, padded with `=`.
unfoldable pub encode_groups : List ℕ → List ℕ
unfolding base64_char index1 index2 index3
encode_groups [] = []
encode_groups (a ∷ []) = base64_char (index1 a) ∷ base64_char (index2 a 0) ∷ 61 ∷ 61 ∷ []
encode_groups (a ∷ b ∷ []) =
    base64_char (index1 a) ∷ base64_char (index2 a b) ∷ base64_char (index3 b 0) ∷ 61 ∷ []
encode_groups (a ∷ b ∷ c ∷ rest) =
    base64_char (index1 a)
    ∷ base64_char (index2 a b)
    ∷ base64_char (index3 b c)
    ∷ base64_char (low_bits 6 c)
    ∷ encode_groups rest

-- `base64_encode` into a buffer of `output_len` characters; none is the result 0, where nothing is
-- written.
unfoldable pub base64_encode : List ℕ → ℕ → Option (List ℕ)
unfolding encode_groups
base64_encode input output_len =
    if ltb output_len ((length input + 2) / 3 * 4 + 1) then none else some (encode_groups input)

-- "258EAFA5-E914-47DA-95CA-C5AB0DC85B11"
abbrev pub guid : List ℕ
guid =
    50 ∷ 53 ∷ 56 ∷ 69 ∷ 65 ∷ 70 ∷ 65 ∷ 53 ∷ 45 ∷ 69 ∷ 57 ∷ 49 ∷ 52 ∷ 45 ∷ 52 ∷ 55 ∷ 68 ∷ 65 ∷ 45
    ∷ 57 ∷ 53 ∷ 67 ∷ 65 ∷ 45 ∷ 67 ∷ 53 ∷ 65 ∷ 66 ∷ 48 ∷ 68 ∷ 67 ∷ 56 ∷ 53 ∷ 66 ∷ 49 ∷ 49 ∷ []

-- `sig_compute_accept_key`, for a key of at most 476 characters.
unfoldable pub compute_accept_key : (List ℕ → List ℕ) → List ℕ → ℕ → Option (List ℕ)
unfolding base64_encode
compute_accept_key sha1 client_key accept_len = base64_encode (sha1 (client_key ++ guid)) accept_len
