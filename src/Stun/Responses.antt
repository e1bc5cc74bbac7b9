-- ===== src/Stun/Responses.antt =====
-- The binding responses that src/ice/stun.c makes, read by its own parser.
use tinyrtc.Prelude.{
  ℕ, suc, ◌+◌, ◌-◌, ◌^◌, ◌≤◌, ◌<◌, ◌≡◌, refl, sym, ap, ◌∙◌, true, false, List, [], ◌∷◌, ◌++◌,
  append_assoc, arith, length, take, replicate, length-append, length-take, take-append, ltb, leb,
  ltb-false, leb-true, done, read, read16, read32, read-append, read32-append, be16, be32,
  be16-put16, be32-put32, put16, put32, low_bits, ◌>>◌, u16, bit_xor, none, some,
}
use tinyrtc.Prelude.Bits.{bit_xor_cancel, bit_xor-lt}
use tinyrtc.Stun.{
  Mapped, read_xor_mapped, read_attribute, attributes, process_response, validate_header, padded,
  header_len, magic_cookie, mapped_result, set_length, finalize_message, response_header, signed,
  zeroed, ended, xor_mapped_attribute, create_binding_response, crc32,
}

read16-append : (xs ys : List ℕ) (i j : ℕ) → length xs + j ≡ i → read16 (xs ++ ys) i ≡ read16 ys j
unfolding read16
read16-append xs ys i j h =
    rw (read-append xs ys i j h, read-append xs ys (i + 1) (j + 1) (omega arith))

-- The bytes behind the length field of a finished message, from the bytes behind the length field
-- before and the two parts that depend on the message.
abbrev ending : List ℕ → List ℕ → List ℕ → List ℕ
ending rest mac crc = rest ++ (0 ∷ 8 ∷ 0 ∷ 20 ∷ mac ++ (0x80 ∷ 0x28 ∷ 0 ∷ 4 ∷ crc))

signed_lem :
    (a b c e : ℕ) (rest mac : List ℕ)
    → (hi lo : ℕ) × (signed (a ∷ b ∷ c ∷ e ∷ rest) mac
        ≡ a ∷ b ∷ hi ∷ lo ∷ rest ++ (0 ∷ 8 ∷ 0 ∷ 20 ∷ take 20 mac))
unfolding signed zeroed set_length
signed_lem a b c e rest mac =
    let n : length (a ∷ b ∷ c ∷ e ∷ rest) + 4 ≡ suc (suc (suc (suc (length rest + 4)))) =
      omega arith in
    let four : List ℕ = 0 ∷ 8 ∷ 0 ∷ 20 ∷ [] in
    let cut : take (length rest + 4) (rest ++ (four ++ replicate 20 0)) ≡ rest ++ four =
      ap (take (length rest + 4)) (sym (append_assoc rest four (replicate 20 0)))
      ∙ take-append (length rest + 4) (rest ++ four) (replicate 20 0)
          (omega (arith, length-append rest four)) in
    let size = u16 (length (a ∷ b ∷ c ∷ e ∷ rest) + 24 - header_len) in
    let hi = low_bits 8 (size >> 8) in
    let lo = low_bits 8 size in
    (
      hi,
      lo,
      ap (λ k. take k (zeroed (a ∷ b ∷ c ∷ e ∷ rest)) ++ take 20 mac) n
          ∙ ap (λ r. (a ∷ b ∷ hi ∷ lo ∷ r) ++ take 20 mac) cut
          ∙ ap (λ r. a ∷ b ∷ hi ∷ lo ∷ r) (append_assoc rest four (take 20 mac)),
    )

ended_lem :
    (a b c e : ℕ) (rest mac crc : List ℕ)
    → length mac ≡ 20
    → ended (a ∷ b ∷ c ∷ e ∷ rest ++ (0 ∷ 8 ∷ 0 ∷ 20 ∷ mac)) ++ crc
      ≡ a ∷ b ∷ put16 (u16 (length rest + 16)) ++ ending rest mac crc
unfolding ended set_length
ended_lem a b c e rest mac crc h =
    let body = 0 ∷ 8 ∷ 0 ∷ 20 ∷ mac in
    let mark : List ℕ = 0x80 ∷ 0x28 ∷ 0 ∷ 4 ∷ [] in
    let n : length (a ∷ b ∷ c ∷ e ∷ rest ++ body) + 8 - header_len ≡ length rest + 16 =
      omega (arith, length-append rest body) in
    rw n (
      ap
        (λ r.
          a
          ∷ b
          ∷ low_bits 8 (u16 (length rest + 16) >> 8)
          ∷ low_bits 8 (u16 (length rest + 16))
          ∷ r)
        (append_assoc (rest ++ body) mark crc ∙ append_assoc rest body (mark ++ crc)))

module _ (hmac : List ℕ → List ℕ → List ℕ) where
  -- What finishing a message makes of it: the length field and two attributes.
  finalize_message_lem :
      (a b c e : ℕ) (rest : List ℕ) (buf_size : ℕ) (password : List ℕ)
      → ((key message : List ℕ) → length (hmac key message) ≡ 20)
      → length rest + 36 ≤ buf_size
      → (mac crc : List ℕ) × (length mac ≡ 20)
        × (finalize_message hmac (a ∷ b ∷ c ∷ e ∷ rest) buf_size password
            ≡ done (a ∷ b ∷ put16 (u16 (length rest + 16)) ++ ending rest mac crc))
  unfolding finalize_message
  finalize_message_lem a b c e rest buf_size password mac_len room =
      let message = a ∷ b ∷ c ∷ e ∷ rest in
      let t : ltb buf_size (length message + 24 + 8) ≡ false = ground arith in
      let full = hmac password (zeroed message) in
      let mac = take 20 full in
      let (hi, lo, at_signed) = signed_lem a b c e rest full in
      let last = ended (signed message full) in
      let crc = put32 (bit_xor (crc32 last) 0x5354554E) in
      let len : length mac ≡ 20 =
        omega (arith, mac_len password (zeroed message), length-take 20 full) in
      (
        mac,
        crc,
        len,
        rw t (ap done (ap (λ m. ended m ++ crc) at_signed ∙ ended_lem a b hi lo rest mac crc len)),
      )

attributes-step :
    (fuel : ℕ) (d : List ℕ) (p end attr_type attr_len : ℕ) (found next : Mapped)
    → p + 4 + padded attr_len ≤ end
    → read16 d p ≡ done attr_type
    → read16 d (p + 2) ≡ done attr_len
    → read_attribute d (p + 4) attr_type attr_len found ≡ done next
    → attributes (suc fuel) d p end found ≡ attributes fuel d (p + 4 + padded attr_len) end next
unfolding attributes
attributes-step fuel d p end attr_type attr_len found next h e f g =
    let a : ltb p end ≡ true = ground arith in
    let b : ltb end (p + 4) ≡ false = ground arith in
    let c : ltb end (p + 4 + padded attr_len) ≡ false = ground arith in rw (a, b, e, f, c, g)

-- A response with the mapped port and address `x` and `a`, both already exclusive or the cookie,
-- and the fixed parts of its other attributes.
abbrev response : List ℕ → ℕ → ℕ → List ℕ → List ℕ → List ℕ
response head x a mac crc =
    head
    ++ (0 ∷ 0x20 ∷ 0 ∷ 8 ∷ 0 ∷ 1 ∷ put16 x
        ++ (put32 a ++ (0 ∷ 8 ∷ 0 ∷ 20 ∷ mac ++ (0x80 ∷ 0x28 ∷ 0 ∷ 4 ∷ crc))))

module _ (head : List ℕ) (head_len : length head ≡ 20) (x a : ℕ) (x_fits : x < 2 ^ 16)
    (a_fits : a < 2 ^ 32) (mac crc : List ℕ) (mac_len : length mac ≡ 20) where
  abbrev datagram : List ℕ
  datagram = response head x a mac crc

  abbrev behind : List ℕ
  behind =
      0 ∷ 0x20 ∷ 0 ∷ 8 ∷ 0 ∷ 1 ∷ put16 x
      ++ (put32 a ++ (0 ∷ 8 ∷ 0 ∷ 20 ∷ mac ++ (0x80 ∷ 0x28 ∷ 0 ∷ 4 ∷ crc)))

  read_xor_mapped-response :
      (found : Mapped)
      → read_xor_mapped datagram 24 8 found
        ≡ done (record { port = bit_xor x 0x2112; addr = some (bit_xor a magic_cookie) })
  unfolding read_xor_mapped read read16 read32
  read_xor_mapped-response found =
      let e1 = read-append head behind 25 5 (omega arith) in
      let e2 = read16-append head behind 26 6 (omega arith) in
      let e4 = read32-append head behind 28 8 (omega arith) in
      let small = bit_xor-lt 16 x 0x2112 x_fits (omega arith) in
      let same : u16 (bit_xor x 0x2112) ≡ bit_xor x 0x2112 = omega arith in
      rw (e1, e2, e4, be16-put16 x x_fits, be32-put32 a a_fits, same)

  attributes-response :
      attributes 44 datagram 20 64 (record { port = 0; addr = none })
      ≡ done (record { port = bit_xor x 0x2112; addr = some (bit_xor a magic_cookie) })
  unfolding attributes read_attribute read16 read be16
  attributes-response =
      let found : Mapped = record {
        port = bit_xor x 0x2112;
        addr = some (bit_xor a magic_cookie);
      } in
      let empty : Mapped = record { port = 0; addr = none } in
      let w : List ℕ = 0x80 ∷ 0x28 ∷ 0 ∷ 4 ∷ crc in
      let front : List ℕ =
        0 ∷ 0x20 ∷ 0 ∷ 8 ∷ 0 ∷ 1 ∷ put16 x ++ (put32 a ++ (0 ∷ 8 ∷ 0 ∷ 20 ∷ mac)) in
      attributes-step 43 datagram 20 64 0x20 8 empty found (omega arith)
        (read16-append head behind 20 0 (omega arith))
        (read16-append head behind 22 2 (omega arith)) (read_xor_mapped-response empty)
      ∙ attributes-step 42 datagram 32 64 8 20 found found (omega arith)
          (read16-append head behind 32 12 (omega arith))
          (read16-append head behind 34 14 (omega arith)) refl
      ∙ attributes-step 41 datagram 56 64 0x8028 4 found found (omega arith)
          (read16-append head behind 56 36 (omega arith) ∙ read16-append front w 36 0 (omega arith))
          (read16-append head behind 58 38 (omega arith) ∙ read16-append front w 38 2 (omega arith))
          refl

  process_response-response :
      (t : List ℕ)
      → head ≡ 1 ∷ 1 ∷ 0 ∷ 44 ∷ put32 magic_cookie ++ t
      → process_response datagram ≡ done (bit_xor x 0x2112, bit_xor a magic_cookie)
  unfolding process_response validate_header mapped_result read16 read32 read be16 be32
  process_response-response t e =
      let long : ltb (length datagram) header_len ≡ false =
        ltb-false (length datagram) header_len (omega (arith, length-append head behind)) in
      let r0 : read16 datagram 0 ≡ done 0x0101 = rw e in
      let r2 : read16 datagram 2 ≡ done 44 = rw e in
      let r4 : read32 datagram 4 ≡ done magic_cookie = rw e in
      rw (long, r0, r2, r4, attributes-response)

module _ (hmac : List ℕ → List ℕ → List ℕ) where
  -- A binding response with a mapped address, made in a buffer of at least 64 bytes, is read back
  -- as that port and address by the client side, whatever the password.
  pub process_response-create_binding_response :
      (transaction_id password : List ℕ) (port addr buf_size : ℕ)
      → ((key message : List ℕ) → length (hmac key message) ≡ 20)
      → length transaction_id ≡ 12
      → port < 2 ^ 16
      → addr < 2 ^ 32
      → 64 ≤ buf_size
      → (bytes : List ℕ) × (create_binding_response hmac buf_size transaction_id
            (some (port, addr))
            password
          ≡ done bytes)
        × (process_response bytes ≡ done (port, addr))
  unfolding create_binding_response response_header xor_mapped_attribute
  process_response-create_binding_response transaction_id password port addr buf_size h l p q room =
      let x = bit_xor port 0x2112 in
      let a = bit_xor addr magic_cookie in
      let tail = put32 magic_cookie ++ take 12 transaction_id in
      let mapped = xor_mapped_attribute hmac port addr in
      let rest = tail ++ mapped in
      let twelve = length-take 12 transaction_id in
      let len : length rest + 16 ≡ 44 = omega (arith, length-append tail mapped) in
      let b : ltb buf_size header_len ≡ false = ltb-false buf_size header_len (omega arith) in
      let c : leb (header_len + 12) buf_size ≡ true =
        leb-true (header_len + 12) buf_size (omega arith) in
      let (mac, crc, mac_len, made) =
        finalize_message_lem hmac 1 1 0 0 rest buf_size password h (omega arith) in
      let head = 1 ∷ 1 ∷ 0 ∷ 44 ∷ tail in
      let bytes = response head x a mac crc in
      let same : 1 ∷ 1 ∷ put16 (u16 (length rest + 16)) ++ ending rest mac crc ≡ bytes =
        ap (λ n. 1 ∷ 1 ∷ put16 (u16 n) ++ ending rest mac crc) len
        ∙ ap (λ r. 1 ∷ 1 ∷ 0 ∷ 44 ∷ r)
            (append_assoc tail mapped (0 ∷ 8 ∷ 0 ∷ 20 ∷ mac ++ (0x80 ∷ 0x28 ∷ 0 ∷ 4 ∷ crc))) in
      (
        bytes,
        rw (b, c) (made ∙ ap done same),
        process_response-response head (omega arith) x a (bit_xor-lt 16 port 0x2112 p (omega arith))
              (bit_xor-lt 32 addr magic_cookie q (omega arith)) mac crc mac_len
              (take 12 transaction_id) refl
            ∙ rw (bit_xor_cancel port 0x2112, bit_xor_cancel addr magic_cookie),
      )
