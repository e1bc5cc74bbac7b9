-- ===== src/Stun.antt =====
-- src/ice/stun.c: binding responses, made and read. A datagram is the list of its bytes; reading
-- behind its end is a fault. HMAC-SHA1 comes from mbedtls: it is the parameter `hmac` (a key and a
-- message). An address is its 32-bit number, without the dotted text that `inet_ntop` makes of it.
mod Tests
pub mod Reading
pub mod Responses
use tinyrtc.Prelude.{
  ℕ, zero, suc, ◌+◌, ◌-◌, ◌*◌, ◌/◌, Bool, true, false, not, ◌&&◌, ◌||◌, List, [], ◌∷◌, ◌++◌, ltb,
  leb, ◌==◌, if◌then◌else◌, length, get_or, take, drop, replicate, bit_and, bit_xor, low_bits, ◌>>◌,
  u16, u32, put16, put32, put64, Outcome, done, refused, fault, ◌>>=◌, read, read16, read32, Option,
  none, some,
}

abbrev pub magic_cookie : ℕ
magic_cookie = 0x2112A442

abbrev pub header_len : ℕ
header_len = 20

-- The bytes of a binding response: XOR-MAPPED-ADDRESS, MESSAGE-INTEGRITY and FINGERPRINT.
abbrev pub binding_request : ℕ
binding_request = 0x0001

abbrev pub binding_response : ℕ
binding_response = 0x0101

abbrev pub attr_mapped_address : ℕ
attr_mapped_address = 0x0001

abbrev pub attr_xor_mapped_address : ℕ
attr_xor_mapped_address = 0x0020

abbrev pub attr_message_integrity : ℕ
attr_message_integrity = 0x0008

abbrev pub attr_fingerprint : ℕ
attr_fingerprint = 0x8028

-- `crc = (crc >> 1) ^ (0xEDB88320u & mask)`, where the mask has all bits where the lowest bit of
-- `crc` is set, and none otherwise.
pub crc_bit : ℕ → ℕ
crc_bit crc = bit_xor (crc >> 1) (if low_bits 1 crc == 1 then 0xEDB88320 else 0)

pub crc_bits : ℕ → ℕ → ℕ
unfolding crc_bit
crc_bits zero crc = crc
crc_bits (suc n) crc = crc_bits n (crc_bit crc)

pub crc_bytes : ℕ → List ℕ → ℕ
unfolding crc_bits
crc_bytes crc [] = crc
crc_bytes crc (b ∷ bs) = crc_bytes (crc_bits 8 (bit_xor crc b)) bs

-- `stun_crc32`
unfoldable pub crc32 : List ℕ → ℕ
unfolding crc_bytes
crc32 bytes = 0xFFFFFFFF - crc_bytes 0xFFFFFFFF bytes

-- `stun_validate_header`, from the two fields that it reads.
pub validate_header : ℕ → ℕ → Bool
validate_header cookie len = (cookie == magic_cookie) && leb len 1500

-- What the attribute loop has found: the mapped port, and the address.
pub record Mapped : Type 0 where
  pub port : ℕ
  pub addr : Option ℕ

-- The cases of the attribute switch, at offset `p`.
pub read_xor_mapped : List ℕ → ℕ → ℕ → Mapped → Outcome Mapped
read_xor_mapped d p attr_len found = if ltb attr_len 4 then done found else (do
  family ← read d (p + 1)
  port_xor ← read16 d (p + 2)
  let port = u16 (bit_xor port_xor (magic_cookie >> 16))
  let ported : Mapped = record { port = port; addr = found.addr }
  if not (family == 1 && attr_len == 8) then done ported else (do
    ip_xor ← read32 d (p + 4)
    done (record { port = port; addr = some (bit_xor ip_xor magic_cookie) })))

pub read_mapped : List ℕ → ℕ → ℕ → Mapped → Outcome Mapped
read_mapped d p attr_len found = if ltb attr_len 4 then done found else (do
  family ← read d (p + 1)
  port ← read16 d (p + 2)
  let ported : Mapped = record { port = port; addr = found.addr }
  if not (family == 1 && attr_len == 8)
      then done ported
      else (do ip ← read32 d (p + 4); done (record { port = port; addr = some ip })))

pub read_attribute : List ℕ → ℕ → ℕ → ℕ → Mapped → Outcome Mapped
unfolding read_xor_mapped read_mapped
read_attribute d p attr_type attr_len found =
    if attr_type == attr_xor_mapped_address
    then read_xor_mapped d p attr_len found
    else if attr_type == attr_mapped_address
    then read_mapped d p attr_len found
    else done found

-- `(attr_len + 3) & ~3`
abbrev pub padded : ℕ → ℕ
padded attr_len = (attr_len + 3) / 4 * 4

-- The loop over the attributes from `p` to `end`. The fuel is the number of the bytes; a loop that
-- would go on when it has run out is a fault.
pub attributes : ℕ → List ℕ → ℕ → ℕ → Mapped → Outcome Mapped
unfolding read_attribute
attributes zero d p end found = if ltb p end then fault else done found
attributes (suc fuel) d p end found =
    if not (ltb p end) then done found else if ltb end (p + 4) then done found else (do
      attr_type ← read16 d p
      attr_len ← read16 d (p + 2)
      if ltb end (p + 4 + padded attr_len) then done found else (do
        next ← read_attribute d (p + 4) attr_type attr_len found
        attributes fuel d (p + 4 + padded attr_len) end next))

-- The result of `found_mapped`.
pub mapped_result : ℕ → Option ℕ → Outcome (ℕ × ℕ)
mapped_result port none = refused
mapped_result port (some addr) = done (port, addr)

-- `stun_process_response`, for a buffer that holds the text of an address: the port and the
-- address, `refused` for `TINYRTC_ERROR`.
unfoldable pub process_response : List ℕ → Outcome (ℕ × ℕ)
unfolding validate_header attributes mapped_result
process_response d = if ltb (length d) header_len then refused else (do
  msg_type ← read16 d 0
  msg_len ← read16 d 2
  cookie ← read32 d 4
  if not (validate_header cookie msg_len && msg_type == binding_response) then refused else (do
    found ←
        attributes msg_len d header_len (header_len + msg_len) (record { port = 0; addr = none })
    mapped_result found.port found.addr))

-- A message with its length field stored.
pub set_length : ℕ → List ℕ → List ℕ
set_length len message = take 2 message ++ (put16 (u16 len) ++ drop 4 message)

-- The message behind which the HMAC is taken: with an attribute of twenty zeros for it.
pub zeroed : List ℕ → List ℕ
unfolding set_length
zeroed message =
    set_length (length message + 24 - header_len)
      (message ++ (put16 attr_message_integrity ++ put16 20 ++ replicate 20 0))

-- The message with the HMAC stored.
pub signed : List ℕ → List ℕ → List ℕ
unfolding zeroed
signed message mac = take (length message + 4) (zeroed message) ++ take 20 mac

-- The message that the checksum is taken of.
pub ended : List ℕ → List ℕ
unfolding set_length
ended message =
    set_length (length message + 8 - header_len) (message ++ (put16 attr_fingerprint ++ put16 4))

module _ (hmac : List ℕ → List ℕ → List ℕ) where
  -- `stun_finalize_message`: the message behind the call; `refused` is `TINYRTC_ERROR_MEMORY`.
  unfoldable pub finalize_message : List ℕ → ℕ → List ℕ → Outcome (List ℕ)
  unfolding signed ended
  finalize_message message buf_size password =
      if ltb buf_size (length message + 24 + 8)
      then refused
      else (let last = ended (signed message (hmac password (zeroed message))) in
          done (last ++ put32 (bit_xor (crc32 last) 0x5354554E)))

  -- The header of a response to a request with this transaction.
  pub response_header : List ℕ → List ℕ
  response_header transaction_id =
      put16 binding_response ++ (put16 0 ++ (put32 magic_cookie ++ take 12 transaction_id))

  pub xor_mapped_attribute : ℕ → ℕ → List ℕ
  xor_mapped_attribute port addr =
      put16 attr_xor_mapped_address
      ++ (put16 8
          ++ (0 ∷ 1 ∷ put16 (bit_xor port (magic_cookie >> 16))
              ++ put32 (bit_xor addr magic_cookie)))

  -- `stun_create_binding_response`, with the mapped port and address where they are given;
  -- `refused` is the result 0. The header is written without a test of the size.
  unfoldable pub create_binding_response : ℕ → List ℕ → Option (ℕ × ℕ) → List ℕ → Outcome (List ℕ)
  unfolding finalize_message response_header xor_mapped_attribute
  create_binding_response buf_size transaction_id mapped password =
      let header = response_header transaction_id in
      if ltb buf_size header_len then fault else elim mapped [
        | none ↦ finalize_message header buf_size password
        | some (port, addr) ↦
            if leb (header_len + 12) buf_size
            then finalize_message (header ++ xor_mapped_attribute port addr) buf_size password
            else finalize_message header buf_size password
      ]
