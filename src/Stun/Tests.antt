-- ===== src/Stun/Tests.antt =====
-- Runs of src/ice/stun.c, with a toy HMAC in place of that of mbedtls.
use tinyrtc.Prelude.{
  ℕ, ◌+◌, ◌≤◌, ◌≡◌, ◌≢◌, refl, List, [], ◌∷◌, ◌++◌, arith, length, replicate, length-replicate,
  none, some, done, fault, read, read16, be16, put16,
}
use tinyrtc.Stun.{Mapped, attributes, header_len, process_response, create_binding_response, crc32}
use tinyrtc.Stun.Reading.{attributes_fuel, process_response-ne-fault}
use tinyrtc.Stun.Responses.{process_response-create_binding_response}

abbrev hmac : List ℕ → List ℕ → List ℕ
hmac key message = replicate 20 (length message)

length-hmac : (key message : List ℕ) → length (hmac key message) ≡ 20
length-hmac key message = length-replicate 20 (length message)

-- The check value of this checksum: that of the text "123456789".
crc32_check : crc32 (49 ∷ 50 ∷ 51 ∷ 52 ∷ 53 ∷ 54 ∷ 55 ∷ 56 ∷ 57 ∷ []) ≡ 0xCBF43926
unfolding crc32
crc32_check = refl

process_response-create_binding_response_example :
    (bytes : List ℕ) × (create_binding_response hmac 512
        (replicate 12 5)
        (some (5000, 0xC0A80001))
        (1 ∷ [])
      ≡ done bytes)
    × (process_response bytes ≡ done (5000, 0xC0A80001))
process_response-create_binding_response_example =
    process_response-create_binding_response hmac (replicate 12 5) (1 ∷ []) 5000 0xC0A80001 512
      length-hmac refl (omega arith) (omega arith) (omega arith)

-- A response that announces no attributes.
abbrev bare : List ℕ
bare = 1 ∷ 1 ∷ 0 ∷ 0 ∷ 0x21 ∷ 0x12 ∷ 0xA4 ∷ 0x42 ∷ replicate 12 0

bare_len : (len : ℕ) → read16 bare 2 ≡ done len → header_len + len ≤ length bare
unfolding read16 read be16
bare_len len e = ground arith

process_response-ne-fault_example : process_response bare ≢ fault
process_response-ne-fault_example = process_response-ne-fault bare bare_len

attributes_fuel_example :
    (result : Mapped) × (attributes 2
        (put16 0x8022 ++ (put16 1 ++ (7 ∷ 0 ∷ 0 ∷ 0 ∷ [])))
        0
        8
        (record { port = 0; addr = none })
      ≡ done result)
attributes_fuel_example =
    attributes_fuel 2 (put16 0x8022 ++ (put16 1 ++ (7 ∷ 0 ∷ 0 ∷ 0 ∷ []))) 0 8
      (record { port = 0; addr = none }) (omega arith) (omega arith)
