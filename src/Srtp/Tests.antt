-- ===== src/Srtp/Tests.antt =====
-- Runs of src/media/srtp.c, with a toy cipher and a toy HMAC in place of those of mbedtls.
use tinyrtc.Prelude.{
  ℕ, ◌+◌, ◌≡◌, ◌↔◌, ◌⊎◌, refl, true, List, [], ◌∷◌, ◌++◌, arith, length, take, replicate,
  length-replicate, done, refused,
}
use tinyrtc.Srtp.{
  Context, crypt, next_roc, timingsafe_bcmp, srtp_encrypt_packet, srtp_decrypt_packet,
}
use tinyrtc.Srtp.Packets.{
  Tagged, timingsafe_bcmp-zero, srtp_decrypt_packet_lem, srtp_decrypt-srtp_encrypt,
}

abbrev block : List ℕ → List ℕ → List ℕ
block key counter_block = take 16 (key ++ counter_block)

-- Twenty times the number of the bytes of the message.
abbrev hmac : List ℕ → List ℕ → List ℕ
hmac key message = replicate 20 (length message)

length-hmac : (key message : List ℕ) → length (hmac key message) ≡ 20
length-hmac key message = length-replicate 20 (length message)

abbrev context : Context
context = record { key = replicate 16 7; salt = replicate 14 9; roc = 0; initialized = true }

abbrev packet : List ℕ
packet = 0x80 ∷ 0 ∷ 0 ∷ 1 ∷ 0 ∷ 0 ∷ 0 ∷ 2 ∷ 0 ∷ 0 ∷ 0 ∷ 3 ∷ 42 ∷ 43 ∷ []

srtp_decrypt-srtp_encrypt_example :
    (bytes : List ℕ) × (srtp_encrypt_packet block hmac context packet 100
      ≡ done (next_roc block hmac context, bytes))
    × (length bytes ≡ length packet + 10)
    × (srtp_decrypt_packet block hmac context bytes ≡ done (next_roc block hmac context, packet))
srtp_decrypt-srtp_encrypt_example =
    srtp_decrypt-srtp_encrypt block hmac context context packet 100 length-hmac refl refl
      (omega arith) (omega arith)

srtp_decrypt_packet_example :
    (Tagged block hmac context packet (replicate 10 14)
      × (srtp_decrypt_packet block hmac context (packet ++ replicate 10 14)
          ≡ done (next_roc block hmac context, crypt block hmac context packet)))
    ⊎ ((¬ Tagged block hmac context packet (replicate 10 14))
        × (srtp_decrypt_packet block hmac context (packet ++ replicate 10 14) ≡ refused))
srtp_decrypt_packet_example =
    srtp_decrypt_packet_lem block hmac context packet (replicate 10 14) (omega arith) refl
      (omega arith)

timingsafe_bcmp-zero_example :
    (timingsafe_bcmp 0 (1 ∷ 2 ∷ []) (1 ∷ 3 ∷ []) ≡ 0)
    ↔ (◌≡◌ {A = ℕ} 0 0) × (◌≡◌ {A = List ℕ} (1 ∷ 2 ∷ []) (1 ∷ 3 ∷ []))
timingsafe_bcmp-zero_example = timingsafe_bcmp-zero 0 (1 ∷ 2 ∷ []) (1 ∷ 3 ∷ []) refl
