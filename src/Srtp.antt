-- ===== src/Srtp.antt =====
-- src/media/srtp.c. AES-128 on one block and HMAC-SHA1 come from mbedtls: they are the parameters
-- `block` (a key and a block) and `hmac` (a key and a message). A packet is the list of its
-- bytes; a result carries the context behind the call and the packet's bytes, whose number goes
-- out through `len` and `output_len`.
mod Tests
pub mod Counter
pub mod Packets
use tinyrtc.Prelude.{
  ℕ, zero, suc, ◌+◌, ◌-◌, Bool, true, false, not, List, [], ◌∷◌, ◌++◌, ltb, leb, ◌==◌,
  if◌then◌else◌, length, get_or, take, drop, replicate, bit_or, bit_xor, u8, u32, be32, put32,
  Outcome, done, refused, fault,
}

-- `srtp_context_t`
pub record Context : Type 0 where
  pub key : List ℕ
  pub salt : List ℕ
  pub roc : ℕ
  pub initialized : Bool

-- `srtp_init`, for an allocation that succeeds.
unfoldable pub srtp_init : List ℕ → List ℕ → Context
srtp_init key salt = record { key = take 16 key; salt = take 14 salt; roc = 0; initialized = true }

-- `a[i] ^= b[i]` on the common indices.
abbrev pub xor_bytes : List ℕ → List ℕ → List ℕ
xor_bytes [] ys = []
xor_bytes (x ∷ xs) [] = x ∷ xs
xor_bytes (x ∷ xs) (y ∷ ys) = bit_xor x y ∷ xor_bytes xs ys

-- `timingsafe_bcmp` from the accumulator `res` on.
unfoldable pub timingsafe_bcmp : ℕ → List ℕ → List ℕ → ℕ
timingsafe_bcmp res [] ys = res
timingsafe_bcmp res (x ∷ xs) [] = res
timingsafe_bcmp res (x ∷ xs) (y ∷ ys) = timingsafe_bcmp (bit_or res (bit_xor x y)) xs ys

-- Whether incrementing the bytes wraps all of them around.
pub wraps : List ℕ → Bool
wraps [] = true
wraps (b ∷ bs) = if wraps bs then u8 (b + 1) == 0 else false

-- The counter's bytes, incremented from the last one on while a byte wraps around.
pub increment : List ℕ → List ℕ
unfolding wraps
increment [] = []
increment (b ∷ bs) = (if wraps bs then u8 (b + 1) else b) ∷ increment bs

-- The counter block of the next round: bytes 8 to 15 are the counter.
pub next_block : List ℕ → List ℕ
next_block counter_block = take 8 counter_block ++ increment (drop 8 counter_block)

-- The first counter block: zero, exclusive or the salt.
pub first_block : List ℕ → List ℕ
first_block salt = xor_bytes (replicate 16 0) (take 14 salt)

-- The synchronization source in the RTP header.
pub packet_ssrc : List ℕ → ℕ
packet_ssrc packet =
    be32 (get_or packet 8 0) (get_or packet 9 0) (get_or packet 10 0) (get_or packet 11 0)

module _ (block hmac : List ℕ → List ℕ → List ℕ) where
  -- `srtp_derive_key`
  pub derive_key : Context → ℕ → List ℕ
  derive_key srtp ssrc =
      block srtp.key (xor_bytes (replicate 12 0 ++ put32 ssrc) (take 14 srtp.salt))

  -- The counter mode loop over the payload that remains. Each round takes at least one byte, so
  -- the number of the bytes is enough fuel.
  unfoldable pub counter_mode : ℕ → List ℕ → List ℕ → List ℕ → List ℕ
  counter_mode fuel key counter_block [] = []
  counter_mode zero key counter_block (x ∷ xs) = []
  counter_mode (suc fuel) key counter_block (x ∷ xs) =
      let remaining = length (x ∷ xs) in
      let block_len = if leb 16 remaining then 16 else remaining in
      xor_bytes (take block_len (x ∷ xs)) (block key counter_block)
      ++ counter_mode fuel key (next_block counter_block) (drop block_len (x ∷ xs))

  -- The bytes behind the 12 of the header, encrypted or decrypted in place.
  unfoldable pub crypt : Context → List ℕ → List ℕ
  unfolding counter_mode
  crypt srtp packet =
      let payload = drop 12 packet in
      take 12 packet
      ++ counter_mode (length payload) (derive_key srtp (packet_ssrc packet))
          (first_block srtp.salt) payload

  -- `srtp_generate_auth`
  unfoldable pub generate_auth : Context → List ℕ → List ℕ
  generate_auth srtp packet = take 10 (hmac srtp.key packet)

  -- `srtp_verify_auth`
  unfoldable pub verify_auth : Context → List ℕ → List ℕ → Bool
  unfolding timingsafe_bcmp
  verify_auth srtp packet tag =
      timingsafe_bcmp 0 (take 10 (hmac srtp.key packet)) (take 10 tag) == 0

  unfoldable pub next_roc : Context → Context
  next_roc srtp = record {
    key = srtp.key;
    salt = srtp.salt;
    roc = u32 (srtp.roc + 1);
    initialized = srtp.initialized;
  }

  -- `srtp_encrypt_packet`; `refused` is `TINYRTC_ERROR`. A packet below 12 bytes makes the length
  -- of the payload wrap around, and the loop runs out of the buffer.
  unfoldable pub srtp_encrypt_packet : Context → List ℕ → ℕ → Outcome (Context × List ℕ)
  unfolding crypt generate_auth next_roc
  srtp_encrypt_packet srtp packet max_len =
      if ltb max_len (length packet + 10)
      then refused
      else if ltb (length packet) 12
      then fault
      else (let encrypted = crypt srtp packet in
          done (next_roc srtp, encrypted ++ generate_auth srtp encrypted))

  -- `srtp_decrypt_packet`
  unfoldable pub srtp_decrypt_packet : Context → List ℕ → Outcome (Context × List ℕ)
  unfolding crypt verify_auth next_roc
  srtp_decrypt_packet srtp packet =
      if ltb (length packet) 22
      then refused
      else (let packet_len_without_auth = length packet - 10 in
          let received = take packet_len_without_auth packet in
          if not (verify_auth srtp received (drop packet_len_without_auth packet))
          then refused
          else done (next_roc srtp, crypt srtp received))
