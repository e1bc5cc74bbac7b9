-- ===== src/Srtp/Packets.antt =====
-- The packets of src/media/srtp.c: what the receiver accepts, and what it makes of them.
use tinyrtc.Prelude.{
  ℕ, zero, suc, ◌+◌, ◌-◌, ◌≤◌, ◌<◌, ◌≡◌, ◌↔◌, ◌⊎◌, inr, inl, Bool-cases, ◌≢◌, not, if◌then◌else◌,
  refl, sym, ap, ◌∙◌, Bool, true, false, List, [], ◌∷◌, ◌++◌, arith, ltb, ◌==◌, length, take, drop,
  bit_or, bit_xor, get_or, length-take, length-append, length-drop, take-append, drop-append,
  take-append-drop, take-all, done, refused, eq_of_==,
}
use tinyrtc.Prelude.Bits.{bit_xor_cancel, bit_or-zero, bit_or-parts, zero-bit_xor}
use tinyrtc.Srtp.{
  Context, timingsafe_bcmp, crypt, counter_mode, packet_ssrc, derive_key, first_block,
  generate_auth, verify_auth, next_roc, srtp_encrypt_packet, srtp_decrypt_packet,
}
use tinyrtc.Srtp.Counter.{length-counter_mode, counter_mode_twice}

bit_xor_self : (x : ℕ) → bit_xor x x ≡ 0
bit_xor_self x = ap (λ z. bit_xor z x) (sym (zero-bit_xor x)) ∙ bit_xor_cancel 0 x

bit_xor-zero : (x y : ℕ) → bit_xor x y ≡ 0 → x ≡ y
bit_xor-zero x y e = sym (bit_xor_cancel x y) ∙ ap (λ z. bit_xor z y) e ∙ zero-bit_xor y

same_head : (x y : ℕ) (xs ys : List ℕ) → ◌≡◌ {A = List ℕ} (x ∷ xs) (y ∷ ys) → (x ≡ y) × (xs ≡ ys)
same_head x y xs ys e = (ap (λ l. get_or l 0 0) e, ap (drop 1) e)

-- The comparison that does not stop early returns zero exactly where it started from zero and
-- the bytes are the same.
pub timingsafe_bcmp-zero :
    (res : ℕ) (xs ys : List ℕ)
    → length xs ≡ length ys
    → (timingsafe_bcmp res xs ys ≡ 0) ↔ (res ≡ 0) × (xs ≡ ys)
unfolding timingsafe_bcmp
timingsafe_bcmp-zero res [] [] e = (λ h. (h, refl), λ h. h.0)
timingsafe_bcmp-zero res [] (y ∷ ys) e = absurd (omega arith)
timingsafe_bcmp-zero res (x ∷ xs) [] e = absurd (omega arith)
timingsafe_bcmp-zero res (x ∷ xs) (y ∷ ys) e =
    let (to, from) = timingsafe_bcmp-zero (bit_or res (bit_xor x y)) xs ys (omega arith) in
    (
      λ h.
          let (a, b) = to h in
          let (c, d) = bit_or-parts res (bit_xor x y) a in (c, rw (bit_xor-zero x y d, b)),
      λ (h, k).
          let (a, b) = same_head x y xs ys k in from (rw (h, a, bit_xor_self y) (bit_or-zero 0), b),
    )

true-ne-false : ◌≢◌ {A = Bool} true false
true-ne-false = λ e. cc

get_or-append : (xs ys : List ℕ) (i : ℕ) → i < length xs → get_or (xs ++ ys) i 0 ≡ get_or xs i 0
get_or-append [] ys i h = absurd (omega arith)
get_or-append (x ∷ xs) ys zero h = refl
get_or-append (x ∷ xs) ys (suc i) h = get_or-append xs ys i (omega arith)

packet_ssrc-append : (xs ys : List ℕ) → 12 ≤ length xs → packet_ssrc (xs ++ ys) ≡ packet_ssrc xs
unfolding packet_ssrc
packet_ssrc-append xs ys h = rw (
  get_or-append xs ys 8 (omega arith),
  get_or-append xs ys 9 (omega arith),
  get_or-append xs ys 10 (omega arith),
  get_or-append xs ys 11 (omega arith),
)

module _ (block hmac : List ℕ → List ℕ → List ℕ) where
  -- The tag of a packet: the first ten bytes of its HMAC.
  abbrev pub Tagged : Context → List ℕ → List ℕ → Type 0
  Tagged srtp packet tag = tag ≡ take 10 (hmac srtp.key packet)

  verify_auth-true :
      (srtp : Context) (packet tag : List ℕ)
      → 10 ≤ length (hmac srtp.key packet)
      → length tag ≡ 10
      → (verify_auth block hmac srtp packet tag ≡ true) ↔ Tagged srtp packet tag
  unfolding verify_auth
  verify_auth-true srtp packet tag h l =
      let computed = take 10 (hmac srtp.key packet) in
      let len : length computed ≡ length (take 10 tag) =
        omega (arith, length-take 10 (hmac srtp.key packet), length-take 10 tag) in
      let (to, from) = timingsafe_bcmp-zero 0 computed (take 10 tag) len in
      let whole = take-all 10 tag (omega arith) in
      (
        λ e. sym ((to (eq_of_== _ 0 e)).1 ∙ whole),
        λ e. ap (λ n. n == 0) (from (refl, sym (whole ∙ e))),
      )

  decrypt_with :
      (srtp : Context) (packet tag : List ℕ) (b : Bool)
      → length tag ≡ 10
      → 12 ≤ length packet
      → verify_auth block hmac srtp packet tag ≡ b
      → srtp_decrypt_packet block hmac srtp (packet ++ tag)
        ≡ (if not b then refused else done (next_roc block hmac srtp, crypt block hmac srtp packet))
  unfolding srtp_decrypt_packet
  decrypt_with srtp packet tag b l long e =
      let len = length-append packet tag in
      let t : ltb (length (packet ++ tag)) 22 ≡ false = ground arith in
      let n : length packet ≡ length (packet ++ tag) - 10 = omega arith in
      rw (
        t,
        take-append (length (packet ++ tag) - 10) packet tag n,
        drop-append (length (packet ++ tag) - 10) packet tag n,
        e,
      )

  -- A packet that ends with ten bytes is accepted where they are the tag of what stands in front of
  -- them, and then its payload is decrypted and the counter moves on; it is refused where they are
  -- not that tag.
  pub srtp_decrypt_packet_lem :
      (srtp : Context) (packet tag : List ℕ)
      → 10 ≤ length (hmac srtp.key packet)
      → length tag ≡ 10
      → 12 ≤ length packet
      → (Tagged srtp packet tag
          × (srtp_decrypt_packet block hmac srtp (packet ++ tag)
              ≡ done (next_roc block hmac srtp, crypt block hmac srtp packet)))
        ⊎ ((¬ Tagged srtp packet tag)
            × (srtp_decrypt_packet block hmac srtp (packet ++ tag) ≡ refused))
  srtp_decrypt_packet_lem srtp packet tag h l long =
      let (to, from) = verify_auth-true srtp packet tag h l in
      elim (Bool-cases (verify_auth block hmac srtp packet tag)) [
        | inl same ↦ inl (to same, decrypt_with srtp packet tag true l long same)
        | inr other ↦ inr (
          λ tagged. true-ne-false (sym (from tagged) ∙ other),
          decrypt_with srtp packet tag false l long other,
        )
      ]

  pub length-crypt :
      (srtp : Context) (packet : List ℕ) → length (crypt block hmac srtp packet) ≡ length packet
  unfolding crypt
  length-crypt srtp packet =
      let payload = drop 12 packet in
      let key = derive_key block hmac srtp (packet_ssrc packet) in
      omega (
        arith,
        length-append (take 12 packet)
            (counter_mode block hmac (length payload) key (first_block srtp.salt) payload),
        length-counter_mode block hmac (length payload) key (first_block srtp.salt) payload
            (omega arith),
        length-take 12 packet,
        length-drop 12 packet,
      )

  crypt_same :
      (s r : Context) (packet : List ℕ)
      → s.key ≡ r.key
      → s.salt ≡ r.salt
      → crypt block hmac s packet ≡ crypt block hmac r packet
  unfolding crypt derive_key
  crypt_same s r packet k l = rw (k, l)

  crypt_twice :
      (srtp : Context) (packet : List ℕ)
      → 12 ≤ length packet
      → crypt block hmac srtp (crypt block hmac srtp packet) ≡ packet
  unfolding crypt
  crypt_twice srtp packet long =
      let header = take 12 packet in
      let payload = drop 12 packet in
      let key = derive_key block hmac srtp (packet_ssrc packet) in
      let c = first_block srtp.salt in
      let out = counter_mode block hmac (length payload) key c payload in
      let len : length header ≡ 12 = omega (arith, length-take 12 packet) in
      let same : packet_ssrc (header ++ out) ≡ packet_ssrc packet =
        packet_ssrc-append header out (omega arith)
        ∙ sym (packet_ssrc-append header payload (omega arith))
        ∙ ap packet_ssrc (take-append-drop 12 packet) in
      rw
        (
          take-append 12 header out len,
          drop-append 12 header out len,
          same,
          length-counter_mode block hmac (length payload) key c payload (omega arith),
          counter_mode_twice block hmac (length payload) key c payload (omega arith),
        )
        (take-append-drop 12 packet)

  -- What a sender encrypts, a receiver with the same key and salt decrypts to the same packet,
  -- where the packet has an RTP header and the buffer has room for the tag. Ten bytes are added.
  pub srtp_decrypt-srtp_encrypt :
      (sender receiver : Context) (packet : List ℕ) (max_len : ℕ)
      → ((key message : List ℕ) → length (hmac key message) ≡ 20)
      → sender.key ≡ receiver.key
      → sender.salt ≡ receiver.salt
      → 12 ≤ length packet
      → length packet + 10 ≤ max_len
      → (bytes : List ℕ) × (srtp_encrypt_packet block hmac sender packet max_len
          ≡ done (next_roc block hmac sender, bytes))
        × (length bytes ≡ length packet + 10)
        × (srtp_decrypt_packet block hmac receiver bytes
            ≡ done (next_roc block hmac receiver, packet))
  unfolding srtp_encrypt_packet generate_auth
  srtp_decrypt-srtp_encrypt sender receiver packet max_len mac k l long room =
      let encrypted = crypt block hmac sender packet in
      let tag = take 10 (hmac sender.key encrypted) in
      let a : ltb max_len (length packet + 10) ≡ false = ground arith in
      let b : ltb (length packet) 12 ≡ false = ground arith in
      let ten : length tag ≡ 10 =
        omega (arith, length-take 10 (hmac sender.key encrypted), mac sender.key encrypted) in
      let same_length = length-crypt sender packet in
      let tagged : Tagged receiver encrypted tag = rw k in
      let checked =
        (verify_auth-true receiver encrypted tag (omega (arith, mac receiver.key encrypted)) ten).1
          tagged in
      let accepted = decrypt_with receiver encrypted tag true ten (omega arith) checked in
      (
        encrypted ++ tag,
        rw (a, b),
        omega (arith, length-append encrypted tag),
        accepted
            ∙ ap (λ p. done (next_roc block hmac receiver, p))
                (sym (crypt_same sender receiver encrypted k l) ∙ crypt_twice sender packet long),
      )
