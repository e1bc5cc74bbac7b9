-- ===== src/Dtls.antt =====
-- The SRTP keys of src/media/dtls.c. SHA-256 comes from mbedtls: it is the parameter `sha256`, a
-- function of the bytes given to `mbedtls_sha256_update` in order. `native_bytes` is how the
-- machine stores a `uint32_t`. The handshake itself, its certificates and its socket are calls of
-- mbedtls and of the system, and are not modelled.
pub mod Keys
use tinyrtc.Prelude.{
  ℕ, zero, suc, ◌+◌, ◌-◌, ◌/◌, Bool, true, false, not, List, [], ◌∷◌, ◌++◌, ltb, if◌then◌else◌,
  take, drop, Outcome, done, refused, min,
}
use tinyrtc.Status.{Status, ok, invalid_state, memory}

-- The keys and salts of both directions.
pub record SrtpKeys : Type 0 where
  pub client_key : List ℕ
  pub client_salt : List ℕ
  pub server_key : List ℕ
  pub server_salt : List ℕ

-- `dtls_context_t`: what the key derivation reads and writes.
pub record Dtls : Type 0 where
  pub master_secret : List ℕ
  pub master_secret_captured : Bool
  pub keys : SrtpKeys

-- `dtls_key_export_callback`
pub export_key : Dtls → List ℕ → Dtls
export_key dtls ms = record dtls { master_secret = take 48 ms; master_secret_captured = true }

-- "EXTRACTOR-dtls_srtp"
abbrev pub label : List ℕ
label =
    69 ∷ 88 ∷ 84 ∷ 82 ∷ 65 ∷ 67 ∷ 84 ∷ 79 ∷ 82 ∷ 45 ∷ 100 ∷ 116 ∷ 108 ∷ 115 ∷ 95 ∷ 115 ∷ 114 ∷ 116
    ∷ 112 ∷ []

-- The 60 bytes, split.
unfoldable pub split_keys : List ℕ → SrtpKeys
split_keys output = record {
  client_key = take 16 output;
  client_salt = take 14 (drop 16 output);
  server_key = take 16 (drop 30 output);
  server_salt = take 14 (drop 46 output);
}

module _ (sha256 : List ℕ → List ℕ) (native_bytes : ℕ → List ℕ) where
  -- The loop that fills the output from `offset` on. Each round takes 32 of the 60 bytes, so two
  -- rounds are enough fuel.
  unfoldable pub expand : ℕ → ℕ → List ℕ → List ℕ
  expand zero offset master_secret = []
  expand (suc fuel) offset master_secret =
      let rest = expand fuel (offset + 32) master_secret in
      if ltb offset 60
      then take (min (60 - offset) 32)
          (sha256 (master_secret ++ (sha256 label ++ native_bytes (offset / 32))))
        ++ rest
      else []

  -- `dtls_derive_srtp_keys`, with the status, the context and the keys where it succeeds.
  unfoldable pub derive_srtp_keys : Bool → Dtls → Status × Dtls
  unfolding expand split_keys
  derive_srtp_keys alloc dtls =
      if not dtls.master_secret_captured
      then (invalid_state, dtls)
      else if not alloc
      then (memory, dtls)
      else (ok, record dtls { keys = split_keys (expand 2 0 dtls.master_secret) })
