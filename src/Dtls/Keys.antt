-- ===== src/Dtls/Keys.antt =====
-- The sizes of the keys of src/media/dtls.c.
use tinyrtc.Prelude.{
  ℕ, ◌≡◌, List, [], ◌++◌, arith, length, take, drop, length-append, length-take, length-drop,
}
use tinyrtc.Dtls.{SrtpKeys, expand, split_keys, label}

length-expand :
    (sha256 : List ℕ → List ℕ) (native_bytes : ℕ → List ℕ) (ms : List ℕ)
    → ((message : List ℕ) → length (sha256 message) ≡ 32)
    → length (expand sha256 native_bytes 2 0 ms) ≡ 60
unfolding expand
length-expand sha256 native_bytes ms hash =
    let first = sha256 (ms ++ (sha256 label ++ native_bytes 0)) in
    let second = sha256 (ms ++ (sha256 label ++ native_bytes 1)) in
    omega (
      arith,
      length-append (take 32 first) (take 28 second ++ []),
      length-append (take 28 second) [],
      length-take 32 first,
      length-take 28 second,
      hash (ms ++ (sha256 label ++ native_bytes 0)),
      hash (ms ++ (sha256 label ++ native_bytes 1)),
    )

-- Keys of 16 bytes and salts of 14.
pub record AreFull (keys : SrtpKeys) : Type 0 where
  pub client_key_full : length keys.client_key ≡ 16
  pub client_salt_full : length keys.client_salt ≡ 14
  pub server_key_full : length keys.server_key ≡ 16
  pub server_salt_full : length keys.server_salt ≡ 14

pub split_keys-expand :
    (sha256 : List ℕ → List ℕ) (native_bytes : ℕ → List ℕ) (ms : List ℕ)
    → ((message : List ℕ) → length (sha256 message) ≡ 32)
    → AreFull (split_keys (expand sha256 native_bytes 2 0 ms))
unfolding split_keys
split_keys-expand sha256 native_bytes ms hash =
    let output = expand sha256 native_bytes 2 0 ms in
    let total = length-expand sha256 native_bytes ms hash in
    record {
      client_key_full = omega (arith, length-take 16 output);
      client_salt_full = omega (arith, length-take 14 (drop 16 output), length-drop 16 output);
      server_key_full = omega (arith, length-take 16 (drop 30 output), length-drop 30 output);
      server_salt_full = omega (arith, length-take 14 (drop 46 output), length-drop 46 output);
    }
