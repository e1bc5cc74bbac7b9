-- ===== src/Signaling.antt =====
-- The signaling client of src/signaling/signaling.c: the state that its WebSocket frames read and
-- write. What came in at the socket is a list, one entry for each call of `mbedtls_net_recv` or
-- `mbedtls_ssl_read` for one byte. The texts of `last_error` are left out.
mod Tests
pub mod Frames
pub mod Stream
pub mod Headers
pub mod Exchange
pub mod Safety
pub mod Fragmented
pub mod Base64
pub mod Decoding
pub mod Json
pub mod Escaped
use tinyrtc.Prelude.{ℕ, zero, suc, List, [], ◌∷◌, Option, none, some}

-- `tinyrtc_signaling_state_t`
pub data SignalingState : Type 0 where
  disconnected connecting connected error : SignalingState

-- `struct tinyrtc_signaling`: its state, the bytes of `recv_buf` in use, and `message_buf`, whose
-- capacity is always that of the receive buffer.
pub record Signaling : Type 0 where
  pub state : SignalingState
  pub recv_buf : List ℕ
  pub message_buf : Option (List ℕ)

-- `SIG_MAX_RECV_BUF` and `SIG_MAX_SEND_BUF`
abbrev pub max_recv_buf : ℕ
max_recv_buf = 8192

abbrev pub max_send_buf : ℕ
max_send_buf = 8192

-- What a call that reads one byte gives: the byte, the wish to be called again, or an error or
-- the end of the stream.
pub data Incoming : Type 0 where
  byte : ℕ → Incoming
  want : Incoming
  broken : Incoming
