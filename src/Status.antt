-- ===== src/Status.antt =====
-- `tinyrtc_error_t` of include/tinyrtc/tinyrtc.h.

-- The constructors stand for 0, -1, -2, ..., -11.
pub data Status : Type 0 where
  ok error invalid_arg memory network not_found in_progress timeout invalid_state : Status
  dtls_failed ice_failed signaling : Status
