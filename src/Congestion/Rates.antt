-- ===== src/Congestion/Rates.antt =====
-- The target bit rate of src/cc/congestion_control.c under sequences of calls.
use tinyrtc.Prelude.{
  ℕ, ◌+◌, ◌*◌, ◌^◌, ◌≤◌, ◌<◌, ◌≡◌, refl, ◌∙◌, ltb, if◌then◌else◌, arith, u32, ◌==◌, Bool-cases,
  lt_cases, ◌⊎◌, inl, inr,
}
use tinyrtc.Congestion.{
  Config, Cc, create, report_packet_sent, report_congestion, increase_rate, report_feedback,
  can_send, clamp,
}

-- The target lies between the limits of the configuration.
abbrev pub InLimits : Cc → Type 0
InLimits cc =
    (cc.config.min_bitrate_bps ≤ cc.target_bitrate_bps)
    × (cc.target_bitrate_bps ≤ cc.config.max_bitrate_bps)

clamp-InLimits :
    (config : Config) (target : ℕ)
    → config.min_bitrate_bps ≤ config.max_bitrate_bps
    → (config.min_bitrate_bps ≤ clamp config target)
      × (clamp config target ≤ config.max_bitrate_bps)
clamp-InLimits config target h = (ground arith, ground arith)

module _ (scaled_increase : ℕ → ℕ) (smooth wait_ms : ℕ → ℕ → ℕ) where
  -- One call of an operation that changes the state.
  pub data Call : Cc → Cc → Type 0 where
    sent :
        (cc : Cc) (send_time_ms size_bytes : ℕ)
        → Call cc (report_packet_sent cc send_time_ms size_bytes)
    feedback :
        (cc : Cc) (rtt_ms fraction_lost : ℕ)
        → Call cc (report_feedback scaled_increase smooth wait_ms cc rtt_ms fraction_lost)
    congestion : (cc : Cc) → Call cc (report_congestion scaled_increase smooth wait_ms cc)
    asked :
        (cc : Cc) (packet_size_bytes now_ms : ℕ)
        → Call cc (can_send scaled_increase smooth wait_ms cc packet_size_bytes now_ms).1

  -- The states that any sequence of calls reaches from a new one.
  pub data Reachable (config : Config) : Cc → Type 0 where
    start : Reachable config (create config)
    step : (cc cc' : Cc) → Reachable config cc → Call cc cc' → Reachable config cc'

  can_send_same :
      (cc : Cc) (size now : ℕ)
      → ((can_send scaled_increase smooth wait_ms cc size now).1.config ≡ cc.config)
        × ((can_send scaled_increase smooth wait_ms cc size now).1.target_bitrate_bps
            ≡ cc.target_bitrate_bps)
  unfolding can_send
  can_send_same cc size now = elim (Bool-cases cc.config.enable_pacing) [
    | inr e ↦ rw e (refl, refl)
    | inl e ↦ elim (Bool-cases (cc.pacing_next_send_time_ms == 0)) [
      | inl f ↦ rw (e, f) (refl, refl)
      | inr f ↦ elim (Bool-cases (ltb now cc.pacing_next_send_time_ms)) [
        | inl g ↦ rw (e, f, g) (refl, refl)
        | inr g ↦ rw (e, f, g) (refl, refl)
      ]
    ]
  ]

  Call-InLimits :
      (cc cc' : Cc)
      → Call cc cc'
      → cc.config.min_bitrate_bps ≤ cc.config.max_bitrate_bps
      → InLimits cc
      → (cc'.config ≡ cc.config) × InLimits cc'
  unfolding report_packet_sent report_feedback report_congestion increase_rate can_send
  Call-InLimits cc _ (sent _ t n) h v = (refl, v)
  Call-InLimits cc _ (feedback _ rtt lost) h v = elim (Bool-cases (ltb (2 * 256) (100 * lost))) [
    | inl t ↦ rw t (refl, clamp-InLimits cc.config _ h)
    | inr t ↦ rw t (refl, clamp-InLimits cc.config _ h)
  ]
  Call-InLimits cc _ (congestion _) h v = (refl, (ground arith, ground arith))
  Call-InLimits cc _ (asked _ size now) h v =
      let (c, t) = can_send_same cc size now in (c, rw (c, t) v)

  -- After any sequence of calls the configuration is the one that the state was made with, and
  -- the target bit rate lies between its limits, where the initial rate does.
  pub Reachable-InLimits :
      (config : Config) (cc : Cc)
      → config.min_bitrate_bps ≤ config.initial_bitrate_bps
      → config.initial_bitrate_bps ≤ config.max_bitrate_bps
      → Reachable config cc
      → (cc.config ≡ config) × InLimits cc
  unfolding create
  Reachable-InLimits config _ lo hi start = (refl, (lo, hi))
  Reachable-InLimits config _ lo hi (step old new r c) =
      let (same, v) = Reachable-InLimits config old lo hi r in
      let ordered : old.config.min_bitrate_bps ≤ old.config.max_bitrate_bps =
        rw same (omega arith) in
      let (kept, w) = Call-InLimits old new c ordered v in (kept ∙ same, w)

  -- Feedback that tells of a loss above 2 percent never raises a target within its limits, and
  -- other feedback never lowers it, where the sum of the limit and the increase fits 32 bits.
  pub report_feedback_direction :
      (cc : Cc) (rtt_ms fraction_lost : ℕ)
      → InLimits cc
      → cc.config.max_bitrate_bps + (if ltb 0 rtt_ms then scaled_increase rtt_ms else 100000)
        < 2 ^ 32
      → ((2 * 256 < 100 * fraction_lost)
          × ((report_feedback scaled_increase smooth wait_ms cc rtt_ms
                fraction_lost).target_bitrate_bps
              ≤ cc.target_bitrate_bps))
        ⊎ ((100 * fraction_lost ≤ 2 * 256)
            × (cc.target_bitrate_bps
                ≤ (report_feedback scaled_increase smooth wait_ms cc rtt_ms
                    fraction_lost).target_bitrate_bps))
  unfolding report_feedback report_congestion increase_rate
  report_feedback_direction cc rtt_ms fraction_lost (lo, hi) fits =
      elim (lt_cases (2 * 256) (100 * fraction_lost)) [
        | inl (loss, t) ↦ inl (loss, rw t (ground arith))
        | inr (few, t) ↦
            let e : u32 (
                  cc.target_bitrate_bps + (if ltb 0 rtt_ms then scaled_increase rtt_ms else 100000))
                ≡ cc.target_bitrate_bps
                  + (if ltb 0 rtt_ms then scaled_increase rtt_ms else 100000) =
              ground arith in
            inr (few, rw (t, e) (ground arith))
      ]
