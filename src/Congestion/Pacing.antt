-- ===== src/Congestion/Pacing.antt =====
-- Pacing in src/cc/congestion_control.c.
use tinyrtc.Prelude.{
  ℕ, ◌+◌, ◌^◌, ◌≤◌, ◌<◌, ◌≡◌, refl, Bool, true, false, ltb, if◌then◌else◌, arith, inl, inr,
  lt_cases, ◌⊎◌, u64, not, ◌==◌,
}
use tinyrtc.Congestion.{Cc, can_send}

pick : (b : Bool) (x y : Cc) → (if◌then◌else◌ {A = Bool × Cc} b (false, x) (true, y)).0 ≡ not b
pick true x y = refl
pick false x y = refl

module _ (scaled_increase : ℕ → ℕ) (smooth wait_ms : ℕ → ℕ → ℕ) where
  abbrev ask : Cc → ℕ → ℕ → Bool × Cc
  ask cc size now = can_send scaled_increase smooth wait_ms cc size now

  -- With pacing on and behind the first packet, a packet is let through exactly from the stored
  -- time on. One let through blocks the next ones for the time that its bytes take at the target
  -- rate, where the clock does not wrap around; one refused changes nothing.
  pub can_send-can_send :
      (cc : Cc) (size now size' now' : ℕ)
      → cc.config.enable_pacing ≡ true
      → 0 < cc.pacing_next_send_time_ms
      → now + wait_ms size (if ltb cc.target_bitrate_bps 1 then 1 else cc.target_bitrate_bps)
        < 2 ^ 64
      → ((now < cc.pacing_next_send_time_ms)
          × (can_send scaled_increase smooth wait_ms cc size now ≡ (false, cc)))
        ⊎ ((cc.pacing_next_send_time_ms ≤ now)
            × ((can_send scaled_increase smooth wait_ms cc size now).0 ≡ true)
            × ((can_send scaled_increase smooth wait_ms
                  (can_send scaled_increase smooth wait_ms cc size now).1
                  size'
                  now').0
                ≡ not (
                    ltb now' (
                      now
                      + wait_ms size
                          (if ltb cc.target_bitrate_bps 1 then 1 else cc.target_bitrate_bps)))))
  unfolding can_send
  can_send-can_send cc size now size' now' on behind room =
      let n : (cc.pacing_next_send_time_ms == 0) ≡ false = ground arith in
      let until =
        now + wait_ms size (if ltb cc.target_bitrate_bps 1 then 1 else cc.target_bitrate_bps) in
      elim (lt_cases now cc.pacing_next_send_time_ms) [
        | inl (early, t) ↦ inl (early, rw (on, n, t))
        | inr (late, t) ↦
            let same : u64 until ≡ until = omega arith in
            let m : (until == 0) ≡ false = ground arith in
            inr (late, rw (on, n, t), rw (on, n, t, same, m) (pick (ltb now' until) _ _))
      ]
