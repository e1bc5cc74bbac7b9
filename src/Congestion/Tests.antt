-- ===== src/Congestion/Tests.antt =====
-- Runs of src/cc/congestion_control.c, with rounded quotients in place of its floating-point
-- expressions.
use tinyrtc.Prelude.{
  ℕ, ◌+◌, ◌*◌, ◌/◌, ◌≤◌, ◌<◌, ◌≡◌, ◌⊎◌, refl, true, false, not, ltb, if◌then◌else◌, arith,
}
use tinyrtc.Congestion.{Cc, default_config, create, report_feedback, can_send}
use tinyrtc.Congestion.Rates.{
  InLimits, start, step, feedback, Reachable-InLimits, report_feedback_direction,
}
use tinyrtc.Congestion.Pacing.{can_send-can_send}

abbrev scaled_increase : ℕ → ℕ
scaled_increase rtt = 10000000 / rtt

abbrev smooth : ℕ → ℕ → ℕ
smooth estimate target = (85 * estimate + 15 * target) / 100

abbrev wait_ms : ℕ → ℕ → ℕ
wait_ms bytes bitrate = bytes * 8000 / bitrate

-- After one feedback that tells of loss.
abbrev told : Cc
told = report_feedback scaled_increase smooth wait_ms (create default_config) 50 20

Reachable-InLimits_example : (told.config ≡ default_config) × InLimits told
Reachable-InLimits_example =
    Reachable-InLimits scaled_increase smooth wait_ms default_config told (omega arith)
      (omega arith)
      (step (create default_config) told start (feedback (create default_config) 50 20))

direction :
    ((2 * 256 < 100 * 20)
      × ((report_feedback scaled_increase smooth wait_ms
            (create default_config)
            50
            20).target_bitrate_bps
          ≤ (create default_config).target_bitrate_bps))
    ⊎ ((100 * 20 ≤ 2 * 256)
        × ((create default_config).target_bitrate_bps
            ≤ (report_feedback scaled_increase smooth wait_ms
                (create default_config)
                50
                20).target_bitrate_bps))
unfolding create
direction =
    report_feedback_direction scaled_increase smooth wait_ms (create default_config) 50 20
      (omega arith, omega arith) (omega arith)

-- A state behind its first packet, at two million bits per second.
abbrev paced : Cc
paced = record (create default_config) { pacing_next_send_time_ms = 100 }

can_send-can_send_example :
    ((120 < paced.pacing_next_send_time_ms)
      × (can_send scaled_increase smooth wait_ms paced 1200 120 ≡ (false, paced)))
    ⊎ ((paced.pacing_next_send_time_ms ≤ 120)
        × ((can_send scaled_increase smooth wait_ms paced 1200 120).0 ≡ true)
        × ((can_send scaled_increase smooth wait_ms
              (can_send scaled_increase smooth wait_ms paced 1200 120).1
              1200
              122).0
            ≡ not (
                ltb 122 (
                  120
                  + wait_ms 1200
                      (if ltb paced.target_bitrate_bps 1 then 1 else paced.target_bitrate_bps)))))
unfolding create
can_send-can_send_example =
    can_send-can_send scaled_increase smooth wait_ms paced 1200 120 1200 122 refl (omega arith)
      (omega arith)
