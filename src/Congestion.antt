-- ===== src/Congestion.antt =====
-- src/cc/congestion_control.c. The results of its floating-point expressions, converted to
-- `uint32_t`, are parameters where rounding can matter: `scaled_increase rtt` is
-- `100000 * (100.0 / rtt)`, `smooth estimate target` is the moving average of the estimate, and
-- `wait_ms bytes bitrate` is `bytes * 8.0 * 1000.0 / bitrate`. Two tests are exact in a `double` and
-- written out: the half of a 32-bit number, truncated, and `fraction_lost / 256.0 > 0.02`.
mod Tests
pub mod Rates
pub mod Pacing
use tinyrtc.Prelude.{ℕ, ◌+◌, ◌*◌, ◌/◌, Bool, true, false, not, ltb, ◌==◌, if◌then◌else◌, u32, u64}

-- `tinyrtc_cc_config_t`
pub record Config : Type 0 where
  pub min_bitrate_bps : ℕ
  pub max_bitrate_bps : ℕ
  pub initial_bitrate_bps : ℕ
  pub enable_pacing : Bool

-- `struct tinyrtc_cc`; the fraction lost is kept in units of 1 / 256.
pub record Cc : Type 0 where
  pub config : Config
  pub estimated_bandwidth_bps : ℕ
  pub target_bitrate_bps : ℕ
  pub total_bytes_sent : ℕ
  pub total_packets_sent : ℕ
  pub last_update_time_ms : ℕ
  pub bytes_this_interval : ℕ
  pub pacing_next_send_time_ms : ℕ
  pub latest_rtt_ms : ℕ
  pub latest_fraction_lost : ℕ

-- `tinyrtc_cc_get_default_config`
abbrev pub default_config : Config
default_config = record {
  min_bitrate_bps = 500000;
  max_bitrate_bps = 20000000;
  initial_bitrate_bps = 2000000;
  enable_pacing = true;
}

-- `tinyrtc_cc_create`, for an allocation that succeeds.
unfoldable pub create : Config → Cc
create config = record {
  config = config;
  estimated_bandwidth_bps = config.initial_bitrate_bps;
  target_bitrate_bps = config.initial_bitrate_bps;
  total_bytes_sent = 0;
  total_packets_sent = 0;
  last_update_time_ms = 0;
  bytes_this_interval = 0;
  pacing_next_send_time_ms = 0;
  latest_rtt_ms = 0;
  latest_fraction_lost = 0;
}

-- `tinyrtc_cc_report_packet_sent`
unfoldable pub report_packet_sent : Cc → ℕ → ℕ → Cc
report_packet_sent cc send_time_ms size_bytes = record {
  config = cc.config;
  estimated_bandwidth_bps = cc.estimated_bandwidth_bps;
  target_bitrate_bps = cc.target_bitrate_bps;
  total_bytes_sent = u64 (cc.total_bytes_sent + size_bytes);
  total_packets_sent = u32 (cc.total_packets_sent + 1);
  last_update_time_ms = send_time_ms;
  bytes_this_interval = u32 (cc.bytes_this_interval + u32 size_bytes);
  pacing_next_send_time_ms = cc.pacing_next_send_time_ms;
  latest_rtt_ms = cc.latest_rtt_ms;
  latest_fraction_lost = cc.latest_fraction_lost;
}

-- The stores to the two rates.
abbrev pub set_rates : Cc → ℕ → ℕ → Cc
set_rates cc estimate target = record {
  config = cc.config;
  estimated_bandwidth_bps = estimate;
  target_bitrate_bps = target;
  total_bytes_sent = cc.total_bytes_sent;
  total_packets_sent = cc.total_packets_sent;
  last_update_time_ms = cc.last_update_time_ms;
  bytes_this_interval = cc.bytes_this_interval;
  pacing_next_send_time_ms = cc.pacing_next_send_time_ms;
  latest_rtt_ms = cc.latest_rtt_ms;
  latest_fraction_lost = cc.latest_fraction_lost;
}

-- The stores of the feedback.
abbrev pub set_feedback : Cc → ℕ → ℕ → Cc
set_feedback cc rtt_ms fraction_lost = record {
  config = cc.config;
  estimated_bandwidth_bps = cc.estimated_bandwidth_bps;
  target_bitrate_bps = cc.target_bitrate_bps;
  total_bytes_sent = cc.total_bytes_sent;
  total_packets_sent = cc.total_packets_sent;
  last_update_time_ms = cc.last_update_time_ms;
  bytes_this_interval = cc.bytes_this_interval;
  pacing_next_send_time_ms = cc.pacing_next_send_time_ms;
  latest_rtt_ms = rtt_ms;
  latest_fraction_lost = fraction_lost;
}

-- The stores of the pacing state.
abbrev pub set_pacing : Cc → ℕ → ℕ → Cc
set_pacing cc next_send_time_ms bytes = record {
  config = cc.config;
  estimated_bandwidth_bps = cc.estimated_bandwidth_bps;
  target_bitrate_bps = cc.target_bitrate_bps;
  total_bytes_sent = cc.total_bytes_sent;
  total_packets_sent = cc.total_packets_sent;
  last_update_time_ms = cc.last_update_time_ms;
  bytes_this_interval = bytes;
  pacing_next_send_time_ms = next_send_time_ms;
  latest_rtt_ms = cc.latest_rtt_ms;
  latest_fraction_lost = cc.latest_fraction_lost;
}

-- The limits at the end of the feedback.
abbrev pub clamp : Config → ℕ → ℕ
clamp config target =
    let raised = if ltb target config.min_bitrate_bps then config.min_bitrate_bps else target in
    if ltb config.max_bitrate_bps raised then config.max_bitrate_bps else raised

module _ (scaled_increase : ℕ → ℕ) (smooth wait_ms : ℕ → ℕ → ℕ) where
  -- `tinyrtc_cc_report_congestion`
  unfoldable pub report_congestion : Cc → Cc
  report_congestion cc =
      let halved = cc.target_bitrate_bps / 2 in
      let new_target =
        if ltb halved cc.config.min_bitrate_bps then cc.config.min_bitrate_bps else halved in
      set_rates cc (smooth cc.estimated_bandwidth_bps new_target) new_target

  -- The additive increase of `tinyrtc_cc_report_feedback`.
  unfoldable pub increase_rate : Cc → ℕ → Cc
  increase_rate cc rtt_ms =
      let increase = if ltb 0 rtt_ms then scaled_increase rtt_ms else 100000 in
      let raised = u32 (cc.target_bitrate_bps + increase) in
      let new_target =
        if ltb cc.config.max_bitrate_bps raised then cc.config.max_bitrate_bps else raised in
      set_rates cc (smooth cc.estimated_bandwidth_bps new_target) new_target

  -- `tinyrtc_cc_report_feedback`; the arguments that the code does not use are left out.
  unfoldable pub report_feedback : Cc → ℕ → ℕ → Cc
  unfolding report_congestion increase_rate
  report_feedback cc rtt_ms fraction_lost =
      let told = set_feedback cc rtt_ms fraction_lost in
      let adjusted =
        if ltb (2 * 256) (100 * fraction_lost)
        then report_congestion told
        else increase_rate told rtt_ms in
      set_rates adjusted adjusted.estimated_bandwidth_bps
        (clamp adjusted.config adjusted.target_bitrate_bps)

  -- `tinyrtc_cc_can_send`: the answer and the state behind it.
  unfoldable pub can_send : Cc → ℕ → ℕ → Bool × Cc
  can_send cc packet_size_bytes now_ms =
      if not cc.config.enable_pacing
      then (true, cc)
      else if cc.pacing_next_send_time_ms == 0
      then (true, set_pacing cc now_ms 0)
      else if ltb now_ms cc.pacing_next_send_time_ms
      then (false, cc)
      else (let bitrate = if ltb cc.target_bitrate_bps 1 then 1 else cc.target_bitrate_bps in
          (
            true,
            set_pacing cc (u64 (now_ms + wait_ms packet_size_bytes bitrate))
                (u32 (cc.bytes_this_interval + u32 packet_size_bytes)),
          ))

  -- `tinyrtc_cc_get_wait_time_ms`
  unfoldable pub get_wait_time_ms : Cc → ℕ
  get_wait_time_ms cc =
      if cc.pacing_next_send_time_ms == 0
      then 0
      else wait_ms 1200 (if ltb cc.target_bitrate_bps 1 then 1 else cc.target_bitrate_bps)
