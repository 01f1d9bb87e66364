-- ===== src/Common/ClockSynchronizer.antt =====
-- include/hft/common/ClockSynchronizer.hpp: the guard against a clock that runs backwards. The
-- calibration in floating point and the printed time of day are not modelled.
use hft_fix_engine.Base.{
  ℕ, ◌-◌, ◌^◌, ℤ, pos, negsuc, ◌-ℤ◌, Bool, true, false, ltb, if◌then◌else◌, add_u64,
}

pub record ClockStatus : Type 0 where
  pub rdtsc_cycles : ℕ
  pub timestamp_ns : ℕ
  pub clock_drift_ns : ℤ
  pub clock_jump_detected : Bool
  pub negative_latency_prevented : Bool

pub record ClockSynchronizer : Type 0 where
  pub last_valid_ts_ns : ℕ
  pub clock_jumps_prevented : ℕ

-- `static_cast<int64_t>` of a `uint64_t`.
abbrev pub to_i64 : ℕ → ℤ
to_i64 n = if ltb n (2 ^ 63) then pos n else negsuc (2 ^ 64 - 1 - n)

-- `cycles` is what `rdtsc` reads.
unfoldable pub evaluate_latency : ClockSynchronizer → ℕ → ℕ → ℕ → ClockStatus × ClockSynchronizer
evaluate_latency c cycles rx_ts_ns proc_ts_ns =
    if ltb proc_ts_ns rx_ts_ns
    then (
      record {
        rdtsc_cycles = cycles;
        timestamp_ns = 0;
        clock_drift_ns = to_i64 proc_ts_ns -ℤ to_i64 rx_ts_ns;
        clock_jump_detected = true;
        negative_latency_prevented = true;
      },
      record c { clock_jumps_prevented = add_u64 c.clock_jumps_prevented 1 },
    )
    else (
      record {
        rdtsc_cycles = cycles;
        timestamp_ns = proc_ts_ns - rx_ts_ns;
        clock_drift_ns = pos 0;
        clock_jump_detected = false;
        negative_latency_prevented = false;
      },
      c,
    )
