-- ===== src/Time.antt =====
-- The times and durations of Boost.Date_Time, which the program calls and does not implement, and
-- the timer of src/maidsafe/transport/rudp_tick_timer.h, which keeps the time of its next tick.
-- No law is assumed of them. A call of `Now()` is an argument of the operation that makes it.
use maid_safe_transport.Base.{ℕ, Bool, true, if◌then◌else◌}

pub record TimeOps : Type 1 where
  pub Time : Type 0
  pub Duration : Type 0
  pub not_a_date_time : Time
  pub pos_infin : Time
  -- `time + duration` and `time - time`
  pub later : Time → Duration → Time
  pub since : Time → Time → Duration
  -- `<`, `<=` and `==` on times
  pub before : Time → Time → Bool
  pub up_to : Time → Time → Bool
  pub same_time : Time → Time → Bool
  pub milliseconds : ℕ → Duration
  pub microseconds : ℕ → Duration
  -- `+` and `>` on durations
  pub plus : Duration → Duration → Duration
  pub longer : Duration → Duration → Bool
  pub total_milliseconds : Duration → ℕ
  pub total_microseconds : Duration → ℕ

module _ (ops : TimeOps) where
  open ops use {Time, Duration, pos_infin, later, before, up_to, same_time}

  -- A timer is the time at which it expires.
  unfoldable pub reset : Time
  reset = pos_infin

  unfoldable pub expired : Time → Time → Bool
  expired now expires_at = if same_time expires_at pos_infin then true else up_to expires_at now

  unfoldable pub tick_at : Time → Time → Time
  tick_at time expires_at = if before time expires_at then time else expires_at

  unfoldable pub tick_after : Time → Duration → Time → Time
  unfolding tick_at
  tick_after now duration expires_at = tick_at (later now duration) expires_at
