-- ===== src/Congestion/Averages.antt =====
-- The smoothed measures, and the speed of the transmission.
use maid_safe_transport.Base.{
  ℕ, ◌+◌, ◌*◌, ◌/◌, ◌%◌, ◌^◌, ◌≤◌, ◌<◌, ◌≡◌, ◌≢◌, true, false, arith, lt→ltb, ◌∙◌,
}
use maid_safe_transport.Base.{min, max, ltb, ◌==◌, if◌then◌else◌}
use native.Mathlib.Nat.{div-lt_iff_lt-mul}
use maid_safe_transport.Time.{TimeOps}
use maid_safe_transport.Congestion.{Control, smooth64, smooth32, on_ack_of_ack}
use maid_safe_transport.Congestion.{is_slow_transmission}

-- The average of `OnAck` lies between the old value and the sample, for all values of uint32_t,
-- where a sample of 0 counts as the old value and so changes nothing.
pub smooth64_between :
    (old sample : ℕ)
    → old < 2 ^ 32
    → sample < 2 ^ 32
    → let sample' = if sample == 0 then old else sample in
      (min old sample' ≤ smooth64 old sample) × (smooth64 old sample ≤ max old sample')
unfolding smooth64
smooth64_between old sample ho hs = ground arith

-- The average of `OnAckOfAck` does so as long as eight times either value fits 32 bits.
pub smooth32_between :
    (old sample : ℕ)
    → 8 * old < 2 ^ 32
    → 8 * sample < 2 ^ 32
    → (min old sample ≤ smooth32 7 old sample) × (smooth32 7 old sample ≤ max old sample)
unfolding smooth32
smooth32_between old sample ho hs = omega arith

small_speed : (x ms : ℕ) → x < 1000705 → 1000 < ms → x / ms % 2 ^ 32 < 1024
small_speed x ms hx hm =
    let q = (div-lt_iff_lt-mul {k = ms} {x = x} {y = 1000} (omega arith)).1 (omega arith) in
    omega arith

module _ (ops : TimeOps) where
  open ops use {Time, Duration, since, milliseconds, total_milliseconds, longer}

  -- A round trip time of 613566757 microseconds or more, measured again, is averaged to less than
  -- it is, since seven times its value is cut to 32 bits.
  pub on_ack_of_ack_wraps :
      (rtt : ℕ) (c : Control ops)
      → 613566757 ≤ rtt
      → rtt < 2 ^ 32
      → c.round_trip_time ≡ rtt
      → (on_ack_of_ack ops rtt c).round_trip_time < rtt
  unfolding on_ack_of_ack
  on_ack_of_ack_wraps rtt c lo hi e = omega arith

  -- A connection is reported slow, when more than a second has passed, exactly if a thousand
  -- times the bits, cut to 32 bits, makes a speed under the threshold; otherwise it is not.
  pub slow_exactly :
      (now now' : Time) (length : ℕ) (c : Control ops)
      → c.transmitted_bits ≢ 0
      → let bits = (c.transmitted_bits + length * 8 % 2 ^ 32) % 2 ^ 32 in
        let duration = since now c.last_record_transmit_time in
        (is_slow_transmission ops now now' length c).0 ≡ (
          if longer duration (milliseconds 1000)
          then ltb (1000 * bits % 2 ^ 32 / total_milliseconds duration % 2 ^ 32) 1024
          else false)
  unfolding is_slow_transmission
  slow_exactly now now' length c h = ground arith

  -- A connection that carried between 4294968 and 4295968 bits, more than half a megabyte, in a
  -- little over a second is reported slow: the product with 1000 wraps.
  pub fast_is_slow :
      (now now' : Time) (length : ℕ) (c : Control ops)
      → longer (since now c.last_record_transmit_time) (milliseconds 1000) ≡ true
      → 1000 < total_milliseconds (since now c.last_record_transmit_time)
      → c.transmitted_bits ≢ 0
      → 4294968 ≤ c.transmitted_bits + length * 8
      → c.transmitted_bits + length * 8 ≤ 4295968
      → (is_slow_transmission ops now now' length c).0 ≡ true
  unfolding is_slow_transmission
  fast_is_slow now now' length c long ms set lo hi =
      let total = c.transmitted_bits + length * 8 in
      let bits : (c.transmitted_bits + length * 8 % 2 ^ 32) % 2 ^ 32 ≡ total = omega arith in
      let cut : 1000 * total % 2 ^ 32 < 1000705 = omega arith in
      slow_exactly now now' length c set
      ∙ rw (long, bits)
          (lt→ltb _ 1024 (
            small_speed (1000 * total % 2 ^ 32)
              (total_milliseconds (since now c.last_record_transmit_time)) cut ms))
