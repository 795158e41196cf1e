-- ===== src/Examples/Measures.antt =====
-- What src/maidsafe/transport/rudp_congestion_control.cc measures, in numbers.
use maid_safe_transport.Base.{ℕ, ◌*◌, ◌/◌, ◌<◌, ◌≤◌, ◌≡◌, true, [], ◌∷◌}
use maid_safe_transport.Base.{arith, refl}
use maid_safe_transport.Congestion.{Congestion, on_ack_of_ack, new_congestion}
use maid_safe_transport.Congestion.{is_slow_transmission, best_read_buffer_size, max_data_size}
use maid_safe_transport.Congestion.Averages.{on_ack_of_ack_wraps}
use maid_safe_transport.Congestion.Averages.{fast_is_slow}
use maid_safe_transport.Congestion.Bounds.{Event, apply_all, InBounds, apply_all-InBounds}
use maid_safe_transport.Examples.Fixtures.{time_ops, double_ops, congestion}

abbrev slow_path : Congestion ℕ ℕ
slow_path = record congestion { round_trip_time = 700000000 }

on_ack_of_ack_wraps_example :
    (on_ack_of_ack time_ops 700000000 slow_path).round_trip_time < 700000000
on_ack_of_ack_wraps_example =
    on_ack_of_ack_wraps time_ops 700000000 slow_path (omega arith) (omega arith) refl

abbrev fast_path : Congestion ℕ ℕ
fast_path = record congestion { transmitted_bits = 4294960; last_record_transmit_time = 0 }

fast_is_slow_example : (is_slow_transmission time_ops 1001000 1001000 1 fast_path).0 ≡ true
fast_is_slow_example =
    fast_is_slow time_ops 1001000 1001000 1 fast_path refl (omega arith) (omega arith) (omega arith)
      (omega arith)

less : (n : ℕ) → n * 9 / 10 ≤ n
less n = omega arith

more : (n : ℕ) → n ≤ n * 3 / 2
more n = omega arith

apply_all-InBounds_example :
    let c =
      apply_all time_ops double_ops
        (λ xs. xs)
        (Event.negative_ack ∷ Event.ack_of_ack 500 ∷ [])
        (new_congestion time_ops) in
    InBounds time_ops double_ops c
    × (best_read_buffer_size time_ops c ≡ c.receive_window_size * max_data_size)
apply_all-InBounds_example =
    apply_all-InBounds time_ops double_ops less more (λ xs. xs)
      (Event.negative_ack ∷ Event.ack_of_ack 500 ∷ [])
