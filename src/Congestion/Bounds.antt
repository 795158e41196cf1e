-- ===== src/Congestion/Bounds.antt =====
-- The bounds that every event of the congestion control keeps.
use maid_safe_transport.Base.{ℕ, zero, suc, ◌-◌, ◌*◌, ◌≤◌, ◌≡◌, arith}
use maid_safe_transport.Base.{List, [], ◌∷◌, ◌++◌, length, ltb, refl, drop}
use maid_safe_transport.Base.{Bool-cases, inl, inr, sym, ltb→lt, ltb_false→le, Option-cases}
use maid_safe_transport.Time.{TimeOps}
use maid_safe_transport.Congestion.{
  Control, DoubleOps, keep_last, new_congestion, on_open, on_close,
}
use maid_safe_transport.Congestion.{
  on_data_packet_received, on_generate_ack, on_ack, on_negative_ack,
}
use maid_safe_transport.Congestion.{on_send_timeout, on_ack_of_ack, set_peer_connection_type}
use maid_safe_transport.Congestion.{is_slow_transmission, best_read_buffer_size, pair_intervals}
use maid_safe_transport.Congestion.{last_time?}
use maid_safe_transport.Congestion.{default_window_size, maximum_window_size, default_data_size}
use maid_safe_transport.Congestion.{max_data_size, max_arrival_times, max_packet_pair_intervals}

drop-nil {ℓ} : {A : Type ℓ} (n : ℕ) → drop {A = A} n [] ≡ []
drop-nil zero = refl
drop-nil (suc n) = refl

-- `keep_last` pops from the front until as many elements are left as the limit allows.
pub keep_last-drop {ℓ} :
    {A : Type ℓ} (limit : ℕ) (xs : List A) → keep_last limit xs ≡ drop (length xs - limit) xs
unfolding keep_last
keep_last-drop limit [] = sym (drop-nil (0 - limit))
keep_last-drop limit (x ∷ xs) = elim (Bool-cases (ltb limit (suc (length xs)))) [
  | inl more ↦
      let e : suc (length xs) - limit ≡ suc (length xs - limit) =
        omega (arith, ltb→lt limit (suc (length xs)) more) in
      rw (more, e) (keep_last-drop limit xs)
  | inr enough ↦
      let e : suc (length xs) - limit ≡ 0 =
        omega (arith, ltb_false→le limit (suc (length xs)) enough) in
      rw (enough, e)
]

length-keep_last {ℓ} : {A : Type ℓ} (limit : ℕ) (xs : List A) → length (keep_last limit xs) ≤ limit
unfolding keep_last
length-keep_last limit [] = omega arith
length-keep_last limit (x ∷ xs) = ground (arith, length-keep_last limit xs)

module _ (ops : TimeOps) (d : DoubleOps) where
  open ops use {Time, Duration}

  -- The window stays within 16 and 512 packets and a packet within 1450 and 25950 bytes, and the
  -- two histories hold 17 entries at most.
  pub record InBounds (c : Control ops) : Type 0 where
    pub window_low : default_window_size ≤ c.send_window_size
    pub window_high : c.send_window_size ≤ maximum_window_size
    pub receive_low : default_window_size ≤ c.receive_window_size
    pub receive_high : c.receive_window_size ≤ maximum_window_size
    pub data_low : default_data_size ≤ c.send_data_size
    pub data_high : c.send_data_size ≤ max_data_size
    pub arrivals : length c.arrival_times ≤ max_arrival_times
    pub intervals : length c.packet_pair_intervals ≤ max_packet_pair_intervals

  -- An event of the congestion control, with what the connection and the program hand to it.
  pub data Event : Type 0 where
    open_event close_event : Event
    data_received : Time → ℕ → Event
    ack_generated : Event
    ack : (rtt variance available rate capacity : ℕ) → Event
    negative_ack send_timeout : Event
    ack_of_ack : ℕ → Event
    connection_type : ℕ → ℕ → Event
    transmission : Time → Time → ℕ → Event

  unfoldable pub apply : (List ℕ → List ℕ) → Event → Control ops → Control ops
  unfolding on_open on_close on_data_packet_received on_generate_ack on_ack on_negative_ack
      on_send_timeout on_ack_of_ack set_peer_connection_type is_slow_transmission
  apply sort open_event c = on_open ops c
  apply sort close_event c = on_close ops c
  apply sort (data_received now n) c = on_data_packet_received ops now n c
  apply sort ack_generated c = on_generate_ack ops sort c
  apply sort (ack rtt variance available rate capacity) c =
      on_ack ops d rtt variance available rate capacity c
  apply sort negative_ack c = on_negative_ack ops c
  apply sort send_timeout c = on_send_timeout ops c
  apply sort (ack_of_ack rtt) c = on_ack_of_ack ops rtt c
  apply sort (connection_type local type) c = set_peer_connection_type ops local type c
  apply sort (transmission now now' length) c = (is_slow_transmission ops now now' length c).1

  unfoldable pub apply_all : (List ℕ → List ℕ) → List Event → Control ops → Control ops
  unfolding apply
  apply_all sort [] c = c
  apply_all sort (e ∷ es) c = apply_all sort es (apply sort e c)

  length-pair_intervals :
      (now : Time) (n : ℕ) (c : Control ops)
      → length c.packet_pair_intervals ≤ max_packet_pair_intervals
      → length (pair_intervals ops now n c) ≤ max_packet_pair_intervals
  unfolding pair_intervals
  length-pair_intervals now n c h = elim (Option-cases (last_time? ops c.arrival_times)) [
    | inl e ↦ rw (e, length) h
    | inr (t, e) ↦
        rw (e, length)
          (ground (
            arith,
            length-keep_last max_packet_pair_intervals
                (c.packet_pair_intervals ++ ops.since now t ∷ []),
          ))
  ]

  -- The two sizes that follow an acknowledgement stay in their bounds, if a product with 0.9 is
  -- not more and one with 1.5 not less than the number.
  apply-InBounds :
      ((n : ℕ) → d.nine_tenths n ≤ n)
      → ((n : ℕ) → n ≤ d.three_halves n)
      → (sort : List ℕ → List ℕ) (e : Event) (c : Control ops) → InBounds c
      → InBounds (apply sort e c)
  unfolding apply
  apply-InBounds less more sort open_event c v = ground arith
  apply-InBounds less more sort close_event c v = ground arith
  apply-InBounds less more sort (data_received now n) c v = ground (
    arith,
    length-pair_intervals now n c v.intervals,
    length-keep_last max_arrival_times (c.arrival_times ++ now ∷ []),
  )
  apply-InBounds less more sort ack_generated c v = ground arith
  apply-InBounds less more sort (ack rtt variance available rate capacity) c v =
      ground (arith, less c.send_data_size, more c.send_data_size, less c.send_window_size)
  apply-InBounds less more sort negative_ack c v = ground arith
  apply-InBounds less more sort send_timeout c v = ground arith
  apply-InBounds less more sort (ack_of_ack rtt) c v = ground arith
  apply-InBounds less more sort (connection_type local type) c v = ground arith
  apply-InBounds less more sort (transmission now now' length) c v = ground arith

  new_congestion-InBounds : InBounds (new_congestion ops)
  unfolding new_congestion
  new_congestion-InBounds = omega arith

  -- Whatever events come, in whatever order, the sizes of a new congestion control stay in their
  -- bounds, if a product with 0.9 is not more and one with 1.5 not less than the number; so the
  -- size of its best read buffer is the product of window and packet, with no wrap.
  pub apply_all-InBounds :
      ((n : ℕ) → d.nine_tenths n ≤ n)
      → ((n : ℕ) → n ≤ d.three_halves n)
      → (sort : List ℕ → List ℕ) (es : List Event)
      → let c = apply_all sort es (new_congestion ops) in
        InBounds c × (best_read_buffer_size ops c ≡ c.receive_window_size * max_data_size)
  unfolding apply_all best_read_buffer_size
  apply_all-InBounds less more sort es =
      let v = all_from es (new_congestion ops) new_congestion-InBounds in
      (v, omega (arith, v.receive_high))
    where
      all_from : (es : List Event) (c : Control ops) → InBounds c → InBounds (apply_all sort es c)
      all_from [] c v = v
      all_from (e ∷ es) c v = all_from es (apply sort e c) (apply-InBounds less more sort e c v)
