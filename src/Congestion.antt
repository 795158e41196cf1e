-- ===== src/Congestion.antt =====
-- src/maidsafe/transport/rudp_congestion_control.{h,cc}: what the sender and the receiver measure
-- of a connection, and the sizes of window and packet that follow from it. The products with 0.9
-- and 1.5 are taken in double precision by the source; they are parameters, `DoubleOps`. So is
-- `std::sort`. `RudpParameters::connection_type` is a variable of the program, and an argument.
pub mod Bounds
pub mod Averages
use maid_safe_transport.Base.{
  ℕ, zero, suc, ◌+◌, ◌-◌, ◌*◌, ◌/◌, ◌%◌, ◌^◌, ◌≤◌, ◌<◌, Bool, true, false, not,
}
use maid_safe_transport.Base.{◌&&◌, ◌||◌, Option, none, some, List, [], ◌∷◌, ◌++◌, map, min, max}
use maid_safe_transport.Base.{ltb, leb, ◌==◌, if◌then◌else◌, length, get_elem?, drop}
use maid_safe_transport.Time.{TimeOps}

-- src/maidsafe/transport/rudp_parameters.cc
abbrev pub default_window_size : ℕ
default_window_size = 16

abbrev pub maximum_window_size : ℕ
maximum_window_size = 512

abbrev pub default_data_size : ℕ
default_data_size = 1450

abbrev pub max_data_size : ℕ
max_data_size = 25950

abbrev pub slow_speed_threshold : ℕ
slow_speed_threshold = 1024

-- The connection types of rudp_parameters.h that the source compares with.
abbrev pub wireless : ℕ
wireless = 0x0fffffff

abbrev pub e1 : ℕ
e1 = 0xf1ffffff

abbrev pub gigabit_ethernet : ℕ
gigabit_ethernet = 0xff2fffff

-- `static_cast<size_t>(0.9 * n)` and `static_cast<size_t>(1.5 * n)`.
pub record DoubleOps : Type 0 where
  pub nine_tenths : ℕ → ℕ
  pub three_halves : ℕ → ℕ

abbrev pub max_arrival_times : ℕ
max_arrival_times = 17

abbrev pub max_packet_pair_intervals : ℕ
max_packet_pair_intervals = 17

module _ (Time Duration : Type 0) where
  pub record Congestion : Type 0 where
    pub round_trip_time : ℕ
    pub round_trip_time_variance : ℕ
    pub packets_receiving_rate : ℕ
    pub estimated_link_capacity : ℕ
    pub send_window_size : ℕ
    pub receive_window_size : ℕ
    pub send_data_size : ℕ
    pub send_delay : Duration
    pub send_timeout : Duration
    pub receive_delay : Duration
    pub receive_timeout : Duration
    pub ack_delay : Duration
    pub ack_timeout : Duration
    pub lost_packets : ℕ
    pub corrupted_packets : ℕ
    pub arrival_times : List Time
    pub packet_pair_intervals : List Duration
    pub peer_connection_type : ℕ
    pub allowed_lost : ℕ
    pub transmitted_bits : ℕ
    pub last_record_transmit_time : Time
    pub transmission_speed : ℕ

-- `while (deque.size() > limit) deque.pop_front();`
unfoldable pub keep_last {ℓ} : {A : Type ℓ} → ℕ → List A → List A
keep_last limit [] = []
keep_last limit (x ∷ xs) =
    let rest = keep_last limit xs in if ltb limit (length (x ∷ xs)) then rest else x ∷ xs

-- The element at an index of a vector that is known to have it.
abbrev pub at_or_zero : List ℕ → ℕ → ℕ
at_or_zero [] i = 0
at_or_zero (x ∷ xs) zero = x
at_or_zero (x ∷ xs) (suc i) = at_or_zero xs i

-- How many intervals lie between an eighth and eight times of the median, and their sum, in
-- uint64_t.
unfoldable pub count_valid : ℕ → List ℕ → ℕ × ℕ
count_valid median [] = (0, 0)
count_valid median (i ∷ is) =
    let (n, total) = count_valid median is in
    if leb (median / 8) i && leb i (median * 8 % 2 ^ 64)
    then (n + 1, (i + total) % 2 ^ 64)
    else (n, total)

unfoldable pub receiving_rate : List ℕ → ℕ
unfolding count_valid
receiving_rate intervals =
    let median = at_or_zero intervals (length intervals / 2) in
    let (n, total) = count_valid median intervals in
    if ltb 0 total && ltb 8 n then 1000000 * n / total % 2 ^ 32 else 0

unfoldable pub link_capacity : List ℕ → ℕ
link_capacity intervals =
    let median = at_or_zero intervals (length intervals / 2) in
    if ltb 0 median then 1000000 / median % 2 ^ 32 else 0

-- The averages of `OnAck`, in uint64_t, and of `OnAckOfAck`, whose `tmp` is a uint32_t.
unfoldable pub smooth64 : ℕ → ℕ → ℕ
smooth64 old sample = if sample == 0 then old else (old * 7 % 2 ^ 64 + sample) % 2 ^ 64 / 8 % 2 ^ 32

unfoldable pub smooth32 : ℕ → ℕ → ℕ → ℕ
smooth32 weight old sample = (old * weight % 2 ^ 32 + sample) % 2 ^ 32 / (weight + 1)

module _ (ops : TimeOps) where
  open ops use {Time, Duration, not_a_date_time, since, later, milliseconds, microseconds, plus}
  open ops use {longer, total_milliseconds, total_microseconds}

  abbrev pub Control : Type 0
  Control = Congestion Time Duration

  unfoldable pub new_congestion : Control
  new_congestion = record {
    round_trip_time = 0;
    round_trip_time_variance = 0;
    packets_receiving_rate = 0;
    estimated_link_capacity = 0;
    send_window_size = default_window_size;
    receive_window_size = default_window_size;
    send_data_size = default_data_size;
    send_delay = milliseconds 1000;
    send_timeout = milliseconds 1000;
    receive_delay = milliseconds 100;
    receive_timeout = milliseconds 200;
    ack_delay = milliseconds 10;
    ack_timeout = milliseconds 1000;
    lost_packets = 0;
    corrupted_packets = 0;
    arrival_times = [];
    packet_pair_intervals = [];
    peer_connection_type = 0;
    allowed_lost = 0;
    transmitted_bits = 0;
    last_record_transmit_time = not_a_date_time;
    transmission_speed = 0;
  }

  -- `OnOpen` and `OnClose`
  unfoldable pub on_open : Control → Control
  on_open c = record c { transmitted_bits = 0 }

  unfoldable pub on_close : Control → Control
  on_close c = record c { transmitted_bits = 0 }

  abbrev pub last_time? : List Time → Option Time
  last_time? [] = none
  last_time? (t ∷ []) = some t
  last_time? (t ∷ u ∷ ts) = last_time? (u ∷ ts)

  unfoldable pub pair_intervals : Time → ℕ → Control → List Duration
  unfolding keep_last
  pair_intervals now seqnum c =
      let pushed = λ (t : Time).
        keep_last max_packet_pair_intervals (c.packet_pair_intervals ++ since now t ∷ []) in
      elim (last_time? c.arrival_times) [
        | none ↦ c.packet_pair_intervals
        | some t ↦ if seqnum % 16 == 1 then pushed t else c.packet_pair_intervals
      ]

  unfoldable pub on_data_packet_received : Time → ℕ → Control → Control
  unfolding keep_last pair_intervals
  on_data_packet_received now seqnum c = record c {
    packet_pair_intervals = pair_intervals now seqnum c;
    arrival_times = keep_last max_arrival_times (c.arrival_times ++ now ∷ []);
  }

  -- The intervals between the arrival times, in microseconds.
  abbrev pub arrival_intervals : List Time → List ℕ
  arrival_intervals [] = []
  arrival_intervals (t ∷ []) = []
  arrival_intervals (t ∷ u ∷ ts) = total_microseconds (since u t) ∷ arrival_intervals (u ∷ ts)

  -- `sort` stands for `std::sort`.
  unfoldable pub on_generate_ack : (List ℕ → List ℕ) → Control → Control
  unfolding receiving_rate link_capacity
  on_generate_ack sort c =
      let rate = receiving_rate (sort (arrival_intervals c.arrival_times)) in
      let capacity =
        link_capacity (sort (map (λ d. total_microseconds d) c.packet_pair_intervals)) in
      if leb (length c.arrival_times) 8 then c else record c {
        packets_receiving_rate = rate;
        estimated_link_capacity =
            (if length c.packet_pair_intervals == 0 then c.estimated_link_capacity else capacity);
        receive_window_size = maximum_window_size;
      }

  -- `4 * rtt + variance + kSynPeriod`
  unfoldable pub delay_of : ℕ → ℕ → Duration
  delay_of rtt variance =
      plus (plus (microseconds (4 * rtt)) (microseconds variance)) (milliseconds 10)

  module _ (d : DoubleOps) where
    open d use {nine_tenths, three_halves}

    unfoldable pub next_data_size : Control → ℕ
    next_data_size c =
        if ltb c.allowed_lost (c.corrupted_packets + c.lost_packets)
        then max default_data_size (nine_tenths c.send_data_size)
        else min max_data_size (three_halves c.send_data_size)

    unfoldable pub next_window_size : ℕ → ℕ → ℕ → ℕ
    next_window_size available data_size window =
        if ltb (8 * data_size) available
        then min (window + (available + 1) % 2 ^ 32 / max_data_size) maximum_window_size
        else max (nine_tenths window) default_window_size

    -- `OnAck` with the optional fields; without them it does nothing.
    unfoldable pub on_ack : (rtt variance available rate capacity : ℕ) → Control → Control
    unfolding delay_of smooth64 next_data_size next_window_size
    on_ack rtt variance available rate capacity c =
        let data_size = next_data_size c in
        record c {
          round_trip_time = rtt;
          round_trip_time_variance = variance;
          ack_delay = delay_of rtt variance;
          packets_receiving_rate = smooth64 c.packets_receiving_rate rate;
          estimated_link_capacity = smooth64 c.estimated_link_capacity capacity;
          send_data_size = data_size;
          corrupted_packets = 0;
          lost_packets = 0;
          send_window_size = next_window_size available data_size c.send_window_size;
        }

  unfoldable pub on_negative_ack : Control → Control
  on_negative_ack c = record c { corrupted_packets = c.corrupted_packets + 1 }

  unfoldable pub on_send_timeout : Control → Control
  on_send_timeout c = record c { lost_packets = c.lost_packets + 1 }

  unfoldable pub on_ack_of_ack : ℕ → Control → Control
  unfolding smooth32 delay_of
  on_ack_of_ack rtt c =
      let old = c.round_trip_time in
      let diff = if ltb rtt old then old - rtt else rtt - old in
      let new = smooth32 7 old rtt in
      let variance = smooth32 3 c.round_trip_time_variance diff in
      record c {
        round_trip_time = new;
        round_trip_time_variance = variance;
        ack_delay = delay_of new variance;
      }

  -- `local` is `RudpParameters::connection_type`.
  unfoldable pub set_peer_connection_type : ℕ → ℕ → Control → Control
  set_peer_connection_type local type c =
      let worst = min type local in
      record c {
        peer_connection_type = type;
        allowed_lost =
            (if leb worst wireless
              then 5
              else if leb worst e1
              then 2
              else if leb worst gigabit_ethernet
              then 1
              else c.allowed_lost);
      }

  -- `now` and `now'` are the two calls of `Now()`; `1000 * transmitted_bits_` is a product of
  -- uint32_t.
  unfoldable pub is_slow_transmission : Time → Time → ℕ → Control → Bool × Control
  is_slow_transmission now now' length c =
      let bits = (c.transmitted_bits + length * 8 % 2 ^ 32) % 2 ^ 32 in
      let duration = since now c.last_record_transmit_time in
      let speed = 1000 * bits % 2 ^ 32 / total_milliseconds duration % 2 ^ 32 in
      if c.transmitted_bits == 0
      then (false, record c { transmitted_bits = bits; last_record_transmit_time = now })
      else if longer duration (milliseconds 1000)
      then (
        ltb speed slow_speed_threshold,
        record c {
          transmission_speed = speed;
          transmitted_bits = 1;
          last_record_transmit_time = now';
        },
      )
      else (false, record c { transmitted_bits = bits })

  unfoldable pub best_read_buffer_size : Control → ℕ
  best_read_buffer_size c = c.receive_window_size * max_data_size % 2 ^ 32
