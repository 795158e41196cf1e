-- ===== src/Receiver.antt =====
-- src/maidsafe/transport/rudp_receiver.{h,cc}: the window of packets that are not read, and the
-- window of acknowledgements that are not answered. The state holds what the operations change: the
-- members of the receiver, the congestion control, the time of the next tick, and the packets that
-- were handed to `peer_.Send`, in order. Each call of `Now()` is an argument.
pub mod Reading
pub mod Arriving
pub mod Acking
use maid_safe_transport.Base.{
  ℕ, zero, suc, ◌+◌, ◌-◌, ◌*◌, ◌%◌, ◌^◌, ◌≤◌, ◌<◌, Bool, true, false, not,
}
use maid_safe_transport.Base.{
  ◌&&◌, ◌||◌, Option, none, some, List, [], ◌∷◌, ◌++◌, length, take, drop,
}
use maid_safe_transport.Base.{min, ltb, leb, ◌==◌, if◌then◌else◌}
use maid_safe_transport.Time.{TimeOps, expired, tick_after}
use maid_safe_transport.Window.{
  Window, reset, next, contains, is_coming_soon, set_maximum_size, size,
}
use maid_safe_transport.Window.{is_empty, is_full, append, remove, item, set_item, back}
use maid_safe_transport.Window.Walk.{seek}
use maid_safe_transport.Packet.Data.{DataPacket, data_packet}
use maid_safe_transport.Packet.Control.{
  ControlPacket, ack_sequence_number, set_destination_socket_id,
}
use maid_safe_transport.Packet.Ack.{AckPacket, ack_packet}
use maid_safe_transport.Packet.Ack
use maid_safe_transport.Packet.NegativeAck.{
  NegativeAckPacket, negative_ack_packet, add_sequence_number,
}
use maid_safe_transport.Packet.NegativeAck.{add_sequence_numbers, has_sequence_numbers}
use maid_safe_transport.Congestion.{Congestion, Control, on_data_packet_received, on_ack_of_ack}
use maid_safe_transport.Congestion.{on_generate_ack, max_data_size}

-- src/maidsafe/transport/rudp_parameters.cc, in milliseconds
abbrev pub ack_interval : ℕ
ack_interval = 100

pub data Sent : Type 0 where
  ack_sent : AckPacket → Sent
  negative_ack_sent : NegativeAckPacket → Sent

pub record UnreadPacket (Time : Type 0) : Type 0 where
  pub packet : DataPacket
  pub lost : Bool
  pub bytes_read : ℕ
  pub reserve_time : Time

pub record AckEntry (Time : Type 0) : Type 0 where
  pub packet : AckPacket
  pub send_time : Time

pub record Receiver (Time Duration : Type 0) : Type 0 where
  pub unread_packets : Window (UnreadPacket Time)
  pub acks : Window (AckEntry Time)
  pub last_ack_packet_sequence_number : ℕ
  pub ack_sent_time : Time
  pub congestion : Congestion Time Duration
  pub expires_at : Time
  pub sent : List Sent

module _ (ops : TimeOps) where
  open ops use {Time, Duration, later, since, before, up_to, milliseconds, total_microseconds}

  abbrev pub State : Type 0
  State = Receiver Time Duration

  abbrev pub Unread : Type 0
  Unread = UnreadPacket Time

  abbrev pub Acked : Type 0
  Acked = AckEntry Time

  unfoldable pub new_unread : Time → Unread
  new_unread now = record { packet = data_packet; lost = true; bytes_read = 0; reserve_time = now }

  unfoldable pub missing : Time → Duration → Unread → Bool
  missing now time_out u = u.lost && before (later u.reserve_time time_out) now

  unfoldable pub reset_receiver : ℕ → State → State
  unfolding reset
  reset_receiver n s = record s { unread_packets = reset n; last_ack_packet_sequence_number = n }

  abbrev pub not_received : Option Unread → Bool
  not_received none = true
  not_received (some u) = u.lost

  unfoldable pub ack_packet_sequence_number : Window Unread → ℕ
  unfolding seek
  ack_packet_sequence_number w = seek (size w) w.end (λ n. not_received (item w n)) w.begin

  unfoldable pub available_buffer_size : Window Unread → ℕ
  unfolding is_full
  available_buffer_size w =
      let free_packets = if is_full w then 0 else w.maximum_size - size w in
      free_packets * max_data_size % 2 ^ 32

  unfoldable pub flushed : State → Bool
  unfolding is_empty ack_packet_sequence_number
  flushed s =
      is_empty s.acks
      && ack_packet_sequence_number s.unread_packets == s.last_ack_packet_sequence_number

  -- What a round of the loop of `ReadData` copies from a packet that is not lost, and the window
  -- behind it.
  unfoldable pub copied : ℕ → ℕ → Window Unread → Unread → List ℕ × Window Unread
  unfolding set_item remove
  copied room n w u =
      let count = min room (length u.packet.payload - u.bytes_read) in
      let w' = set_item n (record u { bytes_read = u.bytes_read + count }) w in
      if ltb u.bytes_read (length u.packet.payload)
      then (
        take count (drop u.bytes_read u.packet.payload),
        if length u.packet.payload == u.bytes_read + count then remove w' else w',
      )
      else ([], remove w)

  -- One round, at a number of the window; none where the loop breaks.
  unfoldable pub read_packet : ℕ → ℕ → Window Unread → Unread → Option (List ℕ × Window Unread)
  unfolding copied
  read_packet room n w u = if u.lost then none else some (copied room n w u)

  unfoldable pub read_round : ℕ → ℕ → Window Unread → Option (List ℕ × Window Unread)
  unfolding read_packet
  read_round room n w = elim (item w n) [
    | none ↦ none
    | some u ↦ if n == w.end || room == 0 then none else read_packet room n w u
  ]

  -- `room` is what is left of the buffer.
  unfoldable pub read_loop : ℕ → ℕ → ℕ → Window Unread → List ℕ × Window Unread
  read_loop zero n room w = ([], w)
  read_loop (suc fuel) n room w = elim (read_round room n w) [
    | none ↦ ([], w)
    | some (bytes, w') ↦
        let (more, w'') = read_loop fuel (next n) (room - length bytes) w' in (bytes ++ more, w'')
  ]

  -- The bytes that are copied into a buffer of some size. A round for each packet is enough.
  unfoldable pub read_data : ℕ → State → List ℕ × State
  read_data room s =
      let w = s.unread_packets in
      let (bytes, w') = read_loop (size w) w.begin room w in
      (bytes, record s { unread_packets = w' })

  -- The loop that makes room up to a sequence number; `now_at n` is the time at which the entry
  -- of number `n` is made. A round for each free place is enough.
  unfoldable pub reserve_loop : (ℕ → Time) → ℕ → ℕ → Window Unread → Window Unread
  reserve_loop now_at zero seqnum w = w
  reserve_loop now_at (suc fuel) seqnum w =
      let more = reserve_loop now_at fuel seqnum (append (new_unread (now_at w.end)) w).1 in
      if is_coming_soon w seqnum && not (is_full w) then more else w

  unfoldable pub reserve : (ℕ → Time) → ℕ → ℕ → Window Unread → Window Unread
  reserve now_at limit seqnum w =
      let w' = set_maximum_size limit w in reserve_loop now_at w'.maximum_size seqnum w'

  abbrev pub received : DataPacket → Unread → Unread
  received p u = record u { packet = p; lost = false; bytes_read = 0 }

  -- What `HandleData` does with the entry of the packet's number.
  unfoldable pub store_packet : Time → DataPacket → State → State
  unfolding contains on_data_packet_received
  store_packet now p s =
      let n = p.packet_sequence_number in
      elim (item s.unread_packets n) [
        | none ↦ s
        | some u ↦
            if contains s.unread_packets n && u.lost
            then record s {
              congestion = on_data_packet_received ops now n s.congestion;
              unread_packets = set_item n (received p u) s.unread_packets;
            }
            else s
      ]

  -- `now'` and `now''` are the times of `Expired()` and `TickAfter()`.
  unfoldable pub handle_data : (ℕ → Time) → (now now' now'' : Time) → DataPacket → State → State
  unfolding expired tick_after
  handle_data now_at now now' now'' p s =
      let limit = s.congestion.receive_window_size in
      let s₁ = record s {
        unread_packets = reserve now_at limit p.packet_sequence_number s.unread_packets;
      } in
      let s₂ = store_packet now p s₁ in
      if expired ops now' s₂.expires_at
      then record s₂ { expires_at = tick_after ops now'' s₂.congestion.receive_delay s₂.expires_at }
      else s₂

  -- `while (acks_.Contains(ack_seqnum)) acks_.Remove();`
  unfoldable pub remove_while : ℕ → ℕ → Window Acked → Window Acked
  remove_while zero n w = w
  remove_while (suc fuel) n w =
      let more = remove_while fuel n (remove w) in if contains w n then more else w

  unfoldable pub handle_ack_of_ack : Time → ControlPacket → State → State
  unfolding ack_sequence_number on_ack_of_ack
  handle_ack_of_ack now p s =
      let n = ack_sequence_number p in
      let rtt = λ (a : Acked). total_microseconds (since now a.send_time) in
      let c : Control ops = elim (item s.acks n) [
        | none ↦ s.congestion
        | some a ↦
            if contains s.acks n && ltb (rtt a) 0xffffffff
            then on_ack_of_ack ops (rtt a) s.congestion
            else s.congestion
      ] in
      record s { congestion = c; acks = remove_while (size s.acks) n s.acks }

  -- The acknowledgement that `HandleTick` fills in, under its number.
  unfoldable pub filled_ack : ℕ → ℕ → ℕ → Control ops → Window Unread → AckPacket
  unfolding ack_packet Ack.set_ack_sequence_number set_destination_socket_id available_buffer_size
  filled_ack peer_id n ack_seqnum c w =
      let p =
        Ack.set_ack_sequence_number n
          (record ack_packet { base = set_destination_socket_id peer_id ack_packet.base }) in
      record p {
        packet_sequence_number = ack_seqnum;
        has_optional_fields = true;
        round_trip_time = c.round_trip_time;
        round_trip_time_variance = c.round_trip_time_variance;
        available_buffer_size = available_buffer_size w;
        packets_receiving_rate = c.packets_receiving_rate;
        estimated_link_capacity = c.estimated_link_capacity;
      }

  module _ (sort : List ℕ → List ℕ) (peer_id : ℕ) (now : Time) where
    -- The acknowledgement goes out, and into its window, from which the oldest may have to go. The
    -- entry is appended at the time `now'`, which the next line overwrites.
    unfoldable pub send_ack : ℕ → State → State
    unfolding filled_ack on_generate_ack set_item append remove is_full
    send_ack ack_seqnum s =
        let acks = if is_full s.acks then remove s.acks else s.acks in
        let c = on_generate_ack ops sort s.congestion in
        let n = acks.end in
        let p = filled_ack peer_id n ack_seqnum c s.unread_packets in
        let entry : Acked = record { packet = p; send_time = now } in
        record s {
          acks = set_item n entry (append entry acks).1;
          congestion = c;
          sent = s.sent ++ ack_sent p ∷ [];
          last_ack_packet_sequence_number = ack_seqnum;
        }

    abbrev pub unanswered : Option Acked → Duration → Bool
    unanswered none time_out = false
    unanswered (some a) time_out = up_to (later a.send_time time_out) now

    -- The first part of `HandleTick`. `Back()` is called on a window that is not const.
    unfoldable pub tick_ack : State → State
    unfolding send_ack ack_packet_sequence_number is_empty back
    tick_ack s =
        let s' = record s { ack_sent_time = later now (milliseconds ack_interval) } in
        let n = ack_packet_sequence_number s.unread_packets in
        if before s.ack_sent_time now
        then (if not (n == s.last_ack_packet_sequence_number)
              || (not (is_empty s.acks) && unanswered (back s.acks) s.congestion.ack_timeout)
            then send_ack n s'
            else s')
        else s

    -- What the loops of the second part work on: the window and the packet that they fill. The
    -- calls of `Missing` in the outer and in the inner loop read the clock each time.
    module _ (outer_now inner_now : ℕ → Time) (time_out : Duration) where
      abbrev pub is_missing : (ℕ → Time) → ℕ → Window Unread → Bool
      is_missing now_at n w = elim (item w n) [
        | none ↦ false
        | some u ↦ missing (now_at n) time_out u
      ]

      unfoldable pub touch : ℕ → Window Unread → Window Unread
      unfolding set_item
      touch n w = elim (item w n) [
        | none ↦ w
        | some u ↦ set_item n (record u { reserve_time = now }) w
      ]

      -- The do-while loop: the last number of the run, the next number, and the window.
      unfoldable pub missing_run : ℕ → ℕ → Window Unread → ℕ × ℕ × Window Unread
      unfolding touch missing
      missing_run zero n w = (n, n, w)
      missing_run (suc fuel) n w =
          let w' = touch n w in
          let more = missing_run fuel (next n) w' in
          if not (next n == w.end) && is_missing inner_now (next n) w'
          then more
          else (n, next n, w')

      unfoldable pub negative_round :
          ℕ → ℕ → Window Unread → NegativeAckPacket → ℕ × Window Unread × NegativeAckPacket
      unfolding missing_run add_sequence_number add_sequence_numbers
      negative_round fuel n w p =
          let (end, n', w') = missing_run fuel n w in
          if is_missing outer_now n w
          then (n', w', if n == end then add_sequence_number n p else add_sequence_numbers n end p)
          else (next n, w, p)

      unfoldable pub negative_loop :
          ℕ → ℕ → Window Unread → NegativeAckPacket → Window Unread × NegativeAckPacket
      unfolding negative_round
      negative_loop zero n w p = (w, p)
      negative_loop (suc fuel) n w p =
          let (n', w', p') = negative_round (suc fuel) n w p in
          let more = negative_loop fuel n' w' p' in if n == w.end then (w, p) else more

      unfoldable pub tick_negative : State → State
      unfolding negative_ack_packet set_destination_socket_id has_sequence_numbers
      tick_negative s =
          let w = s.unread_packets in
          let p₀ = record negative_ack_packet {
            base = set_destination_socket_id peer_id negative_ack_packet.base;
          } in
          let (w', p) = negative_loop (size w) w.begin w p₀ in
          let s' = record s { unread_packets = w' } in
          if has_sequence_numbers p
          then record s' { sent = s.sent ++ negative_ack_sent p ∷ [] }
          else s'

  -- `now'` is the time of `TickAfter()`.
  unfoldable pub handle_tick :
      (List ℕ → List ℕ)
      → ℕ
      → (now : Time) → (outer_now inner_now : ℕ → Time) → (now' : Time) → State
      → State
  unfolding tick_ack tick_negative tick_after is_empty
  handle_tick sort peer_id now outer_now inner_now now' s =
      let s₁ = tick_ack sort peer_id now s in
      let s₂ =
        tick_negative sort peer_id now outer_now inner_now s₁.congestion.receive_timeout s₁ in
      if is_empty s₂.unread_packets
      then s₂
      else record s₂ { expires_at = tick_after ops now' s₂.congestion.receive_delay s₂.expires_at }
