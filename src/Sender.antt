-- ===== src/Sender.antt =====
-- src/maidsafe/transport/rudp_sender.{h,cc}: the window of packets that are not acknowledged. The
-- state holds what the operations change: the window and the time of the sender, the congestion
-- control, the time of the next tick, and the packets that were handed to `peer_.Send`, in order.
-- Whether `Send` of the data packet `n` answers kSuccess is an argument, and so is each `Now()`.
pub mod Sending
pub mod Adding
pub mod Acking
use maid_safe_transport.Base.{ℕ, zero, suc, ◌+◌, ◌-◌, ◌≤◌, ◌<◌, Bool, true, false, not, ◌&&◌, ◌||◌}
use maid_safe_transport.Base.{Option, none, some, List, [], ◌∷◌, ◌++◌, length, take, drop, min}
use maid_safe_transport.Base.{ltb, leb, ◌==◌, if◌then◌else◌}
use maid_safe_transport.Time.{TimeOps, tick_at}
use maid_safe_transport.Window
use maid_safe_transport.Window.{Window, next, contains, set_maximum_size, size, is_empty, is_full}
use maid_safe_transport.Window.{append, remove, item, set_item, front, default_window_size}
use maid_safe_transport.Window.Walk.{walk}
use maid_safe_transport.Packet.Data.{DataPacket, data_packet}
use maid_safe_transport.Packet.Ack.{AckPacket}
use maid_safe_transport.Packet.Ack
use maid_safe_transport.Packet.Control.{ControlPacket, ack_of_ack_packet, shutdown_packet}
use maid_safe_transport.Packet.Control.{set_destination_socket_id, set_ack_sequence_number}
use maid_safe_transport.Packet.NegativeAck.{NegativeAckPacket, contains_sequence_number}
use maid_safe_transport.Congestion.{Congestion, Control, DoubleOps, on_ack, on_negative_ack}
use maid_safe_transport.Congestion.{on_send_timeout}

pub data Sent : Type 0 where
  data_sent : DataPacket → Sent
  ack_of_ack_sent : ControlPacket → Sent
  shutdown_sent : ControlPacket → Sent

pub record UnackedPacket (Time : Type 0) : Type 0 where
  pub packet : DataPacket
  pub lost : Bool
  pub last_send_time : Time

pub record Sender (Time Duration : Type 0) : Type 0 where
  pub unacked_packets : Window (UnackedPacket Time)
  pub send_timeout : Time
  pub congestion : Congestion Time Duration
  pub expires_at : Time
  pub sent : List Sent

module _ (ops : TimeOps) where
  open ops use {Time, Duration, not_a_date_time, pos_infin, later, before, up_to}

  abbrev pub State : Type 0
  State = Sender Time Duration

  abbrev pub Unacked : Type 0
  Unacked = UnackedPacket Time

  unfoldable pub new_unacked : Unacked
  new_unacked = record { packet = data_packet; lost = false; last_send_time = not_a_date_time }

  unfoldable pub get_next_packet_sequence_number : State → ℕ
  get_next_packet_sequence_number s = s.unacked_packets.end

  unfoldable pub flushed : State → Bool
  flushed s = is_empty s.unacked_packets

  abbrev pub with_window : State → Window Unacked → State
  with_window s w = record s { unacked_packets = w }

  unfoldable pub send : Sent → State → State
  send p s = record s { sent = s.sent ++ p ∷ [] }

  abbrev pub is_lost : Option Unacked → Bool
  is_lost none = false
  is_lost (some p) = p.lost

  -- A call of `peer_.Send` with the packet under a number.
  unfoldable pub send_data : ℕ → State → State
  unfolding send
  send_data n s = elim (item s.unacked_packets n) [
    | none ↦ s
    | some p ↦ send (data_sent p.packet) s
  ]

  -- What follows a `Send` that succeeded.
  unfoldable pub mark_sent : Time → ℕ → State → State
  unfolding tick_at
  mark_sent now n s = elim (item s.unacked_packets n) [
    | none ↦ s
    | some p ↦ record s {
      unacked_packets =
          set_item n (record p { lost = false; last_send_time = now }) s.unacked_packets;
      expires_at = tick_at ops (later now s.congestion.send_delay) s.expires_at;
    }
  ]

  -- What follows the loop of `DoSend` when it ends by its test.
  unfoldable pub set_send_timeout : State → State
  unfolding front
  set_send_timeout s = elim (front s.unacked_packets) [
    | none ↦ s
    | some p ↦ record s { send_timeout = later p.last_send_time s.congestion.send_timeout }
  ]

  module _ (now : Time) (succeeds : ℕ → Bool) where
    unfoldable pub do_send_loop : ℕ → ℕ → State → State
    unfolding send_data mark_sent set_send_timeout next
    do_send_loop zero n s = set_send_timeout s
    do_send_loop (suc fuel) n s =
        let skipped = do_send_loop fuel (next n) s in
        let failed = do_send_loop fuel (next n) (send_data n s) in
        let succeeded = mark_sent now n (send_data n s) in
        if n == s.unacked_packets.end
        then set_send_timeout s
        else if is_lost (item s.unacked_packets n)
        then (if succeeds n then succeeded else failed)
        else skipped

    -- A round for each packet of the window is enough.
    unfoldable pub do_send : State → State
    unfolding do_send_loop
    do_send s = do_send_loop (size s.unacked_packets) s.unacked_packets.begin s

  -- The packet that `AddData` makes of some bytes.
  unfoldable pub filled : ℕ → ℕ → List ℕ → Unacked
  unfolding new_unacked
  filled peer_id n bytes = record new_unacked {
    packet = record data_packet {
      packet_sequence_number = n;
      first_packet_in_message = true;
      last_packet_in_message = true;
      in_order = true;
      destination_socket_id = peer_id;
      payload = bytes;
    };
    lost = true;
  }

  -- `Append`, and the writes through `operator[]`.
  unfoldable pub add_packet : ℕ → List ℕ → Window Unacked → Window Unacked
  unfolding filled append set_item
  add_packet peer_id bytes w =
      let (n, w') = append new_unacked w in set_item n (filled peer_id n bytes) w'

  abbrev pub is_nil : List ℕ → Bool
  is_nil [] = true
  is_nil (x ∷ xs) = false

  -- The loop of `AddData`, on the bytes that are left; the answer is the window and the rest.
  unfoldable pub add_loop : ℕ → ℕ → ℕ → List ℕ → Window Unacked → Window Unacked × List ℕ
  add_loop zero peer_id chunk bytes w = (w, bytes)
  add_loop (suc fuel) peer_id chunk bytes w =
      let more =
        add_loop fuel peer_id chunk (drop chunk bytes) (add_packet peer_id (take chunk bytes) w) in
      if is_full w || is_nil bytes then (w, bytes) else more

  unfoldable pub resized : State → Window Unacked
  unfolding set_maximum_size
  resized s =
      let w = s.unacked_packets in
      let limit = s.congestion.send_window_size in
      if limit == 0 && size w == 0
      then set_maximum_size default_window_size w
      else set_maximum_size limit w

  -- The number of bytes that were taken, and the state. A round for each free place is enough.
  unfoldable pub add_data : Time → (ℕ → Bool) → ℕ → List ℕ → State → ℕ × State
  add_data now succeeds peer_id bytes s =
      let w = resized s in
      let (w', rest) = add_loop w.maximum_size peer_id s.congestion.send_data_size bytes w in
      (length bytes - length rest, do_send now succeeds (with_window s w'))

  -- `while (Begin() != seqnum) Remove();`
  unfoldable pub remove_until : ℕ → ℕ → Window Unacked → Window Unacked
  unfolding remove
  remove_until zero seqnum w = w
  remove_until (suc fuel) seqnum w =
      let more = remove_until fuel seqnum (remove w) in if w.begin == seqnum then w else more

  unfoldable pub ack_of_ack_for : ℕ → AckPacket → ControlPacket
  unfolding ack_of_ack_packet set_destination_socket_id set_ack_sequence_number
      Ack.ack_sequence_number
  ack_of_ack_for peer_id p =
      set_ack_sequence_number (Ack.ack_sequence_number p)
        (set_destination_socket_id peer_id ack_of_ack_packet)

  unfoldable pub acknowledged : ℕ → Window Unacked → Window Unacked
  unfolding remove_until
  acknowledged seqnum w = remove_until (size w) seqnum w

  unfoldable pub handle_ack : DoubleOps → Time → (ℕ → Bool) → ℕ → AckPacket → State → State
  unfolding on_ack send
  handle_ack d now succeeds peer_id p s =
      let seqnum = p.packet_sequence_number in
      let c =
        if p.has_optional_fields
        then on_ack ops d p.round_trip_time p.round_trip_time_variance p.available_buffer_size
            p.packets_receiving_rate p.estimated_link_capacity s.congestion
        else s.congestion in
      let s' = send (ack_of_ack_sent (ack_of_ack_for peer_id p)) (record s { congestion = c }) in
      let w = s.unacked_packets in
      if contains w seqnum || w.end == seqnum
      then do_send now succeeds (with_window s' (acknowledged seqnum w))
      else s'

  abbrev pub set_lost : Unacked → Unacked
  set_lost p = record p { lost = true }

  -- One round of the loop of `HandleNegativeAck`.
  unfoldable pub negative_ack_at : NegativeAckPacket → ℕ → State → State
  unfolding contains_sequence_number on_negative_ack
  negative_ack_at p n s = elim (item s.unacked_packets n) [
    | none ↦ s
    | some u ↦
        if contains_sequence_number p n
        then record s {
          congestion = on_negative_ack ops s.congestion;
          unacked_packets = set_item n (set_lost u) s.unacked_packets;
        }
        else s
  ]

  unfoldable pub mark_negative : NegativeAckPacket → State → State
  unfolding walk negative_ack_at
  mark_negative p s = let w = s.unacked_packets in walk (size w) w.end (negative_ack_at p) w.begin s

  unfoldable pub handle_negative_ack : Time → (ℕ → Bool) → NegativeAckPacket → State → State
  handle_negative_ack now succeeds p s = do_send now succeeds (mark_negative p s)

  -- One round of the loop of `HandleTick`; `now_at n` is the time that `Now()` answers in it.
  unfoldable pub timeout_at : (ℕ → Time) → ℕ → State → State
  unfolding on_send_timeout
  timeout_at now_at n s = elim (item s.unacked_packets n) [
    | none ↦ s
    | some u ↦
        if before (later u.last_send_time s.congestion.send_timeout) (now_at n)
        then record s {
          congestion = on_send_timeout ops s.congestion;
          unacked_packets = set_item n (set_lost u) s.unacked_packets;
        }
        else s
  ]

  unfoldable pub mark_timeouts : (ℕ → Time) → State → State
  unfolding walk timeout_at
  mark_timeouts now_at s =
      let w = s.unacked_packets in
      walk (size w) w.end (timeout_at now_at) w.begin (record s { send_timeout = pos_infin })

  unfoldable pub handle_tick : Time → (ℕ → Time) → Time → (ℕ → Bool) → State → State
  handle_tick now now_at now' succeeds s =
      do_send now' succeeds (if up_to s.send_timeout now then mark_timeouts now_at s else s)

  unfoldable pub notify_close : ℕ → State → State
  unfolding send shutdown_packet set_destination_socket_id
  notify_close peer_id s =
      send (shutdown_sent (set_destination_socket_id peer_id shutdown_packet)) s
