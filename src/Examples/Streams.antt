-- ===== src/Examples/Streams.antt =====
-- A connection of src/maidsafe/transport/rudp_sender.cc and rudp_receiver.cc whose second packet
-- arrives before its first, and is read in part.
use maid_safe_transport.Base.{ℕ, ◌≡◌, refl, arith, true, List, [], ◌∷◌, ◌++◌}
use maid_safe_transport.Packet.Data.{DataPacket}
use maid_safe_transport.Sender.{data_sent, filled, add_data, do_send, add_loop, resized, add_packet}
use maid_safe_transport.Receiver.{
  handle_data, read_data, read_loop, store_packet, reserve, reserve_loop, new_unread, read_round,
}
use maid_safe_transport.Congestion.{new_congestion}
use maid_safe_transport.Window
use maid_safe_transport.Window.{
  is_full, reset, sequence_number_to_index, set_maximum_size, is_coming_soon, append, set_item,
}
use maid_safe_transport.Stream.Network.{
  System, Reach, written, read, at_receiver, here, after, wrote, arrived, was_read,
}
use maid_safe_transport.Stream.Delivery.{delivered-accepted}
use maid_safe_transport.Examples.Fixtures.{time_ops, opened}

abbrev both_written : System time_ops
both_written =
    written time_ops 20 (λ n. true) 9 (3 ∷ 4 ∷ [])
      (written time_ops 10 (λ n. true) 9 (1 ∷ 2 ∷ []) opened)

abbrev first_packet : DataPacket
first_packet = (filled time_ops 9 0x7fffffff (1 ∷ 2 ∷ [])).packet

abbrev second_packet : DataPacket
second_packet = (filled time_ops 9 0 (3 ∷ 4 ∷ [])).packet

both_sent : both_written.sender.sent ≡ data_sent first_packet ∷ data_sent second_packet ∷ []
unfolding filled written add_data do_send add_loop resized new_congestion is_full reset add_packet
    sequence_number_to_index Window.item
both_sent = refl

abbrev arrives : DataPacket → System time_ops → System time_ops
arrives p s = at_receiver time_ops s (handle_data time_ops (λ n. 30) 30 30 30 p s.receiver)

abbrev read_three : System time_ops
read_three = read time_ops 3 (arrives first_packet (arrives second_packet both_written))

read_three_Reach : Reach time_ops opened read_three
read_three_Reach =
    after
      (after
        (after
          (after (after here (wrote 10 (λ n. true) 9 (1 ∷ 2 ∷ []) _))
            (wrote 20 (λ n. true) 9 (3 ∷ 4 ∷ []) _))
          (arrived (λ n. 30) 30 30 30 (data_sent first_packet ∷ []) [] second_packet _ both_sent))
        (arrived (λ n. 30) 30 30 30 [] (data_sent second_packet ∷ []) first_packet _ both_sent))
      (was_read 3 _)

read_three_bytes : read_three.delivered ≡ 1 ∷ 2 ∷ 3 ∷ []
unfolding read written handle_data filled read_data read_loop store_packet Window.item reserve
    reserve_loop set_maximum_size new_congestion is_coming_soon reset is_full append
    sequence_number_to_index new_unread set_item read_round
read_three_bytes = refl

read_three_numbered : read_three.numbered ≡ 2
unfolding read written add_data do_send add_loop resized new_congestion is_full reset add_packet
    sequence_number_to_index Window.item
read_three_numbered = refl

delivered-accepted_example : (rest : List ℕ) × (read_three.delivered ++ rest ≡ read_three.accepted)
delivered-accepted_example =
    delivered-accepted time_ops 0x7fffffff opened read_three (omega arith)
      (record {
        unacked = refl;
        unread = refl;
        none_sent = refl;
        none_accepted = refl;
        none_delivered = refl;
        none_numbered = refl;
      })
      (omega (arith, read_three_numbered)) read_three_Reach
