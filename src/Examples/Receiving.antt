-- ===== src/Examples/Receiving.antt =====
-- A receiver of src/maidsafe/transport/rudp_receiver.cc that waits for the packet of number 0.
use maid_safe_transport.Base.{suc, ◌^◌, ◌<◌, ◌≡◌, true, false, not, ◌&&◌, ◌||◌}
use maid_safe_transport.Base.{some, arith, refl, take, drop, ltb, if◌then◌else◌}
use maid_safe_transport.Packet.Control.{ack_sequence_number}
use maid_safe_transport.Window.{contains, item, set_maximum_size, sequence_number_to_index}
use maid_safe_transport.Window.Circle.{ahead, offset}
use maid_safe_transport.Window.Index.{IsValid}
use maid_safe_transport.Receiver.{read_data, handle_data, handle_ack_of_ack, Unread, not_received}
use maid_safe_transport.Receiver.{ack_packet_sequence_number}
use maid_safe_transport.Receiver.Reading.{read_data_lem, readable}
use maid_safe_transport.Receiver.Arriving.{handle_data_keeps, handle_data_stores}
use maid_safe_transport.Receiver.Acking.{ack_packet_sequence_number_lem}
use maid_safe_transport.Receiver.Acking.{handle_ack_of_ack_lem, leading}
use maid_safe_transport.Examples.Fixtures.{time_ops, receiver, unread, packet, header}

receiver_IsValid : IsValid receiver.unread_packets
receiver_IsValid = omega arith

acks_IsValid : IsValid receiver.acks
acks_IsValid = omega arith

read_data_lem_example :
    let (bytes, s') = read_data time_ops 1 receiver in
    (bytes ≡ take 1 (readable time_ops receiver.unread_packets.items))
    × (readable time_ops s'.unread_packets.items
        ≡ drop 1 (readable time_ops receiver.unread_packets.items))
    × IsValid s'.unread_packets
read_data_lem_example = read_data_lem time_ops 1 receiver receiver_IsValid

contains_largest : contains receiver.unread_packets 0x7fffffff ≡ true
unfolding contains
contains_largest = refl

item_largest : item receiver.unread_packets 0x7fffffff ≡ some unread
unfolding item sequence_number_to_index
item_largest = refl

handle_data_keeps_example :
    let w' = (handle_data time_ops (λ n. n) 1 2 3 packet receiver).unread_packets in
    IsValid w' × (contains w' 0x7fffffff ≡ true) × (item w' 0x7fffffff ≡ some unread)
handle_data_keeps_example =
    handle_data_keeps time_ops (λ n. n) 1 2 3 packet receiver receiver_IsValid (omega arith)
      0x7fffffff unread (omega arith) contains_largest item_largest refl

zero_has_place :
    (contains receiver.unread_packets 0
      || ltb
          (offset 0x7fffffff 0)
          (set_maximum_size receiver.congestion.receive_window_size
            receiver.unread_packets).maximum_size)
    ≡ true
unfolding contains
zero_has_place = refl

zero_is_new :
    (contains receiver.unread_packets 0
      && not (not_received time_ops (item receiver.unread_packets 0)))
    ≡ false
unfolding contains item sequence_number_to_index
zero_is_new = refl

handle_data_stores_example :
    let p = record packet { packet_sequence_number = 0 } in
    let w' = (handle_data time_ops (λ n. n) 1 2 3 p receiver).unread_packets in
    IsValid w'
    × (contains w' 0 ≡ true)
    × ((u : Unread time_ops) × (item w' 0 ≡ some u)
        × (u.packet ≡ p)
        × (u.lost ≡ false)
        × (u.bytes_read ≡ 0))
handle_data_stores_example =
    handle_data_stores time_ops (λ n. n) 1 2 3 (record packet { packet_sequence_number = 0 })
      receiver receiver_IsValid (omega arith) zero_has_place zero_is_new

ack_packet_sequence_number_lem_example :
    ack_packet_sequence_number time_ops receiver.unread_packets
    ≡ ahead 0x7fffffff (leading time_ops receiver.unread_packets.items)
ack_packet_sequence_number_lem_example =
    ack_packet_sequence_number_lem time_ops receiver.unread_packets receiver_IsValid

five_fits : ack_sequence_number (header 6) < 2 ^ 32
unfolding ack_sequence_number
five_fits = omega arith

handle_ack_of_ack_lem_example :
    let n = ack_sequence_number (header 6) in
    let acks = (handle_ack_of_ack time_ops 40 (header 6) receiver).acks in
    (acks.items
      ≡ drop (if contains receiver.acks n then suc (offset 5 n) else 0) receiver.acks.items)
    × IsValid acks
    × (contains acks n ≡ false)
handle_ack_of_ack_lem_example =
    handle_ack_of_ack_lem time_ops 40 (header 6) receiver acks_IsValid five_fits
