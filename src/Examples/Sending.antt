-- ===== src/Examples/Sending.antt =====
-- A sender of src/maidsafe/transport/rudp_sender.cc whose window passes the largest number.
use maid_safe_transport.Base.{◌-◌, ◌≡◌, true, ◌||◌, ◌==◌, [], ◌∷◌, ◌++◌}
use maid_safe_transport.Base.{arith, refl, drop, length}
use maid_safe_transport.Window.{contains, size}
use maid_safe_transport.Window.Circle.{offset}
use maid_safe_transport.Window.Index.{IsValid}
use maid_safe_transport.Window.Walk.{map_numbered}
use maid_safe_transport.Sender.{do_send, handle_ack, handle_negative_ack, add_data, resized}
use maid_safe_transport.Sender.{ack_of_ack_sent, ack_of_ack_for}
use maid_safe_transport.Sender.Sending.{after_send, attempts, do_send_lem}
use maid_safe_transport.Sender.Acking.{handle_ack_inside, handle_negative_ack_lem}
use maid_safe_transport.Sender.Acking.{negative_mark}
use maid_safe_transport.Sender.Adding.{add_data_lem, cut, left, payloads}
use maid_safe_transport.Examples.Fixtures.{time_ops, double_ops, sender, ack, negative_ack}

sender_IsValid : IsValid sender.unacked_packets
sender_IsValid = omega arith

do_send_lem_example :
    let w = sender.unacked_packets in
    let s' = do_send time_ops 50 (λ n. true) sender in
    (s'.unacked_packets
      ≡ record w { items = after_send time_ops 50 (λ n. true) 0x7fffffff w.items })
    × (s'.sent ≡ [] ++ attempts time_ops 50 (λ n. true) 0x7fffffff w.items)
do_send_lem_example = do_send_lem time_ops 50 (λ n. true) sender sender_IsValid

acknowledges_zero : (contains sender.unacked_packets 0 || sender.unacked_packets.end == 0) ≡ true
unfolding contains
acknowledges_zero = refl

handle_ack_inside_example :
    let rest = drop (offset 0x7fffffff 0) sender.unacked_packets.items in
    let s' = handle_ack time_ops double_ops 50 (λ n. true) 4 ack sender in
    (s'.unacked_packets.begin ≡ 0)
    × (s'.unacked_packets.items ≡ after_send time_ops 50 (λ n. true) 0 rest)
    × (s'.sent
        ≡ ([] ++ ack_of_ack_sent (ack_of_ack_for time_ops 4 ack) ∷ [])
          ++ attempts time_ops 50 (λ n. true) 0 rest)
handle_ack_inside_example =
    handle_ack_inside time_ops double_ops 50 (λ n. true) 4 ack sender sender_IsValid (omega arith)
      acknowledges_zero

handle_negative_ack_lem_example :
    let w = sender.unacked_packets in
    let marked = map_numbered (negative_mark time_ops negative_ack) 0x7fffffff w.items in
    let s' = handle_negative_ack time_ops 50 (λ n. true) negative_ack sender in
    (s'.unacked_packets ≡ record w { items = after_send time_ops 50 (λ n. true) 0x7fffffff marked })
    × (s'.sent ≡ [] ++ attempts time_ops 50 (λ n. true) 0x7fffffff marked)
handle_negative_ack_lem_example =
    handle_negative_ack_lem time_ops 50 (λ n. true) negative_ack sender sender_IsValid

add_data_lem_example :
    let w = resized time_ops sender in
    let room = w.maximum_size - size w in
    let chunk = sender.congestion.send_data_size in
    let added = cut time_ops room 4 chunk w.end (1 ∷ 2 ∷ 3 ∷ []) in
    let rest = left time_ops room chunk (1 ∷ 2 ∷ 3 ∷ []) in
    let (taken, s') = add_data time_ops 50 (λ n. true) 4 (1 ∷ 2 ∷ 3 ∷ []) sender in
    ((w.items ≡ sender.unacked_packets.items) × (w.end ≡ sender.unacked_packets.end))
    × (s'.unacked_packets.items ≡ after_send time_ops 50 (λ n. true) 0x7fffffff (w.items ++ added))
    × (s'.unacked_packets.begin ≡ 0x7fffffff)
    × (payloads time_ops added ++ rest ≡ 1 ∷ 2 ∷ 3 ∷ [])
    × (taken ≡ length (payloads time_ops added))
    × (s'.sent ≡ [] ++ attempts time_ops 50 (λ n. true) 0x7fffffff (w.items ++ added))
add_data_lem_example = add_data_lem time_ops 50 (λ n. true) 4 (1 ∷ 2 ∷ 3 ∷ []) sender sender_IsValid
