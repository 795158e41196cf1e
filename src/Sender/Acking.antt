-- ===== src/Sender/Acking.antt =====
-- Acknowledgements, positive and negative.
use maid_safe_transport.Base.{
  ℕ, zero, suc, ◌^◌, ◌≤◌, ◌<◌, ◌≡◌, ◌∙◌, refl, sym, ap, ap₂, subst, arith, Bool, true, false,
}
use maid_safe_transport.Base.{◌||◌, some, List, [], ◌∷◌, ◌++◌, inl, inr, drop, drop-tail}
use maid_safe_transport.Base.{Bool-cases, Option-cases, ◌==◌, if◌then◌else◌, set_self}
use maid_safe_transport.Base.{eq→==, ne→==_false}
use maid_safe_transport.Time.{TimeOps}
use maid_safe_transport.Window.{Window, size, item, set_item, contains, remove, is_empty}
use maid_safe_transport.Window.Circle.{ahead, offset}
use maid_safe_transport.Window.Index.{IsValid, contains-offset, remove-IsValid, length-tail}
use maid_safe_transport.Window.Walk.{
  walk-part, walk-keeps, update_at, update_all, map_numbered, ahead-ne, next-ahead_one,
  update_all-map_numbered, same_length, length-map_numbered,
}
use maid_safe_transport.Packet.Ack.{AckPacket}
use maid_safe_transport.Packet.NegativeAck.{NegativeAckPacket, contains_sequence_number}
use maid_safe_transport.Congestion.{DoubleOps}
use maid_safe_transport.Sender.{Sent, ack_of_ack_sent, State, Unacked, set_lost}
use maid_safe_transport.Sender.{remove_until, acknowledged, ack_of_ack_for, handle_ack}
use maid_safe_transport.Sender.{negative_ack_at, mark_negative, handle_negative_ack}
use maid_safe_transport.Sender.Sending.{after_send, attempts, do_send_lem}

module _ (ops : TimeOps) where
  open ops use {Time}

  size-remove : (w : Window (Unacked ops)) (k : ℕ) → suc k ≤ size w → k ≤ size (remove w)
  unfolding remove
  size-remove w k h = omega (arith, length-tail w.items)

  -- The loop that removes packets up to a number of the window, or to its end.
  remove_until_lem :
      (k fuel : ℕ) (w : Window (Unacked ops))
      → IsValid w
      → k ≤ size w
      → k ≤ fuel
      → let w' = remove_until ops fuel (ahead w.begin k) w in
        (w'.begin ≡ ahead w.begin k) × (w'.items ≡ drop k w.items) × IsValid w'
  unfolding remove_until remove
  remove_until_lem zero zero w v h hf = (omega (arith, v.begin_fits), refl, v)
  remove_until_lem zero (suc fuel) w v h hf =
      rw (eq→== w.begin (ahead w.begin 0) (omega (arith, v.begin_fits)))
        (omega (arith, v.begin_fits), refl, v)
  remove_until_lem (suc k) zero w v h hf = absurd (omega arith)
  remove_until_lem (suc k) (suc fuel) w v h hf =
      let nonempty : is_empty w ≡ false = unfold is_empty in ne→==_false (size w) 0 (omega arith) in
      let v' = remove-IsValid w v nonempty in
      let ih = remove_until_lem k fuel (remove w) v' (size-remove w k h) (omega arith) in
      rw
        (ne→==_false w.begin (ahead w.begin (suc k))
          (ahead-ne w.begin k v.begin_fits (omega (arith, v.size_fits))))
        (rw (next-ahead_one w.begin k v.begin_fits, drop-tail k w.items) at ih)

  set_item_self :
      (w : Window (Unacked ops)) (n : ℕ) (u : Unacked ops) → item w n ≡ some u → set_item n u w ≡ w
  unfolding item set_item
  set_item_self w n u h = ap (λ xs. record w { items = xs }) (set_self w.items _ u h)

  -- What `HandleNegativeAck` makes of a packet.
  abbrev pub negative_mark : NegativeAckPacket → ℕ → Unacked ops → Unacked ops
  negative_mark p n u = if contains_sequence_number p n then set_lost ops u else u

  negative_ack_at-update_at :
      (p : NegativeAckPacket) (n : ℕ) (s : State ops)
      → (negative_ack_at ops p n s).unacked_packets
        ≡ update_at (negative_mark p) n s.unacked_packets
  unfolding negative_ack_at update_at
  negative_ack_at-update_at p n s = elim (Option-cases (item s.unacked_packets n)) [
    | inl e ↦ rw (e, negative_ack_at, update_at)
    | inr (u, e) ↦ elim (Bool-cases (contains_sequence_number p n)) [
      | inl c ↦ rw (e, c, negative_ack_at, update_at)
      | inr c ↦ rw (e, c, negative_ack_at, update_at) (sym (set_item_self s.unacked_packets n u e))
    ]
  ]

  negative_ack_at-sent :
      (p : NegativeAckPacket) (n : ℕ) (s : State ops) → (negative_ack_at ops p n s).sent ≡ s.sent
  unfolding negative_ack_at
  negative_ack_at-sent p n s = elim (Option-cases (item s.unacked_packets n)) [
    | inl e ↦ rw (e, negative_ack_at)
    | inr (u, e) ↦ elim (Bool-cases (contains_sequence_number p n)) [
      | inl c ↦ rw (e, c, negative_ack_at)
      | inr c ↦ rw (e, c, negative_ack_at)
    ]
  ]

  -- An acknowledgement of a number that the window does not contain and that is not its end leaves
  -- the window alone; the answer, with the number of the acknowledgement, goes out all the same.
  pub handle_ack_outside :
      (d : DoubleOps) (now : Time) (succeeds : ℕ → Bool) (peer_id : ℕ) (p : AckPacket)
      (s : State ops)
      → (contains s.unacked_packets p.packet_sequence_number
          || s.unacked_packets.end == p.packet_sequence_number)
        ≡ false
      → let s' = handle_ack ops d now succeeds peer_id p s in
        (s'.unacked_packets ≡ s.unacked_packets)
        × (s'.sent ≡ s.sent ++ ack_of_ack_sent (ack_of_ack_for ops peer_id p) ∷ [])
  unfolding handle_ack
  handle_ack_outside d now succeeds peer_id p s h = rw h (refl, refl)

  pub acknowledged-begin :
      (w : Window (Unacked ops)) (seqnum : ℕ)
      → IsValid w
      → seqnum < 2 ^ 32
      → (contains w seqnum || w.end == seqnum) ≡ true
      → let w' = acknowledged ops seqnum w in
        (w'.begin ≡ seqnum) × (w'.items ≡ drop (offset w.begin seqnum) w.items) × IsValid w'
  unfolding acknowledged
  acknowledged-begin w seqnum v fits h =
      let (k, e) = place in rw e at (remove_until_lem (offset w.begin seqnum) (size w) w v k k)
    where
      place : (offset w.begin seqnum ≤ size w) × (ahead w.begin (offset w.begin seqnum) ≡ seqnum)
      place = ground (arith, v, contains-offset w seqnum v fits)

  -- An acknowledgement of a number of a valid window, or of its end, removes the packets before that
  -- number and keeps the others in their order; `DoSend` runs on those. The answer, with the number
  -- of the acknowledgement, goes out before.
  pub handle_ack_inside :
      (d : DoubleOps) (now : Time) (succeeds : ℕ → Bool) (peer_id : ℕ) (p : AckPacket)
      (s : State ops)
      → IsValid s.unacked_packets
      → p.packet_sequence_number < 2 ^ 32
      → (contains s.unacked_packets p.packet_sequence_number
          || s.unacked_packets.end == p.packet_sequence_number)
        ≡ true
      → let n = p.packet_sequence_number in
        let left = drop (offset s.unacked_packets.begin n) s.unacked_packets.items in
        let s' = handle_ack ops d now succeeds peer_id p s in
        (s'.unacked_packets.begin ≡ n)
        × (s'.unacked_packets.items ≡ after_send ops now succeeds n left)
        × (s'.sent
            ≡ (s.sent ++ ack_of_ack_sent (ack_of_ack_for ops peer_id p) ∷ [])
              ++ attempts ops now succeeds n left)
  unfolding handle_ack
  handle_ack_inside d now succeeds peer_id p s v fits h =
      let n = p.packet_sequence_number in
      let (a, b, c) = acknowledged-begin s.unacked_packets n v fits h in
      rw h (
        let (x, y) = do_send_lem ops now succeeds _ c in
        (
          ap (λ w. w.begin) x ∙ a,
          ap (λ w. w.items) x ∙ ap₂ (after_send ops now succeeds) a b,
          y
              ∙ ap₂
                  (λ m xs.
                    (s.sent ++ ack_of_ack_sent (ack_of_ack_for ops peer_id p) ∷ [])
                    ++ attempts ops now succeeds m xs)
                  a b,
        ))

  mark_negative-map :
      (p : NegativeAckPacket) (s : State ops)
      → IsValid s.unacked_packets
      → let w = s.unacked_packets in
        ((mark_negative ops p s).unacked_packets
          ≡ record w { items = map_numbered (negative_mark p) w.begin w.items })
        × ((mark_negative ops p s).sent ≡ s.sent)
  unfolding mark_negative update_all
  mark_negative-map p s v =
      let w = s.unacked_packets in
      (
        walk-part (λ (t : State ops). t.unacked_packets) (negative_ack_at ops p)
              (update_at (negative_mark p)) (negative_ack_at-update_at p) (size w) w.end w.begin s
            ∙ update_all-map_numbered (negative_mark p) w v,
        walk-keeps (λ (t : State ops). t.sent) (negative_ack_at ops p) (negative_ack_at-sent p)
            (size w) w.end w.begin s,
      )

  mark_negative-IsValid :
      (p : NegativeAckPacket) (s : State ops)
      → IsValid s.unacked_packets
      → IsValid (mark_negative ops p s).unacked_packets
  mark_negative-IsValid p s v =
      let w = s.unacked_packets in
      subst IsValid (sym (mark_negative-map p s v).0) (
        same_length w w.items (map_numbered (negative_mark p) w.begin w.items)
          (length-map_numbered (negative_mark p) w.begin w.items) v)

  -- A negative acknowledgement marks as lost exactly the packets of a valid window whose numbers it
  -- contains, and `DoSend` runs on the window so marked.
  pub handle_negative_ack_lem :
      (now : Time) (succeeds : ℕ → Bool) (p : NegativeAckPacket) (s : State ops)
      → IsValid s.unacked_packets
      → let w = s.unacked_packets in
        let marked = map_numbered (negative_mark p) w.begin w.items in
        let s' = handle_negative_ack ops now succeeds p s in
        (s'.unacked_packets ≡ record w { items = after_send ops now succeeds w.begin marked })
        × (s'.sent ≡ s.sent ++ attempts ops now succeeds w.begin marked)
  unfolding handle_negative_ack
  handle_negative_ack_lem now succeeds p s v =
      let w = s.unacked_packets in
      let (a, b) = mark_negative-map p s v in
      let (x, y) =
        do_send_lem ops now succeeds (mark_negative ops p s) (mark_negative-IsValid p s v) in
      (
        x
            ∙ ap
                (λ (w' : Window (Unacked ops)). record w' {
                  items = after_send ops now succeeds w'.begin w'.items;
                })
                a,
        y
            ∙ ap₂
                (λ (xs : List Sent) (w' : Window (Unacked ops)).
                  xs ++ attempts ops now succeeds w'.begin w'.items)
                b a,
      )
