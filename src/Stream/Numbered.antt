-- ===== src/Stream/Numbered.antt =====
-- What the sender of src/maidsafe/transport/rudp_sender.cc keeps of the packets that it made: each
-- has the number of its place in the stream, and the bytes of that place.
use maid_safe_transport.Base.{
  ℕ, zero, suc, ◌+◌, ◌^◌, ◌≤◌, ◌<◌, ◌≡◌, ◌∙◌, refl, sym, ap, subst, subst₂, arith, Bool, true,
  false,
}
use maid_safe_transport.Base.{
  some, List, [], ◌∷◌, ◌++◌, length, get_elem?, set, drop, All, inl, inr, length-drop, Bool-cases,
  Option-cases, if◌then◌else◌, ◌&&◌, ◌||◌, ◌==◌,
}
use maid_safe_transport.Base.Pieces.{All-append}
use mathlib.Core.Option.{some-injective}
use maid_safe_transport.Time.{TimeOps}
use maid_safe_transport.Packet.Data.{DataPacket}
use maid_safe_transport.Packet.Ack.{AckPacket}
use maid_safe_transport.Packet.NegativeAck.{NegativeAckPacket, contains_sequence_number}
use maid_safe_transport.Congestion.{DoubleOps}
use maid_safe_transport.Window.{
  Window, next, size, item, set_item, contains, sequence_number_to_index,
}
use maid_safe_transport.Window.Circle.{ahead, offset}
use maid_safe_transport.Window.Index.{IsValid, contains-offset}
use maid_safe_transport.Window.Walk.{walk-invariant, with_items, same_length}
use maid_safe_transport.Sender.{
  Sent, data_sent, ack_of_ack_sent, shutdown_sent, State, Unacked, do_send, handle_ack,
  handle_negative_ack, handle_tick, acknowledged, set_lost, timeout_at, negative_ack_at,
  mark_negative, mark_timeouts, send,
}
use maid_safe_transport.Sender.Sending.{after_send, attempts, do_send_lem}
use maid_safe_transport.Sender.Acking.{acknowledged-begin}

module _ (ops : TimeOps) where
  open ops use {Time, before, later, up_to, pos_infin}

  abbrev pub packets : List (Unacked ops) → List DataPacket
  packets [] = []
  packets (u ∷ us) = u.packet ∷ packets us

  module _ (start : ℕ) (chunks : List (List ℕ)) where
    -- The packet of place `k` of the stream.
    abbrev pub IsNumbered : ℕ → DataPacket → Type 0
    IsNumbered k p =
        (p.packet_sequence_number ≡ ahead start k) × (get_elem? chunks k ≡ some p.payload)

    -- The packets of the places from `k` on.
    abbrev pub InOrder : ℕ → List DataPacket → Type 0
    InOrder k [] = Unit
    InOrder k (p ∷ ps) = IsNumbered k p × InOrder (suc k) ps

    abbrev pub IsKnown : Sent → Type 0
    IsKnown (data_sent p) = (k : ℕ) × IsNumbered k p
    IsKnown (ack_of_ack_sent p) = Unit
    IsKnown (shutdown_sent p) = Unit

    -- The window holds the last packets of the stream, and all that was sent are packets of it.
    pub record Sends (w : Window (Unacked ops)) (sent : List Sent) : Type 0 where
      pub valid : IsValid w
      pub removed : ℕ
      pub begin_at : w.begin ≡ ahead start removed
      pub total : removed + size w ≡ length chunks
      pub in_order : InOrder removed (packets w.items)
      pub known : All IsKnown sent

    abbrev pub StateSends : State ops → Type 0
    StateSends s = Sends s.unacked_packets s.sent

    InOrder-drop :
        (n k : ℕ) (us : List (Unacked ops))
        → InOrder k (packets us)
        → InOrder (k + n) (packets (drop n us))
    InOrder-drop zero k [] h = tt
    InOrder-drop (suc n) k [] h = tt
    InOrder-drop zero k (u ∷ us) h =
        subst (λ j. InOrder j (packets (u ∷ us))) {x = k} (omega arith) h
    InOrder-drop (suc n) k (u ∷ us) (p, h) =
        subst (λ j. InOrder j (packets (drop n us))) {x = suc k + n} (omega arith)
          (InOrder-drop n (suc k) us h)

    pub packets-after_send :
        (now : Time) (succeeds : ℕ → Bool) (n : ℕ) (us : List (Unacked ops))
        → packets (after_send ops now succeeds n us) ≡ packets us
    packets-after_send now succeeds n [] = refl
    packets-after_send now succeeds n (u ∷ us) = elim (Bool-cases (u.lost && succeeds n)) [
      | inl e ↦ ap packets (
          ap
            (λ b.
              if b
              then record u { lost = false; last_send_time = now } ∷ us
              else u ∷ after_send ops now succeeds (next n) us)
            e)
      | inr e ↦
          ap packets (
            ap
              (λ b.
                if b
                then record u { lost = false; last_send_time = now } ∷ us
                else u ∷ after_send ops now succeeds (next n) us)
              e)
          ∙ ap (u.packet ∷◌) (packets-after_send now succeeds (next n) us)
    ]

    pub length-packets : (us : List (Unacked ops)) → length (packets us) ≡ length us
    length-packets [] = refl
    length-packets (u ∷ us) = ap suc (length-packets us)

    attempts-IsKnown :
        (now : Time) (succeeds : ℕ → Bool) (n k : ℕ) (us : List (Unacked ops))
        → InOrder k (packets us)
        → All IsKnown (attempts ops now succeeds n us)
    attempts-IsKnown now succeeds n k [] h = tt
    attempts-IsKnown now succeeds n k (u ∷ us) (p, h) =
        choose u.lost (succeeds n) (data_sent u.packet) _ (k, p)
          (attempts-IsKnown now succeeds (next n) (suc k) us h)
      where
        choose :
            (lost ok : Bool) (x : Sent) (xs : List Sent)
            → IsKnown x
            → All IsKnown xs
            → All IsKnown (if lost then x ∷ (if ok then [] else xs) else xs)
        choose true true x xs p h = (p, tt)
        choose true false x xs p h = (p, h)
        choose false ok x xs p h = h

    -- Another window over the same packets.
    repacked :
        (w : Window (Unacked ops)) (us : List (Unacked ops)) (sent : List Sent)
        → packets us ≡ packets w.items
        → Sends w sent
        → Sends (with_items w us) sent
    repacked w us sent same h =
        let len : length us ≡ size w =
          sym (length-packets us)
          ∙ ap (λ (ps : List DataPacket). length ps) same
          ∙ length-packets w.items in
        record {
          valid = same_length w w.items us len h.valid;
          removed = h.removed;
          begin_at = h.begin_at;
          total = omega (arith, len, h.total);
          in_order = subst (InOrder h.removed) (sym same) h.in_order;
          known = h.known;
        }

    logged :
        (w : Window (Unacked ops)) (sent more : List Sent)
        → Sends w sent
        → All IsKnown more
        → Sends w (sent ++ more)
    logged w sent more h k = record {
      valid = h.valid;
      removed = h.removed;
      begin_at = h.begin_at;
      total = h.total;
      in_order = h.in_order;
      known = All-append IsKnown sent more h.known k;
    }

    pub do_send-Sends :
        (now : Time) (succeeds : ℕ → Bool) (s : State ops)
        → StateSends s
        → StateSends (do_send ops now succeeds s)
    do_send-Sends now succeeds s h =
        let w = s.unacked_packets in
        let (e, f) = do_send_lem ops now succeeds s h.valid in
        subst₂ Sends (sym e) (sym f) (
          logged _ s.sent _
            (repacked w _ s.sent (packets-after_send now succeeds w.begin w.items) h)
            (attempts-IsKnown now succeeds w.begin h.removed w.items h.in_order))

    -- Taking away the first packets.
    dropped :
        (w w' : Window (Unacked ops)) (n : ℕ) (sent : List Sent)
        → Sends w sent
        → IsValid w'
        → n ≤ size w
        → w'.begin ≡ ahead w.begin n
        → w'.items ≡ drop n w.items
        → Sends w' sent
    dropped w w' n sent h v le b e = record {
      valid = v;
      removed = h.removed + n;
      begin_at = omega (arith, b, h.begin_at);
      total =
          omega
            (arith, h.total, ap (λ (us : List (Unacked ops)). length us) e, length-drop n w.items);
      in_order =
          subst (λ us. InOrder (h.removed + n) (packets us)) (sym e)
            (InOrder-drop n h.removed w.items h.in_order);
      known = h.known;
    }

    pub handle_ack-Sends :
        (d : DoubleOps) (now : Time) (succeeds : ℕ → Bool) (peer_id : ℕ) (p : AckPacket)
        (s : State ops)
        → p.packet_sequence_number < 2 ^ 32
        → StateSends s
        → StateSends (handle_ack ops d now succeeds peer_id p s)
    unfolding handle_ack send
    handle_ack-Sends d now succeeds peer_id p s fits h =
        let w = s.unacked_packets in
        let n = p.packet_sequence_number in
        elim (Bool-cases (contains w n || w.end == n)) [
          | inl c ↦
              let (a, b, v) = acknowledged-begin ops w n h.valid fits c in
              let (le, at) : (offset w.begin n ≤ size w) × (ahead w.begin (offset w.begin n) ≡ n) =
                ground (arith, h.valid, contains-offset w n h.valid fits) in
              rw c (
                do_send-Sends now succeeds _ (
                  logged _ s.sent _
                    (dropped w (acknowledged ops n w) (offset w.begin n) s.sent h v le (a ∙ sym at)
                      b)
                    (tt, tt)))
          | inr c ↦ rw c (logged w s.sent _ h (tt, tt))
        ]

    packets-set :
        (us : List (Unacked ops)) (i : ℕ) (u u' : Unacked ops)
        → get_elem? us i ≡ some u
        → u'.packet ≡ u.packet
        → packets (set us i u') ≡ packets us
    packets-set [] i u u' e q = refl
    packets-set (x ∷ us) zero u u' e q =
        ap (λ z. z ∷ packets us)
          (q ∙ ap (λ (t : Unacked ops). t.packet) (sym (some-injective x u e)))
    packets-set (x ∷ us) (suc i) u u' e q = ap (x.packet ∷◌) (packets-set us i u u' e q)

    set_lost-Sends :
        (n : ℕ) (w : Window (Unacked ops)) (u : Unacked ops) (sent : List Sent)
        → item w n ≡ some u
        → Sends w sent
        → Sends (set_item n (set_lost ops u) w) sent
    unfolding item set_item
    set_lost-Sends n w u sent e h =
        repacked w _ sent
          (packets-set w.items (sequence_number_to_index w n) u (set_lost ops u) e refl) h

    negative_ack_at-Sends :
        (p : NegativeAckPacket) (n : ℕ) (s : State ops)
        → StateSends s
        → StateSends (negative_ack_at ops p n s)
    unfolding negative_ack_at
    negative_ack_at-Sends p n s h = elim (Option-cases (item s.unacked_packets n)) [
      | inl e ↦ rw (e, negative_ack_at) h
      | inr (u, e) ↦ elim (Bool-cases (contains_sequence_number p n)) [
        | inl c ↦ rw (e, c, negative_ack_at) (set_lost-Sends n s.unacked_packets u s.sent e h)
        | inr c ↦ rw (e, c, negative_ack_at) h
      ]
    ]

    timeout_at-Sends :
        (now_at : ℕ → Time) (n : ℕ) (s : State ops)
        → StateSends s
        → StateSends (timeout_at ops now_at n s)
    unfolding timeout_at
    timeout_at-Sends now_at n s h = elim (Option-cases (item s.unacked_packets n)) [
      | inl e ↦ rw (e, timeout_at) h
      | inr (u, e) ↦
          elim (Bool-cases (before (later u.last_send_time s.congestion.send_timeout) (now_at n))) [
            | inl c ↦ rw (e, c, timeout_at) (set_lost-Sends n s.unacked_packets u s.sent e h)
            | inr c ↦ rw (e, c, timeout_at) h
          ]
    ]

    pub handle_negative_ack-Sends :
        (now : Time) (succeeds : ℕ → Bool) (p : NegativeAckPacket) (s : State ops)
        → StateSends s
        → StateSends (handle_negative_ack ops now succeeds p s)
    unfolding handle_negative_ack mark_negative
    handle_negative_ack-Sends now succeeds p s h = do_send-Sends now succeeds _ (
        walk-invariant StateSends (negative_ack_at ops p) (negative_ack_at-Sends p)
          (size s.unacked_packets) s.unacked_packets.end s.unacked_packets.begin s h)

    pub handle_tick-Sends :
        (now : Time) (now_at : ℕ → Time) (now' : Time) (succeeds : ℕ → Bool) (s : State ops)
        → StateSends s
        → StateSends (handle_tick ops now now_at now' succeeds s)
    unfolding handle_tick mark_timeouts
    handle_tick-Sends now now_at now' succeeds s h = elim (Bool-cases (up_to s.send_timeout now)) [
      | inl e ↦ rw e (
          do_send-Sends now' succeeds _ (
            walk-invariant StateSends (timeout_at ops now_at) (timeout_at-Sends now_at)
              (size s.unacked_packets) s.unacked_packets.end s.unacked_packets.begin
              (record s { send_timeout = pos_infin }) h))
      | inr e ↦ rw e (do_send-Sends now' succeeds s h)
    ]
