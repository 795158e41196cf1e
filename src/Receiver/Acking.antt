-- ===== src/Receiver/Acking.antt =====
-- What the receiver acknowledges, and what becomes of its acknowledgements.
use maid_safe_transport.Base.{
  ℕ, zero, suc, ◌+◌, ◌-◌, ◌*◌, ◌^◌, ◌≤◌, ◌<◌, ◌≡◌, ◌∙◌, refl, ap, arith, Bool, true, false,
}
use maid_safe_transport.Base.{
  List, [], ◌∷◌, ◌++◌, length, inl, inr, drop, drop-tail, append_assoc, length-append,
}
use maid_safe_transport.Base.{Bool-cases, if◌then◌else◌, ne→==_false}
use maid_safe_transport.Time.{TimeOps}
use maid_safe_transport.Window.{
  Window, sequence_number_to_index, next, size, contains, item, remove, is_empty,
}
use maid_safe_transport.Window.Circle.{modulus, ahead, offset, next-ahead}
use maid_safe_transport.Window.Index.{IsValid, contains-offset, remove-IsValid, length-tail}
use maid_safe_transport.Window.Lookup.{contains-remove}
use maid_safe_transport.Window.Walk.{seek, with_items, item-here, before_end}
use maid_safe_transport.Congestion.{max_data_size}
use maid_safe_transport.Packet.Control.{ControlPacket, ack_sequence_number}
use maid_safe_transport.Receiver.{State, Unread, Acked, not_received, ack_packet_sequence_number}
use maid_safe_transport.Receiver.{available_buffer_size, remove_while, handle_ack_of_ack}

module _ (ops : TimeOps) where
  open ops use {Time}

  -- How many packets come before the first lost one.
  abbrev pub leading : List (Unread ops) → ℕ
  leading [] = 0
  leading (u ∷ us) = let more = leading us in if u.lost then 0 else suc more

  by_lost :
      (lost : Bool) (k more begin n : ℕ)
      → n ≡ ahead begin (suc k + more)
      → (if lost then ahead begin k else n) ≡ ahead begin (k + (if lost then 0 else suc more))
  by_lost true k more begin n h = omega arith
  by_lost false k more begin n h = omega (arith, h)

  seek_from :
      (rest done : List (Unread ops)) (w : Window (Unread ops))
      → IsValid (with_items w (done ++ rest))
      → seek
          (length rest)
          w.end
          (λ n. not_received ops (item (with_items w (done ++ rest)) n))
          (ahead w.begin (length done))
        ≡ ahead w.begin (length done + leading rest)
  unfolding seek
  seek_from [] done w v = omega arith
  seek_from (u ∷ rest) done w v =
      let shift : (done ++ u ∷ []) ++ rest ≡ done ++ u ∷ rest = append_assoc done (u ∷ []) rest in
      let len : length (done ++ u ∷ []) ≡ suc (length done) =
        omega (arith, length-append done (u ∷ [])) in
      let ih = seek_from rest (done ++ u ∷ []) w (rw shift v) in
      rw
        (
          before_end w done u rest v,
          item-here w done u rest v,
          next-ahead w.begin (length done) v.begin_fits,
        )
        (by_lost u.lost (length done) (leading rest) w.begin _ (rw (shift, len) at ih))

  -- The number that an acknowledgement carries is the number of the first lost packet of the valid
  -- window, or its end if there is none: all packets before it were received.
  pub ack_packet_sequence_number_lem :
      (w : Window (Unread ops))
      → IsValid w
      → ack_packet_sequence_number ops w ≡ ahead w.begin (leading w.items)
  unfolding ack_packet_sequence_number item sequence_number_to_index
  ack_packet_sequence_number_lem w v =
      let start : ahead w.begin 0 ≡ w.begin = omega (arith, v.begin_fits) in
      rw start at (seek_from w.items [] w v)
      ∙ ap (ahead w.begin) {x = 0 + leading w.items} (omega arith)

  -- The free places of a valid window, in bytes, fit 32 bits: the product does not wrap.
  pub available_buffer_size_lem :
      (w : Window (Unread ops))
      → IsValid w
      → available_buffer_size ops w ≡ (w.maximum_size - size w) * max_data_size
  unfolding available_buffer_size
  available_buffer_size_lem w v = ground (arith, v)

  remove_while_none :
      (fuel n : ℕ) (w : Window (Acked ops)) → contains w n ≡ false → remove_while ops fuel n w ≡ w
  unfolding remove_while
  remove_while_none zero n w h = refl
  remove_while_none (suc fuel) n w h = rw (h, remove_while)

  remove_while_lem :
      (k fuel n : ℕ) (w : Window (Acked ops))
      → IsValid w
      → n < modulus
      → offset w.begin n ≡ k
      → k < size w
      → size w ≤ fuel
      → let w' = remove_while ops fuel n w in
        (w'.items ≡ drop (suc k) w.items) × IsValid w' × (contains w' n ≡ false)
  unfolding remove_while remove
  remove_while_lem k zero n w v hn e hk hf = absurd (omega arith)
  remove_while_lem zero (suc fuel) n w v hn e hk hf =
      let inside : contains w n ≡ true = ground (arith, v, contains-offset w n v (omega arith)) in
      let some_item : is_empty w ≡ false =
        unfold is_empty in ne→==_false (size w) 0 (omega arith) in
      let gone : contains (remove w) n ≡ false =
        contains-remove w n v some_item (omega arith) ∙ rw inside (ground (arith, v)) in
      rw (inside, remove_while, remove_while_none fuel n (remove w) gone)
        (drop-tail 0 w.items, remove-IsValid w v some_item, gone)
  remove_while_lem (suc k) (suc fuel) n w v hn e hk hf =
      let inside : contains w n ≡ true = ground (arith, v, contains-offset w n v (omega arith)) in
      let some_item : is_empty w ≡ false =
        unfold is_empty in ne→==_false (size w) 0 (omega arith) in
      let v' = remove-IsValid w v some_item in
      let e' : offset (next w.begin) n ≡ k = unfold next in ground (arith, v) in
      let (a, b, c) =
        remove_while_lem k fuel n (remove w) v' hn e' (omega (arith, length-tail w.items))
          (omega (arith, length-tail w.items)) in
      rw (inside, remove_while) (a ∙ drop-tail (suc k) w.items, b, c)

  -- An acknowledgement of the acknowledgement of some number removes it and those before it from
  -- the window of acknowledgements, which then does not contain the number, and leaves the window
  -- alone if the number is not in it.
  pub handle_ack_of_ack_lem :
      (now : Time) (p : ControlPacket) (s : State ops)
      → IsValid s.acks
      → ack_sequence_number p < 2 ^ 32
      → let n = ack_sequence_number p in
        let acks = (handle_ack_of_ack ops now p s).acks in
        (acks.items
          ≡ drop (if contains s.acks n then suc (offset s.acks.begin n) else 0) s.acks.items)
        × IsValid acks
        × (contains acks n ≡ false)
  unfolding handle_ack_of_ack
  handle_ack_of_ack_lem now p s v h = elim (Bool-cases (contains s.acks (ack_sequence_number p))) [
    | inl c ↦
        let (a, b) : (ack_sequence_number p < modulus)
            × (offset s.acks.begin (ack_sequence_number p) < size s.acks) =
          ground (arith, v, c, contains-offset s.acks (ack_sequence_number p) v h) in
        rw c (
          remove_while_lem (offset s.acks.begin (ack_sequence_number p)) (size s.acks)
            (ack_sequence_number p) s.acks v a refl b (omega arith))
    | inr c ↦ rw (c, remove_while_none (size s.acks) (ack_sequence_number p) s.acks c) (refl, v, c)
  ]
