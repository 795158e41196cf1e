-- ===== src/Stream/Received.antt =====
-- What the receiver of src/maidsafe/transport/rudp_receiver.cc holds of the stream, and what its
-- operations keep of it.
use maid_safe_transport.Base.{
  ℕ, zero, suc, ◌+◌, ◌-◌, ◌^◌, ◌≤◌, ◌<◌, ◌≡◌, ◌∙◌, refl, sym, ap, subst, arith, Bool, true, false,
  not,
}
use maid_safe_transport.Base.{
  some, List, [], ◌∷◌, ◌++◌, length, get_elem?, get_elem?-some_lt, take, drop, inl, inr,
  append_assoc, append-nil, Bool-cases, Option-cases, ◌&&◌, leb, leb→le, leb_false→lt, length-drop,
}
use maid_safe_transport.Base.Pieces.{
  flatten, flatten-append, take-suc, take-add, length-take, take-append-drop,
}
use maid_safe_transport.Time.{TimeOps}
use maid_safe_transport.Packet.Data.{DataPacket}
use maid_safe_transport.Window.{
  Window, next, item, set_item, contains, remove, is_full, is_coming_soon, append, set_maximum_size,
  sequence_number_to_index,
}
use maid_safe_transport.Window.Circle.{modulus, ahead}
use maid_safe_transport.Window.Index.{
  IsValid, index-offset, set_item-IsValid, append-IsValid, set_maximum_size-IsValid,
}
use maid_safe_transport.Window.Walk.{with_items, same_length}
use maid_safe_transport.Receiver.{
  State, Unread, new_unread, reserve, reserve_loop, received, store_packet, read_loop, read_data,
  handle_data,
}
use maid_safe_transport.Receiver.Arriving.{
  handle_data-window, store_packet-window, store_packet-none,
}
use maid_safe_transport.Receiver.Reading.{
  rest_IsValid, read_round-kept, read_round-lost, copied-all, copied-part, read_loop_full,
}
use maid_safe_transport.Stream.Numbered.{IsNumbered}
use maid_safe_transport.Stream.Entries.{
  Hold, started, Replaces, Hold-set, Hold-append, Hold-at, Hold-HoldAll, started-HoldAll,
}

module _ (ops : TimeOps) (start : ℕ) (chunks : List (List ℕ)) where
  open ops use {Time}

  -- The window begins behind the packets that were read to their end; its entries hold what they
  -- should, and what was delivered is the stream up to there and a part of the next packet.
  pub record Receives (w : Window (Unread ops)) (delivered : List ℕ) : Type 0 where
    pub valid : IsValid w
    pub removed : ℕ
    pub begin_at : w.begin ≡ ahead start removed
    pub fits : removed ≤ length chunks
    pub entries : Hold ops chunks removed w.items
    pub read : delivered ≡ flatten (take removed chunks) ++ started ops chunks w.items

  append-Receives :
      (t : Unread ops) (w : Window (Unread ops)) (d : List ℕ)
      → is_full w ≡ false
      → t.lost ≡ true
      → t.bytes_read ≡ 0
      → Receives w d
      → Receives (append t w).1 d
  unfolding append
  append-Receives t w d f l b h =
      let (x, y) = Hold-append ops chunks h.removed w.items t l b h.entries in
      record {
        valid = unfold append in append-IsValid t w h.valid f;
        removed = h.removed;
        begin_at = h.begin_at;
        fits = h.fits;
        entries = x;
        read = h.read ∙ ap (flatten (take h.removed chunks) ++◌) (sym y);
      }

  reserve_loop-Receives :
      (now_at : ℕ → Time) (fuel n : ℕ) (w : Window (Unread ops)) (d : List ℕ)
      → Receives w d
      → Receives (reserve_loop ops now_at fuel n w) d
  unfolding reserve_loop
  reserve_loop-Receives now_at zero n w d h = h
  reserve_loop-Receives now_at (suc fuel) n w d h =
      elim (Bool-cases (is_coming_soon w n && not (is_full w))) [
        | inl go ↦
            rw (go, reserve_loop)
              (reserve_loop-Receives now_at fuel n _ d (
                append-Receives (new_unread ops (now_at w.end)) w d
                  (room_left (is_coming_soon w n) (is_full w) go) (unfold new_unread in refl)
                  (unfold new_unread in refl) h))
        | inr stop ↦ rw (stop, reserve_loop) h
      ]
    where
      room_left : (soon full : Bool) → soon && not full ≡ true → full ≡ false
      room_left soon full h = ground arith

  -- The number of a packet of the stream stands in the window at the place of the packet.
  place :
      (w : Window (Unread ops)) (k r n : ℕ)
      → IsValid w
      → contains w n ≡ true
      → w.begin ≡ ahead start r
      → n ≡ ahead start k
      → k + 512 ≤ modulus
      → r + 512 ≤ modulus
      → k ≡ r + sequence_number_to_index w n
  place w k r n v c b e hk hr =
      let fits : n < 2 ^ 32 = omega (arith, e) in
      let (i, lt) = index-offset w n v fits c in omega (arith, i, lt, b, e, v.size_fits, hk, hr)

  pub set-Receives :
      (w : Window (Unread ops)) (d : List ℕ) (n : ℕ) (u u' : Unread ops)
      → (h : Receives w d) → item w n ≡ some u
      → Replaces ops chunks (h.removed + sequence_number_to_index w n) u u'
      → Receives (set_item n u' w) d
  unfolding item set_item
  set-Receives w d n u u' h e r =
      let (x, y) =
        Hold-set ops chunks (sequence_number_to_index w n) h.removed w.items u u' e r h.entries in
      record {
        valid = unfold set_item in set_item-IsValid n u' w h.valid;
        removed = h.removed;
        begin_at = h.begin_at;
        fits = h.fits;
        entries = x;
        read = h.read ∙ ap (flatten (take h.removed chunks) ++◌) (sym y);
      }

  store_packet-Receives :
      (now : Time) (p : DataPacket) (s : State ops) (d : List ℕ) (k : ℕ)
      → length chunks + 512 ≤ modulus
      → IsNumbered ops start chunks k p
      → Receives s.unread_packets d
      → Receives (store_packet ops now p s).unread_packets d
  store_packet-Receives now p s d k small (a, c) h =
      let w = s.unread_packets in
      let n = p.packet_sequence_number in
      elim (Option-cases (item w n)) [
        | inl z ↦ subst (λ w. Receives w d) (sym (store_packet-none ops now p s z)) h
        | inr (x, z) ↦ elim (Bool-cases (contains w n && x.lost)) [
          | inl b ↦
              let (in_window, lost) = both (contains w n) x.lost b in
              let at =
                place w k h.removed n h.valid in_window h.begin_at a
                  (omega (arith, get_elem?-some_lt chunks k p.payload c)) (omega (arith, h.fits)) in
              subst (λ w. Receives w d) (sym (store_packet-window ops now p s x true z b))
                (set-Receives w d n x (received ops p x) h z (record {
                  holds = record {
                    chunk = λ e. ap (get_elem? chunks) (sym at) ∙ c;
                    unread = λ e. refl;
                  };
                  untouched = λ e. refl;
                  same = sym (
                      ap (λ m. take m x.packet.payload)
                        ((Hold-at ops chunks (sequence_number_to_index w n) h.removed w.items x
                            (unfold item in z) h.entries).unread
                          lost));
                }))
          | inr b ↦ subst (λ w. Receives w d) (sym (store_packet-window ops now p s x false z b)) h
        ]
      ]
    where
      both : (a b : Bool) → a && b ≡ true → (a ≡ true) × (b ≡ true)
      both a b h = ground arith

  pub handle_data-Receives :
      (now_at : ℕ → Time) (now now' now'' : Time) (p : DataPacket) (s : State ops) (d : List ℕ)
      (k : ℕ)
      → length chunks + 512 ≤ modulus
      → IsNumbered ops start chunks k p
      → Receives s.unread_packets d
      → Receives (handle_data ops now_at now now' now'' p s).unread_packets d
  unfolding reserve set_maximum_size
  handle_data-Receives now_at now now' now'' p s d k small a h =
      let limit = s.congestion.receive_window_size in
      let n = p.packet_sequence_number in
      let w₁ = set_maximum_size limit s.unread_packets in
      let h₁ : Receives w₁ d = record {
        valid = unfold set_maximum_size in set_maximum_size-IsValid limit s.unread_packets h.valid;
        removed = h.removed;
        begin_at = h.begin_at;
        fits = h.fits;
        entries = h.entries;
        read = h.read;
      } in
      subst (λ w. Receives w d) (sym (handle_data-window ops now_at now now' now'' p s))
        (store_packet-Receives now p
          (record s { unread_packets = reserve ops now_at limit n s.unread_packets }) d k small a
          (reserve_loop-Receives now_at w₁.maximum_size n w₁ d h₁))

  next_at :
      (w : Window (Unread ops)) (r : ℕ)
      → w.begin ≡ ahead start r
      → next w.begin ≡ ahead start (suc r)
  unfolding next
  next_at w r h = ground arith

  -- The next packet is read to its end.
  read_whole :
      (w : Window (Unread ops)) (u : Unread ops) (us : List (Unread ops)) (d : List ℕ)
      → u.lost ≡ false
      → Receives (with_items w (u ∷ us)) d
      → Receives (with_items (remove w) us) (d ++ drop u.bytes_read u.packet.payload)
  unfolding remove
  read_whole w u us d kept h =
      let r = h.removed in
      let payload = u.packet.payload in
      let (x, y) = h.entries in
      let c : get_elem? chunks r ≡ some payload = x.chunk kept in
      let whole : flatten (take (suc r) chunks) ≡ flatten (take r chunks) ++ payload =
        ap flatten (take-suc r chunks payload c)
        ∙ flatten-append (take r chunks) (payload ∷ [])
        ∙ ap (flatten (take r chunks) ++◌) (append-nil payload) in
      record {
        valid = rest_IsValid ops w u us h.valid;
        removed = suc r;
        begin_at = unfold remove in next_at w r h.begin_at;
        fits = omega (arith, get_elem?-some_lt chunks r payload c);
        entries = Hold-HoldAll ops chunks (suc r) us y;
        read =
            ap (◌++ drop u.bytes_read payload) h.read
            ∙ append_assoc (flatten (take r chunks)) (take u.bytes_read payload)
                (drop u.bytes_read payload)
            ∙ ap (flatten (take r chunks) ++◌) (take-append-drop u.bytes_read payload)
            ∙ sym whole
            ∙ sym (append-nil _)
            ∙ ap (flatten (take (suc r) chunks) ++◌)
                (sym (started-HoldAll ops chunks (suc r) us y));
      }

  -- It is read in part.
  read_part :
      (w : Window (Unread ops)) (u : Unread ops) (us : List (Unread ops)) (d : List ℕ) (room : ℕ)
      → u.lost ≡ false
      → Receives (with_items w (u ∷ us)) d
      → Receives
          (with_items w (record u { bytes_read = u.bytes_read + room } ∷ us))
          (d ++ take room (drop u.bytes_read u.packet.payload))
  read_part w u us d room kept h =
      let (x, y) = h.entries in
      record {
        valid =
            same_length w (u ∷ us) (record u { bytes_read = u.bytes_read + room } ∷ us) refl
              h.valid;
        removed = h.removed;
        begin_at = h.begin_at;
        fits = h.fits;
        entries = (record { chunk = x.chunk; unread = λ e. absurd (cc) }, y);
        read =
            ap (◌++ take room (drop u.bytes_read u.packet.payload)) h.read
            ∙ append_assoc (flatten (take h.removed chunks)) _ _
            ∙ ap (flatten (take h.removed chunks) ++◌)
                (take-add u.bytes_read room u.packet.payload);
      }

  read_loop-Receives :
      (us : List (Unread ops)) (w : Window (Unread ops)) (d : List ℕ) (room : ℕ)
      → Receives (with_items w us) d
      → let (bytes, w') = read_loop ops (length us) w.begin room (with_items w us) in
        Receives w' (d ++ bytes)
  unfolding read_loop remove
  read_loop-Receives [] w d room h = subst (Receives (with_items w [])) (sym (append-nil d)) h
  read_loop-Receives (u ∷ us) w d zero h =
      rw (read_loop_full ops (suc (length us)) w.begin (with_items w (u ∷ us)))
        (subst (Receives (with_items w (u ∷ us))) (sym (append-nil d)) h)
  read_loop-Receives (u ∷ us) w d (suc r) h = elim (Bool-cases u.lost) [
    | inl lost ↦
        rw (read_round-lost ops w u us h.valid (suc r) lost, read_loop)
          (subst (Receives (with_items w (u ∷ us))) (sym (append-nil d)) h)
    | inr kept ↦ elim (Bool-cases (leb (length u.packet.payload - u.bytes_read) (suc r))) [
      | inl fits ↦
          let chunk = drop u.bytes_read u.packet.payload in
          let rest =
            read_loop ops (length us) (next w.begin) (suc r - length chunk)
              (with_items (remove w) us) in
          rw
            (
              read_round-kept ops w u us h.valid (suc r) kept (omega arith),
              read_loop,
              copied-all ops w u us h.valid (suc r) (leb→le _ _ fits),
            )
            (subst (Receives rest.1) (append_assoc d chunk rest.0) (
              read_loop-Receives us (remove w) (d ++ chunk) (suc r - length chunk)
                (read_whole w u us d kept h)))
      | inr over ↦
          let part = take (suc r) (drop u.bytes_read u.packet.payload) in
          let w' = with_items w (record u { bytes_read = u.bytes_read + suc r } ∷ us) in
          let lt : suc r < length u.packet.payload - u.bytes_read = leb_false→lt _ _ over in
          let used : suc r - length part ≡ 0 = omega (
            arith,
            length-drop u.bytes_read u.packet.payload,
            length-take (suc r) (drop u.bytes_read u.packet.payload)
                (omega (arith, length-drop u.bytes_read u.packet.payload)),
          ) in
          rw
            (
              read_round-kept ops w u us h.valid (suc r) kept (omega arith),
              read_loop,
              copied-part ops w u us h.valid (suc r) lt,
              used,
              read_loop_full ops (length us) (next w.begin) w',
            )
            (subst (λ bytes. Receives w' (d ++ bytes)) (sym (append-nil part))
              (read_part w u us d (suc r) kept h))
    ]
  ]

  pub read_data-Receives :
      (room : ℕ) (s : State ops) (d : List ℕ)
      → Receives s.unread_packets d
      → let (bytes, s') = read_data ops room s in Receives s'.unread_packets (d ++ bytes)
  unfolding read_data
  read_data-Receives room s d h =
      read_loop-Receives s.unread_packets.items s.unread_packets d room h
