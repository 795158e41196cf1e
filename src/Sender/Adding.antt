-- ===== src/Sender/Adding.antt =====
-- `AddData`: the bytes of the application cut into packets.
use maid_safe_transport.Base.{
  ℕ, zero, suc, ◌-◌, ◌≤◌, ◌≡◌, ◌∙◌, refl, sym, ap, ap₂, arith, Bool, true, false,
}
use maid_safe_transport.Base.{List, [], ◌∷◌, ◌++◌, length, take, drop}
use maid_safe_transport.Base.{set, append-nil, append_assoc, length-append, take-append-drop}
use maid_safe_transport.Base.{set-append_cons}
use maid_safe_transport.Time.{TimeOps}
use maid_safe_transport.Window.{
  Window, next, size, set_item, append, is_full, sequence_number_to_index,
}
use maid_safe_transport.Window.Index.{IsValid, item-ahead, append-IsValid, set_maximum_size-IsValid}
use maid_safe_transport.Sender.Sending.{after_send, attempts, do_send_lem}
use maid_safe_transport.Sender.{with_window}
use maid_safe_transport.Sender.{
  State, Unacked, filled, add_packet, add_loop, add_data, resized, new_unacked,
}

module _ (ops : TimeOps) where
  open ops use {Time}

  -- `Append` and the writes put the packet behind the others, under the old end of the window.
  add_packet_lem :
      (peer_id : ℕ) (bytes : List ℕ) (w : Window (Unacked ops))
      → IsValid w
      → is_full w ≡ false
      → add_packet ops peer_id bytes w
        ≡ record w { items = w.items ++ filled ops peer_id w.end bytes ∷ []; end = next w.end }
  unfolding add_packet append set_item
  add_packet_lem peer_id bytes w v f =
      let w' = (append (new_unacked ops) w).1 in
      let v' = append-IsValid (new_unacked ops) w v f in
      let t = filled ops peer_id w.end bytes in
      let k : sequence_number_to_index w' w.end ≡ size w =
        rw (← v.end_ahead) at
          (item-ahead w' (size w) v'
            (omega (arith, length-append w.items (new_unacked ops ∷ [])))).1 in
      ap (λ i. record w' { items = set w'.items i t }) k
      ∙ ap (λ xs. record w' { items = xs })
          (set-append_cons w.items [] (new_unacked ops) t (size w) refl)

  -- Some bytes cut into packets of at most `chunk`, under the numbers from `n` on, as long as there
  -- is room for another packet; and what is left of the bytes.
  abbrev pub cut : ℕ → ℕ → ℕ → ℕ → List ℕ → List (Unacked ops)
  cut zero peer_id chunk n bytes = []
  cut (suc room) peer_id chunk n [] = []
  cut (suc room) peer_id chunk n (b ∷ bytes) =
      filled ops peer_id n (take chunk (b ∷ bytes))
      ∷ cut room peer_id chunk (next n) (drop chunk (b ∷ bytes))

  abbrev pub left : ℕ → ℕ → List ℕ → List ℕ
  left zero chunk bytes = bytes
  left (suc room) chunk [] = []
  left (suc room) chunk (b ∷ bytes) = left room chunk (drop chunk (b ∷ bytes))

  abbrev pub payloads : List (Unacked ops) → List ℕ
  payloads [] = []
  payloads (p ∷ ps) = p.packet.payload ++ payloads ps

  -- Nothing is lost or reordered by the cutting.
  cut-left :
      (room peer_id chunk n : ℕ) (bytes : List ℕ)
      → payloads (cut room peer_id chunk n bytes) ++ left room chunk bytes ≡ bytes
  unfolding filled
  cut-left zero peer_id chunk n bytes = refl
  cut-left (suc room) peer_id chunk n [] = refl
  cut-left (suc room) peer_id chunk n (b ∷ bytes) =
      append_assoc (take chunk (b ∷ bytes)) _ _
      ∙ ap (take chunk (b ∷ bytes) ++◌)
          (cut-left room peer_id chunk (next n) (drop chunk (b ∷ bytes)))
      ∙ take-append-drop chunk (b ∷ bytes)

  unfoldable pub Adds :
      (room peer_id chunk : ℕ) (bytes : List ℕ) (w : Window (Unacked ops))
      → Window (Unacked ops) × List ℕ
      → Type 0
  Adds room peer_id chunk bytes w out =
      (out.0.items ≡ w.items ++ cut room peer_id chunk w.end bytes)
      × (out.0.begin ≡ w.begin)
      × (out.1 ≡ left room chunk bytes)
      × IsValid out.0

  no_room : (w : Window (Unacked ops)) → 0 ≡ w.maximum_size - size w → is_full w ≡ true
  unfolding is_full
  no_room w e = ground arith

  some_room :
      (w : Window (Unacked ops)) (room : ℕ) → suc room ≡ w.maximum_size - size w → is_full w ≡ false
  unfolding is_full
  some_room w room e = ground arith

  pub add_loop_lem :
      (room fuel peer_id chunk : ℕ) (bytes : List ℕ) (w : Window (Unacked ops))
      → IsValid w
      → room ≡ w.maximum_size - size w
      → room ≤ fuel
      → Adds room peer_id chunk bytes w (add_loop ops fuel peer_id chunk bytes w)
  unfolding add_loop Adds append
  add_loop_lem zero zero peer_id chunk bytes w v e hf = (sym (append-nil w.items), refl, refl, v)
  add_loop_lem zero (suc fuel) peer_id chunk bytes w v e hf =
      rw (no_room w e) (sym (append-nil w.items), refl, refl, v)
  add_loop_lem (suc room) zero peer_id chunk bytes w v e hf = absurd (omega arith)
  add_loop_lem (suc room) (suc fuel) peer_id chunk [] w v e hf =
      rw (some_room w room e) (sym (append-nil w.items), refl, refl, v)
  add_loop_lem (suc room) (suc fuel) peer_id chunk (b ∷ bytes) w v e hf =
      let t = filled ops peer_id w.end (take chunk (b ∷ bytes)) in
      let w' : Window (Unacked ops) = record w { items = w.items ++ t ∷ []; end = next w.end } in
      let v' : IsValid w' = append-IsValid t w v (some_room w room e) in
      let (x, y, z, u) =
        add_loop_lem room fuel peer_id chunk (drop chunk (b ∷ bytes)) w' v'
          (omega (arith, length-append w.items (t ∷ []))) (omega arith) in
      rw
        (
          some_room w room e,
          add_packet_lem peer_id (take chunk (b ∷ bytes)) w v (some_room w room e),
        )
        (x ∙ append_assoc w.items (t ∷ []) _, y, z, u)

  pub resized-IsValid : (s : State ops) → IsValid s.unacked_packets → IsValid (resized ops s)
  unfolding resized
  resized-IsValid s v = ground (
    arith,
    set_maximum_size-IsValid 16 s.unacked_packets v,
    set_maximum_size-IsValid s.congestion.send_window_size s.unacked_packets v,
  )

  pub resized-keeps :
      (s : State ops)
      → ((resized ops s).items ≡ s.unacked_packets.items)
        × ((resized ops s).begin ≡ s.unacked_packets.begin)
        × ((resized ops s).end ≡ s.unacked_packets.end)
  unfolding resized
  resized-keeps s = ground arith

  -- `AddData` on a valid window puts new packets behind those that it holds, under the numbers from
  -- its end on, each with at most as many bytes as the congestion control allows, as long as the
  -- window that it allows has room. Their payloads, with the bytes that it did not take, are the
  -- bytes that it was given, and it answers how many it took; `DoSend` runs on the longer window, and
  -- what it hands to `Send` is all that is sent.
  pub add_data_lem :
      (now : Time) (succeeds : ℕ → Bool) (peer_id : ℕ) (bytes : List ℕ) (s : State ops)
      → IsValid s.unacked_packets
      → let w = resized ops s in
        let room = w.maximum_size - size w in
        let chunk = s.congestion.send_data_size in
        let added = cut room peer_id chunk w.end bytes in
        let rest = left room chunk bytes in
        let (taken, s') = add_data ops now succeeds peer_id bytes s in
        ((w.items ≡ s.unacked_packets.items) × (w.end ≡ s.unacked_packets.end))
        × (s'.unacked_packets.items
            ≡ after_send ops now succeeds s.unacked_packets.begin (w.items ++ added))
        × (s'.unacked_packets.begin ≡ s.unacked_packets.begin)
        × (payloads added ++ rest ≡ bytes)
        × (taken ≡ length (payloads added))
        × (s'.sent ≡ s.sent ++ attempts ops now succeeds s.unacked_packets.begin (w.items ++ added))
  unfolding add_data Adds
  add_data_lem now succeeds peer_id bytes s v =
      let w = resized ops s in
      let room = w.maximum_size - size w in
      let chunk = s.congestion.send_data_size in
      let (a, b, c) = resized-keeps s in
      let (x, y, z, u) =
        add_loop_lem room w.maximum_size peer_id chunk bytes w (resized-IsValid s v) refl
          (omega arith) in
      let (p, q) =
        do_send_lem ops now succeeds
          (with_window ops s (add_loop ops w.maximum_size peer_id chunk bytes w).0) u in
      let whole = cut-left room peer_id chunk w.end bytes in
      let total : length bytes - length (left room chunk bytes)
          ≡ length (payloads (cut room peer_id chunk w.end bytes)) =
        omega (
          arith,
          ap (λ (xs : List ℕ). length xs) whole,
          length-append (payloads (cut room peer_id chunk w.end bytes)) (left room chunk bytes),
        ) in
      (
        (a, c),
        ap (λ k. k.items) p ∙ ap₂ (after_send ops now succeeds) (y ∙ b) x,
        ap (λ k. k.begin) p ∙ y ∙ b,
        whole,
        ap (λ (r : List ℕ). length bytes - length r) z ∙ total,
        q ∙ ap (s.sent ++◌) (ap₂ (attempts ops now succeeds) (y ∙ b) x),
      )
