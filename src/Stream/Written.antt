-- ===== src/Stream/Written.antt =====
-- `AddData` of src/maidsafe/transport/rudp_sender.cc continues the stream.
use maid_safe_transport.Base.{
  ℕ, zero, suc, ◌+◌, ◌-◌, ◌≡◌, ◌∙◌, refl, sym, ap, ap₂, subst, arith, Bool,
}
use maid_safe_transport.Base.{
  List, [], ◌∷◌, ◌++◌, length, take, drop, append_assoc, length-append, get_elem?-append_cons,
}
use maid_safe_transport.Base.Pieces.{
  get_elem?-append_some, All_map, flatten, take-append_le, take_all,
}
use maid_safe_transport.Time.{TimeOps}
use maid_safe_transport.Packet.Data.{DataPacket}
use maid_safe_transport.Window.{next, size}
use maid_safe_transport.Window.Circle.{ahead}
use maid_safe_transport.Sender.{
  Sent, data_sent, ack_of_ack_sent, shutdown_sent, State, Unacked, with_window, resized, add_loop,
  add_data, filled,
}
use maid_safe_transport.Sender.Adding.{
  cut, payloads, resized-IsValid, resized-keeps, add_loop_lem, Adds, add_data_lem,
}
use maid_safe_transport.Sender.Sending.{after_send}
use maid_safe_transport.Stream.Numbered.{
  packets, IsNumbered, InOrder, IsKnown, StateSends, do_send-Sends, length-packets,
  packets-after_send,
}

module _ (ops : TimeOps) where
  open ops use {Time}

  abbrev pub contents : List (Unacked ops) → List (List ℕ)
  contents [] = []
  contents (u ∷ us) = u.packet.payload ∷ contents us

  flatten-contents : (us : List (Unacked ops)) → flatten (contents us) ≡ payloads ops us
  flatten-contents [] = refl
  flatten-contents (u ∷ us) = ap (u.packet.payload ++◌) (flatten-contents us)

  length-contents : (us : List (Unacked ops)) → length (contents us) ≡ length us
  length-contents [] = refl
  length-contents (u ∷ us) = ap suc (length-contents us)

  packets-append :
      (us vs : List (Unacked ops)) → packets ops (us ++ vs) ≡ packets ops us ++ packets ops vs
  packets-append [] vs = refl
  packets-append (u ∷ us) vs = ap (u.packet ∷◌) (packets-append us vs)

  -- Packets with consecutive numbers.
  abbrev Counts : ℕ → List (Unacked ops) → Type 0
  Counts n [] = Unit
  Counts n (u ∷ us) = (u.packet.packet_sequence_number ≡ n) × Counts (next n) us

  cut-Counts :
      (room peer_id chunk n : ℕ) (bytes : List ℕ) → Counts n (cut ops room peer_id chunk n bytes)
  unfolding filled
  cut-Counts zero peer_id chunk n bytes = tt
  cut-Counts (suc room) peer_id chunk n [] = tt
  cut-Counts (suc room) peer_id chunk n (b ∷ bytes) =
      (refl, cut-Counts room peer_id chunk (next n) (drop chunk (b ∷ bytes)))

  module _ (start : ℕ) where
    IsNumbered-append :
        (chunks more : List (List ℕ)) (k : ℕ) (p : DataPacket)
        → IsNumbered ops start chunks k p
        → IsNumbered ops start (chunks ++ more) k p
    IsNumbered-append chunks more k p (a, b) = (a, get_elem?-append_some chunks more k p.payload b)

    InOrder-more :
        (chunks more : List (List ℕ)) (k : ℕ) (ps : List DataPacket)
        → InOrder ops start chunks k ps
        → InOrder ops start (chunks ++ more) k ps
    InOrder-more chunks more k [] h = tt
    InOrder-more chunks more k (p ∷ ps) (a, h) =
        (IsNumbered-append chunks more k p a, InOrder-more chunks more (suc k) ps h)

    IsKnown-more :
        (chunks more : List (List ℕ)) (x : Sent)
        → IsKnown ops start chunks x
        → IsKnown ops start (chunks ++ more) x
    IsKnown-more chunks more (data_sent p) (k, a) = (k, IsNumbered-append chunks more k p a)
    IsKnown-more chunks more (ack_of_ack_sent p) h = tt
    IsKnown-more chunks more (shutdown_sent p) h = tt

    InOrder-append :
        (chunks : List (List ℕ)) (k : ℕ) (ps qs : List DataPacket)
        → InOrder ops start chunks k ps
        → InOrder ops start chunks (k + length ps) qs
        → InOrder ops start chunks k (ps ++ qs)
    InOrder-append chunks k [] qs h g =
        subst (λ j. InOrder ops start chunks j qs) {x = k + 0} (omega arith) g
    InOrder-append chunks k (p ∷ ps) qs (a, h) g = (
      a,
      InOrder-append chunks (suc k) ps qs h
          (subst (λ j. InOrder ops start chunks j qs) {x = k + suc (length ps)} (omega arith) g),
    )

    -- New packets behind the stream so far.
    Counts-InOrder :
        (us : List (Unacked ops)) (chunks : List (List ℕ)) (n k : ℕ)
        → Counts n us
        → n ≡ ahead start k
        → k ≡ length chunks
        → InOrder ops start (chunks ++ contents us) k (packets ops us)
    unfolding next
    Counts-InOrder [] chunks n k h e l = tt
    Counts-InOrder (u ∷ us) chunks n k (a, h) e l =
        let c = u.packet.payload in
        (
          (a ∙ e, get_elem?-append_cons chunks (contents us) c k l),
          subst (λ cs. InOrder ops start cs (suc k) (packets ops us))
              (append_assoc chunks (c ∷ []) (contents us))
              (Counts-InOrder us (chunks ++ c ∷ []) (next n) (suc k) h (ground arith)
                (omega (arith, l, length-append chunks (c ∷ [])))),
        )

    length-after_send :
        (chunks : List (List ℕ)) (now : Time) (succeeds : ℕ → Bool) (n : ℕ)
        (us : List (Unacked ops))
        → length (after_send ops now succeeds n us) ≡ length us
    length-after_send chunks now succeeds n us =
        sym (length-packets ops start chunks (after_send ops now succeeds n us))
        ∙ ap (λ (ps : List DataPacket). length ps)
            (packets-after_send ops start chunks now succeeds n us)
        ∙ length-packets ops start chunks us

    pub add_data-Sends :
        (now : Time) (succeeds : ℕ → Bool) (peer_id : ℕ) (bytes : List ℕ) (s : State ops)
        → (chunks : List (List ℕ)) → StateSends ops start chunks s
        → let w = resized ops s in
          let room = w.maximum_size - size w in
          let added = cut ops room peer_id s.congestion.send_data_size w.end bytes in
          let (taken, s') = add_data ops now succeeds peer_id bytes s in
          StateSends ops start (chunks ++ contents added) s'
          × (take taken bytes ≡ flatten (contents added))
          × (size s'.unacked_packets ≡ size s.unacked_packets + length (contents added))
    unfolding add_data Adds
    add_data-Sends now succeeds peer_id bytes s chunks h =
        let w = resized ops s in
        let room = w.maximum_size - size w in
        let chunk = s.congestion.send_data_size in
        let added = cut ops room peer_id chunk w.end bytes in
        let (a, b, c) = resized-keeps ops s in
        let v = resized-IsValid ops s h.valid in
        let (x, y, z, u) =
          add_loop_lem ops room w.maximum_size peer_id chunk bytes w v refl (omega arith) in
        let out = add_loop ops w.maximum_size peer_id chunk bytes w in
        let items : out.0.items ≡ s.unacked_packets.items ++ added = x ∙ ap (◌++ added) a in
        let (p, q, r, whole, count, _) = add_data_lem ops now succeeds peer_id bytes s h.valid in
        let place : h.removed + length (packets ops s.unacked_packets.items) ≡ length chunks =
          omega (arith, length-packets ops start chunks s.unacked_packets.items, h.total) in
        let end_at : w.end ≡ ahead start (length chunks) =
          omega (arith, c, h.valid.end_ahead, h.begin_at, h.total) in
        (
          do_send-Sends ops start (chunks ++ contents added) now succeeds (with_window ops s out.0)
              (record {
                valid = u;
                removed = h.removed;
                begin_at = y ∙ b ∙ h.begin_at;
                total = omega (
                  arith,
                  ap (λ (us : List (Unacked ops)). length us) items,
                  length-append s.unacked_packets.items added,
                  length-append chunks (contents added),
                  length-contents added,
                  h.total,
                );
                in_order =
                    subst (InOrder ops start (chunks ++ contents added) h.removed)
                      (sym (ap (packets ops) items ∙ packets-append s.unacked_packets.items added))
                      (InOrder-append (chunks ++ contents added) h.removed
                        (packets ops s.unacked_packets.items) (packets ops added)
                        (InOrder-more chunks (contents added) h.removed
                          (packets ops s.unacked_packets.items) h.in_order)
                        (subst
                          (λ k. InOrder ops start (chunks ++ contents added) k (packets ops added))
                          (sym place)
                          (Counts-InOrder added chunks w.end (length chunks)
                            (cut-Counts room peer_id chunk w.end bytes) end_at refl)));
                known =
                    All_map (IsKnown ops start chunks)
                      (IsKnown ops start (chunks ++ contents added))
                      (IsKnown-more chunks (contents added)) s.sent h.known;
              }),
          ap₂ take count (sym whole)
              ∙ take-append_le (length (payloads ops added)) (payloads ops added) _ (omega arith)
              ∙ take_all (length (payloads ops added)) (payloads ops added) (omega arith)
              ∙ sym (flatten-contents added),
          omega (
            arith,
            ap (λ (us : List (Unacked ops)). length us) q,
            length-after_send chunks now succeeds s.unacked_packets.begin (w.items ++ added),
            ap (λ (us : List (Unacked ops)). length us) a,
            length-append w.items added,
            length-contents added,
          ),
        )
