-- ===== src/Stream/Ticked.antt =====
-- `HandleTick` and `HandleAckOfAck` of src/maidsafe/transport/rudp_receiver.cc leave what the
-- receiver holds of the stream, and so does more of the stream.
use maid_safe_transport.Base.{
  ℕ, zero, suc, ◌≡◌, ◌∙◌, refl, sym, ap, ap₂, both_branches, subst, arith, List, [], ◌∷◌, ◌++◌, inl,
  inr, Option-cases, length-append,
}
use maid_safe_transport.Base.Pieces.{flatten, take-append_le, get_elem?-append_some}
use maid_safe_transport.Time.{TimeOps}
use maid_safe_transport.Packet.Control.{ControlPacket}
use maid_safe_transport.Packet.NegativeAck.{NegativeAckPacket}
use maid_safe_transport.Window.{Window, next, size, item, sequence_number_to_index}
use maid_safe_transport.Receiver.{
  State, Unread, touch, missing_run, negative_round, negative_loop, tick_negative, tick_ack,
  send_ack, handle_tick, handle_ack_of_ack,
}
use maid_safe_transport.Stream.Entries.{Holds, Hold, HoldAll, Hold-at, started}
use maid_safe_transport.Stream.Received.{Receives, set-Receives}

module _ (ops : TimeOps) (start : ℕ) (chunks : List (List ℕ)) where
  open ops use {Time, Duration}

  module _ (sort : List ℕ → List ℕ) (peer_id : ℕ) (now : Time) (outer_now inner_now : ℕ → Time)
      (time_out : Duration) where
    touch-Receives :
        (n : ℕ) (w : Window (Unread ops)) (d : List ℕ)
        → Receives ops start chunks w d
        → Receives ops start chunks (touch ops sort peer_id now outer_now inner_now time_out n w) d
    unfolding touch item
    touch-Receives n w d h = elim (Option-cases (item w n)) [
      | inl e ↦ rw (e, touch) h
      | inr (u, e) ↦
          let x =
            Hold-at ops chunks (sequence_number_to_index w n) h.removed w.items u e h.entries in
          rw (e, touch)
            (set-Receives ops start chunks w d n u (record u { reserve_time = now }) h e
              (record {
                holds = record { chunk = x.chunk; unread = x.unread };
                untouched = λ z. z;
                same = refl;
              }))
    ]

    missing_run-Receives :
        (fuel n : ℕ) (w : Window (Unread ops)) (d : List ℕ)
        → Receives ops start chunks w d
        → Receives ops start chunks
            (missing_run ops sort peer_id now outer_now inner_now time_out fuel n w).2
            d
    unfolding missing_run
    missing_run-Receives zero n w d h = h
    missing_run-Receives (suc fuel) n w d h =
        let w' = touch ops sort peer_id now outer_now inner_now time_out n w in
        let h' = touch-Receives n w d h in
        both_branches (λ (x : ℕ × ℕ × Window (Unread ops)). Receives ops start chunks x.2 d) _ _ _
          (missing_run-Receives fuel (next n) w' d h') h'

    negative_round-Receives :
        (fuel n : ℕ) (w : Window (Unread ops)) (p : NegativeAckPacket) (d : List ℕ)
        → Receives ops start chunks w d
        → Receives ops start chunks
            (negative_round ops sort peer_id now outer_now inner_now time_out fuel n w p).1
            d
    unfolding negative_round
    negative_round-Receives fuel n w p d h =
        both_branches
          (λ (x : ℕ × Window (Unread ops) × NegativeAckPacket). Receives ops start chunks x.1 d) _ _
          _ (missing_run-Receives fuel n w d h) h

    negative_loop-Receives :
        (fuel n : ℕ) (w : Window (Unread ops)) (p : NegativeAckPacket) (d : List ℕ)
        → Receives ops start chunks w d
        → Receives ops start chunks
            (negative_loop ops sort peer_id now outer_now inner_now time_out fuel n w p).0
            d
    unfolding negative_loop
    negative_loop-Receives zero n w p d h = h
    negative_loop-Receives (suc fuel) n w p d h =
        let (n', w', p') =
          negative_round ops sort peer_id now outer_now inner_now time_out (suc fuel) n w p in
        both_branches
          (λ (x : Window (Unread ops) × NegativeAckPacket). Receives ops start chunks x.0 d) _ _ _ h
          (negative_loop-Receives fuel n' w' p' d (negative_round-Receives (suc fuel) n w p d h))

    tick_negative-Receives :
        (s : State ops) (d : List ℕ)
        → Receives ops start chunks s.unread_packets d
        → Receives ops start chunks
            (tick_negative ops sort peer_id now outer_now inner_now time_out s).unread_packets
            d
    unfolding tick_negative
    tick_negative-Receives s d h =
        let k =
          negative_loop-Receives (size s.unread_packets) s.unread_packets.begin s.unread_packets _ d
            h in
        both_branches (λ (x : State ops). Receives ops start chunks x.unread_packets d) _ _ _ k k

  tick_ack-keeps :
      (sort : List ℕ → List ℕ) (peer_id : ℕ) (now : Time) (s : State ops)
      → (tick_ack ops sort peer_id now s).unread_packets ≡ s.unread_packets
  unfolding tick_ack send_ack
  tick_ack-keeps sort peer_id now s =
      both_branches (λ (x : State ops). x.unread_packets ≡ s.unread_packets) _ _ _
        (both_branches (λ (x : State ops). x.unread_packets ≡ s.unread_packets) _ _ _ refl refl)
        refl

  pub handle_tick-Receives :
      (sort : List ℕ → List ℕ) (peer_id : ℕ) (now : Time) (outer_now inner_now : ℕ → Time)
      (now' : Time) (s : State ops) (d : List ℕ)
      → Receives ops start chunks s.unread_packets d
      → Receives ops start chunks
          (handle_tick ops sort peer_id now outer_now inner_now now' s).unread_packets
          d
  unfolding handle_tick
  handle_tick-Receives sort peer_id now outer_now inner_now now' s d h =
      let s₁ = tick_ack ops sort peer_id now s in
      let k =
        tick_negative-Receives sort peer_id now outer_now inner_now s₁.congestion.receive_timeout s₁
          d
          (subst (λ w. Receives ops start chunks w d) (sym (tick_ack-keeps sort peer_id now s))
            h) in
      both_branches (λ (x : State ops). Receives ops start chunks x.unread_packets d) _ _ _ k k

  pub handle_ack_of_ack-keeps :
      (now : Time) (p : ControlPacket) (s : State ops)
      → (handle_ack_of_ack ops now p s).unread_packets ≡ s.unread_packets
  unfolding handle_ack_of_ack
  handle_ack_of_ack-keeps now p s = refl

  -- More of the stream changes nothing for what was received.
  Holds-more :
      (more : List (List ℕ)) (k : ℕ) (u : Unread ops)
      → Holds ops chunks k u
      → Holds ops (chunks ++ more) k u
  Holds-more more k u h = record {
    chunk = λ e. get_elem?-append_some chunks more k u.packet.payload (h.chunk e);
    unread = h.unread;
  }

  HoldAll-more :
      (more : List (List ℕ)) (k : ℕ) (us : List (Unread ops))
      → HoldAll ops chunks k us
      → HoldAll ops (chunks ++ more) k us
  HoldAll-more more k [] h = tt
  HoldAll-more more k (u ∷ us) (a, b, c) =
      (Holds-more more k u a, b, HoldAll-more more (suc k) us c)

  Hold-more :
      (more : List (List ℕ)) (k : ℕ) (us : List (Unread ops))
      → Hold ops chunks k us
      → Hold ops (chunks ++ more) k us
  Hold-more more k [] h = tt
  Hold-more more k (u ∷ us) (a, c) = (Holds-more more k u a, HoldAll-more more (suc k) us c)

  same_started :
      (more : List (List ℕ)) (us : List (Unread ops))
      → started ops chunks us ≡ started ops (chunks ++ more) us
  same_started more [] = refl
  same_started more (u ∷ us) = refl

  pub Receives-more :
      (more : List (List ℕ)) (w : Window (Unread ops)) (d : List ℕ)
      → Receives ops start chunks w d
      → Receives ops start (chunks ++ more) w d
  Receives-more more w d h = record {
    valid = h.valid;
    removed = h.removed;
    begin_at = h.begin_at;
    fits = omega (arith, h.fits, length-append chunks more);
    entries = Hold-more more h.removed w.items h.entries;
    read =
        h.read
        ∙ ap₂ ◌++◌ (ap flatten (sym (take-append_le h.removed chunks more h.fits)))
            (same_started more w.items);
  }
