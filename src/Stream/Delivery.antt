-- ===== src/Stream/Delivery.antt =====
-- What the two ends of src/maidsafe/transport/rudp_sender.cc and rudp_receiver.cc keep together, and
-- what follows for the bytes that are delivered.
use maid_safe_transport.Base.{
  ℕ, Bool, suc, inl, inr, Bool-cases, ◌+◌, ◌-◌, ◌≤◌, ◌<◌, ◌≡◌, ◌∙◌, refl, sym, ap, ap₂, subst,
  arith, List, [], ◌∷◌, ◌++◌, length, take, drop, All, append_assoc, length-append,
}
use maid_safe_transport.Base.Pieces.{
  flatten, flatten-append, take-append-drop, drop-cons, All-middle,
}
use maid_safe_transport.Time.{TimeOps}
use maid_safe_transport.Window.{size, reset}
use maid_safe_transport.Window.Circle.{modulus, ahead}
use maid_safe_transport.Window.Index.{IsValid, reset-IsValid}
use maid_safe_transport.Stream.Numbered.{
  packets, InOrder, StateSends, IsKnown, handle_ack-Sends, handle_negative_ack-Sends,
  handle_tick-Sends,
}
use maid_safe_transport.Stream.Written.{add_data-Sends}
use maid_safe_transport.Stream.Entries.{started, Hold}
use maid_safe_transport.Stream.Received.{Receives, handle_data-Receives, read_data-Receives}
use maid_safe_transport.Stream.Ticked.{handle_tick-Receives, handle_ack_of_ack-keeps, Receives-more}
use maid_safe_transport.Stream.Network.{
  System, Step, Reach, IsOpened, written, read, wrote, acked, refused, sender_ticked, arrived,
  answered, receiver_ticked, was_read, here, after, at_sender, at_receiver,
}
use maid_safe_transport.Stream.Written.{contents}
use maid_safe_transport.Sender
use maid_safe_transport.Sender.{resized, Sent}
use maid_safe_transport.Sender.Adding.{cut}
use maid_safe_transport.Receiver

module _ (ops : TimeOps) (start : ℕ) where
  open ops use {Time}

  -- Both ends agree on how the stream was cut into packets.
  record Agrees (s : System ops) : Type 0 where
    chunks : List (List ℕ)
    sends : StateSends ops start chunks s.sender
    receives : Receives ops start chunks s.receiver.unread_packets s.delivered
    bytes : s.accepted ≡ flatten chunks
    count : s.numbered ≡ length chunks

  sender-Agrees :
      (s : System ops) (t : Sender.State ops) (h : Agrees s)
      → StateSends ops start h.chunks t
      → Agrees (at_sender ops s t)
  sender-Agrees s t h k = record {
    chunks = h.chunks;
    sends = k;
    receives = h.receives;
    bytes = h.bytes;
    count = h.count;
  }

  receiver-Agrees :
      (s : System ops) (t : Receiver.State ops) (h : Agrees s)
      → Receives ops start h.chunks t.unread_packets s.delivered
      → Agrees (at_receiver ops s t)
  receiver-Agrees s t h k = record {
    chunks = h.chunks;
    sends = h.sends;
    receives = k;
    bytes = h.bytes;
    count = h.count;
  }

  read-Agrees : (room : ℕ) (s : System ops) → Agrees s → Agrees (read ops room s)
  unfolding read
  read-Agrees room s h = record {
    chunks = h.chunks;
    sends = h.sends;
    receives = read_data-Receives ops start h.chunks room s.receiver s.delivered h.receives;
    bytes = h.bytes;
    count = h.count;
  }

  written-Agrees :
      (now : Time) (succeeds : ℕ → Bool) (peer_id : ℕ) (bytes : List ℕ) (s : System ops)
      → Agrees s
      → Agrees (written ops now succeeds peer_id bytes s)
  unfolding written
  written-Agrees now succeeds peer_id bytes s h =
      let w = resized ops s.sender in
      let more = contents ops (
        cut ops (w.maximum_size - size w) peer_id s.sender.congestion.send_data_size w.end bytes) in
      let (a, b, c) =
        add_data-Sends ops start now succeeds peer_id bytes s.sender h.chunks h.sends in
      record {
        chunks = h.chunks ++ more;
        sends = a;
        receives =
            Receives-more ops start h.chunks more s.receiver.unread_packets s.delivered h.receives;
        bytes = ap₂ ◌++◌ h.bytes b ∙ sym (flatten-append h.chunks more);
        count = omega (arith, c, h.count, length-append h.chunks more);
      }

  Step-Agrees : {s t : System ops} → Step ops s t → t.numbered + 512 ≤ modulus → Agrees s → Agrees t
  Step-Agrees (wrote now succeeds peer_id bytes s) small h =
      written-Agrees now succeeds peer_id bytes s h
  Step-Agrees (acked d now succeeds peer_id p s fits) small h =
      sender-Agrees s _ h
        (handle_ack-Sends ops start h.chunks d now succeeds peer_id p s.sender fits h.sends)
  Step-Agrees (refused now succeeds p s) small h =
      sender-Agrees s _ h
        (handle_negative_ack-Sends ops start h.chunks now succeeds p s.sender h.sends)
  Step-Agrees (sender_ticked now now_at now' succeeds s) small h =
      sender-Agrees s _ h
        (handle_tick-Sends ops start h.chunks now now_at now' succeeds s.sender h.sends)
  Step-Agrees (arrived now_at now now' now'' earlier later p s e) small h =
      let (k, n) =
        All-middle (IsKnown ops start h.chunks) earlier (Sent.data_sent p) later
          (subst (All (IsKnown ops start h.chunks)) e h.sends.known) in
      receiver-Agrees s _ h (
        handle_data-Receives ops start h.chunks now_at now now' now'' p s.receiver s.delivered k
          (omega (arith, small, h.count)) n h.receives)
  Step-Agrees (answered now p s) small h = receiver-Agrees s _ h (
      subst (λ w. Receives ops start h.chunks w s.delivered)
        (sym (handle_ack_of_ack-keeps ops start h.chunks now p s.receiver)) h.receives)
  Step-Agrees (receiver_ticked sort peer_id now outer_now inner_now now' s) small h =
      receiver-Agrees s _ h (
        handle_tick-Receives ops start h.chunks sort peer_id now outer_now inner_now now' s.receiver
          s.delivered h.receives)
  Step-Agrees (was_read room s) small h = read-Agrees room s h

  -- The count of packets only grows.
  Step-numbered : {s t : System ops} → Step ops s t → s.numbered ≤ t.numbered
  unfolding written read
  Step-numbered (wrote now succeeds peer_id bytes s) = omega arith
  Step-numbered (acked d now succeeds peer_id p s fits) = omega arith
  Step-numbered (refused now succeeds p s) = omega arith
  Step-numbered (sender_ticked now now_at now' succeeds s) = omega arith
  Step-numbered (arrived now_at now now' now'' earlier later p s e) = omega arith
  Step-numbered (answered now p s) = omega arith
  Step-numbered (receiver_ticked sort peer_id now outer_now inner_now now' s) = omega arith
  Step-numbered (was_read room s) = omega arith

  opened-Agrees : (s : System ops) → start < modulus → IsOpened ops start s → Agrees s
  unfolding reset
  opened-Agrees s lt h = record {
    chunks = [];
    sends = record {
      valid = subst IsValid (sym h.unacked) (reset-IsValid start lt);
      removed = 0;
      begin_at = ap (λ w. w.begin) h.unacked ∙ from_start;
      total = omega (arith, ap size h.unacked);
      in_order = subst (λ w. InOrder ops start [] 0 (packets ops w.items)) (sym h.unacked) tt;
      known = subst (All (IsKnown ops start [])) (sym h.none_sent) tt;
    };
    receives = record {
      valid = subst IsValid (sym h.unread) (reset-IsValid start lt);
      removed = 0;
      begin_at = ap (λ w. w.begin) h.unread ∙ from_start;
      fits = omega arith;
      entries = subst (λ w. Hold ops [] 0 w.items) (sym h.unread) tt;
      read = h.none_delivered ∙ ap (λ w. started ops [] w.items) (sym h.unread);
    };
    bytes = h.none_accepted;
    count = h.none_numbered;
  }
    where
      from_start : start ≡ ahead start 0
      from_start = omega (arith, lt)

  Reach-Agrees :
      {s t : System ops}
      → start < modulus
      → IsOpened ops start s
      → t.numbered + 512 ≤ modulus
      → Reach ops s t
      → Agrees t
  Reach-Agrees {s} lt o small here = opened-Agrees s lt o
  Reach-Agrees lt o small (after r st) =
      Step-Agrees st small (Reach-Agrees lt o (omega (arith, small, Step-numbered st)) r)

  -- What was read of the next packet is the first part of what is not delivered in whole.
  not_delivered :
      (chunks : List (List ℕ)) (k : ℕ) (us : List (Receiver.Unread ops))
      → Hold ops chunks k us
      → (rest : List ℕ) × (started ops chunks us ++ rest ≡ flatten (drop k chunks))
  not_delivered chunks k [] h = (flatten (drop k chunks), refl)
  not_delivered chunks k (u ∷ us) (x, y) = elim (Bool-cases u.lost) [
    | inl lost ↦ (
      flatten (drop k chunks),
      ap (λ n. take n u.packet.payload ++ flatten (drop k chunks)) (x.unread lost),
    )
    | inr kept ↦ (
      drop u.bytes_read u.packet.payload ++ flatten (drop (suc k) chunks),
      sym (append_assoc (take u.bytes_read u.packet.payload) _ _)
          ∙ ap (◌++ flatten (drop (suc k) chunks)) (take-append-drop u.bytes_read u.packet.payload)
          ∙ ap flatten (sym (drop-cons k chunks u.packet.payload (x.chunk kept))),
    )
  ]

  -- From a connection that has just opened, whatever data packets arrive, late, twice, never or in
  -- another order, and whatever acknowledgements with numbers of 32 bits and clocks the two ends
  -- see: as long as the packets of the stream are fewer than the circle of numbers less the largest
  -- window, the bytes that `ReadData` has copied out are the first of those that `AddData` has taken.
  pub delivered-accepted :
      (s t : System ops)
      → start < modulus
      → IsOpened ops start s
      → t.numbered + 512 ≤ modulus
      → Reach ops s t
      → (rest : List ℕ) × (t.delivered ++ rest ≡ t.accepted)
  delivered-accepted s t lt o small r =
      let h = Reach-Agrees lt o small r in
      let (rest, e) =
        not_delivered h.chunks h.receives.removed t.receiver.unread_packets.items
          h.receives.entries in
      (
        rest,
        ap (◌++ rest) h.receives.read
            ∙ append_assoc (flatten (take h.receives.removed h.chunks)) _ rest
            ∙ ap (flatten (take h.receives.removed h.chunks) ++◌) e
            ∙ sym (
                flatten-append (take h.receives.removed h.chunks)
                  (drop h.receives.removed h.chunks))
            ∙ ap flatten (take-append-drop h.receives.removed h.chunks)
            ∙ sym h.bytes,
      )
