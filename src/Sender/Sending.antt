-- ===== src/Sender/Sending.antt =====
-- `DoSend`: which packet goes out.
use maid_safe_transport.Base.{ℕ, suc, ◌≡◌, ◌∙◌, refl, sym, arith, Bool, true, false}
use maid_safe_transport.Base.{◌&&◌, List, [], ◌∷◌, ◌++◌, length, inl, inr}
use maid_safe_transport.Base.{Option-cases, if◌then◌else◌, append_assoc, append-nil, length-append}
use maid_safe_transport.Time.{TimeOps}
use maid_safe_transport.Window.{Window, next, head?}
use maid_safe_transport.Window.Circle.{ahead, next-ahead}
use maid_safe_transport.Window.Index.{IsValid}
use maid_safe_transport.Window.Walk.{with_items, item-here, set_item-here, before_end}
use maid_safe_transport.Sender.{Sent, data_sent, State, Unacked, with_window}
use maid_safe_transport.Sender.{send_data, mark_sent, set_send_timeout, do_send_loop, do_send}

module _ (ops : TimeOps) where
  open ops use {Time, later}

  set_send_timeout-keeps :
      (s : State ops)
      → let s' = set_send_timeout ops s in
        (s'.unacked_packets ≡ s.unacked_packets) × (s'.sent ≡ s.sent)
  unfolding set_send_timeout
  set_send_timeout-keeps s = elim (Option-cases (head? s.unacked_packets.items)) [
    | inl e ↦ rw (e, set_send_timeout) (refl, refl)
    | inr (p, e) ↦ rw (e, set_send_timeout) (refl, refl)
  ]

  module _ (now : Time) (succeeds : ℕ → Bool) where
    -- The packets from number `n` on after `DoSend`: the first lost one that `Send` takes is marked
    -- as sent now.
    abbrev pub after_send : ℕ → List (Unacked ops) → List (Unacked ops)
    after_send n [] = []
    after_send n (p ∷ ps) =
        if p.lost && succeeds n
        then record p { lost = false; last_send_time = now } ∷ ps
        else p ∷ after_send (next n) ps

    -- The packets that are handed to `Send`: the lost ones, up to the first that it takes.
    abbrev pub attempts : ℕ → List (Unacked ops) → List Sent
    attempts n [] = []
    attempts n (p ∷ ps) =
        let rest = attempts (next n) ps in
        if p.lost then data_sent p.packet ∷ (if succeeds n then [] else rest) else rest

    module _ (w : Window (Unacked ops)) (done : List (Unacked ops)) (p : Unacked ops)
        (rest : List (Unacked ops)) (v : IsValid (with_items w (done ++ p ∷ rest)))
        (s : State ops) where
      abbrev here : State ops
      here = with_window ops s (with_items w (done ++ p ∷ rest))

      abbrev number : ℕ
      number = ahead w.begin (length done)

      send_data-here :
          send_data ops number here ≡ record here { sent = s.sent ++ data_sent p.packet ∷ [] }
      unfolding send_data
      send_data-here = rw (item-here w done p rest v, send_data)

      mark_sent-here :
          let s' =
            mark_sent ops now number (record here { sent = s.sent ++ data_sent p.packet ∷ [] }) in
          (s'.unacked_packets
            ≡ with_items w (done ++ record p { lost = false; last_send_time = now } ∷ rest))
          × (s'.sent ≡ s.sent ++ data_sent p.packet ∷ [])
      unfolding mark_sent
      mark_sent-here =
          rw (item-here w done p rest v, mark_sent)
            (set_item-here w done p (record p { lost = false; last_send_time = now }) rest v, refl)

      -- One round of the loop at a packet.
      do_send_loop-here :
          (fuel : ℕ)
          → do_send_loop ops now succeeds (suc fuel) number here ≡ (
              if p.lost
              then (if succeeds number
                  then mark_sent ops now number (send_data ops number here)
                  else do_send_loop ops now succeeds fuel (next number) (send_data ops number here))
              else do_send_loop ops now succeeds fuel (next number) here)
      unfolding do_send_loop
      do_send_loop-here fuel =
          rw (before_end w done p rest v, item-here w done p rest v, do_send_loop)

    -- What the loop leaves: the packets of the window, and the packets that it handed to `Send`.
    abbrev Leaves :
        Window (Unacked ops) → List (Unacked ops) → State ops → List Sent → State ops → Type 0
    Leaves w items s attempted s' =
        (s'.unacked_packets ≡ with_items w items) × (s'.sent ≡ s.sent ++ attempted)

    -- The three ways of a round, put together.
    Leaves-round :
        (w : Window (Unacked ops)) (s : State ops) (done sent_on kept_on : List (Unacked ops))
        → (x : Sent) (more : List Sent) → (succeeded failed skipped : State ops)
        → Leaves w (done ++ sent_on) s (x ∷ []) succeeded
        → Leaves w (done ++ kept_on) s (x ∷ more) failed
        → Leaves w (done ++ kept_on) s more skipped
        → (lost ok : Bool)
        → Leaves w
            (done ++ (if lost && ok then sent_on else kept_on))
            s
            (if lost then x ∷ (if ok then [] else more) else more)
            (if lost then (if ok then succeeded else failed) else skipped)
    Leaves-round w s done a b x more st sf sk h₁ h₂ h₃ true true = h₁
    Leaves-round w s done a b x more st sf sk h₁ h₂ h₃ true false = h₂
    Leaves-round w s done a b x more st sf sk h₁ h₂ h₃ false true = h₃
    Leaves-round w s done a b x more st sf sk h₁ h₂ h₃ false false = h₃

    -- The rest of the window behind one more packet.
    after_shift :
        (w : Window (Unacked ops)) (done : List (Unacked ops)) (p : Unacked ops)
        → (rest : List (Unacked ops)) (t : State ops) → IsValid (with_items w (done ++ p ∷ rest))
        → let n = ahead w.begin (length (done ++ p ∷ [])) in
          Leaves w ((done ++ p ∷ []) ++ after_send n rest) t (attempts n rest) (
            do_send_loop ops now succeeds
              (length rest)
              n
              (with_window ops t (with_items w ((done ++ p ∷ []) ++ rest))))
          → let m = next (ahead w.begin (length done)) in
            Leaves w (done ++ p ∷ after_send m rest) t (attempts m rest) (
              do_send_loop ops now succeeds
                (length rest)
                m
                (with_window ops t (with_items w (done ++ p ∷ rest))))
    after_shift w done p rest t v h =
        let len : length (done ++ p ∷ []) ≡ suc (length done) =
          omega (arith, length-append done (p ∷ [])) in
        rw (next-ahead w.begin (length done) v.begin_fits) (
          rw
            (
              append_assoc done (p ∷ []) rest,
              len,
              append_assoc done (p ∷ []) (after_send (ahead w.begin (suc (length done))) rest),
            )
            at h)

    sends_from :
        (rest done : List (Unacked ops)) (w : Window (Unacked ops)) (s : State ops)
        → IsValid (with_items w (done ++ rest))
        → let n = ahead w.begin (length done) in
          Leaves w (done ++ after_send n rest) s (attempts n rest) (
            do_send_loop ops now succeeds
              (length rest)
              n
              (with_window ops s (with_items w (done ++ rest))))
    sends_from [] done w s v =
        let (a, b) = set_send_timeout-keeps (with_window ops s (with_items w (done ++ []))) in
        unfold do_send_loop in (a, b ∙ sym (append-nil s.sent))
    sends_from (p ∷ rest) done w s v =
        let n = ahead w.begin (length done) in
        let logged : State ops = record s { sent = s.sent ++ data_sent p.packet ∷ [] } in
        let shift : (done ++ p ∷ []) ++ rest ≡ done ++ p ∷ rest = append_assoc done (p ∷ []) rest in
        let later_ones = λ (t : State ops).
          after_shift w done p rest t v (sends_from rest (done ++ p ∷ []) w t (rw shift v)) in
        let (a, b) = later_ones logged in
        rw (do_send_loop-here w done p rest v s (length rest), send_data-here w done p rest v s)
          (Leaves-round w s done (record p { lost = false; last_send_time = now } ∷ rest)
            (p ∷ after_send (next n) rest) (data_sent p.packet) (attempts (next n) rest) _ _ _
            (mark_sent-here w done p rest v s)
            (a, b ∙ append_assoc s.sent (data_sent p.packet ∷ []) (attempts (next n) rest))
            (later_ones s) p.lost (succeeds n))

    -- `DoSend` on a valid window hands the lost packets to `Send` in the order of their numbers, up
    -- to the first that it takes; that packet is marked as sent now, and no other packet changes.
    pub do_send_lem :
        (s : State ops)
        → IsValid s.unacked_packets
        → let w = s.unacked_packets in
          let s' = do_send ops now succeeds s in
          (s'.unacked_packets ≡ record w { items = after_send w.begin w.items })
          × (s'.sent ≡ s.sent ++ attempts w.begin w.items)
    unfolding do_send
    do_send_lem s v =
        let start : ahead s.unacked_packets.begin 0 ≡ s.unacked_packets.begin =
          omega (arith, v.begin_fits) in
        rw start at (sends_from s.unacked_packets.items [] s.unacked_packets s v)
