-- ===== src/Receiver/Arriving.antt =====
-- `HandleData`: which data packets the receiver takes, and what it leaves alone.
use maid_safe_transport.Base.{
  ℕ, zero, suc, ◌+◌, ◌^◌, ◌≤◌, ◌<◌, ◌≡◌, ◌∙◌, refl, sym, ap, ap₂, subst, arith, Bool, true, false,
  not,
}
use maid_safe_transport.Base.{◌&&◌, ◌||◌, none, some, inl, inr, ltb, ==→eq, eq→==}
use maid_safe_transport.Base.{Bool-cases, Option-cases, ◌==◌, if◌then◌else◌, length-append, ◌∷◌, []}
use maid_safe_transport.Time.{TimeOps}
use maid_safe_transport.Packet.Data.{DataPacket}
use maid_safe_transport.Window.{Window, size, set_item, append, is_full, is_coming_soon, item}
use maid_safe_transport.Window.{
  sequence_number_to_index, contains, set_maximum_size, maximum_window_size,
}
use maid_safe_transport.Window.Circle.{modulus, offset, is_in_range-offset}
use maid_safe_transport.Window.Index.{
  IsValid, append-IsValid, contains-offset, set_maximum_size-IsValid,
}
use maid_safe_transport.Window.Index.{set_item-IsValid}
use maid_safe_transport.Window.Lookup.{item-append, contains-append, item-some, item-set_item}
use maid_safe_transport.Receiver.{State, Unread, new_unread, not_received, reserve}
use maid_safe_transport.Congestion.{on_data_packet_received}
use maid_safe_transport.Receiver.{reserve_loop, store_packet, received, handle_data}

module _ (ops : TimeOps) where
  open ops use {Time}

  end_not_contained : (w : Window (Unread ops)) → IsValid w → contains w w.end ≡ false
  end_not_contained w v = ground (arith, v, contains-offset w w.end v)

  -- What the loop that makes room up to the number `n` leaves.
  record Reserved (n : ℕ) (w w' : Window (Unread ops)) : Type 0 where
    valid : IsValid w'
    same_begin : w'.begin ≡ w.begin
    grown : size w ≤ size w'
    reaches : offset w.begin n < w.maximum_size → offset w.begin n < size w'
    old : (m : ℕ) → m < 2 ^ 32 → contains w m ≡ true → item w' m ≡ item w m
    new :
        (m : ℕ)
        → m < 2 ^ 32
        → contains w m ≡ false
        → contains w' m ≡ true
        → not_received ops (item w' m) ≡ true

  Reserved-refl :
      (n : ℕ) (w : Window (Unread ops))
      → IsValid w
      → n < modulus
      → is_coming_soon w n && not (is_full w) ≡ false
      → Reserved n w w
  unfolding is_coming_soon is_full
  Reserved-refl n w v hn stop = record {
    valid = v;
    same_begin = refl;
    grown = omega arith;
    reaches = λ h. ground (
      arith,
      v,
      is_in_range-offset w.end maximum_window_size n (omega (arith, v.end_ahead)) (omega arith)
          (omega arith),
      stop,
    );
    old = λ m hm c. refl;
    new = λ m hm c c'. absurd (ground (arith, c, c'));
  }

  Reserved-append :
      (n : ℕ) (t : Unread ops) (w w' : Window (Unread ops))
      → IsValid w
      → is_full w ≡ false
      → t.lost ≡ true
      → Reserved n (append t w).1 w'
      → Reserved n w w'
  Reserved-append n t w w' v f lost r = record {
    valid = r.valid;
    same_begin = unfold append in r.same_begin;
    grown = unfold append in omega (arith, r.grown, length-append w.items (t ∷ []));
    reaches = unfold append in r.reaches;
    old = λ m hm c.
        let other : (m == w.end) ≡ false = ground (arith, v, c, contains-offset w m v hm) in
        let c' : contains (append t w).1 m ≡ true = contains-append t w m v f hm ∙ rw c refl in
        r.old m hm c'
        ∙ item-append t w m v f hm c'
        ∙ ap (λ b. if b then some t else item w m) other;
    new = λ m hm c c'. elim (Bool-cases (m == w.end)) [
      | inl e ↦
          let d : contains (append t w).1 m ≡ true =
            contains-append t w m v f hm ∙ rw (c, e) refl in
          ap (not_received ops)
            (r.old m hm d ∙ item-append t w m v f hm d ∙ ap (λ b. if b then some t else item w m) e)
          ∙ lost
      | inr e ↦ r.new m hm (contains-append t w m v f hm ∙ rw (c, e) refl) c'
    ];
  }

  stops_full :
      (w : Window (Unread ops)) (n : ℕ)
      → w.maximum_size ≤ 0 + size w
      → is_coming_soon w n && not (is_full w) ≡ false
  unfolding is_full
  stops_full w n h = ground arith

  room_left : (soon full : Bool) → soon && not full ≡ true → full ≡ false
  room_left soon full h = ground arith

  reserve_loop_lem :
      (now_at : ℕ → Time) (fuel n : ℕ) (w : Window (Unread ops))
      → IsValid w
      → n < modulus
      → w.maximum_size ≤ fuel + size w
      → Reserved n w (reserve_loop ops now_at fuel n w)
  unfolding reserve_loop
  reserve_loop_lem now_at zero n w v hn h = Reserved-refl n w v hn (stops_full w n h)
  reserve_loop_lem now_at (suc fuel) n w v hn h =
      elim (Bool-cases (is_coming_soon w n && not (is_full w))) [
        | inl go ↦
            let f : is_full w ≡ false = room_left (is_coming_soon w n) (is_full w) go in
            let t = new_unread ops (now_at w.end) in
            rw (go, reserve_loop)
              (Reserved-append n t w _ v f (unfold new_unread in refl) (
                reserve_loop_lem now_at fuel n (append t w).1 (append-IsValid t w v f) hn
                  (unfold append in omega (arith, length-append w.items (t ∷ [])))))
        | inr stop ↦ rw (stop, reserve_loop) (Reserved-refl n w v hn stop)
      ]

  abbrev with_received : Time → DataPacket → Unread ops → State ops → State ops
  with_received now p x s = record s {
    congestion = on_data_packet_received ops now p.packet_sequence_number s.congestion;
    unread_packets = set_item p.packet_sequence_number (received ops p x) s.unread_packets;
  }

  pub store_packet-window :
      (now : Time) (p : DataPacket) (s : State ops) (x : Unread ops) (b : Bool)
      → let w = s.unread_packets in
        let n = p.packet_sequence_number in
        item w n ≡ some x
        → (contains w n && x.lost) ≡ b
        → (store_packet ops now p s).unread_packets
          ≡ (if b then set_item n (received ops p x) w else w)
  unfolding store_packet
  store_packet-window now p s x true e h =
      rw (e, store_packet) (ap (λ b. (if b then with_received now p x s else s).unread_packets) h)
  store_packet-window now p s x false e h =
      rw (e, store_packet) (ap (λ b. (if b then with_received now p x s else s).unread_packets) h)

  Reserved-contains :
      (n m : ℕ) (w w' : Window (Unread ops))
      → IsValid w
      → Reserved n w w'
      → m < 2 ^ 32
      → contains w m ≡ true
      → contains w' m ≡ true
  Reserved-contains n m w w' v r hm c =
      ground (arith, v, r, c, contains-offset w m v hm, contains-offset w' m r.valid hm)

  Reserved-here :
      (n : ℕ) (w w' : Window (Unread ops))
      → IsValid w
      → Reserved n w w'
      → n < modulus
      → (contains w n || ltb (offset w.begin n) w.maximum_size) ≡ true
      → contains w' n ≡ true
  Reserved-here n w w' v r hn h = ground (
    arith,
    v,
    r,
    h,
    contains-offset w n v (omega arith),
    contains-offset w' n r.valid (omega arith),
  )

  Reserved-lost :
      (n : ℕ) (w w' : Window (Unread ops))
      → Reserved n w w'
      → n < 2 ^ 32
      → contains w' n ≡ true
      → (contains w n && not (not_received ops (item w n))) ≡ false
      → not_received ops (item w' n) ≡ true
  Reserved-lost n w w' r hn c h = elim (Bool-cases (contains w n)) [
    | inl old ↦
        ap (not_received ops) (r.old n hn old)
        ∙ twice (not_received ops (item w n))
            (sym (ap (λ b. b && not (not_received ops (item w n))) old) ∙ h)
    | inr fresh ↦ r.new n hn fresh c
  ]
    where
      twice : (b : Bool) → not b ≡ false → b ≡ true
      twice b h = ground arith

  resized-same :
      (limit m : ℕ) (w : Window (Unread ops))
      → (contains (set_maximum_size limit w) m ≡ contains w m)
        × (item (set_maximum_size limit w) m ≡ item w m)
  unfolding contains item set_maximum_size sequence_number_to_index
  resized-same limit m w = (refl, refl)

  pub store_packet-none :
      (now : Time) (p : DataPacket) (s : State ops)
      → item s.unread_packets p.packet_sequence_number ≡ none
      → (store_packet ops now p s).unread_packets ≡ s.unread_packets
  unfolding store_packet
  store_packet-none now p s e = rw (e, store_packet)

  module _ (p : DataPacket) (m : ℕ) (u : Unread ops) where
    -- The entry under `m` after the packet was stored, if `u` was there before.
    abbrev after : Unread ops
    after = if m == p.packet_sequence_number && u.lost then received ops p u else u

    abbrev Placed : Window (Unread ops) → Type 0
    Placed w = IsValid w × (contains w m ≡ true) × (item w m ≡ some after)

    Placed-set_item :
        (w : Window (Unread ops)) (x : Unread ops)
        → IsValid w
        → p.packet_sequence_number < 2 ^ 32
        → m < 2 ^ 32
        → contains w p.packet_sequence_number ≡ true
        → contains w m ≡ true
        → (if m == p.packet_sequence_number then some (received ops p x) else item w m) ≡ some after
        → Placed (set_item p.packet_sequence_number (received ops p x) w)
    Placed-set_item w x v hn hm cn c h = (
      set_item-IsValid p.packet_sequence_number (received ops p x) w v,
      unfold set_item in unfold contains in c,
      item-set_item w p.packet_sequence_number m (received ops p x) v hn hm cn c ∙ h,
    )

    store_packet-Placed :
        (now : Time) (s : State ops)
        → IsValid s.unread_packets
        → p.packet_sequence_number < 2 ^ 32
        → m < 2 ^ 32
        → contains s.unread_packets m ≡ true
        → item s.unread_packets m ≡ some u
        → Placed (store_packet ops now p s).unread_packets
    store_packet-Placed now s v hn hm c e =
        let w = s.unread_packets in
        let n = p.packet_sequence_number in
        elim (Bool-cases (m == n)) [
          | inl y ↦
              let same : m ≡ n = ==→eq m n y in
              let e' : item w n ≡ some u = ap (item w) (sym same) ∙ e in
              let c' : contains w n ≡ true = ap (contains w) (sym same) ∙ c in
              elim (Bool-cases u.lost) [
                | inl l ↦
                    let k : after ≡ received ops p u =
                      ap (λ b. if b && u.lost then received ops p u else u) y
                      ∙ ap (λ b. if b then received ops p u else u) l in
                    subst Placed
                      (sym (store_packet-window now p s u true e' (ap (λ b. b && u.lost) c' ∙ l)))
                      (Placed-set_item w u v hn hm c' c (
                        ap (λ b. if b then some (received ops p u) else item w m) y
                        ∙ ap some (sym k)))
                | inr l ↦
                    let k : after ≡ u =
                      ap (λ b. if b && u.lost then received ops p u else u) y
                      ∙ ap (λ b. if b then received ops p u else u) l in
                    subst Placed
                      (sym (store_packet-window now p s u false e' (ap (λ b. b && u.lost) c' ∙ l)))
                      (v, c, e ∙ ap some (sym k))
              ]
          | inr y ↦
              let k : after ≡ u = ap (λ b. if b && u.lost then received ops p u else u) y in
              elim (Option-cases (item w n)) [
                | inl z ↦
                    subst Placed (sym (store_packet-none now p s z)) (v, c, e ∙ ap some (sym k))
                | inr (x, z) ↦ elim (Bool-cases (contains w n && x.lost)) [
                  | inl b ↦ subst Placed (sym (store_packet-window now p s x true z b)) (
                      Placed-set_item w x v hn hm (both (contains w n) x.lost b) c (
                        ap (λ b. if b then some (received ops p x) else item w m) y
                        ∙ e
                        ∙ ap some (sym k)))
                  | inr b ↦
                      subst Placed (sym (store_packet-window now p s x false z b))
                        (v, c, e ∙ ap some (sym k))
                ]
              ]
        ]
      where
        both : (a b : Bool) → a && b ≡ true → a ≡ true
        both a b h = ground arith

  if-window :
      (b : Bool) (x y : State ops) {w : Window (Unread ops)}
      → x.unread_packets ≡ w
      → y.unread_packets ≡ w
      → (if b then x else y).unread_packets ≡ w
  if-window true x y h k = h
  if-window false x y h k = k

  pub handle_data-window :
      (now_at : ℕ → Time) (now now' now'' : Time) (p : DataPacket) (s : State ops)
      → (handle_data ops now_at now now' now'' p s).unread_packets
        ≡ (store_packet ops now p (record s {
          unread_packets =
              reserve ops now_at s.congestion.receive_window_size p.packet_sequence_number
                s.unread_packets;
        })).unread_packets
  unfolding handle_data
  handle_data-window now_at now now' now'' p s = if-window _ _ _ refl refl

  reserve-Reserved :
      (now_at : ℕ → Time) (limit n : ℕ) (w : Window (Unread ops))
      → IsValid w
      → n < modulus
      → Reserved n (set_maximum_size limit w) (reserve ops now_at limit n w)
  unfolding reserve
  reserve-Reserved now_at limit n w v hn =
      let w₁ = set_maximum_size limit w in
      reserve_loop_lem now_at w₁.maximum_size n w₁ (set_maximum_size-IsValid limit w v) hn
        (omega arith)

  module _ (now_at : ℕ → Time) (now now' now'' : Time) (p : DataPacket) (s : State ops)
      (v : IsValid s.unread_packets) (fits : p.packet_sequence_number < modulus) where
    abbrev roomy : Window (Unread ops)
    roomy =
        reserve ops now_at s.congestion.receive_window_size p.packet_sequence_number
          s.unread_packets

    abbrev handled : Window (Unread ops)
    handled = (handle_data ops now_at now now' now'' p s).unread_packets

    roomy_lem :
        Reserved p.packet_sequence_number
          (set_maximum_size s.congestion.receive_window_size s.unread_packets)
          roomy
    roomy_lem =
        reserve-Reserved now_at s.congestion.receive_window_size p.packet_sequence_number
          s.unread_packets v fits

    handled-roomy :
        (m : ℕ) (u : Unread ops)
        → m < 2 ^ 32
        → contains roomy m ≡ true
        → item roomy m ≡ some u
        → Placed p m u handled
    handled-roomy m u hm c e =
        subst (Placed p m u) (sym (handle_data-window now_at now now' now'' p s)) (
          store_packet-Placed p m u now (record s { unread_packets = roomy }) roomy_lem.valid
            (omega (arith, fits)) hm c e)

    -- A packet that was received and not read stays in the window as it is, whatever data packet
    -- comes; the window, valid before, is valid after.
    pub handle_data_keeps :
        (m : ℕ) (u : Unread ops)
        → m < 2 ^ 32
        → contains s.unread_packets m ≡ true
        → item s.unread_packets m ≡ some u
        → u.lost ≡ false
        → IsValid handled × (contains handled m ≡ true) × (item handled m ≡ some u)
    handle_data_keeps m u hm c e kept =
        let limit = s.congestion.receive_window_size in
        let w₁ = set_maximum_size limit s.unread_packets in
        let (k, l) = resized-same limit m s.unread_packets in
        let c₁ =
          Reserved-contains p.packet_sequence_number m w₁ roomy
            (set_maximum_size-IsValid limit s.unread_packets v) roomy_lem hm (k ∙ c) in
        let (a, b, d) = handled-roomy m u hm c₁ (roomy_lem.old m hm (k ∙ c) ∙ l ∙ e) in
        (a, b, d ∙ ap some (unchanged (m == p.packet_sequence_number) u.lost kept))
      where
        unchanged : (b lost : Bool) → lost ≡ false → (if b && lost then received ops p u else u) ≡ u
        unchanged true lost h = ap (λ l. if l then received ops p u else u) h
        unchanged false lost h = refl

    -- A data packet whose number is in the valid window, or less ahead of its beginning than the size that
    -- the congestion control allows, is stored as received, unless it was received before.
    pub handle_data_stores :
        let n = p.packet_sequence_number in
        let w = s.unread_packets in
        (contains w n
            || ltb
                (offset w.begin n)
                (set_maximum_size s.congestion.receive_window_size w).maximum_size)
          ≡ true
        → (contains w n && not (not_received ops (item w n))) ≡ false
        → IsValid handled
          × (contains handled n ≡ true)
          × ((u : Unread ops) × (item handled n ≡ some u)
              × (u.packet ≡ p)
              × (u.lost ≡ false)
              × (u.bytes_read ≡ 0))
    handle_data_stores place new =
        let limit = s.congestion.receive_window_size in
        let n = p.packet_sequence_number in
        let w₁ = set_maximum_size limit s.unread_packets in
        let v₁ = set_maximum_size-IsValid limit s.unread_packets v in
        let fits' : n < 2 ^ 32 = omega (arith, fits) in
        let (k, l) = resized-same limit n s.unread_packets in
        let place' : (contains w₁ n || ltb (offset w₁.begin n) w₁.maximum_size) ≡ true =
          ap (λ b. b || ltb (offset w₁.begin n) w₁.maximum_size) k
          ∙ unfold set_maximum_size in place in
        let c₁ = Reserved-here n w₁ roomy v₁ roomy_lem fits place' in
        let lost =
          Reserved-lost n w₁ roomy roomy_lem fits' c₁
            (ap₂ (λ b i. b && not (not_received ops i)) k l ∙ new) in
        let (u, e) = item-some roomy n roomy_lem.valid fits' c₁ in
        let (a, b, d) = handled-roomy n u fits' c₁ e in
        let is_lost : u.lost ≡ true = ap (not_received ops) (sym e) ∙ lost in
        (
          a,
          b,
          (
            received ops p u,
            d
                ∙ ap some (
                    ap (λ b. if b && u.lost then received ops p u else u) (eq→== n n refl)
                    ∙ ap (λ b. if b then received ops p u else u) is_lost),
            refl,
            refl,
            refl,
          ),
        )
