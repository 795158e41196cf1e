-- ===== src/Receiver/Reading.antt =====
-- `ReadData`: the stream of bytes that the application sees.
use maid_safe_transport.Base.{
  ℕ, zero, suc, ◌+◌, ◌-◌, ◌≤◌, ◌<◌, ◌≡◌, ◌∙◌, refl, sym, ap, arith, true, false,
}
use maid_safe_transport.Base.{none, some, List, [], ◌∷◌, ◌++◌, length, inl, inr, take, drop, min}
use maid_safe_transport.Base.{
  Bool-cases, Option-cases, ◌==◌, ltb, if◌then◌else◌, length-drop, append-nil,
}
use maid_safe_transport.Base.{
  leb, leb→le, leb_false→lt, ltb→lt, ltb_false→le, eq→==, lt→ltb, ne→==_false,
}
use maid_safe_transport.Base.Pieces.{
  take_nil, drop_nil, take-append_ge, drop-append_ge, take-append_le,
}
use maid_safe_transport.Base.Pieces.{drop-append_le, take_all, drop_all, drop-drop, length-take}
use maid_safe_transport.Time.{TimeOps}
use maid_safe_transport.Window.{Window, next, set_item, remove, is_empty, item}
use maid_safe_transport.Window.Circle.{ahead}
use maid_safe_transport.Window.Index.{IsValid, remove-IsValid}
use maid_safe_transport.Window.Walk.{with_items, item-here, set_item-here, before_end, same_length}
use maid_safe_transport.Receiver.{State, Unread, read_packet, read_round, read_loop}
use maid_safe_transport.Receiver.{read_data, copied}

module _ (ops : TimeOps) where
  open ops use {Time}

  -- The bytes that can be read: those of the packets before the first lost one, from where the last
  -- read stopped.
  abbrev pub readable : List (Unread ops) → List ℕ
  readable [] = []
  readable (u ∷ us) = if u.lost then [] else drop u.bytes_read u.packet.payload ++ readable us

  module _ (w : Window (Unread ops)) (u : Unread ops) (us : List (Unread ops))
      (v : IsValid (with_items w (u ∷ us))) where
    first_item : item (with_items w (u ∷ us)) w.begin ≡ some u
    first_item =
        let start : ahead w.begin 0 ≡ w.begin = omega (arith, v.begin_fits) in
        rw start at (item-here w [] u us v)

    first_set :
        (t : Unread ops) → set_item w.begin t (with_items w (u ∷ us)) ≡ with_items w (t ∷ us)
    first_set t =
        let start : ahead w.begin 0 ≡ w.begin = omega (arith, v.begin_fits) in
        rw start at (set_item-here w [] u t us v)

    not_end : (w.begin == w.end) ≡ false
    not_end =
        let start : ahead w.begin 0 ≡ w.begin = omega (arith, v.begin_fits) in
        rw start at (before_end w [] u us v)

    pub rest_IsValid : IsValid (with_items (remove w) us)
    unfolding remove
    rest_IsValid =
        remove-IsValid (with_items w (u ∷ us)) v
          (unfold is_empty in ne→==_false (suc (length us)) 0 (omega arith))

    pub read_round-kept :
        (room : ℕ)
        → u.lost ≡ false
        → 0 < room
        → read_round ops room w.begin (with_items w (u ∷ us))
          ≡ some (copied ops room w.begin (with_items w (u ∷ us)) u)
    unfolding read_round read_packet
    read_round-kept room kept some_room =
        rw (first_item, read_round, not_end, ne→==_false room 0 (omega arith))
          (ap (λ b. if b then none else some (copied ops room w.begin (with_items w (u ∷ us)) u))
            kept)

    -- A packet that is read to its end goes out of the window.
    pub copied-all :
        (room : ℕ)
        → length u.packet.payload - u.bytes_read ≤ room
        → copied ops room w.begin (with_items w (u ∷ us)) u
          ≡ (drop u.bytes_read u.packet.payload, with_items (remove w) us)
    unfolding copied remove
    copied-all room h = elim (Bool-cases (ltb u.bytes_read (length u.packet.payload))) [
      | inl more ↦
          let all : min room (length u.packet.payload - u.bytes_read)
              ≡ length u.packet.payload - u.bytes_read =
            omega arith in
          let whole : (length u.packet.payload
                == u.bytes_read + (length u.packet.payload - u.bytes_read))
              ≡ true =
            eq→== _ _ (omega (arith, ltb→lt u.bytes_read (length u.packet.payload) more)) in
          let chunk : take (length u.packet.payload - u.bytes_read)
                (drop u.bytes_read u.packet.payload)
              ≡ drop u.bytes_read u.packet.payload =
            take_all _ _ (omega (arith, length-drop u.bytes_read u.packet.payload)) in
          rw (more, all, whole, chunk)
            (ap (λ k. (drop u.bytes_read u.packet.payload, remove k))
              (first_set (record u {
                bytes_read = u.bytes_read + (length u.packet.payload - u.bytes_read);
              })))
      | inr done ↦
          let none_left : drop u.bytes_read u.packet.payload ≡ [] =
            drop_all _ _ (ltb_false→le _ _ done) in
          rw (done, none_left)
    ]

    -- A packet that does not fit stays, with what was read of it.
    pub copied-part :
        (room : ℕ)
        → room < length u.packet.payload - u.bytes_read
        → copied ops room w.begin (with_items w (u ∷ us)) u ≡ (
          take room (drop u.bytes_read u.packet.payload),
          with_items w (record u { bytes_read = u.bytes_read + room } ∷ us),
        )
    unfolding copied
    copied-part room h =
        let part : min room (length u.packet.payload - u.bytes_read) ≡ room = omega arith in
        let more : ltb u.bytes_read (length u.packet.payload) ≡ true = lt→ltb _ _ (omega arith) in
        let short : (length u.packet.payload == u.bytes_read + room) ≡ false =
          ne→==_false _ _ (omega arith) in
        rw (more, part, short)
          (ap (λ k. (take room (drop u.bytes_read u.packet.payload), k))
            (first_set (record u { bytes_read = u.bytes_read + room })))

    pub read_round-lost :
        (room : ℕ) → u.lost ≡ true → read_round ops room w.begin (with_items w (u ∷ us)) ≡ none
    unfolding read_round read_packet
    read_round-lost room lost = elim (Bool-cases (room == 0)) [
      | inl z ↦ rw (first_item, read_round, z, not_end)
      | inr z ↦ rw (first_item, read_round, z, not_end, read_packet, lost)
    ]

  -- What a read of `room` bytes from some packets leaves.
  abbrev Reads : ℕ → List (Unread ops) → List ℕ × Window (Unread ops) → Type 0
  Reads room us out =
      (out.0 ≡ take room (readable us))
      × (readable out.1.items ≡ drop room (readable us))
      × IsValid out.1

  -- With no room the loop stops at once.
  pub read_loop_full : (fuel n : ℕ) (w : Window (Unread ops)) → read_loop ops fuel n 0 w ≡ ([], w)
  unfolding read_loop read_round
  read_loop_full zero n w = refl
  read_loop_full (suc fuel) n w = elim (Option-cases (item w n)) [
    | inl e ↦ rw (e, read_loop, read_round)
    | inr (u, e) ↦ elim (Bool-cases (n == w.end)) [
      | inl z ↦ rw (e, read_loop, read_round, z)
      | inr z ↦ rw (e, read_loop, read_round, z)
    ]
  ]

  readable-kept :
      (u : Unread ops) (us : List (Unread ops))
      → u.lost ≡ false
      → readable (u ∷ us) ≡ drop u.bytes_read u.packet.payload ++ readable us
  readable-kept u us kept =
      ap (λ b. if b then [] else drop u.bytes_read u.packet.payload ++ readable us) kept

  read_loop_lem :
      (us : List (Unread ops)) (w : Window (Unread ops)) (room : ℕ)
      → IsValid (with_items w us)
      → Reads room us (read_loop ops (length us) w.begin room (with_items w us))
  unfolding read_loop remove
  read_loop_lem [] w room v = (sym (take_nil room), sym (drop_nil room), v)
  read_loop_lem (u ∷ us) w zero v =
      rw (read_loop_full (suc (length us)) w.begin (with_items w (u ∷ us))) (refl, refl, v)
  read_loop_lem (u ∷ us) w (suc r) v = elim (Bool-cases u.lost) [
    | inl lost ↦
        let e : readable (u ∷ us) ≡ [] =
          ap (λ b. if b then [] else drop u.bytes_read u.packet.payload ++ readable us) lost in
        rw (read_round-lost w u us v (suc r) lost, read_loop, e) (refl, refl, v)
    | inr kept ↦
        let e = readable-kept u us kept in
        elim (Bool-cases (leb (length u.packet.payload - u.bytes_read) (suc r))) [
          | inl fits ↦
              let h : length u.packet.payload - u.bytes_read ≤ suc r = leb→le _ _ fits in
              let h' : length (drop u.bytes_read u.packet.payload) ≤ suc r =
                omega (arith, length-drop u.bytes_read u.packet.payload) in
              let (a, b, c) =
                read_loop_lem us (remove w) (suc r - length (drop u.bytes_read u.packet.payload))
                  (rest_IsValid w u us v) in
              rw
                (
                  read_round-kept w u us v (suc r) kept (omega arith),
                  read_loop,
                  e,
                  copied-all w u us v (suc r) h,
                )
                (
                  ap (drop u.bytes_read u.packet.payload ++◌) a
                      ∙ sym (take-append_ge (suc r) _ (readable us) h'),
                  b ∙ sym (drop-append_ge (suc r) _ (readable us) h'),
                  c,
                )
          | inr over ↦
              let h : suc r < length u.packet.payload - u.bytes_read =
                omega (arith, leb_false→lt _ _ over) in
              let h' : suc r ≤ length (drop u.bytes_read u.packet.payload) =
                omega (arith, length-drop u.bytes_read u.packet.payload) in
              let used : suc r - length (take (suc r) (drop u.bytes_read u.packet.payload)) ≡ 0 =
                omega (arith, length-take (suc r) (drop u.bytes_read u.packet.payload) h') in
              rw
                (
                  read_round-kept w u us v (suc r) kept (omega arith),
                  read_loop,
                  e,
                  copied-part w u us v (suc r) h,
                  used,
                  read_loop_full (length us) (next w.begin)
                      (with_items w (record u { bytes_read = u.bytes_read + suc r } ∷ us)),
                )
                (
                  append-nil _ ∙ sym (take-append_le (suc r) _ (readable us) h'),
                  readable-kept (record u { bytes_read = u.bytes_read + suc r }) us kept
                      ∙ ap (λ xs. xs ++ readable us)
                          (sym (drop-drop (suc r) u.bytes_read u.packet.payload))
                      ∙ sym (drop-append_le (suc r) _ (readable us) h'),
                  same_length w (u ∷ us) (record u { bytes_read = u.bytes_read + suc r } ∷ us) refl
                      v,
                )
        ]
  ]

  -- `ReadData` on a valid window copies the first bytes of the stream, as many as the buffer has room
  -- for or as there are before the first lost packet; what can be read after it is the rest of them.
  pub read_data_lem :
      (room : ℕ) (s : State ops)
      → IsValid s.unread_packets
      → let (bytes, s') = read_data ops room s in
        (bytes ≡ take room (readable s.unread_packets.items))
        × (readable s'.unread_packets.items ≡ drop room (readable s.unread_packets.items))
        × IsValid s'.unread_packets
  unfolding read_data
  read_data_lem room s v = read_loop_lem s.unread_packets.items s.unread_packets room v
