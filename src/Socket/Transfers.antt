-- ===== src/Socket/Transfers.antt =====
-- Reading and writing through a socket of src/maidsafe/transport/rudp_socket.cc.
use maid_safe_transport.Base.{[], ◌∷◌, List, map, zero, suc}
use maid_safe_transport.Base.{
  ℕ, ◌+◌, ◌-◌, ◌≡◌, ◌∙◌, refl, sym, ap, arith, Bool, ◌&&◌, ◌||◌, not, ◌++◌, take, drop, length, leb,
  ◌==◌, if◌then◌else◌, Bool-cases, subst, inl, inr, both_branches, ap-if, append-nil, ==→eq,
}
use maid_safe_transport.Base.Pieces.{drop-part}
use maid_safe_transport.Window.Index.{IsValid}
use maid_safe_transport.Window.{size}
use maid_safe_transport.Sender.{Unacked, add_data, resized}
use maid_safe_transport.Sender.Sending.{after_send, attempts}
use maid_safe_transport.Sender.Adding.{cut, payloads, add_data_lem}
use maid_safe_transport.Receiver.{read_data}
use maid_safe_transport.Receiver.Reading.{readable, read_data_lem}
use maid_safe_transport.Socket.{
  SocketOps, Socket, Waiting, sender_sent, sender_of, receiver_of, with_sender, with_receiver,
  process_write, finish_write, process_read, finish_read, start_read, async_read, async_wait,
  complete, no_error,
}

module _ (ops : SocketOps) where
  open ops use {time_ops}
  open time_ops use {Time}

  -- What a wait is when its operation ends, or goes on.
  abbrev pub ends_if : Bool → Waiting → Waiting
  ends_if b w = if b then complete no_error w else w

  abbrev pub read_done : Socket ops → Bool
  read_done s =
      s.waiting_read_buffer == 0
      || leb s.waiting_read_transfer_at_least s.waiting_read_bytes_transferred

  finish_read-keeps :
      (t : Socket ops)
      → let t' = finish_read ops t in
        (t'.waiting_read_bytes ≡ t.waiting_read_bytes)
        × (t'.unread_packets ≡ t.unread_packets)
        × (t'.waiting_read_buffer ≡ t.waiting_read_buffer)
        × (t'.waiting_read_bytes_transferred ≡ t.waiting_read_bytes_transferred)
        × (t'.waiting_read ≡ ends_if (read_done t) t.waiting_read)
  unfolding finish_read
  finish_read-keeps t = (
    both_branches (λ (x : Socket ops). x.waiting_read_bytes ≡ t.waiting_read_bytes) _ _ _ refl refl,
    both_branches (λ (x : Socket ops). x.unread_packets ≡ t.unread_packets) _ _ _ refl refl,
    both_branches (λ (x : Socket ops). x.waiting_read_buffer ≡ t.waiting_read_buffer) _ _ _ refl
        refl,
    both_branches
        (λ (x : Socket ops). x.waiting_read_bytes_transferred ≡ t.waiting_read_bytes_transferred) _
        _ _ refl refl,
    ap-if (λ (x : Socket ops). x.waiting_read) (read_done t) _ _,
  )

  finish_write-keeps :
      (t : Socket ops)
      → let t' = finish_write ops t in
        (t'.waiting_write_buffer ≡ t.waiting_write_buffer)
        × (t'.waiting_write_bytes_transferred ≡ t.waiting_write_bytes_transferred)
        × (t'.unacked_packets.items ≡ t.unacked_packets.items)
        × (t'.sent ≡ t.sent)
        × (t'.waiting_write ≡ ends_if (length t.waiting_write_buffer == 0) t.waiting_write)
  unfolding finish_write
  finish_write-keeps t = (
    both_branches (λ (x : Socket ops). x.waiting_write_buffer ≡ t.waiting_write_buffer) _ _ _ refl
        refl,
    both_branches
        (λ (x : Socket ops). x.waiting_write_bytes_transferred ≡ t.waiting_write_bytes_transferred)
        _ _ _ refl refl,
    both_branches (λ (x : Socket ops). x.unacked_packets.items ≡ t.unacked_packets.items) _ _ _ refl
        refl,
    both_branches (λ (x : Socket ops). x.sent ≡ t.sent) _ _ _ refl refl,
    ap-if (λ (x : Socket ops). x.waiting_write) (length t.waiting_write_buffer == 0) _ _,
  )

  abbrev copied_in : Socket ops → Socket ops
  copied_in s =
      let out = read_data time_ops s.waiting_read_buffer (receiver_of ops s) in
      record (with_receiver ops out.1 s) {
        waiting_read_buffer = s.waiting_read_buffer - length out.0;
        waiting_read_bytes = s.waiting_read_bytes ++ out.0;
        waiting_read_bytes_transferred = s.waiting_read_bytes_transferred + length out.0;
      }

  -- A read of the bytes that are there, from one state to another.
  abbrev Reads : Socket ops → Socket ops → Type 0
  Reads s s' =
      let ready = readable time_ops s.unread_packets.items in
      let bytes = take s.waiting_read_buffer ready in
      let room = s.waiting_read_buffer - length bytes in
      let transferred = s.waiting_read_bytes_transferred + length bytes in
      (s'.waiting_read_bytes ≡ s.waiting_read_bytes ++ bytes)
      × (readable time_ops s'.unread_packets.items ≡ drop s.waiting_read_buffer ready)
      × (s'.waiting_read_buffer ≡ room)
      × (s'.waiting_read_bytes_transferred ≡ transferred)
      × (s'.waiting_read
          ≡ ends_if
              (not (s.waiting_read_buffer == 0)
                && (room == 0 || leb s.waiting_read_transfer_at_least transferred))
              s.waiting_read)

  -- If the receiver has a valid window, `ProcessRead` copies the first bytes that can be read, as
  -- many as there is room for, behind those that were read before, takes them from the receiver and
  -- from the room, and adds their number to the count. The read ends, if the buffer had room, when it
  -- is full or the count has reached the least number of bytes.
  pub process_read_lem : (s : Socket ops) → IsValid s.unread_packets → Reads s (process_read ops s)
  unfolding process_read
  process_read_lem s v = elim (Bool-cases (s.waiting_read_buffer == 0)) [
    | inl z ↦
        let ready = readable time_ops s.unread_packets.items in
        let none_left : 0 ≡ s.waiting_read_buffer = sym (==→eq _ 0 z) in
        let nothing : 0 ≡ length (take s.waiting_read_buffer ready) =
          ap (λ n. length (take n ready)) none_left in
        subst (Reads s) (sym (ap (λ b. if b then s else finish_read ops (copied_in s)) z)) (
          sym (append-nil _) ∙ ap (λ n. s.waiting_read_bytes ++ take n ready) none_left,
          ap (λ n. drop n ready) none_left,
          omega (arith, nothing),
          omega (arith, nothing),
          rw z refl,
        )
    | inr z ↦
        let (a, b, c) = read_data_lem time_ops s.waiting_read_buffer (receiver_of ops s) v in
        let t = finish_read ops (copied_in s) in
        let (p, q, r, n, w) = finish_read-keeps (copied_in s) in
        let count = ap (λ (xs : List ℕ). length xs) a in
        subst (Reads s) (sym (ap (λ b. if b then s else t) z)) (
          p ∙ ap (s.waiting_read_bytes ++◌) a,
          ap (λ w. readable time_ops w.items) q ∙ b,
          r ∙ ap (s.waiting_read_buffer -◌) count,
          n ∙ ap (s.waiting_read_bytes_transferred +◌) count,
          w
              ∙ ap
                  (λ k.
                    ends_if
                      (s.waiting_read_buffer - k == 0
                        || leb s.waiting_read_transfer_at_least
                            (s.waiting_read_bytes_transferred + k))
                      s.waiting_read)
                  count
              ∙ rw z refl,
        )
  ]

  abbrev handed_over : Time → (ℕ → Bool) → Socket ops → Socket ops
  handed_over now succeeds s =
      let out = add_data time_ops now succeeds s.peer_id s.waiting_write_buffer (sender_of ops s) in
      record (with_sender ops out.1 s) {
        waiting_write_buffer = drop out.0 s.waiting_write_buffer;
        waiting_write_bytes_transferred = s.waiting_write_bytes_transferred + out.0;
      }

  -- The packets that a write adds to those of the sender: as many as the window that the congestion
  -- control allows has room for, none if there are no bytes.
  abbrev pub added_packets : Socket ops → List (Unacked time_ops)
  added_packets s =
      let w = resized time_ops (sender_of ops s) in
      cut time_ops (w.maximum_size - size w) s.peer_id s.congestion.send_data_size w.end
        s.waiting_write_buffer

  -- A write of some bytes to the sender, from one state to another.
  abbrev Writes : Time → (ℕ → Bool) → Socket ops → Socket ops → Type 0
  Writes now succeeds s s' =
      let added = added_packets s in
      let items = s.unacked_packets.items in
      (s'.unacked_packets.items ≡ (
        if length s.waiting_write_buffer == 0
        then items
        else after_send time_ops now succeeds s.unacked_packets.begin (items ++ added)))
      × (s'.sent ≡ (
          if length s.waiting_write_buffer == 0
          then s.sent
          else s.sent
            ++ map sender_sent
                (attempts time_ops now succeeds s.unacked_packets.begin (items ++ added))))
      × (payloads time_ops added ++ s'.waiting_write_buffer ≡ s.waiting_write_buffer)
      × (s'.waiting_write_bytes_transferred
          ≡ s.waiting_write_bytes_transferred + length (payloads time_ops added))
      × (s'.waiting_write
          ≡ ends_if
              (not (length s.waiting_write_buffer == 0) && length s'.waiting_write_buffer == 0)
              s.waiting_write)

  none_cut :
      (room peer_id chunk n : ℕ) (bytes : List ℕ)
      → length bytes ≡ 0
      → payloads time_ops (cut time_ops room peer_id chunk n bytes) ≡ []
  none_cut zero peer_id chunk n bytes e = refl
  none_cut (suc room) peer_id chunk n [] e = refl
  none_cut (suc room) peer_id chunk n (b ∷ bytes) e = absurd (omega (arith, e))

  -- If the sender has a valid window, `ProcessWrite` cuts the first bytes of the buffer into packets,
  -- which stand behind the others of the sender when it sends what is lost, keeps the bytes behind
  -- them, in order, and adds the number of bytes that it took to the count. The write ends when none
  -- is left of a buffer that had some; with an empty buffer none of these changes.
  pub process_write_lem :
      (now : Time) (succeeds : ℕ → Bool) (s : Socket ops)
      → IsValid s.unacked_packets
      → Writes now succeeds s (process_write ops now succeeds s)
  unfolding process_write
  process_write_lem now succeeds s v = elim (Bool-cases (length s.waiting_write_buffer == 0)) [
    | inl z ↦
        let t = finish_write ops (handed_over now succeeds s) in
        let none =
          none_cut _ s.peer_id s.congestion.send_data_size _ s.waiting_write_buffer (==→eq _ 0 z) in
        subst (Writes now succeeds s) (sym (ap (λ b. if b then s else t) z)) (
          rw z refl,
          rw z refl,
          ap (λ xs. xs ++ s.waiting_write_buffer) none,
          omega (arith, ap (λ (xs : List ℕ). length xs) none),
          rw z refl,
        )
    | inr z ↦
        let out =
          add_data time_ops now succeeds s.peer_id s.waiting_write_buffer (sender_of ops s) in
        let ((same, end), items, begin, whole, taken, sent) =
          add_data_lem time_ops now succeeds s.peer_id s.waiting_write_buffer (sender_of ops s) v in
        let t = finish_write ops (handed_over now succeeds s) in
        let (p, q, u, sends, w) = finish_write-keeps (handed_over now succeeds s) in
        let rest =
          drop-part out.0 (payloads time_ops (added_packets s)) _ s.waiting_write_buffer whole
            taken in
        subst (Writes now succeeds s) (sym (ap (λ b. if b then s else t) z)) (
          u
              ∙ items
              ∙ ap
                  (λ xs.
                    after_send time_ops now succeeds s.unacked_packets.begin
                      (xs ++ added_packets s))
                  same
              ∙ rw z refl,
          sends
              ∙ ap (λ xs. s.sent ++ map sender_sent xs) sent
              ∙ ap
                  (λ xs.
                    s.sent
                    ++ map sender_sent (
                        attempts time_ops now succeeds s.unacked_packets.begin
                          (xs ++ added_packets s)))
                  same
              ∙ rw z refl,
          ap (payloads time_ops (added_packets s) ++◌) (p ∙ rest) ∙ whole,
          q ∙ ap (s.waiting_write_bytes_transferred +◌) taken,
          w ∙ ap (λ xs. ends_if (length xs == 0) s.waiting_write) (sym p) ∙ rw z refl,
        )
  ]

  finish_read-session : (t : Socket ops) → (finish_read ops t).session ≡ t.session
  unfolding finish_read
  finish_read-session t =
      both_branches (λ (x : Socket ops). x.session ≡ t.session) (read_done t)
        (record t { waiting_read = complete no_error t.waiting_read }) t refl refl

  process_read-session : (s : Socket ops) → (process_read ops s).session ≡ s.session
  unfolding process_read
  process_read-session s =
      both_branches (λ (x : Socket ops). x.session ≡ s.session) (s.waiting_read_buffer == 0) s
        (finish_read ops (copied_in s)) refl (finish_read-session (copied_in s))

  start_read-session :
      (room least : ℕ) (s : Socket ops) → (start_read ops room least s).session ≡ s.session
  unfolding start_read
  start_read-session room least s =
      let t = record s {
        waiting_read_buffer = room;
        waiting_read_bytes = [];
        waiting_read_transfer_at_least = least;
        waiting_read_bytes_transferred = 0;
      } in
      both_branches (λ (x : Socket ops). x.session ≡ s.session) (room == 0)
        (record s { waiting_read = complete no_error s.waiting_read; waiting_read_bytes = [] })
        (process_read ops t) refl (process_read-session t)

  -- A read leaves the session alone.
  pub async_read-session :
      (room least : ℕ) (s : Socket ops) → (async_read ops room least s).session ≡ s.session
  unfolding async_read
  async_read-session room least s =
      start_read-session room least (record s { waiting_read = async_wait s.waiting_read })
