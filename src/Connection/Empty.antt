-- ===== src/Connection/Empty.antt =====
-- An empty message at a connection of src/maidsafe/transport/rudp_connection.cc.
use maid_safe_transport.Base.{
  ℕ, ◌+◌, ◌-◌, ◌%◌, ◌^◌, ◌≡◌, ◌≢◌, ◌∙◌, refl, sym, ap, subst, arith, false, [], ◌∷◌, ◌++◌, min, ltb,
  ◌==◌, if◌then◌else◌, both_branches, ne→==_false,
}
use maid_safe_transport.Congestion.{best_read_buffer_size}
use maid_safe_transport.Socket.{
  Answers, no_error, async_read, start_read, async_wait, complete, async_flush,
}
use maid_safe_transport.Socket.Handlers.{close}
use maid_safe_transport.Connection.{
  ConnectionOps, Connection, Condition, size_of, resize, loaded, stopped, is_slow, start_read_data,
  do_close, close_on_error, expires_from_now, stall_timeout, no_connection, receive_timeout,
}
use maid_safe_transport.Connection.Steps.{handle_read_size, handle_read_data, read_size, read_more}

module _ (ops : ConnectionOps) where
  open ops use {socket_ops}
  open socket_ops use {time_ops}
  open time_ops use {Time}

  close_on_error-posted :
      (now : Time) (error : Condition) (c : Connection ops)
      → (close_on_error ops now error c).posted ≡ c.posted
  unfolding close_on_error do_close
  close_on_error-posted now error c =
      let logged = if c.transport then record c { errors = c.errors ++ error ∷ [] } else c in
      let same : logged.posted ≡ c.posted =
        both_branches (λ (x : Connection ops). x.posted ≡ c.posted) c.transport
          (record c { errors = c.errors ++ error ∷ [] }) c refl refl in
      both_branches (λ (x : Connection ops). x.posted ≡ c.posted) logged.transport
        (expires_from_now ops now (stall_timeout ops) (record logged {
          transport = false;
          removed = logged.removed + 1;
          socket = async_flush socket_ops logged.socket;
        }))
        (record logged { socket = close socket_ops logged.socket }) same same

  start_read_data-posted :
      (now : Time) (c : Connection ops) → (start_read_data ops now c).posted ≡ c.posted
  unfolding start_read_data
  start_read_data-posted now c =
      let more =
        min (best_read_buffer_size time_ops c.socket.congestion)
          ((c.data_size + 2 ^ 64 - c.data_received) % 2 ^ 64) in
      both_branches (λ (x : Connection ops). x.posted ≡ c.posted) (stopped ops c)
        (close_on_error ops now no_connection c)
        (record c {
          buffer = resize (c.data_received + more) c.buffer;
          read_offset = c.data_received;
          socket = async_read socket_ops more 1 c.socket;
        })
        (close_on_error-posted now no_connection c) refl

  read_more-posted :
      (a : Answers Time) (count : ℕ) (c : Connection ops)
      → (read_more ops a count c).posted ≡ c.posted
  unfolding read_more is_slow
  read_more-posted a count c =
      let c₁ = if ltb 0 count then expires_from_now ops (a.now 2) (stall_timeout ops) c else c in
      let first : c₁.posted ≡ c.posted =
        both_branches (λ (x : Connection ops). x.posted ≡ c.posted) (ltb 0 count)
          (expires_from_now ops (a.now 2) (stall_timeout ops) c) c refl refl in
      let (slow, c₂) = is_slow ops a count c₁ in
      start_read_data-posted (a.now 4)
        (if slow then close_on_error ops (a.now 3) receive_timeout c₂ else c₂)
      ∙ both_branches (λ (x : Connection ops). x.posted ≡ c.posted) slow
          (close_on_error ops (a.now 3) receive_timeout c₂) c₂
          (close_on_error-posted (a.now 3) receive_timeout c₂ ∙ first) first

  handle_read_data-posted :
      (a : Answers Time) (count : ℕ) (c : Connection ops)
      → c.data_received + count ≢ c.data_size
      → (handle_read_data ops a no_error count c).posted ≡ c.posted
  unfolding handle_read_data
  handle_read_data-posted a count c more =
      let at_hand : Connection ops = record c { buffer = loaded ops c } in
      let counted = record at_hand { data_received = c.data_received + count } in
      both_branches (λ (x : Connection ops). x.posted ≡ c.posted) (stopped ops at_hand)
        (close_on_error ops (a.now 0) receive_timeout at_hand)
        (if counted.data_received == counted.data_size
          then record counted { timer = time_ops.pos_infin; posted = counted.posted + 1 }
          else read_more ops a count counted)
        (close_on_error-posted (a.now 0) receive_timeout at_hand)
        (ap
            (λ b.
              (if b
                then record counted { timer = time_ops.pos_infin; posted = counted.posted + 1 }
                else read_more ops a count counted).posted)
            (ne→==_false _ _ more)
          ∙ read_more-posted a count counted)

  -- What the size 0 leaves: nothing of the message is missing, and a read of no bytes has ended, which
  -- leaves the count of the read before it.
  record Asked (c c' : Connection ops) : Type 0 where
    size_is : c'.data_size ≡ 0
    received : c'.data_received ≡ 0
    posted_before : c'.posted ≡ c.posted
    ended : c'.socket.waiting_read ≡ complete no_error (async_wait c.socket.waiting_read)
    count_is : c'.socket.waiting_read_bytes_transferred ≡ c.socket.waiting_read_bytes_transferred

  handle_read_size-Asked :
      (now : Time) (c : Connection ops)
      → stopped ops c ≡ false
      → size_of (loaded ops c) ≡ 0
      → Asked c (handle_read_size ops now no_error c)
  unfolding handle_read_size read_size start_read_data stopped async_read start_read
  handle_read_size-Asked now c go size =
      let at_hand : Connection ops = record c { buffer = loaded ops c } in
      let next =
        expires_from_now ops now (stall_timeout ops)
          (record at_hand { data_size = size_of at_hand.buffer; data_received = 0 }) in
      let more =
        min (best_read_buffer_size time_ops c.socket.congestion)
          ((size_of at_hand.buffer + 2 ^ 64 - 0) % 2 ^ 64) in
      let nothing : 0 ≡ more = omega (arith, size) in
      let asked = λ (k : ℕ). record next {
        buffer = resize (0 + k) at_hand.buffer;
        read_offset = 0;
        socket = async_read socket_ops k 1 c.socket;
      } in
      subst (Asked c)
        (sym (
          ap
            (λ b.
              if b
              then close_on_error ops now receive_timeout at_hand
              else start_read_data ops now next)
            go
          ∙ ap (λ b. if b then close_on_error ops now no_connection next else asked more) go))
        (subst (λ k. Asked c (asked k)) nothing
          (record {
            size_is = size;
            received = refl;
            posted_before = refl;
            ended = refl;
            count_is = refl;
          }))

  -- When the size that was read is 0, the read of no bytes that follows ends at once and reports the
  -- four bytes of the size again: the handler does not find the message complete, and posts nothing.
  pub empty_message_stays :
      (now : Time) (a : Answers Time) (c : Connection ops)
      → stopped ops c ≡ false
      → size_of (loaded ops c) ≡ 0
      → c.socket.waiting_read_bytes_transferred ≡ 4
      → let c' = handle_read_size ops now no_error c in
        let count = c'.socket.waiting_read_bytes_transferred in
        (c'.socket.waiting_read ≡ complete no_error (async_wait c.socket.waiting_read))
        × (count ≡ 4)
        × ((handle_read_data ops a no_error count c').posted ≡ c.posted)
  empty_message_stays now a c go size four =
      let h = handle_read_size-Asked now c go size in
      let c' = handle_read_size ops now no_error c in
      let count : c'.socket.waiting_read_bytes_transferred ≡ 4 = h.count_is ∙ four in
      (
        h.ended,
        count,
        handle_read_data-posted a c'.socket.waiting_read_bytes_transferred c'
              (λ e. omega (arith, e, count, h.size_is, h.received))
            ∙ h.posted_before,
      )
