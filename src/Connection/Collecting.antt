-- ===== src/Connection/Collecting.antt =====
-- How a connection of src/maidsafe/transport/rudp_connection.cc collects the bytes of a message, one
-- read after the other.
use maid_safe_transport.Base.{
  ℕ, ◌+◌, ◌-◌, ◌%◌, ◌^◌, ◌≤◌, ◌<◌, ◌≡◌, ◌∙◌, refl, sym, ap, ap₂, subst, arith, Bool, true, false,
  not, ◌||◌, List, ◌++◌, take, drop, length, min, ◌==◌, if◌then◌else◌, lt→ltb, length-append,
  length-drop, append-nil, eq→==, ne→==_false,
}
use maid_safe_transport.Base.Pieces.{drop_all, take-append_exact}
use maid_safe_transport.Session.{is_open}
use maid_safe_transport.Socket.{Socket, Answers, no_error, async_read}
use maid_safe_transport.Congestion.{best_read_buffer_size}
use maid_safe_transport.Socket.Transfers.{async_read-session}
use maid_safe_transport.Connection.{
  ConnectionOps, Connection, resize, loaded, stopped, is_slow, start_read_data, close_on_error,
  expires_from_now, stall_timeout, no_connection, receive_timeout,
}
use maid_safe_transport.Connection.Steps.{handle_read_data, read_more}
use maid_safe_transport.Connection.Framing.{length-resize, take-resize}

-- A connection that has read the bytes `got` of a message of size `n`, and reads on: the buffer holds
-- them and has room for more of the message, but not for more than that.
pub record Collects (ops : ConnectionOps) (n : ℕ) (got : List ℕ) (c : Connection ops) : Type 0 where
  pub goes_on : stopped ops c ≡ false
  pub kept : take (length got) c.buffer ≡ got
  pub enough : length got ≤ length c.buffer
  pub within : length c.buffer ≤ n
  pub offset_at : c.read_offset ≡ length got
  pub received : c.data_received ≡ length got
  pub size_is : c.data_size ≡ n

module _ (ops : ConnectionOps) where
  open ops use {socket_ops}
  open socket_ops use {time_ops}
  open time_ops use {Time}

  -- A read ends with the socket `s`, which has put some bytes into the buffer, and its handler runs.
  abbrev pub read_ends : Answers Time → Socket socket_ops → Connection ops → Connection ops
  read_ends a s c =
      handle_read_data ops a no_error s.waiting_read_bytes_transferred (record c { socket = s })

  -- What the socket promises of such a read: it is open, it wrote what it says, at least a byte and
  -- no more than there was room for, and it is not slow.
  pub record Reads (a : Answers Time) (s : Socket socket_ops) (c : Connection ops) : Type 0 where
    pub open_still : is_open s.session ≡ true
    pub counted : s.waiting_read_bytes_transferred ≡ length s.waiting_read_bytes
    pub some_bytes : 0 < length s.waiting_read_bytes
    pub has_room : c.read_offset + length s.waiting_read_bytes ≤ length c.buffer
    pub not_slow :
        (is_slow ops a s.waiting_read_bytes_transferred (record c { socket = s })).0 ≡ false

  still_goes_on :
      (s : Socket socket_ops) (c : Connection ops)
      → is_open s.session ≡ true
      → stopped ops c ≡ false
      → stopped ops (record c { socket = s }) ≡ false
  unfolding stopped
  still_goes_on s c o h =
      ap (λ b. not c.transport || not b) o
      ∙ first (not c.transport) (not (is_open c.socket.session)) h
    where
      first : (a b : Bool) → a || b ≡ false → a || false ≡ false
      first a b h = ground arith

  loaded_bytes :
      (n : ℕ) (got : List ℕ) (a : Answers Time) (s : Socket socket_ops) (c : Connection ops)
      → Collects ops n got c
      → Reads a s c
      → (loaded ops (record c { socket = s })
          ≡ (got ++ s.waiting_read_bytes) ++ drop (length (got ++ s.waiting_read_bytes)) c.buffer)
        × (length (loaded ops (record c { socket = s })) ≡ length c.buffer)
  loaded_bytes n got a s c h r =
      let b = s.waiting_read_bytes in
      let at : c.read_offset + length b ≡ length (got ++ b) =
        omega (arith, h.offset_at, length-append got b) in
      let e : loaded ops (record c { socket = s })
          ≡ (got ++ b) ++ drop (length (got ++ b)) c.buffer =
        ap₂ (λ x k. x ++ b ++ drop k c.buffer) (ap (λ k. take k c.buffer) h.offset_at ∙ h.kept)
          at in
      (
        e,
        omega (
          arith,
          ap (λ (xs : List ℕ). length xs) e,
          length-append (got ++ b) (drop (length (got ++ b)) c.buffer),
          length-drop (length (got ++ b)) c.buffer,
          length-append got b,
          r.has_room,
          h.offset_at,
        ),
      )

  -- The state in which the handler looks at what was read.
  abbrev counted_in : Socket socket_ops → Connection ops → Connection ops
  counted_in s c = record c {
    socket = s;
    buffer = loaded ops (record c { socket = s });
    data_received = c.data_received + s.waiting_read_bytes_transferred;
  }

  abbrev complete_now : Connection ops → Connection ops
  complete_now c = record c { timer = time_ops.pos_infin; posted = c.posted + 1 }

  -- The handler of a read on a connection that goes on.
  read_ends_cases :
      (a : Answers Time) (s : Socket socket_ops) (c : Connection ops)
      → is_open s.session ≡ true
      → stopped ops c ≡ false
      → read_ends a s c ≡ (
          let c' = counted_in s c in
          if c'.data_received == c'.data_size
          then complete_now c'
          else read_more ops a s.waiting_read_bytes_transferred c')
  unfolding handle_read_data stopped
  read_ends_cases a s c o h = rw (still_goes_on s c o h, handle_read_data) refl

  -- The message is complete.
  pub read_ends_complete :
      (n : ℕ) (got : List ℕ) (a : Answers Time) (s : Socket socket_ops) (c : Connection ops)
      → Collects ops n got c
      → Reads a s c
      → length got + length s.waiting_read_bytes ≡ n
      → let c' = read_ends a s c in
        (c'.buffer ≡ got ++ s.waiting_read_bytes) × (c'.posted ≡ c.posted + 1)
  unfolding handle_read_data
  read_ends_complete n got a s c h r whole =
      let b = s.waiting_read_bytes in
      let (e, f) = loaded_bytes n got a s c h r in
      let done : (counted_in s c).data_received == (counted_in s c).data_size ≡ true =
        eq→== _ _ (omega (arith, h.received, r.counted, whole, h.size_is)) in
      let same : read_ends a s c ≡ complete_now (counted_in s c) =
        read_ends_cases a s c r.open_still h.goes_on
        ∙ ap
            (λ d.
              if d
              then complete_now (counted_in s c)
              else read_more ops a s.waiting_read_bytes_transferred (counted_in s c))
            done in
      (
        ap (λ (x : Connection ops). x.buffer) same
            ∙ e
            ∙ ap ((got ++ b) ++◌) (
                drop_all (length (got ++ b)) c.buffer
                  (omega (arith, h.within, whole, length-append got b)))
            ∙ append-nil (got ++ b),
        ap (λ (x : Connection ops). x.posted) same,
      )

  -- A read of more of the message.
  pub start_read_data-Collects :
      (now : Time) (n : ℕ) (got : List ℕ) (c : Connection ops)
      → n < 2 ^ 64
      → length got < n
      → stopped ops c ≡ false
      → take (length got) c.buffer ≡ got
      → length got ≤ length c.buffer
      → c.data_received ≡ length got
      → c.data_size ≡ n
      → let c' = start_read_data ops now c in Collects ops n got c' × (c'.posted ≡ c.posted)
  unfolding start_read_data stopped
  start_read_data-Collects now n got c fits part go kept enough received size =
      let best = best_read_buffer_size time_ops c.socket.congestion in
      let more = min best ((c.data_size + 2 ^ 64 - c.data_received) % 2 ^ 64) in
      let next : Connection ops = record c {
        buffer = resize (c.data_received + more) c.buffer;
        read_offset = c.data_received;
        socket = async_read socket_ops more 1 c.socket;
      } in
      let room : c.data_received + more ≤ n = omega (arith, part, received, size, fits) in
      subst (λ (x : Connection ops). Collects ops n got x × (x.posted ≡ c.posted))
        (sym (ap (λ b. if b then close_on_error ops now no_connection c else next) go))
        (
          record {
            goes_on =
                ap (λ k. not c.transport || not (is_open k))
                  (async_read-session socket_ops more 1 c.socket)
                ∙ go;
            kept =
                take-resize (length got) (c.data_received + more) c.buffer enough
                  (omega (arith, received))
                ∙ kept;
            enough = omega (arith, length-resize (c.data_received + more) c.buffer, received);
            within = omega (arith, length-resize (c.data_received + more) c.buffer, room);
            offset_at = received;
            received = received;
            size_is = size;
          },
          refl,
        )

  -- The message goes on.
  read_more-Collects :
      (a : Answers Time) (count n : ℕ) (got : List ℕ) (c : Connection ops)
      → n < 2 ^ 64
      → length got < n
      → 0 < count
      → (is_slow ops a count c).0 ≡ false
      → stopped ops c ≡ false
      → take (length got) c.buffer ≡ got
      → length got ≤ length c.buffer
      → c.data_received ≡ length got
      → c.data_size ≡ n
      → let c' = read_more ops a count c in Collects ops n got c' × (c'.posted ≡ c.posted)
  unfolding read_more is_slow stopped
  read_more-Collects a count n got c fits part some fast go kept enough received size =
      let waits = expires_from_now ops (a.now 2) (stall_timeout ops) c in
      let after = (is_slow ops a count waits).1 in
      let then_read = λ (slow : Bool).
        start_read_data ops (a.now 4)
          (if slow then close_on_error ops (a.now 3) receive_timeout after else after) in
      let same : read_more ops a count c ≡ start_read_data ops (a.now 4) after =
        ap
          (λ b.
            let c₁ = if b then waits else c in
            let (slow, c₂) = is_slow ops a count c₁ in
            start_read_data ops (a.now 4)
              (if slow then close_on_error ops (a.now 3) receive_timeout c₂ else c₂))
          (lt→ltb 0 count some)
        ∙ ap then_read fast in
      subst (λ (x : Connection ops). Collects ops n got x × (x.posted ≡ c.posted)) (sym same)
        (start_read_data-Collects (a.now 4) n got after fits part go kept enough received size)

  pub read_ends-Collects :
      (n : ℕ) (got : List ℕ) (a : Answers Time) (s : Socket socket_ops) (c : Connection ops)
      → n < 2 ^ 64
      → Collects ops n got c
      → Reads a s c
      → length got + length s.waiting_read_bytes < n
      → Collects ops n (got ++ s.waiting_read_bytes) (read_ends a s c)
        × ((read_ends a s c).posted ≡ c.posted)
  unfolding is_slow stopped
  read_ends-Collects n got a s c fits h r part =
      let b = s.waiting_read_bytes in
      let c' = counted_in s c in
      let (e, f) = loaded_bytes n got a s c h r in
      let len = length-append got b in
      let more : (c'.data_received == c'.data_size) ≡ false =
        ne→==_false _ _ (omega (arith, h.received, r.counted, part, h.size_is)) in
      let same : read_ends a s c ≡ read_more ops a s.waiting_read_bytes_transferred c' =
        read_ends_cases a s c r.open_still h.goes_on
        ∙ ap
            (λ d.
              if d then complete_now c' else read_more ops a s.waiting_read_bytes_transferred c')
            more in
      subst (λ (x : Connection ops). Collects ops n (got ++ b) x × (x.posted ≡ c.posted)) (sym same)
        (read_more-Collects a s.waiting_read_bytes_transferred n (got ++ b) c' fits
          (omega (arith, len, part)) (omega (arith, r.counted, r.some_bytes)) r.not_slow
          (still_goes_on s c r.open_still h.goes_on)
          (ap (take (length (got ++ b))) e
            ∙ take-append_exact (length (got ++ b)) (got ++ b) _ refl)
          (omega (arith, f, len, r.has_room, h.offset_at))
          (omega (arith, h.received, r.counted, len)) h.size_is)
