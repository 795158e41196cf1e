-- ===== src/Connection/Messages.antt =====
-- A message goes from one connection of src/maidsafe/transport/rudp_connection.cc to another.
use maid_safe_transport.Base.{
  ℕ, ◌+◌, ◌%◌, ◌^◌, ◌≤◌, ◌<◌, ◌≡◌, ◌∙◌, refl, sym, ap, subst, arith, false, List, [], ◌∷◌, ◌++◌,
  take, drop, length, ltb, if◌then◌else◌, le→ltb_false, length-append, append_assoc, append-nil,
}
use maid_safe_transport.Socket.{Socket, Answers, no_error}
use maid_safe_transport.Connection.{
  ConnectionOps, Connection, size_bytes, size_of, loaded, stopped, start_read_data, close_on_error,
  expires_from_now, stall_timeout, receive_timeout,
}
use maid_safe_transport.Connection.Steps.{handle_read_size, read_size}
use maid_safe_transport.Connection.{
  receive_timeout, expires_from_now, stall_timeout, encode_data, max_transport_message_size,
}
use maid_safe_transport.Connection.Framing.{size_of-size_bytes}
use maid_safe_transport.Connection.Collecting.{
  Collects, Reads, read_ends, read_ends_complete, read_ends-Collects, start_read_data-Collects,
}

module _ (ops : ConnectionOps) where
  open ops use {socket_ops}
  open socket_ops use {time_ops}
  open time_ops use {Time}

  -- One read after the other, each by what the world answers its handler and the socket behind it.
  abbrev pub read_all : List (Answers Time × Socket socket_ops) → Connection ops → Connection ops
  read_all [] c = c
  read_all (r ∷ rs) c = read_all rs (read_ends ops r.0 r.1 c)

  abbrev pub AllRead : List (Answers Time × Socket socket_ops) → Connection ops → Type 0
  AllRead [] c = Unit
  AllRead (r ∷ rs) c = Reads ops r.0 r.1 c × AllRead rs (read_ends ops r.0 r.1 c)

  abbrev pub bytes_read : List (Answers Time × Socket socket_ops) → List ℕ
  bytes_read [] = []
  bytes_read (r ∷ rs) = r.1.waiting_read_bytes ++ bytes_read rs

  read_all_complete :
      (n : ℕ) (got : List ℕ) (rs : List (Answers Time × Socket socket_ops)) (c : Connection ops)
      → n < 2 ^ 64
      → length got < n
      → Collects ops n got c
      → AllRead rs c
      → length got + length (bytes_read rs) ≡ n
      → let c' = read_all rs c in (c'.buffer ≡ got ++ bytes_read rs) × (c'.posted ≡ c.posted + 1)
  read_all_complete n got [] c fits part h all whole = absurd (omega arith)
  read_all_complete n got (r ∷ []) c fits part h (x, y) whole =
      let (e, f) =
        read_ends_complete ops n got r.0 r.1 c h x
          (omega (arith, whole, length-append r.1.waiting_read_bytes [])) in
      (e ∙ ap (got ++◌) (sym (append-nil _)), f)
  read_all_complete n got (r ∷ r' ∷ rs) c fits part h (x, (y, z)) whole =
      let b = r.1.waiting_read_bytes in
      let b' = r'.1.waiting_read_bytes in
      let rest = bytes_read (r' ∷ rs) in
      let less : length got + length b < n =
        omega
          (arith, whole, length-append b rest, length-append b' (bytes_read rs), y.some_bytes) in
      let (k, p) = read_ends-Collects ops n got r.0 r.1 c fits h x less in
      let (e, f) =
        read_all_complete n (got ++ b) (r' ∷ rs) (read_ends ops r.0 r.1 c) fits
          (omega (arith, less, length-append got b)) k (y, z)
          (omega (arith, whole, length-append got b, length-append b rest)) in
      (e ∙ append_assoc got b rest, f ∙ ap (◌+ 1) p)

  encoded :
      (now : Time) (m : List ℕ) (c : Connection ops)
      → length m ≤ max_transport_message_size
      → (encode_data ops now m c).buffer ≡ size_bytes (length m) ++ m
  unfolding encode_data
  encoded now m c h =
      let small : length m % 2 ^ 32 ≡ length m = omega arith in
      let allowed : ltb max_transport_message_size (length m % 2 ^ 32) ≡ false =
        le→ltb_false max_transport_message_size (length m % 2 ^ 32) (omega arith) in
      rw (allowed, encode_data) (ap (λ n. size_bytes n ++ m) small)

  -- The first four bytes of an encoded message are its size, and the others the message.
  size_part : (n : ℕ) (m b : List ℕ) → n < 2 ^ 31 → b ≡ take 4 (size_bytes n ++ m) → size_of b ≡ n
  unfolding size_bytes
  size_part n m b h e = ap size_of e ∙ size_of-size_bytes n h

  message_part : (n : ℕ) (m : List ℕ) → drop 4 (size_bytes n ++ m) ≡ m
  unfolding size_bytes
  message_part n m = refl

  handle_read_size-Collects :
      (now : Time) (n : ℕ) (c : Connection ops)
      → 0 < n
      → n < 2 ^ 64
      → stopped ops c ≡ false
      → size_of (loaded ops c) ≡ n
      → let c' = handle_read_size ops now no_error c in
        Collects ops n [] c' × (c'.posted ≡ c.posted)
  unfolding handle_read_size read_size stopped
  handle_read_size-Collects now n c some fits go size =
      let at_hand : Connection ops = record c { buffer = loaded ops c } in
      let next =
        expires_from_now ops now (stall_timeout ops)
          (record at_hand { data_size = size_of at_hand.buffer; data_received = 0 }) in
      subst (λ (x : Connection ops). Collects ops n [] x × (x.posted ≡ c.posted))
        (sym (
          ap
            (λ b.
              if b
              then close_on_error ops now receive_timeout at_hand
              else start_read_data ops now next)
            go))
        (start_read_data-Collects ops now n [] next fits some go refl (omega arith) refl size)

  -- A message that is not empty and not too large, which one connection encodes, and whose bytes reach
  -- another one, the size at once and the rest in any number of reads, is in the buffer of the other
  -- when its last read ends, and is dispatched once.
  pub message_arrives :
      (m : List ℕ) (now now' : Time) (from to : Connection ops)
      (rs : List (Answers Time × Socket socket_ops))
      → 0 < length m
      → length m ≤ max_transport_message_size
      → stopped ops to ≡ false
      → loaded ops to ≡ take 4 (encode_data ops now m from).buffer
      → AllRead rs (handle_read_size ops now' no_error to)
      → bytes_read rs ≡ drop 4 (encode_data ops now m from).buffer
      → let c = read_all rs (handle_read_size ops now' no_error to) in
        (c.buffer ≡ m) × (c.posted ≡ to.posted + 1)
  message_arrives m now now' from to rs some small go size all rest =
      let e = encoded now m from small in
      let bytes : bytes_read rs ≡ m = rest ∙ ap (drop 4) e ∙ message_part (length m) m in
      let n : size_of (loaded ops to) ≡ length m =
        size_part (length m) m (loaded ops to) (omega (arith, small)) (size ∙ ap (take 4) e) in
      let (h, p) = handle_read_size-Collects now' (length m) to some (omega (arith, small)) go n in
      let (f, q) =
        read_all_complete (length m) [] rs (handle_read_size ops now' no_error to)
          (omega (arith, small)) some h all
          (omega (arith, ap (λ (xs : List ℕ). length xs) bytes)) in
      (f ∙ bytes, q ∙ ap (◌+ 1) p)
