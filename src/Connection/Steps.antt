-- ===== src/Connection/Steps.antt =====
-- The handlers of a connection, in src/maidsafe/transport/rudp_connection.cc. An `ErrorCode` argument
-- is the error code that the handler is called with; `failed` tells whether it is an error.
use maid_safe_transport.Base.{
  ℕ, ◌+◌, Bool, true, false, not, Option, none, some, List, [], ◌∷◌, ◌++◌, length, ltb, ◌==◌,
  if◌then◌else◌,
}
use maid_safe_transport.Socket.{
  Answers, Socket, ErrorCode, no_error, operation_aborted, async_write, take_sent_length,
}
use maid_safe_transport.Session.{is_open}
use maid_safe_transport.Socket.Handlers.{close, async_connect, async_connect_accepted}
use maid_safe_transport.Connection.{
  ConnectionOps, Connection, success, connect_error, send_stalled, send_timeout, receive_timeout,
  send_failure, receive_failure, no_connection, TimeoutState, no_timeout, sending, receiving,
  default_initial_timeout, immediate_timeout, stall_timeout, expires_from_now, loaded, stopped,
  do_close, close_on_error, is_slow, start_read_size, start_read_data, encode_data, size_of,
}

abbrev pub failed : ErrorCode → Bool
failed no_error = false
failed operation_aborted = true

abbrev pub is_sending : TimeoutState → Bool
is_sending no_timeout = false
is_sending sending = true
is_sending receiving = false

module _ (ops : ConnectionOps) where
  open ops use {socket_ops, same_duration}
  open socket_ops use {time_ops, Endpoint}
  open time_ops use {Time, Duration, up_to, pos_infin, not_a_date_time}

  unfoldable pub new_connection : Endpoint → Socket socket_ops → Connection ops
  new_connection remote socket = record {
    transport = true;
    socket = socket;
    timer = not_a_date_time;
    response_deadline = not_a_date_time;
    remote_endpoint = remote;
    buffer = [];
    read_offset = 0;
    data_size = 0;
    data_received = 0;
    timeout_for_response = default_initial_timeout ops;
    timeout_state = no_timeout;
    errors = [];
    answers = [];
    posted = 0;
    messages = [];
    removed = 0;
  }

  -- The connects of the socket; `random` and `fuel` are those of `AddSocket`.
  unfoldable pub connecting :
      Time → Option (Socket socket_ops) → Connection ops → Option (Connection ops)
  connecting now socket c = elim socket [
    | none ↦ none
    | some s ↦ some (
        expires_from_now ops now (default_initial_timeout ops)
          (record c { socket = s; timeout_state = sending }))
  ]

  -- `StartClientConnect` and `SimpleClientConnect`, which differ in the handler.
  unfoldable pub start_client_connect :
      (ℕ → ℕ) → ℕ → (now now' : Time) → Connection ops → Option (Connection ops)
  unfolding connecting async_connect
  start_client_connect random fuel now now' c =
      connecting now' (async_connect socket_ops random fuel now c.remote_endpoint c.socket) c

  unfoldable pub start_server_connect :
      (ℕ → ℕ) → ℕ → (now now' : Time) → Connection ops → Option (Connection ops)
  unfolding connecting async_connect_accepted
  start_server_connect random fuel now now' c =
      connecting now' (async_connect_accepted socket_ops random fuel now c.socket) c

  unfoldable pub start_write :
      (now now' now'' : Time) → (ℕ → Bool) → Connection ops → Connection ops
  unfolding stopped close_on_error async_write
  start_write now now' now'' succeeds c =
      if stopped ops c
      then close_on_error ops now no_connection c
      else expires_from_now ops now'' (stall_timeout ops) (record c {
        socket = async_write socket_ops now' succeeds c.buffer c.socket;
        timeout_state = sending;
      })

  unfoldable pub handle_simple_client_connect : ErrorCode → Connection ops → Connection ops
  unfolding stopped
  handle_simple_client_connect ec c =
      if stopped ops c
      then c
      else record c { answers = c.answers ++ (if failed ec then connect_error else success) ∷ [] }

  unfoldable pub handle_server_connect : Time → ErrorCode → Connection ops → Connection ops
  unfolding stopped close_on_error start_read_size
  handle_server_connect now ec c =
      if stopped ops c
      then c
      else if failed ec
      then close_on_error ops now receive_failure c
      else start_read_size ops now c

  unfoldable pub handle_client_connect :
      (now now' now'' : Time) → (ℕ → Bool) → ErrorCode → Connection ops → Connection ops
  unfolding stopped close_on_error start_write
  handle_client_connect now now' now'' succeeds ec c =
      if stopped ops c
      then c
      else if failed ec
      then close_on_error ops now send_failure c
      else start_write now now' now'' succeeds c

  -- The size is read out of the buffer, and the first read of the message starts.
  unfoldable pub read_size : Time → Connection ops → Connection ops
  unfolding start_read_data size_of
  read_size now c = start_read_data ops now (
      expires_from_now ops now (stall_timeout ops)
        (record c { data_size = size_of c.buffer; data_received = 0 }))

  unfoldable pub handle_read_size : Time → ErrorCode → Connection ops → Connection ops
  unfolding stopped close_on_error read_size
  handle_read_size now ec c =
      let c' = record c { buffer = loaded ops c } in
      if stopped ops c'
      then close_on_error ops now receive_timeout c'
      else if failed ec
      then close_on_error ops now receive_failure c'
      else read_size now c'

  -- What `HandleReadData` does when the message is not complete.
  unfoldable pub read_more : Answers Time → ℕ → Connection ops → Connection ops
  unfolding is_slow close_on_error start_read_data
  read_more a count c =
      let c₁ = if ltb 0 count then expires_from_now ops (a.now 2) (stall_timeout ops) c else c in
      let (slow, c₂) = is_slow ops a count c₁ in
      start_read_data ops (a.now 4)
        (if slow then close_on_error ops (a.now 3) receive_timeout c₂ else c₂)

  unfoldable pub handle_read_data : Answers Time → ErrorCode → ℕ → Connection ops → Connection ops
  unfolding stopped close_on_error read_more
  handle_read_data a ec count c =
      let c' = record c { buffer = loaded ops c } in
      let c'' = record c' { data_received = c'.data_received + count } in
      if stopped ops c'
      then close_on_error ops (a.now 0) receive_timeout c'
      else if failed ec
      then close_on_error ops (a.now 0) receive_failure c'
      else if c''.data_received == c''.data_size
      then record c'' { timer = pos_infin; posted = c''.posted + 1 }
      else read_more a count c''

  -- `respond` is what `on_message_received_` does: the response to a message, and the timeout for it.
  unfoldable pub dispatch_message :
      Answers Time → (List ℕ → List ℕ × Duration) → Connection ops → Connection ops
  unfolding do_close encode_data start_write
  dispatch_message a respond c =
      let (response, timeout) = respond c.buffer in
      let c₁ = record c { messages = c.messages ++ c.buffer ∷ [] } in
      let c₂ = record (encode_data ops (a.now 0) response c₁) { timeout_for_response = timeout } in
      if not c.transport
      then c
      else if length response == 0
      then do_close ops (a.now 0) c₁
      else start_write (a.now 1) (a.now 2) (a.now 3) (a.succeeds 0) c₂

  unfoldable pub handle_write : Time → ErrorCode → Connection ops → Connection ops
  unfolding stopped close_on_error start_read_size do_close
  handle_write now ec c =
      let c' = record c { timer = pos_infin; timeout_state = no_timeout } in
      if stopped ops c
      then close_on_error ops now no_connection c
      else if failed ec
      then close_on_error ops now send_failure c
      else if same_duration c.timeout_for_response (immediate_timeout ops)
      then do_close ops now c'
      else start_read_size ops now c'

  -- Whether the connection waits on the timer again, and the connection. `other_error` tells that the
  -- wait ended with an error other than `operation_aborted`.
  unfoldable pub check_timeout : Bool → (now now' : Time) → Connection ops → Bool × Connection ops
  unfolding close close_on_error is_open
  check_timeout other_error now now' c =
      if other_error
      then (false, record c { socket = close socket_ops c.socket })
      else if not (is_open c.socket.session)
      then (false, if is_sending c.timeout_state then close_on_error ops now' send_stalled c else c)
      else (
        true,
        if up_to c.timer now
            then (if is_sending c.timeout_state
                then close_on_error ops now' send_timeout c
                else close_on_error ops now' receive_timeout c)
            else c,
      )

  -- Whether the connection waits for the next tick, and the connection.
  unfoldable pub handle_tick : Answers Time → Connection ops → Bool × Connection ops
  unfolding is_open take_sent_length is_slow close_on_error
  handle_tick a c =
      let (count, socket) = take_sent_length socket_ops c.socket in
      let c₁ = record c { socket = socket } in
      let c₂ = if ltb 0 count then expires_from_now ops (a.now 2) (stall_timeout ops) c₁ else c₁ in
      let (slow, c₃) = is_slow ops a count c₂ in
      let c₄ = if slow then close_on_error ops (a.now 3) send_timeout c₃ else c₃ in
      let c₅ = if is_sending c.timeout_state then c₄ else c in
      if is_open c.socket.session then (is_open c₅.socket.session, c₅) else (false, c)

  -- The calls that start a connection: what follows the tick that each of them starts, without the
  -- first `CheckTimeout`.
  unfoldable pub start_sending :
      List ℕ
      → Duration
      → (ℕ → ℕ)
      → ℕ
      → (now now' now'' : Time) → Connection ops
      → Option (Connection ops)
  unfolding encode_data start_client_connect
  start_sending message timeout random fuel now now' now'' c =
      start_client_connect random fuel now' now''
        (record (encode_data ops now message c) { timeout_for_response = timeout })

  unfoldable pub connect :
      Duration → (ℕ → ℕ) → ℕ → (now now' : Time) → Connection ops → Option (Connection ops)
  unfolding start_client_connect
  connect timeout random fuel now now' c =
      start_client_connect random fuel now now' (record c { timeout_for_response = timeout })
