-- ===== src/Connection.antt =====
-- src/maidsafe/transport/rudp_connection.{h,cc}: a connection sends and receives messages over a
-- socket. A strand runs one of its handlers at a time, so that each is a function on the state; a
-- function that only dispatches another one to the strand is that other one. The state logs what
-- the connection tells others: the errors, the answers to the callback of `Connect`, the messages
-- that were dispatched, and the times that the transport was told to forget it.
pub mod Steps
pub mod Framing
pub mod Collecting
pub mod Messages
pub mod Empty
use maid_safe_transport.Base.{
  ℕ, zero, suc, ◌+◌, ◌-◌, ◌*◌, ◌/◌, ◌%◌, ◌^◌, Bool, true, false, not, ◌&&◌, ◌||◌, List, [], ◌∷◌,
  ◌++◌, take, drop, length, min, ltb, ◌==◌, bit_or, if◌then◌else◌, get_elem?, Option, none, some,
}
use maid_safe_transport.Time.{TimeOps}
use maid_safe_transport.Packet.Wire.{shl, shr}
use maid_safe_transport.Congestion.{is_slow_transmission, best_read_buffer_size}
use maid_safe_transport.Session.{is_open}
use maid_safe_transport.Socket.{
  SocketOps, RudpSocket, Answers, Socket, ErrorCode, async_write, async_read, async_flush,
  take_sent_length,
}
use maid_safe_transport.Socket.Handlers
use maid_safe_transport.Socket.Handlers.{close}

-- `==` on durations, with what a socket is built on.
pub record ConnectionOps : Type 1 where
  pub socket_ops : SocketOps
  pub same_duration : socket_ops.time_ops.Duration → socket_ops.time_ops.Duration → Bool

-- The values of `TransportCondition` that a connection reports.
pub data Condition : Type 0 where
  success connect_error message_size_too_large send_stalled send_timeout receive_timeout : Condition
  send_failure receive_failure no_connection : Condition

pub data TimeoutState : Type 0 where
  no_timeout sending receiving : TimeoutState

pub record RudpConnection (E Sk Time Duration : Type 0) : Type 0 where
  -- `transport_.lock()` answers a transport.
  pub transport : Bool
  pub socket : Sk
  pub timer : Time
  pub response_deadline : Time
  pub remote_endpoint : E
  -- `buffer_`, and the offset in it at which the socket writes what it reads.
  pub buffer : List ℕ
  pub read_offset : ℕ
  pub data_size : ℕ
  pub data_received : ℕ
  pub timeout_for_response : Duration
  pub timeout_state : TimeoutState
  pub errors : List Condition
  pub answers : List Condition
  -- The calls of `DispatchMessage` that were posted, and the messages that were handed over.
  pub posted : ℕ
  pub messages : List (List ℕ)
  pub removed : ℕ

-- src/maidsafe/transport/rudp_transport.h
abbrev pub max_transport_message_size : ℕ
max_transport_message_size = 67108864

abbrev zeros : ℕ → List ℕ
zeros zero = []
zeros (suc n) = 0 ∷ zeros n

-- `std::vector::resize`
abbrev pub resize : ℕ → List ℕ → List ℕ
resize n xs = take n (xs ++ zeros (n - length xs))

-- `memcpy` of some bytes to an offset of the buffer.
abbrev pub overlay : ℕ → List ℕ → List ℕ → List ℕ
overlay i bytes xs = take i xs ++ bytes ++ drop (i + length bytes) xs

-- `buffer_.at(i)`; the source throws past the end.
abbrev pub at : ℕ → List ℕ → ℕ
at i xs = elim (get_elem? xs i) [ none ↦ 0 | some x ↦ x ]

-- The four bytes of a size, and the size of four bytes. `DataSize` is an int32_t: the test against
-- the largest size refuses the sizes that it makes negative, and a negative size that is read wraps
-- in the assignment to a size_t.
unfoldable pub size_bytes : ℕ → List ℕ
size_bytes n = shr n 24 % 256 ∷ shr n 16 % 256 ∷ shr n 8 % 256 ∷ n % 256 ∷ []

unfoldable pub size_of : List ℕ → ℕ
size_of b =
    let n = bit_or (shl (bit_or (shl (bit_or (shl (at 0 b) 8) (at 1 b)) 8) (at 2 b)) 8) (at 3 b) in
    if ltb n (2 ^ 31) then n else n + (2 ^ 64 - 2 ^ 32)

module _ (ops : ConnectionOps) where
  open ops use {socket_ops, same_duration}
  open socket_ops use {time_ops, Endpoint}
  open time_ops use {Time, Duration, later, milliseconds, before, up_to, pos_infin}

  abbrev pub Connection : Type 0
  Connection = RudpConnection Endpoint (Socket socket_ops) Time Duration

  -- The constants of src/maidsafe/transport/transport.h
  abbrev pub default_initial_timeout : Duration
  default_initial_timeout = milliseconds 10000

  abbrev pub immediate_timeout : Duration
  immediate_timeout = milliseconds 0

  abbrev pub stall_timeout : Duration
  stall_timeout = milliseconds 3000

  -- `timer_.expires_from_now`
  abbrev pub expires_from_now : Time → Duration → Connection → Connection
  expires_from_now now d c = record c { timer = later now d }

  -- What the socket has written to the buffer.
  abbrev pub loaded : Connection → List ℕ
  loaded c = overlay c.read_offset c.socket.waiting_read_bytes c.buffer

  unfoldable pub stopped : Connection → Bool
  unfolding is_open
  stopped c = not c.transport || not (is_open c.socket.session)

  unfoldable pub do_close : Time → Connection → Connection
  unfolding close async_flush
  do_close now c =
      if c.transport
      then expires_from_now now stall_timeout (record c {
        transport = false;
        removed = c.removed + 1;
        socket = async_flush socket_ops c.socket;
      })
      else record c { socket = close socket_ops c.socket }

  unfoldable pub close_on_error : Time → Condition → Connection → Connection
  unfolding do_close
  close_on_error now error c =
      do_close now (if c.transport then record c { errors = c.errors ++ error ∷ [] } else c)

  -- `socket_.IsSlowTransmission`
  unfoldable pub is_slow : Answers Time → ℕ → Connection → Bool × Connection
  unfolding is_slow_transmission
  is_slow a count c =
      let (slow, congestion) =
        is_slow_transmission time_ops (a.now 0) (a.now 1) count c.socket.congestion in
      (slow, record c { socket = record (c.socket) { congestion = congestion } })

  unfoldable pub start_read_size : Time → Connection → Connection
  unfolding async_read
  start_read_size now c =
      let deadline = later now c.timeout_for_response in
      let stall = later now stall_timeout in
      record c {
        buffer = resize 4 c.buffer;
        read_offset = 0;
        socket = async_read socket_ops 4 4 c.socket;
        response_deadline = deadline;
        timer = if before deadline stall then stall else deadline;
        timeout_state = receiving;
      }

  -- The differences are of `size_t`.
  unfoldable pub start_read_data : Time → Connection → Connection
  unfolding stopped close_on_error async_read best_read_buffer_size
  start_read_data now c =
      let more =
        min (best_read_buffer_size time_ops c.socket.congestion)
          ((c.data_size + 2 ^ 64 - c.data_received) % 2 ^ 64) in
      if stopped c then close_on_error now no_connection c else record c {
        buffer = resize (c.data_received + more) c.buffer;
        read_offset = c.data_received;
        socket = async_read socket_ops more 1 c.socket;
      }

  unfoldable pub encode_data : Time → List ℕ → Connection → Connection
  unfolding close_on_error size_bytes
  encode_data now message c =
      let n = length message % 2 ^ 32 in
      if ltb max_transport_message_size n
      then close_on_error now message_size_too_large c
      else record c { buffer = size_bytes n ++ message }
