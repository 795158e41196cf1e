-- ===== src/Socket.antt =====
-- src/maidsafe/transport/rudp_socket.{h,cc}: the operations of a connection that wait, and the pieces
-- of a socket seen by its session, its sender and its receiver. Each of the four waits counts the
-- handlers that are pending and those that are due; a handler that runs reads the error code that
-- the socket has then, as the adapters rudp_{connect,write,read,flush}_op.h do.
pub mod Handlers
pub mod Transfers
pub mod Creation
pub mod Decoding
pub mod States
use maid_safe_transport.Base.{
  ℕ, ◌+◌, ◌-◌, ◌%◌, ◌^◌, Bool, ◌&&◌, ◌||◌, List, [], ◌∷◌, ◌++◌, map, drop, length, leb, ◌==◌,
  if◌then◌else◌,
}
use maid_safe_transport.Time.{TimeOps}
use maid_safe_transport.Packet.Address.{AddressOps}
use maid_safe_transport.Packet.Handshake.{HandshakePacket}
use maid_safe_transport.Window.{Window}
use maid_safe_transport.Congestion.{Congestion, DoubleOps}
use maid_safe_transport.Session
use maid_safe_transport.Session.{Session}
use maid_safe_transport.Sender
use maid_safe_transport.Sender.{UnackedPacket, add_data}
use maid_safe_transport.Receiver
use maid_safe_transport.Receiver.{UnreadPacket, AckEntry, read_data}
use maid_safe_transport.Dispatch.{Dispatcher}

-- What a socket is built on: the addresses, times and floating-point products that its parts take,
-- `std::sort`, the endpoints of Boost.Asio (an address and a port, with no law assumed), what points
-- to sockets and acceptors, and the global `RudpParameters::connection_type`.
pub record SocketOps : Type 1 where
  pub address_ops : AddressOps
  pub time_ops : TimeOps
  pub double_ops : DoubleOps
  pub sort : List ℕ → List ℕ
  pub Endpoint : Type 0
  pub address : Endpoint → address_ops.Address
  pub same_endpoint : Endpoint → Endpoint → Bool
  pub no_endpoint : Endpoint
  pub SocketPointer : Type 0
  pub AcceptorPointer : Type 0
  pub connection_type : ℕ

-- `boost::system::error_code`, as far as a socket sets it
pub data ErrorCode : Type 0 where
  no_error operation_aborted : ErrorCode

pub record Waiting : Type 0 where
  pub ec : ErrorCode
  pub pending : ℕ
  pub due : ℕ

unfoldable pub async_wait : Waiting → Waiting
async_wait w = record w { pending = w.pending + 1 }

-- The error code is set, and the timer cancelled.
unfoldable pub complete : ErrorCode → Waiting → Waiting
complete ec w = record { ec = ec; pending = 0; due = w.due + w.pending }

pub data Sent (V : Type 0) : Type 0 where
  session_sent : HandshakePacket V → Sent V
  sender_sent : Sender.Sent → Sent V
  receiver_sent : Receiver.Sent → Sent V

-- `P` is the type of what points to a socket, and `Q` to an acceptor. Of the dispatcher, which other
-- sockets share, it is the value while the socket runs.
pub record RudpSocket (E V Time Duration P Q : Type 0) : Type 0 where
  pub self : P
  pub dispatcher : Dispatcher P Q
  pub endpoint : E
  pub peer_id : ℕ
  pub expires_at : Time
  pub session : Session
  pub congestion : Congestion Time Duration
  pub unacked_packets : Window (UnackedPacket Time)
  pub send_timeout : Time
  pub unread_packets : Window (UnreadPacket Time)
  pub acks : Window (AckEntry Time)
  pub last_ack_packet_sequence_number : ℕ
  pub ack_sent_time : Time
  pub waiting_connect : Waiting
  pub waiting_write : Waiting
  pub waiting_write_buffer : List ℕ
  pub waiting_write_bytes_transferred : ℕ
  pub waiting_read : Waiting
  -- The room that is left in the buffer, and the bytes that stand in it before the room.
  pub waiting_read_buffer : ℕ
  pub waiting_read_bytes : List ℕ
  pub waiting_read_transfer_at_least : ℕ
  pub waiting_read_bytes_transferred : ℕ
  pub waiting_flush : Waiting
  pub sent_length : ℕ
  pub sent : List (Sent V)

-- What the world answers while a handler runs: the calls of `Now()` by their place in the handler,
-- those in its loops by the number that the loop is at, and whether `Send` in a run of `DoSend`
-- succeeds.
pub record Answers (Time : Type 0) : Type 0 where
  pub now : ℕ → Time
  pub now_at : ℕ → ℕ → Time
  pub succeeds : ℕ → ℕ → Bool

module _ (ops : SocketOps) where
  open ops use {address_ops, time_ops, Endpoint, address, SocketPointer, AcceptorPointer}
  open address_ops use {Address, AddressV6}
  open time_ops use {Time, Duration}

  abbrev pub Socket : Type 0
  Socket = RudpSocket Endpoint AddressV6 Time Duration SocketPointer AcceptorPointer

  -- What the session, the sender and the receiver see of the socket, and the socket behind what
  -- they made of it.
  abbrev pub link_of : Socket → Session.SessionLink address_ops time_ops
  link_of s = record {
    session = s.session;
    peer = record { address = address s.endpoint; id = s.peer_id };
    expires_at = s.expires_at;
    sent = [];
  }

  abbrev pub with_link : Session.SessionLink address_ops time_ops → Socket → Socket
  with_link l s = record s {
    session = l.session;
    peer_id = l.peer.id;
    expires_at = l.expires_at;
    sent = s.sent ++ map session_sent l.sent;
  }

  abbrev pub sender_of : Socket → Sender.State time_ops
  sender_of s = record {
    unacked_packets = s.unacked_packets;
    send_timeout = s.send_timeout;
    congestion = s.congestion;
    expires_at = s.expires_at;
    sent = [];
  }

  abbrev pub with_sender : Sender.State time_ops → Socket → Socket
  with_sender t s = record s {
    unacked_packets = t.unacked_packets;
    send_timeout = t.send_timeout;
    congestion = t.congestion;
    expires_at = t.expires_at;
    sent = s.sent ++ map sender_sent t.sent;
  }

  abbrev pub receiver_of : Socket → Receiver.State time_ops
  receiver_of s = record {
    unread_packets = s.unread_packets;
    acks = s.acks;
    last_ack_packet_sequence_number = s.last_ack_packet_sequence_number;
    ack_sent_time = s.ack_sent_time;
    congestion = s.congestion;
    expires_at = s.expires_at;
    sent = [];
  }

  abbrev pub with_receiver : Receiver.State time_ops → Socket → Socket
  with_receiver t s = record s {
    unread_packets = t.unread_packets;
    acks = t.acks;
    last_ack_packet_sequence_number = t.last_ack_packet_sequence_number;
    ack_sent_time = t.ack_sent_time;
    congestion = t.congestion;
    expires_at = t.expires_at;
    sent = s.sent ++ map receiver_sent t.sent;
  }

  -- The test at the end of `ProcessWrite`.
  unfoldable pub finish_write : Socket → Socket
  unfolding complete
  finish_write s =
      if length s.waiting_write_buffer == 0
      then record s { sent_length = 0; waiting_write = complete no_error s.waiting_write }
      else s

  unfoldable pub process_write : Time → (ℕ → Bool) → Socket → Socket
  unfolding finish_write
  process_write now succeeds s =
      let (count, t) =
        add_data time_ops now succeeds s.peer_id s.waiting_write_buffer (sender_of s) in
      if length s.waiting_write_buffer == 0
      then s
      else finish_write (record (with_sender t s) {
        waiting_write_buffer = drop count s.waiting_write_buffer;
        waiting_write_bytes_transferred = s.waiting_write_bytes_transferred + count;
      })

  -- The test at the end of `ProcessRead`.
  unfoldable pub finish_read : Socket → Socket
  unfolding complete
  finish_read s =
      if s.waiting_read_buffer == 0
        || leb s.waiting_read_transfer_at_least s.waiting_read_bytes_transferred
      then record s { waiting_read = complete no_error s.waiting_read }
      else s

  unfoldable pub process_read : Socket → Socket
  unfolding finish_read
  process_read s =
      let (bytes, t) = read_data time_ops s.waiting_read_buffer (receiver_of s) in
      if s.waiting_read_buffer == 0
      then s
      else finish_read (record (with_receiver t s) {
        waiting_read_buffer = s.waiting_read_buffer - length bytes;
        waiting_read_bytes = s.waiting_read_bytes ++ bytes;
        waiting_read_bytes_transferred = s.waiting_read_bytes_transferred + length bytes;
      })

  unfoldable pub process_flush : Socket → Socket
  unfolding complete
  process_flush s =
      if Sender.flushed time_ops (sender_of s) && Receiver.flushed time_ops (receiver_of s)
      then record s { waiting_flush = complete no_error s.waiting_flush }
      else s

  unfoldable pub start_write : Time → (ℕ → Bool) → List ℕ → Socket → Socket
  unfolding process_write complete
  start_write now succeeds bytes s =
      if length bytes == 0
      then record s { waiting_write = complete no_error s.waiting_write }
      else process_write now succeeds
          (record s { waiting_write_buffer = bytes; waiting_write_bytes_transferred = 0 })

  -- A read with no room leaves the count of the read before; its own buffer holds no bytes.
  unfoldable pub start_read : ℕ → ℕ → Socket → Socket
  unfolding process_read complete
  start_read room transfer_at_least s =
      if room == 0
      then record s { waiting_read = complete no_error s.waiting_read; waiting_read_bytes = [] }
      else process_read (record s {
        waiting_read_buffer = room;
        waiting_read_bytes = [];
        waiting_read_transfer_at_least = transfer_at_least;
        waiting_read_bytes_transferred = 0;
      })

  unfoldable pub async_write : Time → (ℕ → Bool) → List ℕ → Socket → Socket
  unfolding start_write async_wait
  async_write now succeeds bytes s =
      start_write now succeeds bytes (record s { waiting_write = async_wait s.waiting_write })

  unfoldable pub async_read : ℕ → ℕ → Socket → Socket
  unfolding start_read async_wait
  async_read room transfer_at_least s =
      start_read room transfer_at_least (record s { waiting_read = async_wait s.waiting_read })

  unfoldable pub async_flush : Socket → Socket
  unfolding process_flush async_wait
  async_flush s = process_flush (record s { waiting_flush = async_wait s.waiting_flush })

  -- `SentLength`, on differences of `size_t` cut to 32 bits.
  unfoldable pub take_sent_length : Socket → ℕ × Socket
  take_sent_length s = (
    (s.waiting_write_bytes_transferred + 2 ^ 64 - s.sent_length) % 2 ^ 32,
    record s { sent_length = s.waiting_write_bytes_transferred },
  )
