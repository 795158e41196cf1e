-- ===== src/Socket/Creation.antt =====
-- The constructor and the destructor of RudpSocket (src/maidsafe/transport/rudp_socket.cc).
use maid_safe_transport.Base.{ℕ, [], if◌then◌else◌}
use maid_safe_transport.Time
use maid_safe_transport.Window.{reset}
use maid_safe_transport.Congestion.{new_congestion}
use maid_safe_transport.Session.{new_session, is_open}
use maid_safe_transport.Dispatch.{Dispatcher, remove_socket}
use maid_safe_transport.Socket.{SocketOps, Socket, Waiting, no_error}

abbrev no_wait : Waiting
no_wait = record { ec = no_error; pending = 0; due = 0 }

module _ (ops : SocketOps) where
  open ops use {time_ops, no_endpoint, SocketPointer, AcceptorPointer}
  open time_ops use {not_a_date_time}

  -- The windows draw their first numbers at random, `first_unacked`, `first_unread` and `first_ack`.
  unfoldable pub new_socket :
      SocketPointer
      → Dispatcher SocketPointer AcceptorPointer
      → time_ops.Time
      → (first_unacked first_unread first_ack : ℕ) → Socket ops
  unfolding reset new_congestion new_session Time.reset
  new_socket self dispatcher now first_unacked first_unread first_ack = record {
    self = self;
    dispatcher = dispatcher;
    endpoint = no_endpoint;
    peer_id = 0;
    expires_at = Time.reset time_ops;
    session = new_session;
    congestion = new_congestion time_ops;
    unacked_packets = reset first_unacked;
    send_timeout = not_a_date_time;
    unread_packets = reset first_unread;
    acks = reset first_ack;
    last_ack_packet_sequence_number = 0;
    ack_sent_time = now;
    waiting_connect = no_wait;
    waiting_write = no_wait;
    waiting_write_buffer = [];
    waiting_write_bytes_transferred = 0;
    waiting_read = no_wait;
    waiting_read_buffer = 0;
    waiting_read_bytes = [];
    waiting_read_transfer_at_least = 0;
    waiting_read_bytes_transferred = 0;
    waiting_flush = no_wait;
    sent_length = 0;
    sent = [];
  }

  -- What the destructor leaves of the dispatcher.
  unfoldable pub destroy : Socket ops → Dispatcher SocketPointer AcceptorPointer
  unfolding is_open remove_socket
  destroy s = if is_open s.session then remove_socket s.session.id s.dispatcher else s.dispatcher
