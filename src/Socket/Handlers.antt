-- ===== src/Socket/Handlers.antt =====
-- What a socket of src/maidsafe/transport/rudp_socket.cc does with a packet, a tick, and the calls
-- that open and close it.
use maid_safe_transport.Base.{ℕ, not, ◌&&◌, Option, none, some, if◌then◌else◌}
use maid_safe_transport.Packet.Wire.{Buffer}
use maid_safe_transport.Packet.Control.{
  ControlPacket, ack_of_ack_packet, ack_of_ack_decode, shutdown_packet, shutdown_decode,
}
use maid_safe_transport.Packet.Data
use maid_safe_transport.Packet.Ack
use maid_safe_transport.Packet.NegativeAck
use maid_safe_transport.Packet.Handshake
use maid_safe_transport.Congestion.{on_open, on_close, set_peer_connection_type}
use maid_safe_transport.Session
use maid_safe_transport.Session.{client, server, is_open, is_connected}
use maid_safe_transport.Sender
use maid_safe_transport.Receiver
use maid_safe_transport.Dispatch.{add_socket, remove_socket}
use maid_safe_transport.Socket.{
  SocketOps, Answers, Socket, link_of, with_link, sender_of, with_sender, receiver_of,
  with_receiver, no_error, operation_aborted, complete, async_wait, process_write, process_read,
  process_flush,
}

module _ (ops : SocketOps) where
  open ops use {
    address_ops, time_ops, double_ops, sort, Endpoint, same_endpoint, no_endpoint, connection_type,
    SocketPointer, AcceptorPointer,
  }
  open time_ops use {Time}

  -- The part of `Close` that runs on a session that is open.
  unfoldable pub leave : Socket ops → Socket ops
  leave s =
      let t = with_sender ops (Sender.notify_close time_ops s.peer_id (sender_of ops s)) s in
      if is_open s.session
      then record t {
        congestion = on_close time_ops t.congestion;
        dispatcher = remove_socket s.session.id s.dispatcher;
      }
      else s

  unfoldable pub close : Socket ops → Socket ops
  unfolding leave complete
  close s =
      let t = leave s in
      record (with_link ops (Session.close address_ops time_ops (link_of ops t)) t) {
        endpoint = no_endpoint;
        peer_id = 0;
        waiting_connect = complete operation_aborted t.waiting_connect;
        waiting_write = complete operation_aborted t.waiting_write;
        waiting_write_bytes_transferred = 0;
        waiting_read = complete operation_aborted t.waiting_read;
        waiting_read_bytes_transferred = 0;
        waiting_flush = complete operation_aborted t.waiting_flush;
      }

  -- The call of `Open` in both forms of `StartConnect`; `none` when `AddSocket` found no id with the
  -- fuel that it was given.
  unfoldable pub open_session : (ℕ → ℕ) → ℕ → Time → Session.Mode → Socket ops → Option (Socket ops)
  open_session random fuel now mode s = elim (add_socket random fuel s.self s.dispatcher) [
    | none ↦ none
    | some (id, d) ↦
        let n = Sender.get_next_packet_sequence_number time_ops (sender_of ops s) in
        some (
          with_link ops (Session.open_session address_ops time_ops now id n mode (link_of ops s))
            (record s { dispatcher = d }))
  ]

  unfoldable pub start_connect : (ℕ → ℕ) → ℕ → Time → Endpoint → Socket ops → Option (Socket ops)
  unfolding open_session
  start_connect random fuel now remote s =
      open_session random fuel now client (record s { endpoint = remote; peer_id = 0 })

  unfoldable pub start_connect_accepted : (ℕ → ℕ) → ℕ → Time → Socket ops → Option (Socket ops)
  unfolding open_session
  start_connect_accepted random fuel now s = open_session random fuel now server s

  unfoldable pub async_connect : (ℕ → ℕ) → ℕ → Time → Endpoint → Socket ops → Option (Socket ops)
  unfolding start_connect async_wait
  async_connect random fuel now remote s =
      start_connect random fuel now remote
        (record s { waiting_connect = async_wait s.waiting_connect })

  unfoldable pub async_connect_accepted : (ℕ → ℕ) → ℕ → Time → Socket ops → Option (Socket ops)
  unfolding start_connect_accepted async_wait
  async_connect_accepted random fuel now s =
      start_connect_accepted random fuel now
        (record s { waiting_connect = async_wait s.waiting_connect })

  -- What `HandleHandshake` does when the packet has made the connection.
  unfoldable pub connected : Socket ops → Socket ops
  unfolding complete
  connected s =
      let c =
        set_peer_connection_type time_ops connection_type s.session.peer_connection_type
          (on_open time_ops s.congestion) in
      record (with_receiver ops
        (Receiver.reset_receiver time_ops s.session.receiving_sequence_number
          (receiver_of ops (record s { congestion = c })))
        s) { waiting_connect = complete no_error s.waiting_connect }

  unfoldable pub handle_handshake :
      Time → Handshake.HandshakePacket address_ops.AddressV6 → Socket ops → Socket ops
  unfolding connected
  handle_handshake now p s =
      let t =
        with_link ops (Session.handle_handshake address_ops time_ops now p (link_of ops s)) s in
      if not (is_connected s.session) && is_connected t.session then connected t else t

  -- `ProcessRead`, `ProcessWrite` and `ProcessFlush`, as four handlers end.
  unfoldable pub process_transfers : Answers Time → Socket ops → Socket ops
  unfolding process_read process_write
  process_transfers a s = process_write ops (a.now 9) (a.succeeds 9) (process_read ops s)

  unfoldable pub process_all : Answers Time → Socket ops → Socket ops
  unfolding process_transfers process_flush
  process_all a s = process_flush ops (process_transfers a s)

  unfoldable pub handle_data : Answers Time → Data.DataPacket → Socket ops → Socket ops
  unfolding process_transfers
  handle_data a p s =
      let t =
        Receiver.handle_data time_ops (a.now_at 0) (a.now 0) (a.now 1) (a.now 2) p
          (receiver_of ops s) in
      if is_connected s.session then process_transfers a (with_receiver ops t s) else s

  unfoldable pub handle_ack : Answers Time → Ack.AckPacket → Socket ops → Socket ops
  unfolding process_all
  handle_ack a p s =
      let t =
        Sender.handle_ack time_ops double_ops (a.now 0) (a.succeeds 0) s.peer_id p
          (sender_of ops s) in
      if is_connected s.session then process_all a (with_sender ops t s) else s

  unfoldable pub handle_ack_of_ack : Answers Time → ControlPacket → Socket ops → Socket ops
  unfolding process_all
  handle_ack_of_ack a p s =
      let t = Receiver.handle_ack_of_ack time_ops (a.now 0) p (receiver_of ops s) in
      if is_connected s.session then process_all a (with_receiver ops t s) else s

  unfoldable pub handle_negative_ack :
      Answers Time → NegativeAck.NegativeAckPacket → Socket ops → Socket ops
  handle_negative_ack a p s =
      let t = Sender.handle_negative_ack time_ops (a.now 0) (a.succeeds 0) p (sender_of ops s) in
      if is_connected s.session then with_sender ops t s else s

  unfoldable pub handle_tick : Answers Time → Socket ops → Socket ops
  unfolding process_all
  handle_tick a s =
      let t =
        with_sender ops
          (Sender.handle_tick time_ops (a.now 0) (a.now_at 0) (a.now 1) (a.succeeds 0)
            (sender_of ops s))
          s in
      let u =
        with_receiver ops
          (Receiver.handle_tick time_ops sort t.peer_id (a.now 2) (a.now_at 1) (a.now_at 2)
            (a.now 3) (receiver_of ops t))
          t in
      if is_connected s.session
      then process_all a u
      else with_link ops (Session.handle_tick address_ops time_ops (a.now 0) (link_of ops s)) s

  -- A packet by its class, as the chain of `Decode` finds it; each is decoded into a new object.
  pub data Packet : Type 0 where
    data_arrived : Data.DataPacket → Packet
    ack_arrived : Ack.AckPacket → Packet
    ack_of_ack_arrived : ControlPacket → Packet
    negative_ack_arrived : NegativeAck.NegativeAckPacket → Packet
    handshake_arrived : Handshake.HandshakePacket address_ops.AddressV6 → Packet
    shutdown_arrived : ControlPacket → Packet
    nothing_arrived : Packet

  -- `if (packet.Decode(data)) ... else rest`
  abbrev pub or_else : {A : Type 0} → Option A → (A → Packet) → Packet → Packet
  or_else none f rest = rest
  or_else (some p) f rest = f p

  unfoldable pub decode : Buffer → Packet
  decode b = or_else (Data.decode b) data_arrived (
      or_else (Ack.decode Ack.ack_packet b) ack_arrived (
        or_else (ack_of_ack_decode ack_of_ack_packet b) ack_of_ack_arrived (
          or_else (NegativeAck.decode NegativeAck.negative_ack_packet b) negative_ack_arrived (
            or_else (Handshake.decode address_ops (Handshake.handshake_packet address_ops) b)
              handshake_arrived
              (or_else (shutdown_decode shutdown_packet b) shutdown_arrived nothing_arrived)))))

  unfoldable pub handle_packet : Answers Time → Packet → Socket ops → Socket ops
  unfolding handle_data handle_ack handle_ack_of_ack handle_negative_ack handle_handshake close
  handle_packet a (data_arrived p) s = handle_data a p s
  handle_packet a (ack_arrived p) s = handle_ack a p s
  handle_packet a (ack_of_ack_arrived p) s = handle_ack_of_ack a p s
  handle_packet a (negative_ack_arrived p) s = handle_negative_ack a p s
  handle_packet a (handshake_arrived p) s = handle_handshake (a.now 0) p s
  handle_packet a (shutdown_arrived p) s = close s
  handle_packet a nothing_arrived s = s

  unfoldable pub handle_receive_from : Answers Time → Buffer → Endpoint → Socket ops → Socket ops
  unfolding decode handle_packet
  handle_receive_from a b remote s =
      if same_endpoint remote s.endpoint then handle_packet a (decode b) s else s
