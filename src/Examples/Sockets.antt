-- ===== src/Examples/Sockets.antt =====
-- Sockets, a dispatcher and an acceptor of src/maidsafe/transport/rudp_socket.cc,
-- rudp_dispatcher.cc and rudp_acceptor.cc.
use maid_safe_transport.Base.{
  ℕ, ◌+◌, ◌-◌, ◌^◌, ◌≡◌, ◌≢◌, ◌↔◌, refl, arith, Bool, true, false, not, ◌&&◌, ◌||◌, leb, none, some,
  List, [], ◌∷◌, ◌++◌, map, take, drop, length, ◌==◌, if◌then◌else◌,
}
use maid_safe_transport.Packet.Data
use maid_safe_transport.Packet.Handshake
use maid_safe_transport.Packet.Wire.{Buffer}
use maid_safe_transport.Packet.Control.{shutdown_decode, shutdown_packet, set_destination_socket_id}
use maid_safe_transport.Window.{reset}
use maid_safe_transport.Window.Index.{IsValid}
use maid_safe_transport.Session.{client, connected, probing, is_open, is_connected}
use maid_safe_transport.Congestion.{new_congestion}
use maid_safe_transport.Sender
use maid_safe_transport.Sender.{resized}
use maid_safe_transport.Sender.Sending.{after_send, attempts}
use maid_safe_transport.Sender.Adding.{payloads}
use maid_safe_transport.Receiver.Reading.{readable}
use maid_safe_transport.Dispatch.{
  Dispatcher, find, add_socket, unique_id, remove_socket, handle_receive_from,
}
use maid_safe_transport.Dispatch.Routing.{add_socket_lem, add_socket-receives}
use maid_safe_transport.Accept
use maid_safe_transport.Accept.{Acceptor, new_acceptor, async_accept}
use maid_safe_transport.Accept.Queue.{
  Event, offered, arrived, handle_all, handle_all_lem, OneAtATime, pairs, sockets_of, requests_of,
}
use maid_safe_transport.Socket.{
  SocketOps, RudpSocket, Waiting, Answers, no_error, complete, process_read, process_write,
  sender_sent,
}
use maid_safe_transport.Socket.Transfers.{
  ends_if, added_packets, process_read_lem, process_write_lem,
}
use maid_safe_transport.Socket.Handlers
use maid_safe_transport.Socket.Handlers.{close, handle_handshake, decode}
use maid_safe_transport.Socket.Decoding.{
  accepts, class_of, decode-class, data_class, handshake_class, shutdown_class,
}
use maid_safe_transport.Socket.States.{
  Aborted, close_lem, not_connected-handle_receive_from, handle_handshake_lem, makes_connection,
}
use maid_safe_transport.Examples.Fixtures.{
  time_ops, address_ops, double_ops, buffer, packet, sender, receiver, session, handshake,
  congestion,
}

abbrev pub socket_ops : SocketOps
socket_ops = record {
  address_ops = address_ops;
  time_ops = time_ops;
  double_ops = double_ops;
  sort = λ xs. xs;
  Endpoint = Bool;
  address = λ e. e;
  same_endpoint = λ e f. if e then f else not f;
  no_endpoint = false;
  SocketPointer = ℕ;
  AcceptorPointer = ℕ;
  connection_type = 0;
}

abbrev one_waits : Waiting
one_waits = record { ec = no_error; pending = 1; due = 0 }

-- A connected socket with a read and a write that wait.
abbrev pub socket : RudpSocket Bool Bool ℕ ℕ ℕ ℕ
socket = record {
  self = 10;
  dispatcher = record { acceptor = none; sockets = (1, 10) ∷ (2, 20) ∷ [] };
  endpoint = true;
  peer_id = 77;
  expires_at = 2 ^ 63;
  session = session client connected;
  congestion = congestion;
  unacked_packets = sender.unacked_packets;
  send_timeout = 2 ^ 63;
  unread_packets = receiver.unread_packets;
  acks = receiver.acks;
  last_ack_packet_sequence_number = 0x7fffffff;
  ack_sent_time = 0;
  waiting_connect = record { ec = no_error; pending = 0; due = 0 };
  waiting_write = one_waits;
  waiting_write_buffer = 5 ∷ 6 ∷ [];
  waiting_write_bytes_transferred = 0;
  waiting_read = one_waits;
  waiting_read_buffer = 4;
  waiting_read_bytes = 9 ∷ [];
  waiting_read_transfer_at_least = 2;
  waiting_read_bytes_transferred = 1;
  waiting_flush = record { ec = no_error; pending = 0; due = 0 };
  sent_length = 0;
  sent = [];
}

abbrev unconnected : RudpSocket Bool Bool ℕ ℕ ℕ ℕ
unconnected = record socket { session = session client probing }

abbrev pub answers : Answers ℕ
answers = record { now = λ i. 30; now_at = λ i n. 30; succeeds = λ i n. true }

abbrev dispatcher : Dispatcher ℕ ℕ
dispatcher = record { acceptor = none; sockets = (1, 10) ∷ (2, 20) ∷ [] }

-- 0 and 2 are refused, 7 is free.
abbrev random : ℕ → ℕ
random n = if n == 0 then 2 else 7

add_socket_lem_example :
    (id : ℕ) × (d' : Dispatcher ℕ ℕ) × (add_socket random 4 30 dispatcher ≡ some (id, d'))
    × (id ≢ 0)
    × (find id dispatcher.sockets ≡ none)
    × ((k : ℕ) → find k d'.sockets ≡ (if k == id then some 30 else find k dispatcher.sockets))
    × (d'.acceptor ≡ none)
add_socket_lem_example = add_socket_lem random 4 1 30 dispatcher refl (omega arith)

abbrev with_socket : Dispatcher ℕ ℕ
with_socket = record { acceptor = none; sockets = (7, 30) ∷ (1, 10) ∷ (2, 20) ∷ [] }

added : add_socket random 4 30 dispatcher ≡ some (7, with_socket)
unfolding add_socket unique_id
added = refl

readdressed_IsValid : Data.IsValid (record packet { destination_socket_id = 7 })
readdressed_IsValid = ground arith

add_socket-receives_example :
    let p = record packet { destination_socket_id = 7 } in
    let (n, out) = Data.encode p buffer in
    let arrived = record out { size = n } in
    (handle_receive_from (λ q s. 0) (λ socket s. socket) arrived with_socket 5 ≡ 30)
    × (handle_receive_from (λ q s. 0) (λ socket s. socket) arrived (remove_socket 7 with_socket) 5
        ≡ 5)
add_socket-receives_example =
    add_socket-receives (λ q s. 0) (λ socket s. socket) random 4 7 30 dispatcher with_socket
      (record packet { destination_socket_id = 7 }) buffer 5 added readdressed_IsValid (omega arith)
      refl

unread_IsValid : IsValid socket.unread_packets
unread_IsValid = omega arith

process_read_lem_example :
    let ready = readable time_ops socket.unread_packets.items in
    let bytes = take 4 ready in
    let room = 4 - length bytes in
    let transferred = 1 + length bytes in
    let s' = process_read socket_ops socket in
    (s'.waiting_read_bytes ≡ (9 ∷ []) ++ bytes)
    × (readable time_ops s'.unread_packets.items ≡ drop 4 ready)
    × (s'.waiting_read_buffer ≡ room)
    × (s'.waiting_read_bytes_transferred ≡ transferred)
    × (s'.waiting_read
        ≡ ends_if socket_ops (not (4 == 0) && (room == 0 || leb 2 transferred)) one_waits)
process_read_lem_example = process_read_lem socket_ops socket unread_IsValid

unacked_IsValid : IsValid socket.unacked_packets
unacked_IsValid = omega arith

-- The two bytes go into one packet.
added_bytes : payloads time_ops (added_packets socket_ops socket) ≡ 5 ∷ 6 ∷ []
unfolding resized new_congestion Sender.filled
added_bytes = refl

process_write_lem_example :
    let added = added_packets socket_ops socket in
    let s' = process_write socket_ops 30 (λ n. true) socket in
    (s'.unacked_packets.items ≡ (
      if 2 == 0
      then socket.unacked_packets.items
      else after_send time_ops 30
          (λ n. true)
          socket.unacked_packets.begin
          (socket.unacked_packets.items ++ added)))
    × (s'.sent ≡ (
        if 2 == 0
        then []
        else []
          ++ map sender_sent (
              attempts time_ops 30
                (λ n. true)
                socket.unacked_packets.begin
                (socket.unacked_packets.items ++ added))))
    × (payloads time_ops added ++ s'.waiting_write_buffer ≡ 5 ∷ 6 ∷ [])
    × (s'.waiting_write_bytes_transferred ≡ 0 + length (payloads time_ops added))
    × (s'.waiting_write
        ≡ ends_if socket_ops (not (2 == 0) && length s'.waiting_write_buffer == 0) one_waits)
process_write_lem_example = process_write_lem socket_ops 30 (λ n. true) socket unacked_IsValid

decode-class_example :
    (accepts socket_ops data_class buffer ≡ true)
    ↔ (class_of socket_ops (decode socket_ops buffer) ≡ some data_class)
decode-class_example = decode-class socket_ops data_class buffer

socket_open : is_open socket.session ≡ true
unfolding is_open
socket_open = refl

close_lem_example :
    let s' = close socket_ops socket in
    (is_open s'.session ≡ false)
    × (find 1 s'.dispatcher.sockets ≡ none)
    × (s'.sent
        ≡ []
          ++ sender_sent (Sender.shutdown_sent (set_destination_socket_id 77 shutdown_packet)) ∷ [])
    × Aborted socket_ops socket.waiting_connect s'.waiting_connect
    × Aborted socket_ops one_waits s'.waiting_write
    × Aborted socket_ops one_waits s'.waiting_read
    × Aborted socket_ops socket.waiting_flush s'.waiting_flush
close_lem_example = close_lem socket_ops socket socket_open (omega arith)

still_probing : is_connected unconnected.session ≡ false
unfolding is_connected
still_probing = refl

no_handshake : accepts socket_ops handshake_class buffer ≡ false
unfolding Handshake.decode
no_handshake = refl

no_shutdown : accepts socket_ops shutdown_class buffer ≡ false
unfolding shutdown_decode
no_shutdown = refl

not_connected-handle_receive_from_example :
    Handlers.handle_receive_from socket_ops answers buffer true unconnected ≡ unconnected
not_connected-handle_receive_from_example =
    not_connected-handle_receive_from socket_ops answers buffer true unconnected still_probing
      no_handshake no_shutdown

-- The acceptance that the client waits for.
abbrev acceptance : Handshake.HandshakePacket Bool
acceptance = record handshake { connection_type = 0xffffffff }

acceptance-makes_connection : makes_connection socket_ops acceptance unconnected.session ≡ true
unfolding is_connected
acceptance-makes_connection = refl

handle_handshake_lem_example :
    let s' = handle_handshake socket_ops 30 acceptance unconnected in
    let made = makes_connection socket_ops acceptance unconnected.session in
    (is_connected s'.session ≡ (is_connected unconnected.session || made))
    × (s'.waiting_connect ≡ (
        if made
        then complete no_error unconnected.waiting_connect
        else unconnected.waiting_connect))
    × (s'.unread_packets ≡ (
        if made
        then reset acceptance.initial_packet_sequence_number
        else unconnected.unread_packets))
    × (s'.unacked_packets ≡ unconnected.unacked_packets)
handle_handshake_lem_example = handle_handshake_lem socket_ops 30 acceptance unconnected

-- A handshake packet of zeros.
abbrev request_buffer : Buffer
request_buffer = record { size = 64; memory = λ i. if i == 0 then 0x80 else 0 }

-- The second socket waits for the second request.
abbrev events : List (Event Bool ℕ)
events = arrived request_buffer true ∷ offered 5 ∷ offered 6 ∷ arrived request_buffer false ∷ []

events-OneAtATime : OneAtATime address_ops events new_acceptor
unfolding new_acceptor async_accept Accept.handle_receive_from Handshake.decode
events-OneAtATime = (tt, (refl, (refl, (tt, tt))))

handle_all_lem_example :
    let a = handle_all address_ops events new_acceptor in
    (a.peers_set ≡ pairs (sockets_of events) (requests_of address_ops events))
    × (a.due ≡ length a.peers_set)
handle_all_lem_example = handle_all_lem address_ops events events-OneAtATime

two_pairs : length (handle_all address_ops events new_acceptor).peers_set ≡ 2
unfolding new_acceptor async_accept Accept.handle_receive_from Handshake.decode
two_pairs = refl
