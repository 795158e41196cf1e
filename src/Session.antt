-- ===== src/Session.antt =====
-- src/maidsafe/transport/rudp_session.{h,cc}: the handshake that opens a connection. A `Link` is a
-- session with what its operations change round it: the peer of rudp_peer.h, the time of the next
-- tick, and the packets that went to `peer_.Send`, in the order of the calls.
pub mod Machine
pub mod Handshake
use maid_safe_transport.Base.{
  ℕ, Bool, not, ◌||◌, List, [], ◌∷◌, ◌++◌, ◌==◌, if◌then◌else◌, true, false,
}
use maid_safe_transport.Time.{TimeOps, tick_after}
use maid_safe_transport.Packet.Address.{AddressOps}
use maid_safe_transport.Packet.Control.{set_destination_socket_id}
use maid_safe_transport.Packet.Handshake.{HandshakePacket, handshake_packet, stored_address}
use maid_safe_transport.Packet.Handshake.{stream_socket_type}

pub data Mode : Type 0 where
  client server : Mode

pub data State : Type 0 where
  closed probing handshaking connected : State

pub record Session : Type 0 where
  pub id : ℕ
  pub sending_sequence_number : ℕ
  pub receiving_sequence_number : ℕ
  pub peer_connection_type : ℕ
  pub mode : Mode
  pub state : State

-- `endpoint_.address()` and `id_` of a RudpPeer.
pub record Peer (A : Type 0) : Type 0 where
  pub address : A
  pub id : ℕ

-- src/maidsafe/transport/rudp_parameters.{h,cc}
abbrev pub wireless : ℕ
wireless = 0x0fffffff

abbrev pub max_packet_size : ℕ
max_packet_size = 25980

abbrev pub max_window_size : ℕ
max_window_size = 512

abbrev pub accepted_type : ℕ
accepted_type = 0xffffffff

abbrev pub is_client : Mode → Bool
is_client client = true
is_client server = false

abbrev pub is_state : State → State → Bool
is_state closed closed = true
is_state probing probing = true
is_state handshaking handshaking = true
is_state connected connected = true
is_state _ _ = false

module _ (A V Time : Type 0) where
  pub record Link : Type 0 where
    pub session : Session
    pub peer : Peer A
    pub expires_at : Time
    pub sent : List (HandshakePacket V)

unfoldable pub new_session : Session
new_session = record {
  id = 0;
  sending_sequence_number = 0;
  receiving_sequence_number = 0;
  peer_connection_type = 0;
  mode = client;
  state = closed;
}

unfoldable pub is_open : Session → Bool
is_open s = not (is_state s.state closed)

unfoldable pub is_connected : Session → Bool
is_connected s = is_state s.state connected

module _ (address_ops : AddressOps) (time_ops : TimeOps) where
  open address_ops use {Address, AddressV6}
  open time_ops use {Time, milliseconds}

  abbrev pub SessionLink : Type 0
  SessionLink = Link Address AddressV6 Time

  -- A packet with the fields that all four senders set. `to` goes to `SetDestinationSocketId`.
  unfoldable pub addressed_packet : ℕ → SessionLink → HandshakePacket AddressV6
  unfolding handshake_packet stored_address set_destination_socket_id
  addressed_packet to l =
      let p = handshake_packet address_ops in
      record p {
        base = set_destination_socket_id to p.base;
        rudp_version = 4;
        socket_type = stream_socket_type;
        socket_id = l.session.id;
        ip_address = stored_address address_ops l.peer.address;
      }

  unfoldable pub send : HandshakePacket AddressV6 → SessionLink → SessionLink
  send p l = record l { sent = l.sent ++ p ∷ [] }

  unfoldable pub schedule : Time → SessionLink → SessionLink
  unfolding tick_after
  schedule now l = record l { expires_at = tick_after time_ops now (milliseconds 250) l.expires_at }

  unfoldable pub connection_request : SessionLink → HandshakePacket AddressV6
  unfolding addressed_packet
  connection_request l = record (addressed_packet 0 l) { connection_type = 1 }

  unfoldable pub cookie_challenge : SessionLink → HandshakePacket AddressV6
  unfolding addressed_packet
  cookie_challenge l = record (addressed_packet l.peer.id l) {
    connection_type = wireless;
    syn_cookie = 1;
  }

  -- What the cookie response and the acceptance share.
  unfoldable pub full_packet : ℕ → ℕ → SessionLink → HandshakePacket AddressV6
  unfolding addressed_packet
  full_packet type cookie l = record (addressed_packet l.peer.id l) {
    initial_packet_sequence_number = l.session.sending_sequence_number;
    maximum_packet_size = max_packet_size;
    maximum_flow_window_size = max_window_size;
    connection_type = type;
    syn_cookie = cookie;
  }

  unfoldable pub cookie_response : SessionLink → HandshakePacket AddressV6
  unfolding full_packet
  cookie_response l = full_packet wireless 1 l

  unfoldable pub connection_accepted : SessionLink → HandshakePacket AddressV6
  unfolding full_packet
  connection_accepted l = full_packet accepted_type 0 l

  unfoldable pub send_connection_request : Time → SessionLink → SessionLink
  unfolding connection_request send schedule
  send_connection_request now l = schedule now (send (connection_request l) l)

  unfoldable pub send_cookie_challenge : SessionLink → SessionLink
  unfolding cookie_challenge send
  send_cookie_challenge l = send (cookie_challenge l) l

  unfoldable pub send_cookie_response : Time → SessionLink → SessionLink
  unfolding cookie_response send schedule
  send_cookie_response now l = schedule now (send (cookie_response l) l)

  unfoldable pub send_connection_accepted : SessionLink → SessionLink
  unfolding connection_accepted send
  send_connection_accepted l = send (connection_accepted l) l

  unfoldable pub open_session : Time → ℕ → ℕ → Mode → SessionLink → SessionLink
  unfolding send_connection_request send_cookie_challenge
  open_session now id sequence_number mode l =
      let s = record (l.session) {
        id = id;
        sending_sequence_number = sequence_number;
        mode = mode;
      } in
      if is_client mode
      then send_connection_request now (record l { session = record s { state = probing } })
      else send_cookie_challenge (record l { session = record s { state = handshaking } })

  unfoldable pub close : SessionLink → SessionLink
  close l = record l { session = record (l.session) { state = closed } }

  -- `HandleHandshake` behind the assignment of the peer's id.
  unfoldable pub client_handshake : Time → HandshakePacket AddressV6 → SessionLink → SessionLink
  unfolding send_cookie_response
  client_handshake now p l =
      let s = l.session in
      if is_state s.state probing || is_state s.state handshaking
      then (if p.connection_type == accepted_type
          then record l {
            session = record s {
              state = connected;
              receiving_sequence_number = p.initial_packet_sequence_number;
            };
          }
          else send_cookie_response now (record l {
            session = record s { state = handshaking; peer_connection_type = p.connection_type };
          }))
      else l

  unfoldable pub server_handshake : HandshakePacket AddressV6 → SessionLink → SessionLink
  unfolding send_connection_accepted send_cookie_challenge
  server_handshake p l =
      let s = l.session in
      if is_state s.state connected
      then send_connection_accepted l
      else if p.syn_cookie == 1
      then send_connection_accepted (record l {
        session = record s {
          state = connected;
          peer_connection_type = p.connection_type;
          receiving_sequence_number = p.initial_packet_sequence_number;
        };
      })
      else send_cookie_challenge l

  unfoldable pub set_peer_id : HandshakePacket AddressV6 → SessionLink → SessionLink
  set_peer_id p l =
      if l.peer.id == 0 then record l { peer = record (l.peer) { id = p.socket_id } } else l

  unfoldable pub handle_handshake : Time → HandshakePacket AddressV6 → SessionLink → SessionLink
  unfolding client_handshake server_handshake set_peer_id
  handle_handshake now p l =
      let l' = set_peer_id p l in
      if is_client l'.session.mode then client_handshake now p l' else server_handshake p l'

  unfoldable pub handle_tick : Time → SessionLink → SessionLink
  unfolding send_connection_request send_cookie_response
  handle_tick now l =
      if is_client l.session.mode
      then (if is_state l.session.state probing
          then send_connection_request now l
          else if is_state l.session.state handshaking
          then send_cookie_response now l
          else l)
      else l
