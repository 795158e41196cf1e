-- ===== src/Accept.antt =====
-- src/maidsafe/transport/rudp_acceptor.{h,cc}: which socket takes which request for a connection. The
-- state has the queue of requests, the socket that waits, the waits on `waiting_accept_` that are
-- pending and those whose handlers are due, and what the peers of the sockets were set to, in order.
pub mod Queue
use maid_safe_transport.Base.{
  ℕ, ◌+◌, Bool, false, if◌then◌else◌, Option, none, some, List, [], ◌∷◌, ◌++◌,
}
use maid_safe_transport.Dispatch.{Dispatcher, set_acceptor}
use maid_safe_transport.Packet.Address.{AddressOps}
use maid_safe_transport.Packet.Wire.{Buffer}
use maid_safe_transport.Packet.Handshake.{HandshakePacket, handshake_packet, decode}

pub record PendingRequest (E : Type 0) : Type 0 where
  pub remote_id : ℕ
  pub remote_endpoint : E

-- `E` is the type of endpoints, and `P` that of what points to a socket.
pub record Acceptor (E P : Type 0) : Type 0 where
  pub waiting_socket : Option P
  pub pending_requests : List (PendingRequest E)
  pub waits : ℕ
  pub due : ℕ
  pub peers_set : List (P × PendingRequest E)

-- `IsOpen`, where `is_this` tells whether a pointer points to the acceptor.
unfoldable pub is_open : {S Q : Type 0} → (Q → Bool) → Dispatcher S Q → Bool
is_open is_this d = elim d.acceptor [ none ↦ false | some q ↦ is_this q ]

module _ {E P : Type 0} where
  unfoldable pub new_acceptor : Acceptor E P
  new_acceptor = record {
    waiting_socket = none;
    pending_requests = [];
    waits = 0;
    due = 0;
    peers_set = [];
  }

  -- `waiting_accept_.cancel()` makes the handlers of all pending waits due.
  unfoldable pub cancel : Acceptor E P → Acceptor E P
  cancel a = record a { waits = 0; due = a.due + a.waits }

  unfoldable pub close :
      {S Q : Type 0} → (Q → Bool) → Acceptor E P × Dispatcher S Q → Acceptor E P × Dispatcher S Q
  unfolding cancel is_open set_acceptor
  close is_this (a, d) = (
    cancel (record a { pending_requests = [] }),
    if is_open is_this d then set_acceptor none d else d,
  )

  -- `socket.peer_.SetEndpoint` and `socket.peer_.SetId`.
  unfoldable pub set_peer : P → PendingRequest E → Acceptor E P → Acceptor E P
  set_peer socket r a = record a { peers_set = a.peers_set ++ (socket, r) ∷ [] }

  unfoldable pub start_accept : P → Acceptor E P → Acceptor E P
  unfolding cancel set_peer
  start_accept socket a = elim a.pending_requests [
    | [] ↦ record a { waiting_socket = some socket }
    | r ∷ rs ↦ cancel (set_peer socket r (record a { pending_requests = rs }))
  ]

  unfoldable pub async_accept : P → Acceptor E P → Acceptor E P
  unfolding start_accept
  async_accept socket a = start_accept socket (record a { waits = a.waits + 1 })

  -- What `HandleReceiveFrom` does with a request that it decoded.
  unfoldable pub handle_request : PendingRequest E → Acceptor E P → Acceptor E P
  unfolding cancel set_peer
  handle_request r a = elim a.waiting_socket [
    | none ↦ record a { pending_requests = a.pending_requests ++ r ∷ [] }
    | some socket ↦ cancel (record (set_peer socket r a) { waiting_socket = none })
  ]

  unfoldable pub handle_receive_from : AddressOps → Buffer → E → Acceptor E P → Acceptor E P
  unfolding handle_request handshake_packet decode
  handle_receive_from ops buffer endpoint a = elim (decode ops (handshake_packet ops) buffer) [
    | none ↦ a
    | some p ↦ handle_request (record { remote_id = p.socket_id; remote_endpoint = endpoint }) a
  ]
