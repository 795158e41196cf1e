-- ===== src/Socket/States.antt =====
-- A socket of src/maidsafe/transport/rudp_socket.cc that is not connected, that connects, and that is
-- closed.
use maid_safe_transport.Base.{
  ℕ, Bool, ◌||◌, ◌==◌, ◌≡◌, ◌≢◌, ◌∙◌, refl, ap, append-nil, true, false, not, ◌&&◌, none, some, [],
  ◌∷◌, ◌++◌, if◌then◌else◌, both_branches, ap-if,
}
use maid_safe_transport.Packet.Wire.{Buffer}
use maid_safe_transport.Packet.Handshake.{HandshakePacket}
use maid_safe_transport.Packet.Control.{shutdown_packet, set_destination_socket_id}
use maid_safe_transport.Window.{Window, reset}
use maid_safe_transport.Session.{is_open, is_connected, is_client, is_state, accepted_type}
use maid_safe_transport.Session.Machine.{connected-handle_handshake, receiving-handle_handshake}
use maid_safe_transport.Sender
use maid_safe_transport.Receiver
use maid_safe_transport.Session
use maid_safe_transport.Dispatch.{find}
use maid_safe_transport.Dispatch.Routing.{removed_not_found}
use maid_safe_transport.Socket.{
  SocketOps, Socket, Waiting, Answers, sender_sent, link_of, with_link, complete, no_error,
  operation_aborted,
}
use maid_safe_transport.Socket.Handlers.{
  Packet, decode, handle_packet, handle_receive_from, handle_handshake, handle_data, handle_ack,
  handle_ack_of_ack, handle_negative_ack, connected, close, leave, data_arrived, ack_arrived,
  ack_of_ack_arrived, negative_ack_arrived, handshake_arrived, shutdown_arrived, nothing_arrived,
}
use maid_safe_transport.Socket.Decoding.{
  accepts, decode-class, class_of, handshake_class, shutdown_class,
}

new_only : (a b c : Bool) → b ≡ (a || c) → (not a && b) ≡ (not a && c)
new_only true b c h = refl
new_only false b c h = h

either : (a b c : Bool) → b ≡ (a || c) → b ≡ (a || (not a && c))
either true b c h = h
either false b c h = h

same_branch :
    (b : Bool) (n m : ℕ) {V : Type 0} (u : Window V)
    → (if b then reset (if b then n else m) else u) ≡ (if b then reset n else u)
same_branch true n m u = refl
same_branch false n m u = refl

module _ (ops : SocketOps) where
  open ops use {address_ops, time_ops, Endpoint, same_endpoint}
  open time_ops use {Time}

  abbrev pub Aborted : Waiting → Waiting → Type 0
  Aborted w w' = w' ≡ complete operation_aborted w

  -- `Close` of a session that is open sends one shutdown packet, takes the socket out of the
  -- dispatcher, and ends every operation that waits with `operation_aborted`.
  pub close_lem :
      (s : Socket ops)
      → is_open s.session ≡ true
      → s.session.id ≢ 0
      → let s' = close ops s in
        (is_open s'.session ≡ false)
        × (find s.session.id s'.dispatcher.sockets ≡ none)
        × (s'.sent
            ≡ s.sent
              ++ sender_sent
                  (Sender.shutdown_sent (set_destination_socket_id s.peer_id shutdown_packet))
                ∷ [])
        × Aborted s.waiting_connect s'.waiting_connect
        × Aborted s.waiting_write s'.waiting_write
        × Aborted s.waiting_read s'.waiting_read
        × Aborted s.waiting_flush s'.waiting_flush
  unfolding close leave Session.close Sender.notify_close Sender.send is_open
  close_lem s o z =
      rw (o, close)
        (refl, removed_not_found s.session.id s.dispatcher z, append-nil _, refl, refl, refl, refl)

  ignored :
      (a : Answers Time) (p : Packet ops) (s : Socket ops)
      → is_connected s.session ≡ false
      → class_of ops p ≢ some handshake_class
      → class_of ops p ≢ some shutdown_class
      → handle_packet ops a p s ≡ s
  unfolding handle_packet handle_data handle_ack handle_ack_of_ack handle_negative_ack
  ignored a (data_arrived p) s c n₁ n₂ = rw (c, handle_packet)
  ignored a (ack_arrived p) s c n₁ n₂ = rw (c, handle_packet)
  ignored a (ack_of_ack_arrived p) s c n₁ n₂ = rw (c, handle_packet)
  ignored a (negative_ack_arrived p) s c n₁ n₂ = rw (c, handle_packet)
  ignored a (handshake_arrived p) s c n₁ n₂ = absurd (n₁ refl)
  ignored a (shutdown_arrived p) s c n₁ n₂ = absurd (n₂ refl)
  ignored a nothing_arrived s c n₁ n₂ = refl

  -- Before the connection is made, a socket leaves alone what is not a handshake or a shutdown packet.
  pub not_connected-handle_receive_from :
      (a : Answers Time) (b : Buffer) (remote : Endpoint) (s : Socket ops)
      → is_connected s.session ≡ false
      → accepts ops handshake_class b ≡ false
      → accepts ops shutdown_class b ≡ false
      → handle_receive_from ops a b remote s ≡ s
  unfolding handle_receive_from
  not_connected-handle_receive_from a b remote s c h₁ h₂ =
      both_branches (λ x. x ≡ s) (same_endpoint remote s.endpoint) _ s
        (ignored a (decode ops b) s c not_handshake not_shutdown) refl
    where
      not_handshake : class_of ops (decode ops b) ≢ some handshake_class
      not_handshake e = let h = (decode-class ops handshake_class b).1 e in cc

      not_shutdown : class_of ops (decode ops b) ≢ some shutdown_class
      not_shutdown e = let h = (decode-class ops shutdown_class b).1 e in cc

  -- A handshake packet makes the connection of a client that opens if it carries the type of an
  -- acceptance, and of a server if it carries the cookie 1.
  abbrev pub makes_connection : HandshakePacket address_ops.AddressV6 → Session.Session → Bool
  makes_connection p k =
      not (is_connected k)
      && (if is_client k.mode
          then (is_state k.state Session.probing || is_state k.state Session.handshaking)
            && p.connection_type == accepted_type
          else p.syn_cookie == 1)

  made :
      (now : Time) (p : HandshakePacket address_ops.AddressV6) (s : Socket ops)
      → let k = (Session.handle_handshake address_ops time_ops now p (link_of ops s)).session in
        (not (is_connected s.session) && is_connected k) ≡ makes_connection p s.session
  made now p s =
      new_only (is_connected s.session) _ _
        (connected-handle_handshake address_ops time_ops now p (link_of ops s))

  -- When the handshake packet makes the connection, and only then, the socket becomes connected, the
  -- connect operation ends without an error, and the receiver begins at the number that the packet
  -- carries. A connection that was made stays, and what the sender holds is left.
  pub handle_handshake_lem :
      (now : Time) (p : HandshakePacket address_ops.AddressV6) (s : Socket ops)
      → let s' = handle_handshake ops now p s in
        (is_connected s'.session ≡ (is_connected s.session || makes_connection p s.session))
        × (s'.waiting_connect ≡ (
            if makes_connection p s.session
            then complete no_error s.waiting_connect
            else s.waiting_connect))
        × (s'.unread_packets ≡ (
            if makes_connection p s.session
            then reset p.initial_packet_sequence_number
            else s.unread_packets))
        × (s'.unacked_packets ≡ s.unacked_packets)
  unfolding handle_handshake connected Receiver.reset_receiver
  handle_handshake_lem now p s =
      let l = Session.handle_handshake address_ops time_ops now p (link_of ops s) in
      let t = with_link ops l s in
      let connects = not (is_connected s.session) && is_connected l.session in
      let m = made now p s in
      let number = receiving-handle_handshake address_ops time_ops now p (link_of ops s) in
      (
        ap is_connected (
              both_branches (λ (x : Socket ops). x.session ≡ l.session) connects (connected ops t) t
                refl refl)
            ∙ either (is_connected s.session) _ _
                (connected-handle_handshake address_ops time_ops now p (link_of ops s)),
        ap-if (λ (x : Socket ops). x.waiting_connect) connects (connected ops t) t
            ∙ ap (λ b. if b then complete no_error s.waiting_connect else s.waiting_connect) m,
        ap-if (λ (x : Socket ops). x.unread_packets) connects (connected ops t) t
            ∙ ap (λ n. if connects then reset n else s.unread_packets) number
            ∙ same_branch connects _ _ _
            ∙ ap (λ b. if b then reset p.initial_packet_sequence_number else s.unread_packets) m,
        both_branches (λ (x : Socket ops). x.unacked_packets ≡ s.unacked_packets) connects
            (connected ops t) t refl refl,
      )
