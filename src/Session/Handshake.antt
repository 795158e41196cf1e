-- ===== src/Session/Handshake.antt =====
-- A client and a server that open a connection with one another, no packet being lost.
use maid_safe_transport.Base.{ℕ, ◌≡◌, ◌≢◌, arith, true, ◌++◌, ◌∷◌, [], ne→==_false, eq→==}
use maid_safe_transport.Time.{TimeOps}
use maid_safe_transport.Packet.Address.{AddressOps}
use maid_safe_transport.Packet.Handshake.{HandshakePacket}
use maid_safe_transport.Session.{client, server, SessionLink}
use maid_safe_transport.Session.{is_connected, open_session, handle_handshake, wireless}
use maid_safe_transport.Session.{
  connection_request, cookie_challenge, cookie_response, connection_accepted,
}

module _ (address_ops : AddressOps) (time_ops : TimeOps) where
  open address_ops use {Address, AddressV6}
  open time_ops use {Time}

  -- The packets of the handshake, of which the last three are delivered, and the two links at its end.
  -- `c` and `s` are the links before `Open`, and every event has a time of its own.
  pub record Run : Type 0 where
    pub request : HandshakePacket AddressV6
    pub challenge : HandshakePacket AddressV6
    pub response : HandshakePacket AddressV6
    pub acceptance : HandshakePacket AddressV6
    pub client_link : SessionLink address_ops time_ops
    pub server_link : SessionLink address_ops time_ops

  unfoldable pub run :
      (ℕ → Time)
      → (client_id client_seqnum server_id server_seqnum : ℕ) → SessionLink address_ops time_ops
      → SessionLink address_ops time_ops
      → Run
  unfolding open_session handle_handshake
  run now cid cseq sid sseq c s =
      let c₀ = open_session address_ops time_ops (now 0) cid cseq client c in
      let s₀ = open_session address_ops time_ops (now 1) sid sseq server s in
      let request =
        connection_request address_ops time_ops
          (record c { session = record (c.session) { id = cid } }) in
      let challenge = cookie_challenge address_ops time_ops s₀ in
      let c₁ = handle_handshake address_ops time_ops (now 2) challenge c₀ in
      let response = cookie_response address_ops time_ops c₁ in
      let s₁ = handle_handshake address_ops time_ops (now 3) response s₀ in
      let acceptance = connection_accepted address_ops time_ops s₁ in
      let c₂ = handle_handshake address_ops time_ops (now 4) acceptance c₁ in
      record {
        request = request;
        challenge = challenge;
        response = response;
        acceptance = acceptance;
        client_link = c₂;
        server_link = s₁;
      }

  module _ (now : ℕ → Time) (cid cseq sid sseq : ℕ) (c s : SessionLink address_ops time_ops)
      (new_peer : c.peer.id ≡ 0) (known_peer : s.peer.id ≡ cid) (cid_set : cid ≢ 0) where
    -- A client that opens to a peer that it does not know yet, and a server that opens to that
    -- client, are both connected after challenge, response and acceptance. Each then has the
    -- other's sequence number and connection type, and the client has learnt the id of the server.
    -- The client has sent its request and the response that was delivered, the server the challenge
    -- and the acceptance that were delivered, in this order and nothing else.
    pub run-connects :
        let r = run now cid cseq sid sseq c s in
        (is_connected r.client_link.session ≡ true)
        × (is_connected r.server_link.session ≡ true)
        × (r.client_link.session.receiving_sequence_number ≡ sseq)
        × (r.server_link.session.receiving_sequence_number ≡ cseq)
        × (r.client_link.peer.id ≡ sid)
        × (r.client_link.session.peer_connection_type ≡ wireless)
        × (r.server_link.session.peer_connection_type ≡ wireless)
        × (r.client_link.sent ≡ c.sent ++ r.request ∷ [] ++ r.response ∷ [])
        × (r.server_link.sent ≡ s.sent ++ r.challenge ∷ [] ++ r.acceptance ∷ [])
    unfolding run is_connected
    run-connects = ground (arith, ne→==_false cid 0 cid_set, eq→== c.peer.id 0 new_peer)
