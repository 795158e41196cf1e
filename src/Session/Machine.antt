-- ===== src/Session/Machine.antt =====
-- The session as a state machine: when it connects, what it answers, and what its events keep.
use maid_safe_transport.Base.{ℕ, ◌+◌, ◌≡◌, inl, inr, refl, arith, ◌∙◌, Bool, true}
use maid_safe_transport.Base.{not, ◌&&◌, ◌||◌, List, [], ◌∷◌, length, ◌==◌, if◌then◌else◌}
use maid_safe_transport.Base.{length-append, Bool-cases, ap, ap₂}
use maid_safe_transport.Time.{TimeOps}
use maid_safe_transport.Packet.Address.{AddressOps}
use maid_safe_transport.Packet.Handshake.{HandshakePacket, handshake_packet}
use maid_safe_transport.Session.{Session, server, closed, probing, handshaking}
use maid_safe_transport.Session.{connected, SessionLink, is_client, is_state, is_open}
use maid_safe_transport.Session.{is_connected, accepted_type, close, handle_handshake}
use maid_safe_transport.Session.{handle_tick, client_handshake, server_handshake, set_peer_id}
use maid_safe_transport.Session.{cookie_response, cookie_challenge, connection_accepted}

module _ (address_ops : AddressOps) (time_ops : TimeOps) where
  open address_ops use {Address, AddressV6}
  open time_ops use {Time}

  -- A handshake packet connects a client that is opening exactly when it carries the type of an
  -- acceptance, and a server exactly when it carries the cookie 1; what is connected stays so.
  pub connected-handle_handshake :
      (now : Time) (p : HandshakePacket AddressV6) (l : SessionLink address_ops time_ops)
      → is_connected (handle_handshake address_ops time_ops now p l).session ≡ (
          is_connected l.session
          || (if is_client l.session.mode
              then (is_state l.session.state probing || is_state l.session.state handshaking)
                && p.connection_type == accepted_type
              else p.syn_cookie == 1))
  unfolding handle_handshake is_connected
  connected-handle_handshake now p l = ground arith

  -- A handshake packet that connects leaves its number as the one that is received from.
  pub receiving-handle_handshake :
      (now : Time) (p : HandshakePacket AddressV6) (l : SessionLink address_ops time_ops)
      → let s' = (handle_handshake address_ops time_ops now p l).session in
        s'.receiving_sequence_number ≡ (
          if not (is_connected l.session) && is_connected s'
          then p.initial_packet_sequence_number
          else l.session.receiving_sequence_number)
  unfolding handle_handshake is_connected
  receiving-handle_handshake now p l = ground arith

  -- A session that is connected is left as it is by every handshake packet and every tick.
  pub connected_stable :
      (now : Time) (p : HandshakePacket AddressV6) (l : SessionLink address_ops time_ops)
      → is_connected l.session ≡ true
      → ((handle_handshake address_ops time_ops now p l).session ≡ l.session)
        × ((handle_tick address_ops time_ops now l).session ≡ l.session)
  unfolding handle_handshake handle_tick is_connected
  connected_stable now p l h = ground arith

  abbrev pub answers_none : HandshakePacket AddressV6 → Session → Bool
  answers_none p s =
      p.connection_type == accepted_type || is_state s.state closed || is_state s.state connected

  length-client_handshake :
      (now : Time) (p : HandshakePacket AddressV6) (l : SessionLink address_ops time_ops)
      → length (client_handshake address_ops time_ops now p l).sent
        ≡ length l.sent + (if answers_none p l.session then 0 else 1)
  unfolding client_handshake
  length-client_handshake now p l =
      let l' : SessionLink address_ops time_ops = record l {
        session = record (l.session) {
          state = handshaking;
          peer_connection_type = p.connection_type;
        };
      } in
      let snoc = length-append l.sent (cookie_response address_ops time_ops l' ∷ []) in
      elim (Bool-cases (p.connection_type == accepted_type)) [
        | inl e ↦ rw e (ground arith)
        | inr e ↦ rw e (ground (arith, snoc))
      ]

  length-server_handshake :
      (p : HandshakePacket AddressV6) (l : SessionLink address_ops time_ops)
      → length (server_handshake address_ops time_ops p l).sent ≡ length l.sent + 1
  unfolding server_handshake
  length-server_handshake p l =
      let l' : SessionLink address_ops time_ops = record l {
        session = record (l.session) {
          state = connected;
          peer_connection_type = p.connection_type;
          receiving_sequence_number = p.initial_packet_sequence_number;
        };
      } in
      ground (
        arith,
        length-append l.sent (connection_accepted address_ops time_ops l ∷ []),
        length-append l.sent (connection_accepted address_ops time_ops l' ∷ []),
        length-append l.sent (cookie_challenge address_ops time_ops l ∷ []),
      )

  set_peer_id-keeps :
      (p : HandshakePacket AddressV6) (l : SessionLink address_ops time_ops)
      → let l' = set_peer_id address_ops time_ops p l in
        (l'.session ≡ l.session) × (l'.sent ≡ l.sent)
  unfolding set_peer_id
  set_peer_id-keeps p l = ground arith

  abbrev sent_after : HandshakePacket AddressV6 → Session → List (HandshakePacket AddressV6) → ℕ
  sent_after p s sent = length sent + (if is_client s.mode && answers_none p s then 0 else 1)

  length-dispatch :
      (now : Time) (p : HandshakePacket AddressV6) (l : SessionLink address_ops time_ops)
      → length
          (if is_client l.session.mode
            then client_handshake address_ops time_ops now p l
            else server_handshake address_ops time_ops p l).sent
        ≡ sent_after p l.session l.sent
  length-dispatch now p l = elim (Bool-cases (is_client l.session.mode)) [
    | inl m ↦ rw m (length-client_handshake now p l)
    | inr m ↦ rw m (length-server_handshake p l)
  ]

  -- A server answers every handshake packet with one packet. A client does so too, but answers
  -- nothing to an acceptance, nor to any packet while it is closed or connected.
  pub length-sent-handle_handshake :
      (now : Time) (p : HandshakePacket AddressV6) (l : SessionLink address_ops time_ops)
      → length (handle_handshake address_ops time_ops now p l).sent
        ≡ length l.sent + (if is_client l.session.mode && answers_none p l.session then 0 else 1)
  unfolding handle_handshake
  length-sent-handle_handshake now p l =
      let (same, kept) = set_peer_id-keeps p l in
      length-dispatch now p (set_peer_id address_ops time_ops p l) ∙ ap₂ (sent_after p) same kept

  -- The id of the peer is learnt from the first handshake packet, and never changes again.
  pub peer-handle_handshake :
      (now : Time) (p : HandshakePacket AddressV6) (l : SessionLink address_ops time_ops)
      → (handle_handshake address_ops time_ops now p l).peer.id
        ≡ (if l.peer.id == 0 then p.socket_id else l.peer.id)
  unfolding handle_handshake
  peer-handle_handshake now p l = ground arith

  -- An event between `Open` and `Close`.
  pub data Step : SessionLink address_ops time_ops → SessionLink address_ops time_ops → Type 0 where
    handshake :
        (now : Time) (p : HandshakePacket AddressV6) (l : SessionLink address_ops time_ops)
        → Step l (handle_handshake address_ops time_ops now p l)
    tick :
        (now : Time) (l : SessionLink address_ops time_ops)
        → Step l (handle_tick address_ops time_ops now l)

  pub data Reach (l : SessionLink address_ops time_ops)
      : SessionLink address_ops time_ops → Type 0 where
    here : Reach l l
    then_step : {m n : SessionLink address_ops time_ops} → Reach l m → Step m n → Reach l n

  -- What no event changes: the identity of the session.
  pub record Keeps (s t : Session) : Type 0 where
    pub same_id : t.id ≡ s.id
    pub same_seqnum : t.sending_sequence_number ≡ s.sending_sequence_number
    pub same_mode : t.mode ≡ s.mode

  Step-Keeps : {l m : SessionLink address_ops time_ops} → Step l m → Keeps l.session m.session
  unfolding handle_handshake handle_tick
  Step-Keeps (handshake now p l) = ground arith
  Step-Keeps (tick now l) = ground arith

  Step-open :
      {l m : SessionLink address_ops time_ops}
      → Step l m
      → is_open l.session ≡ true
      → is_open m.session ≡ true
  unfolding handle_handshake handle_tick is_open
  Step-open (handshake now p l) h = ground arith
  Step-open (tick now l) h = ground arith

  -- However many handshake packets and ticks come, with whatever content, an open session keeps its
  -- id, its sending sequence number and its mode, and does not close.
  pub Reach-Keeps :
      {l m : SessionLink address_ops time_ops}
      → Reach l m
      → is_open l.session ≡ true
      → Keeps l.session m.session × (is_open m.session ≡ true)
  Reach-Keeps here h = (record { same_id = refl; same_seqnum = refl; same_mode = refl }, h)
  Reach-Keeps (then_step r st) h =
      let (k, o) = Reach-Keeps r h in
      let k' = Step-Keeps st in
      (
        record {
          same_id = k'.same_id ∙ k.same_id;
          same_seqnum = k'.same_seqnum ∙ k.same_seqnum;
          same_mode = k'.same_mode ∙ k.same_mode;
        },
        Step-open st o,
      )

  Step-connected :
      {l m : SessionLink address_ops time_ops}
      → Step l m
      → is_connected l.session ≡ true
      → m.session ≡ l.session
  Step-connected (handshake now p l) h = (connected_stable now p l h).0
  Step-connected (tick now l) h = (connected_stable now (handshake_packet address_ops) l h).1

  -- However many handshake packets and ticks come, with whatever content, a connected session is
  -- left as it is: its state, and the numbers and types that the handshake gave it.
  pub Reach-connected :
      {l m : SessionLink address_ops time_ops}
      → Reach l m
      → is_connected l.session ≡ true
      → m.session ≡ l.session
  Reach-connected here h = refl
  Reach-connected (then_step r st) h =
      let e = Reach-connected r h in Step-connected st (ap (λ s. is_connected s) e ∙ h) ∙ e

  -- `Close` leaves the id of the session, and a closed server connects on the next handshake
  -- packet with the cookie 1.
  pub handle_handshake-close :
      (now : Time) (p : HandshakePacket AddressV6) (l : SessionLink address_ops time_ops)
      → l.session.mode ≡ server
      → p.syn_cookie ≡ 1
      → ((close address_ops time_ops l).session.id ≡ l.session.id)
        × (is_connected
              (handle_handshake address_ops time_ops now p (close address_ops time_ops l)).session
            ≡ true)
  unfolding close handle_handshake is_connected
  handle_handshake-close now p l m c = ground arith
