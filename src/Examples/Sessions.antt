-- ===== src/Examples/Sessions.antt =====
-- Sessions of src/maidsafe/transport/rudp_session.cc on both sides of a connection.
use maid_safe_transport.Base.{◌≡◌, true, [], ◌∷◌, ◌++◌}
use maid_safe_transport.Base.{arith, refl}
use maid_safe_transport.Session.{client, server, closed, probing, connected}
use maid_safe_transport.Session.{is_open, is_connected, close, handle_handshake, wireless}
use maid_safe_transport.Session.{handle_tick}
use maid_safe_transport.Session.Machine.{Reach, Step, Keeps}
use maid_safe_transport.Session.Machine.{Reach-Keeps, Reach-connected, handle_handshake-close}
use maid_safe_transport.Session.Handshake.{run, run-connects}
use maid_safe_transport.Examples.Fixtures.{time_ops, address_ops, handshake, link}

two_steps : Reach address_ops time_ops (link client probing 0) (
    handle_tick address_ops time_ops 9
      (handle_handshake address_ops time_ops 5 handshake (link client probing 0)))
two_steps =
    Reach.then_step
      (Reach.then_step Reach.here (Step.handshake 5 handshake (link client probing 0)))
      (Step.tick 9 (handle_handshake address_ops time_ops 5 handshake (link client probing 0)))

probing_open : is_open (link client probing 0).session ≡ true
unfolding is_open
probing_open = refl

Reach-Keeps_example :
    let l =
      handle_tick address_ops time_ops 9
        (handle_handshake address_ops time_ops 5 handshake (link client probing 0)) in
    Keeps address_ops time_ops (link client probing 0).session l.session
    × (is_open l.session ≡ true)
Reach-Keeps_example = Reach-Keeps address_ops time_ops two_steps probing_open

one_step :
    Reach address_ops time_ops
      (link server connected 9)
      (handle_handshake address_ops time_ops 5 handshake (link server connected 9))
one_step = Reach.then_step Reach.here (Step.handshake 5 handshake (link server connected 9))

server_connected : is_connected (link server connected 9).session ≡ true
unfolding is_connected
server_connected = refl

Reach-connected_example :
    (handle_handshake address_ops time_ops 5 handshake (link server connected 9)).session
    ≡ (link server connected 9).session
Reach-connected_example = Reach-connected address_ops time_ops one_step server_connected

handle_handshake-close_example :
    ((close address_ops time_ops (link server connected 9)).session.id ≡ 1)
    × (is_connected
          (handle_handshake address_ops time_ops 5 handshake
            (close address_ops time_ops (link server connected 9))).session
        ≡ true)
handle_handshake-close_example =
    handle_handshake-close address_ops time_ops 5 handshake (link server connected 9) refl refl

run-connects_example :
    let r =
      run address_ops time_ops (λ n. n) 7 100 8 200 (link client closed 0) (link server closed 7) in
    (is_connected r.client_link.session ≡ true)
    × (is_connected r.server_link.session ≡ true)
    × (r.client_link.session.receiving_sequence_number ≡ 200)
    × (r.server_link.session.receiving_sequence_number ≡ 100)
    × (r.client_link.peer.id ≡ 8)
    × (r.client_link.session.peer_connection_type ≡ wireless)
    × (r.server_link.session.peer_connection_type ≡ wireless)
    × (r.client_link.sent ≡ [] ++ r.request ∷ [] ++ r.response ∷ [])
    × (r.server_link.sent ≡ [] ++ r.challenge ∷ [] ++ r.acceptance ∷ [])
run-connects_example =
    run-connects address_ops time_ops (λ n. n) 7 100 8 200 (link client closed 0)
      (link server closed 7) refl refl (omega arith)
