-- ===== src/Lib.antt =====
-- The reliable UDP transport (RUDP) of MaidSafe-Transport.
--
-- RUDP carries a stream of bytes over UDP datagrams. A session opens a connection by a handshake of
-- four packets. A sender cuts the stream into data packets under sequence numbers that run round a
-- circle of 2^31 numbers, and keeps them in a sliding window until they are acknowledged; a receiver
-- collects them in a window of its own, reads the stream out of it, and acknowledges what it has.
-- A congestion control keeps the sizes and the times that both follow.
--
-- The files and the code that they model, all of it under src/maidsafe/transport/:
--   Window: RudpSlidingWindow (rudp_sliding_window.h), with Append, Remove, Contains, operator[]
--     and the others under their names; Circle, Index and Lookup are its theory, and Walk that of
--     the loops over its numbers.
--   Packet: the packet classes. Wire is rudp_packet.cc, Control rudp_control_packet.cc with the
--     three classes that have nothing but a header, Ack, Data, NegativeAck and Handshake the files
--     of their names. A buffer is a size and a memory; Decode answers none for false and takes the
--     object that it overwrites, where it keeps some of its fields.
--   Time: RudpTickTimer (rudp_tick_timer.h), and the times of Boost.Date_Time as a parameter.
--   Session: RudpSession (rudp_session.cc) with RudpPeer (rudp_peer.h).
--   Congestion: RudpCongestionControl (rudp_congestion_control.cc).
--   Sender: RudpSender (rudp_sender.cc).
--   Receiver: RudpReceiver (rudp_receiver.cc).
--   Stream: a sender and a receiver on the two ends of a connection (Network), and what they keep
--     of the stream: Numbered and Written for the sender, Entries, Received and Ticked for the
--     receiver, Delivery for both.
--   Socket: RudpSocket (rudp_socket.cc) over its session, sender and receiver; Creation and Handlers
--     have the rest of its operations, Transfers, Decoding and States what they do.
--   Connection: RudpConnection (rudp_connection.cc); Steps are its handlers, Framing, Collecting and
--     Messages follow a message from one connection to another, and Empty an empty one.
--   Dispatch: RudpDispatcher (rudp_dispatcher.cc).
--   Accept: RudpAcceptor (rudp_acceptor.cc).
--   Contact: Contact (contact.cc) and Endpoint (transport.h); Acceptance is the check
--     of the endpoints, Choice the preferred one, and Swapping what both use.
--   Base: the names, Boolean tests, list lemmas and bit lemmas that all of them share.
--   Examples: concrete values, to which the theorems are applied.
--
-- How the parts interact: sender and receiver hold a window each and share the congestion control;
-- in the model each state has a copy of what its operations read and write, with the time of the
-- next tick and the packets that it handed to the peer, in order. An operation is a function on
-- that state. What it asks of the world is an argument: the answers of Now(), whether Send of a
-- packet succeeds, the first sequence number, and the id of the peer.
--
-- The network between sender and receiver is a step relation: a data packet that was handed to the
-- peer can arrive any number of times, later and in any order.
--
-- Parameters: the times (TimeOps), the addresses of Boost.Asio (AddressOps, with laws on their byte
-- form, which has no scope id, and IpOps, whose comparison is symmetric where a theorem says so),
-- the products with 0.9 and 1.5 (DoubleOps), and std::sort. The numbers of the source have 32 bits:
-- where an operation can wrap, the model cuts its result; where a theorem needs that a
-- value fits, it says so. Assertions of the source are hypotheses of the theorems that need them.
--
-- Loops run on fuel: as many rounds as the window has items, or free places where a loop fills it.
-- The theorems about the loops show that each ends by its own test with this fuel.
--
-- A socket has the parts of its session, its sender and its receiver in one state, and hands each its
-- view. AddSocket has fuel of its own: it asks for random ids until one is free.
--
-- A connection has its socket as a field. Each handler is one step; which of them runs next is left
-- to the caller, as the strand and the timers are.
--
-- Not modelled: the multiplexer (rudp_multiplexer.cc) and the transport that owns the connections
-- (rudp_transport.cc), the TCP and UDP transports, the message handlers,
-- Serialise and Parse of contacts, NAT detection, and the copies of other projects (libupnp, nat-pmp).
pub mod Base
pub mod Packet
pub mod Window
pub mod Time
pub mod Session
pub mod Congestion
pub mod Sender
pub mod Receiver
pub mod Stream
pub mod Dispatch
pub mod Accept
pub mod Socket
pub mod Connection
pub mod Contact
pub mod Examples
