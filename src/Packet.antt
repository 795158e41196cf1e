-- ===== src/Packet.antt =====
-- The packets of the protocol and their encoding, one child module for each class of packet.
pub mod Wire
pub mod Control
pub mod Ack
pub mod Data
pub mod NegativeAck
pub mod Address
pub mod Handshake
