-- ===== src/Stream.antt =====
-- A sender and a receiver joined by a network.
pub mod Numbered
pub mod Written
pub mod Entries
pub mod Received
pub mod Ticked
pub mod Network
pub mod Delivery
