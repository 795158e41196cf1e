-- ===== src/Examples.antt =====
-- Concrete values of the types of the library, and the theorems applied to them.
mod Fixtures
mod Packets
mod Windows
mod Sessions
mod Sending
mod Receiving
mod Measures
mod Streams
mod Sockets
mod Connections
mod Contacts
