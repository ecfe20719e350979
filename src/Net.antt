-- ===== src/Net.antt =====
-- stage/net: the packet header, messages, and the receiving side of a socket.
pub mod Message
pub mod Checksum
pub mod Header
pub mod Receiver
pub mod Packet
pub mod Route
pub mod Bulk
