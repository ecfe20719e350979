-- ===== src/Tests.antt =====
-- Runs of the model on concrete inputs.
pub mod Links
pub mod Connections
pub mod Wires
pub mod Ciphers
pub mod Sockets
pub mod Admissions
pub mod LinkedLists
pub mod Timers
pub mod Sendbacks
pub mod Identifiers
