-- ===== src/Stage.antt =====
-- stage/stage and stage/compression: the gateway's sockets.
pub mod Gzip
pub mod Admission
pub mod Registry
pub mod Delivery
pub mod Session
pub mod Codec
pub mod Authentication
pub mod Sendback
