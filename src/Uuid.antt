-- ===== src/Uuid.antt =====
-- uuid: identifiers.
pub mod Guid
