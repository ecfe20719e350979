-- ===== src/Core.antt =====
-- stage/core: the buffer segment that every message carries.
pub mod Segment
pub mod LinkedList
pub mod Random
