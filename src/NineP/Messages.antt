-- ===== src/NineP/Messages.antt =====
-- The messages of runtime/ninep/protocol.ts, by what they are about.
pub mod Session
pub mod Attributes
pub mod Create
pub mod Names
pub mod Content
pub mod Locks
