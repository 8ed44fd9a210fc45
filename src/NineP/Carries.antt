-- ===== src/NineP/Carries.antt =====
-- Every message that fits the wire is read back as it was written, message by message.
pub mod Session
pub mod Attributes
pub mod Create
pub mod Names
pub mod Content
pub mod Locks
pub mod All
