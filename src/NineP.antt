-- ===== src/NineP.antt =====
-- runtime/ninep: the wire codec of the 9P2000.L file server.
pub mod Writer
pub mod Reader
pub mod Wire
pub mod Messages
pub mod Carries
pub mod Message
pub mod Codec
pub mod Dirent
pub mod Names
pub mod Server
mod Tests
