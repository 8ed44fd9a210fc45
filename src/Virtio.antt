-- ===== src/Virtio.antt =====
-- runtime/virtio: the host's device models.
pub mod Machine
pub mod Disk
pub mod Vring
pub mod Blk
pub mod Shared
pub mod Device
pub mod Console
pub mod Net
pub mod Vsock
mod Tests
