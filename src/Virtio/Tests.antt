-- ===== src/Virtio/Tests.antt =====
-- A queue with one buffer and a disk of two sectors, and the theorems of the devices at them.
mod Rings
mod Disks
mod Tables
mod Consoles
mod Cards
mod Sockets
