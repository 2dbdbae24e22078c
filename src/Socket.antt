-- ===== src/Socket.antt =====
-- internal/socket/multicast.go, in parts: the UDP checksum and segment, and the memory of what was
-- sent.
pub mod Checksum
pub mod Echo
pub mod Create
pub mod Transfer
