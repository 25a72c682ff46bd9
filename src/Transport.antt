-- ===== src/Transport.antt =====
-- packages/transport: the wire between a host and its clients.
pub mod Sse
pub mod Frames
pub mod Port
