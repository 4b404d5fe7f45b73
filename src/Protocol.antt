-- ===== src/Protocol.antt =====
-- src/protocol.rs: the versioned, bounded messages between client and server.
pub mod Message
pub mod Identifier
pub mod Codec
pub mod Headers
pub mod Validate
