-- ===== src/Wol.antt =====
-- src/wol.rs: the choice of the interface and the addresses that a magic packet is sent to. The
-- packet itself and the sockets are a library's.
pub mod Route
pub mod Destinations
