-- ===== src/Cactus.antt =====
-- tools/cactus: the fibre library. Its readers of bytes.
pub mod Reader
pub mod Buffered
