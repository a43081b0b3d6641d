-- ===== src/Redis.antt =====
-- redis: the RESP protocol, the key-value server and its client.
pub mod Types
pub mod Reader
pub mod Writer
pub mod Lines
pub mod RoundTrip
pub mod Storage
pub mod Server
pub mod Client
mod Tests
