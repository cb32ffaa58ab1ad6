-- ===== src/Client.antt =====
-- client/: the client's operations.
pub mod Options
pub mod Unary
pub mod Streams
pub mod RangeStream
pub mod RequestLaws
pub mod Config
pub mod Credentials
pub mod DialOptions
pub mod Lifecycle
pub mod Interface
