-- ===== src/Rpc.antt =====
-- api/v2rpc/rpc.pb.go: the messages, and the sizes of their encodings.
pub mod Varint
pub mod Bounds
pub mod Messages
pub mod Size
pub mod Wire
pub mod Lengths
pub mod Message
pub mod Stubs
