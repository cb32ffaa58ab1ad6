-- ===== src/Tests.antt =====
-- Runs of the model at concrete inputs, for each part of the client.
pub mod Parsers
pub mod Keys
pub mod Lifecycle
pub mod Credentials
pub mod Rpc
pub mod Picker
pub mod LeaderCtrl
pub mod Client
pub mod Merge
pub mod Snapshot
pub mod Pipe
pub mod Leadership
pub mod Clusters
pub mod Concurrent
pub mod Routes
pub mod LeaderChecker
pub mod Resolver
