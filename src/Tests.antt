-- ===== src/Tests.antt =====
-- The theorems at concrete inputs.
pub mod World
mod Buffers
mod Streams
mod Machine
mod Workers
mod Replays
mod Configurations
mod Connectors
pub mod Admins
mod Builders
mod Sessions
mod Requests
mod Responses
