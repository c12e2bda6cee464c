-- ===== src/Tests.antt =====
-- The theorems at concrete inputs, and the sample data that they share.
mod Samples
pub mod Routing
pub mod Requests
pub mod Queues
pub mod Publishes
pub mod Links
pub mod Producers
pub mod RedisLists
pub mod Stores
pub mod Sources
pub mod Commands
pub mod Deliveries
pub mod CommandLines
pub mod Locking
pub mod Restarting
