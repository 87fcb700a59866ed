-- ===== src/Tests.antt =====
-- Runs of the model at concrete inputs, in a small ns-3: one for each result that has conditions.
pub mod World
pub mod Headers
pub mod Sparing
pub mod Hosts
pub mod Hosts6
pub mod Closings
pub mod Teardowns
pub mod Protocol
pub mod Queues
pub mod Sockets
pub mod Sendings
pub mod Inboxes
pub mod Routes
pub mod Lives
