-- ===== src/Broker.antt =====
-- The broker: branch/branch/branch_broker.h and the packet handlers of branch_codec.h.
pub mod State
pub mod Tables
pub mod Send
pub mod Forward
pub mod Connect
pub mod Publish
pub mod Subscribe
pub mod Dispatch
pub mod Receive
pub mod Poll
pub mod Search
pub mod Keeps
pub mod Input
pub mod Retained
pub mod Exactly
pub mod Pids
pub mod Room
pub mod Safe
