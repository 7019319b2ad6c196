-- ===== src/Lanes.antt =====
-- The execution lanes of core/runtime/_lanes: how the records and the batches of a source reach
-- delivery.
pub mod Arrow
pub mod Batches
pub mod Pipelined
pub mod Stages
pub mod ArrowLaws
pub mod Linear
pub mod Buffered
mod Ahead
mod Gated
mod Passthrough
mod ListCommits
mod OutOfOrder
mod Tests
