-- ===== src/Delivery.antt =====
-- The delivery engine: core/runtime/_delivery*.py.
pub mod Types
pub mod World
pub mod Exec
pub mod Calls
pub mod Checkpoints
pub mod Dlq
pub mod Results
pub mod Batching
pub mod Engine
pub mod BatchWrite
pub mod Trace
pub mod Gate
pub mod Counts
pub mod Accounting
pub mod ForgottenHooks
pub mod Direct
pub mod SuccessBatch
pub mod Samples
mod Tests
