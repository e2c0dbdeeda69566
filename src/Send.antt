-- ===== src/Send.antt =====
-- The sending half of src/arq.rs, without the optional features: the queue, its clock and its acks.
pub mod Timing
pub mod Queue
pub mod Insert
pub mod Nacks
pub mod Acks
pub mod Tick
pub mod Flush
pub mod Kept
pub mod RetainLaws
pub mod KeptAcks
pub mod TimingLaws
pub mod Retry
pub mod Awaited
pub mod AwaitedFlush
pub mod AwaitedAcks
pub mod InsertLaws
pub mod Parts
pub mod Queued
pub mod Delivery
pub mod Budget
pub mod Pacing
pub mod Pending
pub mod PendingFlush
pub mod Liveness
pub mod Steps
pub mod Tally
pub mod Marked
pub mod Nacked
pub mod NackedTwice
pub mod NackedRanges
pub mod Conserve
pub mod Window
pub mod WindowOps
mod Tests
