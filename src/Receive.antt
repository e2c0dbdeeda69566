-- ===== src/Receive.antt =====
-- The receiving half of src/arq.rs: acknowledgements, channels and the receive queue.
pub mod AckSet
pub mod Fragment
pub mod Channels
pub mod Queue
pub mod FragmentTotals
pub mod ChannelLaws
pub mod Run
pub mod Drain
pub mod QueueLaws
pub mod QueueBounds
pub mod QueueCounts
pub mod QueueExact
pub mod FragmentLaws
pub mod MergeLaws
pub mod AckSetLaws
pub mod AckSetArrivals
mod Tests
