-- ===== src/Server.antt =====
-- The listener of src/server.rs.
pub mod Address
pub mod Links
pub mod Cache
pub mod Worker
pub mod Receive
pub mod Upkeep
pub mod Sound
pub mod SoundParts
pub mod SoundDispatch
pub mod SoundAdmit
pub mod SoundRequests
pub mod SoundUpkeep
pub mod Steps
pub mod Transparent
pub mod Retransmit
pub mod Closing
pub mod Deliver
mod Tests
