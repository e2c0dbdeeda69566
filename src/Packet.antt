-- ===== src/Packet.antt =====
-- src/packet.rs: the handshake and control packets.
pub mod Shared
pub mod Id
pub mod Unconnected
pub mod UnconnectedLaws
pub mod OpenConnection
pub mod OpenConnectionLaws
pub mod Connected
pub mod InternalAddresses
pub mod ConnectedLaws
pub mod Records
pub mod RecordsLaws
pub mod RecordsInput
mod Tests
