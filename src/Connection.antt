-- ===== src/Connection.antt =====
-- The connections of src/socket.rs.
pub mod Connect
pub mod ConnectLaws
pub mod Agree
pub mod Handshake
pub mod State
pub mod Handle
pub mod Deliver
pub mod Receiver
pub mod Ticker
pub mod Calls
pub mod Stream
pub mod TickerLaws
pub mod CallsLaws
mod Tests
