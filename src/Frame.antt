-- ===== src/Frame.antt =====
-- The frames of src/arq.rs: their reliability, their encoding and the decoding of datagrams.
pub mod Reliability
pub mod Packet
pub mod Encode
pub mod Decode
pub mod EncodeLaws
pub mod DecodeLaws
pub mod RoundTrip
pub mod Group
mod Tests
