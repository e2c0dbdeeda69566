-- ===== src/Datatype.antt =====
-- src/datatype.rs: the writer and the reader of the wire format, over the `bytes` crate's traits.
pub mod Writer
pub mod Reader
pub mod Address
pub mod Reads
pub mod ReadLaws
pub mod Writes
pub mod AddressLaws

-- `Endian` of src/utils.rs.
pub data Endian : Type 0 where
  big little : Endian
