-- ===== src/Packet/ConnectedLaws.antt =====
-- Round trips of the packets inside a connection.
use rust_raknet.Prelude.{ℕ, ◌^◌, ◌≤◌, ◌<◌, ◌≡◌, List, [], ◌∷◌, ◌++◌, length, replicate, All, arith}
use rust_raknet.Prelude.Int.{IsI64, to_unsigned}
use rust_raknet.Error.{ok, and_then}
use rust_raknet.Bytes.{BytesCrate}
use rust_raknet.Bytes.Words.{to_be, sizes}
use rust_raknet.Datatype.Address.{SocketAddr, v4}
use rust_raknet.Datatype.AddressLaws.{
  IsSocketAddr, on_wire, address_bytes, length-address_bytes, write_address-Writes,
  read_address-Reads,
}
use rust_raknet.Datatype.Reads.{Reads-bind, Reads-last, Reads-pure}
use rust_raknet.Datatype.ReadLaws.{read_u8-Reads, read_u16-Reads, read_u64-Reads, read_i64-Reads}
use rust_raknet.Datatype.Writes.{
  Writes-bind, write_u8-Writes, write_u16-Writes, write_u64-Writes, write_i64-Writes,
}
use rust_raknet.Packet.Id.{to_u8}
use rust_raknet.Packet.Shared.{writing_lem, read_back}
use rust_raknet.Packet.Connected.{
  ConnectionRequest, ConnectionRequestAccepted, ConnectedPing, ConnectedPong,
  read_packet_connection_request, write_packet_connection_request,
  read_packet_connection_request_accepted, write_packet_connection_request_accepted,
  read_packet_connected_ping, write_packet_connected_ping, read_packet_connected_pong,
  write_packet_connected_pong,
}
use rust_raknet.Packet.InternalAddresses.{
  before, ReadsBefore-bind, run_before, addresses_bytes, read_internal_addresses_reads,
  write_addresses-Writes, length-addresses_bytes,
}

module _ (crate : BytesCrate) where
  -- A connection request whose fields are in the ranges of their types is read back as it was
  -- written.
  pub read_packet_connection_request-write :
      (p : ConnectionRequest)
      → p.guid < 2 ^ 64
      → IsI64 p.time
      → p.use_encryption < 2 ^ 8
      → and_then (write_packet_connection_request crate p) (read_packet_connection_request crate)
        ≡ ok p
  unfolding read_packet_connection_request write_packet_connection_request to_u8
  read_packet_connection_request-write p hg ht he =
      read_back crate
        (Writes-bind _ (write_u8-Writes crate.vec_laws 0x09 (omega arith)) (
          Writes-bind _ (write_u64-Writes crate.vec_laws p.guid) (
            Writes-bind _ (write_i64-Writes crate.vec_laws p.time)
              (write_u8-Writes crate.vec_laws p.use_encryption he))))
        (Reads-bind _ (read_u8-Reads crate.cursor_laws 0x09) (
          Reads-bind _ (read_u64-Reads crate.cursor_laws p.guid hg) (
            Reads-bind _ (read_i64-Reads crate.cursor_laws p.time ht)
              (Reads-last _ (read_u8-Reads crate.cursor_laws p.use_encryption) (Reads-pure p)))))
        (omega sizes)

  -- A connected pong whose timestamps are i64 is read back as it was written.
  pub read_packet_connected_pong-write :
      (p : ConnectedPong)
      → IsI64 p.client_timestamp
      → IsI64 p.server_timestamp
      → and_then (write_packet_connected_pong crate p) (read_packet_connected_pong crate) ≡ ok p
  unfolding read_packet_connected_pong write_packet_connected_pong to_u8
  read_packet_connected_pong-write p hc hs =
      read_back crate
        (Writes-bind _ (write_u8-Writes crate.vec_laws 0x03 (omega arith)) (
          Writes-bind _ (write_i64-Writes crate.vec_laws p.client_timestamp)
            (write_i64-Writes crate.vec_laws p.server_timestamp)))
        (Reads-bind _ (read_u8-Reads crate.cursor_laws 0x03) (
          Reads-bind _ (read_i64-Reads crate.cursor_laws p.client_timestamp hc)
            (Reads-last _ (read_i64-Reads crate.cursor_laws p.server_timestamp hs) (Reads-pure p))))
        (omega sizes)

  -- A connected ping whose timestamp is an i64 is read back as it was written.
  pub read_packet_connected_ping-write :
      (p : ConnectedPing)
      → IsI64 p.client_timestamp
      → and_then (write_packet_connected_ping crate p) (read_packet_connected_ping crate) ≡ ok p
  unfolding read_packet_connected_ping write_packet_connected_ping to_u8
  read_packet_connected_ping-write p hc =
      read_back crate
        (Writes-bind _ (write_u8-Writes crate.vec_laws 0x00 (omega arith))
          (write_i64-Writes crate.vec_laws p.client_timestamp))
        (Reads-bind _ (read_u8-Reads crate.cursor_laws 0x00)
          (Reads-last _ (read_i64-Reads crate.cursor_laws p.client_timestamp hc) (Reads-pure p)))
        (omega sizes)

  abbrev pub accepted_bytes : ConnectionRequestAccepted → List SocketAddr → List ℕ
  accepted_bytes p addresses =
      (0x10 ∷ [])
      ++ (address_bytes p.client_address
          ++ (to_be 2 p.system_index
              ++ (addresses_bytes addresses
                  ++ (to_be 8 (to_unsigned (2 ^ 64) p.request_timestamp)
                      ++ to_be 8 (to_unsigned (2 ^ 64) p.accepted_timestamp)))))

  -- A ConnectionRequestAccepted whose fields are in the ranges of their types is read from a
  -- datagram with any number of internal addresses up to 20, of both families in any order, the
  -- timestamps from behind them.
  pub read_packet_connection_request_accepted_reads :
      (p : ConnectionRequestAccepted) (addresses : List SocketAddr)
      → IsSocketAddr p.client_address
      → p.system_index < 2 ^ 16
      → IsI64 p.request_timestamp
      → IsI64 p.accepted_timestamp
      → length addresses ≤ 20
      → All IsSocketAddr addresses
      → read_packet_connection_request_accepted crate (accepted_bytes p addresses)
        ≡ ok (record p { client_address = on_wire p.client_address })
  unfolding read_packet_connection_request_accepted
  read_packet_connection_request_accepted_reads p addresses ha hi hr hc h all = run_before (
      ReadsBefore-bind _ (before _ (read_u8-Reads crate.cursor_laws 0x10)) (
        ReadsBefore-bind _ (before _ (read_address-Reads crate.cursor_laws p.client_address ha)) (
          ReadsBefore-bind _ (before _ (read_u16-Reads crate.cursor_laws p.system_index hi)) (
            ReadsBefore-bind _
              (read_internal_addresses_reads crate.cursor_laws addresses _ h all (omega sizes))
              (before [] (
                Reads-bind _ (read_i64-Reads crate.cursor_laws p.request_timestamp hr) (
                  Reads-last _ (read_i64-Reads crate.cursor_laws p.accepted_timestamp hc)
                    (Reads-pure _))))))))

  -- A ConnectionRequestAccepted whose fields are in the ranges of their types, as this library
  -- writes it, with ten internal addresses, is read back, the flow information and the scope of an
  -- IPv6 address as 0.
  pub read_packet_connection_request_accepted-write :
      (p : ConnectionRequestAccepted)
      → IsSocketAddr p.client_address
      → p.system_index < 2 ^ 16
      → IsI64 p.request_timestamp
      → IsI64 p.accepted_timestamp
      → and_then
          (write_packet_connection_request_accepted crate p)
          (read_packet_connection_request_accepted crate)
        ≡ ok (record p { client_address = on_wire p.client_address })
  read_packet_connection_request_accepted-write p ha hi hr hc = rw written (
      read_packet_connection_request_accepted_reads p (replicate 10 local) ha hi hr hc (omega arith)
        (omega arith))
    where
      local : SocketAddr
      local = v4 (255 ∷ 255 ∷ 255 ∷ 255 ∷ []) 19132

      written :
          write_packet_connection_request_accepted crate p
          ≡ ok (accepted_bytes p (replicate 10 local))
      written =
          unfold write_packet_connection_request_accepted to_u8 in
          writing_lem crate
            (Writes-bind _ (write_u8-Writes crate.vec_laws 0x10 (omega arith)) (
              Writes-bind _ (write_address-Writes crate.vec_laws p.client_address) (
                Writes-bind _ (write_u16-Writes crate.vec_laws p.system_index) (
                  Writes-bind _ (write_addresses-Writes crate.vec_laws 10 local) (
                    Writes-bind _ (write_i64-Writes crate.vec_laws p.request_timestamp)
                      (write_i64-Writes crate.vec_laws p.accepted_timestamp))))))
            (omega (
              sizes,
              length-address_bytes p.client_address ha,
              length-addresses_bytes 10 local (omega arith),
            ))
