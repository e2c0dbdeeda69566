-- ===== src/Packet/Tests.antt =====
-- The theorems on packets at concrete packets, over the reference instance of the `bytes` crate.
use rust_raknet.Prelude.{ℕ, ◌-◌, ◌^◌, ◌≡◌, refl, List, [], ◌∷◌, length, All, arith}
use rust_raknet.Prelude.Int.{pos, negsuc}
use rust_raknet.Error.{ok, err, and_then, packet_header_error}
use rust_raknet.Prelude.State.{◌>>=◌, refuse, pure}
use rust_raknet.Bytes.Words.{of_be, of_le}
use rust_raknet.Datatype.Reader.{read_u8, read_u16, read_u24}
use rust_raknet.Bytes.Reference.{reference}
use rust_raknet.Datatype.Address.{SocketAddr, v4, v6}
use rust_raknet.Packet.Unconnected.{
  PacketUnconnectedPing, PacketUnconnectedPong, AlreadyConnected, IncompatibleProtocolVersion,
  read_packet_incompatible_protocol_version, write_packet_incompatible_protocol_version,
}
use rust_raknet.Packet.UnconnectedLaws.{read_packet_incompatible_protocol_version-write}
use rust_raknet.Packet.OpenConnection.{
  OpenConnectionRequest1, OpenConnectionRequest2, OpenConnectionReply1, OpenConnectionReply2,
  read_packet_connection_open_request_1, write_packet_connection_open_request_1,
}
use rust_raknet.Packet.OpenConnectionLaws.{read_packet_connection_open_request_1-write}
use rust_raknet.Packet.Connected.{
  ConnectionRequest, ConnectionRequestAccepted, ConnectedPing, ConnectedPong,
  read_packet_connection_request_accepted, write_packet_connection_request_accepted,
}
use rust_raknet.Packet.ConnectedLaws.{
  accepted_bytes, read_packet_connection_request_accepted_reads,
  read_packet_connection_request_accepted-write,
}
use rust_raknet.Packet.Records.{
  Range, Ack, Nack, read_packet_ack, write_packet_ack, read_record, read_records,
  read_sequence_records,
}
use rust_raknet.Packet.RecordsLaws.{read_packet_ack-write}
use rust_raknet.Packet.RecordsInput.{IsForward, read_packet_ack_shape}

abbrev home : SocketAddr
home = v4 (127 ∷ 0 ∷ 0 ∷ 1 ∷ []) 19132

abbrev scoped : SocketAddr
scoped = v6 (0xfe ∷ 0x80 ∷ 0 ∷ 0 ∷ 0 ∷ 0 ∷ 0 ∷ 0 ∷ 0 ∷ 0 ∷ 0 ∷ 0 ∷ 0 ∷ 0 ∷ 0 ∷ 1 ∷ []) 19133 7 3

abbrev ping : PacketUnconnectedPing
ping = record { time = negsuc 4; guid = 77 }

abbrev pong : PacketUnconnectedPong
pong = record { time = pos 12; guid = 77; motd = 0x4d ∷ 0xc3 ∷ 0xa9 ∷ [] }

abbrev already : AlreadyConnected
already = record { guid = 2 ^ 64 - 1 }

abbrev incompatible : IncompatibleProtocolVersion
incompatible = record { server_protocol = 11; server_guid = 5 }

read_packet_incompatible_protocol_version-write_example :
    and_then
      (write_packet_incompatible_protocol_version reference incompatible)
      (read_packet_incompatible_protocol_version reference)
    ≡ err packet_header_error
read_packet_incompatible_protocol_version-write_example =
    read_packet_incompatible_protocol_version-write reference incompatible (omega arith)

abbrev request_1 : OpenConnectionRequest1
request_1 = record { protocol_version = 11; mtu_size = 1400 }

read_packet_connection_open_request_1-write_example :
    and_then
      (write_packet_connection_open_request_1 reference request_1)
      (read_packet_connection_open_request_1 reference)
    ≡ ok request_1
read_packet_connection_open_request_1-write_example =
    read_packet_connection_open_request_1-write reference request_1 (omega arith) (omega arith)
      (omega arith)

abbrev request_2 : OpenConnectionRequest2
request_2 = record { address = home; mtu = 1400; guid = 9 }

abbrev reply_1 : OpenConnectionReply1
reply_1 = record { guid = 9; use_encryption = 0; mtu_size = 1400 }

abbrev reply_2 : OpenConnectionReply2
reply_2 = record { guid = 9; address = scoped; mtu = 1400; encryption_enabled = 1 }

abbrev request : ConnectionRequest
request = record { guid = 9; time = pos 100; use_encryption = 0 }

abbrev connected_ping : ConnectedPing
connected_ping = record { client_timestamp = pos 31 }

abbrev connected_pong : ConnectedPong
connected_pong = record { client_timestamp = pos 31; server_timestamp = pos 50 }

abbrev accepted : ConnectionRequestAccepted
accepted = record {
  client_address = home;
  system_index = 0;
  request_timestamp = pos 1;
  accepted_timestamp = pos 2;
}

read_packet_connection_request_accepted_reads_example :
    read_packet_connection_request_accepted reference
      (accepted_bytes reference accepted (home ∷ scoped ∷ []))
    ≡ ok accepted
read_packet_connection_request_accepted_reads_example =
    read_packet_connection_request_accepted_reads reference accepted (home ∷ scoped ∷ [])
      (omega arith) (omega arith) (omega arith) (omega arith) (omega arith) (omega arith)

read_packet_connection_request_accepted-write_example :
    and_then
      (write_packet_connection_request_accepted reference accepted)
      (read_packet_connection_request_accepted reference)
    ≡ ok accepted
read_packet_connection_request_accepted-write_example =
    read_packet_connection_request_accepted-write reference accepted (omega arith) (omega arith)
      (omega arith) (omega arith)

abbrev two_ranges : List Range
two_ranges = (3, 3) ∷ (7, 0xff_ffff) ∷ []

abbrev ack : Ack
ack = record { record_count = 2; sequences = two_ranges }

abbrev nack : Nack
nack = record { record_count = 2; sequences = two_ranges }

read_packet_ack-write_example :
    and_then (write_packet_ack reference ack) (read_packet_ack reference) ≡ ok ack
read_packet_ack-write_example = read_packet_ack-write reference ack refl (omega arith) (omega arith)

abbrev ack_datagram : List ℕ
ack_datagram = 0xc0 ∷ 0 ∷ 1 ∷ 0 ∷ 7 ∷ 0 ∷ 0 ∷ 9 ∷ 0 ∷ 0 ∷ []

abbrev read_back : Ack
read_back = record { record_count = 1; sequences = (7, 9) ∷ [] }

datagram_read : read_packet_ack reference ack_datagram ≡ ok read_back
unfolding read_packet_ack reference ◌>>=◌ read_u8 read_u16 read_u24 refuse pure
    read_sequence_records read_records read_record of_be of_le
datagram_read = refl

read_packet_ack_shape_example :
    (length read_back.sequences ≡ read_back.record_count) × All IsForward read_back.sequences
read_packet_ack_shape_example = read_packet_ack_shape reference ack_datagram read_back datagram_read
