-- ===== src/Packet/Id.antt =====
-- `PacketID` of src/packet.rs.
use rust_raknet.Prelude.{ℕ, ◌≡◌, refl, ◌&&◌, leb, ◌==◌, if◌then◌else◌}
use rust_raknet.Error.{Result, ok, err, incorrect_packet_id}

pub data PacketId : Type 0 where
  connected_ping unconnected_ping_1 unconnected_ping_2 connected_pong : PacketId
  unconnected_pong open_connection_request_1 open_connection_reply_1 : PacketId
  open_connection_request_2 open_connection_reply_2 connection_request : PacketId
  connection_request_accepted already_connected new_incoming_connection : PacketId
  disconnect incompatible_protocol_version frame_set_packet_begin : PacketId
  frame_set_packet_end nack ack game : PacketId

unfoldable pub to_u8 : PacketId → ℕ
to_u8 connected_ping = 0x00
to_u8 unconnected_ping_1 = 0x01
to_u8 unconnected_ping_2 = 0x02
to_u8 connected_pong = 0x03
to_u8 unconnected_pong = 0x1c
to_u8 open_connection_request_1 = 0x05
to_u8 open_connection_reply_1 = 0x06
to_u8 open_connection_request_2 = 0x07
to_u8 open_connection_reply_2 = 0x08
to_u8 connection_request = 0x09
to_u8 connection_request_accepted = 0x10
to_u8 already_connected = 0x12
to_u8 new_incoming_connection = 0x13
to_u8 disconnect = 0x15
to_u8 incompatible_protocol_version = 0x19
to_u8 frame_set_packet_begin = 0x80
to_u8 frame_set_packet_end = 0x8d
to_u8 nack = 0xa0
to_u8 ack = 0xc0
to_u8 game = 0xfe

-- The arms of the `match`, in order.
try_from_arms : ℕ → Result PacketId
try_from_arms id =
    if id == 0x00
    then ok connected_ping
    else if id == 0x01
    then ok unconnected_ping_1
    else if id == 0x02
    then ok unconnected_ping_2
    else if id == 0x03
    then ok connected_pong
    else if id == 0x1c
    then ok unconnected_pong
    else if id == 0x05
    then ok open_connection_request_1
    else if id == 0x06
    then ok open_connection_reply_1
    else if id == 0x07
    then ok open_connection_request_2
    else if id == 0x08
    then ok open_connection_reply_2
    else if id == 0x09
    then ok connection_request
    else if id == 0x10
    then ok connection_request_accepted
    else if id == 0x12
    then ok already_connected
    else if id == 0x13
    then ok new_incoming_connection
    else if id == 0x15
    then ok disconnect
    else if id == 0x19
    then ok incompatible_protocol_version
    else if id == 0x80
    then ok frame_set_packet_begin
    else if id == 0x8d
    then ok frame_set_packet_end
    else if id == 0xa0
    then ok nack
    else if id == 0xc0
    then ok ack
    else if id == 0xfe
    then ok game
    else err incorrect_packet_id

unfoldable pub try_from : ℕ → Result PacketId
unfolding try_from_arms
try_from id = if leb 0x80 id && leb id 0x8d then ok frame_set_packet_begin else try_from_arms id

-- `PacketID::from`
unfoldable pub from : ℕ → Result PacketId
unfolding try_from
from id = try_from id

pub from-open_connection_request_1 : from 5 ≡ ok open_connection_request_1
unfolding from try_from try_from_arms
from-open_connection_request_1 = refl

pub from-open_connection_request_2 : from 7 ≡ ok open_connection_request_2
unfolding from try_from try_from_arms
from-open_connection_request_2 = refl

pub from-open_connection_reply_2 : from 8 ≡ ok open_connection_reply_2
unfolding from try_from try_from_arms
from-open_connection_reply_2 = refl
