-- ===== src/Connection/Connect.antt =====
-- `connect_with_version_and_mtu` of src/socket.rs up to the size that both sides agree on. What
-- `recv_from` gives within its two seconds is an argument: nothing, or a datagram and its source.
use rust_raknet.Prelude.{
  ℕ, Bool, true, false, not, ◌&&◌, Option, none, some, List, [], ◌∷◌, leb, ◌==◌, if◌then◌else◌,
}
use rust_raknet.Error.{
  RaknetError, Result, ok, err, not_support_version, incorrect_reply, packet_parse_error,
  connection_closed, packet_size_exceed_mtu,
}
use rust_raknet.Bytes.{BytesCrate}
use rust_raknet.Datatype.Address.{SocketAddr}
use rust_raknet.Packet.Id.{
  PacketId, to_u8, from, open_connection_reply_1, open_connection_reply_2, already_connected,
  disconnect, incompatible_protocol_version,
}
use rust_raknet.Packet.OpenConnection.{
  OpenConnectionReply1, OpenConnectionReply2, write_packet_connection_open_request_1,
  write_packet_connection_open_request_2, read_packet_connection_open_reply_1,
  read_packet_connection_open_reply_2,
}
use rust_raknet.Settings.{raknet_max_mtu}
use rust_raknet.Server.Address.{same_address}

abbrev pub Arrival : Type 0
Arrival = Option (SocketAddr × List ℕ)

-- What a datagram does to a loop of the handshake: the request is sent again, or the loop ends.
pub data Round : Type 0 where
  retry : Round
  failed : RaknetError → Round
  agreed : ℕ → Round

-- `(61..=limit).contains(&mtu)`, and the error of a reply where it is not so.
abbrev pub within : ℕ → ℕ → Round
within limit mtu = if leb 61 mtu && leb mtu limit then agreed mtu else failed incorrect_reply

abbrev pub settle :
    Round → Option (Result ℕ × List Arrival) → List Arrival → Option (Result ℕ × List Arrival)
settle retry again arrivals = again
settle (failed e) again arrivals = some (err e, arrivals)
settle (agreed mtu) again arrivals = some (ok mtu, arrivals)

-- A loop of the handshake, with the arrivals that are left; `none` where it still waits.
unfoldable pub await :
    (SocketAddr → List ℕ → Round) → List Arrival → Option (Result ℕ × List Arrival)
await round [] = none
await round (none ∷ arrivals) = await round arrivals
await round (some (source, buf) ∷ arrivals) =
    let again = await round arrivals in settle (round source buf) again arrivals

-- `matches!(…, Ok(PacketID::AlreadyConnected | PacketID::Disconnect))`
abbrev pub is_refusal : Result PacketId → Bool
is_refusal (ok already_connected) = true
is_refusal (ok disconnect) = true
is_refusal (ok other) = false
is_refusal (err e) = false

abbrev pub result_of : Option (Result ℕ × List Arrival) → Option (Result ℕ)
result_of none = none
result_of (some (result, arrivals)) = some result

module _ (crate : BytesCrate) where
  abbrev pub read_reply_1 : ℕ → Result OpenConnectionReply1 → Round
  read_reply_1 requested (err e) = failed packet_parse_error
  read_reply_1 requested (ok reply) = within requested reply.mtu_size

  -- A datagram in the first loop, and the code behind it.
  unfoldable pub reply_1_round : SocketAddr → ℕ → SocketAddr → List ℕ → Round
  unfolding same_address to_u8
  reply_1_round addr requested source [] = retry
  reply_1_round addr requested source (first ∷ rest) =
      if not (same_address source addr)
      then retry
      else if first == to_u8 open_connection_reply_1
      then read_reply_1 requested (read_packet_connection_open_reply_1 crate (first ∷ rest))
      else if first == to_u8 incompatible_protocol_version
      then failed not_support_version
      else retry

  abbrev pub read_reply_2 : ℕ → Result OpenConnectionReply2 → Round
  read_reply_2 mtu (err e) = failed packet_parse_error
  read_reply_2 mtu (ok reply) = within mtu reply.mtu

  -- A datagram in the second loop.
  unfoldable pub reply_2_round : SocketAddr → ℕ → SocketAddr → List ℕ → Round
  unfolding same_address to_u8 from
  reply_2_round addr mtu source [] = retry
  reply_2_round addr mtu source (first ∷ rest) =
      if not (same_address source addr)
      then retry
      else if first == to_u8 open_connection_reply_1
      then retry
      else if is_refusal (from first)
      then failed connection_closed
      else if not (first == to_u8 open_connection_reply_2)
      then retry
      else read_reply_2 mtu (read_packet_connection_open_reply_2 crate (first ∷ rest))

  abbrev pub second_loop : SocketAddr → ℕ → List Arrival → Result (List ℕ) → Option (Result ℕ)
  second_loop addr mtu arrivals (err e) = some (err e)
  second_loop addr mtu arrivals (ok request) = result_of (await (reply_2_round addr mtu) arrivals)

  abbrev pub second_request : SocketAddr → ℕ → Option (Result ℕ × List Arrival) → Option (Result ℕ)
  second_request addr guid none = none
  second_request addr guid (some (err e, arrivals)) = some (err e)
  second_request addr guid (some (ok mtu, arrivals)) = second_loop addr mtu arrivals (
      write_packet_connection_open_request_2 crate
        (record { address = addr; mtu = mtu; guid = guid }))

  abbrev pub first_loop : SocketAddr → ℕ → ℕ → List Arrival → Result (List ℕ) → Option (Result ℕ)
  first_loop addr requested guid arrivals (err e) = some (err e)
  first_loop addr requested guid arrivals (ok request) =
      second_request addr guid (await (reply_1_round addr requested) arrivals)

  -- The size that the handshake ends with; `none` where it still waits.
  unfoldable pub negotiated : SocketAddr → ℕ → ℕ → ℕ → List Arrival → Option (Result ℕ)
  unfolding await reply_1_round reply_2_round
  negotiated addr version requested guid arrivals =
      if leb 61 requested && leb requested raknet_max_mtu
      then first_loop addr requested guid arrivals (
          write_packet_connection_open_request_1 crate
            (record { protocol_version = version; mtu_size = requested }))
      else some (err packet_size_exceed_mtu)
