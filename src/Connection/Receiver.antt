-- ===== src/Connection/Receiver.antt =====
-- The receiver task of a connection: the loop of `start_receiver` of src/socket.rs.
use rust_raknet.Prelude.{
  ℕ, suc, ◌-◌, ◌*◌, Bool, true, false, not, ◌&&◌, ◌||◌, List, [], ◌∷◌, ◌++◌, length, ltb, leb, ◌==◌,
  if◌then◌else◌,
}
use rust_raknet.Error.{Result, ok, err}
use rust_raknet.Bytes.{BytesCrate}
use rust_raknet.Packet.Id.{PacketId, from, nack, ack, disconnect, frame_set_packet_begin}
use rust_raknet.Packet.Records.{
  Range, Ack, Nack, read_packet_ack, read_packet_nack, write_control_ranges_into,
}
use rust_raknet.Frame.Packet.{FrameSetPacket}
use rust_raknet.Frame.Decode.{decode_into, decode_owned_into}
use rust_raknet.Receive.AckSet.{take_ack_into}
use rust_raknet.Receive.Queue.{RecvQ, flush_into, needs_maintenance}
use rust_raknet.Receive.Queue
use rust_raknet.Send.Flush.{flush}
use rust_raknet.Send.Acks.{ack_ranges, nack_ranges}
use rust_raknet.Connection.State.{
  Connection, Outgoing, frames, datagram, Turn, user_capacity, Out, closing,
}
use rust_raknet.Connection.Deliver.{deliver}

module _ (crate : BytesCrate) {H : Type 0} (bytes_deref : H → List ℕ)
    (bytes_slice : H → ℕ → ℕ → H) where
  abbrev pub written : Result (Unit {0}) × List ℕ → List (Outgoing bytes_deref)
  written (ok done, packet) = datagram packet ∷ []
  written (err e, packet) = []

  -- `send_ack_ranges`
  unfoldable pub send_ack_ranges : List Range → List (Outgoing bytes_deref)
  send_ack_ranges [] = []
  send_ack_ranges (range ∷ ranges) =
      written (write_control_ranges_into crate ack (range ∷ ranges) [])

  -- `take_ack_into`, and the count starts again.
  abbrev pub taking : Connection bytes_deref → List Range × Connection bytes_deref
  taking c =
      let (acks, ackset) = take_ack_into c.recvq.sequence_number_ackset in
      (
        acks,
        record c {
          recvq = record c.recvq { sequence_number_ackset = ackset };
          received_since_ack = 0;
        },
      )

  abbrev pub acknowledged : List Range × Connection bytes_deref → Out bytes_deref
  acknowledged (acks, c) = (c, send_ack_ranges acks)

  -- The head of the loop: acknowledgements that waited for more datagrams.
  unfoldable pub flush_acks : Connection bytes_deref → Turn bytes_deref → Out bytes_deref
  unfolding send_ack_ranges
  flush_acks c turn =
      if not (c.received_since_ack == 0) && (turn.drained || leb 32 c.received_since_ack)
      then acknowledged (taking c)
      else (c, [])

  abbrev pub front_to_user : Connection bytes_deref → List (List ℕ) → Connection bytes_deref
  front_to_user c [] = c
  front_to_user c (message ∷ messages) = record c {
    pending_data = messages;
    pending_bytes = c.pending_bytes - length message;
    user_data = c.user_data ++ (message ∷ []);
  }

  -- `user_data_sender.reserve()` while messages wait; it stays pending where there is no room.
  unfoldable pub give_pending : Connection bytes_deref → Connection bytes_deref
  give_pending c =
      if c.user_receiving
      then if ltb (length c.user_data) user_capacity then front_to_user c c.pending_data else c
      else closing c

  -- `sendq.flush` and what follows an acknowledgement.
  unfoldable pub flush_replies : Connection bytes_deref → Turn bytes_deref → Out bytes_deref
  flush_replies c turn =
      let (outgoing, sendq) = flush bytes_deref c.sendq turn.now in
      (record c { sendq = sendq }, frames outgoing ∷ [])

  abbrev pub on_ack : Connection bytes_deref → Turn bytes_deref → Result Ack → Out bytes_deref
  on_ack c turn (err e) = (c, [])
  on_ack c turn (ok packet) =
      flush_replies (record c { sendq = ack_ranges bytes_deref c.sendq packet.sequences turn.now })
        turn

  abbrev pub on_nack : Connection bytes_deref → Turn bytes_deref → Result Nack → Out bytes_deref
  on_nack c turn (err e) = (c, [])
  on_nack c turn (ok packet) =
      flush_replies (record c { sendq = nack_ranges bytes_deref c.sendq packet.sequences turn.now })
        turn

  -- Whether a frame was refused, the frames that are ready, and the queue.
  abbrev pub Inserted : Type 0
  Inserted = Bool × (List (FrameSetPacket H) × RecvQ bytes_deref)

  abbrev pub after_insert :
      Result (Unit {0}) × RecvQ bytes_deref
      → List (FrameSetPacket H)
      → (List (FrameSetPacket H) → RecvQ bytes_deref → Inserted)
      → Inserted
  after_insert (err e, q) ready next = (true, (ready, q))
  after_insert (ok done, q) ready next =
      let (more, q') = flush_into bytes_deref q in next (ready ++ more) q'

  -- `for frame in decoded_frames.drain(..)`
  unfoldable pub insert_all :
      ℕ → List (FrameSetPacket H) → List (FrameSetPacket H) → RecvQ bytes_deref → Inserted
  insert_all instant [] ready q = (false, (ready, q))
  insert_all instant (frame ∷ rest) ready q =
      after_insert (Queue.insert bytes_deref q frame instant) ready (insert_all instant rest)

  -- The acknowledgements that are due after frames came in.
  unfoldable pub take_acks :
      Turn bytes_deref → Connection bytes_deref → List Range × Connection bytes_deref
  take_acks turn c = if turn.drained || leb 32 c.received_since_ack then taking c else ([], c)

  abbrev pub with_acks : List Range → Out bytes_deref → Out bytes_deref
  with_acks acks (c, sent) = (c, sent ++ send_ack_ranges acks)

  abbrev pub unless_invalid :
      Bool
      → Turn bytes_deref
      → List (FrameSetPacket H)
      → List Range
      → Connection bytes_deref
      → Out bytes_deref
  unless_invalid true turn ready acks c = (closing c, [])
  unless_invalid false turn ready acks c =
      with_acks acks (deliver crate bytes_deref bytes_slice turn ready c)

  abbrev pub after_inserts : Turn bytes_deref → Connection bytes_deref → Inserted → Out bytes_deref
  after_inserts turn c (invalid, (ready, q)) =
      let (acks, c') = take_acks turn (record c { recvq = q }) in
      unless_invalid invalid turn ready acks
        (record c' { idle = if needs_maintenance bytes_deref c'.recvq then false else c'.idle })

  abbrev pub on_frames :
      Turn bytes_deref → Connection bytes_deref → Result (List (FrameSetPacket H)) → Out bytes_deref
  on_frames turn c (err e) = (c, [])
  on_frames turn c (ok decoded) =
      after_inserts turn
        (record c {
          received_since_ack = if c.received_since_ack == 0 then 1 else c.received_since_ack;
        })
        (insert_all turn.instant decoded [] c.recvq)

  -- `pending_bytes >= 1024 * 1024 || pending_data.len() >= 4096`
  unfoldable pub is_held_up : Connection bytes_deref → Bool
  is_held_up c = leb (1024 * 1024) c.pending_bytes || leb 4096 (length c.pending_data)

  -- `decode_into` of the input: of a channel, the datagram is given away.
  abbrev pub decoded : Bool → List ℕ → Result (List (FrameSetPacket H))
  decoded true buf = decode_owned_into crate.cursor buf
  decoded false buf = decode_into crate.cursor buf

  abbrev pub on_kind :
      Turn bytes_deref → Bool → Connection bytes_deref → List ℕ → Result PacketId → Out bytes_deref
  on_kind turn owned c buf (err e) = (c, [])
  on_kind turn owned c buf (ok disconnect) = (closing c, [])
  on_kind turn owned c buf (ok ack) = on_ack c turn (read_packet_ack crate buf)
  on_kind turn owned c buf (ok nack) = on_nack c turn (read_packet_nack crate buf)
  on_kind turn owned c buf (ok frame_set_packet_begin) =
      if is_held_up c then (c, []) else on_frames turn c (decoded owned buf)
  on_kind turn owned c buf (ok other) = (c, [])

  -- The count of datagrams since an acknowledgement, and the time of the last one.
  abbrev pub counted : Turn bytes_deref → Connection bytes_deref → Connection bytes_deref
  counted turn c = record c {
    received_since_ack = if c.received_since_ack == 0 then 0 else suc c.received_since_ack;
    last_heartbeat_time = turn.now;
  }

  -- A round of the loop with a datagram.
  unfoldable pub on_datagram :
      Turn bytes_deref → Bool → Connection bytes_deref → List ℕ → Out bytes_deref
  unfolding flush_replies insert_all deliver take_acks is_held_up from
  on_datagram turn owned c [] = (c, [])
  on_datagram turn owned c (first ∷ rest) =
      on_kind turn owned (counted turn c) (first ∷ rest) (from first)
