-- ===== src/Connection/Calls.antt =====
-- The calls of the application on a connection of src/socket.rs.
use rust_raknet.Prelude.{
  ℕ, suc, zero, ◌-◌, Bool, true, false, not, Option, none, some, List, [], ◌∷◌, length, min, ◌==◌,
  if◌then◌else◌,
}
use rust_raknet.Error.{
  RaknetError, Result, ok, err, packet_header_error, connection_closed, socket_error,
}
use rust_raknet.Packet.Id.{to_u8, disconnect}
use rust_raknet.Frame.Reliability.{Reliability, reliable}
use rust_raknet.Send.Queue.{SendQ, has_capacity, is_empty}
use rust_raknet.Send.Insert.{insert, insert_bytes, insert_with_order_channel}
use rust_raknet.Send.Flush.{flush}
use rust_raknet.Connection.State.{Connection, frames, Turn, Out, closing}

-- A call returns, or waits for the connection.
pub data Progress (A : Type 0) : Type 0 where
  returns : Result A → Progress A
  waits : Progress A

module _ {H : Type 0} (bytes_deref : H → List ℕ) (bytes_slice : H → ℕ → ℕ → H) where
  abbrev pub Called : Type 0
  Called = Progress (Unit {0}) × Out bytes_deref

  -- `wait_for_handshake`, where it does not wait.
  unfoldable pub wait_for_handshake : Connection bytes_deref → Progress (Unit {0})
  wait_for_handshake c =
      if c.closed
      then returns (err connection_closed)
      else if c.handshake_complete == 0
      then waits
      else returns (ok tt)

  abbrev pub insert_owned : SendQ H → Reliability → List ℕ → ℕ → Option H → Result (SendQ H)
  insert_owned q reliability buf channel none =
      insert_with_order_channel bytes_deref bytes_slice q reliability buf channel
  insert_owned q reliability buf channel (some data') =
      insert_bytes bytes_deref bytes_slice q reliability data' channel

  abbrev pub after_insert : Connection bytes_deref → Turn bytes_deref → Result (SendQ H) → Called
  after_insert c turn (err e) = (returns (err e), (c, []))
  after_insert c turn (ok queued) =
      let (outgoing, sendq) = flush bytes_deref queued turn.now in
      (
        returns (turn.transmits outgoing),
        (record c { sendq = sendq; idle = false }, frames outgoing ∷ []),
      )

  abbrev pub with_capacity :
      Connection bytes_deref
      → Turn bytes_deref
      → Reliability
      → List ℕ
      → ℕ
      → Option H
      → Result Bool
      → Called
  with_capacity c turn reliability buf channel data' (err e) = (returns (err e), (c, []))
  with_capacity c turn reliability buf channel data' (ok false) = (waits, (c, []))
  with_capacity c turn reliability buf channel data' (ok true) =
      after_insert c turn (insert_owned c.sendq reliability buf channel data')

  abbrev pub once_connected : Connection bytes_deref → Progress (Unit {0}) → Called → Called
  once_connected c (returns (ok done)) next = next
  once_connected c (returns (err e)) next = (returns (err e), (c, []))
  once_connected c waits next = (waits, (c, []))

  -- A pass of `send_payload`; where it waits, it starts again.
  unfoldable pub send_payload :
      Connection bytes_deref → Turn bytes_deref → Reliability → List ℕ → ℕ → Option H → Called
  unfolding wait_for_handshake
  send_payload c turn reliability [] channel data' = (returns (err packet_header_error), (c, []))
  send_payload c turn reliability (first ∷ rest) channel data' =
      if not (first == 0xfe)
      then (returns (err packet_header_error), (c, []))
      else once_connected c (wait_for_handshake c) (
          with_capacity c turn reliability (first ∷ rest) channel data'
            (has_capacity c.sendq reliability (length (first ∷ rest))))

  abbrev pub after_goodbye :
      Connection bytes_deref → Result (SendQ H) → Result (Unit {0}) × Connection bytes_deref
  after_goodbye c (err e) = (err e, c)
  after_goodbye c (ok sendq) = (ok tt, closing (record c { sendq = sendq }))

  unfoldable pub close : Connection bytes_deref → Result (Unit {0}) × Connection bytes_deref
  unfolding to_u8
  close c =
      if c.closed
      then (ok tt, c)
      else after_goodbye c (insert bytes_deref bytes_slice c.sendq reliable (to_u8 disconnect ∷ []))

  -- A pass of `flush`.
  unfoldable pub flush_call : Connection bytes_deref → Progress (Unit {0})
  flush_call c =
      if c.closed
      then returns (err connection_closed)
      else if is_empty c.sendq
      then returns (ok tt)
      else waits

-- The error of a receive where no message will come.
abbrev pub ended : Bool → RaknetError
ended closed = if closed then connection_closed else socket_error

-- `recv` on the messages that wait, with whether the task that sends them is there.
unfoldable pub recv : Bool → Bool → List (List ℕ) → Progress (List ℕ) × List (List ℕ)
recv closed sending [] = (if sending then waits else returns (err (ended closed)), [])
recv closed sending (message ∷ messages) = (returns (ok message), messages)

-- `while output.len() < limit`, on the rounds that are left: the messages, and those behind.
unfoldable pub try_recv_more : ℕ → List (List ℕ) → List (List ℕ) × List (List ℕ)
try_recv_more zero messages = ([], messages)
try_recv_more (suc rounds) [] = ([], [])
try_recv_more (suc rounds) (message ∷ messages) =
    let (more, left) = try_recv_more rounds messages in (message ∷ more, left)

abbrev pub batch_after :
    List ℕ → List (List ℕ) × List (List ℕ) → Progress (List (List ℕ)) × List (List ℕ)
batch_after first (more, left) = (returns (ok (first ∷ more)), left)

abbrev pub batch : Bool → Bool → ℕ → List (List ℕ) → Progress (List (List ℕ)) × List (List ℕ)
batch closed sending limit [] = (if sending then waits else returns (err (ended closed)), [])
batch closed sending limit (message ∷ messages) =
    batch_after message (try_recv_more (min limit 64 - 1) messages)

-- `recv_batch_map` with the identity: the messages in `output`.
unfoldable pub recv_batch :
    Bool → Bool → ℕ → List (List ℕ) → Progress (List (List ℕ)) × List (List ℕ)
unfolding try_recv_more
recv_batch closed sending limit messages =
    if limit == 0 then (returns (ok []), messages) else batch closed sending limit messages
