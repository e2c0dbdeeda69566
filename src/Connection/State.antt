-- ===== src/Connection/State.antt =====
-- `RaknetSocket` of src/socket.rs with what its tasks share and keep.
use rust_raknet.Prelude.{ℕ, Bool, true, false, List, []}
use rust_raknet.Prelude.Int.{ℤ}
use rust_raknet.Error.{Result}
use rust_raknet.Datatype.Address.{SocketAddr}
use rust_raknet.Frame.Packet.{FrameSetPacket}
use rust_raknet.Receive.Queue.{RecvQ, RecvQ_default}
use rust_raknet.Send.Queue.{SendQ, SendQ_new}
use rust_raknet.Send.Flush.{OutgoingFrames}

-- `channel::<Vec<u8>>(100)`
abbrev pub user_capacity : ℕ
user_capacity = 100

module _ {H : Type 0} (bytes_deref : H → List ℕ) where
  pub record Connection : Type 0 where
    pub local_addr : SocketAddr
    pub peer_addr : SocketAddr
    -- The messages that the application has not taken, and whether it still can.
    pub user_data : List (List ℕ)
    pub user_receiving : Bool
    pub recvq : RecvQ bytes_deref
    pub sendq : SendQ H
    -- Whether `close_notifier` is closed, and the permits of `handshake_complete`.
    pub closed : Bool
    pub handshake_complete : ℕ
    pub last_heartbeat_time : ℕ
    -- `Maintenance` without the feature recovery-policy.
    pub idle_enabled : Bool
    pub idle : Bool
    -- What the receiver task keeps.
    pub pending_data : List (List ℕ)
    pub pending_bytes : ℕ
    pub received_since_ack : ℕ

  -- What leaves a connection: frames for `transmit_frames`, one frame for `send_frame`, or the
  -- bytes of one datagram.
  pub data Outgoing : Type 0 where
    frames : OutgoingFrames H → Outgoing
    alone : FrameSetPacket H → Outgoing
    datagram : List ℕ → Outgoing

  -- What a turn of a task takes from outside: `monotonic_millis()`, `Instant::now()` in
  -- nanoseconds, `cur_timestamp_millis()`, `receiver.should_flush_ack()`, and what
  -- `transmit_frames` returns, or the error before it where the socket is gone.
  pub record Turn : Type 0 where
    pub now : ℕ
    pub instant : ℕ
    pub wall : ℤ
    pub drained : Bool
    pub transmits : OutgoingFrames H → Result (Unit {0})

  -- The state that `RaknetSocket::from` starts with.
  abbrev pub opened : SocketAddr → SocketAddr → ℕ → ℕ → Connection
  opened local_addr peer_addr mtu now = record {
    local_addr = local_addr;
    peer_addr = peer_addr;
    user_data = [];
    user_receiving = true;
    recvq = RecvQ_default bytes_deref;
    sendq = SendQ_new mtu;
    closed = false;
    handshake_complete = 0;
    last_heartbeat_time = now;
    idle_enabled = false;
    idle = false;
    pending_data = [];
    pending_bytes = 0;
    received_since_ack = 0;
  }

  -- A state with what leaves the connection.
  abbrev pub Out : Type 0
  Out = Connection × List Outgoing

module _ {H : Type 0} {bytes_deref : H → List ℕ} where
  -- `connected.close()`
  abbrev pub closing : Connection bytes_deref → Connection bytes_deref
  closing c = record c { closed = true }
