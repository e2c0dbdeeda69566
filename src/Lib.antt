-- ===== src/Lib.antt =====
-- A verification development for rust-raknet, an implementation of the RakNet protocol.
--
-- The parts of the program and how they interact. A datagram arrives at a socket. Its first byte
-- tells a handshake or control packet (src/packet.rs) from a datagram of frames (src/arq.rs).
-- Packets and frames are read and written by the reader and the writer of src/datatype.rs, over
-- the traits of the crate `bytes`. The receive queue of src/arq.rs drops the reliable frames that
-- have arrived before by the window of src/sequence.rs, which also has the order of the 24-bit
-- serial numbers. src/server.rs answers the handshake outside a connection and hands the other
-- datagrams to the connection of their address. src/socket.rs is a connection: a client opens it
-- by the same handshake, its receiver task feeds the receive queue and the application, its
-- ticker sends the send queue again.
--
-- Files and the code that they model:
--   Error              src/error.rs: the enumeration of errors, `Result` and `?`
--   Bytes              the parameter that stands for the crate `bytes`: a record of operations
--                      and of the laws that its documentation states. Bytes/Reference is an
--                      instance, at which the tests run
--   Datatype           src/datatype.rs: Writer, Reader and Address are `RaknetWriter`,
--                      `RaknetReader` and their socket addresses, method by method; Reads,
--                      ReadLaws, Writes and AddressLaws say which bytes each takes and appends
--   Packet             src/packet.rs: Id is `PacketID`, Unconnected, OpenConnection, Connected
--                      and Records are the packets with their readers and writers, which bear
--                      the names of the functions; the files on Laws and Input are on these
--   Sequence           src/sequence.rs: `next`, `distance`, `newer` and `ReliableWindow`
--   Frame              src/arq.rs: Reliability and Packet are `Reliability`, `FramePayload` and
--                      `FrameSetPacket`, Encode is `write_header`, `serialize_into` and
--                      `serialize_group_into`, Decode is `FrameVec`
--   Receive            src/arq.rs and src/fragment.rs: AckSet is `ACKSet`, Fragment is `Fragment`
--                      and `FragmentQ`, Channels is `ChannelIndexes` and Queue `RecvQ`. The
--                      files on AckSet and MergeLaws are on the first two, FragmentTotals and
--                      FragmentLaws on the bytes of `FragmentQ`, ChannelLaws on the indices, Run
--                      and Drain on the loop behind an ordered frame, QueueLaws and QueueBounds on
--                      how many frames `RecvQ` holds, QueueCounts and QueueExact on their bytes
--   Send               src/arq.rs: `SendQ`. Timing has its timeouts, Queue its state and its
--                      capacity, Insert the ways in, Nacks and Acks `nack`, `ack` and their
--                      ranges, Tick and Flush `tick` and `flush`. Steps is the life of a queue
--                      as a step relation. Kept, RetainLaws and KeptAcks say what a property
--                      needs to be kept by every step, Tally and Conserve count frames, Marked
--                      and the files on Nacked say which packets `nack` marks, Awaited and Retry
--                      are on the next deadline, Window, Budget and Pacing on limits, Pending
--                      and Liveness on sending again, Parts, Queued and Delivery on the bytes of
--                      a message
--   Options            src/send_options.rs and src/recovery_options.rs: both records of options
--                      with the setters that test limits
--   Settings           the constants of src/utils.rs
--   Server             src/server.rs: Address is the key of its maps, Links the channels and
--                      semaphores that it shares with connections, Cache `SessionDispatchCache`,
--                      Worker the state of a listener, Receive a turn of `listen_single` with a
--                      datagram, Upkeep its cleanup, `start_session_collect`, `accept` and what
--                      sockets do. Sound and the files on SoundParts, SoundDispatch, SoundAdmit,
--                      SoundRequests and SoundUpkeep are on what every operation keeps, Steps on
--                      the life of a listener as a step relation, Transparent on the cache,
--                      Retransmit on requests that come again, Deliver on delivery, Closing on
--                      the collector
--   Connection         src/socket.rs: Connect is the handshake of
--                      `connect_with_version_and_mtu`, State `RaknetSocket` with what its tasks
--                      keep, Handle `handle`, Deliver and Receiver the loop of `start_receiver`,
--                      Ticker that of `start_tick`, Calls `send_payload`, `close`, `flush`,
--                      `recv` and `recv_batch_map`. ConnectLaws, Stream, TickerLaws and
--                      CallsLaws are on these, Agree and Handshake on a client and a listener
--   Prelude            what the parts share: tests, lists, integers, sets, maps and the monad M
--                      of a state with errors, in which readers and writers are do blocks
--
-- Conventions. Bytes and unsigned integers are natural numbers, with the wrap-around of their
-- width written out; i16, i32 and i64 are ℤ. A function with `&mut self` returns the state behind
-- its result. `bytes::Bytes` is a type parameter with a function to the bytes of a handle.
-- A clock is an argument of what reads it; times of the send queue are natural numbers of
-- milliseconds since the start, so that `tick - last` is tested as `last + timeout <= tick`.
-- `SendQ` is that of the default build, without what optional features add. The counter that the
-- fragments of a message share behind an `Arc` is an entry of a list in the queue, and their
-- frames hold its place. A sort that the source leaves unstable is a stable one here. `HashSet`
-- and `HashMap` are lists, read by their first entry for a key.
-- Tasks are functions from a state to a state, one turn of a loop at a time; a turn is one step,
-- and what other tasks do between the awaits of a turn is taken to come before or after it. A
-- clock, an outcome of `send_to` and the datagrams that arrive are arguments of a turn, and what
-- it hands to a socket is its output. The channels and the semaphore of tokio are modelled as
-- they are documented: a bounded queue whose receiver may be gone, and a flag. Where `select!` may
-- take either of two branches that are ready, the text beside the definition says which is taken.
-- A call that waits says so and leaves the state.
--
-- Loops. `while self.pending.remove(..)` runs on the number of pending indices, each round takes
-- one out, so that it is enough. The loop over internal addresses runs on the 20 rounds that it
-- is limited to. `FrameVec::decode` runs on the length of the datagram, each round reads three
-- bytes at least. The loop of `RecvQ::insert` runs on the number of frames in the table. The
-- loop of `SendQ::flush` runs on the number of queued frames, as its `for` does. The loops of the
-- handshake run on the datagrams that arrive, and the loop of `recv_batch_map` on its limit.
--
-- Not modelled: what the features send-policy and recovery-policy add to src/arq.rs, the binding
-- and the setters of src/server.rs before `listen`, its sharding and the text of `set_motd`; of
-- src/socket.rs the sockets behind `DatagramInput` and `transmit_frames`, `ping`, batches that are
-- sent, and the wakeups of tasks; and src/lib.rs, src/blocking.rs, src/udp.rs and src/log.rs,
-- which are about tasks, sockets and clocks. Of a decode that fails, the frames that it leaves in
-- its output are not modelled. A subtraction of natural numbers stops at 0 where the code would
-- panic or wrap: of released bytes in `SendQ`, of the bytes of a completed compound in
-- `FragmentQ`, and of the payload that the loop of `RecvQ::insert` takes out of `ordered_bytes`.
-- Of the last two the results below say from which states the counts stay exact, so that it makes
-- no difference; for `SendQ` nothing of the kind is shown. `write_packet_ack` and
-- `write_packet_nack` are compiled for tests only; `write_control_ranges_into` has their body, on
-- the same loop over records.
pub mod Prelude
pub mod Error
pub mod Bytes
pub mod Datatype
pub mod Packet
pub mod Frame
pub mod Sequence
pub mod Receive
pub mod Send
pub mod Options
pub mod Settings
pub mod Server
pub mod Connection
