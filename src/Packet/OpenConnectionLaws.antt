-- ===== src/Packet/OpenConnectionLaws.antt =====
-- Round trips of the packets that open a connection.
use rust_raknet.Prelude.{
  ℕ, ◌+◌, ◌-◌, ◌^◌, ◌≤◌, ◌<◌, ◌≡◌, refl, ap, ◌∙◌, List, [], ◌∷◌, ◌++◌, length, replicate,
  length-replicate, arith,
}
use rust_raknet.Error.{ok, ok_or, packet_size_exceed_mtu, and_then}
use rust_raknet.Bytes.{BytesCrate}
use rust_raknet.Bytes.Words.{sizes}
use rust_raknet.Datatype.Writer.{magic}
use rust_raknet.Datatype.AddressLaws.{
  IsSocketAddr, on_wire, length-address_bytes, write_address-Writes, read_address-Reads,
}
use rust_raknet.Datatype.Reads.{Reads-bind, Reads-last, Reads-pure, Reads-lift, run-Reads_more}
use rust_raknet.Datatype.ReadLaws.{read_u8-Reads, read_u16-Reads, read_u64-Reads}
use rust_raknet.Datatype.Writes.{
  Writes-bind, Writes-refuse, write-Writes, write_u8-Writes, write_u16-Writes, write_u64-Writes,
  write_magic-Writes,
}
use rust_raknet.Packet.Id.{to_u8}
use rust_raknet.Packet.Shared.{read_magic-Reads, writing_lem, IsWire, wired, IsWire-and_then}
use rust_raknet.Packet.OpenConnection.{
  OpenConnectionRequest1, OpenConnectionRequest2, OpenConnectionReply1, OpenConnectionReply2,
  reported_mtu, read_packet_connection_open_request_1, write_packet_connection_open_request_1,
  read_packet_connection_open_request_2, write_packet_connection_open_request_2,
  read_packet_connection_open_reply_1, write_packet_connection_open_reply_1,
  read_packet_connection_open_reply_2, write_packet_connection_open_reply_2,
}

module _ (crate : BytesCrate) where
  -- The bytes of a first request: it is padded to the size that its MTU stands for.
  request_1_bytes : OpenConnectionRequest1 → List ℕ
  request_1_bytes p =
      (5 ∷ []) ++ (magic ++ ((p.protocol_version ∷ []) ++ replicate (p.mtu_size - 46) 0))

  length-request_1_bytes :
      (p : OpenConnectionRequest1) → 46 ≤ p.mtu_size → length (request_1_bytes p) + 28 ≡ p.mtu_size
  unfolding request_1_bytes
  length-request_1_bytes p h = omega (arith, length-replicate {A = ℕ} (p.mtu_size - 46) 0)

  write_request_1 :
      (p : OpenConnectionRequest1)
      → p.protocol_version < 2 ^ 8
      → 46 ≤ p.mtu_size
      → p.mtu_size < 2 ^ 16
      → write_packet_connection_open_request_1 crate p ≡ ok (request_1_bytes p)
  unfolding write_packet_connection_open_request_1 to_u8 request_1_bytes
  write_request_1 p hv hm hu =
      writing_lem crate
        (Writes-bind _ (write_u8-Writes crate.vec_laws 0x05 (omega arith)) (
          Writes-bind _ (write_magic-Writes crate.vec_laws) (
            Writes-bind _ (write_u8-Writes crate.vec_laws p.protocol_version hv) (
              Writes-refuse packet_size_exceed_mtu (ground arith)
                (write-Writes crate.vec_laws (replicate (p.mtu_size - 46) 0))))))
        (omega (arith, length-replicate {A = ℕ} (p.mtu_size - 46) 0))

  abbrev request_1_head : OpenConnectionRequest1 → List ℕ
  request_1_head p = (5 ∷ []) ++ (magic ++ (p.protocol_version ∷ []))

  regroup :
      (p : OpenConnectionRequest1)
      → request_1_bytes p ≡ request_1_head p ++ replicate (p.mtu_size - 46) 0
  unfolding request_1_bytes
  regroup p = refl

  mtu_found :
      (p : OpenConnectionRequest1)
      → 46 ≤ p.mtu_size
      → p.mtu_size < 2 ^ 16
      → ok_or
          (reported_mtu (length (request_1_head p ++ replicate (p.mtu_size - 46) 0)))
          packet_size_exceed_mtu
        ≡ ok p.mtu_size
  unfolding reported_mtu
  mtu_found p hm hu = ground (arith, length-replicate {A = ℕ} (p.mtu_size - 46) 0)

  read_request_1 :
      (p : OpenConnectionRequest1)
      → 46 ≤ p.mtu_size
      → p.mtu_size < 2 ^ 16
      → read_packet_connection_open_request_1 crate (request_1_bytes p) ≡ ok p
  unfolding read_packet_connection_open_request_1
  read_request_1 p hm hu =
      ap (λ l. read_packet_connection_open_request_1 crate l) (regroup p)
      ∙ run-Reads_more (replicate (p.mtu_size - 46) 0) (
          Reads-bind _ (read_u8-Reads crate.cursor_laws 0x05) (
            Reads-bind _ (read_magic-Reads crate.cursor_laws) (
              Reads-last _ (read_u8-Reads crate.cursor_laws p.protocol_version)
                (Reads-last _ (Reads-lift (mtu_found p hm hu)) (Reads-pure p)))))

  pub read_packet_connection_open_request_1-IsWire :
      (p : OpenConnectionRequest1)
      → p.protocol_version < 2 ^ 8
      → 46 ≤ p.mtu_size
      → p.mtu_size < 2 ^ 16
      → IsWire crate 5
          (write_packet_connection_open_request_1 crate p)
          (read_packet_connection_open_request_1 crate)
          p
  unfolding request_1_bytes
  read_packet_connection_open_request_1-IsWire p hv hm hu = (
    magic ++ ((p.protocol_version ∷ []) ++ replicate (p.mtu_size - 46) 0),
    write_request_1 p hv hm hu,
    read_request_1 p hm hu,
  )

  -- A first open request of an 8-bit protocol version and of a 16-bit MTU from 46 on is padded
  -- when it is written, and read back with the MTU that the size of the datagram stands for.
  pub read_packet_connection_open_request_1-write :
      (p : OpenConnectionRequest1)
      → p.protocol_version < 2 ^ 8
      → 46 ≤ p.mtu_size
      → p.mtu_size < 2 ^ 16
      → and_then
          (write_packet_connection_open_request_1 crate p)
          (read_packet_connection_open_request_1 crate)
        ≡ ok p
  read_packet_connection_open_request_1-write p hv hm hu =
      rw (write_request_1 p hv hm hu) (read_request_1 p hm hu)

  pub read_packet_connection_open_request_2-IsWire :
      (p : OpenConnectionRequest2)
      → IsSocketAddr p.address
      → p.mtu < 2 ^ 16
      → p.guid < 2 ^ 64
      → IsWire crate 7
          (write_packet_connection_open_request_2 crate p)
          (read_packet_connection_open_request_2 crate)
          (record p { address = on_wire p.address })
  unfolding read_packet_connection_open_request_2 write_packet_connection_open_request_2 to_u8
  read_packet_connection_open_request_2-IsWire p ha hm hg =
      wired crate
        (Writes-bind _ (write_u8-Writes crate.vec_laws 0x07 (omega arith)) (
          Writes-bind _ (write_magic-Writes crate.vec_laws) (
            Writes-bind _ (write_address-Writes crate.vec_laws p.address) (
              Writes-bind _ (write_u16-Writes crate.vec_laws p.mtu)
                (write_u64-Writes crate.vec_laws p.guid)))))
        (Reads-bind _ (read_u8-Reads crate.cursor_laws 0x07) (
          Reads-bind _ (read_magic-Reads crate.cursor_laws) (
            Reads-bind _ (read_address-Reads crate.cursor_laws p.address ha) (
              Reads-bind _ (read_u16-Reads crate.cursor_laws p.mtu hm)
                (Reads-last _ (read_u64-Reads crate.cursor_laws p.guid hg) (Reads-pure _))))))
        (omega (sizes, length-address_bytes p.address ha))

  -- A second open request whose fields are in the ranges of their types is read back as it was
  -- written, the flow information and the scope of an IPv6 address as 0.
  pub read_packet_connection_open_request_2-write :
      (p : OpenConnectionRequest2)
      → IsSocketAddr p.address
      → p.mtu < 2 ^ 16
      → p.guid < 2 ^ 64
      → and_then
          (write_packet_connection_open_request_2 crate p)
          (read_packet_connection_open_request_2 crate)
        ≡ ok (record p { address = on_wire p.address })
  read_packet_connection_open_request_2-write p ha hm hg =
      IsWire-and_then crate (write_packet_connection_open_request_2 crate p)
        (read_packet_connection_open_request_2 crate)
        (read_packet_connection_open_request_2-IsWire p ha hm hg)

  pub read_packet_connection_open_reply_1-IsWire :
      (p : OpenConnectionReply1)
      → p.guid < 2 ^ 64
      → p.use_encryption < 2 ^ 8
      → p.mtu_size < 2 ^ 16
      → IsWire crate 6
          (write_packet_connection_open_reply_1 crate p)
          (read_packet_connection_open_reply_1 crate)
          p
  unfolding read_packet_connection_open_reply_1 write_packet_connection_open_reply_1 to_u8
  read_packet_connection_open_reply_1-IsWire p hg he hm =
      wired crate
        (Writes-bind _ (write_u8-Writes crate.vec_laws 0x06 (omega arith)) (
          Writes-bind _ (write_magic-Writes crate.vec_laws) (
            Writes-bind _ (write_u64-Writes crate.vec_laws p.guid) (
              Writes-bind _ (write_u8-Writes crate.vec_laws p.use_encryption he)
                (write_u16-Writes crate.vec_laws p.mtu_size)))))
        (Reads-bind _ (read_u8-Reads crate.cursor_laws 0x06) (
          Reads-bind _ (read_magic-Reads crate.cursor_laws) (
            Reads-bind _ (read_u64-Reads crate.cursor_laws p.guid hg) (
              Reads-bind _ (read_u8-Reads crate.cursor_laws p.use_encryption)
                (Reads-last _ (read_u16-Reads crate.cursor_laws p.mtu_size hm) (Reads-pure p))))))
        (omega sizes)

  -- A first open reply whose fields are in the ranges of their types is read back as it was
  -- written.
  pub read_packet_connection_open_reply_1-write :
      (p : OpenConnectionReply1)
      → p.guid < 2 ^ 64
      → p.use_encryption < 2 ^ 8
      → p.mtu_size < 2 ^ 16
      → and_then
          (write_packet_connection_open_reply_1 crate p)
          (read_packet_connection_open_reply_1 crate)
        ≡ ok p
  read_packet_connection_open_reply_1-write p hg he hm =
      IsWire-and_then crate (write_packet_connection_open_reply_1 crate p)
        (read_packet_connection_open_reply_1 crate)
        (read_packet_connection_open_reply_1-IsWire p hg he hm)

  pub read_packet_connection_open_reply_2-IsWire :
      (p : OpenConnectionReply2)
      → IsSocketAddr p.address
      → p.guid < 2 ^ 64
      → p.mtu < 2 ^ 16
      → p.encryption_enabled < 2 ^ 8
      → IsWire crate 8
          (write_packet_connection_open_reply_2 crate p)
          (read_packet_connection_open_reply_2 crate)
          (record p { address = on_wire p.address })
  unfolding read_packet_connection_open_reply_2 write_packet_connection_open_reply_2 to_u8
  read_packet_connection_open_reply_2-IsWire p ha hg hm he =
      wired crate
        (Writes-bind _ (write_u8-Writes crate.vec_laws 0x08 (omega arith)) (
          Writes-bind _ (write_magic-Writes crate.vec_laws) (
            Writes-bind _ (write_u64-Writes crate.vec_laws p.guid) (
              Writes-bind _ (write_address-Writes crate.vec_laws p.address) (
                Writes-bind _ (write_u16-Writes crate.vec_laws p.mtu)
                  (write_u8-Writes crate.vec_laws p.encryption_enabled he))))))
        (Reads-bind _ (read_u8-Reads crate.cursor_laws 0x08) (
          Reads-bind _ (read_magic-Reads crate.cursor_laws) (
            Reads-bind _ (read_u64-Reads crate.cursor_laws p.guid hg) (
              Reads-bind _ (read_address-Reads crate.cursor_laws p.address ha) (
                Reads-bind _ (read_u16-Reads crate.cursor_laws p.mtu hm) (
                  Reads-last _ (read_u8-Reads crate.cursor_laws p.encryption_enabled)
                    (Reads-pure _)))))))
        (omega (sizes, length-address_bytes p.address ha))

  -- A second open reply whose fields are in the ranges of their types is read back as it was
  -- written, the flow information and the scope of an IPv6 address as 0.
  pub read_packet_connection_open_reply_2-write :
      (p : OpenConnectionReply2)
      → IsSocketAddr p.address
      → p.guid < 2 ^ 64
      → p.mtu < 2 ^ 16
      → p.encryption_enabled < 2 ^ 8
      → and_then
          (write_packet_connection_open_reply_2 crate p)
          (read_packet_connection_open_reply_2 crate)
        ≡ ok (record p { address = on_wire p.address })
  read_packet_connection_open_reply_2-write p ha hg hm he =
      IsWire-and_then crate (write_packet_connection_open_reply_2 crate p)
        (read_packet_connection_open_reply_2 crate)
        (read_packet_connection_open_reply_2-IsWire p ha hg hm he)
