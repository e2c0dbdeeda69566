-- ===== src/Connection/Handshake.antt =====
-- On the whole handshake outside the connection, of a client and a listener.
use rust_raknet.Prelude.{
  ℕ, ◌≤◌, ◌<◌, ◌^◌, ◌≡◌, refl, ap, ◌∙◌, inl, inr, true, ◌&&◌, Option, some, List, [], ◌∷◌, arith,
  leb, if◌then◌else◌,
}
use rust_raknet.Prelude.Sets.{contains}
use rust_raknet.Error.{ok, connection_closed}
use rust_raknet.Bytes.{BytesCrate}
use rust_raknet.Datatype.Address.{SocketAddr}
use rust_raknet.Datatype.AddressLaws.{IsSocketAddr, on_wire}
use rust_raknet.Packet.Id.{to_u8, from-open_connection_reply_2}
use rust_raknet.Packet.OpenConnection.{
  OpenConnectionReply1, OpenConnectionReply2, read_packet_connection_open_reply_1,
  read_packet_connection_open_reply_2,
}
use rust_raknet.Packet.OpenConnectionLaws.{
  read_packet_connection_open_request_1-IsWire, read_packet_connection_open_request_2-IsWire,
  read_packet_connection_open_reply_1-IsWire, read_packet_connection_open_reply_2-IsWire,
}
use rust_raknet.Settings.{raknet_protocol_version_list, raknet_max_mtu}
use rust_raknet.Server.Address.{same_address-IsEquality}
use rust_raknet.Server.Worker.{Listener, Turn, try_reserve, admit}
use rust_raknet.Server.Receive.{session_of, forgetting, receive, reply_2}
use rust_raknet.Server.SoundAdmit.{admitted, session_of-admit}
use rust_raknet.Connection.Connect.{
  agreed, failed, within, settle, await, reply_1_round, reply_2_round, read_reply_1, read_reply_2,
  is_refusal, result_of, first_loop, second_request, second_loop, negotiated,
}
use rust_raknet.Connection.Agree.{
  offered, offered_between, IsReady, noted, offer, known_version, request_1, request_2,
  receive_request_1, receive_request_2,
}

within_lem : (limit mtu : ℕ) → 61 ≤ mtu → mtu ≤ limit → within limit mtu ≡ agreed mtu
within_lem limit mtu low high = rw (both mtu limit low high) refl
  where
    both : (m n : ℕ) → 61 ≤ m → m ≤ n → (leb 61 m && leb m n) ≡ true
    both m n low high = ground arith

-- The listener after both requests.
abbrev pub joined : Listener → Turn → Turn → SocketAddr → ℕ → ℕ → ℕ → Listener
joined l first second client version requested guid =
    admit (forgetting (noted l first client version) client) second.now client guid
      (offered l requested)

module _ (crate : BytesCrate) where
  reply_1_agreed :
      (server : SocketAddr) (requested : ℕ) (rest : List ℕ) (reply : OpenConnectionReply1)
      → read_packet_connection_open_reply_1 crate (6 ∷ rest) ≡ ok reply
      → 61 ≤ reply.mtu_size
      → reply.mtu_size ≤ requested
      → reply_1_round crate server requested server (6 ∷ rest) ≡ agreed reply.mtu_size
  unfolding reply_1_round to_u8
  reply_1_agreed server requested rest reply read low high =
      rw (same_address-IsEquality.reflexive server) (
        ap (λ r. read_reply_1 crate requested r) read
        ∙ within_lem requested reply.mtu_size low high)

  reply_2_agreed :
      (server : SocketAddr) (limit : ℕ) (rest : List ℕ) (reply : OpenConnectionReply2)
      → read_packet_connection_open_reply_2 crate (8 ∷ rest) ≡ ok reply
      → 61 ≤ reply.mtu
      → reply.mtu ≤ limit
      → reply_2_round crate server limit server (8 ∷ rest) ≡ agreed reply.mtu
  unfolding reply_2_round to_u8
  reply_2_agreed server limit rest reply read low high =
      rw (same_address-IsEquality.reflexive server) (
        ap
          (λ kind.
            if is_refusal kind
            then failed connection_closed
            else read_reply_2 crate limit (read_packet_connection_open_reply_2 crate (8 ∷ rest)))
          from-open_connection_reply_2
        ∙ ap (λ r. read_reply_2 crate limit r) read
        ∙ within_lem limit reply.mtu low high)

  -- A client whose two requests are written and answered ends with the size of the answers.
  negotiated_lem :
      (server : SocketAddr) (version requested guid mtu : ℕ) (b1 r1 b2 r2 : List ℕ)
      → (leb 61 requested && leb requested raknet_max_mtu) ≡ true
      → request_1 crate version requested ≡ ok b1
      → reply_1_round crate server requested server r1 ≡ agreed mtu
      → request_2 crate server mtu guid ≡ ok b2
      → reply_2_round crate server mtu server r2 ≡ agreed mtu
      → negotiated crate server version requested guid (some (server, r1) ∷ some (server, r2) ∷ [])
        ≡ some (ok mtu)
  unfolding negotiated await
  negotiated_lem server version requested guid mtu b1 r1 b2 r2 fits w1 a1 w2 a2 = rw fits (
      ap (λ w. first_loop crate server requested guid arrivals w) w1
      ∙ ap
          (λ r.
            second_request crate server guid
              (settle r (await (reply_1_round crate server requested) last) last))
          a1
      ∙ ap (λ w. second_loop crate server mtu last w) w2
      ∙ ap (λ r. result_of (settle r (await (reply_2_round crate server mtu) []) [])) a2)
    where
      last : List (Option (SocketAddr × List ℕ))
      last = some (server, r2) ∷ []

      arrivals : List (Option (SocketAddr × List ℕ))
      arrivals = some (server, r1) ∷ last

  -- Between a client and a listener that has no session for its address, has room for a
  -- connection, fewer than 4096 versions that wait, and a maximum from 61 on that has 16 bits:
  -- where the addresses and both GUIDs are in the ranges of their types, the version is supported,
  -- the requested size is 61 to 1492 and the last reply can be sent, both requests are written and
  -- both are answered, and the client that receives the two answers ends its handshake with the
  -- smaller of the requested and the allowed size, which is also that of the session that the
  -- listener then has for the client, under the GUID of the client.
  pub handshake_agrees :
      (l : Listener) (first second : Turn) (client server : SocketAddr) (version requested guid : ℕ)
      → IsReady l client
      → IsSocketAddr client
      → IsSocketAddr server
      → contains raknet_protocol_version_list version ≡ true
      → 61 ≤ requested
      → requested ≤ raknet_max_mtu
      → guid < 2 ^ 64
      → second.sends ≡ true
      → (b1 : List ℕ) × (r1 : List ℕ) × (b2 : List ℕ) × (r2 : List ℕ) × (request_1 crate version
            requested
          ≡ ok b1)
        × (receive crate l first client b1 ≡ (noted l first client version, (client, r1) ∷ []))
        × (request_2 crate server (offered l requested) guid ≡ ok b2)
        × (receive crate (noted l first client version) second client b2
            ≡ (joined l first second client version requested guid, (client, r2) ∷ []))
        × (negotiated crate server version requested guid
              (some (server, r1) ∷ some (server, r2) ∷ [])
            ≡ some (ok (offered l requested)))
        × (session_of (joined l first second client version requested guid) client
            ≡ some (admitted l guid (offered l requested)))
  unfolding reply_2 try_reserve
  handshake_agrees l first second client server version requested guid ready at_client at_server
        known low high identity sends =
      let (above, below, limited) = offered_between l requested low ready.least in
      let mtu : ℕ = offered l requested in
      let (b1, w1, read1) =
        read_packet_connection_open_request_1-IsWire crate
          (record { protocol_version = version; mtu_size = requested })
          (known_version version known) (omega (arith, low)) (omega (arith, high)) in
      let (r1, v1, heard1) =
        read_packet_connection_open_reply_1-IsWire crate (offer crate l requested) ready.identity
          (omega arith) (omega (arith, limited, ready.size)) in
      let (b2, w2, read2) =
        read_packet_connection_open_request_2-IsWire crate
          (record { address = server; mtu = mtu; guid = guid }) at_server
          (omega (arith, limited, ready.size)) identity in
      let (r2, v2, heard2) =
        read_packet_connection_open_reply_2-IsWire crate
          (record { guid = l.guid; address = client; mtu = mtu; encryption_enabled = 0 }) at_client
          ready.identity (omega (arith, limited, ready.size)) (omega arith) in
      (
        5 ∷ b1,
        6 ∷ r1,
        7 ∷ b2,
        8 ∷ r2,
        w1,
        receive_request_1 crate l first client version requested b1 (6 ∷ r1) known ready.few read1
            v1,
        w2,
        receive_request_2 crate (noted l first client version) second client
            (record { address = on_wire server; mtu = mtu; guid = guid }) b2 (8 ∷ r2) ready.fresh
            ready.room above limited sends read2 v2,
        negotiated_lem server version requested guid mtu (5 ∷ b1) (6 ∷ r1) (7 ∷ b2) (8 ∷ r2)
            (ground arith) w1
            (reply_1_agreed server requested r1 (offer crate l requested) heard1 above below) w2
            (reply_2_agreed server mtu r2
              (record {
                guid = l.guid;
                address = on_wire client;
                mtu = mtu;
                encryption_enabled = 0;
              })
              heard2 above (omega arith)),
        elim (session_of-admit (forgetting (noted l first client version) client) second.now client
            guid mtu client) [
              | inl (same, e) ↦ e
              | inr (other, e) ↦ absurd (let g = same_address-IsEquality.reflexive client in cc)
            ],
      )
