-- ===== src/Connection/ConnectLaws.antt =====
-- On the size that the handshake of a client ends with.
use rust_raknet.Prelude.{
  ℕ, ◌≡◌, ◌≤◌, refl, ap, inl, inr, Bool, true, false, not, ◌&&◌, Option, none, some, List, [], ◌∷◌,
  arith, Bool-cases, leb, ◌==◌, if◌then◌else◌,
}
use rust_raknet.Error.{RaknetError, Result, ok, err}
use rust_raknet.Bytes.{BytesCrate}
use rust_raknet.Datatype.Address.{SocketAddr}
use rust_raknet.Packet.Id.{
  from, to_u8, open_connection_reply_1, open_connection_reply_2, incompatible_protocol_version,
}
use rust_raknet.Packet.OpenConnection.{
  OpenConnectionReply1, OpenConnectionReply2, read_packet_connection_open_reply_1,
  read_packet_connection_open_reply_2, write_packet_connection_open_request_1,
  write_packet_connection_open_request_2,
}
use rust_raknet.Settings.{raknet_max_mtu}
use rust_raknet.Server.Address.{same_address}
use rust_raknet.Connection.Connect.{
  Arrival, Round, retry, failed, agreed, within, settle, await, is_refusal, read_reply_1,
  reply_1_round, read_reply_2, reply_2_round, result_of, second_loop, second_request, first_loop,
  negotiated,
}

-- A round that ends with a size ends with one between 61 and the limit.
abbrev pub IsWithin : ℕ → Round → Type 0
IsWithin limit r = (mtu : ℕ) → r ≡ agreed mtu → (61 ≤ mtu) × (mtu ≤ limit)

agreed_eq : {m n : ℕ} → agreed m ≡ agreed n → m ≡ n
agreed_eq h = cc

pub within-IsWithin : (limit n : ℕ) → IsWithin limit (within limit n)
within-IsWithin limit n mtu = elim (Bool-cases (leb 61 n && leb n limit)) [
  | inl e ↦ rw e (λ h. let same = agreed_eq h in (both n limit mtu same e))
  | inr e ↦ rw e (λ h. absurd cc)
]
  where
    both :
        (n limit mtu : ℕ) → n ≡ mtu → (leb 61 n && leb n limit) ≡ true → (61 ≤ mtu) × (mtu ≤ limit)
    both n limit mtu same h = (ground arith, ground arith)

-- Of the branches of a test.
if-IsWithin :
    (limit : ℕ) (b : Bool) {r s : Round}
    → IsWithin limit r
    → IsWithin limit s
    → IsWithin limit (if b then r else s)
if-IsWithin limit true hr hs = hr
if-IsWithin limit false hr hs = hs

retry-IsWithin : (limit : ℕ) → IsWithin limit retry
retry-IsWithin limit mtu h = absurd cc

failed-IsWithin : (limit : ℕ) (e : RaknetError) → IsWithin limit (failed e)
failed-IsWithin limit e mtu h = absurd cc

module _ (crate : BytesCrate) where
  read_reply_1-IsWithin :
      (limit : ℕ) (r : Result OpenConnectionReply1) → IsWithin limit (read_reply_1 crate limit r)
  read_reply_1-IsWithin limit (err e) = failed-IsWithin limit _
  read_reply_1-IsWithin limit (ok reply) = within-IsWithin limit reply.mtu_size

  read_reply_2-IsWithin :
      (limit : ℕ) (r : Result OpenConnectionReply2) → IsWithin limit (read_reply_2 crate limit r)
  read_reply_2-IsWithin limit (err e) = failed-IsWithin limit _
  read_reply_2-IsWithin limit (ok reply) = within-IsWithin limit reply.mtu

  pub reply_1_round-IsWithin :
      (addr : SocketAddr) (limit : ℕ) (source : SocketAddr) (buf : List ℕ)
      → IsWithin limit (reply_1_round crate addr limit source buf)
  unfolding reply_1_round
  reply_1_round-IsWithin addr limit source [] = retry-IsWithin limit
  reply_1_round-IsWithin addr limit source (first ∷ rest) =
      if-IsWithin limit (not (same_address source addr)) (retry-IsWithin limit) (
        if-IsWithin limit (first == to_u8 open_connection_reply_1)
          (read_reply_1-IsWithin limit (read_packet_connection_open_reply_1 crate (first ∷ rest)))
          (if-IsWithin limit (first == to_u8 incompatible_protocol_version)
            (failed-IsWithin limit _) (retry-IsWithin limit)))

  pub reply_2_round-IsWithin :
      (addr : SocketAddr) (limit : ℕ) (source : SocketAddr) (buf : List ℕ)
      → IsWithin limit (reply_2_round crate addr limit source buf)
  unfolding reply_2_round
  reply_2_round-IsWithin addr limit source [] = retry-IsWithin limit
  reply_2_round-IsWithin addr limit source (first ∷ rest) =
      if-IsWithin limit (not (same_address source addr)) (retry-IsWithin limit) (
        if-IsWithin limit (first == to_u8 open_connection_reply_1) (retry-IsWithin limit) (
          if-IsWithin limit (is_refusal (from first)) (failed-IsWithin limit _) (
            if-IsWithin limit (not (first == to_u8 open_connection_reply_2)) (retry-IsWithin limit)
              (read_reply_2-IsWithin limit
                (read_packet_connection_open_reply_2 crate (first ∷ rest))))))

-- A loop ends with a size between the limits of its rounds.
abbrev EndsWithin : ℕ → Option (Result ℕ × List Arrival) → Type 0
EndsWithin limit ended =
    (mtu : ℕ) (left : List Arrival) → ended ≡ some (ok mtu, left) → (61 ≤ mtu) × (mtu ≤ limit)

settle-EndsWithin :
    (limit : ℕ) (r : Round) (again : Option (Result ℕ × List Arrival)) (arrivals : List Arrival)
    → IsWithin limit r
    → EndsWithin limit again
    → EndsWithin limit (settle r again arrivals)
settle-EndsWithin limit retry again arrivals hr ha mtu left h = ha mtu left h
settle-EndsWithin limit (failed e) again arrivals hr ha mtu left h = absurd cc
settle-EndsWithin limit (agreed n) again arrivals hr ha mtu left h =
    let same : n ≡ mtu = cc in hr mtu (ap agreed same)

await-EndsWithin :
    (limit : ℕ) (round : SocketAddr → List ℕ → Round)
    → ((source : SocketAddr) (buf : List ℕ) → IsWithin limit (round source buf))
    → (arrivals : List Arrival) → EndsWithin limit (await round arrivals)
unfolding await
await-EndsWithin limit round hr [] = λ mtu left h. absurd cc
await-EndsWithin limit round hr (none ∷ arrivals) = await-EndsWithin limit round hr arrivals
await-EndsWithin limit round hr (some (source, buf) ∷ arrivals) =
    settle-EndsWithin limit (round source buf) (await round arrivals) arrivals (hr source buf)
      (await-EndsWithin limit round hr arrivals)

module _ (crate : BytesCrate) where
  second_loop_within :
      (addr : SocketAddr) (limit : ℕ) (arrivals : List Arrival) (r : Result (List ℕ)) (mtu : ℕ)
      → second_loop crate addr limit arrivals r ≡ some (ok mtu)
      → (61 ≤ mtu) × (mtu ≤ limit)
  second_loop_within addr limit arrivals (err e) mtu = λ h. absurd cc
  second_loop_within addr limit arrivals (ok request) mtu =
      ended (await (reply_2_round crate addr limit) arrivals) (
        await-EndsWithin limit (reply_2_round crate addr limit)
          (reply_2_round-IsWithin crate addr limit) arrivals)
    where
      ended :
          (r : Option (Result ℕ × List Arrival))
          → EndsWithin limit r
          → result_of r ≡ some (ok mtu)
          → (61 ≤ mtu) × (mtu ≤ limit)
      ended none bound h = absurd cc
      ended (some (result, left)) bound h =
          let same : result ≡ ok mtu = cc in bound mtu left (ap (λ x. some (x, left)) same)

  second_request_within :
      (addr : SocketAddr) (limit guid : ℕ) (r : Option (Result ℕ × List Arrival)) (mtu : ℕ)
      → EndsWithin limit r
      → second_request crate addr guid r ≡ some (ok mtu)
      → (61 ≤ mtu) × (mtu ≤ limit)
  second_request_within addr limit guid none mtu bound h = absurd cc
  second_request_within addr limit guid (some (err e, left)) mtu bound h = absurd cc
  second_request_within addr limit guid (some (ok n, left)) mtu bound h =
      let (low, high) = bound n left refl in
      let (above, below) =
        second_loop_within addr n left
          (write_packet_connection_open_request_2 crate
            (record { address = addr; mtu = n; guid = guid }))
          mtu h in
      (above, omega (arith, below, high))

  first_loop_within :
      (addr : SocketAddr) (limit guid : ℕ) (arrivals : List Arrival) (r : Result (List ℕ)) (mtu : ℕ)
      → first_loop crate addr limit guid arrivals r ≡ some (ok mtu)
      → (61 ≤ mtu) × (mtu ≤ limit)
  first_loop_within addr limit guid arrivals (err e) mtu = λ h. absurd cc
  first_loop_within addr limit guid arrivals (ok request) mtu =
      second_request_within addr limit guid (await (reply_1_round crate addr limit) arrivals) mtu (
        await-EndsWithin limit (reply_1_round crate addr limit)
          (reply_1_round-IsWithin crate addr limit) arrivals)

  -- Whatever datagrams arrive from wherever, a handshake of a client that ends with a size ends
  -- with one that is at least 61 and at most the requested one, which is at most 1492.
  pub negotiated_within :
      (addr : SocketAddr) (version requested guid : ℕ) (arrivals : List Arrival) (mtu : ℕ)
      → negotiated crate addr version requested guid arrivals ≡ some (ok mtu)
      → (61 ≤ mtu) × (mtu ≤ requested) × (requested ≤ raknet_max_mtu)
  unfolding negotiated
  negotiated_within addr version requested guid arrivals mtu =
      elim (Bool-cases (leb 61 requested && leb requested raknet_max_mtu)) [
        | inr e ↦ rw e (λ h. absurd cc)
        | inl e ↦ rw e (λ h.
            let (above, below) =
              first_loop_within addr requested guid arrivals
                (write_packet_connection_open_request_1 crate
                  (record { protocol_version = version; mtu_size = requested }))
                mtu h in
            (above, below, ground (arith, e)))
      ]
