-- ===== src/Connection/Stream.antt =====
-- On the messages of the game on their way to the application.
use rust_raknet.Prelude.{
  ℕ, ◌≡◌, refl, sym, ap, ◌∙◌, inl, inr, Bool, true, false, List, [], ◌∷◌, ◌++◌, map, length, All,
  arith, append_assoc, append-nil, Bool-cases, ltb, ◌==◌, if◌then◌else◌,
}
use rust_raknet.Bytes.{BytesCrate}
use rust_raknet.Frame.Packet.{FrameSetPacket, deref}
use rust_raknet.Connection.State.{Connection, Turn, user_capacity}
use rust_raknet.Connection.Deliver.{is_game, Delivered, hold, to_application, deliver_one, deliver}
use rust_raknet.Connection.Receiver.{give_pending, front_to_user}

swap :
    (front back : List (List ℕ)) (m : List ℕ)
    → (length back == 0) ≡ true
    → (front ++ (m ∷ [])) ++ back ≡ (front ++ back) ++ (m ∷ [])
swap front [] m h =
    append-nil (front ++ (m ∷ [])) ∙ ap (λ xs. xs ++ (m ∷ [])) (sym (append-nil front))
swap front (b ∷ back) m h = absurd (ground (arith, h))

module _ {H : Type 0} (bytes_deref : H → List ℕ) where
  -- What the application still gets: the messages of the channel, then those that wait for it.
  abbrev pub stream : Connection bytes_deref → List (List ℕ)
  stream c = c.user_data ++ c.pending_data

  abbrev pub payload_of : FrameSetPacket H → List ℕ
  payload_of frame = deref bytes_deref frame.payload

  abbrev pub IsGame : FrameSetPacket H → Type 0
  IsGame frame = is_game (payload_of frame) ≡ true

module _ (crate : BytesCrate) {H : Type 0} (bytes_deref : H → List ℕ)
    (bytes_slice : H → ℕ → ℕ → H) where
  abbrev Taken : Connection bytes_deref → List ℕ → Delivered crate bytes_deref bytes_slice → Type 0
  Taken c m delivered =
      (c' : Connection bytes_deref) × (delivered ≡ (false, (c', [])))
      × (stream bytes_deref c' ≡ stream bytes_deref c ++ (m ∷ []))
      × (c'.user_receiving ≡ true)

  held :
      (c : Connection bytes_deref) (m : List ℕ)
      → stream bytes_deref (hold crate bytes_deref bytes_slice c m)
        ≡ stream bytes_deref c ++ (m ∷ [])
  held c m = sym (append_assoc c.user_data c.pending_data (m ∷ []))

  to_application_lem :
      (c : Connection bytes_deref) (m : List ℕ)
      → c.user_receiving ≡ true
      → Taken c m (to_application crate bytes_deref bytes_slice c m)
  unfolding to_application
  to_application_lem c m there = elim (Bool-cases (length c.pending_data == 0)) [
    | inr e ↦ (hold crate bytes_deref bytes_slice c m, rw e refl, held c m, there)
    | inl e ↦ elim (Bool-cases (ltb (length c.user_data) user_capacity)) [
      | inr f ↦ (hold crate bytes_deref bytes_slice c m, rw (e, there, f) refl, held c m, there)
      | inl f ↦ (
        record c { user_data = c.user_data ++ (m ∷ []) },
        rw (e, there, f) refl,
        swap c.user_data c.pending_data m e,
        there,
      )
    ]
  ]

  -- Where the application still receives and every ready frame is a message of the game, the
  -- messages of the channel and those that wait for room in it, in this order, are after the
  -- delivery those before it and the payloads of the frames behind them, and nothing is sent.
  pub deliver-stream :
      (turn : Turn bytes_deref) (ready : List (FrameSetPacket H)) (c : Connection bytes_deref)
      → All (IsGame bytes_deref) ready
      → c.user_receiving ≡ true
      → (stream bytes_deref (deliver crate bytes_deref bytes_slice turn ready c).0
          ≡ stream bytes_deref c ++ map (payload_of bytes_deref) ready)
        × ((deliver crate bytes_deref bytes_slice turn ready c).1 ≡ [])
  unfolding deliver deliver_one
  deliver-stream turn [] c games there = (sym (append-nil (stream bytes_deref c)), refl)
  deliver-stream turn (frame ∷ ready) c (game, games) there =
      let (c', e, moved, still) = to_application_lem c (payload_of bytes_deref frame) there in
      let (rest, silent) = deliver-stream turn ready c' games still in
      (
        rw (game, e)
            (rest
              ∙ ap (λ xs. xs ++ map (payload_of bytes_deref) ready) moved
              ∙ append_assoc (stream bytes_deref c) (payload_of bytes_deref frame ∷ [])
                  (map (payload_of bytes_deref) ready)),
        rw (game, e) silent,
      )

  front_to_user-stream :
      (c : Connection bytes_deref) (messages : List (List ℕ))
      → c.pending_data ≡ messages
      → stream bytes_deref (front_to_user crate bytes_deref bytes_slice c messages)
        ≡ stream bytes_deref c
  front_to_user-stream c [] h = refl
  front_to_user-stream c (m ∷ messages) h =
      append_assoc c.user_data (m ∷ []) messages ∙ ap (λ xs. c.user_data ++ xs) (sym h)

  if-stream :
      (b : Bool) (c d : Connection bytes_deref) {messages : List (List ℕ)}
      → stream bytes_deref c ≡ messages
      → stream bytes_deref d ≡ messages
      → stream bytes_deref (if b then c else d) ≡ messages
  if-stream true c d hc hd = hc
  if-stream false c d hc hd = hd

  pub give_pending-stream :
      (c : Connection bytes_deref)
      → stream bytes_deref (give_pending crate bytes_deref bytes_slice c) ≡ stream bytes_deref c
  unfolding give_pending
  give_pending-stream c =
      if-stream c.user_receiving _ _
        (if-stream (ltb (length c.user_data) user_capacity) _ _
          (front_to_user-stream c c.pending_data refl) refl)
        refl
