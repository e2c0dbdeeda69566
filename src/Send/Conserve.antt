-- ===== src/Send/Conserve.antt =====
-- On the frames that `flush` of `SendQ` holds.
use rust_raknet.Prelude.{
  ℕ, ◌+◌, ◌≡◌, refl, ap, ◌∙◌, inl, inr, Bool, true, false, none, List, [], ◌∷◌, length, arith,
  Bool-cases,
}
use rust_raknet.Frame.Packet.{FrameSetPacket, is_reliable}
use rust_raknet.Send.Queue.{SendQ, SentPacket}
use rust_raknet.Send.Tick.{tick}
use rust_raknet.Send.Flush.{
  Burst, joins, numbered, send_reliable, send_unreliable, send_front, window_full, or_false,
  sort_flight, resend_pending, flush,
}
use rust_raknet.Send.Kept.{send_loop-kept}
use rust_raknet.Send.Tally.{
  one_if, IsBlind, tally, tally_sent, held, tally-append, tally_sent-append, resent_items-tally,
  held-tick, held-sort_flight,
}

module _ {H : Type 0} where
  -- Only reliable frames pass the test, whatever their sequence numbers are.
  pub record IsReliableTest (p : FrameSetPacket H → Bool) : Type 0 where
    pub blind : IsBlind p
    pub reliable :
        (frame : FrameSetPacket H) → or_false (is_reliable frame) ≡ false → p frame ≡ false

  -- What the choice of a number leaves as it was.
  abbrev pub flight : SendQ H → List (FrameSetPacket H) × List (SentPacket H) × ℕ × ℕ × Bool × ℕ
  flight q = (q.packets, q.sent_packet, q.rto, q.next_retry, q.retries_pending, q.buffered_bytes)

module _ {H : Type 0} (bytes_deref : H → List ℕ) where
  pub numbered-flight :
      (b : Burst H) (packet : FrameSetPacket H)
      → flight (numbered bytes_deref b packet).0.queue ≡ flight b.queue
  unfolding numbered
  numbered-flight b packet = elim (Bool-cases b.queue.coalesce) [
    | inl e ↦ elim (Bool-cases (joins bytes_deref b packet)) [
      | inl f ↦ rw (e, f) refl
      | inr f ↦ rw (e, f) refl
    ]
    | inr e ↦ rw e refl
  ]

  pub numbered-frame :
      (b : Burst H) (packet : FrameSetPacket H)
      → (numbered bytes_deref b packet).1
        ≡ record packet { sequence_number = (numbered bytes_deref b packet).1.sequence_number }
  unfolding numbered
  numbered-frame b packet = elim (Bool-cases b.queue.coalesce) [
    | inl e ↦ elim (Bool-cases (joins bytes_deref b packet)) [
      | inl f ↦ rw (e, f) refl
      | inr f ↦ rw (e, f) refl
    ]
    | inr e ↦ rw e refl
  ]

  held-send_reliable :
      (p : FrameSetPacket H → Bool) (now : ℕ) (bp : Burst H × FrameSetPacket H)
      → held p (send_reliable now bp).queue ≡ held p bp.0.queue + one_if (p bp.1)
  unfolding send_reliable held tally_sent
  held-send_reliable p now bp = omega (
    arith,
    tally_sent-append p bp.0.queue.sent_packet
        (record { frame = bp.1; in_flight = true; time = now; retries = 0; prior = [] } ∷ []),
  )

  pub numbered-held :
      (p : FrameSetPacket H → Bool) (b : Burst H) (packet : FrameSetPacket H)
      → held p (numbered bytes_deref b packet).0.queue ≡ held p b.queue
  unfolding held
  numbered-held p b packet =
      let e = numbered-flight b packet in rw (ap (λ f. f.0) e, ap (λ f. f.1) e) refl

  pub numbered_test :
      (p : FrameSetPacket H → Bool) (b : Burst H) (packet : FrameSetPacket H)
      → IsBlind p
      → p (numbered bytes_deref b packet).1 ≡ p packet
  unfolding IsBlind
  numbered_test p b packet blind =
      ap p (numbered-frame b packet)
      ∙ blind packet (numbered bytes_deref b packet).1.sequence_number

  held-send_unreliable :
      (p : FrameSetPacket H → Bool) (bp : Burst H × FrameSetPacket H)
      → held p (send_unreliable bytes_deref bp).queue ≡ held p bp.0.queue
  unfolding send_unreliable held
  held-send_unreliable p bp = refl

  -- A round keeps the reliable frames.
  send_front-held :
      (p : FrameSetPacket H → Bool) (now : ℕ) (b : Burst H) (packet : FrameSetPacket H)
      (rest : List (FrameSetPacket H))
      → IsReliableTest p
      → b.queue.packets ≡ packet ∷ rest
      → held p (send_front bytes_deref now b packet rest).queue ≡ held p b.queue
  unfolding send_front
  send_front-held p now b packet rest t e =
      let popped : Burst H = record b { queue = record b.queue { packets = rest } } in
      let n = numbered bytes_deref popped packet in
      let kept = numbered-held p popped packet in
      let test = ap one_if (numbered_test p popped packet t.blind) in
      let front : held p b.queue
          ≡ one_if (p packet) + tally p rest + tally_sent p b.queue.sent_packet =
        unfold held in rw e (unfold tally in refl) in
      elim (Bool-cases (or_false (is_reliable packet))) [
        | inl f ↦ elim (Bool-cases (window_full b.queue)) [
          | inl g ↦
              rw (f, g)
                (unfold held tally in omega (arith, front, tally-append p rest (packet ∷ [])))
          | inr g ↦
              rw (f, g)
                (unfold held in omega (arith, front, kept, test, held-send_reliable p now n))
        ]
        | inr f ↦ rw f (
            unfold held in
            omega
              (arith, front, kept, test, ap one_if (t.reliable packet f), held-send_unreliable p n))
      ]

  held-resend_pending :
      (p : FrameSetPacket H → Bool) (q : SendQ H) (now : ℕ)
      → held p (resend_pending q now).0 ≡ held p q
  unfolding resend_pending held
  held-resend_pending p q now = elim (Bool-cases q.retries_pending) [
    | inl e ↦ rw e (ap (λ n. tally p q.packets + n) (resent_items-tally p now q.sent_packet))
    | inr e ↦ rw e refl
  ]

  -- flush neither loses nor doubles a reliable frame: for any test that does not look at sequence
  -- numbers and that only reliable frames pass, as many frames that pass it wait or are in flight
  -- after flush as before.
  pub held-flush :
      (p : FrameSetPacket H → Bool) (q : SendQ H) (now : ℕ)
      → IsReliableTest p
      → held p (flush bytes_deref q now).1 ≡ held p q
  unfolding flush
  held-flush p q now t =
      let resending = (resend_pending (sort_flight (tick q now)) now).0 in
      send_loop-kept bytes_deref (λ b. held p b.queue ≡ held p resending) now
        (λ b packet rest e h. send_front-held p now b packet rest t e ∙ h)
        (length resending.packets)
        (record {
          queue = resending;
          output = record {
            frames = (resend_pending (sort_flight (tick q now)) now).1;
            coalesced = false;
          };
          group_sequence = none;
          group_bytes = 0;
          group_frames = 0;
        })
        refl
      ∙ held-resend_pending p (sort_flight (tick q now)) now
      ∙ held-sort_flight p (tick q now)
      ∙ held-tick p q now t.blind
