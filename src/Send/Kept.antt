-- ===== src/Send/Kept.antt =====
-- What a property of the queue needs to be kept by acknowledgements and by rounds of `flush`.
use rust_raknet.Prelude.{
  ℕ, zero, suc, ◌≤◌, ◌≡◌, refl, inl, inr, ◌&&◌, List, [], ◌∷◌, length, All, ◌==◌, if◌then◌else◌,
  arith, Bool-cases, ==_refl,
}
use rust_raknet.Sequence.{distance}
use rust_raknet.Frame.Packet.{FrameSetPacket}
use rust_raknet.Send.TimingLaws.{IsTimeout}
use rust_raknet.Send.Queue.{SendQ, SentPacket}
use rust_raknet.Send.Nacks.{nack, nack_all, advance, skipped}
use rust_raknet.Send.Flush.{Burst, send_front, send_next, send_loop, window_full}

pub same_timeout : (rto n : ℕ) → n ≡ (if rto == rto then n else 0)
same_timeout rto n = rw (==_refl rto) refl

module _ {H : Type 0} where
  -- A list of packets that were taken from another: what holds of all there holds of all here.
  pub record IsPart (items from : List (SentPacket H)) : Type 1 where
    pub keeps : (P : SentPacket H → Type 0) → All P from → All P items
    pub shorter : length items ≤ length from

  -- The packets of `q'` are some of those of `q`, and a new timeout resets `next_retry`.
  pub record IsShrunk (q q' : SendQ H) : Type 1 where
    pub part : IsPart q'.sent_packet q.sent_packet
    pub next_retry : q'.next_retry ≡ (if q'.rto == q.rto then q.next_retry else 0)
    pub retries_pending : q'.retries_pending ≡ q.retries_pending
    pub buffered_bytes : q'.buffered_bytes ≤ q.buffered_bytes
    pub rto : IsTimeout q.rto → IsTimeout q'.rto

  pub record IsKept (I : SendQ H → Type 0) : Type 1 where
    pub shrunk : (q q' : SendQ H) → IsShrunk q q' → I q → I q'
    pub nacked : (q : SendQ H) (sequence time : ℕ) → I q → I (nack q sequence time)

  pub all_part : (items : List (SentPacket H)) → IsPart items items
  all_part items = record { keeps = λ P a. a; shorter = omega arith }

  pub nack_all-kept :
      (I : SendQ H → Type 0) (kept : IsKept I) (q : SendQ H) (ids : List ℕ) (time : ℕ)
      → I q
      → I (nack_all q ids time)
  unfolding nack_all
  nack_all-kept I kept q [] time h = h
  nack_all-kept I kept q (id ∷ ids) time h =
      nack_all-kept I kept (nack q id time) ids time (kept.nacked q id time h)

  pub advance-kept :
      (I : SendQ H → Type 0) (kept : IsKept I) (q : SendQ H) (newest time : ℕ)
      → I q
      → I (advance q newest time)
  unfolding advance
  advance-kept I kept q newest time h =
      let ids =
        skipped q.sent_packet q.ack_sequence_number (distance newest q.ack_sequence_number) in
      let nacked = nack_all q ids time in
      kept.shrunk nacked _
        (record {
          part = all_part nacked.sent_packet;
          next_retry = same_timeout nacked.rto nacked.next_retry;
          retries_pending = refl;
          buffered_bytes = omega arith;
          rto = λ h. h;
        })
        (nack_all-kept I kept q ids time h)

module _ {H : Type 0} (bytes_deref : H → List ℕ) where
  -- The loop of `flush` keeps what each of its rounds keeps.
  module _ (I : Burst H → Type 0) (now : ℕ)
      (round : (b : Burst H) (packet : FrameSetPacket H) (rest : List (FrameSetPacket H))
        → b.queue.packets ≡ packet ∷ rest
        → I b
        → I (send_front bytes_deref now b packet rest)) where
    next_kept :
        (b : Burst H) (packets : List (FrameSetPacket H)) (go_on : Burst H → Burst H)
        → b.queue.packets ≡ packets
        → I b
        → ((b' : Burst H) → I b' → I (go_on b'))
        → I (send_next bytes_deref now b packets go_on)
    next_kept b [] go_on e h ih = h
    next_kept b (packet ∷ rest) go_on e h ih =
        ih (send_front bytes_deref now b packet rest) (round b packet rest e h)

    pub send_loop-kept : (rounds : ℕ) (b : Burst H) → I b → I (send_loop bytes_deref rounds now b)
    unfolding send_loop
    send_loop-kept zero b h = h
    send_loop-kept (suc rounds) b h =
        elim (Bool-cases (window_full b.queue && (b.queue.queued_unreliable == 0))) [
          | inl e ↦ rw e h
          | inr e ↦ rw e (
              next_kept b b.queue.packets (send_loop bytes_deref rounds now) refl h
                (λ b' h'. send_loop-kept rounds b' h'))
        ]
