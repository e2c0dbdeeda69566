-- ===== src/Send/Tests.antt =====
-- The theorems on the sending half at a concrete queue.
use rust_raknet.Prelude.{
  ℕ, zero, suc, ◌-◌, ◌≤◌, ◌≡◌, refl, Bool, none, List, [], ◌∷◌, ◌++◌, take, drop, ◌==◌, ◌&&◌, arith,
}
use rust_raknet.Error.{Result, ok, err}
use rust_raknet.Frame.Reliability.{reliable_ordered, flags_of}
use rust_raknet.Frame.Packet.{FrameSetPacket, from_payload, new, is_reliable}
use rust_raknet.Receive.Fragment.{Fragment, full, merge}
use rust_raknet.Receive.MergeLaws.{AreThere}
use rust_raknet.Send.Timing.{rto_lbound, rto_ubound, retry_timeout}
use rust_raknet.Send.Queue.{SendQ, SendQ_new, max_payload, required_bytes, frame_count}
use rust_raknet.Send.Insert.{insert_payload, fragment}
use rust_raknet.Send.Tick.{tick, tick_all}
use rust_raknet.Send.Flush.{or_false, flush}
use rust_raknet.Send.Acks.{in_ranges, nack_ranges}
use rust_raknet.Send.Nacked.{IsNacked}
use rust_raknet.Send.NackedRanges.{nack_ranges-IsNacked}
use rust_raknet.Send.Tally.{IsBlind, tally, held}
use rust_raknet.Send.Conserve.{IsReliableTest, held-flush}
use rust_raknet.Send.Parts.{IsSlice}
use rust_raknet.Send.Queued.{joined}
use rust_raknet.Send.Delivery.{insert_payload-joined, merge-fragment}
use rust_raknet.Send.Liveness.{tally_where, is_due}
use rust_raknet.Send.PendingFlush.{IsFlying}
use rust_raknet.Send.Steps.{
  inserted, flushed, Reached, fresh, after, IsSound, Reached-IsSound, tick-Reached, flush-Reached,
  flush_due-Reached, retry_timeout-Reached,
}

abbrev handle : List ℕ → List ℕ
handle content = content

abbrev slice : List ℕ → ℕ → ℕ → List ℕ
slice content start end = take (end - start) (drop start content)

slice-IsSlice : IsSlice handle slice
slice-IsSlice content start end h k = refl

-- A queue for frames of 10 bytes, and a message in three fragments.
abbrev started : SendQ (List ℕ)
started = SendQ_new 70

abbrev message : List ℕ
message =
    1 ∷ 2 ∷ 3 ∷ 4 ∷ 5 ∷ 6 ∷ 7 ∷ 8 ∷ 9 ∷ 10 ∷ 11 ∷ 12 ∷ 13 ∷ 14 ∷ 15 ∷ 16 ∷ 17 ∷ 18 ∷ 19 ∷ 20 ∷ 21
    ∷ []

abbrev queue_of : Result (SendQ (List ℕ)) → SendQ (List ℕ)
queue_of (ok q) = q
queue_of (err e) = started

abbrev queued : SendQ (List ℕ)
queued = queue_of (insert_payload handle slice started reliable_ordered message 0 none)

queued_lem : insert_payload handle slice started reliable_ordered message 0 none ≡ ok queued
unfolding insert_payload required_bytes max_payload frame_count
queued_lem = refl

abbrev sent : SendQ (List ℕ)
sent = (flush handle queued 1).1

sent-Reached : Reached handle slice sent
sent-Reached =
    after queued sent
      (after started queued (fresh 70)
        (inserted started queued reliable_ordered message 0 none queued_lem))
      (flushed queued 1)

Reached-IsSound_example : IsSound handle slice sent
Reached-IsSound_example = Reached-IsSound handle slice sent sent-Reached

tick-Reached_example :
    record (tick sent 100) { next_retry = 0 } ≡ record (tick_all sent 100) { next_retry = 0 }
tick-Reached_example = tick-Reached handle slice sent 100 sent-Reached

flush-Reached_example : IsFlying (flush handle sent 100).1
flush-Reached_example = flush-Reached handle slice sent 100 sent-Reached

abbrev second_reliable : FrameSetPacket (List ℕ) → Bool
second_reliable frame = or_false (is_reliable frame) && (frame.reliable_frame_index == 1)

second-IsBlind : IsBlind second_reliable
unfolding IsBlind is_reliable
second-IsBlind frame n = refl

flush_due-Reached_example :
    tally_where (is_due sent.rto 100) second_reliable sent.sent_packet
    ≤ tally second_reliable (flush handle sent 100).0.frames
flush_due-Reached_example =
    flush_due-Reached handle slice second_reliable sent 100 second-IsBlind sent-Reached

second-IsReliableTest : IsReliableTest second_reliable
second-IsReliableTest = record { blind = second-IsBlind; reliable = λ frame e. rw e refl }

held-flush_example : held second_reliable (flush handle queued 1).1 ≡ held second_reliable queued
held-flush_example = held-flush handle second_reliable queued 1 second-IsReliableTest

insert_payload-joined_example :
    joined handle slice queued.packets ≡ joined handle slice started.packets ++ message
insert_payload-joined_example =
    insert_payload-joined handle slice started queued reliable_ordered message 0 none slice-IsSlice
      tt (omega arith) queued_lem

abbrev part : ℕ → FrameSetPacket (List ℕ)
part = fragment handle slice started message none 0 10 3 0

abbrev arrived : Fragment handle
arrived = record {
  flags = 0x70;
  compound_size = 3;
  ordered_frame_index = 0;
  order_channel = 0;
  frames = (2, part 2) ∷ (0, part 0) ∷ (1, part 1) ∷ [];
  bytes = 405;
  updated = 7;
}

arrived-AreThere : AreThere handle arrived.frames part 3 0
arrived-AreThere zero lo hi = refl
arrived-AreThere (suc zero) lo hi = refl
arrived-AreThere (suc (suc zero)) lo hi = refl
arrived-AreThere (suc (suc (suc i))) lo hi = absurd (omega arith)

merge-fragment_example :
    merge handle arrived
    ≡ ok (record (new handle reliable_ordered message) {
      ordered_frame_index = 0;
      order_channel = 0;
      sequence_number = (part 2).sequence_number;
    })
merge-fragment_example =
    merge-fragment handle slice started message none 0 10 0 arrived part slice-IsSlice tt
      (omega arith) (omega arith) (omega arith) (unfold full in refl) refl
      (unfold fragment from_payload flags_of in refl) arrived-AreThere (λ i. refl)

retry_timeout-Reached_example :
    (rto_lbound ≤ retry_timeout sent.rto 3) × (retry_timeout sent.rto 3 ≤ rto_ubound)
retry_timeout-Reached_example = retry_timeout-Reached handle slice sent 3 sent-Reached

nack_ranges-IsNacked_example :
    IsNacked (in_ranges handle ((0, 1) ∷ [])) 30 sent (nack_ranges handle sent ((0, 1) ∷ []) 30)
nack_ranges-IsNacked_example = nack_ranges-IsNacked handle sent ((0, 1) ∷ []) 30
