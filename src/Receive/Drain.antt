-- ===== src/Receive/Drain.antt =====
-- The loop of `RecvQ::insert` of src/arq.rs behind an ordered frame: the run of frames that it
-- takes out of the reordering table.
use rust_raknet.Prelude.{
  ℕ, zero, suc, ◌+◌, ◌≤◌, ◌≡◌, refl, sym, ap, subst, ◌∙◌, inl, inr, none, some, List, [], ◌∷◌, ◌++◌,
  length, ◌==◌, if◌then◌else◌, arith, Bool-cases, Option-cases, length-append, append-nil,
  append_assoc, ==_refl, ==_iff,
}
use rust_raknet.Prelude.Maps.{get, without}
use rust_raknet.Sequence.{next}
use rust_raknet.Sequence.Order.{steps}
use rust_raknet.Frame.Packet.{FrameSetPacket}
use rust_raknet.Receive.Channels.{index_of}
use rust_raknet.Receive.ChannelLaws.{index_of-set_index}
use rust_raknet.Receive.Queue.{
  RecvQ, same_key, take_ordered, make_ready, drain_round, drain_ordered, ordered_count,
}
use rust_raknet.Prelude.MapTotals.{length-without_found}
use rust_raknet.Receive.Run.{
  steps_next, among, total_length, Consecutive, Consecutive-without, get-longer,
}

module _ {H : Type 0} (bytes_deref : H → List ℕ) where
  -- What the loop makes of a queue: `frames` are the run that waited from the channel's index on.
  pub record Drained (channel : ℕ) (q q' : RecvQ bytes_deref) : Type 0 where
    pub frames : List (FrameSetPacket H)
    pub in_order :
        Consecutive bytes_deref q.ordered_packets channel
          (index_of q.last_ordered_indexes channel)
          frames
    pub ready_lem : q'.ready_ordered ≡ q.ready_ordered ++ frames
    pub bytes_lem : q'.ready_bytes ≡ q.ready_bytes + total_length bytes_deref frames
    pub index_lem :
        (c : ℕ)
        → index_of q'.last_ordered_indexes c ≡ (
            if channel == c
            then steps (length frames) (index_of q.last_ordered_indexes channel)
            else index_of q.last_ordered_indexes c)
    pub left_lem :
        (key : ℕ × ℕ)
        → get same_key q'.ordered_packets key ≡ (
            if among channel (index_of q.last_ordered_indexes channel) (length frames) key
            then none
            else get same_key q.ordered_packets key)
    pub end_lem :
        get same_key q'.ordered_packets
          (channel, steps (length frames) (index_of q.last_ordered_indexes channel))
        ≡ none
    pub count_lem : ordered_count bytes_deref q' ≤ ordered_count bytes_deref q
    pub rest_lem : q' ≡ record q {
      ready_ordered = q'.ready_ordered;
      ready_bytes = q'.ready_bytes;
      last_ordered_indexes = q'.last_ordered_indexes;
      ordered_packets = q'.ordered_packets;
      ordered_bytes = q'.ordered_bytes;
    }

  stopped :
      (channel : ℕ) (q : RecvQ bytes_deref)
      → get same_key q.ordered_packets (channel, index_of q.last_ordered_indexes channel) ≡ none
      → Drained channel q q
  stopped channel q h = record {
    frames = [];
    in_order = tt;
    ready_lem = sym (append-nil q.ready_ordered);
    bytes_lem = omega arith;
    index_lem = λ c. elim (Bool-cases (channel == c)) [
      | inl e ↦ rw e (ap (index_of q.last_ordered_indexes) (sym ((==_iff channel c).0 e)))
      | inr e ↦ rw e refl
    ];
    left_lem = λ key. refl;
    end_lem = h;
    count_lem = omega arith;
    rest_lem = refl;
  }

  abbrev key_of : RecvQ bytes_deref → ℕ → ℕ × ℕ
  key_of q channel = (channel, index_of q.last_ordered_indexes channel)

  abbrev round : RecvQ bytes_deref → ℕ → FrameSetPacket H → RecvQ bytes_deref
  round q channel frame =
      make_ready bytes_deref (take_ordered bytes_deref q (key_of q channel) frame) channel frame

  index-round :
      (q : RecvQ bytes_deref) (channel c : ℕ) (frame : FrameSetPacket H)
      → index_of (round q channel frame).last_ordered_indexes c ≡ (
          if channel == c
          then next (index_of q.last_ordered_indexes channel)
          else index_of q.last_ordered_indexes c)
  unfolding make_ready take_ordered
  index-round q channel c frame =
      index_of-set_index q.last_ordered_indexes channel
        (next (index_of q.last_ordered_indexes channel)) c

  next-round :
      (q : RecvQ bytes_deref) (channel : ℕ) (frame : FrameSetPacket H)
      → index_of (round q channel frame).last_ordered_indexes channel
        ≡ next (index_of q.last_ordered_indexes channel)
  next-round q channel frame = index-round q channel channel frame ∙ rw (==_refl channel) refl

  Drained-round :
      (channel : ℕ) (q q' : RecvQ bytes_deref) (frame : FrameSetPacket H)
      → get same_key q.ordered_packets (key_of q channel) ≡ some frame
      → Drained channel (round q channel frame) q'
      → Drained channel q q'
  unfolding make_ready take_ordered ordered_count
  Drained-round channel q q' frame h d =
      let i = index_of q.last_ordered_indexes channel in
      let e = next-round q channel frame in
      let last : steps (length d.frames)
            (index_of (round q channel frame).last_ordered_indexes channel)
          ≡ next (steps (length d.frames) i) =
        ap (steps (length d.frames)) e ∙ steps_next (length d.frames) i in
      record {
        frames = frame ∷ d.frames;
        in_order = (
          h,
          Consecutive-without bytes_deref q.ordered_packets (key_of q channel) channel (next i)
              d.frames
              (subst
                (λ n.
                  Consecutive bytes_deref (without same_key q.ordered_packets (key_of q channel))
                    channel n d.frames)
                e d.in_order),
        );
        ready_lem = d.ready_lem ∙ append_assoc q.ready_ordered (frame ∷ []) d.frames;
        bytes_lem = omega (arith, d.bytes_lem);
        index_lem = λ c. d.index_lem c ∙ elim (Bool-cases (channel == c)) [
          | inl same ↦ rw same last
          | inr other ↦ rw other (index-round q channel c frame ∙ rw other refl)
        ];
        left_lem = λ key.
            d.left_lem key
            ∙ ap
                (λ n.
                  if among channel n (length d.frames) key
                  then none
                  else get same_key (without same_key q.ordered_packets (key_of q channel)) key)
                e
            ∙ get-longer bytes_deref q.ordered_packets channel i (length d.frames) key;
        end_lem = subst (λ n. get same_key q'.ordered_packets (channel, n) ≡ none) last d.end_lem;
        count_lem = omega (
          arith,
          d.count_lem,
          length-without_found same_key q.ordered_packets (key_of q channel) frame h,
          length-append q.ready_ordered (frame ∷ []),
        );
        rest_lem = d.rest_lem;
      }

  -- With at least as many rounds as frames wait in the reordering table, the loop behind an
  -- ordered frame hands on, behind what was ready, a run of frames: those that waited in the table
  -- for consecutive indices of the channel, in that order, the first for the index of the channel
  -- before the loop, and the run ends where no frame waits for the next index. The ready bytes
  -- grow by their payloads, the index of the channel goes on by their number, across the end of
  -- the 24 bits too, other channels keep theirs, exactly their entries leave the table, no more
  -- frames are held, and nothing else but the bytes of the table changes.
  pub drain_ordered-Drained :
      (fuel channel : ℕ) (q : RecvQ bytes_deref)
      → length q.ordered_packets ≤ fuel
      → Drained channel q (drain_ordered bytes_deref fuel channel q)
  unfolding drain_ordered drain_round make_ready take_ordered
  drain_ordered-Drained zero channel q h =
      elim (Option-cases (get same_key q.ordered_packets (key_of q channel))) [
        | inl e ↦ stopped channel q e
        | inr (frame, e) ↦ absurd (
            omega
              (arith, length-without_found same_key q.ordered_packets (key_of q channel) frame e))
      ]
  drain_ordered-Drained (suc fuel) channel q h =
      elim (Option-cases (get same_key q.ordered_packets (key_of q channel))) [
        | inl e ↦ rw e (stopped channel q e)
        | inr (frame, e) ↦
            let less = length-without_found same_key q.ordered_packets (key_of q channel) frame e in
            rw e (
              Drained-round channel q _ frame e
                (drain_ordered-Drained fuel channel (round q channel frame) (omega (arith, less))))
      ]
