-- ===== src/Receive/Fragment.antt =====
-- `Fragment` and `FragmentQ` of src/fragment.rs: compound frames until their parts are there. An
-- `Instant` is the number of nanoseconds that the clock has counted, an argument where it is read.
use Prim.Native.Nat.{bit_and}
use rust_raknet.Prelude.{
  ℕ, zero, suc, ◌+◌, ◌-◌, ◌^◌, ◌*◌, Bool, false, not, ◌&&◌, ◌||◌, Option, none, some, List, [], ◌∷◌,
  ◌++◌, length, ltb, leb, ◌==◌, if◌then◌else◌,
}
use rust_raknet.Prelude.Maps.{get, put, without, is_some}
use rust_raknet.Error.{
  Result, ok, err, and_then, ok_or, refuse, packet_parse_error, packet_size_exceed_mtu,
}
use rust_raknet.Frame.Reliability.{reliability_of}
use rust_raknet.Frame.Packet.{FrameSetPacket, deref, new}

abbrev pub same : ℕ → ℕ → Bool
same a b = a == b

abbrev pub max_fragments : ℕ
max_fragments = 65_536

abbrev pub budget : ℕ
budget = 64 * 1024 * 1024

module _ {H : Type 0} (bytes_deref : H → List ℕ) where
  pub record Fragment : Type 0 where
    pub flags : ℕ
    pub compound_size : ℕ
    pub ordered_frame_index : ℕ
    pub order_channel : ℕ
    pub frames : List (ℕ × FrameSetPacket H)
    pub bytes : ℕ
    pub updated : ℕ

  -- `Fragment::new`, for the frame that it is made for.
  unfoldable pub fragment_of : FrameSetPacket H → ℕ → Fragment
  fragment_of frame now = record {
    flags = frame.flags;
    compound_size = frame.compound_size;
    ordered_frame_index = frame.ordered_frame_index;
    order_channel = frame.order_channel;
    frames = [];
    bytes = 0;
    updated = now;
  }

  unfoldable pub full : Fragment → Bool
  full f = not (f.compound_size == 0) && (length f.frames == f.compound_size)

  -- The test that refuses a frame of another compound.
  unfoldable pub differs : Fragment → FrameSetPacket H → Bool
  differs f frame =
      leb f.compound_size frame.fragment_index
      || not (frame.compound_size == f.compound_size)
      || not (frame.order_channel == f.order_channel)
      || not (frame.ordered_frame_index == f.ordered_frame_index)
      || not (bit_and frame.flags 0xe0 == bit_and f.flags 0xe0)

  -- `frame.data.len() + 128`
  unfoldable pub cost : FrameSetPacket H → ℕ
  cost frame = length (deref bytes_deref frame.payload) + 128

  -- The result, and the fragment after the call.
  unfoldable pub insert : Fragment → FrameSetPacket H → ℕ → Result ℕ × Fragment
  unfolding full differs cost
  insert f frame now =
      if full f
      then (ok 0, f)
      else if differs f frame
      then (err packet_parse_error, f)
      else if is_some (get same f.frames frame.fragment_index)
      then (ok 0, f)
      else (
        ok (cost frame),
        record f {
          frames = (frame.fragment_index, frame) ∷ f.frames;
          bytes = f.bytes + cost frame;
          updated = now;
        },
      )

  -- `total.checked_add(self.frames.get(&index)?.data.len())`, and the rest of the fold.
  abbrev pub add_part : Option (FrameSetPacket H) → ℕ → (ℕ → Option ℕ) → Option ℕ
  add_part none total rest = none
  add_part (some frame) total rest =
      let sum = total + length (deref bytes_deref frame.payload) in
      let value = rest sum in if ltb sum (2 ^ 64) then value else none

  -- `(index..compound_size).try_fold(total, ..)`, on the number of indices.
  unfoldable pub capacity : List (ℕ × FrameSetPacket H) → ℕ → ℕ → ℕ → Option ℕ
  capacity frames zero index total = some total
  capacity frames (suc count) index total =
      add_part (get same frames index) total (capacity frames count (suc index))

  -- The loop that extends `data`.
  unfoldable pub gather : List (ℕ × FrameSetPacket H) → ℕ → ℕ → Result (List ℕ)
  gather frames zero index = ok []
  gather frames (suc count) index =
      and_then (ok_or (get same frames index) packet_parse_error) λ frame.
        and_then (gather frames count (suc index))
          λ rest. ok (deref bytes_deref frame.payload ++ rest)

  unfoldable pub merge : Fragment → Result (FrameSetPacket H)
  unfolding full capacity gather
  merge f = and_then (refuse (not (full f)) packet_parse_error) λ _.
      and_then (refuse (f.compound_size == 0) packet_parse_error) λ _.
        and_then (ok_or (get same f.frames (f.compound_size - 1)) packet_parse_error) λ last.
          and_then (ok_or (capacity f.frames f.compound_size 0 0) packet_size_exceed_mtu) λ _.
            and_then (gather f.frames f.compound_size 0) λ data'.
              and_then (reliability_of f.flags) λ r. ok (record (new bytes_deref r data') {
                ordered_frame_index = f.ordered_frame_index;
                order_channel = f.order_channel;
                sequence_number = last.sequence_number;
              })

  pub record FragmentQ : Type 0 where
    pub fragments : List (ℕ × Fragment)
    pub bytes : ℕ

  abbrev pub FragmentQ_default : FragmentQ
  FragmentQ_default = record { fragments = []; bytes = 0 }

  -- The frames that `insert_frame` refuses.
  unfoldable pub over_limits : FragmentQ → FrameSetPacket H → Bool
  unfolding cost
  over_limits q frame =
      (frame.compound_size == 0)
      || ltb max_fragments frame.compound_size
      || ltb budget (q.bytes + cost frame)
      || (leb 1024 (length q.fragments) && not (is_some (get same q.fragments frame.compound_id)))

  -- `entry(compound_id).or_insert_with(..)`
  unfoldable pub entry : FragmentQ → FrameSetPacket H → ℕ → Fragment
  unfolding fragment_of
  entry q frame now = elim (get same q.fragments frame.compound_id) [
    | some f ↦ f
    | none ↦ fragment_of frame now
  ]

  abbrev pub with_added : FragmentQ → ℕ → List (ℕ × Fragment) → Result ℕ → Result ℕ × FragmentQ
  with_added q compound_id fragments (ok n) =
      (ok compound_id, record { fragments = fragments; bytes = q.bytes + n })
  with_added q compound_id fragments (err e) =
      (err e, record { fragments = fragments; bytes = q.bytes })

  -- A frame that the fragment refuses leaves the fragment in the queue, a new one too.
  unfoldable pub insert_frame : FragmentQ → FrameSetPacket H → ℕ → Result ℕ × FragmentQ
  unfolding over_limits entry insert
  insert_frame q frame now =
      let (added, f) = insert (entry q frame now) frame now in
      if over_limits q frame
      then (err packet_parse_error, q)
      else with_added q frame.compound_id (put same q.fragments frame.compound_id f) added

  abbrev pub completed :
      FragmentQ → ℕ → Option Fragment → Result (Option (FrameSetPacket H)) × FragmentQ
  completed q compound_id none = (ok none, q)
  completed q compound_id (some f) =
      if full f
      then (
        and_then (merge f) λ frame. ok (some frame),
        record { fragments = without same q.fragments compound_id; bytes = q.bytes - f.bytes },
      )
      else (ok none, q)

  -- The fragment, if it is full, leaves the queue with its bytes.
  unfoldable pub take_completed : FragmentQ → ℕ → Result (Option (FrameSetPacket H)) × FragmentQ
  unfolding full merge
  take_completed q compound_id = completed q compound_id (get same q.fragments compound_id)

  abbrev pub then_take : Result ℕ × FragmentQ → Result (Option (FrameSetPacket H)) × FragmentQ
  then_take (ok compound_id, q) = take_completed q compound_id
  then_take (err e, q) = (err e, q)

  unfoldable pub insert_and_take_completed :
      FragmentQ → FrameSetPacket H → ℕ → Result (Option (FrameSetPacket H)) × FragmentQ
  unfolding insert_frame take_completed
  insert_and_take_completed q frame now = then_take (insert_frame q frame now)

  -- `fragment.updated.elapsed() >= Duration::from_secs(60)`, which is 0 for a time to come.
  abbrev any_old : List (ℕ × Fragment) → ℕ → Bool
  any_old [] now = false
  any_old ((compound_id, f) ∷ fragments) now =
      leb (60 * 1_000_000_000) (now - f.updated) || any_old fragments now

  unfoldable pub expired : FragmentQ → ℕ → Bool
  expired q now = any_old q.fragments now
