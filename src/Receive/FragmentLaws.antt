-- ===== src/Receive/FragmentLaws.antt =====
-- How much the queue of fragments of src/fragment.rs holds.
use rust_raknet.Prelude.{
  ℕ, refl, ap, ◌+◌, ◌≤◌, ◌≡◌, inl, inr, false, Option, none, some, List, length, arith, Bool-cases,
  Option-cases,
}
use rust_raknet.Prelude.Maps.{get, put, without}
use rust_raknet.Error.{Result, ok, err}
use rust_raknet.Frame.Packet.{FrameSetPacket}
use rust_raknet.Receive.Fragment.{
  same, budget, Fragment, FragmentQ, insert, insert_frame, over_limits, completed, take_completed,
  then_take, insert_and_take_completed, cost, entry, full,
}
use rust_raknet.Prelude.MapTotals.{
  total, measure_at, AreEntries, total-without, AreEntries-without, AreEntries-put,
}
use rust_raknet.Receive.FragmentTotals.{
  same-IsEquality, counted, IsCounted, insert-counted, entry-counted,
}
use rust_raknet.Prelude.MapTotals.{length-without, length-without_found}

module _ {H : Type 0} (bytes_deref : H → List ℕ) where
  -- Each compound has one entry, the counts of bytes are exact, and the queue is within 64 MiB,
  -- the overhead of each frame included, and within 1024 compounds.
  pub record IsAccounted (q : FragmentQ bytes_deref) : Type 0 where
    pub fragments_lem : AreEntries same same-IsEquality (IsCounted bytes_deref) q.fragments
    pub bytes_lem : q.bytes ≡ total same same-IsEquality (counted bytes_deref) q.fragments
    pub limit_lem : q.bytes ≤ budget
    pub count_lem : length q.fragments ≤ 1024

  length-put :
      (q : FragmentQ bytes_deref) (frame : FrameSetPacket H) (f : Fragment bytes_deref)
      → length q.fragments ≤ 1024
      → over_limits bytes_deref q frame ≡ false
      → length (put same q.fragments frame.compound_id f) ≤ 1024
  unfolding over_limits
  length-put q frame f h e = elim (Option-cases (get same q.fragments frame.compound_id)) [
    | inl new ↦ ground (arith, length-without same q.fragments frame.compound_id, new)
    | inr (g, old) ↦ omega (arith, length-without_found same q.fragments frame.compound_id g old)
  ]

  room :
      (q : FragmentQ bytes_deref) (frame : FrameSetPacket H)
      → over_limits bytes_deref q frame ≡ false
      → q.bytes + cost bytes_deref frame ≤ budget
  unfolding over_limits
  room q frame e = ground arith

  insert_frame-IsAccounted :
      (q : FragmentQ bytes_deref) (frame : FrameSetPacket H) (now : ℕ)
      → IsAccounted q
      → IsAccounted (insert_frame bytes_deref q frame now).1
  unfolding insert_frame
  insert_frame-IsAccounted q frame now w = elim (Bool-cases (over_limits bytes_deref q frame)) [
    | inl e ↦ rw e w
    | inr e ↦
        let f = entry bytes_deref q frame now in
        let g = (insert bytes_deref f frame now).1 in
        let (at_entry, exact) = entry-counted bytes_deref q frame now w.fragments_lem in
        let (exact', added) = insert-counted bytes_deref f frame now exact in
        let count = length-put q frame g w.count_lem e in
        let entries =
          AreEntries-put same same-IsEquality (IsCounted bytes_deref) q.fragments frame.compound_id
            g w.fragments_lem exact' in
        let rest =
          total-without same same-IsEquality (IsCounted bytes_deref) (counted bytes_deref)
            q.fragments frame.compound_id w.fragments_lem in
        elim added [
          | inl (n, a, grown, cases) ↦
              rw (e, a)
                (record {
                  fragments_lem = entries;
                  bytes_lem = omega (arith, rest, at_entry, grown, w.bytes_lem);
                  limit_lem = elim cases [
                    | inl free ↦ omega (arith, free, w.limit_lem)
                    | inr costly ↦ omega (arith, costly, room q frame e)
                  ];
                  count_lem = count;
                })
          | inr (a, same_bytes) ↦
              rw (e, a)
                (record {
                  fragments_lem = entries;
                  bytes_lem = omega (arith, rest, at_entry, same_bytes, w.bytes_lem);
                  limit_lem = w.limit_lem;
                  count_lem = count;
                })
        ]
  ]

  -- What a compound counts is a part of what the queue counts.
  counted-bound :
      (q : FragmentQ bytes_deref) (compound_id : ℕ)
      → IsAccounted q
      → (total same same-IsEquality (counted bytes_deref) (without same q.fragments compound_id)
            + measure_at same same-IsEquality
                (counted bytes_deref)
                (get same q.fragments compound_id)
          ≡ q.bytes)
        × (measure_at same same-IsEquality (counted bytes_deref) (get same q.fragments compound_id)
            ≤ q.bytes)
  counted-bound q compound_id w =
      let rest =
        total-without same same-IsEquality (IsCounted bytes_deref) (counted bytes_deref) q.fragments
          compound_id w.fragments_lem in
      (omega (arith, rest, w.bytes_lem), omega (arith, rest, w.bytes_lem))

  completed-IsAccounted :
      (q : FragmentQ bytes_deref) (compound_id : ℕ) (f : Option (Fragment bytes_deref))
      → IsAccounted q
      → get same q.fragments compound_id ≡ f
      → IsAccounted (completed bytes_deref q compound_id f).1
  completed-IsAccounted q compound_id none w h = w
  completed-IsAccounted q compound_id (some f) w h = elim (Bool-cases (full bytes_deref f)) [
    | inl e ↦
        let (exact, _) = counted-bound q compound_id w in
        let found : measure_at same same-IsEquality (counted bytes_deref)
              (get same q.fragments compound_id)
            ≡ f.bytes =
          ap (measure_at same same-IsEquality (counted bytes_deref)) h in
        rw e (record {
          fragments_lem =
              AreEntries-without same same-IsEquality (IsCounted bytes_deref) q.fragments
                compound_id w.fragments_lem;
          bytes_lem = omega (arith, exact, found);
          limit_lem = omega (arith, w.limit_lem);
          count_lem = omega (arith, w.count_lem, length-without same q.fragments compound_id);
        })
    | inr e ↦ rw e w
  ]

  then_take-IsAccounted :
      (r : Result ℕ × FragmentQ bytes_deref)
      → IsAccounted r.1
      → IsAccounted (then_take bytes_deref r).1
  unfolding take_completed
  then_take-IsAccounted (ok compound_id, q) w =
      completed-IsAccounted q compound_id (get same q.fragments compound_id) w refl
  then_take-IsAccounted (err e, q) w = w

  -- Whatever frame arrives, a queue of fragments stays accounted for: each compound has one entry
  -- and counts exactly what its parts cost, the queue counts exactly what its compounds count, at
  -- most 64 MiB with the overhead of each frame included, and has at most 1024 compounds. Between
  -- the arrival and the completion the queue counts at least the bytes of the compound of the
  -- frame, so that taking them off never stops at 0.
  pub insert_and_take_completed-IsAccounted :
      (q : FragmentQ bytes_deref) (frame : FrameSetPacket H) (now : ℕ)
      → IsAccounted q
      → IsAccounted (insert_and_take_completed bytes_deref q frame now).1
        × (let between = (insert_frame bytes_deref q frame now).1 in
            measure_at same same-IsEquality
              (counted bytes_deref)
              (get same between.fragments frame.compound_id)
            ≤ between.bytes)
  unfolding insert_and_take_completed
  insert_and_take_completed-IsAccounted q frame now w =
      let between = insert_frame-IsAccounted q frame now w in
      (
        then_take-IsAccounted (insert_frame bytes_deref q frame now) between,
        (counted-bound (insert_frame bytes_deref q frame now).1 frame.compound_id between).1,
      )
