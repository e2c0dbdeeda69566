-- ===== src/Send/NackedTwice.antt =====
-- `nack` of `SendQ` of src/arq.rs, for one number after another.
use rust_raknet.Prelude.{
  ℕ, ◌+◌, ◌≡◌, refl, sym, ap, subst, ◌∙◌, Bool, true, false, not, ◌&&◌, ◌||◌, List, [], ◌∷◌, ◌==◌,
  arith, ==_refl,
}
use rust_raknet.Prelude.Sets.{contains}
use rust_raknet.Sequence.Order.{steps}
use rust_raknet.Send.Queue.{SendQ, SentPacket}
use rust_raknet.Send.Nacks.{nack, nack_all}
use rust_raknet.Send.Marked.{hit, hits, AreMarked, steps_add}
use rust_raknet.Send.Nacked.{IsNacked, AreMarked-then, nack-IsNacked}

and_assoc : (a b c : Bool) → ((a && b) && c) ≡ (a && (b && c))
and_assoc true b c = refl
and_assoc false b c = refl

or_not : (a b c : Bool) → ((a || not b) || not c) ≡ (a || not (b && c))
or_not true b c = refl
or_not false true c = refl
or_not false false c = refl

sum_none : (m n total : ℕ) → m + n ≡ total → ((m == 0) && (n == 0)) ≡ (total == 0)
sum_none m n total e = ground arith

module _ {H : Type 0} where
  -- A queue with other packets and another next number, that notes if some packet is marked.
  abbrev noting : SendQ H → List (SentPacket H) → ℕ → Bool → SendQ H
  noting q items number none_hit = record q {
    sent_packet = items;
    sequence_number = number;
    coalescing_allowed = q.coalescing_allowed && none_hit;
    coalesce = q.coalesce && none_hit;
    flight_order_dirty = q.flight_order_dirty || not none_hit;
    retries_pending = q.retries_pending || not none_hit;
  }

  noting_twice :
      (q : SendQ H) (items items' : List (SentPacket H)) (number number' : ℕ) (a b : Bool)
      → noting (noting q items number a) items' number' b ≡ noting q items' number' (a && b)
  noting_twice q items items' number number' a b =
      rw
        (
          and_assoc q.coalescing_allowed a b,
          and_assoc q.coalesce a b,
          or_not q.flight_order_dirty a b,
          or_not q.retries_pending a b,
        )
        refl

  IsNacked-then :
      (s t : ℕ → Bool) (tick : ℕ) (q q' q'' : SendQ H)
      → IsNacked s tick q q'
      → IsNacked t tick q' q''
      → IsNacked (λ n. s n || t n) tick q q''
  IsNacked-then s t tick q q' q'' w v =
      let m = hits s q.sent_packet in
      let n = hits t q'.sent_packet in
      let (all, total) =
        AreMarked-then s t tick q.sequence_number m n q.sent_packet q'.sent_packet q''.sent_packet
          w.items_lem
          (subst (λ b. AreMarked t tick b n q'.sent_packet q''.sent_packet) w.number_lem
            v.items_lem) in
      record {
        items_lem =
            subst
              (λ c.
                AreMarked (λ i. s i || t i) tick q.sequence_number c q.sent_packet q''.sent_packet)
              total all;
        number_lem =
            v.number_lem
            ∙ ap (steps n) w.number_lem
            ∙ steps_add n m (hits (λ i. s i || t i) q.sent_packet) q.sequence_number
                (omega (arith, total));
        rest_lem =
            v.rest_lem
            ∙ ap (λ r. noting r q''.sent_packet q''.sequence_number (n == 0)) w.rest_lem
            ∙ noting_twice q q'.sent_packet q''.sent_packet q'.sequence_number q''.sequence_number
                (m == 0) (n == 0)
            ∙ ap (noting q q''.sent_packet q''.sequence_number)
                (sum_none m n (hits (λ i. s i || t i) q.sent_packet) total);
      }

  -- The test matters only for the numbers of the packets.
  abbrev pub present : List (SentPacket H) → ℕ → Bool
  present [] n = false
  present (item ∷ items) n = (item.frame.sequence_number == n) || present items n

  present_here :
      (item : SentPacket H) (items : List (SentPacket H))
      → present (item ∷ items) item.frame.sequence_number ≡ true
  present_here item items = rw (==_refl item.frame.sequence_number) refl

  present_later :
      (item : SentPacket H) (items : List (SentPacket H)) (n : ℕ)
      → present items n ≡ true
      → present (item ∷ items) n ≡ true
  present_later item items n h = ground arith

  hits-congruence :
      (s t : ℕ → Bool) (items : List (SentPacket H))
      → ((n : ℕ) → present items n ≡ true → s n ≡ t n)
      → hits s items ≡ hits t items
  hits-congruence s t [] h = refl
  hits-congruence s t (item ∷ items) h =
      rw
        (
          h item.frame.sequence_number (present_here item items),
          hits-congruence s t items (λ n p. h n (present_later item items n p)),
        )
        refl

  AreMarked-congruence :
      (s t : ℕ → Bool) (tick base count : ℕ) (items items' : List (SentPacket H))
      → ((n : ℕ) → present items n ≡ true → s n ≡ t n)
      → AreMarked s tick base count items items'
      → AreMarked t tick base count items items'
  AreMarked-congruence s t tick base count [] [] h a = a
  AreMarked-congruence s t tick base count [] (item' ∷ items') h a = a
  AreMarked-congruence s t tick base count (item ∷ items) [] h a = a
  AreMarked-congruence s t tick base count (item ∷ items) (item' ∷ items') h ((k, le, e), a) =
      let same = h item.frame.sequence_number (present_here item items) in
      (
        (k, rw (sym same) le, e ∙ rw same refl),
        AreMarked-congruence s t tick base count items items'
            (λ n p. h n (present_later item items n p)) a,
      )

  pub IsNacked-congruence :
      (s t : ℕ → Bool) (tick : ℕ) (q q' : SendQ H)
      → ((n : ℕ) → present q.sent_packet n ≡ true → s n ≡ t n)
      → IsNacked s tick q q'
      → IsNacked t tick q q'
  IsNacked-congruence s t tick q q' h w =
      let same = hits-congruence s t q.sent_packet h in
      record {
        items_lem =
            subst (λ c. AreMarked t tick q.sequence_number c q.sent_packet q'.sent_packet) same
              (AreMarked-congruence s t tick q.sequence_number (hits s q.sent_packet) q.sent_packet
                q'.sent_packet h w.items_lem);
        number_lem = w.number_lem ∙ ap (λ c. steps c q.sequence_number) same;
        rest_lem = w.rest_lem ∙ ap (λ c. noting q q'.sent_packet q'.sequence_number (c == 0)) same;
      }

  unmarked :
      (tick base : ℕ) (items : List (SentPacket H))
      → AreMarked (λ n. false) tick base 0 items items × (hits (λ n. false) items ≡ 0)
  unmarked tick base [] = (tt, refl)
  unmarked tick base (item ∷ items) =
      let (all, count) = unmarked tick base items in
      let free : hit (λ n. false) item ≡ false = ground arith in
      (((0, rw free (omega arith), rw free refl), all), rw free (omega (arith, count)))

  none-IsNacked : (tick : ℕ) (q : SendQ H) → IsNacked (λ n. false) tick q q
  none-IsNacked tick q =
      let (all, count) = unmarked tick q.sequence_number q.sent_packet in
      record {
        items_lem =
            subst (λ c. AreMarked (λ n. false) tick q.sequence_number c q.sent_packet q.sent_packet)
              (sym count) all;
        number_lem = ap (λ c. steps c q.sequence_number) (sym count);
        rest_lem = rw count (
            sym (
              rw
                (
                  and_true q.coalescing_allowed,
                  and_true q.coalesce,
                  or_false q.flight_order_dirty,
                  or_false q.retries_pending,
                )
                refl));
      }
    where
      and_true : (b : Bool) → (b && true) ≡ b
      and_true true = refl
      and_true false = refl

      or_false : (b : Bool) → (b || false) ≡ b
      or_false true = refl
      or_false false = refl

  pub nack_all-IsNacked :
      (ids : List ℕ) (q : SendQ H) (tick : ℕ) → IsNacked (contains ids) tick q (nack_all q ids tick)
  unfolding nack_all contains
  nack_all-IsNacked [] q tick = none-IsNacked tick q
  nack_all-IsNacked (id ∷ ids) q tick =
      IsNacked-congruence (λ n. (n == id) || contains ids n) (contains (id ∷ ids)) tick q
        (nack_all (nack q id tick) ids tick) (λ n p. ap (λ b. b || contains ids n) (ground arith))
        (IsNacked-then (λ n. n == id) (contains ids) tick q (nack q id tick)
          (nack_all (nack q id tick) ids tick) (nack-IsNacked q id tick)
          (nack_all-IsNacked ids (nack q id tick) tick))
