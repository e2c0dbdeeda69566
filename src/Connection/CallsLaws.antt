-- ===== src/Connection/CallsLaws.antt =====
-- On the calls of the application on a connection.
use rust_raknet.Prelude.{
  ℕ, zero, suc, ◌-◌, ◌≤◌, ◌≡◌, refl, sym, ap, ◌∙◌, inl, inr, Bool, false, List, [], ◌∷◌, take, drop,
  min, arith, Bool-cases, ◌==◌,
}
use rust_raknet.Error.{ok}
use rust_raknet.Connection.Calls.{returns, try_recv_more, batch_after, recv_batch}

try_recv_more_lem :
    (rounds : ℕ) (messages : List (List ℕ))
    → try_recv_more rounds messages ≡ (take rounds messages, drop rounds messages)
unfolding try_recv_more
try_recv_more_lem zero messages = refl
try_recv_more_lem (suc rounds) [] = refl
try_recv_more_lem (suc rounds) (m ∷ messages) = rw (try_recv_more_lem rounds messages) refl

cut :
    (n : ℕ) (m : List ℕ) (messages : List (List ℕ))
    → 1 ≤ n
    → batch_after m (take (n - 1) messages, drop (n - 1) messages)
      ≡ (returns (ok (take n (m ∷ messages))), drop n (m ∷ messages))
cut zero m messages h = absurd (omega arith)
cut (suc n) m messages h =
    let less : suc n - 1 ≡ n = omega arith in
    ap (λ k. batch_after m (take k messages, drop k messages)) less

-- Where a message waits, recv_batch returns the first messages that wait, as many as the limit but
-- at most 64 and at most those that wait, in order, and leaves the others.
pub recv_batch_lem :
    (closed sending : Bool) (limit : ℕ) (m : List ℕ) (messages : List (List ℕ))
    → recv_batch closed sending limit (m ∷ messages)
      ≡ (returns (ok (take (min limit 64) (m ∷ messages))), drop (min limit 64) (m ∷ messages))
unfolding recv_batch
recv_batch_lem closed sending limit m messages = elim (Bool-cases (limit == 0)) [
  | inl e ↦
      let none : limit ≡ 0 = ground (arith, e) in
      rw e (
        ap (λ n. (returns (ok (take (min n 64) (m ∷ messages))), drop (min n 64) (m ∷ messages)))
          (sym none))
  | inr e ↦ rw e (
      ap (λ r. batch_after m r) (try_recv_more_lem (min limit 64 - 1) messages)
      ∙ cut (min limit 64) m messages (omega (arith, positive limit e)))
]
  where
    positive : (n : ℕ) → (n == 0) ≡ false → 1 ≤ n
    positive n h = ground arith
