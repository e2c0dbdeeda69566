-- ===== src/Sequence/Tests.antt =====
-- The theorems on serial numbers at concrete inputs, the end of the 24-bit range among them.
use rust_raknet.Prelude.{ℕ, ◌+◌, ◌%◌, ◌<◌, ◌≡◌, refl, ◌⊎◌, true, false, [], ◌∷◌, arith}
use rust_raknet.Prelude.Sets.{contains, remove}
use rust_raknet.Error.{ok}
use rust_raknet.Sequence.{mask, half, next, distance, newer, ReliableWindow_default, drain, accept}
use rust_raknet.Sequence.Order.{steps, distance-steps, newer-trichotomy}
use rust_raknet.Sequence.Accept.{Verdict, default-Tracks, accept-Verdict}

next_wraps : next mask ≡ 0
unfolding next
next_wraps = refl

distance_wraps : distance 2 0xff_ffff ≡ 3
unfolding distance
distance_wraps = refl

accept_out_of_order :
    accept (record { next = 0; pending = 1 ∷ [] }) 0 ≡ (ok true, record { next = 2; pending = [] })
unfolding accept drain distance next contains remove
accept_out_of_order = refl

distance-steps_example : distance (steps 3 0xff_fffe) 0xff_fffe ≡ 3
distance-steps_example = distance-steps 0xff_fffe 3 (omega arith) (omega arith)

abbrev first : ℕ
first = 0

abbrev last : ℕ
last = 0xff_ffff

newer-trichotomy_example :
    ((first ≡ last) × (newer first last ≡ false) × (newer last first ≡ false))
    ⊎ ((distance first last < half) × (newer first last ≡ true) × (newer last first ≡ false))
    ⊎ ((half < distance first last) × (newer first last ≡ false) × (newer last first ≡ true))
    ⊎ ((distance first last ≡ half) × (newer first last ≡ false) × (newer last first ≡ false))
newer-trichotomy_example = newer-trichotomy first last (omega arith) (omega arith)

accept-Verdict_example :
    Verdict 0 (λ i. false) ReliableWindow_default 5 (accept ReliableWindow_default (5 % (mask + 1)))
unfolding contains
accept-Verdict_example =
    accept-Verdict 0 5 (λ i. false) ReliableWindow_default default-Tracks refl (omega arith)
      (omega arith)
