-- ===== src/Prelude/State.antt =====
-- Fallible code that threads a state. On an error the state is dropped, as every caller of such
-- code in the crate drops its reader or writer then.
use mathlib.Core.Bool.{Bool, true, false}
use mathlib.Core.Path.{◌≡◌, refl}
use rust_raknet.Error.{RaknetError, Result, ok, err}

abbrev pub M : Type 0 → Type 0 → Type 0
M S A = S → Result (A × S)

infixl 5 ◌>>=◌ ◌>>◌
unfoldable pub ◌>>=◌ : {S A B : Type 0} → M S A → (A → M S B) → M S B
◌>>=◌ m f s = elim (m s) [ ok (a, s') ↦ f a s' | err e ↦ err e ]

abbrev pub ◌>>◌ : {S A B : Type 0} → M S A → M S B → M S B
m >> k = m >>= λ _. k

unfoldable pub pure : {S A : Type 0} → A → M S A
pure a s = ok (a, s)

-- A `Result` that does not touch the state, under `?`.
unfoldable pub lift : {S A : Type 0} → Result A → M S A
lift (ok a) s = ok (a, s)
lift (err e) s = err e

unfoldable pub fail : {S A : Type 0} → RaknetError → M S A
fail e s = err e

-- `if test { return Err(e) }`
unfoldable pub refuse : {S : Type 0} → Bool → RaknetError → M S (Unit {0})
refuse true e s = err e
refuse false e s = ok (tt, s)

-- The value, once the state is dropped.
abbrev pub run : {S A : Type 0} → M S A → S → Result A
run m s = elim (m s) [ ok (a, s') ↦ ok a | err e ↦ err e ]

pub bind_ok :
    {S A B : Type 0} (m : M S A) (f : A → M S B) (s : S) {a : A} {s' : S}
    → m s ≡ ok (a, s')
    → (m >>= f) s ≡ f a s'
unfolding ◌>>=◌
bind_ok m f s h = rw (h, ◌>>=◌)

pub bind_err :
    {S A B : Type 0} (m : M S A) (f : A → M S B) (s : S) {e : RaknetError}
    → m s ≡ err e
    → (m >>= f) s ≡ err e
unfolding ◌>>=◌
bind_err m f s h = rw (h, ◌>>=◌)

-- What a successful sequence has done.
pub >>=-eq-ok :
    {S A B : Type 0} (m : M S A) (f : A → M S B) (s : S) {b : B} {t : S}
    → (m >>= f) s ≡ ok (b, t)
    → (a : A) × (u : S) × (m s ≡ ok (a, u)) × (f a u ≡ ok (b, t))
unfolding ◌>>=◌
>>=-eq-ok {S} {A} {B} m f s {b} {t} h = split (m s) refl h
  where
    split :
        (r : Result (A × S))
        → m s ≡ r
        → elim r [ ok (a, s') ↦ f a s' | err e ↦ err e ] ≡ ok (b, t)
        → (a : A) × (u : S) × (m s ≡ ok (a, u)) × (f a u ≡ ok (b, t))
    split (ok (a, u)) e h = (a, u, e, h)
    split (err x) e h = cc
