-- ===== src/Datatype/Reads.antt =====
-- What a read returns on bytes that are there, and how reads compose.
use rust_raknet.Prelude.{
  ℕ, ◌≡◌, sym, ap, ◌∙◌, subst, Bool, true, false, List, [], ◌++◌, append-nil, append_assoc,
}
use rust_raknet.Prelude.State.{M, ◌>>=◌, ◌>>◌, pure, refuse, lift, run, bind_ok, bind_err}
use rust_raknet.Error.{RaknetError, Result, ok, err}
use rust_raknet.Bytes.{between}
use rust_raknet.Datatype.Reader.{RaknetReader, new}

abbrev pub reader_at : List ℕ → List ℕ → RaknetReader
reader_at front back = record { buf = between front back }

-- `m` takes `bytes` off the input, whatever surrounds them, and returns `a`.
pub record Reads {A : Type 0} (m : M RaknetReader A) (bytes : List ℕ) (a : A) : Type 0 where
  pub runs :
      (front rest : List ℕ)
      → m (reader_at front (bytes ++ rest)) ≡ ok (a, reader_at (front ++ bytes) rest)

at_assoc :
    (front bs cs rest : List ℕ)
    → reader_at ((front ++ bs) ++ cs) rest ≡ reader_at (front ++ (bs ++ cs)) rest
at_assoc front bs cs rest = ap (λ l. reader_at l rest) (append_assoc front bs cs)

pub Reads-bind :
    {A B : Type 0} {m : M RaknetReader A} (f : A → M RaknetReader B) {bs cs : List ℕ} {a : A}
    {b : B}
    → Reads m bs a
    → Reads (f a) cs b
    → Reads (m >>= f) (bs ++ cs) b
Reads-bind {m = m} f {bs} {cs} {a} {b} r q = record {
  runs = λ front rest.
      ap (λ l. (m >>= f) (reader_at front l)) (append_assoc bs cs rest)
      ∙ bind_ok m f (reader_at front (bs ++ (cs ++ rest))) (r.runs front (cs ++ rest))
      ∙ q.runs (front ++ bs) rest
      ∙ ap (λ s. ok (b, s)) (at_assoc front bs cs rest);
}

pub Reads-pure : {A : Type 0} (a : A) → Reads (pure a) [] a
unfolding pure
Reads-pure a = record {
  runs = λ front rest. ap (λ l. ok (a, reader_at l rest)) (sym (append-nil front));
}

-- What follows the last read.
pub Reads-last :
    {A B : Type 0} {m : M RaknetReader A} (f : A → M RaknetReader B) {bs : List ℕ} {a : A} {b : B}
    → Reads m bs a
    → Reads (f a) [] b
    → Reads (m >>= f) bs b
Reads-last {m = m} f {bs} {b = b} r q =
    subst (λ l. Reads (m >>= f) l b) (append-nil bs) (Reads-bind f r q)

-- A computation that leaves the reader alone.
pub Reads-lift : {A : Type 0} {r : Result A} {a : A} → r ≡ ok a → Reads (lift r) [] a
unfolding lift
Reads-lift {a = a} h =
    subst (λ t. Reads (lift t) [] a) (sym h)
      (record { runs = λ front rest. ap (λ l. ok (a, reader_at l rest)) (sym (append-nil front)) })

-- A test that passes reads nothing.
pub Reads-refuse :
    {B : Type 0} {test : Bool} (e : RaknetError) {k : M RaknetReader B} {bs : List ℕ} {b : B}
    → test ≡ false
    → Reads k bs b
    → Reads (refuse test e >> k) bs b
unfolding refuse ◌>>=◌
Reads-refuse e {k} {bs} {b} h r =
    subst (λ t. Reads (refuse t e >> k) bs b) (sym h) (record { runs = r.runs })

pub Reads-empty_refuse :
    {test : Bool} (e : RaknetError) → test ≡ false → Reads (refuse test e) [] tt
unfolding refuse
Reads-empty_refuse e h =
    subst (λ t. Reads (refuse t e) [] tt) (sym h)
      (record { runs = λ front rest. ap (λ l. ok (tt, reader_at l rest)) (sym (append-nil front)) })

-- The value of a read on a whole input.
pub run-Reads :
    {A : Type 0} {m : M RaknetReader A} {bs : List ℕ} {a : A} → Reads m bs a → run m (new bs) ≡ ok a
run-Reads {m = m} {bs} {a} r =
    subst (λ l. run m (new l) ≡ ok a) (append-nil bs) (rw (r.runs [] [], run))

-- The value where input is left over.
pub run-Reads_more :
    {A : Type 0} {m : M RaknetReader A} {bs : List ℕ} {a : A} (more : List ℕ)
    → Reads m bs a
    → run m (new (bs ++ more)) ≡ ok a
run-Reads_more {m = m} more r = rw (r.runs [] more, run)

-- `m` fails on an input that goes on with `bytes`.
pub record Fails {A : Type 0} (m : M RaknetReader A) (bytes : List ℕ) (e : RaknetError)
    : Type 0 where
  pub fails : (front rest : List ℕ) → m (reader_at front (bytes ++ rest)) ≡ err e

pub Fails-after :
    {A B : Type 0} {m : M RaknetReader A} (f : A → M RaknetReader B) {bs cs : List ℕ} {a : A}
    {e : RaknetError}
    → Reads m bs a
    → Fails (f a) cs e
    → Fails (m >>= f) (bs ++ cs) e
Fails-after {m = m} f {bs} {cs} {a} {e} r q = record {
  fails = λ front rest.
      ap (λ l. (m >>= f) (reader_at front l)) (append_assoc bs cs rest)
      ∙ bind_ok m f (reader_at front (bs ++ (cs ++ rest))) (r.runs front (cs ++ rest))
      ∙ q.fails (front ++ bs) rest;
}

pub Fails-after_last :
    {A B : Type 0} {m : M RaknetReader A} (f : A → M RaknetReader B) {bs : List ℕ} {a : A}
    {e : RaknetError}
    → Reads m bs a
    → Fails (f a) [] e
    → Fails (m >>= f) bs e
Fails-after_last {m = m} f {bs} {e = e} r q =
    subst (λ l. Fails (m >>= f) l e) (append-nil bs) (Fails-after f r q)

pub Fails-first :
    {A B : Type 0} {m : M RaknetReader A} (f : A → M RaknetReader B) {bs : List ℕ} {e : RaknetError}
    → Fails m bs e
    → Fails (m >>= f) bs e
Fails-first {m = m} f {bs} {e} q = record {
  fails = λ front rest. bind_err m f (reader_at front (bs ++ rest)) (q.fails front rest);
}

pub Fails-refuse : {test : Bool} (e : RaknetError) → test ≡ true → Fails (refuse test e) [] e
unfolding refuse
Fails-refuse e h =
    subst (λ t. Fails (refuse t e) [] e) (sym h) (record { fails = λ front rest. λ i. err e })

-- The bytes that decide may be followed by others.
pub Fails-append :
    {A : Type 0} {m : M RaknetReader A} {bs : List ℕ} {e : RaknetError} (more : List ℕ)
    → Fails m bs e
    → Fails m (bs ++ more) e
Fails-append {m = m} {bs} {e} more q = record {
  fails = λ front rest.
      ap (λ l. m (reader_at front l)) (append_assoc bs more rest) ∙ q.fails front (more ++ rest);
}

pub run-Fails :
    {A : Type 0} {m : M RaknetReader A} {bs : List ℕ} {e : RaknetError}
    → Fails m bs e
    → run m (new bs) ≡ err e
run-Fails {m = m} {bs} {e} q =
    subst (λ l. run m (new l) ≡ err e) (append-nil bs) (rw (q.fails [] [], run))
