-- ===== src/Base/Result.antt =====
-- Go's `(value, error)` results: a value, or an error.
use mathlib.Core.Path.{◌≡◌, refl}
use mathlib.Core.Bool.{Bool, true, false}
use mathlib.Core.Option.{Option, none, some}

pub data Result (E A : Type 0) : Type 0 where
  ok : A → Result E A
  err : E → Result E A

-- a Go function that returns only an error; `done` is nil
abbrev pub Check : Type 0 → Type 0
Check E = Result E (Unit {0})

module _ {E : Type 0} where
  abbrev pub done : Check E
  done = ok tt

  -- `if b { return err }`
  abbrev pub fail_if : Bool → E → Check E
  fail_if true e = err e
  fail_if false e = done

  infixl 5 ◌>>=◌ ◌>>◌
  abbrev pub ◌>>=◌ : {A B : Type 0} → Result E A → (A → Result E B) → Result E B
  ok a >>= f = f a
  err e >>= f = err e

  abbrev pub ◌>>◌ : {B : Type 0} → Check E → Result E B → Result E B
  m >> k = m >>= λ _. k

-- `if err != nil { return fmt.Errorf("…: %w", err) }`
abbrev pub map_err : {E F A : Type 0} → (E → F) → Result E A → Result F A
map_err f (ok a) = ok a
map_err f (err e) = err (f e)

-- the value that a Go pointer field holds, if it is not nil
abbrev pub when_some : {E A : Type 0} → Option A → (A → Check E) → Check E
when_some none f = done
when_some (some a) f = f a

-- the first step gave a value, and what follows it gave `result`
abbrev pub Gives : {E A B : Type 0} → Result E A → (A → Result E B) → B → Type 0
Gives {A = A} first next result = (value : A) × (first ≡ ok value) × (next value ≡ ok result)

pub >>=-eq-ok :
    {E A B : Type 0} (first : Result E A) (next : A → Result E B) {result : B}
    → (first >>= next) ≡ ok result
    → Gives first next result
>>=-eq-ok (ok value) next done_ok = (value, refl, done_ok)
>>=-eq-ok (err e) next done_ok = cc

pub map_err-eq-ok :
    {E F A : Type 0} (f : E → F) (m : Result E A) {a : A} → map_err f m ≡ ok a → m ≡ ok a
map_err-eq-ok f (ok a) h = cc h
map_err-eq-ok f (err e) h = cc h

pub fail_if-eq-ok : {E : Type 0} (b : Bool) (e : E) {u : Unit {0}} → fail_if b e ≡ ok u → b ≡ false
fail_if-eq-ok true e h = cc h
fail_if-eq-ok false e h = refl
