-- ===== src/Base/Results.antt =====
-- A call that may throw: `ok` with its value, or `err` with what was thrown.
use mathlib.Core.Path.{◌≡◌, refl}
use mathlib.Core.Logic.{◌⊎◌, inl, inr}
use mathlib.Core.Bool.{Bool, true, false}
use mathlib.Core.Option.{Option, none, some}

pub data Result (E A : Type 0) : Type 0 where
  ok : A → Result E A
  err : E → Result E A

infixl 5 ◌>>=◌ ◌>>◌
abbrev pub ◌>>=◌ : {E A B : Type 0} → Result E A → (A → Result E B) → Result E B
ok a >>= f = f a
err e >>= f = err e

abbrev pub ◌>>◌ : {E B : Type 0} → Result E (Unit {0}) → Result E B → Result E B
m >> k = m >>= λ _. k

-- `if (!test) throw error`
abbrev pub require : {E : Type 0} → Bool → E → Result E (Unit {0})
require true e = ok tt
require false e = err e

abbrev pub or_throw : {E A : Type 0} → Option A → E → Result E A
or_throw (some a) e = ok a
or_throw none e = err e

pub Result-cases :
    {E A : Type 0} (r : Result E A) → ((a : A) × (r ≡ ok a)) ⊎ ((e : E) × (r ≡ err e))
Result-cases (ok a) = inl (a, refl)
Result-cases (err e) = inr (e, refl)

-- What a chain of calls that returns says of its first call.
module _ {E A B : Type 0} where
  pub bind_ok :
      (m : Result E A) (f : A → Result E B) (b : B)
      → (m >>= f) ≡ ok b
      → (a : A) × (m ≡ ok a) × (f a ≡ ok b)
  bind_ok (ok a) f b e = (a, refl, e)
  bind_ok (err x) f b e = absurd (cc e)

  pub or_throw_ok :
      (o : Option A) (x : E) (f : A → Result E B) (b : B)
      → (or_throw o x >>= f) ≡ ok b
      → (a : A) × (o ≡ some a) × (f a ≡ ok b)
  or_throw_ok (some a) x f b e = (a, refl, e)
  or_throw_ok none x f b e = absurd (cc e)

pub require_ok :
    {E B : Type 0} (t : Bool) (x : E) (k : Result E B) (b : B)
    → (require t x >> k) ≡ ok b
    → (t ≡ true) × (k ≡ ok b)
require_ok true x k b e = (refl, e)
require_ok false x k b e = absurd (cc e)

pub require_last : {E : Type 0} (t : Bool) (x : E) → require t x ≡ ok tt → t ≡ true
require_last true x e = refl
require_last false x e = absurd (cc e)

pub ok_injective : {E A : Type 0} (a b : A) → ◌≡◌ {A = Result E A} (ok a) (ok b) → a ≡ b
ok_injective a b e = cc e
