-- ===== src/Base/Results.antt =====
-- Results of code that throws, and postconditions on them.
use mathlib.Core.Path.{◌≡◌, refl, subst}
use mathlib.Core.Logic.{◌⊎◌, inl, inr}
use mathlib.Core.Bool.{Bool, true, false}
use mathlib.Core.Option.{Option, none, some}
use qvac_atlas.Base.Tests.{if◌then◌else◌}

abbrev pub and_then : {A B : Type 0} → Option A → (A → Option B) → Option B
and_then none f = none
and_then (some a) f = f a

pub and_then-some :
    {A B : Type 0} (o : Option A) (f : A → Option B) (b : B)
    → and_then o f ≡ some b
    → (a : A) × (o ≡ some a) × (f a ≡ some b)
and_then-some none f b e = cc
and_then-some (some a) f b e = (a, refl, e)

pub data Result (E A : Type 0) : Type 0 where
  ok : A → Result E A
  err : E → Result E A

module _ {E : Type 0} where
  unfoldable pub bind_result : {A B : Type 0} → Result E A → (A → Result E B) → Result E B
  bind_result (ok a) f = f a
  bind_result (err e) f = err e

  unfoldable pub or_raise : {A : Type 0} → Option A → E → Result E A
  or_raise (some a) e = ok a
  or_raise none e = err e

  -- `if (!test) throw`.
  unfoldable pub require : Bool → E → Result E (Unit {0})
  require b e = if b then ok tt else err e

-- `try { ... } catch (error) { throw ... }`.
abbrev pub map_error : {E F A : Type 0} → (E → F) → Result E A → Result F A
map_error f (ok a) = ok a
map_error f (err e) = err (f e)

pub Result-cases :
    {E A : Type 0} (r : Result E A) → ((a : A) × (r ≡ ok a)) ⊎ ((e : E) × (r ≡ err e))
Result-cases (ok a) = inl (a, refl)
Result-cases (err e) = inr (e, refl)

-- What holds of the value, if there is one.
pub data Ensures {E A : Type 0} (P : A → Type 0) : Result E A → Type 0 where
  holds : {a : A} → P a → Ensures P (ok a)
  rejected : {e : E} → Ensures P (err e)

pub Ensures-ok :
    {E A : Type 0} {P : A → Type 0} {r : Result E A} {a : A} → Ensures P r → r ≡ ok a → P a
Ensures-ok {P} (holds h) e = subst P (cc) h
Ensures-ok rejected e = cc

pub Ensures-weaken :
    {E A : Type 0} {P Q : A → Type 0} {r : Result E A}
    → Ensures P r
    → ((a : A) → P a → Q a)
    → Ensures Q r
Ensures-weaken (holds {a} h) k = holds (k a h)
Ensures-weaken rejected k = rejected

pub or_raise-Ensures :
    {E A : Type 0} (o : Option A) (e : E) → Ensures (λ a. o ≡ some a) (or_raise o e)
unfolding or_raise
or_raise-Ensures (some a) e = holds refl
or_raise-Ensures none e = rejected

pub result-Ensures : {E A : Type 0} (r : Result E A) → Ensures (λ a. r ≡ ok a) r
result-Ensures (ok a) = holds refl
result-Ensures (err e) = rejected

pub map_error-Ensures :
    {E F A : Type 0} (f : E → F) (r : Result E A) → Ensures (λ a. r ≡ ok a) (map_error f r)
map_error-Ensures f (ok a) = holds refl
map_error-Ensures f (err e) = rejected

-- The rules of a `do` block: for any part, for a check, and for a value that may be missing.
module _ {E B : Type 0} {Q : B → Type 0} where
  pub Ensures-bind :
      {A : Type 0} {P : A → Type 0} {r : Result E A} {f : A → Result E B}
      → Ensures P r
      → ((a : A) → P a → Ensures Q (f a))
      → Ensures Q (bind_result r f)
  unfolding bind_result
  Ensures-bind (holds {a} h) k = k a h
  Ensures-bind rejected k = rejected

  pub Ensures-require :
      (b : Bool) (e : E) (f : Unit {0} → Result E B)
      → (b ≡ true → Ensures Q (f tt))
      → Ensures Q (bind_result (require b e) f)
  unfolding bind_result require
  Ensures-require true e f k = k refl
  Ensures-require false e f k = rejected

  pub Ensures-raise :
      {A : Type 0} (o : Option A) (e : E) (f : A → Result E B)
      → ((a : A) → o ≡ some a → Ensures Q (f a))
      → Ensures Q (bind_result (or_raise o e) f)
  unfolding bind_result or_raise
  Ensures-raise (some a) e f k = k a refl
  Ensures-raise none e f k = rejected
