-- ===== src/Base/Outcome.antt =====
-- What a Go call returns: a value, an error value, or a panic. Go errors are compared only by
-- `errors.Is`, so an error is named for the place that makes it; wrapping by `%w` keeps the name.
use mathlib.Core.Path.{◌≡◌, refl, ap}
use mathlib.Core.Bool.{Bool, true, false}
use mathlib.Core.Option.{Option, none, some}

pub data Result {ℓ} (E : Type 0) (A : Type ℓ) : Type ℓ where
  ok : A → Result E A
  err : E → Result E A
  panic : Result E A

-- Shut, so that an equation about a chain shows its parts.
infixl 5 ◌>>=◌ ◌>>◌
unfoldable pub ◌>>=◌ {ℓ κ} :
    {E : Type 0} {A : Type ℓ} {B : Type κ} → Result E A → (A → Result E B) → Result E B
ok a >>= f = f a
err e >>= f = err e
panic >>= f = panic

abbrev pub ◌>>◌ {ℓ} : {E : Type 0} {B : Type ℓ} → Result E (Unit {0}) → Result E B → Result E B
m >> k = m >>= λ _. k

-- `if bad { return err }`.
abbrev pub fail_if : {E : Type 0} → Bool → E → Result E (Unit {0})
fail_if true e = err e
fail_if false e = ok tt

-- `if !ok { return err }`.
abbrev pub or_fail {ℓ} : {E : Type 0} {A : Type ℓ} → Option A → E → Result E A
or_fail none e = err e
or_fail (some a) e = ok a

-- To use a successful chain: its first call succeeded, and so did the rest.
pub from_bind {ℓ κ μ} :
    {E : Type 0} {A : Type ℓ} {B : Type κ} {C : Type μ} (m : Result E A) (f : A → Result E B)
    {b : B}
    → (m >>= f) ≡ ok b
    → ((a : A) → m ≡ ok a → f a ≡ ok b → C)
    → C
unfolding ◌>>=◌
from_bind (ok a) f h k = k a refl h
from_bind (err e) f h k = absurd (cc)
from_bind panic f h k = absurd (cc)

pub ok-injective {ℓ} :
    {E : Type 0} {A : Type ℓ} {a b : A} → ◌≡◌ {A = Result E A} (ok a) (ok b) → a ≡ b
ok-injective {a = a} e = ap (λ r. elim r [ ok x ↦ x | _ ↦ a ]) e

pub fail_if-eq-ok : {E : Type 0} (b : Bool) (e : E) {u : Unit {0}} → fail_if b e ≡ ok u → b ≡ false
fail_if-eq-ok true e h = cc
fail_if-eq-ok false e h = refl

pub or_fail-eq-ok {ℓ} :
    {E : Type 0} {A : Type ℓ} (o : Option A) (e : E) {a : A} → or_fail o e ≡ ok a → o ≡ some a
or_fail-eq-ok none e h = cc
or_fail-eq-ok (some a) e h = ground native.Mathlib.Omega.arith

pub ok-bind {ℓ κ} :
    {E : Type 0} {A : Type ℓ} {B : Type κ} (a : A) (f : A → Result E B) → (ok a >>= f) ≡ f a
unfolding ◌>>=◌
ok-bind a f = refl

-- The call does not panic.
abbrev pub IsCalm {ℓ} : {E : Type 0} {A : Type ℓ} → Result E A → Type 0
IsCalm (ok a) = Unit
IsCalm (err e) = Unit
IsCalm panic = ⊥

pub >>=-IsCalm {ℓ κ} :
    {E : Type 0} {A : Type ℓ} {B : Type κ} (m : Result E A) (f : A → Result E B)
    → IsCalm m
    → ((a : A) → m ≡ ok a → IsCalm (f a))
    → IsCalm (m >>= f)
unfolding ◌>>=◌
>>=-IsCalm (ok a) f h k = k a refl
>>=-IsCalm (err e) f h k = tt
>>=-IsCalm panic f h k = absurd h
