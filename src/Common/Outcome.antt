-- ===== src/Common/Outcome.antt =====
-- The outcome of a Go function that may return an error or panic.
use mathlib.Core.Bool.{Bool, true, false}
use mathlib.Core.Path.{◌≡◌, refl}
use eventr.Common.Tests.{if◌then◌else◌}
use mathlib.Core.Logic.{◌≢◌}
use mathlib.Core.Option.{Option, none, some}

pub data Outcome {ℓ κ} (E : Type ℓ) (A : Type κ) : Type (ℓ ⊔ κ) where
  ok : A → Outcome E A
  err : E → Outcome E A
  panic : Outcome E A

infixl 5 ◌>>=◌
abbrev pub ◌>>=◌ {ℓ κ μ} :
    {E : Type ℓ} {A : Type κ} {B : Type μ} → Outcome E A → (A → Outcome E B) → Outcome E B
ok a >>= f = f a
err e >>= f = err e
panic >>= f = panic

-- A nil map or pointer that is read: a panic.
abbrev pub or_panic {ℓ κ} : {E : Type ℓ} {A : Type κ} → Option A → Outcome E A
or_panic none = panic
or_panic (some a) = ok a

abbrev pub panic_if {ℓ κ} : {E : Type ℓ} {A : Type κ} → Bool → Outcome E A → Outcome E A
panic_if true next = panic
panic_if false next = next

-- The outcome is no panic, and a value that it returns satisfies P.
unfoldable pub Safe {ℓ κ} : {E : Type ℓ} {A : Type κ} → (A → Type 0) → Outcome E A → Type 0
Safe P (ok a) = P a
Safe P (err e) = Unit
Safe P panic = ⊥

pub Safe-bind {ℓ κ μ} :
    {E : Type ℓ} {A : Type κ} {B : Type μ} (P : A → Type 0) (Q : B → Type 0) (o : Outcome E A)
    (f : A → Outcome E B)
    → Safe P o
    → ((a : A) → P a → Safe Q (f a))
    → Safe Q (o >>= f)
unfolding Safe
Safe-bind P Q (ok a) f h next = next a h
Safe-bind P Q (err e) f h next = tt
Safe-bind P Q panic f h next = absurd h

pub Safe-panic_if {ℓ κ} :
    {E : Type ℓ} {A : Type κ} (P : A → Type 0) (b : Bool) (o : Outcome E A)
    → b ≡ false
    → Safe P o
    → Safe P (panic_if b o)
unfolding Safe
Safe-panic_if P true o h s = cc
Safe-panic_if P false o h s = s

pub Safe-any {ℓ κ} : {E : Type ℓ} {A : Type κ} (o : Outcome E A) → o ≢ panic → Safe (λ a. Unit) o
unfolding Safe
Safe-any (ok a) h = tt
Safe-any (err e) h = tt
Safe-any panic h = absurd (h refl)

pub Safe-weaken {ℓ κ} :
    {E : Type ℓ} {A : Type κ} (P Q : A → Type 0) (o : Outcome E A)
    → Safe P o
    → ((a : A) → P a → Q a)
    → Safe Q o
unfolding Safe
Safe-weaken P Q (ok a) h next = next a h
Safe-weaken P Q (err e) h next = tt
Safe-weaken P Q panic h next = absurd h

pub Safe-if {ℓ κ} :
    {E : Type ℓ} {A : Type κ} (P : A → Type 0) (b : Bool) (o r : Outcome E A)
    → Safe P o
    → Safe P r
    → Safe P (if b then o else r)
unfolding Safe
Safe-if P true o r ho hr = ho
Safe-if P false o r ho hr = hr

pub Safe-ok {ℓ κ} : (E : Type ℓ) {A : Type κ} (P : A → Type 0) (a : A) → P a → Safe {E = E} P (ok a)
unfolding Safe
Safe-ok E P a h = h

-- An error that the outcome gives satisfies Q.
unfoldable pub Fails {ℓ κ} : {E : Type ℓ} {A : Type κ} → (E → Type 0) → Outcome E A → Type 0
Fails Q (ok a) = Unit
Fails Q (err e) = Q e
Fails Q panic = Unit

pub Fails-bind {ℓ κ μ} :
    {E : Type ℓ} {A : Type κ} {B : Type μ} (Q : E → Type 0) (o : Outcome E A) (f : A → Outcome E B)
    → Fails Q o
    → ((a : A) → Fails Q (f a))
    → Fails Q (o >>= f)
unfolding Fails
Fails-bind Q (ok a) f h next = next a
Fails-bind Q (err e) f h next = h
Fails-bind Q panic f h next = tt

pub Fails-ok {ℓ κ} : {E : Type ℓ} {A : Type κ} (Q : E → Type 0) (a : A) → Fails Q (ok a)
unfolding Fails
Fails-ok Q a = tt
