-- ===== src/Base/Always.antt =====
-- What holds of every value that a computation returns. A fault and a lack of fuel return none.
use mathlib.Core.Path.{◌≡◌, refl, ap, subst}
use native.Mathlib.Omega.{arith}
use mathlib.Core.Bool.{Bool, true, false}
use arm_kernel.Base.Tests.{if◌then◌else◌}
use arm_kernel.Base.Outcome.{Run, ok, fault, out_of_fuel, ◌>>=◌}

pub record Always {ℓ} {A : Type ℓ} (P : A → Type 0) (r : Run A) : Type ℓ where
  pub holds : (a : A) → r ≡ ok a → P a

abbrev pub value_or {ℓ} : {A : Type ℓ} → A → Run A → A
value_or b (ok a) = a
value_or b _ = b

pub Always-ok {ℓ} : {A : Type ℓ} {P : A → Type 0} {a : A} → P a → Always P (ok a)
Always-ok {P = P} {a = a} h = record { holds = λ b e. subst P (ap (value_or a) e) h }

pub Always-if {ℓ} :
    {A : Type ℓ} {P : A → Type 0} (b : Bool) {m n : Run A}
    → Always P m
    → Always P n
    → Always P (if b then m else n)
Always-if true h i = h
Always-if false h i = i

pub Always-bind {ℓ κ} :
    {A : Type ℓ} {B : Type κ} {P : A → Type 0} {Q : B → Type 0} (m : Run A) {f : A → Run B}
    → Always P m
    → ((a : A) → P a → Always Q (f a))
    → Always Q (m >>= f)
Always-bind (ok a) h i = i a (h.holds a refl)
Always-bind fault h i = record { holds = λ b e. absurd (ground arith) }
Always-bind out_of_fuel h i = record { holds = λ b e. absurd (ground arith) }

-- Nothing is known of the value that is passed on.
pub Always-then {ℓ κ} :
    {A : Type ℓ} {B : Type κ} {Q : B → Type 0} (m : Run A) {f : A → Run B}
    → ((a : A) → Always Q (f a))
    → Always Q (m >>= f)
Always-then m i = Always-bind {P = λ _. Unit} m (record { holds = λ a e. tt }) (λ a _. i a)

pub Always-map {ℓ} :
    {A : Type ℓ} {P Q : A → Type 0} {r : Run A} → ((a : A) → P a → Q a) → Always P r → Always Q r
Always-map f h = record { holds = λ a e. f a (h.holds a e) }
