-- ===== src/Base/Returns.antt =====
-- A computation that returns, neither with a fault nor for lack of fuel, and what holds of its value.
use mathlib.Core.Path.{◌≡◌, refl, ap, sym, subst, ◌∙◌}
use mathlib.Core.Bool.{Bool, true, false}
use arm_kernel.Base.Tests.{if◌then◌else◌}
use arm_kernel.Base.Always.{Always, value_or}
use arm_kernel.Base.Outcome.{Run, ok, ◌>>=◌}

pub record Returns {ℓ} {A : Type ℓ} (P : A → Type 0) (r : Run A) : Type ℓ where
  pub value : A
  pub ends : r ≡ ok value
  pub holds : P value

pub Returns-ok {ℓ} : {A : Type ℓ} {P : A → Type 0} {a : A} → P a → Returns P (ok a)
Returns-ok {a = a} h = record { value = a; ends = refl; holds = h }

pub Returns-if {ℓ} :
    {A : Type ℓ} {P : A → Type 0} (b : Bool) {m n : Run A}
    → Returns P m
    → Returns P n
    → Returns P (if b then m else n)
Returns-if true h i = h
Returns-if false h i = i

pub Returns-bind {ℓ κ} :
    {A : Type ℓ} {B : Type κ} {P : A → Type 0} {Q : B → Type 0} (m : Run A) {f : A → Run B}
    → Returns P m
    → ((a : A) → P a → Returns Q (f a))
    → Returns Q (m >>= f)
Returns-bind m {f = f} h i =
    let r = i h.value h.holds in
    record { value = r.value; ends = ap (λ x. x >>= f) h.ends ∙ r.ends; holds = r.holds }

pub Returns-Always {ℓ} : {A : Type ℓ} {P : A → Type 0} {r : Run A} → Returns P r → Always P r
Returns-Always {P = P} h = record {
  holds = λ a e. subst P (ap (value_or a) (sym h.ends ∙ e)) h.holds;
}
