-- ===== src/Svc/Cases.antt =====
-- The choice of kernel_handler_svc in kernel/kernel.c: what holds of every case, with its number,
-- holds of the one that is chosen.
use arm_kernel.Base.{ℕ, zero, suc, ◌+◌, ◌≡◌, sym, subst, arith, List, [], ◌∷◌}
use arm_kernel.Svc.Handler.{select}

-- `P` of each element, with its place counted from `k` on.
abbrev pub Each {ℓ} : {A : Type ℓ} → (ℕ → A → Type 0) → ℕ → List A → Type 0
Each P k [] = Unit
Each P k (x ∷ xs) = P k x × Each P (k + 1) xs

infixr 4 ◌▸◌
abbrev pub ◌▸◌ : {A B : Type 0} → A → B → A × B
a ▸ b = (a, b)

pub select-Each {ℓ} :
    {A : Type ℓ} (P : ℕ → A → Type 0) (k i : ℕ) (xs : List A) (other : A)
    → Each P k xs
    → ((j : ℕ) → P j other)
    → P (k + i) (select xs other i)
select-Each P k i [] other h o = o (k + i)
select-Each P k zero (x ∷ xs) other h o =
    let e : k + 0 ≡ k = omega arith in subst (λ j. P j x) (sym e) h.0
select-Each P k (suc i) (x ∷ xs) other h o =
    let e : k + suc i ≡ k + 1 + i = omega arith in
    subst (λ j. P j (select xs other i)) (sym e) (select-Each P (k + 1) i xs other h.1 o)
