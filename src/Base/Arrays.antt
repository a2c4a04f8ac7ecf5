-- ===== src/Base/Arrays.antt =====
-- C arrays as functions of the index. Bounds are tested where the code can pass them.
use Prim.Native.Nat.{ℕ}
use arm_kernel.Base.Tests.{◌==◌, ltb, if◌then◌else◌}

-- a[ i ] = v
abbrev pub update {ℓ} : {A : Type ℓ} → (ℕ → A) → ℕ → A → ℕ → A
update a i v j = if i == j then v else a j

-- memcpy( dst, src, n )
abbrev pub memcpy {ℓ} : {A : Type ℓ} → (dst src : ℕ → A) → ℕ → ℕ → A
memcpy dst src n i = if ltb i n then src i else dst i
