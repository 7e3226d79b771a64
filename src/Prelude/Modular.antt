-- ===== src/Prelude/Modular.antt =====
-- Remainders that meet every index.
use Prim.Native.Nat.{ℕ, ◌+◌, ◌-◌, ◌%◌, ◌<◌}
use mathlib.Core.Path.{◌≡◌, sym, ap, ◌∙◌}
use mathlib.Core.Logic.{inl, inr}
use native.Mathlib.Nat.{mod-add-mod, mod-eq_of_lt, add-mod_right, mod-lt}
use native.Mathlib.Omega.{arith}
use easy_proxies.Prelude.Tests.{leb, leb→le, Bool-cases}

-- Counting up from anywhere, the first `n` numbers meet every residue.
pub residue_covered : (start i n : ℕ) → i < n → (k : ℕ) × (k < n) × ((start + k) % n ≡ i)
residue_covered start i n h = elim (Bool-cases (leb r i)) [
  | inl e ↦ (
    i - r,
    omega arith,
    sym (mod-add-mod start n (i - r))
        ∙ (ap (λ t. t % n) (let le = leb→le r i e in omega arith) ∙ mod-eq_of_lt h),
  )
  | inr e ↦ (
    i + n - r,
    ground (arith, mod-lt start {m = n}),
    sym (mod-add-mod start n (i + n - r))
        ∙ (ap (λ t. t % n) (ground (arith, mod-lt start {m = n}))
            ∙ (add-mod_right i n ∙ mod-eq_of_lt h)),
  )
]
  where
    r : ℕ
    r = start % n
