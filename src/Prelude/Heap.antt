-- ===== src/Prelude/Heap.antt =====
-- Objects behind pointers: a heap is a function from addresses.
use Prim.Native.Nat.{ℕ}
use mathlib.Core.Path.{◌≡◌, fun_ext}
use mathlib.Core.Logic.{◌≢◌}
use native.Mathlib.Omega.{arith}
use easy_proxies.Prelude.Tests.{◌==◌, if◌then◌else◌}

module _ {ℓ} {A : Type ℓ} where
  abbrev pub update : (ℕ → A) → ℕ → A → ℕ → A
  update h p a q = if q == p then a else h q

  pub update_self : (h : ℕ → A) (p : ℕ) (a : A) → update h p a p ≡ a
  update_self h p a = ground arith

  pub update_ne : (h : ℕ → A) (p q : ℕ) (a : A) → q ≢ p → update h p a q ≡ h q
  update_ne h p q a ne = ground arith

  -- A write of what is there changes nothing.
  pub update_same : (h : ℕ → A) (p : ℕ) → update h p (h p) ≡ h
  update_same h p = fun_ext (λ q. ground (arith))
