-- ===== src/Prelude/Dict.antt =====
-- Go maps with text keys, as association lists.
use Prim.Native.String.{String}
use mathlib.Core.Path.{◌≡◌, refl}
use mathlib.Core.Bool.{true}
use mathlib.Core.List.{List, [], ◌∷◌}
use mathlib.Core.Option.{Option, none, some}
use native.Mathlib.Omega.{arith}
use text.Mathlib.Text.{◌==◌ as str_eq}
use text.Mathlib.TextEquality.{eq_iff}
use easy_proxies.Prelude.Tests.{if◌then◌else◌}

-- A test of two keys is an equation.
pub str_eq_self : (s : String) → str_eq s s ≡ true
str_eq_self s = (eq_iff s s).1 refl

module _ {ℓ} {V : Type ℓ} where
  -- `m[key]`, with `none` for a missing key.
  unfoldable pub lookup : String → List (String × V) → Option V
  lookup key [] = none
  lookup key ((at, value) ∷ rest) = if str_eq at key then some value else lookup key rest

  -- `m[key] = value`
  unfoldable pub put : List (String × V) → String → V → List (String × V)
  put [] key value = (key, value) ∷ []
  put ((at, old) ∷ rest) key value =
      if str_eq at key then (at, value) ∷ rest else (at, old) ∷ put rest key value

  -- `delete(m, key)`
  unfoldable pub delete : List (String × V) → String → List (String × V)
  delete [] key = []
  delete ((at, value) ∷ rest) key =
      if str_eq at key then delete rest key else (at, value) ∷ delete rest key

  pub lookup-put :
      (m : List (String × V)) (key other : String) (value : V)
      → lookup other (put m key value) ≡ (if str_eq key other then some value else lookup other m)
  unfolding lookup put
  lookup-put [] key other value = refl
  lookup-put ((at, old) ∷ rest) key other value =
      ground
        (arith, lookup-put rest key other value, eq_iff at key, eq_iff at other, eq_iff key other)

  pub lookup-delete :
      (m : List (String × V)) (key other : String)
      → lookup other (delete m key) ≡ (if str_eq key other then none else lookup other m)
  unfolding lookup delete
  lookup-delete [] key other = ground arith
  lookup-delete ((at, value) ∷ rest) key other =
      ground (arith, lookup-delete rest key other, eq_iff at key, eq_iff at other, eq_iff key other)
