-- ===== src/Prelude/Keys.antt =====
-- Maps that hold each key once: what a write and a deletion do to a count of the values.
use Prim.Native.Nat.{ℕ, ◌+◌}
use Prim.Native.String.{String}
use mathlib.Core.Path.{◌≡◌, refl}
use mathlib.Core.Bool.{Bool}
use mathlib.Core.List.{List, [], ◌∷◌}
use mathlib.Core.Option.{none, some}
use native.Mathlib.Omega.{arith}
use text.Mathlib.TextEquality.{eq_iff}
use easy_proxies.Prelude.Lists.{count, indicator}
use easy_proxies.Prelude.Dict.{lookup, put, delete, lookup-put, lookup-delete}

module _ {ℓ} {V : Type ℓ} where
  abbrev pub Distinct : List (String × V) → Type ℓ
  Distinct [] = Unit
  Distinct ((at, value) ∷ rest) = (lookup at rest ≡ none) × Distinct rest

  abbrev pub count_values : (V → Bool) → List (String × V) → ℕ
  count_values p m = count (λ e. p e.1) m

  pub delete_absent :
      (m : List (String × V)) (key : String) → lookup key m ≡ none → delete m key ≡ m
  unfolding lookup delete
  delete_absent [] key e = refl
  delete_absent ((at, value) ∷ rest) key e = ground (arith, delete_absent rest key)

  pub Distinct-put :
      (m : List (String × V)) (key : String) (value : V) → Distinct m → Distinct (put m key value)
  unfolding lookup put
  Distinct-put [] key value d = (refl, tt)
  Distinct-put ((at, old) ∷ rest) key value d = ground (
    arith,
    Distinct-put rest key value d.1,
    lookup-put rest key at value,
    eq_iff at key,
    eq_iff key at,
    d.0,
  )

  pub Distinct-delete :
      (m : List (String × V)) (key : String) → Distinct m → Distinct (delete m key)
  unfolding lookup delete
  Distinct-delete [] key d = d
  Distinct-delete ((at, old) ∷ rest) key d = ground (
    arith,
    Distinct-delete rest key d.1,
    lookup-delete rest key at,
    eq_iff at key,
    eq_iff key at,
    d.0,
  )

  pub count-put_absent :
      (p : V → Bool) (m : List (String × V)) (key : String) (value : V)
      → lookup key m ≡ none
      → count_values p (put m key value) ≡ count_values p m + indicator (p value)
  unfolding lookup put
  count-put_absent p [] key value e = ground arith
  count-put_absent p ((at, old) ∷ rest) key value e =
      ground (arith, count-put_absent p rest key value)

  pub count-put_present :
      (p : V → Bool) (m : List (String × V)) (key : String) (value : V) {old : V}
      → lookup key m ≡ some old
      → count_values p (put m key value) + indicator (p old)
        ≡ count_values p m + indicator (p value)
  unfolding lookup put
  count-put_present p [] key value e = absurd (cc)
  count-put_present p ((at, v) ∷ rest) key value {old} e =
      ground (arith, count-put_present p rest key value {old = old})

  pub count-delete :
      (p : V → Bool) (m : List (String × V)) (key : String) {old : V}
      → Distinct m
      → lookup key m ≡ some old
      → count_values p (delete m key) + indicator (p old) ≡ count_values p m
  unfolding lookup delete
  count-delete p [] key d e = absurd (cc)
  count-delete p ((at, v) ∷ rest) key {old} d e =
      ground
        (arith, count-delete p rest key {old = old} d.1, delete_absent rest key, eq_iff at key, d.0)
