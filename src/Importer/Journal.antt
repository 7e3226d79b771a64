-- ===== src/Importer/Journal.antt =====
-- Maps that are changed key by key, with a record of the old values to go back to.
use easy_proxies.Prelude.{
  Option, none, some, List, [], ◌∷◌, String, lookup, put, delete, lookup-put, lookup-delete,
  Distinct, Distinct-put, str_eq, eq_iff, if◌then◌else◌, ◌≡◌, refl, arith, ◌∙◌, Option-cases, inl,
  inr,
}

module _ {ℓ} {V : Type ℓ} where
  -- `previous[id], existed[id] = m[id]`
  abbrev pub remember :
      List (String × V) → List (String × Option V) → String → List (String × Option V)
  remember m previous id = put previous id (lookup id m)

  -- The same, but not for a key that has a record.
  abbrev pub remember_once :
      List (String × V) → List (String × Option V) → String → List (String × Option V)
  remember_once m previous id = elim (lookup id previous) [
    | some old ↦ previous
    | none ↦ put previous id (lookup id m)
  ]

  abbrev pub restore_value : String → Option V → List (String × V) → List (String × V)
  restore_value id none m = delete m id
  restore_value id (some old) m = put m id old

  unfoldable pub rollback : List (String × Option V) → List (String × V) → List (String × V)
  rollback [] m = m
  rollback ((id, old) ∷ rest) m = rollback rest (restore_value id old m)

  -- A rollback that only puts values back.
  abbrev pub put_back : String → Option V → List (String × V) → List (String × V)
  put_back id none m = m
  put_back id (some old) m = put m id old

  unfoldable pub rollback_existing :
      List (String × Option V) → List (String × V) → List (String × V)
  rollback_existing [] m = m
  rollback_existing ((id, old) ∷ rest) m = rollback_existing rest (put_back id old m)

  -- What a key had before, by the record.
  abbrev pub before : String → List (String × V) → List (String × Option V) → Option V
  before id m previous = elim (lookup id previous) [ none ↦ lookup id m | some old ↦ old ]

  pub lookup-restore_value :
      (id key : String) (old : Option V) (m : List (String × V))
      → lookup id (restore_value key old m) ≡ (if str_eq key id then old else lookup id m)
  lookup-restore_value id key none m = lookup-delete m key id
  lookup-restore_value id key (some old) m = lookup-put m key id old

  pub lookup-rollback :
      (id : String) (previous : List (String × Option V)) (m : List (String × V))
      → Distinct previous
      → lookup id (rollback previous m) ≡ before id m previous
  unfolding rollback lookup
  lookup-rollback id [] m d = refl
  lookup-rollback id ((key, old) ∷ rest) m d =
      lookup-rollback id rest (restore_value key old m) d.1
      ∙ ground (arith, lookup-restore_value id key old m, eq_iff key id, d.0)

  -- Two maps with the same entries.
  abbrev pub Same : List (String × V) → List (String × V) → Type ℓ
  Same m n = (id : String) → lookup id m ≡ lookup id n

  -- The record of what changed since `start`.
  pub record Journal (start m : List (String × V)) (previous : List (String × Option V))
      : Type ℓ where
    pub keys : Distinct previous
    pub kept : (id : String) → before id m previous ≡ lookup id start

  pub Journal-start : (m : List (String × V)) → Journal m m []
  unfolding lookup
  Journal-start m = record { keys = tt; kept = λ id. refl }

  pub Journal-rollback :
      {start m : List (String × V)} {previous : List (String × Option V)}
      → Journal start m previous
      → Same (rollback previous m) start
  Journal-rollback {start} {m} {previous} j id = lookup-rollback id previous m j.keys ∙ j.kept id

  pub Journal-put :
      (start m : List (String × V)) (previous : List (String × Option V)) (id : String) (v : V)
      → Journal start m previous
      → lookup id previous ≡ none
      → Journal start (put m id v) (remember m previous id)
  Journal-put start m previous id v j fresh = record {
    keys = Distinct-put previous id (lookup id m) j.keys;
    kept = λ key. ground (
      arith,
      j.kept key,
      lookup-put m id key v,
      lookup-put previous id key (lookup id m),
      eq_iff id key,
    );
  }

  pub Journal-delete :
      (start m : List (String × V)) (previous : List (String × Option V)) (id : String)
      → Journal start m previous
      → lookup id previous ≡ none
      → Journal start (delete m id) (remember m previous id)
  Journal-delete start m previous id j fresh = record {
    keys = Distinct-put previous id (lookup id m) j.keys;
    kept = λ key. ground (
      arith,
      j.kept key,
      lookup-delete m id key,
      lookup-put previous id key (lookup id m),
      eq_iff id key,
    );
  }

  pub Journal-delete_once :
      (start m : List (String × V)) (previous : List (String × Option V)) (id : String)
      → Journal start m previous
      → Journal start (delete m id) (remember_once m previous id)
  Journal-delete_once start m previous id j = elim (Option-cases (lookup id previous)) [
    | inl e ↦ rw (remember_once, e) (Journal-delete start m previous id j e)
    | inr (old, e) ↦
        rw (remember_once, e)
          (record {
            keys = j.keys;
            kept = λ key. ground (arith, j.kept key, lookup-delete m id key, eq_iff id key, e);
          })
  ]

  -- A key that had no value has none.
  abbrev pub Gone : List (String × V) → List (String × Option V) → Type ℓ
  Gone m previous = (id : String) → lookup id previous ≡ some none → lookup id m ≡ none

  lookup-put_back :
      (id key : String) (old : Option V) (m : List (String × V))
      → lookup id (put_back key old m)
        ≡ (if str_eq key id then elim old [ none ↦ lookup id m | some v ↦ some v ] else lookup id m)
  lookup-put_back id key none m = ground arith
  lookup-put_back id key (some old) m = lookup-put m key id old

  abbrev put_back_value : String → List (String × V) → Option (Option V) → Option V
  put_back_value id m none = lookup id m
  put_back_value id m (some none) = lookup id m
  put_back_value id m (some (some v)) = some v

  lookup-rollback_existing :
      (id : String) (previous : List (String × Option V)) (m : List (String × V))
      → Distinct previous
      → lookup id (rollback_existing previous m) ≡ put_back_value id m (lookup id previous)
  unfolding rollback_existing lookup
  lookup-rollback_existing id [] m d = refl
  lookup-rollback_existing id ((key, old) ∷ rest) m d =
      lookup-rollback_existing id rest (put_back key old m) d.1
      ∙ ground (arith, lookup-put_back id key old m, eq_iff key id, d.0)

  pub Journal-rollback_existing :
      {start m : List (String × V)} {previous : List (String × Option V)}
      → Journal start m previous
      → Gone m previous
      → Same (rollback_existing previous m) start
  Journal-rollback_existing {start} {m} {previous} j g id =
      lookup-rollback_existing id previous m j.keys ∙ ground (arith, j.kept id, g id)
