-- ===== src/Importer/SourceMerge.antt =====
-- What deduplication and merging of sources keep.
use easy_proxies.Prelude.{
  Bool, true, false, not, ◌&&◌, ◌||◌, List, [], ◌∷◌, ◌++◌, String, str_eq, eq_iff, ◌≡◌, refl, ap,
  ◌∙◌, arith, Bool-cases, inl, inr,
}
use easy_proxies.Importer.SourceLaws.{normalize_source_ref_twice}
use easy_proxies.Importer.Nodes.{NodeSourceRef, ManagedNode}
use easy_proxies.Importer.Sources.{
  normalize_source_ref, source_ref_identity, contains, deduplicate_from, deduplicate_source_refs,
  node_source_refs, merge_node_source_refs,
}

-- Sources in normal form, each with an identity of its own that was not seen before.
abbrev pub Normal : List String → List NodeSourceRef → Type 0
Normal seen [] = Unit
Normal seen (r ∷ rs) =
    (normalize_source_ref r ≡ r)
    × (str_eq (source_ref_identity r) "" ≡ false)
    × (contains (source_ref_identity r) seen ≡ false)
    × Normal (source_ref_identity r ∷ seen) rs

deduplicate_from-Normal :
    (seen : List String) (rs : List NodeSourceRef) → Normal seen (deduplicate_from seen rs)
unfolding deduplicate_from
deduplicate_from-Normal seen [] = tt
deduplicate_from-Normal seen (r ∷ rs) = elim (Bool-cases (str_eq key "" || contains key seen)) [
  | inl y ↦ rw y (deduplicate_from-Normal seen rs)
  | inr n ↦ rw n (
    normalize_source_ref_twice r,
    ground arith,
    ground arith,
    deduplicate_from-Normal (key ∷ seen) rs,
  )
]
  where
    key : String
    key = source_ref_identity (normalize_source_ref r)

deduplicate_from-fixed :
    (seen : List String) (rs : List NodeSourceRef) → Normal seen rs → deduplicate_from seen rs ≡ rs
unfolding deduplicate_from
deduplicate_from-fixed seen [] h = refl
deduplicate_from-fixed seen (r ∷ rs) (n, k, c, h) =
    rw n (rw k (rw c (ap (◌∷◌ r) (deduplicate_from-fixed (source_ref_identity r ∷ seen) rs h))))

-- The identities of sources, empty ones left out.
abbrev pub identified : String → List NodeSourceRef → Bool
identified key [] = false
identified key (r ∷ rs) =
    (str_eq (source_ref_identity (normalize_source_ref r)) key && not (str_eq key ""))
    || identified key rs

identified-append :
    (key : String) (rs ss : List NodeSourceRef)
    → identified key (rs ++ ss) ≡ (identified key rs || identified key ss)
identified-append key [] ss = refl
identified-append key (r ∷ rs) ss = ground (arith, identified-append key rs ss)

contains_same :
    (k key : String) (seen : List String)
    → str_eq k key ≡ true
    → contains k seen ≡ contains key seen
contains_same k key seen e = ap (λ x. contains x seen) ((eq_iff k key).0 e)

empty_same : (k key : String) → str_eq k key ≡ true → str_eq k "" ≡ str_eq key ""
empty_same k key e = ap (λ x. str_eq x "") ((eq_iff k key).0 e)

identified-deduplicate_from :
    (key : String) (seen : List String) (rs : List NodeSourceRef)
    → identified key (deduplicate_from seen rs) ≡ (not (contains key seen) && identified key rs)
unfolding deduplicate_from contains
identified-deduplicate_from key seen [] = ground arith
identified-deduplicate_from key seen (r ∷ rs) =
    let k : String = source_ref_identity (normalize_source_ref r) in
    let again : source_ref_identity (normalize_source_ref (normalize_source_ref r)) ≡ k =
      ap source_ref_identity (normalize_source_ref_twice r) in
    elim (Bool-cases (str_eq k "" || contains k seen)) [
      | inl y ↦ rw y (
          identified-deduplicate_from key seen rs
          ∙ ground (arith, contains_same k key seen, empty_same k key))
      | inr n ↦ rw n (
          rw again (
            rw (identified-deduplicate_from key (k ∷ seen) rs)
              (ground (arith, contains_same k key seen, empty_same k key))))
    ]

-- Deduplicating a second time changes nothing: after the first time every source is in normal form
-- and has an identity that is not empty and that no other source of the list has.
pub deduplicate_source_refs_twice :
    (rs : List NodeSourceRef)
    → Normal [] (deduplicate_source_refs rs)
      × (deduplicate_source_refs (deduplicate_source_refs rs) ≡ deduplicate_source_refs rs)
unfolding deduplicate_source_refs
deduplicate_source_refs_twice rs =
    let normal = deduplicate_from-Normal [] rs in
    (normal, deduplicate_from-fixed [] (deduplicate_from [] rs) normal)

-- Merging two nodes keeps exactly the sources of both: an identity occurs among the sources of the
-- merged node if and only if it occurs among those of one of the two.
pub identified-merge_node_source_refs :
    (key : String) (existing incoming : ManagedNode)
    → identified key (merge_node_source_refs existing incoming).source_refs
      ≡ (identified key (node_source_refs existing) || identified key (node_source_refs incoming))
unfolding merge_node_source_refs deduplicate_source_refs contains
identified-merge_node_source_refs key existing incoming =
    identified-deduplicate_from key [] (node_source_refs existing ++ node_source_refs incoming)
    ∙ identified-append key (node_source_refs existing) (node_source_refs incoming)
