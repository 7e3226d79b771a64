-- ===== src/Proxychain/Lookup.antt =====
-- The lookup of normal chain profiles.
use Prim.Native.String.{◌++◌ as append}
use easy_proxies.Prelude.{
  false, ◌||◌, Option, none, some, List, [], ◌∷◌, String, str_eq, str_eq_self, trim, trim-trim, All,
  length, ltb, ◌==◌, ◌≡◌, refl, arith, ap, ◌∙◌, Option-cases, Bool-cases, inl, inr,
}
use easy_proxies.Importer.Sources.{contains}
use easy_proxies.Proxychain.Profiles.{
  Hop, Profile, UrlEnv, identified_profile, max_hops, normalize_hops, normalize_profile,
  normalize_profiles, find_trimmed, find,
}

-- The digits of a hash have no blank around them.
abbrev pub HasTrimmedIds : UrlEnv → Type 0
HasTrimmedIds env =
    (hops : List Hop)
    → trim (append "chain-" (env.content_id_12 hops)) ≡ append "chain-" (env.content_id_12 hops)

-- Trimmed ids that differ from each other and from those seen.
abbrev Ids : List String → List Profile → Type 0
Ids ids [] = Unit
Ids ids (p ∷ ps) = (trim p.id ≡ p.id) × (contains p.id ids ≡ false) × Ids (p.id ∷ ids) ps

abbrev pub OnSome : {A : Type 0} → (A → Type 0) → Option A → Type 0
OnSome P none = Unit
OnSome P (some a) = P a

identified_profile_trimmed :
    (env : UrlEnv) (p : Profile) (hops : List Hop)
    → HasTrimmedIds env
    → trim (identified_profile env p hops).id ≡ (identified_profile env p hops).id
identified_profile_trimmed env p hops h = elim (Bool-cases (str_eq (trim p.id) "")) [
  | inl y ↦ rw y (h hops)
  | inr n ↦ rw n (trim-trim p.id)
]

normalize_profile_trimmed :
    (env : UrlEnv) (p : Profile)
    → HasTrimmedIds env
    → OnSome (λ q. trim q.id ≡ q.id) (normalize_profile env p)
unfolding normalize_profile
normalize_profile_trimmed env p h =
    elim (Bool-cases (length p.hops == 0 || ltb max_hops (length p.hops))) [
      | inl y ↦ rw (normalize_profile, y) tt
      | inr n ↦ elim (Option-cases (normalize_hops env [] p.hops)) [
        | inl e ↦ rw (normalize_profile, n) (rw e tt)
        | inr (hops, e) ↦ rw (normalize_profile, n) (rw e (identified_profile_trimmed env p hops h))
      ]
    ]

normalize_profiles-Ids :
    (env : UrlEnv) (ids : List String) (ps : List Profile)
    → HasTrimmedIds env
    → OnSome (Ids ids) (normalize_profiles env ids ps)
unfolding normalize_profiles
normalize_profiles-Ids env ids [] h = tt
normalize_profiles-Ids env ids (p ∷ ps) h = elim (Option-cases (normalize_profile env p)) [
  | inl e ↦ rw (normalize_profiles, e) tt
  | inr (q, e) ↦
      let trimmed = rw e at (normalize_profile_trimmed env p h) in
      elim (Bool-cases (contains q.id ids)) [
        | inl y ↦ rw (normalize_profiles, e) (rw y tt)
        | inr n ↦
            let rest = normalize_profiles-Ids env (q.id ∷ ids) ps h in
            elim (Option-cases (normalize_profiles env (q.id ∷ ids) ps)) [
              | inl e' ↦ rw (normalize_profiles, e) (rw n (rw e' tt))
              | inr (qs, e') ↦
                  rw (normalize_profiles, e) (rw n (rw e' (trimmed, n, (rw e' at rest))))
            ]
      ]
]

abbrev Findable : List String → List Profile → Profile → Type 0
Findable ids ps p =
    (trim p.id ≡ p.id) × (contains p.id ids ≡ false) × (find_trimmed ps p.id ≡ some p)

Findable-cons :
    (ids : List String) (q : Profile) (ps qs : List Profile)
    → All (Findable (q.id ∷ ids) ps) qs
    → All (Findable ids (q ∷ ps)) qs
unfolding contains find_trimmed
Findable-cons ids q ps [] h = tt
Findable-cons ids q ps (p ∷ qs) ((t, c, f), h) =
    ((t, ground (arith, c), ground (arith, c, f)), Findable-cons ids q ps qs h)

Ids-Findable : (ids : List String) (ps : List Profile) → Ids ids ps → All (Findable ids ps) ps
unfolding find_trimmed
Ids-Findable ids [] h = tt
Ids-Findable ids (p ∷ ps) (t, c, h) =
    ((t, c, rw (str_eq_self p.id) refl), Findable-cons ids p ps ps (Ids-Findable (p.id ∷ ids) ps h))

abbrev pub Found : List Profile → Type 0
Found ps = All (λ p. find ps p.id ≡ some p) ps

Findable-Found :
    (all ps : List Profile) → All (Findable [] all) ps → All (λ p. find all p.id ≡ some p) ps
unfolding find
Findable-Found all [] h = tt
Findable-Found all (p ∷ ps) ((t, c, f), h) = (ap (find_trimmed all) t ∙ f, Findable-Found all ps h)

-- After profiles have been brought to normal form without an error, the lookup of the id of each of
-- them finds that very profile. (The digits of a hash have no blank around them.)
pub find-normalize_profiles :
    (env : UrlEnv) (ps : List Profile)
    → HasTrimmedIds env
    → OnSome Found (normalize_profiles env [] ps)
find-normalize_profiles env ps h =
    found (normalize_profiles env [] ps) (normalize_profiles-Ids env [] ps h)
  where
    found : (o : Option (List Profile)) → OnSome (Ids []) o → OnSome Found o
    found none k = tt
    found (some qs) k = Findable-Found qs qs (Ids-Findable [] qs k)
