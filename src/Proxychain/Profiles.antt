-- ===== src/Proxychain/Profiles.antt =====
-- internal/proxychain/profile.go: the normal form of chain profiles, and their lookup. The scheme
-- that `url.Parse` finds in a text, and the hash of a profile in hexadecimal, are arguments.
use Prim.Native.String.{◌++◌ as append}
use easy_proxies.Prelude.{
  ℕ, ◌+◌, Bool, true, false, ◌&&◌, ◌||◌, Option, none, some, List, [], ◌∷◌, ◌++◌, String, codes,
  lower, drop, length, ltb, str_eq, trim, if◌then◌else◌, ◌==◌,
}
use easy_proxies.Importer.Sources.{contains}

pub record Hop : Type 0 where
  pub uri : String

pub record Profile : Type 0 where
  pub id : String
  pub name : String
  pub enabled : Bool
  pub hops : List Hop

-- The scheme of a text that parses as a URL, and twelve digits of the hash of the hops.
pub record UrlEnv : Type 0 where
  pub scheme : String → Option String
  pub content_id_12 : List Hop → String

abbrev pub max_hops : ℕ
max_hops = 8

unfoldable pub same_codes : List ℕ → List ℕ → Bool
same_codes [] [] = true
same_codes (c ∷ cs) (d ∷ ds) = c == d && same_codes cs ds
same_codes _ _ = false

unfoldable pub was_seen : List ℕ → List (List ℕ) → Bool
unfolding same_codes
was_seen key [] = false
was_seen key (k ∷ ks) = same_codes k key || was_seen key ks

-- Hops are told apart with the scheme in lower case.
unfoldable pub hop_identity : String → String → List ℕ
hop_identity scheme uri =
    lower (codes scheme) ++ (b':' ∷ drop (length (codes scheme) + 1) (codes uri))

unfoldable pub normalize_hops : UrlEnv → List (List ℕ) → List Hop → Option (List Hop)
unfolding was_seen hop_identity
normalize_hops env seen [] = some []
normalize_hops env seen (hop ∷ hops) =
    let uri = trim hop.uri in
    elim (str_eq uri "") [
      | true ↦ none
      | false ↦ elim (env.scheme uri) [
        | none ↦ none
        | some scheme ↦
            let identity = hop_identity scheme uri in
            elim (str_eq scheme "" || was_seen identity seen) [
              | true ↦ none
              | false ↦ elim (normalize_hops env (identity ∷ seen) hops) [
                | none ↦ none
                | some rest ↦ some (record { uri = uri } ∷ rest)
              ]
            ]
      ]
    ]

-- The id and the name of a profile with normal hops.
abbrev pub identified_profile : UrlEnv → Profile → List Hop → Profile
identified_profile env profile hops =
    let id =
      if str_eq (trim profile.id) ""
      then append "chain-" (env.content_id_12 hops)
      else trim profile.id in
    record {
      id = id;
      name = if str_eq (trim profile.name) "" then id else trim profile.name;
      enabled = profile.enabled;
      hops = hops;
    }

unfoldable pub normalize_profile : UrlEnv → Profile → Option Profile
unfolding normalize_hops
normalize_profile env profile =
    if length profile.hops == 0 || ltb max_hops (length profile.hops)
    then none
    else elim (normalize_hops env [] profile.hops) [
      | none ↦ none
      | some hops ↦ some (identified_profile env profile hops)
    ]

-- `NormalizeProfiles`, behind the ids that were seen.
unfoldable pub normalize_profiles : UrlEnv → List String → List Profile → Option (List Profile)
unfolding normalize_profile contains
normalize_profiles env ids [] = some []
normalize_profiles env ids (profile ∷ profiles) = elim (normalize_profile env profile) [
  | none ↦ none
  | some normal ↦ elim (contains normal.id ids) [
    | true ↦ none
    | false ↦ elim (normalize_profiles env (normal.id ∷ ids) profiles) [
      | none ↦ none
      | some rest ↦ some (normal ∷ rest)
    ]
  ]
]

unfoldable pub find_trimmed : List Profile → String → Option Profile
find_trimmed [] id = none
find_trimmed (profile ∷ profiles) id =
    if str_eq profile.id id then some profile else find_trimmed profiles id

unfoldable pub find : List Profile → String → Option Profile
unfolding find_trimmed
find profiles id = find_trimmed profiles (trim id)
