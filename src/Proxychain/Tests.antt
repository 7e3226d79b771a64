-- ===== src/Proxychain/Tests.antt =====
-- Two profiles, one without an id.
use easy_proxies.Prelude.{true, some, [], ◌∷◌, refl, trim}
use easy_proxies.Proxychain.Profiles.{Profile, UrlEnv, normalize_profiles}
use easy_proxies.Proxychain.Lookup.{OnSome, Found, HasTrimmedIds, find-normalize_profiles}

abbrev env : UrlEnv
env = record { scheme = λ text. some "ss"; content_id_12 = λ hops. "0123456789ab" }

env-HasTrimmedIds : HasTrimmedIds env
unfolding trim
env-HasTrimmedIds hops = refl

abbrev profile : Profile
profile = record { id = ""; name = ""; enabled = true; hops = record { uri = "ss://a" } ∷ [] }

abbrev other : Profile
other = record { id = " x "; name = "y"; enabled = true; hops = record { uri = " ss://b" } ∷ [] }

find-normalize_profiles_example : OnSome Found (normalize_profiles env [] (profile ∷ other ∷ []))
find-normalize_profiles_example =
    find-normalize_profiles env (profile ∷ other ∷ []) env-HasTrimmedIds
