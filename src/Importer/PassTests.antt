-- ===== src/Importer/PassTests.antt =====
-- A node that fails on a target at first and passes at the second attempt.
use easy_proxies.Prelude.{true, false, [], ◌∷◌, refl, lookup, put}
use easy_proxies.Importer.Verification.{
  SiteEvent, Sites, first_event, first_events, retry_events, connectivity_result_key,
  start_progress,
}
use easy_proxies.Importer.Tallies.{Tallied}
use easy_proxies.Importer.Passes.{Fresh, Retries, passes-Tallied}

abbrev failure : SiteEvent
failure = record {
  node_id = "n";
  result = record { target_id = "t"; success = false; first_success = false; retryable = true };
}

abbrev recovery : SiteEvent
recovery = record {
  node_id = "n";
  result = record { target_id = "t"; success = true; first_success = false; retryable = false };
}

abbrev sites : Sites
sites = record { results = []; progress = start_progress 1 ("t" ∷ []) [] }

sites-Fresh : Fresh (failure ∷ []) sites
unfolding lookup
sites-Fresh = (refl, tt)

sites-Retries : Retries (recovery ∷ []) (first_events (failure ∷ []) sites)
unfolding lookup put first_events first_event connectivity_result_key start_progress
sites-Retries = ((failure.result, refl, refl, refl), tt)

sites-Tallied : Tallied "t" sites
unfolding lookup put start_progress
sites-Tallied = (_, refl, record { passed = refl; failed = refl; done = refl })

passes-Tallied_example :
    Tallied "t" (retry_events (recovery ∷ []) (first_events (failure ∷ []) sites))
passes-Tallied_example =
    passes-Tallied "t" (failure ∷ []) (recovery ∷ []) sites sites-Fresh sites-Retries sites-Tallied
