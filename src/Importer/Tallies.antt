-- ===== src/Importer/Tallies.antt =====
-- The progress of the site targets against the results it reports on.
use easy_proxies.Prelude.{
  ℕ, ◌+◌, Bool, false, not, ◌&&◌, none, some, String, ℤ, pos, ◌+ℤ◌, ◌-ℤ◌, lookup, put, str_eq,
  count_values, count-put_absent, count-put_present, if◌then◌else◌, ◌≡◌, arith, Bool-cases, inl,
  inr, ap,
}
use easy_proxies.Importer.Verification.{
  ConnectivityResult, SiteTestProgress, Sites, Results, counted, recounted,
}

abbrev pub is_pass : String → ConnectivityResult → Bool
is_pass t r = str_eq r.target_id t && r.success

abbrev pub is_failure : String → ConnectivityResult → Bool
is_failure t r = str_eq r.target_id t && not r.success

-- An item counts the results of its target.
pub record Counts (t : String) (results : Results) (item : SiteTestProgress) : Type 0 where
  pub passed : item.passed ≡ pos (count_values (is_pass t) results)
  pub failed : item.failed ≡ pos (count_values (is_failure t) results)
  pub done :
      item.done ≡ pos (count_values (is_pass t) results + count_values (is_failure t) results)

abbrev pub Tallied : String → Sites → Type 0
Tallied t s =
    (item : SiteTestProgress) × (lookup t s.progress ≡ some item) × Counts t s.results item

pos_inc : {z : ℤ} {n m : ℕ} → z ≡ pos n → m ≡ n + 1 → z +ℤ pos 1 ≡ pos m
unfolding ◌+ℤ◌
pos_inc e f = ground arith

pos_dec : {z : ℤ} {n m : ℕ} → z ≡ pos n → n ≡ m + 1 → z -ℤ pos 1 ≡ pos m
unfolding ◌-ℤ◌
pos_dec e f = ground arith

pos_as : {z : ℤ} {n m : ℕ} → z ≡ pos n → m ≡ n → z ≡ pos m
pos_as e f = ground arith

-- A new result of another target, of the target, and a retried one.
pub put-Counts :
    (t key : String) (r : ConnectivityResult) (results : Results) (item : SiteTestProgress)
    → lookup key results ≡ none
    → Counts t results item
    → Counts t (put results key r) (if str_eq r.target_id t then counted r.success item else item)
put-Counts t key r results item absent c =
    let p = count-put_absent (is_pass t) results key r absent in
    let f = count-put_absent (is_failure t) results key r absent in
    elim (Bool-cases (str_eq r.target_id t)) [
      | inr n ↦ rw n (record {
        passed = pos_as c.passed (ground (arith, p, n));
        failed = pos_as c.failed (ground (arith, f, n));
        done = pos_as c.done (ground (arith, p, f, n));
      })
      | inl y ↦ elim (Bool-cases r.success) [
        | inl s ↦ rw y (
            rw s (record {
              passed = pos_inc c.passed (ground (arith, p, y, s));
              failed = pos_as c.failed (ground (arith, f, y, s));
              done = pos_inc c.done (ground (arith, p, f, y, s));
            }))
        | inr s ↦ rw y (
            rw s (record {
              passed = pos_as c.passed (ground (arith, p, y, s));
              failed = pos_inc c.failed (ground (arith, f, y, s));
              done = pos_inc c.done (ground (arith, p, f, y, s));
            }))
      ]
    ]

pub retry-Counts :
    (t key : String) (r old : ConnectivityResult) (results : Results) (item : SiteTestProgress)
    → lookup key results ≡ some old
    → old.success ≡ false
    → old.target_id ≡ r.target_id
    → Counts t results item
    → Counts t (put results key r) (if str_eq r.target_id t then recounted r.success item else item)
retry-Counts t key r old results item found lost same c =
    let p = count-put_present (is_pass t) results key r found in
    let f = count-put_present (is_failure t) results key r found in
    let alike : str_eq old.target_id t ≡ str_eq r.target_id t = ap (λ x. str_eq x t) same in
    elim (Bool-cases (str_eq r.target_id t)) [
      | inr n ↦ rw n (record {
        passed = pos_as c.passed (ground (arith, p, n, alike, lost));
        failed = pos_as c.failed (ground (arith, f, n, alike, lost));
        done = pos_as c.done (ground (arith, p, f, n, alike, lost));
      })
      | inl y ↦ elim (Bool-cases r.success) [
        | inl s ↦ rw y (
            rw s (record {
              passed = pos_inc c.passed (ground (arith, p, y, s, alike, lost));
              failed = pos_dec c.failed (ground (arith, f, y, s, alike, lost));
              done = pos_as c.done (ground (arith, p, f, y, s, alike, lost));
            }))
        | inr s ↦ rw y (
            rw s (record {
              passed = pos_as c.passed (ground (arith, p, y, s, alike, lost));
              failed = pos_as c.failed (ground (arith, f, y, s, alike, lost));
              done = pos_as c.done (ground (arith, p, f, y, s, alike, lost));
            }))
      ]
    ]
