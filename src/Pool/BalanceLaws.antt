-- ===== src/Pool/BalanceLaws.antt =====
-- The balancing mode takes members that can serve, and misses none.
use easy_proxies.Prelude.{
  ℕ, zero, suc, ◌+◌, ◌%◌, ◌<◌, String, true, false, none, List, ℤ, length, ◌≡◌, ◌≢◌, arith, inl,
  inr, Bool-cases, subst, sym, ◌∙◌,
}
use easy_proxies.Pool.Shared.{World}
use easy_proxies.Pool.Members.{Member}
use easy_proxies.Pool.Select.{member_at, random_index}
use easy_proxies.Pool.Search.{serves_at}
use easy_proxies.Pool.Balance.{attempt, Pair, balance_tries, balance_scan, is_half_open}
use easy_proxies.Pool.Fairness.{Fair, Attempt-cases, attempt-Keeps}

module _ (now : ℤ) (network : String) (ms : List Member) (w₀ : World) where
  -- The loop over all indices.
  pub scan-Fair :
      (start offset rounds : ℕ) (s : Pair)
      → Fair now network ms w₀ s
      → Fair now network ms w₀ (balance_scan start offset rounds now network s)
  unfolding balance_scan
  scan-Fair start offset zero s f = f
  scan-Fair start offset (suc rounds) s f =
      let kept = attempt-Keeps now network ms w₀ ((start + offset) % length s.pool.members) s f in
      elim (Attempt-cases (attempt now network ((start + offset) % length s.pool.members) s)) [
        | inl (t, e) ↦ rw (e, balance_scan) (scan-Fair start (offset + 1) rounds t (rw e at kept).0)
        | inr (inl (t, e)) ↦
            rw (e, balance_scan) (scan-Fair start (offset + 1) rounds t (rw e at kept).0)
        | inr (inr (t, e)) ↦ rw (e, balance_scan) (rw e at kept).0
      ]

  -- A first member stays.
  pub scan_keeps_first :
      (start offset rounds : ℕ) (s : Pair)
      → Fair now network ms w₀ s
      → s.first ≢ none
      → (balance_scan start offset rounds now network s).first ≢ none
  unfolding balance_scan
  scan_keeps_first start offset zero s f h = h
  scan_keeps_first start offset (suc rounds) s f h =
      let kept = attempt-Keeps now network ms w₀ ((start + offset) % length s.pool.members) s f in
      elim (Attempt-cases (attempt now network ((start + offset) % length s.pool.members) s)) [
        | inl (t, e) ↦
            rw (e, balance_scan)
              (scan_keeps_first start (offset + 1) rounds t (rw e at kept).0
                (λ q. h (sym (rw e at kept).1 ∙ q)))
        | inr (inl (t, e)) ↦
            rw (e, balance_scan)
              (scan_keeps_first start (offset + 1) rounds t (rw e at kept).0
                (λ q. let found = (rw e at kept).1 in cc))
        | inr (inr (t, e)) ↦ rw (e, balance_scan) (rw e at kept).1
      ]

  index_eq :
      (start offset k : ℕ) (s : Pair)
      → Fair now network ms w₀ s
      → offset ≡ k
      → (start + offset) % length s.pool.members ≡ (start + k) % length ms
  index_eq start offset k s f e = rw (f.members_kept, e)

  -- A loop that finds nothing has met no index that could serve.
  pub scan_complete :
      (start offset rounds k : ℕ) (s : Pair)
      → Fair now network ms w₀ s
      → s.first ≡ none
      → (balance_scan start offset rounds now network s).first ≡ none
      → k < rounds
      → serves_at now network ms w₀ ((start + (offset + k)) % length ms) ≡ false
  unfolding balance_scan
  scan_complete start offset zero k s f e h lt = absurd (omega arith)
  scan_complete start offset (suc rounds) zero s f e h lt =
      let kept = attempt-Keeps now network ms w₀ ((start + offset) % length s.pool.members) s f in
      elim (Attempt-cases (attempt now network ((start + offset) % length s.pool.members) s)) [
        | inl (t, a) ↦
            subst (λ i. serves_at now network ms w₀ i ≡ false)
              (index_eq start offset (offset + zero) s f (omega arith)) ((rw a at kept).2 e)
        | inr (inl (t, a)) ↦ absurd (
            scan_keeps_first start (offset + 1) rounds t (rw a at kept).0
              (λ q. let found = (rw a at kept).1 in cc) (rw (a, balance_scan) at h))
        | inr (inr (t, a)) ↦ absurd ((rw a at kept).1 (rw (a, balance_scan) at h))
      ]
  scan_complete start offset (suc rounds) (suc k) s f e h lt =
      let kept = attempt-Keeps now network ms w₀ ((start + offset) % length s.pool.members) s f in
      elim (Attempt-cases (attempt now network ((start + offset) % length s.pool.members) s)) [
        | inl (t, a) ↦
            subst (λ i. serves_at now network ms w₀ ((start + i) % length ms) ≡ false) (omega arith)
              (scan_complete start (offset + 1) rounds k t (rw a at kept).0 ((rw a at kept).1 ∙ e)
                (rw (a, balance_scan) at h) (omega arith))
        | inr (inl (t, a)) ↦ absurd (
            scan_keeps_first start (offset + 1) rounds t (rw a at kept).0
              (λ q. let found = (rw a at kept).1 in cc) (rw (a, balance_scan) at h))
        | inr (inr (t, a)) ↦ absurd ((rw a at kept).1 (rw (a, balance_scan) at h))
      ]

  pub draw-Fair :
      (n : ℕ) (s : Pair)
      → Fair now network ms w₀ s
      → Fair now network ms w₀ (record s { pool = (random_index n s.pool).0 })
  unfolding random_index
  draw-Fair n s f = record {
    members_kept = f.members_kept;
    untouched = f.untouched;
    second_later = f.second_later;
    first_serves = f.first_serves;
    second_serves = f.second_serves;
    no_more = f.no_more;
  }

  -- The random tries; an early return has a first member.
  pub tries-Fair :
      (tries : ℕ) (s : Pair)
      → Fair now network ms w₀ s
      → Fair now network ms w₀ (balance_tries tries now network s).0
        × ((balance_tries tries now network s).1 ≡ true
            → (balance_tries tries now network s).0.first ≢ none)
  unfolding balance_tries
  tries-Fair zero s f = (f, λ q. absurd (cc))
  tries-Fair (suc tries) s f =
      let idx = (random_index (length s.pool.members) s.pool).1 in
      let s₁ : Pair = record s { pool = (random_index (length s.pool.members) s.pool).0 } in
      let kept = attempt-Keeps now network ms w₀ idx s₁ (draw-Fair (length s.pool.members) s f) in
      elim (Attempt-cases (attempt now network idx s₁)) [
        | inl (t, e) ↦ rw (e, balance_tries) (tries-Fair tries t (rw e at kept).0)
        | inr (inl (t, e)) ↦ elim (Bool-cases (is_half_open (member_at t.pool idx) t.world)) [
          | inl h ↦
              rw (e, balance_tries, h) ((rw e at kept).0, λ _ q. let found = (rw e at kept).1 in cc)
          | inr h ↦ rw (e, balance_tries, h) (tries-Fair tries t (rw e at kept).0)
        ]
        | inr (inr (t, e)) ↦ rw (e, balance_tries) ((rw e at kept).0, λ q. absurd (cc))
      ]
