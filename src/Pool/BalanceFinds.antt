-- ===== src/Pool/BalanceFinds.antt =====
-- What a balancing selection promises as a whole.
use easy_proxies.Prelude.{
  ◌*◌, ℕ, ◌+◌, ◌%◌, ◌<◌, String, true, false, Option, none, some, List, ℤ, length, min, ◌≡◌, ◌≢◌,
  refl, arith, ap, Option-cases, inl, inr, Bool-cases, ◌⊎◌, subst, sym, ◌∙◌, residue_covered, ltb,
  ltb→lt,
}
use easy_proxies.Pool.Shared.{World}
use easy_proxies.Pool.Members.{Member, PoolOutbound}
use easy_proxies.Pool.Select.{Selection, random_index, member_at}
use easy_proxies.Pool.Search.{serves_at}
use easy_proxies.Pool.Picks.{serves_at_end}
use easy_proxies.Pool.Balance.{
  find_rest, lesser, Pair, balance_tries, balance_rest, less_loaded, select_balance, i32_lt,
  member_active,
}
use easy_proxies.Pool.Fairness.{Fair}
use easy_proxies.Pool.BalanceLaws.{
  scan_keeps_first, scan-Fair, scan_complete, draw-Fair, tries-Fair,
}

-- A selection takes a member that can serve, or none can and the process is as it was.
pub data Finds (now : ℤ) (network : String) (ms : List Member) (w : World) (r : Selection)
    : Type 0 where
  nobody :
      r.2 ≡ none
      → r.1 ≡ w
      → ((i : ℕ) → serves_at now network ms w i ≡ false)
      → Finds now network ms w r
  somebody : (i : ℕ) → r.2 ≡ some i → serves_at now network ms w i ≡ true → Finds now network ms w r

module _ (now : ℤ) (network : String) (ms : List Member) (w₀ : World) where
  rest-Fair :
      (s : Pair) (o : Option ℕ)
      → Fair now network ms w₀ s
      → Fair now network ms w₀ (find_rest now network s o)
  unfolding find_rest
  rest-Fair s (some j) f = f
  rest-Fair s none f =
      scan-Fair now network ms w₀ _ 0 _ _ (draw-Fair now network ms w₀ (length s.pool.members) s f)

  -- With no first member at the end, no member could serve.
  rest_complete :
      (s : Pair) (o : Option ℕ) (i : ℕ)
      → Fair now network ms w₀ s
      → s.second ≡ o
      → (find_rest now network s o).first ≡ none
      → i < length ms
      → serves_at now network ms w₀ i ≡ false
  unfolding find_rest
  rest_complete s (some j) i f e h lt = absurd (let clash = f.second_later h in cc)
  rest_complete s none i f e h lt =
      let drawn = draw-Fair now network ms w₀ (length s.pool.members) s f in
      let start = (random_index (length s.pool.members) s.pool).1 in
      elim (Option-cases s.first) [
        | inl e₁ ↦
            let (k, k_lt, meets) = residue_covered start i (length ms) lt in
            subst (λ j. serves_at now network ms w₀ j ≡ false)
              (ap (λ t. (start + t) % length ms) (omega arith) ∙ meets)
              (scan_complete now network ms w₀ start 0 (length s.pool.members) k _ drawn e₁ h
                (subst (λ l. k < length l) (sym f.members_kept) k_lt))
        | inr (j, e₁) ↦
            absurd (
              scan_keeps_first now network ms w₀ start 0 (length s.pool.members) _ drawn (λ q. cc)
                h)
      ]

  pair-Finds :
      (s : Pair) (first second : Option ℕ)
      → Fair now network ms w₀ s
      → s.first ≡ first
      → s.second ≡ second
      → (first ≡ none → (i : ℕ) → i < length ms → serves_at now network ms w₀ i ≡ false)
      → Finds now network ms w₀ (s.pool, s.world, lesser s first second)
  pair-Finds s none none f e₁ e₂ h = nobody refl (f.untouched e₁) (λ i.
      elim (Bool-cases (ltb i (length ms))) [
        | inl lt ↦ h refl i (ltb→lt i (length ms) lt)
        | inr ge ↦ serves_at_end now network ms w₀ i (ground arith)
      ])
  pair-Finds s none (some j) f e₁ e₂ h = absurd (let clash = f.second_later e₁ in cc)
  pair-Finds s (some i) none f e₁ e₂ h = somebody i refl (f.first_serves i e₁)
  pair-Finds s (some i) (some j) f e₁ e₂ h =
      elim (Bool-cases (
        i32_lt (member_active (member_at s.pool j) s.world)
          (member_active (member_at s.pool i) s.world))) [
            | inl lt ↦ somebody j (simp lt) (f.second_serves j e₂)
            | inr ge ↦ somebody i (simp ge) (f.first_serves i e₁)
          ]

-- Whatever the random source draws, a balancing selection takes a member that can serve, and it
-- fails only if none can.
pub select_balance-Finds :
    (now : ℤ) (network : String) (p : PoolOutbound) (w : World)
    → Finds now network p.members w (select_balance now network p w)
unfolding select_balance less_loaded balance_rest
select_balance-Finds now network p w = elim (Bool-cases (balance_tries tries now network empty).1) [
  | inl early ↦ rw (early, select_balance) (early_first (Option-cases met.first) early)
  | inr late ↦
      rw (late, select_balance)
        (pair-Finds now network p.members w (find_rest now network met met.second) _ _
          (rest-Fair now network p.members w met met.second (tries_end).0) refl refl
          (λ q i lt.
            rest_complete now network p.members w met met.second i (tries_end).0 refl q lt))
]
  where
    tries : ℕ
    tries = min (length p.members * 2) 8

    empty : Pair
    empty = record { pool = p; world = w; first = none; second = none }

    empty-Fair : Fair now network p.members w empty
    empty-Fair = record {
      members_kept = refl;
      untouched = λ q. refl;
      second_later = λ q. refl;
      first_serves = λ i q. absurd (cc);
      second_serves = λ i q. absurd (cc);
      no_more = λ i q. q;
    }

    met : Pair
    met = (balance_tries tries now network empty).0

    tries_end :
        Fair now network p.members w met
        × ((balance_tries tries now network empty).1 ≡ true → met.first ≢ none)
    tries_end = tries-Fair now network p.members w tries empty empty-Fair

    early_first :
        (met.first ≡ none) ⊎ ((i : ℕ) × (met.first ≡ some i))
        → (balance_tries tries now network empty).1 ≡ true
        → Finds now network p.members w (met.pool, met.world, met.first)
    early_first (inl e) h = absurd (tries_end.1 h e)
    early_first (inr (i, e)) h = somebody i e (tries_end.0.first_serves i e)
