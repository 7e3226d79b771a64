-- ===== src/Pool/Rounds.antt =====
-- The sequential mode, whose uint32 counter wraps, and the random mode.
use native.Mathlib.Nat.{mod-eq_of_lt}
use mathlib.Core.Path.{subst₂}
use easy_proxies.Prelude.{
  ℕ, zero, suc, ◌+◌, ◌%◌, ◌<◌, ◌≤◌, String, true, none, some, ℤ, length, min, ◌≡◌, refl, arith, ap,
  inl, inr, Bool-cases, ◌⊎◌, ◌∙◌, residue_covered,
}
use easy_proxies.Pool.Shared.{World}
use easy_proxies.Pool.Members.{PoolOutbound, count_check}
use easy_proxies.Pool.Select.{
  sequential_loop, select_sequential, random_tries, random_scan, select_random, rr_next, u32_mod,
  random_index,
}
use easy_proxies.Pool.Search.{claim_found, serves_at, available_at, find_first, IsSearch}
use easy_proxies.Pool.Picks.{Picks, took, Picks-IsSearch, scan-Picks}

-- The index that round `k` looks at.
abbrev pub rr_index : PoolOutbound → ℕ → ℕ
rr_index p k = (p.rr_counter + k) % u32_mod % length p.members

-- `rrCounter.Add(1) - 1` is the counter's value before.
rr_next_old : (p : PoolOutbound) → p.rr_counter < u32_mod → (rr_next p).1 ≡ p.rr_counter
rr_next_old p h = omega arith

pub sequential-IsSearch :
    (rounds offset c : ℕ) (now : ℤ) (network : String) (p : PoolOutbound) (w : World)
    → p.rr_counter ≡ (c + offset) % u32_mod
    → IsSearch now network p w
        (find_first
          (serves_at now network p.members w)
          (λ k. (c + k) % u32_mod % length p.members)
          offset
          rounds)
        (sequential_loop rounds now network p w)
unfolding sequential_loop find_first
sequential-IsSearch zero offset c now network p w e = (refl, refl, refl)
sequential-IsSearch (suc rounds) offset c now network p w e =
    rw (rr_next_old p (omega arith) ∙ e)
      (elim (Bool-cases (serves_at now network p.members w idx)) [
        | inl yes_at ↦ rw (available_at now network idx (rr_next p).0 w, yes_at) (refl, refl, refl)
        | inr no_at ↦
            rw (available_at now network idx (rr_next p).0 w, no_at)
              (sequential-IsSearch rounds (offset + 1) c now network (count_check (rr_next p).0) w
                (omega arith))
      ])
  where
    idx : ℕ
    idx = (c + offset) % u32_mod % length p.members

-- If the counter is below 2^32 and does not pass it within a round over the members, sequential
-- mode takes a member that can serve and fails only if none can; it changes nothing of the process
-- but the shared state of that member.
pub select_sequential-Picks :
    (now : ℤ) (network : String) (p : PoolOutbound) (w : World)
    → p.rr_counter < u32_mod
    → p.rr_counter + length p.members ≤ u32_mod
    → Picks now network p.members w (select_sequential now network p w)
unfolding select_sequential
select_sequential-Picks now network p w c h =
    Picks-IsSearch now network p w (rr_index p) (length p.members) _ covered
      (sequential-IsSearch (length p.members) 0 p.rr_counter now network p w (omega arith))
  where
    covered : (i : ℕ) → i < length p.members → (k : ℕ) × (k < length p.members) × (rr_index p k ≡ i)
    covered i lt =
        let (k, k_lt, meets) = residue_covered p.rr_counter i (length p.members) lt in
        (k, k_lt, ap (λ t. t % length p.members) (mod-eq_of_lt (omega arith)) ∙ meets)

-- The random tries take a member that serves, or change nothing of the process.
tries_outcome :
    (tries : ℕ) (now : ℤ) (network : String) (p : PoolOutbound) (w : World)
    → ((random_tries tries now network p w).0.members ≡ p.members)
      × (((random_tries tries now network p w).2 ≡ none)
            × ((random_tries tries now network p w).1 ≡ w)
          ⊎ (i : ℕ) × ((random_tries tries now network p w).2 ≡ some i)
            × (serves_at now network p.members w i ≡ true)
            × ((random_tries tries now network p w).1 ≡ claim_found now p.members (some i) w))
unfolding random_tries random_index
tries_outcome zero now network p w = (refl, inl (refl, refl))
tries_outcome (suc tries) now network p w =
    elim (Bool-cases (serves_at now network p.members w idx)) [
      | inl yes_at ↦
          rw (available_at now network idx (random_index (length p.members) p).0 w, yes_at)
            (refl, inr (idx, refl, yes_at, refl))
      | inr no_at ↦
          rw (available_at now network idx (random_index (length p.members) p).0 w, no_at)
            (tries_outcome tries now network (count_check (random_index (length p.members) p).0) w)
    ]
  where
    idx : ℕ
    idx = p.draws p.next_draw % length p.members

random_scan-Picks :
    (now : ℤ) (network : String) (p : PoolOutbound) (w : World)
    → Picks now network p.members w (random_scan now network p w)
unfolding random_scan random_index
random_scan-Picks now network p w =
    scan-Picks (p.draws p.next_draw % length p.members) now network
      (random_index (length p.members) p).0 w

-- Whatever the random source draws, random mode takes a member that can serve and fails only if
-- none can; it changes nothing of the process but the shared state of that member.
pub select_random-Picks :
    (now : ℤ) (network : String) (p : PoolOutbound) (w : World)
    → Picks now network p.members w (select_random now network p w)
unfolding select_random
select_random-Picks now network p w =
    elim (tries_outcome (min (length p.members) 8) now network p w).1 [
      | inl (none_found, same) ↦
          let (p₁, w₁, found) = random_tries (min (length p.members) 8) now network p w in
          rw (none_found, select_random)
            (subst₂ (λ ms v. Picks now network ms v (random_scan now network p₁ w₁))
              (tries_outcome (min (length p.members) 8) now network p w).0 same
              (random_scan-Picks now network p₁ w₁))
      | inr (i, found, serves, claimed) ↦ rw (found, select_random) (took i refl serves claimed)
    ]
