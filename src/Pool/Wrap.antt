-- ===== src/Pool/Wrap.antt =====
-- The sequential counter at the end of its range.
use easy_proxies.Prelude.{ℕ, ◌+◌, ◌%◌, String, Bool, true, false, none, ℤ, ◌≡◌, ◌∙◌, arith, length}
use easy_proxies.Pool.Shared.{World}
use easy_proxies.Pool.Members.{PoolOutbound}
use easy_proxies.Pool.Select.{select_sequential, u32_mod}
use easy_proxies.Pool.Search.{serves_at, find_first}
use easy_proxies.Pool.Rounds.{sequential-IsSearch}

skips :
    (test : ℕ → Bool) (n : ℕ)
    → n ≡ 3
    → test 0 ≡ false
    → test 1 ≡ false
    → find_first test (λ k. (4294967295 + k) % u32_mod % n) 0 n ≡ none
unfolding find_first
skips test n three no₀ no₁ = rw three (rw no₀ (rw no₁))

-- With three members, of which only the third can serve, and the counter at its last value before
-- the wrap, a sequential selection finds nobody: it looks at the first member twice and never at
-- the third.
pub sequential_skips :
    (now : ℤ) (network : String) (p : PoolOutbound) (w : World)
    → length p.members ≡ 3
    → p.rr_counter ≡ 4294967295
    → serves_at now network p.members w 0 ≡ false
    → serves_at now network p.members w 1 ≡ false
    → serves_at now network p.members w 2 ≡ true
    → (select_sequential now network p w).2 ≡ none
unfolding select_sequential
sequential_skips now network p w three last no₀ no₁ third =
    (sequential-IsSearch (length p.members) 0 4294967295 now network p w (omega arith)).0
    ∙ skips (serves_at now network p.members w) (length p.members) three no₀ no₁
