-- ===== src/Pool/Picks.antt =====
-- What a selection promises, and that the sequential, random and rotating modes keep it.
use easy_proxies.Prelude.{
  ◌∙◌, get_elem?_end, residue_covered, ltb→lt, ℕ, ◌+◌, ◌%◌, ◌<◌, ◌≤◌, String, true, false, none,
  some, List, ℤ, length, ltb, ◌≡◌, arith, ap, Option-cases, inl, inr, Bool-cases, subst,
}
use easy_proxies.Pool.Shared.{World}
use easy_proxies.Pool.Members.{Member, PoolOutbound}
use easy_proxies.Pool.Select.{Selection, scan}
use easy_proxies.Pool.Search.{
  claim_found, serves_at, find_first, find_first-none, find_first-some, IsSearch, scan-IsSearch,
}

-- A selection takes a member that can serve, and fails only if none can. It changes the shared
-- state of the member that it took, by `tryAcquire`, and nothing else of the process.
pub data Picks (now : ℤ) (network : String) (ms : List Member) (w : World) (r : Selection)
    : Type 0 where
  missed :
      r.2 ≡ none
      → r.1 ≡ w
      → ((i : ℕ) → serves_at now network ms w i ≡ false)
      → Picks now network ms w r
  took :
      (i : ℕ)
      → r.2 ≡ some i
      → serves_at now network ms w i ≡ true
      → r.1 ≡ claim_found now ms (some i) w
      → Picks now network ms w r

-- Nothing serves behind the end of the list.
pub serves_at_end :
    (now : ℤ) (network : String) (ms : List Member) (w : World) (i : ℕ)
    → length ms ≤ i
    → serves_at now network ms w i ≡ false
serves_at_end now network ms w i h = rw (get_elem?_end ms i h, serves_at)

-- A search over indices that meet every member keeps the promise.
pub Picks-IsSearch :
    (now : ℤ) (network : String) (p : PoolOutbound) (w : World) (at : ℕ → ℕ) (rounds : ℕ)
    (r : Selection)
    → ((i : ℕ) → i < length p.members → (k : ℕ) × (k < rounds) × (at k ≡ i))
    → IsSearch now network p w (find_first (serves_at now network p.members w) at 0 rounds) r
    → Picks now network p.members w r
Picks-IsSearch now network p w at rounds r covered (found, claimed, _) =
    elim (Option-cases (find_first (serves_at now network p.members w) at 0 rounds)) [
      | inl e ↦ missed (found ∙ e) (claimed ∙ ap (λ f. claim_found now p.members f w) e) (λ i.
          elim (Bool-cases (ltb i (length p.members))) [
            | inl lt ↦ in_range e i (covered i (ltb→lt i (length p.members) lt))
            | inr ge ↦ serves_at_end now network p.members w i (ground arith)
          ])
      | inr (i, e) ↦
          took i (found ∙ e) (find_first-some _ at 0 rounds e)
            (claimed ∙ ap (λ f. claim_found now p.members f w) e)
    ]
  where
    in_range :
        find_first (serves_at now network p.members w) at 0 rounds ≡ none
        → (i : ℕ) → (k : ℕ) × (k < rounds) × (at k ≡ i)
        → serves_at now network p.members w i ≡ false
    in_range e i (k, lt, meets) =
        subst (λ j. serves_at now network p.members w j ≡ false) (ap at (omega arith) ∙ meets)
          (find_first-none _ at 0 rounds k e lt)

-- `for offset := range p.members`, from any start.
pub scan-Picks :
    (start : ℕ) (now : ℤ) (network : String) (p : PoolOutbound) (w : World)
    → Picks now network p.members w (scan start 0 (length p.members) now network p w)
scan-Picks start now network p w =
    Picks-IsSearch now network p w (λ k. (start + k) % length p.members) (length p.members) _
      (λ i lt. residue_covered start i (length p.members) lt)
      (scan-IsSearch start 0 (length p.members) now network p w)
