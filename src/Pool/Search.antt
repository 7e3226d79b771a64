-- ===== src/Pool/Search.antt =====
-- The searches of pool.go against the first member, in the order of the search, that can serve.
use easy_proxies.Prelude.{
  subst, ℕ, zero, suc, ◌+◌, ◌%◌, ◌<◌, String, Bool, true, false, Option, none, some, List, ℤ,
  if◌then◌else◌, get_elem?, length, ◌≡◌, refl, arith, update_same, ap, Option-cases, inl, inr,
  Bool-cases,
}
use easy_proxies.Pool.Shared.{SharedMemberState, World, try_acquire, put_state}
use easy_proxies.Pool.Members.{
  Member, PoolOutbound, member_available, can_serve, claim, count_check, state_admits,
}
use easy_proxies.Pool.Select.{Selection, member_at, scan}

-- What a search changes of the process once it has found a member, or not.
abbrev pub claim_found : ℤ → List Member → Option ℕ → World → World
claim_found now ms none w = w
claim_found now ms (some i) w = elim (get_elem? ms i) [ none ↦ w | some m ↦ claim now m w ]

abbrev pub serves_at : ℤ → String → List Member → World → ℕ → Bool
serves_at now network ms w i = elim (get_elem? ms i) [
  | none ↦ false
  | some m ↦ can_serve now network m w
]

-- A refused state is left as it is.
refused_same :
    (now : ℤ) (s : SharedMemberState) → state_admits now s ≡ false → (try_acquire now s).0 ≡ s
unfolding try_acquire
refused_same now s h = ground arith

put_state_same : (a : ℕ) (s : SharedMemberState) (w : World) → s ≡ w.states a → put_state a s w ≡ w
put_state_same a s w e =
    rw e (ap (λ (h : ℕ → SharedMemberState). record w { states = h }) (update_same w.states a))

shared_lem :
    (now : ℤ) (a : ℕ) (w : World)
    → put_state a (try_acquire now (w.states a)).0 w ≡ (
        if state_admits now (w.states a) then put_state a (try_acquire now (w.states a)).0 w else w)
shared_lem now a w = elim (Bool-cases (state_admits now (w.states a))) [
  | inl e ↦ rw e
  | inr e ↦ rw e (put_state_same a _ w (refused_same now (w.states a) e))
]

-- A member with a shared state.
pub member_available_lem :
    (now : ℤ) (network : String) (m : Member) (p : PoolOutbound) (w : World)
    → member_available now network (some m) p w ≡ (
      count_check p,
      (if can_serve now network m w then claim now m w else w),
      can_serve now network m w,
    )
unfolding member_available can_serve claim
member_available_lem now network m p w = ground (arith, λ (a : ℕ). shared_lem now a w)

-- The same for the index of a member, in range or not.
pub available_at :
    (now : ℤ) (network : String) (i : ℕ) (p : PoolOutbound) (w : World)
    → member_available now network (member_at p i) p w ≡ (
      count_check p,
      (if serves_at now network p.members w i then claim_found now p.members (some i) w else w),
      serves_at now network p.members w i,
    )
available_at now network i p w = elim (Option-cases (get_elem? p.members i)) [
  | inl e ↦ rw (e, serves_at) (unfold member_available in refl)
  | inr (m, e) ↦ rw (e, serves_at, claim_found) (member_available_lem now network m p w)
]

-- The first of `rounds` indices, from the one at `offset`, that passes a test.
unfoldable pub find_first : (ℕ → Bool) → (ℕ → ℕ) → ℕ → ℕ → Option ℕ
find_first test at offset zero = none
find_first test at offset (suc rounds) =
    let rest = find_first test at (offset + 1) rounds in
    if test (at offset) then some (at offset) else rest

pub find_first-none :
    (test : ℕ → Bool) (at : ℕ → ℕ) (offset rounds k : ℕ)
    → find_first test at offset rounds ≡ none
    → k < rounds
    → test (at (offset + k)) ≡ false
unfolding find_first
find_first-none test at offset zero k h lt = absurd (omega arith)
find_first-none test at offset (suc rounds) zero h lt = elim (Bool-cases (test (at offset))) [
  | inl e ↦ absurd (ground arith)
  | inr e ↦ subst (λ n. test (at n) ≡ false) (omega arith) e
]
find_first-none test at offset (suc rounds) (suc k) h lt = elim (Bool-cases (test (at offset))) [
  | inl e ↦ absurd (ground arith)
  | inr e ↦
      subst (λ n. test (at n) ≡ false) (omega arith)
        (find_first-none test at (offset + 1) rounds k (rw e at h) (omega arith))
]

pub find_first-some :
    (test : ℕ → Bool) (at : ℕ → ℕ) (offset rounds : ℕ) {i : ℕ}
    → find_first test at offset rounds ≡ some i
    → test i ≡ true
unfolding find_first
find_first-some test at offset zero h = ground arith
find_first-some test at offset (suc rounds) h = elim (Bool-cases (test (at offset))) [
  | inl e ↦ let same = (rw e at h) in cc
  | inr e ↦ find_first-some test at (offset + 1) rounds (rw e at h)
]

-- A search that took the first index that serves, and left the members alone.
abbrev pub IsSearch : ℤ → String → PoolOutbound → World → Option ℕ → Selection → Type 0
IsSearch now network p w found r =
    (r.2 ≡ found) × (r.1 ≡ claim_found now p.members found w) × (r.0.members ≡ p.members)

pub scan-IsSearch :
    (start offset rounds : ℕ) (now : ℤ) (network : String) (p : PoolOutbound) (w : World)
    → IsSearch now network p w
        (find_first
          (serves_at now network p.members w)
          (λ k. (start + k) % length p.members)
          offset
          rounds)
        (scan start offset rounds now network p w)
unfolding scan find_first
scan-IsSearch start offset zero now network p w = (refl, refl, refl)
scan-IsSearch start offset (suc rounds) now network p w =
    elim (Bool-cases (serves_at now network p.members w ((start + offset) % length p.members))) [
      | inl e ↦
          rw (available_at now network ((start + offset) % length p.members) p w, e)
            (refl, refl, refl)
      | inr e ↦
          rw (available_at now network ((start + offset) % length p.members) p w, e)
            (scan-IsSearch start (offset + 1) rounds now network (count_check p) w)
    ]
