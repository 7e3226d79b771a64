-- ===== src/Pool/Fairness.antt =====
-- The balancing mode: what one round keeps of the search for a pair of members.
use easy_proxies.Prelude.{
  ℕ, String, Bool, true, false, Option, none, some, List, ℤ, get_elem?, ◌≡◌, ◌≢◌, refl, arith,
  Option-cases, inl, inr, Bool-cases, ◌⊎◌, subst, some_eq,
}
use easy_proxies.Pool.Shared.{World, SharedMemberState, try_acquire}
use easy_proxies.Pool.Members.{Member, count_check, can_serve, claim, state_admits}
use easy_proxies.Pool.Search.{claim_found, serves_at, available_at}
use easy_proxies.Pool.Balance.{
  place, Attempt, skipped, as_first, as_second, attempt, Pair, is_first, try_member,
}

-- A state that was claimed admits no more than before.
admits_after :
    (now : ℤ) (s : SharedMemberState)
    → state_admits now (try_acquire now s).0 ≡ true
    → state_admits now s ≡ true
unfolding try_acquire
admits_after now s h = ground arith

pub serves-claim :
    (now : ℤ) (network : String) (m n : Member) (w : World)
    → can_serve now network n (claim now m w) ≡ true
    → can_serve now network n w ≡ true
unfolding can_serve claim
serves-claim now network m n w h = ground (arith, λ (a : ℕ). admits_after now (w.states a))

serves_at-claim :
    (now : ℤ) (network : String) (ms : List Member) (w : World) (i j : ℕ)
    → serves_at now network ms (claim_found now ms (some i) w) j ≡ true
    → serves_at now network ms w j ≡ true
serves_at-claim now network ms w i j h = elim (Option-cases (get_elem? ms i)) [
  | inl e ↦ simp (e, claim_found) at h
  | inr (m, e) ↦ elim (Option-cases (get_elem? ms j)) [
    | inl f ↦ ground arith
    | inr (n, f) ↦ ground (arith, serves-claim now network m n w)
  ]
]

pub Attempt-cases :
    (a : Attempt)
    → ((t : Pair) × (a ≡ skipped t))
      ⊎ ((t : Pair) × (a ≡ as_first t))
      ⊎ ((t : Pair) × (a ≡ as_second t))
Attempt-cases (skipped t) = inl (t, refl)
Attempt-cases (as_first t) = inr (inl (t, refl))
Attempt-cases (as_second t) = inr (inr (t, refl))

module _ (now : ℤ) (network : String) (ms : List Member) (w₀ : World) where
  -- What holds of a search for a pair that began in the process `w₀`.
  pub record Fair (s : Pair) : Type 0 where
    pub members_kept : s.pool.members ≡ ms
    pub untouched : s.first ≡ none → s.world ≡ w₀
    pub second_later : s.first ≡ none → s.second ≡ none
    pub first_serves : (i : ℕ) → s.first ≡ some i → serves_at now network ms w₀ i ≡ true
    pub second_serves : (i : ℕ) → s.second ≡ some i → serves_at now network ms w₀ i ≡ true
    pub no_more :
        (i : ℕ) → serves_at now network ms s.world i ≡ true → serves_at now network ms w₀ i ≡ true

  abbrev tried : ℕ → Pair → Pair
  tried idx s = record s {
    pool = count_check s.pool;
    world = claim_found now ms (some idx) s.world;
  }

  take_first :
      (idx : ℕ) (s : Pair)
      → Fair s
      → s.first ≡ none
      → serves_at now network ms s.world idx ≡ true
      → Fair (record (tried idx s) { first = some idx })
  take_first idx s f e h = record {
    members_kept = f.members_kept;
    untouched = λ q. absurd (cc);
    second_later = λ q. absurd (cc);
    first_serves =
        λ i q. subst (λ k. serves_at now network ms w₀ k ≡ true) (some_eq q) (f.no_more idx h);
    second_serves = λ i q. absurd (let gone = f.second_later e in cc);
    no_more = λ i q. f.no_more i (serves_at-claim now network ms s.world idx i q);
  }

  take_second :
      (idx i : ℕ) (s : Pair)
      → Fair s
      → s.first ≡ some i
      → serves_at now network ms s.world idx ≡ true
      → Fair (record (tried idx s) { second = some idx })
  take_second idx j s f e h = record {
    members_kept = f.members_kept;
    untouched = λ q. absurd (cc);
    second_later = λ q. absurd (cc);
    first_serves = f.first_serves;
    second_serves =
        λ i q. subst (λ k. serves_at now network ms w₀ k ≡ true) (some_eq q) (f.no_more idx h);
    no_more = λ i q. f.no_more i (serves_at-claim now network ms s.world idx i q);
  }

  skip : (s : Pair) → Fair s → Fair (record s { pool = count_check s.pool })
  skip s f = record {
    members_kept = f.members_kept;
    untouched = f.untouched;
    second_later = f.second_later;
    first_serves = f.first_serves;
    second_serves = f.second_serves;
    no_more = f.no_more;
  }

  -- What a round does: it skips the index, which is the first or cannot serve, or tries it.
  data Round (idx : ℕ) (s : Pair) (r : Pair × Bool) : Type 0 where
    same_member : s.first ≡ some idx → r ≡ (s, false) → Round idx s r
    refused :
        serves_at now network ms s.world idx ≡ false
        → r ≡ (record s { pool = count_check s.pool }, false)
        → Round idx s r
    served : serves_at now network ms s.world idx ≡ true → r ≡ (tried idx s, true) → Round idx s r

  is_first_eq : (o : Option ℕ) (idx : ℕ) → is_first o idx ≡ true → o ≡ some idx
  is_first_eq none idx h = absurd (cc)
  is_first_eq (some f) idx h = ground arith

  try_member-Round :
      (idx : ℕ) (s : Pair) → s.pool.members ≡ ms → Round idx s (try_member now network idx s)
  try_member-Round idx s m = elim (Bool-cases (is_first s.first idx)) [
    | inl e ↦ same_member (is_first_eq s.first idx e) (simp e)
    | inr e ↦ elim (Bool-cases (serves_at now network ms s.world idx)) [
      | inl h ↦ served h (simp e (rw (available_at now network idx s.pool s.world) (simp (m, h))))
      | inr h ↦ refused h (simp e (rw (available_at now network idx s.pool s.world) (simp (m, h))))
    ]
  ]

  -- What a round keeps: a skipped index cannot serve unless a member was taken before.
  abbrev pub Keeps : ℕ → Pair → Attempt → Type 0
  Keeps idx s (skipped t) =
      Fair t × (t.first ≡ s.first) × (s.first ≡ none → serves_at now network ms w₀ idx ≡ false)
  Keeps idx s (as_first t) = Fair t × (t.first ≡ some idx)
  Keeps idx s (as_second t) = Fair t × (t.first ≢ none)

  place-Keeps :
      (idx : ℕ) (s : Pair) (o : Option ℕ)
      → Fair s
      → s.first ≡ o
      → serves_at now network ms s.world idx ≡ true
      → Keeps idx s (place idx (tried idx s) o)
  place-Keeps idx s none f e h = (take_first idx s f e h, refl)
  place-Keeps idx s (some i) f e h = (take_second idx i s f e h, λ q. cc)

  pub attempt-Keeps : (idx : ℕ) (s : Pair) → Fair s → Keeps idx s (attempt now network idx s)
  unfolding attempt
  attempt-Keeps idx s f = elim (try_member-Round idx s f.members_kept) [
    | same_member e r ↦ rw r (f, refl, λ q. absurd (cc))
    | refused h r ↦
        rw r (
          skip s f,
          refl,
          λ q. subst (λ v. serves_at now network ms v idx ≡ false) (f.untouched q) h,
        )
    | served h r ↦ rw r (place-Keeps idx s s.first f refl h)
  ]
