-- ===== src/Pool/Rotation.antt =====
-- The rotating mode: it keeps the current member for an interval, then takes the next one.
use easy_proxies.Prelude.{
  ◌∷◌, [], some_eq, Bool, ◌&&◌, ℕ, ◌+◌, ◌%◌, ◌≤◌, ◌<◌, String, Bool, true, false, none, some, List,
  ℤ, length, ◌≡◌, refl, arith, ap, Option-cases, inl, inr, Bool-cases, ◌⊎◌, subst, sym, ◌∙◌, ltb_ℤ,
  ◌-ℤ◌,
}
use easy_proxies.Pool.Shared.{World}
use easy_proxies.Pool.Members.{Member, PoolOutbound, count_check}
use easy_proxies.Pool.Select.{
  resume, index_of_member, Selection, adopt, rotate_on, stay, select_rotate, rotation_start,
  rotation_interval,
}
use easy_proxies.Pool.Search.{claim_found, serves_at, available_at, find_first, scan-IsSearch}
use easy_proxies.Pool.Picks.{Picks, missed, took, scan-Picks}

adopt-Picks :
    (now : ℤ) (network : String) (ms : List Member) (w : World) (r : Selection)
    → Picks now network ms w r
    → Picks now network ms w (adopt now r)
unfolding adopt
adopt-Picks now network ms w (p, v, none) (missed e c f) = missed refl c f
adopt-Picks now network ms w (p, v, some j) (missed e c f) = missed (absurd (cc)) c f
adopt-Picks now network ms w (p, v, none) (took i e s c) = took i (absurd (cc)) s c
adopt-Picks now network ms w (p, v, some j) (took i e s c) = took i e s c

rotate_on-Picks :
    (now : ℤ) (network : String) (p : PoolOutbound) (w : World)
    → Picks now network p.members w (rotate_on now network p w)
unfolding rotate_on
rotate_on-Picks now network p w =
    adopt-Picks now network p.members w _ (scan-Picks (rotation_start p) now network p w)

-- The current member is kept exactly if its interval lasts and it can serve.
abbrev pub is_kept : ℤ → String → PoolOutbound → World → ℕ → Bool
is_kept now network p w cur =
    ltb_ℤ (now -ℤ p.rotate_since) (rotation_interval p) && serves_at now network p.members w cur

serves_of_kept : (a b : Bool) → (a && b) ≡ true → b ≡ true
serves_of_kept a b h = ground arith

-- A stay that fails has counted a check or done nothing.
pub data Stays (now : ℤ) (network : String) (p : PoolOutbound) (w : World) (r : Selection)
    : Type 0 where
  stayed :
      (cur : ℕ)
      → p.rotate_member ≡ some cur
      → is_kept now network p w cur ≡ true
      → r ≡ (count_check p, claim_found now p.members (some cur) w, some cur)
      → Stays now network p w r
  left :
      ((cur : ℕ) → p.rotate_member ≡ some cur → is_kept now network p w cur ≡ false)
      → (r ≡ (p, w, none)) ⊎ (r ≡ (count_check p, w, none))
      → Stays now network p w r

stay-Stays :
    (now : ℤ) (network : String) (p : PoolOutbound) (w : World)
    → Stays now network p w (stay now network p w)
unfolding stay
stay-Stays now network p w = elim (Option-cases p.rotate_member) [
  | inl e ↦ left (λ cur f. absurd (cc)) (inl (simp (e, stay)))
  | inr (cur, e) ↦ elim (Bool-cases (ltb_ℤ (now -ℤ p.rotate_since) (rotation_interval p))) [
    | inl lasts ↦ elim (Bool-cases (serves_at now network p.members w cur)) [
      | inl serves ↦
          stayed cur e (rw (lasts, serves))
            (simp (e, stay, lasts, available_at now network cur p w, serves))
      | inr busy ↦
          left
            (λ j f.
              subst (λ k. is_kept now network p w k ≡ false) (some_eq (sym e ∙ f))
                (simp (lasts, busy)))
            (inr (simp (e, stay, lasts, available_at now network cur p w, busy)))
    ]
    | inr over ↦ left (λ j f. rw over) (inl (simp (e, stay, over)))
  ]
]

adopt_found : (now : ℤ) (r : Selection) → (adopt now r).2 ≡ r.2
unfolding adopt
adopt_found now (p, w, none) = refl
adopt_found now (p, w, some j) = refl

rotate_on_found :
    (now : ℤ) (network : String) (p : PoolOutbound) (w : World)
    → (rotate_on now network p w).2
      ≡ find_first
          (serves_at now network p.members w)
          (λ k. (rotation_start p + k) % length p.members)
          0
          (length p.members)
unfolding rotate_on
rotate_on_found now network p w =
    adopt_found now _ ∙ (scan-IsSearch (rotation_start p) 0 (length p.members) now network p w).0

pub select_rotate_kept :
    (now : ℤ) (network : String) (p : PoolOutbound) (w : World) (cur : ℕ)
    → p.rotate_member ≡ some cur
    → is_kept now network p w cur ≡ true
    → select_rotate now network p w
      ≡ (count_check p, claim_found now p.members (some cur) w, some cur)
unfolding select_rotate resume
select_rotate_kept now network p w cur e k = elim (stay-Stays now network p w) [
  | stayed j f _ r ↦ rw r (
      ap (λ i. (count_check p, claim_found now p.members (some i) w, some i)) (some_eq (sym f ∙ e)))
  | left h _ ↦ absurd (let clash = h cur e in cc)
]

index_of_member_lem :
    (ms : List Member) (cur i : ℕ)
    → i ≤ cur
    → cur < i + length ms
    → index_of_member ms cur i ≡ cur + 1
unfolding index_of_member
index_of_member_lem [] cur i le lt = absurd (omega arith)
index_of_member_lem (m ∷ ms) cur i le lt = ground (arith, index_of_member_lem ms cur (i + 1))

rotation_start_lem :
    (p : PoolOutbound) (cur : ℕ)
    → p.rotate_member ≡ some cur
    → cur < length p.members
    → rotation_start p ≡ cur + 1
unfolding rotation_start
rotation_start_lem p cur e lt =
    simp (e, rotation_start, index_of_member_lem p.members cur 0 (omega arith) (omega arith))

-- When the current member is one of the pool's and is not kept (its interval is over, or it cannot
-- serve), rotate mode selects the first member that can serve, counting from the one behind it
-- around the list once.
pub select_rotate_moves :
    (now : ℤ) (network : String) (p : PoolOutbound) (w : World) (cur : ℕ)
    → p.rotate_member ≡ some cur
    → cur < length p.members
    → is_kept now network p w cur ≡ false
    → (select_rotate now network p w).2
      ≡ find_first
          (serves_at now network p.members w)
          (λ k. (cur + 1 + k) % length p.members)
          0
          (length p.members)
unfolding select_rotate resume
select_rotate_moves now network p w cur e lt h =
    let from = rotation_start_lem p cur e lt in
    elim (stay-Stays now network p w) [
      | stayed j f k _ ↦ absurd (
          let same = some_eq (sym f ∙ e) in
          let clash = subst (λ i. is_kept now network p w i ≡ true) same k in cc)
      | left _ (inl r) ↦ rw (r, sym from) (rotate_on_found now network p w)
      | left _ (inr r) ↦ rw (r, sym from) (rotate_on_found now network (count_check p) w)
    ]

-- Rotate mode takes a member that can serve, whether it keeps the current one or moves on, and
-- fails only if none can; it changes nothing of the process but the shared state of that member.
pub select_rotate-Picks :
    (now : ℤ) (network : String) (p : PoolOutbound) (w : World)
    → Picks now network p.members w (select_rotate now network p w)
unfolding select_rotate resume
select_rotate-Picks now network p w = elim (stay-Stays now network p w) [
  | stayed cur _ k r ↦ rw r (took cur refl (serves_of_kept _ _ k) refl)
  | left _ (inl r) ↦ rw r (rotate_on-Picks now network p w)
  | left _ (inr r) ↦ rw r (rotate_on-Picks now network (count_check p) w)
]
