-- ===== src/Monitor/Sorted.antt =====
-- `SnapshotFiltered`: what is listed, and in which order.
use mathlib.Core.List.{Perm}
use mathlib.Core.List.Perm
use easy_proxies.Prelude.{
  ℕ, Bool, true, false, List, [], ◌∷◌, ℤ, pos, negsuc, ltb_ℤ, ◌≡◌, arith, codes, codes_lt_asymm,
  codes_lt_between, Bool-cases, inl, inr, All, filter, if◌then◌else◌, subst, refl, String, ◌≤ℤ◌,
  ◌<ℤ◌, codes_lt,
}
use easy_proxies.Monitor.Entry.{Snapshot, Entry, snapshot}
use easy_proxies.Monitor.Order.{less_by, less, insert_snapshot}
use easy_proxies.Monitor.Manager.{
  Manager, sort_snapshots, snapshot_filtered, snapshots, addresses, is_listed,
}

less_by_asymm : (i j : ℤ) (a b : List ℕ) → less_by i j a b ≡ true → less_by j i b a ≡ false
unfolding less_by
less_by_asymm i j a b h = ground (arith, codes_lt_asymm a b)

less_by_between :
    (i j k : ℤ) (a b c : List ℕ)
    → less_by i j a b ≡ false
    → less_by j k b c ≡ false
    → less_by i k a c ≡ false
unfolding less_by
less_by_between i j k a b c h l = ground (arith, codes_lt_between a b c)

less_asymm : (s t : Snapshot) → less s t ≡ true → less t s ≡ false
unfolding less
less_asymm s t h =
    less_by_asymm s.last_latency_ms t.last_latency_ms (codes s.info.name) (codes t.info.name) h

less_between : (s t u : Snapshot) → less s t ≡ false → less t u ≡ false → less s u ≡ false
unfolding less
less_between s t u h k =
    less_by_between s.last_latency_ms t.last_latency_ms u.last_latency_ms (codes s.info.name)
      (codes t.info.name) (codes u.info.name) h k

-- No later element is less than an earlier one.
abbrev pub IsSorted : List Snapshot → Type 0
IsSorted [] = Unit
IsSorted (s ∷ rest) = All (λ t. less t s ≡ false) rest × IsSorted rest

insert-All :
    (P : Snapshot → Type 0) (s : Snapshot) (ts : List Snapshot)
    → P s
    → All P ts
    → All P (insert_snapshot s ts)
unfolding insert_snapshot
insert-All P s [] p a = (p, tt)
insert-All P s (t ∷ rest) p a = elim (Bool-cases (less t s)) [
  | inl e ↦ rw (e, insert_snapshot) (a.0, insert-All P s rest p a.1)
  | inr e ↦ rw (e, insert_snapshot) (p, a)
]

All-between :
    (s t : Snapshot) (rest : List Snapshot)
    → less t s ≡ false
    → All (λ u. less u t ≡ false) rest
    → All (λ u. less u s ≡ false) rest
All-between s t [] h a = tt
All-between s t (u ∷ rest) h a = (less_between u t s a.0 h, All-between s t rest h a.1)

insert-IsSorted :
    (s : Snapshot) (ts : List Snapshot) → IsSorted ts → IsSorted (insert_snapshot s ts)
unfolding insert_snapshot
insert-IsSorted s [] h = (tt, tt)
insert-IsSorted s (t ∷ rest) h = elim (Bool-cases (less t s)) [
  | inl e ↦
      rw (e, insert_snapshot)
        (
          insert-All (λ u. less u t ≡ false) s rest (less_asymm t s e) h.0,
          insert-IsSorted s rest h.1,
        )
  | inr e ↦ rw (e, insert_snapshot) ((e, All-between s t rest e h.0), h)
]

insert-perm : (s : Snapshot) (ts : List Snapshot) → Perm (insert_snapshot s ts) (s ∷ ts)
unfolding insert_snapshot
insert-perm s [] = Perm.refl (s ∷ [])
insert-perm s (t ∷ rest) = elim (Bool-cases (less t s)) [
  | inl e ↦
      rw (e, insert_snapshot) (Perm.trans (Perm.cons t (insert-perm s rest)) (Perm.swap s t rest))
  | inr e ↦ rw (e, insert_snapshot) (Perm.refl (s ∷ t ∷ rest))
]

sort-IsSorted : (ts : List Snapshot) → IsSorted (sort_snapshots ts)
unfolding sort_snapshots
sort-IsSorted [] = tt
sort-IsSorted (t ∷ rest) = insert-IsSorted t (sort_snapshots rest) (sort-IsSorted rest)

sort-perm : (ts : List Snapshot) → Perm (sort_snapshots ts) ts
unfolding sort_snapshots
sort-perm [] = Perm.refl []
sort-perm (t ∷ rest) =
    Perm.trans (insert-perm t (sort_snapshots rest)) (Perm.cons t (sort-perm rest))

-- What may stand in front of what: the measured in front of the unmeasured, the faster in front of
-- the slower, and among equals by name.
pub data InOrder (s t : Snapshot) : Type 0 where
  measured_first : pos 0 ≤ℤ s.last_latency_ms → t.last_latency_ms <ℤ pos 0 → InOrder s t
  faster_first : pos 0 ≤ℤ s.last_latency_ms → s.last_latency_ms <ℤ t.last_latency_ms → InOrder s t
  as_fast :
      pos 0 ≤ℤ s.last_latency_ms
      → s.last_latency_ms ≡ t.last_latency_ms
      → codes_lt (codes t.info.name) (codes s.info.name) ≡ false
      → InOrder s t
  unmeasured :
      s.last_latency_ms <ℤ pos 0
      → t.last_latency_ms <ℤ pos 0
      → codes_lt (codes t.info.name) (codes s.info.name) ≡ false
      → InOrder s t

less-InOrder : (s t : Snapshot) → less t s ≡ false → InOrder s t
unfolding less less_by
less-InOrder s t h = elim (Bool-cases (ltb_ℤ s.last_latency_ms (pos 0))) [
  | inl i ↦ elim (Bool-cases (ltb_ℤ t.last_latency_ms (pos 0))) [
    | inl j ↦ unmeasured (ground arith) (ground arith) (ground arith)
    | inr j ↦ absurd (ground arith)
  ]
  | inr i ↦ elim (Bool-cases (ltb_ℤ t.last_latency_ms (pos 0))) [
    | inl j ↦ measured_first (ground arith) (ground arith)
    | inr j ↦ elim (Bool-cases (ltb_ℤ s.last_latency_ms t.last_latency_ms)) [
      | inl k ↦ faster_first (ground arith) (ground arith)
      | inr k ↦ as_fast (ground arith) (ground arith) (ground arith)
    ]
  ]
]

-- Each element may stand in front of all that come behind it.
abbrev pub InListingOrder : List Snapshot → Type 0
InListingOrder [] = Unit
InListingOrder (s ∷ rest) = All (InOrder s) rest × InListingOrder rest

All-InOrder :
    (s : Snapshot) (ts : List Snapshot) → All (λ t. less t s ≡ false) ts → All (InOrder s) ts
All-InOrder s [] h = tt
All-InOrder s (t ∷ ts) h = (less-InOrder s t h.0, All-InOrder s ts h.1)

IsSorted-InListingOrder : (ts : List Snapshot) → IsSorted ts → InListingOrder ts
IsSorted-InListingOrder [] h = tt
IsSorted-InListingOrder (t ∷ ts) h = (All-InOrder t ts h.0, IsSorted-InListingOrder ts h.1)

-- The snapshots of the registered nodes that a request asks for: all, or those that are not
-- blacklisted and not known to be down.
abbrev pub wanted : Bool → (ℕ → Entry) → List (String × ℕ) → List Snapshot
wanted only_available entries [] = []
wanted only_available entries ((tag, a) ∷ rest) =
    let s = snapshot (entries a) in
    let others = wanted only_available entries rest in
    if only_available
    then if s.blacklisted
      then others
      else if s.initial_check_done
      then if s.available then s ∷ others else others
      else s ∷ others
    else s ∷ others

wanted_lem :
    (only_available : Bool) (entries : ℕ → Entry) (nodes : List (String × ℕ))
    → filter (is_listed only_available) (snapshots entries (addresses nodes))
      ≡ wanted only_available entries nodes
unfolding is_listed snapshots addresses
wanted_lem only_available entries [] = refl
wanted_lem only_available entries ((tag, a) ∷ rest) =
    ground (arith, wanted_lem only_available entries rest)

-- The listing is in order (measured nodes in front of unmeasured ones, then by latency, then by
-- name), and holds the snapshots of the registered nodes, or, when only available ones are asked
-- for, of those that are not blacklisted and were not found to be down, each as often as its node
-- is registered.
pub snapshot_filtered_lem :
    (only_available : Bool) (m : Manager)
    → InListingOrder (snapshot_filtered only_available m)
      × Perm (snapshot_filtered only_available m) (wanted only_available m.entries m.nodes)
unfolding snapshot_filtered
snapshot_filtered_lem only_available m =
    let listed = filter (is_listed only_available) (snapshots m.entries (addresses m.nodes)) in
    (
      IsSorted-InListingOrder (sort_snapshots listed) (sort-IsSorted listed),
      subst (Perm (sort_snapshots listed)) (wanted_lem only_available m.entries m.nodes)
          (sort-perm listed),
    )

-- Where the first of two snapshots in a listing was never probed, so was the second.
pub unprobed_last :
    (s t : Snapshot)
    → less t s ≡ false
    → s.last_latency_ms ≡ negsuc 0
    → ltb_ℤ t.last_latency_ms (pos 0) ≡ true
unfolding less less_by
unprobed_last s t h e = ground arith
