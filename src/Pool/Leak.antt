-- ===== src/Pool/Leak.antt =====
-- A probe slot that a balancing selection takes and does not use.
use easy_proxies.Prelude.{
  ◌*◌, ℕ, suc, ◌+◌, ◌-◌, ◌%◌, String, true, false, none, some, List, ◌∷◌, ℤ, get_elem?, length, min,
  ◌≡◌, ◌≢◌, arith, ap, ◌∙◌,
}
use easy_proxies.Pool.Shared.{World, SharedMemberState, try_acquire}
use easy_proxies.Pool.Members.{Member, PoolOutbound, can_serve, claim, state_admits, count_check}
use easy_proxies.Pool.Select.{random_index, member_at}
use easy_proxies.Pool.Search.{member_available_lem}
use easy_proxies.Pool.Balance.{
  Pair, balance_tries, find_rest, balance_rest, less_loaded, select_balance, i32_lt, attempt,
  is_half_open, as_first, as_second,
}

-- A half-open blacklisted state admits nobody, at any later time.
pub half_open_refuses :
    (s : SharedMemberState) (now : ℤ)
    → s.blacklisted ≡ true
    → s.half_open ≡ true
    → try_acquire now s ≡ (s, false)
unfolding try_acquire
half_open_refuses s now b h = ground arith

module _ (now : ℤ) (network : String) (p : PoolOutbound) (w : World) (m₀ m₁ : Member)
    (rest : List Member) (a b : ℕ) (members : p.members ≡ m₀ ∷ m₁ ∷ rest)
    (draw₀ : p.draws p.next_draw % length p.members ≡ 0)
    (draw₁ : p.draws (p.next_draw + 1) % length p.members ≡ 1) (shared₀ : m₀.shared ≡ some a)
    (shared₁ : m₁.shared ≡ some b) (apart : b ≢ a) (serves₀ : can_serve now network m₀ w ≡ true)
    (healthy : (w.states a).blacklisted ≡ false) (closed : (w.states a).half_open ≡ false)
    (serves₁ : can_serve now network m₁ w ≡ true) (banned : (w.states b).blacklisted ≡ true)
    (loaded : i32_lt (w.states b).active (w.states a).active ≡ false) where
  claim₀ : (claim now m₀ w).states b ≡ w.states b
  unfolding claim try_acquire
  claim₀ = ground arith

  claim₀_self : (claim now m₀ w).states a ≡ w.states a
  unfolding claim try_acquire
  claim₀_self = ground arith

  w₂ : World
  w₂ = claim now m₁ (claim now m₀ w)

  w₂_states : (w₂.states a ≡ w.states a) × (w₂.states b ≡ record (w.states b) { half_open = true })
  unfolding w₂ claim try_acquire can_serve
  w₂_states = ground (arith, serves₁)

  drawn : PoolOutbound → PoolOutbound
  drawn q = (random_index (length q.members) q).0

  p₁ : PoolOutbound
  unfolding random_index drawn
  p₁ = drawn p

  p₂ : PoolOutbound
  unfolding random_index drawn
  p₂ = drawn (count_check p₁)

  s₁ : Pair
  s₁ = record { pool = count_check p₁; world = claim now m₀ w; first = some 0; second = none }

  s₂ : Pair
  s₂ = record { pool = count_check p₂; world = w₂; first = some 0; second = some 1 }

  at₀ : get_elem? p.members 0 ≡ some m₀
  at₀ = rw members

  at₁ : get_elem? p.members 1 ≡ some m₁
  at₁ = rw members

  -- The second member can still serve behind the claim on the first.
  serves₁_after : can_serve now network m₁ (claim now m₀ w) ≡ true
  unfolding can_serve
  serves₁_after = ground (arith, claim₀, serves₁)

  first_try :
      attempt now network 0 (record { pool = p₁; world = w; first = none; second = none })
      ≡ as_first s₁
  unfolding attempt p₁ drawn random_index s₁
  first_try = rw (at₀, member_available_lem now network m₀ p₁ w, serves₀)

  second_try : attempt now network 1 (record s₁ { pool = p₂ }) ≡ as_second s₂
  unfolding attempt p₁ p₂ drawn random_index s₁ s₂ w₂
  second_try = rw (at₁, member_available_lem now network m₁ p₂ (claim now m₀ w), serves₁_after)

  not_half_open : is_half_open (member_at p 0) (claim now m₀ w) ≡ false
  not_half_open = rw (at₀, shared₀, claim₀_self, closed)

  start : Pair
  start = record { pool = p; world = w; first = none; second = none }

  -- The two rounds, at the indices that are drawn.
  first_draw :
      attempt now network
        (random_index (length p.members) p).1
        (record start { pool = (random_index (length p.members) p).0 })
      ≡ as_first s₁
  unfolding random_index start p₁ drawn s₁
  first_draw =
      ap (λ i. attempt now network i (record { pool = p₁; world = w; first = none; second = none }))
        draw₀
      ∙ first_try

  second_draw :
      attempt now network
        (random_index (length s₁.pool.members) s₁.pool).1
        (record s₁ { pool = (random_index (length s₁.pool.members) s₁.pool).0 })
      ≡ as_second s₂
  unfolding random_index p₁ p₂ drawn s₁
  second_draw = ap (λ i. attempt now network i (record s₁ { pool = p₂ })) draw₁ ∙ second_try

  s₁_not_half_open :
      is_half_open (member_at s₁.pool (random_index (length p.members) p).1) s₁.world ≡ false
  unfolding random_index s₁ p₁ drawn
  s₁_not_half_open = rw draw₀ not_half_open

  two_tries : (t : ℕ) → balance_tries (suc (suc t)) now network start ≡ (s₂, false)
  unfolding balance_tries start
  two_tries t =
      rw (first_draw, balance_tries) (rw s₁_not_half_open (rw (second_draw, balance_tries)))

  enough : (t : ℕ) × (min (length p.members * 2) 8 ≡ suc (suc t))
  enough = (min (length p.members * 2) 8 - 2, ground (arith, ap length members))

  chosen : less_loaded s₂ ≡ some 0
  unfolding less_loaded s₂ p₁ p₂ drawn random_index
  chosen = rw (at₀, at₁, shared₀, shared₁) (rw (w₂_states.0, w₂_states.1, loaded))

  met : balance_tries (min (length p.members * 2) 8) now network start ≡ (s₂, false)
  met = rw enough.1 (two_tries enough.0)

  selected : select_balance now network p w ≡ (s₂.pool, s₂.world, less_loaded s₂)
  unfolding select_balance balance_rest start s₂ find_rest
  selected = rw (met, select_balance)

  half : (w₂.states b).half_open ≡ true
  half = rw w₂_states.1

  black : (w₂.states b).blacklisted ≡ true
  black = rw w₂_states.1 banned

  -- A balancing selection draws the first two members, both of which can serve: the first is
  -- healthy and no more loaded than the second, which is blacklisted until a time that has passed
  -- and has a state of its own. Then the selection returns the first member and leaves the second
  -- half open: its state refuses every later caller as it stands.
  pub balance_leak :
      let r = select_balance now network p w in
      (r.2 ≡ some 0)
      × ((r.1.states b).half_open ≡ true)
      × ((later : ℤ) → state_admits later (r.1.states b) ≡ false)
  unfolding s₂
  balance_leak =
      rw selected
        (chosen, half, λ later. ap (λ r. r.1) (half_open_refuses (w₂.states b) later black half))
