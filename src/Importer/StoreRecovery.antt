-- ===== src/Importer/StoreRecovery.antt =====
-- What the loops over states do to each node.
use easy_proxies.Prelude.{
  true, false, Option, none, some, List, [], ◌∷◌, String, ℤ, lookup, put, lookup-put, Distinct,
  eq_iff, ◌≡◌, refl, arith, ◌∙◌, sym, ap, Option-cases, Bool-cases, inl, inr, eq_ℤ, str_eq, pos,
}
use easy_proxies.Prelude.{subst}
use easy_proxies.Importer.Nodes.{ManagedNode, ManagedNodeState}
use easy_proxies.Importer.Journal.{remember}
use easy_proxies.Importer.Store.{Store, Old, Change, change_loop}
use easy_proxies.Importer.StoreStates.{
  same_state, recovered, recovered_state, recover_stale_testing_nodes, finish_changed, no_nodes,
}
use easy_proxies.Importer.StoreKept.{Consistent}
use easy_proxies.Importer.StoreEdits.{edits}
use easy_proxies.Importer.StoreLoops.{change_loop-Edits}
use easy_proxies.Importer.StoreSteps.{recovered_id}

-- A node after its turn, if it has one.
abbrev pub changed_value :
    {A : Type 0}
    → (A → ManagedNode → Option ManagedNode)
    → Option A
    → Option ManagedNode
    → Option ManagedNode
changed_value f none o = o
changed_value f (some a) none = none
changed_value f (some a) (some n) = elim (f a n) [ none ↦ some n | some n' ↦ some n' ]

pub lookup-change_loop :
    {A : Type 0} (f : A → ManagedNode → Option ManagedNode) (rest : List (String × A))
    (m : List (String × ManagedNode)) (previous : Old) (id : String)
    → Distinct rest
    → lookup id (change_loop f rest m previous).nodes
      ≡ changed_value f (lookup id rest) (lookup id m)
unfolding change_loop lookup
lookup-change_loop f [] m previous id d = refl
lookup-change_loop f ((key, a) ∷ rest) m previous id d = elim (Option-cases (lookup key m)) [
  | inl e ↦
      rw (change_loop, e)
        (lookup-change_loop f rest m previous id d.1 ∙ ground (arith, eq_iff key id, d.0))
  | inr (n, e) ↦ elim (Option-cases (f a n)) [
    | inl e' ↦
        rw (change_loop, e)
          (rw e' (lookup-change_loop f rest m previous id d.1 ∙ ground (arith, eq_iff key id, d.0)))
    | inr (n', e') ↦
        rw (change_loop, e)
          (rw e' (
            lookup-change_loop f rest (put m key n') (remember m previous key) id d.1
            ∙ ground (arith, eq_iff key id, d.0, lookup-put m key id n')))
  ]
]

unwritten :
    (c : Change) (m : List (String × ManagedNode)) (us : List ManagedNode)
    → c ≡ edits us m []
    → no_nodes c.updated ≡ true
    → c.nodes ≡ m
unfolding edits
unwritten c m [] e h = ap (λ x. x.nodes) e
unwritten c m (n ∷ us) e h =
    absurd (let k : no_nodes (n ∷ us) ≡ true = sym (ap (λ x. no_nodes x.updated) e) ∙ h in cc)

finish_changed-nodes :
    (c : Change) (s : Store) (us : List ManagedNode)
    → c ≡ edits us s.nodes []
    → (finish_changed true c s).0.nodes ≡ c.nodes
finish_changed-nodes c s us e = elim (Bool-cases (no_nodes c.updated)) [
  | inl y ↦ rw (finish_changed, y) (sym (unwritten c s.nodes us e y))
  | inr n ↦ rw (finish_changed, n) refl
]

-- What recovery makes of what is stored under an id. A node whose test was cut short gets the state
-- that its other fields tell; any other stays.
pub data Recovers (now : ℤ) : Option ManagedNode → Option ManagedNode → Type 0 where
  absent : Recovers now none none
  kept : {n : ManagedNode} → ¬ (n.state ≡ ManagedNodeState.testing) → Recovers now (some n) (some n)
  pooled :
      {n : ManagedNode}
      → n.state ≡ ManagedNodeState.testing
      → n.in_pool ≡ true
      → Recovers now
          (some n)
          (some (record n { state = ManagedNodeState.in_pool; updated_at = now }))
  disabled :
      {n : ManagedNode}
      → n.state ≡ ManagedNodeState.testing
      → n.in_pool ≡ false
      → n.enabled ≡ false
      → Recovers now
          (some n)
          (some (record n { state = ManagedNodeState.excluded; updated_at = now }))
  untested :
      {n : ManagedNode}
      → n.state ≡ ManagedNodeState.testing
      → n.in_pool ≡ false
      → n.enabled ≡ true
      → n.last_test_at ≡ pos 0
      → Recovers now
          (some n)
          (some (record n { state = ManagedNodeState.parsed; updated_at = now }))
  test_failed :
      {n : ManagedNode}
      → n.state ≡ ManagedNodeState.testing
      → n.in_pool ≡ false
      → n.enabled ≡ true
      → ¬ (n.last_test_at ≡ pos 0)
      → ¬ (n.last_error ≡ "")
      → Recovers now
          (some n)
          (some (record n { state = ManagedNodeState.failed; updated_at = now }))
  test_passed :
      {n : ManagedNode}
      → n.state ≡ ManagedNodeState.testing
      → n.in_pool ≡ false
      → n.enabled ≡ true
      → ¬ (n.last_test_at ≡ pos 0)
      → n.last_error ≡ ""
      → Recovers now
          (some n)
          (some (record n { state = ManagedNodeState.passed; updated_at = now }))

same_state-testing :
    (k : ManagedNodeState)
    → same_state k ManagedNodeState.testing ≡ true
    → k ≡ ManagedNodeState.testing
same_state-testing ManagedNodeState.testing h = refl
same_state-testing ManagedNodeState.parsed h = absurd (cc)
same_state-testing ManagedNodeState.passed h = absurd (cc)
same_state-testing ManagedNodeState.failed h = absurd (cc)
same_state-testing ManagedNodeState.blocked h = absurd (cc)
same_state-testing ManagedNodeState.in_pool h = absurd (cc)
same_state-testing ManagedNodeState.excluded h = absurd (cc)

settled-Recovers :
    (now : ℤ) (n : ManagedNode)
    → n.state ≡ ManagedNodeState.testing
    → Recovers now (some n) (some (record n { state = recovered_state n; updated_at = now }))
settled-Recovers now n t = elim (Bool-cases n.in_pool) [
  | inl i ↦ settles (ground arith) (pooled t i)
  | inr i ↦ elim (Bool-cases n.enabled) [
    | inr d ↦ settles (ground arith) (disabled t i d)
    | inl d ↦ elim (Bool-cases (eq_ℤ n.last_test_at (pos 0))) [
      | inl z ↦ settles (ground arith) (untested t i d (ground arith))
      | inr z ↦ elim (Bool-cases (str_eq n.last_error "")) [
        | inl e ↦
            settles (ground arith)
              (test_passed t i d (λ q. ground (arith, z, q)) ((eq_iff n.last_error "").0 e))
        | inr e ↦ settles (ground arith) (
            test_failed t i d (λ q. ground (arith, z, q))
              (λ q. absurd (let same = (eq_iff n.last_error "").1 q in cc)))
      ]
    ]
  ]
]
  where
    settles :
        {k : ManagedNodeState}
        → recovered_state n ≡ k
        → Recovers now (some n) (some (record n { state = k; updated_at = now }))
        → Recovers now (some n) (some (record n { state = recovered_state n; updated_at = now }))
    settles e r =
        subst (λ j. Recovers now (some n) (some (record n { state = j; updated_at = now }))) (sym e)
          r

recovered-Recovers :
    (now : ℤ) (o : Option ManagedNode) → Recovers now o (changed_value (recovered now) o o)
recovered-Recovers now none = absent
recovered-Recovers now (some n) = elim (Bool-cases (same_state n.state ManagedNodeState.testing)) [
  | inl t ↦ rw (t, changed_value) (settled-Recovers now n (same_state-testing n.state t))
  | inr t ↦
      rw (t, changed_value)
        (kept (λ q. absurd (let same = ap (λ k. same_state k ManagedNodeState.testing) q in cc)))
]

-- When the recovery after a restart is written, each node that was being tested is in the pool if
-- it was a member, excluded if it was disabled, parsed if it was never tested, and else failed or
-- passed by its last error, with the time of the recovery; every other node is as it was.
pub recover_stale_testing_nodes_lem :
    (now : ℤ) (s : Store) (id : String)
    → Consistent s
    → Recovers now
        (lookup id s.nodes)
        (lookup id (recover_stale_testing_nodes true now s).0.0.nodes)
unfolding recover_stale_testing_nodes
recover_stale_testing_nodes_lem now s id h =
    let c = change_loop (recovered now) s.nodes s.nodes [] in
    let (us, e, _) =
      change_loop-Edits (recovered now) (recovered_id now) s.nodes s.nodes [] h.keyed in
    rw
      (
        finish_changed-nodes c s us e,
        lookup-change_loop (recovered now) s.nodes s.nodes [] id h.distinct,
      )
      (recovered-Recovers now (lookup id s.nodes))
