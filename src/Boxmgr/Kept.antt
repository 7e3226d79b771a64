-- ===== src/Boxmgr/Kept.antt =====
-- What the changes of the configured nodes keep.
use easy_proxies.Prelude.{
  ℕ, Bool, true, false, not, Option, none, some, List, [], ◌∷◌, ◌++◌, String, str_eq, trim, filter,
  ◌≡◌, ◌≤◌, refl, arith, Bool-cases, inl, inr, ap, subst, sym, ◌∙◌, length, ◌==◌, if◌then◌else◌,
}
use easy_proxies.Config.Types.{NodeConfig, Config, Env, has_node_ports}
use easy_proxies.Boxmgr.Ports.{base_port, port_end}
use easy_proxies.Importer.Sources.{contains}
use easy_proxies.Boxmgr.Result.{NodeError, node_not_found, Result, ok, err, OnOk, OnErr, commit}
use easy_proxies.Boxmgr.Nodes.{
  clean_names, commit_updates, prepare_node, node_named, source_of, go_on, add_result, located,
  set_at, update_at, save_update, store_at, create_loop, create_nodes, update_one, update_node,
  update_loop, update_nodes, delete_nodes,
}
use easy_proxies.Boxmgr.Naming.{
  found_filled, replace_named, Named, Ported, Named-append, Ported-append, Named-replace,
  Ported-replace, Named-filter, Ported-filter, port_in_use_by_other-new,
}
use easy_proxies.Boxmgr.Locating.{Located, nowhere, found_at, located-Located}
use easy_proxies.Boxmgr.Preparing.{Fits, prepare_node-Fits}

-- A result that is an error, or a node that fits.
data Made (P : NodeConfig → Type 0) (r : Result NodeConfig) : Type 0 where
  failed_at : (e : NodeError) → r ≡ err e → Made P r
  made : (n : NodeConfig) → r ≡ ok n → P n → Made P r

Result-cases : {P : NodeConfig → Type 0} (r : Result NodeConfig) → OnOk P r → Made P r
Result-cases (ok n) h = made n refl h
Result-cases (err e) h = failed_at e refl

-- Each node has a name of its own, and in the modes where nodes have ports a port of its own. The
-- base port is a number of 16 bits.
abbrev pub WellFormed : Config → Type 0
WellFormed cfg =
    Named cfg.nodes × (has_node_ports cfg ≡ true → Ported cfg.nodes) × (base_port cfg ≤ port_end)

created-WellFormed :
    (cfg : Config) (n : NodeConfig)
    → WellFormed cfg
    → Fits cfg "" n
    → WellFormed (record cfg { nodes = cfg.nodes ++ (record n { source = source_of cfg } ∷ []) })
created-WellFormed cfg n h (filled, untaken, free) = (
  Named-append cfg.nodes (record n { source = source_of cfg }) h.0 filled (ground (arith, untaken)),
  λ y.
      Ported-append cfg.nodes (record n { source = source_of cfg }) (h.1 y) (free y).0
        (rw (port_in_use_by_other-new n.port cfg.nodes h.0) at (free y).1),
  h.2,
)

-- A configuration with the nodes of another one.
abbrev OnlyNodes : Config → Config → Type 0
OnlyNodes cfg cfg' = record cfg' { nodes = cfg.nodes } ≡ cfg

-- What the loops do: the nodes alone change, and stay in order if they were.
abbrev pub Follows : Config → Config → Type 0
Follows cfg cfg' = OnlyNodes cfg cfg' × (WellFormed cfg → WellFormed cfg')

Follows-trans : (a b c : Config) → Follows a b → Follows b c → Follows a c
Follows-trans a b c h k =
    (ap {A = Config} (λ x. record x { nodes = a.nodes }) k.0 ∙ h.0, λ w. k.1 (h.1 w))

-- An operation up to its end, and behind it.
abbrev pub Done {ℓ} : {A : Type ℓ} → Config → Config × Result A → Type 0
Done cfg (cfg', r) = OnlyNodes cfg cfg' × (WellFormed cfg → OnOk (λ a. WellFormed cfg') r)

abbrev pub Settled {ℓ} : {A : Type ℓ} → Config → Config × Result A → Type 0
Settled cfg r = OnErr cfg r × (WellFormed cfg → WellFormed r.0)

Done-Follows {ℓ} :
    {A : Type ℓ} (cfg : Config) (r : Config × Result A) → Follows cfg r.0 → Done cfg r
Done-Follows cfg (cfg', ok a) h = h
Done-Follows cfg (cfg', err e) h = (h.0, λ w. tt)

-- Saved or put back.
pub commit-Settled {ℓ} :
    {A : Type ℓ} (saved : Bool) (cfg : Config) (r : Config × Result A)
    → Done cfg r
    → Settled cfg (commit saved cfg.nodes r)
commit-Settled saved cfg (cfg', err e) h = (h.0, λ w. subst WellFormed (sym h.0) w)
commit-Settled true cfg (cfg', ok a) h = (tt, h.1)
commit-Settled false cfg (cfg', ok a) h = (h.0, λ w. subst WellFormed (sym h.0) w)

add_result-Follows :
    (cfg : Config) (n : NodeConfig) (r : Config × Result (List NodeConfig))
    → Follows cfg r.0
    → Follows cfg (add_result n r).0
add_result-Follows cfg n (cfg', ok ns) h = h
add_result-Follows cfg n (cfg', err e) h = h

create_loop-Follows :
    (env : Env) (nodes : List NodeConfig) (cfg : Config) → Follows cfg (create_loop env nodes cfg).0
unfolding create_loop
create_loop-Follows env [] cfg = (refl, λ w. w)
create_loop-Follows env (node ∷ nodes) cfg =
    elim (Result-cases (prepare_node env cfg "" node) (prepare_node-Fits env cfg "" node)) [
      | failed_at e q ↦ rw (create_loop, q) (refl, λ w. w)
      | made n q fits ↦
          let n' = record n { source = source_of cfg } in
          let cfg' = record cfg { nodes = cfg.nodes ++ (n' ∷ []) } in
          rw (create_loop, q)
            (add_result-Follows cfg n' (create_loop env nodes cfg') (
              Follows-trans cfg cfg' _ (refl, λ w. created-WellFormed cfg n w fits)
                (create_loop-Follows env nodes cfg')))
    ]

replaced-WellFormed :
    (cfg : Config) (name : String) (old n : NodeConfig)
    → WellFormed cfg
    → node_named name cfg.nodes ≡ some old
    → Fits cfg name n
    → WellFormed
        (record cfg { nodes = replace_named name (record n { source = old.source }) cfg.nodes })
replaced-WellFormed cfg name old n h e (filled, untaken, free) = (
  Named-replace name cfg.nodes (record n { source = old.source }) h.0 filled
      (ground (arith, untaken, current)),
  λ y.
      Ported-replace name cfg.nodes (record n { source = old.source }) h.0 (h.1 y) (free y).0
        (free y).1,
  h.2,
)
  where
    -- The current name is that of a node, so it is not empty.
    current : str_eq name "" ≡ false
    current = found_filled name cfg.nodes old h.0 e

update_at-Follows :
    (env : Env) (name : String) (node : NodeConfig) (i : ℕ) (old : NodeConfig) (cfg : Config)
    → node_named name cfg.nodes ≡ some old
    → ((n : NodeConfig) → set_at i n cfg.nodes ≡ replace_named name n cfg.nodes)
    → Follows cfg (update_at env name node i old cfg).0
unfolding update_at
update_at-Follows env name node i old cfg e same =
    elim (Result-cases (prepare_node env cfg name node) (prepare_node-Fits env cfg name node)) [
      | failed_at x q ↦ rw (update_at, q) (refl, λ w. w)
      | made n q fits ↦
          rw (update_at, q)
            (
              refl,
              λ w.
                  subst (λ ns. WellFormed (record cfg { nodes = ns }))
                    (sym (same (record n { source = old.source })))
                    (replaced-WellFormed cfg name old n w e fits),
            )
    ]

put_back-Settled :
    (saved : Bool) (i : ℕ) (old n : NodeConfig) (cfg : Config)
    → Follows cfg (store_at i n cfg)
    → set_at i old (set_at i n cfg.nodes) ≡ cfg.nodes
    → Settled cfg (save_update saved i old (store_at i n cfg, ok n))
put_back-Settled true i old n cfg h back = (tt, h.1)
put_back-Settled false i old n cfg h back = (same, λ w. subst WellFormed (sym same) w)
  where
    same : store_at i old (store_at i n cfg) ≡ cfg
    same = ap {B = Config} (λ ns. record cfg { nodes = ns }) back

save_update-Settled :
    (env : Env) (saved : Bool) (name : String) (node : NodeConfig) (i : ℕ) (old : NodeConfig)
    (cfg : Config)
    → node_named name cfg.nodes ≡ some old
    → ((n : NodeConfig) → set_at i n cfg.nodes ≡ replace_named name n cfg.nodes)
    → ((n : NodeConfig) → set_at i old (set_at i n cfg.nodes) ≡ cfg.nodes)
    → Settled cfg (save_update saved i old (update_at env name node i old cfg))
unfolding update_at
save_update-Settled env saved name node i old cfg e same back =
    elim (Result-cases (prepare_node env cfg name node) (prepare_node-Fits env cfg name node)) [
      | failed_at x q ↦ rw (update_at, q) (refl, λ w. w)
      | made n q fits ↦
          let n' = record n { source = old.source } in
          let follows = rw (update_at, q) at (update_at-Follows env name node i old cfg e same) in
          rw (update_at, q) (put_back-Settled saved i old n' cfg follows (back n'))
    ]

update_one-Follows :
    (env : Env) (raw : String) (node : NodeConfig) (cfg : Config)
    → Follows cfg (update_one env raw node cfg).0
unfolding update_one
update_one-Follows env raw node cfg =
    go (located (trim raw) cfg.nodes) refl (located-Located (trim raw) cfg.nodes)
  where
    go :
        (o : Option (ℕ × NodeConfig))
        → located (trim raw) cfg.nodes ≡ o
        → Located (trim raw) cfg.nodes o
        → Follows cfg (update_one env raw node cfg).0
    go none q nowhere = rw (update_one, q) (refl, λ w. w)
    go (some _) q (found_at i old e same back) =
        rw (update_one, q) (update_at-Follows env (trim raw) node i old cfg e same)

update_loop-Follows :
    (env : Env) (nodes : List (String × NodeConfig)) (cfg : Config)
    → Follows cfg (update_loop env nodes cfg).0
unfolding update_loop
update_loop-Follows env [] cfg = (refl, λ w. w)
update_loop-Follows env ((name, node) ∷ rest) cfg = elim (Bool-cases (str_eq (trim name) "")) [
  | inl y ↦ rw (update_loop, y) (update_loop-Follows env rest cfg)
  | inr n ↦
      rw (update_loop, n)
        (go (update_loop-Follows env rest) (update_one env name node cfg)
          (update_one-Follows env name node cfg))
]
  where
    go :
        ((c : Config) → Follows c (update_loop env rest c).0)
        → (r : Config × Result NodeConfig) → Follows cfg r.0
        → Follows cfg (go_on (update_loop env rest) r).0
    go ih (cfg', err e) h = h
    go ih (cfg', ok n) h =
        add_result-Follows cfg n (update_loop env rest cfg') (Follows-trans cfg cfg' _ h (ih cfg'))

pub create_nodes-Settled :
    (env : Env) (saved : Bool) (nodes : List NodeConfig) (cfg : Config)
    → Settled cfg (create_nodes env saved nodes cfg)
unfolding create_nodes
create_nodes-Settled env saved nodes cfg =
    commit-Settled saved cfg _ (Done-Follows cfg _ (create_loop-Follows env nodes cfg))

pub update_node-Settled :
    (env : Env) (saved : Bool) (name : String) (node : NodeConfig) (cfg : Config)
    → Settled cfg (update_node env saved name node cfg)
unfolding update_node
update_node-Settled env saved raw node cfg =
    go (located (trim raw) cfg.nodes) refl (located-Located (trim raw) cfg.nodes)
  where
    go :
        (o : Option (ℕ × NodeConfig))
        → located (trim raw) cfg.nodes ≡ o
        → Located (trim raw) cfg.nodes o
        → Settled cfg (update_node env saved raw node cfg)
    go none q nowhere = rw (update_node, q) (refl, λ w. w)
    go (some _) q (found_at i old e same back) =
        rw (update_node, q) (save_update-Settled env saved (trim raw) node i old cfg e same back)

pub update_nodes-Settled :
    (env : Env) (saved : Bool) (nodes : List (String × NodeConfig)) (cfg : Config)
    → Settled cfg (update_nodes env saved nodes cfg)
unfolding update_nodes
update_nodes-Settled env saved nodes cfg =
    go (update_loop env nodes cfg) (update_loop-Follows env nodes cfg)
  where
    go :
        (r : Config × Result (List NodeConfig))
        → Follows cfg r.0
        → Settled cfg (commit_updates saved cfg.nodes r)
    go (cfg', ok []) h = (tt, h.1)
    go (cfg', ok (n ∷ ns)) h = commit-Settled {A = List NodeConfig} saved cfg (cfg', ok (n ∷ ns)) h
    go (cfg', err e) h = commit-Settled {A = List NodeConfig} saved cfg (cfg', err e) (h.0, λ w. tt)

pub delete_nodes-Settled :
    (saved : Bool) (names : List String) (cfg : Config) → Settled cfg (delete_nodes saved names cfg)
unfolding delete_nodes
delete_nodes-Settled saved names cfg = go (length (filter kept cfg.nodes) == length cfg.nodes)
  where
    kept : NodeConfig → Bool
    kept node = not (contains node.name (clean_names names))

    left : Config × Result {0} Unit
    left = (record cfg { nodes = filter kept cfg.nodes }, ok tt)

    go :
        (b : Bool)
        → Settled cfg (if b then (cfg, err node_not_found) else commit saved cfg.nodes left)
    go true = (refl, λ w. w)
    go false =
        commit-Settled {A = Unit} saved cfg left
          (refl, λ w. (Named-filter _ cfg.nodes w.0, λ y. Ported-filter _ cfg.nodes (w.1 y), w.2))
