-- ===== src/Boxmgr/Result.antt =====
-- internal/boxmgr/manager.go: the errors of the changes of nodes, and the end of a change. The
-- operations work on the configuration in place, so each yields the configuration as it left it
-- together with its result; `commit` saves it or puts the copy of the nodes back.
use easy_proxies.Prelude.{Bool, true, false, List, if◌then◌else◌, ◌≡◌, refl}
use easy_proxies.Config.Types.{NodeConfig, Config}

pub data NodeError : Type 0 where
  empty_uri name_taken no_free_port port_taken port_in_use node_not_found ports_exhausted
        save_failed :
      NodeError

pub data Result {ℓ} (A : Type ℓ) : Type ℓ where
  ok : A → Result A
  err : NodeError → Result A

abbrev pub commit {ℓ} :
    {A : Type ℓ} → Bool → List NodeConfig → Config × Result A → Config × Result A
commit saved backup (cfg, err e) = (record cfg { nodes = backup }, err e)
commit saved backup (cfg, ok a) =
    if saved then (cfg, ok a) else (record cfg { nodes = backup }, err save_failed)

-- What holds of a result that is not an error.
abbrev pub OnOk {ℓ κ} : {A : Type ℓ} → (A → Type κ) → Result A → Type κ
OnOk P (ok a) = P a
OnOk P (err e) = Unit

pub OnOk-if {ℓ κ} :
    {A : Type ℓ} (P : A → Type κ) (b : Bool) (x y : Result A)
    → (b ≡ true → OnOk P x)
    → (b ≡ false → OnOk P y)
    → OnOk P (if b then x else y)
OnOk-if P true x y h k = h refl
OnOk-if P false x y h k = k refl

-- An error leaves the configuration.
abbrev pub OnErr {ℓ} : {A : Type ℓ} → Config → Config × Result A → Type 0
OnErr cfg (cfg', ok a) = Unit
OnErr cfg (cfg', err e) = cfg' ≡ cfg
