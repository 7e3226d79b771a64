-- ===== src/Config/Loops.antt =====
-- internal/config/config.go: `validateChainProfileLoops`, the end of a load: no hop of a chain
-- profile may lead back to a port that this process listens on. The parsers of Go's `net`,
-- `net/url` and `strconv` are parameters.
use easy_proxies.Prelude.{
  ℕ, Bool, false, ◌&&◌, ◌||◌, Option, none, some, List, [], ◌∷◌, ◌++◌, String, str_eq, codes,
  codes_eq, lower, trim_space, holds, if◌then◌else◌, ◌==◌,
}
use easy_proxies.Proxychain.Profiles.{Hop, Profile}
use easy_proxies.Config.Types.{NodeConfig, Config}

pub record Url : Type 0 where
  pub scheme : String
  pub hostname : String
  pub port : String

-- `url.Parse`, `net.ParseIP` with `IsLoopback`, the value and the success of `strconv.ParseUint` for
-- 16 bits, and the host and the port of `net.SplitHostPort`.
pub record NetEnv : Type 0 where
  pub parse_url : String → Option Url
  pub is_loopback_ip : List ℕ → Bool
  pub parse_uint16 : String → ℕ × Bool
  pub split_host_port : String → Option (String × String)

abbrev pub is_local_proxy_host : NetEnv → String → Bool
is_local_proxy_host net host =
    let name = trim_space (lower (codes host)) in
    codes_eq name (codes "localhost") || net.is_loopback_ip name

abbrev pub proxy_default_port : NetEnv → Url → ℕ
proxy_default_port net u =
    if str_eq u.port ""
    then if codes_eq (lower (codes u.scheme)) (codes "http")
      then 80
      else if codes_eq (lower (codes u.scheme)) (codes "https")
      then 443
      else 0
    else (net.parse_uint16 u.port).0

abbrev with_port : ℕ → List ℕ → List ℕ
with_port port ports = if port == 0 then ports else port ∷ ports

abbrev pub node_ports : List NodeConfig → List ℕ
node_ports [] = []
node_ports (node ∷ nodes) = with_port node.port (node_ports nodes)

-- The port of `management.listen`, if it has one.
abbrev pub management_ports : NetEnv → String → List ℕ
management_ports net listen = elim (net.split_host_port listen) [
  | none ↦ []
  | some (host, raw_port) ↦
      let (port, parsed) = net.parse_uint16 raw_port in if parsed then port ∷ [] else []
]

abbrev pub local_ports : NetEnv → String → Config → List ℕ
local_ports net listen cfg =
    management_ports net listen ++ with_port cfg.listener_port (node_ports cfg.nodes)

abbrev pub is_blocked : NetEnv → List ℕ → Hop → Bool
is_blocked net ports hop = elim (net.parse_url hop.uri) [
  | none ↦ false
  | some u ↦ is_local_proxy_host net u.hostname && holds (proxy_default_port net u) ports
]

abbrev pub any_blocked : NetEnv → List ℕ → List Hop → Bool
any_blocked net ports [] = false
any_blocked net ports (hop ∷ hops) = is_blocked net ports hop || any_blocked net ports hops

-- Whether a hop of a profile is blocked; a disabled profile counts as well.
unfoldable pub has_loop : NetEnv → List ℕ → List Profile → Bool
unfolding lower trim_space codes_eq
has_loop net ports [] = false
has_loop net ports (profile ∷ profiles) =
    any_blocked net ports profile.hops || has_loop net ports profiles

abbrev pub validate_chain_profile_loops :
    NetEnv → String → List Profile → Option Config → Option Config
validate_chain_profile_loops net listen profiles none = none
validate_chain_profile_loops net listen profiles (some cfg) =
    if has_loop net (local_ports net listen cfg) profiles then none else some cfg
