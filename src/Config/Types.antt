-- ===== src/Config/Types.antt =====
-- internal/config/config.go: a configuration, as far as nodes and their ports depend on it, and the
-- name that a node's URI carries.
use Prim.Native.Char.{code}
use Prim.Native.String.{◌++◌ as append}
use easy_proxies.Prelude.{
  ℕ, zero, suc, Bool, Option, none, some, List, String, str_eq, ◌||◌, trim, codes, if◌then◌else◌,
  ◌==◌,
}
use easy_proxies.Importer.Sources.{has_prefix}

pub data NodeSource : Type 0 where
  no_source inline_source file_source subscription_source : NodeSource

pub record NodeConfig : Type 0 where
  pub name : String
  pub uri : String
  pub chain_profile_id : String
  pub port : ℕ
  pub username : String
  pub password : String
  pub source : NodeSource

pub record MultiPortConfig : Type 0 where
  pub address : String
  pub base_port : ℕ
  pub username : String
  pub password : String

pub record Config : Type 0 where
  pub mode : String
  pub listener_port : ℕ
  pub multi_port : MultiPortConfig
  pub nodes : List NodeConfig
  pub nodes_file : String
  pub subscriptions : List String

-- What the operating system and the libraries answer: whether a port can be bound, the name in a
-- decoded vmess payload, a decoded text of a URL, and a number in decimal.
pub record Env : Type 0 where
  pub can_listen : String → ℕ → Bool
  pub vmess_name : String → Option String
  pub query_unescape : String → Option String
  pub decimal : ℕ → String

abbrev pub node_key : NodeConfig → String
node_key node = append node.uri (append "\0" node.chain_profile_id)

-- The text behind the last `#`, and the text before the first.
unfoldable pub after_last_hash : String → Option String
after_last_hash String.[] = none
after_last_hash (String.◌∷◌ c s) = elim (after_last_hash s) [
  | some t ↦ some t
  | none ↦ if code c == b'#' then some s else none
]

unfoldable pub before_hash : String → String
before_hash String.[] = ""
before_hash (String.◌∷◌ c s) =
    let rest = before_hash s in if code c == b'#' then "" else String.◌∷◌ c rest

unfoldable pub drop_chars : ℕ → String → String
drop_chars zero s = s
drop_chars (suc n) String.[] = ""
drop_chars (suc n) (String.◌∷◌ c s) = drop_chars n s

abbrev decoded_fragment : Option String → String → String
decoded_fragment none fragment = trim fragment
decoded_fragment (some d) fragment = if str_eq d "" then trim fragment else trim d

abbrev named : Option String → String
named none = ""
named (some ps) = trim ps

unfoldable pub extract_node_name : Env → String → String
unfolding after_last_hash before_hash drop_chars has_prefix
extract_node_name env raw =
    let uri = trim raw in
    if has_prefix (codes uri) (codes "vmess://")
    then named (env.vmess_name (trim (before_hash (drop_chars 8 uri))))
    else elim (after_last_hash uri) [
      | none ↦ ""
      | some fragment ↦
          if str_eq fragment "" then "" else decoded_fragment (env.query_unescape fragment) fragment
    ]

-- Modes in which each node has a port of its own.
abbrev pub has_node_ports : Config → Bool
has_node_ports cfg = str_eq cfg.mode "multi-port" || str_eq cfg.mode "hybrid"
