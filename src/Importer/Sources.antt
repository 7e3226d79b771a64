-- ===== src/Importer/Sources.antt =====
-- internal/importer/sources.go: normal forms and identities of the sources of a node.
use Prim.Native.String.{◌++◌ as append}
use easy_proxies.Prelude.{
  ℕ, Bool, true, false, ◌&&◌, ◌||◌, List, [], ◌∷◌, ◌++◌, String, codes, lower, str_eq, trim,
  if◌then◌else◌, ◌==◌,
}
use easy_proxies.Importer.Nodes.{NodeSourceRef, ManagedNode}

-- `strings.HasPrefix`
unfoldable pub has_prefix : List ℕ → List ℕ → Bool
has_prefix s [] = true
has_prefix [] (p ∷ ps) = false
has_prefix (c ∷ s) (p ∷ ps) = c == p && has_prefix s ps

unfoldable pub is_url_source_ref : NodeSourceRef → Bool
unfolding has_prefix
is_url_source_ref ref =
    let mode = trim ref.mode in
    let source = lower (codes (trim ref.source)) in
    if str_eq mode "url"
    then true
    else if str_eq mode ""
    then has_prefix source (codes "http://") || has_prefix source (codes "https://")
    else false

abbrev pub trimmed : NodeSourceRef → NodeSourceRef
trimmed ref = record {
  tag_prefix = trim ref.tag_prefix;
  import_id = trim ref.import_id;
  mode = trim ref.mode;
  source = trim ref.source;
  format = trim ref.format;
  chain_profile_id = trim ref.chain_profile_id;
  fetch_policy = trim ref.fetch_policy;
}

abbrev pub with_mode : NodeSourceRef → NodeSourceRef
with_mode ref =
    if str_eq ref.mode "" && is_url_source_ref ref then record ref { mode = "url" } else ref

abbrev pub with_fetch_policy : NodeSourceRef → NodeSourceRef
with_fetch_policy ref = if is_url_source_ref ref then record ref { fetch_policy = "auto" } else ref

unfoldable pub normalize_source_ref : NodeSourceRef → NodeSourceRef
unfolding is_url_source_ref
normalize_source_ref ref = with_fetch_policy (with_mode (trimmed ref))

-- Two parts of a key, with a zero byte between them.
abbrev pub key_join : String → String → String
key_join a b = append a (append "\0" b)

unfoldable pub source_ref_identity : NodeSourceRef → String
unfolding is_url_source_ref
source_ref_identity ref =
    let tag = trim ref.tag_prefix in
    let mode = trim ref.mode in
    let source = trim ref.source in
    if str_eq tag "" && str_eq mode "" && str_eq source "" && str_eq (trim ref.import_id) ""
    then ""
    else if is_url_source_ref ref
    then key_join tag (key_join "url" (key_join source ref.chain_profile_id))
    else key_join tag
        (key_join mode (key_join source (key_join (trim ref.import_id) ref.chain_profile_id)))

-- `stringSliceContains`, and a set of keys.
unfoldable pub contains : String → List String → Bool
contains want [] = false
contains want (value ∷ values) = str_eq value want || contains want values

-- `appendRef` over a list, behind the keys that were seen.
unfoldable pub deduplicate_from : List String → List NodeSourceRef → List NodeSourceRef
unfolding contains normalize_source_ref source_ref_identity
deduplicate_from seen [] = []
deduplicate_from seen (ref ∷ refs) =
    let ref' = normalize_source_ref ref in
    let key = source_ref_identity ref' in
    let skip = str_eq key "" || contains key seen in
    let rest = deduplicate_from (if skip then seen else key ∷ seen) refs in
    if skip then rest else ref' ∷ rest

unfoldable pub deduplicate_source_refs : List NodeSourceRef → List NodeSourceRef
unfolding deduplicate_from
deduplicate_source_refs refs = deduplicate_from [] refs

abbrev pub source_ref_from_node : ManagedNode → NodeSourceRef
source_ref_from_node node = record {
  tag_prefix = trim node.tag_prefix;
  import_id = trim node.import_id;
  mode = trim node.import_mode;
  source = trim node.import_source;
  format = trim node.import_format;
  chain_profile_id = trim node.chain_profile_id;
  fetch_policy = "";
}

unfoldable pub node_source_refs : ManagedNode → List NodeSourceRef
unfolding deduplicate_from
node_source_refs node = deduplicate_from [] (node.source_refs ++ (source_ref_from_node node ∷ []))

unfoldable pub merge_node_source_refs : ManagedNode → ManagedNode → ManagedNode
unfolding node_source_refs deduplicate_source_refs
merge_node_source_refs existing incoming = record incoming {
  source_refs = deduplicate_source_refs (node_source_refs existing ++ node_source_refs incoming);
}

abbrev pub apply_primary_source : ManagedNode → NodeSourceRef → ManagedNode
apply_primary_source node ref = record node {
  tag_prefix = ref.tag_prefix;
  import_id = ref.import_id;
  import_mode = ref.mode;
  import_source = ref.source;
  import_format = ref.format;
  chain_profile_id = ref.chain_profile_id;
}

unfoldable pub any_ref : (NodeSourceRef → Bool) → List NodeSourceRef → Bool
any_ref matches [] = false
any_ref matches (ref ∷ refs) = matches ref || any_ref matches refs

unfoldable pub node_has_source : (NodeSourceRef → Bool) → ManagedNode → Bool
unfolding node_source_refs any_ref
node_has_source matches node = any_ref matches (node_source_refs node)
