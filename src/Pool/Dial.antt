-- ===== src/Pool/Dial.antt =====
-- internal/outbound/pool/pool.go: the pool's life. `outbounds` is sing-box's outbound manager: the
-- networks of the outbound with a tag. A dial is two steps, with the outbound's answer between.
use easy_proxies.Prelude.{
  ◌==◌, ℕ, String, Bool, true, Option, none, some, List, [], ◌∷◌, ◌++◌, ℤ, pos, if◌then◌else◌,
  lookup, is_some,
}
use easy_proxies.Monitor.Entry.{
  NodeInfo, ProbeFn, ReleaseFn, ProbeResult, set_probe, set_release, set_blacklist_fn,
  record_failure as entry_record_failure,
  record_success_with_latency as entry_record_success_with_latency,
}
use easy_proxies.Monitor.Manager.{Manager, register, with_entry}
use easy_proxies.Pool.Shared.{
  World, on_monitor, acquire_shared_state, attach_entry, record_failure, record_success,
  force_release, inc_active, dec_active,
}
use easy_proxies.Pool.Members.{
  Options, MemberMeta, no_meta, Member, PoolOutbound, normalize_options,
}
use easy_proxies.Pool.Select.{Selection}
use easy_proxies.Pool.Balance.{select_available}

pub data PoolError : Type 0 where
  no_members : PoolError
  member_not_found : String → PoolError
  no_healthy_proxy : PoolError

abbrev or_no_meta : Option MemberMeta → MemberMeta
or_no_meta none = no_meta
or_no_meta (some m) = m

abbrev meta_of : Options → String → MemberMeta
meta_of o tag = elim o.metadata [ none ↦ no_meta | some m ↦ or_no_meta (lookup tag m) ]

abbrev pub node_info : Options → String → NodeInfo
node_info o tag =
    let m = meta_of o tag in
    record {
      tag = tag;
      name = m.name;
      uri = m.uri;
      mode = m.mode;
      listen_address = m.listen_address;
      port = m.port;
      region = m.region;
      country = m.country;
    }

-- The closures that are stored in an entry; a probe only where a target is configured.
abbrev hook : ReleaseFn → String → ProbeFn → ℕ → Manager → Manager
hook release tag probe e m =
    let m' =
      with_entry (set_blacklist_fn tag) (some e) (with_entry (set_release release) (some e) m) in
    if is_some m'.probe_target then with_entry (set_probe probe) (some e) m' else m'

-- One round of the loop of `newPool`.
unfoldable pub register_member : Options → String → World → World
register_member o tag w =
    let (w₁, a) = acquire_shared_state tag w in
    let (m, e) = register (node_info o tag) w₁.monitor in
    on_monitor (hook (ReleaseFn.release_by_tag tag) tag (ProbeFn.probe_by_tag tag) e)
      (attach_entry (some e) a (record w₁ { monitor = m }))

unfoldable pub register_members : Options → List String → World → World
unfolding register_member
register_members o [] w = w
register_members o (tag ∷ tags) w = register_members o tags (register_member o tag w)

abbrev fresh_pool : Options → (ℕ → ℕ) → Bool → PoolOutbound
fresh_pool o draws monitored = record {
  options = o;
  mode = o.mode;
  members = [];
  rr_counter = 0;
  draws = draws;
  next_draw = 0;
  rotate_tag = "";
  rotate_member = none;
  rotate_since = pos 0;
  selection_checks = 0;
  monitored = monitored;
}

pub data NewPool : Type 0 where
  created : PoolOutbound → World → NewPool
  rejected : PoolError → NewPool

unfoldable pub new_pool : Options → (ℕ → ℕ) → Bool → World → NewPool
unfolding register_members normalize_options
new_pool options draws monitored w = elim options.members [
  | [] ↦ rejected no_members
  | tag ∷ tags ↦
      let o = normalize_options options in
      created (fresh_pool o draws monitored)
        (if monitored then register_members o o.members w else w)
]

-- One round of the loop of `initializeMembersLocked`, for an outbound that was found.
unfoldable pub initialize_member : PoolOutbound → String → List String → World → World × Member
initialize_member p tag networks w =
    let (w₁, a) = acquire_shared_state tag w in
    let (m, e) = register (node_info p.options tag) w₁.monitor in
    let release = ReleaseFn.release_member (some a) in
    let probe = ProbeFn.probe_member (some e) (some a) in
    let w₂ =
      on_monitor (hook release tag probe e) (attach_entry (some e) a (record w₁ { monitor = m })) in
    if p.monitored
    then (w₂, record { outbound = some networks; tag = tag; entry = some e; shared = some a })
    else (
      w₁,
      record { outbound = some networks; tag = tag; entry = (w₁.states a).entry; shared = some a },
    )

pub data Members : Type 0 where
  all_found : List Member → Members
  missing : String → Members

module _ (outbounds : String → Option (List String)) where
  -- The loop: the members so far, and the tags that are left.
  unfoldable pub initialize_loop :
      PoolOutbound → List String → List Member → World → World × Members
  unfolding initialize_member
  initialize_loop p [] found w = (w, all_found found)
  initialize_loop p (tag ∷ tags) found w = elim (outbounds tag) [
    | none ↦ (w, missing tag)
    | some networks ↦
        let (w', m) = initialize_member p tag networks w in
        initialize_loop p tags (found ++ m ∷ []) w'
  ]

  abbrev finish_initialize :
      PoolOutbound → World × Members → PoolOutbound × World × Option PoolError
  finish_initialize p (w, all_found ms) = (record p { members = ms }, w, none)
  finish_initialize p (w, missing tag) = (p, w, some (member_not_found tag))

  abbrev initialize_from :
      PoolOutbound → List Member → World → PoolOutbound × World × Option PoolError
  initialize_from p [] w = finish_initialize p (initialize_loop p p.options.members [] w)
  initialize_from p (m ∷ ms) w = (p, w, none)

  unfoldable pub initialize_members : PoolOutbound → World → PoolOutbound × World × Option PoolError
  unfolding initialize_loop
  initialize_members p w = initialize_from p p.members w

  pub data Picked : Type 0 where
    picked : ℕ → Picked
    not_picked : PoolError → Picked

  abbrev pub picked_of : Selection → PoolOutbound × World × Picked
  picked_of (p, w, none) = (p, w, not_picked no_healthy_proxy)
  picked_of (p, w, some i) = (p, w, picked i)

  abbrev select_after :
      ℤ → String → PoolOutbound × World × Option PoolError → PoolOutbound × World × Picked
  select_after now network (p, w, none) = picked_of (select_available now network p w)
  select_after now network (p, w, some err) = (p, w, not_picked err)

  unfoldable pub pick_member : ℤ → String → PoolOutbound → World → PoolOutbound × World × Picked
  unfolding initialize_members
  pick_member now network p w = select_after now network (initialize_members p w)

-- The calls on `member.shared`, when it is not nil.
abbrev pub on_shared : (ℕ → World → World) → Option ℕ → World → World
on_shared f none w = w
on_shared f (some a) w = f a w

unfoldable pub member_failed : ℤ → String → PoolOutbound → Option ℕ → World → World
unfolding record_failure
member_failed now cause p shared w =
    on_shared
      (λ a v.
        (record_failure now cause p.options.failure_threshold p.options.blacklist_duration a v).0)
      shared w

-- The answer of the member's outbound to a dial.
pub data DialResult : Type 0 where
  connected : DialResult
  dial_failed : String → DialResult

-- Behind a pick: the connection counts as active before the outbound is asked.
unfoldable pub begin_dial : Option ℕ → World → World
unfolding inc_active
begin_dial shared w = on_shared inc_active shared w

unfoldable pub end_dial : ℤ → PoolOutbound → Option ℕ → DialResult → World → World
unfolding dec_active member_failed record_success
end_dial now p shared connected w = on_shared (record_success now) shared w
end_dial now p shared (dial_failed cause) w =
    member_failed now cause p shared (on_shared dec_active shared w)

-- `trackedConn.Close`: the first call releases the connection.
unfoldable pub close_conn : Option ℕ → Bool → World → World × Bool
unfolding dec_active
close_conn shared closed w = if closed then (w, true) else (on_shared dec_active shared w, true)

-- The probe closure of an initialised member, given the answer of `probeHTTP`.
unfoldable pub probe_result : ℤ → Option ℕ → Option ℕ → ProbeResult → World → World
unfolding force_release
probe_result now entry shared (ProbeResult.failed_with err) w =
    on_monitor (with_entry (entry_record_failure now err) entry) w
probe_result now entry shared (ProbeResult.latency_of d) w =
    on_shared force_release shared
      (on_monitor (with_entry (entry_record_success_with_latency now d) entry) w)

-- `probeHTTP` behind the round trip: only 204 counts as a success.
unfoldable pub http_result : ℕ → ℤ → ProbeResult
http_result status elapsed =
    if status == 204
    then ProbeResult.latency_of elapsed
    else ProbeResult.failed_with "probe got an unexpected HTTP status, expected 204"
