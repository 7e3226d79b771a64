-- ===== src/Monitor/Entry.antt =====
-- internal/monitor/manager.go: `entry`, its records and the operations on one entry.
-- Instants count nanoseconds from Go's zero time, which is `pos 0`; one instant serves all the
-- `time.Now()` calls of an operation. The closures that the pool stores in an entry are values.
use easy_proxies.Prelude.{
  ℕ, ◌+◌, ◌-◌, ◌/◌, ◌%◌, String, Bool, true, false, ◌&&◌, Option, none, some, List, [], ◌∷◌, ◌++◌,
  ℤ, pos, negsuc, sub_ℕ, ltb_ℤ, if◌then◌else◌, leb, length, drop,
}

pub record NodeInfo : Type 0 where
  pub tag : String
  pub name : String
  pub uri : String
  pub mode : String
  pub listen_address : String
  pub port : ℕ
  pub region : String
  pub country : String

pub record TimelineEvent : Type 0 where
  pub time : ℤ
  pub success : Bool
  pub latency_ms : ℤ
  pub error : String

abbrev pub max_timeline_size : ℕ
max_timeline_size = 20

-- A probe closure: of an initialised member (its entry and its shared state), or by tag.
pub data ProbeFn : Type 0 where
  probe_member : Option ℕ → Option ℕ → ProbeFn
  probe_by_tag : String → ProbeFn

-- A release closure: of a member's shared state, or by tag.
pub data ReleaseFn : Type 0 where
  release_member : Option ℕ → ReleaseFn
  release_by_tag : String → ReleaseFn

pub record Entry : Type 0 where
  pub info : NodeInfo
  pub failure : ℕ
  pub success : ℕ
  pub timeline : List TimelineEvent
  pub blacklist : Bool
  pub until : ℤ
  pub last_error : String
  pub last_fail : ℤ
  pub last_ok : ℤ
  pub last_probe : ℤ
  pub active : ℕ  -- the bit pattern of an int32
  pub probe : Option ProbeFn
  pub release : Option ReleaseFn
  pub blacklist_fn : Option String
  pub initial_check_done : Bool
  pub available : Bool

-- A node that is registered for the first time.
abbrev pub new_entry : NodeInfo → Entry
new_entry info = record {
  info = info;
  failure = 0;
  success = 0;
  timeline = [];
  blacklist = false;
  until = pos 0;
  last_error = "";
  last_fail = pos 0;
  last_ok = pos 0;
  last_probe = pos 0;
  active = 0;
  probe = none;
  release = none;
  blacklist_fn = none;
  initial_check_done = false;
  available = false;
}

-- `time.Duration.Milliseconds`, which rounds towards 0.
abbrev pub milliseconds : ℤ → ℤ
milliseconds (pos n) = pos (n / 1000000)
milliseconds (negsuc n) = sub_ℕ 0 ((n + 1) / 1000000)

-- The oldest event falls off the front of a full timeline.
unfoldable pub append_timeline : List TimelineEvent → TimelineEvent → List TimelineEvent
append_timeline ts evt =
    if leb max_timeline_size (length ts) then drop 1 ts ++ evt ∷ [] else ts ++ evt ∷ []

abbrev pub new_event : ℤ → Bool → ℤ → String → TimelineEvent
new_event now success latency_ms error = record {
  time = now;
  success = success;
  latency_ms = latency_ms;
  error = error;
}

unfoldable pub record_failure : ℤ → String → Entry → Entry
unfolding append_timeline
record_failure now err e = record e {
  failure = e.failure + 1;
  last_error = err;
  last_fail = now;
  timeline = append_timeline e.timeline (new_event now false (pos 0) err);
}

unfoldable pub record_success : ℤ → Entry → Entry
unfolding append_timeline
record_success now e = record e {
  success = e.success + 1;
  last_ok = now;
  timeline = append_timeline e.timeline (new_event now true (pos 0) "");
}

is_zero : ℤ → Bool
is_zero (pos n) = leb n 0
is_zero (negsuc n) = false

-- Milliseconds of a probe, at least one for a positive latency.
unfoldable pub latency_millis : ℤ → ℤ
unfolding is_zero
latency_millis latency =
    let ms = milliseconds latency in if is_zero ms && ltb_ℤ (pos 0) latency then pos 1 else ms

unfoldable pub record_success_with_latency : ℤ → ℤ → Entry → Entry
unfolding append_timeline latency_millis
record_success_with_latency now latency e = record e {
  success = e.success + 1;
  last_ok = now;
  last_probe = latency;
  timeline = append_timeline e.timeline (new_event now true (latency_millis latency) "");
}

unfoldable pub blacklist_until : ℤ → Entry → Entry
blacklist_until until e = record e { blacklist = true; until = until }

unfoldable pub clear_blacklist : Entry → Entry
clear_blacklist e = record e { blacklist = false; until = pos 0 }

-- `active` is an int32: a bit pattern that wraps.
abbrev pub i32_mod : ℕ
i32_mod = 4294967296

abbrev pub i32_inc : ℕ → ℕ
i32_inc a = (a + 1) % i32_mod

abbrev pub i32_dec : ℕ → ℕ
i32_dec a = (a + i32_mod - 1) % i32_mod

unfoldable pub inc_active : Entry → Entry
inc_active e = record e { active = i32_inc e.active }

unfoldable pub dec_active : Entry → Entry
dec_active e = record e { active = i32_dec e.active }

unfoldable pub set_probe : ProbeFn → Entry → Entry
set_probe fn e = record e { probe = some fn }

unfoldable pub set_release : ReleaseFn → Entry → Entry
set_release fn e = record e { release = some fn }

unfoldable pub set_blacklist_fn : String → Entry → Entry
set_blacklist_fn tag e = record e { blacklist_fn = some tag }

unfoldable pub record_probe_latency : ℤ → Entry → Entry
record_probe_latency d e = record e { last_probe = d }

unfoldable pub mark_initial_check_done : Bool → Entry → Entry
mark_initial_check_done available e = record e { initial_check_done = true; available = available }

unfoldable pub mark_available : Bool → Entry → Entry
mark_available available e = record e { available = available }

-- The lines of `probeAllNodes` that store the result of one probe.
pub data ProbeResult : Type 0 where
  latency_of : ℤ → ProbeResult
  failed_with : String → ProbeResult

unfoldable pub store_probe : ℤ → ProbeResult → Entry → Entry
store_probe now (failed_with err) e = record e {
  last_error = err;
  last_fail = now;
  available = false;
  initial_check_done = true;
}
store_probe now (latency_of latency) e = record e {
  last_ok = now;
  last_probe = latency;
  available = true;
  initial_check_done = true;
}

pub record Snapshot : Type 0 where
  pub info : NodeInfo
  pub failure_count : ℕ
  pub success_count : ℕ
  pub blacklisted : Bool
  pub blacklisted_until : ℤ
  pub active_connections : ℕ
  pub last_error : String
  pub last_failure : ℤ
  pub last_success : ℤ
  pub last_probe_latency : ℤ
  pub last_latency_ms : ℤ
  pub available : Bool
  pub initial_check_done : Bool
  pub timeline : List TimelineEvent

-- -1 for a node that was never probed.
pub snapshot_latency : ℤ → ℤ
unfolding is_zero
snapshot_latency last_probe =
    let ms = milliseconds last_probe in
    if ltb_ℤ (pos 0) last_probe then if is_zero ms then pos 1 else ms else negsuc 0

unfoldable pub snapshot : Entry → Snapshot
unfolding snapshot_latency
snapshot e = record {
  info = e.info;
  failure_count = e.failure;
  success_count = e.success;
  blacklisted = e.blacklist;
  blacklisted_until = e.until;
  active_connections = e.active;
  last_error = e.last_error;
  last_failure = e.last_fail;
  last_success = e.last_ok;
  last_probe_latency = e.last_probe;
  last_latency_ms = snapshot_latency e.last_probe;
  available = e.available;
  initial_check_done = e.initial_check_done;
  timeline = e.timeline;
}
