-- ===== src/Pool/Fixtures.antt =====
-- A process with two nodes and the pools over them, for tests.
use easy_proxies.Prelude.{ℕ, String, true, false, some, [], ◌∷◌, pos, ◌==◌, if◌then◌else◌}
use easy_proxies.Monitor.Entry.{Entry, NodeInfo, ReleaseFn, new_entry}
use easy_proxies.Monitor.Manager.{Manager}
use easy_proxies.Pool.Shared.{World, SharedMemberState, new_state}
use easy_proxies.Pool.Members.{Options, Member, PoolOutbound}

abbrev pub info_of : String → NodeInfo
info_of tag = record {
  tag = tag;
  name = tag;
  uri = "";
  mode = "";
  listen_address = "";
  port = 0;
  region = "";
  country = "";
}

abbrev pub healthy_entry : Entry
healthy_entry = record (new_entry (info_of "a")) {
  blacklist_fn = some "a";
  release = some (ReleaseFn.release_by_tag "a");
  last_probe = pos 5000000;
}

abbrev pub banned_entry : Entry
banned_entry = record (new_entry (info_of "b")) {
  blacklist = true;
  until = pos 100;
  blacklist_fn = some "b";
  release = some (ReleaseFn.release_by_tag "b");
}

abbrev pub two_entries : ℕ → Entry
two_entries e = if e == 0 then healthy_entry else banned_entry

abbrev pub monitor : Manager
monitor = record {
  probe_target = some "http://probe.test/";
  entries = two_entries;
  next_entry = 2;
  nodes = ("a", 0) ∷ ("b", 1) ∷ [];
  stopped = false;
  health_check = false;
  probe_running = false;
}

abbrev pub healthy_state : SharedMemberState
healthy_state = record new_state { entry = some 0 }

abbrev pub banned_state : SharedMemberState
banned_state = record new_state { entry = some 1; blacklisted = true; blacklisted_until = pos 100 }

abbrev pub two_states : ℕ → SharedMemberState
two_states a = if a == 0 then healthy_state else if a == 1 then banned_state else new_state

-- Node a is healthy; node b is blacklisted until 100.
abbrev pub world : World
world = record {
  monitor = monitor;
  states = two_states;
  next_state = 2;
  store = ("a", 0) ∷ ("b", 1) ∷ [];
}

abbrev pub member_a : Member
member_a = record { outbound = some ("tcp" ∷ []); tag = "a"; entry = some 0; shared = some 0 }

abbrev pub member_b : Member
member_b = record { outbound = some ("tcp" ∷ []); tag = "b"; entry = some 1; shared = some 1 }

abbrev pub options : Options
options = record {
  mode = "balance";
  members = "a" ∷ "b" ∷ [];
  failure_threshold = pos 2;
  blacklist_duration = pos 50;
  rotation_interval = pos 60;
  metadata = some [];
}

-- The random source counts up.
abbrev pub pool : PoolOutbound
pool = record {
  options = options;
  mode = "balance";
  members = member_a ∷ member_b ∷ [];
  rr_counter = 1;
  draws = λ k. k;
  next_draw = 0;
  rotate_tag = "a";
  rotate_member = some 0;
  rotate_since = pos 0;
  selection_checks = 0;
  monitored = true;
}

-- Three members, of which only the last can serve, and a counter that is about to wrap.
abbrev pub wrapping_pool : PoolOutbound
wrapping_pool = record pool {
  members = member_b ∷ member_b ∷ member_a ∷ [];
  rr_counter = 4294967295;
}
