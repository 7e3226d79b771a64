-- ===== src/Pool/Synced.antt =====
-- The blacklist flag that the monitor shows against the one that the pool routes by, while the parts
-- of operations interleave.
use easy_proxies.Prelude.{
  ℕ, Bool, true, false, Option, some, none, List, [], ◌∷◌, update, ◌≡◌, refl, arith,
}
use easy_proxies.Monitor.Entry.{
  Entry, blacklist_until, clear_blacklist, record_failure as entry_record_failure,
  record_success as entry_record_success,
}
use easy_proxies.Monitor.Manager.{with_entry}
use easy_proxies.Pool.Shared.{
  World, SharedMemberState, EntryCall, entry_call, put_state, on_monitor, make_call,
}

-- The process, and for each state the calls on its entry that the operation under way on it has
-- still to make.
pub record Process : Type 0 where
  pub world : World
  pub pending : ℕ → List EntryCall

-- The first part of an operation on a state: its new value, and the calls that are left.
abbrev pub start : ℕ → SharedMemberState → List EntryCall → Process → Process
start a s calls p = record { world = put_state a s p.world; pending = update p.pending a calls }

abbrev pub in_world : (World → World) → Process → Process
in_world f p = record p { world = f p.world }

abbrev pub call_next : ℕ → EntryCall → List EntryCall → Process → Process
call_next a c cs p = record {
  world = make_call (p.world.states a).entry c p.world;
  pending = update p.pending a cs;
}

-- The flag that an entry shows behind calls.
abbrev pub flag_after : EntryCall → Bool → Bool
flag_after (EntryCall.bans until) b = true
flag_after EntryCall.clears b = false
flag_after (EntryCall.fails now cause) b = b
flag_after (EntryCall.succeeds now) b = b

abbrev pub shown : List EntryCall → Bool → Bool
shown [] b = b
shown (c ∷ cs) b = shown cs (flag_after c b)

-- An entry belongs to one state, and shows its flag once the calls left have been made.
pub record Synced (p : Process) : Type 0 where
  pub same :
      (a e : ℕ)
      → (p.world.states a).entry ≡ some e
      → shown (p.pending a) (p.world.monitor.entries e).blacklist ≡ (p.world.states a).blacklisted
  pub apart :
      (a b e : ℕ) → (p.world.states a).entry ≡ some e → (p.world.states b).entry ≡ some e → a ≡ b

-- The first part of an operation on a state without one under way.
pub start-Synced :
    (a : ℕ) (s : SharedMemberState) (calls : List EntryCall) (p : Process)
    → p.pending a ≡ []
    → s.entry ≡ (p.world.states a).entry
    → ((b : Bool) → b ≡ (p.world.states a).blacklisted → shown calls b ≡ s.blacklisted)
    → Synced p
    → Synced (start a s calls p)
start-Synced a s calls p idle o f v = record {
  same =
      λ b e q. ground (arith, v.same b e, f (p.world.monitor.entries e).blacklist, idle, o, shown);
  apart = λ b c e q r. ground (arith, v.apart b c e, v.apart a c e, v.apart b a e, o);
}

entry_call-flag :
    (c : EntryCall) (x : Entry) → (entry_call c x).blacklist ≡ flag_after c x.blacklist
unfolding entry_call entry_record_failure entry_record_success blacklist_until clear_blacklist
entry_call-flag (EntryCall.fails now cause) x = refl
entry_call-flag (EntryCall.bans until) x = refl
entry_call-flag (EntryCall.succeeds now) x = refl
entry_call-flag EntryCall.clears x = refl

pub call_next-Synced :
    (a : ℕ) (c : EntryCall) (cs : List EntryCall) (p : Process)
    → p.pending a ≡ c ∷ cs
    → Synced p
    → Synced (call_next a c cs p)
unfolding with_entry
call_next-Synced a c cs p left v = record {
  same = λ b e q. ground (
    arith,
    v.same b e,
    v.apart a b e,
    left,
    entry_call-flag c (p.world.monitor.entries e),
    shown,
  );
  apart = v.apart;
}

-- A change of one entry that does not touch its flag.
pub entry-Synced :
    (p : Process) (o : Option ℕ) (f : Entry → Entry)
    → Synced p
    → ((x : Entry) → (f x).blacklist ≡ x.blacklist)
    → Synced (in_world (on_monitor (with_entry f o)) p)
unfolding with_entry
entry-Synced p none f v h = v
entry-Synced p (some d) f v h = record {
  same = λ b e q. ground (arith, v.same b e, h (p.world.monitor.entries e));
  apart = v.apart;
}
