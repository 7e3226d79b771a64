-- ===== src/Pool/Members.antt =====
-- internal/outbound/pool/pool.go: the options, the members and whether a member can serve.
-- A member is a pointer in `p.members`, which are distinct: its identity is its index.
use easy_proxies.Prelude.{
  ◌*◌, ℕ, ◌+◌, ◌%◌, ◌^◌, String, Bool, true, false, not, ◌&&◌, ◌||◌, Option, none, some, List, [],
  ◌∷◌, ℤ, pos, leb_ℤ, if◌then◌else◌, codes, codes_eq, lower, trim_space, str_eq,
}
use easy_proxies.Pool.Shared.{World, SharedMemberState, try_acquire, put_state}

pub record MemberMeta : Type 0 where
  pub name : String
  pub uri : String
  pub mode : String
  pub listen_address : String
  pub port : ℕ
  pub region : String
  pub country : String

abbrev pub no_meta : MemberMeta
no_meta = record {
  name = "";
  uri = "";
  mode = "";
  listen_address = "";
  port = 0;
  region = "";
  country = "";
}

pub record Options : Type 0 where
  pub mode : String
  pub members : List String
  pub failure_threshold : ℤ
  pub blacklist_duration : ℤ
  pub rotation_interval : ℤ
  pub metadata : Option (List (String × MemberMeta))

abbrev pub minute : ℕ
minute = 60000000000

mode_is : String → String → Bool
unfolding codes_eq lower trim_space
mode_is raw name = codes_eq (lower (trim_space (codes raw))) (codes name)

unfoldable pub normalize_mode : String → String
unfolding mode_is
normalize_mode raw =
    if mode_is raw "" || mode_is raw "rotate"
    then "rotate"
    else if mode_is raw "sequential"
    then "sequential"
    else if mode_is raw "random"
    then "random"
    else if mode_is raw "balance"
    then "balance"
    else "sequential"

abbrev or_empty : Option (List (String × MemberMeta)) → List (String × MemberMeta)
or_empty none = []
or_empty (some m) = m

unfoldable pub normalize_options : Options → Options
unfolding normalize_mode
normalize_options o = record {
  mode = normalize_mode o.mode;
  members = o.members;
  failure_threshold = if leb_ℤ o.failure_threshold (pos 0) then pos 2 else o.failure_threshold;
  blacklist_duration =
      if leb_ℤ o.blacklist_duration (pos 0) then pos (10 * minute) else o.blacklist_duration;
  rotation_interval =
      if leb_ℤ o.rotation_interval (pos 0) then pos (2 * minute) else o.rotation_interval;
  metadata = some (or_empty o.metadata);
}

-- `outbound` holds the networks of the sing-box outbound.
pub record Member : Type 0 where
  pub outbound : Option (List String)
  pub tag : String
  pub entry : Option ℕ
  pub shared : Option ℕ

-- `draws` is the sequence of raw values of the random source.
pub record PoolOutbound : Type 0 where
  pub options : Options
  pub mode : String
  pub members : List Member
  pub rr_counter : ℕ  -- uint32
  pub draws : ℕ → ℕ
  pub next_draw : ℕ
  pub rotate_tag : String
  pub rotate_member : Option ℕ
  pub rotate_since : ℤ
  pub selection_checks : ℕ  -- uint64
  pub monitored : Bool  -- `monitor != nil`

-- `common.Contains`
unfoldable pub contains : List String → String → Bool
contains [] n = false
contains (m ∷ ms) n = str_eq m n || contains ms n

abbrev carries : Option (List String) → String → Bool
carries none network = false
carries (some networks) network = contains networks network

abbrev pub state_admits : ℤ → SharedMemberState → Bool
state_admits now s = (try_acquire now s).1

-- Whether `memberAvailable` says yes.
unfoldable pub can_serve : ℤ → String → Member → World → Bool
unfolding try_acquire contains
can_serve now network m w =
    (str_eq network "" || carries m.outbound network)
    && elim m.shared [ none ↦ true | some a ↦ state_admits now (w.states a) ]

-- What `tryAcquire` leaves behind.
unfoldable pub claim : ℤ → Member → World → World
unfolding try_acquire
claim now m w = elim m.shared [ none ↦ w | some a ↦ put_state a (try_acquire now (w.states a)).0 w ]

abbrev pub u64_mod : ℕ
u64_mod = 2 ^ 64

abbrev pub count_check : PoolOutbound → PoolOutbound
count_check p = record p { selection_checks = (p.selection_checks + 1) % u64_mod }

abbrev shared_available : ℤ → Option ℕ → World → World × Bool
shared_available now none w = (w, true)
shared_available now (some a) w =
    let (s, admitted) = try_acquire now (w.states a) in (put_state a s w, admitted)

-- `memberAvailable`; a nil member is `none`.
unfoldable pub member_available :
    ℤ → String → Option Member → PoolOutbound → World → PoolOutbound × World × Bool
unfolding try_acquire contains
member_available now network none p w = (count_check p, w, false)
member_available now network (some m) p w =
    if not (str_eq network "") && not (carries m.outbound network)
    then (count_check p, w, false)
    else let (w', admitted) = shared_available now m.shared w in (count_check p, w', admitted)
