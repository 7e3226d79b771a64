-- ===== src/Pool/Select.antt =====
-- internal/outbound/pool/pool.go: the selection of a member in the four modes. The mutexes make a
-- selection one step. `randomIndex` takes the next raw value of the random source modulo the size.
use easy_proxies.Prelude.{
  ◌*◌, ℕ, zero, suc, ◌+◌, ◌-◌, ◌%◌, ◌^◌, String, Option, none, some, List, [], ◌∷◌, ℤ, pos, leb_ℤ,
  ltb_ℤ, ◌-ℤ◌, if◌then◌else◌, str_eq, get_elem?, length, min, ◌==◌,
}
use easy_proxies.Pool.Shared.{World}
use easy_proxies.Pool.Members.{Member, PoolOutbound, member_available, minute}

-- The pool and the process after a selection, and the index of the member that was taken.
abbrev pub Selection : Type 0
Selection = PoolOutbound × World × Option ℕ

abbrev pub member_at : PoolOutbound → ℕ → Option Member
member_at p i = get_elem? p.members i

abbrev pub u32_mod : ℕ
u32_mod = 2 ^ 32

-- `p.rrCounter.Add(1) - 1`: the old value, as a uint32.
abbrev pub rr_next : PoolOutbound → PoolOutbound × ℕ
rr_next p =
    let new = (p.rr_counter + 1) % u32_mod in
    (record p { rr_counter = new }, (new + u32_mod - 1) % u32_mod)

-- The loop of `selectSequentialAvailableLocked`, over the rounds that are left.
unfoldable pub sequential_loop : ℕ → ℤ → String → PoolOutbound → World → Selection
sequential_loop zero now network p w = (p, w, none)
sequential_loop (suc rounds) now network p w =
    let (p₁, old) = rr_next p in
    let idx = old % length p.members in
    let (p₂, w₂, ok) = member_available now network (member_at p idx) p₁ w in
    let rest = sequential_loop rounds now network p₂ w₂ in if ok then (p₂, w₂, some idx) else rest

unfoldable pub select_sequential : ℤ → String → PoolOutbound → World → Selection
select_sequential now network p w = sequential_loop (length p.members) now network p w

-- `for offset := range p.members { p.members[(start+offset)%len(p.members)] … }`
unfoldable pub scan : ℕ → ℕ → ℕ → ℤ → String → PoolOutbound → World → Selection
scan start offset zero now network p w = (p, w, none)
scan start offset (suc rounds) now network p w =
    let idx = (start + offset) % length p.members in
    let (p₂, w₂, ok) = member_available now network (member_at p idx) p w in
    let rest = scan start (offset + 1) rounds now network p₂ w₂ in
    if ok then (p₂, w₂, some idx) else rest

-- `randomIndex`
unfoldable pub random_index : ℕ → PoolOutbound → PoolOutbound × ℕ
random_index size p = (record p { next_draw = p.next_draw + 1 }, p.draws p.next_draw % size)

-- The loop of at most eight random tries.
unfoldable pub random_tries : ℕ → ℤ → String → PoolOutbound → World → Selection
unfolding random_index
random_tries zero now network p w = (p, w, none)
random_tries (suc tries) now network p w =
    let (p₁, idx) = random_index (length p.members) p in
    let (p₂, w₂, ok) = member_available now network (member_at p idx) p₁ w in
    let rest = random_tries tries now network p₂ w₂ in if ok then (p₂, w₂, some idx) else rest

-- The second half of a random selection: every member in turn, from a random start.
unfoldable pub random_scan : ℤ → String → PoolOutbound → World → Selection
random_scan now network p w =
    let (p₁, start) = random_index (length p.members) p in
    scan start 0 (length p.members) now network p₁ w

unfoldable pub select_random : ℤ → String → PoolOutbound → World → Selection
select_random now network p w =
    let (p₁, w₁, found) = random_tries (min (length p.members) 8) now network p w in
    elim found [ some idx ↦ (p₁, w₁, some idx) | none ↦ random_scan now network p₁ w₁ ]

-- `start` of a rotation: behind the current member, or behind the first one with its tag.
unfoldable pub index_of_tag : List Member → String → ℕ → ℕ
index_of_tag [] tag i = 0
index_of_tag (m ∷ ms) tag i = if str_eq m.tag tag then i + 1 else index_of_tag ms tag (i + 1)

-- The scan for the current member by its pointer.
unfoldable pub index_of_member : List Member → ℕ → ℕ → ℕ
index_of_member [] cur i = 0
index_of_member (m ∷ ms) cur i = if i == cur then i + 1 else index_of_member ms cur (i + 1)

unfoldable pub rotation_start : PoolOutbound → ℕ
unfolding index_of_tag index_of_member
rotation_start p = elim p.rotate_member [
  | some cur ↦ index_of_member p.members cur 0
  | none ↦ if str_eq p.rotate_tag "" then 0 else index_of_tag p.members p.rotate_tag 0
]

abbrev pub rotation_interval : PoolOutbound → ℤ
rotation_interval p =
    if leb_ℤ p.options.rotation_interval (pos 0)
    then pos (2 * minute)
    else p.options.rotation_interval

abbrev tag_at : PoolOutbound → ℕ → String
tag_at p idx = elim (member_at p idx) [ none ↦ "" | some m ↦ m.tag ]

-- The member that the scan found becomes the current one.
unfoldable pub adopt : ℤ → Selection → Selection
adopt now (p, w, none) = (p, w, none)
adopt now (p, w, some idx) = (
  record p { rotate_member = some idx; rotate_tag = tag_at p idx; rotate_since = now },
  w,
  some idx,
)

unfoldable pub rotate_on : ℤ → String → PoolOutbound → World → Selection
unfolding scan adopt rotation_start
rotate_on now network p w = adopt now (scan (rotation_start p) 0 (length p.members) now network p w)

-- The current member, while its interval lasts and it is available.
unfoldable pub stay : ℤ → String → PoolOutbound → World → Selection
stay now network p w = elim p.rotate_member [
  | none ↦ (p, w, none)
  | some cur ↦
      if ltb_ℤ (now -ℤ p.rotate_since) (rotation_interval p)
      then (let (p₁, w₁, ok) = member_available now network (member_at p cur) p w in
          (p₁, w₁, if ok then some cur else none))
      else (p, w, none)
]

-- What follows the test of the current member.
unfoldable pub resume : ℤ → String → Selection → Selection
unfolding rotate_on
resume now network (p, w, some cur) = (p, w, some cur)
resume now network (p, w, none) = rotate_on now network p w

unfoldable pub select_rotate : ℤ → String → PoolOutbound → World → Selection
unfolding stay resume
select_rotate now network p w = resume now network (stay now network p w)
