-- ===== src/Importer/JobEvents.antt =====
-- internal/importer/job_events.go: the subscribers of job events. A subscriber's channel holds one
-- event; a publisher that finds it full takes the old event out and puts the new one in. The mutex
-- makes a call one step, but a subscriber receives at any time.
use easy_proxies.Prelude.{
  ℕ, ◌+◌, Bool, true, Option, none, some, List, [], ◌∷◌, if◌then◌else◌, ◌==◌, length, is_some,
  filter, not, indicator,
}

-- A subscriber: its number, what its channel holds, and what it has received so far.
pub record Subscriber (Event : Type 0) : Type 0 where
  pub id : ℕ
  pub channel : Option Event
  pub received : List Event

pub record Events (Event : Type 0) : Type 0 where
  pub closed : Bool
  pub next : ℕ
  pub subs : List (Subscriber Event)
  pub coalesced : ℕ

-- A call of the service, or a receive by the subscriber with some number.
pub data Call (Event : Type 0) : Type 0 where
  subscribes : Call Event
  unsubscribes receives : ℕ → Call Event
  publishes : Event → Call Event
  closes : Call Event

module _ {Event : Type 0} where
  -- `SubscribeJobEvents`: 0 where the service is closed, and the channel closed at once.
  unfoldable pub subscribe : Events Event → Events Event × ℕ
  subscribe s =
      let id = s.next + 1 in
      if s.closed then (s, 0) else (
        record s { next = id; subs = record { id = id; channel = none; received = [] } ∷ s.subs },
        id,
      )

  -- The function that `SubscribeJobEvents` returns.
  unfoldable pub unsubscribe : ℕ → Events Event → Events Event
  unsubscribe id s = record s { subs = filter (λ c. not (c.id == id)) s.subs }

  -- One subscriber's turn in `publishJobEvent`, and whether an event was taken out.
  unfoldable pub offer : Event → Subscriber Event → Subscriber Event × Bool
  offer e c = (record c { channel = some e }, is_some c.channel)

  unfoldable pub publish_loop : Event → List (Subscriber Event) → List (Subscriber Event) × ℕ
  unfolding offer
  publish_loop e [] = ([], 0)
  publish_loop e (c ∷ cs) =
      let (c', dropped) = offer e c in
      let (cs', n) = publish_loop e cs in (c' ∷ cs', indicator dropped + n)

  -- `publishJobEvent`
  unfoldable pub publish : Event → Events Event → Events Event
  unfolding publish_loop
  publish e s =
      let (subs, n) = publish_loop e s.subs in
      if s.closed then s else record s { subs = subs; coalesced = s.coalesced + n }

  -- A receive of the subscriber with some number.
  abbrev pub take : Subscriber Event → Option Event → Subscriber Event
  take c none = c
  take c (some e) = record c { channel = none; received = e ∷ c.received }

  unfoldable pub receive_loop : ℕ → List (Subscriber Event) → List (Subscriber Event)
  receive_loop id [] = []
  receive_loop id (c ∷ cs) = (if c.id == id then take c c.channel else c) ∷ receive_loop id cs

  unfoldable pub receive : ℕ → Events Event → Events Event
  unfolding receive_loop
  receive id s = record s { subs = receive_loop id s.subs }

  -- `closeJobEvents`
  unfoldable pub close : Events Event → Events Event
  close s = if s.closed then s else record s { closed = true; subs = [] }

  -- `JobEventStats`
  unfoldable pub job_event_stats : Events Event → ℕ × ℕ
  job_event_stats s = (length s.subs, s.coalesced)

  unfoldable pub call : Call Event → Events Event → Events Event
  unfolding subscribe unsubscribe publish receive close
  call subscribes s = (subscribe s).0
  call (unsubscribes id) s = unsubscribe id s
  call (receives id) s = receive id s
  call (publishes e) s = publish e s
  call closes s = close s

  unfoldable pub calls : List (Call Event) → Events Event → Events Event
  unfolding call
  calls [] s = s
  calls (c ∷ cs) s = calls cs (call c s)
