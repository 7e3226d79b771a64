-- ===== src/Importer/Delivery.antt =====
-- What a subscriber of job events sees.
use easy_proxies.Prelude.{
  some_eq, ◌∙◌, ap, ℕ, false, Option, none, some, List, [], ◌∷◌, if◌then◌else◌, ◌==◌, filter, not,
  ◌≡◌, ◌≢◌, refl, arith, inl, inr, ◌≤◌, Bool-cases,
}
use easy_proxies.Importer.JobEvents.{
  take, subscribe, unsubscribe, Subscriber, Events, Call, subscribes, unsubscribes, receives,
  publishes, closes, publish_loop, publish, receive_loop, receive, call, calls,
}

module _ {Event : Type 0} where
  -- What was published last, or was before.
  abbrev pub last_published : List (Call Event) → Option Event → Option Event
  last_published [] before = before
  last_published (publishes e ∷ cs) before = last_published cs (some e)
  last_published (subscribes ∷ cs) before = last_published cs before
  last_published (unsubscribes id ∷ cs) before = last_published cs before
  last_published (receives id ∷ cs) before = last_published cs before
  last_published (closes ∷ cs) before = last_published cs before

  -- The newest event that a subscriber has got or can get.
  abbrev pub newest : Subscriber Event → Option Event
  newest c = elim c.channel [
    | some e ↦ some e
    | none ↦ elim c.received [ [] ↦ none | e ∷ es ↦ some e ]
  ]

  abbrev pub find : ℕ → List (Subscriber Event) → Option (Subscriber Event)
  find id [] = none
  find id (c ∷ cs) = if c.id == id then some c else find id cs

  -- The subscriber stays: nobody unsubscribes it and the service is not closed.
  abbrev pub Stays : ℕ → List (Call Event) → Type 0
  Stays id [] = Unit
  Stays id (subscribes ∷ cs) = Stays id cs
  Stays id (unsubscribes j ∷ cs) = (j ≢ id) × Stays id cs
  Stays id (receives j ∷ cs) = Stays id cs
  Stays id (publishes e ∷ cs) = Stays id cs
  Stays id (closes ∷ cs) = ⊥

  find-publish :
      (e : Event) (id : ℕ) (cs : List (Subscriber Event)) {c : Subscriber Event}
      → find id cs ≡ some c
      → find id (publish_loop e cs).0 ≡ some (record c { channel = some e })
  unfolding publish_loop
  find-publish e id [] h = absurd (cc)
  find-publish e id (d ∷ cs) {c} h = ground (arith, find-publish e id cs {c = c})

  abbrev received_by : ℕ → Subscriber Event → Subscriber Event
  received_by j d = if d.id == j then take d d.channel else d

  received_id : (j id : ℕ) (d : Subscriber Event) → ((received_by j d).id == id) ≡ (d.id == id)
  received_id j id d = ground arith

  received_newest : (j : ℕ) (d : Subscriber Event) → newest (received_by j d) ≡ newest d
  received_newest j d = ground arith

  find-receive :
      (j id : ℕ) (cs : List (Subscriber Event)) {c : Subscriber Event}
      → find id cs ≡ some c
      → (d : Subscriber Event) × (find id (receive_loop j cs) ≡ some d) × (newest d ≡ newest c)
  unfolding receive_loop
  find-receive j id [] h = absurd (cc)
  find-receive j id (d ∷ cs) {c} h = elim (Bool-cases (d.id == id)) [
    | inl e ↦ (
      received_by j d,
      rw (received_id j id d ∙ e),
      received_newest j d ∙ ap newest (some_eq (rw e at h)),
    )
    | inr e ↦
        let (d', found, same) = find-receive j id cs (rw e at h) in
        (d', rw (received_id j id d ∙ e) found, same)
  ]

  find-unsubscribe :
      (j id : ℕ) (cs : List (Subscriber Event))
      → j ≢ id
      → find id (filter (λ c. not (c.id == j)) cs) ≡ find id cs
  find-unsubscribe j id [] h = refl
  find-unsubscribe j id (d ∷ cs) h = ground (arith, find-unsubscribe j id cs h)

  subscribes-find :
      (id : ℕ) (s : Events Event) (c : Subscriber Event)
      → s.closed ≡ false
      → id ≤ s.next
      → find id s.subs ≡ some c
      → let t = call subscribes s in (t.closed ≡ false) × (id ≤ t.next) × (find id t.subs ≡ some c)
  unfolding call subscribe
  subscribes-find id s c o le f = ground arith

  publishes-find :
      (e : Event) (id : ℕ) (s : Events Event) (c : Subscriber Event)
      → s.closed ≡ false
      → id ≤ s.next
      → find id s.subs ≡ some c
      → let t = call (publishes e) s in
        (t.closed ≡ false) × (id ≤ t.next) × (find id t.subs ≡ some (record c { channel = some e }))
  unfolding call publish
  publishes-find e id s c o le f = ground (arith, find-publish e id s.subs {c = c} f)

  -- For a subscriber that stays subscribed to a service that is not closed, and was subscribed
  -- under a number given out before, the newest event that it has received or finds in its channel
  -- is the last one published. Events in between may have been replaced.
  pub newest-calls :
      (cs : List (Call Event)) (id : ℕ) (s : Events Event) (c : Subscriber Event)
      → s.closed ≡ false
      → id ≤ s.next
      → find id s.subs ≡ some c
      → Stays id cs
      → (d : Subscriber Event) × (find id (calls cs s).subs ≡ some d)
        × (newest d ≡ last_published cs (newest c))
  unfolding calls call unsubscribe receive
  newest-calls [] id s c o le f st = (c, f, refl)
  newest-calls (subscribes ∷ cs) id s c o le f st =
      let (o', le', f') = subscribes-find id s c o le f in
      newest-calls cs id (call subscribes s) c o' le' f' st
  newest-calls (unsubscribes j ∷ cs) id s c o le f st =
      newest-calls cs id _ c o le (find-unsubscribe j id s.subs st.0 ∙ f) st.1
  newest-calls (receives j ∷ cs) id s c o le f st =
      let (d, found, same) = find-receive j id s.subs f in
      let (d', found', same') = newest-calls cs id _ d o le found st in
      (d', found', same' ∙ ap (last_published cs) same)
  newest-calls (publishes e ∷ cs) id s c o le f st =
      let (o', le', f') = publishes-find e id s c o le f in
      newest-calls cs id (call (publishes e) s) (record c { channel = some e }) o' le' f' st
  newest-calls (closes ∷ cs) id s c o le f st = absurd st
