-- ===== src/Queue/Room.antt =====
-- What statusQueue keeps and what it drops.
use device_serial_scanner.Common.{
  ℕ, zero, suc, ◌+◌, ◌≤◌, ◌<◌, ◌≡◌, refl, ap, ◌⊎◌, inl, inr, true, Option, none, some, List, [],
  ◌∷◌, ◌++◌, length, ltb, if◌then◌else◌, arith, Bool-cases,
}
use device_serial_scanner.Queue.{
  WaitingQueue, StatusItem, event, tx, remove_at, push_evicting, count_events, evict_oldest_event,
  push_status,
}

module _ {ℓ} {Event TxResult : Type ℓ} where
  -- The events of a queue, and its tx results, each in order.
  abbrev pub events_of : List (StatusItem Event TxResult) → List Event
  events_of [] = []
  events_of (event e ∷ held) = e ∷ events_of held
  events_of (tx r ∷ held) = events_of held

  abbrev pub results_of : List (StatusItem Event TxResult) → List TxResult
  results_of [] = []
  results_of (event e ∷ held) = results_of held
  results_of (tx r ∷ held) = r ∷ results_of held

  -- The queue without its oldest event: the specification of an eviction.
  abbrev pub drop_oldest_event : List (StatusItem Event TxResult) → List (StatusItem Event TxResult)
  drop_oldest_event [] = []
  drop_oldest_event (event e ∷ held) = held
  drop_oldest_event (tx r ∷ held) = tx r ∷ drop_oldest_event held

  abbrev pub oldest_event : List (StatusItem Event TxResult) → Option (StatusItem Event TxResult)
  oldest_event [] = none
  oldest_event (event e ∷ held) = some (event e)
  oldest_event (tx r ∷ held) = oldest_event held

  -- The loop counts the events, and keeps an index that it has.
  count_events-some :
      (held : List (StatusItem Event TxResult)) (index events i : ℕ)
      → count_events index events (some i) held ≡ (events + length (events_of held), some i)
  unfolding count_events
  count_events-some [] index events i = ground arith
  count_events-some (event e ∷ held) index events i =
      ground (arith, count_events-some held (suc index) (events + 1) i)
  count_events-some (tx r ∷ held) index events i =
      ground (arith, count_events-some held (suc index) events i)

  -- With no index yet, it finds that of the first event, at which removal drops just that event.
  record Counted (held : List (StatusItem Event TxResult)) (index events : ℕ) : Type ℓ where
    total : (count_events index events none held).0 ≡ events + length (events_of held)
    found :
        ((count_events index events none held).1 ≡ none) × (events_of held ≡ [])
        ⊎ ((i : ℕ) × ((count_events index events none held).1 ≡ some (index + i))
            × (remove_at i held ≡ (oldest_event held, drop_oldest_event held)))

  counted : (held : List (StatusItem Event TxResult)) (index events : ℕ) → Counted held index events
  unfolding count_events remove_at
  counted [] index events = record { total = omega arith; found = inl (refl, refl) }
  counted (event e ∷ held) index events = record {
    total = ground (arith, count_events-some held (suc index) (events + 1) index);
    found = inr (zero, ground (arith, count_events-some held (suc index) (events + 1) index), refl);
  }
  counted (tx r ∷ held) index events =
      let c = counted held (suc index) events in
      record {
        total = c.total;
        found = elim c.found [ inl a ↦ inl a | inr (i, a, b) ↦ inr (suc i, ground arith, rw b) ];
      }

  -- The eviction test of statusQueue.push, in full: with room it evicts nothing, and without room
  -- it names the place of the oldest event.
  evicts :
      (limit : ℕ) (held : List (StatusItem Event TxResult))
      → ((length (events_of held) < limit) × (evict_oldest_event limit held ≡ none))
        ⊎ ((limit ≤ length (events_of held))
            × (evict_oldest_event limit held ≡ (count_events 0 0 none held).1))
  unfolding evict_oldest_event
  evicts limit held =
      let c = counted held 0 0 in
      elim (Bool-cases (ltb (count_events 0 0 none held).0 limit)) [
        | inl h ↦ inl (ground (arith, c.total), rw h)
        | inr h ↦ inr (ground (arith, c.total), rw h)
      ]

  -- Pushing an event on a status queue: with room for it, it goes to the end and nothing is
  -- dropped; with `limit` events held or more, and one at least, the oldest event is removed and
  -- returned, everything else keeps its place, and the new event goes to the end. The consumer is
  -- woken either way.
  pub push_status-event :
      (limit : ℕ) (e : Event) (q : WaitingQueue (StatusItem Event TxResult))
      → 1 ≤ limit
      → push_status limit (event e) q ≡ (
          if ltb (length (events_of q.items)) limit
          then (record q { items = q.items ++ event e ∷ []; ready = true }, none)
          else (
            record q { items = drop_oldest_event q.items ++ event e ∷ []; ready = true },
            oldest_event q.items,
          ))
  unfolding push_status push_evicting
  push_status-event limit e q h = elim (evicts limit q.items) [
    | inl (a, b) ↦ ground arith
    | inr (a, b) ↦ elim (counted q.items 0 0).found [
      | inl (c, d) ↦ absurd (ground (arith, ap length d))
      | inr (i, c, d) ↦
          ground (arith, (counted q.items 0 0).total, ap (λ r. r.0) d, ap (λ r. r.1) d)
    ]
  ]
