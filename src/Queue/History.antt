-- ===== src/Queue/History.antt =====
-- A status queue over a run of its operations: which messages are still there.
use device_serial_scanner.Common.{
  ℕ, ◌-◌, ◌≤◌, ◌≡◌, refl, sym, ◌∙◌, ap, Option, none, some, List, [], ◌∷◌, ◌++◌, append_assoc,
  append-nil, length, drop, drop-append-le, length-append, drop_none, drop-last, length-drop, arith,
}
use device_serial_scanner.Queue.{WaitingQueue, StatusItem, event, tx, push_status, pop}
use device_serial_scanner.Queue.Room.{events_of, results_of, drop_oldest_event, push_status-event}

-- An operation on a status queue: a push by the agent, or a pop by the publisher.
pub data Op {ℓ} (Event TxResult : Type ℓ) : Type ℓ where
  pushed : StatusItem Event TxResult → Op Event TxResult
  popped : Op Event TxResult

module _ {ℓ} {Event TxResult : Type ℓ} where
  abbrev pub as_list : Option (StatusItem Event TxResult) → List (StatusItem Event TxResult)
  as_list none = []
  as_list (some item) = item ∷ []

  -- The queue after the operations, and the items that the pops took, in order.
  unfoldable pub run :
      ℕ
      → List (Op Event TxResult)
      → WaitingQueue (StatusItem Event TxResult)
      → WaitingQueue (StatusItem Event TxResult) × List (StatusItem Event TxResult)
  run limit [] q = (q, [])
  run limit (pushed item ∷ ops) q = run limit ops (push_status limit item q).0
  run limit (popped ∷ ops) q =
      let (item, q') = pop q in
      let (last, taken) = run limit ops q' in (last, as_list item ++ taken)

  abbrev pub pushes : List (Op Event TxResult) → List (StatusItem Event TxResult)
  pushes [] = []
  pushes (pushed item ∷ ops) = item ∷ pushes ops
  pushes (popped ∷ ops) = pushes ops

  pub results_of-append :
      (xs ys : List (StatusItem Event TxResult))
      → results_of (xs ++ ys) ≡ results_of xs ++ results_of ys
  results_of-append [] ys = refl
  results_of-append (event e ∷ xs) ys = results_of-append xs ys
  results_of-append (tx r ∷ xs) ys = ap (◌∷◌ r) (results_of-append xs ys)

  events_of-append :
      (xs ys : List (StatusItem Event TxResult))
      → events_of (xs ++ ys) ≡ events_of xs ++ events_of ys
  events_of-append [] ys = refl
  events_of-append (event e ∷ xs) ys = ap (◌∷◌ e) (events_of-append xs ys)
  events_of-append (tx r ∷ xs) ys = events_of-append xs ys

  results_of-drop_oldest_event :
      (xs : List (StatusItem Event TxResult)) → results_of (drop_oldest_event xs) ≡ results_of xs
  results_of-drop_oldest_event [] = refl
  results_of-drop_oldest_event (event e ∷ xs) = refl
  results_of-drop_oldest_event (tx r ∷ xs) = ap (◌∷◌ r) (results_of-drop_oldest_event xs)

  events_of-drop_oldest_event :
      (xs : List (StatusItem Event TxResult))
      → events_of (drop_oldest_event xs) ≡ drop 1 (events_of xs)
  events_of-drop_oldest_event [] = refl
  events_of-drop_oldest_event (event e ∷ xs) = refl
  events_of-drop_oldest_event (tx r ∷ xs) = events_of-drop_oldest_event xs

  pub results_of-pop :
      (q : WaitingQueue (StatusItem Event TxResult))
      → results_of (as_list (pop q).0) ++ results_of (pop q).1.items ≡ results_of q.items
  unfolding pop
  results_of-pop q = ground arith

  -- The pushes of a broker outage, in which nothing is popped.
  abbrev pub outage : List (StatusItem Event TxResult) → List (Op Event TxResult)
  outage [] = []
  outage (item ∷ items) = pushed item ∷ outage items

  module _ (limit : ℕ) (positive : 1 ≤ limit) where
    -- What one push does to the tx results held.
    pub results_of-push_status :
        (item : StatusItem Event TxResult) (q : WaitingQueue (StatusItem Event TxResult))
        → results_of (push_status limit item q).0.items
          ≡ results_of q.items ++ results_of (item ∷ [])
    results_of-push_status (tx r) q = unfold push_status in results_of-append q.items (tx r ∷ [])
    results_of-push_status (event e) q = rw (push_status-event limit e q positive) (
        ground (
          arith,
          results_of-append q.items (event e ∷ []),
          results_of-append (drop_oldest_event q.items) (event e ∷ []),
          results_of-drop_oldest_event q.items,
        ))

    -- What one push does to the events held: the oldest goes if there is no room.
    events_of-push_status :
        (item : StatusItem Event TxResult) (q : WaitingQueue (StatusItem Event TxResult))
        → length (events_of q.items) ≤ limit
        → events_of (push_status limit item q).0.items
          ≡ drop
              (length (events_of q.items ++ events_of (item ∷ [])) - limit)
              (events_of q.items ++ events_of (item ∷ []))
    events_of-push_status (tx r) q h =
        unfold push_status in
        events_of-append q.items (tx r ∷ [])
        ∙ sym (
            drop_none (events_of q.items ++ []) limit
              (omega (arith, h, ap length (append-nil (events_of q.items)))))
    events_of-push_status (event e) q h = rw (push_status-event limit e q positive) (
        ground (
          arith,
          events_of-append q.items (event e ∷ []),
          events_of-append (drop_oldest_event q.items) (event e ∷ []),
          events_of-drop_oldest_event q.items,
          length-append (events_of q.items) (e ∷ []),
          drop-append-le 1 (events_of q.items) (e ∷ []),
        ))

    -- However pushes and pops follow one another, no tx result is lost and none overtakes another:
    -- those that the pops took, followed by those still held, are those held at the start,
    -- followed by those pushed.
    pub run-results :
        (ops : List (Op Event TxResult)) (q : WaitingQueue (StatusItem Event TxResult))
        → results_of (run limit ops q).1 ++ results_of (run limit ops q).0.items
          ≡ results_of q.items ++ results_of (pushes ops)
    unfolding run
    run-results [] q = sym (append-nil _)
    run-results (pushed item ∷ ops) q =
        run-results ops (push_status limit item q).0
        ∙ ap (λ l. l ++ results_of (pushes ops)) (results_of-push_status item q)
        ∙ append_assoc (results_of q.items) (results_of (item ∷ [])) (results_of (pushes ops))
        ∙ ap (λ l. results_of q.items ++ l) (sym (results_of-append (item ∷ []) (pushes ops)))
    run-results (popped ∷ ops) q =
        let taken = (run limit ops (pop q).1).1 in
        let kept = results_of (run limit ops (pop q).1).0.items in
        ap (λ l. l ++ kept) (results_of-append (as_list (pop q).0) taken)
        ∙ append_assoc (results_of (as_list (pop q).0)) (results_of taken) kept
        ∙ ap (λ l. results_of (as_list (pop q).0) ++ l) (run-results ops (pop q).1)
        ∙ sym (
            append_assoc (results_of (as_list (pop q).0)) (results_of (pop q).1.items)
              (results_of (pushes ops)))
        ∙ ap (λ l. l ++ results_of (pushes ops)) (results_of-pop q)

    length_of_pop :
        (q : WaitingQueue (StatusItem Event TxResult))
        → length (events_of (pop q).1.items) ≤ length (events_of q.items)
    unfolding pop
    length_of_pop q = ground arith

    length_of_push :
        (item : StatusItem Event TxResult) (q : WaitingQueue (StatusItem Event TxResult))
        → length (events_of q.items) ≤ limit
        → length (events_of (push_status limit item q).0.items) ≤ limit
    length_of_push item q h = rw (events_of-push_status item q h) (
        omega (
          arith,
          length-drop (length (events_of q.items ++ events_of (item ∷ [])) - limit)
              (events_of q.items ++ events_of (item ∷ [])),
        ))

    -- A status queue that starts with at most `limit` events never holds more, however pushes and
    -- pops follow one another.
    pub run-events-le :
        (ops : List (Op Event TxResult)) (q : WaitingQueue (StatusItem Event TxResult))
        → length (events_of q.items) ≤ limit
        → length (events_of (run limit ops q).0.items) ≤ limit
    unfolding run
    run-events-le [] q h = h
    run-events-le (pushed item ∷ ops) q h = run-events-le ops _ (length_of_push item q h)
    run-events-le (popped ∷ ops) q h = run-events-le ops _ (omega (arith, length_of_pop q))

    -- While nothing is popped, as in a broker outage, the queue ends with the most recent events
    -- and no others: the last `limit` of those held at the start followed by those pushed.
    pub run-outage :
        (items : List (StatusItem Event TxResult)) (q : WaitingQueue (StatusItem Event TxResult))
        → length (events_of q.items) ≤ limit
        → events_of (run limit (outage items) q).0.items
          ≡ drop
              (length (events_of q.items ++ events_of items) - limit)
              (events_of q.items ++ events_of items)
    unfolding run
    run-outage [] q h =
        sym (append-nil (events_of q.items))
        ∙ sym (
            drop_none (events_of q.items ++ []) limit
              (omega (arith, h, ap length (append-nil (events_of q.items)))))
    run-outage (item ∷ items) q h =
        let es = events_of q.items in
        let new = events_of (item ∷ []) in
        let later = events_of items in
        run-outage items (push_status limit item q).0 (length_of_push item q h)
        ∙ ap (λ l. drop (length (l ++ later) - limit) (l ++ later)) (events_of-push_status item q h)
        ∙ drop-last (es ++ new) later limit
        ∙ ap (λ l. drop (length l - limit) l)
            (append_assoc es new later
              ∙ ap (λ l. es ++ l) (sym (events_of-append (item ∷ []) items)))
