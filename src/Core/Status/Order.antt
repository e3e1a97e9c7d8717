-- ===== src/Core/Status/Order.antt =====
-- The tx results among the published messages: none is left out, and none overtakes another.
use device_serial_scanner.Common.{
  ℕ, ◌≤◌, ◌≡◌, refl, sym, ◌∙◌, ap, Option, List, [], ◌∷◌, ◌++◌, map, append_assoc, append-nil,
  arith, if◌then◌else◌, All, Bool-cases, Option-cases, inl, inr,
}
use device_serial_scanner.Queue.{event, tx, push_status, pop}
use device_serial_scanner.Queue.Room.{results_of}
use device_serial_scanner.Queue.History.{
  results_of-append, results_of-push_status, results_of-pop, as_list,
}
use device_serial_scanner.Core.Pipeline.{StatusQueue, TxResultItem}
use device_serial_scanner.Core.Frames.{Attempt}
use device_serial_scanner.Core.Status.{
  Fate, published_for, publish_item, Item, Wake, push_all, drop_status_messages,
  publish_status_messages,
}

-- What arrives until the loop ends.
abbrev pub arrived : List Wake → List Item
arrived [] = []
arrived (w ∷ wakes) = w.arrivals ++ (if w.connected then arrived wakes else [])

abbrev pub items_of : List (Item × Fate) → List Item
items_of records = map (λ r. r.0) records

-- A message that is published has some of its expiry left.
abbrev pub IsTimely : Item × Fate → Type 0
IsTimely r = (remaining : ℕ) → r.1 ≡ published_for remaining → 1 ≤ remaining

publish_item-IsTimely :
    (expiry : ℕ) (item : Item) (a : Attempt) → IsTimely (item, publish_item expiry item a)
unfolding publish_item
publish_item-IsTimely expiry (event e) a remaining h = ground arith
publish_item-IsTimely expiry (tx r) a remaining h = ground arith

drop_status_messages-IsTimely : (items : List Item) → All IsTimely (drop_status_messages items)
unfolding drop_status_messages
drop_status_messages-IsTimely [] = tt
drop_status_messages-IsTimely (item ∷ items) =
    ((λ remaining h. ground arith), drop_status_messages-IsTimely items)

items_of-drop_status_messages : (items : List Item) → items_of (drop_status_messages items) ≡ items
unfolding drop_status_messages
items_of-drop_status_messages [] = refl
items_of-drop_status_messages (item ∷ items) = ap (◌∷◌ item) (items_of-drop_status_messages items)

module _ (limit : ℕ) (positive : 1 ≤ limit) (expiry : ℕ) where
  results_of-push_all :
      (items : List Item) (q : StatusQueue)
      → results_of (push_all limit items q).items ≡ results_of q.items ++ results_of items
  unfolding push_all
  results_of-push_all [] q = sym (append-nil _)
  results_of-push_all (item ∷ items) q =
      results_of-push_all items (push_status limit item q).0
      ∙ ap (λ l. l ++ results_of items) (results_of-push_status limit positive item q)
      ∙ append_assoc (results_of q.items) (results_of (item ∷ [])) (results_of items)
      ∙ ap (◌++◌ (results_of q.items)) (sym (results_of-append (item ∷ []) items))

  -- A turn with a connection: what it took, followed by what the rest of the turns made of it.
  turn-results :
      (w : Wake) (wakes : List Wake) (q : StatusQueue) (rest : List TxResultItem)
      (taken : Option Item)
      → (let held = push_all limit w.arrivals q in
          (pop held).0 ≡ taken
          → rest ≡ results_of (pop held).1.items ++ results_of (arrived wakes)
          → results_of (as_list taken) ++ rest
            ≡ results_of q.items ++ results_of (w.arrivals ++ arrived wakes))
  turn-results w wakes q rest taken e h =
      let held = push_all limit w.arrivals q in
      let later = results_of (arrived wakes) in
      ap (λ o. results_of (as_list o) ++ rest) (sym e)
      ∙ ap (◌++◌ (results_of (as_list (pop held).0))) h
      ∙ sym (append_assoc (results_of (as_list (pop held).0)) (results_of (pop held).1.items) later)
      ∙ ap (λ l. l ++ later) (results_of-pop held)
      ∙ ap (λ l. l ++ later) (results_of-push_all w.arrivals q)
      ∙ append_assoc (results_of q.items) (results_of w.arrivals) later
      ∙ ap (◌++◌ (results_of q.items)) (sym (results_of-append w.arrivals (arrived wakes)))

  -- A device's publisher, over any turns: the tx results that it published or dropped, followed by
  -- those still queued, are those queued at the start, followed by those that arrived until the
  -- loop ended, in order and each once. Every message that it published had some of its expiry
  -- left.
  pub publish_status_messages-results :
      (wakes : List Wake) (q : StatusQueue)
      → (let out = publish_status_messages limit expiry wakes q in
          (results_of (items_of out.1) ++ results_of out.0.items
            ≡ results_of q.items ++ results_of (arrived wakes))
          × All IsTimely out.1)
  unfolding publish_status_messages
  publish_status_messages-results [] q = (sym (append-nil _), tt)
  publish_status_messages-results (w ∷ wakes) q =
      let held = push_all limit w.arrivals q in
      let rest = publish_status_messages-results wakes (pop held).1 in
      elim (Bool-cases w.connected) [
        | inr c ↦ rw c (
          append-nil _
              ∙ ap results_of (items_of-drop_status_messages held.items)
              ∙ results_of-push_all w.arrivals q
              ∙ ap (λ l. results_of q.items ++ results_of l) (sym (append-nil w.arrivals)),
          drop_status_messages-IsTimely held.items,
        )
        | inl c ↦ elim (Option-cases (pop held).0) [
          | inl e ↦ rw (c, e) (turn-results w wakes q _ _ e rest.0, rest.1)
          | inr (i, e) ↦
              let (last, records) = publish_status_messages limit expiry wakes (pop held).1 in
              let kept = results_of last.items in
              rw (c, e)
                (
                  ap (λ l. l ++ kept) (results_of-append (i ∷ []) (items_of records))
                      ∙ append_assoc (results_of (i ∷ [])) (results_of (items_of records)) kept
                      ∙ turn-results w wakes q _ _ e rest.0,
                  (publish_item-IsTimely expiry i w.attempt, rest.1),
                )
        ]
      ]
