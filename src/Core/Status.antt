-- ===== src/Core/Status.antt =====
-- Publishing a device's status messages, internal/core/status.go: its port events and tx results,
-- in the order they were queued. The clock, the connection and the broker's answers enter as
-- arguments; the log records and the messages' stamps are left out.
pub mod Order
use device_serial_scanner.Common.{
  ℕ, ◌+◌, ◌-◌, Bool, true, false, Option, none, some, List, [], ◌∷◌, map, leb, if◌then◌else◌,
}
use device_serial_scanner.Device.{Event, bytes_read}
use device_serial_scanner.Queue.{event, tx, push_status, pop, StatusItem}
use device_serial_scanner.Core.Pipeline.{StatusQueue, TxResultItem}
use device_serial_scanner.Core.Frames.{Attempt, past_drain_deadline}

-- What becomes of a status message: `published_for` has what was left of its expiry.
pub data Fate : Type 0 where
  no_message past_drain past_expiry not_encoded not_acknowledged unsent : Fate
  published_for : ℕ → Fate

-- A message that happened at `at`: what remains is its expiry, less its age.
unfoldable pub fate_of : ℕ → ℕ → Attempt → Fate
unfolding past_drain_deadline
fate_of expiry at a =
    if past_drain_deadline a.deadline a.now
    then past_drain
    else if leb (expiry + at) a.now
    then past_expiry
    else if a.encodes
    then (if a.acknowledged then published_for (expiry + at - a.now) else not_acknowledged)
    else not_encoded

-- publishEvent: an event that only counts bytes has no message (buildEvent).
unfoldable pub publish_event : ℕ → Event → Attempt → Fate
unfolding fate_of
publish_event expiry e a = elim e.kind [ bytes_read ↦ no_message | _ ↦ fate_of expiry e.at a ]

-- publishTxResult.
abbrev pub publish_tx_result : ℕ → TxResultItem → Attempt → Fate
publish_tx_result expiry item a = fate_of expiry item.at a

abbrev pub Item : Type 0
Item = StatusItem Event TxResultItem

unfoldable pub publish_item : ℕ → Item → Attempt → Fate
unfolding publish_event
publish_item expiry (event e) a = publish_event expiry e a
publish_item expiry (tx r) a = publish_tx_result expiry r a

-- A turn of the loop: what the agent has pushed by then, whether the wait for the connection ended
-- with one, and what the publishing meets.
pub record Wake : Type 0 where
  pub arrivals : List Item
  pub connected : Bool
  pub attempt : Attempt

-- Core's pushes, in order.
unfoldable pub push_all : ℕ → List Item → StatusQueue → StatusQueue
push_all limit [] q = q
push_all limit (item ∷ items) q = push_all limit items (push_status limit item q).0

-- dropStatusMessages: the queue is emptied.
unfoldable pub drop_status_messages : List Item → List (Item × Fate)
drop_status_messages [] = []
drop_status_messages (item ∷ items) = (item, unsent) ∷ drop_status_messages items

-- publishStatusMessages: what became of each message, and the queue behind the turns. Without a
-- connection the loop drops what is held and ends.
unfoldable pub publish_status_messages :
    ℕ → ℕ → List Wake → StatusQueue → StatusQueue × List (Item × Fate)
unfolding publish_item push_all drop_status_messages
publish_status_messages limit expiry [] q = (q, [])
publish_status_messages limit expiry (w ∷ wakes) q =
    let held = push_all limit w.arrivals q in
    let (item, left) = pop held in
    let (last, records) = publish_status_messages limit expiry wakes left in
    if w.connected
    then elim item [
      | none ↦ (last, records)
      | some i ↦ (last, (i, publish_item expiry i w.attempt) ∷ records)
    ]
    else (record held { items = [] }, drop_status_messages held.items)
