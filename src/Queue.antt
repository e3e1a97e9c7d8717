-- ===== src/Queue.antt =====
-- The queues of a device, internal/core/queue.go: `waitingQueue` for one consumer that waits, and
-- `statusQueue`, which drops its oldest event when it holds too many. Each operation runs under
-- the queue's lock, so it is one step here.
pub mod Room
pub mod History
pub mod Wakeup
use device_serial_scanner.Common.{
  ℕ, zero, suc, ◌+◌, Bool, true, false, Option, none, some, List, [], ◌∷◌, ◌++◌, length, ltb,
  if◌then◌else◌, take, drop,
}

-- `ready` says whether the channel of that name holds its one value.
pub record WaitingQueue {ℓ} (A : Type ℓ) : Type ℓ where
  pub items : List A
  pub closed : Bool
  pub ready : Bool

module _ {ℓ} {A : Type ℓ} where
  abbrev pub new_waiting_queue : WaitingQueue A
  new_waiting_queue = record { items = []; closed = false; ready = false }

  -- The send that does not wait: the channel holds a value after it.
  abbrev pub signal : WaitingQueue A → WaitingQueue A
  signal q = record q { ready = true }

  -- The item at an index, and the items without it: `items[index]` and the two `append`s.
  unfoldable pub remove_at : ℕ → List A → Option A × List A
  remove_at i [] = (none, [])
  remove_at zero (x ∷ xs) = (some x, xs)
  remove_at (suc i) (x ∷ xs) = let (y, rest) = remove_at i xs in (y, x ∷ rest)

  -- pushEvicting: the queue and what was removed. `evict` returns `none` for -1.
  unfoldable pub push_evicting :
      A → (List A → Option ℕ) → WaitingQueue A → WaitingQueue A × Option A
  unfolding remove_at
  push_evicting item evict q = elim (evict q.items) [
    | none ↦ (signal (record q { items = q.items ++ item ∷ [] }), none)
    | some i ↦
        let (removed, rest) = remove_at i q.items in
        (signal (record q { items = rest ++ item ∷ [] }), removed)
  ]

  -- push, with a nil `evict`.
  abbrev pub push : A → WaitingQueue A → WaitingQueue A
  push item q = signal (record q { items = q.items ++ item ∷ [] })

  abbrev pub close : WaitingQueue A → WaitingQueue A
  close q = signal (record q { closed = true })

  unfoldable pub pop : WaitingQueue A → Option A × WaitingQueue A
  pop q = elim q.items [ [] ↦ (none, q) | oldest ∷ rest ↦ (some oldest, record q { items = rest }) ]

-- What a status queue holds: port events and tx results, whose content the queue never reads.
pub data StatusItem {ℓ} (Event TxResult : Type ℓ) : Type ℓ where
  event : Event → StatusItem Event TxResult
  tx : TxResult → StatusItem Event TxResult

module _ {ℓ} {Event TxResult : Type ℓ} where
  -- The loop of the eviction test: how many events are held, and the index of the first.
  -- `index` is the loop's counter.
  unfoldable pub count_events : ℕ → ℕ → Option ℕ → List (StatusItem Event TxResult) → ℕ × Option ℕ
  count_events index events oldest [] = (events, oldest)
  count_events index events oldest (tx r ∷ held) = count_events (suc index) events oldest held
  count_events index events none (event e ∷ held) =
      count_events (suc index) (events + 1) (some index) held
  count_events index events (some i) (event e ∷ held) =
      count_events (suc index) (events + 1) (some i) held

  -- The function that statusQueue.push gives to pushEvicting.
  unfoldable pub evict_oldest_event : ℕ → List (StatusItem Event TxResult) → Option ℕ
  unfolding count_events
  evict_oldest_event event_limit held =
      let (events, oldest) = count_events 0 0 none held in
      if ltb events event_limit then none else oldest

  -- statusQueue.push: an event may drop the oldest one, a tx result never drops anything.
  unfoldable pub push_status :
      ℕ
      → StatusItem Event TxResult
      → WaitingQueue (StatusItem Event TxResult)
      → WaitingQueue (StatusItem Event TxResult) × Option (StatusItem Event TxResult)
  unfolding push_evicting evict_oldest_event
  push_status event_limit (tx r) q = (push (tx r) q, none)
  push_status event_limit (event e) q = push_evicting (event e) (evict_oldest_event event_limit) q
