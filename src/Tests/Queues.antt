-- ===== src/Tests/Queues.antt =====
-- internal/core/queue.go with room for two events.
use device_serial_scanner.Common.{
  ℕ, ◌≡◌, ◌≤◌, refl, true, false, some, List, [], ◌∷◌, ◌++◌, length, arith,
}
use device_serial_scanner.Queue.{
  WaitingQueue, new_waiting_queue, StatusItem, event, tx, push_status, push,
}
use device_serial_scanner.Queue.Room.{events_of, results_of, push_status-event}
use device_serial_scanner.Queue.History.{
  Op, pushed, popped, run, run-results, run-events-le, outage, run-outage,
}
use device_serial_scanner.Queue.Wakeup.{
  System, look, looking, blocked, pushes, looks, Reach, here, then_step, IsAwake, Reach-IsAwake,
}

abbrev full : WaitingQueue (StatusItem ℕ ℕ)
full = record { items = tx 100 ∷ event 1 ∷ tx 101 ∷ event 2 ∷ []; closed = false; ready = true }

push_status-event_example : push_status 2 (event 3) full ≡ (
  record { items = tx 100 ∷ tx 101 ∷ event 2 ∷ event 3 ∷ []; closed = false; ready = true },
  some (event 1),
)
push_status-event_example = push_status-event 2 3 full (omega arith)

abbrev busy_day : List (Op ℕ ℕ)
busy_day = pushed (event 3) ∷ popped ∷ pushed (tx 102) ∷ popped ∷ popped ∷ []

run-results_example :
    results_of (run 2 busy_day full).1 ++ results_of (run 2 busy_day full).0.items
    ≡ 100 ∷ 101 ∷ 102 ∷ []
run-results_example = run-results 2 (omega arith) busy_day full

run-events-le_example : length (events_of (run 2 busy_day full).0.items) ≤ 2
run-events-le_example = run-events-le 2 (omega arith) busy_day full (omega arith)

run-outage_example :
    events_of (run 2 (outage (event 3 ∷ tx 102 ∷ event 4 ∷ [])) full).0.items ≡ 3 ∷ 4 ∷ []
run-outage_example = run-outage 2 (omega arith) (event 3 ∷ tx 102 ∷ event 4 ∷ []) full (omega arith)

abbrev idle : System ℕ
idle = record { queue = new_waiting_queue; consumer = looking }

idle-IsAwake : IsAwake idle
idle-IsAwake = ground arith

-- The consumer looks, blocks, and an item comes.
abbrev slept : System ℕ
slept = record { queue = push 5 new_waiting_queue; consumer = blocked }

abbrev waiting : System ℕ
waiting = record { queue = new_waiting_queue; consumer = blocked }

idle-slept : Reach idle slept
unfolding look
idle-slept = then_step (then_step here (looks idle refl)) (pushes waiting 5)

Reach-IsAwake_example : IsAwake slept
Reach-IsAwake_example = Reach-IsAwake idle-IsAwake idle-slept
