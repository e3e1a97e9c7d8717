-- ===== src/Tests/Publishing.antt =====
-- internal/core/frames.go, internal/core/status.go and internal/transport/mqtt/subscribe.go.
use device_serial_scanner.Common.{
  text_eq, ℕ, ◌≡◌, refl, true, false, none, List, [], ◌∷◌, ◌++◌, codes, All, arith, map,
}
use device_serial_scanner.Device.{Frame, Event, port_closed}
use device_serial_scanner.Wire.Counters.{unlisted, unlisted_reason}
use device_serial_scanner.Wire.Tx.{tx_accepted}
use device_serial_scanner.Queue.{event, tx, new_waiting_queue}
use device_serial_scanner.Queue.Room.{results_of}
use device_serial_scanner.Core.Frames.{
  Attempt, publish_frames, outcome_published, outcome_failed, outcome_dropped,
}
use device_serial_scanner.Core.Frames.Account.{Accounted, publish_frames-Accounted}
use device_serial_scanner.Core.Pipeline.{TxResultItem}
use device_serial_scanner.Core.Status.{Wake, publish_status_messages}
use device_serial_scanner.Core.Status.Order.{items_of, IsTimely, publish_status_messages-results}
use device_serial_scanner.Mqtt.Answers.{Op, came_up, was_answered, last_answer}
use device_serial_scanner.Tests.Wires.{sample_ref}
use device_serial_scanner.Tests.Txs.{line}

abbrev attempt : ℕ → Attempt
attempt now = record { now = now; deadline = 0; encodes = true; acknowledged = true }

abbrev late : Attempt
late = record { now = 9; deadline = 8; encodes = true; acknowledged = true }

abbrev frame : ℕ → Frame
frame n = record { device_id = codes "printer"; raw = n ∷ []; at = n }

abbrev frames : List (Frame × Attempt)
frames =
    (frame 1, attempt 1)
    ∷ (frame 2, record { now = 2; deadline = 0; encodes = true; acknowledged = false })
    ∷ (frame 3, late)
    ∷ []

publish_frames-Accounted_example :
    Accounted frames line (publish_frames frames line).0 (publish_frames frames line).1
publish_frames-Accounted_example = publish_frames-Accounted frames line

outcomes :
    map (λ r. r.1) (publish_frames frames line).1
    ≡ outcome_published ∷ outcome_failed ∷ outcome_dropped ∷ []
unfolding publish_frames
outcomes = refl

abbrev result : ℕ → TxResultItem
result at = record { result = tx_accepted true sample_ref; at = at }

abbrev closing_event : Event
closing_event = record {
  device_id = codes "printer";
  kind = port_closed;
  at = 5;
  error_class = unlisted [];
  err = none;
  reason = unlisted_reason [];
  bytes = 0;
}

abbrev wakes : List Wake
wakes =
    record {
      arrivals = tx (result 1) ∷ event closing_event ∷ [];
      connected = true;
      attempt = attempt 9;
    }
    ∷ record { arrivals = tx (result 2) ∷ []; connected = true; attempt = attempt 9 }
    ∷ record { arrivals = []; connected = false; attempt = late }
    ∷ []

publish_status_messages-results_example :
    (let out = publish_status_messages 2 60 wakes new_waiting_queue in
      (results_of (items_of out.1) ++ results_of out.0.items ≡ result 1 ∷ result 2 ∷ [])
      × All IsTimely out.1)
publish_status_messages-results_example =
    publish_status_messages-results 2 (omega arith) 60 wakes new_waiting_queue

-- The first connection's answers come late.
abbrev pub overtaken : List Op
overtaken =
    came_up
    ∷ came_up
    ∷ was_answered 2 (codes "a") 1
    ∷ was_answered 1 (codes "a") 135
    ∷ was_answered 1 (codes "b") 135
    ∷ []

overtaken_not_shown : last_answer 2 (codes "b") overtaken ≡ none
unfolding text_eq
overtaken_not_shown = refl
