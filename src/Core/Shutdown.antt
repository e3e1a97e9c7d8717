-- ===== src/Core/Shutdown.antt =====
-- The goroutines of Run and the order of its shutdown, internal/core/core.go: the main one goes
-- through the stages, each wait and each signal a step; the others act and end beside it. What they
-- do with frames, status messages and tx is in the other modules; here it counts when they do it.
-- The relation has every step that the source allows, and more: what can hold a goroutine up (a
-- full channel of frames, the port under a write, the wait for a connection) is left out, and only
-- takes steps away.
pub mod Order
use device_serial_scanner.Common.{
  ℕ, suc, ◌-◌, ◌≤◌, ◌≡◌, Bool, true, false, ◌||◌, List, [], ◌∷◌, if◌then◌else◌,
}

-- Where the main goroutine is: behind which of its calls.
pub data Stage : Type 0 where
  running stop_told writers_told writers_waited : Stage
  keepalive_told keepalive_waited readers_told readers_waited : Stage
  intake_told intake_waited drain_begun queues_told publishers_waited : Stage
  offline_told connection_told : Stage

abbrev pub rank : Stage → ℕ
rank running = 0
rank stop_told = 1
rank writers_told = 2
rank writers_waited = 3
rank keepalive_told = 4
rank keepalive_waited = 5
rank readers_told = 6
rank readers_waited = 7
rank intake_told = 8
rank intake_waited = 9
rank drain_begun = 10
rank queues_told = 11
rank publishers_waited = 12
rank offline_told = 13
rank connection_told = 14

-- What is done that others see: a push to a writer's queue, a send on a frames channel, a push to
-- a status queue, a publishing, and the main goroutine's closings.
pub data Act : Type 0 where
  tx_queued frame_sent status_queued published keepalive_sent : Act
  txs_closed queues_closed offline_sent connection_closed : Act

-- How many of each goroutine have not ended. The log has the newest act first.
pub record Agent : Type 0 where
  pub stage : Stage
  pub writers : ℕ
  pub readers : ℕ
  pub frame_publishers : ℕ
  pub status_publishers : ℕ
  pub keepalive : Bool
  pub intake : Bool
  pub log : List Act

abbrev pub acts : Act → Agent → Agent
acts act s = record s { log = act ∷ s.log }

abbrev pub goes_to : Stage → Agent → Agent
goes_to stage s = record s { stage = stage }

pub data Step : Agent → Agent → Type 0 where
  -- The main goroutine.
  tells_stop : (s : Agent) → s.stage ≡ running → Step s (goes_to stop_told s)
  closes_txs : (s : Agent) → s.stage ≡ stop_told → Step s (goes_to writers_told (acts txs_closed s))
  waits_writers :
      (s : Agent) → s.stage ≡ writers_told → s.writers ≡ 0 → Step s (goes_to writers_waited s)
  tells_keepalive : (s : Agent) → s.stage ≡ writers_waited → Step s (goes_to keepalive_told s)
  waits_keepalive :
      (s : Agent)
      → s.stage ≡ keepalive_told
      → s.keepalive ≡ false
      → Step s (goes_to keepalive_waited s)
  tells_readers : (s : Agent) → s.stage ≡ keepalive_waited → Step s (goes_to readers_told s)
  waits_readers :
      (s : Agent) → s.stage ≡ readers_told → s.readers ≡ 0 → Step s (goes_to readers_waited s)
  tells_intake : (s : Agent) → s.stage ≡ readers_waited → Step s (goes_to intake_told s)
  waits_intake :
      (s : Agent) → s.stage ≡ intake_told → s.intake ≡ false → Step s (goes_to intake_waited s)
  begins_drain : (s : Agent) → s.stage ≡ intake_waited → Step s (goes_to drain_begun s)
  closes_queues :
      (s : Agent) → s.stage ≡ drain_begun → Step s (goes_to queues_told (acts queues_closed s))
  waits_publishers :
      (s : Agent)
      → s.stage ≡ queues_told
      → s.frame_publishers ≡ 0
      → s.status_publishers ≡ 0
      → Step s (goes_to publishers_waited s)
  sends_offline :
      (s : Agent)
      → s.stage ≡ publishers_waited
      → Step s (goes_to offline_told (acts offline_sent s))
  closes_connection :
      (s : Agent)
      → s.stage ≡ offline_told
      → Step s (goes_to connection_told (acts connection_closed s))
  -- writeTxs: a result; its end when the queue is closed and empty.
  writer_reports : (s : Agent) → 1 ≤ s.writers → Step s (acts status_queued s)
  writer_ends :
      (s : Agent) → 1 ≤ s.writers → 2 ≤ rank s.stage → Step s (record s { writers = s.writers - 1 })
  -- Reader.Run: a frame, a port event; its end when it is told, or on an error.
  reader_sends : (s : Agent) → 1 ≤ s.readers → Step s (acts frame_sent s)
  reader_reports : (s : Agent) → 1 ≤ s.readers → Step s (acts status_queued s)
  reader_ends : (s : Agent) → 1 ≤ s.readers → Step s (record s { readers = s.readers - 1 })
  -- receiveTxs: a result at once; a job for a writer, while stopping is held still and not set.
  intake_reports : (s : Agent) → s.intake ≡ true → Step s (acts status_queued s)
  intake_queues : (s : Agent) → s.intake ≡ true → s.stage ≡ running → Step s (acts tx_queued s)
  intake_ends :
      (s : Agent) → s.intake ≡ true → 8 ≤ rank s.stage → Step s (record s { intake = false })
  -- sendKeepalives.
  keepalive_sends : (s : Agent) → s.keepalive ≡ true → Step s (acts keepalive_sent s)
  keepalive_ends :
      (s : Agent) → s.keepalive ≡ true → 4 ≤ rank s.stage → Step s (record s { keepalive = false })
  -- publishFrames ends when its channel is closed; publishStatusMessages also when the drain runs
  -- out and when the wait for the connection fails, at any stage.
  frame_published : (s : Agent) → 1 ≤ s.frame_publishers → Step s (acts published s)
  frame_publisher_ends :
      (s : Agent)
      → 1 ≤ s.frame_publishers
      → 11 ≤ rank s.stage
      → Step s (record s { frame_publishers = s.frame_publishers - 1 })
  status_published : (s : Agent) → 1 ≤ s.status_publishers → Step s (acts published s)
  status_publisher_ends :
      (s : Agent)
      → 1 ≤ s.status_publishers
      → Step s (record s { status_publishers = s.status_publishers - 1 })

-- Run with so many devices, before anything has happened; without a channel of tx the intake ends
-- at once.
abbrev pub started : ℕ → Bool → Agent
started devices takes_tx = record {
  stage = running;
  writers = devices;
  readers = devices;
  frame_publishers = devices;
  status_publishers = devices;
  keepalive = true;
  intake = takes_tx;
  log = [];
}

pub data Reach (s : Agent) : Agent → Type 0 where
  here : Reach s s
  then_step : {t u : Agent} → Reach s t → Step t u → Reach s u

-- Whether an act is of the kind.
unfoldable pub same_act : Act → Act → Bool
same_act txs_closed txs_closed = true
same_act queues_closed queues_closed = true
same_act offline_sent offline_sent = true
same_act connection_closed connection_closed = true
same_act _ _ = false

unfoldable pub happened : Act → List Act → Bool
unfolding same_act
happened act [] = false
happened act (a ∷ log) = same_act act a || happened act log
