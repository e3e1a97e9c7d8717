-- ===== src/Core/Shutdown/Order.antt =====
-- Nothing is queued, sent or published too late.
use device_serial_scanner.Common.{ℕ, ◌≤◌, ◌≡◌, refl, Bool, true, false, leb, List, [], ◌∷◌, arith}
use device_serial_scanner.Core.Shutdown.{
  offline_told, connection_told, rank, Act, tx_queued, frame_sent, status_queued, published,
  keepalive_sent, txs_closed, queues_closed, offline_sent, connection_closed, Agent, Step,
  tells_stop, closes_txs, waits_writers, tells_keepalive, waits_keepalive, tells_readers,
  waits_readers, tells_intake, waits_intake, begins_drain, closes_queues, waits_publishers,
  sends_offline, closes_connection, writer_reports, writer_ends, reader_sends, reader_reports,
  reader_ends, intake_reports, intake_queues, intake_ends, keepalive_sends, keepalive_ends,
  frame_published, frame_publisher_ends, status_published, status_publisher_ends, started, Reach,
  here, then_step, happened,
}

-- When an act is in order behind the log: a queue is closed once, and nothing is queued behind its
-- closing; the offline message is the last that is published, and the connection closes behind it.
abbrev pub IsTimely : Act → List Act → Type 0
IsTimely tx_queued log = happened txs_closed log ≡ false
IsTimely frame_sent log = happened queues_closed log ≡ false
IsTimely status_queued log = happened queues_closed log ≡ false
IsTimely published log =
    (happened offline_sent log ≡ false) × (happened connection_closed log ≡ false)
IsTimely keepalive_sent log =
    (happened offline_sent log ≡ false) × (happened connection_closed log ≡ false)
IsTimely txs_closed log = happened txs_closed log ≡ false
IsTimely queues_closed log = happened queues_closed log ≡ false
IsTimely offline_sent log =
    (happened offline_sent log ≡ false) × (happened connection_closed log ≡ false)
IsTimely connection_closed log =
    (happened offline_sent log ≡ true) × (happened connection_closed log ≡ false)

abbrev pub IsOrderly : List Act → Type 0
IsOrderly [] = Unit
IsOrderly (a ∷ log) = IsTimely a log × IsOrderly log

record IsRun (s : Agent) : Type 0 where
  no_writers : 3 ≤ rank s.stage → s.writers ≡ 0
  no_keepalive : 5 ≤ rank s.stage → s.keepalive ≡ false
  no_readers : 7 ≤ rank s.stage → s.readers ≡ 0
  no_intake : 9 ≤ rank s.stage → s.intake ≡ false
  no_frame_publishers : 12 ≤ rank s.stage → s.frame_publishers ≡ 0
  no_status_publishers : 12 ≤ rank s.stage → s.status_publishers ≡ 0
  txs_when : happened txs_closed s.log ≡ leb 2 (rank s.stage)
  queues_when : happened queues_closed s.log ≡ leb 11 (rank s.stage)
  offline_when : happened offline_sent s.log ≡ leb 13 (rank s.stage)
  connection_when : happened connection_closed s.log ≡ leb 14 (rank s.stage)
  orderly : IsOrderly s.log
  offline_last : s.stage ≡ offline_told → (rest : List Act) × (s.log ≡ offline_sent ∷ rest)
  closed_last :
      s.stage ≡ connection_told
      → (rest : List Act) × (s.log ≡ connection_closed ∷ offline_sent ∷ rest)

Step-IsRun : (s t : Agent) → Step s t → IsRun s → IsRun t
unfolding happened
Step-IsRun _ _ (tells_stop s e) i = ground arith
Step-IsRun _ _ (closes_txs s e) i = ground arith
Step-IsRun _ _ (waits_writers s e n) i = ground arith
Step-IsRun _ _ (tells_keepalive s e) i = ground arith
Step-IsRun _ _ (waits_keepalive s e n) i = ground arith
Step-IsRun _ _ (tells_readers s e) i = ground arith
Step-IsRun _ _ (waits_readers s e n) i = ground arith
Step-IsRun _ _ (tells_intake s e) i = ground arith
Step-IsRun _ _ (waits_intake s e n) i = ground arith
Step-IsRun _ _ (begins_drain s e) i = ground arith
Step-IsRun _ _ (closes_queues s e) i = ground arith
Step-IsRun _ _ (waits_publishers s e n m) i = ground arith
Step-IsRun _ _ (sends_offline s e) i = ground arith
Step-IsRun _ _ (closes_connection s e) i = ground arith
Step-IsRun _ _ (writer_reports s e) i = ground arith
Step-IsRun _ _ (writer_ends s e n) i = ground arith
Step-IsRun _ _ (reader_sends s e) i = ground arith
Step-IsRun _ _ (reader_reports s e) i = ground arith
Step-IsRun _ _ (reader_ends s e) i = ground arith
Step-IsRun _ _ (intake_reports s e) i = ground arith
Step-IsRun _ _ (intake_queues s e n) i = ground arith
Step-IsRun _ _ (intake_ends s e n) i = ground arith
Step-IsRun _ _ (keepalive_sends s e) i = ground arith
Step-IsRun _ _ (keepalive_ends s e n) i = ground arith
Step-IsRun _ _ (frame_published s e) i = ground arith
Step-IsRun _ _ (frame_publisher_ends s e n) i = ground arith
Step-IsRun _ _ (status_published s e) i = ground arith
Step-IsRun _ _ (status_publisher_ends s e) i = ground arith

started-IsRun : (devices : ℕ) (takes_tx : Bool) → IsRun (started devices takes_tx)
unfolding happened
started-IsRun devices takes_tx = record {
  no_writers = λ h. absurd (omega (arith, h));
  no_keepalive = λ h. absurd (omega (arith, h));
  no_readers = λ h. absurd (omega (arith, h));
  no_intake = λ h. absurd (omega (arith, h));
  no_frame_publishers = λ h. absurd (omega (arith, h));
  no_status_publishers = λ h. absurd (omega (arith, h));
  txs_when = refl;
  queues_when = refl;
  offline_when = refl;
  connection_when = refl;
  orderly = tt;
  offline_last = λ h. absurd (ground arith);
  closed_last = λ h. absurd (ground arith);
}

Reach-IsRun :
    (devices : ℕ) (takes_tx : Bool) (t : Agent) → Reach (started devices takes_tx) t → IsRun t
Reach-IsRun devices takes_tx _ here = started-IsRun devices takes_tx
Reach-IsRun devices takes_tx u (then_step {t = t} r step) =
    Step-IsRun t u step (Reach-IsRun devices takes_tx t r)

-- However the goroutines of Run interleave with its shutdown: no job is pushed to a writer's queue
-- behind its closing; no frame is sent on a channel that is closed, and no status message is pushed
-- behind the closing of its queue; each of these is closed once; neither a keepalive nor anything
-- else is published behind the offline message; and the connection is closed behind it. When Run
-- comes to its end, these two are the last that it did.
pub Reach-IsOrderly :
    (devices : ℕ) (takes_tx : Bool) (t : Agent)
    → Reach (started devices takes_tx) t
    → IsOrderly t.log
      × (t.stage ≡ connection_told
          → (rest : List Act) × (t.log ≡ connection_closed ∷ offline_sent ∷ rest))
Reach-IsOrderly devices takes_tx t r =
    let i = Reach-IsRun devices takes_tx t r in (i.orderly, i.closed_last)
