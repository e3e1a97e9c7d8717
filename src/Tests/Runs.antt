-- ===== src/Tests/Runs.antt =====
-- internal/core/core.go, tx.go and status.go over several devices, and internal/logging/file.go.
use device_serial_scanner.Common.{
  ℕ, zero, suc, ◌*◌, ◌≡◌, refl, Bool, true, false, Option, none, some, List, [], ◌∷◌, Bytes, codes,
  map, text_eq, arith, pos, length,
}
use device_serial_scanner.Wire.Topics.{TxRoute, scope_device, scope_site}
use device_serial_scanner.Wire.Messages.{Builder}
use device_serial_scanner.Wire.Messages.Keepalives.{Keepalive, keepalive_message}
use device_serial_scanner.Core.WrittenIds.Memory.{contains}
use device_serial_scanner.Core.Routing.{admit_tx, by_tx_topic}
use device_serial_scanner.Core.Routing.Fanout.{admit_each, admit_tx-by_tx_topic}
use device_serial_scanner.Core.Shutdown.{
  Agent, Act, started, Reach, here, then_step, frame_sent, published, txs_closed, queues_closed,
  offline_sent, connection_closed, running, connection_told, Stage, stop_told, writers_told,
  writers_waited, keepalive_told, keepalive_waited, readers_told, readers_waited, intake_told,
  intake_waited, drain_begun, queues_told, publishers_waited, offline_told, reader_sends,
  frame_published, tells_stop, closes_txs, writer_ends, waits_writers, tells_keepalive,
  keepalive_ends, waits_keepalive, tells_readers, reader_ends, waits_readers, tells_intake,
  waits_intake, begins_drain, closes_queues, frame_publisher_ends, status_publisher_ends,
  waits_publishers, sends_offline, closes_connection,
}
use device_serial_scanner.Core.Shutdown.Order.{IsOrderly, Reach-IsOrderly}
use device_serial_scanner.Core.Keepalive.{Line, AgentOptions, keepalive_of, publish_keepalive}
use device_serial_scanner.Core.Keepalive.Told.{snapshot, told, publish_keepalive-told}
use device_serial_scanner.Logging.{Disk, File, Answers, write}
use device_serial_scanner.Logging.Rotation.Writing.{Written, write-Written}
use device_serial_scanner.Tests.Wires.{sample_codec}
use device_serial_scanner.Tests.Txs.{line, message}
use device_serial_scanner.Tests.Publishing.{overtaken}

-- Two devices in a group, and one that is not.
abbrev own : Bytes → TxRoute
own topic = record { topic = topic; scope = scope_device; group = [] }

abbrev shared : TxRoute
shared = record { topic = message.topic; scope = scope_site; group = codes "printers" }

abbrev routes : List (List TxRoute)
routes =
    (own (codes "a") ∷ shared ∷ []) ∷ (own (codes "b") ∷ []) ∷ (own (codes "c") ∷ shared ∷ []) ∷ []

admit_tx-by_tx_topic_example :
    admit_tx sample_codec
      (λ k. k)
      (λ k. false)
      (by_tx_topic routes)
      message
      (line ∷ line ∷ line ∷ [])
    ≡ admit_each sample_codec (λ k. k) (λ k. false) message 0 routes (line ∷ line ∷ line ∷ [])
unfolding contains text_eq
admit_tx-by_tx_topic_example =
    admit_tx-by_tx_topic sample_codec (λ k. k) (λ k. false) message routes (line ∷ line ∷ line ∷ [])
      ((refl, (refl, tt)), ((refl, tt), ((refl, (refl, tt)), tt))) refl

-- A log of four bytes with one old file, and a record that does not fit behind the three there.
abbrev log_file : File
log_file = record { max_bytes = 4; keep = 1; is_open = true; size = 3 }

abbrev disk : Disk
disk = λ g. elim g [ zero ↦ some (codes "abc") | suc n ↦ none ]

abbrev answers : Answers
answers = record {
  closes = true;
  removes = λ g. true;
  renames = λ g. true;
  opens = true;
  stats = true;
  takes = 9;
  fails = false;
}

write-Written_example :
    Written
      (codes "de")
      log_file
      (write answers (codes "de") log_file disk).0
      disk
      (write answers (codes "de") log_file disk).1
      (write answers (codes "de") log_file disk).2
write-Written_example =
    write-Written answers (codes "de") log_file disk (λ h. omega arith)
      (λ h. record { text = codes "abc"; there = refl; size_is = refl })

-- The builder of a station, with numbers and times that say little.
abbrev builder : Builder
builder = record {
  agent = record {
    project = codes "acme";
    site = codes "vasby";
    station = codes "pack-03";
    instance_id = codes "pack-03";
    agent_version = codes "2.0.0";
  };
  format_time = λ at. [];
  decimal = λ n. [];
  encode_base64 = λ raw. raw;
  utf8_valid = λ raw. true;
}

abbrev agent_options : AgentOptions
agent_options = record {
  builder = builder;
  started = 0;
  keepalive_interval = 15 * 1000000000;
  missed_keepalives = 3;
  agent_status = codes "skuhus/acme/vasby/pack-03/agent/pack-03/status";
}

abbrev printer_line : Line
printer_line = record {
  wire = record { id = codes "printer"; device_type = []; expiry = 60 * 1000000000 };
  path = codes "/dev/ttyUSB0";
  tx_routes = own (codes "a") ∷ own (codes "b") ∷ [];
  state = line;
}

-- A message that is encoded as its devices' number.
abbrev encode : Keepalive → Option Bytes
encode keepalive = some (length keepalive.devices ∷ [])

encoded :
    encode (keepalive_of agent_options (codes "id") 7 (snapshot overtaken) (printer_line ∷ []))
    ≡ some (1 ∷ [])
unfolding keepalive_of keepalive_message
encoded = refl

publish_keepalive-told_example :
    ((keepalive_of agent_options (codes "id") 7 (snapshot overtaken) (printer_line ∷ [])).devices
      ≡ map (told overtaken) (printer_line ∷ []))
    × ((keepalive_of agent_options
          (codes "id")
          7
          (snapshot overtaken)
          (printer_line ∷ [])).interval_s
        ≡ 15)
    × ((keepalive_of agent_options
          (codes "id")
          7
          (snapshot overtaken)
          (printer_line ∷ [])).gone_after_s
        ≡ pos (15 * 3))
    × (publish_keepalive encode agent_options
          (codes "id")
          7
          (snapshot overtaken)
          (printer_line ∷ [])
        ≡ some (record {
          topic = agent_options.agent_status;
          payload = 1 ∷ [];
          expiry = some (pos (15 * 3 * 1000000000));
        }))
publish_keepalive-told_example =
    publish_keepalive-told encode agent_options (codes "id") 7 15 overtaken (printer_line ∷ [])
      (1 ∷ [])
      (omega arith, omega arith, (omega arith, omega arith, (omega arith, omega arith, tt))) refl
      (omega arith) encoded

-- A whole run of one device: a frame is read and published, and the agent stops.
abbrev at_stage : Stage → ℕ → ℕ → ℕ → ℕ → Bool → List Act → Agent
at_stage stage writers readers frame_publishers status_publishers keepalive log = record {
  stage = stage;
  writers = writers;
  readers = readers;
  frame_publishers = frame_publishers;
  status_publishers = status_publishers;
  keepalive = keepalive;
  intake = false;
  log = log;
}

abbrev log_1 : List Act
log_1 = frame_sent ∷ []

abbrev log_2 : List Act
log_2 = published ∷ log_1

abbrev log_3 : List Act
log_3 = txs_closed ∷ log_2

abbrev log_4 : List Act
log_4 = queues_closed ∷ log_3

abbrev log_5 : List Act
log_5 = offline_sent ∷ log_4

abbrev log_6 : List Act
log_6 = connection_closed ∷ log_5

whole_run : Reach (started 1 false) (at_stage connection_told 0 0 0 0 false log_6)
whole_run =
    let r1 : Reach (started 1 false) (at_stage running 1 1 1 1 true log_1) =
      then_step here (reader_sends (at_stage running 1 1 1 1 true []) (omega arith)) in
    let r2 : Reach (started 1 false) (at_stage running 1 1 1 1 true log_2) =
      then_step r1 (frame_published (at_stage running 1 1 1 1 true log_1) (omega arith)) in
    let r3 : Reach (started 1 false) (at_stage stop_told 1 1 1 1 true log_2) =
      then_step r2 (tells_stop (at_stage running 1 1 1 1 true log_2) refl) in
    let r4 : Reach (started 1 false) (at_stage writers_told 1 1 1 1 true log_3) =
      then_step r3 (closes_txs (at_stage stop_told 1 1 1 1 true log_2) refl) in
    let r5 : Reach (started 1 false) (at_stage writers_told 0 1 1 1 true log_3) =
      then_step r4
        (writer_ends (at_stage writers_told 1 1 1 1 true log_3) (omega arith) (omega arith)) in
    let r6 : Reach (started 1 false) (at_stage writers_waited 0 1 1 1 true log_3) =
      then_step r5 (waits_writers (at_stage writers_told 0 1 1 1 true log_3) refl refl) in
    let r7 : Reach (started 1 false) (at_stage keepalive_told 0 1 1 1 true log_3) =
      then_step r6 (tells_keepalive (at_stage writers_waited 0 1 1 1 true log_3) refl) in
    let r8 : Reach (started 1 false) (at_stage keepalive_told 0 1 1 1 false log_3) =
      then_step r7
        (keepalive_ends (at_stage keepalive_told 0 1 1 1 true log_3) refl (omega arith)) in
    let r9 : Reach (started 1 false) (at_stage keepalive_waited 0 1 1 1 false log_3) =
      then_step r8 (waits_keepalive (at_stage keepalive_told 0 1 1 1 false log_3) refl refl) in
    let r10 : Reach (started 1 false) (at_stage readers_told 0 1 1 1 false log_3) =
      then_step r9 (tells_readers (at_stage keepalive_waited 0 1 1 1 false log_3) refl) in
    let r11 : Reach (started 1 false) (at_stage readers_told 0 0 1 1 false log_3) =
      then_step r10 (reader_ends (at_stage readers_told 0 1 1 1 false log_3) (omega arith)) in
    let r12 : Reach (started 1 false) (at_stage readers_waited 0 0 1 1 false log_3) =
      then_step r11 (waits_readers (at_stage readers_told 0 0 1 1 false log_3) refl refl) in
    let r13 : Reach (started 1 false) (at_stage intake_told 0 0 1 1 false log_3) =
      then_step r12 (tells_intake (at_stage readers_waited 0 0 1 1 false log_3) refl) in
    let r14 : Reach (started 1 false) (at_stage intake_waited 0 0 1 1 false log_3) =
      then_step r13 (waits_intake (at_stage intake_told 0 0 1 1 false log_3) refl refl) in
    let r15 : Reach (started 1 false) (at_stage drain_begun 0 0 1 1 false log_3) =
      then_step r14 (begins_drain (at_stage intake_waited 0 0 1 1 false log_3) refl) in
    let r16 : Reach (started 1 false) (at_stage queues_told 0 0 1 1 false log_4) =
      then_step r15 (closes_queues (at_stage drain_begun 0 0 1 1 false log_3) refl) in
    let r17 : Reach (started 1 false) (at_stage queues_told 0 0 0 1 false log_4) = then_step r16 (
      frame_publisher_ends (at_stage queues_told 0 0 1 1 false log_4) (omega arith)
        (omega arith)) in
    let r18 : Reach (started 1 false) (at_stage queues_told 0 0 0 0 false log_4) =
      then_step r17
        (status_publisher_ends (at_stage queues_told 0 0 0 1 false log_4) (omega arith)) in
    let r19 : Reach (started 1 false) (at_stage publishers_waited 0 0 0 0 false log_4) =
      then_step r18 (waits_publishers (at_stage queues_told 0 0 0 0 false log_4) refl refl refl) in
    let r20 : Reach (started 1 false) (at_stage offline_told 0 0 0 0 false log_5) =
      then_step r19 (sends_offline (at_stage publishers_waited 0 0 0 0 false log_4) refl) in
    then_step r20 (closes_connection (at_stage offline_told 0 0 0 0 false log_5) refl)

Reach-IsOrderly_example :
    IsOrderly log_6
    × (connection_told ≡ connection_told
        → (rest : List Act) × (log_6 ≡ connection_closed ∷ offline_sent ∷ rest))
Reach-IsOrderly_example =
    Reach-IsOrderly 1 false (at_stage connection_told 0 0 0 0 false log_6) whole_run
