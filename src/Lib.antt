-- ===== src/Lib.antt =====
-- Verification of the device agent: a program that reads frames from serial devices, publishes
-- them over MQTT, and writes to the devices the tx messages it is sent.
--
-- The parts, and how they interact. A serial device reads its port and hands each read to a
-- framer, which returns the completed frames and what it threw away. Port events, discards and
-- frames go to the device's pipeline, which counts them and queues status items for publishing.
-- A tx that arrives on a topic is read, admitted to the pipeline's queue or answered at once, and
-- written by the pipeline's one writer through the device.
--
--   Common       the names, list lemmas, byte strings and association lists the parts share
--   Framer       internal/device/serial/framer.go: Append, Timeout, Reset, the carry; the reads that
--                session in internal/device/serial/serial.go feeds to it (Framer/Stream)
--   Serial       internal/device/serial/serial.go: classify, writing through the shared port
--                (Serial/Port), a session with its events and frames (Serial/Session), the
--                checks of New (Serial/New)
--   Backoff      internal/backoff/backoff.go, and the reopening of a port in serial.go
--   Device       internal/device/device.go: events, frames and write errors
--   Queue        internal/core/queue.go: waitingQueue and statusQueue
--   Wire         internal/wire: topics.go (Wire/Topics), and of messages.go the counters
--                (Wire/Counters), the tx results (Wire/Tx), ReadTx (Wire/ReadTx) and the messages of
--                Builder (Wire/Messages)
--   Mqtt         internal/transport/mqtt: client.go (Mqtt/Client), and of subscribe.go the answers to
--                the subscriptions (Mqtt/Answers)
--   Config       internal/config: the values of config.go (Config/Settings), and validate.go: the
--                identity and the groups, the devices (Config/Devices), the rest (Config/Services);
--                credentials.go (Config/Credentials), env.go (Config/Environment) and Load of load.go
--                (Config/Load)
--   Agent        cmd/skuhus-device-agent: runAgent of run.go (its start, with the log and the
--                credentials, in Agent/Start; newTxIntake in Agent/Intake), and devices.go; with
--                Core/Routing, where a tx goes in an agent that is built (Agent/Routed)
--   Core         internal/core: tx.go (Core/Tx, Core/WrittenIds), pipeline.go and the report of
--                status.go (Core/Pipeline), frames.go (Core/Frames), the publishing of status.go
--                (Core/Status), its keepalive and event messages (Core/Keepalive), the checks of
--                core.go (Core/New), the topics of Run and their fan-out (Core/Routing), Run with the
--                order of its shutdown (Core/Shutdown), and the interleaving of the steps of tx.go
--                (Core/Life)
--   Logging      internal/logging/file.go: the log file and its rotation
--   Tests        the definitions run on concrete inputs
--
-- A byte, a code unit of a string and a time are natural numbers, and a byte slice or a string is
-- the list of them; a time is a number of ticks and 0 is Go's zero time. A uint64 counter wraps at
-- 2 ^ 64, and so does an int64 where the program computes with one (Common/Words). Go maps are association lists. An integer or a
-- duration of the configuration may be negative (Common/Integers). A mutable struct is a record that each
-- operation takes and returns; code that holds a lock for its whole run is one step.
--
-- Append's loop runs on fuel: one round for each byte of the buffer is enough, since each round
-- takes at least one byte from it. The writer's loop runs on the number of attempts the device
-- allows, and one more, since each round but the last spends an attempt. The loops of a write
-- through the port run on the bytes left, of which each round takes one at least. The loops that
-- end only with the agent (a session, the publishers) run over the list of turns they have had so
-- far. What another goroutine or a library decides in a round (the clock, the stop, the outcome of a port
-- write) is an argument. JSON, base64 and UUID decoding are a parameter of ReadTx (Codec), and the
-- serial library's port is one of the writing (Serial/Port).
--
-- A call of the operating system that may fail takes an answer that says whether it does (Logging).
-- An address that a setter writes through is the name of its field (Config/Environment). The main
-- goroutine of Run and those beside it are the steps of one relation (Core/Shutdown), in which any
-- of them may be next. It has every step that the source allows; what can hold a goroutine up (a
-- full channel, the port under a write, the wait for a connection) is left out, and only takes steps
-- away.
--
-- Not modelled: log records and their handlers, the callbacks of the MQTT client, decode of load.go,
-- which walks a YAML library's tree, and the rest of the command line, which are glue around
-- third-party libraries or input and output. url.Parse, os.Stat, the opening and decoding of the
-- configuration file, Go's parsers and sort.Strings, math.Ceil of a duration's seconds and the
-- connection manager are parameters (Config/Services, Config/Load, Mqtt/Client), as are fresh
-- message ids and the rendering of times (Wire/Messages).
pub mod Common
pub mod Framer
pub mod Serial
pub mod Agent
pub mod Backoff
pub mod Device
pub mod Queue
pub mod Wire
pub mod Config
pub mod Logging
pub mod Mqtt
pub mod Core
mod Tests
