-- ===== src/Core/Keepalive/Told.antt =====
-- What the keepalive tells a consumer of each device.
use device_serial_scanner.Common.{
  int64, residue, ℕ, ◌*◌, ◌/◌, ◌^◌, ◌<◌, ◌≡◌, refl, ap, ap₂, ◌∙◌, Option, some, List, [], ◌∷◌, map,
  Bytes, Assoc, lookup, length, pos, arith,
}
use device_serial_scanner.Wire.Topics.{TxRoute}
use device_serial_scanner.Wire.Tx.{nil_if_empty}
use device_serial_scanner.Wire.Messages.{one_second, device_header_of, message_expiry_seconds}
use device_serial_scanner.Wire.Messages.Keepalives.{
  TxTopic, tx_topic, keepalive_device, KeepaliveDevice, Keepalive, keepalive_message,
}
use device_serial_scanner.Core.Keepalive.{
  Line, keepalive_state, AgentOptions, hand_over, keepalive_of, publish_keepalive,
}
use device_serial_scanner.Mqtt.Answers.{Op, IsIssued, run, count_up, last_answer, run-last_answer}

-- The answers that the connections' operations leave, from the start of the process.
abbrev pub snapshot : List Op → Assoc ℕ
snapshot ops = (run ops (record { connection = 0; by_filter = [] })).by_filter

-- What a consumer should be told of a topic that reaches a device's tx.
abbrev pub told_topic : List Op → TxRoute → TxTopic
unfolding nil_if_empty
told_topic ops route = record {
  topic = route.topic;
  scope = route.scope;
  group = nil_if_empty route.group;
  suback = last_answer (count_up ops) route.topic ops;
}

-- What a consumer should be told of a device.
abbrev pub told : List Op → Line → KeepaliveDevice
unfolding device_header_of
told ops line = record {
  device = device_header_of line.wire;
  device_open = line.state.is_open;
  message_expiry_s = message_expiry_seconds line.wire.expiry;
  tx_topics = map (told_topic ops) line.tx_routes;
  counters = record (line.state.counters) { buffer_depth = length line.state.frames };
}

topics-told :
    (ops : List Op) (routes : List TxRoute)
    → IsIssued 0 ops
    → map tx_topic
        (map (λ route. record { route = route; answer = lookup route.topic (snapshot ops) }) routes)
      ≡ map (told_topic ops) routes
unfolding tx_topic
topics-told ops [] issued = refl
topics-told ops (route ∷ routes) issued =
    rw (run-last_answer ops route.topic issued, topics-told ops routes issued) refl

devices-told :
    (ops : List Op) (lines : List Line)
    → IsIssued 0 ops
    → map keepalive_device (map (keepalive_state (snapshot ops)) lines) ≡ map (told ops) lines
unfolding keepalive_device keepalive_state
devices-told ops [] issued = refl
devices-told ops (line ∷ lines) issued =
    rw (topics-told ops line.tx_routes issued, devices-told ops lines issued) refl

int64-pos : (n : ℕ) → n < 2 ^ 63 → int64 n ≡ pos n
unfolding int64
int64-pos n h = ground arith

seconds-whole : (k : ℕ) → k * one_second / one_second ≡ k
seconds-whole k = omega arith

keepalive_of-devices :
    (opts : AgentOptions) (id : Bytes) (now : ℕ) (ops : List Op) (lines : List Line)
    → IsIssued 0 ops
    → (keepalive_of opts id now (snapshot ops) lines).devices ≡ map (told ops) lines
unfolding keepalive_of keepalive_message
keepalive_of-devices opts id now ops lines issued = devices-told ops lines issued

keepalive_of-gone_after :
    (opts : AgentOptions) (id : Bytes) (now k : ℕ) (answers : Assoc ℕ) (lines : List Line)
    → opts.keepalive_interval ≡ k * one_second
    → k * opts.missed_keepalives < 2 ^ 63
    → ((keepalive_of opts id now answers lines).interval_s ≡ k)
      × ((keepalive_of opts id now answers lines).gone_after_s ≡ pos (k * opts.missed_keepalives))
unfolding keepalive_of keepalive_message
keepalive_of-gone_after opts id now k answers lines whole fits =
    let e = ap (λ n. n / one_second) whole ∙ seconds-whole k in
    (
      e,
      ap (λ n. int64 (n * opts.missed_keepalives)) e ∙ int64-pos (k * opts.missed_keepalives) fits,
    )

publish_keepalive-sent :
    (encode : Keepalive → Option Bytes) (opts : AgentOptions) (id : Bytes) (now n : ℕ)
    (answers : Assoc ℕ) (lines : List Line) (payload : Bytes)
    → encode (keepalive_of opts id now answers lines) ≡ some payload
    → (keepalive_of opts id now answers lines).gone_after_s ≡ pos n
    → n * one_second < 2 ^ 63
    → publish_keepalive encode opts id now answers lines
      ≡ some (record {
        topic = opts.agent_status;
        payload = payload;
        expiry = some (pos (n * one_second));
      })
unfolding publish_keepalive hand_over
publish_keepalive-sent encode opts id now n answers lines payload e gone fits =
    ap₂ (λ z. hand_over opts.agent_status (some (int64 (residue z * one_second)))) gone e
    ∙ ap (λ z. hand_over opts.agent_status (some z) (some payload))
        (int64-pos (n * one_second) fits)

-- A keepalive tells the truth and is kept by the broker for as long as it stands. However the
-- connections' subscriptions have interleaved, with an interval of `k` whole seconds, a waiting
-- time in nanoseconds that fits an and a message that can be encoded: the message says of
-- each device, in the order of the pipelines, its own open port, its counters with the frames
-- that wait, and each topic that reaches its tx with the last answer that the broker gave to it on
-- the newest connection, or none; gone_after_s is `k` times the missed keepalives; and it is
-- published on the agent's status topic, to expire when its time has passed.
pub publish_keepalive-told :
    (encode : Keepalive → Option Bytes) (opts : AgentOptions) (id : Bytes) (now k : ℕ)
    (ops : List Op) (lines : List Line) (payload : Bytes)
    → IsIssued 0 ops
    → opts.keepalive_interval ≡ k * one_second
    → k * opts.missed_keepalives * one_second < 2 ^ 63
    → encode (keepalive_of opts id now (snapshot ops) lines) ≡ some payload
    → ((keepalive_of opts id now (snapshot ops) lines).devices ≡ map (told ops) lines)
      × ((keepalive_of opts id now (snapshot ops) lines).interval_s ≡ k)
      × ((keepalive_of opts id now (snapshot ops) lines).gone_after_s
          ≡ pos (k * opts.missed_keepalives))
      × (publish_keepalive encode opts id now (snapshot ops) lines
          ≡ some (record {
            topic = opts.agent_status;
            payload = payload;
            expiry = some (pos (k * opts.missed_keepalives * one_second));
          }))
publish_keepalive-told encode opts id now k ops lines payload issued whole fits e =
    let n = k * opts.missed_keepalives in
    let (i, g) = keepalive_of-gone_after opts id now k (snapshot ops) lines whole (omega arith) in
    (
      keepalive_of-devices opts id now ops lines issued,
      i,
      g,
      publish_keepalive-sent encode opts id now n (snapshot ops) lines payload e g fits,
    )
