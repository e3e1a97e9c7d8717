-- ===== src/Agent.antt =====
-- The assembly of the agent, cmd/skuhus-device-agent/run.go and devices.go: runAgent from the topics
-- to a core that can run. The signals and the callbacks are left out.
pub mod Start
pub mod Routes
pub mod Routed
pub mod Cases
pub mod Intake
pub mod Buildable
pub mod Sections
pub mod Accepted
use device_serial_scanner.Common.{
  ℕ, Bool, true, false, Option, none, some, List, [], ◌∷◌, ◌++◌, map, Bytes, text_eq, if◌then◌else◌,
  ℤ,
}
use device_serial_scanner.Wire.Topics.{
  StationTopics, AgentTopics, DeviceTopics, TxRoute, TxScope, scope_project, scope_site,
  scope_station, TopicError, Checked, ok, err, ◌>>=◌, new_station_topics, agent_topics,
  device_topics, group_tx,
}
use device_serial_scanner.Serial.New.{
  Built, device_built, device_refused, NewError, new_serial_reader, SerialDevice,
}
use device_serial_scanner.Core.New.{CoreDevice, CoreOptions, CoreError, new_error, tx_routes}
use device_serial_scanner.Mqtt.Client.{
  Options, Library, ClientConfig, DialError, dial, done, refused, Outcome,
}
use device_serial_scanner.Logging.{OpenError}
use device_serial_scanner.Config.Credentials.{CredentialsError}
use device_serial_scanner.Config.{Identity, BroadcastGroups}
use device_serial_scanner.Config.Settings.{DeviceConfig, Broker, Config, reconnect_policy}
use device_serial_scanner.Config.Devices.{is_one_of}
use device_serial_scanner.Config.Services.{Host, uses_tls}

pub data BuildError : Type 0 where
  log_refused : OpenError → BuildError
  level_refused : BuildError
  credentials_refused : CredentialsError → BuildError
  topics_refused : TopicError → BuildError
  serial_refused : NewError → BuildError
  dial_refused : DialError → BuildError
  core_refused : CoreError → BuildError

pub data Build {ℓ} (A : Type ℓ) : Type ℓ where
  ready : A → Build A
  stopped : BuildError → Build A

infixl 5 ◌then_with◌
abbrev pub ◌then_with◌ {ℓ κ} : {A : Type ℓ} {B : Type κ} → Build A → (A → Build B) → Build B
ready a then_with f = f a
stopped e then_with f = stopped e

abbrev pub from_topics {ℓ} : {A : Type ℓ} → Checked A → Build A
from_topics (ok a) = ready a
from_topics (err e) = stopped (topics_refused e)

abbrev pub from_serial : Built → Build SerialDevice
from_serial (device_built d) = ready d
from_serial (device_refused e) = stopped (serial_refused e)

abbrev pub from_dial : Outcome ClientConfig → Build ClientConfig
from_dial (done c) = ready c
from_dial (refused e) = stopped (dial_refused e)

-- The routes of one scope's groups.
unfoldable pub scope_routes : StationTopics → TxScope → List Bytes → Checked (List TxRoute)
unfolding group_tx
scope_routes station scope [] = ok []
scope_routes station scope (group ∷ groups) =
    let rest = scope_routes station scope groups in
    group_tx station scope group >>= λ route. rest >>= λ routes. ok (route ∷ routes)

-- broadcastGroupRoutes, in the order of ByScope.
unfoldable pub broadcast_group_routes : StationTopics → BroadcastGroups → Checked (List TxRoute)
unfolding scope_routes
broadcast_group_routes station groups = do
  project ← scope_routes station scope_project groups.in_project
  site ← scope_routes station scope_site groups.in_site
  stations ← scope_routes station scope_station groups.in_station
  ok (project ++ site ++ stations)

-- The body of buildDevices' loop, less the subscriptions.
unfoldable pub build_device : StationTopics → DeviceConfig → Build CoreDevice
unfolding broadcast_group_routes device_topics new_serial_reader
build_device station d = from_topics (device_topics station d.id) then_with λ topics.
    from_topics (broadcast_group_routes station d.broadcast_groups) then_with λ groups.
    from_serial (new_serial_reader d) then_with λ reader. ready (record {
      reader = some reader;
      id = d.id;
      device_type = d.device_type;
      expiry = d.message_expiry;
      topics = topics;
      tx_open_attempts = d.tx_open_attempts;
      tx_open_interval = d.tx_open_interval;
      tx_remembered_ids = d.tx_remembered_ids;
      broadcast_groups = groups;
    })

-- buildDevices, the devices.
unfoldable pub build_devices : StationTopics → List DeviceConfig → Build (List CoreDevice)
unfolding build_device
build_devices station [] = ready []
build_devices station (d ∷ devices) =
    let rest = build_devices station devices in
    build_device station d then_with λ dev. rest then_with λ devs. ready (dev ∷ devs)

-- The `subscribe` of buildDevices: a topic once.
abbrev pub subscribe : List Bytes → Bytes → List Bytes
unfolding is_one_of
subscribe subscriptions topic =
    if is_one_of subscriptions topic then subscriptions else subscriptions ++ topic ∷ []

unfoldable pub subscribe_all : List Bytes → List TxRoute → List Bytes
unfolding subscribe
subscribe_all subscriptions [] = subscriptions
subscribe_all subscriptions (route ∷ routes) =
    subscribe_all (subscribe subscriptions route.topic) routes

-- buildDevices, the subscriptions: each device's tx topic, and each group's once.
unfoldable pub subscriptions_of : List Bytes → List CoreDevice → List Bytes
unfolding subscribe_all
subscriptions_of subscriptions [] = subscriptions
subscriptions_of subscriptions (dev ∷ devices) =
    subscriptions_of (subscribe_all subscriptions (tx_routes dev)) devices

-- The options of the connection: the identity, the broker's settings and the credentials.
unfoldable pub dial_options :
    Host → Config → Bytes → Bytes → AgentTopics → (ℕ → Option Bytes) → List Bytes → Options
unfolding uses_tls
dial_options os cfg username password agent will subscriptions = record {
  url = cfg.broker.url;
  client_id = cfg.identity.instance_id;
  username = username;
  password = password;
  tls = uses_tls os cfg.broker;
  ca_file = cfg.broker.ca_file;
  insecure = cfg.broker.insecure;
  keepalive = cfg.broker.keepalive;
  connect_timeout = cfg.broker.connect_timeout;
  reconnect = reconnect_policy cfg.broker;
  will_topic = agent.status;
  will = some will;
  subscriptions = subscriptions;
}

abbrev pub core_options : Config → List CoreDevice → AgentTopics → CoreOptions
core_options cfg devices agent = record {
  has_transport = true;
  has_builder = true;
  devices = devices;
  agent_status = agent.status;
  publish_timeout = cfg.delivery.publish_timeout;
  buffer_size = cfg.delivery.buffer_size;
  drain_timeout = cfg.delivery.drain_timeout;
  event_buffer_size = cfg.status.event_buffer_size;
  keepalive_interval = cfg.status.keepalive_interval;
  missed_keepalives = cfg.status.missed_keepalives;
}

-- What the agent runs with.
pub record Assembled : Type 0 where
  pub connection : ClientConfig
  pub core : CoreOptions

-- url.Parse is one function for the configuration and for Dial.
abbrev pub with_url : Host → Library → Library
with_url os lib = record lib {
  hostname = λ url. elim (os.parse_url url) [ none ↦ none | some u ↦ some u.hostname ];
}

-- core.New at the end of runAgent.
unfoldable pub finish_build : ClientConfig → CoreOptions → Build Assembled
unfolding new_error
finish_build connection core = elim (new_error core) [
  | some e ↦ stopped (core_refused e)
  | none ↦ ready (record { connection = connection; core = core })
]

-- runAgent behind the credentials: from the topics to the core.
unfoldable pub assemble :
    Host → Library → Config → Bytes → Bytes → (ℕ → Option Bytes) → Build Assembled
unfolding new_station_topics agent_topics build_devices subscriptions_of dial dial_options
    finish_build
assemble os lib cfg username password will =
    from_topics (new_station_topics cfg.identity.project cfg.identity.site cfg.identity.station)
    then_with λ station.
        from_topics (agent_topics station cfg.identity.instance_id) then_with λ agent.
        build_devices station cfg.devices then_with λ devices.
        from_dial (
          dial (with_url os lib)
            (dial_options os cfg username password agent will (subscriptions_of [] devices)))
        then_with λ connection. finish_build connection (core_options cfg devices agent)
