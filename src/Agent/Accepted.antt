-- ===== src/Agent/Accepted.antt =====
-- What the configuration's checks accept, the agent is built from: cmd/skuhus-device-agent/run.go
-- relies on internal/config for every rule of internal/wire, internal/device/serial,
-- internal/transport/mqtt and internal/core.
use device_serial_scanner.Common.{
  ℕ, ◌≡◌, ◌≢◌, ◌↔◌, refl, inl, inr, true, false, Option, none, some, List, [], ◌∷◌, ◌++◌,
  append_none, Bytes, Assoc, text_eq, text_eq_iff, arith, Bool-cases,
}
use device_serial_scanner.Wire.Topics.{
  StationTopics, AgentTopics, ok, new_station_topics, agent_topics, join_levels, check_segment,
  agent_level, status_level,
}
use device_serial_scanner.Core.New.{CoreDevice, new_error}
use device_serial_scanner.Mqtt.Client.{Library, ClientConfig, done, dial}
use device_serial_scanner.Config.{
  Identity, field_project, field_site, field_station, reserved_problems, validate_identity,
  level_problems, instance_problems,
}
use device_serial_scanner.Config.Accepted.{validate_identity_iff}
use device_serial_scanner.Config.Settings.{apply_derived_defaults, Config}
use device_serial_scanner.Config.Services.{Host, validate}
use device_serial_scanner.Agent.{
  build_devices, ready, assemble, Assembled, dial_options, core_options, with_url, finish_build,
  subscriptions_of,
}
use device_serial_scanner.Agent.Buildable.{longer}
use device_serial_scanner.Config.Credentials.{Credentials, loaded, load_credentials}
use device_serial_scanner.Agent.Start.{Start, run_agent}
use device_serial_scanner.Agent.Start.Outside.{
  Opens, logging-IsAccepted, open_log-ready, ready-Opens, done-connects, done-certs,
}
use device_serial_scanner.Agent.Cases.{run_agent-assembled, assemble-dialled}
use device_serial_scanner.Agent.Sections.{
  dial-ready, all-built, sections, url-accepted, broker-accepted, core-accepted,
}

station-set : (identity : Identity) → validate_identity identity ≡ [] → identity.station ≢ []
unfolding validate_identity level_problems
station-set identity h e =
    let p = level_problems field_project identity.project in
    let s = level_problems field_site identity.site in
    let t = level_problems field_station identity.station in
    let r = reserved_problems identity.station in
    let (most, i) = append_none (p ++ s ++ t ++ r) (instance_problems identity.instance_id) h in
    let (levels, reserved) = append_none (p ++ s ++ t) r most in
    let (two, station) = append_none (p ++ s) t levels in absurd (ground arith)

instance-set :
    (cfg : Config)
    → validate_identity (apply_derived_defaults cfg).identity ≡ []
    → (apply_derived_defaults cfg).identity.instance_id ≢ []
unfolding apply_derived_defaults
instance-set cfg h e = elim (Bool-cases (text_eq cfg.identity.instance_id [])) [
  | inl n ↦
      station-set (record (cfg.identity) { instance_id = cfg.identity.station }) (ground arith)
        (ground arith)
  | inr n ↦ absurd (ground (arith, text_eq_iff cfg.identity.instance_id []))
]

status-set :
    (station : StationTopics) (instance_id : Bytes) (agent : AgentTopics)
    → agent_topics station instance_id ≡ ok agent
    → text_eq agent.status [] ≡ false
unfolding agent_topics check_segment join_levels
status-set station instance_id agent h = ground (
  arith,
  longer station.station_prefix (join_levels (agent_level ∷ instance_id ∷ status_level ∷ [])) b'/',
)

assemble-made :
    (os : Host) (lib : Library) (cfg : Config) (username password : Bytes) (will : ℕ → Option Bytes)
    (station : StationTopics) (agent : AgentTopics) (devs : List CoreDevice)
    (connection : ClientConfig)
    → new_station_topics cfg.identity.project cfg.identity.site cfg.identity.station ≡ ok station
    → agent_topics station cfg.identity.instance_id ≡ ok agent
    → build_devices station cfg.devices ≡ ready devs
    → dial
        (with_url os lib)
        (dial_options os cfg username password agent will (subscriptions_of [] devs))
      ≡ done connection
    → new_error (core_options cfg devs agent) ≡ none
    → assemble os lib cfg username password will
      ≡ ready (record { connection = connection; core = core_options cfg devs agent })
unfolding assemble
assemble-made os lib cfg username password will station agent devs connection s a d c e =
    rw (s, a, d, c, finish_build, e) refl

not-empty : (text : Bytes) → text ≢ [] → text_eq text [] ≡ false
not-empty text h = ground (arith, text_eq_iff text [])

-- Behind the log and the credentials, the agent is assembled.
module _ (os : Host) (lib : Library) (env : Assoc Bytes) (cfg : Config)
    (valid : validate os env (apply_derived_defaults cfg) ≡ []) where
  assemble-ready :
      (username password : Bytes) (will : ℕ → Option Bytes)
      → (text_eq (apply_derived_defaults cfg).broker.ca_file [] ≡ false
          → (pem : Bytes) × (lib.read_file (apply_derived_defaults cfg).broker.ca_file ≡ some pem)
            × (lib.has_certs pem ≡ true))
      → lib.connects ≡ true
      → (a : Assembled) × (assemble os lib (apply_derived_defaults cfg) username password will
          ≡ ready a)
  unfolding dial_options
  assemble-ready username password will certs connects =
      let cfg' = apply_derived_defaults cfg in
      let (identity, broker, devices, delivery, status) = sections os env cfg' valid in
      let set = instance-set cfg identity in
      let b = (validate_identity_iff cfg'.identity set).0 identity in
      let (devs, d, sound, nonempty) = all-built b.topics os.texts cfg'.devices devices in
      let opts = dial_options os cfg' username password b.agent will (subscriptions_of [] devs) in
      let told = status-set b.topics cfg'.identity.instance_id b.agent b.agent_built in
      let (url, u, plain) = url-accepted os env cfg' valid in
      let (keepalive, timeout, policy) = broker-accepted os env cfg' valid in
      let (connection, c) = dial-ready (with_url os lib) opts (record {
        id_set = not-empty cfg'.identity.instance_id set;
        keepalive_set = keepalive;
        timeout_set = timeout;
        policy_usable = policy;
        url_parses = (url.hostname, rw u refl);
        ca_needs_tls = plain;
        ca_readable = certs;
        will_complete = told;
        manager = connects;
      }) in
      let core = core-accepted os env cfg' valid devs b.agent nonempty sound told in
      (
        record { connection = connection; core = core_options cfg' devs b.agent },
        assemble-made os lib cfg' username password will b.topics b.agent devs connection
            b.station_built b.agent_built d c core,
      )

-- What runAgent meets outside the configuration lets it go on: the log file opens, where one is
-- configured; the credentials load; a CA file, where one is configured, can be read and has
-- certificates; and the connection manager starts.
pub record Allows (lib : Library) (start : Start) (cfg : Config) : Type 0 where
  pub log : Opens start cfg.logging
  pub credentials :
      (c : Credentials) × (load_credentials start.strings cfg.broker.credentials_file
          start.credentials start.env
        ≡ loaded c)
  pub certs :
      text_eq cfg.broker.ca_file [] ≡ false
      → (pem : Bytes) × (lib.read_file cfg.broker.ca_file ≡ some pem) × (lib.has_certs pem ≡ true)
  pub connects : lib.connects ≡ true

-- What a run of runAgent that is ready went through.
ready-Allows :
    (os : Host) (lib : Library) (start : Start) (cfg : Config) (will : ℕ → Option Bytes)
    (a : Assembled)
    → run_agent os lib start cfg will ≡ ready a
    → Allows lib start cfg
unfolding dial_options
ready-Allows os lib start cfg will a h =
    let (log, c, o, l, made) = run_agent-assembled os lib start cfg will a h in
    let (opts, connection, d, same) =
      assemble-dialled os lib cfg c.username c.password will a made in
    record {
      log = ready-Opens os start cfg.logging log o;
      credentials = (c, l);
      certs = λ f. rw same at (done-certs (with_url os lib) opts connection d (rw same f));
      connects = done-connects (with_url os lib) opts connection d;
    }

-- For a configuration in which Validate finds no problem behind its derived defaults, runAgent
-- comes to an agent that can run exactly when what it meets outside the configuration lets it: the
-- log file, where one is configured, opens; LoadCredentials gives credentials; the CA file, where
-- one is configured, can be read and has certificates; and the connection manager starts. So no
-- check of the log's settings, of the topics, of the serial devices, of the connection or of the
-- core refuses what the configuration's checks let through.
pub run_agent-ready :
    (os : Host) (lib : Library) (env : Assoc Bytes) (start : Start) (cfg : Config)
    (will : ℕ → Option Bytes)
    → validate os env (apply_derived_defaults cfg) ≡ []
    → ((a : Assembled) × (run_agent os lib start (apply_derived_defaults cfg) will ≡ ready a))
      ↔ Allows lib start (apply_derived_defaults cfg)
unfolding run_agent
run_agent-ready os lib env start cfg will valid = (
  λ (a, h). ready-Allows os lib start (apply_derived_defaults cfg) will a h,
  λ allows.
      let cfg' = apply_derived_defaults cfg in
      let (log, o) =
        open_log-ready os start cfg'.logging (logging-IsAccepted os env cfg' valid) allows.log in
      let (c, l) = allows.credentials in
      let (a, made) =
        assemble-ready os lib env cfg valid c.username c.password will allows.certs
          allows.connects in
      (a, rw (o, l) made),
)
