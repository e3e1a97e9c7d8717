-- ===== src/Agent/Cases.antt =====
-- What an agent that was built went through: runAgent of cmd/skuhus-device-agent/run.go, backwards.
use device_serial_scanner.Common.{ℕ, ◌≡◌, refl, inl, inr, ◌⊎◌, Option, [], Bytes, arith}
use device_serial_scanner.Logging.{Disk, File}
use device_serial_scanner.Wire.Topics.{StationTopics, ok, new_station_topics, agent_topics}
use device_serial_scanner.Mqtt.Client.{
  Library, Options, ClientConfig, Outcome, DialError, done, refused, dial,
}
use device_serial_scanner.Config.Settings.{Config}
use device_serial_scanner.Config.Services.{Host}
use device_serial_scanner.Config.Credentials.{
  Credentials, CredentialsError, Loaded, loaded, not_loaded, load_credentials,
}
use device_serial_scanner.Agent.{
  Build, ready, stopped, BuildError, build_devices, assemble, Assembled, with_url, dial_options,
  subscriptions_of, finish_build,
}
use device_serial_scanner.Agent.Start.{Start, open_log, run_agent}
use device_serial_scanner.Agent.Routes.{Checked-cases}

pub Build-cases {ℓ} :
    {A : Type ℓ} (b : Build A) → ((a : A) × (b ≡ ready a)) ⊎ ((e : BuildError) × (b ≡ stopped e))
Build-cases (ready a) = inl (a, refl)
Build-cases (stopped e) = inr (e, refl)

Loaded-cases :
    (l : Loaded)
    → ((c : Credentials) × (l ≡ loaded c)) ⊎ ((e : CredentialsError) × (l ≡ not_loaded e))
Loaded-cases (loaded c) = inl (c, refl)
Loaded-cases (not_loaded e) = inr (e, refl)

Outcome-cases :
    {A : Type 0} (o : Outcome A) → ((a : A) × (o ≡ done a)) ⊎ ((e : DialError) × (o ≡ refused e))
Outcome-cases (done a) = inl (a, refl)
Outcome-cases (refused e) = inr (e, refl)

-- The log, the credentials, and the assembly with them.
pub run_agent-assembled :
    (os : Host) (lib : Library) (start : Start) (cfg : Config) (will : ℕ → Option Bytes)
    (a : Assembled)
    → run_agent os lib start cfg will ≡ ready a
    → (log : Option File × Disk) × (c : Credentials) × (open_log os start cfg.logging ≡ ready log)
      × (load_credentials start.strings cfg.broker.credentials_file start.credentials start.env
          ≡ loaded c)
      × (assemble os lib cfg c.username c.password will ≡ ready a)
unfolding run_agent
run_agent-assembled os lib start cfg will a h = elim (Build-cases (open_log os start cfg.logging)) [
  | inr (e, n) ↦ absurd (ground arith)
  | inl (log, o) ↦
      elim (Loaded-cases
        (load_credentials start.strings cfg.broker.credentials_file start.credentials start.env)) [
          | inr (e, n) ↦ absurd (ground arith)
          | inl (c, l) ↦ (log, c, o, l, rw (o, l) at h)
        ]
]

-- The connection of an agent that was assembled was dialled, with the configuration's CA file.
pub assemble-dialled :
    (os : Host) (lib : Library) (cfg : Config) (username password : Bytes) (will : ℕ → Option Bytes)
    (a : Assembled)
    → assemble os lib cfg username password will ≡ ready a
    → (opts : Options) × (connection : ClientConfig) × (dial (with_url os lib) opts
        ≡ done connection)
      × (opts.ca_file ≡ cfg.broker.ca_file)
unfolding assemble finish_build dial_options
assemble-dialled os lib cfg username password will a h =
    elim (Checked-cases
      (new_station_topics cfg.identity.project cfg.identity.site cfg.identity.station)) [
        | inr (e, n) ↦ absurd (ground arith)
        | inl (station, s) ↦ elim (Checked-cases (agent_topics station cfg.identity.instance_id)) [
          | inr (e, n) ↦ absurd (ground arith)
          | inl (agent, t) ↦ elim (Build-cases (build_devices station cfg.devices)) [
            | inr (e, n) ↦ absurd (ground arith)
            | inl (devices, b) ↦
                let opts =
                  dial_options os cfg username password agent will (subscriptions_of [] devices) in
                elim (Outcome-cases (dial (with_url os lib) opts)) [
                  | inr (e, n) ↦ absurd (ground arith)
                  | inl (connection, d) ↦ (opts, connection, d, refl)
                ]
          ]
        ]
      ]

-- What runAgent builds its devices from.
pub assemble-devices :
    (os : Host) (lib : Library) (cfg : Config) (username password : Bytes) (will : ℕ → Option Bytes)
    (a : Assembled)
    → assemble os lib cfg username password will ≡ ready a
    → (station : StationTopics) × (new_station_topics cfg.identity.project cfg.identity.site
          cfg.identity.station
        ≡ ok station)
      × (build_devices station cfg.devices ≡ ready a.core.devices)
unfolding assemble finish_build
assemble-devices os lib cfg username password will a h =
    elim (Checked-cases
      (new_station_topics cfg.identity.project cfg.identity.site cfg.identity.station)) [
        | inr (e, n) ↦ absurd (ground arith)
        | inl (station, s) ↦ elim (Checked-cases (agent_topics station cfg.identity.instance_id)) [
          | inr (e, n) ↦ absurd (ground arith)
          | inl (agent, t) ↦ elim (Build-cases (build_devices station cfg.devices)) [
            | inr (e, n) ↦ absurd (ground arith)
            | inl (devices, b) ↦ (station, s, ground arith)
          ]
        ]
      ]
