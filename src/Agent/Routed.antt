-- ===== src/Agent/Routed.antt =====
-- Where a tx goes in an agent that is built from an accepted configuration: runAgent of
-- cmd/skuhus-device-agent/run.go, with the fan-out of internal/core.
use mathlib.Core.Path.{subst}
use device_serial_scanner.Common.{
  ◌≢◌, ℕ, suc, ◌≡◌, refl, sym, ◌∙◌, inl, inr, Bool, Option, List, [], ◌∷◌, ◌++◌, map, All,
  All-append, append_none, Bytes, Assoc, length, length-map, arith,
}
use device_serial_scanner.Wire.Topics.{
  StationTopics, scope_project, scope_site, scope_station, ok, new_station_topics, device_topics,
}
use device_serial_scanner.Wire.Topics.Distinct.{Kind, device_tx, topic_of}
use device_serial_scanner.Wire.ReadTx.{Codec}
use device_serial_scanner.Config.{validate_broadcast_groups}
use device_serial_scanner.Config.Settings.{DeviceConfig, Config}
use device_serial_scanner.Config.Devices.{
  Texts, device_problems, each_device, validate_devices, at_device,
}
use device_serial_scanner.Config.Services.{Host, validate}
use device_serial_scanner.Mqtt.Client.{Library}
use device_serial_scanner.Core.New.{CoreDevice, tx_routes}
use device_serial_scanner.Core.WrittenIds.Memory.{IsDistinct}
use device_serial_scanner.Core.Pipeline.{Pipeline}
use device_serial_scanner.Core.Tx.{TxMessage}
use device_serial_scanner.Core.Routing.{by_tx_topic, admit_tx}
use device_serial_scanner.Core.Routing.Fanout.{topics_of, admit_each, admit_tx-by_tx_topic}
use device_serial_scanner.Agent.{
  ready, build_device, build_devices, Assembled, broadcast_group_routes,
}
use device_serial_scanner.Agent.Buildable.{map_none, device_problems-IsSound}
use device_serial_scanner.Agent.Start.{Start, run_agent}
use device_serial_scanner.Agent.Cases.{Build-cases, run_agent-assembled, assemble-devices}
use device_serial_scanner.Agent.Sections.{sections}
use device_serial_scanner.Agent.Routes.{
  scope_kinds, group_kinds, Checked-cases, device-unlike, group_kinds-AllDiffer,
  group_routes-IsBuilt, built-IsDistinct,
}

-- What a device is built from.
build_device-topics :
    (station : StationTopics) (d : DeviceConfig) (dev : CoreDevice)
    → build_device station d ≡ ready dev
    → (device_topics station d.id ≡ ok dev.topics)
      × (broadcast_group_routes station d.broadcast_groups ≡ ok dev.broadcast_groups)
unfolding build_device
build_device-topics station d dev h = elim (Checked-cases (device_topics station d.id)) [
  | inr (e, n) ↦ absurd (ground arith)
  | inl (topics, t) ↦ elim (Checked-cases (broadcast_group_routes station d.broadcast_groups)) [
    | inr (e, n) ↦ absurd (ground arith)
    | inl (groups, g) ↦ (ground arith, ground arith)
  ]
]

device-IsDistinct :
    (p s t : Bytes) (station : StationTopics) (d : DeviceConfig) (dev : CoreDevice)
    → new_station_topics p s t ≡ ok station
    → validate_broadcast_groups d.broadcast_groups ≡ []
    → build_device station d ≡ ready dev
    → IsDistinct (topics_of (tx_routes dev))
unfolding topic_of
device-IsDistinct p s t station d dev g valid h =
    let (topics, groups) = build_device-topics station d dev h in
    let projects = scope_kinds scope_project d.broadcast_groups.in_project in
    let sites = scope_kinds scope_site d.broadcast_groups.in_site in
    let stations = scope_kinds scope_station d.broadcast_groups.in_station in
    let unlike : Kind → Type 0 = λ k. device_tx d.id ≢ k in
    built-IsDistinct p s t station (device_tx d.id ∷ group_kinds d.broadcast_groups)
      (topics_of (tx_routes dev)) g
      (
        All-append unlike (projects ++ sites) stations
            (All-append unlike projects sites
              (device-unlike d.id scope_project d.broadcast_groups.in_project)
              (device-unlike d.id scope_site d.broadcast_groups.in_site))
            (device-unlike d.id scope_station d.broadcast_groups.in_station),
        group_kinds-AllDiffer d.broadcast_groups valid,
      )
      (rw topics refl, group_routes-IsBuilt station d.broadcast_groups dev.broadcast_groups groups)

devices-AllDistinct :
    (p s t : Bytes) (station : StationTopics) (texts : Texts) (index : ℕ)
    (seen seen_paths : Assoc ℕ) (devices : List DeviceConfig) (devs : List CoreDevice)
    → new_station_topics p s t ≡ ok station
    → each_device texts index seen seen_paths devices ≡ []
    → build_devices station devices ≡ ready devs
    → All (λ routes. IsDistinct (topics_of routes)) (map tx_routes devs)
unfolding each_device build_devices
devices-AllDistinct p s t station texts index seen seen_paths [] [] g valid h = tt
devices-AllDistinct p s t station texts index seen seen_paths [] (dev ∷ devs) g valid h =
    absurd (ground arith)
devices-AllDistinct p s t station texts index seen seen_paths (d ∷ devices) devs g valid h =
    let (own, later) =
      append_none (map (at_device index) (device_problems texts seen seen_paths d)) _ valid in
    let (id, sound) =
      device_problems-IsSound texts seen seen_paths d (map_none (at_device index) _ own) in
    elim (Build-cases (build_device station d)) [
      | inr (e, n) ↦ absurd (ground arith)
      | inl (dev, b) ↦ elim (Build-cases (build_devices station devices)) [
        | inr (e, n) ↦ absurd (ground arith)
        | inl (rest, r) ↦
            let same : devs ≡ dev ∷ rest = ground arith in
            subst (λ x. All (λ routes. IsDistinct (topics_of routes)) (map tx_routes x)) (sym same)
              (
                device-IsDistinct p s t station d dev g sound.groups_are b,
                devices-AllDistinct p s t station texts (suc index) _ _ devices rest g later r,
              )
      ]
    ]

each_device-none :
    (texts : Texts) (devices : List DeviceConfig)
    → validate_devices texts devices ≡ []
    → each_device texts 0 [] [] devices ≡ []
unfolding validate_devices
each_device-none texts [] h = absurd (ground arith)
each_device-none texts (d ∷ devices) h = h

-- From the configuration to the ports: where Validate finds no problem in a configuration and
-- runAgent builds an agent from it, a tx is admitted to every device of that agent that has a
-- route of the message's topic, once to each, in the devices' order, and no other device sees it.
-- The pipelines are those of the devices, as many of them. That the topics of one device differ,
-- on which the routing table depends, follows from the configuration's checks.
pub run_agent-routed :
    (os : Host) (lib : Library) (env : Assoc Bytes) (start : Start) (cfg : Config)
    (will : ℕ → Option Bytes) (a : Assembled) (codec : Codec) (now : ℕ → ℕ) (stopping : ℕ → Bool)
    (message : TxMessage) (lines : List Pipeline)
    → validate os env cfg ≡ []
    → run_agent os lib start cfg will ≡ ready a
    → length a.core.devices ≡ length lines
    → admit_tx codec now stopping (by_tx_topic (map tx_routes a.core.devices)) message lines
      ≡ admit_each codec now stopping message 0 (map tx_routes a.core.devices) lines
run_agent-routed os lib env start cfg will a codec now stopping message lines valid h n =
    let (log, c, o, l, made) = run_agent-assembled os lib start cfg will a h in
    let (station, g, built) = assemble-devices os lib cfg c.username c.password will a made in
    let (identity, broker, devices, delivery, status) = sections os env cfg valid in
    admit_tx-by_tx_topic codec now stopping message (map tx_routes a.core.devices) lines
      (devices-AllDistinct cfg.identity.project cfg.identity.site cfg.identity.station station
        os.texts 0 [] [] cfg.devices a.core.devices g
        (each_device-none os.texts cfg.devices devices) built)
      (length-map tx_routes a.core.devices ∙ n)
