-- ===== src/Agent/Sections.antt =====
-- What the configuration's checks say, for each part of the agent: the devices, the connection and
-- the core (cmd/skuhus-device-agent/run.go).
use device_serial_scanner.Common.{
  ℕ, suc, ◌≡◌, ◌≢◌, refl, inl, inr, true, false, not, Option, none, some, List, [], ◌∷◌, map,
  concat_none, append_none, Bytes, Assoc, text_eq, arith, ℤ, at_least, at_least-le, Option-cases,
  Bool-cases,
}
use device_serial_scanner.Backoff.{validate_policy}
use device_serial_scanner.Wire.Topics.{StationTopics, AgentTopics}
use device_serial_scanner.Core.New.{CoreDevice, devices_error, new_error}
use device_serial_scanner.Mqtt.Client.{
  Library, Options, ClientConfig, done, dial, dial_parsed, dial_tls, tls_config, client_config,
  will_is_incomplete, TlsConfig,
}
use device_serial_scanner.Config.{validate_identity}
use device_serial_scanner.Config.Settings.{DeviceConfig, Config, Broker, reconnect_policy}
use device_serial_scanner.Config.Devices.{
  Texts, device_problems, each_device, validate_devices, at_device, second, whole_seconds,
  is_one_of, unless,
}
use device_serial_scanner.Config.Services.{
  Host, Url, validate, in_identity, in_devices, validate_broker, validate_delivery, validate_status,
  config_parts, broker_parts, delivery_parts, status_parts, plaintext_schemes, plaintext_url,
  url_has_credentials, url_problems, scheme_problems, uses_tls, ca_file_unused, bad_keepalive,
  bad_connect_timeout, bad_reconnect_policy, bad_publish_timeout, bad_drain_timeout,
  bad_buffer_size, bad_keepalive_interval, bad_missed_keepalives, bad_event_buffer_size,
  tls_schemes,
}
use device_serial_scanner.Agent.{build_devices, ready, core_options}
use device_serial_scanner.Agent.Buildable.{
  map_none, unless-none, device_problems-IsSound, device-built,
}

-- The devices that pass their checks are built, and the core finds no fault in them.
devices-built :
    (station : StationTopics) (texts : Texts) (index : ℕ) (seen seen_paths : Assoc ℕ)
    (devices : List DeviceConfig)
    → each_device texts index seen seen_paths devices ≡ []
    → (devs : List CoreDevice) × (build_devices station devices ≡ ready devs)
      × ((n : ℕ) → devices_error n devs ≡ none)
      × (devices ≢ [] → devs ≢ [])
unfolding each_device build_devices devices_error
devices-built station texts index seen seen_paths [] h = ([], refl, λ n. refl, λ n. absurd (n refl))
devices-built station texts index seen seen_paths (d ∷ devices) h =
    let (own, later) =
      append_none (map (at_device index) (device_problems texts seen seen_paths d)) _ h in
    let (i, s) =
      device_problems-IsSound texts seen seen_paths d (map_none (at_device index) _ own) in
    let (dev, b, e) = device-built station seen d i s in
    let (devs, bs, es, n) = devices-built station texts (suc index) _ _ devices later in
    (dev ∷ devs, rw (b, bs) refl, λ k. rw (e k, devices_error) (es (suc k)), λ f g. ground arith)

pub all-built :
    (station : StationTopics) (texts : Texts) (devices : List DeviceConfig)
    → validate_devices texts devices ≡ []
    → (devs : List CoreDevice) × (build_devices station devices ≡ ready devs)
      × (devices_error 0 devs ≡ none)
      × (devs ≢ [])
unfolding validate_devices
all-built station texts [] h = absurd (ground arith)
all-built station texts (d ∷ devices) h =
    let (devs, b, sound, n) = devices-built station texts 0 [] [] (d ∷ devices) h in
    (devs, b, sound 0, n (λ e. ground arith))

-- A connection can be made with these options: what Dial checks of them, and what depends on the
-- files and the library.
pub record IsDialable (lib : Library) (opts : Options) : Type 0 where
  pub id_set : text_eq opts.client_id [] ≡ false
  pub keepalive_set : at_least 1 opts.keepalive ≡ true
  pub timeout_set : at_least 1 opts.connect_timeout ≡ true
  pub policy_usable : validate_policy opts.reconnect ≡ []
  pub url_parses : (host : Bytes) × (lib.hostname opts.url ≡ some host)
  pub ca_needs_tls : opts.tls ≡ false → text_eq opts.ca_file [] ≡ true
  pub ca_readable :
      text_eq opts.ca_file [] ≡ false
      → (pem : Bytes) × (lib.read_file opts.ca_file ≡ some pem) × (lib.has_certs pem ≡ true)
  pub will_complete : will_is_incomplete opts ≡ false
  pub manager : lib.connects ≡ true

tls-ready :
    (lib : Library) (opts : Options) (host : Bytes)
    → IsDialable lib opts
    → (tls : Option TlsConfig) × (dial_tls lib opts host ≡ done tls)
unfolding dial_tls tls_config
tls-ready lib opts host d =
    let tls_of : Option Bytes → TlsConfig =
      λ roots. record { server_name = host; skip_verify = opts.insecure; roots = roots } in
    elim (Bool-cases opts.tls) [
      | inr e ↦ (none, rw (e, d.ca_needs_tls e) refl)
      | inl e ↦ elim (Bool-cases (text_eq opts.ca_file [])) [
        | inl f ↦ (some (tls_of none), rw (e, f) refl)
        | inr f ↦
            let (pem, r, c) = d.ca_readable f in (some (tls_of (some pem)), rw (e, f, r, c) refl)
      ]
    ]

dial-made :
    (lib : Library) (opts : Options) (host : Bytes) (tls : Option TlsConfig)
    → IsDialable lib opts
    → lib.hostname opts.url ≡ some host
    → dial_tls lib opts host ≡ done tls
    → dial lib opts ≡ done (client_config lib opts tls)
unfolding dial dial_parsed text_eq
dial-made lib opts host tls d u t =
    rw (d.id_set, d.keepalive_set, d.timeout_set, d.policy_usable, u)
      (rw (t, dial_parsed) (rw (d.will_complete, d.manager) refl))

pub dial-ready :
    (lib : Library) (opts : Options)
    → IsDialable lib opts
    → (connection : ClientConfig) × (dial lib opts ≡ done connection)
dial-ready lib opts d =
    let (host, u) = d.url_parses in
    let (tls, t) = tls-ready lib opts host d in
    (client_config lib opts tls, dial-made lib opts host tls d u t)

whole-positive : (value : ℤ) → whole_seconds value ≡ true → at_least 1 value ≡ true
unfolding whole_seconds
whole-positive value h = at_least-le 1 second value (omega arith) (ground arith)

plaintext-none :
    (broker : Broker) (url : Url)
    → scheme_problems broker url ≡ []
    → is_one_of tls_schemes url.scheme ≡ false
    → text_eq broker.ca_file [] ≡ true
unfolding scheme_problems
plaintext-none broker url h e = elim (Bool-cases (text_eq url.host [])) [
  | inl n ↦ absurd (ground arith)
  | inr n ↦ elim (Bool-cases (is_one_of plaintext_schemes url.scheme)) [
    | inr u ↦ absurd (ground arith)
    | inl p ↦ ground (
      arith,
      unless-none (text_eq broker.ca_file []) ca_file_unused,
      append_none (unless (text_eq broker.ca_file []) ca_file_unused)
          (unless broker.insecure plaintext_url),
    )
  ]
]

url_problems-none :
    (os : Host) (broker : Broker)
    → url_problems os broker ≡ []
    → (url : Url) × (os.parse_url broker.url ≡ some url)
      × (uses_tls os broker ≡ false → text_eq broker.ca_file [] ≡ true)
unfolding url_problems uses_tls
url_problems-none os broker h = elim (Option-cases (os.parse_url broker.url)) [
  | inl e ↦ absurd (ground arith)
  | inr (u, e) ↦ (
    u,
    e,
    λ f.
        plaintext-none broker u
          (ground (
            arith,
            append_none (unless (not u.has_user) url_has_credentials) (scheme_problems broker u),
          ))
          (ground arith),
  )
]

module _ (os : Host) (env : Assoc Bytes) (cfg : Config) (valid : validate os env cfg ≡ []) where
  pub sections :
      (validate_identity cfg.identity ≡ [])
      × (validate_broker os env cfg.broker ≡ [])
      × (validate_devices os.texts cfg.devices ≡ [])
      × (validate_delivery cfg.delivery cfg.devices ≡ [])
      × (validate_status cfg.status ≡ [])
  unfolding validate config_parts
  sections =
      let (identity, (broker, (devices, (delivery, (status, rest))))) =
        concat_none (config_parts os env cfg) valid in
      (map_none in_identity _ identity, broker, map_none in_devices _ devices, delivery, status)

  -- The URL parses, and a CA file is there only for a connection with TLS.
  pub url-accepted :
      (url : Url) × (os.parse_url cfg.broker.url ≡ some url)
      × (uses_tls os cfg.broker ≡ false → text_eq cfg.broker.ca_file [] ≡ true)
  unfolding validate_broker broker_parts
  url-accepted =
      let (url, rest) = concat_none (broker_parts os env cfg.broker) sections.1 in
      url_problems-none os cfg.broker url

  pub broker-accepted :
      (at_least 1 cfg.broker.keepalive ≡ true)
      × (at_least 1 cfg.broker.connect_timeout ≡ true)
      × (validate_policy (reconnect_policy cfg.broker) ≡ [])
  unfolding validate_broker broker_parts
  broker-accepted =
      let (url, (creds, (ca, (keepalive, (timeout, (reconnect, end)))))) =
        concat_none (broker_parts os env cfg.broker) sections.1 in
      (
        unless-none _ bad_keepalive keepalive,
        unless-none _ bad_connect_timeout timeout,
        map_none bad_reconnect_policy _ reconnect,
      )

  pub core-accepted :
      (devs : List CoreDevice) (agent : AgentTopics)
      → devs ≢ []
      → devices_error 0 devs ≡ none
      → text_eq agent.status [] ≡ false
      → new_error (core_options cfg devs agent) ≡ none
  unfolding new_error validate_delivery delivery_parts validate_status status_parts
  core-accepted [] agent n e s = absurd (n refl)
  core-accepted (dev ∷ devs) agent n e s =
      let (publish, (expiries, (drain, (buffer, rest)))) =
        concat_none (delivery_parts cfg.delivery cfg.devices) sections.3 in
      let (interval, (missed, (events, end))) = concat_none (status_parts cfg.status) sections.4 in
      let positive =
        whole-positive cfg.status.keepalive_interval
          (unless-none _ bad_keepalive_interval interval) in
      rw
        (
          s,
          unless-none _ bad_publish_timeout publish,
          unless-none _ bad_buffer_size buffer,
          unless-none _ bad_drain_timeout drain,
          unless-none _ bad_event_buffer_size events,
          positive,
          unless-none _ bad_missed_keepalives missed,
        )
        e
