-- ===== src/Agent/Buildable.antt =====
-- A device that the configuration's checks accept can be built: its topics, its groups' routes and
-- its serial reader.
use device_serial_scanner.Common.{
  ℕ, suc, ◌+◌, length, Option-cases, ◌≡◌, refl, inl, inr, Bool, true, false, none, some, List, [],
  ◌∷◌, ◌++◌, map, concat_none, append_none, Bytes, Assoc, text_eq, lookup, put, arith, at_least,
  at_least-le, at_most, natural, ℤ, pos, negsuc,
}
use device_serial_scanner.Backoff.{validate_policy}
use device_serial_scanner.Framer.{Framer, new_framer, built}
use device_serial_scanner.Wire.Topics.{
  StationTopics, DeviceTopics, TxRoute, TxScope, scope_project, scope_site, scope_station, ok,
  device_topics, group_tx, is_segment, agent_level, check_segment, join_levels, group_prefix,
  group_level, tx_level, rx_level, status_level,
}
use device_serial_scanner.Serial.New.{
  new_serial_reader, new, new_behind_framer, parity_by_name, stop_bits_by_name, SerialDevice,
  device_built, options_of, Parity, StopBits,
}
use device_serial_scanner.Core.New.{CoreDevice, device_error}
use device_serial_scanner.Config.{BroadcastGroups, scope_problems, validate_broadcast_groups}
use device_serial_scanner.Config.Settings.{DeviceConfig, reopen_policy}
use device_serial_scanner.Config.Devices.{
  Texts, second, device_parts, device_problems, id_problems, separator_problems, is_one_of,
  parities, whole_seconds, stop_bits_problems, path_problems, unless, bad_baud, bad_parity,
  frame_small, bad_inter_char_timeout, bad_message_expiry, bad_open_attempts, bad_open_interval,
  bad_chunk_bytes, bad_remembered_ids, bad_reopen_policy, in_groups,
}
use device_serial_scanner.Agent.{build_device, scope_routes, broadcast_group_routes, ready}

pub map_none {ℓ κ} : {A : Type ℓ} {B : Type κ} (f : A → B) (xs : List A) → map f xs ≡ [] → xs ≡ []
map_none f [] h = refl
map_none f (x ∷ xs) h = absurd (ground arith)

-- An id that has no problem.
pub record IsId (seen : Assoc ℕ) (id : Bytes) : Type 0 where
  pub not_empty : text_eq id [] ≡ false
  pub segment : is_segment id ≡ true
  pub not_agent : text_eq id agent_level ≡ false
  pub unseen : lookup id seen ≡ none

pub id_problems-IsId : (seen : Assoc ℕ) (id : Bytes) → id_problems seen id ≡ [] → IsId seen id
unfolding id_problems text_eq
id_problems-IsId seen [] h = absurd (ground arith)
id_problems-IsId seen (b ∷ bs) h = unfold id_problems in ground arith

pub longer : (xs ys : Bytes) (c : ℕ) → text_eq (xs ++ c ∷ ys) [] ≡ false
unfolding text_eq
longer [] ys c = refl
longer (x ∷ xs) ys c = refl

topics-built :
    (station : StationTopics) (id : Bytes)
    → is_segment id ≡ true
    → text_eq id agent_level ≡ false
    → (topics : DeviceTopics) × (device_topics station id ≡ ok topics)
      × (text_eq topics.rx [] ≡ false)
unfolding device_topics check_segment join_levels
topics-built station id s a =
    let prefix = join_levels (station.station_prefix ∷ id ∷ []) in
    let topics : DeviceTopics = record {
      rx = join_levels (prefix ∷ rx_level ∷ []);
      tx = join_levels (prefix ∷ tx_level ∷ []);
      status = join_levels (prefix ∷ status_level ∷ []);
    } in
    (topics, rw (s, a) refl, longer prefix rx_level b'/')

scope_routes-built :
    (station : StationTopics) (scope : TxScope) (index : ℕ) (seen : Assoc ℕ) (groups : List Bytes)
    → (prefix : Bytes) → group_prefix station scope ≡ ok prefix
    → scope_problems scope index seen groups ≡ []
    → (routes : List TxRoute) × (scope_routes station scope groups ≡ ok routes)
unfolding scope_problems scope_routes group_tx check_segment
scope_routes-built station scope index seen [] prefix p h = ([], refl)
scope_routes-built station scope index seen (group ∷ groups) prefix p h =
    let segment : is_segment group ≡ true = ground arith in
    let route : TxRoute = record {
      topic = join_levels (prefix ∷ group_level ∷ group ∷ tx_level ∷ []);
      scope = scope;
      group = group;
    } in
    elim (Option-cases (lookup group seen)) [
      | inr (earlier, e) ↦ absurd (ground arith)
      | inl e ↦
          let (routes, found) =
            scope_routes-built station scope (suc index) (put group index seen) groups prefix p
              (ground arith) in
          (route ∷ routes, rw (segment, p, found) refl)
    ]

framer-built :
    (separator : Bytes) (n : ℤ)
    → separator_problems separator ≡ []
    → at_least 1 n ≡ true
    → (framer : Framer) × (new_framer separator (natural n) ≡ built framer)
unfolding separator_problems new_framer
framer-built [] n h p = absurd (ground arith)
framer-built (c ∷ cs) (pos n) h p = (
  record { separator = c ∷ cs; max_frame = n; buf = []; dropping = false; dropped = 0 },
  ground arith,
)
framer-built (c ∷ cs) (negsuc n) h p = absurd (ground arith)

groups-built :
    (station : StationTopics) (groups : BroadcastGroups)
    → validate_broadcast_groups groups ≡ []
    → (routes : List TxRoute) × (broadcast_group_routes station groups ≡ ok routes)
unfolding validate_broadcast_groups broadcast_group_routes group_prefix
groups-built station groups h =
    let p = scope_problems scope_project 0 [] groups.in_project in
    let s = scope_problems scope_site 0 [] groups.in_site in
    let t = scope_problems scope_station 0 [] groups.in_station in
    let (ps, t_none) = append_none (p ++ s) t h in
    let (p_none, s_none) = append_none p s ps in
    let (pr, pe) = scope_routes-built station scope_project 0 [] groups.in_project _ refl p_none in
    let (sr, se) = scope_routes-built station scope_site 0 [] groups.in_site _ refl s_none in
    let (tr, te) = scope_routes-built station scope_station 0 [] groups.in_station _ refl t_none in
    (pr ++ sr ++ tr, rw (pe, se, te) refl)

parity-known :
    (name : Bytes)
    → is_one_of parities name ≡ true
    → (parity : Parity) × (parity_by_name name ≡ some parity)
unfolding parity_by_name is_one_of
parity-known name h = elim (Option-cases (parity_by_name name)) [
  | inl e ↦ absurd (ground arith)
  | inr found ↦ found
]

stop_bits-known :
    (name : Bytes)
    → stop_bits_problems name ≡ []
    → (stop_bits : StopBits) × (stop_bits_by_name name ≡ some stop_bits)
unfolding stop_bits_by_name
stop_bits-known name h = elim (Option-cases (stop_bits_by_name name)) [
  | inl e ↦ absurd (ground arith)
  | inr found ↦ found
]

-- What the checks of a device say of it, all of them.
pub record IsSound (d : DeviceConfig) : Type 0 where
  pub path_set : text_eq d.path [] ≡ false
  pub baud_set : at_least 1 d.baud ≡ true
  pub data_bits_low : at_least 5 d.data_bits ≡ true
  pub data_bits_high : at_most 8 d.data_bits ≡ true
  pub parity_known : is_one_of parities d.parity ≡ true
  pub stop_bits_known : stop_bits_problems d.stop_bits ≡ []
  pub separator_is : separator_problems d.separator ≡ []
  pub frame_set : at_least 1 d.max_frame_bytes ≡ true
  pub timeout_set : at_least 1 d.inter_char_timeout ≡ true
  pub expiry_whole : whole_seconds d.message_expiry ≡ true
  pub attempts_set : at_least 1 d.tx_open_attempts ≡ true
  pub interval_set : at_least 1 d.tx_open_interval ≡ true
  pub chunk_set : at_least 1 d.tx_chunk_bytes ≡ true
  pub remembered_set : at_least 1 d.tx_remembered_ids ≡ true
  pub policy_usable : validate_policy (reopen_policy d) ≡ []
  pub groups_are : validate_broadcast_groups d.broadcast_groups ≡ []

pub unless-none {ℓ} : {A : Type ℓ} (b : Bool) (p : A) → unless b p ≡ [] → b ≡ true
unless-none true p h = refl
unless-none false p h = absurd (ground arith)

pub device_problems-IsSound :
    (texts : Texts) (seen seen_paths : Assoc ℕ) (d : DeviceConfig)
    → device_problems texts seen seen_paths d ≡ []
    → IsId seen d.id × IsSound d
unfolding device_problems device_parts path_problems
device_problems-IsSound texts seen seen_paths d h =
    let (
      id,
      (
        kind,
        (
          path,
          (
            shared,
            (
              baud,
              (
                bits,
                (
                  parity,
                  (
                    stop,
                    (
                      separator,
                      (
                        small,
                        (
                          large,
                          (
                            timeout,
                            (
                              expiry,
                              (
                                attempts,
                                (interval, (chunk, (remembered, (reopen, (type, (groups, end)))))),
                              ),
                            ),
                          ),
                        ),
                      ),
                    ),
                  ),
                ),
              ),
            ),
          ),
        ),
      ),
    ) =
      concat_none (device_parts texts seen seen_paths d) h in
    (
      id_problems-IsId seen d.id id,
      record {
        path_set = ground arith;
        baud_set = unless-none _ bad_baud baud;
        data_bits_low = ground arith;
        data_bits_high = ground arith;
        parity_known = unless-none _ bad_parity parity;
        stop_bits_known = stop;
        separator_is = separator;
        frame_set = unless-none _ frame_small small;
        timeout_set = unless-none _ bad_inter_char_timeout timeout;
        expiry_whole = unless-none _ bad_message_expiry expiry;
        attempts_set = unless-none _ bad_open_attempts attempts;
        interval_set = unless-none _ bad_open_interval interval;
        chunk_set = unless-none _ bad_chunk_bytes chunk;
        remembered_set = unless-none _ bad_remembered_ids remembered;
        policy_usable = map_none bad_reopen_policy _ reopen;
        groups_are = map_none in_groups _ groups;
      },
    )

abbrev reader_of : DeviceConfig → Parity → StopBits → SerialDevice
reader_of d parity stop_bits = record {
  opts = options_of d parity stop_bits;
  read_buffer_bytes = natural d.max_frame_bytes + length d.separator;
}

reader-made :
    (d : DeviceConfig) (parity : Parity) (stop_bits : StopBits) (framer : Framer)
    → text_eq d.id [] ≡ false
    → IsSound d
    → parity_by_name d.parity ≡ some parity
    → stop_bits_by_name d.stop_bits ≡ some stop_bits
    → new_framer d.separator (natural d.max_frame_bytes) ≡ built framer
    → new_serial_reader d ≡ device_built (reader_of d parity stop_bits)
unfolding new_serial_reader new new_behind_framer text_eq
reader-made d line_parity bits framer n s p b f =
    rw (p, b)
      (rw
        (
          n, s.path_set, s.baud_set, s.timeout_set, s.data_bits_low, s.data_bits_high, f,
          s.chunk_set, s.policy_usable,
        )
        refl)

reader-built :
    (d : DeviceConfig)
    → text_eq d.id [] ≡ false
    → IsSound d
    → (reader : SerialDevice) × (new_serial_reader d ≡ device_built reader)
reader-built d n s =
    let (parity, p) = parity-known d.parity s.parity_known in
    let (stop_bits, b) = stop_bits-known d.stop_bits s.stop_bits_known in
    let (framer, f) = framer-built d.separator d.max_frame_bytes s.separator_is s.frame_set in
    (reader_of d parity stop_bits, reader-made d parity stop_bits framer n s p b f)

-- A device that passes its checks can be built, and the core accepts what is built of it.
pub device-built :
    (station : StationTopics) (seen : Assoc ℕ) (d : DeviceConfig)
    → IsId seen d.id
    → IsSound d
    → (dev : CoreDevice) × (build_device station d ≡ ready dev)
      × ((index : ℕ) → device_error index dev ≡ none)
unfolding build_device device_error whole_seconds
device-built station seen d i s =
    let (topics, t, rx) = topics-built station d.id i.segment i.not_agent in
    let (groups, g) = groups-built station d.broadcast_groups s.groups_are in
    let (reader, r) = reader-built d i.not_empty s in
    let dev : CoreDevice = record {
      reader = some reader;
      id = d.id;
      device_type = d.device_type;
      expiry = d.message_expiry;
      topics = topics;
      tx_open_attempts = d.tx_open_attempts;
      tx_open_interval = d.tx_open_interval;
      tx_remembered_ids = d.tx_remembered_ids;
      broadcast_groups = groups;
    } in
    let expiry = at_least-le 1 second d.message_expiry (omega arith) (ground arith) in
    let attempts = at_least-le 0 1 d.tx_open_attempts (omega arith) s.attempts_set in
    let interval = at_least-le 0 1 d.tx_open_interval (omega arith) s.interval_set in
    (dev, rw (t, g, r) refl, λ index. rw (rx, expiry, attempts, interval, s.remembered_set) refl)
