-- ===== src/Wire/Topics.antt =====
-- Topic names, internal/wire/topics.go. Go strings are byte strings.
pub mod Levels
pub mod Distinct
use device_serial_scanner.Common.{
  ℕ, Bool, true, false, ◌&&◌, ◌||◌, List, [], ◌∷◌, ◌++◌, Bytes, codes, leb, ◌==◌, text_eq,
  if◌then◌else◌,
}

-- segmentRule, `^[a-z0-9-]+$`.
abbrev pub is_segment_byte : ℕ → Bool
is_segment_byte c = (leb b'a' c && leb c b'z') || ((leb b'0' c && leb c b'9') || c == b'-')

unfoldable pub all_segment_bytes : Bytes → Bool
all_segment_bytes [] = true
all_segment_bytes (c ∷ cs) = is_segment_byte c && all_segment_bytes cs

unfoldable pub is_segment : Bytes → Bool
unfolding all_segment_bytes
is_segment [] = false
is_segment (c ∷ cs) = all_segment_bytes (c ∷ cs)

abbrev pub agent_level : Bytes
agent_level = codes "agent"

abbrev pub root_level : Bytes
root_level = codes "skuhus"

abbrev pub rx_level : Bytes
rx_level = codes "rx"

abbrev pub tx_level : Bytes
tx_level = codes "tx"

abbrev pub status_level : Bytes
status_level = codes "status"

abbrev pub any_level : Bytes
any_level = codes "+"

abbrev pub group_level : Bytes
group_level = codes "group"

-- strings.Join with "/".
unfoldable pub join_levels : List Bytes → Bytes
join_levels [] = []
join_levels (level ∷ []) = level
join_levels (level ∷ next ∷ levels) = level ++ b'/' ∷ join_levels (next ∷ levels)

pub data TxScope : Type 0 where
  scope_device scope_station scope_site scope_project : TxScope

pub record TxRoute : Type 0 where
  pub topic : Bytes
  pub scope : TxScope
  pub group : Bytes

pub record StationTopics : Type 0 where
  pub project_prefix : Bytes
  pub site_prefix : Bytes
  pub station_prefix : Bytes

pub record AgentTopics : Type 0 where
  pub status : Bytes

pub record DeviceTopics : Type 0 where
  pub rx : Bytes
  pub tx : Bytes
  pub status : Bytes

-- What a level is called in the error about it.
pub data LevelName : Type 0 where
  project site station broadcast_group instance_name device_id : LevelName

pub data TopicError : Type 0 where
  bad_segment : LevelName → Bytes → TopicError
  reserved_station reserved_device bad_scope : TopicError

pub data Checked {ℓ} (A : Type ℓ) : Type ℓ where
  ok : A → Checked A
  err : TopicError → Checked A

infixl 5 ◌>>=◌ ◌>>◌
abbrev pub ◌>>=◌ {ℓ κ} : {A : Type ℓ} {B : Type κ} → Checked A → (A → Checked B) → Checked B
ok a >>= f = f a
err e >>= f = err e

abbrev pub ◌>>◌ {ℓ} : {B : Type ℓ} → Checked (Unit {0}) → Checked B → Checked B
m >> k = m >>= λ _. k

unfoldable pub check_segment : LevelName → Bytes → Checked (Unit {0})
check_segment name value = if is_segment value then ok tt else err (bad_segment name value)

abbrev pub refuse_if : Bool → TopicError → Checked (Unit {0})
refuse_if true e = err e
refuse_if false e = ok tt

-- NewStationTopics. The first level that breaks the rule is the one reported.
unfoldable pub new_station_topics : Bytes → Bytes → Bytes → Checked StationTopics
unfolding check_segment
new_station_topics project_id site_id station_id = do
  check_segment project project_id
  check_segment site site_id
  check_segment station station_id
  refuse_if (text_eq station_id group_level) reserved_station
  let project_prefix = join_levels (root_level ∷ project_id ∷ [])
  let site_prefix = join_levels (project_prefix ∷ site_id ∷ [])
  ok (record {
    project_prefix = project_prefix;
    site_prefix = site_prefix;
    station_prefix = join_levels (site_prefix ∷ station_id ∷ []);
  })

-- The prefix of a group's scope; a device is no group's scope.
unfoldable pub group_prefix : StationTopics → TxScope → Checked Bytes
group_prefix topics scope_project = ok topics.project_prefix
group_prefix topics scope_site = ok topics.site_prefix
group_prefix topics scope_station = ok topics.station_prefix
group_prefix topics scope_device = err bad_scope

-- GroupTx.
unfoldable pub group_tx : StationTopics → TxScope → Bytes → Checked TxRoute
unfolding check_segment group_prefix
group_tx topics scope group = do
  check_segment broadcast_group group
  prefix ← group_prefix topics scope
  ok (record {
    topic = join_levels (prefix ∷ group_level ∷ group ∷ tx_level ∷ []);
    scope = scope;
    group = group;
  })

-- Agent.
unfoldable pub agent_topics : StationTopics → Bytes → Checked AgentTopics
unfolding check_segment
agent_topics topics instance_id = do
  check_segment instance_name instance_id
  ok (record {
    status = join_levels (topics.station_prefix ∷ agent_level ∷ instance_id ∷ status_level ∷ []);
  })

-- Device.
unfoldable pub device_topics : StationTopics → Bytes → Checked DeviceTopics
unfolding check_segment
device_topics topics id = do
  check_segment device_id id
  refuse_if (text_eq id agent_level) reserved_device
  let prefix = join_levels (topics.station_prefix ∷ id ∷ [])
  ok (record {
    rx = join_levels (prefix ∷ rx_level ∷ []);
    tx = join_levels (prefix ∷ tx_level ∷ []);
    status = join_levels (prefix ∷ status_level ∷ []);
  })

-- DeviceTopics.TxRoute: the device's own tx topic, in no group.
abbrev pub device_route : DeviceTopics → TxRoute
device_route device = record { topic = device.tx; scope = scope_device; group = [] }

abbrev pub every_device_rx : StationTopics → Bytes
every_device_rx topics = join_levels (topics.station_prefix ∷ any_level ∷ rx_level ∷ [])

abbrev pub every_device_status : StationTopics → Bytes
every_device_status topics = join_levels (topics.station_prefix ∷ any_level ∷ status_level ∷ [])

abbrev pub every_agent_status : StationTopics → Bytes
every_agent_status topics =
    join_levels (topics.station_prefix ∷ agent_level ∷ any_level ∷ status_level ∷ [])
