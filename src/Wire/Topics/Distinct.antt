-- ===== src/Wire/Topics/Distinct.antt =====
-- Which topics an agent builds: their levels, and that no two of them meet.
use device_serial_scanner.Common.{
  ◌≡◌, ◌≢◌, sym, ◌∙◌, ap, true, List, [], ◌∷◌, Bytes, text_eq_iff, All, arith,
}
use device_serial_scanner.Wire.Topics.{
  is_segment, join_levels, root_level, agent_level, group_level, rx_level, tx_level, status_level,
  TxScope, scope_device, scope_site, scope_station, scope_project, StationTopics, Checked, ok,
  ◌>>=◌, new_station_topics, group_tx, agent_topics, device_topics,
}
use device_serial_scanner.Wire.Topics.Levels.{
  split_levels, IsLevel, IsLevel-segment, split-join, join-join,
}

-- The station that a set of topics was built for, with the rules that its levels follow.
pub record IsStation (p s t : Bytes) (topics : StationTopics) : Type 0 where
  pub project_rule : is_segment p ≡ true
  pub site_rule : is_segment s ≡ true
  pub station_rule : is_segment t ≡ true
  pub not_group : t ≢ group_level
  pub project_is : topics.project_prefix ≡ join_levels (root_level ∷ p ∷ [])
  pub site_is : topics.site_prefix ≡ join_levels (root_level ∷ p ∷ s ∷ [])
  pub station_is : topics.station_prefix ≡ join_levels (root_level ∷ p ∷ s ∷ t ∷ [])

-- What NewStationTopics accepts, and the prefixes that it builds.
pub new_station_topics-IsStation :
    (p s t : Bytes) {topics : StationTopics}
    → new_station_topics p s t ≡ ok topics
    → IsStation p s t topics
unfolding new_station_topics
new_station_topics-IsStation p s t h = ground (
  arith,
  text_eq_iff t group_level,
  join-join root_level (p ∷ []) s [],
  join-join root_level (p ∷ s ∷ []) t [],
)

-- Every topic that the agent of a station uses: a device's three, the agent's own, and the tx
-- topic of a broadcast group.
pub data Kind : Type 0 where
  device_rx device_tx device_status agent_status : Bytes → Kind
  group_tx_topic : TxScope → Bytes → Kind

unfoldable pub topic_of : StationTopics → Kind → Checked Bytes
unfolding device_topics agent_topics group_tx
topic_of topics (device_rx id) = device_topics topics id >>= λ d. ok d.rx
topic_of topics (device_tx id) = device_topics topics id >>= λ d. ok d.tx
topic_of topics (device_status id) = device_topics topics id >>= λ d. ok d.status
topic_of topics (agent_status instance_id) = agent_topics topics instance_id >>= λ a. ok a.status
topic_of topics (group_tx_topic scope group) = group_tx topics scope group >>= λ r. ok r.topic

-- The levels of each.
abbrev pub levels_of : Bytes → Bytes → Bytes → Kind → List Bytes
levels_of p s t (device_rx id) = p ∷ s ∷ t ∷ id ∷ rx_level ∷ []
levels_of p s t (device_tx id) = p ∷ s ∷ t ∷ id ∷ tx_level ∷ []
levels_of p s t (device_status id) = p ∷ s ∷ t ∷ id ∷ status_level ∷ []
levels_of p s t (agent_status i) = p ∷ s ∷ t ∷ agent_level ∷ i ∷ status_level ∷ []
levels_of p s t (group_tx_topic scope_project g) = p ∷ group_level ∷ g ∷ tx_level ∷ []
levels_of p s t (group_tx_topic scope_site g) = p ∷ s ∷ group_level ∷ g ∷ tx_level ∷ []
levels_of p s t (group_tx_topic scope_station g) = p ∷ s ∷ t ∷ group_level ∷ g ∷ tx_level ∷ []
levels_of p s t (group_tx_topic scope_device g) = []

-- The name in a topic that is not a level of the station.
abbrev name_of : Kind → Bytes
name_of (device_rx id) = id
name_of (device_tx id) = id
name_of (device_status id) = id
name_of (agent_status i) = i
name_of (group_tx_topic scope g) = g

module _ {p s t : Bytes} {topics : StationTopics} (st : IsStation p s t topics) where
  name-segment :
      (k : Kind) {topic : Bytes} → topic_of topics k ≡ ok topic → is_segment (name_of k) ≡ true
  unfolding topic_of
  name-segment _ h = ground arith

  topic_of-levels :
      (k : Kind) {topic : Bytes}
      → topic_of topics k ≡ ok topic
      → topic ≡ join_levels (root_level ∷ levels_of p s t k)
  unfolding topic_of
  topic_of-levels (device_rx id) h = ground (
    arith,
    join-join root_level (p ∷ s ∷ t ∷ []) id [],
    join-join root_level (p ∷ s ∷ t ∷ id ∷ []) rx_level [],
  )
  topic_of-levels (device_tx id) h = ground (
    arith,
    join-join root_level (p ∷ s ∷ t ∷ []) id [],
    join-join root_level (p ∷ s ∷ t ∷ id ∷ []) tx_level [],
  )
  topic_of-levels (device_status id) h = ground (
    arith,
    join-join root_level (p ∷ s ∷ t ∷ []) id [],
    join-join root_level (p ∷ s ∷ t ∷ id ∷ []) status_level [],
  )
  topic_of-levels (agent_status i) h =
      ground (arith, join-join root_level (p ∷ s ∷ t ∷ []) agent_level (i ∷ status_level ∷ []))
  topic_of-levels (group_tx_topic scope_project g) h =
      ground (arith, join-join root_level (p ∷ []) group_level (g ∷ tx_level ∷ []))
  topic_of-levels (group_tx_topic scope_site g) h =
      ground (arith, join-join root_level (p ∷ s ∷ []) group_level (g ∷ tx_level ∷ []))
  topic_of-levels (group_tx_topic scope_station g) h =
      ground (arith, join-join root_level (p ∷ s ∷ t ∷ []) group_level (g ∷ tx_level ∷ []))
  topic_of-levels (group_tx_topic scope_device g) h = ground arith

  levels_of-IsLevel :
      (k : Kind) → is_segment (name_of k) ≡ true → All IsLevel (root_level ∷ levels_of p s t k)
  levels_of-IsLevel (device_rx id) h =
      ground (arith, IsLevel-segment p, IsLevel-segment s, IsLevel-segment t, IsLevel-segment id)
  levels_of-IsLevel (device_tx id) h =
      ground (arith, IsLevel-segment p, IsLevel-segment s, IsLevel-segment t, IsLevel-segment id)
  levels_of-IsLevel (device_status id) h =
      ground (arith, IsLevel-segment p, IsLevel-segment s, IsLevel-segment t, IsLevel-segment id)
  levels_of-IsLevel (agent_status i) h =
      ground (arith, IsLevel-segment p, IsLevel-segment s, IsLevel-segment t, IsLevel-segment i)
  levels_of-IsLevel (group_tx_topic scope_project g) h =
      ground (arith, IsLevel-segment p, IsLevel-segment s, IsLevel-segment t, IsLevel-segment g)
  levels_of-IsLevel (group_tx_topic scope_site g) h =
      ground (arith, IsLevel-segment p, IsLevel-segment s, IsLevel-segment t, IsLevel-segment g)
  levels_of-IsLevel (group_tx_topic scope_station g) h =
      ground (arith, IsLevel-segment p, IsLevel-segment s, IsLevel-segment t, IsLevel-segment g)
  levels_of-IsLevel (group_tx_topic scope_device g) h =
      ground (arith, IsLevel-segment p, IsLevel-segment s, IsLevel-segment t, IsLevel-segment g)

  levels_of-ne-nil :
      (k : Kind) {topic : Bytes} → topic_of topics k ≡ ok topic → levels_of p s t k ≢ []
  unfolding topic_of
  levels_of-ne-nil (device_rx id) h = ground arith
  levels_of-ne-nil (group_tx_topic scope_project g) h = ground arith
  levels_of-ne-nil (group_tx_topic scope_device g) h = ground arith
  levels_of-ne-nil _ h = ground arith

  -- A topic that was built is read back into its levels.
  pub split-topic_of :
      (k : Kind) {topic : Bytes}
      → topic_of topics k ≡ ok topic
      → split_levels topic ≡ root_level ∷ levels_of p s t k
  split-topic_of k h =
      ap split_levels (topic_of-levels k h)
      ∙ split-join root_level (levels_of p s t k) (levels_of-IsLevel k (name-segment k h))

-- What a topic says of the station that it was built for.
abbrev pub SameStation : Kind → Bytes → Bytes → Bytes → Bytes → Bytes → Bytes → Type 0
SameStation (group_tx_topic scope_project g) p s t p' s' t' = p ≡ p'
SameStation (group_tx_topic scope_site g) p s t p' s' t' = (p ≡ p') × (s ≡ s')
SameStation k p s t p' s' t' = (p ≡ p') × (s ≡ s') × (t ≡ t')

-- The levels tell the kinds apart, for stations that are not named "group".
levels_of-injective :
    (p s t p' s' t' : Bytes) (j k : Kind)
    → t ≢ group_level
    → t' ≢ group_level
    → levels_of p s t j ≢ []
    → levels_of p s t j ≡ levels_of p' s' t' k
    → (j ≡ k) × SameStation j p s t p' s' t'
levels_of-injective p s t p' s' t' (device_rx id) k m n z e = ground arith
levels_of-injective p s t p' s' t' (device_tx id) k m n z e = ground arith
levels_of-injective p s t p' s' t' (device_status id) k m n z e = ground arith
levels_of-injective p s t p' s' t' (agent_status i) k m n z e = ground arith
levels_of-injective p s t p' s' t' (group_tx_topic scope_project g) k m n z e = ground arith
levels_of-injective p s t p' s' t' (group_tx_topic scope_site g) k m n z e = ground arith
levels_of-injective p s t p' s' t' (group_tx_topic scope_station g) k m n z e = ground arith
levels_of-injective p s t p' s' t' (group_tx_topic scope_device g) k m n z e = ground arith

-- Two topics, built by the agents of any two stations on one broker, are the same only if they are
-- of the same kind and name the same device, instance or group, and the stations agree in every
-- level of the topic's scope: the project for a project's group, the project and the site for a
-- site's, and all three for every other topic. So no tx, reading or status message of one device
-- is taken for another's, and no group's tx for a device's.
pub topic_of-injective :
    (p s t p' s' t' : Bytes) (a b : StationTopics) (j k : Kind) {topic : Bytes}
    → new_station_topics p s t ≡ ok a
    → new_station_topics p' s' t' ≡ ok b
    → topic_of a j ≡ ok topic
    → topic_of b k ≡ ok topic
    → (j ≡ k) × SameStation j p s t p' s' t'
topic_of-injective p s t p' s' t' a b j k g h x y =
    let sa = new_station_topics-IsStation p s t g in
    let sb = new_station_topics-IsStation p' s' t' h in
    levels_of-injective p s t p' s' t' j k sa.not_group sb.not_group (levels_of-ne-nil sa j x)
      (cc (sym (split-topic_of sa j x) ∙ split-topic_of sb k y))
