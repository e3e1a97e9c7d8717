-- ===== src/Config/Accepted.antt =====
-- What the checks accept can be built.
use device_serial_scanner.Common.{
  ◌≤◌, ◌≡◌, ◌≢◌, ◌↔◌, ◌⊎◌, refl, true, false, List, [], ◌∷◌, ◌++◌, Bytes, length, arith, text_eq,
  inl, inr,
}
use device_serial_scanner.Wire.Topics.{
  StationTopics, AgentTopics, new_station_topics, agent_topics, group_level, Checked, TopicError,
  ok, err, is_segment,
}
use device_serial_scanner.Config.{
  Identity, IdentityField, field_project, field_site, field_station, level_problems,
  instance_problems, reserved_problems, validate_identity, max_instance_length, Problem,
}

-- The topics of this identity can be built, and its instance is short enough for a client id.
pub record IsBuildable (identity : Identity) : Type 0 where
  pub topics : StationTopics
  pub station_built : new_station_topics identity.project identity.site identity.station ≡ ok topics
  pub agent : AgentTopics
  pub agent_built : agent_topics topics identity.instance_id ≡ ok agent
  pub short : length identity.instance_id ≤ max_instance_length

Checked-cases {ℓ} :
    {A : Type ℓ} (c : Checked A) → ((a : A) × (c ≡ ok a)) ⊎ ((e : TopicError) × (c ≡ err e))
Checked-cases (ok a) = inl (a, refl)
Checked-cases (err e) = inr (e, refl)

-- What a valid identity is.
record IsValid (identity : Identity) : Type 0 where
  project_is : is_segment identity.project ≡ true
  site_is : is_segment identity.site ≡ true
  station_is : is_segment identity.station ≡ true
  not_reserved : text_eq identity.station group_level ≡ false
  instance_is : is_segment identity.instance_id ≡ true
  short : length identity.instance_id ≤ max_instance_length

none-append : (xs ys : List Problem) → (xs ++ ys ≡ []) ↔ ((xs ≡ []) × (ys ≡ []))
none-append [] ys = ground arith
none-append (x ∷ xs) ys = ground arith

level_problems_iff :
    (field : IdentityField) (level : Bytes)
    → (level_problems field level ≡ []) ↔ (is_segment level ≡ true)
unfolding level_problems is_segment
level_problems_iff field [] = ground arith
level_problems_iff field (b ∷ bs) = unfold level_problems in ground arith

instance_problems_iff :
    (level : Bytes)
    → level ≢ []
    → (instance_problems level ≡ [])
      ↔ ((is_segment level ≡ true) × (length level ≤ max_instance_length))
unfolding instance_problems
instance_problems_iff [] h = absurd (h refl)
instance_problems_iff (b ∷ bs) h = ground arith

reserved_problems_iff :
    (station : Bytes) → (reserved_problems station ≡ []) ↔ (text_eq station group_level ≡ false)
reserved_problems_iff station = ground arith

validate_identity-IsValid :
    (identity : Identity)
    → identity.instance_id ≢ []
    → (validate_identity identity ≡ []) ↔ IsValid identity
unfolding validate_identity
validate_identity-IsValid identity h =
    let p = level_problems field_project identity.project in
    let s = level_problems field_site identity.site in
    let t = level_problems field_station identity.station in
    let r = reserved_problems identity.station in
    let i = instance_problems identity.instance_id in
    ground (
      arith,
      none-append (((p ++ s) ++ t) ++ r) i,
      none-append ((p ++ s) ++ t) r,
      none-append (p ++ s) t,
      none-append p s,
      none-append p (s ++ (t ++ (r ++ i))),
      none-append s (t ++ (r ++ i)),
      none-append t (r ++ i),
      none-append r i,
      level_problems_iff field_project identity.project,
      level_problems_iff field_site identity.site,
      level_problems_iff field_station identity.station,
      reserved_problems_iff identity.station,
      instance_problems_iff identity.instance_id h,
    )

station-built :
    (identity : Identity)
    → IsValid identity
    → (topics : StationTopics) × (new_station_topics identity.project identity.site identity.station
        ≡ ok topics)
unfolding new_station_topics
station-built identity v =
    elim (Checked-cases (new_station_topics identity.project identity.site identity.station)) [
      | inl built ↦ built
      | inr (e, refused) ↦
          absurd (ground (arith, v.project_is, v.site_is, v.station_is, v.not_reserved))
    ]

agent-built :
    (identity : Identity) (topics : StationTopics)
    → IsValid identity
    → (agent : AgentTopics) × (agent_topics topics identity.instance_id ≡ ok agent)
unfolding agent_topics
agent-built identity topics v = elim (Checked-cases (agent_topics topics identity.instance_id)) [
  | inl built ↦ built
  | inr (e, refused) ↦ absurd (ground (arith, v.instance_is))
]

built-IsValid : (identity : Identity) → IsBuildable identity → IsValid identity
unfolding new_station_topics agent_topics
built-IsValid identity b = ground (arith, b.station_built, b.agent_built, b.short)

-- An identity with an instance passes validation exactly when the agent can build its topics from
-- it, and the instance is at most 64 bytes long: the configuration and internal/wire enforce the
-- same rule.
pub validate_identity_iff :
    (identity : Identity)
    → identity.instance_id ≢ []
    → (validate_identity identity ≡ []) ↔ IsBuildable identity
validate_identity_iff identity h =
    let (valid, back) = validate_identity-IsValid identity h in
    (
      λ none_found.
          let v = valid none_found in
          let (topics, station_built) = station-built identity v in
          let (agent, agent_built) = agent-built identity topics v in
          record {
            topics = topics;
            station_built = station_built;
            agent = agent;
            agent_built = agent_built;
            short = v.short;
          },
      λ b. back (built-IsValid identity b),
    )
