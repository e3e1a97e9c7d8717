-- ===== src/Agent/Routes.antt =====
-- The tx topics of the devices that are built from an accepted configuration: buildDevices of
-- cmd/skuhus-device-agent/run.go, with the fan-out of internal/core.
use mathlib.Core.Path.{subst}
use device_serial_scanner.Common.{
  ℕ, suc, ◌≡◌, ◌≢◌, refl, sym, ap, ◌∙◌, inl, inr, ◌⊎◌, false, none, List, [], ◌∷◌, ◌++◌, map, All,
  All-append, append_none, Bytes, Assoc, text_eq, text_eq_iff, lookup, put, lookup-put, arith,
  Option-cases, Bool-cases,
}
use device_serial_scanner.Wire.Topics.{
  StationTopics, TxRoute, TxScope, scope_project, scope_site, scope_station, ok, err, Checked,
  TopicError, new_station_topics, group_tx, is_segment,
}
use device_serial_scanner.Wire.Topics.Distinct.{
  Kind, device_tx, group_tx_topic, topic_of, topic_of-injective,
}
use device_serial_scanner.Config.{BroadcastGroups, scope_problems, validate_broadcast_groups}
use device_serial_scanner.Core.WrittenIds.Memory.{contains, IsDistinct}
use device_serial_scanner.Core.Routing.Fanout.{topics_of}
use device_serial_scanner.Agent.{scope_routes, broadcast_group_routes}

-- The topics that were built for these kinds, one for each.
abbrev pub IsBuilt : StationTopics → List Kind → List Bytes → Type 0
IsBuilt station [] [] = Unit
IsBuilt station [] (t ∷ ts) = ⊥
IsBuilt station (k ∷ ks) [] = ⊥
IsBuilt station (k ∷ ks) (t ∷ ts) = (topic_of station k ≡ ok t) × IsBuilt station ks ts

-- No kind stands twice.
abbrev pub AllDiffer : List Kind → Type 0
AllDiffer [] = Unit
AllDiffer (k ∷ ks) = All (λ j. k ≢ j) ks × AllDiffer ks

IsBuilt-append :
    (station : StationTopics) (js ks : List Kind) (ts us : List Bytes)
    → IsBuilt station js ts
    → IsBuilt station ks us
    → IsBuilt station (js ++ ks) (ts ++ us)
IsBuilt-append station [] ks [] us b c = c
IsBuilt-append station [] ks (t ∷ ts) us b c = absurd b
IsBuilt-append station (j ∷ js) ks [] us b c = absurd b
IsBuilt-append station (j ∷ js) ks (t ∷ ts) us b c = (b.0, IsBuilt-append station js ks ts us b.1 c)

AllDiffer-append :
    (js ks : List Kind)
    → AllDiffer js
    → AllDiffer ks
    → All (λ j. All (λ k. j ≢ k) ks) js
    → AllDiffer (js ++ ks)
AllDiffer-append [] ks a b c = b
AllDiffer-append (j ∷ js) ks a b c =
    (All-append (λ i. j ≢ i) js ks a.0 c.0, AllDiffer-append js ks a.1 b c.1)

-- Topics of different kinds differ.
built-unlike :
    (p s t : Bytes) (station : StationTopics) (k : Kind) (ks : List Kind) (topic : Bytes)
    (topics : List Bytes)
    → new_station_topics p s t ≡ ok station
    → topic_of station k ≡ ok topic
    → All (λ j. k ≢ j) ks
    → IsBuilt station ks topics
    → contains topics topic ≡ false
unfolding contains
built-unlike p s t station k [] topic [] g e d b = refl
built-unlike p s t station k [] topic (u ∷ us) g e d b = absurd b
built-unlike p s t station k (j ∷ js) topic [] g e d b = absurd b
built-unlike p s t station k (j ∷ js) topic (u ∷ us) g e d b = elim (Bool-cases (text_eq u topic)) [
  | inl same ↦ absurd (
      d.0
        (topic_of-injective p s t p s t station station k j g g e
          (b.0 ∙ ap ok ((text_eq_iff u topic).0 same))).0)
  | inr other ↦ rw other (built-unlike p s t station k js topic us g e d.1 b.1)
]

pub built-IsDistinct :
    (p s t : Bytes) (station : StationTopics) (ks : List Kind) (topics : List Bytes)
    → new_station_topics p s t ≡ ok station
    → AllDiffer ks
    → IsBuilt station ks topics
    → IsDistinct topics
built-IsDistinct p s t station [] [] g d b = tt
built-IsDistinct p s t station [] (u ∷ us) g d b = absurd b
built-IsDistinct p s t station (k ∷ ks) [] g d b = absurd b
built-IsDistinct p s t station (k ∷ ks) (u ∷ us) g d b = (
  built-unlike p s t station k ks u us g b.0 d.0 b.1,
  built-IsDistinct p s t station ks us g d.1 b.1,
)

-- The groups of one scope.
abbrev pub scope_kinds : TxScope → List Bytes → List Kind
scope_kinds scope groups = map (group_tx_topic scope) groups

unlike-seen :
    (scope : TxScope) (group : Bytes) (index : ℕ) (seen : Assoc ℕ) (groups : List Bytes)
    → All (λ g. lookup g (put group index seen) ≡ none) groups
    → All (λ k. group_tx_topic scope group ≢ k) (scope_kinds scope groups)
      × All (λ g. lookup g seen ≡ none) groups
unlike-seen scope group index seen [] h = (tt, tt)
unlike-seen scope group index seen (g ∷ groups) h =
    let (d, l) = unlike-seen scope group index seen groups h.1 in
    let other : text_eq group g ≡ false = ground (arith, lookup-put group g index seen, h.0) in
    (
      ((λ e. absurd (ground (arith, text_eq_iff group g))), d),
      (ground (arith, lookup-put group g index seen, h.0), l),
    )

scope_problems-AllDiffer :
    (scope : TxScope) (index : ℕ) (seen : Assoc ℕ) (groups : List Bytes)
    → scope_problems scope index seen groups ≡ []
    → All (λ g. lookup g seen ≡ none) groups × AllDiffer (scope_kinds scope groups)
unfolding scope_problems
scope_problems-AllDiffer scope index seen [] h = (tt, tt)
scope_problems-AllDiffer scope index seen (group ∷ groups) h =
    elim (Bool-cases (is_segment group)) [
      | inr n ↦ absurd (ground arith)
      | inl n ↦ elim (Option-cases (lookup group seen)) [
        | inr (earlier, e) ↦ absurd (ground arith)
        | inl e ↦
            let (l, d) =
              scope_problems-AllDiffer scope (suc index) (put group index seen) groups
                (ground arith) in
            let (unlike, unseen) = unlike-seen scope group index seen groups l in
            ((e, unseen), (unlike, d))
      ]
    ]

pub Checked-cases :
    {A : Type 0} (c : Checked A) → ((a : A) × (c ≡ ok a)) ⊎ ((e : TopicError) × (c ≡ err e))
Checked-cases (ok a) = inl (a, refl)
Checked-cases (err e) = inr (e, refl)

scope_routes-IsBuilt :
    (station : StationTopics) (scope : TxScope) (groups : List Bytes) (routes : List TxRoute)
    → scope_routes station scope groups ≡ ok routes
    → IsBuilt station (scope_kinds scope groups) (topics_of routes)
unfolding scope_routes topic_of
scope_routes-IsBuilt station scope [] [] h = tt
scope_routes-IsBuilt station scope [] (r ∷ rs) h = absurd (ground arith)
scope_routes-IsBuilt station scope (g ∷ gs) routes h =
    elim (Checked-cases (group_tx station scope g)) [
      | inr (e, n) ↦ absurd (ground arith)
      | inl (r, e) ↦ elim (Checked-cases (scope_routes station scope gs)) [
        | inr (f, n) ↦ absurd (ground arith)
        | inl (rs, f) ↦
            let same : routes ≡ r ∷ rs = ground arith in
            subst (λ x. IsBuilt station (scope_kinds scope (g ∷ gs)) (topics_of x)) (sym same)
              (rw e refl, scope_routes-IsBuilt station scope gs rs f)
      ]
    ]

abbrev pub group_kinds : BroadcastGroups → List Kind
group_kinds groups =
    scope_kinds scope_project groups.in_project
    ++ scope_kinds scope_site groups.in_site
    ++ scope_kinds scope_station groups.in_station

scopes-unlike :
    (a b : TxScope) (groups more : List Bytes)
    → a ≢ b
    → All (λ j. All (λ k. j ≢ k) (scope_kinds b more)) (scope_kinds a groups)
scopes-unlike a b [] more n = tt
scopes-unlike a b (g ∷ groups) more n = (others more, scopes-unlike a b groups more n)
  where
    others : (more : List Bytes) → All (λ k. group_tx_topic a g ≢ k) (scope_kinds b more)
    others [] = tt
    others (m ∷ more) = (λ e. n (ground arith), others more)

pub device-unlike :
    (id : Bytes) (scope : TxScope) (groups : List Bytes)
    → All (λ k. device_tx id ≢ k) (scope_kinds scope groups)
device-unlike id scope [] = tt
device-unlike id scope (g ∷ groups) = (λ e. absurd (ground arith), device-unlike id scope groups)

pub group_kinds-AllDiffer :
    (groups : BroadcastGroups)
    → validate_broadcast_groups groups ≡ []
    → AllDiffer (group_kinds groups)
unfolding validate_broadcast_groups
group_kinds-AllDiffer groups h =
    let p = scope_problems scope_project 0 [] groups.in_project in
    let s = scope_problems scope_site 0 [] groups.in_site in
    let t = scope_problems scope_station 0 [] groups.in_station in
    let (ps, t_none) = append_none (p ++ s) t h in
    let (p_none, s_none) = append_none p s ps in
    let projects = scope_kinds scope_project groups.in_project in
    let sites = scope_kinds scope_site groups.in_site in
    let stations = scope_kinds scope_station groups.in_station in
    AllDiffer-append (projects ++ sites) stations
      (AllDiffer-append projects sites
        (scope_problems-AllDiffer scope_project 0 [] groups.in_project p_none).1
        (scope_problems-AllDiffer scope_site 0 [] groups.in_site s_none).1
        (scopes-unlike scope_project scope_site groups.in_project groups.in_site
          (λ e. absurd (ground arith))))
      (scope_problems-AllDiffer scope_station 0 [] groups.in_station t_none).1
      (All-append (λ j. All (λ k. j ≢ k) stations) projects sites
        (scopes-unlike scope_project scope_station groups.in_project groups.in_station
          (λ e. absurd (ground arith)))
        (scopes-unlike scope_site scope_station groups.in_site groups.in_station
          (λ e. absurd (ground arith))))

topics_of-append : (rs qs : List TxRoute) → topics_of (rs ++ qs) ≡ topics_of rs ++ topics_of qs
topics_of-append [] qs = refl
topics_of-append (r ∷ rs) qs = ap (◌∷◌ r.topic) (topics_of-append rs qs)

pub group_routes-IsBuilt :
    (station : StationTopics) (groups : BroadcastGroups) (routes : List TxRoute)
    → broadcast_group_routes station groups ≡ ok routes
    → IsBuilt station (group_kinds groups) (topics_of routes)
unfolding broadcast_group_routes
group_routes-IsBuilt station groups routes h =
    elim (Checked-cases (scope_routes station scope_project groups.in_project)) [
      | inr (e, n) ↦ absurd (ground arith)
      | inl (ps, p) ↦ elim (Checked-cases (scope_routes station scope_site groups.in_site)) [
        | inr (e, n) ↦ absurd (ground arith)
        | inl (ss, s) ↦
            elim (Checked-cases (scope_routes station scope_station groups.in_station)) [
              | inr (e, n) ↦ absurd (ground arith)
              | inl (ts, t) ↦
                  let projects = scope_kinds scope_project groups.in_project in
                  let sites = scope_kinds scope_site groups.in_site in
                  let stations = scope_kinds scope_station groups.in_station in
                  let same : routes ≡ ps ++ ss ++ ts = ground arith in
                  let topics =
                    ap topics_of same
                    ∙ topics_of-append (ps ++ ss) ts
                    ∙ ap (λ xs. xs ++ topics_of ts) (topics_of-append ps ss) in
                  subst (IsBuilt station (group_kinds groups)) (sym topics) (
                    IsBuilt-append station (projects ++ sites) stations
                      (topics_of ps ++ topics_of ss) (topics_of ts)
                      (IsBuilt-append station projects sites (topics_of ps) (topics_of ss)
                        (scope_routes-IsBuilt station scope_project groups.in_project ps p)
                        (scope_routes-IsBuilt station scope_site groups.in_site ss s))
                      (scope_routes-IsBuilt station scope_station groups.in_station ts t))
            ]
      ]
    ]
