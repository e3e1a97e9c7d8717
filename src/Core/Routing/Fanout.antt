-- ===== src/Core/Routing/Fanout.antt =====
-- Which devices a tx reaches: each one that has a route of its topic, once.
use device_serial_scanner.Common.{
  ℕ, zero, suc, ◌≡◌, refl, sym, ap, ◌∙◌, inl, inr, Bool, none, some, List, [], ◌∷◌, ◌++◌, map,
  append_assoc, append-nil, Bytes, lookup, lookup-put, text_eq, text_eq_iff, All, if◌then◌else◌,
  length, length-append, arith, Option-cases, Bool-cases,
}
use device_serial_scanner.Wire.Topics.{TxRoute}
use device_serial_scanner.Wire.ReadTx.{Codec}
use device_serial_scanner.Core.WrittenIds.Memory.{contains, IsDistinct}
use device_serial_scanner.Core.Pipeline.{Pipeline}
use device_serial_scanner.Core.Tx.{TxMessage, admit_tx_to}
use device_serial_scanner.Core.Routing.{
  Table, add_route, add_routes, add_devices, by_tx_topic, admit_at, admit_lines, admit_tx,
}

abbrev pub topics_of : List TxRoute → List Bytes
topics_of routes = map (λ route. route.topic) routes

-- The lines of a topic in the table; none for a topic that is not there.
lines_at : Bytes → Table → List ℕ
lines_at topic table = elim (lookup topic table) [ none ↦ [] | some target ↦ target.lines ]

-- The indexes of the devices that have a route of the topic.
abbrev members : Bytes → ℕ → List (List TxRoute) → List ℕ
members topic index [] = []
members topic index (routes ∷ devices) =
    let rest = members topic (suc index) devices in
    if contains (topics_of routes) topic then index ∷ rest else rest

lines_at-add_route :
    (topic : Bytes) (index : ℕ) (route : TxRoute) (table : Table)
    → lines_at topic (add_route index route table) ≡ (
        if text_eq route.topic topic
        then lines_at topic table ++ index ∷ []
        else lines_at topic table)
unfolding add_route lines_at
lines_at-add_route topic index route table = elim (Option-cases (lookup route.topic table)) [
  | inl e ↦ ground (
    arith,
    lookup-put route.topic topic (record { route = route; lines = index ∷ [] }) table,
    text_eq_iff route.topic topic,
  )
  | inr (t, e) ↦ ground (
    arith,
    lookup-put route.topic topic (record { route = t.route; lines = t.lines ++ index ∷ [] }) table,
    text_eq_iff route.topic topic,
  )
]

lines_at-add_routes :
    (topic : Bytes) (index : ℕ) (routes : List TxRoute) (table : Table)
    → IsDistinct (topics_of routes)
    → lines_at topic (add_routes index routes table) ≡ (
        if contains (topics_of routes) topic
        then lines_at topic table ++ index ∷ []
        else lines_at topic table)
unfolding add_routes contains
lines_at-add_routes topic index [] table d = refl
lines_at-add_routes topic index (route ∷ routes) table d = ground (
  arith,
  lines_at-add_routes topic index routes (add_route index route table) d.1,
  lines_at-add_route topic index route table,
  text_eq_iff route.topic topic,
  d.0,
)

lines_at-add_devices :
    (topic : Bytes) (index : ℕ) (devices : List (List TxRoute)) (table : Table)
    → All (λ routes. IsDistinct (topics_of routes)) devices
    → lines_at topic (add_devices index devices table)
      ≡ lines_at topic table ++ members topic index devices
unfolding add_devices
lines_at-add_devices topic index [] table d = sym (append-nil (lines_at topic table))
lines_at-add_devices topic index (routes ∷ devices) table d =
    lines_at-add_devices topic (suc index) devices (add_routes index routes table) d.1
    ∙ elim (Bool-cases (contains (topics_of routes) topic)) [
      | inl e ↦
          rw (lines_at-add_routes topic index routes table d.0, e)
            (append_assoc (lines_at topic table) (index ∷ []) (members topic (suc index) devices))
      | inr e ↦ rw (lines_at-add_routes topic index routes table d.0, e) refl
    ]

-- Every pipeline of a device that has a route of the message's topic takes the message, once.
unfoldable pub admit_each :
    Codec
    → (ℕ → ℕ)
    → (ℕ → Bool)
    → TxMessage
    → ℕ
    → List (List TxRoute)
    → List Pipeline
    → List Pipeline
unfolding admit_tx_to
admit_each codec now stopping message index [] lines = lines
admit_each codec now stopping message index (routes ∷ devices) [] = []
admit_each codec now stopping message index (routes ∷ devices) (line ∷ lines) =
    let rest = admit_each codec now stopping message (suc index) devices lines in
    (if contains (topics_of routes) message.topic
      then admit_tx_to codec (now index) (stopping index) message line
      else line)
    ∷ rest

module _ (codec : Codec) (now : ℕ → ℕ) (stopping : ℕ → Bool) (message : TxMessage) where
  admit_at-append :
      (id k : ℕ) (before lines : List Pipeline) (line : Pipeline)
      → length before ≡ k
      → admit_at codec now stopping message id k (before ++ line ∷ lines)
        ≡ before ++ admit_tx_to codec (now id) (stopping id) message line ∷ lines
  unfolding admit_at
  admit_at-append id zero [] lines line e = refl
  admit_at-append id (suc k) [] lines line e = absurd (omega arith)
  admit_at-append id zero (b ∷ before) lines line e = absurd (omega arith)
  admit_at-append id (suc k) (b ∷ before) lines line e =
      ap (◌∷◌ b) (admit_at-append id k before lines line (omega arith))

  admit_lines-members :
      (devices : List (List TxRoute)) (k : ℕ) (before lines : List Pipeline)
      → length before ≡ k
      → length devices ≡ length lines
      → admit_lines codec now stopping message (members message.topic k devices) (before ++ lines)
        ≡ before ++ admit_each codec now stopping message k devices lines
  unfolding admit_lines admit_each
  admit_lines-members [] k before lines n e = refl
  admit_lines-members (routes ∷ devices) k before [] n e = absurd (omega arith)
  admit_lines-members (routes ∷ devices) k before (line ∷ lines) n e =
      let taken = admit_tx_to codec (now k) (stopping k) message line in
      let on : (x : Pipeline)
          → admit_lines codec now stopping message (members message.topic (suc k) devices)
              (before ++ x ∷ lines)
            ≡ before ++ x ∷ admit_each codec now stopping message (suc k) devices lines =
        λ x.
          ap (admit_lines codec now stopping message (members message.topic (suc k) devices))
            (sym (append_assoc before (x ∷ []) lines))
          ∙ admit_lines-members devices (suc k) (before ++ x ∷ []) lines
              (omega (arith, length-append before (x ∷ []))) (omega arith)
          ∙ append_assoc before (x ∷ [])
              (admit_each codec now stopping message (suc k) devices lines) in
      elim (Bool-cases (contains (topics_of routes) message.topic)) [
        | inr c ↦ rw c (on line)
        | inl c ↦ rw c (rw (admit_at-append k k before lines line n, admit_lines) (on taken))
      ]

  admit_tx-lines :
      (table : Table) (lines : List Pipeline)
      → admit_tx codec now stopping table message lines
        ≡ admit_lines codec now stopping message (lines_at message.topic table) lines
  unfolding admit_tx admit_lines lines_at
  admit_tx-lines table lines = elim (Option-cases (lookup message.topic table)) [
    | inl e ↦ rw (e, admit_tx, lines_at) refl
    | inr (target, e) ↦ rw (e, admit_tx, lines_at) refl
  ]

  -- A tx reaches exactly the devices that have a route of its topic, however many share it, and
  -- each of them once: with the table that Run builds from the devices' routes, its fan-out admits
  -- it to every such pipeline and leaves every other as it was. The routes of a device have
  -- different topics.
  pub admit_tx-by_tx_topic :
      (devices : List (List TxRoute)) (lines : List Pipeline)
      → All (λ routes. IsDistinct (topics_of routes)) devices
      → length devices ≡ length lines
      → admit_tx codec now stopping (by_tx_topic devices) message lines
        ≡ admit_each codec now stopping message 0 devices lines
  unfolding by_tx_topic lines_at lookup
  admit_tx-by_tx_topic devices lines d e =
      admit_tx-lines (by_tx_topic devices) lines
      ∙ ap (λ ks. admit_lines codec now stopping message ks lines)
          (lines_at-add_devices message.topic 0 devices [] d)
      ∙ admit_lines-members devices 0 [] lines refl e
