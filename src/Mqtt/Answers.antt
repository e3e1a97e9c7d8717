-- ===== src/Mqtt/Answers.antt =====
-- The broker's answers to the topic filters of the current connection,
-- internal/transport/mqtt/subscribe.go. Each operation holds the lock, so it is one step; the
-- operations of several connections interleave.
use device_serial_scanner.Common.{
  ℕ, suc, ◌+◌, ◌≤◌, ◌≡◌, refl, sym, ◌∙◌, ap, ap₂, Bool, true, false, ◌&&◌, Option, none, some, List,
  [], ◌∷◌, map, Bytes, Assoc, lookup, put, lookup-put, text_eq, ◌==◌, if◌then◌else◌, arith,
}
use mathlib.Core.Path.{subst}

pub record SubscribeAnswers : Type 0 where
  pub connection : ℕ
  pub by_filter : Assoc ℕ

-- begin. Its result is the connection's number.
unfoldable pub begin : SubscribeAnswers → SubscribeAnswers × ℕ
begin answers =
    (record { connection = answers.connection + 1; by_filter = [] }, answers.connection + 1)

-- record: whether the answer was kept is the second component.
unfoldable pub record_answer : ℕ → Bytes → ℕ → SubscribeAnswers → SubscribeAnswers × Bool
record_answer connection filter code answers =
    if connection == answers.connection
    then (record answers { by_filter = put filter code answers.by_filter }, true)
    else (answers, false)

-- What subscribe makes of a SUBACK: each topic with its answer, as far as the broker answered.
unfoldable pub answered : List Bytes → List ℕ → Assoc ℕ → Assoc ℕ
answered [] reasons kept = kept
answered (topic ∷ topics) [] kept = kept
answered (topic ∷ topics) (code ∷ reasons) kept = answered topics reasons (put topic code kept)

-- subscribe: no SUBACK is a failure to subscribe, whatever the error.
unfoldable pub subscribe : List Bytes → Option (List ℕ) → Assoc ℕ
unfolding answered
subscribe topics none = []
subscribe topics (some reasons) = answered topics reasons []

-- What happens to the answers: a connection comes up, or an answer is recorded under the number
-- of a connection.
pub data Op : Type 0 where
  came_up : Op
  was_answered : ℕ → Bytes → ℕ → Op

-- connectionUp's calls of record, for the connection of this number.
abbrev pub connection_up : ℕ → List Bytes → Option (List ℕ) → List Op
connection_up connection topics suback =
    map (λ answer. was_answered connection answer.0 answer.1) (subscribe topics suback)

unfoldable pub run : List Op → SubscribeAnswers → SubscribeAnswers
unfolding begin record_answer
run [] answers = answers
run (came_up ∷ ops) answers = run ops (begin answers).0
run (was_answered connection filter code ∷ ops) answers =
    run ops (record_answer connection filter code answers).0

-- The number of the connections that come up.
abbrev pub count_up : List Op → ℕ
count_up [] = 0
count_up (came_up ∷ ops) = suc (count_up ops)
count_up (was_answered connection filter code ∷ ops) = count_up ops

abbrev or_else : Option ℕ → Option ℕ → Option ℕ
or_else none other = other
or_else (some code) other = some code

-- The last answer to a filter that was recorded under this number.
abbrev pub last_answer : ℕ → Bytes → List Op → Option ℕ
last_answer n topic [] = none
last_answer n topic (came_up ∷ ops) = last_answer n topic ops
last_answer n topic (was_answered connection filter code ∷ ops) =
    or_else (last_answer n topic ops)
      (if connection == n && text_eq filter topic then some code else none)

-- Answers come under numbers that `begin` has given by then, the first of them `n`.
abbrev pub IsIssued : ℕ → List Op → Type 0
IsIssued n [] = Unit
IsIssued n (came_up ∷ ops) = IsIssued (n + 1) ops
IsIssued n (was_answered connection filter code ∷ ops) =
    (1 ≤ connection) × (connection ≤ n) × IsIssued n ops

or_else-none : (o : Option ℕ) → or_else o none ≡ o
or_else-none none = refl
or_else-none (some code) = refl

-- An answer now, with these to come: a later one counts, then this one if it is for the newest
-- connection, then what was there.
answer-now :
    (later : Option ℕ) (connection here still code : ℕ) (filter topic : Bytes) (kept : Assoc ℕ)
    → connection ≤ here
    → or_else later (
        if still == 0
        then lookup topic
            (record_answer connection filter code
              (record { connection = here; by_filter = kept })).0.by_filter
        else none)
      ≡ or_else
          (or_else later
            (if connection == here + still && text_eq filter topic then some code else none))
          (if still == 0 then lookup topic kept else none)
unfolding record_answer
answer-now none connection here still code filter topic kept h =
    ground (arith, lookup-put filter topic code kept)
answer-now (some c) connection here still code filter topic kept h = refl

record_answer-connection :
    (connection : ℕ) (filter : Bytes) (code : ℕ) (answers : SubscribeAnswers)
    → (record_answer connection filter code answers).0.connection ≡ answers.connection
unfolding record_answer
record_answer-connection connection filter code answers = ground arith

run-from :
    (ops : List Op) (answers : SubscribeAnswers) (topic : Bytes)
    → IsIssued answers.connection ops
    → lookup topic (run ops answers).by_filter
      ≡ or_else
          (last_answer (answers.connection + count_up ops) topic ops)
          (if count_up ops == 0 then lookup topic answers.by_filter else none)
unfolding run lookup
run-from [] answers topic h = refl
run-from (came_up ∷ ops) answers topic h =
    let e : answers.connection + 1 + count_up ops ≡ answers.connection + suc (count_up ops) =
      omega arith in
    run-from ops (begin answers).0 topic h
    ∙ ap₂ or_else (ap (λ n. last_answer n topic ops) e) (ground arith)
run-from (was_answered connection filter code ∷ ops) answers topic h =
    let next = (record_answer connection filter code answers).0 in
    let e : next.connection ≡ answers.connection =
      record_answer-connection connection filter code answers in
    let left = if count_up ops == 0 then lookup topic next.by_filter else none in
    run-from ops next topic (subst (λ n. IsIssued n ops) (sym e) h.2)
    ∙ ap (λ n. or_else (last_answer (n + count_up ops) topic ops) left) e
    ∙ answer-now (last_answer (answers.connection + count_up ops) topic ops) connection
        answers.connection (count_up ops) code filter topic answers.by_filter h.1

-- However the connections' subscriptions interleave, and however late an answer is recorded: what
-- a snapshot says of a topic filter is the last answer to it that was recorded under the number of
-- the newest connection, and nothing if there was none. No answer of an earlier connection shows.
pub run-last_answer :
    (ops : List Op) (topic : Bytes)
    → IsIssued 0 ops
    → lookup topic (run ops (record { connection = 0; by_filter = [] })).by_filter
      ≡ last_answer (count_up ops) topic ops
unfolding lookup
run-last_answer ops topic h =
    let e : 0 + count_up ops ≡ count_up ops = omega arith in
    run-from ops (record { connection = 0; by_filter = [] }) topic h
    ∙ ap₂ or_else (ap (λ n. last_answer n topic ops) e) (ground arith)
    ∙ or_else-none (last_answer (count_up ops) topic ops)
