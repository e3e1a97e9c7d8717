-- ===== src/Core/Pipeline/Presence.antt =====
-- What a pipeline knows of its port from the events of the reader's session.
use device_serial_scanner.Common.{
  ◌≡◌, refl, ◌∙◌, Bool, true, false, Option, none, some, List, [], ◌∷◌, ◌++◌, All, arith, ℕ,
}
use device_serial_scanner.Device.{
  Event, port_opened, port_closed, port_lost, port_open_failed, error_text,
}
use device_serial_scanner.Serial.Classify.{Failure, classify}
use device_serial_scanner.Serial.Session.{
  Turn, Options, Ending, cancelled, broken_by, session, read_session, closing, port_event,
  failure_event,
}
use device_serial_scanner.Serial.Session.Trace.{
  IsQuiet, quiet_read, quiet_discard, read_loop-IsQuiet, read_session-rule,
}
use device_serial_scanner.Core.Pipeline.{Pipeline, count_kind, known_class, report}
use device_serial_scanner.Core.Pipeline.Tally.{report_all}

-- Two pipelines know the same of the port.
record SamePort (a b : Pipeline) : Type 0 where
  is_open : b.is_open ≡ a.is_open
  failure_class : b.failure_class ≡ a.failure_class
  failure : b.failure ≡ a.failure

report-port :
    (e : Event) (line : Pipeline)
    → SamePort
        (count_kind e.kind (record e { error_class = known_class e.error_class }) line)
        (report e line).0
unfolding report
report-port e line = ground arith

quiet-port : (e : Event) (line : Pipeline) → IsQuiet e → SamePort line (report e line).0
unfolding count_kind
quiet-port e line (quiet_read _ q) = ground (arith, report-port e line)
quiet-port e line (quiet_discard _ q) = ground (arith, report-port e line)

quiet_events-port :
    (es : List Event) (line : Pipeline) → All IsQuiet es → SamePort line (report_all es line)
unfolding report_all
quiet_events-port [] line h = record { is_open = refl; failure_class = refl; failure = refl }
quiet_events-port (e ∷ es) line h =
    let a = quiet-port e line h.0 in
    let b = quiet_events-port es (report e line).0 h.1 in
    record {
      is_open = b.is_open ∙ a.is_open;
      failure_class = b.failure_class ∙ a.failure_class;
      failure = b.failure ∙ a.failure;
    }

report_all-append :
    (es fs : List Event) (line : Pipeline)
    → report_all (es ++ fs) line ≡ report_all fs (report_all es line)
unfolding report_all
report_all-append [] fs line = refl
report_all-append (e ∷ es) fs line = report_all-append es fs (report e line).0

-- The classes that classify gives are among those that the wire defines.
classify-known : (f : Failure) → known_class (classify f) ≡ classify f
unfolding classify known_class
classify-known f = ground arith

-- What the pipeline knows after a session that ended so, or has not ended.
pub record Knows (ending : Option Ending) (stopping : Bool) (line : Pipeline) : Type 0 where
  pub while_it_lasts : ending ≡ none → line.is_open ≡ true
  pub once_ended : (e : Ending) → ending ≡ some e → line.is_open ≡ false
  pub once_lost :
      (f : Failure)
      → ending ≡ some (broken_by f)
      → stopping ≡ false
      → (line.failure_class ≡ classify f) × (line.failure ≡ f.text)

lost-port :
    (opts : Options) (end : ℕ) (f : Failure) (line : Pipeline)
    → (let after = (report (failure_event opts port_lost end f) line).0 in
        (after.is_open ≡ false) × (after.failure_class ≡ classify f) × (after.failure ≡ f.text))
unfolding count_kind error_text
lost-port opts end f line =
    ground (arith, report-port (failure_event opts port_lost end f) line, classify-known f)

closed-port :
    (opts : Options) (end : ℕ) (line : Pipeline)
    → (report (port_event opts port_closed end) line).0.is_open ≡ false
unfolding count_kind
closed-port opts end line = ground (arith, report-port (port_event opts port_closed end) line)

opened-port :
    (opts : Options) (at : ℕ) (line : Pipeline)
    → (report (port_event opts port_opened at) line).0.is_open ≡ true
unfolding count_kind
opened-port opts at line = ground (arith, report-port (port_event opts port_opened at) line)

closing-Knows :
    (opts : Options) (stopping : Bool) (end : ℕ) (ending : Option Ending) (line : Pipeline)
    → line.is_open ≡ true
    → Knows ending stopping (report_all (closing opts stopping end ending) line)
unfolding closing report_all
closing-Knows opts stopping end none line h = record {
  while_it_lasts = λ _. h;
  once_ended = λ e q. ground arith;
  once_lost = λ f q r. ground arith;
}
closing-Knows opts stopping end (some cancelled) line h = record {
  while_it_lasts = λ q. ground arith;
  once_ended = λ e q. closed-port opts end line;
  once_lost = λ f q r. ground arith;
}
closing-Knows opts true end (some (broken_by f)) line h = record {
  while_it_lasts = λ q. ground arith;
  once_ended = λ e q. closed-port opts end line;
  once_lost = λ f q r. ground arith;
}
closing-Knows opts false end (some (broken_by f)) line h = record {
  while_it_lasts = λ q. ground arith;
  once_ended = λ e q. (lost-port opts end f line).0;
  once_lost = λ g q r. ground (arith, lost-port opts end f line);
}

open_failed-port :
    (opts : Options) (at : ℕ) (f : Failure) (line : Pipeline)
    → (let after = (report (failure_event opts port_open_failed at f) line).0 in
        (after.is_open ≡ false) × (after.failure_class ≡ classify f) × (after.failure ≡ f.text))
unfolding count_kind error_text
open_failed-port opts at f line =
    ground (arith, report-port (failure_event opts port_open_failed at f) line, classify-known f)

-- Once the events of a session have been reported, whatever the port did in it and whatever the
-- pipeline knew before: after an open that failed, the pipeline has the port for closed, with the
-- class and the message of that failure as the last one; while a session reads, it has the port for
-- open; once it has ended, for closed; and if it ended in a failure of an agent that is not
-- stopping, the last failure has that failure's class and message.
pub session-Knows :
    (opts : Options) (failure : Option Failure) (at : ℕ) (unset : Option Failure)
    (turns : List Turn) (stopping : Bool) (end : ℕ) (line : Pipeline)
    → (let s = session opts failure at unset turns stopping end in
        let after = report_all s.events line in
        ((f : Failure)
          → failure ≡ some f
          → (after.is_open ≡ false) × (after.failure_class ≡ classify f) × (after.failure ≡ f.text))
        × (failure ≡ none → Knows s.ending stopping after))
unfolding session report_all
session-Knows opts (some f) at unset turns stopping end line =
    (λ g q. ground (arith, open_failed-port opts at f line), λ q. ground arith)
session-Knows opts none at unset turns stopping end line =
    let opened = (report (port_event opts port_opened at) line).0 in
    let s = read_session opts unset turns in
    let quiet : All IsQuiet s.events =
      read_session-rule opts (λ s. All IsQuiet s.events) (λ e. tt) turns
        (λ f e. read_loop-IsQuiet opts turns f false) unset in
    let is_open : (report_all s.events opened).is_open ≡ true =
      (quiet_events-port s.events opened quiet).is_open ∙ opened-port opts at line in
    (
      λ g q. ground arith,
      λ q.
          rw (report_all-append s.events (closing opts stopping end s.ending) opened)
            (closing-Knows opts stopping end s.ending (report_all s.events opened) is_open),
    )
