-- ===== src/Serial/Session.antt =====
-- A session on a device's port, internal/device/serial/serial.go: session, with what it reports
-- and the frames it sends. What the port answers and when the context ends enter as arguments.
pub mod Trace
use device_serial_scanner.Common.{
  ℕ, ◌+◌, Bool, true, false, ◌||◌, Option, none, some, List, [], ◌∷◌, ◌++◌, map, Bytes, codes,
  length, take, ltb, if◌then◌else◌,
}
use device_serial_scanner.Device.{
  EventKind, Event, Frame, port_opened, port_closed, port_lost, port_open_failed, bytes_discarded,
  bytes_read,
}
use device_serial_scanner.Wire.Counters.{ErrorClass, unlisted, unlisted_reason}
use device_serial_scanner.Framer.{
  Framer, Discard, Output, new_framer, built, refused, FramerError, empty_separator,
  max_frame_too_small, append, timeout,
}
use device_serial_scanner.Serial.Classify.{Failure, classify}

-- What port.Read answers; no bytes and no error is the read timeout.
pub data ReadAnswer : Type 0 where
  read_failed : Failure → ReadAnswer
  bytes_in : Bytes → ReadAnswer

-- What one turn of the reading loop meets: whether the context has ended at its check and after a
-- failed read, what the read answers, how many of the frames the sink takes before the context
-- ends (none: all of them), and the time.
pub record Turn : Type 0 where
  pub ended : Bool
  pub answer : ReadAnswer
  pub ended_after : Bool
  pub taken : Option ℕ
  pub at : ℕ

-- How a session ends.
pub data Ending : Type 0 where
  cancelled : Ending
  broken_by : Failure → Ending

-- What a session has done: `ending` is none while it goes on.
pub record Session : Type 0 where
  pub events : List Event
  pub frames : List Frame
  pub worked : Bool
  pub ending : Option Ending

-- The settings of a device that a session reads.
pub record Options : Type 0 where
  pub id : Bytes
  pub path : Bytes
  pub separator : Bytes
  pub max_frame_bytes : ℕ

-- Device.event, with no field of its own filled.
abbrev pub port_event : Options → EventKind → ℕ → Event
port_event opts kind at = record {
  device_id = opts.id;
  kind = kind;
  at = at;
  error_class = unlisted [];
  err = none;
  reason = unlisted_reason [];
  bytes = 0;
}

-- The events that carry a failure.
abbrev pub failure_event : Options → EventKind → ℕ → Failure → Event
failure_event opts kind at f = record (port_event opts kind at) {
  error_class = classify f;
  err = some f.text;
}

-- logDiscard's event.
abbrev pub discard_event : Options → ℕ → Discard → Event
discard_event opts at d = record (port_event opts bytes_discarded at) {
  reason = d.reason;
  bytes = d.bytes;
}

abbrev pub discard_events : Options → ℕ → Option Discard → List Event
discard_events opts at none = []
discard_events opts at (some d) = discard_event opts at d ∷ []

abbrev pub read_event : Options → ℕ → ℕ → Event
read_event opts at n = record (port_event opts bytes_read at) { bytes = n }

-- A failure with the words that fmt.Errorf puts before it.
abbrev pub wrap : Bytes → Options → Failure → Failure
wrap words opts f = record f { text = words ++ opts.path ++ codes ": " ++ f.text }

abbrev stop : Bool → Ending → Session
stop worked ending = record { events = []; frames = []; worked = worked; ending = some ending }

abbrev pub after : List Event → List Frame → Session → Session
after events frames s = record s { events = events ++ s.events; frames = frames ++ s.frames }

-- The frames of a read that the sink took, and whether the context ended under them.
abbrev pub sent_frames : Option ℕ → List Frame → List Frame
sent_frames none frames = frames
sent_frames (some n) frames = take n frames

abbrev pub is_cut_off : Option ℕ → List Frame → Bool
is_cut_off none frames = false
is_cut_off (some n) frames = ltb n (length frames)

abbrev pub frames_of : Options → ℕ → List Bytes → List Frame
frames_of opts at raws = map (λ raw. record { device_id = opts.id; raw = raw; at = at }) raws

-- The reading loop, over the turns it has had so far.
unfoldable pub read_loop : Options → List Turn → Framer → Bool → Session
read_loop opts [] f worked = record { events = []; frames = []; worked = worked; ending = none }
read_loop opts (t ∷ ts) f worked = elim t.ended [
  | true ↦ stop worked cancelled
  | false ↦ elim t.answer [
    | read_failed failure ↦
        stop worked
          (if t.ended_after then cancelled else broken_by (wrap (codes "read ") opts failure))
    | bytes_in [] ↦
        let (g, d) = timeout f in after (discard_events opts t.at d) [] (read_loop opts ts g true)
    | bytes_in (b ∷ bs) ↦
        let out = append f (b ∷ bs) in
        let frames = frames_of opts t.at out.frames in
        after (read_event opts t.at (length (b ∷ bs)) ∷ map (discard_event opts t.at) out.discards)
          (sent_frames t.taken frames)
          (elim (is_cut_off t.taken frames) [
            | true ↦ stop true cancelled
            | false ↦ read_loop opts ts out.framer true
          ])
  ]
]

-- NewFramer's error.
abbrev pub refusal : FramerError → Failure
refusal empty_separator = record {
  errno = none;
  code = none;
  text = codes "separator must not be empty";
}
refusal max_frame_too_small = record {
  errno = none;
  code = none;
  text = codes "max frame must be at least 1 byte, got 0";
}

-- A session behind the open: the read timeout is set, the framer built, and the loop runs.
unfoldable pub read_session : Options → Option Failure → List Turn → Session
unfolding read_loop
read_session opts (some failure) turns =
    stop false (broken_by (wrap (codes "set read timeout on ") opts failure))
read_session opts none turns = elim (new_framer opts.separator opts.max_frame_bytes) [
  | refused e ↦ stop false (broken_by (refusal e))
  | built f ↦ read_loop opts turns f false
]

-- The report of a session's end: closed if the agent is stopping, lost with its reason if not.
unfoldable pub closing : Options → Bool → ℕ → Option Ending → List Event
closing opts stopping at none = []
closing opts stopping at (some cancelled) = port_event opts port_closed at ∷ []
closing opts stopping at (some (broken_by f)) =
    (if stopping then port_event opts port_closed at else failure_event opts port_lost at f) ∷ []

-- session: what opening answered and when, whether setting the read timeout failed, the turns of
-- the loop, and whether the agent is stopping at the end, and when that is.
unfoldable pub session :
    Options → Option Failure → ℕ → Option Failure → List Turn → Bool → ℕ → Session
unfolding read_session closing
session opts (some failure) at unset turns stopping end = record {
  events = failure_event opts port_open_failed at failure ∷ [];
  frames = [];
  worked = false;
  ending = some (broken_by (wrap (codes "open ") opts failure));
}
session opts none at unset turns stopping end =
    let s = read_session opts unset turns in
    record s {
      events = port_event opts port_opened at ∷ s.events ++ closing opts stopping end s.ending;
    }
