-- ===== src/Framer.antt =====
-- The framer, internal/device/serial/framer.go: a byte stream split into separator-delimited
-- frames. `Index` is Go's `bytes.Index`; the proofs are in the modules below.
pub mod Index
pub mod Bounded
pub mod Resync
pub mod Stream
use device_serial_scanner.Common.{
  ℕ, zero, suc, ◌+◌, ◌-◌, ◌≤◌, Bool, true, false, Option, none, some, List, [], ◌∷◌, ◌++◌, Bytes,
  length, take, drop, ltb, leb, ◌==◌, if◌then◌else◌,
}
use device_serial_scanner.Wire.Counters.{
  DiscardReason, oversize, inter_char_timeout, resync, empty_frame,
}
use Index.{index}

-- `data` of the source is nil where the framer no longer had the bytes.
pub record Discard : Type 0 where
  pub reason : DiscardReason
  pub bytes : ℕ
  pub held : Option Bytes

pub record Framer : Type 0 where
  pub separator : Bytes
  pub max_frame : ℕ
  pub buf : Bytes
  pub dropping : Bool
  pub dropped : ℕ

pub data FramerError : Type 0 where
  empty_separator max_frame_too_small : FramerError

pub data NewResult : Type 0 where
  built : Framer → NewResult
  refused : FramerError → NewResult

-- NewFramer. A configured length below 1 is 0 here.
unfoldable pub new_framer : Bytes → ℕ → NewResult
new_framer [] max_frame = refused empty_separator
new_framer (b ∷ bs) max_frame =
    if ltb max_frame 1
    then refused max_frame_too_small
    else built (record {
      separator = b ∷ bs;
      max_frame = max_frame;
      buf = [];
      dropping = false;
      dropped = 0;
    })

-- The bytes kept while dropping, so that a separator spanning two reads is still found.
abbrev pub carry : Framer → ℕ
carry f = length f.separator - 1

-- trimTo, with `consume`: the framer, and how many bytes it dropped.
unfoldable pub trim_to : Framer → ℕ → Framer × ℕ
trim_to f keep =
    if leb (length f.buf) keep
    then (f, 0)
    else let consumed = length f.buf - keep in (record f { buf = drop consumed f.buf }, consumed)

abbrev pub reset : Framer → Framer
reset f = record f { buf = []; dropping = false; dropped = 0 }

-- What one call returns: `frames` and `discards`, each in the order of the stream.
pub record Output : Type 0 where
  pub framer : Framer
  pub frames : List Bytes
  pub discards : List Discard

abbrev pub add_frame : Bytes → Output → Output
add_frame frame out = record out { frames = frame ∷ out.frames }

abbrev pub add_discard : Discard → Output → Output
add_discard discard out = record out { discards = discard ∷ out.discards }

-- The switch of Append at a separator found at `at`: what the round adds to the results.
unfoldable pub report : Framer → ℕ → Output → Output
report f at out =
    if f.dropping
    then add_discard
        (record { reason = resync; bytes = f.dropped + (at + length f.separator); held = none }) out
    else if at == 0
    then add_discard (record { reason = empty_frame; bytes = length f.separator; held = none }) out
    else if ltb f.max_frame at
    then add_discard (record { reason = oversize; bytes = at; held = some (take at f.buf) }) out
    else add_frame (take at f.buf) out

-- The framer after the round: a resynchronisation has ended, and the separator is consumed.
abbrev pub next : Framer → ℕ → Framer
next f at = record f {
  buf = drop (at + length f.separator) f.buf;
  dropping = false;
  dropped = if f.dropping then 0 else f.dropped;
}

-- The loop of Append over the separators in the buffer. Each round takes a separator, so the
-- length of the buffer is fuel enough.
unfoldable pub drain : ℕ → Framer → Output
drain zero f = record { framer = f; frames = []; discards = [] }
drain (suc fuel) f = elim (index f.separator f.buf) [
  | none ↦ record { framer = f; frames = []; discards = [] }
  | some at ↦ report f at (drain fuel (next f at))
]

-- The end of Append, with no separator left in the buffer: the framer, and a last discard.
unfoldable pub settle : Framer → Framer × Option Discard
settle f =
    if f.dropping
    then (let (kept, consumed) = trim_to f (carry f) in
        (record kept { dropped = f.dropped + consumed }, none))
    else if ltb (f.max_frame + carry f) (length f.buf)
    then (let (kept, consumed) = trim_to f (carry f) in
        (
          record kept { dropping = true; dropped = consumed },
          some (record { reason = oversize; bytes = length f.buf; held = some f.buf }),
        ))
    else (f, none)

abbrev pub finish : Output → Framer × Option Discard → Output
finish out (f, none) = record out { framer = f }
finish out (f, some discard) = record out { framer = f; discards = out.discards ++ discard ∷ [] }

abbrev pub extend : Framer → Bytes → Framer
extend f src = record f { buf = f.buf ++ src }

unfoldable pub append : Framer → Bytes → Output
unfolding drain report settle trim_to
append f src =
    let g = extend f src in let out = drain (length g.buf) g in finish out (settle out.framer)

-- Timeout: the framer, and a discard to report.
unfoldable pub timeout : Framer → Framer × Option Discard
timeout f =
    if f.dropping
    then (let consumed = f.dropped + length f.buf in
        (
          reset f,
          if consumed == 0
              then none
              else some (record { reason = resync; bytes = consumed; held = none }),
        ))
    else if length f.buf == 0
    then (f, none)
    else (
      record f { buf = []; dropping = true; dropped = 0 },
      some (record { reason = inter_char_timeout; bytes = length f.buf; held = some f.buf }),
    )
