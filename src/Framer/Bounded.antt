-- ===== src/Framer/Bounded.antt =====
-- What holds of the framer between two calls, and of the frames that it returns.
use device_serial_scanner.Common.{
  ℕ, zero, suc, ◌+◌, ◌-◌, ◌≤◌, ◌≡◌, refl, ◌∙◌, inl, inr, true, false, none, some, [], ◌++◌, arith,
  Bytes, length, take, drop, length-zero, length-drop, length-take, take-append-drop, All, ltb,
  if◌then◌else◌, Option-cases,
}
use device_serial_scanner.Framer.{
  Framer, Output, carry, trim_to, report, next, drain, settle, append, timeout, extend, finish,
}
use device_serial_scanner.Framer.Index.{index, index-le, index_short, index_prefix}

-- The settings that NewFramer accepts.
pub record IsConfigured (f : Framer) : Type 0 where
  pub separator_length : 1 ≤ length f.separator
  pub max_frame_positive : 1 ≤ f.max_frame

-- No separator waits in the buffer, and what waits is bounded.
pub record IsSettled (f : Framer) : Type 0 where
  pub no_separator : index f.separator f.buf ≡ none
  pub dropping_bound : f.dropping ≡ true → length f.buf ≤ carry f
  pub reading_bound : f.dropping ≡ false → length f.buf ≤ f.max_frame + carry f

-- Two framers built with the same settings.
pub record SameSettings (f g : Framer) : Type 0 where
  pub same_separator : g.separator ≡ f.separator
  pub same_max : g.max_frame ≡ f.max_frame

-- The three things that a round never changes, or always does.
report-framer : (f : Framer) (at : ℕ) (out : Output) → (report f at out).framer ≡ out.framer
unfolding report
report-framer f at out = ground arith

-- The loop's two rounds as equations.
pub drain_stop :
    (fuel : ℕ) (f : Framer)
    → index f.separator f.buf ≡ none
    → drain fuel f ≡ record { framer = f; frames = []; discards = [] }
unfolding drain
drain_stop zero f e = refl
drain_stop (suc fuel) f e = rw (e, drain)

pub drain_step :
    (fuel : ℕ) (f : Framer) (at : ℕ)
    → index f.separator f.buf ≡ some at
    → drain (suc fuel) f ≡ report f at (drain fuel (next f at))
unfolding drain
drain_step fuel f at e = rw (e, drain)

-- A round shortens the buffer.
pub length-next :
    (f : Framer) (at : ℕ)
    → index f.separator f.buf ≡ some at
    → length (next f at).buf + (at + length f.separator) ≡ length f.buf
length-next f at e =
    omega (arith, length-drop {0} (at + length f.separator) f.buf, index-le f.separator f.buf at e)

-- The loop of Append ends by its test: the length of the buffer is fuel enough.
pub drain-index :
    (fuel : ℕ) (f : Framer)
    → 1 ≤ length f.separator
    → length f.buf ≤ fuel
    → index f.separator (drain fuel f).framer.buf ≡ none
unfolding drain
drain-index zero f h k = index_short f.separator f.buf (omega arith)
drain-index (suc fuel) f h k = elim (Option-cases (index f.separator f.buf)) [
  | inl e ↦ rw (e, drain) e
  | inr (at, e) ↦
      rw (e, drain)
        (rw report-framer (drain-index fuel (next f at) h (omega (arith, length-next f at e))))
]

drain-SameSettings : (fuel : ℕ) (f : Framer) → SameSettings f (drain fuel f).framer
unfolding drain
drain-SameSettings zero f = record { same_separator = refl; same_max = refl }
drain-SameSettings (suc fuel) f = elim (Option-cases (index f.separator f.buf)) [
  | inl e ↦ rw (e, drain) (record { same_separator = refl; same_max = refl })
  | inr (at, e) ↦
      rw (e, drain)
        (rw report-framer (
          let s = drain-SameSettings fuel (next f at) in
          record { same_separator = s.same_separator; same_max = s.same_max }))
]

-- What trimTo leaves: at most `keep` bytes, under the same settings.
trim_to-length : (f : Framer) (keep : ℕ) → length (trim_to f keep).0.buf ≤ keep
unfolding trim_to
trim_to-length f keep = ground (arith, length-drop {0} (length f.buf - keep) f.buf)

-- What trimTo drops and what it keeps are what there was.
pub trim_to-total :
    (f : Framer) (keep : ℕ) → (trim_to f keep).1 + length (trim_to f keep).0.buf ≡ length f.buf
unfolding trim_to
trim_to-total f keep = ground (arith, length-drop {0} (length f.buf - keep) f.buf)

pub trim_to-dropping : (f : Framer) (keep : ℕ) → (trim_to f keep).0.dropping ≡ f.dropping
unfolding trim_to
trim_to-dropping f keep = ground arith

trim_to-SameSettings : (f : Framer) (keep : ℕ) → SameSettings f (trim_to f keep).0
unfolding trim_to
trim_to-SameSettings f keep = ground arith

-- settle keeps the settings and, from a buffer with no separator, reaches a settled framer.
settle-SameSettings : (f : Framer) → SameSettings f (settle f).0
unfolding settle
settle-SameSettings f = ground (arith, trim_to-SameSettings f (carry f))

trim_to-index : (f : Framer) → IsConfigured f → index f.separator (trim_to f (carry f)).0.buf ≡ none
trim_to-index f c = index_short _ _ (omega (arith, trim_to-length f (carry f)))

settle-IsSettled :
    (f : Framer) → IsConfigured f → index f.separator f.buf ≡ none → IsSettled (settle f).0
unfolding settle
settle-IsSettled f c e =
    ground (arith, trim_to-SameSettings f (carry f), trim_to-length f (carry f), trim_to-index f c)

pub append_lem :
    (f : Framer) (src : Bytes)
    → append f src
      ≡ finish
          (drain (length (f.buf ++ src)) (extend f src))
          (settle (drain (length (f.buf ++ src)) (extend f src)).framer)
unfolding append
append_lem f src = refl

-- One call of Append, in the two parts that it is made of.
pub append-framer :
    (f : Framer) (src : Bytes)
    → (append f src).framer ≡ (settle (drain (length (f.buf ++ src)) (extend f src)).framer).0
unfolding append
append-framer f src = ground arith

pub append-frames :
    (f : Framer) (src : Bytes)
    → (append f src).frames ≡ (drain (length (f.buf ++ src)) (extend f src)).frames
unfolding append
append-frames f src = ground arith

append-SameSettings : (f : Framer) (src : Bytes) → SameSettings f (append f src).framer
append-SameSettings f src =
    let g = drain-SameSettings (length (f.buf ++ src)) (extend f src) in
    let s = settle-SameSettings (drain (length (f.buf ++ src)) (extend f src)).framer in
    rw append-framer (record {
      same_separator = s.same_separator ∙ g.same_separator;
      same_max = s.same_max ∙ g.same_max;
    })

IsConfigured-same : (f g : Framer) → SameSettings f g → IsConfigured f → IsConfigured g
IsConfigured-same f g s c = ground arith

-- After every call of Append, whatever arrived and whatever the framer held before: the settings
-- are those of NewFramer, no separator waits in the buffer, and the buffer holds at most the part
-- of a separator while the framer drops bytes, and at most the largest frame with a part of its
-- separator while it does not.
pub append-IsSettled :
    (f : Framer) (src : Bytes)
    → IsConfigured f
    → IsSettled (append f src).framer × SameSettings f (append f src).framer
append-IsSettled f src c =
    let n = length (f.buf ++ src) in
    let g = (drain n (extend f src)).framer in
    let s = drain-SameSettings n (extend f src) in
    (
      rw append-framer (
          settle-IsSettled g
            (IsConfigured-same f g
              (record { same_separator = s.same_separator; same_max = s.same_max }) c)
            (rw s.same_separator (drain-index n (extend f src) c.separator_length (omega arith)))),
      append-SameSettings f src,
    )

-- Timeout leaves the framer settled, with an empty buffer, and turns dropping over: a partial
-- frame starts a resynchronisation, and silence in a resynchronisation ends it.
timeout-IsSettled :
    (f : Framer)
    → IsConfigured f
    → IsSettled f
    → IsSettled (timeout f).0
      × ((timeout f).0.buf ≡ [])
      × ((timeout f).0.dropping ≡ (if f.dropping then false else ltb 0 (length f.buf)))
unfolding timeout
timeout-IsSettled f c s = ground (arith, index_short f.separator [], length-zero {0} f.buf)

-- What a frame is: not empty, within the limit, and with no separator inside.
pub record IsFrame (separator : Bytes) (max_frame : ℕ) (frame : Bytes) : Type 0 where
  pub nonempty : 1 ≤ length frame
  pub within : length frame ≤ max_frame
  pub whole : index separator frame ≡ none

index-take :
    (sep buf : Bytes) (at : ℕ)
    → 1 ≤ length sep
    → index sep buf ≡ some at
    → index sep (take at buf) ≡ none
index-take sep buf at h e =
    index_prefix sep (take at buf) (drop at buf) at (rw take-append-drop e)
      (omega (arith, length-take {0} at buf, index-le sep buf at e))

report-IsFrame :
    (f : Framer) (at : ℕ) (out : Output)
    → IsConfigured f
    → index f.separator f.buf ≡ some at
    → All (IsFrame f.separator f.max_frame) out.frames
    → All (IsFrame f.separator f.max_frame) (report f at out).frames
unfolding report
report-IsFrame f at out c e h = ground (
  arith,
  index-take f.separator f.buf at c.separator_length e,
  index-le f.separator f.buf at e,
  length-take {0} at f.buf,
)

drain-IsFrame :
    (fuel : ℕ) (f : Framer)
    → IsConfigured f
    → All (IsFrame f.separator f.max_frame) (drain fuel f).frames
unfolding drain
drain-IsFrame zero f c = tt
drain-IsFrame (suc fuel) f c = elim (Option-cases (index f.separator f.buf)) [
  | inl e ↦ rw (e, drain) tt
  | inr (at, e) ↦
      rw (e, drain)
        (report-IsFrame f at (drain fuel (next f at)) c e (
          drain-IsFrame fuel (next f at) (record {
            separator_length = c.separator_length;
            max_frame_positive = c.max_frame_positive;
          })))
]

-- Every frame that Append returns, in any state and for any bytes, holds at least one byte and at
-- most the configured number, and no separator.
pub append-IsFrame :
    (f : Framer) (src : Bytes)
    → IsConfigured f
    → All (IsFrame f.separator f.max_frame) (append f src).frames
append-IsFrame f src c = rw append-frames (
    drain-IsFrame _ (extend f src)
      (record { separator_length = c.separator_length; max_frame_positive = c.max_frame_positive }))
