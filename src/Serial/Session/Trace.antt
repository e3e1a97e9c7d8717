-- ===== src/Serial/Session/Trace.antt =====
-- What a session reports and sends, in order.
use device_serial_scanner.Common.{
  ℕ, zero, suc, ◌≡◌, ◌⊎◌, inl, inr, refl, Bool, true, false, Option, none, some, List, [], ◌∷◌,
  ◌++◌, map, arith, Bytes, length, take, All, All-append, Bool-cases,
}
use mathlib.Core.Path.{subst}
use device_serial_scanner.Device.{Event, Frame, port_opened, bytes_discarded, bytes_read}
use device_serial_scanner.Framer.{
  Framer, Discard, NewResult, FramerError, new_framer, built, refused, append, timeout,
}
use device_serial_scanner.Framer.Bounded.{IsFrame, IsConfigured, append-IsFrame, append-IsSettled}
use device_serial_scanner.Serial.Classify.{Failure}
use device_serial_scanner.Serial.Session.{
  Turn, ReadAnswer, read_failed, bytes_in, Session, Options, Ending, read_loop, read_session,
  session, closing, port_event, discard_event, discard_events, read_event, frames_of, sent_frames,
  is_cut_off, after,
}

-- An event that says nothing about whether the port is open.
pub data IsQuiet : Event → Type 0 where
  quiet_read : (e : Event) → e.kind ≡ bytes_read → IsQuiet e
  quiet_discard : (e : Event) → e.kind ≡ bytes_discarded → IsQuiet e

All-map {ℓ} :
    {A B : Type ℓ} (P : B → Type 0) (f : A → B) (xs : List A)
    → ((a : A) → P (f a))
    → All P (map f xs)
All-map P f [] h = tt
All-map P f (x ∷ xs) h = (h x, All-map P f xs h)

All-take {ℓ} : {A : Type ℓ} (P : A → Type 0) (n : ℕ) (xs : List A) → All P xs → All P (take n xs)
All-take P zero xs h = tt
All-take P (suc n) [] h = tt
All-take P (suc n) (x ∷ xs) h = (h.0, All-take P n xs h.1)

ReadAnswer-cases :
    (a : ReadAnswer)
    → ((failure : Failure) × (a ≡ read_failed failure))
      ⊎ ((a ≡ bytes_in []) ⊎ ((b : ℕ) × (bs : Bytes) × (a ≡ bytes_in (b ∷ bs))))
ReadAnswer-cases (read_failed failure) = inl (failure, refl)
ReadAnswer-cases (bytes_in []) = inr (inl refl)
ReadAnswer-cases (bytes_in (b ∷ bs)) = inr (inr (b, bs, refl))

NewResult-cases :
    (r : NewResult) → ((f : Framer) × (r ≡ built f)) ⊎ ((e : FramerError) × (r ≡ refused e))
NewResult-cases (built f) = inl (f, refl)
NewResult-cases (refused e) = inr (e, refl)

new_framer-built :
    (sep : Bytes) (max_frame : ℕ) (f : Framer)
    → new_framer sep max_frame ≡ built f
    → IsConfigured f × (f.separator ≡ sep) × (f.max_frame ≡ max_frame)
unfolding new_framer
new_framer-built [] max_frame f e = ground arith
new_framer-built (b ∷ bs) max_frame f e = ground arith

module _ (opts : Options) where
  -- What the loop does for a read that brought bytes.
  abbrev read_events : ℕ → ℕ → Bytes → Framer → List Event
  read_events at b bs f =
      read_event opts at (length (b ∷ bs))
      ∷ map (discard_event opts at) (append f (b ∷ bs)).discards

  -- Induction over the turns of the loop.
  read_loop-rule {κ} :
      (P : Framer → Session → Type κ)
      → ((f : Framer) (worked : Bool) (ending : Option Ending)
          → P f (record { events = []; frames = []; worked = worked; ending = ending }))
      → ((f : Framer) (at : ℕ) (s : Session)
          → P (timeout f).0 s
          → P f (after (discard_events opts at (timeout f).1) [] s))
      → ((f : Framer) (at b : ℕ) (bs : Bytes) (taken : Option ℕ) (s : Session)
          → P (append f (b ∷ bs)).framer s
          → P f (
              after
                (read_events at b bs f)
                (sent_frames taken (frames_of opts at (append f (b ∷ bs)).frames))
                s))
      → (ts : List Turn) (f : Framer) (worked : Bool) → P f (read_loop opts ts f worked)
  unfolding read_loop
  read_loop-rule P still silence bytes [] f worked = still f worked none
  read_loop-rule P still silence bytes (t ∷ ts) f worked = elim (Bool-cases t.ended) [
    | inl e ↦ rw e (still f worked _)
    | inr e ↦ elim (ReadAnswer-cases t.answer) [
      | inl (failure, a) ↦ rw (e, a) (still f worked _)
      | inr (inl a) ↦
          rw (e, a) (silence f t.at _ (read_loop-rule P still silence bytes ts (timeout f).0 true))
      | inr (inr (b, bs, a)) ↦
          let frames = frames_of opts t.at (append f (b ∷ bs)).frames in
          elim (Bool-cases (is_cut_off t.taken frames)) [
            | inl c ↦ rw (e, a) (rw c (bytes f t.at b bs t.taken _ (still _ true _)))
            | inr c ↦
                rw (e, a)
                  (rw c (
                    bytes f t.at b bs t.taken _
                      (read_loop-rule P still silence bytes ts (append f (b ∷ bs)).framer true)))
          ]
    ]
  ]

  discard_events-IsQuiet : (at : ℕ) (d : Option Discard) → All IsQuiet (discard_events opts at d)
  discard_events-IsQuiet at none = tt
  discard_events-IsQuiet at (some d) = (quiet_discard _ refl, tt)

  pub read_loop-IsQuiet :
      (ts : List Turn) (f : Framer) (worked : Bool)
      → All IsQuiet (read_loop opts ts f worked).events
  read_loop-IsQuiet =
      read_loop-rule (λ f s. All IsQuiet s.events) (λ f worked ending. tt)
        (λ f at s h.
          All-append IsQuiet (discard_events opts at (timeout f).1) s.events
            (discard_events-IsQuiet at (timeout f).1) h)
        (λ f at b bs taken s h.
          All-append IsQuiet (read_events at b bs f) s.events
            (
              quiet_read _ refl,
              All-map IsQuiet (discard_event opts at) _ (λ d. quiet_discard _ refl),
            )
            h)

  -- A frame as the framer promises it, under the device's settings.
  abbrev pub IsSentFrame : Frame → Type 0
  IsSentFrame frame = IsFrame opts.separator opts.max_frame_bytes frame.raw

  -- The framer of this device.
  record IsDevices (f : Framer) : Type 0 where
    configured : IsConfigured f
    separator_is : f.separator ≡ opts.separator
    max_is : f.max_frame ≡ opts.max_frame_bytes

  append-IsDevices : (f : Framer) (src : Bytes) → IsDevices f → IsDevices (append f src).framer
  append-IsDevices f src d =
      let s = (append-IsSettled f src d.configured).1 in
      let c = d.configured in
      ground (arith, s.same_separator, s.same_max, c.separator_length, c.max_frame_positive)

  timeout-IsDevices : (f : Framer) → IsDevices f → IsDevices (timeout f).0
  unfolding timeout
  timeout-IsDevices f d = ground (arith, d.configured, d.separator_is, d.max_is)

  new_framer-IsDevices :
      (f : Framer) → new_framer opts.separator opts.max_frame_bytes ≡ built f → IsDevices f
  new_framer-IsDevices f e =
      let (c, same_separator, same_max) = new_framer-built _ _ f e in
      record { configured = c; separator_is = same_separator; max_is = same_max }

  frames_of-IsSentFrame :
      (at : ℕ) (raws : List Bytes)
      → All (IsFrame opts.separator opts.max_frame_bytes) raws
      → All IsSentFrame (frames_of opts at raws)
  frames_of-IsSentFrame at [] h = tt
  frames_of-IsSentFrame at (raw ∷ raws) h = (h.0, frames_of-IsSentFrame at raws h.1)

  sent_frames-IsSentFrame :
      (taken : Option ℕ) (frames : List Frame)
      → All IsSentFrame frames
      → All IsSentFrame (sent_frames taken frames)
  sent_frames-IsSentFrame none frames h = h
  sent_frames-IsSentFrame (some n) frames h = All-take IsSentFrame n frames h

  read_loop-IsSentFrame :
      (ts : List Turn) (f : Framer) (worked : Bool)
      → IsDevices f
      → All IsSentFrame (read_loop opts ts f worked).frames
  read_loop-IsSentFrame =
      read_loop-rule (λ f s. IsDevices f → All IsSentFrame s.frames) (λ f worked ending d. tt)
        (λ f at s h d. h (timeout-IsDevices f d))
        (λ f at b bs taken s h d.
          let out = append f (b ∷ bs) in
          All-append IsSentFrame (sent_frames taken (frames_of opts at out.frames)) s.frames
            (sent_frames-IsSentFrame taken _ (
              frames_of-IsSentFrame at out.frames (
                subst (λ sep. All (IsFrame sep opts.max_frame_bytes) out.frames) d.separator_is
                  (subst (λ m. All (IsFrame f.separator m) out.frames) d.max_is
                    (append-IsFrame f (b ∷ bs) d.configured)))))
            (h (append-IsDevices f (b ∷ bs) d)))

  -- Behind the open, a session is stopped at once or is its loop's.
  pub read_session-rule {κ} :
      (P : Session → Type κ)
      → ((e : Ending) → P (record { events = []; frames = []; worked = false; ending = some e }))
      → (turns : List Turn)
      → ((f : Framer)
          → new_framer opts.separator opts.max_frame_bytes ≡ built f
          → P (read_loop opts turns f false))
      → (unset : Option Failure) → P (read_session opts unset turns)
  unfolding read_session
  read_session-rule P stopped turns looped (some failure) = stopped _
  read_session-rule P stopped turns looped none =
      elim (NewResult-cases (new_framer opts.separator opts.max_frame_bytes)) [
        | inl (f, e) ↦ rw (e, read_session) (looped f e)
        | inr (error, e) ↦ rw (e, read_session) (stopped _)
      ]

  session-ok :
      (at : ℕ) (unset : Option Failure) (turns : List Turn) (stopping : Bool) (end : ℕ)
      → (let s = read_session opts unset turns in
          ((session opts none at unset turns stopping end).frames ≡ s.frames)
          × ((session opts none at unset turns stopping end).events
              ≡ port_event opts port_opened at ∷ s.events ++ closing opts stopping end s.ending))
  unfolding session
  session-ok at unset turns stopping end = (refl, refl)

  -- Every frame that a session sends, whatever its reads bring and however it ends, holds at least
  -- one byte and at most the configured number, and no separator.
  pub session-IsSentFrame :
      (failure : Option Failure) (at : ℕ) (unset : Option Failure) (turns : List Turn)
      (stopping : Bool) (end : ℕ)
      → All IsSentFrame (session opts failure at unset turns stopping end).frames
  unfolding session
  session-IsSentFrame (some failure) at unset turns stopping end = tt
  session-IsSentFrame none at unset turns stopping end =
      read_session-rule (λ s. All IsSentFrame s.frames) (λ e. tt) turns
        (λ f e. read_loop-IsSentFrame turns f false (new_framer-IsDevices f e)) unset
