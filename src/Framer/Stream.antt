-- ===== src/Framer/Stream.antt =====
-- A whole stream through the framer, read by read.
use device_serial_scanner.Common.{
  ℕ, zero, suc, ◌+◌, ◌≤◌, ◌≡◌, refl, sym, ◌∙◌, ap, ap₂, true, false, none, some, List, [], ◌∷◌,
  ◌++◌, append_assoc, append-nil, arith, Bytes, length, drop, length-append, drop-length-append,
  take-length-append, All, All-right,
}
use native.Mathlib.Decide.{dec_lt}
use native.Mathlib.Nat.{zero-add}
use device_serial_scanner.Framer.{
  Framer, Discard, timeout, Output, add_discard, carry, report, drain, settle, append, add_frame,
  finish,
}
use device_serial_scanner.Wire.Counters.{resync, inter_char_timeout}
use device_serial_scanner.Framer.Index.{index, index_short, index_prefix, index-append}
use device_serial_scanner.Framer.Resync.{append_resync}
use device_serial_scanner.Framer.Bounded.{drain_stop, drain_step, append_lem, IsConfigured}

-- What a device sends for these frames.
abbrev pub encode : Bytes → List Bytes → Bytes
encode sep [] = []
encode sep (g ∷ gs) = (g ++ sep) ++ encode sep gs

-- A frame that the device may send: in bounds, and the first separator of the frame followed by
-- its separator is that separator, with no earlier one within or across.
pub record IsSendable (sep : Bytes) (max_frame : ℕ) (frame : Bytes) : Type 0 where
  pub nonempty : 1 ≤ length frame
  pub within : length frame ≤ max_frame
  pub delimited : index sep (frame ++ sep) ≡ some (length frame)

abbrev pub joined : List Bytes → Bytes
joined [] = []
joined (c ∷ cs) = c ++ joined cs

-- The reader's calls of Append, one for each read, with their results in order.
unfoldable pub feed : Framer → List Bytes → Output
feed f [] = record { framer = f; frames = []; discards = [] }
feed f (chunk ∷ chunks) =
    let out = append f chunk in
    let rest = feed out.framer chunks in
    record {
      framer = rest.framer;
      frames = out.frames ++ rest.frames;
      discards = out.discards ++ rest.discards;
    }

-- The framer that reads, with these bytes pending.
abbrev pub reading : Framer → Bytes → Framer
reading f buf = record f { buf = buf; dropping = false; dropped = 0 }

-- Two ways to cut one text.
cut :
    (xs ys p r : Bytes)
    → xs ++ ys ≡ p ++ r
    → length xs ≤ length p
    → (p' : Bytes) × (p ≡ xs ++ p') × (ys ≡ p' ++ r)
cut [] ys p r e h = (p, refl, e)
cut (x ∷ xs) ys [] r e h = absurd (omega arith)
cut (x ∷ xs) ys (q ∷ p) r e h =
    let (p', a, b) = cut xs ys p r (ground arith) (omega arith) in (p', ground arith, b)

module _ (f : Framer) (c : IsConfigured f) where
  report_frame :
      (g rest : Bytes) (out : Output)
      → 1 ≤ length g
      → length g ≤ f.max_frame
      → report (reading f (g ++ rest)) (length g) out ≡ add_frame g out
  unfolding report
  report_frame g rest out h k = ground (arith, take-length-append {0} g rest)

  drop_frame : (g p : Bytes) → drop (length g + length f.separator) ((g ++ f.separator) ++ p) ≡ p
  drop_frame g p =
      ap (λ k. drop k ((g ++ f.separator) ++ p)) (sym (length-append g f.separator))
      ∙ drop-length-append (g ++ f.separator) p

  -- What the loop makes of a part `p` of a stream of sendable frames: the frames that are whole
  -- in it, and no discard.
  record Drained (frames : List Bytes) (p r : Bytes) (n : ℕ) : Type 0 where
    out_frames : List Bytes
    left_frames : List Bytes
    left : Bytes
    splits : frames ≡ out_frames ++ left_frames
    runs :
        drain n (reading f p)
        ≡ record { framer = reading f left; frames = out_frames; discards = [] }
    remains : encode f.separator left_frames ≡ left ++ r
    bounded : length left ≤ f.max_frame + carry f
    settled : index f.separator left ≡ none

  -- With no separator in the part, it stays in the buffer.
  Drained-none :
      (frames : List Bytes) (p r : Bytes) (n : ℕ)
      → encode f.separator frames ≡ p ++ r
      → length p ≤ f.max_frame + carry f
      → index f.separator p ≡ none
      → Drained frames p r n
  Drained-none frames p r n e h i = record {
    out_frames = [];
    left_frames = frames;
    left = p;
    splits = refl;
    runs = drain_stop n (reading f p) i;
    remains = e;
    bounded = h;
    settled = i;
  }

  -- A whole frame with its separator comes out, and the loop goes on behind it.
  Drained-cons :
      (g : Bytes) (gs : List Bytes) (p r : Bytes) (n : ℕ)
      → IsSendable f.separator f.max_frame g
      → Drained gs p r n
      → Drained (g ∷ gs) ((g ++ f.separator) ++ p) r (suc n)
  Drained-cons g gs p r n h d = record {
    out_frames = g ∷ d.out_frames;
    left_frames = d.left_frames;
    left = d.left;
    splits = ap (◌∷◌ g) d.splits;
    runs =
        drain_step n (reading f ((g ++ f.separator) ++ p)) (length g)
          (index-append f.separator (g ++ f.separator) p (length g) h.delimited)
        ∙ ap (report (reading f ((g ++ f.separator) ++ p)) (length g))
            (ap (λ b. drain n (reading f b)) (drop_frame g p) ∙ d.runs)
        ∙ ap
            (λ b.
              report (reading f b) (length g)
                (record { framer = reading f d.left; frames = d.out_frames; discards = [] }))
            (append_assoc g f.separator p)
        ∙ report_frame g (f.separator ++ p) _ h.nonempty h.within;
    remains = d.remains;
    bounded = d.bounded;
    settled = d.settled;
  }

  drained :
      (frames : List Bytes) (p r : Bytes) (n : ℕ)
      → All (IsSendable f.separator f.max_frame) frames
      → encode f.separator frames ≡ p ++ r
      → length p ≤ n
      → Drained frames p r n
  drained [] [] r n h e k =
      Drained-none [] [] r n e (omega arith) (index_short f.separator [] c.separator_length)
  drained [] (x ∷ p) r n h e k = absurd (ground arith)
  drained (g ∷ gs) p r zero h e k =
      Drained-none (g ∷ gs) p r zero e (omega arith)
        (index_short f.separator p (omega (arith, c.separator_length)))
  drained (g ∷ gs) p r (suc n) h e k = elim (dec_lt (length p) (length (g ++ f.separator))) [
    | yes short ↦
        Drained-none (g ∷ gs) p r (suc n) e
          (omega (arith, length-append {0} g f.separator, h.0.within))
          (index_prefix f.separator p r (length g)
            (rw (← e) (
              index-append f.separator (g ++ f.separator) (encode f.separator gs) (length g)
                h.0.delimited))
            (omega (arith, length-append {0} g f.separator)))
    | no long ↦
        let (p', a, b) = cut (g ++ f.separator) (encode f.separator gs) p r e (omega arith) in
        rw a (
          Drained-cons g gs p' r n h.0 (
            drained gs p' r n h.1 b (
              omega (
                arith,
                ap length a,
                length-append {0} g f.separator,
                length-append {0} (g ++ f.separator) p',
                h.0.nonempty,
              ))))
  ]

  settle-reading :
      (b : Bytes) → length b ≤ f.max_frame + carry f → settle (reading f b) ≡ (reading f b, none)
  unfolding settle
  settle-reading b h = ground arith

  append-reading :
      (frames : List Bytes) (b src r : Bytes)
      → (d : Drained frames (b ++ src) r (length (b ++ src)))
      → append (reading f b) src
        ≡ record { framer = reading f d.left; frames = d.out_frames; discards = [] }
  append-reading frames b src r d =
      append_lem (reading f b) src
      ∙ ap (λ (o : Output). finish o (settle o.framer)) d.runs
      ∙ ap (finish (record { framer = reading f d.left; frames = d.out_frames; discards = [] }))
          (settle-reading d.left d.bounded)

  -- A stream of which only a part without a separator is left has no frame left.
  feed_end :
      (frames : List Bytes) (b : Bytes)
      → All (IsSendable f.separator f.max_frame) frames
      → encode f.separator frames ≡ b ++ []
      → index f.separator b ≡ none
      → feed (reading f b) [] ≡ record { framer = reading f []; frames = frames; discards = [] }
  unfolding feed
  feed_end [] [] h e i = refl
  feed_end [] (x ∷ b) h e i = cc
  feed_end (g ∷ gs) b h e i =
      let whole =
        index-append f.separator (g ++ f.separator) (encode f.separator gs) (length g)
          h.0.delimited in
      absurd (ground (arith, ap (index f.separator) (e ∙ append-nil b), whole))

  feed-reading :
      (frames : List Bytes) (b : Bytes) (chunks : List Bytes)
      → All (IsSendable f.separator f.max_frame) frames
      → encode f.separator frames ≡ b ++ joined chunks
      → index f.separator b ≡ none
      → feed (reading f b) chunks ≡ record { framer = reading f []; frames = frames; discards = [] }
  unfolding feed
  feed-reading frames b [] h e i = feed_end frames b h e i
  feed-reading frames b (chunk ∷ chunks) h e i =
      let d =
        drained frames (b ++ chunk) (joined chunks) (length (b ++ chunk)) h
          (e ∙ sym (append_assoc b chunk (joined chunks))) (omega arith) in
      let later =
        feed-reading d.left_frames d.left chunks
          (All-right _ d.out_frames d.left_frames (rw d.splits at h)) d.remains d.settled in
      rw (append-reading frames b chunk (joined chunks) d, later) (rw (← d.splits))

  -- A stream of sendable frames, cut into reads in any way at all, comes out of the framer as
  -- exactly those frames in order, with no discard and an empty buffer at the end.
  pub feed-encode :
      (frames chunks : List Bytes)
      → All (IsSendable f.separator f.max_frame) frames
      → joined chunks ≡ encode f.separator frames
      → feed (reading f []) chunks
        ≡ record { framer = reading f []; frames = frames; discards = [] }
  feed-encode frames chunks h e =
      feed-reading frames [] chunks h (sym e) (index_short f.separator [] c.separator_length)

  -- The framer that a timeout leaves behind a partial frame.
  abbrev broken : Framer
  broken = record f { buf = []; dropping = true; dropped = 0 }

  abbrev resynced : ℕ → Discard
  resynced n = record { reason = resync; bytes = n; held = none }

  abbrev tail_discard : Bytes → Discard
  tail_discard tail = resynced (length tail + length f.separator)

  timeout-reading :
      (b : Bytes)
      → 1 ≤ length b
      → timeout (reading f b)
        ≡ (broken, some (record { reason = inter_char_timeout; bytes = length b; held = some b }))
  unfolding timeout
  timeout-reading b h = ground arith

  append-broken :
      (tail p : Bytes)
      → index f.separator (tail ++ f.separator) ≡ some (length tail)
      → append broken ((tail ++ f.separator) ++ p)
        ≡ add_discard (tail_discard tail) (append (reading f []) p)
  append-broken tail p t =
      append_resync broken ((tail ++ f.separator) ++ p) (length tail) c.separator_length refl
        (index-append f.separator (tail ++ f.separator) p (length tail) t)
      ∙ ap₂ (λ k q. add_discard (resynced k) (append (reading f []) q))
          (zero-add (length tail + length f.separator)) (drop_frame tail p)

  feed-broken :
      (tail p : Bytes) (chunks : List Bytes)
      → index f.separator (tail ++ f.separator) ≡ some (length tail)
      → feed broken (((tail ++ f.separator) ++ p) ∷ chunks)
        ≡ add_discard (tail_discard tail) (feed (reading f []) (p ∷ chunks))
  unfolding feed
  feed-broken tail p chunks t = rw (append-broken tail p t)

  -- A frame broken off by a timeout never comes out. The framer is silent with `b` pending; the
  -- timeout reports `b`; the first read after it starts with what was left of the broken frame,
  -- `tail`, and its separator. All that comes out is one resynchronisation discard of the tail
  -- with its separator, and then exactly the frames behind it, however the reads cut them.
  pub timeout_recovers :
      (b tail p : Bytes) (frames chunks : List Bytes)
      → 1 ≤ length b
      → index f.separator (tail ++ f.separator) ≡ some (length tail)
      → All (IsSendable f.separator f.max_frame) frames
      → p ++ joined chunks ≡ encode f.separator frames
      → ((timeout (reading f b)).1
          ≡ some (record { reason = inter_char_timeout; bytes = length b; held = some b }))
        × (feed (timeout (reading f b)).0 (((tail ++ f.separator) ++ p) ∷ chunks) ≡ record {
          framer = reading f [];
          frames = frames;
          discards =
              record { reason = resync; bytes = length tail + length f.separator; held = none }
              ∷ [];
        })
  timeout_recovers b tail p frames chunks h t s e = (
    ap (λ r. r.1) (timeout-reading b h),
    ap (λ r. feed r.0 (((tail ++ f.separator) ++ p) ∷ chunks)) (timeout-reading b h)
        ∙ feed-broken tail p chunks t
        ∙ ap (add_discard (tail_discard tail)) (feed-encode frames (p ∷ chunks) s e),
  )
