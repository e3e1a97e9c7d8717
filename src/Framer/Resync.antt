-- ===== src/Framer/Resync.antt =====
-- Resynchronisation: after a discard, everything up to and including the next separator goes.
use device_serial_scanner.Common.{
  ℕ, zero, suc, ◌+◌, ◌≤◌, ◌≡◌, refl, sym, ◌∙◌, inl, inr, ap, true, false, Option, none, some, [],
  ◌++◌, arith, Bytes, length, drop, length-drop, Option-cases,
}
use device_serial_scanner.Framer.{
  Framer, Discard, Output, carry, report, next, drain, settle, append, extend, add_discard, finish,
}
use device_serial_scanner.Wire.Counters.{resync}
use device_serial_scanner.Framer.Index.{index, index_short}
use device_serial_scanner.Framer.Bounded.{
  drain_stop, drain_step, length-next, trim_to-total, trim_to-dropping, append_lem,
}

-- A framer that reads, with nothing in its buffer.
abbrev pub fresh : Framer → Framer
fresh f = record f { buf = []; dropping = false; dropped = 0 }

-- The loop gives the same with more fuel than it needs.
drain_enough :
    (m n : ℕ) (f : Framer)
    → 1 ≤ length f.separator
    → length f.buf ≤ m
    → length f.buf ≤ n
    → drain m f ≡ drain n f
unfolding drain
drain_enough zero n f c h k = rw (drain_stop n f (index_short f.separator f.buf (omega arith)))
drain_enough (suc m) zero f c h k =
    rw (drain_stop (suc m) f (index_short f.separator f.buf (omega arith)))
drain_enough (suc m) (suc n) f c h k = elim (Option-cases (index f.separator f.buf)) [
  | inl e ↦ rw (drain_stop (suc m) f e, drain_stop (suc n) f e)
  | inr (at, e) ↦
      rw (drain_step m f at e, drain_step n f at e)
        (ap (report f at) (
          drain_enough m n (next f at) c (omega (arith, length-next f at e))
            (omega (arith, length-next f at e))))
]

finish-add_discard :
    (d : Discard) (out : Output) (s : Framer × Option Discard)
    → finish (add_discard d out) s ≡ add_discard d (finish out s)
finish-add_discard d out (f, none) = refl
finish-add_discard d out (f, some x) = refl

settle_dropping :
    (f : Framer)
    → f.dropping ≡ true
    → ((finish (record { framer = f; frames = []; discards = [] }) (settle f)).frames ≡ [])
      × ((finish (record { framer = f; frames = []; discards = [] }) (settle f)).discards ≡ [])
      × ((finish (record { framer = f; frames = []; discards = [] }) (settle f)).framer.dropping
          ≡ true)
      × ((finish (record { framer = f; frames = []; discards = [] }) (settle f)).framer.dropped
            + length
                (finish (record { framer = f; frames = []; discards = [] }) (settle f)).framer.buf
          ≡ f.dropped + length f.buf)
unfolding settle
settle_dropping f d = ground (arith, trim_to-total f (carry f), trim_to-dropping f (carry f))

report_resync :
    (f : Framer) (at : ℕ) (out : Output)
    → f.dropping ≡ true
    → report f at out
      ≡ add_discard
          (record { reason = resync; bytes = f.dropped + (at + length f.separator); held = none })
          out
unfolding report
report_resync f at out d = rw d

next-fresh :
    (f : Framer) (src : Bytes) (at : ℕ)
    → f.dropping ≡ true
    → next (extend f src) at ≡ extend (fresh f) (drop (at + length f.separator) (f.buf ++ src))
next-fresh f src at d = ground arith

-- The discard that ends a resynchronisation at a separator.
abbrev ended : Framer → ℕ → Discard
ended f at = record { reason = resync; bytes = f.dropped + (at + length f.separator); held = none }

drain_resync :
    (n : ℕ) (f : Framer) (src : Bytes) (at : ℕ)
    → 1 ≤ length f.separator
    → f.dropping ≡ true
    → index f.separator (f.buf ++ src) ≡ some at
    → length (f.buf ++ src) ≤ n
    → (let rest = drop (at + length f.separator) (f.buf ++ src) in
        drain n (extend f src)
        ≡ add_discard (ended f at) (drain (length rest) (extend (fresh f) rest)))
drain_resync n f src at c d e h =
    let rest = drop (at + length f.separator) (f.buf ++ src) in
    drain_enough n (suc n) (extend f src) c h (omega arith)
    ∙ drain_step n (extend f src) at e
    ∙ report_resync (extend f src) at (drain n (next (extend f src) at)) d
    ∙ ap (λ g. add_discard (ended f at) (drain n g)) (next-fresh f src at d)
    ∙ ap (add_discard (ended f at)) (
        drain_enough n (length rest) (extend (fresh f) rest) c
          (omega (arith, length-drop {0} (at + length f.separator) (f.buf ++ src))) (omega arith))

-- While the framer drops bytes and no separator has come, no frame comes out and nothing is
-- reported; every byte is either counted as dropped or kept in the buffer.
pub append_dropping :
    (f : Framer) (src : Bytes)
    → f.dropping ≡ true
    → index f.separator (f.buf ++ src) ≡ none
    → ((append f src).frames ≡ [])
      × ((append f src).discards ≡ [])
      × ((append f src).framer.dropping ≡ true)
      × ((append f src).framer.dropped + length (append f src).framer.buf
          ≡ f.dropped + length (f.buf ++ src))
append_dropping f src d e =
    rw (append_lem f src, drain_stop (length (f.buf ++ src)) (extend f src) e)
      (settle_dropping (extend f src) d)

-- The first separator ends the resynchronisation: Append reports one discard, of every byte up to
-- and including it, and goes on as a fresh framer does with the bytes behind it. No byte before it
-- comes out in a frame.
pub append_resync :
    (f : Framer) (src : Bytes) (at : ℕ)
    → 1 ≤ length f.separator
    → f.dropping ≡ true
    → index f.separator (f.buf ++ src) ≡ some at
    → append f src
      ≡ add_discard
          (record { reason = resync; bytes = f.dropped + (at + length f.separator); held = none })
          (append (fresh f) (drop (at + length f.separator) (f.buf ++ src)))
append_resync f src at c d e =
    let n = length (f.buf ++ src) in
    let rest = drop (at + length f.separator) (f.buf ++ src) in
    let out = drain (length rest) (extend (fresh f) rest) in
    append_lem f src
    ∙ ap (λ o. finish o (settle o.framer)) (drain_resync n f src at c d e (omega arith))
    ∙ finish-add_discard (ended f at) out (settle out.framer)
    ∙ ap (add_discard (ended f at)) (sym (append_lem (fresh f) rest))
