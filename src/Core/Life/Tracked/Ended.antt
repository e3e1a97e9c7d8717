-- ===== src/Core/Life/Tracked/Ended.antt =====
-- A job that came to its end, internal/core/tx.go: it leaves the ids in hand, and a written id
-- enters the memory.
use device_serial_scanner.Common.{
  ℕ, ◌+◌, ◌-◌, ◌≡◌, refl, sym, ap, ◌∙◌, inl, inr, true, false, none, some, List, [], ◌∷◌, ◌++◌,
  append_assoc, append-nil, Bytes, lookup, remove, lookup-remove, length, length-append, drop,
  drop-last, text_eq, text_eq_iff, text_eq_refl, arith, Option-cases,
}
use device_serial_scanner.Core.WrittenIds.{remember}
use device_serial_scanner.Core.WrittenIds.Memory.{
  contains, IsDistinct, is_some, remember-Remembers, contains-append,
}
use device_serial_scanner.Core.Pipeline.{Pipeline, TxJob}
use device_serial_scanner.Core.Tx.{Outcome, finish_tx, record_tx_result}
use device_serial_scanner.Core.Life.Tracked.{IsTracked, pending, ids_of, contains-drop}
use device_serial_scanner.Core.Life.{Life, logged}

-- What finish_tx makes of the pipeline.
pub record Finished (job : TxJob) (out : Outcome) (line line' : Pipeline) : Type 0 where
  pub queue_is : line'.tx.items ≡ line.tx.items
  pub active_is : line'.tx_active ≡ remove job.ref.id line.tx_active
  pub failed : out.written_at ≡ none → line'.written ≡ line.written
  pub remembered :
      (at : ℕ) → out.written_at ≡ some at → remember job.ref.id at line.written ≡ some line'.written

pub finish_tx-Finished :
    (job : TxJob) (out : Outcome) (line line' : Pipeline)
    → finish_tx job out line ≡ some line'
    → Finished job out line line'
unfolding finish_tx record_tx_result
finish_tx-Finished job out line line' h = ground arith

-- The job that came to its end is no longer in hand.
module _ (s t : Life) (job : TxJob) (i : IsTracked s) (taken : s.taken ≡ some job)
    (free : t.taken ≡ none) (queue : t.line.tx.items ≡ s.line.tx.items)
    (active : t.line.tx_active ≡ remove job.ref.id s.line.tx_active)
    (accepted : t.accepted ≡ s.accepted) (ended : t.ended ≡ s.ended ++ job ∷ []) where
  before : pending s ≡ job ∷ s.line.tx.items
  before = rw taken

  now_pending : pending t ≡ s.line.tx.items
  now_pending = rw (free, queue)

  IsDistinct-then : IsDistinct (job.ref.id ∷ ids_of s.line.tx.items)
  IsDistinct-then = rw before at i.distinct

  in_hand-now :
      (id : Bytes) → is_some (lookup id t.line.tx_active) ≡ contains (ids_of (pending t)) id
  unfolding contains
  in_hand-now id =
      rw (now_pending, active)
        (ground (
          arith,
          lookup-remove job.ref.id id s.line.tx_active,
          rw before at (i.in_hand id),
          IsDistinct-then.0,
          text_eq_iff job.ref.id id,
        ))

  still-apart :
      (id : Bytes)
      → contains (ids_of (pending t)) id ≡ true
      → contains s.line.written.order id ≡ false
  unfolding contains
  still-apart id h = i.apart id (rw before (ground (arith, rw now_pending at h)))

  conserved-now : t.accepted ≡ t.ended ++ pending t
  conserved-now =
      rw (accepted, ended, now_pending)
        (i.conserved
          ∙ ap (λ p. s.ended ++ p) before
          ∙ sym (append_assoc s.ended (job ∷ []) s.line.tx.items))

  failed-IsTracked :
      t.line.written ≡ s.line.written → t.written_log ≡ s.written_log ++ [] → IsTracked t
  failed-IsTracked w l = record {
    consistent = rw w i.consistent;
    positive = rw w i.positive;
    distinct = rw now_pending IsDistinct-then.1;
    in_hand = in_hand-now;
    apart = λ id h. rw w (still-apart id h);
    order_is = rw (w, l, append-nil) i.order_is;
    conserved = conserved-now;
  }

  own-apart : contains s.line.written.order job.ref.id ≡ false
  unfolding contains
  own-apart = i.apart job.ref.id (rw before (ground (arith, text_eq_refl job.ref.id)))

  -- The id leaves the queue and enters the memory.
  own-fresh : contains (ids_of s.line.tx.items) job.ref.id ≡ false
  own-fresh = IsDistinct-then.0

  order-written :
      (limit : ℕ) (order : List Bytes)
      → s.line.written.limit ≡ limit
      → order
        ≡ drop (length s.line.written.order + 1 - limit) (s.line.written.order ++ job.ref.id ∷ [])
      → order
        ≡ drop
            (length (s.written_log ++ job.ref.id ∷ []) - limit)
            (s.written_log ++ job.ref.id ∷ [])
  order-written limit order e h =
      let last : s.line.written.order ≡ drop (length s.written_log - limit) s.written_log =
        rw e at i.order_is in
      h
      ∙ ap (λ n. drop (n - limit) (s.line.written.order ++ job.ref.id ∷ []))
          (sym (length-append s.line.written.order (job.ref.id ∷ [])))
      ∙ ap (λ o. drop (length (o ++ job.ref.id ∷ []) - limit) (o ++ job.ref.id ∷ [])) last
      ∙ drop-last s.written_log (job.ref.id ∷ []) limit

  apart-written :
      (n : ℕ) (id : Bytes)
      → contains (ids_of (pending t)) id ≡ true
      → contains (drop n (s.line.written.order ++ job.ref.id ∷ [])) id ≡ false
  apart-written n id h =
      let own = job.ref.id in
      let different : text_eq own id ≡ false =
        ground (arith, rw now_pending at h, own-fresh, text_eq_iff own id) in
      contains-drop n (s.line.written.order ++ own ∷ []) id
        (ground (arith, contains-append s.line.written.order own id, still-apart id h))

  written-IsTracked :
      (at : ℕ)
      → remember job.ref.id at s.line.written ≡ some t.line.written
      → t.written_log ≡ s.written_log ++ job.ref.id ∷ []
      → IsTracked t
  written-IsTracked at m l =
      let id = job.ref.id in
      let old = s.line.written in
      let limit = old.limit in
      let (kept, m', r) = remember-Remembers id at old i.consistent i.positive in
      let w : t.line.written ≡ kept = ground (arith, m, m') in
      let order : kept.order ≡ drop (length old.order + 1 - limit) (old.order ++ id ∷ []) =
        rw own-apart at r.order_is in
      record {
        consistent = rw w r.consistent;
        positive = rw (w, r.same_limit) i.positive;
        distinct = rw now_pending IsDistinct-then.1;
        in_hand = in_hand-now;
        apart = λ j h. rw (w, order) (apart-written (length old.order + 1 - limit) j h);
        order_is = rw (w, l, r.same_limit) (order-written limit kept.order refl order);
        conserved = conserved-now;
      }

pub ends-IsTracked :
    (s : Life) (job : TxJob) (out : Outcome) (line : Pipeline)
    → IsTracked s
    → s.taken ≡ some job
    → finish_tx job out s.line ≡ some line
    → IsTracked (record s {
      line = line;
      taken = none;
      ended = s.ended ++ job ∷ [];
      written_log = s.written_log ++ logged job.ref.id out.written_at;
    })
ends-IsTracked s job out line i taken h =
    let f = finish_tx-Finished job out s.line line h in
    let t : Life = record s {
      line = line;
      taken = none;
      ended = s.ended ++ job ∷ [];
      written_log = s.written_log ++ logged job.ref.id out.written_at;
    } in
    elim (Option-cases out.written_at) [
      | inl e ↦
          failed-IsTracked s t job i taken refl f.queue_is f.active_is refl refl (f.failed e)
            (ap (λ o. s.written_log ++ logged job.ref.id o) e)
      | inr (at, e) ↦
          written-IsTracked s t job i taken refl f.queue_is f.active_is refl refl at
            (f.remembered at e) (ap (λ o. s.written_log ++ logged job.ref.id o) e)
    ]
