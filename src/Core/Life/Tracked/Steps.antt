-- ===== src/Core/Life/Tracked/Steps.antt =====
-- The invariant of the ids in hand through every interleaving of the steps.
use device_serial_scanner.Common.{
  ℕ, ◌-◌, ◌≡◌, refl, sym, ap, none, some, [], ◌∷◌, ◌++◌, Bytes, lookup, put, drop-nil, arith,
}
use device_serial_scanner.Queue.{WaitingQueue, pop}
use device_serial_scanner.Core.WrittenIds.{new_written_ids}
use device_serial_scanner.Core.WrittenIds.Memory.{contains, is_some, IsConsistent}
use device_serial_scanner.Core.Pipeline.{TxJob, Standing}
use device_serial_scanner.Core.Life.Tracked.{
  IsTracked, pending, held, same-IsTracked, is_some-put, admit-IsTracked,
}
use device_serial_scanner.Core.Life.Tracked.Ended.{ends-IsTracked}
use device_serial_scanner.Core.Life.{
  admits, takes, sets_stage, progresses, ends, stops, elsewhere, here, then_step, IsNew, Life, Step,
  Reach, IsNew,
}

takes-pending :
    (s : Life) (job : TxJob) (q : WaitingQueue TxJob)
    → s.taken ≡ none
    → pop s.line.tx ≡ (some job, q)
    → job ∷ q.items ≡ pending s
unfolding pop
takes-pending s job q free h = rw free (ground arith)

set-IsTracked :
    (s : Life) (id : Bytes) (st after : Standing)
    → IsTracked s
    → lookup id s.line.tx_active ≡ some st
    → IsTracked (record s { line = record (s.line) { tx_active = put id after s.line.tx_active } })
set-IsTracked s id st after i h =
    same-IsTracked s _ i refl (λ j. is_some-put id j after s.line.tx_active (ap is_some h)) refl
      refl refl refl

Step-IsTracked : (s t : Life) → Step s t → IsTracked s → IsTracked t
Step-IsTracked _ _ (admits s codec now message) i = admit-IsTracked s codec now message i
Step-IsTracked _ _ (takes s job q free h) i =
    same-IsTracked s _ i (takes-pending s job q free h) (λ j. refl) refl refl refl refl
Step-IsTracked _ _ (sets_stage s job st stage at taken h) i = set-IsTracked s job.ref.id st _ i h
Step-IsTracked _ _ (progresses s job st n taken h) i = set-IsTracked s job.ref.id st _ i h
Step-IsTracked _ _ (ends s job rounds out line taken w h) i =
    ends-IsTracked s job out line i taken h
Step-IsTracked _ _ (stops s) i = same-IsTracked s _ i refl (λ j. refl) refl refl refl refl
Step-IsTracked _ _ (elsewhere s line same) i =
    same-IsTracked s _ i (ap (λ xs. held s.taken ++ xs) same.same_queue)
      (λ j. ap (λ m. is_some (lookup j m)) same.same_active) same.same_written refl refl refl

empty-IsConsistent : (limit : ℕ) → IsConsistent (new_written_ids limit)
unfolding contains lookup
empty-IsConsistent limit = record { bounded = omega arith; distinct = tt; agrees = λ id. refl }

IsNew-IsTracked : (s : Life) → IsNew s → IsTracked s
unfolding contains lookup
IsNew-IsTracked s n =
    let (limit, w, positive) = n.none_written in
    let p : pending s ≡ [] = rw (n.none_taken, n.tx_empty) in
    record {
      consistent = rw w (empty-IsConsistent limit);
      positive = rw w (ground arith);
      distinct = rw p tt;
      in_hand = λ id. rw (p, n.none_active) refl;
      apart = λ id. rw p (λ h. ground arith);
      order_is = rw (w, n.none_logged) (sym (drop-nil (0 - limit)));
      conserved = rw (n.none_accepted, n.none_ended, p);
    }

-- From a new pipeline on, whatever admission, the writer, the stop and the rest of the pipeline do,
-- and in whatever order: the ids in hand are those of the jobs that wait and of the one that the
-- writer has, each once; none of them is remembered as written; the memory holds the last ids that
-- were written, as many as its limit; and every job that was accepted has come to an end, or is
-- pending, in the order of acceptance.
pub Reach-IsTracked : (s t : Life) → IsNew s → Reach s t → IsTracked t
Reach-IsTracked s _ n here = IsNew-IsTracked s n
Reach-IsTracked s u n (then_step {t = t} r step) = Step-IsTracked t u step (Reach-IsTracked s t n r)
