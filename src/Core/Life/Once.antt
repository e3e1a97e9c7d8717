-- ===== src/Core/Life/Once.antt =====
-- An id is written at most once among the most recent writes, internal/core/tx.go: admission
-- refuses an id in hand or remembered, and the memory holds the last ids written.
use device_serial_scanner.Common.{
  ℕ, ◌-◌, ◌≡◌, refl, sym, ap, ◌∙◌, inl, inr, ◌⊎◌, false, none, some, List, [], ◌∷◌, ◌++◌,
  append-nil, Bytes, length, length-append, lookup, remove, lookup-remove, drop, text_eq_refl,
  arith, Option-cases,
}
use device_serial_scanner.Core.WrittenIds.{WrittenIds, remember}
use device_serial_scanner.Core.WrittenIds.Memory.{contains, remember-Remembers}
use device_serial_scanner.Core.Pipeline.{Pipeline, TxJob}
use device_serial_scanner.Core.Tx.Admission.{record_tx_result-told}
use device_serial_scanner.Queue.{tx}
use device_serial_scanner.Core.Tx.{Outcome, finish_tx, record_tx_result}
use device_serial_scanner.Core.Life.{
  Life, admit, logged, Step, admits, takes, sets_stage, progresses, ends, stops, elsewhere, Reach,
  here, then_step, IsNew,
}
use device_serial_scanner.Core.Life.Tracked.{IsTracked, admit-written}
use device_serial_scanner.Core.Life.Tracked.Ended.{finish_tx-Finished}
use device_serial_scanner.Core.Life.Tracked.Steps.{Reach-IsTracked}

-- No write of an id stands among the `limit` writes before another write of it.
abbrev pub IsSpaced : ℕ → List Bytes → Type 0
IsSpaced limit log =
    (before after : List Bytes) (id : Bytes)
    → log ≡ before ++ id ∷ after
    → contains (drop (length before - limit) before) id ≡ false

-- Where a list with one more at its end is cut: at that one, or within the list.
last-cases {ℓ} :
    {A : Type ℓ} (xs before after : List A) (x y : A)
    → xs ++ y ∷ [] ≡ before ++ x ∷ after
    → ((xs ≡ before) × (y ≡ x)) ⊎ ((rest : List A) × (xs ≡ before ++ x ∷ rest))
last-cases [] [] after x y h = inl (refl, ground arith)
last-cases [] (b ∷ before) after x y h =
    absurd (omega (arith, ap length h, length-append before (x ∷ after)))
last-cases (z ∷ xs) [] after x y h = inr (xs, (ground arith))
last-cases (z ∷ xs) (b ∷ before) after x y h =
    elim (last-cases xs before after x y (ground arith)) [
      | inl (e, e') ↦ inl (ap (◌∷◌ z) e ∙ ap (λ w. w ∷ before) (ground arith), e')
      | inr (rest, e) ↦ inr (rest, ap (◌∷◌ z) e ∙ ap (λ w. w ∷ before ++ x ∷ rest) (ground arith))
    ]

IsSpaced-append :
    (limit : ℕ) (log : List Bytes) (id : Bytes)
    → IsSpaced limit log
    → contains (drop (length log - limit) log) id ≡ false
    → IsSpaced limit (log ++ id ∷ [])
IsSpaced-append limit log id spaced fresh before after x h =
    elim (last-cases log before after x id h) [
      | inl (e, e') ↦ rw (sym e, sym e') fresh
      | inr (rest, e) ↦ spaced before rest x e
    ]

taken-fresh :
    (s : Life) (job : TxJob)
    → IsTracked s
    → s.taken ≡ some job
    → contains s.line.written.order job.ref.id ≡ false
unfolding contains
taken-fresh s job i taken = i.apart job.ref.id (rw taken (ground (arith, text_eq_refl job.ref.id)))

ends-IsSpaced :
    (s : Life) (job : TxJob) (out : Outcome) (line : Pipeline)
    → IsTracked s
    → s.taken ≡ some job
    → finish_tx job out s.line ≡ some line
    → IsSpaced s.line.written.limit s.written_log
    → IsSpaced line.written.limit (s.written_log ++ logged job.ref.id out.written_at)
ends-IsSpaced s job out line i taken h spaced =
    let f = finish_tx-Finished job out s.line line h in
    let id = job.ref.id in
    elim (Option-cases out.written_at) [
      | inl e ↦ rw (e, f.failed e, append-nil) spaced
      | inr (at, e) ↦
          let (kept, m, r) = remember-Remembers id at s.line.written i.consistent i.positive in
          let w : line.written ≡ kept = ground (arith, m, f.remembered at e) in
          let fresh : contains s.line.written.order id ≡ false = taken-fresh s job i taken in
          rw (e, w, r.same_limit)
            (IsSpaced-append s.line.written.limit s.written_log id spaced (rw i.order_is at fresh))
    ]

Step-IsSpaced :
    (s t : Life)
    → IsTracked s
    → Step s t
    → IsSpaced s.line.written.limit s.written_log
    → IsSpaced t.line.written.limit t.written_log
unfolding admit
Step-IsSpaced _ _ i (admits s codec now message) h = rw (admit-written s codec now message) h
Step-IsSpaced _ _ i (takes s job q free p) h = h
Step-IsSpaced _ _ i (sets_stage s job st stage at taken l) h = h
Step-IsSpaced _ _ i (progresses s job st n taken l) h = h
Step-IsSpaced _ _ i (ends s job rounds out line taken w f) h =
    ends-IsSpaced s job out line i taken f h
Step-IsSpaced _ _ i (stops s) h = h
Step-IsSpaced _ _ i (elsewhere s line same) h = rw same.same_written h

-- The ids written to a device, in order, from a new pipeline on and whatever interleaves: no id
-- that is written stands among the `limit` writes before it, `limit` being the memory's bound. So a
-- tx that is delivered again is not written twice, unless so many others were written between.
pub Reach-IsSpaced :
    (s t : Life) → IsNew s → Reach s t → IsSpaced t.line.written.limit t.written_log
Reach-IsSpaced s _ n here =
    rw n.none_logged
      (λ before after id h. absurd (omega (arith, ap length h, length-append before (id ∷ after))))
Reach-IsSpaced s u n (then_step {t = t} r step) =
    Step-IsSpaced t u (Reach-IsTracked s t n r) step (Reach-IsSpaced s t n r)

finish_tx-some :
    (job : TxJob) (out : Outcome) (line : Pipeline) (kept : WrittenIds) (at : ℕ)
    → out.written_at ≡ some at
    → remember job.ref.id at line.written ≡ some kept
    → finish_tx job out line
      ≡ some (record (record_tx_result out.result out.at line) {
        tx_active = remove job.ref.id (record_tx_result out.result out.at line).tx_active;
        written = kept;
      })
unfolding finish_tx record_tx_result
finish_tx-some job out line kept at e m = ground arith

-- In a state that a new pipeline reaches, the writer can give back the job in its hand with any
-- outcome: the bookkeeping never meets the empty slice of the memory of written ids. It leaves the
-- outcome's result at the end of the status queue, the id no longer in hand, and, if the job was
-- written, the id remembered with the time of the write.
pub Reach-finish_tx :
    (s t : Life) (job : TxJob) (out : Outcome)
    → IsNew s
    → Reach s t
    → t.taken ≡ some job
    → (line : Pipeline) × (finish_tx job out t.line ≡ some line)
      × (line.status.items
          ≡ t.line.status.items ++ tx (record { result = out.result; at = out.at }) ∷ [])
      × (lookup job.ref.id line.tx_active ≡ none)
      × ((at : ℕ) → out.written_at ≡ some at → lookup job.ref.id line.written.at ≡ some at)
unfolding finish_tx record_tx_result
Reach-finish_tx s t job out n r taken =
    let i = Reach-IsTracked s t n r in
    let id = job.ref.id in
    let after = record_tx_result out.result out.at t.line in
    let line : Pipeline = record after { tx_active = remove id after.tx_active } in
    let told = record_tx_result-told out.result out.at t.line in
    let left : lookup id (remove id after.tx_active) ≡ none =
      ground (arith, lookup-remove id id after.tx_active, text_eq_refl id) in
    elim (Option-cases out.written_at) [
      | inl e ↦ (line, rw e refl, told, left, λ at h. absurd (ground arith))
      | inr (at, e) ↦
          let (kept, m, r) = remember-Remembers id at t.line.written i.consistent i.positive in
          (
            record line { written = kept },
            finish_tx-some job out t.line kept at e m,
            told,
            left,
            λ j h. r.answers_self ∙ ap some (ground arith),
          )
    ]
