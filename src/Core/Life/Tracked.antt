-- ===== src/Core/Life/Tracked.antt =====
-- The ids in hand, the queue and the memory of written ids agree, whatever interleaves.
pub mod Ended
pub mod Steps
use device_serial_scanner.Common.{
  ℕ, zero, suc, ◌-◌, ◌≤◌, ◌≡◌, ◌≢◌, refl, sym, ap, ◌∙◌, inl, inr, ◌⊎◌, Bool, true, false, Option,
  none, some, List, [], ◌∷◌, ◌++◌, map, append_assoc, append-nil, Bytes, Assoc, lookup, remove, put,
  lookup-put, lookup-remove, length, length-append, drop, drop-last, drop-length-append, text_eq,
  text_eq_iff, text_eq_refl, if◌then◌else◌, arith, Option-cases, Bool-cases,
}
use device_serial_scanner.Wire.Tx.{TxCode, code_accepted, queued}
use device_serial_scanner.Wire.ReadTx.{Codec, read_tx, readable}
use device_serial_scanner.Queue.{push, pop}
use device_serial_scanner.Core.WrittenIds.{WrittenIds, remember}
use device_serial_scanner.Core.WrittenIds.Memory.{
  contains, IsDistinct, is_some, IsConsistent, Remembers, remember-Remembers, contains-append,
  IsDistinct-append,
}
use device_serial_scanner.Core.Pipeline.{Pipeline, TxJob, Standing}
use device_serial_scanner.Core.Tx.{
  TxMessage, Outcome, admit_tx_to, finish_tx, record_tx_result, new_job,
}
use device_serial_scanner.Core.Tx.Admission.{Admitted, IsFree, SameTx, admit_tx_to-Admitted}
use device_serial_scanner.Core.Life.{Life, admit, logged, Step, Reach, IsNew}

abbrev pub held : Option TxJob → List TxJob
held none = []
held (some job) = job ∷ []

-- The jobs that have been accepted and have not come to an end: the one that the writer has, and
-- those that wait.
abbrev pub pending : Life → List TxJob
pending s = held s.taken ++ s.line.tx.items

abbrev pub ids_of : List TxJob → List Bytes
ids_of jobs = map (λ job. job.ref.id) jobs

pub record IsTracked (s : Life) : Type 0 where
  pub consistent : IsConsistent s.line.written
  pub positive : 1 ≤ s.line.written.limit
  pub distinct : IsDistinct (ids_of (pending s))
  pub in_hand :
      (id : Bytes) → is_some (lookup id s.line.tx_active) ≡ contains (ids_of (pending s)) id
  pub apart :
      (id : Bytes)
      → contains (ids_of (pending s)) id ≡ true
      → contains s.line.written.order id ≡ false
  pub order_is :
      s.line.written.order ≡ drop (length s.written_log - s.line.written.limit) s.written_log
  pub conserved : s.accepted ≡ s.ended ++ pending s

TxCode-discrete : Discrete TxCode
TxCode-discrete = hlevel

pub ids_of-append : (xs ys : List TxJob) → ids_of (xs ++ ys) ≡ ids_of xs ++ ids_of ys
ids_of-append [] ys = refl
ids_of-append (x ∷ xs) ys = ap (◌∷◌ x.ref.id) (ids_of-append xs ys)

pub contains-drop :
    (n : ℕ) (xs : List Bytes) (id : Bytes)
    → contains xs id ≡ false
    → contains (drop n xs) id ≡ false
unfolding contains
contains-drop zero xs id h = h
contains-drop (suc n) [] id h = refl
contains-drop (suc n) (x ∷ xs) id h = contains-drop n xs id (ground arith)

-- A change that keeps the ids in hand, the queue's content, the memory and the record of events.
pub same-IsTracked :
    (s t : Life)
    → IsTracked s
    → pending t ≡ pending s
    → ((id : Bytes) → is_some (lookup id t.line.tx_active) ≡ is_some (lookup id s.line.tx_active))
    → t.line.written ≡ s.line.written
    → t.written_log ≡ s.written_log
    → t.accepted ≡ s.accepted
    → t.ended ≡ s.ended
    → IsTracked t
same-IsTracked s t i p a w l c e = record {
  consistent = rw w i.consistent;
  positive = rw w i.positive;
  distinct = rw p i.distinct;
  in_hand = λ id. rw p (a id ∙ i.in_hand id);
  apart = λ id. rw (p, w) (i.apart id);
  order_is = rw (w, l) i.order_is;
  conserved = rw (c, e, p) i.conserved;
}

pub is_some-put :
    (id j : Bytes) (st : Standing) (active : Assoc Standing)
    → is_some (lookup id active) ≡ true
    → is_some (lookup j (put id st active)) ≡ is_some (lookup j active)
is_some-put id j st active h = ground (arith, lookup-put id j st active, text_eq_iff id j)

-- One more job, with an id that is neither in hand nor remembered.
more-IsTracked :
    (s t : Life) (job : TxJob) (st : Standing)
    → IsTracked s
    → lookup job.ref.id s.line.tx_active ≡ none
    → lookup job.ref.id s.line.written.at ≡ none
    → pending t ≡ pending s ++ job ∷ []
    → t.line.tx_active ≡ put job.ref.id st s.line.tx_active
    → t.line.written ≡ s.line.written
    → t.written_log ≡ s.written_log
    → t.accepted ≡ s.accepted ++ job ∷ []
    → t.ended ≡ s.ended
    → IsTracked t
more-IsTracked s t job st i free unwritten p a w l c e =
    let id = job.ref.id in
    let ids = ids_of (pending s) in
    let ids_are : ids_of (pending t) ≡ ids ++ id ∷ [] =
      ap ids_of p ∙ ids_of-append (pending s) (job ∷ []) in
    let fresh : contains ids id ≡ false = sym (i.in_hand id) ∙ ap is_some free in
    let unknown : contains s.line.written.order id ≡ false =
      sym (i.consistent.agrees id) ∙ ap is_some unwritten in
    record {
      consistent = rw w i.consistent;
      positive = rw w i.positive;
      distinct = rw ids_are (IsDistinct-append ids id i.distinct fresh);
      in_hand = λ j.
          rw (ids_are, a)
            (ground
              (arith, lookup-put id j st s.line.tx_active, i.in_hand j, contains-append ids id j));
      apart = λ j.
          rw (ids_are, w)
            (λ h. ground (arith, i.apart j, contains-append ids id j, text_eq_iff id j));
      order_is = rw (w, l) i.order_is;
      conserved =
          rw (c, e, p)
            (ap (λ xs. xs ++ job ∷ []) i.conserved ∙ append_assoc s.ended (pending s) (job ∷ []));
    }

pub admit-IsTracked :
    (s : Life) (codec : Codec) (now : ℕ) (message : TxMessage)
    → IsTracked s
    → IsTracked (admit codec now message s)
unfolding admit
admit-IsTracked s codec now message i =
    let line = s.line in
    let line' = admit_tx_to codec now s.stopping message line in
    let ref = (read_tx codec message.payload).0 in
    let t = admit codec now message s in
    let a : Admitted now s.stopping message ref (read_tx codec message.payload).1 line line' =
      admit_tx_to-Admitted codec now s.stopping message line in
    let added = drop (length line.tx.items) in
    elim (TxCode-discrete a.result.code code_accepted) [
      | yes q ↦
          let ((raw, read), free) = a.accepted_iff.0 q in
          let (queue, active, written) = a.taken raw read q in
          let job = new_job ref raw message in
          let items : line'.tx.items ≡ line.tx.items ++ job ∷ [] = ap (λ q. q.items) queue in
          more-IsTracked s t job _ i free.not_in_hand free.not_written
            (ap (λ xs. held s.taken ++ xs) items
              ∙ sym (append_assoc (held s.taken) line.tx.items (job ∷ [])))
            active written refl
            (ap (λ xs. s.accepted ++ added xs) items
              ∙ ap (λ xs. s.accepted ++ xs) (drop-length-append line.tx.items (job ∷ [])))
            refl
      | no q ↦
          let same = a.not_taken q in
          let items : line'.tx.items ≡ line.tx.items = ap (λ q. q.items) same.same_queue in
          let none_added : added line.tx.items ≡ [] =
            ap added (sym (append-nil line.tx.items)) ∙ drop-length-append line.tx.items [] in
          same-IsTracked s t i (ap (λ xs. held s.taken ++ xs) items)
            (λ id. ap (λ m. is_some (lookup id m)) same.same_active) same.same_written refl
            (ap (λ xs. s.accepted ++ added xs) items
              ∙ ap (λ xs. s.accepted ++ xs) none_added
              ∙ append-nil s.accepted)
            refl
    ]

pub admit-written :
    (s : Life) (codec : Codec) (now : ℕ) (message : TxMessage)
    → (admit codec now message s).line.written ≡ s.line.written
unfolding admit
admit-written s codec now message =
    let a = admit_tx_to-Admitted codec now s.stopping message s.line in
    elim (TxCode-discrete a.result.code code_accepted) [
      | yes q ↦ let ((raw, read), free) = a.accepted_iff.0 q in (a.taken raw read q).2
      | no q ↦ (a.not_taken q).same_written
    ]
