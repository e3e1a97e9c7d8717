-- ===== src/Queue/Wakeup.antt =====
-- The consumer of a waiting queue, and the producers beside it, as interleaved steps: `wait` and
-- `next` of internal/core/queue.go.
use device_serial_scanner.Common.{
  ℕ, ◌≡◌, ◌≢◌, inl, inr, true, false, Option, List, [], ◌∷◌, arith, Option-cases, if◌then◌else◌,
}
use mathlib.Core.List.{concat-ne-nil}
use device_serial_scanner.Queue.{remove_at, WaitingQueue, push_evicting, push, close, pop}

-- Where the consumer stands: about to look at the queue, blocked on the channel `ready`, told by
-- `wait` that there is an item, or told that there will be none.
pub data Consumer : Type 0 where
  looking blocked told finished : Consumer

-- The switch of `wait`, on what it read under the lock.
unfoldable pub look {ℓ} : {A : Type ℓ} → WaitingQueue A → Consumer
look q = elim q.items [ [] ↦ if q.closed then finished else blocked | x ∷ xs ↦ told ]

pub record System {ℓ} (A : Type ℓ) : Type ℓ where
  pub queue : WaitingQueue A
  pub consumer : Consumer

module _ {ℓ} {A : Type ℓ} where
  -- One step of any producer or of the consumer.
  pub data Step : System A → System A → Type ℓ where
    pushes : (s : System A) (x : A) → Step s (record s { queue = push x s.queue })
    pushes_evicting :
        (s : System A) (x : A) (evict : List A → Option ℕ)
        → Step s (record s { queue = (push_evicting x evict s.queue).0 })
    closes : (s : System A) → Step s (record s { queue = close s.queue })
    looks : (s : System A) → s.consumer ≡ looking → Step s (record s { consumer = look s.queue })
    wakes :
        (s : System A)
        → s.consumer ≡ blocked
        → s.queue.ready ≡ true
        → Step s (record { queue = record (s.queue) { ready = false }; consumer = looking })
    takes :
        (s : System A)
        → s.consumer ≡ told
        → Step s (record { queue = (pop s.queue).1; consumer = looking })

  pub data Reach (s : System A) : System A → Type ℓ where
    here : Reach s s
    then_step : {t u : System A} → Reach s t → Step t u → Reach s u

  -- The channel holds a value wherever the consumer would otherwise sleep through something, and
  -- what `wait` promised is there.
  pub record IsAwake (s : System A) : Type ℓ where
    pub woken_by_item : s.consumer ≡ blocked → s.queue.items ≢ [] → s.queue.ready ≡ true
    pub woken_by_close : s.consumer ≡ blocked → s.queue.closed ≡ true → s.queue.ready ≡ true
    pub promised : s.consumer ≡ told → s.queue.items ≢ []

  pushed_ready :
      (q : WaitingQueue A) (x : A) (evict : List A → Option ℕ)
      → (push_evicting x evict q).0.ready ≡ true
  unfolding push_evicting
  pushed_ready q x evict = ground arith

  pushed_ne_nil :
      (q : WaitingQueue A) (x : A) (evict : List A → Option ℕ)
      → (push_evicting x evict q).0.items ≢ []
  unfolding push_evicting
  pushed_ne_nil q x evict = elim (Option-cases (evict q.items)) [
    | inl e ↦ rw (e, push_evicting) (concat-ne-nil x q.items)
    | inr (i, e) ↦ rw (e, push_evicting) (concat-ne-nil x (remove_at i q.items).1)
  ]

  pub Step-IsAwake : {s t : System A} → Step s t → IsAwake s → IsAwake t
  unfolding pop look
  Step-IsAwake (pushes s x) a = ground (arith, concat-ne-nil x s.queue.items)
  Step-IsAwake (pushes_evicting s x evict) a =
      ground (arith, pushed_ready s.queue x evict, pushed_ne_nil s.queue x evict)
  Step-IsAwake (closes s) a = ground arith
  Step-IsAwake (looks s h) a = ground arith
  Step-IsAwake (wakes s h r) a = ground arith
  Step-IsAwake (takes s h) a = ground arith

  -- In every state that steps reach from an awake one, whatever the producers do and in whatever
  -- order: a consumer blocked on the channel has its wake-up waiting there as soon as the queue
  -- holds an item or is closed, so none is lost; and once `wait` has said that there is an item,
  -- one is there when the consumer comes to take it.
  pub Reach-IsAwake : {s t : System A} → IsAwake s → Reach s t → IsAwake t
  Reach-IsAwake a here = a
  Reach-IsAwake a (then_step r st) = Step-IsAwake st (Reach-IsAwake a r)
