-- ===== src/Scheduler/Queue.antt =====
-- The queues of lib/scheduler.c hold their tasks first in, first out.
use bare_metal_os_kernel.Base.{
  ℕ, zero, suc, ◌<◌, ◌≡◌, refl, ap, ◌∙◌, false, Option, none, some, List, [], ◌∷◌, ◌++◌, length,
  length-append, ◌+◌, has, Distinct, has-ne, Chain, Chain-frame, Chain-append, last, has-last,
  has-append_self, update, ok, ◌==◌, arith, Returns,
}
use bare_metal_os_kernel.Scheduler.{Task, set_next, last_of, enqueue, dequeue}

-- From `head` the `next` pointers lead through the tasks.
abbrev pub Tasks : (ℕ → Task) → (head : Option ℕ) → List ℕ → Type 0
Tasks tasks head xs = Chain (λ a. (tasks a).next) head xs

last_of-last :
    (fuel : ℕ) (tasks : ℕ → Task) (prev : ℕ) (cur : Option ℕ) (xs : List ℕ)
    → length xs < fuel
    → Tasks tasks cur xs
    → last_of fuel tasks prev cur ≡ ok (last prev xs)
unfolding last_of
last_of-last zero tasks prev cur xs lt c = absurd (omega arith)
last_of-last (suc fuel) tasks prev cur [] lt c = rw (c, last_of)
last_of-last (suc fuel) tasks prev cur (x ∷ xs) lt c =
    rw (c.0, last_of) (last_of-last fuel tasks x (tasks x).next xs (omega arith) c.1)

-- A write to the `next` of another task.
set_next-out :
    (a : ℕ) (n : Option ℕ) (tasks : ℕ → Task) (b : ℕ)
    → (a == b) ≡ false
    → (set_next a n tasks b).next ≡ (tasks b).next
set_next-out a n tasks b ne = rw ne

set_next-update :
    (a : ℕ) (n : Option ℕ) (tasks : ℕ → Task) (b : ℕ)
    → (set_next a n tasks b).next ≡ update (λ c. (tasks c).next) a n b
set_next-update a n tasks b = ground arith

pub Tasks-set_next :
    (a : ℕ) (n : Option ℕ) (tasks : ℕ → Task) (head : Option ℕ) (xs : List ℕ)
    → has a xs ≡ false
    → Tasks tasks head xs
    → Tasks (set_next a n tasks) head xs
Tasks-set_next a n tasks head xs out c =
    Chain-frame _ _ head xs (λ b m. set_next-out a n tasks b (has-ne a b xs out m)) c

set_next-fields :
    (a : ℕ) (n : Option ℕ) (tasks : ℕ → Task) (b : ℕ)
    → record (set_next a n tasks b) { next = none } ≡ record (tasks b) { next = none }
set_next-fields a n tasks b = ground arith

-- What `enqueue` leaves: the queue with the task behind it, and all else of every task as before.
pub record Enqueued (tasks : ℕ → Task) (xs : List ℕ) (new_task : ℕ) (r : Option ℕ × (ℕ → Task))
    : Type 0 where
  pub queue : Tasks r.1 r.0 (xs ++ new_task ∷ [])
  pub others : (a : ℕ) → has a (xs ++ new_task ∷ []) ≡ false → r.1 a ≡ tasks a
  pub fields : (a : ℕ) → record (r.1 a) { next = none } ≡ record (tasks a) { next = none }

pub enqueue-Enqueued :
    (fuel : ℕ) (head : Option ℕ) (new_task : ℕ) (tasks : ℕ → Task) (xs : List ℕ)
    → length xs < fuel
    → Distinct xs
    → has new_task xs ≡ false
    → Tasks tasks head xs
    → Returns (Enqueued tasks xs new_task) (enqueue fuel head new_task tasks)
unfolding enqueue
enqueue-Enqueued fuel head new_task tasks [] lt d out c = (
  (some new_task, set_next new_task none tasks),
  rw (c, enqueue),
  record {
    queue = (refl, ground arith);
    others = λ a m. ground (arith, m);
    fields = λ a. set_next-fields new_task none tasks a;
  },
)
enqueue-Enqueued fuel head new_task tasks (x ∷ xs) lt d out c = (
  (some x, set_next (last x xs) (some new_task) tasks'),
  rw (c.0, enqueue, last_of-last fuel tasks' x (some x) (x ∷ xs) lt kept),
  record {
    queue =
        Chain-frame _ _ (some x) (x ∷ xs ++ new_task ∷ [])
          (λ a m. set_next-update (last x xs) (some new_task) tasks' a)
          (Chain-append (λ a. (tasks' a).next) (some x) x xs new_task kept d out (ground arith));
    others = λ a m. apart a m;
    fields = λ a.
        set_next-fields (last x xs) (some new_task) tasks' a
        ∙ set_next-fields new_task none tasks a;
  },
)
  where
    tasks' : ℕ → Task
    tasks' = set_next new_task none tasks

    kept : Tasks tasks' (some x) (x ∷ xs)
    kept = Tasks-set_next new_task none tasks (some x) (x ∷ xs) out (refl, c.1)

    apart :
        (a : ℕ)
        → has a (x ∷ xs ++ new_task ∷ []) ≡ false
        → set_next (last x xs) (some new_task) tasks' a ≡ tasks a
    apart a m = ground (
      arith,
      has-ne a (last x xs) (x ∷ xs ++ new_task ∷ []) m (has-last x xs (new_task ∷ [])),
      has-ne a new_task (x ∷ xs ++ new_task ∷ []) m (has-append_self new_task (x ∷ xs)),
    )

pub dequeue-Tasks :
    (head : Option ℕ) (tasks : ℕ → Task) (x : ℕ) (xs : List ℕ)
    → Tasks tasks head (x ∷ xs)
    → dequeue head tasks ≡ (some x, (tasks x).next)
unfolding dequeue
dequeue-Tasks head tasks x xs c = rw (c.0, dequeue)

-- `n` calls of `dequeue`, and what they return.
unfoldable pub drain : ℕ → Option ℕ → (ℕ → Task) → List ℕ
drain zero head tasks = []
drain (suc n) head tasks =
    let (t, rest) = dequeue head tasks in elim t [ none ↦ [] | some a ↦ a ∷ drain n rest tasks ]

length_snoc : (xs : List ℕ) (a : ℕ) → length (xs ++ a ∷ []) ≡ length xs + 1
length_snoc xs a = length-append xs (a ∷ [])

drain-Tasks :
    (head : Option ℕ) (tasks : ℕ → Task) (xs : List ℕ)
    → Tasks tasks head xs
    → drain (length xs) head tasks ≡ xs
unfolding drain
drain-Tasks head tasks [] c = refl
drain-Tasks head tasks (x ∷ xs) c =
    rw (drain, dequeue-Tasks head tasks x xs c, dequeue-Tasks head tasks x xs c)
      (ap (λ l. x ∷ l) (drain-Tasks (tasks x).next tasks xs c.1))

-- `enqueue` of a task behind a well-formed queue `xs` that does not hold it returns; taking tasks
-- off the result one by one gives those of `xs` in their order, and then the new one. Of all tasks
-- only the links of the queue change.
pub enqueue_fifo :
    (fuel : ℕ) (head : Option ℕ) (new_task : ℕ) (tasks : ℕ → Task) (xs : List ℕ)
    → length xs < fuel
    → Distinct xs
    → has new_task xs ≡ false
    → Tasks tasks head xs
    → Returns
        (λ r.
          (drain (length xs + 1) r.0 r.1 ≡ xs ++ new_task ∷ [])
          × ((a : ℕ) → record (r.1 a) { next = none } ≡ record (tasks a) { next = none }))
        (enqueue fuel head new_task tasks)
enqueue_fifo fuel head new_task tasks xs lt d out c =
    let (r, run, e) = enqueue-Enqueued fuel head new_task tasks xs lt d out c in
    (
      r,
      run,
      (
        rw (← length_snoc xs new_task) (drain-Tasks r.0 r.1 (xs ++ new_task ∷ []) e.queue),
        e.fields,
      ),
    )
