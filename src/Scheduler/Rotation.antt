-- ===== src/Scheduler/Rotation.antt =====
-- `schedule` of lib/scheduler.c hands the processor round in the order of the run queue.
use bare_metal_os_kernel.Base.{
  ℕ, ◌<◌, ◌≡◌, ◌≢◌, refl, ap, ◌∙◌, true, false, Option, none, some, List, [], ◌∷◌, ◌++◌, length,
  has, Distinct, has-ne, has-snoc, Distinct-snoc, Chain-frame, ok, ◌==◌, arith,
}
use bare_metal_os_kernel.Scheduler.{
  State, exit, running, waitting, Task, Scheduler, set_next, enqueue_run, switched, put_back,
  schedule_with, schedule,
}
use bare_metal_os_kernel.Scheduler.Queue.{
  Tasks, Tasks-set_next, Enqueued, enqueue-Enqueued, dequeue-Tasks,
}

-- The run queue holds `xs` and the zombies `zs`; no task stands twice, and the one that runs is in
-- neither queue.
pub record Queues (s : Scheduler) (xs zs : List ℕ) : Type 0 where
  pub ready : Tasks s.tasks s.run_queue xs
  pub zombies : Tasks s.tasks s.zombies_queue zs
  pub distinct_ready : Distinct xs
  pub distinct_zombies : Distinct zs
  pub apart : (a : ℕ) → has a xs ≡ true → has a zs ≡ false
  pub current_ready : has s.current xs ≡ false
  pub current_zombies : has s.current zs ≡ false

-- The state from which `schedule` goes on to the next task `n`.
abbrev pub taken_off : Scheduler → ℕ → Scheduler
taken_off s n = record s { run_queue = (s.tasks n).next; tasks = set_next s.current none s.tasks }

pub schedule-with :
    (fuel : ℕ) (s : Scheduler) (n : ℕ) (xs zs : List ℕ)
    → Queues s (n ∷ xs) zs
    → schedule fuel s ≡ schedule_with fuel (some n) (taken_off s n)
unfolding schedule
schedule-with fuel s n xs zs q = rw (dequeue-Tasks s.run_queue s.tasks n xs q.ready)

pub taken_off-ready :
    (s : Scheduler) (n : ℕ) (xs zs : List ℕ)
    → Queues s (n ∷ xs) zs
    → Tasks (set_next s.current none s.tasks) (s.tasks n).next xs
taken_off-ready s n xs zs q =
    Tasks-set_next s.current none s.tasks (s.tasks n).next xs (ground (arith, q.current_ready))
      q.ready.1

put_back_ready :
    (fuel : ℕ) (st : State) (t : ℕ) (s : Scheduler)
    → st ≢ exit
    → put_back fuel st t s ≡ enqueue_run fuel t s
unfolding put_back
put_back_ready fuel exit t s ne = absurd (ne refl)
put_back_ready fuel running t s ne = refl
put_back_ready fuel waitting t s ne = refl

-- The tasks of the queue that is not touched are as they were.
pub spared :
    (s : Scheduler) (xs zs : List ℕ) (r : Option ℕ × (ℕ → Task)) (head : Option ℕ)
    → Enqueued (set_next s.current none s.tasks) xs s.current r
    → ((a : ℕ) → has a zs ≡ true → has a xs ≡ false)
    → has s.current zs ≡ false
    → Tasks s.tasks head zs
    → Tasks r.1 head zs
spared s xs zs r head e apart out c =
    Chain-frame _ _ head zs
      (λ a m.
        let ne : (a == s.current) ≡ false = ground (arith, has-ne s.current a zs out m) in
        let new : has a (xs ++ s.current ∷ []) ≡ false =
          ground (arith, has-snoc a s.current xs, apart a m) in
        ap (λ t. t.next) (e.others a new) ∙ ground arith)
      c

still_alive :
    (s : Scheduler)
    → (s.tasks s.current).state ≢ exit
    → (set_next s.current none s.tasks s.current).state ≢ exit
still_alive s alive e = alive (ground arith)

-- With a next task `n` and a running task that has not exited, `schedule` goes on in `n`; the task
-- that ran is now the last of the run queue, the zombies are as before, and no field of a task but
-- the links has changed.
pub schedule_rotates :
    (fuel : ℕ) (s : Scheduler) (n : ℕ) (xs zs : List ℕ)
    → length xs < fuel
    → Queues s (n ∷ xs) zs
    → (s.tasks s.current).state ≢ exit
    → (s' : Scheduler) × (schedule fuel s ≡ ok (switched n s'))
      × (s'.current ≡ n)
      × Queues s' (xs ++ s.current ∷ []) zs
      × ((a : ℕ) → record (s'.tasks a) { next = none } ≡ record (s.tasks a) { next = none })
unfolding schedule_with enqueue_run
schedule_rotates fuel s n xs zs lt q alive =
    let (r, run, e) =
      enqueue-Enqueued fuel (s.tasks n).next s.current (set_next s.current none s.tasks) xs lt
        q.distinct_ready.1 (ground (arith, q.current_ready)) (taken_off-ready s n xs zs q) in
    (
      record s { tasks = r.1; run_queue = r.0; current = n },
      rw (
        schedule-with fuel s n xs zs q,
        put_back_ready fuel _ s.current (taken_off s n) (still_alive s alive),
        run,
      ),
      refl,
      record {
        ready = e.queue;
        zombies =
            spared s xs zs r s.zombies_queue e (λ a m. ground (arith, q.apart a)) q.current_zombies
              q.zombies;
        distinct_ready =
            Distinct-snoc s.current xs q.distinct_ready.1 (ground (arith, q.current_ready));
        distinct_zombies = q.distinct_zombies;
        apart = λ a m. ground (arith, has-snoc a s.current xs, q.apart a, q.current_zombies);
        current_ready = ground (arith, has-snoc n s.current xs, q.current_ready, q.distinct_ready);
        current_zombies = q.apart n (ground arith);
      },
      λ a. e.fields a ∙ ground arith,
    )
