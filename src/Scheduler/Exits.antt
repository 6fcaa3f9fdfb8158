-- ===== src/Scheduler/Exits.antt =====
-- `schedule` of lib/scheduler.c when the running task has exited.
use bare_metal_os_kernel.Base.{
  ℕ, ◌<◌, ◌≡◌, refl, ◌∙◌, none, List, [], ◌∷◌, ◌++◌, length, has-snoc, Distinct-snoc, ok, arith,
}
use bare_metal_os_kernel.Scheduler.{
  State, exit, Scheduler, set_next, enqueue_zombie, switched, put_back, schedule_with, schedule,
}
use bare_metal_os_kernel.Scheduler.Queue.{Tasks-set_next, enqueue-Enqueued}
use bare_metal_os_kernel.Scheduler.Rotation.{Queues, taken_off, schedule-with, spared}

put_back_exited :
    (fuel : ℕ) (st : State) (t : ℕ) (s : Scheduler)
    → st ≡ exit
    → put_back fuel st t s ≡ enqueue_zombie fuel t s
unfolding put_back
put_back_exited fuel st t s e = rw (e, put_back)

still_exited :
    (s : Scheduler)
    → (s.tasks s.current).state ≡ exit
    → (set_next s.current none s.tasks s.current).state ≡ exit
still_exited s e = ground arith

-- With a next task `n` and a running task that has exited, `schedule` goes on in `n`; the task that
-- ran is the last of the zombies and no longer in the run queue, and no field of a task but the
-- links has changed.
pub schedule_exits :
    (fuel : ℕ) (s : Scheduler) (n : ℕ) (xs zs : List ℕ)
    → length zs < fuel
    → Queues s (n ∷ xs) zs
    → (s.tasks s.current).state ≡ exit
    → (s' : Scheduler) × (schedule fuel s ≡ ok (switched n s'))
      × (s'.current ≡ n)
      × Queues s' xs (zs ++ s.current ∷ [])
      × ((a : ℕ) → record (s'.tasks a) { next = none } ≡ record (s.tasks a) { next = none })
unfolding schedule_with enqueue_zombie
schedule_exits fuel s n xs zs lt q exited =
    let tasks = set_next s.current none s.tasks in
    let kept =
      Tasks-set_next s.current none s.tasks s.zombies_queue zs q.current_zombies q.zombies in
    let (r, run, e) =
      enqueue-Enqueued fuel s.zombies_queue s.current tasks zs lt q.distinct_zombies
        q.current_zombies kept in
    (
      record s { tasks = r.1; run_queue = (s.tasks n).next; zombies_queue = r.0; current = n },
      rw (
        schedule-with fuel s n xs zs q,
        put_back_exited fuel _ s.current (taken_off s n) (still_exited s exited),
        run,
      ),
      refl,
      record {
        ready =
            spared s zs xs r (s.tasks n).next e (λ a m. ground (arith, q.apart a))
              (ground (arith, q.current_ready)) q.ready.1;
        zombies = e.queue;
        distinct_ready = q.distinct_ready.1;
        distinct_zombies = Distinct-snoc s.current zs q.distinct_zombies q.current_zombies;
        apart = λ a m. ground (arith, has-snoc a s.current zs, q.apart a, q.current_ready);
        current_ready = q.distinct_ready.0;
        current_zombies = ground (arith, has-snoc n s.current zs, q.current_ready, q.apart n);
      },
      λ a. e.fields a ∙ ground arith,
    )
