-- ===== src/Syscalls/Created.antt =====
-- The task that `task_create` of lib/scheduler.c makes for `sysc_fork` of lib/exception.c.
use bare_metal_os_kernel.Base.{
  ℕ, ◌+◌, ◌%◌, ◌^◌, ◌<◌, ◌≡◌, refl, false, none, List, length, Returns, update, has, has-ne,
  Distinct, Chain-frame,
}
use bare_metal_os_kernel.Scheduler.{Task, Scheduler, Mode, enqueue_run}
use bare_metal_os_kernel.Scheduler.Control.{Resources, new_task, task_create}
use bare_metal_os_kernel.Scheduler.Queue.{Tasks, enqueue-Enqueued}

-- A task as it was, but for the link of the queue.
abbrev pub Same : Task → Task → Type 0
Same t u = record t { next = none } ≡ record u { next = none }

pub record Created (r : Resources) (t : Task) (s s' : Scheduler) (node : ℕ) : Type 0 where
  pub node_is : node ≡ r.node
  pub fields : (a : ℕ) → Same (s'.tasks a) (update s.tasks r.node t a)
  pub runs : s'.current ≡ s.current

pub task_create-Created :
    (fuel switch func : ℕ) (mode : Mode) (r : Resources) (s : Scheduler) (xs : List ℕ)
    → length xs < fuel
    → Distinct xs
    → has r.node xs ≡ false
    → Tasks s.tasks s.run_queue xs
    → Returns
        (λ (node, s'). Created r (new_task switch func mode r s) s s' node)
        (task_create fuel switch func mode r s)
unfolding task_create enqueue_run
task_create-Created fuel switch func mode r s xs lt d out c =
    let t = new_task switch func mode r s in
    let tasks1 = update s.tasks r.node t in
    let chain : Tasks tasks1 s.run_queue xs =
      Chain-frame (λ a. (s.tasks a).next) (λ a. (tasks1 a).next) s.run_queue xs
        (λ a m. rw (has-ne r.node a xs out m) refl) c in
    let (q, run, e) = enqueue-Enqueued fuel s.run_queue r.node tasks1 xs lt d out chain in
    (
      (r.node, record s { pid = (s.pid + 1) % 2 ^ 32; run_queue = q.0; tasks = q.1 }),
      rw (task_create, enqueue_run, run) refl,
      record { node_is = refl; fields = e.fields; runs = refl },
    )
