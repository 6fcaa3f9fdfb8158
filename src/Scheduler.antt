-- ===== src/Scheduler.antt =====
-- lib/scheduler.c and lib/include/scheduler.h: tasks and their queues. A task is a node of a heap,
-- a pointer to one is its address and NULL is `none`. Addresses that `malloc_` returns, the file
-- handles of `vfs_open` and the addresses of code are arguments.
pub mod Queue
pub mod Rotation
pub mod Control
pub mod Kill
pub mod Exits
pub mod Turns
mod Tests
use bare_metal_os_kernel.Base.{
  ℕ, zero, suc, ◌+◌, ◌-◌, ◌%◌, ◌^◌, Bool, true, false, ◌&&◌, Option, none, some, List, [], ◌∷◌, Run,
  ok, fault, out_of_fuel, ◌>>=◌, ltb, ◌==◌, if◌then◌else◌, update,
}

pub data State : Type 0 where
  waitting running exit : State

pub data Mode : Type 0 where
  kernel user : Mode

abbrev pub thread_sp_size : ℕ
thread_sp_size = 2048

abbrev pub vfs_process_max_open_file : ℕ
vfs_process_max_open_file = 16

pub record Task : Type 0 where
  pub x19 : ℕ
  pub x20 : ℕ
  pub x21 : ℕ
  pub x22 : ℕ
  pub x23 : ℕ
  pub x24 : ℕ
  pub x25 : ℕ
  pub x26 : ℕ
  pub x27 : ℕ
  pub x28 : ℕ
  pub fp : ℕ
  pub lr : ℕ
  pub sp : ℕ
  pub target_func : ℕ
  pub user_sp : ℕ
  pub sp_addr : ℕ
  pub pid : ℕ
  pub mode : Mode
  pub handler : Option ℕ
  pub state : State
  pub fd_table : ℕ → Option ℕ
  pub cwd : List ℕ
  pub next : Option ℕ

-- The three queues, the next pid, and the task that runs.
pub record Scheduler : Type 0 where
  pub tasks : ℕ → Task
  pub run_queue : Option ℕ
  pub zombies_queue : Option ℕ
  pub temp_queue : Option ℕ
  pub pid : ℕ
  pub current : ℕ

abbrev pub set_next : ℕ → Option ℕ → (ℕ → Task) → ℕ → Task
set_next a n tasks = update tasks a (record (tasks a) { next = n })

-- `while (cur) { prev = cur; cur = cur->next; }`, and `prev`.
unfoldable pub last_of : ℕ → (ℕ → Task) → (prev : ℕ) → (cur : Option ℕ) → Run ℕ
last_of zero tasks prev cur = out_of_fuel
last_of (suc fuel) tasks prev none = ok prev
last_of (suc fuel) tasks prev (some c) = last_of fuel tasks c (tasks c).next

-- `new_task->next = NULL` comes before the walk. The result is the queue's new head.
unfoldable pub enqueue :
    (fuel : ℕ) → (queue : Option ℕ) → (new_task : ℕ) → (ℕ → Task) → Run (Option ℕ × (ℕ → Task))
enqueue fuel none new_task tasks = ok (some new_task, set_next new_task none tasks)
enqueue fuel (some head) new_task tasks = do
  let tasks' = set_next new_task none tasks
  prev ← last_of fuel tasks' head (some head)
  ok (some head, set_next prev (some new_task) tasks')

unfoldable pub dequeue : (queue : Option ℕ) → (ℕ → Task) → Option ℕ × Option ℕ
dequeue none tasks = (none, none)
dequeue (some t) tasks = (some t, (tasks t).next)

unfoldable pub enqueue_run : ℕ → ℕ → Scheduler → Run Scheduler
enqueue_run fuel t s = do
  (q, tasks) ← enqueue fuel s.run_queue t s.tasks
  ok (record s { run_queue = q; tasks = tasks })

unfoldable pub enqueue_zombie : ℕ → ℕ → Scheduler → Run Scheduler
enqueue_zombie fuel t s = do
  (q, tasks) ← enqueue fuel s.zombies_queue t s.tasks
  ok (record s { zombies_queue = q; tasks = tasks })

-- How a call of `schedule` goes on: in the next task, or in `shell`, which does not return.
pub data Resumed : Type 0 where
  switched : ℕ → Scheduler → Resumed
  in_shell : Scheduler → Resumed

-- `if (cur->state != EXIT) enqueue(&run_queue, cur); else enqueue(&zombies_queue, cur);`
unfoldable pub put_back : ℕ → State → ℕ → Scheduler → Run Scheduler
put_back fuel exit cur s = enqueue_zombie fuel cur s
put_back fuel running cur s = enqueue_run fuel cur s
put_back fuel waitting cur s = enqueue_run fuel cur s

-- `switch_to` of NULL loads the registers through NULL. `s` is the state after the next task was
-- taken off the run queue and the link of the running one cleared.
unfoldable pub schedule_with : ℕ → (next : Option ℕ) → Scheduler → Run Resumed
schedule_with fuel none s =
    if (s.tasks s.current).pid == 1
    then (enqueue_run fuel s.current (record s { pid = 2 }) >>= λ s'. ok (in_shell s'))
    else (put_back fuel (s.tasks s.current).state s.current s >>= λ s'. fault)
schedule_with fuel (some next) s = do
  s' ← put_back fuel (s.tasks s.current).state s.current s
  ok (switched next (record s' { current = next }))

unfoldable pub schedule : ℕ → Scheduler → Run Resumed
schedule fuel s =
    let (next, rest) = dequeue s.run_queue s.tasks in
    schedule_with fuel next (record s { run_queue = rest; tasks = set_next s.current none s.tasks })

-- The addresses that are given to `free`, in order. The task itself is the first, and its fields are
-- read after that: they are taken to be still what they were.
unfoldable pub kill_zombies : Scheduler → List ℕ × Scheduler
kill_zombies s =
    let (cur, rest) = dequeue s.zombies_queue s.tasks in
    elim cur [
      | none ↦ ([], record s { zombies_queue = rest })
      | some t ↦ (
        elim (s.tasks t).mode [
          | user ↦ t ∷ (s.tasks t).sp_addr ∷ (s.tasks t).user_sp ∷ []
          | kernel ↦ t ∷ (s.tasks t).sp_addr ∷ []
        ],
        record s { zombies_queue = rest },
      )
    ]
