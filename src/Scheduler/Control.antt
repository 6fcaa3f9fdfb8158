-- ===== src/Scheduler/Control.antt =====
-- The functions of lib/scheduler.c that make, find and remove tasks.
use bare_metal_os_kernel.Base.{
  ℕ, zero, suc, ◌+◌, ◌-◌, ◌%◌, ◌^◌, true, false, Option, none, some, [], ◌∷◌, Run, ok, fault,
  out_of_fuel, ◌>>=◌, ◌==◌, if◌then◌else◌, update,
}
use bare_metal_os_kernel.Scheduler.{
  running, Mode, kernel, user, Task, Scheduler, set_next, last_of, enqueue_run, enqueue_zombie,
  thread_sp_size, vfs_process_max_open_file,
}

-- What `malloc_` and `vfs_open` give a new task: its node, its stacks, and the value of
-- `file_handler` after each of the three calls.
pub record Resources : Type 0 where
  pub node : ℕ
  pub user_stack : ℕ
  pub kernel_stack : ℕ
  pub stdin : Option ℕ
  pub stdout : Option ℕ
  pub stderr : Option ℕ

-- `addr += THREAD_SP_SIZE - 1; addr -= addr % 0x10;`
unfoldable pub stack_top : ℕ → ℕ
stack_top addr = let top = addr + thread_sp_size - 1 in top - top % 0x10

unfoldable pub initial_fds : Resources → ℕ → Option ℕ
initial_fds r = update (update (update (λ _. none) 0 r.stdin) 1 r.stdout) 2 r.stderr

-- The fields that are not set keep what is in the memory.
unfoldable pub new_task : (switch_to_user_space func : ℕ) → Mode → Resources → Scheduler → Task
new_task switch_to_user_space func kernel r s = record (s.tasks r.node) {
  mode = kernel;
  next = none;
  pid = s.pid;
  handler = none;
  state = running;
  lr = func;
  sp_addr = r.kernel_stack;
  fp = stack_top r.kernel_stack;
  sp = stack_top r.kernel_stack;
  cwd = b'/' ∷ [];
  fd_table = initial_fds r;
}
new_task switch_to_user_space func user r s = record (s.tasks r.node) {
  mode = user;
  next = none;
  pid = s.pid;
  handler = none;
  state = running;
  user_sp = r.user_stack;
  lr = switch_to_user_space;
  target_func = func;
  sp_addr = r.kernel_stack;
  fp = stack_top r.kernel_stack;
  sp = stack_top r.kernel_stack;
  cwd = b'/' ∷ [];
  fd_table = initial_fds r;
}

unfoldable pub task_create :
    (fuel switch_to_user_space func : ℕ) → Mode → Resources → Scheduler → Run (ℕ × Scheduler)
task_create fuel switch_to_user_space func mode r s = do
  let t = new_task switch_to_user_space func mode r s
  s' ←
      enqueue_run fuel r.node
        (record s { pid = (s.pid + 1) % 2 ^ 32; tasks = update s.tasks r.node t })
  ok (r.node, s')

-- `pre->next = cur->next`, or `run_queue = cur->next` where there is no `pre`.
unfoldable pub unlink : (pre : Option ℕ) → (cur : ℕ) → Scheduler → Scheduler
unlink none cur s = record s { run_queue = (s.tasks cur).next }
unlink (some p) cur s = record s { tasks = set_next p (s.tasks cur).next s.tasks }

unfoldable pub kill_loop : (fuel rounds pid : ℕ) → (pre cur : Option ℕ) → Scheduler → Run Scheduler
kill_loop fuel zero pid pre cur s = out_of_fuel
kill_loop fuel (suc rounds) pid pre none s = ok s
kill_loop fuel (suc rounds) pid pre (some c) s = elim ((s.tasks c).pid == pid) [
  | true ↦ enqueue_zombie fuel c (unlink pre c s)
  | false ↦ kill_loop fuel rounds pid (some c) (s.tasks c).next s
]

unfoldable pub kill_thread : (fuel pid : ℕ) → Scheduler → Run Scheduler
kill_thread fuel pid s = kill_loop fuel fuel pid none s.run_queue s

-- At the head of the queue `pre` is NULL, and `pre->next` is written all the same.
unfoldable pub remove_loop : (fuel pid : ℕ) → (pre cur : Option ℕ) → Scheduler → Run Scheduler
remove_loop zero pid pre cur s = out_of_fuel
remove_loop (suc fuel) pid pre none s = ok s
remove_loop (suc fuel) pid pre (some c) s = elim (pid == (s.tasks c).pid) [
  | false ↦ remove_loop fuel pid (some c) (s.tasks c).next s
  | true ↦ elim pre [
    | none ↦ fault
    | some p ↦ ok (record s {
      temp_queue = some c;
      tasks = set_next c none (set_next p (s.tasks c).next s.tasks);
    })
  ]
]

unfoldable pub remove_task : (fuel pid : ℕ) → Scheduler → Run Scheduler
remove_task fuel pid s = remove_loop fuel pid none s.run_queue s

-- With an empty run queue `cur->next` reads through NULL.
unfoldable pub add_to_queue : (fuel : ℕ) → Scheduler → Run Scheduler
add_to_queue fuel s = elim s.temp_queue [
  | none ↦ ok s
  | some t ↦ elim s.run_queue [
    | none ↦ fault
    | some head ↦ do
      last ← last_of fuel s.tasks head (s.tasks head).next
      ok (record s { temp_queue = none; tasks = set_next last (some t) s.tasks })
  ]
]

unfoldable pub find_loop : (fuel pid : ℕ) → (cur : Option ℕ) → (ℕ → Task) → Run (Option ℕ)
find_loop zero pid cur tasks = out_of_fuel
find_loop (suc fuel) pid none tasks = ok none
find_loop (suc fuel) pid (some c) tasks =
    let rest = find_loop fuel pid (tasks c).next tasks in
    if (tasks c).pid == pid then ok (some c) else rest

unfoldable pub find_task : (fuel pid : ℕ) → Scheduler → Run (Option ℕ)
find_task fuel pid s = find_loop fuel pid s.run_queue s.tasks

-- The first of the `n` descriptors from `i` on that is free; -1 is `none`.
unfoldable pub idle_from : (n i : ℕ) → (ℕ → Option ℕ) → Option ℕ
idle_from zero i fds = none
idle_from (suc n) i fds = elim (fds i) [ none ↦ some i | some _ ↦ idle_from n (i + 1) fds ]

unfoldable pub get_task_idle_fd : Task → Option ℕ
get_task_idle_fd t = idle_from vfs_process_max_open_file 0 t.fd_table
