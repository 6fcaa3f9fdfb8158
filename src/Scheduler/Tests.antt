-- ===== src/Scheduler/Tests.antt =====
-- Runs of lib/scheduler.c, and its theorems at a small state.
use bare_metal_os_kernel.Base.{
  ℕ, ◌≡◌, ◌≢◌, refl, true, Option, none, some, [], ◌∷◌, has, ok, ◌==◌, if◌then◌else◌, arith,
  Returns,
}
use bare_metal_os_kernel.Scheduler.{State, running, exit, user, Task, Scheduler}
use bare_metal_os_kernel.Scheduler.Rotation.{Queues}
use bare_metal_os_kernel.Scheduler.Turns.{schedules, schedule_turn}
use bare_metal_os_kernel.Scheduler.Control.{kill_thread, remove_task}
use bare_metal_os_kernel.Scheduler.Kill.{Killed, Removal, kill_thread-Killed, remove_task-Removal}

abbrev task : (pid : ℕ) → State → Option ℕ → Task
task pid state next = record {
  x19 = 0;
  x20 = 0;
  x21 = 0;
  x22 = 0;
  x23 = 0;
  x24 = 0;
  x25 = 0;
  x26 = 0;
  x27 = 0;
  x28 = 0;
  fp = 0;
  lr = 0;
  sp = 0;
  target_func = 0;
  user_sp = 0;
  sp_addr = 0;
  pid = pid;
  mode = user;
  handler = none;
  state = state;
  fd_table = λ _. none;
  cwd = b'/' ∷ [];
  next = next;
}

-- Task 1 runs, in the given state; tasks 2 and 3 are ready.
abbrev three_tasks : State → Scheduler
three_tasks state = record {
  tasks = λ a.
      if a == 1
      then task 1 state none
      else if a == 2
      then task 2 running (some 3)
      else task a running none;
  run_queue = some 2;
  zombies_queue = none;
  temp_queue = none;
  pid = 4;
  current = 1;
}

three-Queues : (state : State) → Queues (three_tasks state) (2 ∷ 3 ∷ []) []
three-Queues state = record {
  ready = (refl, (refl, refl));
  zombies = refl;
  distinct_ready = (refl, (refl, tt));
  distinct_zombies = tt;
  apart = λ a m. refl;
  current_ready = refl;
  current_zombies = refl;
}

running-ne-exit : running ≢ exit
running-ne-exit e = cc

all_alive : (a : ℕ) → has a (1 ∷ 2 ∷ 3 ∷ []) ≡ true → ((three_tasks running).tasks a).state ≢ exit
all_alive a m e = ground arith

schedule_turn_example :
    (s' : Scheduler) × (schedules 9 2 (three_tasks running) ≡ ok s')
    × (s'.current ≡ 3)
    × Queues s' (1 ∷ 2 ∷ []) []
schedule_turn_example =
    schedule_turn 9 (three_tasks running) (2 ∷ []) 3 [] [] (omega arith) (three-Queues running)
      all_alive

kill_thread-Killed_example :
    Returns (Killed (three_tasks running) (2 ∷ []) (3 ∷ [])) (kill_thread 9 3 (three_tasks running))
kill_thread-Killed_example =
    kill_thread-Killed 9 3 (three_tasks running) (2 ∷ []) 3 [] [] (omega arith) (omega arith)
      (refl, (refl, refl)) refl (refl, (refl, tt)) tt (λ a m. cc) (refl, tt) refl

remove_task-Removal_example :
    Removal (three_tasks running) (2 ∷ []) 3 [] (remove_task 9 3 (three_tasks running))
remove_task-Removal_example =
    remove_task-Removal 9 3 (three_tasks running) (2 ∷ []) 3 [] (omega arith) (refl, (refl, refl))
      (refl, (refl, tt)) (refl, tt) refl
