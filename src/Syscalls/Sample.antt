-- ===== src/Syscalls/Sample.antt =====
-- A small system, for runs of lib/exception.c and lib/shell.c.
use bare_metal_os_kernel.Base.{ℕ, none, some, [], ◌∷◌, false, update}
use bare_metal_os_kernel.Base.{pos}
use bare_metal_os_kernel.Files.{Store}
use bare_metal_os_kernel.Scheduler.{Task, Scheduler, kernel, running}
use bare_metal_os_kernel.Vfs.Sample.{system_of}
use bare_metal_os_kernel.Syscalls.{System, Given}

-- "/a" at 100.
abbrev pub memory : ℕ → ℕ
memory = update (update (λ _. 0) 100 b'/') 101 b'a'

-- The running task is node 1, with handle 3 as descriptor 0.
abbrev pub task : Task
task = record {
  x19 = 0;
  x20 = 0;
  x21 = 0;
  x22 = 0;
  x23 = 0;
  x24 = 0;
  x25 = 0;
  x26 = 0;
  x27 = 0;
  x28 = 0;
  fp = 0;
  lr = 0;
  sp = 0;
  target_func = 0;
  user_sp = 10000;
  sp_addr = 20000;
  pid = 1;
  mode = kernel;
  handler = none;
  state = running;
  fd_table = update (λ _. none) 0 (some 3);
  cwd = b'/' ∷ [];
  next = none;
}

abbrev pub scheduler : Scheduler
scheduler = record {
  tasks = λ _. task;
  run_queue = none;
  zombies_queue = none;
  temp_queue = none;
  pid = 2;
  current = 1;
}

abbrev pub with_store : Store → System
with_store s = record {
  mem = memory;
  vfs = system_of s;
  scheduler = scheduler;
  timers = record {
    timer_queue = none;
    node = λ _. record { expired_time = 0; call_back = 0; msg = []; next = none };
    expires_in = 0;
    interrupt = false;
    freed = [];
  };
  mailbox = record { status = []; read = []; written = [] };
  handler = none;
  signal_exit = 0;
  signal_pid = 0;
}

abbrev pub given : Given
given = record {
  fuel = 8;
  i = λ _. pos 0;
  archive = [];
  resources = record {
    node = 2;
    user_stack = 30000;
    kernel_stack = 40000;
    stdin = none;
    stdout = none;
    stderr = none;
  };
  load_addr = 50000;
  child_return_from_fork = 0;
  switch_to_user_space = 0;
  signal_handler_wrapper = 0;
  answered = memory;
}
