-- ===== src/Syscalls/Tests.antt =====
-- The theorems on lib/exception.c at a small system, and runs of lib/exception.c.
use bare_metal_os_kernel.Base.{◌<◌, ◌^◌, ℕ, ◌≡◌, refl, none, some, [], fault, Returns, arith}
use bare_metal_os_kernel.Base.{pos}
use bare_metal_os_kernel.Files.Content.{Opened}
use bare_metal_os_kernel.Scheduler.{vfs_process_max_open_file}
use bare_metal_os_kernel.Scheduler.Control.{get_task_idle_fd, idle_from}
use bare_metal_os_kernel.Vfs.Routes.{absent}
use bare_metal_os_kernel.Vfs.Sample.{
  empty_root, empty_root-Plain, one_file, file-Route, file_name, file_name-IsName, file_node,
  file_regular, file_size, file_content, system_of,
}
use bare_metal_os_kernel.Syscalls.{get_register, load_bytes}
use bare_metal_os_kernel.Syscalls.Sample.{task, with_store, given}
use bare_metal_os_kernel.Syscalls.Files.{sysc_open, sysc_close, sysc_write}
use bare_metal_os_kernel.Syscalls.Tasks.{sysc_fork}
use bare_metal_os_kernel.Syscalls.FdTable.{
  Least, Table, sysc_open-Handed, sysc_open-Missing, sysc_close-Table,
}
use bare_metal_os_kernel.Syscalls.Fork.{Apart, Forked, sysc_fork-Forked}
use bare_metal_os_kernel.Syscalls.Router.{syscall_of}

idle_fd : get_task_idle_fd task ≡ some 1
unfolding get_task_idle_fd idle_from
idle_fd = refl

sysc_open-Handed_example :
    Returns
      (λ (r, s').
        (r ≡ pos 1)
        × Least vfs_process_max_open_file 0 1 task.fd_table
        × Table 1 (some one_file.next) (with_store one_file) s'
        × Opened s'.vfs.store one_file.next 14 15 0 (λ _. 0))
      (sysc_open given 100 2 (with_store one_file))
sysc_open-Handed_example =
    sysc_open-Handed given (with_store one_file) 100 2 1 file_name [] 7 14 15 0 (λ _. 0)
      (refl, omega arith, (refl, omega arith, refl)) (omega arith) (omega arith) idle_fd refl
      (file_name-IsName, tt) file-Route (omega arith) file_node file_regular file_size file_content

sysc_open-Missing_example :
    Returns
      (λ (r, s').
        (r ≡ pos 1)
        × Table 1 none (with_store empty_root) s'
        × (s'.vfs ≡ system_of empty_root)
        × ((buf count : ℕ) → sysc_write (pos 1) buf count s' ≡ fault))
      (sysc_open given 100 2 (with_store empty_root))
sysc_open-Missing_example =
    sysc_open-Missing given (with_store empty_root) 100 2 1 file_name [] 7
      (refl, omega arith, (refl, omega arith, refl)) (omega arith) (omega arith) idle_fd refl
      (file_name-IsName, tt) (absent 10 11 [] file_name [] empty_root-Plain refl) (omega arith) refl

sysc_close-Table_example :
    Returns
      (λ (r, s'). (r ≡ pos 0) × Table 0 none (with_store one_file) s')
      (sysc_close (pos 0) (with_store one_file))
sysc_close-Table_example = sysc_close-Table (with_store one_file) 0 3 (omega arith) refl

stacks-Apart : Apart task given.resources
stacks-Apart = record {
  user_old = λ k j l1 l2. omega (arith, l1, l2);
  kernel_old = λ k j l1 l2. omega (arith, l1, l2);
  user_kernel = λ k j l1 l2. omega (arith, l1, l2);
  users = omega arith;
  user_user = λ k j l1 l2. omega (arith, l1, l2);
  kernel_user = λ k j l1 l2. omega (arith, l1, l2);
}

register_29 : get_register 29 21000 (with_store one_file).mem < 2 ^ 64
unfolding get_register load_bytes
register_29 = omega arith

sysc_fork-Forked_example :
    Returns
      (λ (r, s'). Forked given 21000 (with_store one_file) r (s'.scheduler.tasks 2) s'.mem)
      (sysc_fork given 21000 (with_store one_file))
sysc_fork-Forked_example =
    sysc_fork-Forked given 21000 (with_store one_file) [] (omega arith) tt refl refl (omega arith)
      stacks-Apart (omega arith) (omega arith) (omega arith) register_29

no_such_call : syscall_of 10 ≡ none
unfolding syscall_of
no_such_call = refl
