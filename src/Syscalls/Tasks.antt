-- ===== src/Syscalls/Tasks.antt =====
-- The system calls of lib/exception.c on tasks. `sys_kill` of lib/system.c, which raises a system
-- call, is the call of its handler.
use bare_metal_os_kernel.Base.{
  ℕ, zero, suc, ◌+◌, ◌-◌, ◌%◌, ◌^◌, Option, none, some, Run, ok, fault, ◌>>=◌, ltb, ◌==◌,
  if◌then◌else◌, update,
}
use bare_metal_os_kernel.Strings.Text.{c_string}
use bare_metal_os_kernel.Base.{ℤ, pos, int_eq}
use bare_metal_os_kernel.Files.{to_int}
use bare_metal_os_kernel.Scheduler.{Task, exit, user, thread_sp_size}
use bare_metal_os_kernel.Scheduler.Control.{
  task_create, kill_thread, remove_task, add_to_queue, find_task,
}
use bare_metal_os_kernel.Mailbox.{mbox_call}
use bare_metal_os_kernel.Vfs.Calls.{vfs_open, vfs_close, vfs_read}
use bare_metal_os_kernel.Syscalls.{
  System, Given, from_int, get_current, set_current, get_register, set_register, sp_el0, elr_el1,
  with_bytes, bytes_at,
}

unfoldable pub sysc_pid : System → ℤ
sysc_pid s = to_int (get_current s).pid

-- 0x1000 * 64
abbrev pub program_size : ℕ
program_size = 0x40000

-- The program is read to `load_addr` and its handle closed, if it could be opened.
unfoldable pub load_file : Given → (file_handler : Option ℕ) → System → Run System
load_file k file_handler s = do
  (r, bytes, v1) ← vfs_read file_handler (bytes_at s.mem k.load_addr) program_size s.vfs
  (c, v2) ← vfs_close file_handler v1
  ok (record s { vfs = v2; mem = with_bytes s.mem k.load_addr program_size bytes })

abbrev pub set_mem : (ℕ → ℕ) → System → System
set_mem mem s = record s { mem = mem }

unfoldable pub sysc_exec : Given → (name frame : ℕ) → System → Run (ℤ × System)
sysc_exec k name frame s = do
  let sp = (get_current s).user_sp
  let s1 = set_mem (set_register sp_el0 frame (sp + thread_sp_size - sp % 16) s.mem) s
  path ← c_string k.fuel s1.mem name
  (result, file_handler, v) ← vfs_open k.fuel (k.i 0) path 0 none s1.vfs
  let s2 = record s1 { vfs = v }
  s3 ← (if int_eq result (pos 0) then load_file k file_handler s2 else ok s2)
  ok (pos 0, set_mem (set_register elr_el1 frame k.load_addr s3.mem) s3)

-- A byte of the user stack and a byte of the kernel stack in turn, from number `i` on.
unfoldable pub copy_stacks : (n i : ℕ) → (src1 dst1 src2 dst2 : ℕ) → (mem : ℕ → ℕ) → ℕ → ℕ
copy_stacks zero i src1 dst1 src2 dst2 mem = mem
copy_stacks (suc n) i src1 dst1 src2 dst2 mem =
    let mem1 = update mem (dst1 + i) (mem (src1 + i)) in
    copy_stacks n (i + 1) src1 dst1 src2 dst2 (update mem1 (dst2 + i) (mem1 (src2 + i)))

-- An address in the parent's block, moved to the same place of the child's.
abbrev pub moved : (a child parent : ℕ) → ℕ
moved a child parent =
    if ltb parent child
    then (a + (child - parent)) % 2 ^ 64
    else if ltb child parent
    then (a + 2 ^ 64 - (parent - child)) % 2 ^ 64
    else a

-- The registers that the child starts with.
unfoldable pub child_task : Given → (frame : ℕ) → (mem : ℕ → ℕ) → (parent child : Task) → Task
child_task k frame mem parent child = record child {
  x19 = get_register 19 frame mem;
  x20 = get_register 20 frame mem;
  x21 = get_register 21 frame mem;
  x22 = get_register 22 frame mem;
  x23 = get_register 23 frame mem;
  x24 = get_register 24 frame mem;
  x25 = get_register 25 frame mem;
  x26 = get_register 26 frame mem;
  x27 = get_register 27 frame mem;
  x28 = get_register 28 frame mem;
  fp = get_register 29 frame mem;
  lr = k.child_return_from_fork;
  sp = moved frame child.sp_addr parent.sp_addr;
  target_func = parent.target_func;
  handler = parent.handler;
}

-- The copied trap frame: 0 is returned to the child, on its own stack.
unfoldable pub child_frame : (parent child : Task) → (mem : ℕ → ℕ) → ℕ → ℕ
child_frame parent child mem =
    let mem1 = set_register 0 child.sp 0 mem in
    let mem2 = set_register 29 child.sp child.fp mem1 in
    set_register sp_el0 child.sp
      (moved (get_register sp_el0 child.sp mem2) child.user_sp parent.user_sp) mem2

unfoldable pub sysc_fork : Given → (frame : ℕ) → System → Run (ℤ × System)
sysc_fork k frame s = do
  (t, scheduler) ← task_create k.fuel k.switch_to_user_space 0 user k.resources s.scheduler
  let parent = scheduler.tasks scheduler.current
  let child = child_task k frame s.mem parent (scheduler.tasks t)
  let mem =
      copy_stacks thread_sp_size 0 parent.user_sp child.user_sp parent.sp_addr child.sp_addr s.mem
  ok (
    to_int child.pid,
    record s {
      mem = child_frame parent child mem;
      scheduler = record scheduler { tasks = update scheduler.tasks t child };
    },
  )

unfoldable pub sysc_kill : Given → (pid : ℕ) → System → Run (ℤ × System)
sysc_kill k pid s = do
  scheduler ← kill_thread k.fuel (pid % 2 ^ 32) s.scheduler
  ok (pos 0, record s { scheduler = scheduler })

unfoldable pub sysc_exit : Given → System → Run (ℤ × System)
sysc_exit k s = do
  (r, s1) ←
      (if s.signal_exit == 0
        then ok (pos 0, s)
        else sysc_kill k s.signal_pid (record s { signal_exit = 0 }))
  ok (pos 0, set_current (record (get_current s1) { state = exit }) s1)

unfoldable pub sysc_mbox_call : Given → (ch mbox : ℕ) → System → Run (ℤ × System)
sysc_mbox_call k ch mbox s = do
  (r, mailbox) ← mbox_call (ch % 256) mbox k.answered s.mailbox
  ok (pos r, record s { mailbox = mailbox; mem = k.answered })

-- NULL takes a handler away.
unfoldable pub sysc_register : (handler : ℕ) → System → ℤ × System
sysc_register handler s = (
  pos 0,
  set_current (record (get_current s) { handler = if handler == 0 then none else some handler }) s,
)

-- `target->handler` of a task that is not there reads through NULL.
unfoldable pub sysc_signal_kill : Given → (pid : ℕ) → System → Run (ℤ × System)
sysc_signal_kill k pid s = do
  target ← find_task k.fuel (pid % 2 ^ 32) s.scheduler
  elim target [
    | none ↦ fault
    | some t ↦ do
      removed ← remove_task k.fuel (pid % 2 ^ 32) s.scheduler
      (h, scheduler) ← task_create k.fuel k.switch_to_user_space 0 user k.resources removed
      ok (
        pos 0,
        record s {
          handler = (s.scheduler.tasks t).handler;
          signal_pid = from_int (to_int pid);
          signal_exit = 1;
          scheduler = record scheduler {
            tasks =
                update scheduler.tasks h
                  (record (scheduler.tasks h) { target_func = k.signal_handler_wrapper });
          };
        },
      )
  ]

-- `_handler()`, the code of the user, is the function `call`.
unfoldable pub signal_handler_wrapper :
    Given → (call : ℕ → System → Run System) → System → Run (ℤ × System)
signal_handler_wrapper k call s = do
  s1 ← elim s.handler [
    | some h ↦ do
      called ← call h s
      scheduler ← add_to_queue k.fuel called.scheduler
      ok (record called { scheduler = scheduler })
    | none ↦ do (r, killed) ← sysc_kill k s.signal_pid s; ok killed
  ]
  sysc_exit k (record s1 { signal_exit = 0 })
