-- ===== src/Syscalls.antt =====
-- The state that the system calls of lib/exception.c work on. A trap frame lies in memory, its
-- registers in words of eight bytes from `frame` on. What a call takes from the rest of the system is
-- a record.
pub mod Files
pub mod Tasks
pub mod Router
pub mod FdTable
pub mod Memory
pub mod Created
pub mod Frame
pub mod Fork
pub mod Sample
mod Tests
use bare_metal_os_kernel.Base.{
  ℕ, zero, suc, ◌+◌, ◌-◌, ◌*◌, ◌/◌, ◌%◌, ◌^◌, true, false, ◌&&◌, Option, none, some, List, [], ◌∷◌,
  Run, ok, fault, out_of_fuel, ◌>>=◌, ltb, leb, ◌==◌, if◌then◌else◌, update,
}
use bare_metal_os_kernel.Base.{ℤ, pos, negsuc}
use bare_metal_os_kernel.Scheduler.{Scheduler, Task, vfs_process_max_open_file}
use bare_metal_os_kernel.Scheduler.Control.{Resources}
use bare_metal_os_kernel.Timer.{Timers}
use bare_metal_os_kernel.Vfs.{Vfs}
use bare_metal_os_kernel.Vfs.Mount.{CpioFile}
use bare_metal_os_kernel.Mailbox.{Mailbox}

-- The three static variables of lib/exception.c are the last fields.
pub record System : Type 0 where
  pub mem : ℕ → ℕ
  pub vfs : Vfs
  pub scheduler : Scheduler
  pub timers : Timers
  pub mailbox : Mailbox
  pub handler : Option ℕ
  pub signal_exit : ℕ
  pub signal_pid : ℕ

-- The fuel, what the stack holds in `i` of `lookup_path`, the files of the archive, what the
-- allocators give, the addresses of three functions, and the memory after a message to the mailbox.
pub record Given : Type 0 where
  pub fuel : ℕ
  pub i : ℕ → ℤ
  pub archive : List CpioFile
  pub resources : Resources
  pub load_addr : ℕ
  pub child_return_from_fork : ℕ
  pub switch_to_user_space : ℕ
  pub signal_handler_wrapper : ℕ
  pub answered : ℕ → ℕ

-- `n` bytes at `a`, the first the lowest.
unfoldable pub load_bytes : (n : ℕ) → (mem : ℕ → ℕ) → (a : ℕ) → ℕ
load_bytes zero mem a = 0
load_bytes (suc n) mem a = mem a + 256 * load_bytes n mem (a + 1)

unfoldable pub store_bytes : (n : ℕ) → (mem : ℕ → ℕ) → (a v : ℕ) → ℕ → ℕ
store_bytes zero mem a v = mem
store_bytes (suc n) mem a v = store_bytes n (update mem a (v % 256)) (a + 1) (v / 256)

-- `struct trap_frame`: the register of this number, and the two others that are used.
abbrev pub register_at : (n frame : ℕ) → ℕ
register_at n frame = frame + 8 * n

abbrev pub sp_el0 : ℕ
sp_el0 = 32

abbrev pub elr_el1 : ℕ
elr_el1 = 33

unfoldable pub get_register : (n frame : ℕ) → (mem : ℕ → ℕ) → ℕ
get_register n frame mem = load_bytes 8 mem (register_at n frame)

unfoldable pub set_register : (n frame v : ℕ) → (mem : ℕ → ℕ) → ℕ → ℕ
set_register n frame v mem = store_bytes 8 mem (register_at n frame) v

-- An `int` as the 64 bits of a register, and the lower half of a register as an `int`.
abbrev pub from_int : ℤ → ℕ
from_int (pos n) = n
from_int (negsuc n) = 2 ^ 64 - 1 - n

abbrev pub get_current : System → Task
get_current s = s.scheduler.tasks s.scheduler.current

abbrev pub set_current : Task → System → System
set_current t s = record s {
  scheduler = record (s.scheduler) { tasks = update s.scheduler.tasks s.scheduler.current t };
}

-- `cur->fd_table[fd] = file`
abbrev pub set_fd : (fd : ℕ) → (file : Option ℕ) → System → System
set_fd fd file s =
    let cur = get_current s in set_current (record cur { fd_table = update cur.fd_table fd file }) s

-- `cur->fd_table[fd]`: behind the table there is no handle.
unfoldable pub file_at : (fd : ℤ) → System → Run (ℕ × Option ℕ)
file_at (negsuc n) s = fault
file_at (pos fd) s =
    if ltb fd vfs_process_max_open_file then ok (fd, (get_current s).fd_table fd) else fault

-- `n` bytes from `a` on become those of `buf`.
abbrev pub with_bytes : (mem : ℕ → ℕ) → (a n : ℕ) → (buf : ℕ → ℕ) → ℕ → ℕ
with_bytes mem a n buf x = if leb a x && ltb x (a + n) then buf (x - a) else mem x

abbrev pub bytes_at : (mem : ℕ → ℕ) → (a : ℕ) → ℕ → ℕ
bytes_at mem a k = mem (a + k)
