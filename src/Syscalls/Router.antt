-- ===== src/Syscalls/Router.antt =====
-- `sync_router` and `irq_router` of lib/exception.c.
use bare_metal_os_kernel.Base.{
  ℕ, ◌/◌, ◌%◌, ◌^◌, Bool, true, false, Option, none, some, List, Run, ok, ◌>>=◌, ◌==◌,
  if◌then◌else◌,
}
use bare_metal_os_kernel.Base.{ℤ}
use bare_metal_os_kernel.Files.{to_int}
use bare_metal_os_kernel.Scheduler.{Resumed, schedule}
use bare_metal_os_kernel.Timer.{Timers, core_timer_interrupt_disable, pop_timer}
use bare_metal_os_kernel.Uart.{
  Uart, disable_uart_w_interrupt, disable_uart_r_interrupt, uart_interrupt_w_handler,
  uart_interrupt_r_handler,
}
use bare_metal_os_kernel.Syscalls.{System, Given, get_register, set_register, from_int}
use bare_metal_os_kernel.Syscalls.Files.{
  sysc_open, sysc_close, sysc_write, sysc_read, sysc_mkdir, sysc_mount, sysc_chdir, sysc_uart_read,
  sysc_uart_write,
}
use bare_metal_os_kernel.Syscalls.Tasks.{
  sysc_pid, sysc_exec, sysc_fork, sysc_exit, sysc_mbox_call, sysc_kill, sysc_register,
  sysc_signal_kill, set_mem,
}

-- The numbers of lib/include/exception.h.
pub data Syscall : Type 0 where
  num_pid num_uart_read num_uart_write num_exec num_fork num_exit num_mbox_call num_kill : Syscall
  num_register num_signal_kill num_open num_close num_write num_read num_mkdir num_mount : Syscall
  num_chdir : Syscall

unfoldable pub syscall_of : (num : ℕ) → Option Syscall
syscall_of num =
    if num == 0
    then some num_pid
    else if num == 1
    then some num_uart_read
    else if num == 2
    then some num_uart_write
    else if num == 3
    then some num_exec
    else if num == 4
    then some num_fork
    else if num == 5
    then some num_exit
    else if num == 6
    then some num_mbox_call
    else if num == 7
    then some num_kill
    else if num == 8
    then some num_register
    else if num == 9
    then some num_signal_kill
    else if num == 11
    then some num_open
    else if num == 12
    then some num_close
    else if num == 13
    then some num_write
    else if num == 14
    then some num_read
    else if num == 15
    then some num_mkdir
    else if num == 16
    then some num_mount
    else if num == 17
    then some num_chdir
    else none

-- Where a call of `sync_router` goes on: behind it, in another task, or nowhere.
pub data Left : Type 0 where
  back : System → Left
  away : Resumed → System → Left
  stuck : System → Left

-- `frame->x0` takes the result.
abbrev pub answer : (frame : ℕ) → ℤ × System → Run Left
answer frame (r, s) = ok (back (set_mem (set_register 0 frame (from_int r) s.mem) s))

-- The result of `sysc_exit` is put into the frame, and another task runs.
unfoldable pub leave : Given → (frame : ℕ) → ℤ × System → Run Left
leave k frame (r, s) = do
  let s1 = set_mem (set_register 0 frame (from_int r) s.mem) s
  next ← schedule k.fuel s1.scheduler
  ok (away next s1)

-- The handler of each number, and the registers that it takes.
unfoldable pub handle : Given → Syscall → (frame : ℕ) → System → Run Left
handle k num_pid frame s = answer frame (sysc_pid s, s)
handle k num_uart_read frame s =
    sysc_uart_read (get_register 0 frame s.mem) (get_register 1 frame s.mem) s >>= answer frame
handle k num_uart_write frame s =
    sysc_uart_write (get_register 0 frame s.mem) (get_register 1 frame s.mem) s >>= answer frame
handle k num_exec frame s = sysc_exec k (get_register 0 frame s.mem) frame s >>= answer frame
handle k num_fork frame s = sysc_fork k frame s >>= answer frame
handle k num_exit frame s = sysc_exit k s >>= leave k frame
handle k num_mbox_call frame s =
    sysc_mbox_call k (get_register 0 frame s.mem) (get_register 1 frame s.mem) s >>= answer frame
handle k num_kill frame s = sysc_kill k (get_register 0 frame s.mem) s >>= answer frame
handle k num_register frame s = answer frame (sysc_register (get_register 1 frame s.mem) s)
handle k num_signal_kill frame s =
    sysc_signal_kill k (get_register 0 frame s.mem) s >>= answer frame
handle k num_open frame s =
    sysc_open k (get_register 0 frame s.mem) (get_register 1 frame s.mem % 2 ^ 32) s
    >>= answer frame
handle k num_close frame s = sysc_close (to_int (get_register 0 frame s.mem)) s >>= answer frame
handle k num_write frame s =
    sysc_write (to_int (get_register 0 frame s.mem)) (get_register 1 frame s.mem)
      (get_register 2 frame s.mem) s
    >>= answer frame
handle k num_read frame s =
    sysc_read (to_int (get_register 0 frame s.mem)) (get_register 1 frame s.mem)
      (get_register 2 frame s.mem) s
    >>= answer frame
handle k num_mkdir frame s = sysc_mkdir k (get_register 0 frame s.mem) s >>= answer frame
handle k num_mount frame s =
    sysc_mount k (get_register 1 frame s.mem) (get_register 2 frame s.mem) s >>= answer frame
handle k num_chdir frame s = sysc_chdir k (get_register 0 frame s.mem) s >>= answer frame

-- Any other number ends in `invalid_exception_router`, which does not return.
unfoldable pub sync_router : Given → (frame : ℕ) → System → Run Left
sync_router k frame s = elim (syscall_of (get_register 8 frame s.mem % 2 ^ 32)) [
  | none ↦ ok (stuck s)
  | some call ↦ handle k call frame s
]

-- What the interrupt registers read, AUX_MU_IIR once for each test.
pub record Pending : Type 0 where
  pub core0_interrupt_source : ℕ
  pub irqs1_pending : ℕ
  pub iir_write : ℕ
  pub iir_read : ℕ

abbrev pub bit_set : (b n : ℕ) → Bool
bit_set b n = ((n / b) % 2) == 1

-- `call` is the code of the timers' callbacks, and `now` the counter.
unfoldable pub irq_router :
    ((call_back : ℕ) → List ℕ → Timers → Run Timers)
    → (now : ℕ) → Pending
    → Timers × Uart
    → Run (Timers × Uart)
irq_router call now p (t, u) = elim (bit_set 2 p.core0_interrupt_source) [
  | true ↦ do t1 ← pop_timer call now (core_timer_interrupt_disable t); ok (t1, u)
  | false ↦ elim (bit_set (2 ^ 29) p.irqs1_pending) [
    | false ↦ ok (t, u)
    | true ↦ elim (bit_set 2 p.iir_write) [
      | true ↦ do u1 ← uart_interrupt_w_handler (disable_uart_w_interrupt u); ok (t, u1)
      | false ↦ elim (bit_set 4 p.iir_read) [
        | true ↦ do u1 ← uart_interrupt_r_handler (disable_uart_r_interrupt u); ok (t, u1)
        | false ↦ ok (t, u)
      ]
    ]
  ]
]
