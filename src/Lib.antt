-- ===== src/Lib.antt =====
-- BareMetal-OS-Kernel: a model of the kernel for the Raspberry Pi 3 and theorems on it.
--
-- Parts and how they interact. `malloc_` (lib/malloc.c) cuts chunks out of pages, and pages out of
-- blocks of a buddy allocator; every other part takes its nodes from it. The timer queue
-- (lib/timer.c) holds callbacks that the timer interrupt runs; one of them, `normal_timer`, puts
-- itself back and calls `schedule` (lib/scheduler.c), which rotates the tasks. The mini UART
-- (lib/uart.c) passes characters between its interrupt handlers and the rest through two rings.
-- Paths and messages are C strings (lib/string.c). Files and directories are nodes (lib/tmpfs.c);
-- those of lib/devfs.c stand for devices, and those of lib/cpio.c for the files of the initial ram
-- disk, whose place the device tree (lib/dtb.c) tells. lib/vfs.c walks along paths through these
-- nodes by their tables of operations. The system calls (lib/exception.c) resolve a path from the
-- directory of the running task, keep its table of descriptors, and copy and end tasks.
--
-- Files and code. A function of the source has the name it has there.
--   Base.antt         shared types, Boolean tests, and lists that are linked through a heap
--                     (Base/Chains.antt)
--   Alloc.antt        lib/malloc.c. Alloc/Sizes.antt: `log2`, `power2`, `aling8`. Alloc/Pages.antt:
--                     the frames, the free lists, `page_allocate`, `page_free`, `merge`,
--                     `page_divide`. Alloc/Pool.antt: `malloc_`, `open_page`, `free`,
--                     `remove_page`.
--                     Alloc/Setup.antt: `page_init`, `memory_reserve`
--   Timer.antt        lib/timer.c: `add_timer`, `pop_timer`
--   Scheduler.antt    lib/scheduler.c: the queues, `schedule`, `kill_zombies`;
--                     Scheduler/Control.antt: `task_create`, `kill_thread`, `remove_task`
--   Uart.antt         lib/uart.c: the polled functions, the two rings and their interrupt handlers
--   Strings.antt      lib/string.c: strings as bytes in memory; Strings/Tokens.antt:
--                     `strtok`, `spilt_strings`
--   Files.antt        lib/include/vfs.h and lib/tmpfs.c: `tmpfs_write`, `tmpfs_read`, `tmpfs_open`;
--                     Files/Directory.antt: `tmpfs_create`, `tmpfs_lookup`, lib/devfs.c;
--                     Files/Devices.antt: the operations of lib/devfs.c and lib/cpio.c on files
--   Dtb.antt          lib/dtb.c: `fdt_traverse`, `little2big`, `initramfs_callback`
--   Paths.antt        lib/vfs.c on path names: `first_component`, `to_abs_path`
--   Vfs.antt          lib/vfs.c: `lookup_path`. Vfs/Calls.antt: `vfs_lookup`, `vfs_open`,
--                     `vfs_close`, `vfs_write`, `vfs_read`, `vfs_mkdir`. Vfs/Mount.antt:
--                     `vfs_mount`, `initramfs_setup_mount`
--   Cpio.antt         lib/cpio.c: `cpio_parse`, `load_program`, `read_header`
--   Mailbox.antt      lib/mailbox.c: `mbox_call`
--   Syscalls.antt     lib/exception.c: the state. Syscalls/Files.antt: the calls on files.
--                     Syscalls/Tasks.antt: `sysc_exec`, `sysc_fork`, `sysc_exit` and the signals.
--                     Syscalls/Router.antt: `sync_router`, `irq_router`
--   Reboot.antt       lib/reboot.c: `reset`, `cancel_reset`
--   Shell.antt        lib/shell.c: `shell`, its keys and its commands
-- The other files of a folder hold lemmas and theorems on these, and Tests.antt runs at concrete
-- inputs.
--
-- State. A struct is a record and a linked list is nodes in a heap, a function from addresses;
-- NULL is `none`. A page item stands at the end of its page and a pool header at its start, so
-- both are addressed by the page's index. Addresses that another part hands out, the tick counter
-- and code addresses are arguments, and so is what an uninitialised variable holds. Machine
-- integers are natural numbers with their wrap-around written out.
--
-- Results and fuel. `Run` (Base/Outcome.antt) is `ok`, `fault` for an access through NULL or
-- outside a table, or `out_of_fuel`. A loop over a linked list takes fuel, and more fuel than the
-- list has nodes is enough. `log2` needs no more than 33 rounds, since its `int` is 0 after 32
-- doublings. `page_divide` takes fuel for its nested calls, and `fdt_traverse` for the tokens of
-- the tree and for the characters of a name. `lookup_path` takes fuel for its calls, and as much
-- as the path has names is enough where no mount is crossed; the loops of `to_abs_path` take one
-- more than the path has components. The walk over the archive takes one more than the archive has
-- files.
--
-- Not modelled: printing, registers of devices and of the processor but for those named above, the
-- switch of registers in start.S, the walks over the archive that print or jump to the file, and
-- lib/printf.c, which is a copy of another library. An interrupt does not come in the middle of an
-- operation.
pub mod Base
pub mod Alloc
pub mod Timer
pub mod Scheduler
pub mod Uart
pub mod Strings
pub mod Files
pub mod Dtb
pub mod Paths
pub mod Vfs
pub mod Cpio
pub mod Mailbox
pub mod Syscalls
pub mod Reboot
pub mod Shell
