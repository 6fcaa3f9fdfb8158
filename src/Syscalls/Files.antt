-- ===== src/Syscalls/Files.antt =====
-- The system calls of lib/exception.c on files. A result of `to_abs_path` other than 0 is not looked
-- at, and the path is empty then.
use bare_metal_os_kernel.Base.{
  ℕ, none, some, List, [], ◌∷◌, ◌++◌, Run, ok, fault, ◌>>=◌, if◌then◌else◌,
}
use bare_metal_os_kernel.Strings.Text.{c_string}
use bare_metal_os_kernel.Base.{ℤ, pos, negsuc, int_eq}
use bare_metal_os_kernel.Files.{to_int}
use bare_metal_os_kernel.Files.Devices.{send_loop, getc_loop}
use bare_metal_os_kernel.Paths.{to_abs_path, ends_with_slash, fits}
use bare_metal_os_kernel.Scheduler.Control.{get_task_idle_fd}
use bare_metal_os_kernel.Vfs.Calls.{vfs_lookup, vfs_open, vfs_close, vfs_write, vfs_read, vfs_mkdir}
use bare_metal_os_kernel.Vfs.{Vfs}
use bare_metal_os_kernel.Vfs.Mount.{vfs_mount}
use bare_metal_os_kernel.Syscalls.{
  System, Given, get_current, set_current, set_fd, file_at, with_bytes, bytes_at,
}

-- The path of the string at `p` from the task's directory.
unfoldable pub absolute : Given → (p : ℕ) → System → Run (List ℕ)
absolute k p s = do
  pathname ← c_string k.fuel s.mem p
  (r, abs_path) ← to_abs_path [] (get_current s).cwd pathname
  ok abs_path

unfoldable pub open_fd : Given → (fd pathname flags : ℕ) → System → Run (ℤ × System)
open_fd k fd pathname flags s = do
  abs_path ← absolute k pathname s
  (result, open_file, v) ← vfs_open k.fuel (k.i 0) abs_path flags none s.vfs
  ok (pos fd, set_fd fd open_file (record s { vfs = v }))

unfoldable pub sysc_open : Given → (pathname flags : ℕ) → System → Run (ℤ × System)
sysc_open k pathname flags s = elim (get_task_idle_fd (get_current s)) [
  | none ↦ ok (negsuc 0, s)
  | some fd ↦ open_fd k fd pathname flags s
]

abbrev pub closed : (fd : ℕ) → System → ℤ × Vfs → Run (ℤ × System)
closed fd s (result, v) =
    let s1 = record s { vfs = v } in
    ok (pos 0, if int_eq result (pos 0) then set_fd fd none s1 else s1)

unfoldable pub sysc_close : (fd : ℤ) → System → Run (ℤ × System)
sysc_close fd s = do
  (n, target_file) ← file_at fd s
  closed_so ← vfs_close target_file s.vfs
  closed n s closed_so

unfoldable pub sysc_write : (fd : ℤ) → (buf count : ℕ) → System → Run (ℤ × System)
sysc_write fd buf count s = do
  (n, target_file) ← file_at fd s
  (r, v) ← vfs_write target_file (bytes_at s.mem buf) count s.vfs
  ok (r, record s { vfs = v })

-- What a read leaves in the `count` bytes of the buffer is written back.
unfoldable pub sysc_read : (fd : ℤ) → (buf count : ℕ) → System → Run (ℤ × System)
sysc_read fd buf count s = do
  (n, target_file) ← file_at fd s
  (r, bytes, v) ← vfs_read target_file (bytes_at s.mem buf) count s.vfs
  ok (r, record s { vfs = v; mem = with_bytes s.mem buf count bytes })

unfoldable pub sysc_mkdir : Given → (pathname : ℕ) → System → Run (ℤ × System)
sysc_mkdir k pathname s = do
  abs_path ← absolute k pathname s
  (r, v) ← vfs_mkdir k.fuel (k.i 0) abs_path s.vfs
  ok (pos 0, record s { vfs = v })

unfoldable pub sysc_mount : Given → (target file_name : ℕ) → System → Run (ℤ × System)
sysc_mount k target file_name s = do
  abs_path ← absolute k target s
  name ← c_string k.fuel s.mem file_name
  (r, v) ← vfs_mount k.fuel k.i k.archive abs_path name s.vfs
  ok (r, record s { vfs = v })

-- The path with a slash at its end. Of an empty path the byte before the array is read.
unfoldable pub with_slash : (path : List ℕ) → Run (List ℕ)
with_slash [] = fault
with_slash (c ∷ cs) = if ends_with_slash (c ∷ cs) then ok (c ∷ cs) else fits ((c ∷ cs) ++ b'/' ∷ [])

unfoldable pub sysc_chdir : Given → (path : ℕ) → System → Run (ℤ × System)
sysc_chdir k path s = do
  changed_path ← absolute k path s
  (ret, node, v) ← vfs_lookup k.fuel (k.i 0) changed_path none s.vfs
  whole ← with_slash changed_path
  let s1 = record s { vfs = v }
  ok (
    ret,
    if int_eq ret (pos 0) then set_current (record (get_current s1) { cwd = whole }) s1 else s1,
  )

-- The two calls on the UART.
unfoldable pub sysc_uart_read : (buf size : ℕ) → System → Run (ℤ × System)
sysc_uart_read buf size s = do
  (bytes, u) ← getc_loop size 0 (bytes_at s.mem buf) s.vfs.uart
  ok (
    to_int size,
    record s { vfs = record (s.vfs) { uart = u }; mem = with_bytes s.mem buf size bytes },
  )

unfoldable pub sysc_uart_write : (buf size : ℕ) → System → Run (ℤ × System)
sysc_uart_write buf size s = do
  u ← send_loop size 0 (bytes_at s.mem buf) s.vfs.uart
  ok (to_int size, record s { vfs = record (s.vfs) { uart = u } })
