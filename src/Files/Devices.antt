-- ===== src/Files/Devices.antt =====
-- The file operations of lib/devfs.c, whose file "uart" stands for the mini UART, and those that
-- lib/devfs.c and lib/cpio.c pass on to lib/tmpfs.c.
use bare_metal_os_kernel.Base.{
  ℕ, zero, suc, ◌+◌, ◌%◌, Bool, true, false, Option, none, some, List, Run, ok, fault, ◌>>=◌,
  update,
}
use bare_metal_os_kernel.Base.{ℤ, pos}
use bare_metal_os_kernel.Uart.{Uart, uart_send, uart_getc}
use bare_metal_os_kernel.Files.{Store, to_int, tmpfs_read, tmpfs_open, tmpfs_close}
use bare_metal_os_kernel.Files.Directory.{
  same_name, component_of, devfs_uart_name, tmpfs_lookup, tmpfs_create, tmpfs_mkdir,
}

-- `file->vnode->component->name`
unfoldable pub file_name : (file : ℕ) → Store → Run (List ℕ)
file_name file s = elim (s.files file).vnode [
  | none ↦ fault
  | some n ↦ do c ← component_of n s; ok (s.components c).name
]

-- `uart_send(*ptr++)`, `n` times.
unfoldable pub send_loop : (n i : ℕ) → (buf : ℕ → ℕ) → Uart → Run Uart
send_loop zero i buf u = ok u
send_loop (suc n) i buf u = do u1 ← uart_send (buf i) u; send_loop n (i + 1) buf u1

-- `*ptr++ = uart_getc()`, `n` times.
unfoldable pub getc_loop : (n i : ℕ) → (buf : ℕ → ℕ) → Uart → Run ((ℕ → ℕ) × Uart)
getc_loop zero i buf u = ok (buf, u)
getc_loop (suc n) i buf u = do
  (c, u1) ← uart_getc u
  getc_loop n (i + 1) (update buf i (c % 256)) u1

unfoldable pub devfs_write : (file : ℕ) → (buf : ℕ → ℕ) → (len : ℕ) → Store → Uart → Run (ℤ × Uart)
devfs_write file buf len s u = do
  name ← file_name file s
  elim (same_name name devfs_uart_name) [
    | true ↦ do u1 ← send_loop len 0 buf u; ok (to_int len, u1)
    | false ↦ ok (pos 0, u)
  ]

unfoldable pub devfs_read :
    (file : ℕ) → (buf : ℕ → ℕ) → (len : ℕ) → Store → Uart → Run (ℤ × (ℕ → ℕ) × Uart)
devfs_read file buf len s u = do
  name ← file_name file s
  elim (same_name name devfs_uart_name) [
    | true ↦ do (buf1, u1) ← getc_loop len 0 buf u; ok (to_int len, buf1, u1)
    | false ↦ ok (pos 0, buf, u)
  ]

unfoldable pub devfs_open :
    (file_node : ℕ) → (target : Option ℕ) → Store → Run (ℤ × Option ℕ × Store)
devfs_open file_node target s = tmpfs_open file_node target s

unfoldable pub devfs_close : (file : Option ℕ) → Store → ℤ × Store
devfs_close file s = tmpfs_close file s

unfoldable pub initramfs_write : (file : ℕ) → (buf : ℕ → ℕ) → (len : ℕ) → ℤ
initramfs_write file buf len = pos 0

unfoldable pub initramfs_read :
    (file : Option ℕ) → (buf : ℕ → ℕ) → (len : ℕ) → Store → Run (ℤ × (ℕ → ℕ) × Store)
initramfs_read file buf len s = tmpfs_read file buf len s

unfoldable pub initramfs_open :
    (file_node : ℕ) → (target : Option ℕ) → Store → Run (ℤ × Option ℕ × Store)
initramfs_open file_node target s = tmpfs_open file_node target s

unfoldable pub initramfs_close : (file : Option ℕ) → Store → ℤ × Store
initramfs_close file s = tmpfs_close file s

-- `mounted` is the static variable of lib/cpio.c.
unfoldable pub initramfs_mkdir :
    (mounted : Bool)
    → (dir_node : ℕ) → (target : Option ℕ) → (component_name : List ℕ) → Store
    → Run (ℤ × Option ℕ × Store)
initramfs_mkdir true dir_node target component_name s = ok (pos 1, target, s)
initramfs_mkdir false dir_node target component_name s =
    tmpfs_mkdir dir_node target component_name s

unfoldable pub initramfs_create :
    (mounted : Bool)
    → (dir_node : ℕ) → (target : Option ℕ) → (component_name : List ℕ) → Store
    → Run (ℤ × Option ℕ × Store)
initramfs_create true dir_node target component_name s = ok (pos 1, target, s)
initramfs_create false dir_node target component_name s =
    tmpfs_create dir_node target component_name s

unfoldable pub initramfs_lookup :
    (dir_node : ℕ) → (target : Option ℕ) → (component_name : List ℕ) → Store → Run (ℤ × Option ℕ)
initramfs_lookup dir_node target component_name s = tmpfs_lookup dir_node target component_name s
