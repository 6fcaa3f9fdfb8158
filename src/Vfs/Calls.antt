-- ===== src/Vfs/Calls.antt =====
-- The calls of lib/vfs.c on paths and on handles.
use bare_metal_os_kernel.Base.{
  ℕ, ◌/◌, ◌%◌, true, false, Option, none, some, List, Run, ok, fault, ◌>>=◌, ◌==◌, if◌then◌else◌,
}
use bare_metal_os_kernel.Base.{ℤ, pos, negsuc, int_eq}
use bare_metal_os_kernel.Files.{
  Store, Operations, tmpfs, devfs, initramfs, comp_file, set_component, set_file, tmpfs_read,
  tmpfs_write, tmpfs_close,
}
use bare_metal_os_kernel.Files.Directory.{component_of, same_name}
use bare_metal_os_kernel.Files.Devices.{
  devfs_read, devfs_write, devfs_close, initramfs_read, initramfs_write, initramfs_close,
}
use bare_metal_os_kernel.Vfs.{Vfs, o_creat, open_of, lookup_path, root_of, slash}

unfoldable pub vfs_lookup :
    (fuel : ℕ)
    → (i : ℤ) → (pathname : List ℕ) → (target : Option ℕ) → Vfs
    → Run (ℤ × Option ℕ × Vfs)
vfs_lookup fuel i pathname target v = do
  root ← root_of v
  elim (same_name pathname slash) [
    | true ↦ ok (pos 0, some root, v)
    | false ↦ lookup_path fuel i pathname root target 0 v
  ]

-- `node->component->type = COMP_FILE; node->component->data = NULL;`
unfoldable pub make_file : (node : Option ℕ) → Vfs → Run Vfs
make_file none v = fault
make_file (some t) v = do
  c ← component_of t v.store
  let comp = v.store.components c
  ok (record v {
    store = set_component c (record comp { type = comp_file; content = none }) v.store;
  })

-- `(*target)->flags = flags` where `open` has returned 0.
unfoldable pub set_flags : (flags : ℕ) → ℤ × Option ℕ × Vfs → Run (ℤ × Option ℕ × Vfs)
set_flags flags (r, target, v) = elim (int_eq r (pos 0)) [
  | false ↦ ok (r, target, v)
  | true ↦ elim target [
    | none ↦ fault
    | some f ↦ ok (
      r,
      some f,
      record v { store = set_file f (record (v.store.files f) { flags = flags }) v.store },
    )
  ]
]

unfoldable pub open_node :
    (node : Option ℕ) → (flags : ℕ) → (target : Option ℕ) → Vfs → Run (ℤ × Option ℕ × Vfs)
open_node none flags target v = fault
open_node (some t) flags target v = open_of (v.store.vnodes t).f_ops t target v >>= set_flags flags

-- What `vfs_open` does where no node was found: `node` is what the lookup has left in it.
unfoldable pub open_missing :
    (fuel : ℕ)
    → (i : ℤ) → (pathname : List ℕ) → (flags : ℕ) → (node target : Option ℕ) → Vfs
    → Run (ℤ × Option ℕ × Vfs)
open_missing fuel i pathname flags node target v = elim (((flags / o_creat) % 2) == 1) [
  | false ↦ ok (negsuc 0, target, v)
  | true ↦ do
    root ← root_of v
    (result, made, v1) ← lookup_path fuel i pathname root node 1 v
    elim (int_eq result (pos 0)) [
      | false ↦ ok (negsuc 0, target, v1)
      | true ↦ do v2 ← make_file made v1; open_node made flags target v2
    ]
]

unfoldable pub vfs_open :
    (fuel : ℕ)
    → (i : ℤ) → (pathname : List ℕ) → (flags : ℕ) → (target : Option ℕ) → Vfs
    → Run (ℤ × Option ℕ × Vfs)
vfs_open fuel i pathname flags target v = do
  (result, node, v1) ← vfs_lookup fuel i pathname none v
  elim (int_eq result (pos 0)) [
    | true ↦ open_node node flags target v1
    | false ↦ open_missing fuel i pathname flags node target v1
  ]

-- The calls on a handle, which may be NULL, go to the table that the handle has.
unfoldable pub close_of : Operations → (file : Option ℕ) → Store → ℤ × Store
close_of tmpfs file s = tmpfs_close file s
close_of devfs file s = devfs_close file s
close_of initramfs file s = initramfs_close file s

unfoldable pub vfs_close : (file : Option ℕ) → Vfs → Run (ℤ × Vfs)
vfs_close none v = fault
vfs_close (some f) v =
    let (r, s) = close_of (v.store.files f).f_ops (some f) v.store in ok (r, record v { store = s })

unfoldable pub write_of : Operations → (file : ℕ) → (buf : ℕ → ℕ) → (len : ℕ) → Vfs → Run (ℤ × Vfs)
write_of tmpfs file buf len v = do
  (r, s) ← tmpfs_write (some file) buf len v.store
  ok (r, record v { store = s })
write_of devfs file buf len v = do
  (r, u) ← devfs_write file buf len v.store v.uart
  ok (r, record v { uart = u })
write_of initramfs file buf len v = ok (initramfs_write file buf len, v)

unfoldable pub vfs_write : (file : Option ℕ) → (buf : ℕ → ℕ) → (len : ℕ) → Vfs → Run (ℤ × Vfs)
vfs_write none buf len v = fault
vfs_write (some f) buf len v = write_of (v.store.files f).f_ops f buf len v

unfoldable pub read_of :
    Operations → (file : ℕ) → (buf : ℕ → ℕ) → (len : ℕ) → Vfs → Run (ℤ × (ℕ → ℕ) × Vfs)
read_of tmpfs file buf len v = do
  (r, buf1, s) ← tmpfs_read (some file) buf len v.store
  ok (r, buf1, record v { store = s })
read_of devfs file buf len v = do
  (r, buf1, u) ← devfs_read file buf len v.store v.uart
  ok (r, buf1, record v { uart = u })
read_of initramfs file buf len v = do
  (r, buf1, s) ← initramfs_read (some file) buf len v.store
  ok (r, buf1, record v { store = s })

unfoldable pub vfs_read :
    (file : Option ℕ) → (buf : ℕ → ℕ) → (len : ℕ) → Vfs → Run (ℤ × (ℕ → ℕ) × Vfs)
vfs_read none buf len v = fault
vfs_read (some f) buf len v = read_of (v.store.files f).f_ops f buf len v

-- Only where the lookup returns 1, which it never does, the path counts as one that exists.
unfoldable pub vfs_mkdir : (fuel : ℕ) → (i : ℤ) → (pathname : List ℕ) → Vfs → Run (ℤ × Vfs)
vfs_mkdir fuel i pathname v = do
  (looked, node, v1) ← vfs_lookup fuel i pathname none v
  elim (int_eq looked (pos 1)) [
    | true ↦ ok (pos 0, v1)
    | false ↦ do
      root ← root_of v1
      (result, made, v2) ← lookup_path fuel i pathname root node 1 v1
      ok (if int_eq result (pos 0) then pos 0 else negsuc 0, v2)
  ]
