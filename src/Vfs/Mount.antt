-- ===== src/Vfs/Mount.antt =====
-- `register_filesystem` and `vfs_mount` of lib/vfs.c, and `initramfs_setup_mount` of lib/cpio.c. The
-- list of files that `cpio_parse` makes of the archive is an argument.
use bare_metal_os_kernel.Base.{
  ℕ, ◌+◌, true, false, Option, none, some, List, [], ◌∷◌, length, Run, ok, fault, ◌>>=◌, ltb,
  if◌then◌else◌, update,
}
use bare_metal_os_kernel.Base.{ℤ, pos, negsuc, int_eq}
use bare_metal_os_kernel.Files.{
  Store, Operations, tmpfs, devfs, initramfs, name_len, comp_file, set_component,
}
use bare_metal_os_kernel.Files.Directory.{
  component_of, same_name, root_node, tmpfs_setup_mount, devfs_setup_mount,
}
use bare_metal_os_kernel.Vfs.{Vfs, Filesystem, lookup_path, slash}
use bare_metal_os_kernel.Vfs.Calls.{vfs_lookup, vfs_mkdir}

-- `cpio_file_ll`: the data are a block of bytes.
pub record CpioFile : Type 0 where
  pub pathname : List ℕ
  pub file_size : ℕ
  pub data_ptr : ℕ

abbrev pub initramfs_path : List ℕ
initramfs_path = b'/' ∷ b'i' ∷ b'n' ∷ b'i' ∷ b't' ∷ b'r' ∷ b'a' ∷ b'm' ∷ b'f' ∷ b's' ∷ []

abbrev pub dev_path : List ℕ
dev_path = b'/' ∷ b'd' ∷ b'e' ∷ b'v' ∷ []

abbrev pub tmpfs_name : List ℕ
tmpfs_name = b't' ∷ b'm' ∷ b'p' ∷ b'f' ∷ b's' ∷ []

unfoldable pub register_filesystem : Filesystem → ℤ × Filesystem
register_filesystem fs =
    if same_name fs.name tmpfs_name
    then (pos 0, record fs { setup_mount = some tmpfs })
    else (negsuc 0, fs)

-- `node_new->component` becomes the file.
unfoldable pub set_file_data : CpioFile → (node : Option ℕ) → Vfs → Run Vfs
set_file_data file none v = fault
set_file_data file (some t) v = do
  c ← component_of t v.store
  let comp = v.store.components c
  ok (record v {
    store =
        set_component c
          (record comp { type = comp_file; content = some file.data_ptr; len = file.file_size })
          v.store;
  })

-- `while(file->next != NULL)`: the last file of the list is not looked at. The call for the file
-- number `k` of the list finds `i k` in its variable.
unfoldable pub add_files :
    (fuel : ℕ)
    → (i : ℕ → ℤ) → (k : ℕ) → List CpioFile
    → (dir_node : ℕ) → (node_new : Option ℕ) → Vfs
    → Run Vfs
add_files fuel i k [] dir_node node_new v = fault
add_files fuel i k (file ∷ []) dir_node node_new v = ok v
add_files fuel i k (file ∷ next ∷ files) dir_node node_new v = elim (ltb 0 file.file_size) [
  | false ↦ add_files fuel i (k + 1) (next ∷ files) dir_node node_new v
  | true ↦ do
    (r, made, v1) ← lookup_path fuel (i k) file.pathname dir_node node_new 1 v
    v2 ← set_file_data file made v1
    add_files fuel i (k + 1) (next ∷ files) dir_node made v2
]

unfoldable pub initramfs_setup_mount :
    (fuel : ℕ) → (i : ℕ → ℤ) → List CpioFile → (mount : Option ℕ) → Vfs → Run (ℤ × Vfs)
initramfs_setup_mount fuel i files none v = fault
initramfs_setup_mount fuel i files (some m) v =
    let v1 = record v { store = root_node initramfs m v.store } in
    elim v.mounted [
      | true ↦ ok (pos 0, v1)
      | false ↦ do
        v2 ← add_files fuel i 0 files (v1.store.roots m) none v1
        ok (pos 0, record v2 { mounted = true })
    ]

abbrev pub with_new_store : Vfs → ℤ × Store → Run (ℤ × Vfs)
with_new_store v (r, s) = ok (r, record v { store = s })

-- `mount->fs->setup_mount(...)`; where nothing has set it, this is a jump to what is in memory.
unfoldable pub setup_of :
    (setup : Option Operations)
    → (fuel : ℕ) → (i : ℕ → ℤ) → List CpioFile
    → (mount : ℕ) → Vfs
    → Run (ℤ × Vfs)
setup_of none fuel i files m v = fault
setup_of (some tmpfs) fuel i files m v = tmpfs_setup_mount (some m) v.store >>= with_new_store v
setup_of (some devfs) fuel i files m v = devfs_setup_mount (some m) v.store >>= with_new_store v
setup_of (some initramfs) fuel i files m v = initramfs_setup_mount fuel i files (some m) v

-- A new mount with a file system of this name, in three blocks, the name's of 16 bytes.
unfoldable pub new_mount : (file_name : List ℕ) → (setup : Option Operations) → Vfs → Run (ℕ × Vfs)
new_mount file_name setup v =
    let m = v.store.next in
    if ltb (length file_name) name_len
    then ok (
      m,
      record v {
        store = record (v.store) { next = m + 3 };
        filesystems = update v.filesystems m (record { name = file_name; setup_mount = setup });
      },
    )
    else fault

abbrev pub set_mount : (node m : ℕ) → Store → Store
set_mount node m s = record s {
  vnodes = update s.vnodes node (record (s.vnodes node) { mount = some m });
}

-- The new mount is put on the node that the lookup has found. Its root, which one branch sets to
-- this node first, is written by each `setup_mount`.
unfoldable pub mount_on :
    ℤ × Option ℕ × Vfs
    → (file_name : List ℕ) → (setup : Option Operations) → (fuel : ℕ) → (i : ℕ → ℤ) → List CpioFile
    → Run (ℤ × Vfs)
mount_on (result, node, v) file_name setup fuel i files = elim (int_eq result (pos 0)) [
  | false ↦ ok (negsuc 0, v)
  | true ↦ elim node [
    | none ↦ fault
    | some t ↦ do
      (m, v1) ← new_mount file_name setup v
      setup_of setup fuel i files m (record v1 { store = set_mount t m v1.store })
  ]
]

-- `setup_mount` after `register_filesystem`, of a file system in which nothing has set it.
abbrev pub registered : (file_name : List ℕ) → Option Operations
registered file_name =
    (register_filesystem (record { name = file_name; setup_mount = none })).1.setup_mount

unfoldable pub vfs_mount :
    (fuel : ℕ) → (i : ℕ → ℤ) → List CpioFile → (target file_name : List ℕ) → Vfs → Run (ℤ × Vfs)
vfs_mount fuel i files target file_name v = elim (same_name target slash) [
  | true ↦ do
    (m, v1) ← new_mount file_name (registered file_name) v
    setup_of (registered file_name) fuel i files m (record v1 { rootfs = some m })
  | false ↦ elim (same_name target initramfs_path) [
    | true ↦ do
      (r, v1) ← vfs_mkdir fuel (i 0) target v
      looked ← vfs_lookup fuel (i 0) target none v1
      mount_on looked file_name (some initramfs) fuel (λ k. i (k + 1)) files
    | false ↦ elim (same_name target dev_path) [
      | true ↦ do
        (r, v1) ← vfs_mkdir fuel (i 0) target v
        looked ← vfs_lookup fuel (i 0) target none v1
        mount_on looked file_name (some devfs) fuel i files
      | false ↦ do
        looked ← vfs_lookup fuel (i 0) target none v
        mount_on looked file_name (registered file_name) fuel i files
    ]
  ]
]
