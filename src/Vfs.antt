-- ===== src/Vfs.antt =====
-- lib/vfs.c: the tables of operations, the walk along a path, and the calls on paths and handles.
-- The walk counts its calls in fuel. The variable `i` that `lookup_path` does not initialise is an
-- argument.
pub mod Calls
pub mod Mount
pub mod Routes
pub mod Walk
pub mod Handles
pub mod Open
pub mod Create
pub mod Sample
mod Tests
use bare_metal_os_kernel.Base.{
  ℕ, zero, suc, ◌+◌, ◌/◌, ◌%◌, Bool, true, false, ◌&&◌, not, Option, none, some, List, [], ◌∷◌,
  length, drop, Run, ok, fault, out_of_fuel, ◌>>=◌, ltb, ◌==◌, if◌then◌else◌, update,
}
use bare_metal_os_kernel.Base.{ℤ, pos, negsuc, int_eq}
use bare_metal_os_kernel.Uart.{Uart}
use bare_metal_os_kernel.Files.{
  Store, File, Operations, tmpfs, devfs, initramfs, comp_file, comp_dir, set_component, set_file,
  tmpfs_read, tmpfs_write, tmpfs_open, tmpfs_close,
}
use bare_metal_os_kernel.Files.Directory.{
  component_of, tmpfs_lookup, tmpfs_mkdir, devfs_lookup, devfs_mkdir,
}
use bare_metal_os_kernel.Files.Devices.{
  devfs_read, devfs_write, devfs_open, devfs_close, initramfs_read, initramfs_write, initramfs_open,
  initramfs_close, initramfs_mkdir, initramfs_lookup,
}
use bare_metal_os_kernel.Paths.{first_component, pop_first_component, spilt, fits}

-- `struct filesystem`; a `setup_mount` that nothing has set is `none`.
pub record Filesystem : Type 0 where
  pub name : List ℕ
  pub setup_mount : Option Operations

-- A mount has its file system under its address; `mounted` is the variable of lib/cpio.c.
pub record Vfs : Type 0 where
  pub store : Store
  pub uart : Uart
  pub rootfs : Option ℕ
  pub filesystems : ℕ → Filesystem
  pub mounted : Bool

abbrev pub o_creat : ℕ
o_creat = 64

abbrev pub with_store : Vfs → ℤ × Option ℕ × Store → Run (ℤ × Option ℕ × Vfs)
with_store v (r, t, s) = ok (r, t, record v { store = s })

-- `v_ops->lookup`, `v_ops->mkdir` and `f_ops->open`.
unfoldable pub lookup_of :
    Operations
    → (dir_node : ℕ) → (target : Option ℕ) → (component_name : List ℕ) → Store
    → Run (ℤ × Option ℕ)
lookup_of tmpfs dir_node target component_name s = tmpfs_lookup dir_node target component_name s
lookup_of devfs dir_node target component_name s = devfs_lookup dir_node target component_name s
lookup_of initramfs dir_node target component_name s =
    initramfs_lookup dir_node target component_name s

unfoldable pub mkdir_of :
    Operations
    → (dir_node : ℕ) → (target : Option ℕ) → (component_name : List ℕ) → Vfs
    → Run (ℤ × Option ℕ × Vfs)
mkdir_of tmpfs dir_node target component_name v =
    tmpfs_mkdir dir_node target component_name v.store >>= with_store v
mkdir_of devfs dir_node target component_name v =
    with_store v (devfs_mkdir dir_node target component_name v.store)
mkdir_of initramfs dir_node target component_name v =
    initramfs_mkdir v.mounted dir_node target component_name v.store >>= with_store v

unfoldable pub open_of :
    Operations → (file_node : ℕ) → (target : Option ℕ) → Vfs → Run (ℤ × Option ℕ × Vfs)
open_of tmpfs file_node target v = tmpfs_open file_node target v.store >>= with_store v
open_of devfs file_node target v = devfs_open file_node target v.store >>= with_store v
open_of initramfs file_node target v = initramfs_open file_node target v.store >>= with_store v

-- `dir_node` and `*target` after a `mkdir`: on an error the loop goes on in the same directory.
unfoldable pub next_dir :
    (dir_node : ℕ)
    → (go_on : ℕ → Option ℕ → Vfs → Run (Option ℕ × Vfs)) → ℤ × Option ℕ × Vfs
    → Run (Option ℕ × Vfs)
next_dir dir_node go_on (r, none, v) = if int_eq r (pos 0) then fault else go_on dir_node none v
next_dir dir_node go_on (r, some t, v) = go_on (if int_eq r (pos 0) then t else dir_node) (some t) v

-- The loop of `lookup_path` over the components that are left.
unfoldable pub make_dirs :
    (rest_comps : List (List ℕ)) → (dir_node : ℕ) → (target : Option ℕ) → Vfs → Run (Option ℕ × Vfs)
make_dirs [] dir_node target v = ok (target, v)
make_dirs (c ∷ cs) dir_node target v = elim (length c == 0) [
  | true ↦ make_dirs cs dir_node target v
  | false ↦
      mkdir_of (v.store.vnodes dir_node).v_ops dir_node target c v
      >>= next_dir dir_node (make_dirs cs)
]

-- The loop begins at `i`: below 0 it reads before the array.
unfoldable pub make_path :
    (i : ℤ)
    → (pathname : List ℕ) → (dir_node : ℕ) → (target : Option ℕ) → Vfs
    → Run (ℤ × Option ℕ × Vfs)
make_path (negsuc n) pathname dir_node target v = fault
make_path (pos n) pathname dir_node target v = do
  path_copy ← fits pathname
  rest_comps ← spilt path_copy
  (made, v1) ← make_dirs (drop n rest_comps) dir_node target v
  ok (pos 0, made, v1)

-- How `lookup_path` goes on with the node it has found: at the end of the path, in the next call,
-- or with an error.
unfoldable pub descend :
    (rest_path : List ℕ)
    → (node : ℕ) → (next : Run (ℤ × Option ℕ × Vfs)) → Vfs
    → Run (ℤ × Option ℕ × Vfs)
descend [] node next v = ok (pos 0, some node, v)
descend (x ∷ xs) node next v = do
  c ← component_of node v.store
  if (v.store.components c).type == comp_dir then next else ok (negsuc 0, some node, v)

-- What a lookup in the directory has come to.
unfoldable pub found_or :
    ℤ × Option ℕ → (go_on : ℕ → Run (ℤ × Option ℕ × Vfs)) → Vfs → Run (ℤ × Option ℕ × Vfs)
found_or (r, found) go_on v = elim (int_eq r (pos 0)) [
  | false ↦ ok (negsuc 0, found, v)
  | true ↦ elim found [ none ↦ fault | some t ↦ go_on t ]
]

unfoldable pub look_in :
    (component_name : List ℕ)
    → (dir_node : ℕ) → (target : Option ℕ) → (go_on : ℕ → Run (ℤ × Option ℕ × Vfs)) → Vfs
    → Run (ℤ × Option ℕ × Vfs)
look_in component_name dir_node target go_on v = do
  looked ← lookup_of (v.store.vnodes dir_node).v_ops dir_node target component_name v.store
  found_or looked go_on v

-- The tests on the type of the node and on `create`.
unfoldable pub in_directory :
    (type create : ℕ)
    → (look make : Run (ℤ × Option ℕ × Vfs)) → (target : Option ℕ) → Vfs
    → Run (ℤ × Option ℕ × Vfs)
in_directory type create look make target v = elim (type == comp_dir) [
  | false ↦ ok (negsuc 0, target, v)
  | true ↦ if create == 0 then look else if create == 1 then make else ok (pos 0, target, v)
]

-- A node with a mount is left for the root of the mount.
unfoldable pub across_mount :
    (mount : Option ℕ)
    → (across : ℕ → Run (ℤ × Option ℕ × Vfs)) → (here : Run (ℤ × Option ℕ × Vfs))
    → Run (ℤ × Option ℕ × Vfs)
across_mount none across here = here
across_mount (some m) across here = across m

-- The result, `*target`, and the state.
unfoldable pub lookup_path :
    (fuel : ℕ)
    → (i : ℤ) → (pathname : List ℕ) → (dir_node : ℕ) → (target : Option ℕ) → (create : ℕ) → Vfs
    → Run (ℤ × Option ℕ × Vfs)
lookup_path zero i pathname dir_node target create v = out_of_fuel
lookup_path (suc fuel) i pathname dir_node target create v = do
  component_name ← first_component pathname
  let rest_path = pop_first_component pathname
  across_mount (v.store.vnodes dir_node).mount
      (λ m. lookup_path fuel i pathname (v.store.roots m) target create v)
      (do
        c ← component_of dir_node v.store
        in_directory (v.store.components c).type create
            (look_in component_name dir_node target
              (λ t. descend rest_path t (lookup_path fuel i rest_path t (some t) create v) v) v)
            (make_path i pathname dir_node target v) target v)

-- `rootfs->root`
unfoldable pub root_of : Vfs → Run ℕ
root_of v = elim v.rootfs [ none ↦ fault | some m ↦ ok (v.store.roots m) ]

abbrev pub slash : List ℕ
slash = b'/' ∷ []
