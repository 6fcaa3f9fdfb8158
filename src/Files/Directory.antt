-- ===== src/Files/Directory.antt =====
-- The directory operations of lib/tmpfs.c, the two mount points and lib/devfs.c.
use bare_metal_os_kernel.Base.{
  ℕ, zero, suc, ◌+◌, Bool, true, false, Option, none, some, List, [], ◌∷◌, length, Run, ok, fault,
  ◌>>=◌, ltb, leb, ◌==◌, if◌then◌else◌, update,
}
use bare_metal_os_kernel.Base.{ℤ, pos, negsuc, int_eq}
use bare_metal_os_kernel.Strings.Compare.{compare_strings}
use bare_metal_os_kernel.Files.{
  Store, VnodeComponent, Operations, tmpfs, devfs, name_len, tmpfs_max_entry, comp_file, comp_dir,
  set_component,
}

abbrev pub same_name : (a b : List ℕ) → Bool
same_name a b = int_eq (compare_strings a b) (pos 0)

-- `entry->mount == NULL ? entry : (entry->mount->root)`.
abbrev pub root_or : (mount : Option ℕ) → (entry : ℕ) → (roots : ℕ → ℕ) → ℕ
root_or none entry roots = entry
root_or (some m) entry roots = roots m

abbrev pub mounted : (entry : ℕ) → Store → ℕ
mounted entry s = root_or (s.vnodes entry).mount entry s.roots

-- The `n` entries from `i` on.
unfoldable pub lookup_loop :
    (n i : ℕ) → (entries : ℕ → ℕ) → (component_name : List ℕ) → Store → Run (Option ℕ)
lookup_loop zero i entries component_name s = ok none
lookup_loop (suc n) i entries component_name s = elim (s.vnodes (entries i)).component [
  | none ↦ fault
  | some c ↦ elim (same_name component_name (s.components c).name) [
    | true ↦ ok (some (mounted (entries i) s))
    | false ↦ lookup_loop n (i + 1) entries component_name s
  ]
]

unfoldable pub entries_of : (len : ℕ) → (content : Option ℕ) → Store → Run (ℕ → ℕ)
entries_of zero content s = ok (λ _. 0)
entries_of (suc n) none s = fault
entries_of (suc n) (some p) s = ok (s.entries p)

-- The component of a node that a function dereferences without a test.
unfoldable pub component_of : ℕ → Store → Run ℕ
component_of node s = elim (s.vnodes node).component [ none ↦ fault | some c ↦ ok c ]

abbrev pub looked_up : (target found : Option ℕ) → ℤ × Option ℕ
looked_up target none = (negsuc 0, target)
looked_up target (some t) = (pos 0, some t)

unfoldable pub lookup_in :
    (dir : VnodeComponent)
    → (target : Option ℕ) → (component_name : List ℕ) → Store
    → Run (ℤ × Option ℕ)
lookup_in dir target component_name s = elim (dir.type == comp_dir) [
  | false ↦ ok (negsuc 0, target)
  | true ↦ do
    entries ← entries_of dir.len dir.content s
    found ← lookup_loop dir.len 0 entries component_name s
    ok (looked_up target found)
]

-- 0 and the new `*target`, or -1 and the old one.
unfoldable pub tmpfs_lookup :
    (dir_node : ℕ) → (target : Option ℕ) → (component_name : List ℕ) → Store → Run (ℤ × Option ℕ)
tmpfs_lookup dir_node target component_name s = do
  c ← component_of dir_node s
  lookup_in (s.components c) target component_name s

-- The array of a directory, which is made with its first entry, and `next` after that.
abbrev pub array_at : (content : Option ℕ) → (next : ℕ) → ℕ
array_at none next = next
array_at (some p) next = p

abbrev pub next_after : (content : Option ℕ) → (next : ℕ) → ℕ
next_after none next = next + 1
next_after (some p) next = next

-- A new node, its component and the component's name; the type keeps what is in the memory.
abbrev pub new_node : (dir_node : ℕ) → (component_name : List ℕ) → Store → Store
new_node dir_node component_name s = record s {
  components =
      update s.components (s.next + 1)
        (record (s.components (s.next + 1)) { name = component_name; content = none; len = 0 });
  vnodes = update s.vnodes s.next (record {
    f_ops = (s.vnodes dir_node).f_ops;
    v_ops = (s.vnodes dir_node).v_ops;
    mount = none;
    component = some (s.next + 1);
  });
  next = s.next + 3;
}

-- `entries[len++] = *target`.
unfoldable pub add_entry : (dir node : ℕ) → Store → Store
add_entry dir node s =
    let comp = s.components dir in
    let p = array_at comp.content s.next in
    record s {
      entries = update s.entries p (update (s.entries p) comp.len node);
      components = update s.components dir (record comp { len = comp.len + 1; content = some p });
      next = next_after comp.content s.next;
    }

-- What `tmpfs_create` does where the name is not there: the name's block has `NAME_LEN` bytes.
unfoldable pub create_in :
    (dir_node c : ℕ)
    → (target : Option ℕ) → (component_name : List ℕ) → Store
    → Run (ℤ × Option ℕ × Store)
create_in dir_node c target component_name s =
    if leb tmpfs_max_entry (s.components c).len
    then ok (negsuc 0, target, s)
    else if ltb (length component_name) name_len
    then ok (pos 0, some s.next, add_entry c s.next (new_node dir_node component_name s))
    else fault

abbrev pub created :
    (dir_node c : ℕ) → (component_name : List ℕ) → Store → ℤ × Option ℕ → Run (ℤ × Option ℕ × Store)
created dir_node c component_name s (r, found) =
    if int_eq r (pos 0) then ok (pos 1, found, s) else create_in dir_node c found component_name s

unfoldable pub create_on :
    (dir_node c : ℕ)
    → (target : Option ℕ) → (component_name : List ℕ) → Store
    → Run (ℤ × Option ℕ × Store)
create_on dir_node c target component_name s = elim ((s.components c).type == comp_dir) [
  | false ↦ ok (negsuc 0, target, s)
  | true ↦ (tmpfs_lookup dir_node target component_name s >>= created dir_node c component_name s)
]

-- 0 for a new node, 1 for one that exists, and -1.
unfoldable pub tmpfs_create :
    (dir_node : ℕ)
    → (target : Option ℕ) → (component_name : List ℕ) → Store
    → Run (ℤ × Option ℕ × Store)
tmpfs_create dir_node target component_name s = do
  c ← component_of dir_node s
  create_on dir_node c target component_name s

-- What `tmpfs_mkdir` makes of the result of `tmpfs_create`.
unfoldable pub made_dir : ℤ × Option ℕ × Store → Run (ℤ × Option ℕ × Store)
made_dir (r, none, s) =
    if int_eq r (pos 0) then fault else ok (if int_eq r (pos 1) then pos 0 else negsuc 0, none, s)
made_dir (r, some t, s) = elim (int_eq r (pos 0)) [
  | false ↦ ok (if int_eq r (pos 1) then pos 0 else negsuc 0, some t, s)
  | true ↦ do
    n ← component_of t s
    ok (
      pos 0,
      some t,
      set_component n (record (s.components n) { type = comp_dir; content = none }) s,
    )
]

unfoldable pub mkdir_on :
    (dir_node c : ℕ)
    → (target : Option ℕ) → (component_name : List ℕ) → Store
    → Run (ℤ × Option ℕ × Store)
mkdir_on dir_node c target component_name s = elim ((s.components c).type == comp_dir) [
  | false ↦ ok (negsuc 0, target, s)
  | true ↦ (tmpfs_create dir_node target component_name s >>= made_dir)
]

unfoldable pub tmpfs_mkdir :
    (dir_node : ℕ)
    → (target : Option ℕ) → (component_name : List ℕ) → Store
    → Run (ℤ × Option ℕ × Store)
tmpfs_mkdir dir_node target component_name s = do
  c ← component_of dir_node s
  mkdir_on dir_node c target component_name s

-- The root of a mount: an empty directory without a name.
abbrev pub root_node : (operations : Operations) → (mount : ℕ) → Store → Store
root_node operations mount s = record s {
  vnodes = update s.vnodes s.next (record {
    mount = none;
    v_ops = operations;
    f_ops = operations;
    component = some (s.next + 1);
  });
  components =
      update s.components (s.next + 1)
        (record { name = []; type = comp_dir; len = 0; content = none });
  roots = update s.roots mount s.next;
  next = s.next + 4;
}

-- Without a mount it prints, and goes on to write through NULL.
unfoldable pub tmpfs_setup_mount : (mount : Option ℕ) → Store → Run (ℤ × Store)
tmpfs_setup_mount none s = fault
tmpfs_setup_mount (some m) s = ok (pos 0, root_node tmpfs m s)

abbrev pub devfs_uart_name : List ℕ
devfs_uart_name = b'u' ∷ b'a' ∷ b'r' ∷ b't' ∷ []

unfoldable pub devfs_create :
    (dir_node : ℕ)
    → (target : Option ℕ) → (component_name : List ℕ) → Store
    → Run (ℤ × Option ℕ × Store)
devfs_create dir_node target component_name s = tmpfs_create dir_node target component_name s

unfoldable pub devfs_lookup :
    (dir_node : ℕ) → (target : Option ℕ) → (component_name : List ℕ) → Store → Run (ℤ × Option ℕ)
devfs_lookup dir_node target component_name s = tmpfs_lookup dir_node target component_name s

abbrev pub devfs_mkdir :
    (dir_node : ℕ) → (target : Option ℕ) → (component_name : List ℕ) → Store → ℤ × Option ℕ × Store
devfs_mkdir dir_node target component_name s = (pos 1, target, s)

unfoldable pub devfs_setup_mount : (mount : Option ℕ) → Store → Run (ℤ × Store)
devfs_setup_mount none s = fault
devfs_setup_mount (some m) s = do
  let s1 = root_node devfs m s
  (ret, node_new, s2) ← devfs_create (s1.roots m) none devfs_uart_name s1
  elim (int_eq ret (pos 0)) [
    | false ↦ ok (pos 0, s2)
    | true ↦ elim node_new [
      | none ↦ fault
      | some t ↦ do
        n ← component_of t s2
        ok (pos 0, set_component n (record (s2.components n) { type = comp_file }) s2)
    ]
  ]
