-- ===== src/Vfs/Create.antt =====
-- `vfs_open` of lib/vfs.c with O_CREAT, of a file that is not there.
use bare_metal_os_kernel.Base.{
  ℕ, zero, suc, ◌+◌, ◌/◌, ◌%◌, ◌≤◌, ◌<◌, ◌≡◌, refl, sym, subst, ap, ◌∙◌, true, Option, none, some,
  List, [], ◌∷◌, ◌++◌, length, ok, Returns, ◌==◌, eq→==, ne→==, update_self, arith, inl, inr, ◌⊎◌,
  Bool-cases,
}
use bare_metal_os_kernel.Base.{ℤ, pos, negsuc}
use bare_metal_os_kernel.Files.{
  Store, VnodeComponent, comp_file, comp_dir, tmpfs, name_len, tmpfs_max_entry, set_component,
}
use bare_metal_os_kernel.Files.Directory.{component_of, add_entry}
use bare_metal_os_kernel.Files.Entries.{Entry, find, IsDirectory}
use bare_metal_os_kernel.Files.Added.{after_create, after_create-IsDirectory, new_vnode}
use bare_metal_os_kernel.Files.Made.{after_mkdir, tmpfs_mkdir_new, IsDirectory-same}
use bare_metal_os_kernel.Paths.{tmpfs_max_path_len, vfs_max_depth}
use bare_metal_os_kernel.Vfs.{Vfs, o_creat, make_dirs, lookup_path}
use bare_metal_os_kernel.Vfs.Calls.{make_file, open_missing, open_node, vfs_lookup, vfs_open}
use bare_metal_os_kernel.Vfs.Routes.{
  IsName, Names, path_of, Plain, Route, here, down, Missing, absent,
}
use bare_metal_os_kernel.Vfs.Walk.{Fails, vfs_lookup-Missing, root_of-some}
use bare_metal_os_kernel.Vfs.Open.{
  OnTmpfs, make_dirs-Route, make_dirs-step, make_path-Names, lookup_path-create, Route-Missing,
}
use bare_metal_os_kernel.Files.Content.{Opened, Behind}
use bare_metal_os_kernel.Vfs.Handles.{open_node-Handed}

-- The store with the new file.
abbrev pub with_file : (d c : ℕ) → (name : List ℕ) → Store → Store
with_file d c name s =
    let s1 = after_mkdir d c name s in
    set_component (s.next + 1)
      (record (s1.components (s.next + 1)) { type = comp_file; content = none }) s1

make_file-run :
    (d c : ℕ) (name : List ℕ) (v : Vfs)
    → make_file (some v.store.next) (record v { store = after_mkdir d c name v.store })
      ≡ ok (record v { store = with_file d c name v.store })
unfolding make_file component_of
make_file-run d c name v = rw (make_file, component_of, new_vnode v.store d c name) refl

-- The loop makes the last directory of the path.
make_dirs-new :
    (ns : List (List ℕ)) (n : List ℕ) (d p c : ℕ) (es : List Entry) (target : Option ℕ) (v : Vfs)
    (r : Route v.store d ns p)
    → Names ns
    → OnTmpfs d ns p r
    → IsName n
    → IsDirectory v.store p c es
    → (v.store.vnodes p).v_ops ≡ tmpfs
    → find n es ≡ none
    → length es < tmpfs_max_entry
    → length n < name_len
    → make_dirs (ns ++ n ∷ []) d target v
      ≡ ok (some v.store.next, record v { store = after_mkdir p c n v.store })
unfolding make_dirs
make_dirs-new ns n d p c es target v r names on name dir ops missing less short =
    let (target', same) = make_dirs-Route ns (n ∷ []) d p target v r names on in
    same
    ∙ make_dirs-step n [] p v.store.next target' (after_mkdir p c n v.store) v name ops
        (tmpfs_mkdir_new v.store p c es target' n dir missing less short)

created_component :
    (d c : ℕ) (name : List ℕ) (s : Store)
    → c < s.next
    → (after_create d c name s).components (s.next + 1)
      ≡ record (s.components (s.next + 1)) { name = name; content = none; len = 0 }
unfolding add_entry
created_component d c name s lt =
    rw (ne→== c (s.next + 1) (omega (arith, lt)), eq→== (s.next + 1) (s.next + 1) refl) refl

-- The component of the new file.
pub new_component :
    (d c : ℕ) (name : List ℕ) (s : Store)
    → c < s.next
    → (with_file d c name s).components (s.next + 1)
      ≡ record { name = name; type = comp_file; len = 0; content = none }
new_component d c name s lt =
    let s1 = after_create d c name s in
    let s2 = after_mkdir d c name s in
    update_self s2.components (s.next + 1) _
    ∙ ap {A = VnodeComponent} (λ w. record w { type = comp_file; content = none })
        (update_self s1.components (s.next + 1) _
          ∙ ap {A = VnodeComponent} (λ w. record w { type = comp_dir; content = none })
              (created_component d c name s lt))

set_component-name :
    (k : ℕ) (comp : VnodeComponent) (s : Store) (a : ℕ)
    → comp.name ≡ (s.components k).name
    → ((set_component k comp s).components a).name ≡ (s.components a).name
set_component-name k comp s a same = elim (Bool-cases (k == a)) [
  | inl here_ ↦ rw here_ (same ∙ ap (λ x. (s.components x).name) (ground arith))
  | inr other ↦ rw other refl
]

pub with_file-IsDirectory :
    (d c : ℕ) (es : List Entry) (name : List ℕ) (s : Store)
    → IsDirectory s d c es
    → IsDirectory (with_file d c name s) d c (es ++ (name, s.next) ∷ [])
with_file-IsDirectory d c es name s dir =
    IsDirectory-same (after_create d c name s) (with_file d c name s) d c
      (es ++ (name, s.next) ∷ []) (omega arith) refl
      (rw (ne→== (s.next + 1) c (omega (arith, dir.component_used))) refl)
      (λ a.
        set_component-name (s.next + 1) _ (after_mkdir d c name s) a refl
        ∙ set_component-name (s.next + 1) _ (after_create d c name s) a refl)
      refl refl (after_create-IsDirectory s d c es name dir)

-- After the file is made it is open: what `vfs_open` promises.
pub record Made (p c : ℕ) (es : List Entry) (n : List ℕ) (flags : ℕ) (v : Vfs) (r : ℤ)
    (file : Option ℕ) (v' : Vfs) : Type 0 where
  pub result : r ≡ pos 0
  pub handle : ℕ
  pub handed_out : file ≡ some handle
  pub empty_file : Opened v'.store handle v.store.next (v.store.next + 1) 0 (λ _. 0)
  pub flags_set : (v'.store.files handle).flags ≡ flags
  pub listed : IsDirectory v'.store p c (es ++ (n, v.store.next) ∷ [])

open_node-Made :
    (p c : ℕ) (es : List Entry) (n : List ℕ) (flags : ℕ) (target : Option ℕ) (v : Vfs)
    → IsDirectory v.store p c es
    → Returns
        (λ (r, file, v'). Made p c es n flags v r file v')
        (open_node (some v.store.next) flags target (record v { store = with_file p c n v.store }))
open_node-Made p c es n flags target v dir =
    let comp = new_component p c n v.store dir.component_used in
    let ((r, file, v'), run, (zero_, some_, handed)) =
      open_node-Handed v.store.next (v.store.next + 1) 0 flags (λ _. 0) target
        (record v { store = with_file p c n v.store }) (new_vnode v.store p c n)
        (ap (λ w. w.type) comp) (ap (λ w. w.len) comp)
        (subst (λ k. Behind (with_file p c n v.store) k 0 0 (λ _. 0))
          (sym (ap (λ w. w.content) comp)) refl) in
    (
      (r, file, v'),
      run,
      record {
        result = zero_;
        handle = (with_file p c n v.store).next;
        handed_out = some_;
        empty_file = handed.handle;
        flags_set = handed.flags_set;
        listed =
            IsDirectory-same (with_file p c n v.store) v'.store p c (es ++ (n, v.store.next) ∷ [])
              handed.stays.more handed.stays.vnodes (ap (λ f. f c) handed.stays.components)
              (λ a. ap (λ f. (f a).name) handed.stays.components) handed.stays.roots
              handed.stays.entries (with_file-IsDirectory p c es n v.store dir);
      },
    )

-- The names of a path that ends with `n`.
ends_with :
    (ns : List (List ℕ)) (n : List ℕ)
    → (h : List ℕ) × (tl : List (List ℕ)) × (ns ++ n ∷ [] ≡ h ∷ tl)
ends_with [] n = (n, [], refl)
ends_with (h ∷ ns) n = (h, ns ++ n ∷ [], refl)

Names-snoc : (ns : List (List ℕ)) (n : List ℕ) → Names ns → IsName n → Names (ns ++ n ∷ [])
Names-snoc [] n names name = (name, tt)
Names-snoc (h ∷ ns) n names name = (names.0, Names-snoc ns n names.1 name)

Route-start :
    {s : Store} (d p c : ℕ) (es : List Entry) (ns : List (List ℕ))
    → Route s d ns p
    → Plain s p c es
    → (k : ℕ) × (fs : List Entry) × Plain s d k fs
Route-start d p c es [] (here _) plain = (c, es, plain)
Route-start d p c es (n ∷ ns) (down _ k fs _ e _ _ start found r) plain = (k, fs, start)

-- A call that creates, and starts at a directory.
create_path :
    (fuel : ℕ) (i : ℤ) (h : List ℕ) (tl : List (List ℕ)) (d c : ℕ) (es : List Entry)
    (stale made : Option ℕ) (v v1 : Vfs)
    → (i ≡ pos 0) ⊎ (i ≡ pos 1)
    → Names (h ∷ tl)
    → Plain v.store d c es
    → length (path_of (h ∷ tl)) < tmpfs_max_path_len
    → length (h ∷ tl) + 1 < vfs_max_depth
    → 0 < fuel
    → make_dirs (h ∷ tl) d stale v ≡ ok (made, v1)
    → lookup_path fuel i (path_of (h ∷ tl)) d stale 1 v ≡ ok (pos 0, made, v1)
create_path zero i h tl d c es stale made v v1 start names plain short few lt run =
    ground (arith, lt)
create_path (suc fuel) i h tl d c es stale made v v1 start names plain short few lt run =
    lookup_path-create fuel i h tl d c es stale v names.0 plain
    ∙ make_path-Names i h tl d stale made v v1 start names short few run

lookup-Missing :
    (fuel : ℕ) (i : ℤ) (l : List (List ℕ)) (h : List ℕ) (tl : List (List ℕ)) (m : ℕ) (v : Vfs)
    → l ≡ h ∷ tl
    → v.rootfs ≡ some m
    → Names l
    → Missing v.store (v.store.roots m) l
    → length l ≤ fuel
    → Fails (vfs_lookup fuel i (path_of l) none v) v
lookup-Missing fuel i l h tl m v e root names missing le =
    subst (λ k. Fails (vfs_lookup fuel i (path_of k) none v) v) (sym e)
      (vfs_lookup-Missing fuel i h tl m none v root (subst Names e names)
        (subst (Missing v.store (v.store.roots m)) e missing) (subst (λ k. length k ≤ fuel) e le))

module _ (fuel : ℕ) (i : ℤ) (ns : List (List ℕ)) (n : List ℕ) (m p c : ℕ) (es : List Entry)
    (flags : ℕ) (v : Vfs) (root : v.rootfs ≡ some m) (start : (i ≡ pos 0) ⊎ (i ≡ pos 1))
    (names : Names ns) (name : IsName n) (r : Route v.store (v.store.roots m) ns p)
    (on : OnTmpfs (v.store.roots m) ns p r) (plain : Plain v.store p c es)
    (ops : (v.store.vnodes p).v_ops ≡ tmpfs) (missing : find n es ≡ none)
    (less : length es < tmpfs_max_entry) (short : length n < name_len)
    (path_short : length (path_of (ns ++ n ∷ [])) < tmpfs_max_path_len)
    (few : length (ns ++ n ∷ []) + 1 < vfs_max_depth) (enough : length (ns ++ n ∷ []) < fuel)
    (creates : (((flags / o_creat) % 2) == 1) ≡ true) where
  created_path :
      (node : Option ℕ)
      → lookup_path fuel i (path_of (ns ++ n ∷ [])) (v.store.roots m) node 1 v
        ≡ ok (pos 0, some v.store.next, record v { store = after_mkdir p c n v.store })
  created_path node =
      let (h, tl, e) = ends_with ns n in
      let (k, fs, first) = Route-start (v.store.roots m) p c es ns r plain in
      subst
        (λ l.
          lookup_path fuel i (path_of l) (v.store.roots m) node 1 v
          ≡ ok (pos 0, some v.store.next, record v { store = after_mkdir p c n v.store }))
        (sym e)
        (create_path fuel i h tl (v.store.roots m) k fs node (some v.store.next) v _ start
          (subst Names e (Names-snoc ns n names name)) first
          (subst (λ l. length (path_of l) < tmpfs_max_path_len) e path_short)
          (subst (λ l. length l + 1 < vfs_max_depth) e few) (omega (arith, enough))
          (subst
            (λ l.
              make_dirs l (v.store.roots m) node v
              ≡ ok (some v.store.next, record v { store = after_mkdir p c n v.store }))
            e
            (make_dirs-new ns n (v.store.roots m) p c es node v r names on name plain.directory ops
              missing less short)))

  missing_opened :
      (node target : Option ℕ)
      → open_missing fuel i (path_of (ns ++ n ∷ [])) flags node target v
        ≡ open_node (some v.store.next) flags target (record v { store = with_file p c n v.store })
  unfolding open_missing
  missing_opened node target =
      rw (open_missing, creates)
        (rw (root_of-some v m root) (rw (created_path node) (rw (make_file-run p c n v) refl)))

  after_failure :
      (looked : ℤ) (stale target : Option ℕ) (v1 : Vfs)
      → vfs_lookup fuel i (path_of (ns ++ n ∷ [])) none v ≡ ok (looked, stale, v1)
      → looked ≡ negsuc 0
      → v1 ≡ v
      → Returns
          (λ (result, file, v'). Made p c es n flags v result file v')
          (vfs_open fuel i (path_of (ns ++ n ∷ [])) flags target v)
  unfolding vfs_open
  after_failure looked stale target v1 run failed same =
      rw (vfs_open, run, failed)
        (rw same (
          rw (missing_opened stale target)
            (open_node-Made p c es n flags target v plain.directory)))

  -- Where the names of a path lead through directories of tmpfs to one that has less than 16 entries
  -- and not the last name, `vfs_open` with O_CREAT returns 0 and a new handle of an empty file, and
  -- lists the file as the last entry of that directory. The names are short, the path fits the
  -- array of 255 bytes, and the variable `i` that `lookup_path` does not initialise is 0 or 1.
  pub vfs_open_creates :
      (target : Option ℕ)
      → Returns
          (λ (result, file, v'). Made p c es n flags v result file v')
          (vfs_open fuel i (path_of (ns ++ n ∷ [])) flags target v)
  vfs_open_creates target =
      let (h, tl, e) = ends_with ns n in
      let ((looked, stale, v1), run, (failed, same)) =
        lookup-Missing fuel i (ns ++ n ∷ []) h tl m v e root (Names-snoc ns n names name)
          (Route-Missing (v.store.roots m) ns (n ∷ []) p r (absent p c es n [] plain missing))
          (omega (arith, enough)) in
      after_failure looked stale target v1 run failed same
