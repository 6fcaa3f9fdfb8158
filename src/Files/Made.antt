-- ===== src/Files/Made.antt =====
-- `tmpfs_mkdir` of lib/tmpfs.c where the name is there and where it is not, and what keeps a
-- directory.
use bare_metal_os_kernel.Base.{
  ℕ, ◌+◌, ◌≤◌, ◌<◌, ◌≡◌, refl, sym, subst, ap, ◌∙◌, Option, none, some, List, length, ok, eq→==,
  arith,
}
use bare_metal_os_kernel.Base.{pos}
use bare_metal_os_kernel.Files.{Store, name_len, tmpfs_max_entry, comp_dir, set_component}
use bare_metal_os_kernel.Files.Directory.{component_of, tmpfs_mkdir, mkdir_on, made_dir}
use bare_metal_os_kernel.Files.Entries.{Entry, find, IsDirectory, Array}
use bare_metal_os_kernel.Files.Added.{after_create, Lists-frame, new_vnode}
use bare_metal_os_kernel.Files.Create.{created_run, tmpfs_create_refused}

-- `tmpfs_mkdir` of a name that is there returns 0 and its node, and changes nothing.
pub tmpfs_mkdir_there :
    (s : Store) (d c : ℕ) (es : List Entry) (target : Option ℕ) (name : List ℕ) (t : ℕ)
    → IsDirectory s d c es
    → find name es ≡ some t
    → tmpfs_mkdir d target name s ≡ ok (pos 0, some t, s)
unfolding tmpfs_mkdir mkdir_on made_dir component_of
tmpfs_mkdir_there s d c es target name t dir found =
    rw (tmpfs_mkdir, component_of, dir.node)
      (rw (mkdir_on, eq→== (s.components c).type comp_dir dir.regular)
        (rw ((tmpfs_create_refused s d c es target name dir).0 t found) refl))

-- The store after a new directory.
abbrev pub after_mkdir : (d c : ℕ) → (name : List ℕ) → Store → Store
after_mkdir d c name s =
    let s1 = after_create d c name s in
    set_component (s.next + 1)
      (record (s1.components (s.next + 1)) { type = comp_dir; content = none }) s1

pub tmpfs_mkdir_new :
    (s : Store) (d c : ℕ) (es : List Entry) (target : Option ℕ) (name : List ℕ)
    → IsDirectory s d c es
    → find name es ≡ none
    → length es < tmpfs_max_entry
    → length name < name_len
    → tmpfs_mkdir d target name s ≡ ok (pos 0, some s.next, after_mkdir d c name s)
unfolding tmpfs_mkdir mkdir_on made_dir component_of
tmpfs_mkdir_new s d c es target name dir missing less short =
    rw (tmpfs_mkdir, component_of, dir.node)
      (rw (mkdir_on, eq→== (s.components c).type comp_dir dir.regular)
        (rw (created_run s d c es target name dir missing less short)
          (rw (made_dir, component_of, new_vnode s d c name) refl)))

-- A directory stays where the nodes, the names, the roots, the arrays and its component stay.
pub IsDirectory-same :
    (s s' : Store) (d c : ℕ) (es : List Entry)
    → s.next ≤ s'.next
    → s'.vnodes ≡ s.vnodes
    → s'.components c ≡ s.components c
    → ((a : ℕ) → (s'.components a).name ≡ (s.components a).name)
    → s'.roots ≡ s.roots
    → s'.entries ≡ s.entries
    → IsDirectory s d c es
    → IsDirectory s' d c es
IsDirectory-same s s' d c es more vs comp names rs arrays dir = record {
  node_used = omega (arith, dir.node_used, more);
  component_used = omega (arith, dir.component_used, more);
  node = ap (λ f. (f d).component) vs ∙ dir.node;
  regular = ap (λ v. v.type) comp ∙ dir.regular;
  count = ap (λ v. v.len) comp ∙ dir.count;
  array =
      subst (λ k. Array s' k es) (ap (λ v. v.content) (sym comp))
        (kept (s.components c).content dir.array);
}
  where
    kept : (content : Option ℕ) → Array s content es → Array s' content es
    kept none a = a
    kept (some p) a = (
      omega (arith, a.0, more),
      Lists-frame s s' (s.entries p) (s'.entries p) 0 es more (λ b lt. ap (λ f. f b) vs)
          (λ b lt. names b) rs (λ j le u. ap (λ f. f p j) arrays) a.1,
    )
