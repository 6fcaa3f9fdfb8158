-- ===== src/Files/Create.antt =====
-- `tmpfs_create` of lib/tmpfs.c on every branch, and the lookups after it.
use bare_metal_os_kernel.Base.{
  ℕ, ◌≤◌, ◌<◌, ◌≡◌, refl, subst, ap, ◌∙◌, true, false, Option, none, some, List, [], ◌∷◌, ◌++◌,
  length, ok, Returns, leb, if◌then◌else◌, lt→ltb, eq→==, Bool-cases, arith, inl, inr,
}
use bare_metal_os_kernel.Base.{pos, negsuc}
use bare_metal_os_kernel.Strings.Compare.{compare_strings_refl}
use bare_metal_os_kernel.Files.{Store, name_len, tmpfs_max_entry, comp_dir}
use bare_metal_os_kernel.Files.Directory.{
  same_name, looked_up, create_on, create_in, component_of, tmpfs_lookup, tmpfs_create,
}
use bare_metal_os_kernel.Files.Entries.{Entry, find, IsDirectory, tmpfs_lookup-find}
use bare_metal_os_kernel.Files.Added.{after_create, after_create-IsDirectory}

pub created_run :
    (s : Store) (d c : ℕ) (es : List Entry) (target : Option ℕ) (name : List ℕ)
    → IsDirectory s d c es
    → find name es ≡ none
    → length es < tmpfs_max_entry
    → length name < name_len
    → tmpfs_create d target name s ≡ ok (pos 0, some s.next, after_create d c name s)
unfolding tmpfs_create create_on create_in component_of
created_run s d c es target name dir missing less short =
    let fits : leb tmpfs_max_entry (s.components c).len ≡ false = ground (arith, less, dir.count) in
    rw (tmpfs_create, component_of, dir.node)
      (rw
        (
          create_on,
          eq→== (s.components c).type comp_dir dir.regular,
          tmpfs_lookup-find s d c es target name dir,
          missing,
          create_in,
          fits,
          lt→ltb (length name) name_len short,
        )
        refl)

-- `tmpfs_create` of a short name that a directory of less than 16 entries does not have returns 0
-- and a new node, and puts it behind the entries.
pub tmpfs_create-IsDirectory :
    (s : Store) (d c : ℕ) (es : List Entry) (target : Option ℕ) (name : List ℕ)
    → IsDirectory s d c es
    → find name es ≡ none
    → length es < tmpfs_max_entry
    → length name < name_len
    → Returns
        (λ r. (r.0 ≡ pos 0) × (r.1 ≡ some s.next) × IsDirectory r.2 d c (es ++ (name, s.next) ∷ []))
        (tmpfs_create d target name s)
tmpfs_create-IsDirectory s d c es target name dir missing less short = (
  (pos 0, some s.next, after_create d c name s),
  created_run s d c es target name dir missing less short,
  (refl, refl, after_create-IsDirectory s d c es name dir),
)

-- Where the name is there, `tmpfs_create` returns 1 and its node; where it is not and the directory
-- has 16 entries, it returns -1. It changes nothing in both cases.
pub tmpfs_create_refused :
    (s : Store) (d c : ℕ) (es : List Entry) (target : Option ℕ) (name : List ℕ)
    → IsDirectory s d c es
    → ((t : ℕ) → find name es ≡ some t → tmpfs_create d target name s ≡ ok (pos 1, some t, s))
      × (find name es ≡ none
          → tmpfs_max_entry ≤ length es
          → tmpfs_create d target name s ≡ ok (negsuc 0, target, s))
unfolding tmpfs_create create_on create_in component_of
tmpfs_create_refused s d c es target name dir = (
  λ t found.
      rw (tmpfs_create, component_of, dir.node)
        (rw
          (
            create_on,
            eq→== (s.components c).type comp_dir dir.regular,
            tmpfs_lookup-find s d c es target name dir,
            found,
          )
          refl),
  λ missing full.
      let none_left : leb tmpfs_max_entry (s.components c).len ≡ true =
        ground (arith, full, dir.count) in
      rw (tmpfs_create, component_of, dir.node)
        (rw
          (
            create_on,
            eq→== (s.components c).type comp_dir dir.regular,
            tmpfs_lookup-find s d c es target name dir,
            missing,
            create_in,
            none_left,
          )
          refl),
)

find-old :
    (name : List ℕ) (es fs : List Entry) (t : ℕ)
    → find name es ≡ some t
    → find name (es ++ fs) ≡ some t
find-old name [] fs t found = ground (arith, found)
find-old name (e ∷ es) fs t found = elim (Bool-cases (same_name name e.0)) [
  | inl same ↦ rw same (subst (λ b. (if b then some e.1 else find name es) ≡ some t) same found)
  | inr other ↦ rw other (
      find-old name es fs t
        (subst (λ b. (if b then some e.1 else find name es) ≡ some t) other found))
]

find-new :
    (name : List ℕ) (es : List Entry) (t : ℕ)
    → find name es ≡ none
    → find name (es ++ (name, t) ∷ []) ≡ some t
find-new name [] t missing = rw (compare_strings_refl name) refl
find-new name (e ∷ es) t missing = elim (Bool-cases (same_name name e.0)) [
  | inl same ↦
      ground (arith, subst (λ b. (if b then some e.1 else find name es) ≡ none) same missing)
  | inr other ↦ rw other (
      find-new name es t (subst (λ b. (if b then some e.1 else find name es) ≡ none) other missing))
]

-- After `tmpfs_create` of a short name that a directory of less than 16 entries does not have,
-- `tmpfs_lookup` of this name finds the new node, and of every name that was there the same node
-- as before.
pub tmpfs_lookup-tmpfs_create :
    (s : Store) (d c : ℕ) (es : List Entry) (target : Option ℕ) (name : List ℕ)
    → IsDirectory s d c es
    → find name es ≡ none
    → length es < tmpfs_max_entry
    → length name < name_len
    → Returns
        (λ r.
          (tmpfs_lookup d target name r.2 ≡ ok (pos 0, some s.next))
          × ((old : List ℕ) (t : ℕ)
              → find old es ≡ some t
              → tmpfs_lookup d target old r.2 ≡ ok (pos 0, some t)))
        (tmpfs_create d target name s)
tmpfs_lookup-tmpfs_create s d c es target name dir missing less short =
    let after = after_create-IsDirectory s d c es name dir in
    let whole = es ++ (name, s.next) ∷ [] in
    (
      (pos 0, some s.next, after_create d c name s),
      created_run s d c es target name dir missing less short,
      (
        tmpfs_lookup-find _ d c whole target name after
            ∙ ap (λ o. ok (looked_up target o)) (find-new name es s.next missing),
        λ old t found.
            tmpfs_lookup-find _ d c whole target old after
            ∙ ap (λ o. ok (looked_up target o)) (find-old old es ((name, s.next) ∷ []) t found),
      ),
    )
