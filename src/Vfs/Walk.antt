-- ===== src/Vfs/Walk.antt =====
-- The walk of `lookup_path` in lib/vfs.c along a path through directories.
use bare_metal_os_kernel.Base.{
  ℕ, zero, suc, ◌≤◌, ◌<◌, ◌≡◌, refl, ap, ◌∙◌, false, Option, none, some, List, [], ◌∷◌, ◌++◌,
  length, Run, ok, fault, Returns, ◌==◌, if◌then◌else◌, eq→==, arith, Bool-cases, inl, inr,
}
use bare_metal_os_kernel.Base.{ℤ, pos, negsuc}
use bare_metal_os_kernel.Files.{Store, Operations, tmpfs, devfs, initramfs, comp_dir}
use bare_metal_os_kernel.Files.Directory.{component_of, looked_up, devfs_lookup}
use bare_metal_os_kernel.Files.Devices.{initramfs_lookup}
use bare_metal_os_kernel.Files.Entries.{Entry, find, IsDirectory, tmpfs_lookup-find}
use bare_metal_os_kernel.Paths.{skip_slash}
use bare_metal_os_kernel.Vfs.{
  Vfs, lookup_of, lookup_path, descend, found_or, in_directory, look_in, across_mount,
}
use bare_metal_os_kernel.Vfs.Routes.{
  IsName, Names, path_of, Leads, path_of-Leads, rest-Leads, Plain, Route, here, down, Missing,
  absent, no_directory, below, node_of, path_of-slash,
}
use bare_metal_os_kernel.Vfs.Calls.{vfs_lookup}
use bare_metal_os_kernel.Vfs.{root_of}

lookup_of-find :
    (o : Operations) (s : Store) (d c : ℕ) (es : List Entry) (target : Option ℕ) (name : List ℕ)
    → IsDirectory s d c es
    → lookup_of o d target name s ≡ ok (looked_up target (find name es))
unfolding lookup_of devfs_lookup initramfs_lookup
lookup_of-find tmpfs s d c es target name dir = tmpfs_lookup-find s d c es target name dir
lookup_of-find devfs s d c es target name dir = tmpfs_lookup-find s d c es target name dir
lookup_of-find initramfs s d c es target name dir = tmpfs_lookup-find s d c es target name dir

-- One call of `lookup_path` in a directory.
lookup_path-step :
    (fuel : ℕ) (i : ℤ) (p n : List ℕ) (ns : List (List ℕ)) (d c : ℕ) (es : List Entry)
    (target : Option ℕ) (v : Vfs)
    → Leads p n ns
    → Plain v.store d c es
    → lookup_path (suc fuel) i p d target 0 v
      ≡ found_or
          (looked_up target (find n es))
          (λ t.
            descend
              (skip_slash (path_of ns))
              t
              (lookup_path fuel i (skip_slash (path_of ns)) t (some t) 0 v)
              v)
          v
unfolding lookup_path component_of in_directory look_in across_mount
lookup_path-step fuel i p n ns d c es target v leads plain =
    rw (lookup_path, leads.rest, leads.first)
      (rw (across_mount, plain.unmounted, component_of, plain.directory.node)
        (rw (in_directory, eq→== (v.store.components c).type comp_dir plain.directory.regular)
          (rw
            (
              look_in,
              lookup_of-find (v.store.vnodes d).v_ops v.store d c es target n plain.directory,
            )
            refl)))

-- `descend` before a further name, at a node with a component.
descend-name :
    (n : List ℕ) (ns : List (List ℕ)) (t c : ℕ) (next : Run (ℤ × Option ℕ × Vfs)) (v : Vfs)
    → IsName n
    → (v.store.vnodes t).component ≡ some c
    → descend (n ++ path_of ns) t next v
      ≡ (if (v.store.components c).type == comp_dir then next else ok (negsuc 0, some t, v))
unfolding descend component_of
descend-name [] ns t c next v name node = ground (arith, name.some_character)
descend-name (x ∷ n) ns t c next v name node = rw (descend, component_of, node) refl

lookup_path-looked :
    (fuel : ℕ) (i : ℤ) (p n : List ℕ) (ns : List (List ℕ)) (d c : ℕ) (es : List Entry)
    (o target : Option ℕ) (v : Vfs)
    → Leads p n ns
    → Plain v.store d c es
    → find n es ≡ o
    → lookup_path (suc fuel) i p d target 0 v
      ≡ found_or
          (looked_up target o)
          (λ t.
            descend
              (skip_slash (path_of ns))
              t
              (lookup_path fuel i (skip_slash (path_of ns)) t (some t) 0 v)
              v)
          v
lookup_path-looked fuel i p n ns d c es o target v leads plain found =
    lookup_path-step fuel i p n ns d c es target v leads plain
    ∙ ap
        (λ o.
          found_or (looked_up target o)
            (λ t.
              descend (skip_slash (path_of ns)) t
                (lookup_path fuel i (skip_slash (path_of ns)) t (some t) 0 v) v)
            v)
        found

-- A further call, in the directory that was found.
lookup_path-further :
    (fuel : ℕ) (i : ℤ) (p n m : List ℕ) (ns : List (List ℕ)) (d c : ℕ) (es : List Entry) (e c2 : ℕ)
    (target : Option ℕ) (v : Vfs)
    → Leads p n (m ∷ ns)
    → Plain v.store d c es
    → find n es ≡ some e
    → IsName m
    → (v.store.vnodes e).component ≡ some c2
    → lookup_path (suc fuel) i p d target 0 v ≡ (
        if (v.store.components c2).type == comp_dir
        then lookup_path fuel i (m ++ path_of ns) e (some e) 0 v
        else ok (negsuc 0, some e, v))
unfolding found_or
lookup_path-further fuel i p n m ns d c es e c2 target v leads plain found name node =
    lookup_path-looked fuel i p n (m ∷ ns) d c es (some e) target v leads plain found
    ∙ descend-name m ns e c2 (lookup_path fuel i (m ++ path_of ns) e (some e) 0 v) v name node

lookup_path-Route :
    (fuel : ℕ) (i : ℤ) (p n : List ℕ) (ns : List (List ℕ)) (d t : ℕ) (target : Option ℕ) (v : Vfs)
    → Leads p n ns
    → Names ns
    → Route v.store d (n ∷ ns) t
    → length ns < fuel
    → lookup_path fuel i p d target 0 v ≡ ok (pos 0, some t, v)
unfolding found_or descend
lookup_path-Route zero i p n ns d t target v leads names r lt = ground (arith, lt)
lookup_path-Route (suc fuel) i p n [] d t target v leads names
      (down _ c es _ e _ _ plain found (here _)) lt =
    lookup_path-looked fuel i p n [] d c es (some e) target v leads plain found
lookup_path-Route (suc fuel) i p n (m ∷ ns) d t target v leads names
      (down _ c es _ e _ _ plain found (down _ c2 es2 _ e2 _ _ plain2 found2 r)) lt =
    lookup_path-further fuel i p n m ns d c es e c2 target v leads plain found names.0
      plain2.directory.node
    ∙ rw (eq→== (v.store.components c2).type comp_dir plain2.directory.regular) (
        lookup_path-Route fuel i (m ++ path_of ns) m ns e t (some e) v (rest-Leads m ns names.0)
          names.1 (down e c2 es2 m e2 ns t plain2 found2 r) (omega (arith, lt)))

-- The walk ends with -1, and changes nothing.
abbrev pub Fails : Run (ℤ × Option ℕ × Vfs) → Vfs → Type 0
Fails run v = Returns (λ (r, node, v'). (r ≡ negsuc 0) × (v' ≡ v)) run

lookup_path_not_dir :
    (fuel : ℕ) (i : ℤ) (p n : List ℕ) (ns : List (List ℕ)) (d c : ℕ) (target : Option ℕ) (v : Vfs)
    → Leads p n ns
    → (v.store.vnodes d).mount ≡ none
    → (v.store.vnodes d).component ≡ some c
    → ((v.store.components c).type == comp_dir) ≡ false
    → lookup_path (suc fuel) i p d target 0 v ≡ ok (negsuc 0, target, v)
unfolding lookup_path component_of in_directory across_mount
lookup_path_not_dir fuel i p n ns d c target v leads unmounted node other =
    rw (lookup_path, leads.first)
      (rw (across_mount, unmounted, component_of, node) (rw (in_directory, other) refl))

lookup_path-Missing :
    (fuel : ℕ) (i : ℤ) (p n : List ℕ) (ns : List (List ℕ)) (d : ℕ) (target : Option ℕ) (v : Vfs)
    → Leads p n ns
    → Names ns
    → Missing v.store d (n ∷ ns)
    → length ns < fuel
    → Fails (lookup_path fuel i p d target 0 v) v
unfolding found_or descend
lookup_path-Missing zero i p n ns d target v leads names m lt = ground (arith, lt)
lookup_path-Missing (suc fuel) i p n ns d target v leads names (absent _ c es _ _ plain none_there)
      lt =
    (
      (negsuc 0, target, v),
      lookup_path-looked fuel i p n ns d c es none target v leads plain none_there,
      (refl, refl),
    )
lookup_path-Missing (suc fuel) i p n ns d target v leads names
      (no_directory _ c _ _ unmounted node other) lt =
    (
      (negsuc 0, target, v),
      lookup_path_not_dir fuel i p n ns d c target v leads unmounted node other,
      (refl, refl),
    )
lookup_path-Missing (suc fuel) i p n [] d target v leads names
      (below _ c es _ e _ plain found deeper) lt =
    elim deeper [ ]
lookup_path-Missing (suc fuel) i p n (m ∷ ns) d target v leads names
      (below _ c es _ e _ plain found deeper) lt =
    let (c2, node) = node_of e m ns deeper in
    let (r, run, ends_so) =
      lookup_path-Missing fuel i (m ++ path_of ns) m ns e (some e) v (rest-Leads m ns names.0)
        names.1 deeper (omega (arith, lt)) in
    let step =
      lookup_path-further fuel i p n m ns d c es e c2 target v leads plain found names.0 node in
    elim (Bool-cases ((v.store.components c2).type == comp_dir)) [
      | inl dir ↦ (r, step ∙ rw dir run, ends_so)
      | inr other ↦ ((negsuc 0, some e, v), step ∙ rw other refl, (refl, refl))
    ]

pub root_of-some : (v : Vfs) (m : ℕ) → v.rootfs ≡ some m → root_of v ≡ ok (v.store.roots m)
unfolding root_of
root_of-some v m root = ap (λ o. elim o [ none ↦ fault | some k ↦ ok (v.store.roots k) ]) root

vfs_lookup-name :
    (fuel : ℕ) (i : ℤ) (n : List ℕ) (ns : List (List ℕ)) (m : ℕ) (target : Option ℕ) (v : Vfs)
    → v.rootfs ≡ some m
    → IsName n
    → vfs_lookup fuel i (path_of (n ∷ ns)) target v
      ≡ lookup_path fuel i (path_of (n ∷ ns)) (v.store.roots m) target 0 v
unfolding vfs_lookup
vfs_lookup-name fuel i n ns m target v root name =
    rw (vfs_lookup, root_of-some v m root) (rw (path_of-slash n ns name) refl)

-- Where the names of a path lead from the root of the file system through directories on which
-- nothing is mounted to a node, `vfs_lookup` of the path, with as much fuel as there are names,
-- returns 0 and this node, and changes nothing.
pub vfs_lookup-Route :
    (fuel : ℕ) (i : ℤ) (n : List ℕ) (ns : List (List ℕ)) (m t : ℕ) (target : Option ℕ) (v : Vfs)
    → v.rootfs ≡ some m
    → Names (n ∷ ns)
    → Route v.store (v.store.roots m) (n ∷ ns) t
    → length (n ∷ ns) ≤ fuel
    → vfs_lookup fuel i (path_of (n ∷ ns)) target v ≡ ok (pos 0, some t, v)
vfs_lookup-Route fuel i n ns m t target v root names r le =
    vfs_lookup-name fuel i n ns m target v root names.0
    ∙ lookup_path-Route fuel i (path_of (n ∷ ns)) n ns (v.store.roots m) t target v
        (path_of-Leads n ns names.0) names.1 r (omega (arith, le))

-- Where the names lead to a directory that does not have the next one, or to a file before their
-- end, `vfs_lookup` returns -1 and changes nothing.
pub vfs_lookup-Missing :
    (fuel : ℕ) (i : ℤ) (n : List ℕ) (ns : List (List ℕ)) (m : ℕ) (target : Option ℕ) (v : Vfs)
    → v.rootfs ≡ some m
    → Names (n ∷ ns)
    → Missing v.store (v.store.roots m) (n ∷ ns)
    → length (n ∷ ns) ≤ fuel
    → Fails (vfs_lookup fuel i (path_of (n ∷ ns)) target v) v
vfs_lookup-Missing fuel i n ns m target v root names missing le =
    let (r, run, so) =
      lookup_path-Missing fuel i (path_of (n ∷ ns)) n ns (v.store.roots m) target v
        (path_of-Leads n ns names.0) names.1 missing (omega (arith, le)) in
    (r, vfs_lookup-name fuel i n ns m target v root names.0 ∙ run, so)
