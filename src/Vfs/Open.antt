-- ===== src/Vfs/Open.antt =====
-- `vfs_open` of lib/vfs.c: of a file that is there, and with O_CREAT of one that is not.
use bare_metal_os_kernel.Base.{
  ℕ, suc, ◌+◌, ◌<◌, ◌≡◌, refl, ap, ◌∙◌, Option, some, List, [], ◌∷◌, ◌++◌, append-nil, length, drop,
  ok, fault, ltb, if◌then◌else◌, lt→ltb, eq→==, ne→==, arith, inl, inr, ◌⊎◌,
}
use bare_metal_os_kernel.Base.{ℤ, pos}
use bare_metal_os_kernel.Files.{Store, Operations, tmpfs, comp_dir}
use bare_metal_os_kernel.Files.Directory.{component_of, tmpfs_mkdir}
use bare_metal_os_kernel.Files.Entries.{Entry}
use bare_metal_os_kernel.Files.Made.{tmpfs_mkdir_there}
use bare_metal_os_kernel.Paths.{spilt, tmpfs_max_path_len, vfs_max_depth}
use bare_metal_os_kernel.Strings.Tokens.{split}
use bare_metal_os_kernel.Strings.Tokens.Split.{split-Free, split-Cut}
use bare_metal_os_kernel.Vfs.{
  Vfs, mkdir_of, make_dirs, next_dir, make_path, lookup_path, in_directory, across_mount,
}
use bare_metal_os_kernel.Vfs.Routes.{
  IsName, Names, path_of, path_of-Leads, Plain, Route, here, down, Missing, below,
}

-- Every directory that the names pass through belongs to tmpfs.
abbrev pub OnTmpfs : {s : Store} (d : ℕ) (ns : List (List ℕ)) (t : ℕ) → Route s d ns t → Type 0
OnTmpfs d [] t (here _) = Unit {0}
OnTmpfs {s} d (n ∷ ns) t (down _ c es _ e _ _ plain found r) =
    ((s.vnodes d).v_ops ≡ tmpfs) × OnTmpfs e ns t r

mkdir_of-tmpfs :
    (o : Operations) (d t : ℕ) (target : Option ℕ) (n : List ℕ) (s : Store) (v : Vfs)
    → o ≡ tmpfs
    → tmpfs_mkdir d target n v.store ≡ ok (pos 0, some t, s)
    → mkdir_of o d target n v ≡ ok (pos 0, some t, record v { store = s })
unfolding mkdir_of
mkdir_of-tmpfs o d t target n s v e run = rw (e, mkdir_of, run) refl

pub make_dirs-step :
    (n : List ℕ) (cs : List (List ℕ)) (d t : ℕ) (target : Option ℕ) (s : Store) (v : Vfs)
    → IsName n
    → (v.store.vnodes d).v_ops ≡ tmpfs
    → tmpfs_mkdir d target n v.store ≡ ok (pos 0, some t, s)
    → make_dirs (n ∷ cs) d target v ≡ make_dirs cs t (some t) (record v { store = s })
unfolding make_dirs next_dir
make_dirs-step n cs d t target s v name ops run =
    rw
      (
        make_dirs,
        ne→== (length n) 0 (omega (arith, name.some_character)),
        mkdir_of-tmpfs (v.store.vnodes d).v_ops d t target n s v ops run,
      )
      refl

-- The loop passes through directories that are there without a change.
pub make_dirs-Route :
    (ns rest : List (List ℕ)) (d t : ℕ) (target : Option ℕ) (v : Vfs) (r : Route v.store d ns t)
    → Names ns
    → OnTmpfs d ns t r
    → (target' : Option ℕ) × (make_dirs (ns ++ rest) d target v ≡ make_dirs rest t target' v)
make_dirs-Route [] rest d t target v (here _) names on = (target, refl)
make_dirs-Route (n ∷ ns) rest d t target v (down _ c es _ e _ _ plain found r) names on =
    let (target', more) = make_dirs-Route ns rest e t (some e) v r names.1 on.1 in
    (
      target',
      make_dirs-step n (ns ++ rest) d e target v.store v names.0 on.0
            (tmpfs_mkdir_there v.store d c es target n e plain.directory found)
          ∙ more,
    )

split-name :
    (n : List ℕ) (ns : List (List ℕ)) → IsName n → Names ns → split b'/' (n ++ path_of ns) ≡ n ∷ ns
split-name n [] name names = ap (split b'/') (append-nil n) ∙ split-Free b'/' n name.no_slash
split-name n (m ∷ ns) name names =
    split-Cut b'/' n (m ++ path_of ns) name.no_slash
    ∙ ap (λ l. n ∷ l) (split-name m ns names.0 names.1)

split-path_of :
    (n : List ℕ) (ns : List (List ℕ))
    → IsName n
    → Names ns
    → split b'/' (path_of (n ∷ ns)) ≡ [] ∷ n ∷ ns
unfolding split
split-path_of n ns name names = rw (split, split-name n ns name names) refl

spilt-path_of :
    (n : List ℕ) (ns : List (List ℕ))
    → Names (n ∷ ns)
    → length (n ∷ ns) + 1 < vfs_max_depth
    → spilt (path_of (n ∷ ns)) ≡ ok ([] ∷ n ∷ ns)
unfolding spilt
spilt-path_of n ns names few =
    ap (λ l. if ltb (length l) vfs_max_depth then ok l else fault)
      (split-path_of n ns names.0 names.1)
    ∙ rw (lt→ltb (length ([] ∷ n ∷ ns)) vfs_max_depth (omega (arith, few))) refl

-- The loop starts at 0 or at 1: the first component is empty.
pub make_path-Names :
    (i : ℤ) (n : List ℕ) (ns : List (List ℕ)) (d : ℕ) (target made : Option ℕ) (v v1 : Vfs)
    → (i ≡ pos 0) ⊎ (i ≡ pos 1)
    → Names (n ∷ ns)
    → length (path_of (n ∷ ns)) < tmpfs_max_path_len
    → length (n ∷ ns) + 1 < vfs_max_depth
    → make_dirs (n ∷ ns) d target v ≡ ok (made, v1)
    → make_path i (path_of (n ∷ ns)) d target v ≡ ok (pos 0, made, v1)
unfolding make_path make_dirs
make_path-Names i n ns d target made v v1 start names short few run = elim start [
  | inl at_0 ↦ rw at_0 (from 0 run)
  | inr at_1 ↦ rw at_1 (from 1 run)
]
  where
    from :
        (k : ℕ)
        → make_dirs (drop k ([] ∷ n ∷ ns)) d target v ≡ ok (made, v1)
        → make_path (pos k) (path_of (n ∷ ns)) d target v ≡ ok (pos 0, made, v1)
    from k made_so =
        rw
          (
            make_path,
            lt→ltb (length (path_of (n ∷ ns))) tmpfs_max_path_len short,
            spilt-path_of n ns names few,
          )
          (rw made_so refl)

pub lookup_path-create :
    (fuel : ℕ) (i : ℤ) (n : List ℕ) (ns : List (List ℕ)) (d c : ℕ) (es : List Entry)
    (target : Option ℕ) (v : Vfs)
    → IsName n
    → Plain v.store d c es
    → lookup_path (suc fuel) i (path_of (n ∷ ns)) d target 1 v
      ≡ make_path i (path_of (n ∷ ns)) d target v
unfolding lookup_path component_of in_directory across_mount
lookup_path-create fuel i n ns d c es target v name plain =
    rw (lookup_path, (path_of-Leads n ns name).first)
      (rw (across_mount, plain.unmounted, component_of, plain.directory.node)
        (rw (in_directory, eq→== (v.store.components c).type comp_dir plain.directory.regular)
          refl))

pub Route-Missing :
    {s : Store} (d : ℕ) (ns ms : List (List ℕ)) (t : ℕ)
    → Route s d ns t
    → Missing s t ms
    → Missing s d (ns ++ ms)
Route-Missing d [] ms t (here _) m = m
Route-Missing d (n ∷ ns) ms t (down _ c es _ e _ _ plain found r) m =
    below d c es n e (ns ++ ms) plain found (Route-Missing e ns ms t r m)
