-- ===== src/Files/Entries.antt =====
-- The directory operations of lib/tmpfs.c as lookups in a list of names.
use bare_metal_os_kernel.Base.{
  ℕ, ◌+◌, ◌<◌, ◌≡◌, refl, Option, none, some, List, [], ◌∷◌, length, ok, Returns, if◌then◌else◌,
  Bool-cases, arith, inl, inr,
}
use bare_metal_os_kernel.Files.{Store, VnodeComponent, comp_dir}
use bare_metal_os_kernel.Files.Directory.{
  same_name, mounted, looked_up, lookup_in, lookup_loop, entries_of, component_of, tmpfs_lookup,
}

-- A name and the node that it stands for.
abbrev pub Entry : Type 0
Entry = List ℕ × ℕ

abbrev pub find : (name : List ℕ) → List Entry → Option ℕ
find name [] = none
find name (e ∷ es) = if same_name name e.0 then some e.1 else find name es

-- From position `i` on the array holds the entries `es`.
abbrev pub Lists : Store → (entries : ℕ → ℕ) → (i : ℕ) → List Entry → Type 0
Lists s entries i [] = Unit {0}
Lists s entries i (e ∷ es) =
    (entries i < s.next)
    × ((c : ℕ) × (c < s.next)
        × ((s.vnodes (entries i)).component ≡ some c)
        × ((s.components c).name ≡ e.0))
    × (mounted (entries i) s ≡ e.1)
    × Lists s entries (i + 1) es

-- The array that a directory points to, if it has entries.
abbrev pub Array : Store → (content : Option ℕ) → List Entry → Type 0
Array s none es = length es ≡ 0
Array s (some p) es = (p < s.next) × Lists s (s.entries p) 0 es

-- The node `d` is a directory with component `c` and the entries `es`.
pub record IsDirectory (s : Store) (d c : ℕ) (es : List Entry) : Type 0 where
  pub node_used : d < s.next
  pub component_used : c < s.next
  pub node : (s.vnodes d).component ≡ some c
  pub regular : (s.components c).type ≡ comp_dir
  pub count : (s.components c).len ≡ length es
  pub array : Array s (s.components c).content es

lookup_loop-find :
    (s : Store) (entries : ℕ → ℕ) (i : ℕ) (name : List ℕ) (es : List Entry)
    → Lists s entries i es
    → lookup_loop (length es) i entries name s ≡ ok (find name es)
unfolding lookup_loop
lookup_loop-find s entries i name [] l = refl
lookup_loop-find s entries i name (e ∷ es) (used, (c, lt, node, named), m, l) =
    elim (Bool-cases (same_name name e.0)) [
      | inl same ↦ rw (lookup_loop, node, named, same, m) refl
      | inr other ↦
          rw (lookup_loop, node, named, other) (lookup_loop-find s entries (i + 1) name es l)
    ]

entries_of-Array :
    (s : Store) (content : Option ℕ) (es : List Entry)
    → Array s content es
    → Returns (λ entries. Lists s entries 0 es) (entries_of (length es) content s)
unfolding entries_of
entries_of-Array s none [] a = ((λ _. 0), refl, tt)
entries_of-Array s none (e ∷ es) a = ground (arith, a)
entries_of-Array s (some p) [] a = ((λ _. 0), refl, tt)
entries_of-Array s (some p) (e ∷ es) a = (s.entries p, refl, a.1)

lookup_in-find :
    (s : Store) (dir : VnodeComponent) (es : List Entry) (target : Option ℕ) (name : List ℕ)
    → dir.type ≡ comp_dir
    → dir.len ≡ length es
    → Array s dir.content es
    → lookup_in dir target name s ≡ ok (looked_up target (find name es))
unfolding lookup_in
lookup_in-find s dir es target name regular count array =
    let (entries, run, l) = entries_of-Array s dir.content es array in
    rw (lookup_in, regular, count, run, lookup_loop-find s entries 0 name es l) refl

-- `tmpfs_lookup` in a directory returns 0 and the node of the first entry with the name, and with
-- no such entry -1, with `*target` as it was.
pub tmpfs_lookup-find :
    (s : Store) (d c : ℕ) (es : List Entry) (target : Option ℕ) (name : List ℕ)
    → IsDirectory s d c es
    → tmpfs_lookup d target name s ≡ ok (looked_up target (find name es))
unfolding tmpfs_lookup component_of
tmpfs_lookup-find s d c es target name dir =
    rw (tmpfs_lookup, component_of, dir.node)
      (lookup_in-find s (s.components c) es target name dir.regular dir.count dir.array)
