-- ===== src/Vfs/Routes.antt =====
-- Paths as lists of names, and where they lead through the directories, for lib/vfs.c.
use bare_metal_os_kernel.Base.{
  ℕ, ◌<◌, ◌≡◌, ◌≢◌, refl, false, none, some, List, [], ◌∷◌, ◌++◌, length, ok, ◌==◌, lt→ltb, ne→==,
  arith,
}
use bare_metal_os_kernel.Base.{pos, int_eq, sub_ℕ}
use bare_metal_os_kernel.Files.{Store, comp_dir}
use bare_metal_os_kernel.Files.Entries.{Entry, find, IsDirectory}
use bare_metal_os_kernel.Paths.{
  before_slash, from_slash, skip_slash, first_component, pop_first_component,
  tmpfs_max_component_name,
}
use bare_metal_os_kernel.Strings.Tokens.Split.{Free}
use bare_metal_os_kernel.Files.Directory.{same_name}
use bare_metal_os_kernel.Vfs.{slash}

-- A name that one component of a path can be.
pub record IsName (n : List ℕ) : Type 0 where
  pub some_character : 0 < length n
  pub no_slash : Free b'/' n
  pub no_end : Free 0 n
  pub short : length n < tmpfs_max_component_name

abbrev pub Names : List (List ℕ) → Type 0
Names [] = Unit {0}
Names (n ∷ ns) = IsName n × Names ns

-- Each name behind a slash.
abbrev pub path_of : List (List ℕ) → List ℕ
path_of [] = []
path_of (n ∷ ns) = b'/' ∷ n ++ path_of ns

before_slash-name :
    (n : List ℕ) (ns : List (List ℕ)) → Free b'/' n → before_slash (n ++ path_of ns) ≡ n
unfolding before_slash
before_slash-name [] [] free = refl
before_slash-name [] (m ∷ ns) free = refl
before_slash-name (x ∷ n) ns (ne, free) =
    rw (before_slash, ne→== x b'/' ne, before_slash-name n ns free) refl

from_slash-name :
    (n : List ℕ) (ns : List (List ℕ)) → Free b'/' n → from_slash (n ++ path_of ns) ≡ path_of ns
unfolding from_slash
from_slash-name [] [] free = refl
from_slash-name [] (m ∷ ns) free = refl
from_slash-name (x ∷ n) ns (ne, free) = rw (from_slash, ne→== x b'/' ne) (from_slash-name n ns free)

skip_slash-name :
    (n tail : List ℕ) → 0 < length n → Free b'/' n → skip_slash (n ++ tail) ≡ n ++ tail
skip_slash-name [] tail lt free = ground (arith, lt)
skip_slash-name (x ∷ n) tail lt (ne, free) = rw (ne→== x b'/' ne) refl

-- The path starts with `n`, and the rest behind it is that of `ns`.
pub record Leads (pathname n : List ℕ) (ns : List (List ℕ)) : Type 0 where
  pub first : first_component pathname ≡ ok n
  pub rest : pop_first_component pathname ≡ skip_slash (path_of ns)

first_of :
    (n : List ℕ) (ns : List (List ℕ)) (p : List ℕ)
    → IsName n
    → skip_slash p ≡ n ++ path_of ns
    → Leads p n ns
unfolding first_component pop_first_component
first_of n ns p name e = record {
  first =
      rw
        (
          first_component,
          e,
          before_slash-name n ns name.no_slash,
          lt→ltb (length n) tmpfs_max_component_name name.short,
        )
        refl;
  rest = rw (pop_first_component, e, from_slash-name n ns name.no_slash) refl;
}

pub path_of-Leads : (n : List ℕ) (ns : List (List ℕ)) → IsName n → Leads (path_of (n ∷ ns)) n ns
path_of-Leads n ns name = first_of n ns (path_of (n ∷ ns)) name refl

pub rest-Leads : (n : List ℕ) (ns : List (List ℕ)) → IsName n → Leads (n ++ path_of ns) n ns
rest-Leads n ns name =
    first_of n ns (n ++ path_of ns) name
      (skip_slash-name n (path_of ns) name.some_character name.no_slash)

-- A directory on which nothing is mounted.
pub record Plain (s : Store) (d c : ℕ) (es : List Entry) : Type 0 where
  pub directory : IsDirectory s d c es
  pub unmounted : (s.vnodes d).mount ≡ none

-- From node to node the names lead from `d` to `t`.
pub data Route (s : Store) : ℕ → List (List ℕ) → ℕ → Type 0 where
  here : (d : ℕ) → Route s d [] d
  down :
      (d c : ℕ) (es : List Entry) (n : List ℕ) (e : ℕ) (ns : List (List ℕ)) (t : ℕ)
      → Plain s d c es
      → find n es ≡ some e
      → Route s e ns t
      → Route s d (n ∷ ns) t

-- The names lead from `d` to a directory without the next one, or to a node that is no directory.
pub data Missing (s : Store) : ℕ → List (List ℕ) → Type 0 where
  absent :
      (d c : ℕ) (es : List Entry) (n : List ℕ) (ns : List (List ℕ))
      → Plain s d c es
      → find n es ≡ none
      → Missing s d (n ∷ ns)
  no_directory :
      (d c : ℕ) (n : List ℕ) (ns : List (List ℕ))
      → (s.vnodes d).mount ≡ none
      → (s.vnodes d).component ≡ some c
      → ((s.components c).type == comp_dir) ≡ false
      → Missing s d (n ∷ ns)
  below :
      (d c : ℕ) (es : List Entry) (n : List ℕ) (e : ℕ) (ns : List (List ℕ))
      → Plain s d c es
      → find n es ≡ some e
      → Missing s e ns
      → Missing s d (n ∷ ns)

pub node_of :
    {s : Store} (e : ℕ) (m : List ℕ) (ns : List (List ℕ))
    → Missing s e (m ∷ ns)
    → (c : ℕ) × ((s.vnodes e).component ≡ some c)
node_of e m ns (absent _ c es _ _ plain none_there) = (c, plain.directory.node)
node_of e m ns (no_directory _ c _ _ unmounted node other) = (c, node)
node_of e m ns (below _ c es _ e2 _ plain found deeper) = (c, plain.directory.node)

sub_ℕ-nonzero : (x : ℕ) → x ≢ 0 → int_eq (sub_ℕ x 0) (pos 0) ≡ false
sub_ℕ-nonzero x ne = ground (arith, ne)

-- A path with a name is not "/".
pub path_of-slash :
    (n : List ℕ) (ns : List (List ℕ)) → IsName n → same_name (path_of (n ∷ ns)) slash ≡ false
path_of-slash [] ns name = ground (arith, name.some_character)
path_of-slash (x ∷ n) ns name = sub_ℕ-nonzero x name.no_end.0
