-- ===== src/Paths.antt =====
-- The functions of lib/vfs.c on path names. A C string is the list of its characters; a string that
-- does not fit its array, and an access through NULL, is a fault.
pub mod Resolve
pub mod Loop
pub mod Absolute
pub mod Normal
pub mod Parent
mod Tests
use bare_metal_os_kernel.Base.{
  ℕ, zero, suc, ◌+◌, ◌-◌, Bool, true, false, ◌&&◌, ◌||◌, not, Option, none, some, List, [], ◌∷◌,
  ◌++◌, length, get_elem?, Run, ok, fault, out_of_fuel, ◌>>=◌, ltb, leb, ◌==◌, if◌then◌else◌,
  update,
}
use bare_metal_os_kernel.Base.{ℤ, pos}
use bare_metal_os_kernel.Strings.Tokens.{split}
use bare_metal_os_kernel.Files.Directory.{same_name}

abbrev pub tmpfs_max_component_name : ℕ
tmpfs_max_component_name = 32

abbrev pub tmpfs_max_path_len : ℕ
tmpfs_max_path_len = 255

abbrev pub vfs_max_depth : ℕ
vfs_max_depth = 64

abbrev pub current_dir : List ℕ
current_dir = b'.' ∷ []

abbrev pub parent_dir : List ℕ
parent_dir = b'.' ∷ b'.' ∷ []

-- `if(pathname[i] == '/') i++;`
abbrev pub skip_slash : List ℕ → List ℕ
skip_slash [] = []
skip_slash (c ∷ cs) = if c == b'/' then cs else c ∷ cs

-- The characters before the next slash or the end, and those from it on.
unfoldable pub before_slash : List ℕ → List ℕ
before_slash [] = []
before_slash (c ∷ cs) = if c == b'/' then [] else c ∷ before_slash cs

unfoldable pub from_slash : List ℕ → List ℕ
from_slash [] = []
from_slash (c ∷ cs) = if c == b'/' then c ∷ cs else from_slash cs

unfoldable pub pop_first_component : (pathname : List ℕ) → List ℕ
pop_first_component pathname = skip_slash (from_slash (skip_slash pathname))

-- What `component_name`, an array of 32 bytes, holds after it.
unfoldable pub first_component : (pathname : List ℕ) → Run (List ℕ)
first_component pathname =
    let name = before_slash (skip_slash pathname) in
    if ltb (length name) tmpfs_max_component_name then ok name else fault

-- `spilt_strings` into an array of 64 pointers, the last of them NULL.
unfoldable pub spilt : (path : List ℕ) → Run (List (List ℕ))
spilt path =
    let comps = split b'/' path in if ltb (length comps) vfs_max_depth then ok comps else fault

-- `comps[r][0] == '\0' || strcmp(comps[r], CURRENT_DIR) == 0`
abbrev pub is_blank : List ℕ → Bool
is_blank c = (length c == 0) || same_name c current_dir

-- An array of strings: `none` is NULL.
abbrev pub Strings : Type 0
Strings = ℕ → Option (List ℕ)

-- `while(comps[r][0] == '\0' || ...) r++;`
unfoldable pub skip_blank : (fuel : ℕ) → Strings → (r : ℕ) → Run (ℕ × List ℕ)
skip_blank zero comps r = out_of_fuel
skip_blank (suc fuel) comps r = elim (comps r) [
  | none ↦ fault
  | some c ↦ elim (is_blank c) [ true ↦ skip_blank fuel comps (r + 1) | false ↦ ok (r, c) ]
]

-- `w == 0 || strcmp(comps[w-1], PARENT_DIR)==0`
unfoldable pub on_parent : Strings → (w : ℕ) → Run Bool
on_parent comps zero = ok true
on_parent comps (suc w) = elim (comps w) [ none ↦ fault | some top ↦ ok (same_name top parent_dir) ]

-- The component `c` is taken: `w` and the array after it.
unfoldable pub translate_one : (c : List ℕ) → (w : ℕ) → Strings → Run (ℕ × Strings)
translate_one c w comps = elim (same_name c parent_dir) [
  | false ↦ ok (w + 1, update comps w (some c))
  | true ↦ do
    pushes ← on_parent comps w
    ok (if pushes then (w + 1, update comps w (some c)) else (w - 1, update comps w none))
]

unfoldable pub translate : (fuel : ℕ) → (count w r : ℕ) → Strings → Run (ℕ × Strings)
translate zero count w r comps = out_of_fuel
translate (suc fuel) count w r comps = elim (ltb w count && ltb r count) [
  | false ↦ ok (w, comps)
  | true ↦ do
    (r', c) ← skip_blank (suc count) comps r
    (w', comps') ← translate_one c w comps
    translate fuel count w' (r' + 1) comps'
]

-- The `n` components from `i` on, each behind a slash.
unfoldable pub join_from : (n i : ℕ) → Strings → Run (List ℕ)
join_from zero i comps = ok []
join_from (suc n) i comps = elim (comps i) [
  | none ↦ fault
  | some c ↦ do rest ← join_from n (i + 1) comps; ok (b'/' ∷ c ++ rest)
]

abbrev pub fits : List ℕ → Run (List ℕ)
fits path = if ltb (length path) tmpfs_max_path_len then ok path else fault

abbrev pub ends_with_slash : List ℕ → Bool
ends_with_slash [] = false
ends_with_slash (c ∷ []) = c == b'/'
ends_with_slash (c ∷ d ∷ cs) = ends_with_slash (d ∷ cs)

abbrev pub starts_with_slash : List ℕ → Bool
starts_with_slash [] = false
starts_with_slash (c ∷ cs) = c == b'/'

-- The part of `to_abs_path` behind the two tests.
unfoldable pub concatenate : (cwd path : List ℕ) → Run (List ℕ)
concatenate cwd path = do
  untranslate ← fits (cwd ++ path)
  comps ← spilt untranslate
  let count = length comps
  (w, comps') ← translate (suc count) count 0 0 (get_elem? comps)
  abs_path ← join_from w 0 comps'
  fits abs_path

-- The result and `abs_path`, an array of 255 bytes, after it.
unfoldable pub to_abs_path : (abs_path cwd path : List ℕ) → Run (ℤ × List ℕ)
to_abs_path abs_path cwd path = elim (starts_with_slash path) [
  | true ↦ do copied ← fits path; ok (pos 0, copied)
  | false ↦ elim (starts_with_slash cwd && ends_with_slash cwd) [
    | false ↦ ok (pos 1, abs_path)
    | true ↦ do joined ← concatenate cwd path; ok (pos 0, joined)
  ]
]
