-- ===== src/Paths/Normal.antt =====
-- The form of the paths that `to_abs_path` of lib/vfs.c makes.
use bare_metal_os_kernel.Base.{
  ℕ, ◌<◌, ◌≡◌, ◌≢◌, refl, ap, ◌∙◌, true, false, List, [], ◌∷◌, ◌++◌, append-nil, length, Returns,
  ◌==◌, ne→==, arith, Bool-cases, inl, inr,
}
use bare_metal_os_kernel.Base.{pos}
use bare_metal_os_kernel.Files.Directory.{same_name}
use bare_metal_os_kernel.Strings.Tokens.{split, push}
use bare_metal_os_kernel.Strings.Tokens.Split.{Free}
use bare_metal_os_kernel.Paths.{
  to_abs_path, is_blank, parent_dir, starts_with_slash, ends_with_slash, vfs_max_depth,
  tmpfs_max_path_len,
}
use bare_metal_os_kernel.Paths.Resolve.{take_in, parent, resolve, written, trailing}
use bare_metal_os_kernel.Paths.Absolute.{resolved, to_abs_path-resolved}

abbrev pub AllUp : List (List ℕ) → Type 0
AllUp [] = Unit {0}
AllUp (c ∷ cs) = (same_name c parent_dir ≡ true) × AllUp cs

-- No part is empty, "." or has a slash, and ".." stands only below all others.
abbrev pub IsNormal : (stack : List (List ℕ)) → Type 0
IsNormal [] = Unit {0}
IsNormal (c ∷ stack) =
    (is_blank c ≡ false)
    × Free b'/' c
    × (same_name c parent_dir ≡ true → AllUp stack)
    × IsNormal stack

abbrev AllFree : List (List ℕ) → Type 0
AllFree [] = Unit {0}
AllFree (c ∷ cs) = Free b'/' c × AllFree cs

push-AllFree : (x : ℕ) (ws : List (List ℕ)) → x ≢ b'/' → AllFree ws → AllFree (push x ws)
push-AllFree x [] ne free = ((ne, tt), tt)
push-AllFree x (w ∷ ws) ne free = ((ne, free.0), free.1)

split-AllFree : (xs : List ℕ) → AllFree (split b'/' xs)
unfolding split
split-AllFree [] = (tt, tt)
split-AllFree (x ∷ xs) = elim (Bool-cases (x == b'/')) [
  | inl same ↦ rw same (tt, split-AllFree xs)
  | inr other ↦ rw other (push-AllFree x (split b'/' xs) (ground (arith, other)) (split-AllFree xs))
]

not_up :
    (c : List ℕ) (cs : List (List ℕ))
    → same_name c parent_dir ≡ false
    → same_name c parent_dir ≡ true
    → AllUp cs
not_up c cs other up = cc

parent-IsNormal :
    (c : List ℕ) (stack : List (List ℕ))
    → is_blank c ≡ false
    → Free b'/' c
    → IsNormal stack
    → IsNormal (parent c stack)
parent-IsNormal c [] plain free normal = (plain, free, λ up. tt, tt)
parent-IsNormal c (top ∷ stack) plain free normal = elim (Bool-cases (same_name top parent_dir)) [
  | inl up ↦ rw up (plain, free, λ again. (up, normal.2 up), normal)
  | inr other ↦ rw other normal.3
]

take_in-IsNormal :
    (c : List ℕ) (stack : List (List ℕ))
    → is_blank c ≡ false
    → Free b'/' c
    → IsNormal stack
    → IsNormal (take_in c stack)
take_in-IsNormal c stack plain free normal = elim (Bool-cases (same_name c parent_dir)) [
  | inl up ↦ rw up (parent-IsNormal c stack plain free normal)
  | inr other ↦ rw other (plain, free, not_up c stack other, normal)
]

resolve-IsNormal :
    (stack cs : List (List ℕ)) → AllFree cs → IsNormal stack → IsNormal (resolve stack cs)
resolve-IsNormal stack [] free normal = normal
resolve-IsNormal stack (c ∷ cs) free normal = elim (Bool-cases (is_blank c)) [
  | inl blank ↦ rw blank (resolve-IsNormal stack cs free.1 normal)
  | inr plain ↦
      rw plain (
        resolve-IsNormal (take_in c stack) cs free.1 (take_in-IsNormal c stack plain free.0 normal))
]

-- The stack from the bottom up, before `cs`.
abbrev bottom_up : (stack cs : List (List ℕ)) → List (List ℕ)
bottom_up [] cs = cs
bottom_up (c ∷ stack) cs = bottom_up stack (c ∷ cs)

take_in-again :
    (c : List ℕ) (stack : List (List ℕ)) → IsNormal (c ∷ stack) → take_in c stack ≡ c ∷ stack
take_in-again c [] normal = elim (Bool-cases (same_name c parent_dir)) [
  | inl up ↦ rw up refl
  | inr other ↦ rw other refl
]
take_in-again c (top ∷ stack) normal = elim (Bool-cases (same_name c parent_dir)) [
  | inl up ↦ let below_ = (normal.2 up).0 in rw (up, below_) refl
  | inr other ↦ rw other refl
]

resolve-bottom_up :
    (stack cs : List (List ℕ)) → IsNormal stack → resolve [] (bottom_up stack cs) ≡ resolve stack cs
resolve-bottom_up [] cs normal = refl
resolve-bottom_up (c ∷ stack) cs normal =
    resolve-bottom_up stack (c ∷ cs) normal.3
    ∙ rw normal.0 (ap (λ st. resolve st cs) (take_in-again c stack normal))

split-front :
    (c tail w : List ℕ) (ws : List (List ℕ))
    → Free b'/' c
    → split b'/' tail ≡ w ∷ ws
    → split b'/' (c ++ tail) ≡ (c ++ w) ∷ ws
unfolding split
split-front [] tail w ws free e = e
split-front (x ∷ c) tail w ws (ne, free) e =
    rw (split, ne→== x b'/' ne, split-front c tail w ws free e) refl

split-written :
    (stack : List (List ℕ)) (tail : List ℕ) (ws : List (List ℕ))
    → IsNormal stack
    → split b'/' tail ≡ [] ∷ ws
    → split b'/' (written stack tail) ≡ [] ∷ bottom_up stack ws
unfolding split
split-written [] tail ws normal e = e
split-written (c ∷ stack) tail ws normal e =
    split-written stack (b'/' ∷ c ++ tail) (c ∷ ws) normal.3
      (ap (λ l. [] ∷ l) (split-front c tail [] ws normal.1 e ∙ ap (λ l. l ∷ ws) (append-nil c)))

resolved-again :
    (stack : List (List ℕ)) → IsNormal stack → resolved (written stack []) ≡ written stack []
unfolding split
resolved-again stack normal =
    ap (λ l. written (resolve [] l) []) (split-written stack [] [] normal refl)
    ∙ ap (λ st. written st []) (resolve-bottom_up stack [] normal)

-- What `to_abs_path` returns for a relative path that does not end in an empty part or ".", under
-- the bounds of its arrays, is a path of parts without a slash, none of them empty or ".", in which
-- ".." stands only in front; the way along it leads to the same path again.
pub to_abs_path-IsNormal :
    (abs_path cwd path : List ℕ)
    → starts_with_slash path ≡ false
    → starts_with_slash cwd ≡ true
    → ends_with_slash cwd ≡ true
    → length (cwd ++ path) < tmpfs_max_path_len
    → length (split b'/' (cwd ++ path)) < vfs_max_depth
    → trailing (split b'/' (cwd ++ path)) ≡ false
    → Returns
        (λ (r, joined).
          (r ≡ pos 0)
          × ((stack : List (List ℕ)) × IsNormal stack × (joined ≡ written stack []))
          × (resolved joined ≡ joined))
        (to_abs_path abs_path cwd path)
to_abs_path-IsNormal abs_path cwd path relative first last short few plain =
    let (leads, _) = to_abs_path-resolved abs_path cwd path relative first last short few in
    let stack = resolve [] (split b'/' (cwd ++ path)) in
    let normal = resolve-IsNormal [] (split b'/' (cwd ++ path)) (split-AllFree (cwd ++ path)) tt in
    (
      (pos 0, written stack []),
      leads plain,
      (refl, (stack, normal, refl), resolved-again stack normal),
    )
