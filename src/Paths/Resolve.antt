-- ===== src/Paths/Resolve.antt =====
-- The reference for `to_abs_path` of lib/vfs.c: the components of a path on a stack.
use bare_metal_os_kernel.Base.{
  ℕ, ◌+◌, ◌≤◌, ◌≡◌, refl, ◌∙◌, Bool, false, List, [], ◌∷◌, ◌++◌, length, length-append,
  if◌then◌else◌, Bool-cases, arith, inl, inr,
}
use bare_metal_os_kernel.Files.Directory.{same_name}
use bare_metal_os_kernel.Paths.{is_blank, parent_dir}

-- The stack after a component that is "..": a part is dropped, unless there is none or it is "..".
abbrev pub parent : (c : List ℕ) → List (List ℕ) → List (List ℕ)
parent c [] = c ∷ []
parent c (top ∷ stack) = if same_name top parent_dir then c ∷ top ∷ stack else stack

abbrev pub take_in : (c : List ℕ) → List (List ℕ) → List (List ℕ)
take_in c stack = if same_name c parent_dir then parent c stack else c ∷ stack

-- The stack after the components, from the last one down.
abbrev pub resolve : List (List ℕ) → (comps : List (List ℕ)) → List (List ℕ)
resolve stack [] = stack
resolve stack (c ∷ cs) = if is_blank c then resolve stack cs else resolve (take_in c stack) cs

-- The stack from the bottom up, each part behind a slash, and `tail` behind it.
abbrev pub written : List (List ℕ) → (tail : List ℕ) → List ℕ
written [] tail = tail
written (c ∷ stack) tail = written stack (b'/' ∷ c ++ tail)

-- Whether the last component is empty or ".".
abbrev pub trailing : (comps : List (List ℕ)) → Bool
trailing [] = false
trailing (c ∷ []) = is_blank c
trailing (c ∷ d ∷ cs) = trailing (d ∷ cs)

-- How much room the components take.
abbrev pub total : List (List ℕ) → ℕ
total [] = 0
total (c ∷ cs) = 1 + length c + total cs

parent-total :
    (c : List ℕ) (stack : List (List ℕ)) → total (parent c stack) ≤ 1 + length c + total stack
parent-total c [] = omega arith
parent-total c (top ∷ stack) = ground arith

take_in-total :
    (c : List ℕ) (stack : List (List ℕ)) → total (take_in c stack) ≤ 1 + length c + total stack
take_in-total c stack = ground (arith, parent-total c stack)

pub resolve-total : (stack cs : List (List ℕ)) → total (resolve stack cs) ≤ total stack + total cs
resolve-total stack [] = omega arith
resolve-total stack (c ∷ cs) = elim (Bool-cases (is_blank c)) [
  | inl blank ↦ rw blank (omega (arith, resolve-total stack cs))
  | inr plain ↦ rw plain (omega (arith, resolve-total (take_in c stack) cs, take_in-total c stack))
]

pub trailing-plain :
    (c : List ℕ) (cs : List (List ℕ)) → is_blank c ≡ false → trailing (c ∷ cs) ≡ trailing cs
trailing-plain c [] plain = plain
trailing-plain c (d ∷ cs) plain = refl

pub length-written :
    (stack : List (List ℕ)) (tail : List ℕ)
    → length (written stack tail) ≡ total stack + length tail
length-written [] tail = omega arith
length-written (c ∷ stack) tail =
    length-written stack (b'/' ∷ c ++ tail) ∙ omega (arith, length-append c tail)
