-- ===== src/Strings/Append.antt =====
-- `append_str` of lib/string.c on a string in memory, in one equation.
use bare_metal_os_kernel.Base.{
  ℕ, suc, ◌+◌, ◌≤◌, ◌<◌, ◌≡◌, ◌≢◌, refl, subst, List, [], ◌∷◌, ◌++◌, length, ok, eq→==, ne→==,
  update, arith, inl, inr, ◌⊎◌,
}
use bare_metal_os_kernel.Strings.{append_str}
use bare_metal_os_kernel.Strings.Stored.{Stored, strlen-Stored}

-- `append_str` of a character that is not 0.
abbrev pub appended : (mem : ℕ → ℕ) → (a len c : ℕ) → ℕ → ℕ
appended mem a len c = update (update mem (a + len) c) (a + len + 1) 0

pub Stored-appended :
    (mem : ℕ → ℕ) (a c : ℕ) (xs : List ℕ)
    → c ≢ 0
    → Stored mem a xs
    → Stored (appended mem a (length xs) c) a (xs ++ c ∷ [])
Stored-appended mem a c [] ne h = (
  rw (ne→== (a + 0 + 1) a (omega arith), eq→== (a + 0) a (omega arith)) refl,
  ne,
  rw (eq→== (a + 0 + 1) (a + 1) (omega arith)) refl,
)
Stored-appended mem a c (x ∷ xs) ne (e, n, h) = (
  rw (ne→== (a + suc (length xs) + 1) a (omega arith), ne→== (a + suc (length xs)) a (omega arith))
      e,
  n,
  subst (λ k. Stored (update (update mem k c) (k + 1) 0) (a + 1) (xs ++ c ∷ [])) (omega arith)
      (Stored-appended mem (a + 1) c xs ne h),
)

pub append_str-appended :
    (fuel a c : ℕ) (mem : ℕ → ℕ) (xs : List ℕ)
    → length xs < fuel
    → Stored mem a xs
    → append_str fuel mem a c ≡ ok (appended mem a (length xs) c)
unfolding append_str
append_str-appended fuel a c mem xs lt h = rw (append_str, strlen-Stored fuel mem a xs lt h) refl

pub appended-far :
    (mem : ℕ → ℕ) (a len c x room : ℕ)
    → len + 1 ≤ room
    → (x < a) ⊎ (a + room < x)
    → appended mem a len c x ≡ mem x
appended-far mem a len c x room le (inl lt) =
    rw (ne→== (a + len + 1) x (omega (arith, lt)), ne→== (a + len) x (omega (arith, lt))) refl
appended-far mem a len c x room le (inr lt) =
    rw (ne→== (a + len + 1) x (omega (arith, lt, le)), ne→== (a + len) x (omega (arith, lt, le)))
      refl
