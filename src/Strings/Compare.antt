-- ===== src/Strings/Compare.antt =====
-- `strcmp` of lib/string.c on strings in memory.
use bare_metal_os_kernel.Base.{
  ℕ, zero, suc, ◌+◌, ◌<◌, ◌≡◌, refl, subst, ap, true, List, [], ◌∷◌, length, ok, ◌==◌,
  if◌then◌else◌, eq→==, ne→==, Bool-cases, arith, inl, inr,
}
use bare_metal_os_kernel.Base.{ℤ, pos, sub_ℕ}
use bare_metal_os_kernel.Strings.{strcmp}
use bare_metal_os_kernel.Strings.Stored.{Stored}

-- The difference of the first characters in which the strings differ, their ends included.
abbrev pub compare_strings : List ℕ → List ℕ → ℤ
compare_strings [] [] = pos 0
compare_strings [] (y ∷ ys) = sub_ℕ 0 y
compare_strings (x ∷ xs) [] = sub_ℕ x 0
compare_strings (x ∷ xs) (y ∷ ys) = if x == y then compare_strings xs ys else sub_ℕ x y

strcmp-Stored :
    (fuel : ℕ) (mem : ℕ → ℕ) (x y : ℕ) (xs ys : List ℕ)
    → length xs < fuel
    → Stored mem x xs
    → Stored mem y ys
    → strcmp fuel mem x y ≡ ok (compare_strings xs ys)
unfolding strcmp
strcmp-Stored zero mem x y xs ys lt c d = ground (arith, lt)
strcmp-Stored (suc fuel) mem x y [] [] lt c d = rw (strcmp, c, c, d) refl
strcmp-Stored (suc fuel) mem x y [] (b ∷ ys) lt c (e, n, d) = rw (strcmp, c, c, e) refl
strcmp-Stored (suc fuel) mem x y (a ∷ xs) [] lt (e, n, c) d =
    rw (strcmp, e, ne→== a 0 n, e, d, ne→== a 0 n, e, d) refl
strcmp-Stored (suc fuel) mem x y (a ∷ xs) (b ∷ ys) lt (e, n, c) (e2, n2, d) =
    elim (Bool-cases (a == b)) [
      | inl same ↦
          rw (strcmp, e, ne→== a 0 n, e, e2, same)
            (strcmp-Stored fuel mem (x + 1) (y + 1) xs ys (omega (arith, lt)) c d)
      | inr other ↦ rw (strcmp, e, ne→== a 0 n, e, e2, other, e, e2) refl
    ]

sub_ℕ-zero : (a b : ℕ) → sub_ℕ a b ≡ pos 0 → a ≡ b
sub_ℕ-zero a b e = ground arith

eq_of : (a b : ℕ) → (a == b) ≡ true → a ≡ b
eq_of a b e = ground arith

compare_strings-equal :
    (mem : ℕ → ℕ) (x y : ℕ) (xs ys : List ℕ)
    → Stored mem x xs
    → Stored mem y ys
    → compare_strings xs ys ≡ pos 0
    → xs ≡ ys
compare_strings-equal mem x y [] [] c d e = refl
compare_strings-equal mem x y [] (b ∷ ys) c (e2, n, d) e = ground (arith, n, sub_ℕ-zero 0 b e)
compare_strings-equal mem x y (a ∷ xs) [] (e2, n, c) d e = ground (arith, n, sub_ℕ-zero a 0 e)
compare_strings-equal mem x y (a ∷ xs) (b ∷ ys) (e1, n, c) (e2, m, d) e =
    elim (Bool-cases (a == b)) [
      | inl same ↦ rw (eq_of a b same) (
          ap (λ l. b ∷ l)
            (compare_strings-equal mem (x + 1) (y + 1) xs ys c d
              (subst (λ t. (if t then compare_strings xs ys else sub_ℕ a b) ≡ pos 0) same e)))
      | inr other ↦ ground (
        arith,
        other,
        sub_ℕ-zero a b
            (subst (λ t. (if t then compare_strings xs ys else sub_ℕ a b) ≡ pos 0) other e),
      )
    ]

pub compare_strings_refl : (xs : List ℕ) → compare_strings xs xs ≡ pos 0
compare_strings_refl [] = refl
compare_strings_refl (x ∷ xs) = rw (eq→== x x refl) (compare_strings_refl xs)

-- `strcmp` of two strings in memory returns the difference of the first characters in which they
-- differ, their ends included, and this is 0 if and only if the strings are equal.
pub strcmp-decides :
    (fuel : ℕ) (mem : ℕ → ℕ) (x y : ℕ) (xs ys : List ℕ)
    → length xs < fuel
    → Stored mem x xs
    → Stored mem y ys
    → (strcmp fuel mem x y ≡ ok (compare_strings xs ys))
      × (compare_strings xs ys ≡ pos 0 → xs ≡ ys)
      × (xs ≡ ys → compare_strings xs ys ≡ pos 0)
strcmp-decides fuel mem x y xs ys lt c d = (
  strcmp-Stored fuel mem x y xs ys lt c d,
  compare_strings-equal mem x y xs ys c d,
  λ e. subst (λ l. compare_strings xs l ≡ pos 0) e (compare_strings_refl xs),
)
