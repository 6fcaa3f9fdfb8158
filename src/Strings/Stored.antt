-- ===== src/Strings/Stored.antt =====
-- Strings as they stand in memory, for the functions of lib/string.c.
use bare_metal_os_kernel.Base.{
  ℕ, zero, suc, ◌+◌, ◌≤◌, ◌<◌, ◌≡◌, ◌≢◌, subst, ap, ◌∙◌, List, [], ◌∷◌, length, ok, eq→==, ne→==,
  arith,
}
use bare_metal_os_kernel.Strings.{strlen_loop, strlen, end_of}

-- At `p` stand the characters `xs`, none of them 0, and then a 0.
abbrev pub Stored : (mem : ℕ → ℕ) → (p : ℕ) → List ℕ → Type 0
Stored mem p [] = mem p ≡ 0
Stored mem p (x ∷ xs) = (mem p ≡ x) × (x ≢ 0) × Stored mem (p + 1) xs

-- A memory that agrees on the place of a string holds the string too.
pub Stored-frame :
    (mem mem' : ℕ → ℕ) (p : ℕ) (xs : List ℕ)
    → ((a : ℕ) → p ≤ a → a ≤ p + length xs → mem' a ≡ mem a)
    → Stored mem p xs
    → Stored mem' p xs
Stored-frame mem mem' p [] same c = same p (omega arith) (omega arith) ∙ c
Stored-frame mem mem' p (x ∷ xs) same (e, n, c) = (
  same p (omega arith) (omega arith) ∙ e,
  n,
  Stored-frame mem mem' (p + 1) xs (λ a l u. same a (omega (arith, l)) (omega (arith, u))) c,
)

strlen_loop-Stored :
    (fuel : ℕ) (mem : ℕ → ℕ) (s i : ℕ) (xs : List ℕ)
    → length xs < fuel
    → Stored mem (s + i) xs
    → strlen_loop fuel mem s i ≡ ok (i + length xs)
unfolding strlen_loop
strlen_loop-Stored zero mem s i xs lt c = ground (arith, lt)
strlen_loop-Stored (suc fuel) mem s i [] lt c = rw (strlen_loop, eq→== _ 0 c) (ap ok (omega arith))
strlen_loop-Stored (suc fuel) mem s i (x ∷ xs) lt (e, n, c) =
    rw (strlen_loop, e, ne→== x 0 n)
      (strlen_loop-Stored fuel mem s (i + 1) xs (omega (arith, lt))
          (subst (λ a. Stored mem a xs) (omega arith) c)
        ∙ ap ok (omega arith))

-- For a string in memory `strlen` returns the number of its characters.
pub strlen-Stored :
    (fuel : ℕ) (mem : ℕ → ℕ) (s : ℕ) (xs : List ℕ)
    → length xs < fuel
    → Stored mem s xs
    → strlen fuel mem s ≡ ok (length xs)
unfolding strlen
strlen-Stored fuel mem s xs lt c =
    strlen_loop-Stored fuel mem s 0 xs lt (subst (λ a. Stored mem a xs) (omega arith) c)
    ∙ ap ok (omega arith)

pub end_of-Stored :
    (fuel : ℕ) (mem : ℕ → ℕ) (s : ℕ) (xs : List ℕ)
    → length xs < fuel
    → Stored mem s xs
    → end_of fuel mem s ≡ ok (s + length xs)
unfolding end_of
end_of-Stored zero mem s xs lt c = ground (arith, lt)
end_of-Stored (suc fuel) mem s [] lt c = rw (end_of, eq→== _ 0 c) (ap ok (omega arith))
end_of-Stored (suc fuel) mem s (x ∷ xs) lt (e, n, c) =
    rw (end_of, e, ne→== x 0 n)
      (end_of-Stored fuel mem (s + 1) xs (omega (arith, lt)) c ∙ ap ok (omega arith))

pub Stored-end : (mem : ℕ → ℕ) (p : ℕ) (xs : List ℕ) → Stored mem p xs → mem (p + length xs) ≡ 0
Stored-end mem p [] c = ap mem (omega arith) ∙ c
Stored-end mem p (x ∷ xs) (e, n, c) = ap mem (omega arith) ∙ Stored-end mem (p + 1) xs c
