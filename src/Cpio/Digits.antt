-- ===== src/Cpio/Digits.antt =====
-- The number that the digits of a header of lib/cpio.c stand for.
use bare_metal_os_kernel.Base.{
  ap, ◌∙◌, ◌⊎◌, inl, inr, ℕ, zero, suc, ◌+◌, ◌-◌, ◌*◌, ◌%◌, ◌^◌, ◌≤◌, ◌<◌, ◌≡◌, refl, subst, List,
  [], ◌∷◌, length, ok, ne→==, arith,
}
use bare_metal_os_kernel.Strings.{hex_loop, hex_base}
use bare_metal_os_kernel.Strings.Stored.{Stored}

-- One more digit, and all digits.
abbrev pub hex_step : (res c : ℕ) → ℕ
hex_step res c = (res * 16 + c + 2 ^ 32 - hex_base c) % 2 ^ 32

abbrev pub hex_value : (res : ℕ) → List ℕ → ℕ
hex_value res [] = res
hex_value res (c ∷ cs) = hex_value (hex_step res c) cs

pub hex_loop-Stored :
    (fuel : ℕ) (mem : ℕ → ℕ) (str i res : ℕ) (cs : List ℕ)
    → length cs < fuel
    → Stored mem (str + i) cs
    → hex_loop fuel mem str i res ≡ ok (hex_value res cs)
unfolding hex_loop
hex_loop-Stored zero mem str i res cs lt h = ground (arith, lt)
hex_loop-Stored (suc fuel) mem str i res [] lt h = rw (hex_loop, h) refl
hex_loop-Stored (suc fuel) mem str i res (c ∷ cs) lt (e, ne, h) =
    rw (hex_loop, e, ne→== c 0 ne)
      (hex_loop-Stored fuel mem str (i + 1) (hex_step res c) cs (omega (arith, lt))
        (subst (λ a. Stored mem a cs) (omega arith) h))

hex_base-low : (c : ℕ) → hex_base c ≤ 87
unfolding hex_base
hex_base-low c = ground arith

-- Two results agree in their last `k` hexadecimal digits.
abbrev modulus : ℕ → ℕ
modulus zero = 1
modulus (suc k) = 16 * modulus k

hex_step_agrees :
    (k r s c : ℕ)
    → k < 8
    → r % modulus k ≡ s % modulus k
    → hex_step r c % modulus (suc k) ≡ hex_step s c % modulus (suc k)
hex_step_agrees zero r s c lt e = omega (arith, e, hex_base-low c)
hex_step_agrees (suc zero) r s c lt e = omega (arith, e, hex_base-low c)
hex_step_agrees (suc (suc zero)) r s c lt e = omega (arith, e, hex_base-low c)
hex_step_agrees (suc (suc (suc zero))) r s c lt e = omega (arith, e, hex_base-low c)
hex_step_agrees (suc (suc (suc (suc zero)))) r s c lt e = omega (arith, e, hex_base-low c)
hex_step_agrees (suc (suc (suc (suc (suc zero))))) r s c lt e = omega (arith, e, hex_base-low c)
hex_step_agrees (suc (suc (suc (suc (suc (suc zero)))))) r s c lt e =
    omega (arith, e, hex_base-low c)
hex_step_agrees (suc (suc (suc (suc (suc (suc (suc zero))))))) r s c lt e =
    omega (arith, e, hex_base-low c)
hex_step_agrees (suc (suc (suc (suc (suc (suc (suc (suc k)))))))) r s c lt e = omega (arith, lt)

hex_value_agrees :
    (k r s : ℕ) (cs : List ℕ)
    → k + length cs ≤ 8
    → r % modulus k ≡ s % modulus k
    → hex_value r cs % modulus (k + length cs) ≡ hex_value s cs % modulus (k + length cs)
hex_value_agrees k r s [] le e = subst (λ j. r % modulus j ≡ s % modulus j) (omega arith) e
hex_value_agrees k r s (c ∷ cs) le e =
    subst (λ j. hex_value (hex_step r c) cs % modulus j ≡ hex_value (hex_step s c) cs % modulus j)
      (omega arith)
      (hex_value_agrees (suc k) (hex_step r c) (hex_step s c) cs (omega (arith, le))
        (hex_step_agrees k r s c (omega (arith, le)) e))

hex_value_bound : (r : ℕ) (cs : List ℕ) → r < 2 ^ 32 → hex_value r cs < 2 ^ 32
hex_value_bound r [] lt = lt
hex_value_bound r (c ∷ cs) lt = hex_value_bound (hex_step r c) cs (omega arith)

-- After eight digits what was read before them is gone.
pub eight_digits :
    (r s : ℕ) (cs : List ℕ)
    → r < 2 ^ 32
    → s < 2 ^ 32
    → length cs ≡ 8
    → hex_value r cs ≡ hex_value s cs
eight_digits r s cs lt1 lt2 eight =
    let count : 0 + length cs ≡ 8 = omega (arith, eight) in
    let same : hex_value r cs % modulus 8 ≡ hex_value s cs % modulus 8 =
      subst (λ j. hex_value r cs % modulus j ≡ hex_value s cs % modulus j) count
        (hex_value_agrees 0 r s cs (omega (arith, eight)) (omega arith)) in
    omega (arith, same, hex_value_bound r cs lt1, hex_value_bound s cs lt2)

-- The value of a hexadecimal digit and its character, of either case.
abbrev pub IsDigit : (d c : ℕ) → Type 0
IsDigit d c =
    ((d < 10) × (c ≡ b'0' + d))
    ⊎ ((10 ≤ d) × (d < 16) × ((c + 10 ≡ b'a' + d) ⊎ (c + 10 ≡ b'A' + d)))

-- The characters stand for the digits, one for one.
abbrev pub AreDigits : (ds cs : List ℕ) → Type 0
AreDigits [] [] = Unit {0}
AreDigits [] (c ∷ cs) = ⊥
AreDigits (d ∷ ds) [] = ⊥
AreDigits (d ∷ ds) (c ∷ cs) = IsDigit d c × AreDigits ds cs

-- The number with these digits, the highest first, behind those of `n`.
abbrev pub number : (n : ℕ) → List ℕ → ℕ
number n [] = n
number n (d ∷ ds) = number (16 * n + d) ds

IsDigit-hex_base : (d c : ℕ) → IsDigit d c → (d < 16) × (c ≡ hex_base c + d)
unfolding hex_base
IsDigit-hex_base d c (inl (lt, e)) = (omega (arith, lt), ground (arith, lt, e))
IsDigit-hex_base d c (inr (ge, lt, inl e)) = (lt, ground (arith, ge, lt, e))
IsDigit-hex_base d c (inr (ge, lt, inr e)) = (lt, ground (arith, ge, lt, e))

hex_step-digit : (n d c : ℕ) → IsDigit d c → 16 * n + d < 2 ^ 32 → hex_step n c ≡ 16 * n + d
hex_step-digit n d c is lt = let (small, e) = IsDigit-hex_base d c is in omega (arith, lt, e)

modulus_small : (k : ℕ) → k ≤ 8 → modulus k ≤ 2 ^ 32
modulus_small zero le = omega arith
modulus_small (suc zero) le = omega arith
modulus_small (suc (suc zero)) le = omega arith
modulus_small (suc (suc (suc zero))) le = omega arith
modulus_small (suc (suc (suc (suc zero)))) le = omega arith
modulus_small (suc (suc (suc (suc (suc zero))))) le = omega arith
modulus_small (suc (suc (suc (suc (suc (suc zero)))))) le = omega arith
modulus_small (suc (suc (suc (suc (suc (suc (suc zero))))))) le = omega arith
modulus_small (suc (suc (suc (suc (suc (suc (suc (suc zero)))))))) le = omega arith
modulus_small (suc (suc (suc (suc (suc (suc (suc (suc (suc k))))))))) le = omega (arith, le)

-- Eight digits are below 2 ^ 32, since each step keeps `n` below `bound`.
pub hex_value-number :
    (k n : ℕ) (ds cs : List ℕ)
    → k + length cs ≤ 8
    → n < modulus k
    → AreDigits ds cs
    → hex_value n cs ≡ number n ds
hex_value-number k n [] [] le lt all = refl
hex_value-number k n [] (c ∷ cs) le lt all = elim all [ ]
hex_value-number k n (d ∷ ds) [] le lt all = elim all [ ]
hex_value-number k n (d ∷ ds) (c ∷ cs) le lt (is, all) =
    let (small, e) = IsDigit-hex_base d c is in
    ap (λ m. hex_value m cs)
      (hex_step-digit n d c is
        (omega (arith, lt, small, modulus_small (suc k) (omega (arith, le)))))
    ∙ hex_value-number (suc k) (16 * n + d) ds cs (omega (arith, le)) (omega (arith, lt, small)) all
