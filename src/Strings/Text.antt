-- ===== src/Strings/Text.antt =====
-- The characters of a C string in memory, for the code that hands a string on as a whole.
use bare_metal_os_kernel.Base.{
  ℕ, zero, suc, ◌+◌, ◌<◌, ◌≡◌, refl, ap, true, false, List, [], ◌∷◌, length, Run, ok, out_of_fuel,
  ◌>>=◌, ◌==◌, ne→==, arith,
}
use bare_metal_os_kernel.Strings.Stored.{Stored}

unfoldable pub c_string : (fuel : ℕ) → (mem : ℕ → ℕ) → (p : ℕ) → Run (List ℕ)
c_string zero mem p = out_of_fuel
c_string (suc fuel) mem p = elim (mem p == 0) [
  | true ↦ ok []
  | false ↦ do rest ← c_string fuel mem (p + 1); ok (mem p ∷ rest)
]

pub c_string-Stored :
    (fuel : ℕ) (mem : ℕ → ℕ) (p : ℕ) (xs : List ℕ)
    → length xs < fuel
    → Stored mem p xs
    → c_string fuel mem p ≡ ok xs
unfolding c_string
c_string-Stored zero mem p xs lt h = ground (arith, lt)
c_string-Stored (suc fuel) mem p [] lt h = rw (c_string, h) refl
c_string-Stored (suc fuel) mem p (x ∷ xs) lt (e, ne, h) =
    rw (c_string, e, ne→== x 0 ne, c_string-Stored fuel mem (p + 1) xs (omega (arith, lt)) h)
      (ap (λ y. ok (y ∷ xs)) e)
