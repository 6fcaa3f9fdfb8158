-- ===== src/Strings/Number.antt =====
-- `atoi` and `myHex2Int` of lib/string.c on the strings that print a number.
use bare_metal_os_kernel.Base.{
  ℕ, zero, suc, ◌+◌, ◌*◌, ◌%◌, ◌^◌, ◌<◌, ◌≡◌, ◌≢◌, refl, subst, List, [], ◌∷◌, map, length, ok, ltb,
  if◌then◌else◌, ne→==, arith,
}
use bare_metal_os_kernel.Strings.{atoi, atoi_loop, my_hex2_int, hex_loop, hex_base}
use bare_metal_os_kernel.Strings.Stored.{Stored}

-- The digits of a number in some base, the highest first, read behind what stands before them.
abbrev pub value : (base before : ℕ) → List ℕ → ℕ
value base before [] = before
value base before (d ∷ ds) = value base (before * base + d) ds

abbrev pub Digits : (base : ℕ) → List ℕ → Type 0
Digits base [] = Unit {0}
Digits base (d ∷ ds) = (d < base) × Digits base ds

abbrev pub decimal : List ℕ → List ℕ
decimal = map (λ d. d + b'0')

abbrev pub hex_digit : ℕ → ℕ
hex_digit d = if ltb d 10 then d + b'0' else d + 0x57

atoi_loop-value :
    (fuel : ℕ) (mem : ℕ → ℕ) (str i res n : ℕ) (ds : List ℕ)
    → length ds < fuel
    → Digits 10 ds
    → Stored mem (str + i) (decimal ds)
    → res ≡ n % 2 ^ 32
    → atoi_loop fuel mem str i res ≡ ok (value 10 n ds % 2 ^ 32)
unfolding atoi_loop
atoi_loop-value zero mem str i res n ds lt g c e = ground (arith, lt)
atoi_loop-value (suc fuel) mem str i res n [] lt g c e = rw (atoi_loop, c, e) refl
atoi_loop-value (suc fuel) mem str i res n (d ∷ ds) lt g (e, ne, c) r =
    rw (atoi_loop, e, ne→== (d + b'0') 0 ne)
      (atoi_loop-value fuel mem str (i + 1) _ (n * 10 + d) ds (omega (arith, lt)) g.1
        (subst (λ a. Stored mem a (decimal ds)) (omega arith) c) (omega (arith, r)))

-- `atoi` of the decimal digits of a number returns it, modulo 2 ^ 32.
pub atoi-decimal :
    (fuel : ℕ) (mem : ℕ → ℕ) (str : ℕ) (ds : List ℕ)
    → length ds < fuel
    → Digits 10 ds
    → Stored mem str (decimal ds)
    → atoi fuel mem str ≡ ok (value 10 0 ds % 2 ^ 32)
unfolding atoi
atoi-decimal fuel mem str ds lt g c =
    atoi_loop-value fuel mem str 0 0 0 ds lt g
      (subst (λ a. Stored mem a (decimal ds)) (omega arith) c) refl

hex_digit_back : (d : ℕ) → d < 16 → hex_base (hex_digit d) + d ≡ hex_digit d
unfolding hex_base
hex_digit_back d lt = ground arith

hex_digit-ne : (d : ℕ) → d < 16 → hex_digit d ≢ 0
hex_digit-ne d lt = ground arith

hex_loop-value :
    (fuel : ℕ) (mem : ℕ → ℕ) (str i res n : ℕ) (ds : List ℕ)
    → length ds < fuel
    → Digits 16 ds
    → Stored mem (str + i) (map hex_digit ds)
    → res ≡ n % 2 ^ 32
    → hex_loop fuel mem str i res ≡ ok (value 16 n ds % 2 ^ 32)
unfolding hex_loop
hex_loop-value zero mem str i res n ds lt g c e = ground (arith, lt)
hex_loop-value (suc fuel) mem str i res n [] lt g c e = rw (hex_loop, c, e) refl
hex_loop-value (suc fuel) mem str i res n (d ∷ ds) lt g (e, ne, c) r =
    rw (hex_loop, e, ne→== (hex_digit d) 0 ne)
      (hex_loop-value fuel mem str (i + 1) _ (n * 16 + d) ds (omega (arith, lt)) g.1
        (subst (λ a. Stored mem a (map hex_digit ds)) (omega arith) c)
        (omega (arith, r, hex_digit_back d g.0)))

-- `myHex2Int` of the hexadecimal digits of a number, in lower case, returns it, modulo 2 ^ 32.
pub my_hex2_int-lower :
    (fuel : ℕ) (mem : ℕ → ℕ) (str : ℕ) (ds : List ℕ)
    → length ds < fuel
    → Digits 16 ds
    → Stored mem str (map hex_digit ds)
    → my_hex2_int fuel mem str ≡ ok (value 16 0 ds % 2 ^ 32)
unfolding my_hex2_int
my_hex2_int-lower fuel mem str ds lt g c =
    hex_loop-value fuel mem str 0 0 0 ds lt g
      (subst (λ a. Stored mem a (map hex_digit ds)) (omega arith) c) refl
