-- ===== src/Strings.antt =====
-- lib/string.c. Memory is a function from addresses to bytes, a pointer is an address, and a `char`
-- is unsigned. An `int` is its 32-bit pattern.
pub mod Stored
pub mod Compare
pub mod Copy
pub mod Number
pub mod Append
pub mod Text
pub mod Tokens
mod Tests
use bare_metal_os_kernel.Base.{
  ℕ, zero, suc, ◌+◌, ◌-◌, ◌*◌, ◌%◌, ◌^◌, Bool, true, false, ◌&&◌, Run, ok, out_of_fuel, ◌>>=◌, ℤ,
  sub_ℕ, ltb, ◌==◌, if◌then◌else◌, update,
}

unfoldable pub memset_ : (mem : ℕ → ℕ) → (str c len : ℕ) → ℕ → ℕ
memset_ mem ptr c zero = mem
memset_ mem ptr c (suc len) = memset_ (update mem ptr (c % 256)) (ptr + 1) c len

unfoldable pub memcpy_ : (mem : ℕ → ℕ) → (dest src len : ℕ) → ℕ → ℕ
memcpy_ mem dest src zero = mem
memcpy_ mem dest src (suc len) = memcpy_ (update mem dest (mem src)) (dest + 1) (src + 1) len

unfoldable pub strlen_loop : (fuel : ℕ) → (mem : ℕ → ℕ) → (s i : ℕ) → Run ℕ
strlen_loop zero mem s i = out_of_fuel
strlen_loop (suc fuel) mem s i =
    let rest = strlen_loop fuel mem s (i + 1) in if mem (s + i) == 0 then ok i else rest

unfoldable pub strlen : (fuel : ℕ) → (mem : ℕ → ℕ) → (s : ℕ) → Run ℕ
strlen fuel mem s = strlen_loop fuel mem s 0

-- `while(*src) *dest++ = *src++; *dest='\0';`
unfoldable pub strcpy : (fuel : ℕ) → (mem : ℕ → ℕ) → (dest src : ℕ) → Run (ℕ → ℕ)
strcpy zero mem dest src = out_of_fuel
strcpy (suc fuel) mem dest src = elim (mem src == 0) [
  | true ↦ ok (update mem dest 0)
  | false ↦ strcpy fuel (update mem dest (mem src)) (dest + 1) (src + 1)
]

-- `while((*dest++ = *src++));`
unfoldable pub copy_with_end : (fuel : ℕ) → (mem : ℕ → ℕ) → (dest src : ℕ) → Run (ℕ → ℕ)
copy_with_end zero mem dest src = out_of_fuel
copy_with_end (suc fuel) mem dest src = elim (mem src == 0) [
  | true ↦ ok (update mem dest (mem src))
  | false ↦ copy_with_end fuel (update mem dest (mem src)) (dest + 1) (src + 1)
]

-- `while(*dest++); dest--;`
unfoldable pub end_of : (fuel : ℕ) → (mem : ℕ → ℕ) → (dest : ℕ) → Run ℕ
end_of zero mem dest = out_of_fuel
end_of (suc fuel) mem dest =
    let rest = end_of fuel mem (dest + 1) in if mem dest == 0 then ok dest else rest

unfoldable pub strcat_ : (fuel : ℕ) → (mem : ℕ → ℕ) → (dest src : ℕ) → Run (ℕ → ℕ)
strcat_ fuel mem dest src = do at ← end_of fuel mem dest; copy_with_end fuel mem at src

unfoldable pub strcmp : (fuel : ℕ) → (mem : ℕ → ℕ) → (x y : ℕ) → Run ℤ
strcmp zero mem x y = out_of_fuel
strcmp (suc fuel) mem x y = elim (mem x == 0) [
  | true ↦ ok (sub_ℕ (mem x) (mem y))
  | false ↦ elim (mem x == mem y) [
    | false ↦ ok (sub_ℕ (mem x) (mem y))
    | true ↦ strcmp fuel mem (x + 1) (y + 1)
  ]
]

unfoldable pub append_str : (fuel : ℕ) → (mem : ℕ → ℕ) → (s ch : ℕ) → Run (ℕ → ℕ)
append_str fuel mem s ch = do
  i ← strlen fuel mem s
  ok (update (update mem (s + i) ch) (s + i + 1) 0)

-- With an empty string it writes the byte before `s`.
unfoldable pub pop_str : (fuel : ℕ) → (mem : ℕ → ℕ) → (s : ℕ) → Run (ℕ → ℕ)
pop_str fuel mem s = do i ← strlen fuel mem s; ok (update mem (s + i - 1) 0)

unfoldable pub atoi_loop : (fuel : ℕ) → (mem : ℕ → ℕ) → (str i res : ℕ) → Run ℕ
atoi_loop zero mem str i res = out_of_fuel
atoi_loop (suc fuel) mem str i res =
    let rest =
      atoi_loop fuel mem str (i + 1) ((res * 10 + mem (str + i) + 2 ^ 32 - b'0') % 2 ^ 32) in
    if mem (str + i) == 0 then ok res else rest

unfoldable pub atoi : (fuel : ℕ) → (mem : ℕ → ℕ) → (str : ℕ) → Run ℕ
atoi fuel mem str = atoi_loop fuel mem str 0 0

-- What is taken off a character: 0x57 for `a` to `f`, 0x37 for `A` to `F`, and 0x30 otherwise.
unfoldable pub hex_base : ℕ → ℕ
hex_base c =
    if ltb 0x60 c && ltb c 0x67 then 0x57 else if ltb 0x40 c && ltb c 0x47 then 0x37 else b'0'

unfoldable pub hex_loop : (fuel : ℕ) → (mem : ℕ → ℕ) → (str i res : ℕ) → Run ℕ
hex_loop zero mem str i res = out_of_fuel
hex_loop (suc fuel) mem str i res =
    let c = mem (str + i) in
    let rest = hex_loop fuel mem str (i + 1) ((res * 16 + c + 2 ^ 32 - hex_base c) % 2 ^ 32) in
    if c == 0 then ok res else rest

unfoldable pub my_hex2_int : (fuel : ℕ) → (mem : ℕ → ℕ) → (str : ℕ) → Run ℕ
my_hex2_int fuel mem str = hex_loop fuel mem str 0 0
