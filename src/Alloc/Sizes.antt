-- ===== src/Alloc/Sizes.antt =====
-- The arithmetic helpers of lib/malloc.c: `log2`, `power2`, `aling8`, the page order that
-- `page_allocate` asks for and the chunk size that `malloc_` rounds to.
use bare_metal_os_kernel.Base.{
  ℕ, zero, suc, ◌+◌, ◌-◌, ◌*◌, ◌/◌, ◌%◌, ◌^◌, Run, ok, out_of_fuel, ◌>>=◌, ℤ, pos, negsuc, int_suc,
  int_lt, ltb, ◌==◌, if◌then◌else◌,
}

abbrev pub page_size : ℕ
page_size = 0x1000

abbrev pub page_max_order : ℕ
page_max_order = 16

-- `PAGE_MAX_ENTRY`: 0x3c000000 bytes of memory in pages.
abbrev pub page_max_entry : ℕ
page_max_entry = 0x3c000

-- `(--i) > PAGE_MAX_ORDER ? PAGE_MAX_ORDER : i`.
abbrev pub capped : ℕ → ℤ
capped zero = negsuc 0
capped (suc i) = if ltb page_max_order i then pos page_max_order else pos i

-- `ans` and `value` are 32-bit patterns of an `int`; doubling wraps.
unfoldable pub log2_loop : ℕ → (ans value i : ℕ) → Run ℤ
log2_loop zero ans value i = out_of_fuel
log2_loop (suc fuel) ans value i =
    let rest = log2_loop fuel ((ans * 2) % 2 ^ 32) value (i + 1) in
    if int_lt value ans then ok (capped i) else rest

-- After 32 doublings `ans` is 0 and the loop no longer changes anything.
unfoldable pub log2 : ℕ → Run ℤ
unfolding log2_loop
log2 value = log2_loop 33 1 value 0

unfoldable pub power2_loop : ℕ → ℕ → ℕ
power2_loop zero ans = ans
power2_loop (suc n) ans = power2_loop n ((ans * 2) % 2 ^ 32)

-- A negative `value` makes no round.
unfoldable pub power2 : ℤ → ℕ
unfolding power2_loop
power2 (pos n) = power2_loop n 1
power2 (negsuc n) = 1

unfoldable pub aling8 : ℕ → ℕ
aling8 value = if (value % 8) == 0 then value else 8 + value - value % 8

-- `log2((size-1)/0x1000)+1`: the subtraction wraps in 64 bits, and the argument of `log2` is an
-- `int`.
unfoldable pub page_level : ℕ → Run ℤ
page_level size = do l ← log2 (((size + 2 ^ 64 - 1) % 2 ^ 64) / page_size % 2 ^ 32); ok (int_suc l)

-- The first lines of `malloc_`.
unfoldable pub chunk_size : ℕ → Run ℕ
chunk_size asked = do
  let size = if ltb asked 8 then 8 else asked
  l ← log2 ((size - 1) % 2 ^ 32)
  let rounded = power2 (int_suc l)
  ok (if ltb 0x800 rounded then rounded * 2 else rounded)
