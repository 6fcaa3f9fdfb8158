-- ===== src/Alloc/ChunkSize.antt =====
-- The chunk size that `malloc_` of lib/malloc.c rounds a request to.
use native.Mathlib.Decide.{dec_lt}
use native.Mathlib.Numerals.{add-one}
use bare_metal_os_kernel.Base.{
  ℕ, ◌+◌, ◌-◌, ◌*◌, ◌%◌, ◌^◌, ◌≤◌, ◌<◌, ◌≡◌, ap, ok, pos, int_suc, ltb, if◌then◌else◌, arith,
  lt→ltb, le→ltb,
}
use bare_metal_os_kernel.Alloc.Sizes.{capped, chunk_size, page_max_order}
use bare_metal_os_kernel.Alloc.Bounds.{pow_mono, pow_succ, floor_log, log2-pow, power2-pow}

-- `if (size < 8) size = 8;`
abbrev at_least_eight : ℕ → ℕ
at_least_eight asked = if ltb asked 8 then 8 else asked

-- `if (size > 0x800) size *= 2;`
abbrev doubled : ℕ → ℕ
doubled rounded = if ltb 0x800 rounded then rounded * 2 else rounded

chunk_size-pow :
    (asked n m : ℕ)
    → n < 30
    → m < 31
    → 2 ^ n ≤ at_least_eight asked - 1
    → at_least_eight asked - 1 < 2 ^ (n + 1)
    → int_suc (capped (n + 1)) ≡ pos m
    → chunk_size asked ≡ ok (doubled (2 ^ m))
unfolding chunk_size
chunk_size-pow asked n m small bound lo hi e =
    let top = pow_mono (n + 1) 30 (omega arith) in
    let whole : (at_least_eight asked - 1) % 2 ^ 32 ≡ at_least_eight asked - 1 = omega arith in
    rw (whole, log2-pow n _ small lo hi, e, power2-pow m (omega arith))

capped_small : (n : ℕ) → n ≤ page_max_order → int_suc (capped (n + 1)) ≡ pos (n + 1)
capped_small n h = rw (add-one n, le→ltb page_max_order n h) (ap pos (add-one n))

capped_big : (n : ℕ) → page_max_order < n → int_suc (capped (n + 1)) ≡ pos 17
capped_big n h = rw (add-one n, lt→ltb page_max_order n h)

-- What `malloc_` promises of the size `c` that it rounds to: a chunk of a shared page, of at least
-- 8 bytes and less than twice what is asked, or a chunk that leaves as much room again.
abbrev pub IsChunkFor : ℕ → ℕ → Type 0
IsChunkFor asked c =
    (8 ≤ c)
    × (asked ≤ c)
    × ((asked ≤ 0x800) → (c ≤ 0x800) × ((8 < asked) → c < 2 * asked))
    × ((0x800 < asked) → 2 * asked ≤ c)

doubled-IsChunkFor :
    (asked n : ℕ)
    → 2 ^ n ≤ at_least_eight asked - 1
    → at_least_eight asked - 1 < 2 ^ (n + 1)
    → (asked ≤ 0x800 → 2 ^ (n + 1) ≤ 0x800)
    → IsChunkFor asked (doubled (2 ^ (n + 1)))
doubled-IsChunkFor asked n lo hi small = (
  ground (arith, pow_succ n),
  ground (arith, pow_succ n),
  λ h. (ground (arith, small h), λ more. ground (arith, pow_succ n, small h)),
  λ h. ground (arith, pow_succ n),
)

power_small : (n v : ℕ) → 2 ^ n ≤ v → v < 0x800 → 2 ^ (n + 1) ≤ 0x800
power_small n v lo hi = elim (dec_lt n 11) [
  | yes lt ↦ pow_mono (n + 1) 11 (omega arith)
  | no ge ↦ absurd (omega (arith, pow_mono 11 n (omega arith)))
]

chunk_size-floor :
    (asked : ℕ)
    → (n : ℕ) × (n < 17)
      × (2 ^ n ≤ at_least_eight asked - 1)
      × (at_least_eight asked - 1 < 2 ^ (n + 1))
    → (c : ℕ) × (chunk_size asked ≡ ok c) × IsChunkFor asked c
chunk_size-floor asked (n, small, lo, hi) = (
  doubled (2 ^ (n + 1)),
  chunk_size-pow asked n (n + 1) (omega arith) (omega arith) lo hi (capped_small n (omega arith)),
  doubled-IsChunkFor asked n lo hi (λ h. power_small n _ lo (ground arith)),
)

-- A request of at most 2 ^ 17 bytes is rounded to a size of at least 8 bytes that holds it. Up to
-- 0x800 bytes the size is at most 0x800 and, above 8 bytes, less than twice the request; beyond
-- 0x800 it is at least twice the request, so that the page's header fits in front of the chunk.
pub chunk_size-IsChunkFor :
    (asked : ℕ) → asked ≤ 2 ^ 17 → (c : ℕ) × (chunk_size asked ≡ ok c) × IsChunkFor asked c
chunk_size-IsChunkFor asked h =
    chunk_size-floor asked (floor_log 17 (at_least_eight asked - 1) (ground arith) (ground arith))

chunk_size_capped :
    (asked : ℕ)
    → 2 ^ 18 < asked
    → (n : ℕ) × (n < 30)
      × (2 ^ n ≤ at_least_eight asked - 1)
      × (at_least_eight asked - 1 < 2 ^ (n + 1))
    → chunk_size asked ≡ ok (2 ^ 18)
chunk_size_capped asked h (n, small, lo, hi) = elim (dec_lt 16 n) [
  | yes big ↦ chunk_size-pow asked n 17 small (omega arith) lo hi (capped_big n big)
  | no low ↦ absurd (ground (arith, pow_mono (n + 1) 17 (omega arith)))
]

-- Because `log2` stops at `PAGE_MAX_ORDER`, a request of more than 2 ^ 18 bytes (and less than
-- 2 ^ 30) is rounded down: the chunk is smaller than what was asked for.
pub chunk_size_short :
    (asked : ℕ)
    → 2 ^ 18 < asked
    → asked < 2 ^ 30
    → (c : ℕ) × (chunk_size asked ≡ ok c) × (c < asked)
chunk_size_short asked lo hi = (
  2 ^ 18,
  chunk_size_capped asked lo
      (floor_log 30 (at_least_eight asked - 1) (ground arith) (ground arith)),
  lo,
)
