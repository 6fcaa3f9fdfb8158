-- ===== src/Dtb/Endian.antt =====
-- `little2big` of lib/dtb.c and the words of a device tree.
use bare_metal_os_kernel.Base.{ℕ, ◌+◌, ◌*◌, ◌/◌, ◌%◌, ◌^◌, ◌<◌, ◌≡◌, arith}
use bare_metal_os_kernel.Dtb.{little2big, load_word, field}

-- `little2big` undoes itself on 32-bit words.
pub little2big-little2big : (v : ℕ) → v < 2 ^ 32 → little2big (little2big v) ≡ v
unfolding little2big
little2big-little2big v lt = omega arith

-- Of four bytes in memory, the word that `little2big` makes is the one with the first byte highest.
pub field-big_endian :
    (mem : ℕ → ℕ) (p : ℕ)
    → ((i : ℕ) → mem i < 2 ^ 8)
    → field mem p ≡ mem p * 2 ^ 24 + mem (p + 1) * 2 ^ 16 + mem (p + 2) * 2 ^ 8 + mem (p + 3)
unfolding little2big load_word
field-big_endian mem p bytes = omega (arith, bytes p, bytes (p + 1), bytes (p + 2), bytes (p + 3))

-- At `p` stands this number, in four bytes with the highest first.
abbrev pub Word : (mem : ℕ → ℕ) → (p v : ℕ) → Type 0
Word mem p v =
    (v < 2 ^ 32)
    × (mem p ≡ v / 2 ^ 24)
    × (mem (p + 1) ≡ v / 2 ^ 16 % 256)
    × (mem (p + 2) ≡ v / 2 ^ 8 % 256)
    × (mem (p + 3) ≡ v % 256)

pub field-Word : (mem : ℕ → ℕ) (p v : ℕ) → Word mem p v → field mem p ≡ v
unfolding little2big load_word
field-Word mem p v (lt, a, b, c, d) = rw (a, b, c, d) (omega (arith, lt))
