-- ===== src/Dtb/Tests.antt =====
-- The theorems on lib/dtb.c at a small device tree.
use bare_metal_os_kernel.Base.{ℕ, zero, suc, ◌≡◌, refl, List, [], ◌∷◌, ok, arith}
use bare_metal_os_kernel.Dtb.{little2big, load_word, fdt_traverse, initramfs_callback, initrd_start}
use bare_metal_os_kernel.Dtb.Traverse.{
  Token, begin_node, prop, skipped, Encoded, fdt_traverse-Encoded,
}

-- A byte of memory, by its place in a list.
abbrev byte_at : List ℕ → ℕ → ℕ
byte_at [] i = 0
byte_at (b ∷ bs) zero = b
byte_at (b ∷ bs) (suc i) = byte_at bs i

-- The header, and at 40 a node "a" with a property of two bytes, and the end of the node.
abbrev tree : ℕ → ℕ
tree = byte_at (
    0xd0 ∷ 0x0d ∷ 0xfe ∷ 0xed ∷ 0 ∷ 0 ∷ 0 ∷ 72 ∷ 0 ∷ 0 ∷ 0 ∷ 40 ∷ 0 ∷ 0 ∷ 0 ∷ 72 ∷ 0 ∷ 0 ∷ 0 ∷ 0 ∷ 0
    ∷ 0 ∷ 0 ∷ 0 ∷ 0 ∷ 0 ∷ 0 ∷ 0 ∷ 0 ∷ 0 ∷ 0 ∷ 0 ∷ 0 ∷ 0 ∷ 0 ∷ 0 ∷ 0 ∷ 0 ∷ 0 ∷ 28 ∷ 0 ∷ 0 ∷ 0 ∷ 1
    ∷ b'a' ∷ 0 ∷ 0 ∷ 0 ∷ 0 ∷ 0 ∷ 0 ∷ 3 ∷ 0 ∷ 0 ∷ 0 ∷ 2 ∷ 0 ∷ 0 ∷ 0 ∷ 5 ∷ 7 ∷ 8 ∷ 0 ∷ 0 ∷ 0 ∷ 0 ∷ 0
    ∷ 2 ∷ [])

abbrev tokens : List Token
tokens = begin_node (b'a' ∷ []) ∷ prop 2 5 ∷ skipped 2 ∷ []

tokens-Encoded : Encoded tree 40 68 tokens
tokens-Encoded = (
  (omega arith, refl, refl, refl, refl),
  (refl, omega arith, refl),
  (
    (omega arith, refl, refl, refl, refl),
    (omega arith, refl, refl, refl, refl),
    (omega arith, refl, refl, refl, refl),
    ((omega arith, refl, refl, refl, refl), omega arith, omega arith, refl),
  ),
)

fdt_traverse-Encoded_example :
    fdt_traverse 4 2 tree 0 0
    ≡ ok (
      record { node_type = 1; name = 44; value = 0; name_size = 0 }
          ∷ record { node_type = 3; name = 77; value = 60; name_size = 2 }
          ∷ [],
      28,
    )
fdt_traverse-Encoded_example =
    fdt_traverse-Encoded 4 2 tree 0 0 40 72 28 tokens (omega arith, refl, refl, refl, refl)
      (omega arith, refl, refl, refl, refl) (omega arith, refl, refl, refl, refl)
      (omega arith, refl, refl, refl, refl) (omega arith) (omega arith, tt) tokens-Encoded

initramfs_callback-start :
    initramfs_callback tree 3 initrd_start 0
      (record { cpio_default_place = 0; cpio_default_place_end = 0 })
    ≡ record { cpio_default_place = 0xd00dfeed; cpio_default_place_end = 0 }
unfolding initramfs_callback little2big load_word
initramfs_callback-start = refl
