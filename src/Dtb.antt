-- ===== src/Dtb.antt =====
-- lib/dtb.c: the walk over a flattened device tree. Memory is a function from addresses to bytes,
-- and the calls of the callback are collected in order.
pub mod Endian
pub mod Traverse
mod Tests
use bare_metal_os_kernel.Base.{
  ℕ, zero, suc, ◌+◌, ◌-◌, ◌*◌, ◌/◌, ◌%◌, ◌^◌, Bool, true, false, ◌&&◌, List, [], ◌∷◌, Run, ok,
  out_of_fuel, ◌>>=◌, pos, int_eq, ltb, ◌==◌, if◌then◌else◌,
}
use bare_metal_os_kernel.Strings.{strlen}
use bare_metal_os_kernel.Strings.Compare.{compare_strings}

abbrev pub fdt_begin_node : ℕ
fdt_begin_node = 1

abbrev pub fdt_prop : ℕ
fdt_prop = 3

-- The four bytes of a word in the other order: the parts that are or-ed have no bit in common.
unfoldable pub little2big : ℕ → ℕ
little2big str =
    (str / 2 ^ 24) % 2 ^ 8
    + (str / 2 ^ 8) % 2 ^ 8 * 2 ^ 16
    + (str / 2 ^ 16) % 2 ^ 8 * 2 ^ 8
    + str % 2 ^ 8 * 2 ^ 24

-- `*(uint32_t*)pointer` on a little-endian machine.
unfoldable pub load_word : (mem : ℕ → ℕ) → (pointer : ℕ) → ℕ
load_word mem pointer =
    mem pointer
    + mem (pointer + 1) * 2 ^ 8
    + mem (pointer + 2) * 2 ^ 16
    + mem (pointer + 3) * 2 ^ 24

abbrev pub field : (mem : ℕ → ℕ) → (pointer : ℕ) → ℕ
field mem pointer = little2big (load_word mem pointer)

-- The arguments of the callback.
pub record Call : Type 0 where
  pub node_type : ℕ
  pub name : ℕ
  pub value : ℕ
  pub name_size : ℕ

-- `pointer += 4 - pointer%4`, and the same where `pointer%4` is not 0.
abbrev pub after_name : ℕ → ℕ
after_name pointer = pointer + (4 - pointer % 4)

abbrev pub after_value : ℕ → ℕ
after_value pointer = if (pointer % 4) == 0 then pointer else pointer + (4 - pointer % 4)

unfoldable pub fdt_loop :
    (fuel string_fuel : ℕ) → (mem : ℕ → ℕ) → (dt_strings_ptr end_ptr pointer : ℕ) → Run (List Call)
fdt_loop zero string_fuel mem dt_strings_ptr end_ptr pointer = out_of_fuel
fdt_loop (suc fuel) string_fuel mem dt_strings_ptr end_ptr pointer =
    let at = pointer + 4 in
    let len = field mem at in
    elim (ltb pointer end_ptr) [
      | false ↦ ok []
      | true ↦ elim (field mem pointer == fdt_begin_node) [
        | true ↦ do
          n ← strlen string_fuel mem at
          calls ← fdt_loop fuel string_fuel mem dt_strings_ptr end_ptr (after_name (at + n))
          ok (record { node_type = fdt_begin_node; name = at; value = 0; name_size = 0 } ∷ calls)
        | false ↦ elim (field mem pointer == fdt_prop) [
          | true ↦ do
            calls ←
                fdt_loop fuel string_fuel mem dt_strings_ptr end_ptr (after_value (at + 8 + len))
            ok (
                record {
                  node_type = fdt_prop;
                  name = dt_strings_ptr + field mem (at + 4);
                  value = at + 8;
                  name_size = len;
                }
                ∷ calls)
          | false ↦ fdt_loop fuel string_fuel mem dt_strings_ptr end_ptr at
        ]
      ]
    ]

-- The calls and the new `dtb_size`, which stays where the magic number is wrong. The offsets are
-- those of the fields in `fdt_header`.
unfoldable pub fdt_traverse :
    (fuel string_fuel : ℕ) → (mem : ℕ → ℕ) → (dtb_place dtb_size : ℕ) → Run (List Call × ℕ)
fdt_traverse fuel string_fuel mem header dtb_size =
    let struct_size = field mem (header + 36) in
    let dt_struct_ptr = header + field mem (header + 8) in
    let dt_strings_ptr = header + field mem (header + 12) in
    elim (field mem header == 0xd00dfeed) [
      | false ↦ ok ([], dtb_size)
      | true ↦ do
        calls ←
            fdt_loop fuel string_fuel mem dt_strings_ptr (dt_struct_ptr + struct_size) dt_struct_ptr
        ok (calls, struct_size)
    ]

-- `CPIO_DEFAULT_PLACE` and `CPIO_DEFAULT_PLACE_END`.
pub record Places : Type 0 where
  pub cpio_default_place : ℕ
  pub cpio_default_place_end : ℕ

abbrev pub initrd_start : List ℕ
initrd_start =
    b'l' ∷ b'i' ∷ b'n' ∷ b'u' ∷ b'x' ∷ b',' ∷ b'i' ∷ b'n' ∷ b'i' ∷ b't' ∷ b'r' ∷ b'd' ∷ b'-' ∷ b's'
    ∷ b't' ∷ b'a' ∷ b'r' ∷ b't' ∷ []

abbrev pub initrd_end : List ℕ
initrd_end =
    b'l' ∷ b'i' ∷ b'n' ∷ b'u' ∷ b'x' ∷ b',' ∷ b'i' ∷ b'n' ∷ b'i' ∷ b't' ∷ b'r' ∷ b'd' ∷ b'-' ∷ b'e'
    ∷ b'n' ∷ b'd' ∷ []

-- The name is given by its characters.
unfoldable pub initramfs_callback :
    (mem : ℕ → ℕ) → (node_type : ℕ) → (name : List ℕ) → (value : ℕ) → Places → Places
initramfs_callback mem node_type name value s =
    let s1 =
      if (node_type == fdt_prop) && int_eq (compare_strings name initrd_start) (pos 0)
      then record s { cpio_default_place = field mem value }
      else s in
    if (node_type == fdt_prop) && int_eq (compare_strings name initrd_end) (pos 0)
    then record s1 { cpio_default_place_end = field mem value }
    else s1
