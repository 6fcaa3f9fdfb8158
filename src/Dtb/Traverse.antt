-- ===== src/Dtb/Traverse.antt =====
-- `fdt_traverse` of lib/dtb.c on a well-formed device tree.
use bare_metal_os_kernel.Base.{
  ℕ, zero, suc, ◌+◌, ◌*◌, ◌/◌, ◌≤◌, ◌<◌, ◌≡◌, ◌≢◌, refl, ap, ◌∙◌, List, [], ◌∷◌, length, ok, lt→ltb,
  le→ltb, ne→==, arith,
}
use bare_metal_os_kernel.Dtb.{Call, field, after_name, after_value, fdt_loop, fdt_traverse}
use bare_metal_os_kernel.Dtb.Endian.{Word, field-Word}
use bare_metal_os_kernel.Strings.Stored.{Stored, strlen-Stored}

-- A token of the structure block: a node with its name, a property of `len` bytes whose name is at
-- an offset, or a word that the walk skips.
pub data Token : Type 0 where
  begin_node : List ℕ → Token
  prop : (len nameoff : ℕ) → Token
  skipped : ℕ → Token

-- Names and values are filled up to the next multiple of 4.
abbrev pub up4 : ℕ → ℕ
up4 n = (n + 3) / 4 * 4

-- From `p` to `q` stand the tokens: a 1, and the name with the 0 at its end; a 3, the length of the
-- value, the offset of the name and the value; or another number.
abbrev pub Encoded : (mem : ℕ → ℕ) → (p q : ℕ) → List Token → Type 0
Encoded mem p q [] = p ≡ q
Encoded mem p q (begin_node name ∷ ts) =
    Word mem p 1 × Stored mem (p + 4) name × Encoded mem (up4 (p + 4 + length name + 1)) q ts
Encoded mem p q (prop len nameoff ∷ ts) =
    Word mem p 3
    × Word mem (p + 4) len
    × Word mem (p + 8) nameoff
    × Encoded mem (up4 (p + 12 + len)) q ts
Encoded mem p q (skipped t ∷ ts) = Word mem p t × (t ≢ 1) × (t ≢ 3) × Encoded mem (p + 4) q ts

abbrev pub NamesBelow : (fuel : ℕ) → List Token → Type 0
NamesBelow fuel [] = Unit {0}
NamesBelow fuel (begin_node name ∷ ts) = (length name < fuel) × NamesBelow fuel ts
NamesBelow fuel (prop len nameoff ∷ ts) = NamesBelow fuel ts
NamesBelow fuel (skipped t ∷ ts) = NamesBelow fuel ts

-- The calls for the tokens from `p` on.
abbrev pub calls_for : (strings p : ℕ) → List Token → List Call
calls_for strings p [] = []
calls_for strings p (begin_node name ∷ ts) =
    record { node_type = 1; name = p + 4; value = 0; name_size = 0 }
    ∷ calls_for strings (up4 (p + 4 + length name + 1)) ts
calls_for strings p (prop len nameoff ∷ ts) =
    record { node_type = 3; name = strings + nameoff; value = p + 12; name_size = len }
    ∷ calls_for strings (up4 (p + 12 + len)) ts
calls_for strings p (skipped t ∷ ts) = calls_for strings (p + 4) ts

Encoded-le : (mem : ℕ → ℕ) (p q : ℕ) (ts : List Token) → Encoded mem p q ts → p ≤ q
Encoded-le mem p q [] e = omega (arith, e)
Encoded-le mem p q (begin_node name ∷ ts) (t, s, e) =
    omega (arith, Encoded-le mem (up4 (p + 4 + length name + 1)) q ts e)
Encoded-le mem p q (prop len nameoff ∷ ts) (t, l, n, e) =
    omega (arith, Encoded-le mem (up4 (p + 12 + len)) q ts e)
Encoded-le mem p q (skipped t ∷ ts) (e0, n1, n3, e) = omega (arith, Encoded-le mem (p + 4) q ts e)

Encoded-lt :
    (mem : ℕ → ℕ) (p q : ℕ) (t : Token) (ts : List Token) → Encoded mem p q (t ∷ ts) → p < q
Encoded-lt mem p q (begin_node name) ts (t, s, e) =
    omega (arith, Encoded-le mem (up4 (p + 4 + length name + 1)) q ts e)
Encoded-lt mem p q (prop len nameoff) ts (t, l, n, e) =
    omega (arith, Encoded-le mem (up4 (p + 12 + len)) q ts e)
Encoded-lt mem p q (skipped t) ts (e0, n1, n3, e) = omega (arith, Encoded-le mem (p + 4) q ts e)

after_name-up4 : (p : ℕ) → after_name p ≡ up4 (p + 1)
after_name-up4 p = omega arith

after_value-up4 : (p len : ℕ) → after_value (p + 4 + 8 + len) ≡ up4 (p + 12 + len)
after_value-up4 p len = ground arith

fdt_loop-Encoded :
    (fuel string_fuel : ℕ) (mem : ℕ → ℕ) (strings q p : ℕ) (ts : List Token)
    → length ts < fuel
    → NamesBelow string_fuel ts
    → Encoded mem p q ts
    → fdt_loop fuel string_fuel mem strings q p ≡ ok (calls_for strings p ts)
unfolding fdt_loop
fdt_loop-Encoded zero sf mem strings q p ts lt names e = ground (arith, lt)
fdt_loop-Encoded (suc fuel) sf mem strings q p [] lt names e =
    rw (fdt_loop, le→ltb p q (omega (arith, e))) refl
fdt_loop-Encoded (suc fuel) sf mem strings q p (begin_node name ∷ ts) lt names e =
    let rest =
      ap (fdt_loop fuel sf mem strings q) (after_name-up4 (p + 4 + length name))
      ∙ fdt_loop-Encoded fuel sf mem strings q (up4 (p + 4 + length name + 1)) ts
          (omega (arith, lt)) names.1 e.2 in
    rw
      (
        fdt_loop,
        lt→ltb p q (Encoded-lt mem p q (begin_node name) ts e),
        field-Word mem p 1 e.0,
        strlen-Stored sf mem (p + 4) name names.0 e.1,
        rest,
      )
      refl
fdt_loop-Encoded (suc fuel) sf mem strings q p (prop len nameoff ∷ ts) lt names e =
    let rest =
      ap (fdt_loop fuel sf mem strings q) (after_value-up4 p len)
      ∙ fdt_loop-Encoded fuel sf mem strings q (up4 (p + 12 + len)) ts (omega (arith, lt)) names
          e.3 in
    let offset : field mem (p + 4 + 4) ≡ nameoff =
      ap (field mem) (omega arith) ∙ field-Word mem (p + 8) nameoff e.2 in
    rw
      (
        fdt_loop,
        lt→ltb p q (Encoded-lt mem p q (prop len nameoff) ts e),
        field-Word mem p 3 e.0,
        field-Word mem p 3 e.0,
        field-Word mem (p + 4) len e.1,
        offset,
        rest,
      )
      (ap
        (λ v. ok (
          record { node_type = 3; name = strings + nameoff; value = v; name_size = len }
          ∷ calls_for strings (up4 (p + 12 + len)) ts))
        (omega arith))
fdt_loop-Encoded (suc fuel) sf mem strings q p (skipped t ∷ ts) lt names e =
    rw
      (
        fdt_loop,
        lt→ltb p q (Encoded-lt mem p q (skipped t) ts e),
        field-Word mem p t e.0,
        ne→== t 1 e.1,
        field-Word mem p t e.0,
        ne→== t 3 e.2,
      )
      (fdt_loop-Encoded fuel sf mem strings q (p + 4) ts (omega (arith, lt)) names e.3)

-- Where memory at `header` holds the magic number and, at 8, 12 and 36, the offsets of the
-- structure and the strings and the size of the structure, as big-endian words, and the structure
-- holds the tokens `ts`, with names and values filled up to multiples of 4, `fdt_traverse` with
-- fuel for the tokens and their names returns: it has called the callback once for each node and
-- each property in order, with the addresses of its name and value, and has set `dtb_size` to the
-- size of the structure.
pub fdt_traverse-Encoded :
    (fuel string_fuel : ℕ) (mem : ℕ → ℕ) (header dtb_size structure strings size : ℕ)
    (ts : List Token)
    → Word mem header 0xd00dfeed
    → Word mem (header + 8) structure
    → Word mem (header + 12) strings
    → Word mem (header + 36) size
    → length ts < fuel
    → NamesBelow string_fuel ts
    → Encoded mem (header + structure) (header + structure + size) ts
    → fdt_traverse fuel string_fuel mem header dtb_size
      ≡ ok (calls_for (header + strings) (header + structure) ts, size)
unfolding fdt_traverse
fdt_traverse-Encoded fuel sf mem header dtb_size structure strings size ts magic at_8 at_12 at_36 lt
      names e =
    rw
      (
        fdt_traverse,
        field-Word mem header 0xd00dfeed magic,
        field-Word mem (header + 8) structure at_8,
        field-Word mem (header + 12) strings at_12,
        field-Word mem (header + 36) size at_36,
        fdt_loop-Encoded fuel sf mem (header + strings) (header + structure + size)
            (header + structure) ts lt names e,
      )
      refl
