-- ===== src/Cpio/Tests.antt =====
-- The theorems on lib/cpio.c at an archive of one file, "ab", of one byte, and runs of its loops.
use bare_metal_os_kernel.Base.{
  ℕ, ◌+◌, ◌≡◌, ◌≢◌, refl, List, [], ◌∷◌, Returns, update, arith, inl, inr, ◌⊎◌, ◌<◌,
}
use bare_metal_os_kernel.Cpio.Digits.{AreDigits}
use bare_metal_os_kernel.Strings.{hex_base}
use bare_metal_os_kernel.Cpio.{trailer, read_header, cpio_parse, load_program}
use bare_metal_os_kernel.Cpio.Header.{Field, read_header-Field}
use bare_metal_os_kernel.Cpio.Archive.{Member, Archive, listing, cpio_parse-Archive}
use bare_metal_os_kernel.Cpio.Load.{pick, Loaded, load_program-Loaded}

abbrev written : (at : ℕ) → List ℕ → (ℕ → ℕ) → ℕ → ℕ
written at [] mem = mem
written at (c ∷ cs) mem = written (at + 1) cs (update mem at c)

abbrev one : List ℕ
one = b'0' ∷ b'0' ∷ b'0' ∷ b'0' ∷ b'0' ∷ b'0' ∷ b'0' ∷ b'1' ∷ []

abbrev three : List ℕ
three = b'0' ∷ b'0' ∷ b'0' ∷ b'0' ∷ b'0' ∷ b'0' ∷ b'0' ∷ b'3' ∷ []

abbrev place : ℕ
place = 0xe00000

-- The buffer at 0 holds 'f', a character that nothing has cleared.
abbrev memory : ℕ → ℕ
memory = written (place + 54) one (
    written (place + 94) three (
      written (place + 110) (b'a' ∷ b'b' ∷ []) (
        written (place + 116) (b'x' ∷ [])
          (written (place + 230) trailer (update (λ _. 0) 0 b'f')))))

abbrev member : Member
member = record { name = b'a' ∷ b'b' ∷ []; namesize = 3; filesize = 1 }

one-Field : Field memory (place + 54) one
one-Field = (
  refl,
  omega arith,
  (
    refl,
    omega arith,
    (
      refl,
      omega arith,
      (
        refl,
        omega arith,
        (refl, omega arith, (refl, omega arith, (refl, omega arith, (refl, omega arith, tt)))),
      ),
    ),
  ),
)

three-Field : Field memory (place + 94) three
three-Field = (
  refl,
  omega arith,
  (
    refl,
    omega arith,
    (
      refl,
      omega arith,
      (
        refl,
        omega arith,
        (refl, omega arith, (refl, omega arith, (refl, omega arith, (refl, omega arith, tt)))),
      ),
    ),
  ),
)

archive : Archive memory place (place + 300) (member ∷ [])
unfolding hex_base
archive = (
  record {
    name_at = (refl, omega arith, (refl, omega arith, refl));
    no_trailer = refl;
    name_size = record {
      digits = three;
      eight = refl;
      stands = three-Field;
      stands_for = refl;
      small = omega arith;
    };
    file_size = record {
      digits = one;
      eight = refl;
      stands = one-Field;
      stands_for = refl;
      small = omega arith;
    };
    inside = omega arith;
  },
  (
    (
      refl,
      omega arith,
      (
        refl,
        omega arith,
        (
          refl,
          omega arith,
          (
            refl,
            omega arith,
            (
              refl,
              omega arith,
              (
                refl,
                omega arith,
                (
                  refl,
                  omega arith,
                  (refl, omega arith, (refl, omega arith, (refl, omega arith, refl))),
                ),
              ),
            ),
          ),
        ),
      ),
    ),
    omega arith,
  ),
)

-- "000002aF"
abbrev hex : List ℕ
hex = b'0' ∷ b'0' ∷ b'0' ∷ b'0' ∷ b'0' ∷ b'2' ∷ b'a' ∷ b'F' ∷ []

abbrev hex_digits : List ℕ
hex_digits = 0 ∷ 0 ∷ 0 ∷ 0 ∷ 0 ∷ 2 ∷ 10 ∷ 15 ∷ []

abbrev hex_memory : ℕ → ℕ
hex_memory = written 100 hex (update (λ _. 0) 0 b'f')

hex-Field : Field hex_memory 100 hex
hex-Field = (
  refl,
  omega arith,
  (
    refl,
    omega arith,
    (
      refl,
      omega arith,
      (
        refl,
        omega arith,
        (refl, omega arith, (refl, omega arith, (refl, omega arith, (refl, omega arith, tt)))),
      ),
    ),
  ),
)

hex-AreDigits : AreDigits hex_digits hex
hex-AreDigits = (
  inl (omega arith, refl),
  (
    inl (omega arith, refl),
    (
      inl (omega arith, refl),
      (
        inl (omega arith, refl),
        (
          inl (omega arith, refl),
          (
            inl (omega arith, refl),
            (
              inr (omega arith, omega arith, inl refl),
              (inr (omega arith, omega arith, inr refl), tt),
            ),
          ),
        ),
      ),
    ),
  ),
)

read_header-Field_example :
    Returns
      (λ (r, mem').
        (r ≡ 0x2af)
        × (hex_memory 0 ≢ 0 → mem' (0 + 9) ≡ 0)
        × ((x : ℕ) → (x < 0) ⊎ (0 + 9 < x) → mem' x ≡ hex_memory x))
      (read_header 10 0 100 8 hex_memory)
read_header-Field_example =
    read_header-Field 10 0 100 hex_memory hex_digits hex (omega arith) refl hex-AreDigits
      (inr (omega arith)) hex-Field

cpio_parse-Archive_example :
    Returns
      (λ (files, mem'). files ≡ listing place (member ∷ []))
      (cpio_parse 2 0xe00200 0 place memory)
cpio_parse-Archive_example =
    cpio_parse-Archive 2 0xe00200 0 place (place + 300) member [] memory (omega arith) (omega arith)
      (omega arith) (inr (omega arith)) archive

load_program-Loaded_example :
    Returns
      (λ (r, mem'). Loaded memory mem' r (pick member.name (listing place (member ∷ []))))
      (load_program 2 0xe00200 0 place member.name memory)
load_program-Loaded_example =
    load_program-Loaded 2 0xe00200 0 place (place + 300) member.name (member ∷ []) memory
      (omega arith) (omega arith) (omega arith) (omega arith) (inr (omega arith)) archive
