-- ===== src/Cpio.antt =====
-- The walk over the archive in lib/cpio.c. The archive lies in memory; the buffer of `read_header`,
-- which is on the stack, lies at `a`, and what it holds at the start is what memory holds there.
pub mod Digits
pub mod Header
pub mod Archive
pub mod Load
mod Tests
use bare_metal_os_kernel.Base.{
  ℕ, zero, suc, ◌+◌, ◌-◌, ◌*◌, ◌%◌, ◌^◌, Bool, true, false, ◌&&◌, not, Option, none, some, List, [],
  ◌∷◌, Run, ok, fault, out_of_fuel, ◌>>=◌, ltb, ◌==◌, if◌then◌else◌, update,
}
use bare_metal_os_kernel.Strings.Text.{c_string}
use bare_metal_os_kernel.Strings.{append_str, my_hex2_int, memcpy_}
use bare_metal_os_kernel.Files.Directory.{same_name}
use bare_metal_os_kernel.Vfs.Mount.{CpioFile}

-- `append_str(a, *(str+i))` for `n` characters from `str` on.
unfoldable pub append_loop : (fuel n : ℕ) → (a str : ℕ) → (mem : ℕ → ℕ) → Run (ℕ → ℕ)
append_loop fuel zero a str mem = ok mem
append_loop fuel (suc n) a str mem = do
  mem1 ← append_str fuel mem a (mem str)
  append_loop fuel n a (str + 1) mem1

-- `a[1] = 0` comes first: the string in the buffer starts with what `a[0]` holds.
unfoldable pub read_header : (fuel a str size : ℕ) → (mem : ℕ → ℕ) → Run (ℕ × (ℕ → ℕ))
read_header fuel a str size mem = do
  mem1 ← append_loop fuel size a str (update mem (a + 1) 0)
  value ← my_hex2_int fuel mem1 a
  ok (value, mem1)

abbrev pub trailer : List ℕ
trailer = b'T' ∷ b'R' ∷ b'A' ∷ b'I' ∷ b'L' ∷ b'E' ∷ b'R' ∷ b'!' ∷ b'!' ∷ b'!' ∷ []

-- Up to the next multiple of 4.
abbrev pub aligned : ℕ → ℕ
aligned n = if n % 4 == 0 then n else n + (4 - n % 4)

-- A header's two sizes, and memory after the calls. An `int` below 0 would lead out of the archive,
-- and one that the alignment takes past the largest `int` is undefined.
unfoldable pub read_sizes : (fuel a header : ℕ) → (mem : ℕ → ℕ) → Run (ℕ × ℕ × (ℕ → ℕ))
read_sizes fuel a header mem = do
  (namesize, mem1) ← read_header fuel a (header + 94) 8 mem
  (filesize, mem2) ← read_header fuel a (header + 54) 8 mem1
  if ltb (namesize + 114) (2 ^ 31) && ltb (filesize + 3) (2 ^ 31)
      then ok (namesize, filesize, mem2)
      else fault

-- The list of `cpio_file_ll`, in the order of the archive.
unfoldable pub parse_loop : (n fuel a header : ℕ) → (mem : ℕ → ℕ) → Run (List CpioFile × (ℕ → ℕ))
parse_loop zero fuel a header mem = out_of_fuel
parse_loop (suc n) fuel a header mem = do
  name ← c_string fuel mem (header + 110)
  elim (same_name name trailer) [
    | true ↦ ok ([], mem)
    | false ↦ do
      (namesize, filesize, mem1) ← read_sizes fuel a header mem
      let padded = aligned (namesize + 110)
      (files, mem2) ← parse_loop n fuel a (header + padded + aligned filesize) mem1
      ok (
        record { pathname = name; file_size = aligned filesize; data_ptr = header + padded }
            ∷ files,
        mem2,
      )
  ]

-- Of an archive without files the last write goes through a pointer that is not set.
unfoldable pub cpio_parse : (n fuel a place : ℕ) → (mem : ℕ → ℕ) → Run (List CpioFile × (ℕ → ℕ))
cpio_parse n fuel a place mem = do
  (files, mem1) ← parse_loop n fuel a place mem
  elim files [ [] ↦ fault | file ∷ rest ↦ ok (file ∷ rest, mem1) ]

abbrev pub user_program_space : ℕ
user_program_space = 0x900000

abbrev pub user_program_max_size : ℕ
user_program_max_size = 0x500000

-- The size of the name is rounded up to an even number first.
abbrev pub even : ℕ → ℕ
even n = n + n % 2

-- The data and the size of the first file of this name that is not empty.
unfoldable pub find_file :
    (n fuel a header : ℕ) → (name : List ℕ) → (mem : ℕ → ℕ) → Run (Option (ℕ × ℕ) × (ℕ → ℕ))
find_file zero fuel a header name mem = out_of_fuel
find_file (suc n) fuel a header name mem = do
  here_ ← c_string fuel mem (header + 110)
  elim (same_name here_ trailer) [
    | true ↦ ok (none, mem)
    | false ↦ do
      (namesize, filesize, mem1) ← read_sizes fuel a header mem
      let data_at = header + aligned (even namesize + 110)
      let size = aligned filesize
      elim (same_name here_ name && not (size == 0)) [
        | true ↦ ok (some (data_at, size), mem1)
        | false ↦ find_file n fuel a (data_at + size) name mem1
      ]
  ]

-- The address of the program, or 0.
unfoldable pub load_it : (found : Option (ℕ × ℕ)) → (mem : ℕ → ℕ) → ℕ × (ℕ → ℕ)
load_it none mem = (0, mem)
load_it (some (data_at, size)) mem =
    if ltb user_program_max_size size
    then (0, mem)
    else (user_program_space, memcpy_ mem user_program_space data_at size)

unfoldable pub load_program :
    (n fuel a place : ℕ) → (name : List ℕ) → (mem : ℕ → ℕ) → Run (ℕ × (ℕ → ℕ))
load_program n fuel a place name mem = do
  (found, mem1) ← find_file n fuel a place name mem
  ok (load_it found mem1)
