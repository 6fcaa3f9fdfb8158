-- ===== src/Strings/Tests.antt =====
-- The theorems on lib/string.c at a memory with two strings, and runs of its functions.
use bare_metal_os_kernel.Base.{
  ℕ, ◌≡◌, refl, List, [], ◌∷◌, ◌++◌, ok, fault, none, some, Returns, update, arith, inl,
}
use bare_metal_os_kernel.Base.{pos}
use bare_metal_os_kernel.Strings.{strlen, strcat_, strcmp, memset_, memcpy_}
use bare_metal_os_kernel.Strings.Stored.{Stored, strlen-Stored}
use bare_metal_os_kernel.Strings.Compare.{compare_strings, strcmp-decides}
use bare_metal_os_kernel.Strings.Copy.{Written, strcat_-Written}
use bare_metal_os_kernel.Strings.Tokens.{strtok, strtok_from, spilt_strings, cleared}
use bare_metal_os_kernel.Strings.Tokens.Split.{Spilt, spilt_strings-split}

-- "42" at 10 and "4a" at 20.
abbrev memory : ℕ → ℕ
memory = update (update (update (update (λ _. 0) 10 b'4') 11 b'2') 20 b'4') 21 b'a'

abbrev first_string : List ℕ
first_string = b'4' ∷ b'2' ∷ []

abbrev second_string : List ℕ
second_string = b'4' ∷ b'a' ∷ []

first-Stored : Stored memory 10 first_string
first-Stored = (refl, omega arith, (refl, omega arith, refl))

second-Stored : Stored memory 20 second_string
second-Stored = (refl, omega arith, (refl, omega arith, refl))

memset_-fills : memset_ memory 10 0x141 3 11 ≡ 0x41
unfolding memset_
memset_-fills = refl

memcpy_-copies : memcpy_ memory 30 20 2 31 ≡ b'a'
unfolding memcpy_
memcpy_-copies = refl

strlen-first : strlen 3 memory 10 ≡ ok 2
strlen-first = strlen-Stored 3 memory 10 first_string (omega arith) first-Stored

strcmp-decides_example :
    (strcmp 3 memory 10 20 ≡ ok (compare_strings first_string second_string))
    × (compare_strings first_string second_string ≡ pos 0 → first_string ≡ second_string)
    × (first_string ≡ second_string → compare_strings first_string second_string ≡ pos 0)
strcmp-decides_example =
    strcmp-decides 3 memory 10 20 first_string second_string (omega arith) first-Stored
      second-Stored

strcat_-Written_example :
    Returns
      (λ mem'.
        Stored mem' 10 (first_string ++ second_string) × Written memory 12 second_string mem')
      (strcat_ 3 memory 10 20)
strcat_-Written_example =
    strcat_-Written 3 memory 10 20 first_string second_string (omega arith) (omega arith)
      (inl (omega arith)) first-Stored second-Stored

-- "a/b" at 40.
abbrev path_memory : ℕ → ℕ
path_memory = update (update (update (λ _. 0) 40 b'a') 41 b'/') 42 b'b'

spilt_strings-split_example :
    Returns
      (Spilt b'/' 40 (b'a' ∷ b'/' ∷ b'b' ∷ []) path_memory)
      (spilt_strings 5 40 (b'/' ∷ []) path_memory cleared)
spilt_strings-split_example =
    spilt_strings-split 5 b'/' 40 path_memory (b'a' ∷ b'/' ∷ b'b' ∷ []) (omega arith) (omega arith)
      (refl, omega arith, (refl, omega arith, (refl, omega arith, refl)))

strtok_without_string : strtok 5 none (some (b'/' ∷ [])) path_memory cleared ≡ fault
unfolding strtok strtok_from
strtok_without_string = refl
