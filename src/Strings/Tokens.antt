-- ===== src/Strings/Tokens.antt =====
-- `strtok` and `spilt_strings` of lib/string.c. The delimiter, a constant in every call, is the list
-- of its characters.
pub mod Split
use bare_metal_os_kernel.Base.{
  ℕ, zero, suc, ◌+◌, Bool, true, false, Option, none, some, List, [], ◌∷◌, Run, ok, fault,
  out_of_fuel, ◌>>=◌, ◌==◌, if◌then◌else◌, update,
}
use bare_metal_os_kernel.Strings.{strlen}

-- The static variables of `strtok`.
pub record Tokens : Type 0 where
  pub temp_ptr : Option ℕ
  pub flag : Bool

abbrev pub cleared : Tokens
cleared = record { temp_ptr = none; flag = false }

-- What the loop over the delimiter comes to at one character.
pub data Reading : Type 0 where
  ends cuts passes : Reading

unfoldable pub read_character : (c : ℕ) → (delimiter : List ℕ) → Reading
read_character c [] = passes
read_character c (d ∷ ds) = if c == 0 then ends else if c == d then cuts else read_character c ds

-- The token, the memory and the static variables after a call.
abbrev pub Token : Type 0
Token = Option ℕ × (ℕ → ℕ) × Tokens

-- `i <= strlen(temp_ptr)` holds `n` times more.
unfoldable pub strtok_loop : (n i p : ℕ) → (delimiter : List ℕ) → (mem : ℕ → ℕ) → Token
strtok_loop zero i p delimiter mem = (none, mem, cleared)
strtok_loop (suc n) i p delimiter mem = elim (read_character (mem (p + i)) delimiter) [
  | ends ↦ (some p, mem, record { temp_ptr = some p; flag = true })
  | cuts ↦ (some p, update mem (p + i) 0, record { temp_ptr = some (p + (i + 1)); flag = false })
  | passes ↦ strtok_loop n (i + 1) p delimiter mem
]

unfoldable pub strtok_from :
    (fuel : ℕ) → (temp_ptr : Option ℕ) → (delimiter : List ℕ) → (mem : ℕ → ℕ) → Run Token
strtok_from fuel none delimiter mem = fault
strtok_from fuel (some p) delimiter mem = do
  len ← strlen fuel mem p
  ok (strtok_loop (suc len) 0 p delimiter mem)

-- `if (str != NULL) temp_ptr = str;`
abbrev pub pointer_of : (str temp_ptr : Option ℕ) → Option ℕ
pointer_of none temp_ptr = temp_ptr
pointer_of (some p) temp_ptr = some p

unfoldable pub strtok :
    (fuel : ℕ)
    → (str : Option ℕ) → (delimiter : Option (List ℕ)) → (mem : ℕ → ℕ) → Tokens
    → Run Token
strtok fuel str none mem t = ok (none, mem, cleared)
strtok fuel str (some delimiter) mem t = elim t.flag [
  | true ↦ ok (none, mem, cleared)
  | false ↦ strtok_from fuel (pointer_of str t.temp_ptr) delimiter mem
]

-- `while(str_arr[count] != NULL)`, with the pointers that it puts into the array.
unfoldable pub spilt_loop : (n fuel : ℕ) → (deli : List ℕ) → Token → Run (List ℕ × (ℕ → ℕ) × Tokens)
spilt_loop zero fuel deli token = out_of_fuel
spilt_loop (suc n) fuel deli (none, mem, t) = ok ([], mem, t)
spilt_loop (suc n) fuel deli (some p, mem, t) = do
  token ← strtok fuel none (some deli) mem t
  (ps, mem', t') ← spilt_loop n fuel deli token
  ok (p ∷ ps, mem', t')

-- The pointers before the NULL, whose number is returned.
unfoldable pub spilt_strings :
    (fuel : ℕ)
    → (str : ℕ) → (deli : List ℕ) → (mem : ℕ → ℕ) → Tokens
    → Run (List ℕ × (ℕ → ℕ) × Tokens)
spilt_strings fuel str deli mem t = do
  token ← strtok fuel (some str) (some deli) mem t
  spilt_loop fuel fuel deli token

-- The pieces of a list between the places of `d`: one more than there are such places.
abbrev pub push : ℕ → List (List ℕ) → List (List ℕ)
push x [] = (x ∷ []) ∷ []
push x (w ∷ ws) = (x ∷ w) ∷ ws

unfoldable pub split : (d : ℕ) → List ℕ → List (List ℕ)
split d [] = [] ∷ []
split d (x ∷ xs) = if x == d then [] ∷ split d xs else push x (split d xs)
