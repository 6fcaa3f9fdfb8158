-- ===== src/Cpio/Load.antt =====
-- What `load_program` of lib/cpio.c finds in an archive, and where it puts it.
use bare_metal_os_kernel.Base.{
  elim_false, elim_true, ℕ, zero, suc, ◌+◌, ◌≤◌, ◌<◌, ◌≡◌, refl, sym, subst, ap, ◌∙◌, true, false,
  ◌&&◌, not, Bool-cases, Option, none, some, List, [], ◌∷◌, length, ok, Returns, ltb, ltb→lt, ◌==◌,
  ne→==, eq→==, update, arith, inl, inr,
}
use bare_metal_os_kernel.Strings.Text.{c_string-Stored}
use mathlib.Core.Option.{some-injective}
use bare_metal_os_kernel.Strings.{memcpy_}
use bare_metal_os_kernel.Files.Directory.{same_name}
use bare_metal_os_kernel.Vfs.Mount.{CpioFile}
use bare_metal_os_kernel.Cpio.{
  trailer, aligned, even, find_file, load_it, load_program, user_program_space,
  user_program_max_size,
}
use bare_metal_os_kernel.Cpio.Archive.{
  Member, Archive, Archive-frame, Apart, SameWithin, next_header, next-low, listing,
  read_sizes-Stands,
}

-- The first file of the list that has this name and is not empty.
abbrev pub pick : (name : List ℕ) → List CpioFile → Option (ℕ × ℕ)
pick name [] = none
pick name (f ∷ fs) = elim (same_name f.pathname name && not (f.file_size == 0)) [
  | true ↦ some (f.data_ptr, f.file_size)
  | false ↦ pick name fs
]

aligned-even : (n : ℕ) → aligned (even n + 110) ≡ aligned (n + 110)
aligned-even n = ground arith

module _ (fuel a low limit : ℕ) (nine : 9 < fuel) (apart : Apart a low limit) where
  find_file-pick :
      (n header : ℕ) (name : List ℕ) (ms : List Member) (mem : ℕ → ℕ)
      → length ms < n
      → limit < fuel
      → low ≤ header
      → Archive mem header limit ms
      → (mem' : ℕ → ℕ) × (find_file n fuel a header name mem
          ≡ ok (pick name (listing header ms), mem'))
        × SameWithin mem mem' low limit
  unfolding find_file
  find_file-pick zero header name ms mem lt room lower h = ground (arith, lt)
  find_file-pick (suc n) header name [] mem lt room lower (h, inside) = (
    mem,
    rw (find_file, c_string-Stored fuel mem (header + 110) trailer (omega (arith, room, inside)) h)
        refl,
    λ x l u. refl,
  )
  find_file-pick (suc n) header name (m ∷ ms) mem lt room lower (h, more) =
      let (mem1, sizes, same) =
        read_sizes-Stands fuel a low limit nine apart header m mem lower h in
      let (mem2, run, same2) =
        find_file-pick n (next_header header m) name ms mem1 (omega (arith, lt)) room
          (next-low header low m lower)
          (Archive-frame mem mem1 (next_header header m) low limit ms same
            (next-low header low m lower) more) in
      let b = same_name m.name name && not (aligned m.filesize == 0) in
      let skip = aligned-even m.namesize in
      elim (Bool-cases b) [
        | inl yes_ ↦ (
          mem1,
          rw
              (
                find_file,
                c_string-Stored fuel mem (header + 110) m.name (omega (arith, room, h.inside))
                    h.name_at,
              )
              (elim_false (same_name m.name trailer) _ _ h.no_trailer
                ∙ rw sizes (
                    elim_true b _ _ yes_
                    ∙ ap (λ k. ok (some (header + k, aligned m.filesize), mem1)) skip
                    ∙ ap (λ f. ok (f, mem1)) (sym (elim_true b _ _ yes_)))),
          same,
        )
        | inr no_ ↦ (
          mem2,
          rw
              (
                find_file,
                c_string-Stored fuel mem (header + 110) m.name (omega (arith, room, h.inside))
                    h.name_at,
              )
              (elim_false (same_name m.name trailer) _ _ h.no_trailer
                ∙ rw sizes (
                    elim_false b _ _ no_
                    ∙ ap (λ k. find_file n fuel a (header + k + aligned m.filesize) name mem1) skip
                    ∙ run
                    ∙ ap (λ f. ok (f, mem2)) (sym (elim_false b _ _ no_)))),
          λ x l u. same2 x l u ∙ same x l u,
        )
      ]

Archive-below :
    (mem : ℕ → ℕ) (header limit : ℕ) (ms : List Member)
    → Archive mem header limit ms
    → header < limit
Archive-below mem header limit [] (h, inside) = omega (arith, inside)
Archive-below mem header limit (m ∷ ms) (h, more) = omega (arith, h.inside)

-- The data of a listed file lies in the archive.
pick-inside :
    (name : List ℕ) (mem : ℕ → ℕ) (header limit : ℕ) (ms : List Member) (d s : ℕ)
    → Archive mem header limit ms
    → pick name (listing header ms) ≡ some (d, s)
    → (header ≤ d) × (d + s < limit)
pick-inside name mem header limit [] d s h e = ground (arith, e)
pick-inside name mem header limit (m ∷ ms) d s (h, more) e =
    let b = same_name m.name name && not (aligned m.filesize == 0) in
    elim (Bool-cases b) [
      | inl yes_ ↦
          let pair = some-injective _ _ (sym (elim_true b _ _ yes_) ∙ e) in
          let at : header + aligned (m.namesize + 110) ≡ d = ap (λ q. q.0) pair in
          let size : aligned m.filesize ≡ s = ap (λ q. q.1) pair in
          (
            omega (arith, at),
            subst (λ x. x < limit) (ap (λ k. k + aligned m.filesize) at ∙ ap (λ k. d + k) size)
                (Archive-below mem (next_header header m) limit ms more),
          )
      | inr no_ ↦
          let (lower, upper) =
            pick-inside name mem (next_header header m) limit ms d s more
              (sym (elim_false b _ _ no_) ∙ e) in
          (omega (arith, lower), upper)
    ]

memcpy_-below :
    (len : ℕ) (mem : ℕ → ℕ) (dest src x : ℕ) → x < dest → memcpy_ mem dest src len x ≡ mem x
unfolding memcpy_
memcpy_-below zero mem dest src x lt = refl
memcpy_-below (suc len) mem dest src x lt =
    memcpy_-below len (update mem dest (mem src)) (dest + 1) (src + 1) x (omega (arith, lt))
    ∙ rw (ne→== dest x (omega (arith, lt))) refl

memcpy_-copied :
    (len : ℕ) (mem : ℕ → ℕ) (dest src i : ℕ)
    → dest + len ≤ src
    → i < len
    → memcpy_ mem dest src len (dest + i) ≡ mem (src + i)
unfolding memcpy_
memcpy_-copied zero mem dest src i le lt = ground (arith, lt)
memcpy_-copied (suc len) mem dest src zero le lt =
    let from : src ≡ src + 0 = omega arith in
    let first : dest + 0 ≡ dest = omega arith in
    ap (memcpy_ (update mem dest (mem src)) (dest + 1) (src + 1) len) first
    ∙ memcpy_-below len (update mem dest (mem src)) (dest + 1) (src + 1) dest (omega arith)
    ∙ rw (eq→== dest dest refl) (ap mem from)
memcpy_-copied (suc len) mem dest src (suc i) le lt =
    let from : src + 1 + i ≡ src + suc i = omega arith in
    let later : dest + suc i ≡ dest + 1 + i = omega arith in
    ap (memcpy_ (update mem dest (mem src)) (dest + 1) (src + 1) len) later
    ∙ memcpy_-copied len (update mem dest (mem src)) (dest + 1) (src + 1) i (omega (arith, le))
        (omega (arith, lt))
    ∙ rw (ne→== dest (src + 1 + i) (omega (arith, le))) (ap mem from)

-- The result and the memory after `load_program`, by what the name finds.
pub data Loaded (mem mem' : ℕ → ℕ) (r : ℕ) : Option (ℕ × ℕ) → Type 0 where
  not_found : r ≡ 0 → Loaded mem mem' r none
  too_large : {d s : ℕ} → user_program_max_size < s → r ≡ 0 → Loaded mem mem' r (some (d, s))
  loaded :
      {d s : ℕ}
      → s ≤ user_program_max_size
      → r ≡ user_program_space
      → ((i : ℕ) → i < s → mem' (user_program_space + i) ≡ mem (d + i))
      → Loaded mem mem' r (some (d, s))

load_found :
    (place : ℕ) (found : Option (ℕ × ℕ)) (mem mem1 : ℕ → ℕ) (limit : ℕ)
    → user_program_space + user_program_max_size ≤ place
    → SameWithin mem mem1 place limit
    → ((d s : ℕ) → found ≡ some (d, s) → (place ≤ d) × (d + s < limit))
    → (r : ℕ) × (mem' : ℕ → ℕ) × (load_it found mem1 ≡ (r, mem')) × Loaded mem mem' r found
unfolding load_it
load_found place none mem mem1 limit le same inside = (0, mem1, refl, not_found refl)
load_found place (some (d, s)) mem mem1 limit le same inside =
    let (lower, upper) = inside d s refl in
    elim (Bool-cases (ltb user_program_max_size s)) [
      | inl big ↦ (0, mem1, rw big refl, too_large (ltb→lt user_program_max_size s big) refl)
      | inr fits ↦
          let small : s ≤ user_program_max_size = ground (arith, fits) in
          (
            user_program_space,
            memcpy_ mem1 user_program_space d s,
            rw fits refl,
            loaded small refl (λ i lt.
                memcpy_-copied s mem1 user_program_space d i (omega (arith, le, lower, small)) lt
                ∙ same (d + i) (omega (arith, lower)) (omega (arith, upper, lt))),
          )
    ]

-- Where an archive lies at `place`, behind the space for the program, and the ten bytes that
-- `read_header` writes lie outside it, `load_program` finds the first file with this name that is
-- not empty in the list that `cpio_parse` makes of the archive. It returns 0 where there is none
-- or its size is above USER_PROGRAM_MAX_SIZE; else it returns USER_PROGRAM_SPACE, and from there
-- on stand the bytes of the file.
pub load_program-Loaded :
    (n fuel a place limit : ℕ) (name : List ℕ) (ms : List Member) (mem : ℕ → ℕ)
    → length ms < n
    → limit < fuel
    → 9 < fuel
    → user_program_space + user_program_max_size ≤ place
    → Apart a place limit
    → Archive mem place limit ms
    → Returns
        (λ (r, mem'). Loaded mem mem' r (pick name (listing place ms)))
        (load_program n fuel a place name mem)
unfolding load_program
load_program-Loaded n fuel a place limit name ms mem lt room nine le apart h =
    let (mem1, run, same) =
      find_file-pick fuel a place limit nine apart n place name ms mem lt room (omega arith) h in
    let (r, mem', result, spec) =
      load_found place (pick name (listing place ms)) mem mem1 limit le same
        (λ d s e. pick-inside name mem place limit ms d s h e) in
    ((r, mem'), rw (load_program, run) (ap ok result), spec)
