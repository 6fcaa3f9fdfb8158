-- ===== src/Cpio/Archive.antt =====
-- The list of files that `cpio_parse` of lib/cpio.c makes of an archive.
use bare_metal_os_kernel.Base.{
  elim_false, ℕ, zero, suc, ◌+◌, ◌^◌, ◌≤◌, ◌<◌, ◌≡◌, refl, ap, ◌∙◌, false, List, [], ◌∷◌, length,
  ok, Returns, lt→ltb, arith, inl, inr, ◌⊎◌,
}
use bare_metal_os_kernel.Strings.Text.{c_string-Stored}
use bare_metal_os_kernel.Cpio.Digits.{hex_value}
use bare_metal_os_kernel.Strings.Stored.{Stored, Stored-frame}
use bare_metal_os_kernel.Files.Directory.{same_name}
use bare_metal_os_kernel.Vfs.Mount.{CpioFile}
use bare_metal_os_kernel.Cpio.{trailer, aligned, read_header, read_sizes, parse_loop, cpio_parse}
use bare_metal_os_kernel.Cpio.Header.{Field, Field-frame, Outside, read_header-hex_value}

-- A file of the archive: its name and the two sizes.
pub record Member : Type 0 where
  pub name : List ℕ
  pub namesize : ℕ
  pub filesize : ℕ

-- A header field of eight digits for a number.
pub record Number (mem : ℕ → ℕ) (p n : ℕ) : Type 0 where
  pub digits : List ℕ
  pub eight : length digits ≡ 8
  pub stands : Field mem p digits
  pub stands_for : hex_value 0 digits ≡ n
  pub small : n + 114 < 2 ^ 31

abbrev pub next_header : (header : ℕ) → Member → ℕ
next_header header m = header + aligned (m.namesize + 110) + aligned m.filesize

-- At `header` stands this member, below `limit`.
pub record Stands (mem : ℕ → ℕ) (header limit : ℕ) (m : Member) : Type 0 where
  pub name_at : Stored mem (header + 110) m.name
  pub no_trailer : same_name m.name trailer ≡ false
  pub name_size : Number mem (header + 94) m.namesize
  pub file_size : Number mem (header + 54) m.filesize
  pub inside : header + 110 + length m.name < limit

-- From `header` on stand these members, and then the trailer.
abbrev pub Archive : (mem : ℕ → ℕ) → (header limit : ℕ) → List Member → Type 0
Archive mem header limit [] = Stored mem (header + 110) trailer × (header + 120 < limit)
Archive mem header limit (m ∷ ms) =
    Stands mem header limit m × Archive mem (next_header header m) limit ms

abbrev pub listed : (header : ℕ) → Member → CpioFile
listed header m = record {
  pathname = m.name;
  file_size = aligned m.filesize;
  data_ptr = header + aligned (m.namesize + 110);
}

abbrev pub listing : (header : ℕ) → List Member → List CpioFile
listing header [] = []
listing header (m ∷ ms) = listed header m ∷ listing (next_header header m) ms

pub next-low : (header low : ℕ) (m : Member) → low ≤ header → low ≤ next_header header m
next-low header low m lower = omega (arith, lower)

-- Two memories agree between `low` and `limit`.
abbrev pub SameWithin : (mem mem' : ℕ → ℕ) → (low limit : ℕ) → Type 0
SameWithin mem mem' low limit = (x : ℕ) → low ≤ x → x < limit → mem' x ≡ mem x

-- The ten bytes from `a` on, which `read_header` writes, lie outside `low` to `limit`.
abbrev pub Apart : (a low limit : ℕ) → Type 0
Apart a low limit = (limit ≤ a) ⊎ (a + 9 < low)

Apart-Outside : (a low limit p : ℕ) → Apart a low limit → low ≤ p → p + 8 ≤ limit → Outside a p 8 9
Apart-Outside a low limit p (inl le) lower upper = inl (omega (arith, le, upper))
Apart-Outside a low limit p (inr lt) lower upper = inr (omega (arith, lt, lower))

Apart-far : (a low limit x : ℕ) → Apart a low limit → low ≤ x → x < limit → (x < a) ⊎ (a + 9 < x)
Apart-far a low limit x (inl le) lower upper = inl (omega (arith, le, upper))
Apart-far a low limit x (inr lt) lower upper = inr (omega (arith, lt, lower))

Number-frame :
    (mem mem' : ℕ → ℕ) (p n low limit : ℕ)
    → SameWithin mem mem' low limit
    → low ≤ p
    → p + 8 ≤ limit
    → Number mem p n
    → Number mem' p n
Number-frame mem mem' p n low limit same lower upper num = record {
  digits = num.digits;
  eight = num.eight;
  stands =
      Field-frame mem mem' p num.digits
        (λ x l u. same x (omega (arith, l, lower)) (omega (arith, u, upper, num.eight))) num.stands;
  stands_for = num.stands_for;
  small = num.small;
}

pub Archive-frame :
    (mem mem' : ℕ → ℕ) (header low limit : ℕ) (ms : List Member)
    → SameWithin mem mem' low limit
    → low ≤ header
    → Archive mem header limit ms
    → Archive mem' header limit ms
Archive-frame mem mem' header low limit [] same lower (h, inside) = (
  Stored-frame mem mem' (header + 110) trailer
      (λ x l u. same x (omega (arith, l, lower)) (omega (arith, u, inside))) h,
  inside,
)
Archive-frame mem mem' header low limit (m ∷ ms) same lower (h, more) = (
  record {
    name_at =
        Stored-frame mem mem' (header + 110) m.name
          (λ x l u. same x (omega (arith, l, lower)) (omega (arith, u, h.inside))) h.name_at;
    no_trailer = h.no_trailer;
    name_size =
        Number-frame mem mem' (header + 94) m.namesize low limit same (omega (arith, lower))
          (omega (arith, h.inside)) h.name_size;
    file_size =
        Number-frame mem mem' (header + 54) m.filesize low limit same (omega (arith, lower))
          (omega (arith, h.inside)) h.file_size;
    inside = h.inside;
  },
  Archive-frame mem mem' (next_header header m) low limit ms same (next-low header low m lower)
      more,
)

module _ (fuel a low limit : ℕ) (nine : 9 < fuel) (apart : Apart a low limit) where
  read_header-Number :
      (p n : ℕ) (mem : ℕ → ℕ)
      → low ≤ p
      → p + 8 ≤ limit
      → Number mem p n
      → Returns (λ (r, mem'). (r ≡ n) × SameWithin mem mem' low limit) (read_header fuel a p 8 mem)
  read_header-Number p n mem lower upper num =
      let (r, run, (value, _, kept)) =
        read_header-hex_value fuel a p mem num.digits nine num.eight
          (Apart-Outside a low limit p apart lower upper) num.stands in
      (r, run, (value ∙ num.stands_for, λ x l u. kept x (Apart-far a low limit x apart l u)))

  pub read_sizes-Stands :
      (header : ℕ) (m : Member) (mem : ℕ → ℕ)
      → low ≤ header
      → Stands mem header limit m
      → (mem' : ℕ → ℕ) × (read_sizes fuel a header mem ≡ ok (m.namesize, m.filesize, mem'))
        × SameWithin mem mem' low limit
  unfolding read_sizes
  read_sizes-Stands header m mem lower h =
      let ((n, mem1), run1, (is_n, same1)) =
        read_header-Number (header + 94) m.namesize mem (omega (arith, lower))
          (omega (arith, h.inside)) h.name_size in
      let ((f, mem2), run2, (is_f, same2)) =
        read_header-Number (header + 54) m.filesize mem1 (omega (arith, lower))
          (omega (arith, h.inside))
          (Number-frame mem mem1 (header + 54) m.filesize low limit same1 (omega (arith, lower))
            (omega (arith, h.inside)) h.file_size) in
      (
        mem2,
        rw (read_sizes, run1)
              (rw run2 (
                rw
                  (
                    lt→ltb (n + 114) (2 ^ 31) (omega (arith, is_n, h.name_size.small)),
                    lt→ltb (f + 3) (2 ^ 31) (omega (arith, is_f, h.file_size.small)),
                  )
                  refl))
            ∙ ap (λ k. ok (k, f, mem2)) is_n
            ∙ ap (λ k. ok (m.namesize, k, mem2)) is_f,
        λ x l u. same2 x l u ∙ same1 x l u,
      )

  parse_loop-Archive :
      (n header : ℕ) (ms : List Member) (mem : ℕ → ℕ)
      → length ms < n
      → limit < fuel
      → low ≤ header
      → Archive mem header limit ms
      → (mem' : ℕ → ℕ) × (parse_loop n fuel a header mem ≡ ok (listing header ms, mem'))
  unfolding parse_loop
  parse_loop-Archive zero header ms mem lt room lower h = ground (arith, lt)
  parse_loop-Archive (suc n) header [] mem lt room lower (h, inside) = (
    mem,
    rw (parse_loop, c_string-Stored fuel mem (header + 110) trailer (omega (arith, room, inside)) h)
        refl,
  )
  parse_loop-Archive (suc n) header (m ∷ ms) mem lt room lower (h, more) =
      let (mem1, sizes, same) = read_sizes-Stands header m mem lower h in
      let (mem2, run) =
        parse_loop-Archive n (next_header header m) ms mem1 (omega (arith, lt)) room
          (next-low header low m lower)
          (Archive-frame mem mem1 (next_header header m) low limit ms same
            (next-low header low m lower) more) in
      (
        mem2,
        rw
            (
              parse_loop,
              c_string-Stored fuel mem (header + 110) m.name (omega (arith, room, h.inside))
                  h.name_at,
            )
            (elim_false (same_name m.name trailer) _ _ h.no_trailer ∙ rw sizes (rw run refl)),
      )

-- Where an archive of at least one member lies at `place`, the ten bytes that `read_header` writes
-- lie outside it, each size is given by eight digits and is far enough below the largest `int`,
-- and no member is called TRAILER!!!, `cpio_parse` returns the list of the members, in the order
-- of the archive, each with its name, its size rounded up to a multiple of 4, and the address of
-- its data.
pub cpio_parse-Archive :
    (n fuel a place limit : ℕ) (m : Member) (ms : List Member) (mem : ℕ → ℕ)
    → suc (length ms) < n
    → limit < fuel
    → 9 < fuel
    → Apart a place limit
    → Archive mem place limit (m ∷ ms)
    → Returns (λ (files, mem'). files ≡ listing place (m ∷ ms)) (cpio_parse n fuel a place mem)
unfolding cpio_parse
cpio_parse-Archive n fuel a place limit m ms mem lt room nine apart h =
    let (mem1, run) =
      parse_loop-Archive fuel a place limit nine apart n place (m ∷ ms) mem lt room (omega arith)
        h in
    ((listing place (m ∷ ms), mem1), rw (cpio_parse, run) refl, refl)
