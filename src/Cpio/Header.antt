-- ===== src/Cpio/Header.antt =====
-- What `read_header` of lib/cpio.c reads.
use bare_metal_os_kernel.Base.{
  ℕ, zero, suc, ◌+◌, ◌≤◌, ◌<◌, ◌≡◌, ◌≢◌, refl, sym, subst, ap, ◌∙◌, List, [], ◌∷◌, ◌++◌,
  append_assoc, append-nil, length, length-append, ok, Returns, eq→==, ne→==, update, arith, inl,
  inr, ◌⊎◌,
}
use bare_metal_os_kernel.Strings.{hex_loop, my_hex2_int, append_str}
use bare_metal_os_kernel.Strings.Stored.{Stored, Stored-end}
use bare_metal_os_kernel.Strings.Append.{
  appended, Stored-appended, append_str-appended, appended-far,
}
use bare_metal_os_kernel.Cpio.Digits.{
  hex_step, hex_value, hex_loop-Stored, eight_digits, AreDigits, number, hex_value-number,
}
use bare_metal_os_kernel.Cpio.{append_loop, read_header}

-- From `str` on stand the characters, none of them 0.
abbrev pub Field : (mem : ℕ → ℕ) → (str : ℕ) → List ℕ → Type 0
Field mem str [] = Unit {0}
Field mem str (c ∷ cs) = (mem str ≡ c) × (c ≢ 0) × Field mem (str + 1) cs

pub Field-frame :
    (mem mem' : ℕ → ℕ) (str : ℕ) (cs : List ℕ)
    → ((x : ℕ) → str ≤ x → x < str + length cs → mem' x ≡ mem x)
    → Field mem str cs
    → Field mem' str cs
Field-frame mem mem' str [] same h = tt
Field-frame mem mem' str (c ∷ cs) same (e, ne, h) = (
  same str (omega arith) (omega arith) ∙ e,
  ne,
  Field-frame mem mem' (str + 1) cs (λ x l u. same x (omega (arith, l)) (omega (arith, u))) h,
)

-- The field does not meet the bytes that the string in the buffer can take.
abbrev pub Outside : (a str n room : ℕ) → Type 0
Outside a str n room = (str + n ≤ a) ⊎ (a + room < str)

Outside-at :
    (a str n room x : ℕ) → Outside a str n room → str ≤ x → x < str + n → (x < a) ⊎ (a + room < x)
Outside-at a str n room x (inl le) l u = inl (omega (arith, le, u))
Outside-at a str n room x (inr lt) l u = inr (omega (arith, lt, l))

Outside-next : (a str n room : ℕ) → Outside a str (suc n) room → Outside a (str + 1) n room
Outside-next a str n room (inl le) = inl (omega (arith, le))
Outside-next a str n room (inr lt) = inr (omega (arith, lt))

append_loop-Stored :
    (fuel room a str : ℕ) (mem : ℕ → ℕ) (xs cs : List ℕ)
    → length xs + length cs < fuel
    → length xs + length cs ≤ room
    → Outside a str (length cs) room
    → Stored mem a xs
    → Field mem str cs
    → Returns
        (λ mem'. Stored mem' a (xs ++ cs) × ((x : ℕ) → (x < a) ⊎ (a + room < x) → mem' x ≡ mem x))
        (append_loop fuel (length cs) a str mem)
unfolding append_loop append_str
append_loop-Stored fuel room a str mem xs [] lt le out h field =
    (mem, refl, (subst (Stored mem a) (sym (append-nil xs)) h, λ x far. refl))
append_loop-Stored fuel room a str mem xs (c ∷ cs) lt le out h (e, ne, field) =
    let one : append_str fuel mem a (mem str) ≡ ok (appended mem a (length xs) c) =
      ap (append_str fuel mem a) e ∙ append_str-appended fuel a c mem xs (omega (arith, lt)) h in
    let size = length-append xs (c ∷ []) in
    let (mem', run, (stored, kept)) =
      append_loop-Stored fuel room a (str + 1) (appended mem a (length xs) c) (xs ++ c ∷ []) cs
        (omega (arith, lt, size)) (omega (arith, le, size))
        (Outside-next a str (length cs) room out) (Stored-appended mem a c xs ne h)
        (Field-frame mem (appended mem a (length xs) c) (str + 1) cs
          (λ x l u.
            appended-far mem a (length xs) c x room (omega (arith, le))
              (Outside-at a str (suc (length cs)) room x out (omega (arith, l)) (omega (arith, u))))
          field) in
    (
      mem',
      rw one run,
      (
        subst (Stored mem' a) (append_assoc xs (c ∷ []) cs) stored,
        λ x far. kept x far ∙ appended-far mem a (length xs) c x room (omega (arith, le)) far,
      ),
    )

-- The string that the buffer starts with: at most one character, which nothing has set.
abbrev leftover : ℕ → List ℕ
leftover zero = []
leftover (suc g) = suc g ∷ []

leftover-Stored : (mem : ℕ → ℕ) (a g : ℕ) → mem a ≡ g → Stored (update mem (a + 1) 0) a (leftover g)
leftover-Stored mem a zero e = rw (ne→== (a + 1) a (omega arith)) e
leftover-Stored mem a (suc g) e =
    (rw (ne→== (a + 1) a (omega arith)) e, omega arith, rw (eq→== (a + 1) (a + 1) refl) refl)

leftover-value :
    (g : ℕ) (cs : List ℕ) → length cs ≡ 8 → hex_value 0 (leftover g ++ cs) ≡ hex_value 0 cs
leftover-value zero cs eight = refl
leftover-value (suc g) cs eight =
    eight_digits (hex_step 0 (suc g)) 0 cs (omega arith) (omega arith) eight

leftover-length : (g : ℕ) → length (leftover g) ≤ 1
leftover-length zero = omega arith
leftover-length (suc g) = omega arith

leftover-one : (g : ℕ) → g ≢ 0 → length (leftover g) ≡ 1
leftover-one zero ne = omega (arith, ne)
leftover-one (suc g) ne = omega arith

set-far :
    (a str x : ℕ) (mem : ℕ → ℕ)
    → Outside a str 8 9
    → str ≤ x
    → x < str + 8
    → update mem (a + 1) 0 x ≡ mem x
set-far a str x mem (inl le) l u = rw (ne→== (a + 1) x (omega (arith, le, u))) refl
set-far a str x mem (inr lt) l u = rw (ne→== (a + 1) x (omega (arith, lt, l))) refl

update-far : (a x : ℕ) (mem : ℕ → ℕ) → (x < a) ⊎ (a + 9 < x) → update mem (a + 1) 0 x ≡ mem x
update-far a x mem (inl lt) = rw (ne→== (a + 1) x (omega (arith, lt))) refl
update-far a x mem (inr lt) = rw (ne→== (a + 1) x (omega (arith, lt))) refl

-- The same for any eight characters, by the value that the loop of `myHex2Int` gives them.
pub read_header-hex_value :
    (fuel a str : ℕ) (mem : ℕ → ℕ) (cs : List ℕ)
    → 9 < fuel
    → length cs ≡ 8
    → Outside a str 8 9
    → Field mem str cs
    → Returns
        (λ (r, mem').
          (r ≡ hex_value 0 cs)
          × (mem a ≢ 0 → mem' (a + 9) ≡ 0)
          × ((x : ℕ) → (x < a) ⊎ (a + 9 < x) → mem' x ≡ mem x))
        (read_header fuel a str 8 mem)
unfolding read_header my_hex2_int
read_header-hex_value fuel a str mem cs lt eight out field =
    let g = mem a in
    let mem0 = update mem (a + 1) 0 in
    let short = leftover-length g in
    let size = length-append (leftover g) cs in
    let (mem1, run, (stored, kept)) =
      append_loop-Stored fuel 9 a str mem0 (leftover g) cs (omega (arith, lt, eight, short))
        (omega (arith, eight, short)) (subst (λ n. Outside a str n 9) (sym eight) out)
        (leftover-Stored mem a g refl)
        (Field-frame mem mem0 str cs (λ x l u. set-far a str x mem out l (omega (arith, u, eight)))
          field) in
    let run8 = subst (λ n. append_loop fuel n a str mem0 ≡ ok mem1) eight run in
    let value : hex_loop fuel mem1 a 0 0 ≡ ok (hex_value 0 (leftover g ++ cs)) =
      hex_loop-Stored fuel mem1 a 0 0 (leftover g ++ cs) (omega (arith, lt, eight, short, size))
        (subst (λ p. Stored mem1 p (leftover g ++ cs)) (omega arith) stored) in
    (
      (hex_value 0 (leftover g ++ cs), mem1),
      rw (read_header, run8, my_hex2_int, value) refl,
      (
        leftover-value g cs eight,
        λ ne.
            ap mem1 (omega (arith, size, eight, leftover-one g ne))
            ∙ Stored-end mem1 a (leftover g ++ cs) stored,
        λ x far. kept x far ∙ update-far a x mem far,
      ),
    )

-- `read_header` of a field of eight hexadecimal digits, of either case, which does not meet the ten
-- bytes from the start of its buffer on, returns the number with these digits, whatever the buffer
-- holds before. Where its first byte was not 0, the tenth byte, behind the array, is set to 0;
-- outside these ten bytes nothing changes.
pub read_header-Field :
    (fuel a str : ℕ) (mem : ℕ → ℕ) (ds cs : List ℕ)
    → 9 < fuel
    → length cs ≡ 8
    → AreDigits ds cs
    → Outside a str 8 9
    → Field mem str cs
    → Returns
        (λ (r, mem').
          (r ≡ number 0 ds)
          × (mem a ≢ 0 → mem' (a + 9) ≡ 0)
          × ((x : ℕ) → (x < a) ⊎ (a + 9 < x) → mem' x ≡ mem x))
        (read_header fuel a str 8 mem)
read_header-Field fuel a str mem ds cs lt eight digits out field =
    let (r, run, (value, behind, kept)) =
      read_header-hex_value fuel a str mem cs lt eight out field in
    let same = hex_value-number 0 0 ds cs (omega (arith, eight)) (omega arith) digits in
    (r, run, (value ∙ same, behind, kept))
