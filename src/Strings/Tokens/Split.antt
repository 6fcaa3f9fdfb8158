-- ===== src/Strings/Tokens/Split.antt =====
-- What `spilt_strings` of lib/string.c makes of a string in memory.
use bare_metal_os_kernel.Base.{
  ℕ, zero, suc, ◌+◌, ◌<◌, ◌≡◌, ◌≢◌, refl, sym, subst, ap, ◌∙◌, true, false, some, List, [], ◌∷◌,
  ◌++◌, length, length-append, ok, Returns, ◌==◌, eq→==, ne→==, Bool-cases, update, arith, ◌⊎◌, inl,
  inr,
}
use bare_metal_os_kernel.Strings.Stored.{Stored, Stored-frame, strlen-Stored}
use bare_metal_os_kernel.Strings.Tokens.{
  Tokens, Token, cleared, read_character, strtok_loop, strtok_from, strtok, spilt_loop,
  spilt_strings, split,
}

abbrev pub Free : (d : ℕ) → List ℕ → Type 0
Free d [] = Unit {0}
Free d (x ∷ xs) = (x ≢ d) × Free d xs

-- A list has no `d`, or a part without it and the rest behind the first one.
abbrev pub Cut : (d : ℕ) → List ℕ → Type 0
Cut d xs = (w : List ℕ) × (rest : List ℕ) × (xs ≡ w ++ d ∷ rest) × Free d w

eq_of : (a b : ℕ) → (a == b) ≡ true → a ≡ b
eq_of a b e = ground arith

ne_of : (a b : ℕ) → (a == b) ≡ false → a ≢ b
ne_of a b e = ground arith

pub Cut-cases : (d : ℕ) (xs : List ℕ) → Free d xs ⊎ Cut d xs
Cut-cases d [] = inl tt
Cut-cases d (x ∷ xs) = elim (Bool-cases (x == d)) [
  | inl same ↦ inr ([], xs, ap (λ y. y ∷ xs) (eq_of x d same), tt)
  | inr other ↦ elim (Cut-cases d xs) [
    | inl free ↦ inl (ne_of x d other, free)
    | inr (w, rest, e, free) ↦ inr (x ∷ w, rest, ap (λ l. x ∷ l) e, (ne_of x d other, free))
  ]
]

pub split-Free : (d : ℕ) (xs : List ℕ) → Free d xs → split d xs ≡ xs ∷ []
unfolding split
split-Free d [] free = refl
split-Free d (x ∷ xs) (ne, free) = rw (split, ne→== x d ne, split-Free d xs free) refl

pub split-Cut : (d : ℕ) (w rest : List ℕ) → Free d w → split d (w ++ d ∷ rest) ≡ w ∷ split d rest
unfolding split
split-Cut d [] rest free = rw (split, eq→== d d refl) refl
split-Cut d (x ∷ w) rest (ne, free) = rw (split, ne→== x d ne, split-Cut d w rest free) refl

module _ (d : ℕ) (nonzero : d ≢ 0) where
  strtok_loop-Free :
      (n i p : ℕ) (mem : ℕ → ℕ) (xs : List ℕ)
      → length xs < n
      → Free d xs
      → Stored mem (p + i) xs
      → strtok_loop n i p (d ∷ []) mem ≡ (some p, mem, record { temp_ptr = some p; flag = true })
  unfolding strtok_loop read_character
  strtok_loop-Free zero i p mem xs lt free c = ground (arith, lt)
  strtok_loop-Free (suc n) i p mem [] lt free c = rw (strtok_loop, read_character, c) refl
  strtok_loop-Free (suc n) i p mem (x ∷ xs) lt (ne, free) (e, n0, c) =
      rw (strtok_loop, read_character, e, ne→== x 0 n0, ne→== x d ne)
        (strtok_loop-Free n (i + 1) p mem xs (omega (arith, lt)) free
          (subst (λ a. Stored mem a xs) (omega arith) c))

  strtok_loop-Cut :
      (n i p : ℕ) (mem : ℕ → ℕ) (w rest : List ℕ)
      → length w < n
      → Free d w
      → Stored mem (p + i) (w ++ d ∷ rest)
      → strtok_loop n i p (d ∷ []) mem ≡ (
        some p,
        update mem (p + (i + length w)) 0,
        record { temp_ptr = some (p + (i + length w + 1)); flag = false },
      )
  unfolding strtok_loop read_character
  strtok_loop-Cut zero i p mem w rest lt free c = ground (arith, lt)
  strtok_loop-Cut (suc n) i p mem [] rest lt free (e, n0, c) =
      rw (strtok_loop, read_character, e, ne→== d 0 n0, eq→== d d refl)
        (ap
          (λ k.
            (some p, update mem (p + k) 0, record { temp_ptr = some (p + (k + 1)); flag = false }))
          (omega arith))
  strtok_loop-Cut (suc n) i p mem (x ∷ w) rest lt (ne, free) (e, n0, c) =
      rw (strtok_loop, read_character, e, ne→== x 0 n0, ne→== x d ne)
        (strtok_loop-Cut n (i + 1) p mem w rest (omega (arith, lt)) free
            (subst (λ a. Stored mem a (w ++ d ∷ rest)) (omega arith) c)
          ∙ ap
              (λ k. (
                some p,
                update mem (p + k) 0,
                record { temp_ptr = some (p + (k + 1)); flag = false },
              ))
              (omega arith))

-- The pointers lead to the strings.
abbrev pub AllStored : (mem : ℕ → ℕ) → List ℕ → List (List ℕ) → Type 0
AllStored mem [] [] = Unit {0}
AllStored mem [] (w ∷ ws) = ⊥
AllStored mem (p ∷ ps) [] = ⊥
AllStored mem (p ∷ ps) (w ∷ ws) = Stored mem p w × AllStored mem ps ws

Stored-keep :
    (mem mem' : ℕ → ℕ) (p : ℕ) (xs : List ℕ)
    → ((a : ℕ) → a < p + length xs + 1 → mem' a ≡ mem a)
    → Stored mem p xs
    → Stored mem' p xs
Stored-keep mem mem' p xs same c = Stored-frame mem mem' p xs (λ a l u. same a (omega (arith, u))) c

Stored-front :
    (mem : ℕ → ℕ) (p : ℕ) (w rest : List ℕ)
    → Stored mem p (w ++ rest)
    → Stored (update mem (p + length w) 0) p w
Stored-front mem p [] rest c = rw (eq→== (p + 0) p (omega arith)) refl
Stored-front mem p (x ∷ w) rest (e, n, c) = (
  rw (ne→== (p + suc (length w)) p (omega arith)) e,
  n,
  subst (λ a. Stored (update mem a 0) (p + 1) w) (omega arith) (Stored-front mem (p + 1) w rest c),
)

Stored-back :
    (mem : ℕ → ℕ) (p : ℕ) (w rest : List ℕ)
    → Stored mem p (w ++ rest)
    → Stored mem (p + length w) rest
Stored-back mem p [] rest c = subst (λ a. Stored mem a rest) (omega arith) c
Stored-back mem p (x ∷ w) rest (e, n, c) =
    subst (λ a. Stored mem a rest) (omega arith) (Stored-back mem (p + 1) w rest c)

-- The string at `p` with the characters `xs` has been split.
abbrev pub Spilt : (d p : ℕ) → List ℕ → (mem : ℕ → ℕ) → List ℕ × (ℕ → ℕ) × Tokens → Type 0
Spilt d p xs mem (ps, mem', t) =
    AllStored mem' ps (split d xs) × (t ≡ cleared) × ((a : ℕ) → a < p → mem' a ≡ mem a)

strtok_from-Stored :
    (fuel p : ℕ) (ds : List ℕ) (mem : ℕ → ℕ) (xs : List ℕ)
    → length xs < fuel
    → Stored mem p xs
    → strtok_from fuel (some p) ds mem ≡ ok (strtok_loop (suc (length xs)) 0 p ds mem)
unfolding strtok_from
strtok_from-Stored fuel p ds mem xs lt c = rw (strtok_from, strlen-Stored fuel mem p xs lt c) refl

spilt_loop-Free :
    (m fuel d p : ℕ) (mem : ℕ → ℕ)
    → spilt_loop
        (suc (suc m))
        fuel
        (d ∷ [])
        (some p, mem, record { temp_ptr = some p; flag = true })
      ≡ ok (p ∷ [], mem, cleared)
unfolding spilt_loop strtok
spilt_loop-Free m fuel d p mem = refl

spilt_loop-Cut :
    (m fuel d p q : ℕ) (mem mem' : ℕ → ℕ) (token : Token) (ps : List ℕ) (t : Tokens)
    → strtok_from fuel (some q) (d ∷ []) mem ≡ ok token
    → spilt_loop m fuel (d ∷ []) token ≡ ok (ps, mem', t)
    → spilt_loop (suc m) fuel (d ∷ []) (some p, mem, record { temp_ptr = some q; flag = false })
      ≡ ok (p ∷ ps, mem', t)
unfolding spilt_loop strtok
spilt_loop-Cut m fuel d p q mem mem' token ps t first rest =
    rw (spilt_loop, strtok, first, rest) refl

length-back : (w rest : List ℕ) (d : ℕ) → length (w ++ d ∷ rest) ≡ length w + suc (length rest)
length-back w rest d = length-append w (d ∷ rest)

spilt_loop-Spilt :
    (n fuel d p : ℕ) (mem : ℕ → ℕ) (xs : List ℕ)
    → d ≢ 0
    → length xs + 1 < n
    → length xs < fuel
    → Stored mem p xs
    → Returns
        (Spilt d p xs mem)
        (spilt_loop n fuel (d ∷ []) (strtok_loop (suc (length xs)) 0 p (d ∷ []) mem))
spilt_loop-Spilt zero fuel d p mem xs nonzero lt more c = ground (arith, lt)
spilt_loop-Spilt (suc zero) fuel d p mem xs nonzero lt more c = ground (arith, lt)
spilt_loop-Spilt (suc (suc m)) fuel d p mem xs nonzero lt more c = elim (Cut-cases d xs) [
  | inl free ↦
      let one =
        strtok_loop-Free d nonzero (suc (length xs)) 0 p mem xs (omega arith) free
          (subst (λ a. Stored mem a xs) (omega arith) c) in
      (
        (p ∷ [], mem, cleared),
        rw one (spilt_loop-Free m fuel d p mem),
        (rw (split-Free d xs free) (c, tt), refl, λ a l. refl),
      )
  | inr (w, rest, e, free) ↦
      let len = ap length e ∙ length-back w rest d in
      let c' = subst (Stored mem p) e c in
      let one =
        strtok_loop-Cut d nonzero (suc (length xs)) 0 p mem w rest (omega (arith, len)) free
          (subst (λ a. Stored mem a (w ++ d ∷ rest)) (omega arith) c') in
      let mem1 = update mem (p + (0 + length w)) 0 in
      let q = p + (0 + length w + 1) in
      let (_, _, back) = Stored-back mem p w (d ∷ rest) c' in
      let behind : Stored mem1 q rest =
        Stored-frame mem mem1 q rest
          (λ a l u. rw (ne→== (p + (0 + length w)) a (omega (arith, l))) refl)
          (subst (λ a. Stored mem a rest) (omega arith) back) in
      let ((ps, mem2, t), run, (all, emptied, same)) =
        spilt_loop-Spilt (suc m) fuel d q mem1 rest nonzero (omega (arith, len, lt))
          (omega (arith, len, more)) behind in
      (
        (p ∷ ps, mem2, t),
        rw one (
            spilt_loop-Cut (suc m) fuel d p q mem1 mem2 _ ps t
              (strtok_from-Stored fuel q (d ∷ []) mem1 rest (omega (arith, len, more)) behind) run),
        (
          subst (AllStored mem2 (p ∷ ps)) (sym (ap (split d) e ∙ split-Cut d w rest free)) (
            Stored-keep mem1 mem2 p w (λ a l. same a (omega (arith, l)))
                (subst (λ a. Stored (update mem a 0) p w) (omega arith)
                  (Stored-front mem p w (d ∷ rest) c')),
            all,
          ),
          emptied,
          λ a l.
              same a (omega (arith, l)) ∙ rw (ne→== (p + (0 + length w)) a (omega (arith, l))) refl,
        ),
      )
]

-- For a string in memory, a delimiter of one character and the static variables of `strtok` as they
-- are at the start, with more fuel than the string has characters and two, `spilt_strings` returns
-- pointers to the pieces of the string between the delimiters, the empty ones too, in their order,
-- clears the static variables, and changes nothing below the string.
pub spilt_strings-split :
    (fuel d p : ℕ) (mem : ℕ → ℕ) (xs : List ℕ)
    → d ≢ 0
    → length xs + 1 < fuel
    → Stored mem p xs
    → Returns (Spilt d p xs mem) (spilt_strings fuel p (d ∷ []) mem cleared)
unfolding spilt_strings strtok
spilt_strings-split fuel d p mem xs nonzero more c =
    let (r, run, spilt) =
      spilt_loop-Spilt fuel fuel d p mem xs nonzero more (omega (arith, more)) c in
    (
      r,
      rw (spilt_strings, strtok, strtok_from-Stored fuel p (d ∷ []) mem xs (omega (arith, more)) c)
          run,
      spilt,
    )
