-- ===== src/Strings/Copy.antt =====
-- `strcpy`, `strcat_`, `append_str` and `pop_str` of lib/string.c on strings in memory.
use bare_metal_os_kernel.Base.{
  ℕ, zero, suc, ◌+◌, ◌-◌, ◌≤◌, ◌<◌, ◌≡◌, ◌≢◌, refl, sym, subst, ap, ◌∙◌, List, [], ◌∷◌, ◌++◌,
  length, length-append, Returns, ◌==◌, ne→==, Bool-cases, update, update_self, arith, ◌⊎◌, inl,
  inr,
}
use bare_metal_os_kernel.Strings.{strcpy, copy_with_end, strcat_, append_str, pop_str}
use bare_metal_os_kernel.Strings.Stored.{
  Stored, Stored-frame, Stored-end, strlen-Stored, end_of-Stored,
}

-- The `m + 1` bytes from `a` and the `n + 1` bytes from `b` do not meet.
abbrev pub Apart : (a m b n : ℕ) → Type 0
Apart a m b n = (a + m < b) ⊎ (b + n < a)

-- The string `xs` stands at `dest`, and no other byte has changed.
pub record Written (mem : ℕ → ℕ) (dest : ℕ) (xs : List ℕ) (mem' : ℕ → ℕ) : Type 0 where
  pub stored : Stored mem' dest xs
  pub below : (a : ℕ) → a < dest → mem' a ≡ mem a
  pub above : (a : ℕ) → dest + length xs < a → mem' a ≡ mem a

update_apart : (mem : ℕ → ℕ) (p v a : ℕ) → p ≢ a → update mem p v a ≡ mem a
update_apart mem p v a n = rw (ne→== p a n)

Apart-ne :
    (dest src n a : ℕ) → Apart dest (suc n) src (suc n) → src + 1 ≤ a → a ≤ src + 1 + n → dest ≢ a
Apart-ne dest src n a (inl r) l u = λ e. omega (arith, r, l, u, e)
Apart-ne dest src n a (inr r) l u = λ e. omega (arith, r, l, u, e)

update-Stored :
    (mem : ℕ → ℕ) (dest src x : ℕ) (xs : List ℕ)
    → Apart dest (length (x ∷ xs)) src (length (x ∷ xs))
    → Stored mem (src + 1) xs
    → Stored (update mem dest x) (src + 1) xs
update-Stored mem dest src x xs apart c =
    Stored-frame mem (update mem dest x) (src + 1) xs
      (λ a l u. update_apart mem dest x a (Apart-ne dest src (length xs) a apart l u)) c

Apart-rest :
    (dest src x : ℕ) (xs : List ℕ)
    → Apart dest (length (x ∷ xs)) src (length (x ∷ xs))
    → Apart (dest + 1) (length xs) (src + 1) (length xs)
Apart-rest dest src x xs (inl l) = inl (omega (arith, l))
Apart-rest dest src x xs (inr r) = inr (omega (arith, r))

Written-end : (mem : ℕ → ℕ) (dest : ℕ) → Written mem dest [] (update mem dest 0)
Written-end mem dest = record {
  stored = update_self mem dest 0;
  below = λ a l. update_apart mem dest 0 a (omega (arith, l));
  above = λ a l. update_apart mem dest 0 a (omega (arith, l));
}

Written-more :
    (mem mem' : ℕ → ℕ) (dest x : ℕ) (xs : List ℕ)
    → x ≢ 0
    → Written (update mem dest x) (dest + 1) xs mem'
    → Written mem dest (x ∷ xs) mem'
Written-more mem mem' dest x xs n w = record {
  stored = (w.below dest (omega arith) ∙ update_self mem dest x, n, w.stored);
  below = λ a l. w.below a (omega (arith, l)) ∙ update_apart mem dest x a (omega (arith, l));
  above = λ a l. w.above a (omega (arith, l)) ∙ update_apart mem dest x a (omega (arith, l));
}

-- `strcpy` of a string to a place that it does not overlap returns with the string there, and has
-- written no byte outside that place.
pub strcpy-Written :
    (fuel : ℕ) (mem : ℕ → ℕ) (dest src : ℕ) (xs : List ℕ)
    → length xs < fuel
    → Apart dest (length xs) src (length xs)
    → Stored mem src xs
    → Returns (Written mem dest xs) (strcpy fuel mem dest src)
unfolding strcpy
strcpy-Written zero mem dest src xs lt apart c = ground (arith, lt)
strcpy-Written (suc fuel) mem dest src [] lt apart c =
    (update mem dest 0, rw (strcpy, c) refl, Written-end mem dest)
strcpy-Written (suc fuel) mem dest src (x ∷ xs) lt apart (e, n, c) =
    let (mem', run, w) =
      strcpy-Written fuel (update mem dest x) (dest + 1) (src + 1) xs (omega (arith, lt))
        (Apart-rest dest src x xs apart) (update-Stored mem dest src x xs apart c) in
    (mem', rw (strcpy, e, ne→== x 0 n, e) run, Written-more mem mem' dest x xs n w)

copy_with_end-Written :
    (fuel : ℕ) (mem : ℕ → ℕ) (dest src : ℕ) (xs : List ℕ)
    → length xs < fuel
    → Apart dest (length xs) src (length xs)
    → Stored mem src xs
    → Returns (Written mem dest xs) (copy_with_end fuel mem dest src)
unfolding copy_with_end
copy_with_end-Written zero mem dest src xs lt apart c = ground (arith, lt)
copy_with_end-Written (suc fuel) mem dest src [] lt apart c =
    (update mem dest 0, rw (copy_with_end, c, c) refl, Written-end mem dest)
copy_with_end-Written (suc fuel) mem dest src (x ∷ xs) lt apart (e, n, c) =
    let (mem', run, w) =
      copy_with_end-Written fuel (update mem dest x) (dest + 1) (src + 1) xs (omega (arith, lt))
        (Apart-rest dest src x xs apart) (update-Stored mem dest src x xs apart c) in
    (mem', rw (copy_with_end, e, ne→== x 0 n, e) run, Written-more mem mem' dest x xs n w)

Stored-append :
    (mem : ℕ → ℕ) (p : ℕ) (xs ys : List ℕ) (mem' : ℕ → ℕ)
    → Stored mem p xs
    → Written mem (p + length xs) ys mem'
    → Stored mem' p (xs ++ ys)
Stored-append mem p [] ys mem' c w = subst (λ a. Stored mem' a ys) (omega arith) w.stored
Stored-append mem p (x ∷ xs) ys mem' (e, n, c) w = (
  w.below p (omega arith) ∙ e,
  n,
  Stored-append mem (p + 1) xs ys mem' c (subst (λ a. Written mem a ys mem') (omega arith) w),
)

-- `strcat_` of two strings, where the second does not overlap the place of the whole, returns with
-- the whole at the place of the first; it writes no byte before its end and none behind the whole.
pub strcat_-Written :
    (fuel : ℕ) (mem : ℕ → ℕ) (dest src : ℕ) (xs ys : List ℕ)
    → length xs < fuel
    → length ys < fuel
    → Apart (dest + length xs) (length ys) src (length ys)
    → Stored mem dest xs
    → Stored mem src ys
    → Returns
        (λ mem'. Stored mem' dest (xs ++ ys) × Written mem (dest + length xs) ys mem')
        (strcat_ fuel mem dest src)
unfolding strcat_
strcat_-Written fuel mem dest src xs ys lx ly apart c d =
    let (mem', run, w) = copy_with_end-Written fuel mem (dest + length xs) src ys ly apart d in
    (
      mem',
      rw (strcat_, end_of-Stored fuel mem dest xs lx c) run,
      (Stored-append mem dest xs ys mem' c w, w),
    )

undo_append :
    (mem : ℕ → ℕ) (p ch a : ℕ)
    → mem p ≡ 0
    → a ≢ p + 1
    → update (update (update mem p ch) (p + 1) 0) p 0 a ≡ mem a
undo_append mem p ch a e n = elim (Bool-cases (p == a)) [
  | inl same ↦ rw same (sym e ∙ ap mem (ground arith))
  | inr other ↦ rw (other, ne→== (p + 1) a (λ q. n (sym q))) refl
]

-- `append_str` puts a character behind a string, and `pop_str` takes it off again: memory is as it
-- was but for the byte behind the end.
pub pop_str-append_str :
    (fuel : ℕ) (mem : ℕ → ℕ) (s ch : ℕ) (xs : List ℕ)
    → length xs + 1 < fuel
    → ch ≢ 0
    → Stored mem s xs
    → Returns
        (λ mem'.
          Stored mem' s (xs ++ ch ∷ [])
          × Returns
              (λ mem''. (a : ℕ) → a ≢ s + length xs + 1 → mem'' a ≡ mem a)
              (pop_str fuel mem' s))
        (append_str fuel mem s ch)
unfolding append_str pop_str
pop_str-append_str fuel mem s ch xs lt n c =
    let at = s + length xs in
    let mem' = update (update mem at ch) (at + 1) 0 in
    let whole : Stored mem' s (xs ++ ch ∷ []) =
      Stored-append mem s xs (ch ∷ []) mem' c
        (Written-more mem mem' at ch [] n (Written-end (update mem at ch) (at + 1))) in
    let same_place : s + length (xs ++ ch ∷ []) - 1 ≡ at =
      omega (arith, length-append xs (ch ∷ [])) in
    (
      mem',
      rw (append_str, strlen-Stored fuel mem s xs (omega (arith, lt)) c) refl,
      (
        whole,
        (
          update mem' (s + length (xs ++ ch ∷ []) - 1) 0,
          rw
              (
                pop_str,
                strlen-Stored fuel mem' s (xs ++ ch ∷ [])
                    (omega (arith, lt, length-append xs (ch ∷ []))) whole,
              )
              refl,
          λ a ne. rw same_place (undo_append mem at ch a (Stored-end mem s xs c) ne),
        ),
      ),
    )
