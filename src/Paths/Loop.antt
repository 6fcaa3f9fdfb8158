-- ===== src/Paths/Loop.antt =====
-- The loop of `to_abs_path` of lib/vfs.c: what it keeps in the array, and where it ends.
use bare_metal_os_kernel.Base.{
  ℕ, zero, suc, ◌+◌, ◌≤◌, ◌<◌, ◌≡◌, refl, sym, subst, ap, ◌∙◌, Bool, true, false, ◌&&◌, Option,
  none, some, List, [], ◌∷◌, ◌++◌, length, get_elem?, Run, ok, fault, Returns, ltb, ne→==,
  Bool-cases, update, update_self, arith, ◌⊎◌, inl, inr,
}
use bare_metal_os_kernel.Files.Directory.{same_name}
use bare_metal_os_kernel.Paths.{
  Strings, is_blank, parent_dir, skip_blank, on_parent, translate_one, translate, join_from,
}
use bare_metal_os_kernel.Paths.Resolve.{take_in, resolve, written, trailing, trailing-plain}

-- From `r` on the array holds the components, and then NULL.
abbrev pub Rests : Strings → (r : ℕ) → List (List ℕ) → Type 0
Rests comps r [] = comps r ≡ none
Rests comps r (c ∷ cs) = (comps r ≡ some c) × Rests comps (r + 1) cs

-- Below `w` it holds the stack.
abbrev pub Holds : Strings → (w : ℕ) → List (List ℕ) → Type 0
Holds comps w [] = w ≡ 0
Holds comps w (c ∷ stack) = (v : ℕ) × (w ≡ suc v) × (comps v ≡ some c) × Holds comps v stack

Rests-same :
    (comps comps' : Strings) (r : ℕ) (cs : List (List ℕ))
    → ((a : ℕ) → r ≤ a → comps' a ≡ comps a)
    → Rests comps r cs
    → Rests comps' r cs
Rests-same comps comps' r [] same h = same r (omega arith) ∙ h
Rests-same comps comps' r (c ∷ cs) same (e, h) = (
  same r (omega arith) ∙ e,
  Rests-same comps comps' (r + 1) cs (λ a l. same a (omega (arith, l))) h,
)

Holds-same :
    (comps comps' : Strings) (w : ℕ) (stack : List (List ℕ))
    → ((a : ℕ) → a < w → comps' a ≡ comps a)
    → Holds comps w stack
    → Holds comps' w stack
Holds-same comps comps' w [] same h = h
Holds-same comps comps' w (c ∷ stack) same (v, e, f, h) = (
  v,
  e,
  same v (omega (arith, e)) ∙ f,
  Holds-same comps comps' v stack (λ a l. same a (omega (arith, l, e))) h,
)

update_other :
    (comps : Strings) (w : ℕ) (v : Option (List ℕ)) (a : ℕ)
    → (a < w) ⊎ (w < a)
    → update comps w v a ≡ comps a
update_other comps w v a (inl lt) = rw (ne→== w a (omega (arith, lt))) refl
update_other comps w v a (inr lt) = rw (ne→== w a (omega (arith, lt))) refl

-- Where one component leaves the array.
abbrev Taken : Strings → (w : ℕ) → List (List ℕ) → ℕ × Strings → Type 0
Taken comps w stack (w', comps') =
    Holds comps' w' stack × (w' ≤ w + 1) × ((a : ℕ) → w < a → comps' a ≡ comps a)

pushed :
    (comps : Strings) (w : ℕ) (c : List ℕ) (stack : List (List ℕ))
    → Holds comps w stack
    → Taken comps w (c ∷ stack) (w + 1, update comps w (some c))
pushed comps w c stack h = (
  (
    w,
    omega arith,
    update_self comps w (some c),
    Holds-same comps _ w stack (λ a l. update_other comps w (some c) a (inl l)) h,
  ),
  omega arith,
  λ a l. update_other comps w (some c) a (inr l),
)

popped :
    (comps : Strings) (v : ℕ) (stack : List (List ℕ))
    → Holds comps v stack
    → Taken comps (suc v) stack (v, update comps (suc v) none)
popped comps v stack h = (
  Holds-same comps _ v stack (λ a l. update_other comps (suc v) none a (inl (omega (arith, l)))) h,
  omega arith,
  λ a l. update_other comps (suc v) none a (inr l),
)

translate_one-take_in :
    (c : List ℕ) (w : ℕ) (comps : Strings) (stack : List (List ℕ))
    → Holds comps w stack
    → Returns (Taken comps w (take_in c stack)) (translate_one c w comps)
unfolding translate_one on_parent
translate_one-take_in c w comps stack h = elim (Bool-cases (same_name c parent_dir)) [
  | inl up ↦ at_parent c w comps stack up h
  | inr other ↦
      rw (translate_one, other) ((w + 1, update comps w (some c)), refl, pushed comps w c stack h)
]
  where
    at_parent :
        (c : List ℕ) (w : ℕ) (comps : Strings) (stack : List (List ℕ))
        → same_name c parent_dir ≡ true
        → Holds comps w stack
        → Returns (Taken comps w (take_in c stack)) (translate_one c w comps)
    at_parent c zero comps [] up h =
        rw (translate_one, up) ((0 + 1, update comps 0 (some c)), refl, pushed comps 0 c [] h)
    at_parent c (suc v) comps [] up h = ground (arith, h)
    at_parent c zero comps (top ∷ stack) up (v, e, f, h) = ground (arith, e)
    at_parent c (suc w) comps (top ∷ stack) up (v, e, f, h) =
        let there : comps w ≡ some top = ap comps (omega (arith, e)) ∙ f in
        elim (Bool-cases (same_name top parent_dir)) [
          | inl again ↦
              rw (translate_one, up, on_parent, there, again)
                (
                  (suc w + 1, update comps (suc w) (some c)),
                  refl,
                  pushed comps (suc w) c (top ∷ stack) (v, e, f, h),
                )
          | inr plain ↦
              rw (translate_one, up, on_parent, there, plain)
                (
                  (w, update comps (suc w) none),
                  ap (λ k. ok (k, update comps (suc w) none)) (omega arith),
                  popped comps w stack (subst (λ x. Holds comps x stack) (omega (arith, e)) h),
                )
        ]

-- The next component that is not blank.
record Found (fuel : ℕ) (comps : Strings) (r : ℕ) (cs : List (List ℕ)) : Type 0 where
  place : ℕ
  part : List ℕ
  rest : List (List ℕ)
  run : skip_blank fuel comps r ≡ ok (place, part)
  further : r ≤ place
  left : Rests comps (place + 1) rest
  count : place + 1 + length rest ≡ r + length cs
  as_before : trailing rest ≡ trailing cs
  next : (stack : List (List ℕ)) → resolve stack cs ≡ resolve (take_in part stack) rest

skip_blank_end :
    (fuel : ℕ) (comps : Strings) (r : ℕ)
    → 0 < fuel
    → comps r ≡ none
    → skip_blank fuel comps r ≡ fault
unfolding skip_blank
skip_blank_end zero comps r lt e = ground (arith, lt)
skip_blank_end (suc fuel) comps r lt e = rw (skip_blank, e) refl

skip_blank-Found :
    (fuel : ℕ) (comps : Strings) (r : ℕ) (c : List ℕ) (cs : List (List ℕ))
    → Rests comps r (c ∷ cs)
    → is_blank c ≡ false
    → Found (suc fuel) comps r (c ∷ cs)
unfolding skip_blank
skip_blank-Found fuel comps r c cs (e, h) plain = record {
  place = r;
  part = c;
  rest = cs;
  run = rw (skip_blank, e, plain) refl;
  further = omega arith;
  left = h;
  count = omega arith;
  as_before = sym (trailing-plain c cs plain);
  next = λ stack. rw plain refl;
}

skip_blank-cases :
    (fuel : ℕ) (comps : Strings) (r : ℕ) (c : List ℕ) (cs : List (List ℕ))
    → length cs + 1 < fuel
    → Rests comps r (c ∷ cs)
    → ((skip_blank fuel comps r ≡ fault) × (trailing (c ∷ cs) ≡ true)) ⊎ Found fuel comps r (c ∷ cs)
unfolding skip_blank
skip_blank-cases zero comps r c cs lt h = ground (arith, lt)
skip_blank-cases (suc fuel) comps r c [] lt (e, h) = elim (Bool-cases (is_blank c)) [
  | inr plain ↦ inr (skip_blank-Found fuel comps r c [] (e, h) plain)
  | inl blank ↦
      inl
        (rw (skip_blank, e, blank) (skip_blank_end fuel comps (r + 1) (omega (arith, lt)) h), blank)
]
skip_blank-cases (suc fuel) comps r c (d ∷ ds) lt (e, h) = elim (Bool-cases (is_blank c)) [
  | inr plain ↦ inr (skip_blank-Found fuel comps r c (d ∷ ds) (e, h) plain)
  | inl blank ↦ elim (skip_blank-cases fuel comps (r + 1) d ds (omega (arith, lt)) h) [
    | inl (run, last) ↦ inl (rw (skip_blank, e, blank) run, last)
    | inr found ↦ inr (record {
      place = found.place;
      part = found.part;
      rest = found.rest;
      run = rw (skip_blank, e, blank) found.run;
      further = omega (arith, found.further);
      left = found.left;
      count = omega (arith, found.count);
      as_before = found.as_before;
      next = λ stack. rw blank (found.next stack);
    })
  ]
]

-- A fault if the last component is blank, and a result otherwise.
abbrev pub Ends : (last : Bool) → (ℕ × Strings → Type 0) → Run (ℕ × Strings) → Type 0
Ends true P run = run ≡ fault
Ends false P run = Returns P run

goes_on : (w r count : ℕ) → w ≤ r → r < count → (ltb w count && ltb r count) ≡ true
goes_on w r count le lt = ground (arith, le, lt)

stops : (w r count : ℕ) → count ≤ r → (ltb w count && ltb r count) ≡ false
stops w r count le = ground (arith, le)

pub translate-resolve :
    (fuel count w r : ℕ) (comps : Strings) (stack cs : List (List ℕ))
    → length cs < fuel
    → count ≡ r + length cs
    → w ≤ r
    → Holds comps w stack
    → Rests comps r cs
    → Ends
        (trailing cs)
        (λ (w', comps'). Holds comps' w' (resolve stack cs))
        (translate fuel count w r comps)
unfolding translate
translate-resolve zero count w r comps stack cs lt size le h rest = ground (arith, lt)
translate-resolve (suc fuel) count w r comps stack [] lt size le h rest =
    rw (translate, stops w r count (omega (arith, size))) ((w, comps), refl, h)
translate-resolve (suc fuel) count w r comps stack (c ∷ cs) lt size le h rest =
    elim (skip_blank-cases (suc count) comps r c cs (omega (arith, size)) rest) [
      | inl (run, last) ↦
          subst
            (λ b.
              Ends b (λ (w', comps'). Holds comps' w' (resolve stack (c ∷ cs)))
                (translate (suc fuel) count w r comps))
            (sym last) (rw (translate, goes_on w r count le (omega (arith, size)), run) refl)
      | inr found ↦
          let ((w', comps'), one, (held, near, same)) =
            translate_one-take_in found.part w comps stack h in
          let size' : count ≡ found.place + 1 + length found.rest =
            omega (arith, size, found.count) in
          let ih =
            translate-resolve fuel count w' (found.place + 1) comps' (take_in found.part stack)
              found.rest (omega (arith, lt, found.count, found.further)) size'
              (omega (arith, near, le, found.further)) held
              (Rests-same comps comps' (found.place + 1) found.rest
                (λ a l. same a (omega (arith, l, le, found.further))) found.left) in
          subst
            (λ st.
              Ends (trailing (c ∷ cs)) (λ (w', comps'). Holds comps' w' st)
                (translate (suc fuel) count w r comps))
            (sym (found.next stack))
            (subst
              (λ b.
                Ends b
                  (λ (w', comps'). Holds comps' w' (resolve (take_in found.part stack) found.rest))
                  (translate (suc fuel) count w r comps))
              found.as_before
              (rw (translate, goes_on w r count le (omega (arith, size)), found.run, one) ih))
    ]

join_from-Holds :
    (w k : ℕ) (comps : Strings) (stack : List (List ℕ)) (tail : List ℕ)
    → Holds comps w stack
    → join_from k w comps ≡ ok tail
    → join_from (w + k) 0 comps ≡ ok (written stack tail)
unfolding join_from
join_from-Holds w k comps [] tail e run =
    ap (λ x. join_from x 0 comps) (omega (arith, e))
    ∙ subst (λ x. join_from k x comps ≡ ok tail) e run
join_from-Holds w k comps (c ∷ stack) tail (v, e, f, h) run =
    let next : join_from k (v + 1) comps ≡ ok tail =
      subst (λ x. join_from k x comps ≡ ok tail) (omega (arith, e)) run in
    let one : join_from (suc k) v comps ≡ ok (b'/' ∷ c ++ tail) = rw (join_from, f, next) refl in
    ap (λ x. join_from x 0 comps) (omega (arith, e))
    ∙ join_from-Holds v (suc k) comps stack (b'/' ∷ c ++ tail) h one

pub join_from-written :
    (w : ℕ) (comps : Strings) (stack : List (List ℕ))
    → Holds comps w stack
    → join_from w 0 comps ≡ ok (written stack [])
unfolding join_from
join_from-written w comps stack h =
    ap (λ x. join_from x 0 comps) (omega arith) ∙ join_from-Holds w 0 comps stack [] h refl

pub Rests-get_elem? :
    (comps : Strings) (r : ℕ) (cs : List (List ℕ))
    → ((k : ℕ) → comps (r + k) ≡ get_elem? cs k)
    → Rests comps r cs
Rests-get_elem? comps r [] same = ap comps (omega arith) ∙ same 0
Rests-get_elem? comps r (c ∷ cs) same = (
  ap comps (omega arith) ∙ same 0,
  Rests-get_elem? comps (r + 1) cs (λ k. ap comps (omega arith) ∙ same (suc k)),
)
