-- ===== src/Paths/Absolute.antt =====
-- What `to_abs_path` of lib/vfs.c returns.
use bare_metal_os_kernel.Base.{
  ℕ, suc, ◌≤◌, ◌<◌, ◌≡◌, refl, sym, subst, ap, Bool, true, false, List, [], ◌∷◌, ◌++◌, length,
  get_elem?, ok, fault, lt→ltb, arith,
}
use bare_metal_os_kernel.Base.{pos}
use bare_metal_os_kernel.Strings.Tokens.{split, push}
use bare_metal_os_kernel.Paths.{
  spilt, concatenate, to_abs_path, translate, starts_with_slash, ends_with_slash, vfs_max_depth,
  tmpfs_max_path_len,
}
use bare_metal_os_kernel.Paths.Resolve.{
  resolve, written, trailing, total, resolve-total, length-written,
}
use bare_metal_os_kernel.Paths.Loop.{
  Ends, Holds, translate-resolve, join_from-written, Rests-get_elem?,
}

-- The path that the components of `untranslate` lead to.
abbrev pub resolved : (untranslate : List ℕ) → List ℕ
resolved untranslate = written (resolve [] (split b'/' untranslate)) []

total-push : (x : ℕ) (ws : List (List ℕ)) → 0 < length ws → total (push x ws) ≡ suc (total ws)
total-push x [] lt = ground (arith, lt)
total-push x (w ∷ ws) lt = omega arith

length-push : (x : ℕ) (ws : List (List ℕ)) → 0 < length (push x ws)
length-push x [] = omega arith
length-push x (w ∷ ws) = omega arith

length-split : (d : ℕ) (xs : List ℕ) → 0 < length (split d xs)
unfolding split
length-split d [] = omega arith
length-split d (x ∷ xs) = ground (arith, length-push x (split d xs))

total-split : (d : ℕ) (xs : List ℕ) → total (split d xs) ≡ suc (length xs)
unfolding split
total-split d [] = omega arith
total-split d (x ∷ xs) =
    ground (arith, total-split d xs, total-push x (split d xs) (length-split d xs))

-- A path that starts with a slash leads to no more characters than it has.
length-resolved : (xs : List ℕ) → length (resolved (b'/' ∷ xs)) ≤ length (b'/' ∷ xs)
unfolding split
length-resolved xs = omega (
  arith,
  length-written (resolve [] (split b'/' xs)) [],
  resolve-total [] (split b'/' xs),
  total-split b'/' xs,
)

-- The loop on a whole path.
whole_path :
    (comps : List (List ℕ)) (b : Bool)
    → trailing comps ≡ b
    → Ends b
        (λ (w, comps'). Holds comps' w (resolve [] comps))
        (translate (suc (length comps)) (length comps) 0 0 (get_elem? comps))
whole_path comps b last =
    subst
      (λ t.
        Ends t (λ (w, comps'). Holds comps' w (resolve [] comps))
          (translate (suc (length comps)) (length comps) 0 0 (get_elem? comps)))
      last
      (translate-resolve (suc (length comps)) (length comps) 0 0 (get_elem? comps) [] comps
        (omega arith) (omega arith) (omega arith) refl
        (Rests-get_elem? (get_elem? comps) 0 comps (λ k. ap (get_elem? comps) (omega arith))))

module _ (cwd path xs : List ℕ) (whole : cwd ++ path ≡ b'/' ∷ xs)
    (short : length (b'/' ∷ xs) < tmpfs_max_path_len)
    (few : length (split b'/' (b'/' ∷ xs)) < vfs_max_depth) where
  concatenate-resolved :
      trailing (split b'/' (b'/' ∷ xs)) ≡ false → concatenate cwd path ≡ ok (resolved (b'/' ∷ xs))
  unfolding concatenate spilt
  concatenate-resolved last =
      let comps = split b'/' (b'/' ∷ xs) in
      let ((w, comps'), run, held) = whole_path comps false last in
      rw
        (
          concatenate,
          whole,
          lt→ltb (length (b'/' ∷ xs)) tmpfs_max_path_len short,
          spilt,
          lt→ltb (length comps) vfs_max_depth few,
          run,
          join_from-written w comps' (resolve [] comps) held,
          lt→ltb (length (resolved (b'/' ∷ xs))) tmpfs_max_path_len
              (omega (arith, length-resolved xs, short)),
        )
        refl

  concatenate-trailing : trailing (split b'/' (b'/' ∷ xs)) ≡ true → concatenate cwd path ≡ fault
  unfolding concatenate spilt
  concatenate-trailing last =
      let comps = split b'/' (b'/' ∷ xs) in
      rw
        (
          concatenate,
          whole,
          lt→ltb (length (b'/' ∷ xs)) tmpfs_max_path_len short,
          spilt,
          lt→ltb (length comps) vfs_max_depth few,
          whole_path comps true last,
        )
        refl

first_is_slash : (cs : List ℕ) → starts_with_slash cs ≡ true → (xs : List ℕ) × (cs ≡ b'/' ∷ xs)
first_is_slash [] e = ground (arith, e)
first_is_slash (c ∷ cs) e = (cs, ap (λ x. x ∷ cs) (ground (arith, e)))

-- For a relative path and a `cwd` that starts and ends with a slash, which fit the array of 255
-- bytes and have less than 64 components together, `to_abs_path` returns 0 and the path that the
-- components lead to, if the last one is not empty and not "."; otherwise it reads through the NULL
-- behind the components.
pub to_abs_path-resolved :
    (abs_path cwd path : List ℕ)
    → starts_with_slash path ≡ false
    → starts_with_slash cwd ≡ true
    → ends_with_slash cwd ≡ true
    → length (cwd ++ path) < tmpfs_max_path_len
    → length (split b'/' (cwd ++ path)) < vfs_max_depth
    → (trailing (split b'/' (cwd ++ path)) ≡ false
        → to_abs_path abs_path cwd path ≡ ok (pos 0, resolved (cwd ++ path)))
      × (trailing (split b'/' (cwd ++ path)) ≡ true → to_abs_path abs_path cwd path ≡ fault)
unfolding to_abs_path
to_abs_path-resolved abs_path cwd path relative first last short few =
    let (xs, e) = first_is_slash cwd first in
    let whole : cwd ++ path ≡ b'/' ∷ (xs ++ path) = ap (λ l. l ++ path) e in
    let short' = subst (λ l. length l < tmpfs_max_path_len) whole short in
    let few' = subst (λ l. length (split b'/' l) < vfs_max_depth) whole few in
    (
      λ plain.
          rw
            (
              to_abs_path,
              relative,
              first,
              last,
              concatenate-resolved cwd path (xs ++ path) whole short' few'
                  (subst (λ l. trailing (split b'/' l) ≡ false) whole plain),
            )
            (ap (λ l. ok (pos 0, resolved l)) (sym whole)),
      λ blank.
          rw
            (
              to_abs_path,
              relative,
              first,
              last,
              concatenate-trailing cwd path (xs ++ path) whole short' few'
                  (subst (λ l. trailing (split b'/' l) ≡ true) whole blank),
            )
            refl,
    )
